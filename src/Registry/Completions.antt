-- ===== src/Registry/Completions.antt =====
-- The completions of a call and what they add to its events: src/assistant_agent/tools/registry.py.
use assistant_agent.Registry.Output.{limit_result_output}
use mathlib.Core.List.{append-nil}
use assistant_agent.Base.{◌≡◌, refl, ap, ◌∙◌, true, false, List, [], ◌++◌, inl, inr, Bool-cases}
use assistant_agent.Base.Result.{ok, err, storage_error}
use assistant_agent.ToolResult.{Text, ToolResult, codes}
use assistant_agent.Run.State.{ReplayPolicy, requires_decision}
use assistant_agent.Permissions.Requests.{PermissionRequest}
use assistant_agent.Registry.{Event, tool_completed, Funnel, Execution, limit_output, denied_result}
use assistant_agent.Registry.Execute.{finish, refuse, refuse_observed, caught}
use assistant_agent.Registry.Events.{
  told-nothing, closes, Adds, told, is_told, notify_lem, closes-told,
}

module _ {Args : Type 0} (f : Funnel Args) where
  pub finish_events :
      (r : ToolResult) (q : List PermissionRequest) (p : ReplayPolicy) (x : Execution)
      → Adds (λ es. closes es ≡ true) x.events (finish f r q p x).1.events
  unfolding finish limit_output
  finish_events r q p x =
      let limited = (limit_result_output f.max_output_chars r x.budget) in
      let e = tool_completed limited.0 q p in
      record {
        tail = told f.lifecycle e;
        added = elim (Bool-cases (is_told f.lifecycle e)) [
          | inl k ↦ rw (notify_lem f.lifecycle e (record x { budget = limited.1.0 }), k) refl
          | inr k ↦ rw (notify_lem f.lifecycle e (record x { budget = limited.1.0 }), k) refl
        ];
        fits = closes-told f.lifecycle limited.0 q p;
      }

  abbrev limited_by : ToolResult → Execution → ToolResult
  limited_by r x = (limit_result_output f.max_output_chars r x.budget).0

  -- What a completion leaves, saved or not.
  abbrev closed : ToolResult → List PermissionRequest → ReplayPolicy → Execution → Execution
  closed r q p x = record x {
    budget = (limit_result_output f.max_output_chars r x.budget).1.0;
    events = x.events ++ told f.lifecycle (tool_completed (limited_by r x) q p);
  }

  finish-told :
      (r : ToolResult) (q : List PermissionRequest) (p : ReplayPolicy) (x : Execution)
      → is_told f.lifecycle (tool_completed (limited_by r x) q p) ≡ true
      → finish f r q p x ≡ (ok (limited_by r x), closed r q p x)
  unfolding finish limit_output
  finish-told r q p x k =
      rw
        (
          notify_lem f.lifecycle (tool_completed (limited_by r x) q p)
              (record x { budget = (limit_result_output f.max_output_chars r x.budget).1.0 }),
          k,
        )
        refl

  finish-untold :
      (r : ToolResult) (q : List PermissionRequest) (p : ReplayPolicy) (x : Execution)
      → is_told f.lifecycle (tool_completed (limited_by r x) q p) ≡ false
      → finish f r q p x ≡ (err storage_error, closed r q p x)
  unfolding finish limit_output
  finish-untold r q p x k =
      rw
        (
          notify_lem f.lifecycle (tool_completed (limited_by r x) q p)
              (record x { budget = (limit_result_output f.max_output_chars r x.budget).1.0 }),
          k,
        )
        refl

  abbrev Closes : List Event → Type 0
  Closes es = closes es ≡ true

  caught_events :
      (r : ToolResult) (q : List PermissionRequest) (p : ReplayPolicy) (x : Execution)
      → Adds Closes x.events (caught f (finish f r q p x)).1.events
  unfolding caught refuse
  caught_events r q p x =
      let e = tool_completed (limited_by r x) q p in
      elim (Bool-cases (is_told f.lifecycle e)) [
        | inl k ↦ rw (finish-told r q p x k) (record {
          tail = told f.lifecycle e;
          added = refl;
          fits = closes-told f.lifecycle (limited_by r x) q p;
        })
        | inr k ↦
            let again =
              finish_events
                (denied_result (codes "[permission_denied] 权限检查失败，已拒绝执行") "permission_check_failed")
                [] requires_decision (closed r q p x) in
            rw (finish-untold r q p x k) (record {
              tail = again.tail;
              added =
                  again.added
                  ∙ ap (λ es. es ++ again.tail)
                      (ap (λ es. x.events ++ es) (told-nothing f.lifecycle e k)
                        ∙ append-nil x.events);
              fits = again.fits;
            })
      ]

  -- A refusal by an observer adds at most one completion, also where the first was not saved.
  pub refuse_observed_events :
      (reason : Text) (q : List PermissionRequest) (p : ReplayPolicy) (x : Execution)
      → Adds Closes x.events (refuse_observed f reason q p x).1.events
  unfolding refuse_observed refuse
  refuse_observed_events reason q p x =
      caught_events
        (denied_result (codes "[permission_denied] 权限拒绝：" ++ reason) "permission_denied") q p x
