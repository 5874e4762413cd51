-- ===== src/Registry/Guards.antt =====
-- What has to hold before a tool runs: src/assistant_agent/tools/registry.py.
use assistant_agent.Base.{
  ◌≡◌, refl, sym, ap, ◌∙◌, Bool, true, false, ◌||◌, Option, none, some, List, [], ◌∷◌, ◌++◌, inl,
  inr, arith, any, Bool-cases, Option-cases,
}
use assistant_agent.Base.Result.{err, storage_error, ◌>>=◌, ◌>>◌}
use assistant_agent.Budget.{Reason, ToolBudget, try_consume_call, exhausted_reason}
use assistant_agent.Budget.Limits.{try_consume_call_lem}
use assistant_agent.ToolResult.{Text, ToolResult}
use assistant_agent.Run.State.{ReplayPolicy}
use assistant_agent.Permissions.Requests.{PermissionRequest, deny}
use assistant_agent.Permissions.Gate.{ToolContext, has_effect, request_permissions}
use assistant_agent.Permissions.Gate.Memory.{request_permissions-true}
use assistant_agent.Registry.{
  Event, approval_pending, tool_completed, Tool, Funnel, Execution, notify, budget_error, Execute,
}
use assistant_agent.Registry.Execute.{
  refuse_observed, finish, refuse_budget, charge, refuse, will_prompt, announce, open_gate,
  pass_gate, permit,
}
use assistant_agent.Registry.Events.{closes, told, is_told, notify_lem}
use assistant_agent.Registry.Completions.{finish_events, refuse_observed_events}

abbrev pub is_run : Event → Bool
is_run Event.tool_run = true
is_run _ = false

abbrev pub has_run : List Event → Bool
has_run = any is_run

pub has_run-append : (es ds : List Event) → has_run (es ++ ds) ≡ (has_run es || has_run ds)
has_run-append [] ds = refl
has_run-append (e ∷ es) ds = ground (arith, has_run-append es ds)

closes-has_run : (es : List Event) → closes es ≡ true → has_run es ≡ false
unfolding closes
closes-has_run [] h = refl
closes-has_run (Event.tool_completed r q p ∷ []) h = refl
closes-has_run (Event.tool_completed r q p ∷ e ∷ es) h = ground arith
closes-has_run (Event.approval_pending q p ∷ es) h = ground arith
closes-has_run (Event.tool_started q p ∷ es) h = ground arith
closes-has_run (Event.tool_run ∷ es) h = ground arith

told-has_run :
    (l : Option (Event → Bool)) (e : Event) → is_run e ≡ false → has_run (told l e) ≡ false
unfolding told
told-has_run none e h = refl
told-has_run (some accepts) e h = ground arith

pub absurd_run : {A : Type 0} {a b : Bool} → a ≡ false → b ≡ true → b ≡ a → A
absurd_run h k e = ground arith

module _ {Args : Type 0} (f : Funnel Args) where
  pub finish-has_run :
      (r : ToolResult) (q : List PermissionRequest) (p : ReplayPolicy) (x : Execution)
      → has_run (finish f r q p x).1.events ≡ has_run x.events
  finish-has_run r q p x =
      let a = finish_events f r q p x in
      ground (arith, a.added, has_run-append x.events a.tail, closes-has_run a.tail a.fits)

  pub refuse_observed-has_run :
      (reason : Text) (q : List PermissionRequest) (p : ReplayPolicy) (x : Execution)
      → has_run (refuse_observed f reason q p x).1.events ≡ has_run x.events
  refuse_observed-has_run reason q p x =
      let a = refuse_observed_events f reason q p x in
      ground (arith, a.added, has_run-append x.events a.tail, closes-has_run a.tail a.fits)

  refuse_budget-has_run :
      (why : Reason) (b : ToolBudget) (q : List PermissionRequest) (p : ReplayPolicy)
      (x : Execution)
      → has_run (refuse_budget f why b q p x).1.events ≡ has_run x.events
  unfolding refuse_budget
  refuse_budget-has_run why b q p x =
      let e = tool_completed (budget_error f.decimal why b) q p in
      elim (Bool-cases (is_told f.lifecycle e)) [
        | inl k ↦
            rw (notify_lem f.lifecycle e x, k)
              (ground (
                arith,
                has_run-append x.events (told f.lifecycle e),
                told-has_run f.lifecycle e refl,
              ))
        | inr k ↦
            rw (notify_lem f.lifecycle e x, k)
              (ground (
                arith,
                has_run-append x.events (told f.lifecycle e),
                told-has_run f.lifecycle e refl,
              ))
      ]

  charge_refused :
      (t : Tool Args) (args : Args) (q : List PermissionRequest) (p : ReplayPolicy) (x : Execution)
      (b : ToolBudget) (why : Reason)
      → x.budget ≡ some b
      → (try_consume_call b).0 ≡ some why
      → charge f t args q p x
        ≡ refuse_budget f why
            (try_consume_call b).1
            q
            p
            (record x { budget = some (try_consume_call b).1 })
  unfolding charge
  charge_refused t args q p x b why e m = rw (charge, e, m) refl

  -- A run, where there was none, shows that the budget was not exhausted.
  charge-has_run :
      (t : Tool Args) (args : Args) (q : List PermissionRequest) (p : ReplayPolicy) (x : Execution)
      → has_run x.events ≡ false
      → has_run (charge f t args q p x).1.events ≡ true
      → (b : ToolBudget) → x.budget ≡ some b
      → exhausted_reason b ≡ none
  charge-has_run t args q p x h k b e = elim (Option-cases (try_consume_call b).0) [
    | inl m ↦ sym (try_consume_call_lem b).0 ∙ m
    | inr (why, m) ↦ absurd_run h k (
        ap (λ y. has_run y.1.events) (charge_refused t args q p x b why e m)
        ∙ refuse_budget-has_run why (try_consume_call b).1 q p
            (record x { budget = some (try_consume_call b).1 }))
  ]

  -- What a run shows at the gate: the policy denies none of the requests, and the budget was not
  -- exhausted.
  pub record Passed (q : List PermissionRequest) (ctx : ToolContext) (budget : Option ToolBudget)
      : Type 0 where
    pub undenied : any (has_effect f.host ctx deny) q ≡ false
    pub permitted : (request_permissions f.host f.prompts f.request_id q ctx).0 ≡ true
    pub affordable : (b : ToolBudget) → budget ≡ some b → exhausted_reason b ≡ none

  pass_gate-has_run :
      (t : Tool Args) (args : Args) (q : List PermissionRequest) (p : ReplayPolicy) (o : Bool)
      (x : Execution)
      → has_run x.events ≡ false
      → has_run (pass_gate f t args q p o x).1.events ≡ true
      → (o ≡ true) × ((b : ToolBudget) → x.budget ≡ some b → exhausted_reason b ≡ none)
  unfolding pass_gate refuse
  pass_gate-has_run t args q p true x h k = (refl, charge-has_run t args q p x h k)
  pass_gate-has_run t args q p false x h k = absurd_run h k (finish-has_run _ q p x)

  gate-has_run :
      (t : Tool Args) (args : Args) (q : List PermissionRequest) (p : ReplayPolicy) (x : Execution)
      → has_run x.events ≡ false
      → has_run ((open_gate f q >>= pass_gate f t args q p) x).1.events ≡ true
      → Passed q x.ctx x.budget
  unfolding open_gate
  gate-has_run t args q p x h k =
      let gate = request_permissions f.host f.prompts f.request_id q x.ctx in
      let (o, b) = pass_gate-has_run t args q p gate.0 (record x { ctx = gate.1 }) h k in
      record {
        undenied = (request_permissions-true f.host f.prompts f.request_id q x.ctx o).0;
        permitted = o;
        affordable = b;
      }

  abbrev after_gate : Tool Args → Args → List PermissionRequest → ReplayPolicy → Execute ToolResult
  after_gate t args q p = open_gate f q >>= pass_gate f t args q p

  abbrev announced : Tool Args → Args → List PermissionRequest → ReplayPolicy → Execute ToolResult
  announced t args q p = notify f.lifecycle (approval_pending q p) >> after_gate t args q p

  abbrev asking : List PermissionRequest → ReplayPolicy → Execution → Execution
  asking q p x = record x { events = x.events ++ told f.lifecycle (approval_pending q p) }

  asking-has_run :
      (q : List PermissionRequest) (p : ReplayPolicy) (x : Execution)
      → has_run (asking q p x).events ≡ has_run x.events
  asking-has_run q p x = ground (
    arith,
    has_run-append x.events (told f.lifecycle (approval_pending q p)),
    told-has_run f.lifecycle (approval_pending q p) refl,
  )

  announced-told :
      (t : Tool Args) (args : Args) (q : List PermissionRequest) (p : ReplayPolicy) (x : Execution)
      → is_told f.lifecycle (approval_pending q p) ≡ true
      → announced t args q p x ≡ after_gate t args q p (asking q p x)
  announced-told t args q p x k = rw (notify_lem f.lifecycle (approval_pending q p) x, k) refl

  announced-untold :
      (t : Tool Args) (args : Args) (q : List PermissionRequest) (p : ReplayPolicy) (x : Execution)
      → is_told f.lifecycle (approval_pending q p) ≡ false
      → announced t args q p x ≡ (err storage_error, asking q p x)
  announced-untold t args q p x k = rw (notify_lem f.lifecycle (approval_pending q p) x, k) refl

  announced-has_run :
      (t : Tool Args) (args : Args) (q : List PermissionRequest) (p : ReplayPolicy) (x : Execution)
      → has_run x.events ≡ false
      → has_run (announced t args q p x).1.events ≡ true
      → Passed q x.ctx x.budget
  announced-has_run t args q p x h k =
      elim (Bool-cases (is_told f.lifecycle (approval_pending q p))) [
        | inl n ↦
            gate-has_run t args q p (asking q p x) (asking-has_run q p x ∙ h)
              (ap (λ y. has_run y.1.events) (sym (announced-told t args q p x n)) ∙ k)
        | inr n ↦
            absurd_run h k (
              ap (λ y. has_run y.1.events) (announced-untold t args q p x n) ∙ asking-has_run q p x)
      ]

  permit-prompting :
      (t : Tool Args) (args : Args) (q : List PermissionRequest) (p : ReplayPolicy) (x : Execution)
      → will_prompt f q x ≡ true
      → permit f t args q p x ≡ announced t args q p x
  unfolding permit announce
  permit-prompting t args q p x w = rw (announce, w) refl

  permit-silent :
      (t : Tool Args) (args : Args) (q : List PermissionRequest) (p : ReplayPolicy) (x : Execution)
      → will_prompt f q x ≡ false
      → permit f t args q p x ≡ after_gate t args q p x
  unfolding permit announce
  permit-silent t args q p x w = rw (announce, w) refl

  pub permit-has_run :
      (t : Tool Args) (args : Args) (q : List PermissionRequest) (p : ReplayPolicy) (x : Execution)
      → has_run x.events ≡ false
      → has_run (permit f t args q p x).1.events ≡ true
      → Passed q x.ctx x.budget
  permit-has_run t args q p x h k = elim (Bool-cases (will_prompt f q x)) [
    | inl w ↦
        announced-has_run t args q p x h
          (ap (λ y. has_run y.1.events) (sym (permit-prompting t args q p x w)) ∙ k)
    | inr w ↦
        gate-has_run t args q p x h
          (ap (λ y. has_run y.1.events) (sym (permit-silent t args q p x w)) ∙ k)
  ]
