-- ===== src/Registry/Order.antt =====
-- The order of a tool call: src/assistant_agent/tools/registry.py.
use assistant_agent.Permissions.Gate.{request_permissions, ToolContext}
use mathlib.Core.List.{append-nil, append_assoc}
use assistant_agent.Base.{
  ◌≡◌, refl, sym, ap, ◌∙◌, String, Bool, true, false, ◌&&◌, ◌||◌, none, some, List, [], ◌∷◌, ◌++◌,
  ◌==◌, inl, inr, find, contains, is_some, Bool-cases, Option-cases, if◌then◌else◌, subst,
}
use assistant_agent.Base.Result.{◌>>=◌, ◌>>◌}
use assistant_agent.Budget.{Reason, ToolBudget, try_consume_call}
use assistant_agent.ToolResult.{Text, ToolResult, error_result, codes}
use assistant_agent.Run.State.{ReplayPolicy, requires_decision}
use assistant_agent.Permissions.Requests.{PermissionRequest}
use assistant_agent.Registry.{
  Event, approval_pending, tool_started, tool_run, tool_completed, Tool, Funnel, Execution,
  clear_argument_failures, record_argument_failure, log_event, notify, budget_error,
  forget_failures,
}
use assistant_agent.Registry.Execute.{
  finish, run_tool, start, refuse_budget, charge, refuse, will_prompt, announce, open_gate,
  pass_gate, permit, check_observed, check, invalid_arguments, validate, call_tool, execute,
  observe,
}
use assistant_agent.Registry.Events.{
  closes, starts, closes-nothing, IsOrdered, Adds, told, is_told, notify_lem, closes-told,
  closes-starts, starts-told, starts-IsOrdered, weaken, asked-IsOrdered,
}
use assistant_agent.Registry.Completions.{finish_events, refuse_observed_events}

-- What the run gives.
tool_result : {Args : Type 0} → Tool Args → Args → ToolResult
tool_result t args = elim (t.run args) [
  | some result ↦ result
  | none ↦ error_result (codes "工具执行异常。") "tool_exception" false true
]

module _ {Args : Type 0} (f : Funnel Args) where
  start_events :
      (t : Tool Args) (args : Args) (q : List PermissionRequest) (p : ReplayPolicy) (x : Execution)
      → Adds (λ es. starts (is_some f.lifecycle) es ≡ true) x.events (start f t args q p x).1.events
  unfolding start run_tool tool_result closes
  start_events t args q p x =
      let s = tool_started q p in
      let y : Execution = record x { events = x.events ++ told f.lifecycle s } in
      elim (Bool-cases (is_told f.lifecycle s)) [
        | inl k ↦
            let done = finish_events f (tool_result t args) q p (log_event tool_run y) in
            record {
              tail = told f.lifecycle s ++ tool_run ∷ done.tail;
              added =
                  rw (notify_lem f.lifecycle s x, k)
                    (done.added
                      ∙ append_assoc (x.events ++ told f.lifecycle s) (tool_run ∷ []) done.tail
                      ∙ append_assoc x.events (told f.lifecycle s) (tool_run ∷ done.tail));
              fits =
                  subst
                    (λ b.
                      starts (is_some f.lifecycle)
                        (told f.lifecycle s ++ (if b then tool_run ∷ done.tail else []))
                      ≡ true)
                    k (starts-told f.lifecycle q p done.tail done.fits);
            }
        | inr k ↦ record {
          tail = told f.lifecycle s;
          added = rw (notify_lem f.lifecycle s x, k) refl;
          fits =
              subst (λ es. starts (is_some f.lifecycle) es ≡ true) (append-nil (told f.lifecycle s))
                (subst
                  (λ b.
                    starts (is_some f.lifecycle)
                      (told f.lifecycle s ++ (if b then tool_run ∷ [] else []))
                    ≡ true)
                  k (starts-told f.lifecycle q p [] refl));
        }
      ]

  abbrev Starts : List Event → Type 0
  Starts es = starts (is_some f.lifecycle) es ≡ true

  refuse_events :
      (r : ToolResult) (q : List PermissionRequest) (p : ReplayPolicy) (x : Execution)
      → Adds Starts x.events (finish f r q p x).1.events
  refuse_events r q p x = weaken (closes-starts (is_some f.lifecycle)) (finish_events f r q p x)

  refuse_budget_events :
      (why : Reason) (b : ToolBudget) (q : List PermissionRequest) (p : ReplayPolicy)
      (x : Execution)
      → Adds Starts x.events (refuse_budget f why b q p x).1.events
  unfolding refuse_budget
  refuse_budget_events why b q p x =
      let e = tool_completed (budget_error f.decimal why b) q p in
      record {
        tail = told f.lifecycle e;
        added = elim (Bool-cases (is_told f.lifecycle e)) [
          | inl k ↦ rw (notify_lem f.lifecycle e x, k) refl
          | inr k ↦ rw (notify_lem f.lifecycle e x, k) refl
        ];
        fits =
            closes-starts (is_some f.lifecycle) _
              (closes-told f.lifecycle (budget_error f.decimal why b) q p);
      }

  charge_events :
      (t : Tool Args) (args : Args) (q : List PermissionRequest) (p : ReplayPolicy) (x : Execution)
      → Adds Starts x.events (charge f t args q p x).1.events
  unfolding charge
  charge_events t args q p x = elim (Option-cases x.budget) [
    | inl n ↦ rw (charge, n) (start_events t args q p x)
    | inr (b, n) ↦ elim (Option-cases (try_consume_call b).0) [
      | inl m ↦
          rw (charge, n, m)
            (start_events t args q p (record x { budget = some (try_consume_call b).1 }))
      | inr (why, m) ↦
          rw (charge, n, m)
            (refuse_budget_events why (try_consume_call b).1 q p
              (record x { budget = some (try_consume_call b).1 }))
    ]
  ]

  pass_gate_events :
      (t : Tool Args) (args : Args) (q : List PermissionRequest) (p : ReplayPolicy) (b : Bool)
      (x : Execution)
      → Adds Starts x.events (pass_gate f t args q p b x).1.events
  unfolding pass_gate refuse
  pass_gate_events t args q p true x = charge_events t args q p x
  pass_gate_events t args q p false x = refuse_events _ q p x

  abbrev Ordered : List Event → Type 0
  Ordered es = IsOrdered (is_some f.lifecycle) es

  abbrev gate : List PermissionRequest → Execution → Bool × ToolContext
  gate q x = request_permissions f.host f.prompts f.request_id q x.ctx

  gate_events :
      (t : Tool Args) (args : Args) (q : List PermissionRequest) (p : ReplayPolicy) (x : Execution)
      → Adds Starts x.events ((open_gate f q >>= pass_gate f t args q p) x).1.events
  unfolding open_gate
  gate_events t args q p x =
      pass_gate_events t args q p (gate q x).0 (record x { ctx = (gate q x).1 })

  announced_events :
      (t : Tool Args) (args : Args) (q : List PermissionRequest) (p : ReplayPolicy) (x : Execution)
      → Adds Ordered x.events
          ((notify f.lifecycle (approval_pending q p) >> (open_gate f q >>= pass_gate f t args q p))
            x).1.events
  announced_events t args q p x =
      let e = approval_pending q p in
      let y : Execution = record x { events = x.events ++ told f.lifecycle e } in
      let rest = gate_events t args q p y in
      elim (Bool-cases (is_told f.lifecycle e)) [
        | inl k ↦ record {
          tail = told f.lifecycle e ++ rest.tail;
          added =
              rw (notify_lem f.lifecycle e x, k)
                (rest.added ∙ append_assoc x.events (told f.lifecycle e) rest.tail);
          fits = asked-IsOrdered f.lifecycle q p rest.tail rest.fits;
        }
        | inr k ↦ record {
          tail = told f.lifecycle e ++ [];
          added =
              rw (notify_lem f.lifecycle e x, k)
                (ap (λ es. x.events ++ es) (sym (append-nil (told f.lifecycle e))));
          fits =
              asked-IsOrdered f.lifecycle q p []
                (closes-starts (is_some f.lifecycle) [] closes-nothing);
        }
      ]

  permit_events :
      (t : Tool Args) (args : Args) (q : List PermissionRequest) (p : ReplayPolicy) (x : Execution)
      → Adds Ordered x.events (permit f t args q p x).1.events
  unfolding permit announce
  permit_events t args q p x = elim (Bool-cases (will_prompt f q x)) [
    | inl w ↦ rw (announce, w) (announced_events t args q p x)
    | inr w ↦
        rw (announce, w)
          (weaken (starts-IsOrdered (is_some f.lifecycle)) (gate_events t args q p x))
  ]

  nothing_added : (x : Execution) → Adds Ordered x.events x.events
  nothing_added x = record {
    tail = [];
    added = sym (append-nil x.events);
    fits =
        starts-IsOrdered (is_some f.lifecycle) []
          (closes-starts (is_some f.lifecycle) [] closes-nothing);
  }

  finish-Ordered :
      (r : ToolResult) (q : List PermissionRequest) (p : ReplayPolicy) (x : Execution)
      → Adds Ordered x.events (finish f r q p x).1.events
  finish-Ordered r q p x = weaken (starts-IsOrdered (is_some f.lifecycle)) (refuse_events r q p x)

  observed_events :
      (t : Tool Args) (args : Args) (q : List PermissionRequest) (x : Execution)
      → Adds Ordered x.events (check_observed f t args q x).1.events
  unfolding check_observed refuse
  observed_events t args q x = elim (Option-cases (observe f f.pre_tool_observers t.name args q)) [
    | inl m ↦ rw (check_observed, m) (finish-Ordered _ [] requires_decision x)
    | inr ([], m) ↦ rw (check_observed, m) (permit_events t args q _ x)
    | inr (c ∷ cs, m) ↦
        rw (check_observed, m)
          (weaken
            (λ es h.
              starts-IsOrdered (is_some f.lifecycle) es (closes-starts (is_some f.lifecycle) es h))
            (refuse_observed_events f (c ∷ cs) q _ x))
  ]

  check_events :
      (t : Tool Args) (args : Args) (x : Execution)
      → Adds Ordered x.events (check f t args x).1.events
  unfolding check refuse
  check_events t args x = elim (Option-cases (t.permission_requests args)) [
    | inl n ↦ rw (check, n) (finish-Ordered _ [] requires_decision x)
    | inr (q, n) ↦ rw (check, n) (observed_events t args q x)
  ]

  invalid_events :
      (t : Tool Args) (args : Args) (m : Text) (x : Execution)
      → Adds Ordered x.events (invalid_arguments f t args m x).1.events
  unfolding invalid_arguments record_argument_failure
  invalid_events t args m x =
      elim (Bool-cases (t.name == "create_output" || f.is_parse_error args)) [
        | inl k ↦ rw (invalid_arguments, k) (finish-Ordered _ [] requires_decision _)
        | inr k ↦ rw (invalid_arguments, k) (finish-Ordered _ [] requires_decision x)
      ]

  cleared_events :
      (t : Tool Args) (args : Args) (x : Execution)
      → Adds Ordered x.events ((clear_argument_failures t.name >> check f t args) x).1.events
  unfolding clear_argument_failures
  cleared_events t args x = elim (Bool-cases (contains x.blocked_argument_tools t.name)) [
    | inl k ↦ rw k (check_events t args x)
    | inr k ↦ rw k (
        check_events t args
          (record x { argument_failure_counts = forget_failures t.name x.argument_failure_counts }))
  ]

  validate_events :
      (t : Tool Args) (args : Args) (x : Execution)
      → Adds Ordered x.events (validate f t args x).1.events
  unfolding validate
  validate_events t args x = elim (Option-cases (t.validation_error args)) [
    | inl n ↦ rw (validate, n) (cleared_events t args x)
    | inr (m, n) ↦ rw (validate, n) (invalid_events t args m x)
  ]

  call_events :
      (t : Tool Args) (args : Args) (x : Execution)
      → Adds Ordered x.events (call_tool f t args x).1.events
  unfolding call_tool
  call_events t args x = elim (Bool-cases (contains x.blocked_argument_tools t.name)) [
    | inl k ↦ rw (call_tool, k) (finish-Ordered _ [] requires_decision x)
    | inr k ↦ rw (call_tool, k) (validate_events t args x)
  ]

  execute_events :
      (name : String) (args : Args) (id : String) (x : Execution)
      → Adds Ordered x.events (execute f name args id x).1.events
  unfolding execute
  execute_events name args id x = elim (Bool-cases (is_some f.lifecycle && id == "")) [
    | inl k ↦ rw (execute, k) (nothing_added x)
    | inr k ↦ elim (Option-cases (find (λ t. t.name == name) f.tools)) [
      | inl n ↦ rw (execute, k, n) (finish-Ordered _ [] requires_decision x)
      | inr (t, n) ↦ rw (execute, k, n) (call_events t args x)
    ]
  ]

-- The events of one call, from none before it and whatever the tool, the observers, the user and
-- the lifecycle do: at most one question first, then the run, directly after a start that the
-- lifecycle saved if there is one, then at most one completion, which nothing follows; or no run,
-- and at most the completion.
pub execute-IsOrdered :
    {Args : Type 0} (f : Funnel Args) (name : String) (args : Args) (id : String) (x : Execution)
    → x.events ≡ []
    → IsOrdered (is_some f.lifecycle) (execute f name args id x).1.events
execute-IsOrdered f name args id x h =
    let a = execute_events f name args id x in
    subst (IsOrdered (is_some f.lifecycle)) (sym (a.added ∙ ap (λ es. es ++ a.tail) h)) a.fits
