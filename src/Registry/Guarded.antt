-- ===== src/Registry/Guarded.antt =====
-- From a run back to the checks of a call: src/assistant_agent/tools/registry.py.
use assistant_agent.Base.{
  ◌≡◌, refl, sym, ap, ◌∙◌, String, true, false, ◌&&◌, ◌||◌, Option, none, some, List, [], ◌∷◌, ◌==◌,
  inl, inr, any, find, contains, is_some, Bool-cases, Option-cases, if◌then◌else◌,
}
use assistant_agent.Budget.{ToolBudget, exhausted_reason}
use assistant_agent.ToolResult.{Text}
use assistant_agent.Run.State.{requires_decision}
use assistant_agent.Permissions.Requests.{PermissionRequest, deny}
use assistant_agent.Permissions.Gate.{ToolContext, has_effect, request_permissions}
use assistant_agent.Registry.{
  Tool, Funnel, Execution, clear_argument_failures, record_argument_failure, forget_failures,
}
use assistant_agent.Registry.Execute.{
  refuse, permit, observe, check_observed, check, invalid_arguments, validate, call_tool, execute,
  replay_policy,
}
use assistant_agent.Registry.Guards.{
  absurd_run, refuse_observed-has_run, has_run, finish-has_run, permit-has_run, Passed,
}

module _ {Args : Type 0} (f : Funnel Args) where
  observed-passed :
      (t : Tool Args) (args : Args) (q : List PermissionRequest) (x : Execution)
      → observe f f.pre_tool_observers t.name args q ≡ some []
      → check_observed f t args q x
        ≡ permit f t args q (replay_policy f t args q x.ctx.workspace_root) x
  unfolding check_observed
  observed-passed t args q x m = rw (check_observed, m) refl

  observed-has_run :
      (t : Tool Args) (args : Args) (q : List PermissionRequest) (x : Execution)
      → has_run x.events ≡ false
      → has_run (check_observed f t args q x).1.events ≡ true
      → (observe f f.pre_tool_observers t.name args q ≡ some []) × Passed f q x.ctx x.budget
  unfolding check_observed refuse
  observed-has_run t args q x h k =
      elim (Option-cases (observe f f.pre_tool_observers t.name args q)) [
        | inl m ↦
            absurd_run h k (rw (check_observed, m) (finish-has_run f _ [] requires_decision x))
        | inr ([], m) ↦ (
          m,
          permit-has_run f t args q _ x h
              (ap (λ y. has_run y.1.events) (sym (observed-passed t args q x m)) ∙ k),
        )
        | inr (c ∷ cs, m) ↦
            absurd_run h k (rw (check_observed, m) (refuse_observed-has_run f (c ∷ cs) q _ x))
      ]

  check-requested :
      (t : Tool Args) (args : Args) (q : List PermissionRequest) (x : Execution)
      → t.permission_requests args ≡ some q
      → check f t args x ≡ check_observed f t args q x
  unfolding check
  check-requested t args q x n = rw (check, n) refl

  -- What a run shows of the requests, once the arguments are valid.
  pub record Checked (t : Tool Args) (args : Args) (ctx : ToolContext) (budget : Option ToolBudget)
      : Type 0 where
    pub requests : List PermissionRequest
    pub requested : t.permission_requests args ≡ some requests
    pub unopposed : observe f f.pre_tool_observers t.name args requests ≡ some []
    pub passed : Passed f requests ctx budget

  check-has_run :
      (t : Tool Args) (args : Args) (x : Execution)
      → has_run x.events ≡ false
      → has_run (check f t args x).1.events ≡ true
      → Checked t args x.ctx x.budget
  unfolding check refuse
  check-has_run t args x h k = elim (Option-cases (t.permission_requests args)) [
    | inl n ↦ absurd_run h k (rw (check, n) (finish-has_run f _ [] requires_decision x))
    | inr (q, n) ↦
        let (o, p) =
          observed-has_run t args q x h
            (ap (λ y. has_run y.1.events) (sym (check-requested t args q x n)) ∙ k) in
        record { requests = q; requested = n; unopposed = o; passed = p }
  ]

  invalid-has_run :
      (t : Tool Args) (args : Args) (m : Text) (x : Execution)
      → has_run (invalid_arguments f t args m x).1.events ≡ has_run x.events
  unfolding invalid_arguments record_argument_failure
  invalid-has_run t args m x =
      elim (Bool-cases (t.name == "create_output" || f.is_parse_error args)) [
        | inl k ↦ rw (invalid_arguments, k) (finish-has_run f _ [] requires_decision _)
        | inr k ↦ rw (invalid_arguments, k) (finish-has_run f _ [] requires_decision x)
      ]

  abbrev cleared : Tool Args → Execution → Execution
  cleared t x =
      if contains x.blocked_argument_tools t.name
      then x
      else record x { argument_failure_counts = forget_failures t.name x.argument_failure_counts }

  validate-valid :
      (t : Tool Args) (args : Args) (x : Execution)
      → t.validation_error args ≡ none
      → contains x.blocked_argument_tools t.name ≡ false
      → validate f t args x
        ≡ check f t args (record x {
          argument_failure_counts = forget_failures t.name x.argument_failure_counts;
        })
  unfolding validate clear_argument_failures
  validate-valid t args x n b = rw (validate, n, b) refl

  validate-has_run :
      (t : Tool Args) (args : Args) (x : Execution)
      → contains x.blocked_argument_tools t.name ≡ false
      → has_run x.events ≡ false
      → has_run (validate f t args x).1.events ≡ true
      → (t.validation_error args ≡ none) × Checked t args x.ctx x.budget
  unfolding validate
  validate-has_run t args x b h k = elim (Option-cases (t.validation_error args)) [
    | inl n ↦ (
      n,
      check-has_run t args
          (record x { argument_failure_counts = forget_failures t.name x.argument_failure_counts })
          h (ap (λ y. has_run y.1.events) (sym (validate-valid t args x n b)) ∙ k),
    )
    | inr (m, n) ↦ absurd_run h k (rw (validate, n) (invalid-has_run t args m x))
  ]

  called :
      (t : Tool Args) (args : Args) (x : Execution)
      → contains x.blocked_argument_tools t.name ≡ false
      → call_tool f t args x ≡ validate f t args x
  unfolding call_tool
  called t args x b = rw (call_tool, b) refl

  call_tool-has_run :
      (t : Tool Args) (args : Args) (x : Execution)
      → has_run x.events ≡ false
      → has_run (call_tool f t args x).1.events ≡ true
      → (contains x.blocked_argument_tools t.name ≡ false)
        × (t.validation_error args ≡ none)
        × Checked t args x.ctx x.budget
  unfolding call_tool
  call_tool-has_run t args x h k = elim (Bool-cases (contains x.blocked_argument_tools t.name)) [
    | inl b ↦ absurd_run h k (rw (call_tool, b) (finish-has_run f _ [] requires_decision x))
    | inr b ↦
        let (v, c) =
          validate-has_run t args x b h
            (ap (λ y. has_run y.1.events) (sym (called t args x b)) ∙ k) in
        (b, v, c)
  ]

  execute-called :
      (name : String) (args : Args) (id : String) (x : Execution) (t : Tool Args)
      → (is_some f.lifecycle && id == "") ≡ false
      → find (λ t. t.name == name) f.tools ≡ some t
      → execute f name args id x ≡ call_tool f t args x
  unfolding execute
  execute-called name args id x t n e = rw (execute, n, e) refl

  -- If a call, from no event before it, has run its tool, then the tool is registered and not
  -- blocked, its arguments are valid, it could state its requests and no observer opposed, the
  -- policy denies none of the requests, the gate opened, and the budget, if there is one, was not
  -- exhausted.
  pub execute-has_run :
      (name : String) (args : Args) (id : String) (x : Execution)
      → x.events ≡ []
      → has_run (execute f name args id x).1.events ≡ true
      → (t : Tool Args) × (q : List PermissionRequest) × (find (λ t. t.name == name) f.tools
          ≡ some t)
        × (contains x.blocked_argument_tools t.name ≡ false)
        × (t.validation_error args ≡ none)
        × (t.permission_requests args ≡ some q)
        × (observe f f.pre_tool_observers t.name args q ≡ some [])
        × (any (has_effect f.host x.ctx deny) q ≡ false)
        × ((request_permissions f.host f.prompts f.request_id q x.ctx).0 ≡ true)
        × ((b : ToolBudget) → x.budget ≡ some b → exhausted_reason b ≡ none)
  unfolding execute
  execute-has_run name args id x e k = elim (Bool-cases (is_some f.lifecycle && id == "")) [
    | inl n ↦ absurd_run (ap has_run e) k (rw (execute, n) refl)
    | inr n ↦ elim (Option-cases (find (λ t. t.name == name) f.tools)) [
      | inl m ↦
          absurd_run (ap has_run e) k
            (rw (execute, n, m) (finish-has_run f _ [] requires_decision x))
      | inr (t, m) ↦
          let (b, v, c) =
            call_tool-has_run t args x (ap has_run e)
              (ap (λ y. has_run y.1.events) (sym (execute-called name args id x t n m)) ∙ k) in
          (
            t, c.requests, m, b, v, c.requested, c.unopposed, c.passed.undenied, c.passed.permitted,
            c.passed.affordable,
          )
    ]
  ]
