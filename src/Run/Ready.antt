-- ===== src/Run/Ready.antt =====
-- When a checkpoint succeeds: the bound budget is within limits that the run's hard limits cover,
-- the store accepts, and the state is consistent. Then the boundary that ends a transition saves.
use assistant_agent.Base.{
  ℕ, ◌≤◌, ◌≡◌, true, false, List, ◌∷◌, arith, if◌then◌else◌, Bool-cases, inl, inr, ◌∙◌,
}
use assistant_agent.Base.Result.{ok, err, validation_error, ◌>>◌, pure, seq_assoc}
use assistant_agent.Budget.{ToolBudget, ToolBudgetState, encode_budget}
use assistant_agent.Budget.Limits.{IsWithin}
use assistant_agent.Run.State.{RunState, ContinuationBudgetState, PermissionGrantState}
use assistant_agent.Run.Consistency.{
  control_fits, is_consistent_control, budgets_fit, is_consistent, Parts-of, is_consistent_of,
}
use assistant_agent.Run.Coordinator.{Coordinator, store_budget, capture_bound_context, checkpoint}

pub record IsSound (c : Coordinator) : Type 0 where
  pub within : IsWithin c.budget
  pub calls_covered : c.budget.max_calls ≤ c.state.tool_call_continuation.hard_limit
  pub output_covered : c.budget.max_total_output_chars ≤ c.state.tool_output_continuation.hard_limit
  pub accepting : (saved : List RunState) (s : RunState) → c.accepts saved s ≡ true

abbrev pub saved_form : ToolBudget → ToolBudgetState
saved_form b = record {
  max_calls = b.max_calls;
  max_total_output_chars = b.max_total_output_chars;
  used_calls = b.used_calls;
  used_output_chars = b.used_output_chars;
}

-- What the boundary writes: the shared budget and grants if they are bound, and the snapshot.
abbrev pub captured : Coordinator → RunState
captured c =
    if c.bound
    then record c.state { permission_grants = c.grants; tool_budget = saved_form c.budget }
    else c.state

abbrev pub finished : Coordinator → Coordinator
finished c = record c { state = captured c; saved = captured c ∷ c.saved }

pub encode_budget-within : (b : ToolBudget) → IsWithin b → encode_budget b ≡ ok (saved_form b)
unfolding encode_budget
encode_budget-within b w = ground arith

capture_lem :
    (c : Coordinator)
    → IsWithin c.budget
    → capture_bound_context c ≡ (ok tt, record c { state = captured c })
unfolding capture_bound_context store_budget
capture_lem c w = ground (arith, encode_budget-within c.budget w)

budgets_fit-saved_form :
    (limit : ℕ) (old : ToolBudgetState) (b : ToolBudget)
    (rounds calls chars : ContinuationBudgetState)
    → IsWithin b
    → b.max_calls ≤ calls.hard_limit
    → b.max_total_output_chars ≤ chars.hard_limit
    → budgets_fit limit old rounds calls chars ≡ true
    → budgets_fit limit (saved_form b) rounds calls chars ≡ true
unfolding budgets_fit
budgets_fit-saved_form limit old b rounds calls chars w h k p = ground arith

is_consistent-budget :
    (s : RunState) (g : List PermissionGrantState) (b : ToolBudget)
    → IsWithin b
    → b.max_calls ≤ s.tool_call_continuation.hard_limit
    → b.max_total_output_chars ≤ s.tool_output_continuation.hard_limit
    → is_consistent s ≡ true
    → is_consistent (record s { permission_grants = g; tool_budget = saved_form b }) ≡ true
is_consistent-budget s g b w calls output h =
    let p = Parts-of s h in
    is_consistent_of _ (record {
      control = p.control;
      budgets =
          budgets_fit-saved_form s.iteration_budget s.tool_budget b s.iteration_continuation
            s.tool_call_continuation s.tool_output_continuation w calls output p.budgets;
      signature = p.signature;
      calls = p.calls;
      presentations = p.presentations;
      outputs = p.outputs;
      timeline = p.timeline;
      bounded = p.bounded;
      capture = p.capture;
      decisions = p.decisions;
      retries = p.retries;
    })

pub is_consistent-captured :
    (c : Coordinator) → IsSound c → is_consistent c.state ≡ true → is_consistent (captured c) ≡ true
is_consistent-captured c s h = elim (Bool-cases c.bound) [
  | inl bound ↦
      rw bound
        (is_consistent-budget c.state c.grants c.budget s.within s.calls_covered s.output_covered h)
  | inr unbound ↦ rw unbound h
]

-- From a consistent state the end of a transition saves the snapshot and raises nothing.
pub boundary_lem :
    (c : Coordinator)
    → IsSound c
    → is_consistent c.state ≡ true
    → (capture_bound_context >> checkpoint) c ≡ (ok tt, finished c)
unfolding checkpoint
boundary_lem c s h =
    rw (capture_lem c s.within, is_consistent-captured c s h, s.accepting c.saved (captured c))

pub finished-IsSound : (c : Coordinator) → IsSound c → IsSound (finished c)
finished-IsSound c s = record {
  within = s.within;
  calls_covered = ground arith;
  output_covered = ground arith;
  accepting = s.accepting;
}

pub tool_calls-captured : (c : Coordinator) → (captured c).tool_calls ≡ c.state.tool_calls
tool_calls-captured c = ground arith

-- Where status, phase, failure and pending capture disagree, the boundary refuses the snapshot.
pub boundary_refused :
    (c : Coordinator)
    → IsSound c
    → control_fits c.state.status c.state.phase c.state.tool_calls c.state.pending_output_capture
        c.state.failure
      ≡ false
    → (capture_bound_context >> checkpoint) c
      ≡ (err validation_error, record c { state = captured c })
unfolding checkpoint
boundary_refused c s h = rw (capture_lem c s.within, bad)
  where
    bad : is_consistent (captured c) ≡ false
    bad = elim (Bool-cases c.bound) [
      | inl bound ↦ rw bound (is_consistent_control _ h)
      | inr unbound ↦ rw unbound (is_consistent_control _ h)
    ]

pub messages-captured : (c : Coordinator) → (captured c).messages ≡ c.state.messages
messages-captured c = ground arith

pub retry_safety-captured : (c : Coordinator) → (captured c).retry_safety ≡ c.state.retry_safety
retry_safety-captured c = ground arith

pub control-captured :
    (c : Coordinator)
    → ((captured c).status ≡ c.state.status)
      × ((captured c).phase ≡ c.state.phase)
      × ((captured c).failure ≡ c.state.failure)
control-captured c = (ground arith, ground arith, ground arith)

-- The boundary, and then the value that the transition returns.
pub pure_after :
    {A : Type 0} (c : Coordinator) (a : A) {d : Coordinator}
    → (capture_bound_context >> checkpoint) c ≡ (ok tt, d)
    → (do capture_bound_context; checkpoint; pure a) c ≡ (ok a, d)
pure_after {A} c a h = seq_assoc capture_bound_context checkpoint (pure a) c ∙ rw h
