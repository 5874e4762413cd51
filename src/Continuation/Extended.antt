-- ===== src/Continuation/Extended.antt =====
-- The state that an answered request for more budget leaves:
-- src/assistant_agent/agent/run/budgets.py.
use assistant_agent.Budget.Limits.{IsWithin}
use text.Mathlib.TextEquality.{eq_iff}
use assistant_agent.Base.{
  ℕ, ◌<◌, ◌≡◌, String, true, false, none, some, List, [], ◌∷◌, ◌++◌, ◌==◌, arith,
}
use assistant_agent.Base.Result.{ok}
use assistant_agent.Budget.{ToolBudgetState}
use assistant_agent.Run.State.{
  BudgetResource, ContinuationBudgetState, RunState, ContinuationDecisionState,
}
use assistant_agent.Run.Consistency.{
  is_consistent, Parts-of, is_consistent_of, budgets_fit, decisions_fit,
}
use assistant_agent.Run.Coordinator.{Coordinator, store_budget}
use assistant_agent.Run.Ready.{
  IsSound, finished, boundary_lem, saved_form, encode_budget-within, finished-IsSound,
  is_consistent-captured, pure_after,
}
use assistant_agent.Continuation.{
  continuation_state, extend_new, extend_budget, grant, add_decision, decision, is_allowed, decided,
}

-- The limit that the loop asks to raise: it is the one in force, and an output limit of 0 is none.
unfoldable pub IsCurrent : BudgetResource → ℕ → Coordinator → Type 0
IsCurrent BudgetResource.iterations n c = n ≡ c.state.iteration_budget
IsCurrent BudgetResource.tool_calls n c = n ≡ c.budget.max_calls
IsCurrent BudgetResource.tool_output n c = (n ≡ c.budget.max_total_output_chars) × (0 < n)
IsCurrent BudgetResource.context n c = ⊥

-- What a granted extension leaves before it is saved.
abbrev pub extended : String → BudgetResource → ℕ → ℕ → Coordinator → Coordinator
extended id r current new c =
    let g = grant r new c in
    record g {
      state =
          add_decision (decision id r current new true)
            (record g.state { tool_budget = saved_form g.budget });
    }

extended-IsSound :
    (id : String) (r : BudgetResource) (current new : ℕ) (c : Coordinator)
    (s : ContinuationBudgetState)
    → IsSound c
    → IsCurrent r current c
    → continuation_state r c.state ≡ ok s
    → is_allowed s current new ≡ true
    → IsSound (extended id r current new c)
unfolding IsCurrent continuation_state
extended-IsSound id BudgetResource.iterations current new c s h k e a = ground arith
extended-IsSound id BudgetResource.tool_calls current new c s h k e a = ground arith
extended-IsSound id BudgetResource.tool_output current new c s h k e a = ground arith
extended-IsSound id BudgetResource.context current new c s h k e a = ground arith

budgets_fit-extended :
    (id : String) (r : BudgetResource) (current new : ℕ) (c : Coordinator)
    (s : ContinuationBudgetState)
    → IsSound c
    → IsSound (extended id r current new c)
    → continuation_state r c.state ≡ ok s
    → is_allowed s current new ≡ true
    → budgets_fit c.state.iteration_budget c.state.tool_budget c.state.iteration_continuation
        c.state.tool_call_continuation c.state.tool_output_continuation
      ≡ true
    → (let t = (extended id r current new c).state in
        budgets_fit t.iteration_budget t.tool_budget t.iteration_continuation
          t.tool_call_continuation t.tool_output_continuation)
      ≡ true
unfolding budgets_fit continuation_state
budgets_fit-extended id BudgetResource.iterations current new c s h k e a b = ground arith
budgets_fit-extended id BudgetResource.tool_calls current new c s h k e a b = ground arith
budgets_fit-extended id BudgetResource.tool_output current new c s h k e a b = ground arith
budgets_fit-extended id BudgetResource.context current new c s h k e a b = ground arith

pub decisions_fit-snoc :
    (ds : List ContinuationDecisionState) (d : ContinuationDecisionState)
    → (d.request_id == "") ≡ false
    → decisions_fit ds ≡ true
    → decisions_fit (ds ++ d ∷ []) ≡ true
unfolding decisions_fit
decisions_fit-snoc [] d n h = ground arith
decisions_fit-snoc (e ∷ ds) d n h = ground (arith, decisions_fit-snoc ds d n)

-- The other validators do not read the budgets and the decisions.
pub is_consistent-limits :
    (s : RunState) (n : ℕ) (b : ToolBudgetState) (x y z : ContinuationBudgetState)
    (ds : List ContinuationDecisionState)
    → budgets_fit n b x y z ≡ true
    → decisions_fit ds ≡ true
    → is_consistent s ≡ true
    → is_consistent (record s {
      iteration_budget = n;
      tool_budget = b;
      iteration_continuation = x;
      tool_call_continuation = y;
      tool_output_continuation = z;
      continuation_decisions = ds;
    })
      ≡ true
is_consistent-limits s n b x y z ds k fits h =
    let p = Parts-of s h in
    is_consistent_of _ (record {
      control = p.control;
      budgets = k;
      signature = p.signature;
      calls = p.calls;
      presentations = p.presentations;
      outputs = p.outputs;
      timeline = p.timeline;
      bounded = p.bounded;
      capture = p.capture;
      decisions = fits;
      retries = p.retries;
    })

is_consistent-extended :
    (id : String) (r : BudgetResource) (current new : ℕ) (c : Coordinator)
    (s : ContinuationBudgetState)
    → IsSound c
    → IsSound (extended id r current new c)
    → continuation_state r c.state ≡ ok s
    → is_allowed s current new ≡ true
    → (id == "") ≡ false
    → is_consistent c.state ≡ true
    → is_consistent (extended id r current new c).state ≡ true
unfolding continuation_state
is_consistent-extended id BudgetResource.context current new c s h k e a name b = ground arith
is_consistent-extended id BudgetResource.iterations current new c s h k e a name b =
    is_consistent-limits c.state _ _ _ _ _ _
      (budgets_fit-extended id BudgetResource.iterations current new c s h k e a
        (Parts-of c.state b).budgets)
      (decisions_fit-snoc _ _ name (Parts-of c.state b).decisions) b
is_consistent-extended id BudgetResource.tool_calls current new c s h k e a name b =
    is_consistent-limits c.state _ _ _ _ _ _
      (budgets_fit-extended id BudgetResource.tool_calls current new c s h k e a
        (Parts-of c.state b).budgets)
      (decisions_fit-snoc _ _ name (Parts-of c.state b).decisions) b
is_consistent-extended id BudgetResource.tool_output current new c s h k e a name b =
    is_consistent-limits c.state _ _ _ _ _ _
      (budgets_fit-extended id BudgetResource.tool_output current new c s h k e a
        (Parts-of c.state b).budgets)
      (decisions_fit-snoc _ _ name (Parts-of c.state b).decisions) b

store_budget-grant :
    (r : BudgetResource) (new : ℕ) (c : Coordinator)
    → IsWithin (grant r new c).budget
    → store_budget (grant r new c) ≡ (
      ok tt,
      record (grant r new c) {
        state = record (grant r new c).state { tool_budget = saved_form (grant r new c).budget };
      },
    )
unfolding store_budget
store_budget-grant r new c w = ground (arith, encode_budget-within (grant r new c).budget w)

extend_new_lem :
    (id : String) (r : BudgetResource) (current new : ℕ) (c : Coordinator)
    → IsSound (extended id r current new c)
    → is_consistent (extended id r current new c).state ≡ true
    → (id == "") ≡ false
    → extend_new id r current new true c ≡ (ok true, finished (extended id r current new c))
unfolding extend_new
extend_new_lem id r current new c sound good name =
    rw (store_budget-grant r new c sound.within, name)
      (pure_after (extended id r current new c) true
        (boundary_lem (extended id r current new c) sound good))

extend_new_refused :
    (id : String) (r : BudgetResource) (current new : ℕ) (c : Coordinator)
    → IsSound c
    → is_consistent c.state ≡ true
    → (id == "") ≡ false
    → extend_new id r current new false c ≡ (
      ok false,
      finished (record c { state = add_decision (decision id r current new false) c.state }),
    )
unfolding extend_new
extend_new_refused id r current new c h k name =
    let d : Coordinator = record c {
      state = add_decision (decision id r current new false) c.state;
    } in
    rw name (
      pure_after d false (
        boundary_lem d
          (record {
            within = h.within;
            calls_covered = h.calls_covered;
            output_covered = h.output_covered;
            accepting = h.accepting;
          })
          (is_consistent-limits c.state _ _ _ _ _ _ (Parts-of c.state k).budgets
            (decisions_fit-snoc _ _ name (Parts-of c.state k).decisions) k)))

pub decided-snoc :
    (ds : List ContinuationDecisionState) (d : ContinuationDecisionState)
    → decided d.request_id ds ≡ none
    → decided d.request_id (ds ++ d ∷ []) ≡ some d
decided-snoc [] d h = ground (arith, eq_iff d.request_id d.request_id)
decided-snoc (e ∷ ds) d h = ground (arith, decided-snoc ds d)

pub extend_budget-granted :
    (id : String) (r : BudgetResource) (current new : ℕ) (c : Coordinator)
    (s : ContinuationBudgetState)
    → IsSound c
    → is_consistent c.state ≡ true
    → (id == "") ≡ false
    → IsCurrent r current c
    → decided id c.state.continuation_decisions ≡ none
    → continuation_state r c.state ≡ ok s
    → is_allowed s current new ≡ true
    → (extend_budget id r current new c ≡ (ok true, finished (extended id r current new c)))
      × IsSound (finished (extended id r current new c))
      × (is_consistent (finished (extended id r current new c)).state ≡ true)
unfolding extend_budget
extend_budget-granted id r current new c s h k name cur fresh e a =
    let sound = extended-IsSound id r current new c s h cur e a in
    let good = is_consistent-extended id r current new c s h sound e a name k in
    (
      rw (extend_budget, fresh, e, a, extend_new_lem id r current new c sound good name),
      finished-IsSound (extended id r current new c) sound,
      is_consistent-captured (extended id r current new c) sound good,
    )

pub extend_budget-denied :
    (id : String) (r : BudgetResource) (current new : ℕ) (c : Coordinator)
    (s : ContinuationBudgetState)
    → IsSound c
    → is_consistent c.state ≡ true
    → (id == "") ≡ false
    → decided id c.state.continuation_decisions ≡ none
    → continuation_state r c.state ≡ ok s
    → is_allowed s current new ≡ false
    → extend_budget id r current new c ≡ (
      ok false,
      finished (record c { state = add_decision (decision id r current new false) c.state }),
    )
unfolding extend_budget
extend_budget-denied id r current new c s h k name fresh e a =
    rw (extend_budget, fresh, e, a) (extend_new_refused id r current new c h k name)
