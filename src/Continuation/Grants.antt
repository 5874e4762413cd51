-- ===== src/Continuation/Grants.antt =====
-- What an extension of a budget does to a run: src/assistant_agent/agent/run/budgets.py.
use assistant_agent.Budget.Limits.{IsWithin}
use assistant_agent.Base.{
  ℕ, ◌+◌, ◌≤◌, ◌<◌, ◌≡◌, refl, String, true, false, none, some, [], ◌∷◌, ◌++◌, ◌==◌, ◌∙◌, ◌⊎◌,
  arith, inl, inr,
}
use assistant_agent.Base.Result.{ok}
use assistant_agent.Budget.{ToolBudget}
use assistant_agent.Run.State.{
  BudgetResource, ContinuationBudgetState, RunState, ContinuationDecisionState,
}
use assistant_agent.Run.Consistency.{is_consistent, Parts-of}
use assistant_agent.Run.Coordinator.{Coordinator}
use assistant_agent.Run.Ready.{IsSound, captured, finished, is_consistent-captured}
use assistant_agent.Continuation.{
  ContinuationPrompt, ContinuationConfig, Checks, offer, continuation_state, extend_budget,
  LocalCounts, limits, request_local, grant, add_decision, decision, is_allowed, decided,
}
use assistant_agent.Continuation.Extended.{
  IsCurrent, extended, is_consistent-limits, decisions_fit-snoc, extend_budget-granted,
  extend_budget-denied,
}

-- An offer is made only while extensions are left; it is at most the increment and never goes past
-- the hard limit.
offer_lem :
    (r : BudgetResource) (s : ContinuationBudgetState) (used limit : ℕ) (p : ContinuationPrompt)
    → offer r s used limit ≡ ok (some p)
    → (s.extension_count < s.max_extensions)
      × (limit < s.hard_limit)
      × (limit + p.suggested_increment ≤ s.hard_limit)
      × (p.suggested_increment ≤ s.increment)
unfolding offer
offer_lem r s used limit p e = ground arith

-- In a run without a coordinator, a grant raises the limit by at most the configured increment,
-- never past the hard limit of the resource, and only while extensions are left.
pub request_local_lem :
    (g : ContinuationConfig) (k : Checks) (r : BudgetResource) (used limit new : ℕ)
    (n m : LocalCounts) (b b' : ToolBudget)
    → request_local g k r used limit (n, b) ≡ (ok (some new), (m, b'))
    → ((limits g n r).extension_count < g.max_extensions)
      × (limit ≤ new)
      × (new ≤ limit + (limits g n r).increment)
      × (new ≤ (limits g n r).hard_limit)
unfolding request_local limits
request_local_lem g k r used limit new n m b b' e =
    ground (arith, offer_lem r (limits g n r) used limit)

decisions-captured :
    (c : Coordinator) → (captured c).continuation_decisions ≡ c.state.continuation_decisions
decisions-captured c = ground arith

decisions-grant :
    (r : BudgetResource) (new : ℕ) (c : Coordinator)
    → (grant r new c).state.continuation_decisions ≡ c.state.continuation_decisions
decisions-grant BudgetResource.iterations new c = refl
decisions-grant BudgetResource.tool_calls new c = refl
decisions-grant BudgetResource.tool_output new c = refl
decisions-grant BudgetResource.context new c = refl

-- The limit in force after an extension is the new one, and the extension is counted.
IsCurrent-extended :
    (id : String) (r : BudgetResource) (current new : ℕ) (c : Coordinator)
    → IsCurrent r current c
    → current < new
    → IsCurrent r new (finished (extended id r current new c))
unfolding IsCurrent
IsCurrent-extended id BudgetResource.iterations current new c h k = ground arith
IsCurrent-extended id BudgetResource.tool_calls current new c h k = ground arith
IsCurrent-extended id BudgetResource.tool_output current new c h k = (refl, omega arith)
IsCurrent-extended id BudgetResource.context current new c h k = h

continuation_state-extended :
    (id : String) (r : BudgetResource) (current new : ℕ) (c : Coordinator)
    (s : ContinuationBudgetState)
    → continuation_state r c.state ≡ ok s
    → continuation_state r (finished (extended id r current new c)).state
      ≡ ok (record s { extension_count = s.extension_count + 1 })
unfolding continuation_state
continuation_state-extended id BudgetResource.iterations current new c s e = ground arith
continuation_state-extended id BudgetResource.tool_calls current new c s e = ground arith
continuation_state-extended id BudgetResource.tool_output current new c s e = ground arith
continuation_state-extended id BudgetResource.context current new c s e = ground arith

continuation_state-captured :
    (r : BudgetResource) (c : Coordinator)
    → continuation_state r (captured c) ≡ continuation_state r c.state
unfolding continuation_state
continuation_state-captured BudgetResource.iterations c = ground arith
continuation_state-captured BudgetResource.tool_calls c = ground arith
continuation_state-captured BudgetResource.tool_output c = ground arith
continuation_state-captured BudgetResource.context c = refl

iteration_budget-captured :
    (c : Coordinator) → (captured c).iteration_budget ≡ c.state.iteration_budget
iteration_budget-captured c = ground arith

is_allowed_of :
    (s : ContinuationBudgetState) (current new : ℕ)
    → s.extension_count < s.max_extensions
    → current < new
    → new ≤ s.hard_limit
    → is_allowed s current new ≡ true
is_allowed_of s current new h k m = ground arith

not_allowed_of :
    (s : ContinuationBudgetState) (current new : ℕ)
    → (s.max_extensions ≤ s.extension_count) ⊎ ((new ≤ current) ⊎ (s.hard_limit < new))
    → is_allowed s current new ≡ false
not_allowed_of s current new (inl h) = ground arith
not_allowed_of s current new (inr (inl h)) = ground arith
not_allowed_of s current new (inr (inr h)) = ground arith

saved-extended :
    (id : String) (r : BudgetResource) (current new : ℕ) (c : Coordinator)
    → (finished (extended id r current new c)).saved
      ≡ (finished (extended id r current new c)).state ∷ c.saved
saved-extended id BudgetResource.iterations current new c = refl
saved-extended id BudgetResource.tool_calls current new c = refl
saved-extended id BudgetResource.tool_output current new c = refl
saved-extended id BudgetResource.context current new c = refl

continuation_state-added :
    (r : BudgetResource) (d : ContinuationDecisionState) (s : RunState)
    → continuation_state r (add_decision d s) ≡ continuation_state r s
unfolding continuation_state
continuation_state-added BudgetResource.iterations d s = refl
continuation_state-added BudgetResource.tool_calls d s = refl
continuation_state-added BudgetResource.tool_output d s = refl
continuation_state-added BudgetResource.context d s = refl

-- From a consistent run whose shared budget is within limits and whose store accepts, a request
-- with a new id, which is not empty, that asks to raise the limit in force, while extensions are
-- left and not past the hard limit, is granted. Then the extension is counted, the new limit is
-- the one in force, the decision is recorded last with both limits, that state is saved and
-- consistent, and the shared budget stays within its limits.
pub extend_budget_lem :
    (id : String) (r : BudgetResource) (current new : ℕ) (c : Coordinator)
    (s : ContinuationBudgetState)
    → IsSound c
    → is_consistent c.state ≡ true
    → (id == "") ≡ false
    → IsCurrent r current c
    → decided id c.state.continuation_decisions ≡ none
    → continuation_state r c.state ≡ ok s
    → s.extension_count < s.max_extensions
    → current < new
    → new ≤ s.hard_limit
    → (d : Coordinator) × (extend_budget id r current new c ≡ (ok true, d))
      × (continuation_state r d.state ≡ ok (record s { extension_count = s.extension_count + 1 }))
      × IsCurrent r new d
      × (d.state.continuation_decisions
          ≡ c.state.continuation_decisions
            ++ record {
              request_id = id;
              resource = r;
              old_limit = current;
              new_limit = new;
              continued = true;
            }
              ∷ [])
      × (d.saved ≡ d.state ∷ c.saved)
      × (is_consistent d.state ≡ true)
      × IsWithin d.budget
extend_budget_lem id r current new c s h k name cur fresh e left more under =
    let (granted, sound, good) =
      extend_budget-granted id r current new c s h k name cur fresh e
        (is_allowed_of s current new left more under) in
    (
      finished (extended id r current new c),
      granted,
      continuation_state-extended id r current new c s e,
      IsCurrent-extended id r current new c cur more,
      rw (decisions-captured (extended id r current new c), decisions-grant r new c) refl,
      saved-extended id r current new c,
      good,
      sound.within,
    )

-- From a consistent run whose shared budget is within limits and whose store accepts, a request
-- with a new id, which is not empty, that comes when no extension is left, or that does not raise
-- the limit it names, or that passes the hard limit, is refused: no limit and no count changes, and
-- the refusal, with the old limit twice, is recorded last in the consistent state that is saved.
pub extend_budget_refused :
    (id : String) (r : BudgetResource) (current new : ℕ) (c : Coordinator)
    (s : ContinuationBudgetState)
    → IsSound c
    → is_consistent c.state ≡ true
    → (id == "") ≡ false
    → decided id c.state.continuation_decisions ≡ none
    → continuation_state r c.state ≡ ok s
    → (s.max_extensions ≤ s.extension_count) ⊎ ((new ≤ current) ⊎ (s.hard_limit < new))
    → (d : Coordinator) × (extend_budget id r current new c ≡ (ok false, d))
      × (continuation_state r d.state ≡ ok s)
      × (d.state.iteration_budget ≡ c.state.iteration_budget)
      × (d.budget ≡ c.budget)
      × (d.state.continuation_decisions
          ≡ c.state.continuation_decisions
            ++ record {
              request_id = id;
              resource = r;
              old_limit = current;
              new_limit = current;
              continued = false;
            }
              ∷ [])
      × (d.saved ≡ d.state ∷ c.saved)
      × (is_consistent d.state ≡ true)
extend_budget_refused id r current new c s h k name fresh e why =
    let m : Coordinator = record c {
      state = add_decision (decision id r current new false) c.state;
    } in
    let sound : IsSound m = record {
      within = h.within;
      calls_covered = h.calls_covered;
      output_covered = h.output_covered;
      accepting = h.accepting;
    } in
    let good : is_consistent m.state ≡ true =
      is_consistent-limits c.state _ _ _ _ _ _ (Parts-of c.state k).budgets
        (decisions_fit-snoc _ _ name (Parts-of c.state k).decisions) k in
    (
      finished m,
      extend_budget-denied id r current new c s h k name fresh e (not_allowed_of s current new why),
      continuation_state-captured r m ∙ continuation_state-added r _ c.state ∙ e,
      iteration_budget-captured m,
      refl,
      decisions-captured m,
      refl,
      is_consistent-captured m sound good,
    )
