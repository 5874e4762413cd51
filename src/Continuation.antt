-- ===== src/Continuation.antt =====
-- Extending a budget that ran out: src/assistant_agent/agent/run/budgets.py. The check that asks
-- the user is a callback: it is given as a function whose `none` is an exception.

pub mod Extended
pub mod Grants
use Prim.Native.String.{◌++◌ as concat}
use mathlib.Core.Option as Option
use assistant_agent.Base.{
  ℕ, ◌+◌, ◌-◌, min, String, Bool, true, false, not, ◌&&◌, ◌||◌, Option, none, some, List, [], ◌∷◌,
  ◌++◌, ◌==◌, ltb, leb, find, if◌then◌else◌,
}
use assistant_agent.Base.Result.{
  Result, ok, err, raise_if, validation_error, value_error, key_error, Method, pure, gets, lift,
  modify, ◌>>=◌, ◌>>◌,
}
use assistant_agent.Budget.{ToolBudget}
use assistant_agent.Run.State.{
  BudgetResource, ContinuationBudgetState, ContinuationDecisionState, RunState,
}
use assistant_agent.Run.Coordinator.{
  Coordinator, Action, update_state, checkpoint, capture_bound_context, store_budget,
}

pub data PromptReason : Type 0 where
  iteration_limit_reached tool_call_budget_exhausted tool_output_budget_exhausted : PromptReason

pub record ContinuationPrompt : Type 0 where
  pub resource : BudgetResource
  pub reason : PromptReason
  pub used : ℕ
  pub limit : ℕ
  pub suggested_increment : ℕ
  pub hard_limit : ℕ
  pub extension_count : ℕ
  pub max_extensions : ℕ

pub record ContinuationResult : Type 0 where
  pub request_id : String
  pub continue_run : Bool

pub record ContinuationConfig : Type 0 where
  pub max_extensions : ℕ
  pub iteration_increment : ℕ
  pub max_iterations_hard : ℕ
  pub tool_call_increment : ℕ
  pub max_tool_calls_hard : ℕ
  pub tool_output_increment : ℕ
  pub max_tool_output_chars_hard : ℕ

-- The reasons, by resource; the context has none.
reason : BudgetResource → Result PromptReason
reason BudgetResource.iterations = ok iteration_limit_reached
reason BudgetResource.tool_calls = ok tool_call_budget_exhausted
reason BudgetResource.tool_output = ok tool_output_budget_exhausted
reason BudgetResource.context = err key_error

-- What a request may still be granted: nothing once the extensions are used up or the hard limit is
-- reached, and else an increment that stops at the hard limit.
unfoldable pub offer :
    BudgetResource → ContinuationBudgetState → ℕ → ℕ → Result (Option ContinuationPrompt)
unfolding reason
offer resource s used limit =
    if leb s.max_extensions s.extension_count || leb s.hard_limit limit
    then ok none
    else elim (reason resource) [
      | err e ↦ err e
      | ok why ↦ ok (
          some (record {
            resource = resource;
            reason = why;
            used = used;
            limit = limit;
            suggested_increment = min s.increment (s.hard_limit - limit);
            hard_limit = s.hard_limit;
            extension_count = s.extension_count;
            max_extensions = s.max_extensions;
          }))
    ]

-- The callbacks of a controller: the check, the older check for iterations, and the decimal
-- notation of a number.
pub record Checks : Type 0 where
  pub check : Option (ContinuationPrompt → Option ContinuationResult)
  pub legacy_iteration_check : Option (ℕ → Option Bool)
  pub decimal : ℕ → String

-- `f"legacy-iteration-{extension_count + 1}"`, with the decimal notation of the number given.
abbrev pub legacy_id : (ℕ → String) → ℕ → String
legacy_id decimal n = concat "legacy-iteration-" (decimal (n + 1))

-- The older check asks about iterations only; an exception is a no.
unfoldable pub decide_legacy : Checks → ContinuationPrompt → Option ContinuationResult
decide_legacy k prompt = elim prompt.resource [
  | BudgetResource.iterations ↦ Option.bind k.legacy_iteration_check (λ ask.
      Option.map
        (λ answer. record {
          request_id = legacy_id k.decimal prompt.extension_count;
          continue_run = answer;
        })
        (ask prompt.used))
  | _ ↦ none
]

unfoldable pub decide : Checks → ContinuationPrompt → Option ContinuationResult
decide k prompt = elim k.check [ some check ↦ check prompt | none ↦ decide_legacy k prompt ]

unfoldable pub continuation_state : BudgetResource → RunState → Result ContinuationBudgetState
continuation_state BudgetResource.iterations s = ok s.iteration_continuation
continuation_state BudgetResource.tool_calls s = ok s.tool_call_continuation
continuation_state BudgetResource.tool_output s = ok s.tool_output_continuation
continuation_state BudgetResource.context s = err value_error

abbrev pub count_extension : ContinuationBudgetState → ContinuationBudgetState
count_extension s = record s { extension_count = s.extension_count + 1 }

-- The new limit, in the state for the iterations and in the shared budget for the tools.
abbrev pub grant : BudgetResource → ℕ → Coordinator → Coordinator
grant BudgetResource.iterations n c = record c {
  state = record c.state {
    iteration_continuation = count_extension c.state.iteration_continuation;
    iteration_budget = n;
  };
}
grant BudgetResource.tool_calls n c = record c {
  state = record c.state {
    tool_call_continuation = count_extension c.state.tool_call_continuation;
  };
  budget = record c.budget { max_calls = n };
}
grant BudgetResource.tool_output n c = record c {
  state = record c.state {
    tool_output_continuation = count_extension c.state.tool_output_continuation;
  };
  budget = record c.budget { max_total_output_chars = n };
}
grant BudgetResource.context n c = c

abbrev pub is_allowed : ContinuationBudgetState → ℕ → ℕ → Bool
is_allowed s current new =
    ltb s.extension_count s.max_extensions && (ltb current new && leb new s.hard_limit)

abbrev pub decision : String → BudgetResource → ℕ → ℕ → Bool → ContinuationDecisionState
decision id resource current new allowed = record {
  request_id = id;
  resource = resource;
  old_limit = current;
  new_limit = if allowed then new else current;
  continued = allowed;
}

abbrev pub add_decision : ContinuationDecisionState → RunState → RunState
add_decision d s = record s { continuation_decisions = s.continuation_decisions ++ d ∷ [] }

-- What a first request of an id does, once it is known whether it is allowed. An empty id is
-- refused by the validation of the decision, after the limit was raised.
unfoldable pub extend_new : String → BudgetResource → ℕ → ℕ → Bool → Action Bool
extend_new id resource current new true = do
  modify (grant resource new)
  store_budget
  raise_if (id == "") validation_error
  update_state (add_decision (decision id resource current new true))
  capture_bound_context
  checkpoint
  pure true
extend_new id resource current new false = do
  raise_if (id == "") validation_error
  update_state (add_decision (decision id resource current new false))
  capture_bound_context
  checkpoint
  pure false

abbrev pub decided : String → List ContinuationDecisionState → Option ContinuationDecisionState
decided id = find (λ d. d.request_id == id)

unfoldable pub extend_budget : String → BudgetResource → ℕ → ℕ → Action Bool
extend_budget id resource current new c = elim (decided id c.state.continuation_decisions) [
  | some existing ↦ (ok existing.continued, c)
  | none ↦ elim (continuation_state resource c.state) [
    | err e ↦ (err e, c)
    | ok s ↦ extend_new id resource current new (is_allowed s current new) c
  ]
]

-- The answer to an offer: a refusal, of the user or of the coordinator, grants nothing.
unfoldable pub answer_offer :
    Checks → BudgetResource → ℕ → Option ContinuationPrompt → Action (Option ℕ)
answer_offer k resource limit none c = (ok none, c)
answer_offer k resource limit (some prompt) c = elim (decide k prompt) [
  | none ↦ (ok none, c)
  | some answer ↦
      if answer.continue_run
      then (do
        granted ←
            extend_budget answer.request_id resource limit (limit + prompt.suggested_increment)
        pure (if granted then some (limit + prompt.suggested_increment) else none))
          c
      else (ok none, c)
]

-- `ContinuationController.request` for a run with a coordinator.
unfoldable pub request : Checks → BudgetResource → ℕ → ℕ → Action (Option ℕ)
request k resource used limit = do
  s ← gets (λ c. c.state)
  budget ← lift (continuation_state resource s)
  offered ← lift (offer resource budget used limit)
  answer_offer k resource limit offered

-- The counts that a controller keeps for a run without a coordinator.
pub record LocalCounts : Type 0 where
  pub iterations : ℕ
  pub tool_calls : ℕ
  pub tool_output : ℕ
  pub context : ℕ

unfoldable pub reset : LocalCounts
reset = record { iterations = 0; tool_calls = 0; tool_output = 0; context = 0 }

-- `_limits` with the local count and the configured number of extensions.
unfoldable pub limits : ContinuationConfig → LocalCounts → BudgetResource → ContinuationBudgetState
limits g n BudgetResource.iterations = record {
  resource = BudgetResource.iterations;
  increment = g.iteration_increment;
  hard_limit = g.max_iterations_hard;
  extension_count = n.iterations;
  max_extensions = g.max_extensions;
}
limits g n BudgetResource.tool_calls = record {
  resource = BudgetResource.tool_calls;
  increment = g.tool_call_increment;
  hard_limit = g.max_tool_calls_hard;
  extension_count = n.tool_calls;
  max_extensions = g.max_extensions;
}
limits g n BudgetResource.tool_output = record {
  resource = BudgetResource.tool_output;
  increment = g.tool_output_increment;
  hard_limit = g.max_tool_output_chars_hard;
  extension_count = n.tool_output;
  max_extensions = g.max_extensions;
}
limits g n BudgetResource.context = record {
  resource = BudgetResource.context;
  increment = g.tool_output_increment;
  hard_limit = g.max_tool_output_chars_hard;
  extension_count = n.context;
  max_extensions = g.max_extensions;
}

abbrev pub count : BudgetResource → LocalCounts → LocalCounts
count BudgetResource.iterations n = record n { iterations = n.iterations + 1 }
count BudgetResource.tool_calls n = record n { tool_calls = n.tool_calls + 1 }
count BudgetResource.tool_output n = record n { tool_output = n.tool_output + 1 }
count BudgetResource.context n = record n { context = n.context + 1 }

abbrev pub set_limit : BudgetResource → ℕ → ToolBudget → ToolBudget
set_limit BudgetResource.tool_calls limit b = record b { max_calls = limit }
set_limit BudgetResource.tool_output limit b = record b { max_total_output_chars = limit }
set_limit _ limit b = b

-- `ContinuationController.request` for a run without a coordinator.
unfoldable pub request_local :
    ContinuationConfig
    → Checks
    → BudgetResource
    → ℕ
    → ℕ
    → Method (LocalCounts × ToolBudget) (Option ℕ)
unfolding offer decide limits
request_local g k resource used limit (n, b) =
    elim (offer resource (limits g n resource) used limit) [
      | err e ↦ (err e, (n, b))
      | ok none ↦ (ok none, (n, b))
      | ok (some prompt) ↦ elim (decide k prompt) [
        | none ↦ (ok none, (n, b))
        | some answer ↦
            let new = limit + prompt.suggested_increment in
            if answer.continue_run
            then (ok (some new), (count resource n, set_limit resource new b))
            else (ok none, (n, b))
      ]
    ]
