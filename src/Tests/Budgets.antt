-- ===== src/Tests/Budgets.antt =====
-- Budgets, results and extensions on sample data.
use assistant_agent.Run.Coordinator.{Coordinator}
use mathlib.Core.Option as Option
use assistant_agent.Base.{
  ℕ, ◌+◌, ◌-◌, ◌≤◌, ◌<◌, ◌≡◌, refl, true, false, none, some, length, arith, ◌++◌, ◌∷◌, [], inr,
}
use assistant_agent.Base.Result.{ok}
use assistant_agent.Budget.{
  Reason, ToolBudget, ToolBudgetState, exhausted_reason, try_consume_call, remaining_output_chars,
  consume_output, encode_budget, decode_budget,
}
use assistant_agent.Budget.Limits.{
  IsWithin, try_consume_call_lem, consume_output-IsWithin, encode_budget_iff,
}
use assistant_agent.Run.State.{RunPhase, ToolCallStatus, BudgetResource}
use assistant_agent.Run.Consistency.{is_consistent}
use assistant_agent.Continuation.{
  Checks, ContinuationConfig, LocalCounts, reset, limits, continuation_state, extend_budget,
  request_local, offer, decide,
}
use assistant_agent.Continuation.Extended.{IsCurrent}
use assistant_agent.Continuation.Grants.{
  request_local_lem, extend_budget_lem, extend_budget_refused,
}
use assistant_agent.Registry.Output.{limit_result_output}
use assistant_agent.Registry.Output.Limits.{limit_result_output_lem}
use assistant_agent.Tests.Samples.{
  small_budget, small_budget-IsWithin, allowance, file_text, planned_run, planned_run-is_consistent,
  coordinator_of-IsSound,
}

abbrev config : ContinuationConfig
config = record {
  max_extensions = 2;
  iteration_increment = 5;
  max_iterations_hard = 50;
  tool_call_increment = 5;
  max_tool_calls_hard = 40;
  tool_output_increment = 1000;
  max_tool_output_chars_hard = 5000;
}

abbrev always_yes : Checks
always_yes = record {
  check = some (λ p. some (record { request_id = "grant_1"; continue_run = true }));
  legacy_iteration_check = none;
  decimal = λ n. "n";
}

abbrev counted : LocalCounts
counted = record { iterations = 0; tool_calls = 1; tool_output = 0; context = 0 }

abbrev raised : ToolBudget
raised = record small_budget { max_calls = 10 }

room : (left : ℕ) → remaining_output_chars small_budget ≡ some left → 20 ≤ left
unfolding remaining_output_chars
room left e = ground (arith, e)

IsCurrent-calls : IsCurrent BudgetResource.tool_calls 5 planned_run
unfolding IsCurrent
IsCurrent-calls = refl

calls_state :
    continuation_state BudgetResource.tool_calls planned_run.state
    ≡ ok (allowance BudgetResource.tool_calls)
unfolding continuation_state
calls_state = refl

request_granted :
    request_local config always_yes BudgetResource.tool_calls 5 5 (reset, small_budget)
    ≡ (ok (some 10), (counted, raised))
unfolding request_local offer decide limits reset
request_granted = refl

try_consume_call_lem_example :
    ((try_consume_call small_budget).0 ≡ exhausted_reason small_budget)
    × ((exhausted_reason small_budget ≡ none
          → (try_consume_call small_budget).1
            ≡ record small_budget { used_calls = small_budget.used_calls + 1 })
        × ((r : Reason)
            → exhausted_reason small_budget ≡ some r
            → (try_consume_call small_budget).1 ≡ small_budget)
        × (IsWithin small_budget → IsWithin (try_consume_call small_budget).1))
try_consume_call_lem_example = try_consume_call_lem small_budget

consume_output-IsWithin_example :
    ((consume_output 20 small_budget).used_output_chars ≡ small_budget.used_output_chars + 20)
    × (remaining_output_chars (consume_output 20 small_budget)
        ≡ Option.map (λ left. left - 20) (remaining_output_chars small_budget))
    × ((consume_output 20 small_budget).used_calls ≡ small_budget.used_calls)
    × IsWithin (consume_output 20 small_budget)
consume_output-IsWithin_example = consume_output-IsWithin small_budget 20 small_budget-IsWithin room

encode_budget_iff_example :
    (IsWithin small_budget
      → (s : ToolBudgetState) × (encode_budget small_budget ≡ ok s)
        × (decode_budget s ≡ small_budget))
    × ((s : ToolBudgetState) → encode_budget small_budget ≡ ok s → IsWithin small_budget)
encode_budget_iff_example = encode_budget_iff small_budget

extend_budget_lem_example :
    (d : Coordinator) × (extend_budget "grant_1" BudgetResource.tool_calls 5 10 planned_run
      ≡ (ok true, d))
    × (continuation_state BudgetResource.tool_calls d.state
        ≡ ok (record (allowance BudgetResource.tool_calls) {
          extension_count = (allowance BudgetResource.tool_calls).extension_count + 1;
        }))
    × IsCurrent BudgetResource.tool_calls 10 d
    × (d.state.continuation_decisions
        ≡ planned_run.state.continuation_decisions
          ++ record {
            request_id = "grant_1";
            resource = BudgetResource.tool_calls;
            old_limit = 5;
            new_limit = 10;
            continued = true;
          }
            ∷ [])
    × (d.saved ≡ d.state ∷ planned_run.saved)
    × (is_consistent d.state ≡ true)
    × IsWithin d.budget
extend_budget_lem_example =
    extend_budget_lem "grant_1" BudgetResource.tool_calls 5 10 planned_run
      (allowance BudgetResource.tool_calls)
      (coordinator_of-IsSound RunPhase.tools_pending ToolCallStatus.planned)
      planned_run-is_consistent refl IsCurrent-calls refl calls_state (ground arith) (ground arith)
      (ground arith)

extend_budget_refused_example :
    (d : Coordinator) × (extend_budget "grant_1" BudgetResource.tool_calls 5 201 planned_run
      ≡ (ok false, d))
    × (continuation_state BudgetResource.tool_calls d.state
        ≡ ok (allowance BudgetResource.tool_calls))
    × (d.state.iteration_budget ≡ planned_run.state.iteration_budget)
    × (d.budget ≡ planned_run.budget)
    × (d.state.continuation_decisions
        ≡ planned_run.state.continuation_decisions
          ++ record {
            request_id = "grant_1";
            resource = BudgetResource.tool_calls;
            old_limit = 5;
            new_limit = 5;
            continued = false;
          }
            ∷ [])
    × (d.saved ≡ d.state ∷ planned_run.saved)
    × (is_consistent d.state ≡ true)
extend_budget_refused_example =
    extend_budget_refused "grant_1" BudgetResource.tool_calls 5 201 planned_run
      (allowance BudgetResource.tool_calls)
      (coordinator_of-IsSound RunPhase.tools_pending ToolCallStatus.planned)
      planned_run-is_consistent refl refl calls_state (inr (inr (ground arith)))

request_local_lem_example :
    ((limits config reset BudgetResource.tool_calls).extension_count < config.max_extensions)
    × (5 ≤ 10)
    × (10 ≤ 5 + (limits config reset BudgetResource.tool_calls).increment)
    × (10 ≤ (limits config reset BudgetResource.tool_calls).hard_limit)
request_local_lem_example =
    request_local_lem config always_yes BudgetResource.tool_calls 5 5 10 reset counted small_budget
      raised request_granted

limit_result_output_lem_example :
    (let x = limit_result_output 3 file_text (some small_budget) in
      (0 < 3 → length x.0.output ≤ 3)
      × ((x.1.0
            ≡ some (record small_budget {
              used_output_chars = small_budget.used_output_chars + length x.0.output;
            }))
          × (IsWithin (record small_budget {
            used_output_chars = small_budget.used_output_chars + length x.0.output;
          })
              × ((x.1.1 ≡ false → x.0.output ≡ file_text.output)
                  × (x.1.1 ≡ true → length x.0.output < length file_text.output)))))
limit_result_output_lem_example =
    limit_result_output_lem 3 file_text small_budget small_budget-IsWithin
