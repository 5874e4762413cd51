-- ===== src/Tests/Samples.antt =====
-- The sample data of the tests: a run with one tool call, a policy with rules, a tool.
use assistant_agent.Run.Consistency.{
  is_consistent, control_fits, budgets_fit, signature_fits, calls_fit, calls_answered,
  presentations_fit, outputs_fit, timeline_fits, timeline_bounded, retries_fit, all_resolved,
  capture_fits, decisions_fit, result_fits, draft_fits,
}
use assistant_agent.Base.{◌≡◌, refl, true, false, none, some, [], ◌∷◌, arith}
use assistant_agent.Budget.{ToolBudget, usage_is_consistent}
use assistant_agent.Budget.Limits.{IsWithin}
use assistant_agent.ToolResult.{codes, ToolResult, error_result}
use assistant_agent.Run.State.{
  RunStatus, RunPhase, ToolCallStatus, ReplayPolicy, RetrySafety, BudgetResource,
  ContinuationBudgetState, ToolCallState, Message, RunState,
}
use assistant_agent.Run.Coordinator.{Coordinator}
use assistant_agent.Run.Ready.{IsSound, saved_form}

abbrev pub small_budget : ToolBudget
small_budget = record {
  max_calls = 5;
  max_total_output_chars = 100;
  used_calls = 1;
  used_output_chars = 10;
}

abbrev pub allowance : BudgetResource → ContinuationBudgetState
allowance r = record {
  resource = r;
  increment = 5;
  hard_limit = 200;
  extension_count = 0;
  max_extensions = 2;
}

abbrev pub read_call : ToolCallStatus → ToolCallState
read_call status = record {
  id = "call_1";
  name = "read_file";
  arguments = codes "{}";
  status = status;
  replay_policy = ReplayPolicy.safe_readonly;
  permission_requests = [];
  result = none;
}

-- A run whose one call has the given status.
abbrev pub run_at : RunPhase → ToolCallStatus → RunState
run_at phase status = record {
  run_id = "run_1";
  session_id = some "session_1";
  status = RunStatus.running;
  phase = phase;
  messages =
      Message.user (codes "read")
      ∷ Message.assistant []
          (record { id = "call_1"; name = "read_file"; arguments = codes "{}" } ∷ [])
      ∷ [];
  compaction_checkpoint = none;
  iteration = 1;
  iteration_budget = 10;
  tool_budget = saved_form small_budget;
  iteration_continuation = allowance BudgetResource.iterations;
  tool_call_continuation = allowance BudgetResource.tool_calls;
  tool_output_continuation = allowance BudgetResource.tool_output;
  continuation_decisions = [];
  last_signature = none;
  repeat_count = 0;
  tool_calls = read_call status ∷ [];
  presentations = [];
  outputs = [];
  items = [];
  pending_output_capture = none;
  permission_grants = [];
  terminal_text = [];
  failure = none;
  retry_safety = RetrySafety.safe;
  retry_of_run_id = none;
  retry_idempotency_key_hash = none;
  retry_request_hash = none;
  reconciliation_request_hash = none;
  retry_requests = [];
  session_synced = false;
}

abbrev pub coordinator_of : RunState → Coordinator
coordinator_of s = record {
  state = s;
  bound = true;
  grants = [];
  budget = small_budget;
  saved = [];
  accepts = λ saved s. true;
}

abbrev pub planned_run : Coordinator
planned_run = coordinator_of (run_at RunPhase.tools_pending ToolCallStatus.planned)

abbrev pub started_run : Coordinator
started_run = coordinator_of (run_at RunPhase.tools_pending ToolCallStatus.started)

pub small_budget-IsWithin : IsWithin small_budget
small_budget-IsWithin = record {
  some_calls = ground arith;
  calls = ground arith;
  output = ground arith;
}

pub coordinator_of-IsSound :
    (phase : RunPhase) (status : ToolCallStatus) → IsSound (coordinator_of (run_at phase status))
coordinator_of-IsSound phase status = record {
  within = small_budget-IsWithin;
  calls_covered = ground arith;
  output_covered = ground arith;
  accepting = λ saved s. refl;
}

abbrev pub file_text : ToolResult
file_text = record {
  output = codes "text";
  is_error = false;
  code = "ok";
  retryable = false;
  budget_exhausted = none;
  executed = true;
  chart = none;
  output_artifact = none;
  output_capture = none;
}

abbrev pub lost_result : ToolResult
lost_result = error_result (codes "lost") "mcp_outcome_unknown" false true

pub planned_run-is_consistent : is_consistent planned_run.state ≡ true
unfolding is_consistent control_fits budgets_fit signature_fits calls_fit calls_answered
    presentations_fit outputs_fit timeline_fits timeline_bounded retries_fit usage_is_consistent
    all_resolved capture_fits decisions_fit result_fits draft_fits
planned_run-is_consistent = refl

pub started_run-is_consistent : is_consistent started_run.state ≡ true
unfolding is_consistent control_fits budgets_fit signature_fits calls_fit calls_answered
    presentations_fit outputs_fit timeline_fits timeline_bounded retries_fit usage_is_consistent
    all_resolved capture_fits decisions_fit result_fits draft_fits
started_run-is_consistent = refl
