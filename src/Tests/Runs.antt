-- ===== src/Tests/Runs.antt =====
-- The transitions of a run on a run with one call.
use Prim.Native.String.{◌++◌ as concat}
use assistant_agent.Permissions.Requests.{encode_request}
use assistant_agent.Budget.{usage_is_consistent}
use assistant_agent.Run.Capture.Repair.{
  Repairable, output_validation_failed-output_validation_failed,
}
use assistant_agent.Run.Capture.{output_validation_failed, fail_if_pending, fail_pending}
use assistant_agent.Run.Ending.Recovery.{retry_lem, mark_uncertain_lem, replan, StartedOf}
use assistant_agent.Run.Ending.Terminal.{terminal_lem}
use assistant_agent.Run.Ending.{
  terminal, is_retry, retry, mark_uncertain_if_needed, is_replayable, others_replayable, is_safe,
  has_action,
}
use assistant_agent.Run.Items.{upsert, timeline_fits-upsert, item_id_fits}
use assistant_agent.Base.{
  ◌≡◌, refl, true, false, not, none, some, List, [], ◌∷◌, ◌++◌, ◌⊎◌, is_some, arith, map,
}
use assistant_agent.Base.Result.{ok, err, validation_error}
use assistant_agent.ToolResult.{codes, ToolResult, error_result, post_init}
use assistant_agent.Run.State.{
  RunState, RunFailure, RunStatus, RunPhase, ToolCallStatus, ReplayPolicy, RetrySafety, RunItemKind,
  RunItemStatus, ToolCallState, PendingOutputCaptureState, resolve_uncertain_tool, stop,
}
use assistant_agent.Run.Consistency.{
  is_consistent, timeline_fits, is_terminal, control_fits, budgets_fit, signature_fits, calls_fit,
  calls_answered, presentations_fit, outputs_fit, timeline_bounded, retries_fit, all_resolved,
  capture_fits, decisions_fit, result_fits, draft_fits,
}
use assistant_agent.Run.Coordinator.{find_call, update_call, checkpoint, Coordinator}
use assistant_agent.Run.Lifecycle.{approval_pending, tool_started, tool_completed}
use assistant_agent.Run.Lifecycle.Begun.{
  start_call, tool_started_lem, await_call, approval_pending_lem,
}
use assistant_agent.Run.Lifecycle.Unknown.{tool_completed_unknown}
use assistant_agent.Tests.Samples.{
  planned_run, started_run, read_call, coordinator_of-IsSound, lost_result,
  planned_run-is_consistent, started_run-is_consistent, coordinator_of, run_at,
}

lost_result-code : lost_result.code ≡ "mcp_outcome_unknown"
unfolding error_result post_init
lost_result-code = refl

no_items : timeline_fits "run_1" [] ≡ true
unfolding timeline_fits
no_items = refl

item_1-fits : item_id_fits (concat "item_tool_" "call_1") ≡ true
unfolding item_id_fits
item_1-fits = refl

tool_started_lem_example :
    (after : RunState) × (tool_started "call_1" [] ReplayPolicy.safe_readonly planned_run
      ≡ (ok tt, record planned_run { state = after; saved = after ∷ planned_run.saved }))
    × (is_consistent after ≡ true)
    × (find_call "call_1" after.tool_calls
        ≡ some (start_call [] ReplayPolicy.safe_readonly (read_call ToolCallStatus.planned)))
tool_started_lem_example =
    tool_started_lem planned_run "call_1" [] ReplayPolicy.safe_readonly
      (read_call ToolCallStatus.planned)
      (coordinator_of-IsSound RunPhase.tools_pending ToolCallStatus.planned)
      planned_run-is_consistent (ground arith) refl refl item_1-fits

approval_pending_lem_example :
    (planned_run.state.pending_output_capture ≡ none
      → (after : RunState) × (approval_pending "call_1" [] ReplayPolicy.safe_readonly planned_run
          ≡ (ok tt, record planned_run { state = after; saved = after ∷ planned_run.saved }))
        × (is_consistent after ≡ true)
        × (find_call "call_1" after.tool_calls
            ≡ some (await_call [] ReplayPolicy.safe_readonly (read_call ToolCallStatus.planned))))
    × (is_some planned_run.state.pending_output_capture ≡ true
        → ((approval_pending "call_1" [] ReplayPolicy.safe_readonly planned_run).0
            ≡ err validation_error)
          × ((approval_pending "call_1" [] ReplayPolicy.safe_readonly planned_run).1.saved
              ≡ planned_run.saved))
approval_pending_lem_example =
    approval_pending_lem planned_run "call_1" [] ReplayPolicy.safe_readonly
      (read_call ToolCallStatus.planned)
      (coordinator_of-IsSound RunPhase.tools_pending ToolCallStatus.planned)
      planned_run-is_consistent refl refl

tool_completed_unknown_example :
    (after : RunState) × (failure : RunFailure) × (tool_completed "call_1" lost_result []
        ReplayPolicy.safe_readonly started_run
      ≡ (ok lost_result, record started_run { state = after; saved = after ∷ started_run.saved }))
    × (is_consistent after ≡ true)
    × (after.status ≡ RunStatus.paused)
    × (after.failure ≡ some failure)
    × (failure.unknown_side_effect ≡ true)
    × (failure.retryable ≡ false)
    × (failure.allowed_actions ≡ resolve_uncertain_tool ∷ stop ∷ [])
    × (find_call "call_1" after.tool_calls
        ≡ some (record (read_call ToolCallStatus.started) {
          status = ToolCallStatus.started;
          result = none;
          permission_requests = map encode_request [];
          replay_policy = ReplayPolicy.safe_readonly;
        }))
    × (after.messages ≡ started_run.state.messages)
    × (started_run.state.retry_safety ≡ RetrySafety.safe
        → after.retry_safety ≡ RetrySafety.uncertain)
    × (¬ (started_run.state.retry_safety ≡ RetrySafety.safe)
        → after.retry_safety ≡ started_run.state.retry_safety)
tool_completed_unknown_example =
    tool_completed_unknown started_run "call_1" lost_result [] ReplayPolicy.safe_readonly
      (read_call ToolCallStatus.started)
      (coordinator_of-IsSound RunPhase.tools_pending ToolCallStatus.started)
      started_run-is_consistent refl refl (ground arith) refl lost_result-code item_1-fits

terminal_lem_example :
    (after : RunState) × (terminal false (codes "stop") [] none none started_run
      ≡ (ok tt, record started_run { state = after; saved = after ∷ started_run.saved }))
    × (is_consistent after ≡ true)
    × (is_terminal after.status ≡ true)
    × (after.tool_calls ≡ [])
    × (after.pending_output_capture ≡ none)
    × (after.session_synced ≡ not (is_some started_run.state.session_id))
    × (is_some after.failure ≡ not false)
    × (is_safe started_run.state.retry_safety ≡ false
        → (f : RunFailure) → after.failure ≡ some f
        → (f.retryable ≡ false) × (has_action is_retry f.allowed_actions ≡ false))
terminal_lem_example =
    terminal_lem false (codes "stop") [] none none started_run
      (coordinator_of-IsSound RunPhase.tools_pending ToolCallStatus.started)
      started_run-is_consistent (ground arith) tt

retry_lem_example :
    (after : RunState) × (retry "call_1" started_run
      ≡ (ok tt, record started_run { state = after; saved = after ∷ started_run.saved }))
    × (is_consistent after ≡ true)
    × (find_call "call_1" after.tool_calls
        ≡ some (record (read_call ToolCallStatus.started) { status = ToolCallStatus.planned }))
    × (after.status ≡ RunStatus.running)
    × (after.failure ≡ none)
    × (is_safe after.retry_safety ≡ true
        → (is_safe started_run.state.retry_safety ≡ true)
          ⊎ ((started_run.state.retry_safety ≡ RetrySafety.uncertain)
              × (is_replayable (read_call ToolCallStatus.started).replay_policy ≡ true)
              × (others_replayable "call_1"
                    (update_call "call_1" replan started_run.state.tool_calls)
                  ≡ true)))
retry_lem_example =
    retry_lem started_run "call_1" (read_call ToolCallStatus.started) (λ saved s. refl)
      started_run-is_consistent refl refl

mark_uncertain_lem_example :
    (xs : List ToolCallState) × (StartedOf started_run.state.tool_calls xs)
    × (xs ≡ [] → mark_uncertain_if_needed started_run ≡ (ok [], started_run))
    × ((x : ToolCallState) (rest : List ToolCallState)
        → xs ≡ x ∷ rest
        → (after : RunState) × (failure : RunFailure) × (mark_uncertain_if_needed started_run
            ≡ (ok xs, record started_run { state = after; saved = after ∷ started_run.saved }))
          × (is_consistent after ≡ true)
          × (after.status ≡ RunStatus.paused)
          × (after.failure ≡ some failure)
          × (failure.allowed_actions ≡ resolve_uncertain_tool ∷ stop ∷ [])
          × (failure.retryable ≡ false)
          × (after.tool_calls ≡ started_run.state.tool_calls)
          × (started_run.state.retry_safety ≡ RetrySafety.safe
              → after.retry_safety ≡ RetrySafety.uncertain)
          × (¬ (started_run.state.retry_safety ≡ RetrySafety.safe)
              → after.retry_safety ≡ started_run.state.retry_safety))
mark_uncertain_lem_example =
    mark_uncertain_lem started_run (λ saved s. refl) started_run-is_consistent refl

timeline_fits-upsert_example :
    timeline_fits "run_1"
      (upsert "run_1" "item_1" RunItemKind.tool RunItemStatus.started (codes "read") [])
    ≡ true
timeline_fits-upsert_example =
    timeline_fits-upsert "run_1" "item_1" RunItemKind.tool RunItemStatus.started (codes "read") []
      no_items

abbrev pending_output : PendingOutputCaptureState
pending_output = record {
  draft_id = "draft_0123456789abcdef0123456789abcdef";
  call_id = "call_1";
  filename = codes "a.html";
  media_type = "text/html";
  disposition = "inline";
  title = none;
  max_chunk_bytes = 100;
  validation_failures = 0;
}

abbrev capturing_run : Coordinator
capturing_run = coordinator_of (record (run_at RunPhase.artifact_capture ToolCallStatus.completed) {
  tool_calls = [];
  pending_output_capture = some pending_output;
})

first_failure : (output_validation_failed "call_1" [] capturing_run).0 ≡ ok true
unfolding output_validation_failed fail_if_pending fail_pending checkpoint is_consistent
    control_fits budgets_fit signature_fits calls_fit calls_answered presentations_fit outputs_fit
    timeline_fits timeline_bounded retries_fit usage_is_consistent all_resolved capture_fits
    decisions_fit result_fits draft_fits
first_failure = refl

output_validation_failed-output_validation_failed_example :
    Repairable "call_1" [] capturing_run (output_validation_failed "call_1" [] capturing_run).1
output_validation_failed-output_validation_failed_example =
    output_validation_failed-output_validation_failed "call_1" [] [] capturing_run first_failure
