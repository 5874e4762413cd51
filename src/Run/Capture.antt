-- ===== src/Run/Capture.antt =====
-- The end of an output capture: `output_capture_completed` and `output_validation_failed` of
-- src/assistant_agent/agent/run/coordinator.py.
pub mod Repair
use assistant_agent.Base.{
  ℕ, ◌+◌, String, Bool, true, false, not, Option, none, some, List, ◌==◌, is_some, leb,
  if◌then◌else◌,
}
use assistant_agent.Base.Result.{ok, err, value_error, pure, raise_if, modify, ◌>>=◌, ◌>>◌}
use assistant_agent.ToolResult.{Text, codes, OutputArtifact, ToolResult, post_init}
use assistant_agent.Run.State.{RunStatus, RunPhase, Message, PendingOutputCaptureState, RunState}
use assistant_agent.Run.Coordinator.{Coordinator, Action, update_state, checkpoint}
use assistant_agent.Run.Lifecycle.{record_output}

-- The pending capture of a call.
abbrev pub is_pending_of : String → Option PendingOutputCaptureState → Bool
is_pending_of id none = false
is_pending_of id (some p) = p.call_id == id

unfoldable pub created_result : OutputArtifact → ToolResult
created_result artifact = post_init (record {
  output = codes "输出文件已创建。";
  is_error = false;
  code = "output_created";
  retryable = false;
  budget_exhausted = none;
  executed = true;
  chart = none;
  output_artifact = some artifact;
  output_capture = none;
})

unfoldable pub output_capture_completed : OutputArtifact → List Message → Action Unit
output_capture_completed artifact messages c =
    if not (is_pending_of artifact.call_id c.state.pending_output_capture)
    then (err value_error, c)
    else (let (result, s) = record_output (created_result artifact) c.state in
        (do
          update_state (λ _. s)
          raise_if (not (is_some result.output_artifact)) value_error
          update_state (λ s. record s {
            messages = messages;
            pending_output_capture = none;
            phase = RunPhase.model_pending;
          })
          checkpoint)
          c)

-- A failure of the pending capture: the first is saved with one more chance, a later one is not.
unfoldable pub fail_pending : PendingOutputCaptureState → List Message → Action Bool
fail_pending p messages c =
    if leb 1 p.validation_failures
    then (ok false, c)
    else (do
      update_state (λ s. record s {
        pending_output_capture =
            some (record p { validation_failures = p.validation_failures + 1 });
        messages = messages;
        status = RunStatus.running;
        phase = RunPhase.artifact_capture;
      })
      checkpoint
      pure true)
        c

unfoldable pub fail_if_pending :
    String → List Message → Option PendingOutputCaptureState → Action Bool
fail_if_pending id messages none c = (err value_error, c)
fail_if_pending id messages (some p) c =
    if p.call_id == id then fail_pending p messages c else (err value_error, c)

unfoldable pub output_validation_failed : String → List Message → Action Bool
output_validation_failed id messages c =
    fail_if_pending id messages c.state.pending_output_capture c
