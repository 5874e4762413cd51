-- ===== src/Run/Lifecycle.antt =====
-- The life of a tool call in `RunCoordinator`, src/assistant_agent/agent/run/coordinator.py:
-- `approval_pending`, `tool_started`, `tool_completed` with the recording of charts, outputs and
-- capture intents, and `batch_completed`. A result is a shared object that the recording may
-- change, so it is returned.
pub mod Begun
mod Recording
pub mod Resolved
pub mod Unknown
use Prim.Native.String.{◌++◌ as concat}
use assistant_agent.Base.{
  ◌+◌, String, Bool, true, false, not, ◌&&◌, ◌||◌, none, some, List, [], ◌∷◌, ◌++◌, map, ◌==◌, ltb,
  leb, is_some, find, contains, ◌≡◌, refl, length, if◌then◌else◌,
}
use assistant_agent.Base.Result.{
  ok, err, validation_error, value_error, pure, gets, raise_if, ◌>>=◌, ◌>>◌,
}
use assistant_agent.ToolResult.{
  Text, codes, ChartArtifact, OutputArtifact, OutputCaptureIntent, ToolResult, encode_result,
}
use assistant_agent.Permissions.Requests.{PermissionRequest, encode_request}
use assistant_agent.Run.State.{
  RunStatus, RunPhase, ToolCallStatus, ReplayPolicy, RetrySafety, RunItemKind, RunItemStatus,
  ToolCallState, Message, RunState, PendingOutputCaptureState,
}
use assistant_agent.Run.Consistency.{
  capture_fits, item_ids, is_session, total_bytes, max_run_artifacts, max_run_artifact_bytes,
  all_resolved, is_resolved,
}
use assistant_agent.Run.Items.{upsert_item, item_id_fits}
use assistant_agent.Run.Failures.{tool_failure}
use assistant_agent.Run.Coordinator.{
  Coordinator, Action, update_state, checkpoint, capture_bound_context, call, write_call,
  update_call, is_open, model_phase,
}

-- `upsert_item` of an id that may be too long for a new item: then its validation raises.
unfoldable pub add_item : String → RunItemKind → RunItemStatus → Text → Action Unit
unfolding upsert_item
add_item id kind status summary c =
    if item_id_fits id || contains (item_ids c.state.items) id
    then update_state (upsert_item id kind status summary) c
    else (err validation_error, c)

pub add_item-fits :
    (id : String) (kind : RunItemKind) (status : RunItemStatus) (summary : Text) (c : Coordinator)
    → item_id_fits id ≡ true
    → add_item id kind status summary c
      ≡ (ok tt, record c { state = upsert_item id kind status summary c.state })
unfolding add_item
add_item-fits id kind status summary c h = rw h refl

unfoldable pub approval_pending : String → List PermissionRequest → ReplayPolicy → Action Unit
approval_pending id requests policy = do
  found ← call id
  raise_if (not (is_open found.status)) value_error
  write_call id (λ c. record c {
    status = ToolCallStatus.awaiting_approval;
    permission_requests = map encode_request requests;
    replay_policy = policy;
  })
  update_state (λ s. record s { phase = RunPhase.awaiting_approval })
  capture_bound_context
  checkpoint

unfoldable pub tool_started : String → List PermissionRequest → ReplayPolicy → Action Unit
unfolding add_item
tool_started id requests policy = do
  found ← call id
  raise_if (not (is_open found.status)) value_error
  write_call id (λ c. record c {
    status = ToolCallStatus.started;
    permission_requests = map encode_request requests;
    replay_policy = policy;
  })
  add_item (concat "item_tool_" id) RunItemKind.tool RunItemStatus.started (codes found.name)
  update_state (λ s. record s { phase = RunPhase.tools_pending })
  capture_bound_context
  checkpoint

unfoldable pub reject_output : Text → String → ToolResult → ToolResult
reject_output message code r = record r {
  output = message;
  is_error = true;
  code = code;
  retryable = false;
  executed = false;
  output_artifact = none;
  output_capture = none;
}

unfoldable pub reject_chart : Text → ToolResult → ToolResult
reject_chart message r = record r {
  output = message;
  is_error = true;
  code = "artifact_rejected";
  retryable = false;
  executed = false;
  chart = none;
}

-- A new chart is refused if it is another run's or another session's, or if it does not fit.
unfoldable pub is_foreign_chart : ChartArtifact → RunState → Bool
is_foreign_chart artifact s =
    not (artifact.run_id == s.run_id)
    || not (is_session s.session_id artifact.session_id)
    || leb max_run_artifacts (length s.presentations)
    || ltb max_run_artifact_bytes (total_bytes s.presentations + artifact.size_bytes)

unfoldable pub hold_chart : ChartArtifact → RunState → RunState
unfolding upsert_item
hold_chart artifact s =
    upsert_item (concat "item_chart_" artifact.artifact_id) RunItemKind.chart
      RunItemStatus.completed artifact.title
      (record s { presentations = s.presentations ++ artifact ∷ [] })

-- A chart that the run already holds is replaced by the held one if the content agrees, and refused
-- if not; a new chart is held if it is this run's and fits.
unfoldable pub record_chart : ChartArtifact → ToolResult → RunState → ToolResult × RunState
unfolding reject_chart is_foreign_chart hold_chart
record_chart artifact r s =
    elim (find (λ c. c.artifact_id == artifact.artifact_id) s.presentations) [
      | some existing ↦
          if existing.content_hash == artifact.content_hash
          then (record r { chart = some existing }, s)
          else (reject_chart (codes "图表标识冲突，已保留原有图表。") r, s)
      | none ↦
          if is_foreign_chart artifact s
          then (reject_chart (codes "图表超过当前 Run 的安全存储上限，已忽略。") r, s)
          else (r, hold_chart artifact s)
    ]

unfoldable pub record_presentation : ToolResult → RunState → ToolResult × RunState
unfolding record_chart
record_presentation r s = elim r.chart [ none ↦ (r, s) | some artifact ↦ record_chart artifact r s ]

unfoldable pub is_foreign_output : OutputArtifact → RunState → Bool
is_foreign_output artifact s =
    not (artifact.run_id == s.run_id) || not (is_session s.session_id artifact.session_id)

unfoldable pub hold_output : OutputArtifact → RunState → RunState
unfolding upsert_item
hold_output artifact s =
    upsert_item (concat "item_output_" artifact.output_id) RunItemKind.output
      RunItemStatus.completed artifact.filename (record s { outputs = s.outputs ++ artifact ∷ [] })

unfoldable pub record_artifact : OutputArtifact → ToolResult → RunState → ToolResult × RunState
unfolding reject_output is_foreign_output hold_output
record_artifact artifact r s = elim (find (λ o. o.output_id == artifact.output_id) s.outputs) [
  | some existing ↦
      if existing.content_hash == artifact.content_hash
      then (record r { output_artifact = some existing }, s)
      else (reject_output (codes "输出标识冲突，已保留原有输出。") "output_conflict" r, s)
  | none ↦
      if is_foreign_output artifact s
      then (reject_output (codes "输出归属无效，已拒绝。") "output_invalid" r, s)
      else (r, hold_output artifact s)
]

unfoldable pub record_output : ToolResult → RunState → ToolResult × RunState
unfolding record_artifact
record_output r s = elim r.output_artifact [
  | none ↦ (r, s)
  | some artifact ↦ record_artifact artifact r s
]

unfoldable pub is_foreign_capture : String → OutputCaptureIntent → RunState → Bool
is_foreign_capture id intent s =
    is_some s.pending_output_capture
    || not (is_session s.session_id intent.session_id)
    || not (intent.run_id == s.run_id)
    || not (intent.call_id == id)

-- The capture that a `create_output` call asks for: at most one at a time, and only this call's
-- own.
abbrev pub pending_of : OutputCaptureIntent → PendingOutputCaptureState
pending_of intent = record {
  draft_id = intent.draft_id;
  call_id = intent.call_id;
  filename = intent.filename;
  media_type = intent.media_type;
  disposition = intent.disposition;
  title = intent.title;
  max_chunk_bytes = intent.max_chunk_bytes;
  validation_failures = 0;
}

-- An intent that does not belong to the call, or comes while one is pending, is refused. One whose
-- fields do not fit raises, which `settle` does: the state is as before.
unfoldable pub accept_capture :
    String → OutputCaptureIntent → ToolResult → RunState → ToolResult × RunState
unfolding is_foreign_capture reject_output capture_fits
accept_capture id intent r s =
    if is_foreign_capture id intent s
    then (reject_output (codes "输出捕获意图无效。") "output_invalid" r, s)
    else if capture_fits (some (pending_of intent))
    then (r, record s { pending_output_capture = some (pending_of intent) })
    else (r, s)

-- The capture intent of a result, if it has one, fits the fields of the pending capture.
unfoldable pub intent_fits : ToolResult → Bool
unfolding capture_fits
intent_fits r = elim r.output_capture [
  | none ↦ true
  | some intent ↦ capture_fits (some (pending_of intent))
]

-- Whether building the pending capture raises.
unfoldable pub is_invalid_capture : String → ToolResult → RunState → Bool
unfolding intent_fits is_foreign_capture
is_invalid_capture id r s =
    not (intent_fits r)
    && elim r.output_capture [ none ↦ false | some intent ↦ not (is_foreign_capture id intent s) ]

unfoldable pub record_capture : String → ToolResult → RunState → ToolResult × RunState
unfolding accept_capture
record_capture id r s = elim r.output_capture [
  | none ↦ (r, s)
  | some intent ↦ accept_capture id intent r s
]

-- The three recordings in the order of `tool_completed`.
unfoldable pub record_artifacts : String → ToolResult → RunState → ToolResult × RunState
unfolding record_presentation record_output record_capture
record_artifacts id r s =
    let (r₁, s₁) = record_presentation r s in
    let (r₂, s₂) = record_output r₁ s₁ in record_capture id r₂ s₂

abbrev pub final_status : ToolResult → ToolCallStatus
final_status r =
    if not r.executed
    then ToolCallStatus.skipped
    else if r.is_error
    then ToolCallStatus.failed
    else ToolCallStatus.completed

abbrev pub is_decision : ReplayPolicy → Bool
is_decision ReplayPolicy.requires_decision = true
is_decision _ = false

abbrev pub after_unknown : RetrySafety → RetrySafety
after_unknown RetrySafety.safe = RetrySafety.uncertain
after_unknown other = other

abbrev pub resolve_call : ToolResult → ToolCallState → ToolCallState
resolve_call r c = record c { status = final_status r; result = some (encode_result r) }

-- The state that a result with a known outcome leaves: the call is resolved and its result message
-- is added.
unfoldable pub resolved_state : String → String → ReplayPolicy → ToolResult → RunState → RunState
resolved_state id name policy r s = record s {
  retry_safety = if r.executed && is_decision policy then RetrySafety.unsafe else s.retry_safety;
  tool_calls = update_call id (resolve_call r) s.tool_calls;
  messages = s.messages ++ Message.tool id name r.output ∷ [];
  phase = RunPhase.tools_pending;
}

abbrev pub forget_result : ToolCallState → ToolCallState
forget_result c = record c { status = ToolCallStatus.started; result = none }

-- The state of a call whose outcome is unknown: it stays `started` with no result and no message,
-- and the run pauses until somebody decides.
unfoldable pub unknown_state : String → String → RunState → RunState
unfolding tool_failure
unknown_state id code s = record s {
  retry_safety = after_unknown s.retry_safety;
  tool_calls = update_call id forget_result s.tool_calls;
  status = RunStatus.paused;
  phase = RunPhase.tool_uncertain;
  failure = some (tool_failure code false);
}

unfoldable pub settle : String → String → ReplayPolicy → ToolResult → Action ToolResult
unfolding unknown_state record_artifacts resolved_state is_invalid_capture
settle id name policy r c =
    if r.code == "mcp_outcome_unknown"
    then (do update_state (unknown_state id r.code); capture_bound_context; checkpoint; pure r) c
    else (let (r', s') = record_artifacts id r c.state in
        (do
          update_state (λ _. s')
          raise_if (is_invalid_capture id r' s') validation_error
          update_state (λ _. resolved_state id name policy r' s')
          capture_bound_context
          checkpoint
          pure r')
          c)

unfoldable pub tool_completed :
    String → ToolResult → List PermissionRequest → ReplayPolicy → Action ToolResult
unfolding add_item
tool_completed id result requests policy = do
  found ← call id
  raise_if (is_resolved found.status) value_error
  write_call id
      (λ c. record c { permission_requests = map encode_request requests; replay_policy = policy })
  add_item (concat "item_tool_" id) RunItemKind.tool
      (if result.is_error then RunItemStatus.failed else RunItemStatus.completed)
      (codes result.code)
  settle id found.name policy result

unfoldable pub batch_completed : List Message → Action Unit
unfolding all_resolved
batch_completed messages = do
  calls ← gets (λ c. c.state.tool_calls)
  raise_if (not (all_resolved calls)) value_error
  update_state (λ s. record s {
    messages = messages;
    tool_calls = [];
    phase = model_phase s.pending_output_capture;
  })
  checkpoint
