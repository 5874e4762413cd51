-- ===== src/Run/State.antt =====
-- The data of a run's checkpoint: src/assistant_agent/agent/run/state.py, with the failure of
-- contracts/failures.py and the timeline item of contracts/run_items.py. Timestamps, payloads of
-- items, definition hashes, the reasoning text and the observability snapshot are left out: no
-- transition of the run reads them.
use assistant_agent.Base.{ℕ, String, Bool, Option, List}
use assistant_agent.Budget.{ToolBudgetState}
use assistant_agent.ToolResult.{Text, ChartArtifact, OutputArtifact, ToolResultState}

pub data RunStatus : Type 0 where
  running paused cancelled completed failed : RunStatus

pub data RunPhase : Type 0 where
  model_pending artifact_capture tools_pending awaiting_approval tool_uncertain terminal : RunPhase

pub data ToolCallStatus : Type 0 where
  planned awaiting_approval started completed failed skipped : ToolCallStatus

pub data ReplayPolicy : Type 0 where
  safe_readonly safe_idempotent requires_decision : ReplayPolicy

pub data RetrySafety : Type 0 where
  safe unsafe uncertain unknown : RetrySafety

pub data BudgetResource : Type 0 where
  iterations tool_calls tool_output context : BudgetResource

pub data AllowedAction : Type 0 where
  continue stop resume_run retry_run start_new_run adjust_configuration : AllowedAction
  inspect_dependency resolve_uncertain_tool reconcile_run : AllowedAction

pub data FailureCode : Type 0 where
  tool_output_budget_exhausted tool_call_budget_exhausted iteration_limit_reached : FailureCode
  context_limit_exceeded provider_rate_limited provider_unavailable : FailureCode
  provider_timeout provider_empty_response provider_output_truncated : FailureCode
  tool_failed permission_denied dependency_unavailable internal_error : FailureCode

pub data FailureTerminalStatus : Type 0 where
  failed paused : FailureTerminalStatus

pub record RunFailure : Type 0 where
  pub code : FailureCode
  pub safe_message : Text
  pub retryable : Bool
  pub allowed_actions : List AllowedAction
  pub resource : Option BudgetResource
  pub used : Option ℕ
  pub limit : Option ℕ
  pub terminal_status : Option FailureTerminalStatus
  pub unknown_side_effect : Bool

pub record ContinuationBudgetState : Type 0 where
  pub resource : BudgetResource
  pub increment : ℕ
  pub hard_limit : ℕ
  pub extension_count : ℕ
  pub max_extensions : ℕ

pub record ContinuationDecisionState : Type 0 where
  pub request_id : String
  pub resource : BudgetResource
  pub old_limit : ℕ
  pub new_limit : ℕ
  pub continued : Bool

pub record PendingOutputCaptureState : Type 0 where
  pub draft_id : String
  pub call_id : String
  pub filename : Text
  pub media_type : String
  pub disposition : String
  pub title : Option Text
  pub max_chunk_bytes : ℕ
  pub validation_failures : ℕ

pub record PermissionRequestState : Type 0 where
  pub tool : String
  pub capability : String
  pub target : String
  pub risk : String

pub record PermissionGrantState : Type 0 where
  pub capability : String
  pub tool : String
  pub target : String

pub record ToolCallState : Type 0 where
  pub id : String
  pub name : String
  pub arguments : Text
  pub status : ToolCallStatus
  pub replay_policy : ReplayPolicy
  pub permission_requests : List PermissionRequestState
  pub result : Option ToolResultState

-- A tool call as the model gave it, in a message or from the provider.
pub record ToolCall : Type 0 where
  pub id : String
  pub name : String
  pub arguments : Text

-- The messages of a run's history by role; the text of a user message is its `content_text`.
pub data Message : Type 0 where
  user : Text → Message
  assistant : Text → List ToolCall → Message
  tool : String → String → Text → Message

pub data RunItemKind : Type 0 where
  user plan reasoning tool chart output assistant compaction terminal : RunItemKind

pub data RunItemStatus : Type 0 where
  planned started streaming waiting completed failed cancelled : RunItemStatus

pub record RunItem : Type 0 where
  pub item_id : String
  pub run_id : String
  pub kind : RunItemKind
  pub status : RunItemStatus
  pub sequence : ℕ
  pub summary : Text

pub record RunState : Type 0 where
  pub run_id : String
  pub session_id : Option String
  pub status : RunStatus
  pub phase : RunPhase
  pub messages : List Message
  pub compaction_checkpoint : Option (Text × ℕ)
  pub iteration : ℕ
  pub iteration_budget : ℕ
  pub tool_budget : ToolBudgetState
  pub iteration_continuation : ContinuationBudgetState
  pub tool_call_continuation : ContinuationBudgetState
  pub tool_output_continuation : ContinuationBudgetState
  pub continuation_decisions : List ContinuationDecisionState
  pub last_signature : Option String
  pub repeat_count : ℕ
  pub tool_calls : List ToolCallState
  pub presentations : List ChartArtifact
  pub outputs : List OutputArtifact
  pub items : List RunItem
  pub pending_output_capture : Option PendingOutputCaptureState
  pub permission_grants : List PermissionGrantState
  pub terminal_text : Text
  pub failure : Option RunFailure
  pub retry_safety : RetrySafety
  pub retry_of_run_id : Option String
  pub retry_idempotency_key_hash : Option String
  pub retry_request_hash : Option String
  pub reconciliation_request_hash : Option String
  pub retry_requests : List (String × String)
  pub session_synced : Bool
