-- ===== src/Run/Coordinator.antt =====
-- `RunCoordinator` of src/assistant_agent/agent/run/coordinator.py: the object, its checkpoint, and
-- the transitions around a call of the model. The store is a port: `accepts` says which saves
-- succeed, and `saved` is what it holds, the newest first. The tool context is shared with the
-- loop: `grants` and `budget` are its fields, read back at each boundary once it is bound.
use assistant_agent.Base.{
  ◌≡◌, ℕ, String, Bool, true, false, Option, none, some, List, [], ◌∷◌, map, ◌==◌, if◌then◌else◌,
}
use assistant_agent.Base.Result.{
  ok, err, Method, value_error, validation_error, storage_error, modify, ◌>>◌,
}
use assistant_agent.Budget.{ToolBudget, encode_budget}
use assistant_agent.ToolResult.{Text}
use assistant_agent.Run.State.{
  RunStatus, RunPhase, ToolCallStatus, ReplayPolicy, ToolCallState, ToolCall, Message,
  PermissionGrantState, RunState, PendingOutputCaptureState,
}
use assistant_agent.Run.Consistency.{is_consistent}

pub record Coordinator : Type 0 where
  pub state : RunState
  pub bound : Bool
  pub grants : List PermissionGrantState
  pub budget : ToolBudget
  pub saved : List RunState
  pub accepts : List RunState → RunState → Bool

abbrev pub Action : Type 0 → Type 0
Action A = Method Coordinator A

abbrev pub update_state : (RunState → RunState) → Action Unit
update_state f = modify (λ c. record c { state = f c.state })

-- The snapshot is validated, then saved; a failure of either is raised.
unfoldable pub checkpoint : Action Unit
checkpoint c =
    if is_consistent c.state
    then (if c.accepts c.saved c.state
        then (ok tt, record c { saved = c.state ∷ c.saved })
        else (err storage_error, c))
    else (err validation_error, c)

-- `self.state.tool_budget = encode_budget(budget)`.
unfoldable pub store_budget : Action Unit
store_budget c = elim (encode_budget c.budget) [
  | ok b ↦ (ok tt, record c { state = record c.state { tool_budget = b } })
  | err e ↦ (err e, c)
]

unfoldable pub capture_bound_context : Action Unit
capture_bound_context c =
    if c.bound
    then store_budget (record c { state = record c.state { permission_grants = c.grants } })
    else (ok tt, c)

-- The loop's cursor and history, as `sync_runtime` takes them.
pub record Runtime : Type 0 where
  pub messages : List Message
  pub compaction_checkpoint : Option (Text × ℕ)
  pub iteration : ℕ
  pub iteration_budget : ℕ
  pub last_signature : Option String
  pub repeat_count : ℕ

unfoldable pub initialize : List Message → Option (Text × ℕ) → Action Unit
initialize messages compaction = do
  update_state (λ s. record s { messages = messages; compaction_checkpoint = compaction })
  store_budget
  update_state (λ s. record s { status = RunStatus.running; phase = RunPhase.model_pending })
  capture_bound_context
  checkpoint

unfoldable pub sync_runtime : Runtime → Action Unit
sync_runtime r = do
  update_state (λ s. record s {
    messages = r.messages;
    compaction_checkpoint = r.compaction_checkpoint;
    iteration = r.iteration;
    iteration_budget = r.iteration_budget;
    last_signature = r.last_signature;
    repeat_count = r.repeat_count;
  })
  store_budget

abbrev pub model_phase : Option PendingOutputCaptureState → RunPhase
model_phase none = RunPhase.model_pending
model_phase (some p) = RunPhase.artifact_capture

unfoldable pub before_model : Runtime → Action Unit
before_model r = do
  sync_runtime r
  update_state (λ s. record s {
    status = RunStatus.running;
    phase = model_phase s.pending_output_capture;
    tool_calls = [];
  })
  capture_bound_context
  checkpoint

abbrev pub planned_call : ToolCall → ToolCallState
planned_call call = record {
  id = call.id;
  name = call.name;
  arguments = call.arguments;
  status = ToolCallStatus.planned;
  replay_policy = ReplayPolicy.requires_decision;
  permission_requests = [];
  result = none;
}

unfoldable pub model_completed : List Message → List ToolCall → Action Unit
model_completed messages calls = do
  update_state (λ s. record s {
    messages = messages;
    tool_calls = map planned_call calls;
    status = RunStatus.running;
    phase = RunPhase.tools_pending;
  })
  checkpoint

-- `_call`: the first call of that id, or an error.
abbrev pub find_call : String → List ToolCallState → Option ToolCallState
find_call id [] = none
find_call id (c ∷ cs) = if c.id == id then some c else find_call id cs

-- Writes to the object that `_call` found.
abbrev pub update_call :
    String → (ToolCallState → ToolCallState) → List ToolCallState → List ToolCallState
update_call id f [] = []
update_call id f (c ∷ cs) = if c.id == id then f c ∷ cs else c ∷ update_call id f cs

unfoldable pub call : String → Action ToolCallState
call id c = elim (find_call id c.state.tool_calls) [
  | none ↦ (err value_error, c)
  | some found ↦ (ok found, c)
]

abbrev pub write_call : String → (ToolCallState → ToolCallState) → Action Unit
write_call id f = update_state (λ s. record s { tool_calls = update_call id f s.tool_calls })

-- `planned` and `awaiting_approval`: the call may still be asked about or started.
abbrev pub is_open : ToolCallStatus → Bool
is_open ToolCallStatus.planned = true
is_open ToolCallStatus.awaiting_approval = true
is_open _ = false

pub call-found :
    (id : String) (c : Coordinator) (found : ToolCallState)
    → find_call id c.state.tool_calls ≡ some found
    → call id c ≡ (ok found, c)
unfolding call
call-found id c found e = rw (e, call)

pub call-missing :
    (id : String) (c : Coordinator)
    → find_call id c.state.tool_calls ≡ none
    → call id c ≡ (err value_error, c)
unfolding call
call-missing id c e = rw (e, call)
