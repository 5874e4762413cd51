-- ===== src/Run/Ending.antt =====
-- How a run ends, pauses and resumes in `RunCoordinator`,
-- src/assistant_agent/agent/run/coordinator.py: `terminal`, `cancel`, `pause`,
-- `mark_uncertain_if_needed`, `reconcile_orphan`, `retry`, `skip`, the retry records and
-- `mark_session_synced`.
pub mod Terminal
pub mod Recovery
use assistant_agent.Base.{
  ℕ, String, Bool, true, false, not, ◌&&◌, ◌||◌, Option, none, some, List, [], ◌∷◌, ◌++◌, ◌==◌,
  is_some, all, if◌then◌else◌,
}
use assistant_agent.Base.Result.{Result, ok, err, value_error, pure, gets, raise_if, ◌>>=◌, ◌>>◌}
use assistant_agent.ToolResult.{Text, codes, ToolResult, error_result, encode_result}
use assistant_agent.Run.State.{
  RunStatus, RunPhase, ToolCallStatus, ReplayPolicy, RetrySafety, RunItemKind, RunItemStatus,
  AllowedAction, FailureCode, FailureTerminalStatus, RunFailure, ToolCallState, Message, RunState,
}
use assistant_agent.Run.Consistency.{is_terminal}
use assistant_agent.Run.Items.{upsert_item}
use assistant_agent.Run.Failures.{tool_failure}
use assistant_agent.Run.Coordinator.{
  Coordinator, Action, update_state, checkpoint, capture_bound_context, call, write_call, find_call,
}

abbrev pub is_retry : AllowedAction → Bool
is_retry AllowedAction.retry_run = true
is_retry _ = false

abbrev pub is_resolve : AllowedAction → Bool
is_resolve AllowedAction.resolve_uncertain_tool = true
is_resolve _ = false

abbrev pub without_retry : List AllowedAction → List AllowedAction
without_retry [] = []
without_retry (a ∷ rest) = let kept = without_retry rest in if is_retry a then kept else a ∷ kept

abbrev pub has_action : (AllowedAction → Bool) → List AllowedAction → Bool
has_action p [] = false
has_action p (a ∷ rest) = p a || has_action p rest

abbrev or_start : List AllowedAction → List AllowedAction
or_start [] = AllowedAction.start_new_run ∷ []
or_start (a ∷ rest) = a ∷ rest

abbrev with_resolve : List AllowedAction → List AllowedAction
with_resolve actions =
    if has_action is_resolve actions
    then actions
    else actions ++ AllowedAction.resolve_uncertain_tool ∷ []

abbrev pub is_safe : RetrySafety → Bool
is_safe RetrySafety.safe = true
is_safe _ = false

abbrev pub is_uncertain : RetrySafety → Bool
is_uncertain RetrySafety.uncertain = true
is_uncertain _ = false

-- After unsafe or uncertain side effects a failure no longer offers a retry.
unfoldable pub guard_failure : RetrySafety → RunFailure → RunFailure
guard_failure safety f =
    let kept = without_retry f.allowed_actions in
    if is_safe safety then f else record f {
      retryable = false;
      allowed_actions = or_start (if is_uncertain safety then with_resolve kept else kept);
      unknown_side_effect = is_uncertain safety;
    }

internal_failure : RunFailure
internal_failure = record {
  code = FailureCode.internal_error;
  safe_message = codes "任务执行失败。";
  retryable = false;
  allowed_actions = AllowedAction.retry_run ∷ AllowedAction.start_new_run ∷ [];
  resource = none;
  used = none;
  limit = none;
  terminal_status = some FailureTerminalStatus.failed;
  unknown_side_effect = false;
}

abbrev given_failure : Option RunFailure → RunFailure
given_failure none = internal_failure
given_failure (some f) = f

abbrev final_status : Bool → RunStatus
final_status success = if success then RunStatus.completed else RunStatus.failed

-- The items that close the timeline, the first with the text and the second with the status.
abbrev final_items : RunItemStatus → Text → Text → RunState → RunState
final_items status text word s =
    upsert_item "item_terminal" RunItemKind.terminal status word
      (upsert_item "item_final" RunItemKind.assistant status text s)

unfoldable pub terminal :
    Bool → Text → List Message → Option (Text × ℕ) → Option RunFailure → Action Unit
unfolding internal_failure guard_failure upsert_item
terminal success text messages compaction failure = do
  update_state (
      if success
      then final_items RunItemStatus.completed text (codes "completed")
      else final_items RunItemStatus.failed text (codes "failed"))
  update_state (λ s. record s {
    messages = messages;
    pending_output_capture = none;
    compaction_checkpoint = compaction;
    tool_calls = [];
    status = final_status success;
    phase = RunPhase.terminal;
    terminal_text = text;
    failure = if success then none else some (guard_failure s.retry_safety (given_failure failure));
    session_synced = not (is_some s.session_id);
  })
  capture_bound_context
  checkpoint

unfoldable pub cancel : Text → List Message → Option (Text × ℕ) → Action Unit
unfolding upsert_item
cancel text messages compaction = do
  update_state (final_items RunItemStatus.cancelled text (codes "cancelled"))
  update_state (λ s. record s {
    messages = messages;
    pending_output_capture = none;
    compaction_checkpoint = compaction;
    tool_calls = [];
    status = RunStatus.cancelled;
    phase = RunPhase.terminal;
    terminal_text = text;
    failure = none;
    session_synced = not (is_some s.session_id);
  })
  capture_bound_context
  checkpoint

abbrev or_else {ℓ} : {A : Type ℓ} → Option A → A → A
or_else none a = a
or_else (some b) a = b

unfoldable pub pause : Text → Option (List Message) → Option RunPhase → Action Unit
unfolding upsert_item
pause text messages phase = do
  update_state (upsert_item "item_terminal" RunItemKind.terminal RunItemStatus.waiting text)
  update_state (λ s. record s {
    messages = or_else messages s.messages;
    status = RunStatus.paused;
    phase = or_else phase s.phase;
    terminal_text = text;
  })
  capture_bound_context
  checkpoint

abbrev pub is_started : ToolCallStatus → Bool
is_started ToolCallStatus.started = true
is_started _ = false

abbrev pub started_calls : List ToolCallState → List ToolCallState
started_calls [] = []
started_calls (c ∷ cs) =
    let others = started_calls cs in if is_started c.status then c ∷ others else others

abbrev pub after_crash : RetrySafety → RetrySafety
after_crash RetrySafety.safe = RetrySafety.uncertain
after_crash other = other

-- The calls whose outcome is unknown after a crash; if there are any, the run is paused for them.
unfoldable pub mark_uncertain_if_needed : Action (List ToolCallState)
unfolding tool_failure
mark_uncertain_if_needed c = elim (started_calls c.state.tool_calls) [
  | [] ↦ (ok [], c)
  | call ∷ calls ↦
      (do
        update_state (λ s. record s {
          retry_safety = after_crash s.retry_safety;
          status = RunStatus.paused;
          phase = RunPhase.tool_uncertain;
          failure = some (tool_failure "mcp_outcome_unknown" false);
        })
        checkpoint
        pure (call ∷ calls))
        c
]

abbrev is_running : RunStatus → Bool
is_running RunStatus.running = true
is_running _ = false

abbrev unless_any {ℓ} : {A : Type ℓ} → List A → Action Unit → Action Unit
unless_any [] m = m
unless_any (x ∷ xs) m = pure tt

unfoldable pub reconcile_orphan : String → Action Unit
reconcile_orphan request_hash = do
  s ← gets (λ c. c.state)
  raise_if (not (is_running s.status)) value_error
  update_state (λ s. record s { reconciliation_request_hash = some request_hash })
  uncertain ← mark_uncertain_if_needed
  unless_any uncertain (pause (codes "执行器已退出，Run 已安全暂停，等待恢复。") none none)

abbrev pub is_replayable : ReplayPolicy → Bool
is_replayable ReplayPolicy.requires_decision = false
is_replayable _ = true

-- Every other started call may be replayed too.
abbrev pub others_replayable : String → List ToolCallState → Bool
others_replayable id =
    all (λ c. (c.id == id || not (is_started c.status)) || is_replayable c.replay_policy)

unfoldable pub retry : String → Action Unit
retry id = do
  found ← call id
  raise_if (not (is_started found.status)) value_error
  write_call id (λ c. record c { status = ToolCallStatus.planned })
  update_state (λ s. record s {
    retry_safety =
        if is_uncertain s.retry_safety
          && is_replayable found.replay_policy
          && others_replayable id s.tool_calls
        then RetrySafety.safe
        else s.retry_safety;
    status = RunStatus.running;
    phase = RunPhase.tools_pending;
    failure = none;
  })
  checkpoint

unfoldable pub skipped_result : ToolResult
unfolding error_result
skipped_result =
    error_result (codes "[recovery_skipped] 用户选择不重放执行结果未知的工具调用") "recovery_skipped" false false

abbrev pub skip_call : ToolCallState → ToolCallState
skip_call c = record c {
  status = ToolCallStatus.skipped;
  result = some (encode_result skipped_result);
}

unfoldable pub skip : String → Action ToolResult
unfolding skipped_result
skip id = do
  found ← call id
  raise_if (not (is_started found.status)) value_error
  write_call id skip_call
  update_state (λ s. record s {
    messages = s.messages ++ Message.tool found.id found.name skipped_result.output ∷ [];
    status = RunStatus.running;
    phase = RunPhase.tools_pending;
    failure = none;
  })
  checkpoint
  pure skipped_result

unfoldable pub mark_session_synced : Action Unit
mark_session_synced = do
  s ← gets (λ c. c.state)
  raise_if (not (is_terminal s.status)) value_error
  update_state (λ s. record s { session_synced = true })
  checkpoint

unfoldable pub prepare_retry : String → String → String → Action Unit
prepare_retry retry_of key request = update_state (λ s. record s {
  retry_of_run_id = some retry_of;
  retry_idempotency_key_hash = some key;
  retry_request_hash = some request;
})

-- `self.state.retry_requests` as a dictionary.
abbrev pub lookup : String → List (String × String) → Option String
lookup key [] = none
lookup key ((k, v) ∷ d) = if k == key then some v else lookup key d

abbrev pub insert : String → String → List (String × String) → List (String × String)
insert key new [] = (key, new) ∷ []
insert key new ((k, v) ∷ d) = if k == key then (k, new) ∷ d else (k, v) ∷ insert key new d

abbrev pub remove : String → List (String × String) → List (String × String)
remove key [] = []
remove key ((k, v) ∷ d) = if k == key then d else (k, v) ∷ remove key d

abbrev is_other : Option String → String → Bool
is_other none new = false
is_other (some old) new = not (old == new)

unfoldable pub record_retry : String → String → Action Unit
record_retry key new = do
  s ← gets (λ c. c.state)
  raise_if (is_other (lookup key s.retry_requests) new) value_error
  update_state (λ s. record s { retry_requests = insert key new s.retry_requests })
  checkpoint

abbrev is_exactly : Option String → String → Bool
is_exactly none new = false
is_exactly (some old) new = old == new

unfoldable pub remove_retry : String → String → Action Unit
remove_retry key expected c =
    if is_exactly (lookup key c.state.retry_requests) expected
    then (do
      update_state (λ s. record s { retry_requests = remove key s.retry_requests })
      checkpoint)
        c
    else (ok tt, c)
