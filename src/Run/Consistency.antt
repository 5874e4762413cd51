-- ===== src/Run/Consistency.antt =====
-- The validators of `RunState` in src/assistant_agent/agent/run/state.py: `_state_is_consistent`,
-- `_validate_tool_messages`, the validator of `ToolCallState` and the bounds of the fields but for
-- a run id and the artifacts. A checkpoint that fails one of them is refused.
use Prim.Native.String.{count}
use native.Mathlib.Omega.{arith}
use assistant_agent.Base.{
  ◌≡◌, ℕ, ◌*◌, String, Bool, true, false, not, ◌&&◌, ◌||◌, Option, none, some, List, [], ◌∷◌, ◌++◌,
  ◌==◌, ltb, leb, eqb, is_some, all, contains, distinct, length, sum_by,
}
use assistant_agent.Budget.{ToolBudgetState, usage_is_consistent}
use assistant_agent.ToolResult.{Text, codes, ChartArtifact, OutputArtifact}
use assistant_agent.Run.State.{
  RunStatus, RunPhase, ToolCallStatus, FailureTerminalStatus, RunFailure, ToolCallState, ToolCall,
  Message, ContinuationBudgetState, PendingOutputCaptureState, ContinuationDecisionState, RunItem,
  RunState,
}

abbrev pub is_terminal : RunStatus → Bool
is_terminal RunStatus.cancelled = true
is_terminal RunStatus.completed = true
is_terminal RunStatus.failed = true
is_terminal _ = false

abbrev pub is_terminal_phase : RunPhase → Bool
is_terminal_phase RunPhase.terminal = true
is_terminal_phase _ = false

-- `_RESOLVED_TOOL_STATUSES`.
abbrev pub is_resolved : ToolCallStatus → Bool
is_resolved ToolCallStatus.completed = true
is_resolved ToolCallStatus.failed = true
is_resolved ToolCallStatus.skipped = true
is_resolved _ = false

abbrev pub same : Bool → Bool → Bool
same true b = b
same false b = not b

-- Only the capture phase and the tool phase have a pending output, and the capture demands it.
abbrev pub pending_fits : RunPhase → Option PendingOutputCaptureState → Bool
pending_fits RunPhase.artifact_capture p = is_some p
pending_fits RunPhase.tools_pending p = true
pending_fits _ p = not (is_some p)

abbrev pub failure_fits : RunStatus → Option RunFailure → Bool
failure_fits RunStatus.failed none = false
failure_fits RunStatus.failed (some f) = elim f.terminal_status [
  | some FailureTerminalStatus.failed ↦ true
  | _ ↦ false
]
failure_fits RunStatus.paused none = true
failure_fits RunStatus.paused (some f) = elim f.terminal_status [
  | some FailureTerminalStatus.paused ↦ true
  | _ ↦ false
]
failure_fits _ none = true
failure_fits _ (some f) = false

unfoldable pub all_resolved : List ToolCallState → Bool
all_resolved = all (λ c. is_resolved c.status)

-- Of one call: its id and name are not empty, and it has a result exactly when it is resolved.
unfoldable pub result_fits : ToolCallState → Bool
result_fits c =
    not (c.id == "") && (not (c.name == "") && same (is_resolved c.status) (is_some c.result))

abbrev pub call_ids : List ToolCallState → List String
call_ids [] = []
call_ids (c ∷ cs) = c.id ∷ call_ids cs

abbrev pub ids : List ToolCall → List String
ids [] = []
ids (c ∷ cs) = c.id ∷ ids cs

-- The ids of the calls that the assistant made, and of those that have a result message.
abbrev pub assistant_ids : List Message → List String
assistant_ids [] = []
assistant_ids (Message.assistant content calls ∷ ms) = ids calls ++ assistant_ids ms
assistant_ids (_ ∷ ms) = assistant_ids ms

abbrev pub result_ids : List Message → List String
result_ids [] = []
result_ids (Message.tool id name content ∷ ms) = id ∷ result_ids ms
result_ids (_ ∷ ms) = result_ids ms

-- `_validate_tool_messages`: every call was made in a message, and has a result message exactly
-- when it is resolved.
unfoldable pub calls_answered : List String → List String → List ToolCallState → Bool
calls_answered made answered [] = true
calls_answered made answered (c ∷ cs) =
    contains made c.id
    && (same (contains answered c.id) (is_resolved c.status) && calls_answered made answered cs)

unfoldable pub calls_fit : List Message → List ToolCallState → Bool
unfolding calls_answered result_fits
calls_fit messages calls =
    distinct (call_ids calls)
    && (all result_fits calls
        && calls_answered (assistant_ids messages) (result_ids messages) calls)

abbrev pub continuation_fits : ContinuationBudgetState → Bool
continuation_fits c = ltb 0 c.increment && ltb 0 c.hard_limit

unfoldable pub budgets_fit :
    ℕ
    → ToolBudgetState
    → ContinuationBudgetState
    → ContinuationBudgetState
    → ContinuationBudgetState
    → Bool
unfolding usage_is_consistent
budgets_fit limit b rounds calls chars =
    usage_is_consistent b
    && (leb 1 limit
        && (leb limit rounds.hard_limit
            && (leb b.max_calls calls.hard_limit
                && ((eqb b.max_total_output_chars 0
                      || leb b.max_total_output_chars chars.hard_limit)
                    && (continuation_fits rounds
                        && (continuation_fits calls && continuation_fits chars))))))

abbrev pub max_run_artifacts : ℕ
max_run_artifacts = 16

abbrev pub max_run_artifact_bytes : ℕ
max_run_artifact_bytes = 2 * 1024 * 1024

-- `item.session_id == self.session_id`, where the run may have no session.
abbrev pub is_session : Option String → String → Bool
is_session none x = false
is_session (some s) x = x == s

abbrev pub chart_ids : List ChartArtifact → List String
chart_ids [] = []
chart_ids (c ∷ cs) = c.artifact_id ∷ chart_ids cs

abbrev pub total_bytes : List ChartArtifact → ℕ
total_bytes = sum_by (λ c. c.size_bytes)

unfoldable pub presentations_fit : String → Option String → List ChartArtifact → Bool
presentations_fit run session cs =
    distinct (chart_ids cs)
    && (all (λ c. c.run_id == run && is_session session c.session_id) cs
        && (leb (total_bytes cs) max_run_artifact_bytes && leb (length cs) max_run_artifacts))

abbrev pub output_ids : List OutputArtifact → List String
output_ids [] = []
output_ids (c ∷ cs) = c.output_id ∷ output_ids cs

abbrev pub max_outputs : ℕ
max_outputs = 200

unfoldable pub outputs_fit : String → Option String → List OutputArtifact → Bool
outputs_fit run session os =
    distinct (output_ids os)
    && (all (λ o. o.run_id == run && is_session session o.session_id) os
        && leb (length os) max_outputs)

abbrev pub item_ids : List RunItem → List String
item_ids [] = []
item_ids (i ∷ is) = i.item_id ∷ item_ids is

-- `sequences == sorted(sequences)`.
abbrev pub is_ordered : List RunItem → Bool
is_ordered [] = true
is_ordered (i ∷ []) = true
is_ordered (i ∷ j ∷ is) = leb i.sequence j.sequence && is_ordered (j ∷ is)

unfoldable pub timeline_fits : String → List RunItem → Bool
timeline_fits run is = distinct (item_ids is) && (all (λ i. i.run_id == run) is && is_ordered is)

abbrev pub max_items : ℕ
max_items = 2000

abbrev hash_fits : Option String → Bool
hash_fits none = true
hash_fits (some h) = eqb (count h) 64

unfoldable pub retries_fit :
    Option String → Option String → Option String → Option String → List (String × String) → Bool
retries_fit retry_of key request reconciliation requests =
    same (is_some key) (is_some request)
    && ((is_some retry_of || not (is_some key) && not (is_some request))
        && (hash_fits key
            && (hash_fits request
                && (hash_fits reconciliation
                    && all (λ (r : String × String). eqb (count r.0) 64 && not (r.1 == ""))
                        requests))))

unfoldable pub signature_fits : ℕ → Option String → Bool
signature_fits repeats signature = eqb repeats 0 || is_some signature

-- Status, phase, failure and pending capture agree, and a terminal run has no unfinished call.
unfoldable pub control_fits :
    RunStatus
    → RunPhase
    → List ToolCallState
    → Option PendingOutputCaptureState
    → Option RunFailure
    → Bool
unfolding all_resolved
control_fits status phase calls pending failure =
    same (is_terminal status) (is_terminal_phase phase)
    && ((not (is_terminal status) || all_resolved calls)
        && (pending_fits phase pending && failure_fits status failure))

unfoldable pub timeline_bounded : List RunItem → Bool
timeline_bounded is = leb (length is) max_items

abbrev is_hex_digit : ℕ → Bool
is_hex_digit c = leb 48 c && leb c 57 || leb 97 c && leb c 102

-- `^draft_[a-f0-9]{32}$`, by the codes of the characters.
unfoldable pub draft_fits : Text → Bool
draft_fits (a ∷ b ∷ c ∷ d ∷ e ∷ f ∷ rest) =
    eqb a 100
    && (eqb b 114
        && (eqb c 97
            && (eqb d 102
                && (eqb e 116 && (eqb f 95 && (eqb (length rest) 32 && all is_hex_digit rest))))))
draft_fits _ = false

abbrev title_fits : Option Text → Bool
title_fits none = true
title_fits (some title) = leb (length title) 200

-- The bounds of the fields of `PendingOutputCaptureState`.
unfoldable pub capture_fits : Option PendingOutputCaptureState → Bool
unfolding draft_fits
capture_fits none = true
capture_fits (some p) =
    draft_fits (codes p.draft_id)
    && (not (p.call_id == "")
        && (leb 1 (length p.filename)
            && (leb (length p.filename) 180
                && (leb 1 (count p.media_type)
                    && (leb (count p.media_type) 100
                        && ((p.disposition == "inline" || p.disposition == "download")
                            && (title_fits p.title
                                && (ltb 0 p.max_chunk_bytes && leb p.validation_failures 1))))))))

unfoldable pub decisions_fit : List ContinuationDecisionState → Bool
decisions_fit = all (λ d. not (d.request_id == ""))

-- All validators together.
unfoldable pub is_consistent : RunState → Bool
is_consistent s =
    control_fits s.status s.phase s.tool_calls s.pending_output_capture s.failure
    && (budgets_fit s.iteration_budget s.tool_budget s.iteration_continuation
          s.tool_call_continuation s.tool_output_continuation
        && (signature_fits s.repeat_count s.last_signature
            && (calls_fit s.messages s.tool_calls
                && (presentations_fit s.run_id s.session_id s.presentations
                    && (outputs_fit s.run_id s.session_id s.outputs
                        && (timeline_fits s.run_id s.items
                            && (timeline_bounded s.items
                                && (capture_fits s.pending_output_capture
                                    && (decisions_fit s.continuation_decisions
                                        && retries_fit s.retry_of_run_id
                                            s.retry_idempotency_key_hash s.retry_request_hash
                                            s.reconciliation_request_hash s.retry_requests)))))))))

-- The validators one by one.
pub record Parts (s : RunState) : Type 0 where
  pub control : control_fits s.status s.phase s.tool_calls s.pending_output_capture s.failure ≡ true
  pub budgets :
      budgets_fit s.iteration_budget s.tool_budget s.iteration_continuation s.tool_call_continuation
        s.tool_output_continuation
      ≡ true
  pub signature : signature_fits s.repeat_count s.last_signature ≡ true
  pub calls : calls_fit s.messages s.tool_calls ≡ true
  pub presentations : presentations_fit s.run_id s.session_id s.presentations ≡ true
  pub outputs : outputs_fit s.run_id s.session_id s.outputs ≡ true
  pub timeline : timeline_fits s.run_id s.items ≡ true
  pub bounded : timeline_bounded s.items ≡ true
  pub capture : capture_fits s.pending_output_capture ≡ true
  pub decisions : decisions_fit s.continuation_decisions ≡ true
  pub retries :
      retries_fit s.retry_of_run_id s.retry_idempotency_key_hash s.retry_request_hash
        s.reconciliation_request_hash s.retry_requests
      ≡ true

pub Parts-of : (s : RunState) → is_consistent s ≡ true → Parts s
unfolding is_consistent
Parts-of s h = ground arith

pub is_consistent_of : (s : RunState) → Parts s → is_consistent s ≡ true
unfolding is_consistent
is_consistent_of s h = ground arith

pub is_consistent_control :
    (s : RunState)
    → control_fits s.status s.phase s.tool_calls s.pending_output_capture s.failure ≡ false
    → is_consistent s ≡ false
unfolding is_consistent
is_consistent_control s h = ground arith
