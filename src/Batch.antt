-- ===== src/Batch.antt =====
-- The tools of one answer: src/assistant_agent/agent/tool_batch.py, for runs with a coordinator.
-- The surroundings are a port: the control that other threads set, which each reading may find
-- changed; the callback that offers more budget; and the registry, which runs a tool and drives the
-- coordinator. Events for the user interface are left out.
pub mod Order
pub mod Replay
pub mod Ending
use assistant_agent.Base.{
  ℕ, suc, String, Bool, true, false, not, ◌==◌, Option, none, some, List, [], ◌∷◌, ◌++◌,
  if◌then◌else◌,
}
use assistant_agent.Base.Result.{Result, ok, err, Method}
use assistant_agent.Budget.{Reason, exhausted_reason}
use assistant_agent.ToolResult.{Text, codes, ToolResult, error_result, decode_result}
use assistant_agent.Run.State.{ReplayPolicy, ToolCall, ToolCallState, Message}
use assistant_agent.Run.Coordinator.{Action, Coordinator, call}
use assistant_agent.Run.Lifecycle.{tool_completed}
use assistant_agent.Context.Conversation.{Conversation, add_tool_result}
use assistant_agent.Control.{ControlState}

abbrev pub saved_result : Result ToolCallState × Coordinator → Result (Option ToolResult)
saved_result (err e, c) = err e
saved_result (ok found, c) = elim found.result [
  | none ↦ ok none
  | some r ↦ ok (some (decode_result r))
]

unfoldable pub result_for : String → Coordinator → Result (Option ToolResult)
result_for id c = saved_result (call id c)

pub record BatchOutcome : Type 0 where
  pub exhausted_reason : Option Reason
  pub skipped_calls : ℕ
  pub control_state : ControlState
  pub uncertain_call_id : Option String

pub record Surroundings (W : Type 0) : Type 0 where
  pub control_state : W → ControlState × W
  pub ensure_budget : Reason → Coordinator × W → Bool × Coordinator × W
  pub execute : ToolCall → Coordinator × W → Result ToolResult × Coordinator × W

pub record Batch (W : Type 0) : Type 0 where
  pub coordinator : Coordinator
  pub conversation : Conversation
  pub world : W

abbrev pub first_reason : Option Reason → Option Reason → Option Reason
first_reason none reason = reason
first_reason (some r) reason = some r

abbrev pub count_skipped : ToolResult → ℕ → ℕ
count_skipped r skipped = if r.executed then skipped else suc skipped

abbrev pub cancelled_result : ToolResult
cancelled_result = error_result (codes "[cancelled] 任务已强制取消，工具未执行") "cancelled" false false

abbrev pub outcome : Option Reason → ℕ → ControlState → Option String → BatchOutcome
outcome reason skipped control uncertain = record {
  exhausted_reason = reason;
  skipped_calls = skipped;
  control_state = control;
  uncertain_call_id = uncertain;
}

module _ {W : Type 0} where
  abbrev pub add_result : ToolCall → Text → Batch W → Batch W
  add_result call output b = record b {
    conversation = add_tool_result call.id call.name output b.conversation;
  }

  -- `_cancel_pending`; `further` is the rest of the loop.
  abbrev pub cancelled :
      Method (Batch W) Unit
      → ToolCall
      → Batch W
      → Result ToolResult × Coordinator
      → Result (Unit {0}) × Batch W
  cancelled further call b (err e, c) = (err e, record b { coordinator = c })
  cancelled further call b (ok r, c) =
      further (add_result call r.output (record b { coordinator = c }))

  unfoldable pub cancel_pending : List ToolCall → Method (Batch W) (Unit {0})
  cancel_pending [] b = (ok tt, b)
  cancel_pending (call ∷ calls) b =
      cancelled (cancel_pending calls) call b
        (tool_completed call.id cancelled_result [] ReplayPolicy.requires_decision b.coordinator)

  abbrev pub interrupted :
      BatchOutcome → Result (Unit {0}) × Batch W → Result BatchOutcome × Batch W
  interrupted out (err e, b) = (err e, b)
  interrupted out (ok done, b) = (ok out, b)

  -- What a reading of the control leads to, with `pending` the calls that have not begun.
  abbrev pub guarded :
      ControlState
      → List ToolCall
      → Option Reason
      → ℕ
      → Method (Batch W) BatchOutcome
      → Method (Batch W) BatchOutcome
  guarded ControlState.running pending reason skipped further b = further b
  guarded ControlState.pause_requested pending reason skipped further b =
      (ok (outcome reason skipped ControlState.pause_requested none), b)
  guarded ControlState.cancel_requested pending reason skipped further b =
      interrupted (outcome reason skipped ControlState.cancel_requested none)
        (cancel_pending pending b)

module _ {W : Type 0} (port : Surroundings W) where
  abbrev pub with_control :
      List ToolCall
      → Option Reason
      → ℕ
      → Method (Batch W) BatchOutcome
      → Method (Batch W) BatchOutcome
  with_control pending reason skipped further b =
      let (control, w) = port.control_state b.world in
      guarded control pending reason skipped further (record b { world = w })

  -- A budget that is used up is offered to the user; more of it clears the reason.
  abbrev pub offered : Option Reason → Option Reason → Batch W → Option Reason × Batch W
  offered none reason b = (reason, b)
  offered (some r) reason b =
      let (granted, c, w) = port.ensure_budget r (b.coordinator, b.world) in
      ((if granted then none else reason), record b { coordinator = c; world = w })

  abbrev pub concluded :
      (Option Reason → ℕ → Method (Batch W) BatchOutcome)
      → ToolCall
      → List ToolCall
      → Option Reason
      → ℕ
      → Batch W
      → Result ToolResult × Coordinator × W
      → Result BatchOutcome × Batch W
  concluded further call calls reason skipped b (err e, c, w) =
      (err e, record b { coordinator = c; world = w })
  concluded further call calls reason skipped b (ok r, c, w) =
      let after = record b { coordinator = c; world = w } in
      let reason' = first_reason reason r.budget_exhausted in
      let skipped' = count_skipped r skipped in
      if r.code == "mcp_outcome_unknown"
      then (ok (outcome reason' skipped' ControlState.running (some call.id)), after)
      else with_control calls reason' skipped' (further reason' skipped')
          (add_result call r.output after)

  abbrev pub executed :
      (Option Reason → ℕ → Method (Batch W) BatchOutcome)
      → ToolCall
      → List ToolCall
      → ℕ
      → Option Reason × Batch W
      → Result BatchOutcome × Batch W
  executed further call calls skipped (reason, b) =
      concluded further call calls reason skipped b (port.execute call (b.coordinator, b.world))

  -- A call that has a result on record is not run again.
  abbrev pub resumed :
      (Option Reason → ℕ → Method (Batch W) BatchOutcome)
      → ToolCall
      → List ToolCall
      → Option Reason
      → ℕ
      → Result (Option ToolResult)
      → Method (Batch W) BatchOutcome
  resumed further call calls reason skipped (err e) b = (err e, b)
  resumed further call calls reason skipped (ok (some saved)) b =
      further (first_reason reason saved.budget_exhausted) (count_skipped saved skipped) b
  resumed further call calls reason skipped (ok none) b =
      executed further call calls skipped (offered (exhausted_reason b.coordinator.budget) reason b)

  -- The loop of `execute_tool_batch`.
  unfoldable pub run_calls : List ToolCall → Option Reason → ℕ → Method (Batch W) BatchOutcome
  run_calls [] reason skipped b = (ok (outcome reason skipped ControlState.running none), b)
  run_calls (tool ∷ tools) reason skipped b =
      with_control (tool ∷ tools) reason skipped
        (λ v.
          resumed (run_calls tools) tool tools reason skipped (result_for tool.id v.coordinator) v)
        b

  unfoldable pub execute_tool_batch : List ToolCall → Method (Batch W) BatchOutcome
  execute_tool_batch tools = run_calls tools none 0
