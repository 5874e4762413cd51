-- ===== src/Batch/Replay.antt =====
-- Batches with results on record, after a resume: src/assistant_agent/agent/tool_batch.py.
use assistant_agent.Base.{ℕ, String, ◌≡◌, refl, ap, ◌∙◌, true, Option, some, List, [], ◌∷◌, ◌++◌}
use assistant_agent.Base.Result.{ok, err, value_error}
use assistant_agent.Budget.{Reason}
use assistant_agent.ToolResult.{ToolResult}
use assistant_agent.Run.State.{ToolCall, ReplayPolicy, ToolCallState}
use assistant_agent.Run.Consistency.{is_resolved}
use assistant_agent.Run.Coordinator.{Coordinator, find_call, call-found}
use assistant_agent.Run.Lifecycle.{tool_completed}
use assistant_agent.Control.{ControlState}
use assistant_agent.Batch.{
  Surroundings, Batch, cancelled_result, cancel_pending, resumed, guarded, result_for, run_calls,
  execute_tool_batch, first_reason, count_skipped,
}

-- Each call, with the result that the coordinator has of it.
abbrev pub HasResults : Coordinator → List (ToolCall × ToolResult) → Type 0
HasResults c [] = Unit
HasResults c ((tool, r) ∷ saved) = (result_for tool.id c ≡ ok (some r)) × HasResults c saved

abbrev pub tools_of : List (ToolCall × ToolResult) → List ToolCall
tools_of [] = []
tools_of ((tool, r) ∷ saved) = tool ∷ tools_of saved

abbrev pub reason_of : Option Reason → List (ToolCall × ToolResult) → Option Reason
reason_of reason [] = reason
reason_of reason ((tool, r) ∷ saved) = reason_of (first_reason reason r.budget_exhausted) saved

abbrev pub skipped_of : ℕ → List (ToolCall × ToolResult) → ℕ
skipped_of skipped [] = skipped
skipped_of skipped ((tool, r) ∷ saved) = skipped_of (count_skipped r skipped) saved

module _ {W : Type 0} (port : Surroundings W) where
  resumed_step :
      (tool : ToolCall) (r : ToolResult) (tools : List ToolCall) (reason : Option Reason)
      (skipped : ℕ) (b : Batch W)
      → ((w : W) → port.control_state w ≡ (ControlState.running, w))
      → result_for tool.id b.coordinator ≡ ok (some r)
      → run_calls port (tool ∷ tools) reason skipped b
        ≡ run_calls port tools (first_reason reason r.budget_exhausted) (count_skipped r skipped) b
  unfolding run_calls
  resumed_step tool r tools reason skipped b steady e =
      let v = record b { world = (port.control_state b.world).1 } in
      ap
        (λ (x : ControlState × W).
          guarded x.0 (tool ∷ tools) reason skipped
            (λ v.
              resumed port (run_calls port tools) tool tools reason skipped
                (result_for tool.id v.coordinator) v)
            (record b { world = x.1 }))
        (steady b.world)
      ∙ ap (λ x. resumed port (run_calls port tools) tool tools reason skipped x b) e

  -- While no one asks to stop, the calls that have a result are passed over: no tool is run for
  -- them, nothing is written, and the rest of the batch goes on from the same state, with what
  -- their results say of the budget and of skipped calls.
  pub run_calls-HasResults :
      (saved : List (ToolCall × ToolResult)) (rest : List ToolCall) (reason : Option Reason)
      (skipped : ℕ) (b : Batch W)
      → ((w : W) → port.control_state w ≡ (ControlState.running, w))
      → HasResults b.coordinator saved
      → run_calls port (tools_of saved ++ rest) reason skipped b
        ≡ run_calls port rest (reason_of reason saved) (skipped_of skipped saved) b
  run_calls-HasResults [] rest reason skipped b steady h = refl
  run_calls-HasResults ((tool, r) ∷ saved) rest reason skipped b steady (e, h) =
      resumed_step tool r (tools_of saved ++ rest) reason skipped b steady e
      ∙ run_calls-HasResults saved rest (first_reason reason r.budget_exhausted)
          (count_skipped r skipped) b steady h

tool_completed-resolved :
    (id : String) (r : ToolResult) (c : Coordinator) (found : ToolCallState)
    → find_call id c.state.tool_calls ≡ some found
    → is_resolved found.status ≡ true
    → tool_completed id r [] ReplayPolicy.requires_decision c ≡ (err value_error, c)
unfolding tool_completed
tool_completed-resolved id r c found e h = rw (call-found id c found e, h) refl

module _ {W : Type 0} (port : Surroundings W) where
  -- A cancel that is read before a call whose result is on record, as after a resume, ends the
  -- batch in an error: it is to complete the call again, which the coordinator refuses.
  pub execute_tool_batch-resolved :
      (tool : ToolCall) (tools : List ToolCall) (b : Batch W) (w : W) (found : ToolCallState)
      → port.control_state b.world ≡ (ControlState.cancel_requested, w)
      → find_call tool.id b.coordinator.state.tool_calls ≡ some found
      → is_resolved found.status ≡ true
      → execute_tool_batch port (tool ∷ tools) b ≡ (err value_error, record b { world = w })
  unfolding execute_tool_batch run_calls cancel_pending
  execute_tool_batch-resolved tool tools b w found e f h =
      rw (e, tool_completed-resolved tool.id cancelled_result b.coordinator found f h) refl
