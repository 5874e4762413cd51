-- ===== src/Batch/Ending.antt =====
-- After a batch: the cursor of src/assistant_agent/agent/tool_batch.py, which counts repeated
-- calls, the counts of a run's tool results in agent/run/coordinator.py, and the end of an
-- interrupted run in agent/run/control.py. The signature of calls, a JSON text, is a parameter.
use assistant_agent.Base.{
  ℕ, suc, String, Bool, false, ◌&&◌, ◌==◌, Option, none, some, List, [], ◌∷◌, if◌then◌else◌,
}
use assistant_agent.ToolResult.{Text, codes}
use assistant_agent.Run.State.{ToolCall, Message}
use assistant_agent.Run.Coordinator.{Action, Coordinator}
use assistant_agent.Run.Ending.{cancel, pause}
use assistant_agent.Edit.{starts_with}
use assistant_agent.Control.{ControlState}

pub record LoopCursor : Type 0 where
  pub iteration : ℕ
  pub iteration_budget : ℕ
  pub last_signature : Option String
  pub repeat_count : ℕ

abbrev is_same : Option String → String → Bool
is_same none signature = false
is_same (some last) signature = signature == last

unfoldable pub record_signature :
    (List ToolCall → String) → List ToolCall → LoopCursor → ℕ × LoopCursor
record_signature dumps calls cursor =
    let signature = dumps calls in
    let n = if is_same cursor.last_signature signature then suc cursor.repeat_count else 1 in
    (n, record cursor { last_signature = some signature; repeat_count = n })

abbrev is_marked : String → Text → Message → Bool
is_marked name marker (Message.tool id n text) = n == name && starts_with marker text
is_marked name marker (Message.user text) = false
is_marked name marker (Message.assistant text calls) = false

unfoldable pub count_results : String → Text → List Message → ℕ
count_results name marker [] = 0
count_results name marker (m ∷ ms) =
    let rest = count_results name marker ms in if is_marked name marker m then suc rest else rest

unfoldable pub count_tool_results : String → Text → Coordinator → ℕ
count_tool_results name marker c = count_results name marker c.state.messages

abbrev or_message : Option Text → Text → Text
or_message none default = default
or_message (some []) default = default
or_message (some (t ∷ text)) default = t ∷ text

unfoldable pub finish_control :
    ControlState → List Message → Option (Text × ℕ) → Option Text → Action (Unit {0})
finish_control ControlState.cancel_requested messages compaction text =
    cancel (or_message text (codes "任务已强制取消；已发生的外部副作用不会自动回滚。")) messages compaction
finish_control ControlState.pause_requested messages compaction text =
    pause (or_message text (codes "任务已暂停，可使用 Run ID 恢复。")) (some messages) none
finish_control ControlState.running messages compaction text =
    pause (or_message text (codes "任务已暂停，可使用 Run ID 恢复。")) (some messages) none
