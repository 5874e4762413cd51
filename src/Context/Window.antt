-- ===== src/Context/Window.antt =====
-- The estimates of src/assistant_agent/agent/context/window.py. An estimator is an extension point:
-- it gives `none` where it raises, and then the conservative estimate is taken.
use assistant_agent.Base.{ℕ, ◌+◌, ◌-◌, Option, none, some, List, [], length, take, sum_by}
use assistant_agent.ToolResult.{Text}
use assistant_agent.Run.State.{ToolCall, Message}

abbrev pub content : Message → Text
content (Message.user text) = text
content (Message.assistant text calls) = text
content (Message.tool id name text) = text

abbrev pub tool_calls : Message → List ToolCall
tool_calls (Message.assistant text calls) = calls
tool_calls (Message.user text) = []
tool_calls (Message.tool id name text) = []

unfoldable pub conservative_tokens : Message → ℕ
conservative_tokens m = length (content m) + sum_by (λ c. length c.arguments) (tool_calls m) + 4

unfoldable pub estimate_message_tokens : (Message → Option ℕ) → Message → ℕ
unfolding conservative_tokens
estimate_message_tokens estimator m = elim (estimator m) [
  | some n ↦ n
  | none ↦ conservative_tokens m
]

unfoldable pub truncate_text_to_tokens : Text → ℕ → ℕ → Text
truncate_text_to_tokens text max_tokens overhead = take (max_tokens - overhead) text
