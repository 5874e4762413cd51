-- ===== src/Context/Blocks.antt =====
-- Protocol blocks and their fitting: `_message_blocks`, `_fit_message`, `_fit_block` and
-- `_shrink_tool_results` of src/assistant_agent/agent/context/conversation.py. `tokens` is
-- `_message_tokens`.
pub mod Shapes
pub mod Costs
use assistant_agent.Base.{
  ℕ, zero, suc, ◌+◌, ◌-◌, ◌/◌, String, Bool, true, false, not, ◌&&◌, ◌||◌, Option, none, some, List,
  [], ◌∷◌, ◌++◌, map, length, take, drop, sum_by, ltb, leb, if◌then◌else◌,
}
use assistant_agent.ToolResult.{Text, codes}
use assistant_agent.Run.State.{ToolCall, Message}
use assistant_agent.Context.Window.{content, tool_calls, truncate_text_to_tokens}

abbrev pub is_empty {ℓ} : {A : Type ℓ} → List A → Bool
is_empty [] = true
is_empty (x ∷ xs) = false

abbrev pub has_calls : Message → Bool
has_calls m = not (is_empty (tool_calls m))

abbrev pub is_tool : Message → Bool
is_tool (Message.tool id name text) = true
is_tool (Message.user text) = false
is_tool (Message.assistant text calls) = false

abbrev pub is_user : Message → Bool
is_user (Message.user text) = true
is_user (Message.tool id name text) = false
is_user (Message.assistant text calls) = false

-- `message["content"] = text`.
abbrev pub with_content : Text → Message → Message
with_content text (Message.user old) = Message.user text
with_content text (Message.assistant old calls) = Message.assistant text calls
with_content text (Message.tool id name old) = Message.tool id name text

abbrev pub flush : List Message → List (List Message)
flush [] = []
flush (m ∷ ms) = (m ∷ ms) ∷ []

-- The loop of `_message_blocks`; `open` is the block that still takes tool results, if there is
-- one.
unfoldable pub gather : List Message → List Message → List (List Message)
gather opened [] = flush opened
gather opened (m ∷ ms) =
    let joined = gather (opened ++ m ∷ []) ms in
    let begun = gather (m ∷ []) ms in
    let single = gather [] ms in
    if not (is_empty opened) && is_tool m
    then joined
    else flush opened ++ (if has_calls m then begun else (m ∷ []) ∷ single)

unfoldable pub message_blocks : List Message → List (List Message)
message_blocks = gather []

abbrev pub shrink_marker : Text
shrink_marker = codes "\n[…较早工具结果已压缩，完整结果仍保存在运行历史中…]\n"

-- The head and the tail of a text around the marker, within the limit.
unfoldable pub shrink_around : Text → ℕ → Text → Text
shrink_around marker limit text =
    if leb (length text) limit
    then text
    else if leb limit (length marker)
    then take limit marker
    else let head = (limit - length marker) / 2 in
      let tail = limit - length marker - head in
      take head text ++ (marker ++ drop (length text - tail) text)

unfoldable pub shrink_message : ℕ → Message → Message
shrink_message limit m =
    if is_tool m then with_content (shrink_around shrink_marker limit (content m)) m else m

-- Each result gets its share of what is left.
unfoldable pub share_out : ℕ → List Message → List Message
share_out remaining [] = []
share_out remaining (m ∷ ms) =
    let text = truncate_text_to_tokens (content m) (remaining / suc (length ms)) 0 in
    with_content text m ∷ share_out (remaining - length text) ms

module _ (tokens : Message → ℕ) where
  abbrev pub cost : List Message → ℕ
  cost = sum_by tokens

  unfoldable pub fit_message : Message → ℕ → Option Message
  fit_message m budget =
      let fitted = with_content (truncate_text_to_tokens (content m) budget 4) m in
      if ltb budget 4 || has_calls m
      then none
      else if leb (tokens fitted) budget
      then some fitted
      else none

  unfoldable pub fit_calls : Message → List Message → ℕ → Option (List Message)
  fit_calls m results budget =
      let fixed = cost (m ∷ map (with_content []) results) in
      if ltb budget fixed then none else some (m ∷ share_out (budget - fixed) results)

  unfoldable pub fit_block : List Message → ℕ → Option (List Message)
  fit_block [] budget = none
  fit_block (m ∷ ms) budget =
      if is_user m
      then none
      else if has_calls m
      then fit_calls m ms budget
      else elim (fit_message m budget) [ none ↦ none | some fitted ↦ some (fitted ∷ []) ]
