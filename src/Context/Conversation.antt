-- ===== src/Context/Conversation.antt =====
-- The working context of a model: src/assistant_agent/agent/context/conversation.py with the
-- default estimator. The system message, the first of every view, stands by its cost; an attachment
-- by the estimate of contracts/attachments.py; the estimate of the tools' schemas is a number as
-- well.
pub mod Keeping
pub mod Views
pub mod Envelope
pub mod Latest
use assistant_agent.Base.{
  ℕ, zero, suc, ◌+◌, ◌-◌, ◌*◌, String, Bool, true, false, not, ◌&&◌, ◌||◌, ◌==◌, Option, none, some,
  List, [], ◌∷◌, ◌++◌, map, length, take, drop, reverse, concat, ltb, leb, eqb, if◌then◌else◌,
}
use assistant_agent.Base.Result.{
  validation_error, value_error, context_window_error, Result, ok, err, Method, raise_if, modify,
  ◌>>◌,
}
use assistant_agent.ToolResult.{Text, codes}
use assistant_agent.Run.State.{ToolCall, Message}
use assistant_agent.Context.Window.{conservative_tokens, truncate_text_to_tokens}
use assistant_agent.Context.Blocks.{
  is_empty, has_calls, is_tool, is_user, with_content, message_blocks, shrink_message, cost,
  fit_message, fit_block,
}

pub record ContextLimits : Type 0 where
  pub max_history : ℕ
  pub max_tokens : ℕ
  pub tools_tokens : ℕ
  pub reserved_output_tokens : ℕ
  pub attachment_context_limit : ℕ
  pub tool_result_context_chars : ℕ
  pub recent_tool_result_blocks : ℕ

pub record Checkpoint : Type 0 where
  pub summary : Text
  pub covered_upto : ℕ

pub record Conversation : Type 0 where
  pub limits : ContextLimits
  pub system_tokens : ℕ
  pub messages : List Message
  pub checkpoint : Option Checkpoint

abbrev pub fixed_tokens : ContextLimits → ℕ → ℕ
fixed_tokens limits system = system + limits.tools_tokens + limits.reserved_output_tokens

abbrev pub message_budget : Conversation → ℕ
message_budget c = c.limits.max_tokens - fixed_tokens c.limits c.system_tokens

unfoldable pub create : ContextLimits → ℕ → Result Conversation
create limits system =
    if ltb limits.max_tokens (fixed_tokens limits system + 5)
    then err context_window_error
    else ok (record { limits = limits; system_tokens = system; messages = []; checkpoint = none })

abbrev append_message : Message → Conversation → Conversation
append_message m c = record c { messages = c.messages ++ m ∷ [] }

-- What `add_user` is given: a text, or a message content that was validated before, by its stripped
-- text and the estimate of its attachments.
pub data UserContent : Type 0 where
  plain : Text → UserContent
  parsed : Text → ℕ → UserContent

-- `UserMessageInputV1.from_text`: a text that strips to nothing is refused.
unfoldable pub read_content : (Text → Text) → UserContent → Result (Text × ℕ)
read_content strip (plain text) =
    if is_empty (strip text) then err validation_error else ok (strip text, 0)
read_content strip (parsed text attachment_tokens) = ok (text, attachment_tokens)

unfoldable pub accept_user : Text → ℕ → Method Conversation (Unit {0})
accept_user text attachment_tokens c =
    let m = Message.user text in
    (raise_if
          (ltb 0 c.limits.attachment_context_limit
            && ltb c.limits.attachment_context_limit attachment_tokens)
          context_window_error
        >> raise_if (ltb (message_budget c) (conservative_tokens m)) context_window_error
        >> modify (append_message m))
      c

-- Python's `strip` is given.
unfoldable pub add_user : (Text → Text) → UserContent → Method Conversation (Unit {0})
unfolding read_content accept_user
add_user strip content c = elim (read_content strip content) [
  | err e ↦ (err e, c)
  | ok (text, attachment_tokens) ↦ accept_user text attachment_tokens c
]

unfoldable pub add_assistant : Text → List ToolCall → Conversation → Conversation
add_assistant text calls = append_message (Message.assistant text calls)

unfoldable pub add_tool_result : String → String → Text → Conversation → Conversation
add_tool_result id name text = append_message (Message.tool id name text)

abbrev is_result_of : String → String → Message → Bool
is_result_of id name (Message.tool i n text) = i == id && n == name
is_result_of id name (Message.user text) = false
is_result_of id name (Message.assistant text calls) = false

-- The last result of the call gets the new text; `none` where there is no result of it.
unfoldable pub replace_last : String → String → Text → List Message → Option (List Message)
replace_last id name text [] = none
replace_last id name text (m ∷ ms) = elim (replace_last id name text ms) [
  | some replaced ↦ some (m ∷ replaced)
  | none ↦ if is_result_of id name m then some (with_content text m ∷ ms) else none
]

unfoldable pub replace_tool_result : String → String → Text → Method Conversation (Unit {0})
replace_tool_result id name text c = elim (replace_last id name text c.messages) [
  | none ↦ (err value_error, c)
  | some replaced ↦ (ok tt, record c { messages = replaced })
]

-- `source[-max:] if len(source) > max else source`; `source[-0:]` is all of it.
unfoldable pub last_messages : ℕ → List Message → List Message
last_messages maximum source =
    if ltb maximum (length source) && not (eqb maximum 0)
    then drop (length source - maximum) source
    else source

-- The newest block, if it does not fit whole.
unfoldable pub keep_newest : ℕ → List Message → Result (List (List Message))
keep_newest budget block = elim (fit_block conservative_tokens block budget) [
  | some fitted ↦ ok (fitted ∷ [])
  | none ↦ elim block [
    | [] ↦ ok []
    | m ∷ ms ↦ if has_calls m then err context_window_error else ok []
  ]
]

-- The loop of `_truncated` over the blocks from the newest to the oldest; with what it kept,
-- `used`.
unfoldable pub keep :
    ℕ → ℕ → List (List Message) → List (List Message) → Result (List (List Message)) × ℕ
unfolding keep_newest
keep budget used kept [] = (ok kept, used)
keep budget used kept (block ∷ older) =
    let further = keep budget (used + cost conservative_tokens block) (block ∷ kept) older in
    if ltb budget (used + cost conservative_tokens block)
    then ((if is_empty kept then keep_newest budget block else ok kept), used)
    else further

unfoldable pub shrink_older : ContextLimits → ℕ → ℕ → List (List Message) → List (List Message)
shrink_older limits budget used kept =
    let cutoff = length kept - limits.recent_tool_result_blocks in
    if ltb 0 limits.tool_result_context_chars
      && ltb (3 * budget) (4 * used)
      && ltb limits.recent_tool_result_blocks (length kept)
    then map (map (shrink_message limits.tool_result_context_chars)) (take cutoff kept)
      ++ drop cutoff kept
    else kept

unfoldable pub drop_leading_tools : List Message → List Message
drop_leading_tools [] = []
drop_leading_tools (m ∷ ms) = let rest = drop_leading_tools ms in if is_tool m then rest else m ∷ ms

unfoldable pub project :
    ContextLimits → ℕ → Result (List (List Message)) × ℕ → Result (List Message)
project limits budget (err e, used) = err e
project limits budget (ok kept, used) =
    ok (drop_leading_tools (concat (shrink_older limits budget used kept)))

unfoldable pub truncated : Conversation → List Message → ℕ → Result (List Message)
truncated c source extra_overhead =
    let budget = message_budget c - extra_overhead in
    let blocks = message_blocks (last_messages c.limits.max_history source) in
    project c.limits budget (keep budget 0 [] (reverse blocks))

abbrev pub summary_prefix : Text
summary_prefix = codes "[早前对话摘要，供你参考上下文]\n"

unfoldable pub summary_message : Checkpoint → Message
summary_message checkpoint = Message.user (summary_prefix ++ checkpoint.summary)

abbrev pub tail_of : Conversation → Checkpoint → List Message
tail_of c checkpoint = drop checkpoint.covered_upto c.messages

unfoldable pub last_message : List Message → Option Message
last_message [] = none
last_message (m ∷ ms) = elim (last_message ms) [ some l ↦ some l | none ↦ some m ]

-- The summary message gives way to a user message that comes last.
unfoldable pub fitted_summary : Conversation → Message → Option Message → Option Message
fitted_summary c summary none = some summary
fitted_summary c summary (some m) =
    let budget = message_budget c - conservative_tokens m in
    if is_user m && ltb budget (conservative_tokens summary)
    then fit_message conservative_tokens summary budget
    else some summary

unfoldable pub within_window : Conversation → List Message → Result (List Message)
within_window c kept =
    if ltb c.limits.max_tokens
      (fixed_tokens c.limits c.system_tokens + cost conservative_tokens kept)
    then err context_window_error
    else ok kept

abbrev pub and_then :
    Result (List Message) → (List Message → Result (List Message)) → Result (List Message)
and_then (err e) k = err e
and_then (ok kept) k = k kept

unfoldable pub view_after : Conversation → List Message → Option Message → Result (List Message)
view_after c tail none = truncated c tail 0
view_after c tail (some summary) = elim (truncated c tail (conservative_tokens summary)) [
  | err e ↦ err e
  | ok kept ↦ ok (summary ∷ kept)
]

-- What is sent after the system message, before the last test.
unfoldable pub view_from : Conversation → Option Checkpoint → Result (List Message)
view_from c none = view_after c c.messages none
view_from c (some checkpoint) =
    let tail = tail_of c checkpoint in
    view_after c tail (fitted_summary c (summary_message checkpoint) (last_message tail))

unfoldable pub view : Conversation → Result (List Message)
view c = view_from c c.checkpoint

-- `messages()` without the system message.
unfoldable pub provider_messages : Conversation → Result (List Message)
provider_messages c = and_then (view c) (within_window c)

unfoldable pub full_usage : Conversation → ℕ
full_usage c = fixed_tokens c.limits c.system_tokens + (elim c.checkpoint [
  | none ↦ cost conservative_tokens c.messages
  | some checkpoint ↦
      conservative_tokens (summary_message checkpoint)
      + cost conservative_tokens (tail_of c checkpoint)
])

unfoldable pub tail_after_checkpoint : Conversation → List Message × ℕ × Text
tail_after_checkpoint c = elim c.checkpoint [
  | none ↦ (c.messages, 0, [])
  | some checkpoint ↦ (tail_of c checkpoint, checkpoint.covered_upto, checkpoint.summary)
]

unfoldable pub set_checkpoint : Text → ℕ → Method Conversation (Unit {0})
set_checkpoint summary covered_upto c =
    let max_summary_tokens = message_budget c - length summary_prefix - 4 in
    let safe_summary = truncate_text_to_tokens summary max_summary_tokens 0 in
    (raise_if (ltb (length c.messages) covered_upto) value_error
        >> modify (λ k. record k {
          checkpoint = some (record { summary = safe_summary; covered_upto = covered_upto });
        }))
      c
