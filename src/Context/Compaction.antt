-- ===== src/Context/Compaction.antt =====
-- Summaries of old turns: src/assistant_agent/agent/context/compaction.py and `_maybe_compact` of
-- agent/loop.py. The provider is a function from the transcript to the events of its stream, `none`
-- where it raises; Python's `strip`, `safe_preview` of a user's content, which the history holds
-- parsed, and the comparison of the usage with the
-- threshold, a float, are parameters; token usage is left out.
pub mod Turns
use assistant_agent.Base.{
  ℕ, ◌+◌, ◌-◌, Bool, true, false, not, ◌&&◌, Option, none, some, List, [], ◌∷◌, ◌++◌, length, take,
  concat, leb, if◌then◌else◌,
}
use assistant_agent.Base.Result.{ok, Method, pure, ◌>>◌}
use assistant_agent.ToolResult.{Text, codes}
use assistant_agent.Run.State.{ToolCall, Message}
use assistant_agent.Context.Window.{truncate_text_to_tokens}
use assistant_agent.Context.Blocks.{is_empty, is_user, flush}
use assistant_agent.Context.Conversation.{
  Conversation, full_usage, tail_after_checkpoint, set_checkpoint,
}

-- The loop of `group_turns`; `opened` is the last turn, empty where there is none yet.
unfoldable pub turns_from : List Message → List Message → List (List Message)
turns_from opened [] = flush opened
turns_from opened (m ∷ ms) =
    let begun = turns_from (m ∷ []) ms in
    let joined = turns_from (opened ++ m ∷ []) ms in
    if is_user m && not (is_empty opened) then opened ∷ begun else joined

unfoldable pub group_turns : List Message → List (List Message)
group_turns = turns_from []

pub data StreamEvent : Type 0 where
  content : Text → StreamEvent
  usage error : StreamEvent

unfoldable pub collect : List StreamEvent → Option Text
collect [] = some []
collect (StreamEvent.content text ∷ events) = elim (collect events) [
  | some rest ↦ some (text ++ rest)
  | none ↦ none
]
collect (StreamEvent.usage ∷ events) = collect events
collect (StreamEvent.error ∷ events) = none

pub record CompactionResult : Type 0 where
  pub summary : Text
  pub covered_upto : ℕ

pub record Compactor : Type 0 where
  pub keep_recent_turns : ℕ
  pub summary_max_tokens : ℕ
  pub safe_preview : Text → Text
  pub complete_stream : Text → Option (List StreamEvent)
  pub strip : Text → Text

abbrev rendered_calls : List ToolCall → Text
rendered_calls [] = []
rendered_calls (c ∷ cs) =
    codes "[调用 " ++ codes c.name ++ codes "(" ++ c.arguments ++ codes ")]" ++ rendered_calls cs

-- One line of the transcript.
abbrev rendered : (Text → Text) → Message → Text
rendered safe_preview (Message.user text) = codes "user: " ++ safe_preview text
rendered safe_preview (Message.assistant text calls) =
    codes "assistant: " ++ text ++ rendered_calls calls
rendered safe_preview (Message.tool id name text) = codes "tool: " ++ text

-- `_render`: the lines, with a line feed between them.
unfoldable pub render : (Text → Text) → List Message → Text
render safe_preview [] = []
render safe_preview (m ∷ []) = rendered safe_preview m
render safe_preview (m ∷ n ∷ ms) = rendered safe_preview m ++ 10 ∷ render safe_preview (n ∷ ms)

-- What the model is asked to summarize.
unfoldable pub transcript : (Text → Text) → Text → List Message → Text
unfolding render
transcript safe_preview previous msgs =
    if is_empty previous
    then render safe_preview msgs
    else codes "【已有摘要】\n" ++ previous ++ codes "\n\n【新增对话】\n" ++ render safe_preview msgs

unfoldable pub summarize : Compactor → Text → List Message → Text
unfolding transcript
summarize compactor previous msgs =
    elim (compactor.complete_stream (transcript compactor.safe_preview previous msgs)) [
      | none ↦ []
      | some events ↦ elim (collect events) [
        | none ↦ []
        | some parts ↦
            truncate_text_to_tokens (compactor.strip parts) compactor.summary_max_tokens 0
      ]
    ]

unfoldable pub compact : Compactor → List Message → ℕ → Text → Option CompactionResult
compact compactor tail base_covered previous =
    let turns = group_turns tail in
    let msgs = concat (take (length turns - compactor.keep_recent_turns) turns) in
    let summary = summarize compactor previous msgs in
    if leb (length turns) compactor.keep_recent_turns
    then none
    else if is_empty msgs
    then none
    else if is_empty summary
    then none
    else some (record { summary = summary; covered_upto = base_covered + length msgs })

unfoldable pub maybe_compact : (ℕ → ℕ → Bool) → Option Compactor → Method Conversation (Unit {0})
maybe_compact within_threshold none c = (ok tt, c)
maybe_compact within_threshold (some compactor) c =
    let (tail, base, previous) = tail_after_checkpoint c in
    if within_threshold (full_usage c) c.limits.max_tokens
    then (ok tt, c)
    else elim (compact compactor tail base previous) [
      | none ↦ (ok tt, c)
      | some result ↦ set_checkpoint result.summary result.covered_upto c
    ]
