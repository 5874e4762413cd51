-- ===== src/Tests/Contexts.antt =====
-- Concrete conversations: src/assistant_agent/agent/context/conversation.py and compaction.py.
use assistant_agent.Base.{◌≡◌, refl, none, some, List, [], ◌∷◌, ◌++◌, ltb, arith, ℕ}
use assistant_agent.Base.Result.{ok}
use assistant_agent.ToolResult.{codes, Text}
use assistant_agent.Run.State.{Message}
use assistant_agent.Context.Window.{conservative_tokens}
use assistant_agent.Context.Conversation.{
  ContextLimits, Conversation, add_user, provider_messages, view, summary_message, accept_user,
  read_content, plain,
}
use assistant_agent.Context.Conversation.Envelope.{provider_messages-view}
use assistant_agent.Context.Conversation.Latest.{InRange, add_user-provider_messages}
use assistant_agent.Context.Compaction.{StreamEvent, Compactor, maybe_compact}
use assistant_agent.Context.Compaction.Turns.{maybe_compact-InRange}

abbrev pub small_limits : ContextLimits
small_limits = record {
  max_history = 4;
  max_tokens = 100;
  tools_tokens = 10;
  reserved_output_tokens = 10;
  attachment_context_limit = 0;
  tool_result_context_chars = 20;
  recent_tool_result_blocks = 1;
}

abbrev pub question : Message
question = Message.user (codes "first question")

abbrev pub lookup : Message
lookup = Message.assistant [] (record { id = "c1"; name = "grep"; arguments = codes "{}" } ∷ [])

abbrev pub found : Message
found = Message.tool "c1" "grep" (codes "a very long result of the search")

abbrev pub answer : Message
answer = Message.assistant (codes "an answer") []

abbrev pub short_talk : Conversation
short_talk = record {
  limits = small_limits;
  system_tokens = 20;
  messages = question ∷ lookup ∷ found ∷ answer ∷ question ∷ answer ∷ [];
  checkpoint = none;
}

abbrev summed_talk : Conversation
summed_talk = record short_talk {
  checkpoint = some (record { summary = codes "so far"; covered_upto = 4 });
}

abbrev compactor : Compactor
compactor = record {
  keep_recent_turns = 1;
  summary_max_tokens = 512;
  safe_preview = λ text. text;
  complete_stream = λ transcript. some (StreamEvent.content (codes "gist") ∷ []);
  strip = λ text. text;
}

provider_messages-view_example : provider_messages summed_talk ≡ view summed_talk
unfolding summary_message conservative_tokens
provider_messages-view_example = provider_messages-view summed_talk (omega arith) (omega arith)

add_user-provider_messages_example :
    (text : Text) × (attachment_tokens : ℕ) × (kept : List Message) × (read_content
        (λ t. t)
        (plain (codes "next"))
      ≡ ok (text, attachment_tokens))
    × (provider_messages (add_user (λ t. t) (plain (codes "next")) summed_talk).1
        ≡ ok (kept ++ Message.user text ∷ []))
unfolding add_user read_content accept_user conservative_tokens
add_user-provider_messages_example =
    add_user-provider_messages (λ t. t) (plain (codes "next")) summed_talk (omega arith)
      (omega arith) refl

maybe_compact-InRange_example :
    let (reply, after) = maybe_compact (λ used total. ltb used 10) (some compactor) summed_talk in
    (reply ≡ ok tt)
    × InRange after.messages after.checkpoint
    × (after.messages ≡ summed_talk.messages)
maybe_compact-InRange_example =
    maybe_compact-InRange (λ used total. ltb used 10) (some compactor) summed_talk (omega arith)
