-- ===== src/Context/Session.antt =====
-- What a session keeps of a conversation, and the report of its budget:
-- src/assistant_agent/agent/context/conversation.py. A loaded checkpoint has its two fields; the
-- JSON that may lack them is left out.
use assistant_agent.Base.{[], ◌∷◌, ℕ, ◌+◌, Bool, Option, none, some, List, is_some}
use assistant_agent.Base.Result.{Result, ok, err, Method}
use assistant_agent.ToolResult.{Text}
use assistant_agent.Run.State.{Message}
use assistant_agent.Context.Window.{conservative_tokens}
use assistant_agent.Context.Blocks.{cost}
use assistant_agent.Context.Conversation.{
  Conversation, Checkpoint, set_checkpoint, provider_messages,
}

unfoldable pub export_history : Conversation → List Message
export_history c = c.messages

-- The content of every user message is parsed again, which may raise; `parse_message_content`, with
-- the dump of what it gives, is a parameter.
unfoldable pub loaded : (Text → Result Text) → List Message → Result (List Message)
loaded parse [] = ok []
loaded parse (m ∷ ms) = consed (loaded_message m) (loaded parse ms)
  where
    loaded_message : Message → Result Message
    loaded_message (Message.user text) = elim (parse text) [
      | ok content ↦ ok (Message.user content)
      | err e ↦ err e
    ]
    loaded_message (Message.assistant text calls) = ok (Message.assistant text calls)
    loaded_message (Message.tool id name text) = ok (Message.tool id name text)

    consed : Result Message → Result (List Message) → Result (List Message)
    consed (err e) rest = err e
    consed (ok first) (err e) = err e
    consed (ok first) (ok rest) = ok (first ∷ rest)

unfoldable pub load_history : (Text → Result Text) → List Message → Method Conversation (Unit {0})
unfolding loaded
load_history parse messages c = elim (loaded parse messages) [
  | ok history ↦ (ok tt, record c { messages = history })
  | err e ↦ (err e, c)
]

unfoldable pub get_checkpoint : Conversation → Option Checkpoint
get_checkpoint c = c.checkpoint

unfoldable pub load_checkpoint : Option Checkpoint → Method Conversation (Unit {0})
load_checkpoint none c = (ok tt, record c { checkpoint = none })
load_checkpoint (some checkpoint) c = set_checkpoint checkpoint.summary checkpoint.covered_upto c

pub record BudgetReport : Type 0 where
  pub total : ℕ
  pub system : ℕ
  pub tools : ℕ
  pub reserved : ℕ
  pub messages : ℕ
  pub used : ℕ
  pub compacted : Bool

abbrev reported : Conversation → Result (List Message) → Result BudgetReport
reported c (err e) = err e
reported c (ok sent) =
    let messages = cost conservative_tokens sent in
    ok (record {
      total = c.limits.max_tokens;
      system = c.system_tokens;
      tools = c.limits.tools_tokens;
      reserved = c.limits.reserved_output_tokens;
      messages = messages;
      used = c.system_tokens + c.limits.tools_tokens + c.limits.reserved_output_tokens + messages;
      compacted = is_some c.checkpoint;
    })

unfoldable pub budget_report : Conversation → Result BudgetReport
budget_report c = reported c (provider_messages c)
