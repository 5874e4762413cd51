-- ===== src/Context/Conversation/Envelope.antt =====
-- The window that `messages()` of src/assistant_agent/agent/context/conversation.py tests last.
use assistant_agent.Base.{
  ℕ, ◌+◌, ◌-◌, ◌≤◌, ◌≡◌, refl, sym, ap, ◌∙◌, subst, ◌&&◌, Option, none, some, List, ◌∷◌, length,
  take, ltb, arith, Bool-cases, Option-cases, inl, inr, length-take, length-append,
}
use assistant_agent.Base.Result.{Result, ok, err}
use assistant_agent.ToolResult.{Text}
use assistant_agent.Run.State.{Message}
use assistant_agent.Context.Window.{conservative_tokens, truncate_text_to_tokens}
use assistant_agent.Context.Blocks.{is_user, cost}
use assistant_agent.Context.Conversation.{
  Conversation, message_budget, fixed_tokens, view_from, and_then, set_checkpoint, summary_prefix,
}
use assistant_agent.Context.Conversation.{
  Checkpoint, view_after, view, fitted_summary, provider_messages, within_window, summary_message,
  last_message, tail_of,
}
use assistant_agent.Context.Conversation.Views.{Projection, truncated-Projection}
use assistant_agent.Context.Blocks.{fit_message}
use assistant_agent.Context.Blocks.Costs.{cost-fit_message}

abbrev pub Small : ℕ → Option Message → Type 0
Small budget none = Unit
Small budget (some m) = conservative_tokens m ≤ budget

abbrev pub InBudget : Conversation → Result (List Message) → Type 0
InBudget c (err e) = Unit
InBudget c (ok kept) = cost conservative_tokens kept ≤ message_budget c

prefixed-InBudget :
    (c : Conversation) (tail : List Message) (summary : Message) (r : Result (List Message))
    → conservative_tokens summary ≤ message_budget c
    → Projection (message_budget c - conservative_tokens summary) tail r
    → InBudget c (elim r [ err e ↦ err e | ok kept ↦ ok (summary ∷ kept) ])
prefixed-InBudget c tail summary (err e) h p = tt
prefixed-InBudget c tail summary (ok kept) h (s, l) = omega (arith, h, l)

plain-InBudget :
    (c : Conversation) (tail : List Message) (r : Result (List Message))
    → Projection (message_budget c - 0) tail r
    → InBudget c r
plain-InBudget c tail (err e) p = tt
plain-InBudget c tail (ok kept) (s, l) = omega (arith, l)

pub view_after-InBudget :
    (c : Conversation) (tail : List Message) (summary : Option Message)
    → Small (message_budget c) summary
    → InBudget c (view_after c tail summary)
unfolding view_after
view_after-InBudget c tail none h = plain-InBudget c tail _ (truncated-Projection c tail 0)
view_after-InBudget c tail (some summary) h =
    prefixed-InBudget c tail summary _ h (truncated-Projection c tail (conservative_tokens summary))

fitted_summary-Small :
    (c : Conversation) (summary : Message) (last : Option Message)
    → conservative_tokens summary ≤ message_budget c
    → Small (message_budget c) (fitted_summary c summary last)
unfolding fitted_summary
fitted_summary-Small c summary none h = h
fitted_summary-Small c summary (some m) h =
    let budget = message_budget c - conservative_tokens m in
    elim (Bool-cases (is_user m && ltb budget (conservative_tokens summary))) [
      | inr e ↦ rw e h
      | inl e ↦ elim (Option-cases (fit_message conservative_tokens summary budget)) [
        | inl f ↦ rw (e, f) tt
        | inr (fitted, f) ↦ rw (e, f) (omega (arith, cost-fit_message summary budget fitted f))
      ]
    ]

-- The summary message itself fits the messages' budget.
abbrev pub SummaryFits : Conversation → Option Checkpoint → Type 0
SummaryFits c none = Unit
SummaryFits c (some checkpoint) =
    conservative_tokens (summary_message checkpoint) ≤ message_budget c

pub within_window-ok :
    (c : Conversation) (r : Result (List Message))
    → fixed_tokens c.limits c.system_tokens ≤ c.limits.max_tokens
    → InBudget c r
    → and_then r (within_window c) ≡ r
unfolding within_window
within_window-ok c (err e) h k = refl
within_window-ok c (ok kept) h k = ground arith

view_from-InBudget :
    (c : Conversation) (checkpoint : Option Checkpoint)
    → SummaryFits c checkpoint
    → InBudget c (view_from c checkpoint)
unfolding view_from
view_from-InBudget c none h = view_after-InBudget c c.messages none tt
view_from-InBudget c (some checkpoint) h =
    let tail = tail_of c checkpoint in
    view_after-InBudget c tail _
      (fitted_summary-Small c (summary_message checkpoint) (last_message tail) h)

-- Where the fixed costs leave room and the summary fits, the last test of the window never fails:
-- what is sent is what was projected.
pub provider_messages-view :
    (c : Conversation)
    → fixed_tokens c.limits c.system_tokens ≤ c.limits.max_tokens
    → SummaryFits c c.checkpoint
    → provider_messages c ≡ view c
unfolding provider_messages view
provider_messages-view c h k = within_window-ok c (view c) h (view_from-InBudget c c.checkpoint k)

sub_zero : (n : ℕ) → n - 0 ≡ n
sub_zero n = omega arith

-- Without a checkpoint, what is sent fits the messages' budget and is the end of the history up to
-- the texts that are no user's; the only error is that of a window too small for
-- the newest calls even with their results emptied.
pub provider_messages-Projection :
    (c : Conversation)
    → fixed_tokens c.limits c.system_tokens ≤ c.limits.max_tokens
    → c.checkpoint ≡ none
    → Projection (message_budget c) c.messages (provider_messages c)
unfolding view view_from view_after
provider_messages-Projection c h k =
    subst (λ n. Projection n c.messages (provider_messages c)) (sub_zero (message_budget c))
      (subst (Projection (message_budget c - 0) c.messages)
        (sym (ap (view_from c) k) ∙ sym (provider_messages-view c h (rw k tt)))
        (truncated-Projection c c.messages 0))

-- A summary that is set is cut to what the window leaves it, so a request built on it passes the
-- last test, in every window that has room for the summary's heading.
pub set_checkpoint-provider_messages :
    (summary : Text) (covered_upto : ℕ) (c : Conversation)
    → length summary_prefix + 4 ≤ message_budget c
    → (set_checkpoint summary covered_upto c).0 ≡ ok tt
    → let after = (set_checkpoint summary covered_upto c).1 in provider_messages after ≡ view after
unfolding set_checkpoint summary_message conservative_tokens truncate_text_to_tokens
set_checkpoint-provider_messages summary covered_upto c h k =
    elim (Bool-cases (ltb (length c.messages) covered_upto)) [
      | inl e ↦ ground (arith, e)
      | inr e ↦
          let room = message_budget c - length summary_prefix - 4 in
          rw e (
            provider_messages-view
              (record c {
                checkpoint =
                    some
                      (record { summary = take (room - 0) summary; covered_upto = covered_upto });
              })
              (omega (arith, h))
              (omega (
                arith,
                h,
                length-take {0} (room - 0) summary,
                length-append {0} summary_prefix (take (room - 0) summary),
              )))
    ]
