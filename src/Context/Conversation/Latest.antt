-- ===== src/Context/Conversation/Latest.antt =====
-- The newest user message in the views of src/assistant_agent/agent/context/conversation.py.
use assistant_agent.Base.{
  ℕ, zero, suc, ◌+◌, ◌-◌, ◌*◌, ◌≤◌, ◌≡◌, refl, sym, ap, ◌∙◌, subst, true, false, not, ◌&&◌, Option,
  none, some, List, [], ◌∷◌, ◌++◌, map, length, take, drop, reverse, concat, concat-append,
  reverse-append, ltb, eqb, arith, Bool-cases, Option-cases, inl, inr, length-append,
}
use assistant_agent.Base.Result.{Result, ok}
use assistant_agent.ToolResult.{Text}
use assistant_agent.Run.State.{Message}
use assistant_agent.Context.Window.{conservative_tokens}
use assistant_agent.Context.Blocks.{is_tool, is_user, message_blocks, shrink_message, is_empty}
use assistant_agent.Context.Blocks.Shapes.{message_blocks-snoc}
use assistant_agent.Context.Conversation.{
  ContextLimits, Conversation, keep, shrink_older, drop_leading_tools, last_messages, project,
  truncated, message_budget, fixed_tokens, view_from, and_then, accept_user, read_content,
  UserContent, plain, parsed,
}
use assistant_agent.Context.Conversation.Keeping.{keep-first}
use assistant_agent.Context.Conversation.{
  Checkpoint, view_after, view, fitted_summary, provider_messages, within_window, summary_message,
  last_message, add_user,
}
use assistant_agent.Context.Conversation.Envelope.{Small, view_after-InBudget, within_window-ok}
use assistant_agent.Context.Blocks.{fit_message}
use assistant_agent.Context.Blocks.Costs.{cost-fit_message}

abbrev Ends {ℓ} : {A : Type ℓ} → A → List A → Type ℓ
Ends {A = A} m xs = (start : List A) × (xs ≡ start ++ m ∷ [])

drop_leading_tools-Ends :
    (m : Message) (start : List Message)
    → is_tool m ≡ false
    → Ends m (drop_leading_tools (start ++ m ∷ []))
unfolding drop_leading_tools
drop_leading_tools-Ends m [] h = rw h ([], refl)
drop_leading_tools-Ends m (x ∷ start) h = elim (Bool-cases (is_tool x)) [
  | inl e ↦ rw e (drop_leading_tools-Ends m start h)
  | inr e ↦ rw e (x ∷ start, refl)
]

shrink_some-Ends :
    (limit n : ℕ) (m : Message) (more : List (List Message))
    → is_tool m ≡ false
    → Ends (m ∷ []) (
        map (map (shrink_message limit)) (take n (more ++ (m ∷ []) ∷ []))
        ++ drop n (more ++ (m ∷ []) ∷ []))
unfolding shrink_message
shrink_some-Ends limit zero m more h = (more, refl)
shrink_some-Ends limit (suc zero) m [] h = rw h ([], refl)
shrink_some-Ends limit (suc (suc n)) m [] h = rw h ([], refl)
shrink_some-Ends limit (suc n) m (b ∷ more) h =
    let (start, p) = shrink_some-Ends limit n m more h in
    (map (shrink_message limit) b ∷ start, ap (λ bs. map (shrink_message limit) b ∷ bs) p)

shrink_older-Ends :
    (limits : ContextLimits) (budget used : ℕ) (m : Message) (more : List (List Message))
    → is_tool m ≡ false
    → Ends (m ∷ []) (shrink_older limits budget used (more ++ (m ∷ []) ∷ []))
unfolding shrink_older
shrink_older-Ends limits budget used m more h =
    let kept = more ++ (m ∷ []) ∷ [] in
    elim (Bool-cases (
      ltb 0 limits.tool_result_context_chars
      && ltb (3 * budget) (4 * used)
      && ltb limits.recent_tool_result_blocks (length kept))) [
        | inl e ↦
            rw (shrink_older, e)
              (shrink_some-Ends limits.tool_result_context_chars
                (length kept - limits.recent_tool_result_blocks) m more h)
        | inr e ↦ rw (shrink_older, e) (more, refl)
      ]

drop-Ends :
    (n : ℕ) (m : Message) (start : List Message)
    → n ≤ length start
    → Ends m (drop n (start ++ m ∷ []))
drop-Ends zero m start h = (start, refl)
drop-Ends (suc n) m [] h = ([], ground arith)
drop-Ends (suc n) m (x ∷ start) h = drop-Ends n m start (omega (arith, h))

last_messages-Ends :
    (maximum : ℕ) (m : Message) (start : List Message)
    → Ends m (last_messages maximum (start ++ m ∷ []))
unfolding last_messages
last_messages-Ends maximum m start =
    elim (Bool-cases (ltb maximum (length (start ++ m ∷ [])) && not (eqb maximum 0))) [
      | inl e ↦ rw e (
          drop-Ends (length (start ++ m ∷ []) - maximum) m start
            (ground (arith, e, length-append start (m ∷ []))))
      | inr e ↦ rw e (start, refl)
    ]

truncated-Ends :
    (c : Conversation) (m : Message) (start : List Message) (extra : ℕ)
    → is_tool m ≡ false
    → conservative_tokens m ≤ message_budget c - extra
    → (kept : List Message) × (truncated c (start ++ m ∷ []) extra ≡ ok (kept ++ m ∷ []))
unfolding truncated project
truncated-Ends c m start extra h k =
    let budget = message_budget c - extra in
    let (recent, p) = last_messages-Ends c.limits.max_history m start in
    let older = reverse (message_blocks recent) in
    let (more, used, q) = keep-first budget (m ∷ []) older (omega (arith, k)) in
    let (blocks, r) = shrink_older-Ends c.limits budget used m more h in
    let (kept, s) = drop_leading_tools-Ends m (concat blocks) h in
    let order : reverse (message_blocks (last_messages c.limits.max_history (start ++ m ∷ [])))
        ≡ (m ∷ []) ∷ older =
      ap (λ ms. reverse (message_blocks ms)) p
      ∙ ap reverse (message_blocks-snoc recent m h)
      ∙ reverse-append (message_blocks recent) ((m ∷ []) ∷ []) in
    (
      kept,
      ap (λ bs. project c.limits budget (keep budget 0 [] bs)) order
          ∙ ap (project c.limits budget) q
          ∙ ap (λ bs. ok (drop_leading_tools (concat bs))) r
          ∙ ap (λ ms. ok (drop_leading_tools ms)) (concat-append blocks ((m ∷ []) ∷ []))
          ∙ ap ok s,
    )

last_message-snoc : (ms : List Message) (m : Message) → last_message (ms ++ m ∷ []) ≡ some m
unfolding last_message
last_message-snoc [] m = refl
last_message-snoc (x ∷ ms) m = rw (last_message-snoc ms m) refl

abbrev EndsOk : Message → Result (List Message) → Type 0
EndsOk m r = (kept : List Message) × (r ≡ ok (kept ++ m ∷ []))

-- The summary, if any, leaves room for the message.
abbrev RoomFor : Conversation → Message → Option Message → Type 0
RoomFor c m none = conservative_tokens m ≤ message_budget c
RoomFor c m (some summary) = conservative_tokens m + conservative_tokens summary ≤ message_budget c

fitted_summary-RoomFor :
    (c : Conversation) (m summary : Message)
    → is_user m ≡ true
    → conservative_tokens m ≤ message_budget c
    → RoomFor c m (fitted_summary c summary (some m))
unfolding fitted_summary
fitted_summary-RoomFor c m summary h k =
    let budget = message_budget c - conservative_tokens m in
    elim (Bool-cases (ltb budget (conservative_tokens summary))) [
      | inr e ↦ rw (h, e) (ground (arith, e, k))
      | inl e ↦ elim (Option-cases (fit_message conservative_tokens summary budget)) [
        | inl f ↦ rw (h, e, f) k
        | inr (fitted, f) ↦
            rw (h, e, f) (omega (arith, k, cost-fit_message summary budget fitted f))
      ]
    ]

view_after-Ends :
    (c : Conversation) (m : Message) (start : List Message) (summary : Option Message)
    → is_tool m ≡ false
    → RoomFor c m summary
    → EndsOk m (view_after c (start ++ m ∷ []) summary)
unfolding view_after
view_after-Ends c m start none h k = truncated-Ends c m start 0 h (omega (arith, k))
view_after-Ends c m start (some summary) h k =
    let (kept, e) = truncated-Ends c m start (conservative_tokens summary) h (omega (arith, k)) in
    (summary ∷ kept, rw (view_after, e) refl)

-- The checkpoint covers no message that is not there.
abbrev pub InRange : List Message → Option Checkpoint → Type 0
InRange ms none = Unit
InRange ms (some checkpoint) = checkpoint.covered_upto ≤ length ms

RoomFor-Small :
    (c : Conversation) (m : Message) (summary : Option Message)
    → RoomFor c m summary
    → Small (message_budget c) summary
RoomFor-Small c m none h = tt
RoomFor-Small c m (some summary) h = omega (arith, h)

abbrev pushed : Conversation → Message → Conversation
pushed c m = record c { messages = c.messages ++ m ∷ [] }

sent-Ends :
    (c : Conversation) (text : Text) (start : List Message) (summary : Option Message)
    → fixed_tokens c.limits c.system_tokens ≤ c.limits.max_tokens
    → RoomFor c (Message.user text) summary
    → EndsOk
        (Message.user text)
        (and_then (view_after c (start ++ Message.user text ∷ []) summary) (within_window c))
sent-Ends c text start summary h k =
    let m = Message.user text in
    let tail = start ++ m ∷ [] in
    subst (EndsOk m)
      (sym (
        within_window-ok c (view_after c tail summary) h
          (view_after-InBudget c tail summary (RoomFor-Small c m summary k))))
      (view_after-Ends c m start summary refl k)

view_from-Ends :
    (c : Conversation) (text : Text) (checkpoint : Option Checkpoint)
    → fixed_tokens c.limits c.system_tokens ≤ c.limits.max_tokens
    → InRange c.messages checkpoint
    → conservative_tokens (Message.user text) ≤ message_budget c
    → EndsOk (Message.user text) (
        and_then
          (view_from (pushed c (Message.user text)) checkpoint)
          (within_window (pushed c (Message.user text))))
unfolding view_from
view_from-Ends c text none h i k = sent-Ends (pushed c (Message.user text)) text c.messages none h k
view_from-Ends c text (some checkpoint) h i k =
    let m = Message.user text in
    let after = pushed c m in
    let (start, p) = drop-Ends checkpoint.covered_upto m c.messages i in
    rw (p, last_message-snoc start m)
      (sent-Ends after text start (fitted_summary after (summary_message checkpoint) (some m)) h
        (fitted_summary-RoomFor after m (summary_message checkpoint) refl k))

accept_user-pushed :
    (text : Text) (attachment_tokens : ℕ) (c : Conversation)
    → (accept_user text attachment_tokens c).0 ≡ ok tt
    → ((accept_user text attachment_tokens c).1 ≡ pushed c (Message.user text))
      × (conservative_tokens (Message.user text) ≤ message_budget c)
unfolding accept_user
accept_user-pushed text attachment_tokens c h =
    let m = Message.user text in
    let limit = c.limits.attachment_context_limit in
    elim (Bool-cases (ltb 0 limit && ltb limit attachment_tokens)) [
      | inl e ↦ ground (arith, e)
      | inr e ↦ elim (Bool-cases (ltb (message_budget c) (conservative_tokens m))) [
        | inl f ↦ ground (arith, e, f)
        | inr f ↦ (rw (e, f) refl, ground (arith, f))
      ]
    ]

accept_user-provider_messages :
    (text : Text) (attachment_tokens : ℕ) (c : Conversation)
    → fixed_tokens c.limits c.system_tokens ≤ c.limits.max_tokens
    → InRange c.messages c.checkpoint
    → (accept_user text attachment_tokens c).0 ≡ ok tt
    → (kept : List Message) × (provider_messages (accept_user text attachment_tokens c).1
        ≡ ok (kept ++ Message.user text ∷ []))
unfolding provider_messages view
accept_user-provider_messages text attachment_tokens c h i k =
    let (e, room) = accept_user-pushed text attachment_tokens c k in
    rw e (view_from-Ends c text c.checkpoint h i room)

-- What was read, and that it was accepted.
Accepted : (Text → Text) → UserContent → Conversation → Type 0
Accepted strip content c =
    (text : Text) × (attachment_tokens : ℕ) × (read_content strip content
      ≡ ok (text, attachment_tokens))
    × ((accept_user text attachment_tokens c).0 ≡ ok tt)
    × (add_user strip content c ≡ accept_user text attachment_tokens c)

add_user-Accepted :
    (strip : Text → Text) (content : UserContent) (c : Conversation)
    → (add_user strip content c).0 ≡ ok tt
    → Accepted strip content c
unfolding add_user Accepted read_content
add_user-Accepted strip (plain text) c k = elim (Bool-cases (is_empty (strip text))) [
  | inl e ↦ ground (arith, (rw (add_user, e) at k))
  | inr e ↦ (strip text, 0, rw e refl, (rw (add_user, e) at k), rw (add_user, e) refl)
]
add_user-Accepted strip (parsed text attachment_tokens) c k =
    (text, attachment_tokens, refl, k, refl)

-- A user message that is accepted is in the next request, whole and last, whatever the history, the
-- summary and the limits on it: the window, the number of messages and the shrinking of older
-- results never take it away. The checkpoint covers no message that is not there.
pub add_user-provider_messages :
    (strip : Text → Text) (content : UserContent) (c : Conversation)
    → fixed_tokens c.limits c.system_tokens ≤ c.limits.max_tokens
    → InRange c.messages c.checkpoint
    → (add_user strip content c).0 ≡ ok tt
    → (text : Text) × (attachment_tokens : ℕ) × (kept : List Message) × (read_content strip content
        ≡ ok (text, attachment_tokens))
      × (provider_messages (add_user strip content c).1 ≡ ok (kept ++ Message.user text ∷ []))
unfolding Accepted
add_user-provider_messages strip content c h i k =
    let (text, attachment_tokens, read, done, same) = add_user-Accepted strip content c k in
    let (kept, e) = accept_user-provider_messages text attachment_tokens c h i done in
    (text, attachment_tokens, kept, read, ap (λ r. provider_messages r.1) same ∙ e)
