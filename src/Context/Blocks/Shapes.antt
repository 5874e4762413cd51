-- ===== src/Context/Blocks/Shapes.antt =====
-- What the blocks of src/assistant_agent/agent/context/conversation.py are made of.
use assistant_agent.Base.{
  ℕ, suc, ◌-◌, ◌/◌, ◌≡◌, refl, sym, ap, ◌∙◌, Bool, true, false, not, ◌&&◌, some, List, [], ◌∷◌,
  ◌++◌, map, length, concat, append_nil, append_assoc, concat-append, arith, Bool-cases,
  Option-cases, inl, inr, all, if◌then◌else◌, all-append,
}
use assistant_agent.ToolResult.{Text}
use assistant_agent.Run.State.{Message}
use assistant_agent.Context.Window.{content, conservative_tokens, truncate_text_to_tokens}
use assistant_agent.Context.Blocks.{
  is_empty, has_calls, is_tool, is_user, with_content, flush, gather, message_blocks, shrink_around,
  shrink_marker, shrink_message, share_out, fit_message, fit_calls, fit_block, cost,
}

concat-flush : (opened : List Message) → concat (flush opened) ≡ opened
concat-flush [] = refl
concat-flush (m ∷ ms) = append_nil (m ∷ ms)

concat-started :
    (m : Message) (ms : List Message) (begun single : List (List Message))
    → concat begun ≡ m ∷ ms
    → concat single ≡ ms
    → concat (if has_calls m then begun else (m ∷ []) ∷ single) ≡ m ∷ ms
concat-started m ms begun single h k = elim (Bool-cases (has_calls m)) [
  | inl e ↦ rw e h
  | inr e ↦ rw e (ap (λ xs. m ∷ xs) k)
]

concat-gather : (opened ms : List Message) → concat (gather opened ms) ≡ opened ++ ms
unfolding gather
concat-gather opened [] = concat-flush opened ∙ sym (append_nil opened)
concat-gather opened (m ∷ ms) = elim (Bool-cases (not (is_empty opened) && is_tool m)) [
  | inl e ↦ rw e (concat-gather (opened ++ m ∷ []) ms ∙ append_assoc opened (m ∷ []) ms)
  | inr e ↦ rw e (
      concat-append (flush opened)
        (if has_calls m then gather (m ∷ []) ms else (m ∷ []) ∷ gather [] ms)
      ∙ rw (concat-flush opened) (
          ap (λ xs. opened ++ xs)
            (concat-started m ms _ _ (concat-gather (m ∷ []) ms) (concat-gather [] ms))))
]

-- A message of its own, or a message with calls and the results that follow it.
unfoldable pub is_block : List Message → Bool
is_block [] = false
is_block (m ∷ ms) = if has_calls m then all is_tool ms else is_empty ms

abbrev is_open : List Message → Bool
is_open [] = true
is_open (m ∷ ms) = has_calls m && all is_tool ms

flush-are_blocks :
    (opened : List Message) → is_open opened ≡ true → all is_block (flush opened) ≡ true
unfolding is_block
flush-are_blocks [] h = refl
flush-are_blocks (m ∷ ms) h = ground arith

joined-is_open :
    (opened : List Message) (m : Message)
    → is_open opened ≡ true
    → (not (is_empty opened) && is_tool m) ≡ true
    → is_open (opened ++ m ∷ []) ≡ true
joined-is_open [] m h k = ground arith
joined-is_open (o ∷ os) m h k = ground (arith, all-append is_tool os (m ∷ []))

gather-are_blocks :
    (opened ms : List Message) → is_open opened ≡ true → all is_block (gather opened ms) ≡ true
unfolding gather is_block
gather-are_blocks [] [] h = refl
gather-are_blocks (o ∷ os) [] h = ground arith
gather-are_blocks opened (m ∷ ms) h = elim (Bool-cases (not (is_empty opened) && is_tool m)) [
  | inl e ↦ rw e (gather-are_blocks (opened ++ m ∷ []) ms (joined-is_open opened m h e))
  | inr e ↦ rw e (
      all-append is_block (flush opened)
        (if has_calls m then gather (m ∷ []) ms else (m ∷ []) ∷ gather [] ms)
        (flush-are_blocks opened h)
        (elim (Bool-cases (has_calls m)) [
          | inl f ↦ rw f (gather-are_blocks (m ∷ []) ms (rw f refl))
          | inr f ↦ rw f (rw f (gather-are_blocks [] ms refl))
        ]))
]

pub message_blocks-concat : (ms : List Message) → concat (message_blocks ms) ≡ ms
unfolding message_blocks
message_blocks-concat ms = concat-gather [] ms

pub message_blocks-are_blocks : (ms : List Message) → all is_block (message_blocks ms) ≡ true
unfolding message_blocks
message_blocks-are_blocks ms = gather-are_blocks [] ms refl

-- A message that is no tool result begins the last block when it comes last.
gather-snoc :
    (opened ms : List Message) (m : Message)
    → is_tool m ≡ false
    → gather opened (ms ++ m ∷ []) ≡ gather opened ms ++ (m ∷ []) ∷ []
unfolding gather
gather-snoc [] [] m h = elim (Bool-cases (has_calls m)) [ inl f ↦ rw f refl | inr f ↦ rw f refl ]
gather-snoc (o ∷ os) [] m h = elim (Bool-cases (has_calls m)) [
  | inl f ↦ rw (h, f) refl
  | inr f ↦ rw (h, f) refl
]
gather-snoc opened (x ∷ ms) m h = elim (Bool-cases (not (is_empty opened) && is_tool x)) [
  | inl e ↦ rw e (gather-snoc (opened ++ x ∷ []) ms m h)
  | inr e ↦ elim (Bool-cases (has_calls x)) [
    | inl f ↦
        rw (e, f)
          (ap (λ bs. flush opened ++ bs) (gather-snoc (x ∷ []) ms m h)
            ∙ sym (append_assoc (flush opened) (gather (x ∷ []) ms) ((m ∷ []) ∷ [])))
    | inr f ↦
        rw (e, f)
          (ap (λ bs. flush opened ++ (x ∷ []) ∷ bs) (gather-snoc [] ms m h)
            ∙ sym (append_assoc (flush opened) ((x ∷ []) ∷ gather [] ms) ((m ∷ []) ∷ [])))
  ]
]

pub message_blocks-snoc :
    (ms : List Message) (m : Message)
    → is_tool m ≡ false
    → message_blocks (ms ++ m ∷ []) ≡ message_blocks ms ++ (m ∷ []) ∷ []
unfolding message_blocks
message_blocks-snoc ms m h = gather-snoc [] ms m h

-- A message without the text that fitting may shorten: of a user message, nothing may.
unfoldable pub outline : Message → Message
outline (Message.user text) = Message.user text
outline (Message.assistant text calls) = Message.assistant [] calls
outline (Message.tool id name text) = Message.tool id name []

outline-with_content :
    (text : Text) (m : Message) → is_user m ≡ false → outline (with_content text m) ≡ outline m
unfolding outline
outline-with_content text (Message.user old) h = ground arith
outline-with_content text (Message.assistant old calls) h = refl
outline-with_content text (Message.tool id name old) h = refl

tool_is_no_user : (m : Message) → is_tool m ≡ true → is_user m ≡ false
tool_is_no_user (Message.user text) h = ground arith
tool_is_no_user (Message.assistant text calls) h = refl
tool_is_no_user (Message.tool id name text) h = refl

outline-share_out :
    (remaining : ℕ) (ms : List Message)
    → all is_tool ms ≡ true
    → map outline (share_out remaining ms) ≡ map outline ms
unfolding share_out
outline-share_out remaining [] h = refl
outline-share_out remaining (m ∷ ms) h =
    let text = truncate_text_to_tokens (content m) (remaining / suc (length ms)) 0 in
    ground (
      arith,
      tool_is_no_user m,
      outline-with_content text m,
      outline-share_out (remaining - length text) ms,
    )

outline-fit_message :
    (m : Message) (budget : ℕ) (fitted : Message)
    → is_user m ≡ false
    → fit_message conservative_tokens m budget ≡ some fitted
    → outline fitted ≡ outline m
unfolding fit_message
outline-fit_message m budget fitted h k =
    ground (arith, outline-with_content (truncate_text_to_tokens (content m) budget 4) m)

outline-fit_calls :
    (m : Message) (results : List Message) (budget : ℕ) (fitted : List Message)
    → all is_tool results ≡ true
    → fit_calls conservative_tokens m results budget ≡ some fitted
    → map outline fitted ≡ outline m ∷ map outline results
unfolding fit_calls
outline-fit_calls m results budget fitted h k =
    let fixed = cost conservative_tokens (m ∷ map (with_content []) results) in
    ground (arith, outline-share_out (budget - fixed) results)

nil_of-is_empty : (ms : List Message) → is_empty ms ≡ true → ms ≡ []
nil_of-is_empty [] h = refl
nil_of-is_empty (m ∷ ms) h = ground arith

pub outline-fit_block :
    (block : List Message) (budget : ℕ) (fitted : List Message)
    → is_block block ≡ true
    → fit_block conservative_tokens block budget ≡ some fitted
    → map outline fitted ≡ map outline block
unfolding fit_block is_block
outline-fit_block [] budget fitted h k = ground arith
outline-fit_block (m ∷ ms) budget fitted h k =
    elim (Option-cases (fit_message conservative_tokens m budget)) [
      | inl e ↦ ground (arith, e, outline-fit_calls m ms budget fitted)
      | inr (f, e) ↦ ground (
        arith,
        e,
        outline-fit_calls m ms budget fitted,
        outline-fit_message m budget f,
        nil_of-is_empty ms,
      )
    ]

pub outline-shrink_message :
    (limit : ℕ) (m : Message) → outline (shrink_message limit m) ≡ outline m
unfolding shrink_message
outline-shrink_message limit m = ground (
  arith,
  tool_is_no_user m,
  outline-with_content (shrink_around shrink_marker limit (content m)) m,
)
