-- ===== src/Context/Compaction/Turns.antt =====
-- The turns that src/assistant_agent/agent/context/compaction.py summarises and those it keeps.
use assistant_agent.Base.{
  ℕ, zero, suc, ◌+◌, ◌-◌, ◌≤◌, ◌<◌, ◌≡◌, refl, sym, ap, ◌∙◌, subst, Bool, true, false, not, ◌&&◌,
  Option, none, some, List, [], ◌∷◌, ◌++◌, length, take, drop, concat, all, append_nil,
  append_assoc, concat-append, length-append, take-append-drop, arith, Bool-cases, Option-cases,
  inl, inr, and-left, and-right, length-drop, ltb,
}
use assistant_agent.Base.Result.{ok}
use assistant_agent.ToolResult.{Text}
use assistant_agent.Run.State.{Message}
use assistant_agent.Context.Blocks.{is_empty, is_user}
use assistant_agent.Context.Conversation.{
  Conversation, full_usage, tail_after_checkpoint, set_checkpoint,
}
use assistant_agent.Context.Conversation.Latest.{InRange}
use assistant_agent.Context.Compaction.{
  turns_from, group_turns, Compactor, CompactionResult, compact, maybe_compact,
}

turns_from-concat : (opened ms : List Message) → concat (turns_from opened ms) ≡ opened ++ ms
unfolding turns_from
turns_from-concat [] [] = refl
turns_from-concat (o ∷ os) [] = append_nil (o ∷ os) ∙ sym (append_nil (o ∷ os))
turns_from-concat opened (m ∷ ms) = elim (Bool-cases (is_user m && not (is_empty opened))) [
  | inl e ↦ rw e (ap (λ xs. opened ++ xs) (turns_from-concat (m ∷ []) ms))
  | inr e ↦ rw e (turns_from-concat (opened ++ m ∷ []) ms ∙ append_assoc opened (m ∷ []) ms)
]

abbrev pub starts_with_user : List Message → Bool
starts_with_user [] = false
starts_with_user (m ∷ ms) = is_user m

abbrev rest_of : List (List Message) → List (List Message)
rest_of [] = []
rest_of (turn ∷ turns) = turns

starts-append :
    (opened ms : List Message)
    → starts_with_user opened ≡ true
    → starts_with_user (opened ++ ms) ≡ true
starts-append [] ms h = ground arith
starts-append (o ∷ os) ms h = h

-- Every turn but the first starts with a user message, and the first does where the open one did.
turns_from-users :
    (opened ms : List Message)
    → (all starts_with_user (rest_of (turns_from opened ms)) ≡ true)
      × (starts_with_user opened ≡ true → all starts_with_user (turns_from opened ms) ≡ true)
unfolding turns_from
turns_from-users [] [] = (refl, λ h. refl)
turns_from-users (o ∷ os) [] = (refl, λ h. ground arith)
turns_from-users opened (m ∷ ms) = elim (Bool-cases (is_user m && not (is_empty opened))) [
  | inl e ↦
      let later = (turns_from-users (m ∷ []) ms).1 (and-left _ _ e) in rw e (later, λ h. rw h later)
  | inr e ↦
      let (rest, whole) = turns_from-users (opened ++ m ∷ []) ms in
      rw e (rest, λ h. whole (starts-append opened (m ∷ []) h))
]

rest_users :
    (n : ℕ) (turns : List (List Message))
    → all starts_with_user (rest_of turns) ≡ true
    → all starts_with_user (drop (suc n) turns) ≡ true
rest_users n [] h = refl
rest_users zero (t ∷ turns) h = h
rest_users (suc n) (t ∷ []) h = refl
rest_users (suc n) (t ∷ u ∷ turns) h = rest_users n (u ∷ turns) (and-right _ _ h)

drop-length {ℓ} : {A : Type ℓ} (xs ys : List A) → drop (length xs) (xs ++ ys) ≡ ys
drop-length [] ys = refl
drop-length (x ∷ xs) ys = drop-length xs ys

abbrev Split : List Message → List (List Message) → List (List Message) → Type 0
Split tail old kept =
    (group_turns tail ≡ old ++ kept)
    × (drop (length (concat old)) tail ≡ concat kept)
    × (length (concat old) ≤ length tail)

group_turns-Split :
    (n : ℕ) (tail : List Message)
    → Split tail (take n (group_turns tail)) (drop n (group_turns tail))
unfolding group_turns
group_turns-Split n tail =
    let old = take n (group_turns tail) in
    let kept = drop n (group_turns tail) in
    let whole : concat old ++ concat kept ≡ tail =
      sym (concat-append old kept)
      ∙ ap concat (take-append-drop n (group_turns tail))
      ∙ turns_from-concat [] tail in
    (
      sym (take-append-drop n (group_turns tail)),
      ap (drop (length (concat old))) (sym whole) ∙ drop-length (concat old) (concat kept),
      omega (arith, ap length whole, length-append {0} (concat old) (concat kept)),
    )

compact-covers :
    (compactor : Compactor) (tail : List Message) (base : ℕ) (previous : Text)
    (result : CompactionResult)
    → compact compactor tail base previous ≡ some result
    → let n = length (group_turns tail) - compactor.keep_recent_turns in
      (compactor.keep_recent_turns < length (group_turns tail))
      × (result.covered_upto ≡ base + length (concat (take n (group_turns tail))))
unfolding compact
compact-covers compactor tail base previous result h = ground arith

drop-users :
    (n : ℕ) (tail : List Message) → 0 < n → all starts_with_user (drop n (group_turns tail)) ≡ true
unfolding group_turns
drop-users zero tail h = ground arith
drop-users (suc n) tail h = rest_users n (group_turns tail) (turns_from-users [] tail).0

-- What a compaction covers: whole turns, the oldest, and it leaves the newest, each of which starts
-- with a user message.
pub compact-Split :
    (compactor : Compactor) (tail : List Message) (base : ℕ) (previous : Text)
    (result : CompactionResult)
    → compact compactor tail base previous ≡ some result
    → (old kept : List (List Message)) × (group_turns tail ≡ old ++ kept)
      × (drop (length (concat old)) tail ≡ concat kept)
      × (length (concat old) ≤ length tail)
      × (length kept ≡ compactor.keep_recent_turns)
      × (all starts_with_user kept ≡ true)
      × (result.covered_upto ≡ base + length (concat old))
compact-Split compactor tail base previous result h =
    let turns = group_turns tail in
    let n = length turns - compactor.keep_recent_turns in
    let (more, covered) = compact-covers compactor tail base previous result h in
    let (whole, left, bound) = group_turns-Split n tail in
    (
      take n turns,
      drop n turns,
      whole,
      left,
      bound,
      omega (arith, more, length-drop {0} n turns),
      drop-users n tail (omega (arith, more)),
      covered,
    )

checkpointed-InRange :
    (c : Conversation) (summary : Text) (covered_upto : ℕ)
    → covered_upto ≤ length c.messages
    → let (answer, after) = set_checkpoint summary covered_upto c in
      (answer ≡ ok tt) × InRange after.messages after.checkpoint × (after.messages ≡ c.messages)
unfolding set_checkpoint
checkpointed-InRange c summary covered_upto h =
    let e : ltb (length c.messages) covered_upto ≡ false = ground (arith, h) in rw e (refl, h, refl)

tail_after-bound :
    (c : Conversation)
    → InRange c.messages c.checkpoint
    → let (tail, base, previous) = tail_after_checkpoint c in base + length tail ≡ length c.messages
unfolding tail_after_checkpoint
tail_after-bound c h = elim (Option-cases c.checkpoint) [
  | inl e ↦ rw (tail_after_checkpoint, e) (omega arith)
  | inr (checkpoint, e) ↦
      let range : checkpoint.covered_upto ≤ length c.messages = subst (InRange c.messages) e h in
      rw (tail_after_checkpoint, e)
        (omega (arith, range, length-drop {0} checkpoint.covered_upto c.messages))
]

-- Compaction never raises and never alters the history, and the checkpoint that it leaves covers
-- only messages that are there, whatever the model answers.
pub maybe_compact-InRange :
    (within_threshold : ℕ → ℕ → Bool) (compactor : Option Compactor) (c : Conversation)
    → InRange c.messages c.checkpoint
    → let (answer, after) = maybe_compact within_threshold compactor c in
      (answer ≡ ok tt) × InRange after.messages after.checkpoint × (after.messages ≡ c.messages)
unfolding maybe_compact
maybe_compact-InRange within_threshold none c h = (refl, h, refl)
maybe_compact-InRange within_threshold (some compactor) c h =
    let (tail, base, previous) = tail_after_checkpoint c in
    elim (Bool-cases (within_threshold (full_usage c) c.limits.max_tokens)) [
      | inl e ↦ rw e (refl, h, refl)
      | inr e ↦ elim (Option-cases (compact compactor tail base previous)) [
        | inl f ↦ rw (e, f) (refl, h, refl)
        | inr (result, f) ↦
            let (old, kept, whole, left, bound, count, users, covered) =
              compact-Split compactor tail base previous result f in
            rw (e, f)
              (checkpointed-InRange c result.summary result.covered_upto
                (omega (arith, bound, covered, tail_after-bound c h)))
      ]
    ]
