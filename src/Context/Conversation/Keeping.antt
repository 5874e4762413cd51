-- ===== src/Context/Conversation/Keeping.antt =====
-- What the loop of `_truncated` in src/assistant_agent/agent/context/conversation.py keeps.
use assistant_agent.Base.{
  ℕ, ◌+◌, ◌≤◌, ◌<◌, ◌≡◌, refl, sym, ap, ◌∙◌, true, false, none, List, [], ◌∷◌, ◌++◌, map, reverse,
  concat, all, append_nil, append_assoc, concat-append, sum_by-append, ltb, arith, Bool-cases,
  Option-cases, inl, inr, IsSuffix, map-append, IsSuffix-map, and-left,
}
use assistant_agent.Base.Result.{context_window_error, Result, ok, err}
use assistant_agent.Run.State.{Message}
use assistant_agent.Context.Window.{conservative_tokens}
use assistant_agent.Context.Blocks.{has_calls, is_user, with_content, cost, fit_block, fit_calls}
use assistant_agent.Context.Blocks.Costs.{cost-fit_block}
use assistant_agent.Context.Blocks.Shapes.{outline, is_block, outline-fit_block}
use assistant_agent.Context.Conversation.{keep, keep_newest}

abbrev Block : Type 0
Block = List Message

abbrev pub total : List Block → ℕ
total blocks = cost conservative_tokens (concat blocks)

-- Once a block is kept, the loop ends well: the blocks that it adds are the newest of the rest.
abbrev Kept : ℕ → ℕ → List Block → List Block → Type 0
Kept budget used kept blocks =
    (more : List Block) × (dropped : List Block) × (final : ℕ) × (keep budget used kept blocks
      ≡ (ok (more ++ kept), final))
    × (reverse blocks ≡ dropped ++ more)
    × (final ≡ used + total more)
    × (final ≤ budget)

total-append : (xs ys : List Block) → total (xs ++ ys) ≡ total xs + total ys
total-append xs ys =
    ap (cost conservative_tokens) (concat-append xs ys)
    ∙ sum_by-append conservative_tokens (concat xs) (concat ys)

pub keep-further :
    (budget used : ℕ) (first : Block) (kept blocks : List Block)
    → used ≤ budget
    → Kept budget used (first ∷ kept) blocks
unfolding keep
keep-further budget used first kept [] h = ([], [], used, refl, refl, omega arith, h)
keep-further budget used first kept (block ∷ older) h =
    elim (Bool-cases (ltb budget (used + cost conservative_tokens block))) [
      | inl e ↦ (
        [],
        reverse (block ∷ older),
        used,
        rw e refl,
        sym (append_nil (reverse (block ∷ older))),
        omega arith,
        h,
      )
      | inr e ↦
          let (more, dropped, final, k, r, t, b) =
            keep-further budget (used + cost conservative_tokens block) block (first ∷ kept) older
              (ground (arith, e)) in
          (
            more ++ block ∷ [],
            dropped,
            final,
            rw (e, append_assoc more (block ∷ []) (first ∷ kept)) k,
            ap (λ bs. bs ++ block ∷ []) r ∙ append_assoc dropped more (block ∷ []),
            omega (
              arith,
              t,
              total-append more (block ∷ []),
              ap (cost conservative_tokens) (append_nil block),
            ),
            b,
          )
    ]

-- What the loop returned: the newest blocks, shortened at most in texts that are no user's.
abbrev pub Sound : ℕ → List Message → List Message → Type 0
Sound budget source kept =
    IsSuffix (map outline kept) (map outline source) × (cost conservative_tokens kept ≤ budget)

-- A protocol that does not fit even with its results emptied.
abbrev pub Oversized : ℕ → List Message → Type 0
Oversized budget source =
    (older : List Message) × (m : Message) × (results : List Message) × (source
      ≡ older ++ m ∷ results)
    × (has_calls m ≡ true)
    × (budget < cost conservative_tokens (m ∷ map (with_content []) results))

abbrev pub Outcome : ℕ → List Message → Result (List Block) → Type 0
Outcome budget source (ok kept) = Sound budget source (concat kept)
Outcome budget source (err e) = (e ≡ context_window_error) × Oversized budget source

calls_are_no_user : (m : Message) → has_calls m ≡ true → is_user m ≡ false
calls_are_no_user (Message.user text) h = ground arith
calls_are_no_user (Message.assistant text calls) h = refl
calls_are_no_user (Message.tool id name text) h = refl

fit_block-nil : (budget : ℕ) → fit_block conservative_tokens [] budget ≡ none
unfolding fit_block
fit_block-nil budget = refl

fit_block-none :
    (budget : ℕ) (m : Message) (ms : List Message)
    → has_calls m ≡ true
    → fit_block conservative_tokens (m ∷ ms) budget ≡ none
    → budget < cost conservative_tokens (m ∷ map (with_content []) ms)
unfolding fit_block fit_calls
fit_block-none budget m ms h k = ground (arith, calls_are_no_user m h)

Sound-one :
    (budget : ℕ) (older block fitted : List Message)
    → map outline fitted ≡ map outline block
    → cost conservative_tokens fitted ≤ budget
    → Sound budget (older ++ block) (concat (fitted ∷ []))
Sound-one budget older block fitted h k = rw (append_nil fitted) (
  (map outline older, map-append outline older block ∙ ap (λ ms. map outline older ++ ms) (sym h)),
  k,
)

Sound-none : (budget : ℕ) (source : List Message) → Sound budget source []
Sound-none budget source =
    ((map outline source, sym (append_nil (map outline source))), omega arith)

keep_newest-Outcome :
    (budget : ℕ) (older : List Message) (block : Block)
    → is_block block ≡ true
    → Outcome budget (older ++ block) (keep_newest budget block)
unfolding keep_newest
keep_newest-Outcome budget older [] h =
    rw (keep_newest, fit_block-nil budget) (Sound-none budget (older ++ []))
keep_newest-Outcome budget older (m ∷ ms) h =
    elim (Option-cases (fit_block conservative_tokens (m ∷ ms) budget)) [
      | inl e ↦ elim (Bool-cases (has_calls m)) [
        | inl f ↦
            rw (keep_newest, e, f) (refl, (older, m, ms, refl, f, fit_block-none budget m ms f e))
        | inr f ↦ rw (keep_newest, e, f) (Sound-none budget (older ++ m ∷ ms))
      ]
      | inr (fitted, e) ↦
          rw (keep_newest, e)
            (Sound-one budget older (m ∷ ms) fitted (outline-fit_block (m ∷ ms) budget fitted h e)
              (cost-fit_block (m ∷ ms) budget fitted e))
    ]

Sound-more :
    (budget final : ℕ) (block : Block) (blocks dropped more : List Block)
    → reverse blocks ≡ dropped ++ more
    → final ≡ cost conservative_tokens block + total more
    → final ≤ budget
    → Sound budget (concat (reverse blocks ++ block ∷ [])) (concat (more ++ block ∷ []))
Sound-more budget final block blocks dropped more r t b = (
  IsSuffix-map outline _ _ (
    concat dropped,
    ap (λ bs. concat (bs ++ block ∷ [])) r
        ∙ ap concat (append_assoc dropped more (block ∷ []))
        ∙ concat-append dropped (more ++ block ∷ []),
  ),
  omega (
    arith,
    t,
    b,
    total-append more (block ∷ []),
    ap (cost conservative_tokens) (append_nil block),
  ),
)

pub keep-Outcome :
    (budget : ℕ) (blocks : List Block)
    → all is_block blocks ≡ true
    → Outcome budget (concat (reverse blocks)) (keep budget 0 [] blocks).0
unfolding keep
keep-Outcome budget [] h = Sound-none budget []
keep-Outcome budget (block ∷ older) h =
    elim (Bool-cases (ltb budget (0 + cost conservative_tokens block))) [
      | inl e ↦
          rw (e, concat-append (reverse older) (block ∷ []), append_nil block)
            (keep_newest-Outcome budget (concat (reverse older)) block (and-left _ _ h))
      | inr e ↦
          let (more, dropped, final, k, r, t, b) =
            keep-further budget (0 + cost conservative_tokens block) block [] older
              (ground (arith, e)) in
          rw (e, k) (Sound-more budget final block older dropped more r (omega (arith, t)) b)
    ]

-- A newest block that fits is kept.
pub keep-first :
    (budget : ℕ) (block : Block) (older : List Block)
    → cost conservative_tokens block ≤ budget
    → (more : List Block) × (final : ℕ) × (keep budget 0 [] (block ∷ older)
        ≡ (ok (more ++ block ∷ []), final))
unfolding keep
keep-first budget block older h =
    let (more, dropped, final, k, r, t, b) =
      keep-further budget (0 + cost conservative_tokens block) block [] older (omega (arith, h)) in
    let e : ltb budget (0 + cost conservative_tokens block) ≡ false = ground (arith, h) in
    (more, final, rw e k)
