-- ===== src/Context/Conversation/Views.antt =====
-- What `_truncated` of src/assistant_agent/agent/context/conversation.py gives.
use assistant_agent.Base.{
  ℕ, ◌-◌, ◌*◌, ◌≤◌, ◌≡◌, refl, sym, ap, ◌∙◌, subst, not, ◌&&◌, List, [], ◌∷◌, ◌++◌, map, length,
  take, drop, reverse, concat, append_assoc, concat-append, reverse-reverse, sum_by-append, ltb,
  eqb, arith, Bool-cases, inl, inr, IsSuffix, IsSuffix-trans, IsSuffix-drop, map-append,
  IsSuffix-map, take-append-drop, all-reverse,
}
use assistant_agent.Base.Result.{context_window_error, Result, ok, err}
use assistant_agent.Run.State.{Message}
use assistant_agent.Context.Window.{conservative_tokens}
use assistant_agent.Context.Blocks.{is_tool, message_blocks, shrink_message, cost}
use assistant_agent.Context.Blocks.Costs.{tokens-shrink_message}
use assistant_agent.Context.Blocks.Shapes.{
  outline, is_block, outline-shrink_message, message_blocks-concat, message_blocks-are_blocks,
}
use assistant_agent.Context.Conversation.{
  ContextLimits, Conversation, keep, shrink_older, drop_leading_tools, last_messages, project,
  truncated, message_budget,
}
use assistant_agent.Context.Conversation.Keeping.{Sound, Oversized, Outcome, keep-Outcome, total}

shrink_block :
    (limit : ℕ) (ms : List Message)
    → (map outline (map (shrink_message limit) ms) ≡ map outline ms)
      × (cost conservative_tokens (map (shrink_message limit) ms) ≤ cost conservative_tokens ms)
shrink_block limit [] = (refl, omega arith)
shrink_block limit (m ∷ ms) =
    let (e, l) = shrink_block limit ms in
    (
      ap (λ x. x ∷ map outline (map (shrink_message limit) ms)) (outline-shrink_message limit m)
          ∙ ap (λ xs. outline m ∷ xs) e,
      omega (arith, l, tokens-shrink_message limit m),
    )

map-concat :
    (f : Message → Message) (bs : List (List Message)) → concat (map (map f) bs) ≡ map f (concat bs)
map-concat f [] = refl
map-concat f (b ∷ bs) = rw (map-concat f bs) (sym (map-append f b (concat bs)))

shrink_some :
    (limit n : ℕ) (kept : List (List Message))
    → (map outline (concat (map (map (shrink_message limit)) (take n kept) ++ drop n kept))
        ≡ map outline (concat kept))
      × (total (map (map (shrink_message limit)) (take n kept) ++ drop n kept) ≤ total kept)
shrink_some limit n kept =
    let old = concat (take n kept) in
    let new = concat (drop n kept) in
    let f = shrink_message limit in
    let (same, less) = shrink_block limit old in
    let after : concat (map (map f) (take n kept) ++ drop n kept) ≡ map f old ++ new =
      concat-append (map (map f) (take n kept)) (drop n kept)
      ∙ ap (λ ms. ms ++ new) (map-concat f (take n kept)) in
    let before : concat kept ≡ old ++ new =
      ap concat (sym (take-append-drop n kept)) ∙ concat-append (take n kept) (drop n kept) in
    (
      ap (map outline) after
          ∙ map-append outline (map f old) new
          ∙ ap (λ ms. ms ++ map outline new) same
          ∙ sym (map-append outline old new)
          ∙ ap (map outline) (sym before),
      omega (
        arith,
        less,
        ap (cost conservative_tokens) after,
        ap (cost conservative_tokens) before,
        sum_by-append conservative_tokens (map f old) new,
        sum_by-append conservative_tokens old new,
      ),
    )

shrink_older-outline :
    (limits : ContextLimits) (budget used : ℕ) (kept : List (List Message))
    → (map outline (concat (shrink_older limits budget used kept)) ≡ map outline (concat kept))
      × (total (shrink_older limits budget used kept) ≤ total kept)
unfolding shrink_older
shrink_older-outline limits budget used kept =
    elim (Bool-cases (
      ltb 0 limits.tool_result_context_chars
      && ltb (3 * budget) (4 * used)
      && ltb limits.recent_tool_result_blocks (length kept))) [
        | inl e ↦
            rw (shrink_older, e)
              (shrink_some limits.tool_result_context_chars
                (length kept - limits.recent_tool_result_blocks) kept)
        | inr e ↦ rw (shrink_older, e) (refl, omega arith)
      ]

drop_leading_tools-suffix : (ms : List Message) → IsSuffix (drop_leading_tools ms) ms
unfolding drop_leading_tools
drop_leading_tools-suffix [] = ([], refl)
drop_leading_tools-suffix (m ∷ ms) = elim (Bool-cases (is_tool m)) [
  | inl e ↦ let (old, p) = drop_leading_tools-suffix ms in rw e (m ∷ old, ap (λ xs. m ∷ xs) p)
  | inr e ↦ rw e ([], refl)
]

last_messages-suffix :
    (maximum : ℕ) (source : List Message) → IsSuffix (last_messages maximum source) source
unfolding last_messages
last_messages-suffix maximum source =
    elim (Bool-cases (ltb maximum (length source) && not (eqb maximum 0))) [
      | inl e ↦ rw e (IsSuffix-drop (length source - maximum) source)
      | inr e ↦ rw e ([], refl)
    ]

-- What a projection is: a sound one, or the error of a protocol that does not fit.
abbrev pub Projection : ℕ → List Message → Result (List Message) → Type 0
Projection budget source (ok kept) = Sound budget source kept
Projection budget source (err e) = (e ≡ context_window_error) × Oversized budget source

Sound-shorter :
    (budget : ℕ) (source kept shorter : List Message)
    → Sound budget source kept
    → IsSuffix shorter kept
    → Sound budget source shorter
Sound-shorter budget source kept shorter (s, c) (old, p) = (
  IsSuffix-trans _ _ _ (IsSuffix-map outline shorter kept (old, p)) s,
  omega (arith, c, ap (cost conservative_tokens) p, sum_by-append conservative_tokens old shorter),
)

project-Projection :
    (limits : ContextLimits) (budget : ℕ) (source : List Message)
    (kept : Result (List (List Message))) (used : ℕ)
    → Outcome budget source kept
    → Projection budget source (project limits budget (kept, used))
unfolding project
project-Projection limits budget source (err e) used h = h
project-Projection limits budget source (ok kept) used (s, c) =
    let (same, less) = shrink_older-outline limits budget used kept in
    let shrunk = concat (shrink_older limits budget used kept) in
    Sound-shorter budget source shrunk (drop_leading_tools shrunk)
      (rw same s, omega (arith, c, less)) (drop_leading_tools-suffix shrunk)

Projection-longer :
    (budget : ℕ) (source longer : List Message) (r : Result (List Message))
    → IsSuffix source longer
    → Projection budget source r
    → Projection budget longer r
Projection-longer budget source longer (ok kept) s (t, c) =
    (IsSuffix-trans _ _ _ t (IsSuffix-map outline source longer s), c)
Projection-longer budget source longer (err e) (old, p) (q, (older, m, results, r, f, c)) = (
  q,
  (
    old ++ older,
    m,
    results,
    p ∙ ap (λ ms. old ++ ms) r ∙ sym (append_assoc old older (m ∷ results)),
    f,
    c,
  ),
)

pub truncated-Projection :
    (c : Conversation) (source : List Message) (extra : ℕ)
    → Projection (message_budget c - extra) source (truncated c source extra)
unfolding truncated
truncated-Projection c source extra =
    let budget = message_budget c - extra in
    let recent = last_messages c.limits.max_history source in
    let blocks = message_blocks recent in
    Projection-longer budget recent source _ (last_messages-suffix c.limits.max_history source) (
      project-Projection c.limits budget recent _ _ (
        subst (λ ms. Outcome budget ms (keep budget 0 [] (reverse blocks)).0)
          (ap concat (reverse-reverse blocks) ∙ message_blocks-concat recent)
          (keep-Outcome budget (reverse blocks)
            (all-reverse is_block blocks (message_blocks-are_blocks recent)))))
