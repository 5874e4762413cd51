-- ===== src/Edit/Pieces.antt =====
-- What a replacement does to a text: src/assistant_agent/tools/file_edit.py.
use assistant_agent.Base.{
  ℕ, zero, suc, ◌-◌, ◌<◌, ◌≡◌, refl, sym, ap, ◌∙◌, true, false, List, [], ◌∷◌, ◌++◌, length, drop,
  eqb, arith, Bool-cases, inl, inr, and-right,
}
use assistant_agent.ToolResult.{Text}
use assistant_agent.Edit.{starts_with, count_from, replace_from, count, replace}

abbrev pub join : Text → List Text → Text
join sep [] = []
join sep (p ∷ []) = p
join sep (p ∷ q ∷ ps) = p ++ (sep ++ join sep (q ∷ ps))

abbrev push : ℕ → List Text → List Text
push c [] = (c ∷ []) ∷ []
push c (p ∷ ps) = (c ∷ p) ∷ ps

-- The pieces between the occurrences.
unfoldable pub pieces_from : Text → ℕ → Text → List Text
pieces_from old skip [] = [] ∷ []
pieces_from old (suc skip) (c ∷ text) = pieces_from old skip text
pieces_from old zero (c ∷ text) = elim (starts_with old (c ∷ text)) [
  | true ↦ [] ∷ pieces_from old (length old - 1) text
  | false ↦ push c (pieces_from old 0 text)
]

join-push : (sep : Text) (c : ℕ) (ps : List Text) → join sep (push c ps) ≡ c ∷ join sep ps
join-push sep c [] = refl
join-push sep c (p ∷ []) = refl
join-push sep c (p ∷ q ∷ ps) = refl

length-push : (c : ℕ) (ps : List Text) → 0 < length ps → length (push c ps) ≡ length ps
length-push c [] h = ground arith
length-push c (p ∷ ps) h = refl

join_gap : (sep : Text) (ps : List Text) → 0 < length ps → join sep ([] ∷ ps) ≡ sep ++ join sep ps
join_gap sep [] h = ground arith
join_gap sep (p ∷ ps) h = refl

length-pieces :
    (old : Text) (skip : ℕ) (text : Text)
    → length (pieces_from old skip text) ≡ suc (count_from old skip text)
unfolding pieces_from count_from
length-pieces old skip [] = refl
length-pieces old (suc skip) (c ∷ text) = length-pieces old skip text
length-pieces old zero (c ∷ text) = elim (Bool-cases (starts_with old (c ∷ text))) [
  | inl e ↦ rw (pieces_from, count_from, e) (ap suc (length-pieces old (length old - 1) text))
  | inr e ↦
      rw (pieces_from, count_from, e)
        (length-push c (pieces_from old 0 text) (omega (arith, length-pieces old 0 text))
          ∙ length-pieces old 0 text)
]

starts_with-drop :
    (old text : Text) → starts_with old text ≡ true → old ++ drop (length old) text ≡ text
unfolding starts_with
starts_with-drop [] text h = refl
starts_with-drop (o ∷ old) [] h = ground arith
starts_with-drop (o ∷ old) (c ∷ text) h =
    let same : o ≡ c = ground (arith, h) in
    rw same
      (ap (λ t. c ∷ t) (starts_with-drop old text (and-right (eqb o c) (starts_with old text) h)))

drop-positive : (n c : ℕ) (text : Text) → 0 < n → drop n (c ∷ text) ≡ drop (n - 1) text
drop-positive zero c text h = ground arith
drop-positive (suc n) c text h = let e : n ≡ suc n - 1 = omega arith in ap (λ k. drop k text) e

join-pieces_old :
    (old : Text) (skip : ℕ) (text : Text)
    → 0 < length old
    → join old (pieces_from old skip text) ≡ drop skip text
unfolding pieces_from
join-pieces_old old zero [] h = refl
join-pieces_old old (suc skip) [] h = refl
join-pieces_old old (suc skip) (c ∷ text) h = join-pieces_old old skip text h
join-pieces_old old zero (c ∷ text) h = elim (Bool-cases (starts_with old (c ∷ text))) [
  | inl e ↦
      rw (pieces_from, e)
        (join_gap old (pieces_from old (length old - 1) text)
            (omega (arith, length-pieces old (length old - 1) text))
          ∙ ap (λ t. old ++ t)
              (join-pieces_old old (length old - 1) text h
                ∙ sym (drop-positive (length old) c text h))
          ∙ starts_with-drop old (c ∷ text) e)
  | inr e ↦
      rw (pieces_from, e)
        (join-push old c (pieces_from old 0 text) ∙ ap (λ t. c ∷ t) (join-pieces_old old 0 text h))
]

join-pieces_new :
    (old new : Text) (skip : ℕ) (text : Text)
    → join new (pieces_from old skip text) ≡ replace_from old new skip text
unfolding pieces_from replace_from
join-pieces_new old new skip [] = refl
join-pieces_new old new (suc skip) (c ∷ text) = join-pieces_new old new skip text
join-pieces_new old new zero (c ∷ text) = elim (Bool-cases (starts_with old (c ∷ text))) [
  | inl e ↦
      rw (pieces_from, replace_from, e)
        (join_gap new (pieces_from old (length old - 1) text)
            (omega (arith, length-pieces old (length old - 1) text))
          ∙ ap (λ t. new ++ t) (join-pieces_new old new (length old - 1) text))
  | inr e ↦
      rw (pieces_from, replace_from, e)
        (join-push new c (pieces_from old 0 text)
          ∙ ap (λ t. c ∷ t) (join-pieces_new old new 0 text))
]

-- A replacement by its pieces: the text is the pieces joined by the old string, the result the same
-- pieces joined by the new one, and the count is that of the joints.
abbrev pub Replaced : Text → Text → Text → ℕ → Text → Type 0
Replaced content old new n result =
    (ps : List Text) × (content ≡ join old ps) × (result ≡ join new ps) × (length ps ≡ suc n)

pub replace-Replaced :
    (content old new : Text)
    → 0 < length old
    → Replaced content old new (count content old) (replace content old new)
replace-Replaced content old new h = (
  pieces_from old 0 content,
  sym (join-pieces_old old 0 content h),
  sym (join-pieces_new old new 0 content),
  length-pieces old 0 content,
)
