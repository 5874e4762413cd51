-- ===== src/Edit/Atomic.antt =====
-- Edits that succeed, and files that stay: src/assistant_agent/tools/file_edit.py.
use assistant_agent.Base.{
  ℕ, suc, ◌+◌, ◌-◌, ◌<◌, ◌≡◌, ◌⊎◌, refl, sym, ap, ◌∙◌, subst, Bool, true, false, List, [], ◌∷◌,
  length, arith, Bool-cases, inl, inr, length-append,
}
use assistant_agent.ToolResult.{Text}
use assistant_agent.Context.Blocks.{is_empty}
use assistant_agent.Edit.{
  count, replace, adapt_newlines, dominant_newline, Edit, Edited, apply_one, apply_all, and_apply,
  FilePort, Answer, written, commit, edit_text, multi_edit, crlf, cr, lf, starts_with, replace_from,
}
use assistant_agent.Edit.Pieces.{Replaced, replace-Replaced}

-- One edit that took effect: its old string, in the file's newlines, is there, once if it is not to
-- be replaced everywhere.
abbrev pub Applied : Text → Edit → ℕ → Text → Type 0
Applied content edit n result =
    let newline = dominant_newline content in
    let old = adapt_newlines edit.old_string newline in
    (0 < n)
    × (edit.replace_all ≡ false → n ≡ 1)
    × Replaced content old (adapt_newlines edit.new_string newline) n result

is_empty-length : (text : Text) → is_empty text ≡ false → 0 < length text
is_empty-length [] h = ground arith
is_empty-length (c ∷ text) h = omega arith

replace_not_empty :
    (text old new : Text) → 0 < length text → 0 < length new → 0 < length (replace text old new)
unfolding replace_from
replace_not_empty [] old new h k = ground (arith, h)
replace_not_empty (c ∷ text) old new h k = elim (Bool-cases (starts_with old (c ∷ text))) [
  | inl e ↦
      rw (replace_from, e)
        (omega (arith, k, length-append {0} new (replace_from old new (length old - 1) text)))
  | inr e ↦ rw (replace_from, e) (omega arith)
]

adapted_not_empty :
    (value content : Text)
    → 0 < length value
    → 0 < length (adapt_newlines value (dominant_newline content))
unfolding adapt_newlines dominant_newline
adapted_not_empty value content h =
    replace_not_empty (replace (replace value crlf lf) cr lf) lf (dominant_newline content)
      (replace_not_empty (replace value crlf lf) cr lf
        (replace_not_empty value crlf lf h (omega arith)) (omega arith))
      (ground arith)

apply_one_fields :
    (content : Text) (edit : Edit) (result : Text) (n : ℕ)
    → apply_one content edit ≡ Edited.edited result n
    → let newline = dominant_newline content in
      let old = adapt_newlines edit.old_string newline in
      (0 < length edit.old_string)
      × (result ≡ replace content old (adapt_newlines edit.new_string newline))
      × (n ≡ count content old)
      × (0 < n)
      × (edit.replace_all ≡ false → n ≡ 1)
unfolding apply_one
apply_one_fields content edit result n h = (
  ground (arith, h, is_empty-length edit.old_string),
  ground (arith, h),
  ground (arith, h),
  ground (arith, h),
  λ k. ground (arith, h, k),
)

apply_one-Applied :
    (content : Text) (edit : Edit) (result : Text) (n : ℕ)
    → apply_one content edit ≡ Edited.edited result n
    → Applied content edit n result
apply_one-Applied content edit result n h =
    let (some_old, made, counted, positive, single) = apply_one_fields content edit result n h in
    let newline = dominant_newline content in
    let old = adapt_newlines edit.old_string newline in
    let (ps, whole, joined, joints) =
      replace-Replaced content old (adapt_newlines edit.new_string newline)
        (adapted_not_empty edit.old_string content some_old) in
    (positive, single, (ps, whole, made ∙ joined, joints ∙ ap suc (sym counted)))

-- The edits one after the other.
pub data Chain : Text → List Edit → ℕ → Text → Type 0 where
  nil : {content : Text} → Chain content [] 0 content
  cons :
      {content middle result : Text} {edit : Edit} {edits : List Edit} {n m : ℕ}
      → Applied content edit n middle
      → Chain middle edits m result
      → Chain content (edit ∷ edits) (n + m) result

and_apply-Chain :
    (content : Text) (edit : Edit) (edits : List Edit) (total n : ℕ) (result : Text)
    (first : Edited)
    → apply_one content edit ≡ first
    → ((middle : Text) (m : ℕ)
        → apply_all middle m edits ≡ Edited.edited result n
        → (k : ℕ) × (n ≡ m + k) × Chain middle edits k result)
    → and_apply (λ text m. apply_all text m edits) total first ≡ Edited.edited result n
    → (k : ℕ) × (n ≡ total + k) × Chain content (edit ∷ edits) k result
and_apply-Chain content edit edits total n result (Edited.failed e) f ih h = ground (arith, h)
and_apply-Chain content edit edits total n result (Edited.edited middle m) f ih h =
    let (k, e, chain) = ih middle (total + m) h in
    (m + k, omega (arith, e), cons (apply_one-Applied content edit middle m f) chain)

apply_all-Chain :
    (content : Text) (total : ℕ) (edits : List Edit) (result : Text) (n : ℕ)
    → apply_all content total edits ≡ Edited.edited result n
    → (k : ℕ) × (n ≡ total + k) × Chain content edits k result
unfolding apply_all
apply_all-Chain content total [] result n h =
    let same : content ≡ result = ground (arith, h) in
    let counted : total ≡ n = ground (arith, h) in
    (0, omega (arith, counted), subst (λ t. Chain content [] 0 t) same nil)
apply_all-Chain content total (edit ∷ edits) result n h =
    and_apply-Chain content edit edits total n result (apply_one content edit) refl
      (λ middle m. apply_all-Chain middle m edits result n) h

module _ {D : Type 0} (port : FilePort D) where
  -- A success has written what the edits make of what was read; a refusal leaves the file, unless a
  -- write was tried and failed.
  abbrev pub AllOrNothing : List Edit → D → Answer × D → Type 0
  AllOrNothing edits d (Answer.done total, after) =
      (content : Text) × (size : ℕ) × (result : Text) × (port.read_for_edit d
        ≡ Edited.edited content size)
      × Chain content edits total result
      × (port.atomic_write_text result d ≡ (true, after))
  AllOrNothing edits d (Answer.refused e, after) =
      (after ≡ d) ⊎ ((result : Text) × (port.atomic_write_text result d ≡ (false, after)))

  written-AllOrNothing :
      (edits : List Edit) (d : D) (content : Text) (size : ℕ) (result : Text) (total : ℕ)
      (wrote : Bool × D)
      → port.read_for_edit d ≡ Edited.edited content size
      → Chain content edits total result
      → port.atomic_write_text result d ≡ wrote
      → AllOrNothing edits d (written total wrote)
  written-AllOrNothing edits d content size result total (true, after) r chain w =
      (content, size, result, r, chain, w)
  written-AllOrNothing edits d content size result total (false, after) r chain w = inr (result, w)

  applied-AllOrNothing :
      (edits : List Edit) (d : D) (content : Text) (size : ℕ) (r : Edited)
      → port.read_for_edit d ≡ Edited.edited content size
      → apply_all content 0 edits ≡ r
      → AllOrNothing edits d (commit port d r)
  applied-AllOrNothing edits d content size (Edited.failed e) r f = inl refl
  applied-AllOrNothing edits d content size (Edited.edited result total) r f =
      let (k, e, chain) = apply_all-Chain content 0 edits result total f in
      let same : k ≡ total = omega (arith, e) in
      written-AllOrNothing edits d content size result total (port.atomic_write_text result d) r
        (subst (λ n. Chain content edits n result) same chain) refl

  read-AllOrNothing :
      (edits : List Edit) (d : D) (r : Edited)
      → port.read_for_edit d ≡ r
      → AllOrNothing edits d (commit port d (edit_text edits r))
  read-AllOrNothing edits d (Edited.failed e) f = inl refl
  read-AllOrNothing edits d (Edited.edited content size) f =
      applied-AllOrNothing edits d content size (apply_all content 0 edits) f refl

  -- Of several edits all take effect or none does. Where the answer is a success, each edit has
  -- replaced its old string in what the edits before it made, at one place or, if it was to be
  -- replaced everywhere, at one or more, the rest of the text standing, and the file was written
  -- once with the outcome; where the answer is a refusal, the file is as it was, unless that write
  -- failed.
  pub multi_edit-AllOrNothing :
      (writable : Bool) (edits : List Edit) (d : D)
      → AllOrNothing edits d (multi_edit port writable edits d)
  unfolding multi_edit
  multi_edit-AllOrNothing true edits d = read-AllOrNothing edits d (port.read_for_edit d) refl
  multi_edit-AllOrNothing false edits d = inl refl
