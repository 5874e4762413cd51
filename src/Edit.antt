-- ===== src/Edit.antt =====
-- Exact edits of a file: src/assistant_agent/tools/file_edit.py and the newlines of
-- tools/file_io.py. The file is a port: a read, and a write that says whether it succeeded. The
-- resolution of the path and the texts of the answers are left out.
pub mod Pieces
pub mod Atomic
use assistant_agent.Base.{
  ℕ, zero, suc, ◌+◌, ◌-◌, Bool, true, false, not, ◌&&◌, Option, none, some, List, [], ◌∷◌, ◌++◌,
  length, ltb, eqb, if◌then◌else◌, String,
}
use assistant_agent.ToolResult.{Text}
use assistant_agent.Context.Blocks.{is_empty}

unfoldable pub starts_with : Text → Text → Bool
starts_with [] text = true
starts_with (o ∷ old) [] = false
starts_with (o ∷ old) (c ∷ text) = eqb o c && starts_with old text

-- `str.count` and `str.replace` of a text that is not empty, from left to right without overlap;
-- `skip` code points belong to the occurrence that was met last.
unfoldable pub count_from : Text → ℕ → Text → ℕ
count_from old skip [] = 0
count_from old (suc skip) (c ∷ text) = count_from old skip text
count_from old zero (c ∷ text) = elim (starts_with old (c ∷ text)) [
  | true ↦ suc (count_from old (length old - 1) text)
  | false ↦ count_from old 0 text
]

unfoldable pub replace_from : Text → Text → ℕ → Text → Text
replace_from old new skip [] = []
replace_from old new (suc skip) (c ∷ text) = replace_from old new skip text
replace_from old new zero (c ∷ text) = elim (starts_with old (c ∷ text)) [
  | true ↦ new ++ replace_from old new (length old - 1) text
  | false ↦ c ∷ replace_from old new 0 text
]

abbrev pub count : Text → Text → ℕ
count text old = count_from old 0 text

abbrev pub replace : Text → Text → Text → Text
replace text old new = replace_from old new 0 text

abbrev pub lf : Text
lf = 10 ∷ []

abbrev pub cr : Text
cr = 13 ∷ []

abbrev pub crlf : Text
crlf = 13 ∷ 10 ∷ []

unfoldable pub adapt_newlines : Text → Text → Text
adapt_newlines value newline = replace (replace (replace value crlf lf) cr lf) lf newline

unfoldable pub dominant_newline : Text → Text
dominant_newline content =
    if ltb (count content lf - count content crlf) (count content crlf) then crlf else lf

pub data EditError : Type 0 where
  invalid_arguments no_match ambiguous_edit : EditError
  not_found not_file decode_error : EditError
  filesystem_read_only io_error : EditError

pub data Edited : Type 0 where
  edited : Text → ℕ → Edited
  failed : EditError → Edited

pub record Edit : Type 0 where
  pub old_string : Text
  pub new_string : Text
  pub replace_all : Bool

-- `_apply_one`.
unfoldable pub apply_one : Text → Edit → Edited
apply_one content edit =
    let newline = dominant_newline content in
    let old = adapt_newlines edit.old_string newline in
    let new = adapt_newlines edit.new_string newline in
    let n = count content old in
    if is_empty edit.old_string
    then failed EditError.invalid_arguments
    else if eqb n 0
    then failed EditError.no_match
    else if ltb 1 n && not edit.replace_all
    then failed EditError.ambiguous_edit
    else edited (replace content old new) (if edit.replace_all then n else 1)

-- The loop of `multi_edit`; `total` counts the replacements so far.
abbrev pub and_apply : (Text → ℕ → Edited) → ℕ → Edited → Edited
and_apply further total (edited text n) = further text (total + n)
and_apply further total (failed e) = failed e

unfoldable pub apply_all : Text → ℕ → List Edit → Edited
apply_all content total [] = edited content total
apply_all content total (edit ∷ edits) =
    and_apply (λ text n. apply_all text n edits) total (apply_one content edit)

-- `_read_for_edit` and `atomic_write_text`.
pub record FilePort (D : Type 0) : Type 0 where
  pub read_for_edit : D → Edited
  pub atomic_write_text : Text → D → Bool × D

pub data Answer : Type 0 where
  done : ℕ → Answer
  refused : EditError → Answer

abbrev pub edit_text : List Edit → Edited → Edited
edit_text edits (failed e) = failed e
edit_text edits (edited text n) = apply_all text 0 edits

module _ {D : Type 0} where
  abbrev pub written : ℕ → Bool × D → Answer × D
  written total (true, after) = (done total, after)
  written total (false, after) = (refused EditError.io_error, after)

module _ {D : Type 0} (port : FilePort D) where
  abbrev pub commit : D → Edited → Answer × D
  commit d (failed e) = (refused e, d)
  commit d (edited text total) = written total (port.atomic_write_text text d)

  unfoldable pub multi_edit : Bool → List Edit → D → Answer × D
  multi_edit writable edits d =
      if not writable
      then (refused EditError.filesystem_read_only, d)
      else commit d (edit_text edits (port.read_for_edit d))

  -- `EditFileTool.run`.
  unfoldable pub edit_file : Bool → Edit → D → Answer × D
  edit_file writable edit d = multi_edit writable (edit ∷ []) d
