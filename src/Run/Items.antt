-- ===== src/Run/Items.antt =====
-- The run's timeline: `upsert_item` of src/assistant_agent/agent/run/coordinator.py, and that it
-- keeps item ids distinct, the owner of every item, and the order of the sequence numbers.
use Prim.Native.String.{count}
use assistant_agent.Base.{
  Bool, leb, ◌≤◌, ℕ, ◌+◌, ◌<◌, String, ◌≡◌, refl, true, ◌&&◌, List, [], ◌∷◌, ◌++◌, arith, ◌==◌,
  eq_refl, take, all, contains, distinct-snoc, if◌then◌else◌, Bool-cases, inl, inr, length,
  length-append,
}
use assistant_agent.ToolResult.{Text}
use assistant_agent.Run.State.{RunItemKind, RunItemStatus, RunItem, RunState}
use assistant_agent.Run.Consistency.{
  item_ids, is_ordered, timeline_fits, timeline_bounded, max_items,
}

-- The bounds of a `RunItem`'s id. Those of charts and outputs are short by their patterns, and the
-- others are constants, but for the tools.
unfoldable pub item_id_fits : String → Bool
item_id_fits id = leb 1 (count id) && leb (count id) 160

-- `summary[:16_000]`.
clip_summary : Text → Text
clip_summary text = take 16000 text

-- `self.state.items[-1].sequence + 1 if self.state.items else 0`.
abbrev next_sequence : List RunItem → ℕ
next_sequence [] = 0
next_sequence (i ∷ []) = i.sequence + 1
next_sequence (i ∷ j ∷ is) = next_sequence (j ∷ is)

-- `summary[:16_000] or current.summary`.
abbrev or_current : Text → Text → Text
or_current [] current = current
or_current (c ∷ s) current = c ∷ s

-- Replaces the first item of that id, as `next(…)` and `items.index(current)` find it.
abbrev replace_item : String → RunItemStatus → Text → List RunItem → List RunItem
replace_item id status summary [] = []
replace_item id status summary (i ∷ is) =
    if i.item_id == id
    then record i { status = status; summary = or_current (clip_summary summary) i.summary } ∷ is
    else i ∷ replace_item id status summary is

abbrev fresh_item : String → String → RunItemKind → RunItemStatus → Text → List RunItem → RunItem
fresh_item run id kind status summary is = record {
  item_id = id;
  run_id = run;
  kind = kind;
  status = status;
  sequence = next_sequence is;
  summary = clip_summary summary;
}

pub upsert : String → String → RunItemKind → RunItemStatus → Text → List RunItem → List RunItem
upsert run id kind status summary is =
    if contains (item_ids is) id
    then replace_item id status summary is
    else is ++ fresh_item run id kind status summary is ∷ []

unfoldable pub upsert_item : String → RunItemKind → RunItemStatus → Text → RunState → RunState
upsert_item id kind status summary s = record s {
  items = upsert s.run_id id kind status summary s.items;
}

module _ (id : String) (status : RunItemStatus) (summary : Text) where
  item_ids-replace_item :
      (is : List RunItem) → item_ids (replace_item id status summary is) ≡ item_ids is
  item_ids-replace_item [] = refl
  item_ids-replace_item (i ∷ is) = ground (arith, item_ids-replace_item is)

  owner-replace_item :
      (run : String) (is : List RunItem)
      → all (λ i. i.run_id == run) (replace_item id status summary is)
        ≡ all (λ i. i.run_id == run) is
  owner-replace_item run [] = refl
  owner-replace_item run (i ∷ is) = ground (arith, owner-replace_item run is)

  is_ordered-replace_item :
      (is : List RunItem) → is_ordered (replace_item id status summary is) ≡ is_ordered is
  is_ordered-replace_item [] = refl
  is_ordered-replace_item (i ∷ []) = ground arith
  is_ordered-replace_item (i ∷ j ∷ is) = ground (arith, is_ordered-replace_item (j ∷ is))

module _ (new : RunItem) where
  item_ids-snoc : (is : List RunItem) → item_ids (is ++ new ∷ []) ≡ item_ids is ++ new.item_id ∷ []
  item_ids-snoc [] = refl
  item_ids-snoc (i ∷ is) = ground (arith, item_ids-snoc is)

  owner-snoc :
      (run : String) (is : List RunItem)
      → all (λ i. i.run_id == run) (is ++ new ∷ [])
        ≡ (all (λ i. i.run_id == run) is && new.run_id == run)
  owner-snoc run [] = ground arith
  owner-snoc run (i ∷ is) = ground (arith, owner-snoc run is)

  is_ordered-snoc :
      (is : List RunItem)
      → new.sequence ≡ next_sequence is
      → is_ordered is ≡ true
      → is_ordered (is ++ new ∷ []) ≡ true
  is_ordered-snoc [] e h = refl
  is_ordered-snoc (i ∷ []) e h = ground arith
  is_ordered-snoc (i ∷ j ∷ is) e h = ground (arith, is_ordered-snoc (j ∷ is))

-- Whatever item is put on the timeline, its ids stay distinct, every item stays this run's, and the
-- sequence numbers stay in order.
pub timeline_fits-upsert :
    (run id : String) (kind : RunItemKind) (status : RunItemStatus) (summary : Text)
    (is : List RunItem)
    → timeline_fits run is ≡ true
    → timeline_fits run (upsert run id kind status summary is) ≡ true
unfolding timeline_fits upsert
timeline_fits-upsert run id kind status summary is h =
    let new = fresh_item run id kind status summary is in
    elim (Bool-cases (contains (item_ids is) id)) [
      | inl old ↦ rw old (
          ground (
            arith,
            item_ids-replace_item id status summary is,
            owner-replace_item id status summary run is,
            is_ordered-replace_item id status summary is,
          ))
      | inr absent ↦ rw absent (
          ground (
            arith,
            item_ids-snoc new is,
            distinct-snoc (item_ids is) id,
            owner-snoc new run is,
            is_ordered-snoc new is,
            eq_refl run,
          ))
    ]

length-replace_item :
    (id : String) (status : RunItemStatus) (summary : Text) (is : List RunItem)
    → length (replace_item id status summary is) ≡ length is
length-replace_item id status summary [] = refl
length-replace_item id status summary (i ∷ is) =
    ground (arith, length-replace_item id status summary is)

pub timeline_bounded-upsert :
    (run id : String) (kind : RunItemKind) (status : RunItemStatus) (summary : Text)
    (is : List RunItem)
    → length is < max_items
    → timeline_bounded (upsert run id kind status summary is) ≡ true
unfolding timeline_bounded upsert
timeline_bounded-upsert run id kind status summary is h =
    let new = fresh_item run id kind status summary is in
    elim (Bool-cases (contains (item_ids is) id)) [
      | inl old ↦ rw (old, length-replace_item id status summary is) (ground arith)
      | inr absent ↦ rw (absent, length-append is (new ∷ [])) (ground arith)
    ]

pub length-upsert :
    (run id : String) (kind : RunItemKind) (status : RunItemStatus) (summary : Text)
    (is : List RunItem)
    → length (upsert run id kind status summary is) ≤ length is + 1
unfolding upsert
length-upsert run id kind status summary is =
    let new = fresh_item run id kind status summary is in
    elim (Bool-cases (contains (item_ids is) id)) [
      | inl old ↦ rw (old, length-replace_item id status summary is) (omega arith)
      | inr absent ↦ rw (absent, length-append is (new ∷ [])) (omega arith)
    ]
