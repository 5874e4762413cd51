-- ===== src/Artifact/Chunks.antt =====
-- What the writer of src/assistant_agent/agent/artifact_capture.py hands to the draft store.
use assistant_agent.Base.{
  ℕ, zero, suc, ◌≤◌, ◌≡◌, refl, sym, ap, subst, ◌∙◌, Bool, true, List, [], ◌∷◌, ◌++◌, length, take,
  drop, concat, all, append_nil, append_assoc, concat-append, all-append, length-append,
  length-drop, take-append-drop, leb, eqb, le→leb, leb→le, arith, Bool-cases, inl, inr,
}
use assistant_agent.Base.Result.{Result, ok, err, Method}
use assistant_agent.ToolResult.{Text}
use assistant_agent.Artifact.{
  next_round, utf8_size, largest_prefix, DraftStore, Writer, append, appended, write_chunks, write,
}
use assistant_agent.Artifact.Prefix.{largest_prefix-Largest}

abbrev pub fits : ℕ → Text → Bool
fits limit chunk = leb (utf8_size chunk) limit

-- An append at the next index adds the chunk and answers with the size of the draft, or it refuses
-- and changes nothing.
module _ {S : Type 0} where
  abbrev pub Appends : (S → List Text) → List Text → Text → Result ℕ × S → Type 0
  Appends contents old chunk (err e, s) = contents s ≡ old
  Appends contents old chunk (ok size, s) =
      (contents s ≡ old ++ chunk ∷ []) × (size ≡ utf8_size (concat (contents s)))

empty_size : (text : Text) → length text ≤ 0 → utf8_size text ≡ 0
unfolding utf8_size
empty_size [] h = refl
empty_size (c ∷ text) h = ground arith

module _ {S V : Type 0} (port : DraftStore S) (max_chunk_bytes : ℕ) (contents : S → List Text) where
  -- The chunks in the store and the buffer are the text, in order; the counts are those of the
  -- store.
  pub record Streams (w : Writer S V) (text : Text) : Type 0 where
    pub whole : concat (contents w.store) ++ w.buffer ≡ text
    pub index : w.chunk_index ≡ length (contents w.store)
    pub size : w.size_bytes ≡ utf8_size (concat (contents w.store))
    pub bounded : all (fits max_chunk_bytes) (contents w.store) ≡ true

  abbrev pub Kept : Text → Result (Unit {0}) × Writer S V → Type 0
  Kept text (r, w) = Streams w text × (r ≡ ok tt → utf8_size w.buffer ≤ max_chunk_bytes)

  refused :
      (w : Writer S V) (text : Text) (s : S)
      → Streams w text
      → contents s ≡ contents w.store
      → Streams (record w { store = s }) text
  refused w text s h e = record {
    whole = rw e h.whole;
    index = rw e h.index;
    size = rw e h.size;
    bounded = rw e h.bounded;
  }

  accepted :
      (w : Writer S V) (text : Text) (s : S) (size split : ℕ)
      → Streams w text
      → fits max_chunk_bytes (take split w.buffer) ≡ true
      → contents s ≡ contents w.store ++ take split w.buffer ∷ []
      → size ≡ utf8_size (concat (contents s))
      → Streams
          (record w {
            store = s;
            size_bytes = size;
            chunk_index = suc w.chunk_index;
            buffer = drop split w.buffer;
          })
          text
  accepted w text s size split h f e k = record {
    whole =
        ap (λ cs. concat cs ++ drop split w.buffer) e
        ∙ ap (λ t. t ++ drop split w.buffer)
            (concat-append (contents w.store) (take split w.buffer ∷ [])
              ∙ ap (λ t. concat (contents w.store) ++ t) (append_nil (take split w.buffer)))
        ∙ append_assoc (concat (contents w.store)) (take split w.buffer) (drop split w.buffer)
        ∙ ap (λ t. concat (contents w.store) ++ t) (take-append-drop split w.buffer)
        ∙ h.whole;
    index = omega (
      arith,
      h.index,
      ap length e,
      length-append {0} (contents w.store) (take split w.buffer ∷ []),
    );
    size = k;
    bounded = rw e (
        all-append (fits max_chunk_bytes) (contents w.store) (take split w.buffer ∷ []) h.bounded
          (ground (arith, f)));
  }

  round-Kept :
      (further : Method (Writer S V) (Unit {0})) (w : Writer S V) (text : Text) (split : ℕ)
      (answer : Result ℕ × S)
      → ((v : Writer S V) → Streams v text → v.buffer ≡ drop split w.buffer → Kept text (further v))
      → Streams w text
      → fits max_chunk_bytes (take split w.buffer) ≡ true
      → Appends contents (contents w.store) (take split w.buffer) answer
      → Kept text
          (next_round port max_chunk_bytes further split (appended port max_chunk_bytes w answer))
  round-Kept further w text split (err e, s) ih h f a =
      (refused w text s h a, λ k. ground (arith, k))
  round-Kept further w text split (ok size, s) ih h f (a, b) =
      ih _ (accepted w text s size split h f a b) refl

  write_chunks-Kept :
      (fuel : ℕ) (w : Writer S V) (text : Text)
      → ((chunk : Text) (s : S)
          → Appends contents
              (contents s)
              chunk
              (port.append_text_draft (length (contents s)) chunk s))
      → length w.buffer ≤ fuel
      → Streams w text
      → Kept text (write_chunks port max_chunk_bytes fuel w)
  unfolding write_chunks append
  write_chunks-Kept zero w text law l h = (h, λ k. omega (arith, empty_size w.buffer l))
  write_chunks-Kept (suc fuel) w text law l h =
      let split = largest_prefix w.buffer max_chunk_bytes in
      let (o, s, a) = largest_prefix-Largest w.buffer max_chunk_bytes in
      elim (Bool-cases (leb (utf8_size w.buffer) max_chunk_bytes)) [
        | inl e ↦ rw (write_chunks, e) (h, λ k. leb→le _ _ e)
        | inr e ↦ elim (Bool-cases (eqb split 0)) [
          | inl f ↦ rw (write_chunks, e, f) (h, λ k. ground (arith, k))
          | inr f ↦
              rw (write_chunks, e, f)
                (round-Kept (write_chunks port max_chunk_bytes fuel) w text split _
                  (λ v g q.
                    write_chunks-Kept fuel v text law
                      (ground (arith, ap length q, length-drop split w.buffer, l, f)) g)
                  h (le→leb _ _ s)
                  (subst
                    (λ i.
                      Appends contents (contents w.store) (take split w.buffer)
                        (port.append_text_draft i (take split w.buffer) w.store))
                    (sym h.index) (law (take split w.buffer) w.store)))
        ]
      ]

  -- Whatever the store answers, what it holds and what is still in the buffer are the text written
  -- so far, in order and once, in chunks numbered in order of which none is longer than the limit
  -- in bytes; and a write that succeeds leaves no more than one chunk's worth in the buffer. A
  -- store that is given the next index appends the chunk whole and answers with its size, or
  -- refuses; at other indices it may do anything, since the writer uses the next index only.
  pub write-Kept :
      (more : Text) (w : Writer S V) (text : Text)
      → ((chunk : Text) (s : S)
          → Appends contents
              (contents s)
              chunk
              (port.append_text_draft (length (contents s)) chunk s))
      → utf8_size w.buffer ≤ max_chunk_bytes
      → Streams w text
      → Kept (text ++ more) (write port max_chunk_bytes more w)
  unfolding write
  write-Kept [] w text law b h = rw (append_nil text) (h, λ k. b)
  write-Kept (c ∷ more) w text law b h =
      write_chunks-Kept (length (w.buffer ++ c ∷ more)) (record w { buffer = w.buffer ++ c ∷ more })
        (text ++ c ∷ more) law (omega arith)
        (record {
          whole =
              sym (append_assoc (concat (contents w.store)) w.buffer (c ∷ more))
              ∙ ap (λ t. t ++ c ∷ more) h.whole;
          index = h.index;
          size = h.size;
          bounded = h.bounded;
        })
