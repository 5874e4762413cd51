-- ===== src/Artifact.antt =====
-- The writer of a captured file: src/assistant_agent/agent/artifact_capture.py. The draft store is
-- a port: each call answers with a result and the store after it; ids of session, run and draft are
-- the store's own. `validate_output_content` is a parameter. Texts hold no lone surrogates, which
-- UTF-8 cannot encode.
pub mod Prefix
pub mod Chunks
use assistant_agent.Base.{
  ℕ, zero, suc, ◌+◌, ◌-◌, ◌/◌, Bool, true, false, List, [], ◌∷◌, ◌++◌, Option, some, length, take,
  drop, sum_by, ltb, leb, eqb, if◌then◌else◌,
}
use assistant_agent.Base.Result.{Error, output_limit_exceeded, Result, ok, err, Method, ◌>>◌, ◌>>=◌}
use assistant_agent.ToolResult.{Text}
use assistant_agent.Context.Blocks.{is_empty}

-- The bytes of a code point in UTF-8.
unfoldable pub utf8_width : ℕ → ℕ
utf8_width c = if ltb c 128 then 1 else if ltb c 2048 then 2 else if ltb c 65536 then 3 else 4

unfoldable pub utf8_size : Text → ℕ
utf8_size = sum_by utf8_width

-- The loop of `_largest_prefix`, on fuel; the buffer's length is enough.
unfoldable pub bisect : ℕ → Text → ℕ → ℕ → ℕ → ℕ
bisect zero buffer max_bytes low high = low
bisect (suc fuel) buffer max_bytes low high =
    let mid = (low + high + 1) / 2 in
    let fits = leb (utf8_size (take mid buffer)) max_bytes in
    let rest =
      bisect fuel buffer max_bytes (if fits then mid else low) (if fits then high else mid - 1) in
    if ltb low high then rest else low

unfoldable pub largest_prefix : Text → ℕ → ℕ
largest_prefix buffer max_bytes = bisect (length buffer) buffer max_bytes 0 (length buffer)

-- The calls of the store that the writer makes.
pub record DraftStore (S : Type 0) : Type 0 where
  pub reset_text_draft : S → Result (Unit {0}) × S
  pub append_text_draft : ℕ → Text → S → Result ℕ × S
  pub read_text_draft : S → Result Text × S
  pub finalize_text_draft : S → Result (Unit {0}) × S

pub record Writer (S V : Type 0) : Type 0 where
  pub store : S
  pub buffer : Text
  pub chunk_index : ℕ
  pub size_bytes : ℕ
  pub validation_result : Option V

module _ {S V : Type 0} (port : DraftStore S) (max_chunk_bytes : ℕ) where
  abbrev stored : Writer S V → Result (Unit {0}) × S → Result (Unit {0}) × Writer S V
  stored w (r, s) = (r, record w { store = s })

  unfoldable pub start : Method (Writer S V) (Unit {0})
  start w = stored w (port.reset_text_draft w.store)

  abbrev pub appended : Writer S V → Result ℕ × S → Result (Unit {0}) × Writer S V
  appended w (err e, s) = (err e, record w { store = s })
  appended w (ok size, s) =
      (ok tt, record w { store = s; size_bytes = size; chunk_index = suc w.chunk_index })

  unfoldable pub append : Text → Method (Writer S V) (Unit {0})
  append content w = appended w (port.append_text_draft w.chunk_index content w.store)

  -- What follows on the append of the first `split` code points.
  abbrev pub next_round :
      Method (Writer S V) (Unit {0})
      → ℕ
      → Result (Unit {0}) × Writer S V
      → Result (Unit {0}) × Writer S V
  next_round further split (err e, w) = (err e, w)
  next_round further split (ok done, w) = further (record w { buffer = drop split w.buffer })

  -- The loop of `write`, on fuel: each round takes at least one code point.
  unfoldable pub write_chunks : ℕ → Method (Writer S V) (Unit {0})
  write_chunks zero w = (ok tt, w)
  write_chunks (suc fuel) w =
      let split = largest_prefix w.buffer max_chunk_bytes in
      elim (leb (utf8_size w.buffer) max_chunk_bytes) [
        | true ↦ (ok tt, w)
        | false ↦ elim (eqb split 0) [
          | true ↦ (err output_limit_exceeded, w)
          | false ↦ next_round (write_chunks fuel) split (append (take split w.buffer) w)
        ]
      ]

  unfoldable pub write : Text → Method (Writer S V) (Unit {0})
  write text w =
      let v = record w { buffer = w.buffer ++ text } in
      if is_empty text then (ok tt, w) else write_chunks (length v.buffer) v

  abbrev flush_buffer : Method (Writer S V) (Unit {0})
  flush_buffer w =
      if is_empty w.buffer
      then (ok tt, w)
      else (append w.buffer >> (λ v. (ok tt, record v { buffer = [] }))) w

  abbrev read_back : Writer S V → Result Text × S → Result Text × Writer S V
  read_back w (r, s) = (r, record w { store = s })

  unfoldable pub finalize : (Text → V) → Method (Writer S V) (Unit {0})
  finalize validate =
      flush_buffer
      >> (λ w. if eqb w.size_bytes 0 then (err output_limit_exceeded, w) else (ok tt, w))
      >> (λ w. read_back w (port.read_text_draft w.store))
      >>= (λ content w. (ok tt, record w { validation_result = some (validate content) }))
      >> (λ w. stored w (port.finalize_text_draft w.store))
