-- ===== src/Run/Lifecycle/Recording.antt =====
-- What the recording of charts, outputs and capture intents may change: only the artifacts, the
-- timeline and the pending capture, each within its validator.
use assistant_agent.Base.{
  ℕ, ◌+◌, ◌≤◌, ◌<◌, String, ◌≡◌, ◌∙◌, refl, ap, true, false, ◌&&◌, Option, none, List, [], ◌∷◌,
  ◌++◌, arith, some, ◌==◌, all, find, contains, distinct-snoc, length, length-append, sum_by-append,
  Bool-cases, Option-cases, inl, inr,
}
use assistant_agent.ToolResult.{ChartArtifact, OutputArtifact, OutputCaptureIntent, ToolResult}
use assistant_agent.Run.State.{RunState}
use assistant_agent.Run.Consistency.{
  is_session, chart_ids, output_ids, total_bytes, max_run_artifacts, max_run_artifact_bytes,
  max_outputs, presentations_fit, outputs_fit, timeline_fits, capture_fits,
}
use assistant_agent.Run.Items.{timeline_fits-upsert, length-upsert}
use assistant_agent.Run.Lifecycle.{
  is_foreign_chart, hold_chart, is_foreign_output, hold_output, is_foreign_capture, record_chart,
  record_presentation, record_artifact, record_output, accept_capture, record_capture,
  record_artifacts, pending_of, intent_fits,
}

module _ (a : ChartArtifact) where
  chart_ids-snoc :
      (cs : List ChartArtifact) → chart_ids (cs ++ a ∷ []) ≡ chart_ids cs ++ a.artifact_id ∷ []
  chart_ids-snoc [] = refl
  chart_ids-snoc (c ∷ cs) = ap (λ xs. c.artifact_id ∷ xs) (chart_ids-snoc cs)

  contains-find-none :
      (cs : List ChartArtifact)
      → find (λ c. c.artifact_id == a.artifact_id) cs ≡ none
      → contains (chart_ids cs) a.artifact_id ≡ false
  contains-find-none [] h = refl
  contains-find-none (c ∷ cs) h = ground (arith, contains-find-none cs)

  owned-snoc :
      (run : String) (session : Option String) (cs : List ChartArtifact)
      → all (λ c. c.run_id == run && is_session session c.session_id) cs ≡ true
      → (a.run_id == run) ≡ true
      → is_session session a.session_id ≡ true
      → all (λ c. c.run_id == run && is_session session c.session_id) (cs ++ a ∷ []) ≡ true
  owned-snoc run session [] h r k = ground arith
  owned-snoc run session (c ∷ cs) h r k = ground (arith, owned-snoc run session cs)

  presentations_fit-snoc :
      (run : String) (session : Option String) (cs : List ChartArtifact)
      → presentations_fit run session cs ≡ true
      → find (λ c. c.artifact_id == a.artifact_id) cs ≡ none
      → (a.run_id == run) ≡ true
      → is_session session a.session_id ≡ true
      → length cs < max_run_artifacts
      → total_bytes cs + a.size_bytes ≤ max_run_artifact_bytes
      → presentations_fit run session (cs ++ a ∷ []) ≡ true
  unfolding presentations_fit
  presentations_fit-snoc run session cs h f r k n b =
      rw
        (
          chart_ids-snoc cs,
          length-append cs (a ∷ []),
          sum_by-append (λ (c : ChartArtifact). c.size_bytes) cs (a ∷ []),
        )
        (ground (
          arith,
          distinct-snoc (chart_ids cs) a.artifact_id,
          contains-find-none cs f,
          owned-snoc run session cs,
        ))

module _ (a : OutputArtifact) where
  output_ids-snoc :
      (os : List OutputArtifact) → output_ids (os ++ a ∷ []) ≡ output_ids os ++ a.output_id ∷ []
  output_ids-snoc [] = refl
  output_ids-snoc (o ∷ os) = ap (λ xs. o.output_id ∷ xs) (output_ids-snoc os)

  outputs_find-none :
      (os : List OutputArtifact)
      → find (λ o. o.output_id == a.output_id) os ≡ none
      → contains (output_ids os) a.output_id ≡ false
  outputs_find-none [] h = refl
  outputs_find-none (o ∷ os) h = ground (arith, outputs_find-none os)

  outputs_owned-snoc :
      (run : String) (session : Option String) (os : List OutputArtifact)
      → all (λ o. o.run_id == run && is_session session o.session_id) os ≡ true
      → (a.run_id == run) ≡ true
      → is_session session a.session_id ≡ true
      → all (λ o. o.run_id == run && is_session session o.session_id) (os ++ a ∷ []) ≡ true
  outputs_owned-snoc run session [] h r k = ground arith
  outputs_owned-snoc run session (o ∷ os) h r k = ground (arith, outputs_owned-snoc run session os)

  outputs_fit-snoc :
      (run : String) (session : Option String) (os : List OutputArtifact)
      → outputs_fit run session os ≡ true
      → find (λ o. o.output_id == a.output_id) os ≡ none
      → (a.run_id == run) ≡ true
      → is_session session a.session_id ≡ true
      → length os < max_outputs
      → outputs_fit run session (os ++ a ∷ []) ≡ true
  unfolding outputs_fit
  outputs_fit-snoc run session os h f r k n =
      rw (output_ids-snoc os, length-append os (a ∷ []))
        (ground (
          arith,
          distinct-snoc (output_ids os) a.output_id,
          outputs_find-none os f,
          outputs_owned-snoc run session os,
        ))

-- The fields that a recording may change.
abbrev pub with_recorded : RunState → RunState → RunState
with_recorded s t = record s {
  presentations = t.presentations;
  outputs = t.outputs;
  items = t.items;
  pending_output_capture = t.pending_output_capture;
}

-- `t` comes from `s` by recordings that add at most `n` items to the timeline.
pub record Recorded (n : ℕ) (s t : RunState) : Type 0 where
  pub frame : t ≡ with_recorded s t
  pub presentations : presentations_fit s.run_id s.session_id t.presentations ≡ true
  pub outputs : outputs_fit s.run_id s.session_id t.outputs ≡ true
  pub timeline : timeline_fits s.run_id t.items ≡ true
  pub capture : capture_fits t.pending_output_capture ≡ true
  pub room : length t.items ≤ length s.items + n

-- The validators of what a recording may change.
pub record Recordable (s : RunState) : Type 0 where
  pub presentations : presentations_fit s.run_id s.session_id s.presentations ≡ true
  pub outputs : outputs_fit s.run_id s.session_id s.outputs ≡ true
  pub timeline : timeline_fits s.run_id s.items ≡ true
  pub capture : capture_fits s.pending_output_capture ≡ true

unchanged : (n : ℕ) (s : RunState) → Recordable s → Recorded n s s
unchanged n s h = record {
  frame = refl;
  presentations = h.presentations;
  outputs = h.outputs;
  timeline = h.timeline;
  capture = h.capture;
  room = omega arith;
}

hold_chart-Recorded :
    (a : ChartArtifact) (s : RunState)
    → Recordable s
    → find (λ c. c.artifact_id == a.artifact_id) s.presentations ≡ none
    → is_foreign_chart a s ≡ false
    → Recorded 1 s (hold_chart a s)
unfolding hold_chart is_foreign_chart
hold_chart-Recorded a s h f own = record {
  frame = refl;
  presentations =
      presentations_fit-snoc a s.run_id s.session_id s.presentations h.presentations f
        (ground arith) (ground arith) (ground arith) (ground arith);
  outputs = h.outputs;
  timeline = timeline_fits-upsert s.run_id _ _ _ _ s.items h.timeline;
  capture = h.capture;
  room = length-upsert s.run_id _ _ _ _ s.items;
}

record_chart-Recorded :
    (a : ChartArtifact) (r : ToolResult) (s : RunState)
    → Recordable s
    → Recorded 1 s (record_chart a r s).1
unfolding record_chart
record_chart-Recorded a r s h =
    elim (Option-cases (find (λ c. c.artifact_id == a.artifact_id) s.presentations)) [
      | inr (existing, e) ↦ elim (Bool-cases (existing.content_hash == a.content_hash)) [
        | inl agrees ↦ rw (e, record_chart, agrees) (unchanged 1 s h)
        | inr differs ↦ rw (e, record_chart, differs) (unchanged 1 s h)
      ]
      | inl e ↦ elim (Bool-cases (is_foreign_chart a s)) [
        | inl foreign ↦ rw (e, record_chart, foreign) (unchanged 1 s h)
        | inr own ↦ rw (e, record_chart, own) (hold_chart-Recorded a s h e own)
      ]
    ]

pub record_presentation-Recorded :
    (r : ToolResult) (s : RunState) → Recordable s → Recorded 1 s (record_presentation r s).1
unfolding record_presentation
record_presentation-Recorded r s h = elim (Option-cases r.chart) [
  | inl e ↦ rw (e, record_presentation) (unchanged 1 s h)
  | inr (a, e) ↦ rw (e, record_presentation) (record_chart-Recorded a r s h)
]

hold_output-Recorded :
    (a : OutputArtifact) (s : RunState)
    → Recordable s
    → length s.outputs < max_outputs
    → find (λ o. o.output_id == a.output_id) s.outputs ≡ none
    → is_foreign_output a s ≡ false
    → Recorded 1 s (hold_output a s)
unfolding hold_output is_foreign_output
hold_output-Recorded a s h n f own = record {
  frame = refl;
  presentations = h.presentations;
  outputs =
      outputs_fit-snoc a s.run_id s.session_id s.outputs h.outputs f (ground arith) (ground arith)
        n;
  timeline = timeline_fits-upsert s.run_id _ _ _ _ s.items h.timeline;
  capture = h.capture;
  room = length-upsert s.run_id _ _ _ _ s.items;
}

record_artifact-Recorded :
    (a : OutputArtifact) (r : ToolResult) (s : RunState)
    → Recordable s
    → length s.outputs < max_outputs
    → Recorded 1 s (record_artifact a r s).1
unfolding record_artifact
record_artifact-Recorded a r s h n =
    elim (Option-cases (find (λ o. o.output_id == a.output_id) s.outputs)) [
      | inr (existing, e) ↦ elim (Bool-cases (existing.content_hash == a.content_hash)) [
        | inl agrees ↦ rw (e, record_artifact, agrees) (unchanged 1 s h)
        | inr differs ↦ rw (e, record_artifact, differs) (unchanged 1 s h)
      ]
      | inl e ↦ elim (Bool-cases (is_foreign_output a s)) [
        | inl foreign ↦ rw (e, record_artifact, foreign) (unchanged 1 s h)
        | inr own ↦ rw (e, record_artifact, own) (hold_output-Recorded a s h n e own)
      ]
    ]

pub record_output-Recorded :
    (r : ToolResult) (s : RunState)
    → Recordable s
    → length s.outputs < max_outputs
    → Recorded 1 s (record_output r s).1
unfolding record_output
record_output-Recorded r s h n = elim (Option-cases r.output_artifact) [
  | inl e ↦ rw (e, record_output) (unchanged 1 s h)
  | inr (a, e) ↦ rw (e, record_output) (record_artifact-Recorded a r s h n)
]

accept_capture-Recorded :
    (id : String) (i : OutputCaptureIntent) (r : ToolResult) (s : RunState)
    → Recordable s
    → Recorded 0 s (accept_capture id i r s).1
unfolding accept_capture
accept_capture-Recorded id i r s h = elim (Bool-cases (is_foreign_capture id i s)) [
  | inl foreign ↦ rw foreign (unchanged 0 s h)
  | inr own ↦ elim (Bool-cases (capture_fits (some (pending_of i)))) [
    | inl fits ↦
        rw (own, fits)
          (record {
            frame = refl;
            presentations = h.presentations;
            outputs = h.outputs;
            timeline = h.timeline;
            capture = fits;
            room = omega arith;
          })
    | inr unfit ↦ rw (own, unfit) (unchanged 0 s h)
  ]
]

record_capture-Recorded :
    (id : String) (r : ToolResult) (s : RunState)
    → Recordable s
    → Recorded 0 s (record_capture id r s).1
unfolding record_capture
record_capture-Recorded id r s h = elim (Option-cases r.output_capture) [
  | inl e ↦ rw (e, record_capture) (unchanged 0 s h)
  | inr (i, e) ↦ rw (e, record_capture) (accept_capture-Recorded id i r s h)
]

Recordable-of : {n : ℕ} {s t : RunState} → Recorded n s t → Recordable t
Recordable-of r = record {
  presentations = cc (ap (λ u. u.run_id) r.frame, ap (λ u. u.session_id) r.frame);
  outputs = cc (ap (λ u. u.run_id) r.frame, ap (λ u. u.session_id) r.frame);
  timeline = cc (ap (λ u. u.run_id) r.frame);
  capture = r.capture;
}

Recorded-trans :
    {m n : ℕ} {s t u : RunState} → Recorded m s t → Recorded n t u → Recorded (m + n) s u
Recorded-trans {u = u} a b = record {
  frame = b.frame ∙ ap (λ t. with_recorded t u) a.frame;
  presentations = cc (ap (λ u. u.run_id) a.frame, ap (λ u. u.session_id) a.frame);
  outputs = cc (ap (λ u. u.run_id) a.frame, ap (λ u. u.session_id) a.frame);
  timeline = cc (ap (λ u. u.run_id) a.frame);
  capture = b.capture;
  room = omega (arith, a.room, b.room);
}

outputs-record_presentation :
    (r : ToolResult) (s : RunState) → (record_presentation r s).1.outputs ≡ s.outputs
unfolding record_presentation
outputs-record_presentation r s = ground arith

-- All recordings of a result: they change nothing but artifacts, timeline and pending capture, keep
-- the validators of these, and add at most two items.
pub record_artifacts-Recorded :
    (id : String) (r : ToolResult) (s : RunState)
    → Recordable s
    → length s.outputs < max_outputs
    → Recorded 2 s (record_artifacts id r s).1
unfolding record_artifacts
record_artifacts-Recorded id r s h n =
    let (r₁, s₁) = record_presentation r s in
    let a : Recorded 1 s s₁ = record_presentation-Recorded r s h in
    let few : length s₁.outputs < max_outputs = rw (outputs-record_presentation r s) n in
    let (r₂, s₂) = record_output r₁ s₁ in
    let b : Recorded 1 s₁ s₂ = record_output-Recorded r₁ s₁ (Recordable-of a) few in
    Recorded-trans (Recorded-trans a b) (record_capture-Recorded id r₂ s₂ (Recordable-of b))

intent_fits-record_presentation :
    (r : ToolResult) (s : RunState)
    → intent_fits r ≡ true
    → intent_fits (record_presentation r s).0 ≡ true
unfolding record_presentation intent_fits
intent_fits-record_presentation r s h = ground arith

intent_fits-record_output :
    (r : ToolResult) (s : RunState)
    → intent_fits r ≡ true
    → intent_fits (record_output r s).0 ≡ true
unfolding record_output intent_fits
intent_fits-record_output r s h = ground arith

intent_fits-record_capture :
    (id : String) (r : ToolResult) (s : RunState)
    → intent_fits r ≡ true
    → intent_fits (record_capture id r s).0 ≡ true
unfolding record_capture intent_fits
intent_fits-record_capture id r s h = ground arith

record_presentation-plain :
    (r : ToolResult) (s : RunState) → r.chart ≡ none → record_presentation r s ≡ (r, s)
unfolding record_presentation
record_presentation-plain r s h = ground arith

record_output-plain :
    (r : ToolResult) (s : RunState) → r.output_artifact ≡ none → record_output r s ≡ (r, s)
unfolding record_output
record_output-plain r s h = ground arith

record_capture-plain :
    (id : String) (r : ToolResult) (s : RunState)
    → r.output_capture ≡ none
    → record_capture id r s ≡ (r, s)
unfolding record_capture
record_capture-plain id r s h = ground arith

-- A result with nothing to record stays as it is.
pub record_artifacts-plain :
    (id : String) (r : ToolResult) (s : RunState)
    → r.chart ≡ none
    → r.output_artifact ≡ none
    → r.output_capture ≡ none
    → (record_artifacts id r s).0 ≡ r
unfolding record_artifacts
record_artifacts-plain id r s a b c =
    rw
      (
        record_artifacts,
        record_presentation-plain r s a,
        record_output-plain r s b,
        record_capture-plain id r s c,
      )
      refl

-- The recordings keep an intent that fits, or drop it.
pub intent_fits-record_artifacts :
    (id : String) (r : ToolResult) (s : RunState)
    → intent_fits r ≡ true
    → intent_fits (record_artifacts id r s).0 ≡ true
unfolding record_artifacts
intent_fits-record_artifacts id r s h =
    let (r₁, s₁) = record_presentation r s in
    let (r₂, s₂) = record_output r₁ s₁ in
    intent_fits-record_capture id r₂ s₂
      (intent_fits-record_output r₁ s₁ (intent_fits-record_presentation r s h))
