-- ===== src/Run/Capture/Repair.antt =====
-- The one chance to repair an output: src/assistant_agent/agent/run/coordinator.py.
use assistant_agent.Base.{
  ◌≡◌, refl, sym, ap, ◌∙◌, ◌+◌, String, true, false, some, List, ◌==◌, arith, leb, Bool-cases,
  Option-cases, inl, inr, if◌then◌else◌, ◌∷◌, subst, le→leb,
}
use assistant_agent.Base.Result.{ok, err, value_error}
use assistant_agent.Run.State.{RunStatus, RunPhase, Message, PendingOutputCaptureState, RunState}
use assistant_agent.Run.Consistency.{is_consistent}
use assistant_agent.Run.Coordinator.{Coordinator, checkpoint}
use assistant_agent.Run.Capture.{fail_pending, output_validation_failed, fail_if_pending}

-- What the first failure leaves before it is saved.
abbrev pub repairing : PendingOutputCaptureState → List Message → RunState → RunState
repairing p messages s = record s {
  pending_output_capture = some (record p { validation_failures = p.validation_failures + 1 });
  messages = messages;
  status = RunStatus.running;
  phase = RunPhase.artifact_capture;
}

abbrev pub repaired : PendingOutputCaptureState → List Message → Coordinator → Coordinator
repaired p messages c = record c {
  state = repairing p messages c.state;
  saved = repairing p messages c.state ∷ c.saved;
}

fail_pending_lem :
    (p : PendingOutputCaptureState) (messages : List Message) (c : Coordinator)
    → (fail_pending p messages c).0 ≡ ok true
    → (is_consistent (repairing p messages c.state) ≡ true)
      × ((fail_pending p messages c).1 ≡ repaired p messages c)
unfolding fail_pending checkpoint
fail_pending_lem p messages c e = elim (Bool-cases (leb 1 p.validation_failures)) [
  | inl a ↦ ground (arith, a)
  | inr a ↦ elim (Bool-cases (is_consistent (repairing p messages c.state))) [
    | inl b ↦ elim (Bool-cases (c.accepts c.saved (repairing p messages c.state))) [
      | inl d ↦ (b, rw (fail_pending, a, b, d) refl)
      | inr d ↦ ground (arith, (rw (fail_pending, a, b, d) at e))
    ]
    | inr b ↦ ground (arith, (rw (fail_pending, a, b) at e))
  ]
]

failed-pending :
    (id : String) (messages : List Message) (c : Coordinator) (p : PendingOutputCaptureState)
    → c.state.pending_output_capture ≡ some p
    → (p.call_id == id) ≡ true
    → output_validation_failed id messages c ≡ fail_pending p messages c
unfolding output_validation_failed fail_if_pending
failed-pending id messages c p n k =
    ap (λ o. fail_if_pending id messages o c) n
    ∙ ap (λ b. if b then fail_pending p messages c else (err value_error, c)) k

-- What holds of the coordinator after a repair was allowed.
pub Repairable : String → List Message → Coordinator → Coordinator → Type 0
Repairable id later c c' =
    (is_consistent c'.state ≡ true)
    × ((c'.saved ≡ c'.state ∷ c.saved) × (output_validation_failed id later c' ≡ (ok false, c')))

repaired-Repairable :
    (id : String) (messages later : List Message) (c : Coordinator) (p : PendingOutputCaptureState)
    → (p.call_id == id) ≡ true
    → is_consistent (repairing p messages c.state) ≡ true
    → Repairable id later c (repaired p messages c)
unfolding Repairable fail_pending
repaired-Repairable id messages later c p k b = (
  b,
  (
    refl,
    failed-pending id later (repaired p messages c)
          (record p { validation_failures = p.validation_failures + 1 }) refl k
        ∙ rw (fail_pending, le→leb 1 (p.validation_failures + 1) (omega arith)) refl,
  ),
)

-- If a failed validation of a call's output is given a chance to repair it, that chance is in the
-- snapshot saved last, which is consistent; and the next failure of the call, with whatever
-- messages, is refused and changes nothing. So there is at most one repair.
pub output_validation_failed-output_validation_failed :
    (id : String) (messages later : List Message) (c : Coordinator)
    → (output_validation_failed id messages c).0 ≡ ok true
    → Repairable id later c (output_validation_failed id messages c).1
unfolding output_validation_failed fail_if_pending
output_validation_failed-output_validation_failed id messages later c e =
    elim (Option-cases c.state.pending_output_capture) [
      | inl n ↦ ground (arith, (rw (output_validation_failed, n) at e))
      | inr (p, n) ↦ elim (Bool-cases (p.call_id == id)) [
        | inl k ↦
            let same = failed-pending id messages c p n k in
            let (b, after) = fail_pending_lem p messages c (ap (λ y. y.0) (sym same) ∙ e) in
            subst (Repairable id later c) (sym (ap (λ y. y.1) same ∙ after))
              (repaired-Repairable id messages later c p k b)
        | inr k ↦ ground (arith, (rw (output_validation_failed, n, k) at e))
      ]
    ]
