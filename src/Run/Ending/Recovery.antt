-- ===== src/Run/Ending/Recovery.antt =====
-- Recovery after a crash: `mark_uncertain_if_needed`, `retry` and `skip` on calls that a checkpoint
-- holds as `started`.
use assistant_agent.Base.{
  String, ◌≡◌, refl, ap, Bool-cases, Bool, true, false, ◌&&◌, ◌⊎◌, Option, none, some, List, [],
  ◌∷◌, arith, if◌then◌else◌, inl, inr,
}
use assistant_agent.Base.Result.{ok, pure, ◌>>=◌, ◌>>◌}
use assistant_agent.Run.State.{
  RunStatus, RunPhase, ToolCallStatus, RetrySafety, ToolCallState, Message, RunState,
  PendingOutputCaptureState, RunFailure, resolve_uncertain_tool, stop,
}
use assistant_agent.Run.Consistency.{
  is_consistent, Parts-of, is_consistent_of, control_fits, calls_fit, is_resolved, result_fits,
}
use assistant_agent.Run.Calls.{find_call-update}
use assistant_agent.Run.Failures.{tool_failure}
use assistant_agent.Run.Coordinator.{Coordinator, checkpoint, find_call, update_call, call-found}
use assistant_agent.Run.Lifecycle.Begun.{calls_fit-open}
use assistant_agent.Run.Lifecycle.Unknown.{control_fits-paused}
use assistant_agent.Run.Ending.{
  is_started, started_calls, after_crash, mark_uncertain_if_needed, is_safe, is_uncertain,
  is_replayable, others_replayable, retry,
}

-- The store takes every save.
abbrev pub Accepts : Coordinator → Type 0
Accepts c = (saved : List RunState) (s : RunState) → c.accepts saved s ≡ true

checkpoint_lem :
    (c : Coordinator)
    → Accepts c
    → is_consistent c.state ≡ true
    → checkpoint c ≡ (ok tt, record c { saved = c.state ∷ c.saved })
unfolding checkpoint
checkpoint_lem c a h = rw (h, a c.saved c.state)

started-unresolved : (s : ToolCallStatus) → is_started s ≡ true → is_resolved s ≡ false
started-unresolved s h = ground arith

-- A running run may have any calls and any capture in the phase of the tools.
control_fits-running :
    (calls : List ToolCallState) (pending : Option PendingOutputCaptureState)
    → control_fits RunStatus.running RunPhase.tools_pending calls pending none ≡ true
unfolding control_fits
control_fits-running calls pending = refl

resumed_state : List Message → List ToolCallState → RetrySafety → RunState → RunState
resumed_state messages calls risk s = record s {
  messages = messages;
  tool_calls = calls;
  retry_safety = risk;
  status = RunStatus.running;
  phase = RunPhase.tools_pending;
  failure = none;
}

is_consistent-resumed :
    (messages : List Message) (calls : List ToolCallState) (risk : RetrySafety) (s : RunState)
    → is_consistent s ≡ true
    → calls_fit messages calls ≡ true
    → is_consistent (resumed_state messages calls risk s) ≡ true
unfolding resumed_state
is_consistent-resumed messages calls risk s h k =
    let p = Parts-of s h in
    is_consistent_of _ (record {
      control = control_fits-running calls s.pending_output_capture;
      budgets = p.budgets;
      signature = p.signature;
      calls = k;
      presentations = p.presentations;
      outputs = p.outputs;
      timeline = p.timeline;
      bounded = p.bounded;
      capture = p.capture;
      decisions = p.decisions;
      retries = p.retries;
    })

is_uncertain-only : (x : RetrySafety) → is_uncertain x ≡ true → x ≡ RetrySafety.uncertain
is_uncertain-only RetrySafety.uncertain h = refl
is_uncertain-only RetrySafety.safe h = ground arith
is_uncertain-only RetrySafety.unsafe h = ground arith
is_uncertain-only RetrySafety.unknown h = ground arith

safe_after :
    (a b d : Bool) (x : RetrySafety)
    → is_safe (if a && b && d then RetrySafety.safe else x) ≡ true
    → (is_safe x ≡ true) ⊎ ((a ≡ true) × (b ≡ true) × (d ≡ true))
safe_after true true true x h = inr (refl, refl, refl)
safe_after true true false x h = inl h
safe_after true false d x h = inl h
safe_after false b d x h = inl h

safe_again :
    (x : RetrySafety) (b d : Bool)
    → is_safe (if is_uncertain x && b && d then RetrySafety.safe else x) ≡ true
    → (is_safe x ≡ true) ⊎ ((x ≡ RetrySafety.uncertain) × (b ≡ true) × (d ≡ true))
safe_again x b d h = elim (safe_after (is_uncertain x) b d x h) [
  | inl was ↦ inl was
  | inr (u, replayable, others) ↦ inr (is_uncertain-only x u, replayable, others)
]

abbrev pub replan : ToolCallState → ToolCallState
replan c = record c { status = ToolCallStatus.planned }

-- From a consistent state and an accepting store, the retry of a started call saves a consistent
-- running state in which the call is planned again and no failure is left. The run counts as safe
-- to retry after it only if it was so before, or if it was uncertain and this call and every other
-- started call may be replayed; so an unsafe run never becomes safe.
pub retry_lem :
    (c : Coordinator) (id : String) (found : ToolCallState)
    → Accepts c
    → is_consistent c.state ≡ true
    → find_call id c.state.tool_calls ≡ some found
    → is_started found.status ≡ true
    → (after : RunState) × (retry id c
        ≡ (ok tt, record c { state = after; saved = after ∷ c.saved }))
      × (is_consistent after ≡ true)
      × (find_call id after.tool_calls ≡ some (record found { status = ToolCallStatus.planned }))
      × (after.status ≡ RunStatus.running)
      × (after.failure ≡ none)
      × (is_safe after.retry_safety ≡ true
          → (is_safe c.state.retry_safety ≡ true)
            ⊎ ((c.state.retry_safety ≡ RetrySafety.uncertain)
                × (is_replayable found.replay_policy ≡ true)
                × (others_replayable id (update_call id replan c.state.tool_calls) ≡ true)))
unfolding retry resumed_state result_fits
retry_lem c id found a h e st =
    let s = c.state in
    let u = started-unresolved found.status st in
    let calls = update_call id replan s.tool_calls in
    let risk : RetrySafety =
      if is_uncertain s.retry_safety
        && is_replayable found.replay_policy
        && others_replayable id calls
      then RetrySafety.safe
      else s.retry_safety in
    let next : Coordinator = record c { state = resumed_state s.messages calls risk s } in
    let ok_state : is_consistent next.state ≡ true =
      is_consistent-resumed s.messages calls risk s h (
        calls_fit-open s id replan found (λ x. refl) (λ x v. refl) (λ x v k. ground arith) e u
          (Parts-of s h).calls) in
    (
      next.state,
      rw (call-found id c found e, st) (checkpoint_lem next a ok_state),
      ok_state,
      find_call-update id replan s.tool_calls found (λ x. refl) e,
      refl,
      refl,
      λ now.
          safe_again s.retry_safety (is_replayable found.replay_policy) (others_replayable id calls)
            now,
    )

pure-checkpoint :
    {A : Type 0} (c : Coordinator) (x : A) {d : Coordinator}
    → checkpoint c ≡ (ok tt, d)
    → (checkpoint >> pure x) c ≡ (ok x, d)
pure-checkpoint c x h = rw (h, ◌>>=◌)

uncertain_state : RunState → RunState
uncertain_state s = record s {
  retry_safety = after_crash s.retry_safety;
  status = RunStatus.paused;
  phase = RunPhase.tool_uncertain;
  failure = some (tool_failure "mcp_outcome_unknown" false);
}

is_consistent-uncertain :
    (s : RunState)
    → is_consistent s ≡ true
    → s.pending_output_capture ≡ none
    → is_consistent (uncertain_state s) ≡ true
unfolding uncertain_state tool_failure
is_consistent-uncertain s h free =
    let p = Parts-of s h in
    is_consistent_of _ (record {
      control = control_fits-paused s.tool_calls s.pending_output_capture _ free refl;
      budgets = p.budgets;
      signature = p.signature;
      calls = p.calls;
      presentations = p.presentations;
      outputs = p.outputs;
      timeline = p.timeline;
      bounded = p.bounded;
      capture = p.capture;
      decisions = p.decisions;
      retries = p.retries;
    })

-- The calls of a list that are `started`, all of them and in their order.
pub data StartedOf : List ToolCallState → List ToolCallState → Type 0 where
  no_calls : StartedOf [] []
  taken :
      (c : ToolCallState) (cs xs : List ToolCallState)
      → c.status ≡ ToolCallStatus.started
      → StartedOf cs xs
      → StartedOf (c ∷ cs) (c ∷ xs)
  passed :
      (c : ToolCallState) (cs xs : List ToolCallState)
      → ¬ (c.status ≡ ToolCallStatus.started)
      → StartedOf cs xs
      → StartedOf (c ∷ cs) xs

status-started : (s : ToolCallStatus) → is_started s ≡ true → s ≡ ToolCallStatus.started
status-started ToolCallStatus.started h = refl
status-started ToolCallStatus.planned h = ground arith
status-started ToolCallStatus.awaiting_approval h = ground arith
status-started ToolCallStatus.completed h = ground arith
status-started ToolCallStatus.failed h = ground arith
status-started ToolCallStatus.skipped h = ground arith

started_calls-StartedOf : (cs : List ToolCallState) → StartedOf cs (started_calls cs)
started_calls-StartedOf [] = no_calls
started_calls-StartedOf (c ∷ cs) = elim (Bool-cases (is_started c.status)) [
  | inl e ↦ rw e (taken c cs _ (status-started c.status e) (started_calls-StartedOf cs))
  | inr n ↦ rw n (passed c cs _ (λ k. ground (arith, ap is_started k)) (started_calls-StartedOf cs))
]

after_crash_other : (x : RetrySafety) → ¬ (x ≡ RetrySafety.safe) → after_crash x ≡ x
after_crash_other RetrySafety.safe other = absurd (other refl)
after_crash_other RetrySafety.uncertain other = refl
after_crash_other RetrySafety.unsafe other = refl
after_crash_other RetrySafety.unknown other = refl

-- After a crash, from a consistent state with no pending capture and an accepting store. If no call
-- of the checkpoint is `started`, nothing changes and none is returned. If one is, exactly the
-- started calls are returned, and a consistent state is saved in which the run is paused with a
-- failure that offers the resolution of the call and no retry, the calls are as they were, and a
-- retry that was safe is now uncertain, with any other safety as it was.
pub mark_uncertain_lem :
    (c : Coordinator)
    → Accepts c
    → is_consistent c.state ≡ true
    → c.state.pending_output_capture ≡ none
    → (xs : List ToolCallState) × (StartedOf c.state.tool_calls xs)
      × (xs ≡ [] → mark_uncertain_if_needed c ≡ (ok [], c))
      × ((x : ToolCallState) (rest : List ToolCallState)
          → xs ≡ x ∷ rest
          → (after : RunState) × (failure : RunFailure) × (mark_uncertain_if_needed c
              ≡ (ok xs, record c { state = after; saved = after ∷ c.saved }))
            × (is_consistent after ≡ true)
            × (after.status ≡ RunStatus.paused)
            × (after.failure ≡ some failure)
            × (failure.allowed_actions ≡ resolve_uncertain_tool ∷ stop ∷ [])
            × (failure.retryable ≡ false)
            × (after.tool_calls ≡ c.state.tool_calls)
            × (c.state.retry_safety ≡ RetrySafety.safe → after.retry_safety ≡ RetrySafety.uncertain)
            × (¬ (c.state.retry_safety ≡ RetrySafety.safe)
                → after.retry_safety ≡ c.state.retry_safety))
unfolding mark_uncertain_if_needed uncertain_state tool_failure
mark_uncertain_lem c a h free = (
  started_calls c.state.tool_calls,
  started_calls-StartedOf c.state.tool_calls,
  λ e. rw (e, mark_uncertain_if_needed),
  λ x rest e.
      let s = c.state in
      let next : Coordinator = record c { state = uncertain_state s } in
      let ok_state : is_consistent next.state ≡ true = is_consistent-uncertain s h free in
      (
        next.state,
        tool_failure "mcp_outcome_unknown" false,
        rw (e, mark_uncertain_if_needed)
            (pure-checkpoint next (x ∷ rest) (checkpoint_lem next a ok_state)),
        ok_state,
        refl,
        refl,
        refl,
        refl,
        refl,
        λ safe. ap after_crash safe,
        after_crash_other s.retry_safety,
      ),
)
