-- ===== src/Run/Ending/Terminal.antt =====
-- How a run ends: `terminal` and `cancel` always leave a consistent terminal checkpoint, and what a
-- failed run offers after side effects.
use mathlib.Core.Option.{some-injective}
use assistant_agent.Base.{
  ℕ, ◌+◌, ◌≤◌, ◌≡◌, ◌∙◌, refl, Bool, true, false, not, ◌||◌, Option, none, some, List, [], ◌∷◌,
  ◌++◌, arith, is_some, length, if◌then◌else◌, sym, subst,
}
use assistant_agent.Base.Result.{ok, ◌>>◌}
use assistant_agent.ToolResult.{Text, codes}
use assistant_agent.Run.State.{
  RunStatus, RunPhase, RetrySafety, RunItemKind, RunItemStatus, AllowedAction,
  FailureTerminalStatus, RunFailure, Message, RunState, RunItem,
}
use assistant_agent.Run.Consistency.{
  is_consistent, Parts-of, is_consistent_of, control_fits, calls_fit, failure_fits, timeline_fits,
  timeline_bounded, max_items, is_terminal, capture_fits,
}
use assistant_agent.Run.Items.{upsert, timeline_fits-upsert, length-upsert}
use assistant_agent.Run.Coordinator.{Coordinator, capture_bound_context, checkpoint}
use assistant_agent.Run.Ready.{IsSound, captured, is_consistent-captured, boundary_lem}
use assistant_agent.Run.Ending.{
  is_retry, without_retry, has_action, or_start, with_resolve, is_safe, guard_failure,
  given_failure, internal_failure, final_status, terminal,
}

-- The timeline closed by two items.
closed_items : (status : RunItemStatus) (text word : Text) (s : RunState) → List RunItem
closed_items status text word s =
    upsert s.run_id "item_terminal" RunItemKind.terminal status word
      (upsert s.run_id "item_final" RunItemKind.assistant status text s.items)

closed_items-fit :
    (status : RunItemStatus) (text word : Text) (s : RunState)
    → timeline_fits s.run_id s.items ≡ true
    → length s.items + 2 ≤ max_items
    → (timeline_fits s.run_id (closed_items status text word s) ≡ true)
      × (timeline_bounded (closed_items status text word s) ≡ true)
unfolding closed_items timeline_bounded
closed_items-fit status text word s h room =
    let first = upsert s.run_id "item_final" RunItemKind.assistant status text s.items in
    (
      timeline_fits-upsert s.run_id "item_terminal" _ _ _ first
          (timeline_fits-upsert s.run_id "item_final" RunItemKind.assistant status text s.items h),
      ground (
        arith,
        length-upsert s.run_id "item_terminal" RunItemKind.terminal status word first,
        length-upsert s.run_id "item_final" RunItemKind.assistant status text s.items,
      ),
    )

-- The state of an ended run, from its final status and failure.
ended_state :
    RunStatus
    → RunItemStatus
    → Text
    → Text
    → List Message
    → Option (Text × ℕ)
    → Option RunFailure
    → RunState
    → RunState
ended_state status item text word messages compaction failure s = record s {
  items = closed_items item text word s;
  messages = messages;
  pending_output_capture = none;
  compaction_checkpoint = compaction;
  tool_calls = [];
  status = status;
  phase = RunPhase.terminal;
  terminal_text = text;
  failure = failure;
  session_synced = not (is_some s.session_id);
}

no_calls_fit : (messages : List Message) → calls_fit messages [] ≡ true
unfolding calls_fit
no_calls_fit messages = refl

control_fits-ended :
    (status : RunStatus) (failure : Option RunFailure)
    → is_terminal status ≡ true
    → failure_fits status failure ≡ true
    → control_fits status RunPhase.terminal [] none failure ≡ true
unfolding control_fits
control_fits-ended status failure t f = ground arith

is_consistent-ended :
    (status : RunStatus) (item : RunItemStatus) (text word : Text) (messages : List Message)
    (compaction : Option (Text × ℕ)) (failure : Option RunFailure) (s : RunState)
    → is_consistent s ≡ true
    → length s.items + 2 ≤ max_items
    → is_terminal status ≡ true
    → failure_fits status failure ≡ true
    → is_consistent (ended_state status item text word messages compaction failure s) ≡ true
unfolding ended_state capture_fits
is_consistent-ended status item text word messages compaction failure s h room t f =
    let p = Parts-of s h in
    is_consistent_of _ (record {
      control = control_fits-ended status failure t f;
      budgets = p.budgets;
      signature = p.signature;
      calls = no_calls_fit messages;
      presentations = p.presentations;
      outputs = p.outputs;
      timeline = (closed_items-fit item text word s p.timeline room).0;
      bounded = (closed_items-fit item text word s p.timeline room).1;
      capture = refl;
      decisions = p.decisions;
      retries = p.retries;
    })

-- The failure that a run ends with.
ended_failure : Bool → Option RunFailure → RetrySafety → Option RunFailure
ended_failure success failure risk =
    if success then none else some (guard_failure risk (given_failure failure))

abbrev item_status : Bool → RunItemStatus
item_status success = if success then RunItemStatus.completed else RunItemStatus.failed

abbrev item_word : Bool → Text
item_word success = if success then codes "completed" else codes "failed"

after_terminal :
    Bool → Text → List Message → Option (Text × ℕ) → Option RunFailure → RunState → RunState
after_terminal success text messages compaction failure s =
    ended_state (final_status success) (item_status success) text (item_word success) messages
      compaction (ended_failure success failure s.retry_safety) s

terminal-boundary :
    (success : Bool) (text : Text) (messages : List Message) (compaction : Option (Text × ℕ))
    (failure : Option RunFailure) (c : Coordinator)
    → terminal success text messages compaction failure c
      ≡ (capture_bound_context >> checkpoint)
          (record c { state = after_terminal success text messages compaction failure c.state })
unfolding terminal after_terminal ended_state closed_items ended_failure
terminal-boundary true text messages compaction failure c = refl
terminal-boundary false text messages compaction failure c = refl

-- The failure that `terminal` is given marks a failed run; without one the default does.
abbrev pub MarksFailed : Option RunFailure → Type 0
MarksFailed none = Unit
MarksFailed (some f) = f.terminal_status ≡ some FailureTerminalStatus.failed

failure_fits-ended :
    (success : Bool) (failure : Option RunFailure) (risk : RetrySafety)
    → MarksFailed failure
    → failure_fits (final_status success) (ended_failure success failure risk) ≡ true
unfolding ended_failure guard_failure internal_failure
failure_fits-ended true failure risk m = refl
failure_fits-ended false none RetrySafety.safe m = refl
failure_fits-ended false none _ m = refl
failure_fits-ended false (some f) RetrySafety.safe m = rw m
failure_fits-ended false (some f) _ m = rw m

no_retry : (actions : List AllowedAction) → has_action is_retry (without_retry actions) ≡ false
no_retry [] = refl
no_retry (a ∷ actions) = ground (arith, no_retry actions)

has_action-append :
    (p : AllowedAction → Bool) (xs ys : List AllowedAction)
    → has_action p (xs ++ ys) ≡ (has_action p xs || has_action p ys)
has_action-append p [] ys = refl
has_action-append p (x ∷ xs) ys = ground (arith, has_action-append p xs ys)

or_start-no_retry :
    (actions : List AllowedAction)
    → has_action is_retry actions ≡ false
    → has_action is_retry (or_start actions) ≡ false
or_start-no_retry [] h = refl
or_start-no_retry (a ∷ actions) h = h

with_resolve-no_retry :
    (actions : List AllowedAction)
    → has_action is_retry actions ≡ false
    → has_action is_retry (with_resolve actions) ≡ false
with_resolve-no_retry actions h =
    ground (arith, has_action-append is_retry actions (AllowedAction.resolve_uncertain_tool ∷ []))

guard_failure-no_retry :
    (risk : RetrySafety) (f : RunFailure)
    → is_safe risk ≡ false
    → ((guard_failure risk f).retryable ≡ false)
      × (has_action is_retry (guard_failure risk f).allowed_actions ≡ false)
unfolding guard_failure
guard_failure-no_retry RetrySafety.safe f h = cc
guard_failure-no_retry RetrySafety.uncertain f h =
    let kept = without_retry f.allowed_actions in
    (
      refl,
      or_start-no_retry (with_resolve kept)
          (with_resolve-no_retry kept (no_retry f.allowed_actions)),
    )
guard_failure-no_retry _ f h =
    let kept = without_retry f.allowed_actions in
    (refl, or_start-no_retry kept (no_retry f.allowed_actions))

ended_terminal : (success : Bool) → is_terminal (final_status success) ≡ true
ended_terminal true = refl
ended_terminal false = refl

ended_some :
    (success : Bool) (failure : Option RunFailure) (risk : RetrySafety)
    → is_some (ended_failure success failure risk) ≡ not success
unfolding ended_failure
ended_some true failure risk = refl
ended_some false failure risk = refl

ended_guarded :
    (success : Bool) (failure : Option RunFailure) (risk : RetrySafety) (f : RunFailure)
    → is_safe risk ≡ false
    → ended_failure success failure risk ≡ some f
    → (f.retryable ≡ false) × (has_action is_retry f.allowed_actions ≡ false)
unfolding ended_failure
ended_guarded true failure risk f risky e = cc
ended_guarded false failure risk f risky e =
    subst (λ g. (g.retryable ≡ false) × (has_action is_retry g.allowed_actions ≡ false))
      (some-injective (guard_failure risk (given_failure failure)) f e)
      (guard_failure-no_retry risk (given_failure failure) risky)

ended-captured :
    (c : Coordinator)
    → ((captured c).status ≡ c.state.status)
      × ((captured c).tool_calls ≡ c.state.tool_calls)
      × ((captured c).pending_output_capture ≡ c.state.pending_output_capture)
      × ((captured c).session_synced ≡ c.state.session_synced)
      × ((captured c).failure ≡ c.state.failure)
ended-captured c = (ground arith, ground arith, ground arith, ground arith, ground arith)

-- From a consistent run with a budget within limits, an accepting store and room for two items, and
-- given no failure or one that marks the run failed, `terminal` succeeds whatever the phase was:
-- the snapshot saved last is consistent and terminal, has no tool call and no pending capture,
-- counts as synced exactly if the run has no session, has a failure exactly if it did not succeed,
-- and after side effects that are not safe that failure is not retryable and does not offer a
-- retry.
pub terminal_lem :
    (success : Bool) (text : Text) (messages : List Message) (compaction : Option (Text × ℕ))
    (failure : Option RunFailure) (c : Coordinator)
    → IsSound c
    → is_consistent c.state ≡ true
    → length c.state.items + 2 ≤ max_items
    → MarksFailed failure
    → (after : RunState) × (terminal success text messages compaction failure c
        ≡ (ok tt, record c { state = after; saved = after ∷ c.saved }))
      × (is_consistent after ≡ true)
      × (is_terminal after.status ≡ true)
      × (after.tool_calls ≡ [])
      × (after.pending_output_capture ≡ none)
      × (after.session_synced ≡ not (is_some c.state.session_id))
      × (is_some after.failure ≡ not success)
      × (is_safe c.state.retry_safety ≡ false
          → (f : RunFailure) → after.failure ≡ some f
          → (f.retryable ≡ false) × (has_action is_retry f.allowed_actions ≡ false))
unfolding after_terminal ended_state ended_failure
terminal_lem success text messages compaction failure c sound h room m =
    let next : Coordinator = record c {
      state = after_terminal success text messages compaction failure c.state;
    } in
    let next_sound : IsSound next = record {
      within = sound.within;
      calls_covered = sound.calls_covered;
      output_covered = sound.output_covered;
      accepting = sound.accepting;
    } in
    let ok_state : is_consistent next.state ≡ true =
      is_consistent-ended (final_status success) (item_status success) text (item_word success)
        messages compaction _ c.state h room (ended_terminal success)
        (failure_fits-ended success failure c.state.retry_safety m) in
    let fields = ended-captured next in
    (
      captured next,
      terminal-boundary success text messages compaction failure c
          ∙ boundary_lem next next_sound ok_state,
      is_consistent-captured next next_sound ok_state,
      rw fields.0 (ended_terminal success),
      fields.1,
      fields.2,
      fields.3,
      rw fields.4 (ended_some success failure c.state.retry_safety),
      λ risky f e. ended_guarded success failure c.state.retry_safety f risky (sym fields.4 ∙ e),
    )
