-- ===== src/Run/Lifecycle/Unknown.antt =====
-- What a tool call with an unknown outcome leaves: `tool_completed`.
use Prim.Native.String.{◌++◌ as concat}
use assistant_agent.Run.Failures.{tool_failure}
use assistant_agent.Base.{
  ◌<◌, String, ◌≡◌, ◌∙◌, refl, ap, map, true, false, Option, none, some, List, [], ◌∷◌, length,
  eq_iff, arith,
}
use assistant_agent.Base.Result.{ok, pure, ◌>>◌}
use assistant_agent.ToolResult.{ToolResult}
use assistant_agent.Permissions.Requests.{PermissionRequest, encode_request}
use assistant_agent.Run.State.{
  RunStatus, RunPhase, ReplayPolicy, ToolCallState, RunState, PendingOutputCaptureState, RunFailure,
  ToolCallStatus, RetrySafety, resolve_uncertain_tool, stop,
}
use assistant_agent.Run.Consistency.{
  is_consistent, Parts-of, is_consistent_of, is_resolved, control_fits, max_items, failure_fits,
  result_fits,
}
use assistant_agent.Run.Items.{item_id_fits, timeline_fits-upsert, timeline_bounded-upsert}
use assistant_agent.Run.Calls.{find_call-update}
use assistant_agent.Run.Coordinator.{
  Coordinator, capture_bound_context, checkpoint, find_call, update_call,
}
use assistant_agent.Run.Ready.{
  IsSound, captured, tool_calls-captured, is_consistent-captured, boundary_lem, messages-captured,
  retry_safety-captured, control-captured, pure_after,
}
use assistant_agent.Run.Lifecycle.{
  unknown_state, settle, tool_completed, after_unknown, forget_result,
}
use assistant_agent.Run.Lifecycle.Begun.{calls_fit-open}
use assistant_agent.Run.Lifecycle.Resolved.{describe_call, described_state, tool_completed-settle}

paused_state : String → ToolResult → List PermissionRequest → ReplayPolicy → RunState → RunState
paused_state id r requests policy s =
    unknown_state id r.code (described_state id r requests policy s)

settle-unknown :
    (c : Coordinator) (id : String) (r : ToolResult) (requests : List PermissionRequest)
    (policy : ReplayPolicy) (found : ToolCallState)
    → r.code ≡ "mcp_outcome_unknown"
    → settle id found.name policy r
        (record c { state = described_state id r requests policy c.state })
      ≡ (do capture_bound_context; checkpoint; pure r)
          (record c { state = paused_state id r requests policy c.state })
unfolding settle paused_state
settle-unknown c id r requests policy found code = rw ((eq_iff r.code "mcp_outcome_unknown").1 code)

unknown_failure :
    (code : String)
    → code ≡ "mcp_outcome_unknown"
    → (tool_failure code false).unknown_side_effect ≡ true
unfolding tool_failure
unknown_failure code e = rw e

not_retryable :
    (code : String) → code ≡ "mcp_outcome_unknown" → (tool_failure code false).retryable ≡ false
unfolding tool_failure
not_retryable code e = rw e

unknown_actions :
    (code : String)
    → code ≡ "mcp_outcome_unknown"
    → (tool_failure code false).allowed_actions ≡ resolve_uncertain_tool ∷ stop ∷ []
unfolding tool_failure
unknown_actions code e = rw e refl

after_unknown_other : (x : RetrySafety) → ¬ (x ≡ RetrySafety.safe) → after_unknown x ≡ x
after_unknown_other RetrySafety.safe other = absurd (other refl)
after_unknown_other RetrySafety.uncertain other = refl
after_unknown_other RetrySafety.unsafe other = refl
after_unknown_other RetrySafety.unknown other = refl

failure_fits-unknown :
    (code : String)
    → code ≡ "mcp_outcome_unknown"
    → failure_fits RunStatus.paused (some (tool_failure code false)) ≡ true
unfolding tool_failure
failure_fits-unknown code e = rw e

pub control_fits-paused :
    (calls : List ToolCallState) (pending : Option PendingOutputCaptureState)
    (failure : Option RunFailure)
    → pending ≡ none
    → failure_fits RunStatus.paused failure ≡ true
    → control_fits RunStatus.paused RunPhase.tool_uncertain calls pending failure ≡ true
unfolding control_fits
control_fits-paused calls pending failure p f = rw p f

is_consistent-paused :
    (s : RunState) (id : String) (r : ToolResult) (requests : List PermissionRequest)
    (policy : ReplayPolicy) (found : ToolCallState)
    → is_consistent s ≡ true
    → find_call id s.tool_calls ≡ some found
    → is_resolved found.status ≡ false
    → length s.items < max_items
    → s.pending_output_capture ≡ none
    → r.code ≡ "mcp_outcome_unknown"
    → is_consistent (paused_state id r requests policy s) ≡ true
unfolding paused_state unknown_state described_state result_fits
is_consistent-paused s id r requests policy found h e u room free code =
    let p = Parts-of s h in
    let meta = describe_call requests policy in
    let described : RunState = described_state id r requests policy s in
    is_consistent_of _ (record {
      control =
          control_fits-paused _ s.pending_output_capture _ free (failure_fits-unknown r.code code);
      budgets = p.budgets;
      signature = p.signature;
      calls =
          calls_fit-open described id forget_result (meta found) (λ x. refl) (λ x v. refl)
            (λ x v k. ground arith) (find_call-update id meta s.tool_calls found (λ x. refl) e) u
            (calls_fit-open s id meta found (λ x. refl) (λ x v. v) (λ x v k. k) e u p.calls);
      presentations = p.presentations;
      outputs = p.outputs;
      timeline = timeline_fits-upsert s.run_id _ _ _ _ s.items p.timeline;
      bounded = timeline_bounded-upsert s.run_id _ _ _ _ s.items room;
      capture = p.capture;
      decisions = p.decisions;
      retries = p.retries;
    })

-- From a consistent run with an unresolved call, a budget within limits, an accepting store, room
-- for an item, an id short enough for that item and no output capture pending, a result whose
-- outcome is unknown leaves a consistent
-- saved snapshot in which the run is paused, the call is `started` and has no result, no message is
-- added, a safe retry has become uncertain while any other safety is as it was, and the failure
-- offers to resolve the uncertain tool or to stop, and is not retryable.
pub tool_completed_unknown :
    (c : Coordinator) (id : String) (r : ToolResult) (requests : List PermissionRequest)
    (policy : ReplayPolicy) (found : ToolCallState)
    → IsSound c
    → is_consistent c.state ≡ true
    → find_call id c.state.tool_calls ≡ some found
    → is_resolved found.status ≡ false
    → length c.state.items < max_items
    → c.state.pending_output_capture ≡ none
    → r.code ≡ "mcp_outcome_unknown"
    → item_id_fits (concat "item_tool_" id) ≡ true
    → (after : RunState) × (failure : RunFailure) × (tool_completed id r requests policy c
        ≡ (ok r, record c { state = after; saved = after ∷ c.saved }))
      × (is_consistent after ≡ true)
      × (after.status ≡ RunStatus.paused)
      × (after.failure ≡ some failure)
      × (failure.unknown_side_effect ≡ true)
      × (failure.retryable ≡ false)
      × (failure.allowed_actions ≡ resolve_uncertain_tool ∷ stop ∷ [])
      × (find_call id after.tool_calls
          ≡ some (record found {
            status = ToolCallStatus.started;
            result = none;
            permission_requests = map encode_request requests;
            replay_policy = policy;
          }))
      × (after.messages ≡ c.state.messages)
      × (c.state.retry_safety ≡ RetrySafety.safe → after.retry_safety ≡ RetrySafety.uncertain)
      × (¬ (c.state.retry_safety ≡ RetrySafety.safe) → after.retry_safety ≡ c.state.retry_safety)
unfolding paused_state unknown_state described_state
tool_completed_unknown c id r requests policy found sound h e u room free code short =
    let s = c.state in
    let next : Coordinator = record c { state = paused_state id r requests policy s } in
    let next_sound : IsSound next = record {
      within = sound.within;
      calls_covered = sound.calls_covered;
      output_covered = sound.output_covered;
      accepting = sound.accepting;
    } in
    let ok_state : is_consistent next.state ≡ true =
      is_consistent-paused s id r requests policy found h e u room free code in
    let meta = describe_call requests policy in
    (
      captured next,
      tool_failure r.code false,
      tool_completed-settle c id r requests policy found e u short
          ∙ settle-unknown c id r requests policy found code
          ∙ pure_after next r (boundary_lem next next_sound ok_state),
      is_consistent-captured next next_sound ok_state,
      (control-captured next).0,
      (control-captured next).2,
      unknown_failure r.code code,
      not_retryable r.code code,
      unknown_actions r.code code,
      rw (tool_calls-captured next) (
          find_call-update id forget_result (update_call id meta s.tool_calls) (meta found)
            (λ x. refl) (find_call-update id meta s.tool_calls found (λ x. refl) e)),
      messages-captured next,
      λ safe. retry_safety-captured next ∙ ap after_unknown safe,
      λ other. retry_safety-captured next ∙ after_unknown_other s.retry_safety other,
    )
