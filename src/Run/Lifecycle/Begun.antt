-- ===== src/Run/Lifecycle/Begun.antt =====
-- What is on disk before a tool runs: the transitions `approval_pending` and `tool_started`.
use Prim.Native.String.{◌++◌ as concat}
use assistant_agent.Base.{
  ◌<◌, String, ◌≡◌, ◌∙◌, refl, true, false, Option, none, some, List, ◌∷◌, map, arith, is_some,
  length,
}
use assistant_agent.Base.Result.{ok, err, validation_error, ◌>>◌}
use assistant_agent.ToolResult.{codes}
use assistant_agent.Permissions.Requests.{PermissionRequest, encode_request}
use assistant_agent.Run.State.{
  RunPhase, ToolCallStatus, ReplayPolicy, RunItemKind, RunItemStatus, ToolCallState, RunState,
  RunItem, PendingOutputCaptureState,
}
use assistant_agent.Run.Consistency.{
  is_consistent, Parts-of, is_consistent_of, is_terminal_phase, is_resolved, control_fits,
  calls_fit, pending_fits, result_fits, assistant_ids, result_ids, timeline_fits, timeline_bounded,
  max_items,
}
use assistant_agent.Run.Items.{
  item_id_fits, upsert, upsert_item, timeline_fits-upsert, timeline_bounded-upsert,
}
use assistant_agent.Run.Calls.{
  call_ids-update, result_fits-update_open, calls_answered-update_open, all_resolved-find,
  find_call-update,
}
use assistant_agent.Run.Coordinator.{
  Coordinator, capture_bound_context, checkpoint, call-found, find_call, update_call, is_open,
}
use assistant_agent.Run.Ready.{
  IsSound, captured, tool_calls-captured, is_consistent-captured, boundary_lem, boundary_refused,
}
use assistant_agent.Run.Lifecycle.{add_item, approval_pending, tool_started}

-- A run with an unresolved call is not terminal, so its phase may become any other phase that suits
-- the pending capture.
pub control_fits-open :
    (s : RunState) (id : String) (found : ToolCallState) (phase : RunPhase)
    (calls : List ToolCallState) (pending : Option PendingOutputCaptureState)
    → find_call id s.tool_calls ≡ some found
    → is_resolved found.status ≡ false
    → pending_fits phase pending ≡ true
    → is_terminal_phase phase ≡ false
    → control_fits s.status s.phase s.tool_calls s.pending_output_capture s.failure ≡ true
    → control_fits s.status phase calls pending s.failure ≡ true
unfolding control_fits
control_fits-open s id found phase calls pending e u p t h =
    ground (arith, all_resolved-find id s.tool_calls found)

-- An update of a call that keeps it unresolved keeps the batch fit.
pub calls_fit-open :
    (s : RunState) (id : String) (f : ToolCallState → ToolCallState) (found : ToolCallState)
    → ((c : ToolCallState) → (f c).id ≡ c.id)
    → ((c : ToolCallState) → is_resolved c.status ≡ false → is_resolved (f c).status ≡ false)
    → ((c : ToolCallState)
        → is_resolved c.status ≡ false
        → result_fits c ≡ true
        → result_fits (f c) ≡ true)
    → find_call id s.tool_calls ≡ some found
    → is_resolved found.status ≡ false
    → calls_fit s.messages s.tool_calls ≡ true
    → calls_fit s.messages (update_call id f s.tool_calls) ≡ true
unfolding calls_fit
calls_fit-open s id f found keep open_ kept e u h =
    rw
      (
        call_ids-update id f keep s.tool_calls,
        calls_answered-update_open id f keep open_ kept (assistant_ids s.messages)
            (result_ids s.messages) s.tool_calls found e u,
      )
      (ground (arith, result_fits-update_open id f keep open_ kept s.tool_calls found))

-- Such an update, with one more item on the timeline, keeps the whole state consistent.
pub is_consistent-open :
    (s : RunState) (id : String) (f : ToolCallState → ToolCallState) (found : ToolCallState)
    (phase : RunPhase) (items : List RunItem)
    → ((c : ToolCallState) → (f c).id ≡ c.id)
    → ((c : ToolCallState) → is_resolved c.status ≡ false → is_resolved (f c).status ≡ false)
    → ((c : ToolCallState)
        → is_resolved c.status ≡ false
        → result_fits c ≡ true
        → result_fits (f c) ≡ true)
    → find_call id s.tool_calls ≡ some found
    → is_resolved found.status ≡ false
    → pending_fits phase s.pending_output_capture ≡ true
    → is_terminal_phase phase ≡ false
    → timeline_fits s.run_id items ≡ true
    → timeline_bounded items ≡ true
    → is_consistent s ≡ true
    → is_consistent
        (record s { tool_calls = update_call id f s.tool_calls; items = items; phase = phase })
      ≡ true
is_consistent-open s id f found phase items keep open_ kept e u p t fits bound h =
    let parts = Parts-of s h in
    is_consistent_of _ (record {
      control = control_fits-open s id found phase _ s.pending_output_capture e u p t parts.control;
      budgets = parts.budgets;
      signature = parts.signature;
      calls = calls_fit-open s id f found keep open_ kept e u parts.calls;
      presentations = parts.presentations;
      outputs = parts.outputs;
      timeline = fits;
      bounded = bound;
      capture = parts.capture;
      decisions = parts.decisions;
      retries = parts.retries;
    })

abbrev pub start_call : List PermissionRequest → ReplayPolicy → ToolCallState → ToolCallState
start_call requests policy c = record c {
  status = ToolCallStatus.started;
  permission_requests = map encode_request requests;
  replay_policy = policy;
}

started_state : String → List PermissionRequest → ReplayPolicy → ToolCallState → RunState → RunState
started_state id requests policy found s = record s {
  tool_calls = update_call id (start_call requests policy) s.tool_calls;
  items =
      upsert s.run_id (concat "item_tool_" id) RunItemKind.tool RunItemStatus.started
        (codes found.name) s.items;
  phase = RunPhase.tools_pending;
}

tool_started-boundary :
    (c : Coordinator) (id : String) (requests : List PermissionRequest) (policy : ReplayPolicy)
    (found : ToolCallState)
    → find_call id c.state.tool_calls ≡ some found
    → is_open found.status ≡ true
    → item_id_fits (concat "item_tool_" id) ≡ true
    → tool_started id requests policy c
      ≡ (capture_bound_context >> checkpoint)
          (record c { state = started_state id requests policy found c.state })
unfolding tool_started started_state upsert_item add_item
tool_started-boundary c id requests policy found e o fits = rw (call-found id c found e, o, fits)

is_open-unresolved : (s : ToolCallStatus) → is_open s ≡ true → is_resolved s ≡ false
is_open-unresolved s h = ground arith

-- From a consistent run whose budget is within limits, whose store accepts and which has room for
-- an item, starting a planned or approved call, whose id is short enough for the id of an item,
-- succeeds: before the tool can run, the newest snapshot of the store is a consistent state in
-- which the call is `started` with its requests and replay policy.
pub tool_started_lem :
    (c : Coordinator) (id : String) (requests : List PermissionRequest) (policy : ReplayPolicy)
    (found : ToolCallState)
    → IsSound c
    → is_consistent c.state ≡ true
    → length c.state.items < max_items
    → find_call id c.state.tool_calls ≡ some found
    → is_open found.status ≡ true
    → item_id_fits (concat "item_tool_" id) ≡ true
    → (after : RunState) × (tool_started id requests policy c
        ≡ (ok tt, record c { state = after; saved = after ∷ c.saved }))
      × (is_consistent after ≡ true)
      × (find_call id after.tool_calls ≡ some (start_call requests policy found))
unfolding started_state result_fits
tool_started_lem c id requests policy found sound h room e o fits =
    let s = c.state in
    let next : Coordinator = record c { state = started_state id requests policy found s } in
    let ok_state : is_consistent next.state ≡ true =
      is_consistent-open s id (start_call requests policy) found RunPhase.tools_pending
        next.state.items (λ x. refl) (λ x u. refl) (λ x u k. ground arith) e
        (is_open-unresolved found.status o) refl refl
        (timeline_fits-upsert s.run_id _ _ _ _ s.items (Parts-of s h).timeline)
        (timeline_bounded-upsert s.run_id _ _ _ _ s.items room) h in
    let next_sound : IsSound next = record {
      within = sound.within;
      calls_covered = sound.calls_covered;
      output_covered = sound.output_covered;
      accepting = sound.accepting;
    } in
    (
      captured next,
      tool_started-boundary c id requests policy found e o fits
          ∙ boundary_lem next next_sound ok_state,
      is_consistent-captured next next_sound ok_state,
      rw (tool_calls-captured next)
          (find_call-update id (start_call requests policy) s.tool_calls found (λ x. refl) e),
    )

abbrev pub await_call : List PermissionRequest → ReplayPolicy → ToolCallState → ToolCallState
await_call requests policy c = record c {
  status = ToolCallStatus.awaiting_approval;
  permission_requests = map encode_request requests;
  replay_policy = policy;
}

awaiting_state : String → List PermissionRequest → ReplayPolicy → RunState → RunState
awaiting_state id requests policy s = record s {
  tool_calls = update_call id (await_call requests policy) s.tool_calls;
  phase = RunPhase.awaiting_approval;
}

approval_pending-boundary :
    (c : Coordinator) (id : String) (requests : List PermissionRequest) (policy : ReplayPolicy)
    (found : ToolCallState)
    → find_call id c.state.tool_calls ≡ some found
    → is_open found.status ≡ true
    → approval_pending id requests policy c
      ≡ (capture_bound_context >> checkpoint)
          (record c { state = awaiting_state id requests policy c.state })
unfolding approval_pending awaiting_state
approval_pending-boundary c id requests policy found e o = rw (call-found id c found e, o)

control_fits-awaiting :
    (s : RunState) (calls : List ToolCallState)
    → is_some s.pending_output_capture ≡ true
    → control_fits s.status RunPhase.awaiting_approval calls s.pending_output_capture s.failure
      ≡ false
unfolding control_fits
control_fits-awaiting s calls taken = ground arith

-- From a consistent run whose budget is within limits and whose store accepts, asking for approval
-- of a planned or already awaiting call saves a consistent state in which the call awaits approval,
-- unless an output capture is pending: then the snapshot is refused, the request raises a
-- validation error and the store is as before.
pub approval_pending_lem :
    (c : Coordinator) (id : String) (requests : List PermissionRequest) (policy : ReplayPolicy)
    (found : ToolCallState)
    → IsSound c
    → is_consistent c.state ≡ true
    → find_call id c.state.tool_calls ≡ some found
    → is_open found.status ≡ true
    → (c.state.pending_output_capture ≡ none
        → (after : RunState) × (approval_pending id requests policy c
            ≡ (ok tt, record c { state = after; saved = after ∷ c.saved }))
          × (is_consistent after ≡ true)
          × (find_call id after.tool_calls ≡ some (await_call requests policy found)))
      × (is_some c.state.pending_output_capture ≡ true
          → ((approval_pending id requests policy c).0 ≡ err validation_error)
            × ((approval_pending id requests policy c).1.saved ≡ c.saved))
unfolding awaiting_state result_fits
approval_pending_lem c id requests policy found sound h e o =
    let s = c.state in
    let next : Coordinator = record c { state = awaiting_state id requests policy s } in
    let next_sound : IsSound next = record {
      within = sound.within;
      calls_covered = sound.calls_covered;
      output_covered = sound.output_covered;
      accepting = sound.accepting;
    } in
    let parts = Parts-of s h in
    (
      λ free.
          let ok_state : is_consistent next.state ≡ true =
            is_consistent-open s id (await_call requests policy) found RunPhase.awaiting_approval
              s.items (λ x. refl) (λ x u. refl) (λ x u k. ground arith) e
              (is_open-unresolved found.status o) (rw free) refl parts.timeline parts.bounded h in
          (
            captured next,
            approval_pending-boundary c id requests policy found e o
                ∙ boundary_lem next next_sound ok_state,
            is_consistent-captured next next_sound ok_state,
            rw (tool_calls-captured next)
                (find_call-update id (await_call requests policy) s.tool_calls found (λ x. refl) e),
          ),
      λ taken.
          rw
            (
              approval_pending-boundary c id requests policy found e o,
              boundary_refused next next_sound (control_fits-awaiting s _ taken),
            )
            (refl, refl),
    )
