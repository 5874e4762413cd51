-- ===== src/Run/Lifecycle/Resolved.antt =====
-- What a finished tool call with a known outcome leaves: `tool_completed`.
use Prim.Native.String.{◌++◌ as concat}
use assistant_agent.Base.{
  String, ◌≡◌, refl, true, false, some, List, [], ◌∷◌, ◌++◌, map, arith, is_some, if◌then◌else◌,
}
use assistant_agent.Base.Result.{◌>>◌}
use assistant_agent.ToolResult.{codes, ToolResult}
use assistant_agent.Permissions.Requests.{PermissionRequest, encode_request}
use assistant_agent.Run.State.{
  ReplayPolicy, RunItemKind, RunItemStatus, ToolCallState, RunState, Message,
}
use assistant_agent.Run.Consistency.{is_resolved, calls_fit, assistant_ids, result_ids}
use assistant_agent.Run.Items.{item_id_fits, upsert, upsert_item}
use assistant_agent.Run.Calls.{
  call_ids-update, result_fits-update_resolve, calls_answered-update_resolve, contains-find,
  assistant_ids-tool, result_ids-tool,
}
use assistant_agent.Run.Coordinator.{Coordinator, call-found, find_call, update_call}
use assistant_agent.Run.Lifecycle.{
  add_item, record_artifacts, resolved_state, settle, tool_completed, resolve_call,
}

-- Resolving a call and adding its result message keeps the batch fit.
pub calls_fit-resolve :
    (messages : List Message) (calls : List ToolCallState) (id name : String) (r : ToolResult)
    (found : ToolCallState)
    → find_call id calls ≡ some found
    → calls_fit messages calls ≡ true
    → calls_fit
        (messages ++ Message.tool id name r.output ∷ [])
        (update_call id (resolve_call r) calls)
      ≡ true
unfolding calls_fit
calls_fit-resolve messages calls id name r found e h =
    let f = resolve_call r in
    let keep : (c : ToolCallState) → (f c).id ≡ c.id = λ c. refl in
    let done : (c : ToolCallState) → is_resolved (f c).status ≡ true = λ c. ground arith in
    let has : (c : ToolCallState) → is_some (f c).result ≡ true = λ c. refl in
    rw
      (
        call_ids-update id f keep calls,
        assistant_ids-tool messages id name r.output,
        result_ids-tool messages id name r.output,
      )
      (ground (
        arith,
        contains-find id calls found,
        result_fits-update_resolve id f keep done has (λ c. refl) calls,
        calls_answered-update_resolve id f keep done has (λ c. refl) (assistant_ids messages)
            (result_ids messages) calls,
      ))

abbrev pub describe_call : List PermissionRequest → ReplayPolicy → ToolCallState → ToolCallState
describe_call requests policy c = record c {
  permission_requests = map encode_request requests;
  replay_policy = policy;
}

-- The state in which the result is recorded: the call has its requests and policy, and the timeline
-- its item.
unfoldable pub described_state :
    String → ToolResult → List PermissionRequest → ReplayPolicy → RunState → RunState
described_state id r requests policy s = record s {
  tool_calls = update_call id (describe_call requests policy) s.tool_calls;
  items =
      upsert s.run_id (concat "item_tool_" id) RunItemKind.tool
        (if r.is_error then RunItemStatus.failed else RunItemStatus.completed) (codes r.code)
        s.items;
}

pub tool_completed-settle :
    (c : Coordinator) (id : String) (r : ToolResult) (requests : List PermissionRequest)
    (policy : ReplayPolicy) (found : ToolCallState)
    → find_call id c.state.tool_calls ≡ some found
    → is_resolved found.status ≡ false
    → item_id_fits (concat "item_tool_" id) ≡ true
    → tool_completed id r requests policy c
      ≡ settle id found.name policy r
          (record c { state = described_state id r requests policy c.state })
unfolding tool_completed described_state upsert_item add_item
tool_completed-settle c id r requests policy found e u fits = rw (call-found id c found e, u, fits)

-- The state after a result with a known outcome, and the result as the recording left it.
recorded_result :
    String → ToolResult → List PermissionRequest → ReplayPolicy → RunState → ToolResult
recorded_result id r requests policy s =
    (record_artifacts id r (described_state id r requests policy s)).0

completed_state :
    String
    → ToolResult
    → List PermissionRequest
    → ReplayPolicy
    → ToolCallState
    → RunState
    → RunState
unfolding recorded_result
completed_state id r requests policy found s =
    resolved_state id found.name policy (recorded_result id r requests policy s)
      (record_artifacts id r (described_state id r requests policy s)).1
