-- ===== src/Registry/Execute.antt =====
-- The steps of `execute` in src/assistant_agent/tools/registry.py, from the last to the first.
use assistant_agent.Base.{
  String, Bool, true, false, not, ◌&&◌, ◌||◌, Option, none, some, List, [], ◌∷◌, ◌++◌, ◌==◌, all,
  find, map, contains, is_some, leb, if◌then◌else◌,
}
use assistant_agent.Base.Result.{Result, ok, err, value_error, pure, ◌>>=◌, ◌>>◌}
use assistant_agent.Budget.{Reason, ToolBudget, try_consume_call}
use assistant_agent.ToolResult.{Text, codes, ToolResult, error_result}
use assistant_agent.Run.State.{ReplayPolicy, safe_readonly, requires_decision}
use assistant_agent.Permissions.Requests.{Capability, same_capability, PermissionRequest}
use assistant_agent.Permissions.Policy.{is_at_or_below}
use assistant_agent.Permissions.Gate.{first_denied, asked, request_permissions}
use assistant_agent.Registry.{
  approval_pending, tool_started, tool_run, tool_completed, Tool, Funnel, Execution, Execute,
  record_argument_failure, clear_argument_failures, log_event, notify, limit_output, denied_result,
  budget_error, join_names,
}

module _ {Args : Type 0} (f : Funnel Args) where
  -- `_finish_denied`, `_finish_preflight_error` and the like, followed by `_notify_completed`.
  unfoldable pub finish : ToolResult → List PermissionRequest → ReplayPolicy → Execute ToolResult
  finish result requests policy = do
    limited ← limit_output f.max_output_chars result
    notify f.lifecycle (tool_completed limited requests policy)
    pure limited

  abbrev pub is_within_workspace : String → String → Bool
  is_within_workspace root target = elim (f.resolve_target target) [
    | none ↦ false
    | some t ↦ is_at_or_below f.host t root
  ]

  abbrev pub can_be_trusted : Capability → Bool
  can_be_trusted Capability.filesystem_read = true
  can_be_trusted Capability.process_execute = true
  can_be_trusted Capability.mcp_call = true
  can_be_trusted _ = false

  abbrev pub is_empty : List PermissionRequest → Bool
  is_empty [] = true
  is_empty (r ∷ rs) = false

  unfoldable pub replay_policy : Tool Args → Args → List PermissionRequest → String → ReplayPolicy
  replay_policy tool args requests root = elim (tool.declared_replay_policy args requests) [
    | some declared ↦ declared
    | none ↦
        if not (is_empty requests)
          && all
              (λ r.
                same_capability r.capability Capability.filesystem_read
                && is_within_workspace root r.target)
              requests
        then safe_readonly
        else if not (is_empty requests)
            && all (λ r. r.metadata.trusted_readonly && can_be_trusted r.capability) requests
        then safe_readonly
        else requires_decision
  ]

  -- `Tool.run` with its fallback.
  unfoldable pub run_tool : Tool Args → Args → Execute ToolResult
  run_tool tool args x = (
    ok (elim (tool.run args) [
      | some result ↦ result
      | none ↦ error_result (codes "工具执行异常。") "tool_exception" false true
    ]),
    log_event tool_run x,
  )

  unfoldable pub start :
      Tool Args → Args → List PermissionRequest → ReplayPolicy → Execute ToolResult
  start tool args requests policy = do
    notify f.lifecycle (tool_started requests policy)
    result ← run_tool tool args
    finish result requests policy

  -- The result of an exhausted budget is not limited.
  unfoldable pub refuse_budget :
      Reason → ToolBudget → List PermissionRequest → ReplayPolicy → Execute ToolResult
  refuse_budget reason b requests policy = do
    notify f.lifecycle (tool_completed (budget_error f.decimal reason b) requests policy)
    pure (budget_error f.decimal reason b)

  unfoldable pub charge :
      Tool Args → Args → List PermissionRequest → ReplayPolicy → Execute ToolResult
  charge tool args requests policy x = elim x.budget [
    | none ↦ start tool args requests policy x
    | some b ↦ elim (try_consume_call b).0 [
      | some reason ↦
          refuse_budget reason (try_consume_call b).1 requests policy
            (record x { budget = some (try_consume_call b).1 })
      | none ↦ start tool args requests policy (record x { budget = some (try_consume_call b).1 })
    ]
  ]

  unfoldable pub refuse : Text → String → List PermissionRequest → ReplayPolicy → Execute ToolResult
  refuse output code requests policy = finish (denied_result output code) requests policy

  -- Whether the gate will reach a prompt, where `before_prompt` runs.
  unfoldable pub will_prompt : List PermissionRequest → Execution → Bool
  will_prompt requests x =
      not (is_some (first_denied f.host x.ctx requests))
      && (not (is_empty (asked f.host x.ctx requests)) && x.ctx.interactive)

  unfoldable pub announce : List PermissionRequest → ReplayPolicy → Execute Unit
  announce requests policy x =
      if will_prompt requests x
      then notify f.lifecycle (approval_pending requests policy) x
      else (ok tt, x)

  unfoldable pub open_gate : List PermissionRequest → Execute Bool
  open_gate requests x =
      let (permitted, ctx) = request_permissions f.host f.prompts f.request_id requests x.ctx in
      (ok permitted, record x { ctx = ctx })

  unfoldable pub pass_gate :
      Tool Args → Args → List PermissionRequest → ReplayPolicy → Bool → Execute ToolResult
  pass_gate tool args requests policy true = charge tool args requests policy
  pass_gate tool args requests policy false =
      refuse (codes "[permission_denied] 权限拒绝：工具动作未获授权") "permission_denied" requests policy

  unfoldable pub permit :
      Tool Args → Args → List PermissionRequest → ReplayPolicy → Execute ToolResult
  permit tool args requests policy = do
    announce requests policy
    permitted ← open_gate requests
    pass_gate tool args requests policy permitted

  -- The observers in order: the first reason, if there is one; `none` where one raises.
  unfoldable pub observe :
      List (String → Args → List PermissionRequest → Option Text)
      → String
      → Args
      → List PermissionRequest
      → Option Text
  observe [] name args requests = some []
  observe (o ∷ os) name args requests =
      let rest = observe os name args requests in
      elim (o name args requests) [ none ↦ none | some [] ↦ rest | some (c ∷ cs) ↦ some (c ∷ cs) ]

  unfoldable pub caught : Result ToolResult × Execution → Result ToolResult × Execution
  caught (ok r, x) = (ok r, x)
  caught (err e, x) =
      refuse (codes "[permission_denied] 权限检查失败，已拒绝执行") "permission_check_failed" []
        requires_decision x

  -- The refusal by an observer stands within the `try` of the checks: where its completion raises,
  -- that is caught like a failure of the checks, and a second completion follows. A tool's
  -- `replay_policy` is taken not to raise.
  unfoldable pub refuse_observed : Text → List PermissionRequest → ReplayPolicy → Execute ToolResult
  refuse_observed reason requests policy x =
      caught
        (refuse (codes "[permission_denied] 权限拒绝：" ++ reason) "permission_denied" requests policy x)

  unfoldable pub check_observed : Tool Args → Args → List PermissionRequest → Execute ToolResult
  check_observed tool args requests x =
      elim (observe f.pre_tool_observers tool.name args requests) [
        | none ↦
            refuse (codes "[permission_denied] 权限检查失败，已拒绝执行") "permission_check_failed" []
              requires_decision x
        | some [] ↦
            permit tool args requests (replay_policy tool args requests x.ctx.workspace_root) x
        | some (c ∷ cs) ↦
            refuse_observed (c ∷ cs) requests
              (replay_policy tool args requests x.ctx.workspace_root) x
      ]

  unfoldable pub check : Tool Args → Args → Execute ToolResult
  check tool args = elim (tool.permission_requests args) [
    | none ↦
        refuse (codes "[permission_denied] 权限检查失败，已拒绝执行") "permission_check_failed" []
          requires_decision
    | some requests ↦ check_observed tool args requests
  ]

  abbrev pub exhausted_arguments : Text → ToolResult
  exhausted_arguments message = error_result message "tool_arguments_exhausted" false false

  -- Arguments that the schema refuses. Those of a managed output tool, and those that did not
  -- parse, are counted; the second failure blocks the tool.
  unfoldable pub invalid_arguments : Tool Args → Args → Text → Execute ToolResult
  invalid_arguments tool args message =
      if tool.name == "create_output" || f.is_parse_error args
      then (do
        failures ← record_argument_failure tool.name
        finish
            (if leb 2 failures
              then exhausted_arguments (
                  codes "[tool_arguments_exhausted] 连续参数校验失败，已熔断 "
                  ++ codes tool.name
                  ++ codes "。请停止重试该工具并给出简短文字结果。")
              else tool.argument_validation_error (codes "[tool_arguments_invalid] " ++ message))
            [] requires_decision)
      else finish (tool.argument_validation_error (codes "[tool_arguments_invalid] " ++ message)) []
          requires_decision

  unfoldable pub validate : Tool Args → Args → Execute ToolResult
  validate tool args = elim (tool.validation_error args) [
    | some message ↦ invalid_arguments tool args message
    | none ↦ do clear_argument_failures tool.name; check tool args
  ]

  unfoldable pub call_tool : Tool Args → Args → Execute ToolResult
  call_tool tool args x =
      if contains x.blocked_argument_tools tool.name
      then finish
          (exhausted_arguments (
            codes "[tool_arguments_exhausted] "
            ++ codes tool.name
            ++ codes " 连续参数错误，当前 Run 已熔断该工具。请停止重复调用，改为简短文字说明失败原因。"))
          [] requires_decision x
      else validate tool args x

  unfoldable pub execute : String → Args → String → Execute ToolResult
  execute name args call_id x =
      if is_some f.lifecycle && call_id == ""
      then (err value_error, x)
      else elim (find (λ t. t.name == name) f.tools) [
        | none ↦
            finish
              (error_result
                (codes "未知工具："
                  ++ codes name
                  ++ codes "。可用工具："
                  ++ join_names (map (λ t. t.name) f.tools))
                "unknown_tool" true false)
              [] requires_decision x
        | some tool ↦ call_tool tool args x
      ]
