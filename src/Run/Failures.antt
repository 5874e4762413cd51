-- ===== src/Run/Failures.antt =====
-- The classification of internal errors as public failures: agent/run/failures.py of
-- src/assistant_agent.
use assistant_agent.Base.{
  ℕ, String, Bool, true, false, ◌||◌, Option, none, some, List, [], ◌∷◌, ◌==◌, if◌then◌else◌,
}
use assistant_agent.ToolResult.{Text, codes}
use assistant_agent.Run.State.{
  BudgetResource, AllowedAction, stop, retry_run, start_new_run, adjust_configuration,
  inspect_dependency, resolve_uncertain_tool, FailureCode, FailureTerminalStatus, RunFailure,
}

failure : FailureCode → Text → Bool → List AllowedAction → Option FailureTerminalStatus → RunFailure
failure code message retryable actions status = record {
  code = code;
  safe_message = message;
  retryable = retryable;
  allowed_actions = actions;
  resource = none;
  used = none;
  limit = none;
  terminal_status = status;
  unknown_side_effect = false;
}

budget_code : BudgetResource → FailureCode
budget_code BudgetResource.iterations = FailureCode.iteration_limit_reached
budget_code BudgetResource.tool_calls = FailureCode.tool_call_budget_exhausted
budget_code BudgetResource.tool_output = FailureCode.tool_output_budget_exhausted
budget_code BudgetResource.context = FailureCode.context_limit_exceeded

budget_message : BudgetResource → Text
budget_message BudgetResource.iterations = codes "任务已达到迭代上限。"
budget_message BudgetResource.tool_calls = codes "任务工具调用预算已耗尽。"
budget_message BudgetResource.tool_output = codes "任务工具输出预算已耗尽。"
budget_message BudgetResource.context = codes "任务上下文超过模型可用窗口。"

is_retryable_resource : BudgetResource → Bool
is_retryable_resource BudgetResource.context = false
is_retryable_resource _ = true

unfoldable pub budget_failure : BudgetResource → ℕ → ℕ → RunFailure
unfolding failure budget_code budget_message is_retryable_resource
budget_failure resource used limit =
    record (failure (budget_code resource) (budget_message resource)
      (is_retryable_resource resource) (retry_run ∷ adjust_configuration ∷ start_new_run ∷ [])
      (some FailureTerminalStatus.failed)) {
        resource = some resource;
        used = some used;
        limit = some limit;
      }

-- An unknown outcome is never retryable, pauses the run, and is marked as an unknown side effect.
unfoldable pub tool_failure : String → Bool → RunFailure
unfolding failure
tool_failure code retryable =
    if code == "permission_denied" || code == "permission_check_failed"
    then failure FailureCode.permission_denied (codes "工具操作未获授权。") false (stop ∷ []) none
    else if code == "mcp_transport_error" || code == "mcp_contract_error"
    then failure FailureCode.dependency_unavailable (codes "外部工具依赖当前不可用。") retryable
        (retry_run ∷ inspect_dependency ∷ stop ∷ []) none
    else if code == "mcp_outcome_unknown"
    then record (failure FailureCode.tool_failed (codes "工具执行结果未知，需要人工决定恢复方式。") false
        (resolve_uncertain_tool ∷ stop ∷ []) (some FailureTerminalStatus.paused)) {
          unknown_side_effect = true;
        }
    else failure FailureCode.tool_failed (codes "工具执行失败。") retryable (retry_run ∷ stop ∷ []) none

provider_code : String → FailureCode
provider_code code =
    if code == "provider_rate_limited"
    then FailureCode.provider_rate_limited
    else if code == "provider_unavailable"
    then FailureCode.provider_unavailable
    else if code == "provider_timeout"
    then FailureCode.provider_timeout
    else if code == "provider_empty_response"
    then FailureCode.provider_empty_response
    else if code == "provider_output_truncated"
    then FailureCode.provider_output_truncated
    else FailureCode.internal_error

unfoldable pub provider_failure : String → Text → Bool → RunFailure
unfolding failure provider_code
provider_failure code message retryable =
    failure (provider_code code) message retryable
      (if retryable then retry_run ∷ stop ∷ [] else adjust_configuration ∷ stop ∷ [])
      (some FailureTerminalStatus.failed)
