-- ===== src/Registry.antt =====
-- `ToolRegistry.execute` of src/assistant_agent/tools/registry.py, the funnel of every tool call,
-- with the counters of tools/context.py. A tool, its schema's validator and the observers are
-- ports, `none` where they raise. What a run does beyond its result, the log and the timing are
-- left out; `events` is what the lifecycle was told and the run, in order.
pub mod Output
pub mod Execute
pub mod Events
pub mod Completions
pub mod Order
pub mod Guards
pub mod Guarded
use assistant_agent.Base.{
  ℕ, ◌+◌, String, Bool, true, false, not, ◌&&◌, ◌||◌, Option, none, some, List, [], ◌∷◌, ◌++◌, ◌==◌,
  all, find, filter, contains, is_some, ltb, leb, if◌then◌else◌, map,
}
use assistant_agent.Base.Result.{
  Result, ok, err, Method, value_error, storage_error, pure, gets, modify, raise_if, ◌>>=◌, ◌>>◌,
}
use assistant_agent.Budget.{
  Reason, max_tool_calls, max_total_tool_output_chars, ToolBudget, try_consume_call,
}
use assistant_agent.ToolResult.{Text, codes, ToolResult, post_init, error_result}
use assistant_agent.Run.State.{ReplayPolicy, safe_readonly, requires_decision}
use assistant_agent.Permissions.Requests.{Capability, same_capability, PermissionRequest}
use assistant_agent.Permissions.Policy.{Host, is_at_or_below}
use assistant_agent.Permissions.Gate.{
  Prompts, ToolContext, first_denied, asked, request_permissions,
}
use assistant_agent.Registry.Output.{limit_result_output}

pub data Event : Type 0 where
  approval_pending tool_started : List PermissionRequest → ReplayPolicy → Event
  tool_run : Event
  tool_completed : ToolResult → List PermissionRequest → ReplayPolicy → Event

module _ (Args : Type 0) where
  pub record Tool : Type 0 where
    pub name : String
    pub validation_error : Args → Option Text
    pub argument_validation_error : Text → ToolResult
    pub permission_requests : Args → Option (List PermissionRequest)
    pub declared_replay_policy : Args → List PermissionRequest → Option ReplayPolicy
    pub run : Args → Option ToolResult

  -- The surroundings of a call. `lifecycle` says which checkpoints succeed.
  pub record Funnel : Type 0 where
    pub tools : List Tool
    pub pre_tool_observers : List (String → Args → List PermissionRequest → Option Text)
    pub lifecycle : Option (Event → Bool)
    pub host : Host
    pub resolve_target : String → Option String
    pub prompts : Prompts
    pub request_id : String
    pub max_output_chars : ℕ
    pub is_parse_error : Args → Bool
    pub decimal : ℕ → Text

pub record Execution : Type 0 where
  pub ctx : ToolContext
  pub budget : Option ToolBudget
  pub argument_failure_counts : List (String × ℕ)
  pub blocked_argument_tools : List String
  pub events : List Event

abbrev pub Execute : Type 0 → Type 0
Execute A = Method Execution A

abbrev pub failure_count : String → List (String × ℕ) → ℕ
failure_count name [] = 0
failure_count name ((n, k) ∷ rest) = if n == name then k else failure_count name rest

abbrev pub forget_failures : String → List (String × ℕ) → List (String × ℕ)
forget_failures name = filter (λ x. not (x.0 == name))

unfoldable pub record_argument_failure : String → Execute ℕ
record_argument_failure name x =
    let count = failure_count name x.argument_failure_counts + 1 in
    (
      ok count,
      record x {
        argument_failure_counts = (name, count) ∷ forget_failures name x.argument_failure_counts;
        blocked_argument_tools =
            if leb 2 count then name ∷ x.blocked_argument_tools else x.blocked_argument_tools;
      },
    )

unfoldable pub clear_argument_failures : String → Execute Unit
clear_argument_failures name = modify (λ x.
    if contains x.blocked_argument_tools name
    then x
    else record x { argument_failure_counts = forget_failures name x.argument_failure_counts })

abbrev pub log_event : Event → Execution → Execution
log_event e x = record x { events = x.events ++ e ∷ [] }

-- A call of the lifecycle, which raises where its checkpoint fails.
unfoldable pub notify : Option (Event → Bool) → Event → Execute Unit
notify none e x = (ok tt, x)
notify (some accepts) e x = if accepts e then (ok tt, log_event e x) else (err storage_error, x)

unfoldable pub limit_output : ℕ → ToolResult → Execute ToolResult
limit_output n result x =
    let (limited, (budget, cut)) = limit_result_output n result x.budget in
    (ok limited, record x { budget = budget })

abbrev pub denied_result : Text → String → ToolResult
denied_result output code = post_init (record {
  output = output;
  is_error = true;
  code = code;
  retryable = false;
  budget_exhausted = none;
  executed = false;
  chart = none;
  output_artifact = none;
  output_capture = none;
})

unfoldable pub budget_error : (ℕ → Text) → Reason → ToolBudget → ToolResult
budget_error decimal reason b = record (denied_result (message reason) "budget_exhausted") {
  retryable = true;
  budget_exhausted = some reason;
}
  where
    message : Reason → Text
    message Reason.max_tool_calls =
        codes "未执行工具：任务工具调用预算已耗尽（"
        ++ decimal b.used_calls
        ++ codes "/"
        ++ decimal b.max_calls
        ++ codes "）。请缩小任务范围或提高 agent.max_tool_calls。"
    message _ =
        codes "未执行工具：任务累计工具输出预算已耗尽（"
        ++ decimal b.used_output_chars
        ++ codes "/"
        ++ decimal b.max_total_output_chars
        ++ codes " 字符）。请缩小任务范围或提高 agent.max_total_tool_output_chars。"

abbrev pub join_names : List String → Text
join_names [] = []
join_names (n ∷ []) = codes n
join_names (n ∷ m ∷ rest) = codes n ++ codes ", " ++ join_names (m ∷ rest)
