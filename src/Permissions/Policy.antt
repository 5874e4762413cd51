-- ===== src/Permissions/Policy.antt =====
-- `PermissionPolicy` of src/assistant_agent/tools/policy.py. The file system and `fnmatch` are
-- given: `resolve` is `Path(x).expanduser().resolve()`, with `none` for the exceptions it catches,
-- and `parents` is `.parents`.
pub mod Precedence
use assistant_agent.Base.{
  String, Bool, true, false, not, ◌&&◌, ◌||◌, Option, none, some, List, ◌==◌, any, find, contains,
  filter, if◌then◌else◌,
}
use assistant_agent.Permissions.Requests.{
  Capability, same_capability, PermissionEffect, allow, ask, deny, PermissionMode, PermissionScope,
  PermissionRequest, PermissionRule, PermissionDecision, scope, same_scope, has_scope,
  public_web_runtime_scope,
}

pub record Host : Type 0 where
  pub resolve : String → Option String
  pub parents : String → List String
  pub fnmatchcase : String → String → Bool

pub record PermissionPolicy : Type 0 where
  pub mode : PermissionMode
  pub rules : List PermissionRule
  pub trusted_tools : List String
  pub sensitive_paths : List String

abbrev pub same_effect : PermissionEffect → PermissionEffect → Bool
same_effect PermissionEffect.allow PermissionEffect.allow = true
same_effect PermissionEffect.ask PermissionEffect.ask = true
same_effect PermissionEffect.deny PermissionEffect.deny = true
same_effect _ _ = false

abbrev pub decided : PermissionEffect → String → PermissionDecision
decided effect why = record {
  effect = effect;
  reason = why;
  matched_rule = none;
  remembered = false;
}

abbrev pub decided_by : PermissionEffect → String → PermissionRule → PermissionDecision
decided_by effect why rule = record {
  effect = effect;
  reason = why;
  matched_rule = some rule;
  remembered = false;
}

abbrev pub remembered_allow : String → PermissionDecision
remembered_allow why = record {
  effect = allow;
  reason = why;
  matched_rule = none;
  remembered = true;
}

abbrev pub is_filesystem : Capability → Bool
is_filesystem Capability.filesystem_read = true
is_filesystem Capability.filesystem_write = true
is_filesystem _ = false

module _ (h : Host) where
  unfoldable pub matches : PermissionRule → PermissionRequest → Bool
  matches rule request =
      same_capability rule.capability request.capability
      && (h.fnmatchcase request.tool rule.tool && h.fnmatchcase request.target rule.target)

  -- `target == root or root in target.parents`.
  abbrev pub is_at_or_below : String → String → Bool
  is_at_or_below target root = target == root || contains (h.parents target) root

  unfoldable pub is_sensitive : PermissionPolicy → PermissionRequest → Bool
  is_sensitive p request = is_filesystem request.capability && elim (h.resolve request.target) [
    | none ↦ true
    | some target ↦ any (is_at_or_below target) p.sensitive_paths
  ]

  unfoldable pub inside_workspace : PermissionRequest → String → Bool
  inside_workspace request root =
      is_filesystem request.capability
      && elim (h.resolve request.target) [ none ↦ false | some target ↦ is_at_or_below target root ]

  -- The rules that match, and the first of them with an effect.
  unfoldable pub first_match :
      PermissionPolicy → PermissionEffect → PermissionRequest → Option PermissionRule
  first_match p effect request =
      find (λ rule. same_effect rule.effect effect) (filter (λ rule. matches rule request) p.rules)

unfoldable pub readonly_default : PermissionRequest → Bool → PermissionDecision
readonly_default request inside =
    if same_capability request.capability Capability.filesystem_read && inside
    then decided allow "readonly 允许工作区内读取"
    else if same_capability request.capability Capability.process_execute
        && request.metadata.trusted_readonly
    then decided allow "readonly 允许可信内置只读进程"
    else decided deny "readonly 模式拒绝非只读能力"

unfoldable pub strict_default : PermissionRequest → Bool → PermissionDecision
strict_default request inside =
    if same_capability request.capability Capability.filesystem_read && inside
    then decided allow "strict 允许工作区内读取"
    else decided ask "strict 模式要求逐次确认"

unfoldable pub workspace_default : PermissionRequest → Bool → PermissionDecision
workspace_default request inside =
    if is_filesystem request.capability
    then (if inside then decided allow "workspace 内目标" else decided ask "目标位于 workspace 外")
    else if same_capability request.capability Capability.process_execute
        && request.metadata.trusted_readonly
    then decided allow "可信内置只读进程"
    else if same_capability request.capability Capability.mcp_call
        && request.metadata.trusted_server
    then decided allow "配置已信任整个 MCP server"
    else if same_capability request.capability Capability.skill_load
        && (request.metadata.source == "personal" || request.metadata.trusted)
    then decided allow "Skill 来源已受信"
    else decided ask "workspace 模式要求确认该能力"

unfoldable pub mode_default : PermissionMode → PermissionRequest → Bool → PermissionDecision
mode_default PermissionMode.unrestricted request inside = decided allow "unrestricted 模式默认允许"
mode_default PermissionMode.readonly request inside =
    if same_capability request.capability Capability.user_interaction
    then decided allow "用户交互工具默认允许"
    else readonly_default request inside
mode_default PermissionMode.strict request inside =
    if same_capability request.capability Capability.user_interaction
    then decided allow "用户交互工具默认允许"
    else strict_default request inside
mode_default PermissionMode.workspace request inside =
    if same_capability request.capability Capability.user_interaction
    then decided allow "用户交互工具默认允许"
    else workspace_default request inside

-- The broader scope counts as granted; that of the public web only for a controlled web request.
unfoldable pub broader_granted : PermissionRequest → List PermissionScope → Bool
broader_granted request grants = elim request.broader_scope [
  | none ↦ false
  | some broader ↦
      has_scope grants broader
      && (not (same_scope broader public_web_runtime_scope)
          || (same_capability request.capability Capability.network_access
              && request.metadata.controlled_public_web))
]

unfoldable pub is_granted : PermissionRequest → List PermissionScope → Bool
is_granted request grants = has_scope grants (scope request) || broader_granted request grants

module _ (h : Host) where
  -- The tail of `decide`: a grant of the session, an allow rule, the default of the mode.
  unfoldable pub decide_granted :
      PermissionPolicy → PermissionRequest → String → List PermissionScope → PermissionDecision
  decide_granted p request root grants =
      if is_granted request grants
      then remembered_allow "命中本会话精确授权"
      else elim (first_match h p allow request) [
        | some rule ↦ decided_by allow "命中显式 allow 规则" rule
        | none ↦ mode_default p.mode request (inside_workspace h request root)
      ]

  -- The workspace's root is given resolved.
  unfoldable pub decide :
      PermissionPolicy → PermissionRequest → String → List PermissionScope → PermissionDecision
  decide p request root grants =
      if is_sensitive h p request
      then decided deny "目标位于默认敏感目录"
      else elim (first_match h p deny request) [
        | some rule ↦ decided_by deny "命中显式 deny 规则" rule
        | none ↦
            if contains p.trusted_tools request.tool
            then remembered_allow "部署策略允许可信工具"
            else elim (first_match h p ask request) [
              | some rule ↦ decided_by ask "命中显式 ask 规则" rule
              | none ↦ decide_granted p request root grants
            ]
      ]
