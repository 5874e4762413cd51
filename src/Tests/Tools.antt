-- ===== src/Tests/Tools.antt =====
-- Permissions and the registry on sample data.
use assistant_agent.Budget.{try_consume_call, ToolBudget, exhausted_reason}
use assistant_agent.Registry.Output.{limit_result_output}
use assistant_agent.Registry.Guarded.{execute-has_run}
use assistant_agent.Registry.Guards.{has_run}
use assistant_agent.Base.{
  ◌≡◌, refl, String, true, false, ◌&&◌, ◌||◌, none, some, [], ◌∷◌, ◌++◌, ◌==◌, ◌⊎◌, any, all,
  contains, is_some, if◌then◌else◌, find, List,
}
use assistant_agent.Permissions.Requests.{
  Capability, allow, deny, PermissionMode, PermissionRequest, RequestMetadata, value,
}
use assistant_agent.Permissions.Policy.{
  Host, PermissionPolicy, same_effect, matches, is_sensitive, inside_workspace, first_match,
  mode_default, broader_granted, is_granted, decide_granted, decide, readonly_default,
  workspace_default,
}
use assistant_agent.Permissions.Policy.Precedence.{decide_deny, decide-readonly}
use assistant_agent.Permissions.Gate.{
  Prompts, ToolContext, has_effect, decision_of, asked, first_denied, shared_broader, choose,
  request_permissions, request_asked,
}
use assistant_agent.Permissions.Gate.Memory.{
  IsAgreement, no_ask_rule, request_permissions-true, request_permissions-request_permissions,
}
use assistant_agent.Registry.{
  Tool, Funnel, Execution, clear_argument_failures, notify, limit_output,
}
use assistant_agent.Registry.Execute.{
  execute, call_tool, validate, check, check_observed, observe, permit, announce, will_prompt,
  open_gate, pass_gate, charge, start, run_tool, finish,
}
use assistant_agent.Registry.Events.{IsOrdered}
use assistant_agent.Registry.Order.{execute-IsOrdered}
use assistant_agent.Tests.Samples.{small_budget, file_text}

abbrev host : Host
host = record {
  resolve = λ t. some t;
  parents = λ t.
      if t == "/work/a.txt"
      then "/work" ∷ "/" ∷ []
      else if t == "/home/.ssh/id"
      then "/home/.ssh" ∷ "/home" ∷ "/" ∷ []
      else [];
  fnmatchcase = λ s p. p == "*" || s == p;
}

abbrev policy_of : PermissionMode → PermissionPolicy
policy_of mode = record {
  mode = mode;
  rules = [];
  trusted_tools = [];
  sensitive_paths = "/home/.ssh" ∷ [];
}

abbrev policy : PermissionPolicy
policy = policy_of PermissionMode.readonly

abbrev plain : RequestMetadata
plain = record {
  controlled_public_web = false;
  trusted_readonly = false;
  trusted_server = false;
  source = "";
  trusted = false;
}

abbrev request_of : Capability → String → PermissionRequest
request_of capability target = record {
  tool = "file";
  capability = capability;
  target = target;
  risk = "";
  metadata = plain;
  broader_scope = none;
}

abbrev read_inside : PermissionRequest
read_inside = request_of Capability.filesystem_read "/work/a.txt"

abbrev secret_read : PermissionRequest
secret_read = request_of Capability.filesystem_read "/home/.ssh/id"

abbrev write_outside : PermissionRequest
write_outside = request_of Capability.filesystem_write "/tmp/b"

abbrev answering : String → Prompts
answering choice = record { interaction = none; confirm_scoped = none; confirm = λ asks. choice }

abbrev asking : Prompts
asking = answering "always"

abbrev refusing : Prompts
refusing = answering "deny"

abbrev context_of : PermissionMode → ToolContext
context_of mode = record {
  permission_policy = policy_of mode;
  workspace_root = "/work";
  permission_grants = [];
  interactive = true;
  audits = [];
  prompted = [];
}

abbrev tool_context : ToolContext
tool_context = context_of PermissionMode.readonly

abbrev workspace_context : ToolContext
workspace_context = context_of PermissionMode.workspace

abbrev read_tool : Tool Unit
read_tool = record {
  name = "read_file";
  validation_error = λ a. none;
  argument_validation_error = λ m. file_text;
  permission_requests = λ a. some (read_inside ∷ []);
  declared_replay_policy = λ a q. none;
  run = λ a. some file_text;
}

abbrev funnel : Funnel Unit
funnel = record {
  tools = read_tool ∷ [];
  pre_tool_observers = [];
  lifecycle = some (λ e. true);
  host = host;
  resolve_target = λ t. some t;
  prompts = asking;
  request_id = "ask_1";
  max_output_chars = 100;
  is_parse_error = λ a. false;
  decimal = λ n. [];
}

abbrev fresh : Execution
fresh = record {
  ctx = tool_context;
  budget = some small_budget;
  argument_failure_counts = [];
  blocked_argument_tools = [];
  events = [];
}

readonly_allows : (decide host policy read_inside "/work" []).effect ≡ allow
unfolding decide decide_granted is_sensitive first_match is_granted broader_granted mode_default
    readonly_default inside_workspace value
readonly_allows = refl

secret_denied :
    (is_sensitive host policy secret_read
      || any (λ rule. matches host rule secret_read && same_effect rule.effect deny) policy.rules)
    ≡ true
unfolding is_sensitive
secret_denied = refl

not_granted : is_granted read_inside [] ≡ false
unfolding is_granted broader_granted
not_granted = refl

no_allow_rule : first_match host policy allow read_inside ≡ none
unfolding first_match
no_allow_rule = refl

read_opens : (request_permissions host asking "ask_1" (read_inside ∷ []) tool_context).0 ≡ true
unfolding request_permissions request_asked first_denied asked decision_of decide decide_granted
    is_sensitive first_match is_granted broader_granted mode_default readonly_default
    inside_workspace value
read_opens = refl

no_ask : all (no_ask_rule host workspace_context []) (write_outside ∷ []) ≡ true
unfolding first_match
no_ask = refl

not_denied : any (has_effect host workspace_context deny) (write_outside ∷ []) ≡ false
unfolding decision_of decide decide_granted is_sensitive first_match is_granted broader_granted
    mode_default workspace_default inside_workspace value
not_denied = refl

answers_always :
    choose asking "ask_1"
      (asked host workspace_context (write_outside ∷ []))
      (shared_broader (asked host workspace_context (write_outside ∷ [])))
    ≡ "always"
unfolding choose
answers_always = refl

decide_deny_example : (decide host policy secret_read "/work" []).effect ≡ deny
decide_deny_example = decide_deny host policy secret_read "/work" [] secret_denied

decide-readonly_example :
    ((read_inside.capability ≡ Capability.filesystem_read)
      × (inside_workspace host read_inside "/work" ≡ true))
    ⊎ (((read_inside.capability ≡ Capability.process_execute)
          × (read_inside.metadata.trusted_readonly ≡ true))
        ⊎ (read_inside.capability ≡ Capability.user_interaction))
decide-readonly_example =
    decide-readonly host policy "/work" read_inside [] refl refl not_granted no_allow_rule
      readonly_allows

request_permissions-true_example :
    (any (has_effect host tool_context deny) (read_inside ∷ []) ≡ false)
    × ((asked host tool_context (read_inside ∷ []) ≡ [])
        ⊎ ((tool_context.interactive ≡ true)
            × ((request_permissions host asking "ask_1" (read_inside ∷ []) tool_context).1.prompted
                ≡ tool_context.prompted ++ asked host tool_context (read_inside ∷ []) ∷ [])
            × IsAgreement (shared_broader (asked host tool_context (read_inside ∷ []))) (
                choose asking "ask_1"
                  (asked host tool_context (read_inside ∷ []))
                  (shared_broader (asked host tool_context (read_inside ∷ []))))))
request_permissions-true_example =
    request_permissions-true host asking "ask_1" (read_inside ∷ []) tool_context read_opens

request_permissions-request_permissions_example :
    (let c' = (request_permissions host asking "ask_1" (write_outside ∷ []) workspace_context).1 in
      ((request_permissions host refusing "ask_2" (write_outside ∷ []) c').0 ≡ true)
      × (((request_permissions host refusing "ask_2" (write_outside ∷ []) c').1.permission_grants
            ≡ c'.permission_grants)
          × ((request_permissions host refusing "ask_2" (write_outside ∷ []) c').1.prompted
              ≡ c'.prompted)))
request_permissions-request_permissions_example =
    request_permissions-request_permissions host asking refusing "ask_1" "ask_2"
      (write_outside ∷ []) workspace_context no_ask not_denied refl answers_always

execute-IsOrdered_example :
    IsOrdered (is_some funnel.lifecycle) (execute funnel "read_file" tt "call_1" fresh).1.events
execute-IsOrdered_example = execute-IsOrdered funnel "read_file" tt "call_1" fresh refl

tool_ran : has_run (execute funnel "read_file" tt "call_1" fresh).1.events ≡ true
unfolding execute call_tool validate clear_argument_failures check check_observed observe permit
    announce will_prompt notify open_gate pass_gate charge start run_tool finish limit_output
    try_consume_call limit_result_output first_denied asked request_permissions request_asked
    decision_of decide decide_granted is_sensitive first_match is_granted broader_granted
    mode_default readonly_default inside_workspace value
tool_ran = refl

execute-has_run_example :
    (t : Tool Unit) × (q : List PermissionRequest) × (find (λ t. t.name == "read_file") funnel.tools
      ≡ some t)
    × (contains fresh.blocked_argument_tools t.name ≡ false)
    × (t.validation_error tt ≡ none)
    × (t.permission_requests tt ≡ some q)
    × (observe funnel funnel.pre_tool_observers t.name tt q ≡ some [])
    × (any (has_effect funnel.host fresh.ctx deny) q ≡ false)
    × ((request_permissions funnel.host funnel.prompts funnel.request_id q fresh.ctx).0 ≡ true)
    × ((b : ToolBudget) → fresh.budget ≡ some b → exhausted_reason b ≡ none)
execute-has_run_example = execute-has_run funnel "read_file" tt "call_1" fresh refl tool_ran
