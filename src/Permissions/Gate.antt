-- ===== src/Permissions/Gate.antt =====
-- The gate before a tool runs: `ToolContext.request_permissions` of
-- src/assistant_agent/tools/context.py and `approve_via_port` of tools/interaction_bridge.py. The
-- prompts are callbacks: `port` is `none` where it raises, and its answer carries a request id. The
-- texts of a prompt, its sanitizing and the time it takes are left out.
pub mod Memory
use assistant_agent.Base.{
  String, Bool, true, false, not, ◌&&◌, ◌||◌, Option, none, some, List, [], ◌∷◌, ◌++◌, map, ◌==◌,
  all, find, contains, is_some, if◌then◌else◌, filter,
}
use assistant_agent.Permissions.Requests.{
  PermissionEffect, allow, ask, deny, PermissionScope, PermissionRequest, PermissionDecision, scope,
  same_scope, has_scope,
}
use assistant_agent.Permissions.Policy.{Host, PermissionPolicy, same_effect, decide}

pub record ApprovalResponse : Type 0 where
  pub request_id : String
  pub choice : String

pub record Audit : Type 0 where
  pub decision : String
  pub reason : String
  pub remembered : Bool

-- The callbacks of a context; `interaction` comes before `confirm_scoped`, and that before
-- `confirm`.
pub record Prompts : Type 0 where
  pub interaction :
      Option (String → List PermissionRequest → Option PermissionScope → Option ApprovalResponse)
  pub confirm_scoped : Option (List PermissionRequest → String)
  pub confirm : List PermissionRequest → String

-- What the gate reads and writes of a context; `prompted` has the requests of each prompt shown, so
-- it also says when `before_prompt` ran.
pub record ToolContext : Type 0 where
  pub permission_policy : PermissionPolicy
  pub workspace_root : String
  pub permission_grants : List PermissionScope
  pub interactive : Bool
  pub audits : List Audit
  pub prompted : List (List PermissionRequest)

unfoldable pub legal_options : Bool → List String
legal_options true = "allow" ∷ "always" ∷ "broader" ∷ "deny" ∷ []
legal_options false = "allow" ∷ "always" ∷ "deny" ∷ []

-- The request's id is generated: it is given.
unfoldable pub approve_via_port :
    (String → List PermissionRequest → Option PermissionScope → Option ApprovalResponse)
    → String
    → List PermissionRequest
    → Option PermissionScope
    → String
approve_via_port port request_id asks broader = elim (port request_id asks broader) [
  | none ↦ "deny"
  | some response ↦
      if not (response.request_id == request_id)
        || not (contains (legal_options (is_some broader)) response.choice)
      then "deny"
      else response.choice
]

abbrev pub same_broader : Option PermissionScope → PermissionScope → Bool
same_broader none s = false
same_broader (some b) s = same_scope b s

-- The scope that all the requests share as their broader scope.
unfoldable pub shared_broader : List PermissionRequest → Option PermissionScope
shared_broader [] = none
shared_broader (r ∷ rs) = elim r.broader_scope [
  | none ↦ none
  | some s ↦ if all (λ q. same_broader q.broader_scope s) (r ∷ rs) then some s else none
]

unfoldable pub choose : Prompts → String → List PermissionRequest → Option PermissionScope → String
choose k request_id asks broader = elim k.interaction [
  | some port ↦ approve_via_port port request_id asks broader
  | none ↦ elim k.confirm_scoped [
    | some confirm_scoped ↦ if is_some broader then confirm_scoped asks else k.confirm asks
    | none ↦ k.confirm asks
  ]
]

abbrev pub audit : String → String → Bool → ToolContext → ToolContext
audit decision why remembered c = record c {
  audits = c.audits ++ record { decision = decision; reason = why; remembered = remembered } ∷ [];
}

abbrev pub add_grants : List PermissionScope → ToolContext → ToolContext
add_grants scopes c = record c { permission_grants = c.permission_grants ++ scopes }

module _ (h : Host) where
  unfoldable pub decision_of : ToolContext → PermissionRequest → PermissionDecision
  decision_of c r = decide h c.permission_policy r c.workspace_root c.permission_grants

  abbrev pub has_effect : ToolContext → PermissionEffect → PermissionRequest → Bool
  has_effect c effect r = same_effect (decision_of c r).effect effect

  unfoldable pub first_denied : ToolContext → List PermissionRequest → Option PermissionDecision
  first_denied c requests = find (λ d. same_effect d.effect deny) (map (decision_of c) requests)

  unfoldable pub asked : ToolContext → List PermissionRequest → List PermissionRequest
  asked c requests = filter (has_effect c ask) requests

  unfoldable pub all_remembered : ToolContext → List PermissionRequest → Bool
  all_remembered c requests = all (λ r. (decision_of c r).remembered) requests

-- What the answer of the user does.
unfoldable pub settle_choice :
    String → List PermissionRequest → Option PermissionScope → ToolContext → Bool × ToolContext
settle_choice choice asks broader c =
    if choice == "broader" && is_some broader
    then (true, audit "always" "用户允许并记住上级会话作用域" false (add_grants (scopes_of broader) c))
    else if choice == "always"
    then (true, audit "always" "用户允许并记住精确作用域" false (add_grants (map scope asks) c))
    else (choice == "allow", audit choice "用户确认结果" false c)
  where
    scopes_of : Option PermissionScope → List PermissionScope
    scopes_of none = []
    scopes_of (some s) = s ∷ []

unfoldable pub prompt_user :
    Prompts → String → List PermissionRequest → ToolContext → Bool × ToolContext
prompt_user k request_id asks c =
    let broader = shared_broader asks in
    settle_choice (choose k request_id asks broader) asks broader
      (record c { prompted = c.prompted ++ asks ∷ [] })

unfoldable pub request_asked :
    Prompts → String → Bool → List PermissionRequest → ToolContext → Bool × ToolContext
request_asked k request_id remembered [] c = (true, audit "allow" "策略自动允许" remembered c)
request_asked k request_id remembered (r ∷ rs) c =
    if not c.interactive
    then (false, audit "deny" "非交互模式无法请求授权" false c)
    else prompt_user k request_id (r ∷ rs) c

unfoldable pub request_permissions :
    Host → Prompts → String → List PermissionRequest → ToolContext → Bool × ToolContext
request_permissions h k request_id [] c = (true, c)
request_permissions h k request_id (r ∷ rs) c = elim (first_denied h c (r ∷ rs)) [
  | some denied ↦ (false, audit "deny" denied.reason denied.remembered c)
  | none ↦ request_asked k request_id (all_remembered h c (r ∷ rs)) (asked h c (r ∷ rs)) c
]
