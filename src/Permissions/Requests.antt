-- ===== src/Permissions/Requests.antt =====
-- The data contract of src/assistant_agent/tools/permissions.py and `encode_request` of
-- agent/run/checkpoint.py. Of a request's metadata the keys are kept that a decision reads.
use mathlib.Core.Option.{some-injective}
use assistant_agent.Base.{
  String, Bool, Option, ◌==◌, ◌&&◌, List, any, ◌≡◌, refl, true, sym, ap, ◌∙◌, none, some,
  if◌then◌else◌, eq_iff,
}
use assistant_agent.Run.State.{PermissionRequestState}

pub data Capability : Type 0 where
  filesystem_read filesystem_write process_execute network_access : Capability
  mcp_call skill_load user_interaction extension_manage : Capability

unfoldable pub value : Capability → String
value Capability.filesystem_read = "filesystem.read"
value Capability.filesystem_write = "filesystem.write"
value Capability.process_execute = "process.execute"
value Capability.network_access = "network.access"
value Capability.mcp_call = "mcp.call"
value Capability.skill_load = "skill.load"
value Capability.user_interaction = "user.interaction"
value Capability.extension_manage = "extension.manage"

-- The capability with a name, to read the value back.
named : String → Option Capability
named n =
    if n == "filesystem.read"
    then some Capability.filesystem_read
    else if n == "filesystem.write"
    then some Capability.filesystem_write
    else if n == "process.execute"
    then some Capability.process_execute
    else if n == "network.access"
    then some Capability.network_access
    else if n == "mcp.call"
    then some Capability.mcp_call
    else if n == "skill.load"
    then some Capability.skill_load
    else if n == "user.interaction"
    then some Capability.user_interaction
    else if n == "extension.manage"
    then some Capability.extension_manage
    else none

named-value : (c : Capability) → named (value c) ≡ some c
unfolding named value
named-value Capability.filesystem_read = refl
named-value Capability.filesystem_write = refl
named-value Capability.process_execute = refl
named-value Capability.network_access = refl
named-value Capability.mcp_call = refl
named-value Capability.skill_load = refl
named-value Capability.user_interaction = refl
named-value Capability.extension_manage = refl

pub value-injective : (a b : Capability) → value a ≡ value b → a ≡ b
value-injective a b h = some-injective a b (sym (named-value a) ∙ ap named h ∙ named-value b)

abbrev pub same_capability : Capability → Capability → Bool
same_capability a b = value a == value b

pub data PermissionEffect : Type 0 where
  allow ask deny : PermissionEffect

pub data PermissionMode : Type 0 where
  readonly workspace strict unrestricted : PermissionMode

pub record PermissionScope : Type 0 where
  pub capability : Capability
  pub tool : String
  pub target : String

pub record RequestMetadata : Type 0 where
  pub controlled_public_web : Bool
  pub trusted_readonly : Bool
  pub trusted_server : Bool
  pub source : String
  pub trusted : Bool

pub record PermissionRequest : Type 0 where
  pub tool : String
  pub capability : Capability
  pub target : String
  pub risk : String
  pub metadata : RequestMetadata
  pub broader_scope : Option PermissionScope

abbrev pub scope : PermissionRequest → PermissionScope
scope r = record { capability = r.capability; tool = r.tool; target = r.target }

pub same_capability-eq : (a b : Capability) → same_capability a b ≡ true → a ≡ b
same_capability-eq a b h = value-injective a b ((eq_iff (value a) (value b)).0 h)

abbrev pub same_scope : PermissionScope → PermissionScope → Bool
same_scope a b =
    same_capability a.capability b.capability && (a.tool == b.tool && a.target == b.target)

abbrev pub has_scope : List PermissionScope → PermissionScope → Bool
has_scope grants s = any (same_scope s) grants

abbrev pub public_web_runtime_scope : PermissionScope
public_web_runtime_scope = record {
  capability = Capability.network_access;
  tool = "controlled_public_web";
  target = "public-network";
}

pub record PermissionRule : Type 0 where
  pub effect : PermissionEffect
  pub capability : Capability
  pub target : String
  pub tool : String

pub record PermissionDecision : Type 0 where
  pub effect : PermissionEffect
  pub reason : String
  pub matched_rule : Option PermissionRule
  pub remembered : Bool

unfoldable pub encode_request : PermissionRequest → PermissionRequestState
encode_request r = record {
  tool = r.tool;
  capability = value r.capability;
  target = r.target;
  risk = r.risk;
}
