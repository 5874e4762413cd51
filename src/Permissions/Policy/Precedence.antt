-- ===== src/Permissions/Policy/Precedence.antt =====
-- Which part of a policy decides: src/assistant_agent/tools/policy.py.
use assistant_agent.Base.{
  ◌≡◌, String, Bool, true, false, ◌&&◌, ◌||◌, none, List, [], ◌∷◌, any, contains, ◌⊎◌, inl, inr,
  arith, Option-cases, is_some, find, filter,
}
use assistant_agent.Permissions.Requests.{
  Capability, PermissionEffect, allow, ask, deny, PermissionMode, PermissionScope,
  PermissionRequest, PermissionRule, has_scope, scope, same_capability-eq,
}
use assistant_agent.Permissions.Policy.{
  Host, PermissionPolicy, same_effect, matches, is_sensitive, inside_workspace, first_match,
  mode_default, broader_granted, is_granted, decide_granted, decide, readonly_default,
}

module _ (h : Host) (p : PermissionPolicy) (r : PermissionRequest) (root : String) where
  decide-sensitive :
      (g : List PermissionScope) → is_sensitive h p r ≡ true → (decide h p r root g).effect ≡ deny
  unfolding decide
  decide-sensitive g e = ground arith

  pub decide_allow :
      (g : List PermissionScope)
      → (decide h p r root g).effect ≡ allow
      → (is_sensitive h p r ≡ false)
        × ((first_match h p deny r ≡ none)
            × ((contains p.trusted_tools r.tool ≡ true)
                ⊎ ((first_match h p ask r ≡ none)
                    × ((is_granted r g ≡ true)
                        ⊎ ((is_some (first_match h p allow r) ≡ true)
                            ⊎ ((mode_default p.mode r (inside_workspace h r root)).effect
                                ≡ allow))))))
  unfolding decide decide_granted
  decide_allow g e = ground arith

  -- A rule that matches is found by its effect.
  find-filter :
      (effect : PermissionEffect) (rules : List PermissionRule)
      → any (λ rule. matches h rule r && same_effect rule.effect effect) rules ≡ true
      → is_some
          (find (λ rule. same_effect rule.effect effect) (filter (λ rule. matches h rule r) rules))
        ≡ true
  find-filter effect [] e = ground arith
  find-filter effect (x ∷ rules) e = ground (arith, find-filter effect rules)

  -- Deny wins: a sensitive target, or one deny rule that matches, wherever it stands among the
  -- rules, is denied whatever the mode, the trusted tools and the grants of the session are.
  pub decide_deny :
      (g : List PermissionScope)
      → (is_sensitive h p r
          || any (λ rule. matches h rule r && same_effect rule.effect deny) p.rules)
        ≡ true
      → (decide h p r root g).effect ≡ deny
  unfolding decide first_match
  decide_deny g e = ground (arith, find-filter deny p.rules)

  broader_granted-more :
      (g g' : List PermissionScope)
      → ((s : PermissionScope) → has_scope g s ≡ true → has_scope g' s ≡ true)
      → broader_granted r g ≡ true
      → broader_granted r g' ≡ true
  unfolding broader_granted
  broader_granted-more g g' more e = elim (Option-cases r.broader_scope) [
    | inl n ↦ ground (arith, n)
    | inr (s, n) ↦ ground (arith, n, more s)
  ]

  is_granted-more :
      (g g' : List PermissionScope)
      → ((s : PermissionScope) → has_scope g s ≡ true → has_scope g' s ≡ true)
      → is_granted r g ≡ true
      → is_granted r g' ≡ true
  unfolding is_granted
  is_granted-more g g' more e = ground (arith, more (scope r), broader_granted-more g g' more)

  -- More grants never take a permission away.
  pub decide_allow-more :
      (g g' : List PermissionScope)
      → ((s : PermissionScope) → has_scope g s ≡ true → has_scope g' s ≡ true)
      → (decide h p r root g).effect ≡ allow
      → (decide h p r root g').effect ≡ allow
  unfolding decide decide_granted
  decide_allow-more g g' more e = ground (arith, is_granted-more g g' more)

  -- What was to be asked is allowed once its scope is granted, unless an ask rule comes first.
  pub decide_ask-granted :
      (g g' : List PermissionScope)
      → (decide h p r root g).effect ≡ ask
      → first_match h p ask r ≡ none
      → has_scope g' (scope r) ≡ true
      → (decide h p r root g').effect ≡ allow
  unfolding decide decide_granted is_granted
  decide_ask-granted g g' e a k = ground arith

readonly_allow :
    (r : PermissionRequest) (inside : Bool)
    → (mode_default PermissionMode.readonly r inside).effect ≡ allow
    → ((r.capability ≡ Capability.filesystem_read) × (inside ≡ true))
      ⊎ (((r.capability ≡ Capability.process_execute) × (r.metadata.trusted_readonly ≡ true))
          ⊎ (r.capability ≡ Capability.user_interaction))
unfolding mode_default readonly_default
readonly_allow r inside e = ground (
  arith,
  same_capability-eq r.capability Capability.filesystem_read,
  same_capability-eq r.capability Capability.process_execute,
  same_capability-eq r.capability Capability.user_interaction,
)

module _ (h : Host) (p : PermissionPolicy) (root : String) where
  -- In the readonly mode, a tool that is not trusted, not granted and not allowed by a rule may
  -- only read inside the workspace, run a trusted readonly process or ask the user; all else is not
  -- allowed.
  pub decide-readonly :
      (r : PermissionRequest) (g : List PermissionScope)
      → p.mode ≡ PermissionMode.readonly
      → contains p.trusted_tools r.tool ≡ false
      → is_granted r g ≡ false
      → first_match h p allow r ≡ none
      → (decide h p r root g).effect ≡ allow
      → ((r.capability ≡ Capability.filesystem_read) × (inside_workspace h r root ≡ true))
        ⊎ (((r.capability ≡ Capability.process_execute) × (r.metadata.trusted_readonly ≡ true))
            ⊎ (r.capability ≡ Capability.user_interaction))
  decide-readonly r g m t n a e =
      ground (arith, (decide_allow h p r root g e), readonly_allow r (inside_workspace h r root))
