-- ===== src/Permissions/Gate/Memory.antt =====
-- What the gate promises and remembers: src/assistant_agent/tools/context.py.
use assistant_agent.Base.{
  ◌≡◌, refl, String, Bool, true, false, not, ◌==◌, Option, none, List, [], ◌∷◌, ◌++◌, map, any, all,
  is_some, ◌⊎◌, inl, inr, arith, Option-cases, eq_refl, subst, sym,
}
use assistant_agent.Permissions.Requests.{
  allow, ask, deny, PermissionScope, PermissionRequest, scope, same_scope, has_scope, value,
}
use assistant_agent.Permissions.Policy.{Host, first_match}
use assistant_agent.Permissions.Policy.Precedence.{decide_allow-more, decide_ask-granted}
use assistant_agent.Permissions.Gate.{
  Prompts, ToolContext, shared_broader, choose, decision_of, has_effect, first_denied, asked,
  all_remembered, settle_choice, prompt_user, request_asked, request_permissions,
}

module _ (h : Host) (c : ToolContext) where
  first_denied-none :
      (rs : List PermissionRequest)
      → any (has_effect h c deny) rs ≡ false
      → first_denied h c rs ≡ none
  unfolding first_denied
  first_denied-none [] e = refl
  first_denied-none (r ∷ rs) e = ground (arith, first_denied-none rs)

  first_denied-some :
      (rs : List PermissionRequest)
      → any (has_effect h c deny) rs ≡ true
      → is_some (first_denied h c rs) ≡ true
  unfolding first_denied
  first_denied-some [] e = ground arith
  first_denied-some (r ∷ rs) e = ground (arith, first_denied-some rs)

  allow_no_deny :
      (rs : List PermissionRequest)
      → all (has_effect h c allow) rs ≡ true
      → any (has_effect h c deny) rs ≡ false
  allow_no_deny [] e = refl
  allow_no_deny (r ∷ rs) e = ground (arith, allow_no_deny rs)

  asked_nothing : asked h c [] ≡ []
  unfolding asked
  asked_nothing = refl

  allow_no_ask :
      (rs : List PermissionRequest) → all (has_effect h c allow) rs ≡ true → asked h c rs ≡ []
  unfolding asked
  allow_no_ask [] e = refl
  allow_no_ask (r ∷ rs) e = ground (arith, allow_no_ask rs)

-- The answers that agree; "broader" does so only where a broader scope is offered.
unfoldable pub IsAgreement : Option PermissionScope → String → Type 0
IsAgreement broader answer =
    ((answer == "allow") ≡ true)
    ⊎ (((answer == "always") ≡ true) ⊎ (((answer == "broader") ≡ true) × (is_some broader ≡ true)))

module _ (h : Host) (k : Prompts) (id : String) where
  -- A request that the policy denies refuses all of them, without a prompt and without a grant.
  pub request_permissions-denied :
      (rs : List PermissionRequest) (c : ToolContext)
      → any (has_effect h c deny) rs ≡ true
      → ((request_permissions h k id rs c).0 ≡ false)
        × (((request_permissions h k id rs c).1.permission_grants ≡ c.permission_grants)
            × ((request_permissions h k id rs c).1.prompted ≡ c.prompted))
  unfolding request_permissions
  request_permissions-denied [] c e = ground arith
  request_permissions-denied (r ∷ rs) c e = elim (Option-cases (first_denied h c (r ∷ rs))) [
    | inl n ↦ ground (arith, n, first_denied-some h c (r ∷ rs))
    | inr (d, n) ↦ rw (request_permissions, n) (refl, (refl, refl))
  ]

  asked_true :
      (b : Bool) (qs : List PermissionRequest) (c : ToolContext)
      → (request_asked k id b qs c).0 ≡ true
      → (qs ≡ [])
        ⊎ ((c.interactive ≡ true)
            × ((request_asked k id b qs c).1.prompted ≡ c.prompted ++ qs ∷ [])
            × IsAgreement (shared_broader qs) (choose k id qs (shared_broader qs)))
  unfolding request_asked prompt_user settle_choice IsAgreement
  asked_true b [] c e = inl refl
  asked_true b (q ∷ qs) c e = ground arith

  -- The gate opens only if the policy denies none of the requests; and then either the policy
  -- allows all of them, or the context is interactive and exactly those to be asked were shown to
  -- the user, whose answer was "allow", "always" or, where a broader scope was offered, "broader".
  pub request_permissions-true :
      (rs : List PermissionRequest) (c : ToolContext)
      → (request_permissions h k id rs c).0 ≡ true
      → (any (has_effect h c deny) rs ≡ false)
        × ((asked h c rs ≡ [])
            ⊎ ((c.interactive ≡ true)
                × ((request_permissions h k id rs c).1.prompted ≡ c.prompted ++ asked h c rs ∷ [])
                × IsAgreement
                    (shared_broader (asked h c rs))
                    (choose k id (asked h c rs) (shared_broader (asked h c rs)))))
  unfolding request_permissions
  request_permissions-true [] c e = (refl, inl (asked_nothing h c))
  request_permissions-true (r ∷ rs) c e = elim (Option-cases (first_denied h c (r ∷ rs))) [
    | inl n ↦ ground (
      arith,
      n,
      first_denied-some h c (r ∷ rs),
      asked_true (all_remembered h c (r ∷ rs)) (asked h c (r ∷ rs)) c,
    )
    | inr (d, n) ↦ ground (arith, n)
  ]

  -- Requests that the policy allows pass without a prompt and without a new grant.
  pub request_permissions-allowed :
      (rs : List PermissionRequest) (c : ToolContext)
      → all (has_effect h c allow) rs ≡ true
      → ((request_permissions h k id rs c).0 ≡ true)
        × (((request_permissions h k id rs c).1.permission_grants ≡ c.permission_grants)
            × ((request_permissions h k id rs c).1.prompted ≡ c.prompted))
  unfolding request_permissions request_asked
  request_permissions-allowed [] c e = (refl, (refl, refl))
  request_permissions-allowed (r ∷ rs) c e =
      rw
        (
          request_permissions,
          first_denied-none h c (r ∷ rs) (allow_no_deny h c (r ∷ rs) e),
          allow_no_ask h c (r ∷ rs) e,
        )
        (refl, (refl, refl))

same_scope_refl : (s : PermissionScope) → same_scope s s ≡ true
same_scope_refl s = rw (eq_refl (value s.capability), eq_refl s.tool, eq_refl s.target) refl

has_scope-left :
    (g q : List PermissionScope) (s : PermissionScope)
    → has_scope g s ≡ true
    → has_scope (g ++ q) s ≡ true
has_scope-left [] q s e = ground arith
has_scope-left (x ∷ g) q s e = ground (arith, has_scope-left g q s)

has_scope-right :
    (g q : List PermissionScope) (s : PermissionScope)
    → has_scope q s ≡ true
    → has_scope (g ++ q) s ≡ true
has_scope-right [] q s e = e
has_scope-right (x ∷ g) q s e = ground (arith, has_scope-right g q s)

module _ (h : Host) (c : ToolContext) (g : List PermissionScope) where
  abbrev pub no_ask_rule : PermissionRequest → Bool
  no_ask_rule r = not (is_some (first_match h c.permission_policy ask r))

  abbrev with_grants : ToolContext
  with_grants = record c { permission_grants = g }

  allowed_after :
      (r : PermissionRequest)
      → ((s : PermissionScope) → has_scope c.permission_grants s ≡ true → has_scope g s ≡ true)
      → (has_effect h c ask r ≡ true → has_scope g (scope r) ≡ true)
      → no_ask_rule r ≡ true
      → has_effect h c deny r ≡ false
      → has_effect h with_grants allow r ≡ true
  unfolding decision_of
  allowed_after r more new a d = ground (
    arith,
    decide_allow-more h c.permission_policy r c.workspace_root c.permission_grants g more,
    decide_ask-granted h c.permission_policy r c.workspace_root c.permission_grants g,
  )

  asked-more :
      (r : PermissionRequest) (rs : List PermissionRequest) (s : PermissionScope)
      → has_scope (map scope (asked h c rs)) s ≡ true
      → has_scope (map scope (asked h c (r ∷ rs))) s ≡ true
  unfolding asked
  asked-more r rs s e = ground arith

  asked-here :
      (r : PermissionRequest) (rs : List PermissionRequest)
      → has_effect h c ask r ≡ true
      → has_scope (map scope (asked h c (r ∷ rs))) (scope r) ≡ true
  unfolding asked
  asked-here r rs e = ground (arith, same_scope_refl (scope r))

  all_allowed_after :
      (rs : List PermissionRequest)
      → ((s : PermissionScope) → has_scope c.permission_grants s ≡ true → has_scope g s ≡ true)
      → ((s : PermissionScope)
          → has_scope (map scope (asked h c rs)) s ≡ true
          → has_scope g s ≡ true)
      → all no_ask_rule rs ≡ true
      → any (has_effect h c deny) rs ≡ false
      → all (has_effect h with_grants allow) rs ≡ true
  unfolding asked
  all_allowed_after [] more new a d = refl
  all_allowed_after (r ∷ rs) more new a d = ground (
    arith,
    allowed_after r more,
    new (scope r),
    asked-here r rs,
    all_allowed_after rs more (λ s e. new s (asked-more r rs s e)),
  )

-- What an "always" leaves.
asked_always :
    (k : Prompts) (id : String) (b : Bool) (q : PermissionRequest) (qs : List PermissionRequest)
    (c : ToolContext)
    → c.interactive ≡ true
    → choose k id (q ∷ qs) (shared_broader (q ∷ qs)) ≡ "always"
    → (request_asked k id b (q ∷ qs) c).1 ≡ record c {
      permission_grants = c.permission_grants ++ map scope (q ∷ qs);
      prompted = c.prompted ++ (q ∷ qs) ∷ [];
      audits = (request_asked k id b (q ∷ qs) c).1.audits;
    }
unfolding request_asked prompt_user settle_choice
asked_always k id b q qs c i e = rw (i, e) refl

allowed_always :
    (h : Host) (k : Prompts) (id : String) (b : Bool) (qs rs : List PermissionRequest)
    (c : ToolContext)
    → asked h c rs ≡ qs
    → all (no_ask_rule h c []) rs ≡ true
    → any (has_effect h c deny) rs ≡ false
    → c.interactive ≡ true
    → choose k id qs (shared_broader qs) ≡ "always"
    → all (has_effect h (request_asked k id b qs c).1 allow) rs ≡ true
unfolding request_asked decision_of
allowed_always h k id b [] rs c p a d i e =
    all_allowed_after h c c.permission_grants rs (λ s m. m)
      (λ s m. ground (arith, subst (λ u. has_scope (map scope u) s ≡ true) p m)) a d
allowed_always h k id b (q ∷ qs) rs c p a d i e = rw (asked_always k id b q qs c i e) (
    all_allowed_after h c (c.permission_grants ++ map scope (q ∷ qs)) rs
      (has_scope-left c.permission_grants (map scope (q ∷ qs)))
      (λ s m.
        has_scope-right c.permission_grants (map scope (q ∷ qs)) s
          (subst (λ u. has_scope (map scope u) s ≡ true) p m))
      a d)

opened :
    (h : Host) (k : Prompts) (id : String) (r : PermissionRequest) (rs : List PermissionRequest)
    (c : ToolContext)
    → any (has_effect h c deny) (r ∷ rs) ≡ false
    → request_permissions h k id (r ∷ rs) c
      ≡ request_asked k id (all_remembered h c (r ∷ rs)) (asked h c (r ∷ rs)) c
unfolding request_permissions
opened h k id r rs c d = rw (request_permissions, first_denied-none h c (r ∷ rs) d) refl

-- After an "always" the same requests pass again: without a prompt, whatever the callbacks are, and
-- without a new grant. That holds where no ask rule of the policy matches, since such a rule comes
-- before the grants.
pub request_permissions-request_permissions :
    (h : Host) (k k' : Prompts) (id id' : String) (rs : List PermissionRequest) (c : ToolContext)
    → all (no_ask_rule h c []) rs ≡ true
    → any (has_effect h c deny) rs ≡ false
    → c.interactive ≡ true
    → choose k id (asked h c rs) (shared_broader (asked h c rs)) ≡ "always"
    → (let c' = (request_permissions h k id rs c).1 in
        ((request_permissions h k' id' rs c').0 ≡ true)
        × (((request_permissions h k' id' rs c').1.permission_grants ≡ c'.permission_grants)
            × ((request_permissions h k' id' rs c').1.prompted ≡ c'.prompted)))
unfolding request_permissions
request_permissions-request_permissions h k k' id id' [] c a d i e = (refl, (refl, refl))
request_permissions-request_permissions h k k' id id' (r ∷ rs) c a d i e =
    request_permissions-allowed h k' id' (r ∷ rs) (request_permissions h k id (r ∷ rs) c).1 (
      subst (λ x. all (has_effect h x.1 allow) (r ∷ rs) ≡ true) (sym (opened h k id r rs c d))
        (allowed_always h k id (all_remembered h c (r ∷ rs)) (asked h c (r ∷ rs)) (r ∷ rs) c refl a
          d i e))
