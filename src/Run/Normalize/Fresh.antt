-- ===== src/Run/Normalize/Fresh.antt =====
-- The ids that `normalize_tool_calls` of src/assistant_agent/agent/run/coordinator.py gives.
use assistant_agent.Base.{
  ℕ, zero, suc, ◌≤◌, ◌<◌, ◌≡◌, ◌≢◌, refl, sym, ap, ◌∙◌, subst, String, Bool, true, false, not, ◌||◌,
  ◌==◌, eq_iff, Option, some, List, [], ◌∷◌, length, filter, map, contains, distinct, arith,
  Bool-cases, inl, inr, and-right, all,
}
use assistant_agent.Run.State.{ToolCall, RunState}
use assistant_agent.Run.Consistency.{ids}
use assistant_agent.Run.Normalize.{
  Naming, free_id, call_id_for, named, prepend, name_calls, used_ids, normalize_tool_calls,
}

abbrev remove : String → List String → List String
remove x = filter (λ y. not (y == x))

length-remove : (x : String) (xs : List String) → length (remove x xs) ≤ length xs
length-remove x [] = omega arith
length-remove x (y ∷ xs) = ground (arith, length-remove x xs)

remove-shorter :
    (x : String) (xs : List String) → contains xs x ≡ true → length (remove x xs) < length xs
remove-shorter x [] h = ground arith
remove-shorter x (y ∷ xs) h = ground (arith, length-remove x xs, remove-shorter x xs)

contains-remove :
    (x y : String) (xs : List String) → x ≢ y → contains (remove x xs) y ≡ contains xs y
contains-remove x y [] h = refl
contains-remove x y (z ∷ xs) h = ground (arith, contains-remove x y xs, eq_iff z x, eq_iff z y, h)

-- Suffixes of one id differ.
abbrev pub Injective : Naming → Type 0
Injective naming =
    (base : String) (n m : ℕ) → naming.suffixed base n ≡ naming.suffixed base m → n ≡ m

abbrev pub Found : List String → Option String → Type 0
Found used r = (id : String) × (r ≡ some id) × (contains used id ≡ false)

-- `left` are the used ids that a later candidate may still meet.
free_id-Found :
    (naming : Naming) (fuel : ℕ) (used left : List String) (base : String) (suffix : ℕ)
    → Injective naming
    → ((n : ℕ)
        → suffix ≤ n
        → contains used (naming.suffixed base n) ≡ contains left (naming.suffixed base n))
    → length left < fuel
    → Found used (free_id naming fuel used base suffix (naming.suffixed base suffix))
unfolding free_id
free_id-Found naming zero used left base suffix inj same h = ground (arith, h)
free_id-Found naming (suc fuel) used left base suffix inj same h =
    let candidate = naming.suffixed base suffix in
    elim (Bool-cases (contains used candidate)) [
      | inr e ↦ rw (free_id, e) (candidate, refl, e)
      | inl e ↦
          let later : (n : ℕ)
              → suc suffix ≤ n
              → contains used (naming.suffixed base n)
                ≡ contains (remove candidate left) (naming.suffixed base n) =
            λ n k.
              same n (omega (arith, k))
              ∙ sym (
                  contains-remove candidate (naming.suffixed base n) left
                    (λ q. omega (arith, k, inj base suffix n q))) in
          let shorter : length (remove candidate left) < fuel =
            omega (arith, h, remove-shorter candidate left (sym (same suffix (omega arith)) ∙ e)) in
          subst (Found used) (sym (rw (free_id, e) refl)) (
            free_id-Found naming fuel used (remove candidate left) base (suc suffix) inj later
              shorter)
    ]

-- An id is found, and it is none of those in use.
pub call_id_for-Found :
    (naming : Naming) (run_id : String) (iteration : ℕ) (used : List String) (index : ℕ)
    (id : String)
    → Injective naming
    → Found used (call_id_for naming run_id iteration used index id)
unfolding call_id_for free_id
call_id_for-Found naming run_id iteration used index id inj =
    let stripped = naming.strip id in
    let base = naming.stable_call_id run_id iteration index in
    elim (Bool-cases ((stripped == "") || contains used stripped)) [
      | inr e ↦ rw (call_id_for, e) (stripped, refl, ground (arith, e))
      | inl e ↦ elim (Bool-cases (contains used base)) [
        | inr f ↦ rw (call_id_for, e, free_id, f) (base, refl, f)
        | inl f ↦ subst (Found used) (sym (rw (call_id_for, e, free_id, f) refl)) (
            free_id-Found naming (suc (length used)) used used base 1 inj (λ n k. refl)
              (omega arith))
      ]
    ]

abbrev pub apart : List String → List String → Bool
apart used = all (λ id. not (contains used id))

apart-cons :
    (id : String) (used xs : List String)
    → apart (id ∷ used) xs ≡ true
    → (apart used xs ≡ true) × (contains xs id ≡ false)
apart-cons id used [] h = (refl, refl)
apart-cons id used (x ∷ xs) h =
    let tail : apart (id ∷ used) xs ≡ true =
      and-right (not (contains (id ∷ used) x)) (apart (id ∷ used) xs) h in
    let rest = apart-cons id used xs tail in
    (ground (arith, rest.0, h), ground (arith, rest.1, h, eq_iff id x, eq_iff x id))

-- The calls again, in order, under ids that differ from each other and from those in use.
abbrev pub Renamed : List String → List ToolCall → Option (List ToolCall) → Type 0
Renamed used calls r =
    (out : List ToolCall) × (r ≡ some out)
    × (map (named "") out ≡ map (named "") calls)
    × (distinct (ids out) ≡ true)
    × (apart used (ids out) ≡ true)

prepend-Renamed :
    (used : List String) (id : String) (call : ToolCall) (calls : List ToolCall)
    (r : Option (List ToolCall))
    → contains used id ≡ false
    → Renamed (id ∷ used) calls r
    → Renamed used (call ∷ calls) (prepend (named id call) r)
prepend-Renamed used id call calls r h (out, e, same, differ, clear) =
    let (older, missing) = apart-cons id used (ids out) clear in
    (
      named id call ∷ out,
      rw e refl,
      ap (λ cs. named "" call ∷ cs) same,
      ground (arith, missing, differ),
      ground (arith, h, older),
    )

name_calls-Renamed :
    (naming : Naming) (run_id : String) (iteration : ℕ) (used : List String) (index : ℕ)
    (calls : List ToolCall)
    → Injective naming
    → Renamed used calls (name_calls naming run_id iteration used index calls)
unfolding name_calls
name_calls-Renamed naming run_id iteration used index [] inj = ([], refl, refl, refl, refl)
name_calls-Renamed naming run_id iteration used index (call ∷ calls) inj =
    let (id, e, fresh) = call_id_for-Found naming run_id iteration used index call.id inj in
    rw (name_calls, e)
      (prepend-Renamed used id call calls
        (name_calls naming run_id iteration (id ∷ used) (suc index) calls) fresh
        (name_calls-Renamed naming run_id iteration (id ∷ used) (suc index) calls inj))

-- Naming always ends: the calls come back in order with their names and arguments, under ids that
-- differ from each other and from every id of the history. Suffixed ids differ by their suffixes.
pub normalize_tool_calls-Renamed :
    (naming : Naming) (state : RunState) (calls : List ToolCall)
    → Injective naming
    → Renamed (used_ids state.messages) calls (normalize_tool_calls naming state calls)
unfolding normalize_tool_calls
normalize_tool_calls-Renamed naming state calls inj =
    name_calls-Renamed naming state.run_id state.iteration (used_ids state.messages) 0 calls inj
