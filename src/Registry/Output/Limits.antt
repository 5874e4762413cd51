-- ===== src/Registry/Output/Limits.antt =====
-- The bounds on what a call returns: src/assistant_agent/tools/registry.py.
use assistant_agent.Base.{
  ℕ, ◌+◌, ◌-◌, ◌≤◌, ◌<◌, ◌≡◌, refl, ap, subst, min, true, false, Option, none, some, length, take,
  ltb, arith, length-append, length-take, if◌then◌else◌,
}
use assistant_agent.Budget.{ToolBudget, remaining_output_chars}
use assistant_agent.Budget.Limits.{IsWithin, consume_output-charge, consume_output-IsWithin}
use assistant_agent.ToolResult.{Text, ToolResult, post_init}
use assistant_agent.Registry.Output.{
  truncate_with, truncate_output, truncation_suffix, remaining_of, effective_limit, is_longer,
  returned_output, limit_result_output,
}

length-truncate_with :
    (suffix output : Text) (limit : ℕ) → length (truncate_with suffix output limit) ≤ limit
unfolding truncate_with
length-truncate_with suffix output limit = ground (
  arith,
  length-take limit suffix,
  length-append (take (limit - length suffix) output) suffix,
  length-take (limit - length suffix) output,
)

length-truncate_output : (output : Text) (limit : ℕ) → length (truncate_output output limit) ≤ limit
unfolding truncate_output
length-truncate_output output limit = length-truncate_with truncation_suffix output limit

length-returned_output :
    (output : Text) (limit : ℕ) → length (returned_output output (some limit)) ≤ limit
unfolding returned_output
length-returned_output output limit = ground (arith, length-truncate_output output limit)

-- A bound on the limit in force is one on what is returned.
length-returned_output-of :
    (output : Text) (o : Option ℕ) (n : ℕ)
    → (l : ℕ) × ((o ≡ some l) × (l ≤ n))
    → length (returned_output output o) ≤ n
length-returned_output-of output o n (l, (e, k)) =
    rw e (omega (arith, length-returned_output output l, k))

effective_limit-call :
    (n : ℕ) (left : Option ℕ) → 0 < n → (l : ℕ) × ((effective_limit n left ≡ some l) × (l ≤ n))
unfolding effective_limit
effective_limit-call n none k = (n, (ground arith, ground arith))
effective_limit-call n (some left) k = (min n left, (ground arith, ground arith))

effective_limit-left :
    (n : ℕ) (b : ToolBudget) (left : ℕ)
    → remaining_output_chars b ≡ some left
    → (l : ℕ) × ((effective_limit n (remaining_of (some b)) ≡ some l) × (l ≤ left))
unfolding effective_limit remaining_of
effective_limit-left n b left e =
    (if ltb 0 n then min n left else left, (ground (arith, e), ground arith))

returned_output-uncut :
    (output : Text) (o : Option ℕ) → is_longer output o ≡ false → returned_output output o ≡ output
unfolding returned_output is_longer
returned_output-uncut output none e = refl
returned_output-uncut output (some l) e = ground arith

returned_output-cut :
    (output : Text) (o : Option ℕ)
    → is_longer output o ≡ true
    → length (returned_output output o) < length output
unfolding is_longer
returned_output-cut output none e = ground arith
returned_output-cut output (some l) e = ground (arith, length-returned_output output l)

-- With a budget within its limits, what the limit on a result returns is at most as long as the
-- limit of a call, if there is one; the usage of the budget goes up by exactly its length, with
-- every other field as it was, and stays within the limits; an output that was not cut is returned
-- as it is, and a cut one is shorter.
pub limit_result_output_lem :
    (n : ℕ) (r : ToolResult) (b : ToolBudget)
    → IsWithin b
    → (let x = limit_result_output n r (some b) in
        (0 < n → length x.0.output ≤ n)
        × ((x.1.0 ≡ some (record b { used_output_chars = b.used_output_chars + length x.0.output }))
            × (IsWithin (record b { used_output_chars = b.used_output_chars + length x.0.output })
                × ((x.1.1 ≡ false → x.0.output ≡ r.output)
                    × (x.1.1 ≡ true → length x.0.output < length r.output)))))
unfolding limit_result_output post_init
limit_result_output_lem n r b w =
    let o = effective_limit n (remaining_of (some b)) in
    let used = length (returned_output r.output o) in
    let (counted, left, calls, within) =
      consume_output-IsWithin b used w
        (λ left e. length-returned_output-of r.output o left (effective_limit-left n b left e)) in
    (
      λ k.
          length-returned_output-of r.output o n (effective_limit-call n (remaining_of (some b)) k),
      (
        ap some (consume_output-charge b used),
        (
          subst IsWithin (consume_output-charge b used) within,
          (returned_output-uncut r.output o, returned_output-cut r.output o),
        ),
      ),
    )
