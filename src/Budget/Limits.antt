-- ===== src/Budget/Limits.antt =====
-- What `ToolBudget` promises: its usage never passes its limits, and a refusal is stable.
use mathlib.Core.Option as Option
use assistant_agent.Base.{ℕ, ◌-◌, ◌+◌, ◌≤◌, ◌<◌, ◌≡◌, refl, none, some, arith}
use assistant_agent.Base.Result.{ok}
use assistant_agent.Budget.{
  Reason, ToolBudget, exhausted_reason, try_consume_call, remaining_output_chars, consume_output,
  ToolBudgetState, encode_budget, decode_budget,
}

-- The usage fits the limits; an output limit of 0 is no limit.
pub record IsWithin (b : ToolBudget) : Type 0 where
  pub some_calls : 1 ≤ b.max_calls
  pub calls : b.used_calls ≤ b.max_calls
  pub output : 0 < b.max_total_output_chars → b.used_output_chars ≤ b.max_total_output_chars

-- A call is consumed exactly when no limit is reached: the counter goes up by one and nothing else
-- changes; a refusal changes nothing and gives the reason that `exhausted_reason` gives. A budget
-- within its limits stays within them.
pub try_consume_call_lem :
    (b : ToolBudget)
    → ((try_consume_call b).0 ≡ exhausted_reason b)
      × ((exhausted_reason b ≡ none
            → (try_consume_call b).1 ≡ record b { used_calls = b.used_calls + 1 })
          × ((r : Reason) → exhausted_reason b ≡ some r → (try_consume_call b).1 ≡ b)
          × (IsWithin b → IsWithin (try_consume_call b).1))
unfolding try_consume_call exhausted_reason
try_consume_call_lem b = (ground arith, (λ h. ground arith, λ r h. ground arith, λ w. ground arith))

-- A charge changes the characters used only.
pub consume_output-charge :
    (b : ToolBudget) (n : ℕ)
    → consume_output n b ≡ record b { used_output_chars = b.used_output_chars + n }
unfolding consume_output
consume_output-charge b n = ground arith

-- Output that fits the remaining budget is counted in full: the usage goes up by its length, what
-- remains goes down by it, an unlimited budget stays unlimited, the calls are not touched, and the
-- budget stays within its limits.
pub consume_output-IsWithin :
    (b : ToolBudget) (n : ℕ)
    → IsWithin b
    → ((left : ℕ) → remaining_output_chars b ≡ some left → n ≤ left)
    → ((consume_output n b).used_output_chars ≡ b.used_output_chars + n)
      × (remaining_output_chars (consume_output n b)
          ≡ Option.map (λ left. left - n) (remaining_output_chars b))
      × ((consume_output n b).used_calls ≡ b.used_calls)
      × IsWithin (consume_output n b)
unfolding remaining_output_chars consume_output
consume_output-IsWithin b n w h = (
  ground arith,
  ground (arith, h (b.max_total_output_chars - b.used_output_chars)),
  refl,
  ground (arith, h (b.max_total_output_chars - b.used_output_chars)),
)

-- A budget has a checkpoint form exactly when it is within its limits, and then the form decodes to
-- the same budget.
pub encode_budget_iff :
    (b : ToolBudget)
    → (IsWithin b → (s : ToolBudgetState) × (encode_budget b ≡ ok s) × (decode_budget s ≡ b))
      × ((s : ToolBudgetState) → encode_budget b ≡ ok s → IsWithin b)
unfolding encode_budget decode_budget
encode_budget_iff b = (
  λ w. (
    record {
      max_calls = b.max_calls;
      max_total_output_chars = b.max_total_output_chars;
      used_calls = b.used_calls;
      used_output_chars = b.used_output_chars;
    },
    ground arith,
    refl,
  ),
  λ s h. ground arith,
)
