-- ===== src/Budget.antt =====
-- The resource budget of a task, `ToolBudget` of src/assistant_agent/tools/models.py, and its
-- checkpoint form, `ToolBudgetState` of agent/run/state.py with the codec of
-- agent/run/checkpoint.py.
pub mod Limits
use assistant_agent.Base.{
  ℕ, ◌+◌, ◌-◌, max, Bool, true, ◌&&◌, Option, none, some, ltb, leb, eqb, if◌then◌else◌,
}
use assistant_agent.Base.Result.{Result, ok, err, validation_error}

-- The two reasons for which a budget refuses a call.
pub data Reason : Type 0 where
  max_tool_calls max_total_tool_output_chars : Reason

pub record ToolBudget : Type 0 where
  pub max_calls : ℕ
  pub max_total_output_chars : ℕ
  pub used_calls : ℕ
  pub used_output_chars : ℕ

-- A limit of 0 on the output means that it is not enforced.
unfoldable pub exhausted_reason : ToolBudget → Option Reason
exhausted_reason b =
    if leb b.max_calls b.used_calls
    then some max_tool_calls
    else if ltb 0 b.max_total_output_chars && leb b.max_total_output_chars b.used_output_chars
    then some max_total_tool_output_chars
    else none

unfoldable pub try_consume_call : ToolBudget → Option Reason × ToolBudget
try_consume_call b =
    if leb b.max_calls b.used_calls
    then (some max_tool_calls, b)
    else if ltb 0 b.max_total_output_chars && leb b.max_total_output_chars b.used_output_chars
    then (some max_total_tool_output_chars, b)
    else (none, record b { used_calls = b.used_calls + 1 })

unfoldable pub remaining_output_chars : ToolBudget → Option ℕ
remaining_output_chars b =
    if eqb b.max_total_output_chars 0
    then none
    else some (max (b.max_total_output_chars - b.used_output_chars) 0)

unfoldable pub consume_output : ℕ → ToolBudget → ToolBudget
consume_output chars b = record b { used_output_chars = b.used_output_chars + max chars 0 }

-- The strict checkpoint model: the constructor raises unless the usage fits the limits.
pub record ToolBudgetState : Type 0 where
  pub max_calls : ℕ
  pub max_total_output_chars : ℕ
  pub used_calls : ℕ
  pub used_output_chars : ℕ

unfoldable pub usage_is_consistent : ToolBudgetState → Bool
usage_is_consistent s =
    leb 1 s.max_calls
    && (leb s.used_calls s.max_calls
        && (if ltb 0 s.max_total_output_chars
            then leb s.used_output_chars s.max_total_output_chars
            else true))

unfoldable pub encode_budget : ToolBudget → Result ToolBudgetState
unfolding usage_is_consistent
encode_budget b =
    let s : ToolBudgetState = record {
      max_calls = b.max_calls;
      max_total_output_chars = b.max_total_output_chars;
      used_calls = b.used_calls;
      used_output_chars = b.used_output_chars;
    } in
    if usage_is_consistent s then ok s else err validation_error

unfoldable pub decode_budget : ToolBudgetState → ToolBudget
decode_budget s = record {
  max_calls = s.max_calls;
  max_total_output_chars = s.max_total_output_chars;
  used_calls = s.used_calls;
  used_output_chars = s.used_output_chars;
}
