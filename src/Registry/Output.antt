-- ===== src/Registry/Output.antt =====
-- The limits on the output of one call: `_truncate_output` and `_limit_result_output` of
-- src/assistant_agent/tools/registry.py.
pub mod Limits
use assistant_agent.Base.{
  ℕ, ◌-◌, min, String, Bool, true, false, ◌&&◌, Option, none, some, List, [], ◌∷◌, ◌++◌, length,
  take, ltb, leb, eqb, if◌then◌else◌,
}
use assistant_agent.Budget.{
  Reason, max_total_tool_output_chars, ToolBudget, remaining_output_chars, consume_output,
}
use assistant_agent.ToolResult.{Text, codes, ToolResult, post_init}

abbrev pub truncation_suffix : Text
truncation_suffix = codes "\n…（输出已截断，可缩小范围重试）"

-- The text that marks a cut is given by its code points.
unfoldable pub truncate_with : Text → Text → ℕ → Text
truncate_with suffix output limit =
    if leb limit 0
    then []
    else if leb (length output) limit
    then output
    else if leb limit (length suffix)
    then take limit suffix
    else take (limit - length suffix) output ++ suffix

unfoldable pub truncate_output : Text → ℕ → Text
truncate_output = truncate_with truncation_suffix

unfoldable pub remaining_of : Option ToolBudget → Option ℕ
remaining_of none = none
remaining_of (some b) = remaining_output_chars b

-- The smaller of the limits in force: that of a call, where 0 is none, and the rest of the budget.
unfoldable pub effective_limit : ℕ → Option ℕ → Option ℕ
effective_limit max_output_chars none =
    if ltb 0 max_output_chars then some max_output_chars else none
effective_limit max_output_chars (some left) =
    if ltb 0 max_output_chars then some (min max_output_chars left) else some left

unfoldable pub is_longer : Text → Option ℕ → Bool
is_longer output none = false
is_longer output (some limit) = ltb limit (length output)

unfoldable pub returned_output : Text → Option ℕ → Text
returned_output output none = output
returned_output output (some limit) =
    if ltb limit (length output) then truncate_output output limit else output

-- Whether the rest of the budget is what cut the output.
unfoldable pub cut_by_budget : Text → Option ℕ → Option ℕ → Bool
cut_by_budget output limit none = false
cut_by_budget output none (some left) = false
cut_by_budget output (some limit) (some left) =
    ltb limit (length output) && (eqb limit left && ltb left (length output))

abbrev pub consume : ℕ → Option ToolBudget → Option ToolBudget
consume n none = none
consume n (some b) = some (consume_output n b)

-- The result, the budget afterwards, and whether the output was cut.
unfoldable pub limit_result_output :
    ℕ → ToolResult → Option ToolBudget → ToolResult × (Option ToolBudget × Bool)
limit_result_output max_output_chars result budget =
    let left = remaining_of budget in
    let limit = effective_limit max_output_chars left in
    let returned = returned_output result.output limit in
    (
      post_init (record result {
        output = returned;
        budget_exhausted =
            if cut_by_budget result.output limit left
            then some max_total_tool_output_chars
            else result.budget_exhausted;
      }),
      (consume (length returned) budget, is_longer result.output limit),
    )
