-- ===== src/Context/Blocks/Costs.antt =====
-- The lengths and costs of fitted blocks: src/assistant_agent/agent/context/conversation.py.
use assistant_agent.Base.{
  ℕ, suc, ◌+◌, ◌-◌, ◌/◌, ◌≤◌, ◌≡◌, some, List, [], ◌∷◌, ◌++◌, map, length, take, drop, length-take,
  length-drop, length-append, arith, Option-cases, inl, inr,
}
use assistant_agent.ToolResult.{Text}
use assistant_agent.Run.State.{Message}
use assistant_agent.Context.Window.{content, conservative_tokens, truncate_text_to_tokens}
use assistant_agent.Context.Blocks.{
  with_content, shrink_around, shrink_marker, shrink_message, share_out, cost, fit_message,
  fit_calls, fit_block,
}

quotient_le : (n k : ℕ) → n / suc k ≤ n
quotient_le n k = grind arith

pub length-shrink_around :
    (marker : Text) (limit : ℕ) (text : Text)
    → length (shrink_around marker limit text) ≤ length text
unfolding shrink_around
length-shrink_around marker limit text =
    let head = (limit - length marker) / 2 in
    let tail = limit - length marker - head in
    ground (
      arith,
      length-take limit marker,
      length-take head text,
      length-drop (length text - tail) text,
      length-append marker (drop (length text - tail) text),
      length-append (take head text) (marker ++ drop (length text - tail) text),
    )

pub tokens-with_content :
    (text : Text) (m : Message)
    → conservative_tokens (with_content text m) + length (content m)
      ≡ conservative_tokens m + length text
unfolding conservative_tokens
tokens-with_content text (Message.user old) = omega arith
tokens-with_content text (Message.assistant old calls) = omega arith
tokens-with_content text (Message.tool id name old) = omega arith

pub tokens-cleared :
    (text : Text) (m : Message)
    → conservative_tokens (with_content text m)
      ≡ conservative_tokens (with_content [] m) + length text
unfolding conservative_tokens
tokens-cleared text (Message.user old) = omega arith
tokens-cleared text (Message.assistant old calls) = omega arith
tokens-cleared text (Message.tool id name old) = omega arith

pub cost-share_out :
    (remaining : ℕ) (ms : List Message)
    → cost conservative_tokens (share_out remaining ms)
      ≤ cost conservative_tokens (map (with_content []) ms) + remaining
unfolding share_out truncate_text_to_tokens
cost-share_out remaining [] = omega arith
cost-share_out remaining (m ∷ ms) =
    let text = take (remaining / suc (length ms) - 0) (content m) in
    omega (
      arith,
      cost-share_out (remaining - length text) ms,
      tokens-cleared text m,
      length-take (remaining / suc (length ms) - 0) (content m),
      quotient_le remaining (length ms),
    )

-- A fitted message costs no more than the budget.
pub cost-fit_message :
    (m : Message) (budget : ℕ) (fitted : Message)
    → fit_message conservative_tokens m budget ≡ some fitted
    → conservative_tokens fitted ≤ budget
unfolding fit_message
cost-fit_message m budget fitted h = ground arith

cost-fit_calls :
    (m : Message) (results : List Message) (budget : ℕ) (fitted : List Message)
    → fit_calls conservative_tokens m results budget ≡ some fitted
    → cost conservative_tokens fitted ≤ budget
unfolding fit_calls
cost-fit_calls m results budget fitted h =
    let fixed = cost conservative_tokens (m ∷ map (with_content []) results) in
    ground (arith, cost-share_out (budget - fixed) results)

pub cost-fit_block :
    (block : List Message) (budget : ℕ) (fitted : List Message)
    → fit_block conservative_tokens block budget ≡ some fitted
    → cost conservative_tokens fitted ≤ budget
unfolding fit_block
cost-fit_block [] budget fitted h = ground arith
cost-fit_block (m ∷ ms) budget fitted h =
    elim (Option-cases (fit_message conservative_tokens m budget)) [
      | inl e ↦ ground (arith, e, cost-fit_calls m ms budget fitted)
      | inr (f, e) ↦
          ground (arith, e, cost-fit_calls m ms budget fitted, cost-fit_message m budget f e)
    ]

pub tokens-shrink_message :
    (limit : ℕ) (m : Message) → conservative_tokens (shrink_message limit m) ≤ conservative_tokens m
unfolding shrink_message
tokens-shrink_message limit m = ground (
  arith,
  tokens-with_content (shrink_around shrink_marker limit (content m)) m,
  length-shrink_around shrink_marker limit (content m),
)
