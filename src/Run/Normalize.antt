-- ===== src/Run/Normalize.antt =====
-- Call ids that are missing or taken: `normalize_tool_calls` of
-- src/assistant_agent/agent/run/coordinator.py. Python's `strip`, the hash of `stable_call_id` and
-- the text of a suffixed id are parameters. Ids are given until fuel runs out; one more than the
-- ids in use is enough.
pub mod Fresh
pub mod Planned
use assistant_agent.Base.{
  ℕ, zero, suc, ◌+◌, String, Bool, true, false, not, ◌&&◌, ◌||◌, ◌==◌, Option, none, some, List, [],
  ◌∷◌, ◌++◌, length, filter, map, concat, contains, if◌then◌else◌,
}
use assistant_agent.Run.State.{ToolCall, Message, RunState}
use assistant_agent.Run.Consistency.{assistant_ids}

pub record Naming : Type 0 where
  pub strip : String → String
  pub stable_call_id : String → ℕ → ℕ → String
  pub suffixed : String → ℕ → String

-- `while candidate in used`.
unfoldable pub free_id : Naming → ℕ → List String → String → ℕ → String → Option String
free_id naming zero used base suffix candidate = none
free_id naming (suc fuel) used base suffix candidate = elim (contains used candidate) [
  | true ↦ free_id naming fuel used base (suc suffix) (naming.suffixed base (suc suffix))
  | false ↦ some candidate
]

unfoldable pub call_id_for : Naming → String → ℕ → List String → ℕ → String → Option String
call_id_for naming run_id iteration used index id =
    let stripped = naming.strip id in
    let base = naming.stable_call_id run_id iteration index in
    if (stripped == "") || contains used stripped
    then free_id naming (suc (suc (length used))) used base 0 base
    else some stripped

abbrev pub named : String → ToolCall → ToolCall
named id call = record call { id = id }

abbrev pub prepend : ToolCall → Option (List ToolCall) → Option (List ToolCall)
prepend call none = none
prepend call (some calls) = some (call ∷ calls)

-- The loop over the calls; `used` grows by each id that is given.
unfoldable pub name_calls :
    Naming → String → ℕ → List String → ℕ → List ToolCall → Option (List ToolCall)
name_calls naming run_id iteration used index [] = some []
name_calls naming run_id iteration used index (call ∷ calls) =
    elim (call_id_for naming run_id iteration used index call.id) [
      | none ↦ none
      | some id ↦
          prepend (named id call) (name_calls naming run_id iteration (id ∷ used) (suc index) calls)
    ]

-- The ids of the calls in the history, those that are not empty.
unfoldable pub used_ids : List Message → List String
used_ids messages = filter (λ id. not (id == "")) (assistant_ids messages)

unfoldable pub normalize_tool_calls : Naming → RunState → List ToolCall → Option (List ToolCall)
normalize_tool_calls naming state =
    name_calls naming state.run_id state.iteration (used_ids state.messages) 0
