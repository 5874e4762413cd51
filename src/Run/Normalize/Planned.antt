-- ===== src/Run/Normalize/Planned.antt =====
-- Named calls on record: `normalize_tool_calls` and `model_completed` of
-- src/assistant_agent/agent/run/coordinator.py against the state's validator of calls.
use assistant_agent.Base.{
  ◌≡◌, refl, sym, ap, ◌∙◌, subst, String, Bool, ℕ, zero, suc, true, false, not, ◌&&◌, ◌||◌, ◌==◌,
  eq_refl, Option, none, some, length, Bool-cases, Option-cases, inl, inr, List, [], ◌∷◌, ◌++◌, map,
  all, contains, contains-append, append_nil, append_assoc, arith,
}
use assistant_agent.ToolResult.{Text}
use assistant_agent.Run.State.{ToolCall, Message, RunState}
use assistant_agent.Run.Consistency.{
  ids, call_ids, assistant_ids, result_ids, calls_fit, calls_answered, result_fits,
}
use assistant_agent.Run.Coordinator.{planned_call}
use assistant_agent.Run.Normalize.{
  Naming, used_ids, normalize_tool_calls, free_id, call_id_for, name_calls, named, prepend,
}
use assistant_agent.Run.Normalize.Fresh.{Injective, apart, normalize_tool_calls-Renamed}

call_ids-planned : (cs : List ToolCall) → call_ids (map planned_call cs) ≡ ids cs
call_ids-planned [] = refl
call_ids-planned (c ∷ cs) = ap (λ xs. c.id ∷ xs) (call_ids-planned cs)

-- The call has an id and a name.
abbrev is_named : ToolCall → Bool
is_named c = not (c.id == "") && not (c.name == "")

planned_result : (c : ToolCall) → is_named c ≡ true → result_fits (planned_call c) ≡ true
unfolding result_fits
planned_result c h = ground arith

planned_results :
    (cs : List ToolCall) → all is_named cs ≡ true → all result_fits (map planned_call cs) ≡ true
planned_results [] h = refl
planned_results (c ∷ cs) h = ground (arith, planned_result c, planned_results cs)

-- The ids that a naming makes are not empty.
abbrev pub MakesIds : Naming → Type 0
MakesIds naming =
    ((base : String) (n : ℕ) → (naming.suffixed base n == "") ≡ false)
    × ((run_id : String) (iteration index : ℕ)
        → (naming.stable_call_id run_id iteration index == "") ≡ false)

IsId : Option String → Type 0
IsId none = Unit
IsId (some id) = (id == "") ≡ false

free_id-IsId :
    (naming : Naming) (fuel : ℕ) (used : List String) (base : String) (suffix : ℕ)
    (candidate : String)
    → MakesIds naming
    → (candidate == "") ≡ false
    → IsId (free_id naming fuel used base suffix candidate)
unfolding free_id IsId
free_id-IsId naming zero used base suffix candidate makes h = tt
free_id-IsId naming (suc fuel) used base suffix candidate makes h =
    elim (Bool-cases (contains used candidate)) [
      | inl e ↦
          rw (free_id, e)
            (free_id-IsId naming fuel used base (suc suffix) (naming.suffixed base (suc suffix))
              makes (makes.0 base (suc suffix)))
      | inr e ↦ rw (free_id, e) h
    ]

call_id_for-IsId :
    (naming : Naming) (run_id : String) (iteration : ℕ) (used : List String) (index : ℕ)
    (id : String)
    → MakesIds naming
    → IsId (call_id_for naming run_id iteration used index id)
unfolding call_id_for IsId
call_id_for-IsId naming run_id iteration used index id makes =
    let stripped = naming.strip id in
    elim (Bool-cases ((stripped == "") || contains used stripped)) [
      | inl e ↦
          rw (call_id_for, e)
            (free_id-IsId naming (suc (suc (length used))) used _ 0 _ makes
              (makes.1 run_id iteration index))
      | inr e ↦ rw (call_id_for, e) (ground (arith, e))
    ]

AreNamed : Option (List ToolCall) → Type 0
AreNamed none = Unit
AreNamed (some calls) = all is_named calls ≡ true

prepend-AreNamed :
    (id : String) (call : ToolCall) (r : Option (List ToolCall))
    → (id == "") ≡ false
    → (call.name == "") ≡ false
    → AreNamed r
    → AreNamed (prepend (named id call) r)
unfolding AreNamed
prepend-AreNamed id call none h k rest = tt
prepend-AreNamed id call (some calls) h k rest = ground (arith, rest)

name_calls-AreNamed :
    (naming : Naming) (run_id : String) (iteration : ℕ) (used : List String) (index : ℕ)
    (calls : List ToolCall)
    → MakesIds naming
    → all (λ c. not (c.name == "")) calls ≡ true
    → AreNamed (name_calls naming run_id iteration used index calls)
unfolding name_calls AreNamed IsId
name_calls-AreNamed naming run_id iteration used index [] makes h = refl
name_calls-AreNamed naming run_id iteration used index (call ∷ calls) makes h =
    elim (Option-cases (call_id_for naming run_id iteration used index call.id)) [
      | inl e ↦ rw (name_calls, e) tt
      | inr (id, e) ↦
          rw (name_calls, e)
            (prepend-AreNamed id call
              (name_calls naming run_id iteration (id ∷ used) (suc index) calls)
              (subst IsId e (call_id_for-IsId naming run_id iteration used index call.id makes))
              (ground (arith, h))
              (name_calls-AreNamed naming run_id iteration (id ∷ used) (suc index) calls makes
                (ground (arith, h))))
    ]

planned_answered :
    (made answered : List String) (cs : List ToolCall)
    → all (contains made) (ids cs) ≡ true
    → apart answered (ids cs) ≡ true
    → calls_answered made answered (map planned_call cs) ≡ true
unfolding calls_answered
planned_answered made answered [] h k = refl
planned_answered made answered (c ∷ cs) h k =
    ground (arith, h, k, planned_answered made answered cs)

contains_last : (first xs : List String) → all (contains (first ++ xs)) xs ≡ true
contains_last first [] = refl
contains_last first (x ∷ xs) =
    let rest : all (contains (first ++ x ∷ xs)) xs ≡ true =
      subst (λ ys. all (contains ys) xs ≡ true) (append_assoc first (x ∷ []) xs)
        (contains_last (first ++ x ∷ []) xs) in
    ground (arith, rest, contains-append first (x ∷ xs) x, eq_refl x)

apart-fewer :
    (more fewer xs : List String)
    → ((id : String) → contains fewer id ≡ true → contains more id ≡ true)
    → apart more xs ≡ true
    → apart fewer xs ≡ true
apart-fewer more fewer [] h k = refl
apart-fewer more fewer (x ∷ xs) h k = ground (arith, h x, k, apart-fewer more fewer xs h)

assistant_ids-snoc :
    (ms : List Message) (text : Text) (calls : List ToolCall)
    → assistant_ids (ms ++ Message.assistant text calls ∷ []) ≡ assistant_ids ms ++ ids calls
assistant_ids-snoc [] text calls = append_nil (ids calls)
assistant_ids-snoc (Message.user t ∷ ms) text calls = assistant_ids-snoc ms text calls
assistant_ids-snoc (Message.tool i n t ∷ ms) text calls = assistant_ids-snoc ms text calls
assistant_ids-snoc (Message.assistant t cs ∷ ms) text calls =
    ap (λ xs. ids cs ++ xs) (assistant_ids-snoc ms text calls)
    ∙ sym (append_assoc (ids cs) (assistant_ids ms) (ids calls))

result_ids-snoc :
    (ms : List Message) (text : Text) (calls : List ToolCall)
    → result_ids (ms ++ Message.assistant text calls ∷ []) ≡ result_ids ms
result_ids-snoc [] text calls = refl
result_ids-snoc (Message.user t ∷ ms) text calls = result_ids-snoc ms text calls
result_ids-snoc (Message.assistant t cs ∷ ms) text calls = result_ids-snoc ms text calls
result_ids-snoc (Message.tool i n t ∷ ms) text calls =
    ap (λ xs. i ∷ xs) (result_ids-snoc ms text calls)

-- Calls that a model names as it likes pass the validator of the run's calls once they are named
-- and recorded after the message that makes them: each has an id and a name, the ids are distinct
-- and made, and none is answered yet. The names are not empty, nor are the ids that the naming
-- makes, suffixed ids differ by their suffixes, and every result of the history answers a call of
-- it.
pub normalize_tool_calls-calls_fit :
    (naming : Naming) (state : RunState) (calls : List ToolCall) (text : Text)
    → Injective naming
    → MakesIds naming
    → all (λ c. not (c.name == "")) calls ≡ true
    → ((id : String)
        → contains (result_ids state.messages) id ≡ true
        → contains (used_ids state.messages) id ≡ true)
    → (out : List ToolCall) × (normalize_tool_calls naming state calls ≡ some out)
      × (calls_fit (state.messages ++ Message.assistant text out ∷ []) (map planned_call out)
          ≡ true)
unfolding calls_fit normalize_tool_calls AreNamed
normalize_tool_calls-calls_fit naming state calls text inj makes titles h =
    let (out, e, same, differ, clear) = normalize_tool_calls-Renamed naming state calls inj in
    let complete : all is_named out ≡ true = subst AreNamed e (
      name_calls-AreNamed naming state.run_id state.iteration (used_ids state.messages) 0 calls
        makes titles) in
    let made = assistant_ids state.messages ++ ids out in
    let answered = result_ids state.messages in
    (
      out,
      e,
      rw
          (
            assistant_ids-snoc state.messages text out,
            result_ids-snoc state.messages text out,
            call_ids-planned out,
            differ,
            planned_results out complete,
          )
          (planned_answered made answered out
            (contains_last (assistant_ids state.messages) (ids out))
            (apart-fewer (used_ids state.messages) answered (ids out) h clear)),
    )
