-- ===== src/Run/Calls.antt =====
-- Lemmas on the calls of a batch: what an update of one call does to the validators.
use assistant_agent.Base.{
  String, ◌≡◌, ◌∙◌, refl, ap, true, false, some, List, [], ◌∷◌, ◌++◌, arith, ◌==◌, eq_iff, eq_refl,
  is_some, all, contains, distinct, contains-append, Bool-cases, inl, inr,
}
use assistant_agent.ToolResult.{Text}
use assistant_agent.Run.State.{ToolCallState, Message}
use assistant_agent.Run.Consistency.{
  is_resolved, result_fits, call_ids, ids, assistant_ids, result_ids, calls_answered, all_resolved,
}
use assistant_agent.Run.Coordinator.{find_call, update_call}

pub assistant_ids-tool :
    (ms : List Message) (id name : String) (content : Text)
    → assistant_ids (ms ++ Message.tool id name content ∷ []) ≡ assistant_ids ms
assistant_ids-tool [] id name content = refl
assistant_ids-tool (Message.user t ∷ ms) id name content = assistant_ids-tool ms id name content
assistant_ids-tool (Message.assistant t cs ∷ ms) id name content =
    ap (λ xs. ids cs ++ xs) (assistant_ids-tool ms id name content)
assistant_ids-tool (Message.tool a b t ∷ ms) id name content = assistant_ids-tool ms id name content

pub result_ids-tool :
    (ms : List Message) (id name : String) (content : Text)
    → result_ids (ms ++ Message.tool id name content ∷ []) ≡ result_ids ms ++ id ∷ []
result_ids-tool [] id name content = refl
result_ids-tool (Message.user t ∷ ms) id name content = result_ids-tool ms id name content
result_ids-tool (Message.assistant t cs ∷ ms) id name content = result_ids-tool ms id name content
result_ids-tool (Message.tool a b t ∷ ms) id name content =
    ap (λ xs. a ∷ xs) (result_ids-tool ms id name content)

-- A call that is found has the id that was looked up.
pub find_call-id :
    (id : String) (cs : List ToolCallState) (found : ToolCallState)
    → find_call id cs ≡ some found
    → found.id ≡ id
find_call-id id [] found h = cc
find_call-id id (c ∷ cs) found h = ground (arith, find_call-id id cs found, eq_iff c.id id)

module _ (id : String) (f : ToolCallState → ToolCallState)
    (keep : (c : ToolCallState) → (f c).id ≡ c.id) where
  pub call_ids-update : (cs : List ToolCallState) → call_ids (update_call id f cs) ≡ call_ids cs
  call_ids-update [] = refl
  call_ids-update (c ∷ cs) = ground (arith, keep c, call_ids-update cs)

  -- An update that leaves an unresolved call unresolved, with its result as it is.
  module _
      (unresolved : (c : ToolCallState)
        → is_resolved c.status ≡ false
        → is_resolved (f c).status ≡ false)
      (kept : (c : ToolCallState)
        → is_resolved c.status ≡ false
        → result_fits c ≡ true
        → result_fits (f c) ≡ true) where
    pub result_fits-update_open :
        (cs : List ToolCallState) (found : ToolCallState)
        → find_call id cs ≡ some found
        → is_resolved found.status ≡ false
        → all result_fits cs ≡ true
        → all result_fits (update_call id f cs) ≡ true
    result_fits-update_open [] found e u h = h
    result_fits-update_open (c ∷ cs) found e u h =
        ground (arith, kept c, unresolved c, result_fits-update_open cs found)

    pub calls_answered-update_open :
        (made answered : List String) (cs : List ToolCallState) (found : ToolCallState)
        → find_call id cs ≡ some found
        → is_resolved found.status ≡ false
        → calls_answered made answered (update_call id f cs) ≡ calls_answered made answered cs
    unfolding calls_answered
    calls_answered-update_open made answered [] found e u = refl
    calls_answered-update_open made answered (c ∷ cs) found e u =
        ground (arith, keep c, unresolved c, calls_answered-update_open made answered cs found)

-- An update that resolves a call: it has a result, and its id is answered by one more message.
module _ (id : String) (f : ToolCallState → ToolCallState)
    (keep : (c : ToolCallState) → (f c).id ≡ c.id)
    (resolved : (c : ToolCallState) → is_resolved (f c).status ≡ true)
    (answer : (c : ToolCallState) → is_some (f c).result ≡ true)
    (title : (c : ToolCallState) → (f c).name ≡ c.name) where
  result_fits-resolve : (c : ToolCallState) → result_fits c ≡ true → result_fits (f c) ≡ true
  unfolding result_fits
  result_fits-resolve c h = rw (keep c, title c, resolved c, answer c) (ground arith)

  pub result_fits-update_resolve :
      (cs : List ToolCallState)
      → all result_fits cs ≡ true
      → all result_fits (update_call id f cs) ≡ true
  result_fits-update_resolve [] h = h
  result_fits-update_resolve (c ∷ cs) h =
      ground (arith, result_fits-resolve c, result_fits-update_resolve cs)

  -- Where no call has the id, one more answer to it changes nothing.
  calls_answered-absent :
      (made answered : List String) (cs : List ToolCallState)
      → contains (call_ids cs) id ≡ false
      → calls_answered made (answered ++ id ∷ []) cs ≡ calls_answered made answered cs
  unfolding calls_answered
  calls_answered-absent made answered [] h = refl
  calls_answered-absent made answered (c ∷ cs) h = ground (
    arith,
    contains-append answered (id ∷ []) c.id,
    eq_iff c.id id,
    eq_iff id c.id,
    calls_answered-absent made answered cs,
  )

  contains-snoc : (xs : List String) → contains (xs ++ id ∷ []) id ≡ true
  contains-snoc [] = ground (arith, eq_refl id)
  contains-snoc (x ∷ xs) = ground (arith, contains-snoc xs)

  contains-snoc_ne :
      (xs : List String) (x : String) → x == id ≡ false → contains (xs ++ id ∷ []) x ≡ contains xs x
  contains-snoc_ne [] x h = ground (arith, eq_iff x id, eq_iff id x)
  contains-snoc_ne (y ∷ xs) x h = ground (arith, contains-snoc_ne xs x)

  pub calls_answered-update_resolve :
      (made answered : List String) (cs : List ToolCallState)
      → distinct (call_ids cs) ≡ true
      → contains (call_ids cs) id ≡ true
      → calls_answered made answered cs ≡ true
      → calls_answered made (answered ++ id ∷ []) (update_call id f cs) ≡ true
  unfolding calls_answered
  calls_answered-update_resolve made answered [] d m h = cc
  calls_answered-update_resolve made answered (c ∷ cs) d m h = elim (Bool-cases (c.id == id)) [
    | inl here ↦
        let e : c.id ≡ id = (eq_iff c.id id).0 here in
        let e' : (f c).id ≡ id = keep c ∙ e in
        rw (here, e', contains-snoc answered, resolved c)
          (ground (arith, calls_answered-absent made answered cs, e))
    | inr there ↦
        rw (there, contains-snoc_ne answered c.id there)
          (ground (arith, calls_answered-update_resolve made answered cs))
  ]

-- Of a batch that holds an unresolved call, not every call is resolved.
pub all_resolved-find :
    (id : String) (cs : List ToolCallState) (found : ToolCallState)
    → find_call id cs ≡ some found
    → is_resolved found.status ≡ false
    → all_resolved cs ≡ false
unfolding all_resolved
all_resolved-find id [] found e u = cc
all_resolved-find id (c ∷ cs) found e u = ground (arith, all_resolved-find id cs found)

pub contains-find :
    (id : String) (cs : List ToolCallState) (found : ToolCallState)
    → find_call id cs ≡ some found
    → contains (call_ids cs) id ≡ true
contains-find id [] found e = cc
contains-find id (c ∷ cs) found e = ground (arith, contains-find id cs found)

pub find_call-update :
    (id : String) (f : ToolCallState → ToolCallState) (cs : List ToolCallState)
    (found : ToolCallState)
    → ((c : ToolCallState) → (f c).id ≡ c.id)
    → find_call id cs ≡ some found
    → find_call id (update_call id f cs) ≡ some (f found)
find_call-update id f [] found keep e = cc
find_call-update id f (c ∷ cs) found keep e = elim (Bool-cases (c.id == id)) [
  | inl here ↦
      let same_id : (f c).id == id ≡ true =
        (eq_iff (f c).id id).1 (keep c ∙ (eq_iff c.id id).0 here) in
      ground (arith)
  | inr there ↦ rw (there, there) (find_call-update id f cs found keep (ground arith))
]
