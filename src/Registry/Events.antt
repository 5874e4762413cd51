-- ===== src/Registry/Events.antt =====
-- What the lifecycle of a tool call is told, in order: src/assistant_agent/tools/registry.py.
use mathlib.Core.List.{append-nil}
use assistant_agent.Base.{
  ◌≡◌, refl, sym, ap, Bool, true, false, Option, none, some, List, [], ◌∷◌, ◌++◌, inl, inr, arith,
  is_some, Bool-cases, if◌then◌else◌,
}
use assistant_agent.Base.Result.{ok, err, storage_error}
use assistant_agent.ToolResult.{ToolResult}
use assistant_agent.Run.State.{ReplayPolicy}
use assistant_agent.Permissions.Requests.{PermissionRequest}
use assistant_agent.Registry.{
  Event, approval_pending, tool_started, tool_run, tool_completed, Execution, notify,
}

-- The completion ends a call, if it was saved.
unfoldable pub closes : List Event → Bool
closes [] = true
closes (Event.tool_completed r q p ∷ []) = true
closes _ = false

-- A run, directly after a start where there is a lifecycle, or no run.
unfoldable pub starts : Bool → List Event → Bool
starts true (Event.tool_started q p ∷ Event.tool_run ∷ rest) = closes rest
starts false (Event.tool_run ∷ rest) = closes rest
starts b rest = closes rest

pub closes-nothing : closes [] ≡ true
unfolding closes
closes-nothing = refl

-- At most one question comes first.
unfoldable pub IsOrdered : Bool → List Event → Type 0
IsOrdered b (Event.approval_pending q p ∷ rest) = starts b rest ≡ true
IsOrdered b rest = starts b rest ≡ true

-- What a step adds to the events.
pub record Adds (P : List Event → Type 0) (before after : List Event) : Type 0 where
  pub tail : List Event
  pub added : after ≡ before ++ tail
  pub fits : P tail

unfoldable pub told : Option (Event → Bool) → Event → List Event
told none e = []
told (some accepts) e = if accepts e then e ∷ [] else []

unfoldable pub is_told : Option (Event → Bool) → Event → Bool
is_told none e = true
is_told (some accepts) e = accepts e

pub notify_lem :
    (l : Option (Event → Bool)) (e : Event) (x : Execution)
    → notify l e x ≡ (
      if is_told l e then ok tt else err storage_error,
      record x { events = x.events ++ told l e },
    )
unfolding notify told is_told
notify_lem none e x = ap (λ es. (ok tt, record x { events = es })) (sym (append-nil x.events))
notify_lem (some accepts) e x = elim (Bool-cases (accepts e)) [
  | inl k ↦ rw k refl
  | inr k ↦
      rw k (ap (λ es. (err storage_error, record x { events = es })) (sym (append-nil x.events)))
]

-- What is not told adds no event.
pub told-nothing : (l : Option (Event → Bool)) (e : Event) → is_told l e ≡ false → told l e ≡ []
unfolding told is_told
told-nothing none e h = ground arith
told-nothing (some accepts) e h = rw h refl

pub closes-told :
    (l : Option (Event → Bool)) (r : ToolResult) (q : List PermissionRequest) (p : ReplayPolicy)
    → closes (told l (tool_completed r q p)) ≡ true
unfolding told closes
closes-told none r q p = refl
closes-told (some accepts) r q p = elim (Bool-cases (accepts (tool_completed r q p))) [
  | inl k ↦ rw k refl
  | inr k ↦ rw k refl
]

pub closes-starts : (b : Bool) (es : List Event) → closes es ≡ true → starts b es ≡ true
unfolding closes starts
closes-starts true [] h = refl
closes-starts true (Event.approval_pending q p ∷ es) h = h
closes-starts true (Event.tool_started q p ∷ es) h = ground arith
closes-starts true (Event.tool_run ∷ es) h = ground arith
closes-starts true (Event.tool_completed r q p ∷ es) h = h
closes-starts false [] h = refl
closes-starts false (Event.approval_pending q p ∷ es) h = h
closes-starts false (Event.tool_started q p ∷ es) h = ground arith
closes-starts false (Event.tool_run ∷ es) h = ground arith
closes-starts false (Event.tool_completed r q p ∷ es) h = h

pub starts-told :
    (l : Option (Event → Bool)) (q : List PermissionRequest) (p : ReplayPolicy) (rest : List Event)
    → closes rest ≡ true
    → starts (is_some l) (
        told l (tool_started q p) ++ (if is_told l (tool_started q p) then tool_run ∷ rest else []))
      ≡ true
unfolding told is_told closes starts
starts-told none q p rest h = h
starts-told (some accepts) q p rest h = elim (Bool-cases (accepts (tool_started q p))) [
  | inl k ↦ rw k h
  | inr k ↦ rw k refl
]

pub starts-IsOrdered : (b : Bool) (es : List Event) → starts b es ≡ true → IsOrdered b es
unfolding starts IsOrdered closes
starts-IsOrdered true [] h = h
starts-IsOrdered true (Event.approval_pending q p ∷ es) h = ground arith
starts-IsOrdered true (Event.tool_started q p ∷ es) h = h
starts-IsOrdered true (Event.tool_run ∷ es) h = h
starts-IsOrdered true (Event.tool_completed r q p ∷ es) h = h
starts-IsOrdered false [] h = h
starts-IsOrdered false (Event.approval_pending q p ∷ es) h = ground arith
starts-IsOrdered false (Event.tool_started q p ∷ es) h = h
starts-IsOrdered false (Event.tool_run ∷ es) h = h
starts-IsOrdered false (Event.tool_completed r q p ∷ es) h = h

-- The same step by a weaker test.
pub weaken :
    {P Q : List Event → Type 0} {before after : List Event}
    → ((es : List Event) → P es → Q es)
    → Adds P before after
    → Adds Q before after
weaken k a = record { tail = a.tail; added = a.added; fits = k a.tail a.fits }

pub asked-IsOrdered :
    (l : Option (Event → Bool)) (q : List PermissionRequest) (p : ReplayPolicy) (rest : List Event)
    → starts (is_some l) rest ≡ true
    → IsOrdered (is_some l) (told l (approval_pending q p) ++ rest)
unfolding told IsOrdered
asked-IsOrdered none q p rest h = starts-IsOrdered false rest h
asked-IsOrdered (some accepts) q p rest h = elim (Bool-cases (accepts (approval_pending q p))) [
  | inl k ↦ rw k h
  | inr k ↦ rw k (starts-IsOrdered true rest h)
]
