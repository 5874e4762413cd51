-- ===== src/Control.antt =====
-- Pause and cancel: `ControlState` of src/assistant_agent/agent/run/ports.py and `RunControl` of
-- src/assistant_agent/execution/control.py. A request is one step under the lock; `wait` is left
-- out.
use assistant_agent.Base.{ℕ, ◌≤◌, ◌<◌, ◌≡◌, refl, Bool, true, false, ltb, if◌then◌else◌, arith}

pub data ControlState : Type 0 where
  running pause_requested cancel_requested : ControlState

abbrev pub level : ControlState → ℕ
level ControlState.running = 0
level ControlState.pause_requested = 1
level ControlState.cancel_requested = 2

pub record RunControl : Type 0 where
  pub state : ControlState
  pub changed : Bool

abbrev pub max_state : ControlState → ControlState → ControlState
max_state a b = if ltb (level a) (level b) then b else a

unfoldable pub upgrade : ControlState → RunControl → RunControl
upgrade target c = record { state = max_state c.state target; changed = true }

unfoldable pub request_pause : RunControl → RunControl
request_pause = upgrade ControlState.pause_requested

unfoldable pub request_cancel : RunControl → RunControl
request_cancel = upgrade ControlState.cancel_requested

-- The first request pauses, a later one cancels.
abbrev pub interrupt_target : ControlState → ControlState
interrupt_target ControlState.running = ControlState.pause_requested
interrupt_target ControlState.pause_requested = ControlState.cancel_requested
interrupt_target ControlState.cancel_requested = ControlState.cancel_requested

unfoldable pub request_interrupt : RunControl → RunControl
request_interrupt c = record {
  state = max_state c.state (interrupt_target c.state);
  changed = true;
}

unfoldable pub reset : RunControl → RunControl
reset c = record { state = ControlState.running; changed = false }

-- A request by any thread; `reset` is none.
pub data Request : RunControl → RunControl → Type 0 where
  pausing : {c : RunControl} → Request c (request_pause c)
  cancelling : {c : RunControl} → Request c (request_cancel c)
  interrupting : {c : RunControl} → Request c (request_interrupt c)

pub data Requests : RunControl → RunControl → Type 0 where
  done : {c : RunControl} → Requests c c
  step : {a b c : RunControl} → Request a b → Requests b c → Requests a c

max_state-level :
    (a b : ControlState) → (level a ≤ level (max_state a b)) × (level b ≤ level (max_state a b))
max_state-level a b = (ground arith, ground arith)

interrupt_target-level : (a : ControlState) → 0 < level (interrupt_target a)
interrupt_target-level ControlState.running = omega arith
interrupt_target-level ControlState.pause_requested = omega arith
interrupt_target-level ControlState.cancel_requested = omega arith

Request-level : (a b : RunControl) → Request a b → level a.state ≤ level b.state
unfolding request_pause request_cancel request_interrupt upgrade
Request-level a b pausing = (max_state-level a.state ControlState.pause_requested).0
Request-level a b cancelling = (max_state-level a.state ControlState.cancel_requested).0
Request-level a b interrupting = (max_state-level a.state (interrupt_target a.state)).0

-- Requests by any threads, in any order, never lower the state.
pub Requests-level : (a b : RunControl) → Requests a b → level a.state ≤ level b.state
Requests-level a b done = omega arith
Requests-level a c (step {b = b} r rs) = omega (arith, Request-level a b r, Requests-level b c rs)

interrupt_level : (c : RunControl) → 0 < level (request_interrupt c).state
unfolding request_interrupt
interrupt_level c =
    omega (
      arith,
      interrupt_target-level c.state,
      (max_state-level c.state (interrupt_target c.state)).1,
    )

second_target : (s : ControlState) → 0 < level s → level (interrupt_target s) ≡ 2
second_target ControlState.running h = ground arith
second_target ControlState.pause_requested h = refl
second_target ControlState.cancel_requested h = refl

top_level : (s : ControlState) → 2 ≤ level s → s ≡ ControlState.cancel_requested
top_level ControlState.running h = ground arith
top_level ControlState.pause_requested h = ground arith
top_level ControlState.cancel_requested h = refl

-- Of two interrupts the second cancels, whatever other threads request between them and after.
pub request_interrupt-Requests :
    (a b c : RunControl)
    → Requests (request_interrupt a) b
    → Requests (request_interrupt b) c
    → c.state ≡ ControlState.cancel_requested
unfolding request_interrupt
request_interrupt-Requests a b c first second =
    let up : 0 < level b.state =
      omega (arith, interrupt_level a, Requests-level (request_interrupt a) b first) in
    top_level c.state (
      omega (
        arith,
        second_target b.state up,
        (max_state-level b.state (interrupt_target b.state)).1,
        Requests-level (request_interrupt b) c second,
      ))
