-- ===== src/Lease.antt =====
-- The execution lease of a session: src/assistant_agent/persistence/execution_lease.py, for one
-- lock file and any number of processes and threads. A call of `acquire` is known by a number and
-- runs in a process; each stretch under `_PROCESS_LOCK` and each call of the operating system is
-- one step. The system's lock is exclusive between open files, within a process too, and ends with
-- the file.
pub mod Exclusion
use assistant_agent.Base.{
  ℕ, suc, Bool, true, false, not, ◌&&◌, ◌||◌, Option, none, some, List, [], ◌∷◌, length, all, ltb,
  leb, eqb, if◌then◌else◌, ◌≡◌,
}
use assistant_agent.Base.Result.{Result, ok, err, value_error, run_still_active}
use assistant_agent.ToolResult.{Text}

-- `[A-Za-z0-9][A-Za-z0-9_-]{0,127}`.
abbrev is_between : ℕ → ℕ → ℕ → Bool
is_between low high c = leb low c && leb c high

unfoldable pub is_alphanumeric : ℕ → Bool
is_alphanumeric c = is_between 65 90 c || is_between 97 122 c || is_between 48 57 c

unfoldable pub is_session_id : Text → Bool
is_session_id [] = false
is_session_id (c ∷ cs) =
    is_alphanumeric c
    && leb (length cs) 127
    && all (λ d. is_alphanumeric d || eqb d 95 || eqb d 45) cs

pub data Stage : Type 0 where
  unused entered active releasing closed refused : Stage

-- The lease was had, and its release has begun.
abbrev pub is_released : Stage → Bool
is_released Stage.releasing = true
is_released Stage.closed = true
is_released _ = false

-- Of one lock file: whether it is in each process's `_HELD_PATHS`, the call whose open file has the
-- system's lock, and how far each call has come.
pub record Machine : Type 0 where
  pub held : ℕ → Bool
  pub lock : Option ℕ
  pub stage : ℕ → Stage

abbrev pub update {ℓ} : {A : Type ℓ} → ℕ → A → (ℕ → A) → ℕ → A
update k a f n = if eqb k n then a else f n

unfoldable pub start : Machine
start = record { held = λ p. false; lock = none; stage = λ h. Stage.unused }

module _ (process : ℕ → ℕ) where
  -- The first stretch of `acquire` under the lock of the process.
  unfoldable pub enter : ℕ → Machine → Result (Unit {0}) × Machine
  enter h m = if m.held (process h) then (err run_still_active, m) else (
    ok tt,
    record m { held = update (process h) true m.held; stage = update h Stage.entered m.stage },
  )

  -- The `except` branch: the call has no lease.
  unfoldable pub abandon : ℕ → Machine → Machine
  abandon h m = record m {
    held = update (process h) false m.held;
    stage = update h Stage.refused m.stage;
  }

  -- The end of `release`.
  unfoldable pub discard : ℕ → Machine → Machine
  discard h m = record m {
    held = update (process h) false m.held;
    stage = update h Stage.closed m.stage;
  }

  -- What a second `release` of the same lease does that passed the test of `_released` before the
  -- first one set it: the file is closed already, but the path leaves the table once more, also
  -- where another call has entered it since.
  unfoldable pub discard_again : ℕ → Machine → Machine
  discard_again h m = record m { held = update (process h) false m.held }

  -- `_lock`: the system's lock, or the `except` branch.
  unfoldable pub lock_file : ℕ → Machine → Result (Unit {0}) × Machine
  lock_file h m = elim m.lock [
    | some other ↦ (err run_still_active, abandon h m)
    | none ↦ (ok tt, record m { lock = some h; stage = update h Stage.active m.stage })
  ]

  -- `_unlock` and `close` of the first `release`; a later one returns at once.
  unfoldable pub unlock : ℕ → Machine → Machine
  unlock h m = record m { lock = none; stage = update h Stage.releasing m.stage }

  -- A step of some call; opening or locking may also fail for other reasons.
  pub data Step : Machine → Machine → Type 0 where
    entering : {m : Machine} (h : ℕ) → m.stage h ≡ Stage.unused → Step m (enter h m).1
    locking : {m : Machine} (h : ℕ) → m.stage h ≡ Stage.entered → Step m (lock_file h m).1
    failing : {m : Machine} (h : ℕ) → m.stage h ≡ Stage.entered → Step m (abandon h m)
    unlocking : {m : Machine} (h : ℕ) → m.stage h ≡ Stage.active → Step m (unlock h m)
    discarding : {m : Machine} (h : ℕ) → m.stage h ≡ Stage.releasing → Step m (discard h m)
    racing : {m : Machine} (h : ℕ) → is_released (m.stage h) ≡ true → Step m (discard_again h m)

  pub data Reachable : Machine → Type 0 where
    initial : Reachable start
    after : {m n : Machine} → Reachable m → Step m n → Reachable n
