-- ===== src/Lease/Exclusion.antt =====
-- The system's lock has at most one holder: src/assistant_agent/persistence/execution_lease.py.
use assistant_agent.Base.{
  ℕ, ◌≡◌, ◌≢◌, sym, subst, Option, none, some, arith, Bool-cases, Option-cases, inl, inr, ◌↔◌,
}
use assistant_agent.Lease.{
  Stage, Machine, start, enter, lock_file, unlock, discard, abandon, discard_again, Step, Reachable,
}

module _ (process : ℕ → ℕ) where
  pub record IsSafe (m : Machine) : Type 0 where
    pub owner : (h : ℕ) → m.stage h ≡ Stage.active → m.lock ≡ some h
    pub owned : (h : ℕ) → m.lock ≡ some h → m.stage h ≡ Stage.active

  start-IsSafe : IsSafe start
  unfolding start
  start-IsSafe = record { owner = λ h e. ground arith; owned = λ h e. ground arith }

  discard-IsSafe :
      (h : ℕ) (m : Machine) → m.stage h ≢ Stage.active → IsSafe m → IsSafe (discard process h m)
  unfolding discard
  discard-IsSafe h m n s = record {
    owner = λ k f. ground (arith, s.owner k);
    owned = λ k f. ground (arith, s.owned k, n);
  }

  abandon-IsSafe :
      (h : ℕ) (m : Machine) → m.stage h ≢ Stage.active → IsSafe m → IsSafe (abandon process h m)
  unfolding abandon
  abandon-IsSafe h m n s = record {
    owner = λ k f. ground (arith, s.owner k);
    owned = λ k f. ground (arith, s.owned k, n);
  }

  enter-IsSafe :
      (h : ℕ) (m : Machine) → m.stage h ≡ Stage.unused → IsSafe m → IsSafe (enter process h m).1
  unfolding enter
  enter-IsSafe h m e s = elim (Bool-cases (m.held (process h))) [
    | inl f ↦ rw (enter, f) s
    | inr f ↦
        rw (enter, f)
          (record {
            owner = λ k g. ground (arith, s.owner k);
            owned = λ k g. ground (arith, s.owned k, e);
          })
  ]

  lock_file-IsSafe :
      (h : ℕ) (m : Machine)
      → m.stage h ≡ Stage.entered
      → IsSafe m
      → IsSafe (lock_file process h m).1
  unfolding lock_file
  lock_file-IsSafe h m e s = elim (Option-cases m.lock) [
    | inr (k, f) ↦ rw (lock_file, f) (abandon-IsSafe h m (λ g. ground (arith, e, g)) s)
    | inl f ↦
        rw (lock_file, f)
          (record { owner = λ k g. ground (arith, s.owner k, f); owned = λ k g. ground (arith, g) })
  ]

  unlock-IsSafe :
      (h : ℕ) (m : Machine) → m.stage h ≡ Stage.active → IsSafe m → IsSafe (unlock process h m)
  unfolding unlock
  unlock-IsSafe h m e s = record {
    owner = λ k g. ground (arith, s.owner k, s.owner h, e);
    owned = λ k g. ground (arith, g);
  }

  racing-IsSafe : (h : ℕ) (m : Machine) → IsSafe m → IsSafe (discard_again process h m)
  unfolding discard_again
  racing-IsSafe h m s = record { owner = s.owner; owned = s.owned }

  Step-IsSafe : (m n : Machine) → Step process m n → IsSafe m → IsSafe n
  Step-IsSafe m n (Step.entering h e) s = enter-IsSafe h m e s
  Step-IsSafe m n (Step.locking h e) s = lock_file-IsSafe h m e s
  Step-IsSafe m n (Step.failing h e) s = abandon-IsSafe h m (λ g. ground (arith, e, g)) s
  Step-IsSafe m n (Step.unlocking h e) s = unlock-IsSafe h m e s
  Step-IsSafe m n (Step.discarding h e) s = discard-IsSafe h m (λ g. ground (arith, e, g)) s
  Step-IsSafe m n (Step.racing h e) s = racing-IsSafe h m s

  Reachable-IsSafe : (m : Machine) → Reachable process m → IsSafe m
  Reachable-IsSafe m Reachable.initial = start-IsSafe
  Reachable-IsSafe m (Reachable.after {m = k} r t) = Step-IsSafe k m t (Reachable-IsSafe k r)

-- A lock with at most one holder.
pub data Spec : Option ℕ → Option ℕ → Type 0 where
  acquire : (h : ℕ) → Spec none (some h)
  release : (h : ℕ) → Spec (some h) none
  stay : {o : Option ℕ} → Spec o o

module _ (process : ℕ → ℕ) where
  enter-Spec : (h : ℕ) (m : Machine) → Spec m.lock (enter process h m).1.lock
  unfolding enter
  enter-Spec h m = elim (Bool-cases (m.held (process h))) [
    | inl e ↦ rw (enter, e) stay
    | inr e ↦ rw (enter, e) stay
  ]

  lock_file-Spec : (h : ℕ) (m : Machine) → Spec m.lock (lock_file process h m).1.lock
  unfolding lock_file abandon
  lock_file-Spec h m = elim (Option-cases m.lock) [
    | inl e ↦ rw (lock_file, e) (acquire h)
    | inr (k, e) ↦ rw (lock_file, e) (subst (λ o. Spec (some k) o) (sym e) stay)
  ]

  lock-Spec : (m n : Machine) → Reachable process m → Step process m n → Spec m.lock n.lock
  unfolding discard abandon discard_again unlock
  lock-Spec m n r (Step.entering h e) = enter-Spec h m
  lock-Spec m n r (Step.locking h e) = lock_file-Spec h m
  lock-Spec m n r (Step.failing h e) = stay
  lock-Spec m n r (Step.unlocking h e) =
      subst (λ o. Spec o none) (sym ((Reachable-IsSafe process m r).owner h e)) (release h)
  lock-Spec m n r (Step.discarding h e) = stay
  lock-Spec m n r (Step.racing h e) = stay

  -- Every step is one of a lock with at most one holder, or leaves the lock as it is, and the call
  -- that has the lease is the lock's holder.
  pub Step-Spec :
      (m n : Machine)
      → Reachable process m
      → Step process m n
      → Spec m.lock n.lock × ((h : ℕ) → (n.stage h ≡ Stage.active) ↔ (n.lock ≡ some h))
  Step-Spec m n r t =
      let s = Step-IsSafe process m n t (Reachable-IsSafe process m r) in
      (lock-Spec m n r t, λ h. (s.owner h, s.owned h))
