-- ===== src/Base/Result.antt =====
-- Exceptions as values, and methods that mutate an object and may raise: what was written before a
-- raise stays written, so the state comes back beside the error too.
use mathlib.Core.Bool.{Bool, true, false}
use mathlib.Core.Path.{◌≡◌, refl}

-- `ValueError` and `KeyError` of the code itself, pydantic's `ValidationError`, a failing store,
-- `ContextWindowError`, `OutputLimitExceededError` and `RunStillActiveError`.
pub data Error : Type 0 where
  value_error key_error validation_error storage_error context_window_error : Error
  output_limit_exceeded run_still_active : Error

pub data Result {ℓ} (A : Type ℓ) : Type ℓ where
  ok : A → Result A
  err : Error → Result A

abbrev pub Method : Type 0 → Type 0 → Type 0
Method S A = S → Result A × S

module _ {S A : Type 0} where
  abbrev pub pure : A → Method S A
  pure a s = (ok a, s)

  abbrev pub raise : Error → Method S A
  raise e s = (err e, s)

  abbrev pub gets : (S → A) → Method S A
  gets f s = (ok (f s), s)

  abbrev pub lift : Result A → Method S A
  lift r s = (r, s)

module _ {S : Type 0} where
  abbrev pub modify : (S → S) → Method S (Unit {0})
  modify f s = (ok tt, f s)

  abbrev pub raise_if : Bool → Error → Method S (Unit {0})
  raise_if true e s = (err e, s)
  raise_if false e s = (ok tt, s)

module _ {S A B : Type 0} where
  abbrev pub continue : Result A → (A → Method S B) → Method S B
  continue (ok a) f s = f a s
  continue (err e) f s = (err e, s)

  infixl 5 ◌>>=◌ ◌>>◌
  abbrev pub ◌>>=◌ : Method S A → (A → Method S B) → Method S B
  ◌>>=◌ m f s = let (r, s') = m s in continue r f s'

  abbrev pub ◌>>◌ : Method S A → Method S B → Method S B
  m >> k = m >>= λ _. k

module _ {S A B C : Type 0} where
  continue_assoc :
      (r : Result A) (s : S) (n : Method S B) (k : Method S C)
      → continue r (λ _. n >> k) s ≡ (let (q, t) = continue r (λ _. n) s in continue q (λ _. k) t)
  continue_assoc (ok a) s n k = refl
  continue_assoc (err e) s n k = refl

  pub seq_assoc :
      (m : Method S A) (n : Method S B) (k : Method S C) (s : S)
      → (m >> (n >> k)) s ≡ (m >> n >> k) s
  seq_assoc m n k s = continue_assoc (m s).0 (m s).1 n k
