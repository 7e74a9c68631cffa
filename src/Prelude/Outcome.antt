-- ===== src/Prelude/Outcome.antt =====
-- How a C function with state may end: with a value, by an access outside of an object, or not
-- within the fuel given.
use mathlib.Core.Option.{Option, none, some}

pub data Outcome (S A : Type 0) : Type 0 where
  done : A → S → Outcome S A
  bad_access : Outcome S A
  no_fuel : Outcome S A

module _ {S : Type 0} where
  abbrev pub after_outcome : {A B : Type 0} → Outcome S A → (A → S → Outcome S B) → Outcome S B
  after_outcome (done a s) k = k a s
  after_outcome bad_access k = bad_access
  after_outcome no_fuel k = no_fuel

  infixl 5 ◌>>=◌ ◌>>◌
  abbrev pub ◌>>=◌ : {A B : Type 0} → (S → Outcome S A) → (A → S → Outcome S B) → S → Outcome S B
  (m >>= k) s = after_outcome (m s) k

  abbrev pub ◌>>◌ : {A B : Type 0} → (S → Outcome S A) → (S → Outcome S B) → S → Outcome S B
  (m >> k) s = after_outcome (m s) (λ _. k)

  abbrev pub pure : {A : Type 0} → A → S → Outcome S A
  pure = done

  abbrev pub modify : (S → S) → S → Outcome S (Unit {0})
  modify f s = done tt (f s)

  abbrev pub gets : {A : Type 0} → (S → A) → S → Outcome S A
  gets f s = done (f s) s

  abbrev pub checked : {A : Type 0} → Option A → S → Outcome S A
  checked none s = bad_access
  checked (some a) s = done a s
