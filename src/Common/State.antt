-- ===== src/Common/State.antt =====
-- Functions that return a `Result` and change a state: `none` is an `Err`, and what was written
-- before it stays.
use mathlib.Core.Option.{Option, none, some}
use prime_hunter.Common.Checked.{Outcome, ok, panic}

abbrev pub Run : Type 0 → Type 0 → Type 0
Run S A = S → Option A × S

abbrev value_or : {A : Type 0} → Option A → A → A
value_or (some a) b = a
value_or none b = b

module _ {S : Type 0} where
  infixl 5 ◌>>=◌
  abbrev pub ◌>>=◌ : {A B : Type 0} → Run S A → (A → Run S B) → Run S B
  (m >>= f) s = elim (m s).0 [ none ↦ (none, (m s).1) | some a ↦ f a (m s).1 ]

  abbrev pub pure : {A : Type 0} → A → Run S A
  pure a s = (some a, s)

  abbrev pub stop : {A : Type 0} → Run S A
  stop s = (none, s)

  -- `.unwrap_or(default)`.
  abbrev pub or_default : {A : Type 0} → Run S A → A → Run S A
  or_default m default s = (some (value_or (m s).0 default), (m s).1)

  -- Arithmetic that may overflow; the panic ends the run.
  abbrev pub checked : {A : Type 0} → Outcome A → Run S A
  checked (ok a) s = (some a, s)
  checked panic s = (none, s)
