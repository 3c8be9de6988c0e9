-- ===== src/Common/Checked.antt =====
-- What a Rust call does: it returns a value, or it panics. Arithmetic is checked, as in the
-- debug and test profiles, so an overflow is a panic.
use Prim.Native.Nat.{ℕ, ◌+◌, ◌-◌, ◌^◌, ◌<◌}
use mathlib.Core.Path.{◌≡◌, refl}
use mathlib.Core.List.{List, [], ◌∷◌}
use native.Mathlib.Omega.{arith}
use mathlib.Core.Bool.{Bool, true, false}
use prime_hunter.Common.Tests.{ltb, lt→ltb, if◌then◌else◌}
use prime_hunter.Common.Lists.{sum}

pub data Outcome {ℓ} (A : Type ℓ) : Type ℓ where
  ok : A → Outcome A
  panic : Outcome A

infixl 5 ◌>>=◌ ◌>>◌
abbrev pub ◌>>=◌ {ℓ κ} : {A : Type ℓ} {B : Type κ} → Outcome A → (A → Outcome B) → Outcome B
ok a >>= f = f a
panic >>= f = panic

abbrev pub ◌>>◌ {ℓ} : {B : Type ℓ} → Outcome (Unit {0}) → Outcome B → Outcome B
m >> k = m >>= λ _. k

-- `assert!(b)`, and the checks that Rust makes of an index or a divisor.
abbrev pub assert : Bool → Outcome (Unit {0})
assert true = ok tt
assert false = panic

-- A result of `w` bits.
abbrev pub fits : ℕ → ℕ → Outcome ℕ
fits w x = if ltb x (2 ^ w) then ok x else panic

abbrev pub sub_checked : ℕ → ℕ → Outcome ℕ
sub_checked a b = if ltb a b then panic else ok (a - b)

-- `sum` of numbers that are not negative: a partial sum overflows only if the whole does.
unfoldable pub checked_sum : ℕ → List ℕ → Outcome ℕ
checked_sum w [] = ok 0
checked_sum w (n ∷ ns) = do rest ← checked_sum w ns; fits w (n + rest)

pub checked_sum-eq-sum : (w : ℕ) (ns : List ℕ) → sum ns < 2 ^ w → checked_sum w ns ≡ ok (sum ns)
unfolding checked_sum
checked_sum-eq-sum w [] h = refl
checked_sum-eq-sum w (n ∷ ns) h =
    rw (checked_sum-eq-sum w ns (omega (arith, h)), lt→ltb (n + sum ns) (2 ^ w) h) refl
