-- ===== src/Common/Bits.antt =====
-- The binary digits of `bit_and` and `bit_or`.
use Prim.Native.Nat.{min, max, digits, bitwise, bit_and, bit_or, bit_and-bitwise, bit_or-bitwise}
use Prim.Native.Nat.{ℕ, zero, suc, ◌+◌, ◌-◌, ◌*◌, ◌/◌, ◌%◌, ◌^◌, ◌≤◌, ◌<◌}
use mathlib.Core.Path.{◌≡◌, refl, sym, ap, ◌∙◌}
use mathlib.Core.Logic.{◌≢◌}
use native.Mathlib.Nat
use native.Mathlib.Omega.{arith}

-- Digit `k` of `w`, 0 or 1.
abbrev pub digit : ℕ → ℕ → ℕ
digit w k = w / 2 ^ k % 2

pub digit-suc : (w k : ℕ) → digit w (suc k) ≡ digit (w / 2) k
digit-suc w k =
    ap (λ (t : ℕ). t % 2)
      (ap (λ (t : ℕ). w / t) (Nat.pow-succ' 2 k) ∙ sym (Nat.div-div-eq-div-mul w 2 (2 ^ k)))

pub digit-zero : (w : ℕ) → digit w 0 ≡ w % 2
digit-zero w = rw Nat.div-one

-- Rounds beyond the size of the first number change nothing.
module _ (rest : ℕ → ℕ) (op : ℕ → ℕ → ℕ) where
  no_digits : (rounds y : ℕ) → digits rest op rounds 0 y ≡ rest y
  no_digits zero y = refl
  no_digits (suc rounds) y = refl

  spare_rounds :
      (needed extra x y : ℕ)
      → x ≤ needed
      → digits rest op (needed + extra) x y ≡ digits rest op needed x y
  spare_rounds needed extra zero y h = no_digits (needed + extra) y ∙ sym (no_digits needed y)
  spare_rounds zero extra (suc x) y h = absurd (omega arith)
  spare_rounds (suc needed) extra (suc x) y h =
      let carried : suc needed + extra ≡ suc (needed + extra) = omega arith in
      ap (λ (t : ℕ). digits rest op t (suc x) y) carried
      ∙ ap (λ (t : ℕ). t * 2 + op (suc x % 2) (y % 2))
          (spare_rounds needed extra (suc x / 2) (y / 2) (omega arith))

  lowest_digit :
      (x y : ℕ)
      → bitwise rest op (suc x) y ≡ bitwise rest op (suc x / 2) (y / 2) * 2 + op (suc x % 2) (y % 2)
  lowest_digit x y =
      let half : ℕ = suc x / 2 in
      let enough : half + (x - half) ≡ x = omega arith in
      ap (λ (t : ℕ). t * 2 + op (suc x % 2) (y % 2))
        (ap (λ (t : ℕ). digits rest op t half (y / 2)) (sym enough)
          ∙ spare_rounds half (x - half) half (y / 2) (Nat.le_refl half))

-- The lowest digit of a conjunction is the smaller one, of a disjunction the larger one.
pub bit_and_step : (x y : ℕ) → bit_and x y ≡ bit_and (x / 2) (y / 2) * 2 + min (x % 2) (y % 2)
bit_and_step (suc x) y = simp bit_and-bitwise (lowest_digit (λ t. 0) min x y)
bit_and_step zero y = omega (arith, bit_and-bitwise 0 y, bit_and-bitwise 0 (y / 2))

pub bit_or_step : (x y : ℕ) → bit_or x y ≡ bit_or (x / 2) (y / 2) * 2 + max (x % 2) (y % 2)
bit_or_step (suc x) y = simp bit_or-bitwise (lowest_digit (λ t. t) max x y)
bit_or_step zero y = omega (arith, bit_or-bitwise 0 y, bit_or-bitwise 0 (y / 2))

pub digit-bit_and : (a b k : ℕ) → digit (bit_and a b) k ≡ min (digit a k) (digit b k)
digit-bit_and a b zero =
    rw (Nat.div-one, Nat.div-one, Nat.div-one) (omega (arith, bit_and_step a b))
digit-bit_and a b (suc k) =
    rw (digit-suc (bit_and a b) k, digit-suc a k, digit-suc b k)
      (rw (← digit-bit_and (a / 2) (b / 2) k)
        (ap (λ (t : ℕ). digit t k) (omega (arith, bit_and_step a b))))

pub digit-bit_or : (a b k : ℕ) → digit (bit_or a b) k ≡ max (digit a k) (digit b k)
digit-bit_or a b zero = rw (Nat.div-one, Nat.div-one, Nat.div-one) (omega (arith, bit_or_step a b))
digit-bit_or a b (suc k) =
    rw (digit-suc (bit_or a b) k, digit-suc a k, digit-suc b k)
      (rw (← digit-bit_or (a / 2) (b / 2) k)
        (ap (λ (t : ℕ). digit t k) (omega (arith, bit_or_step a b))))

pub zero-digit : (k : ℕ) → digit 0 k ≡ 0
zero-digit k = rw Nat.zero-div

-- The digits of a power of two.
pub digit-pow_self : (k : ℕ) → digit (2 ^ k) k ≡ 1
digit-pow_self k = rw (Nat.div_self (Nat.one-le-pow k 2 (omega arith)))

pub digit-pow_ne : (j k : ℕ) → j ≢ k → digit (2 ^ j) k ≡ 0
digit-pow_ne zero zero h = absurd (h refl)
digit-pow_ne zero (suc k) h = rw (digit-suc 1 k) (zero-digit k)
digit-pow_ne (suc j) zero h = rw (Nat.div-one, Nat.pow-suc) (omega arith)
digit-pow_ne (suc j) (suc k) h =
    digit-suc (2 ^ suc j) k
    ∙ ap (λ (t : ℕ). digit t k) (rw Nat.pow-suc (omega arith))
    ∙ digit-pow_ne j k (λ e. h (ap suc e))

-- The complement of `w` in `n` bits has the other digits.
pub digit_complement : (n w k : ℕ) → w < 2 ^ n → k < n → digit (2 ^ n - 1 - w) k + digit w k ≡ 1
digit_complement zero w k h p = absurd (omega arith)
digit_complement (suc n) w zero h p = rw (Nat.div-one, Nat.div-one) (omega (arith, Nat.pow-suc 2 n))
digit_complement (suc n) w (suc k) h p =
    rw (digit-suc (2 ^ suc n - 1 - w) k, digit-suc w k)
      (rw (halved) (digit_complement n (w / 2) k (omega (arith, Nat.pow-suc 2 n)) (omega arith)))
  where
    halved : (2 ^ suc n - 1 - w) / 2 ≡ 2 ^ n - 1 - w / 2
    halved = omega (arith, Nat.pow-suc 2 n)

-- Results that stay within `n` bits.
pub bit_and-le : (a b : ℕ) → bit_and a b ≤ a
bit_and-le a b = bounded (suc a) a b (omega arith)
  where
    bounded : (n a b : ℕ) → a < n → bit_and a b ≤ a
    bounded zero a b h = absurd (omega arith)
    bounded (suc n) zero b h = omega (arith, bit_and-bitwise 0 b)
    bounded (suc n) (suc a) b h =
        omega (arith, bit_and_step (suc a) b, bounded n (suc a / 2) (b / 2) (omega arith))

pub bit_or-lt : (n a b : ℕ) → a < 2 ^ n → b < 2 ^ n → bit_or a b < 2 ^ n
bit_or-lt zero a b ha hb =
    let a0 : a ≡ 0 = omega arith in let b0 : b ≡ 0 = omega arith in rw (a0, b0) (omega arith)
bit_or-lt (suc n) a b ha hb = omega (
  arith,
  Nat.pow-suc 2 n,
  bit_or_step a b,
  bit_or-lt n (a / 2) (b / 2) (omega (arith, Nat.pow-suc 2 n)) (omega (arith, Nat.pow-suc 2 n)),
)

bit_and-zero_fuel : (n a : ℕ) → a < n → bit_and a 0 ≡ 0
bit_and-zero_fuel zero a h = absurd (omega arith)
bit_and-zero_fuel (suc n) zero h = refl
bit_and-zero_fuel (suc n) (suc a) h =
    omega (arith, bit_and_step (suc a) 0, bit_and-zero_fuel n (suc a / 2) (omega arith))

pub bit_and-zero : (a : ℕ) → bit_and a 0 ≡ 0
bit_and-zero a = bit_and-zero_fuel (suc a) a (omega arith)

-- `w & (1 << k)` is the digit at its place.
pub bit_and-pow : (w k : ℕ) → bit_and w (2 ^ k) ≡ digit w k * 2 ^ k
bit_and-pow w zero = rw Nat.div-one (omega (arith, bit_and_step w 1, bit_and-zero (w / 2)))
bit_and-pow w (suc k) =
    bit_and_step w (2 ^ suc k)
    ∙ rw (halved, even, bit_and-pow (w / 2) k, digit-suc w k)
        (omega (arith, ap (λ (t : ℕ). digit (w / 2) k * t) (Nat.pow-suc 2 k)))
  where
    halved : 2 ^ suc k / 2 ≡ 2 ^ k
    halved = omega (arith, Nat.pow-suc 2 k)

    even : 2 ^ suc k % 2 ≡ 0
    even = omega (arith, Nat.pow-suc 2 k)
