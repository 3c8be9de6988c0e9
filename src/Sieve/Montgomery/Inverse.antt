-- ===== src/Sieve/Montgomery/Inverse.antt =====
-- Hensel lifting: six rounds give the inverse of an odd `n` modulo 2 ^ 64.
use native.Mathlib.Nat
use prime_hunter.Common.{ℕ, ◌+◌, ◌-◌, ◌*◌, ◌/◌, ◌%◌, ◌^◌, ◌<◌, ◌≡◌, refl, sym, ap, ◌∙◌, arith}
use prime_hunter.Common.Mod.{CongMod, mul-mod_left, mul-mod_right, cong_of_multiple}
use prime_hunter.Sieve.Montgomery.{radix, hensel, hensel_loop}

-- With x = 1 + c d and y = 2 + r - x: the product x y differs from 1 by multiples of d * d.
square_error :
    (c d y q r : ℕ)
    → y + c * d ≡ r + 1
    → d * d * q ≡ r
    → (1 + c * d) * y + c * c * (d * d) ≡ 1 + (1 + c * d) * q * (d * d)
square_error c d y q r e f =
    omega (arith, ap (λ (t : ℕ). c * d * t) e, ap (λ (t : ℕ). (1 + c * d) * t) f)

-- A value that is 1 modulo d becomes 1 modulo d * d.
lift_one :
    (x d y q r : ℕ) → 1 < d → x % d ≡ 1 → x + y ≡ r + 2 → d * d * q ≡ r → CongMod (d * d) (x * y) 1
lift_one x d y q r h one sum split =
    sym (Nat.add-mul-mod_self_right (x * y) (c * c) (d * d))
    ∙ ap (λ (t : ℕ). t % (d * d))
        (rw (← shape) at (square_error c d y q r (omega (arith, shape)) split))
    ∙ Nat.add-mul-mod_self_right 1 (x * q) (d * d)
  where
    c : ℕ
    c = x / d

    shape : x ≡ 1 + c * d
    shape = omega (arith, one, Nat.div-add-mod' x d)

-- A round doubles the number of bits that are right.
hensel_round :
    (n inv d q : ℕ)
    → 1 < d
    → d * d * q ≡ radix
    → CongMod d (n * inv) 1
    → CongMod (d * d) (n * hensel n inv) 1
unfolding hensel
hensel_round n inv d q h split good =
    cong_of_multiple (d * d) q (n * hensel n inv) (x * y) (rw split wrapped)
    ∙ lift_one x d y q radix h one (omega (arith, bound)) split
  where
    x : ℕ
    x = n * inv % radix

    y : ℕ
    y = 2 + radix - x

    bound : x < radix
    bound = omega arith

    one : x % d ≡ 1
    one =
        Nat.mod-mod_of_dvd d (n * inv) (rw (← split, Nat.mul_assoc) (Nat.dvd-mul_right d (d * q)))
        ∙ good
        ∙ Nat.mod-eq_of_lt h

    wrapped : CongMod radix (n * (inv * (y % radix) % radix)) (x * y)
    wrapped =
        mul-mod_right radix n (inv * (y % radix))
        ∙ ap (λ (t : ℕ). t % radix) (sym (Nat.mul_assoc n inv (y % radix)))
        ∙ mul-mod_right radix (n * inv) y
        ∙ sym (mul-mod_left radix (n * inv) y)

-- After six rounds the product is 1 modulo 2 ^ 64.
pub hensel_inverse : (n : ℕ) → n % 2 ≡ 1 → n * hensel_loop 6 n 1 % radix ≡ 1
unfolding hensel_loop
hensel_inverse n odd = r6
  where
    r1 : CongMod 4 (n * hensel n 1) 1
    r1 = hensel_round n 1 2 (2 ^ 62) (omega arith) refl (omega (arith, odd))

    r2 : CongMod 16 (n * hensel n (hensel n 1)) 1
    r2 = hensel_round n (hensel n 1) 4 (2 ^ 60) (omega arith) refl r1

    r3 : CongMod 256 (n * hensel_loop 3 n 1) 1
    r3 = hensel_round n (hensel_loop 2 n 1) 16 (2 ^ 56) (omega arith) refl r2

    r4 : CongMod 65536 (n * hensel_loop 4 n 1) 1
    r4 = hensel_round n (hensel_loop 3 n 1) 256 (2 ^ 48) (omega arith) refl r3

    r5 : CongMod (2 ^ 32) (n * hensel_loop 5 n 1) 1
    r5 = hensel_round n (hensel_loop 4 n 1) 65536 (2 ^ 32) (omega arith) refl r4

    r6 : CongMod (2 ^ 64) (n * hensel_loop 6 n 1) 1
    r6 = hensel_round n (hensel_loop 5 n 1) (2 ^ 32) 1 (omega arith) refl r5

pub hensel_loop-lt : (n : ℕ) → hensel_loop 6 n 1 < radix
unfolding hensel_loop hensel
hensel_loop-lt n = Nat.mod-lt _ (omega arith)
