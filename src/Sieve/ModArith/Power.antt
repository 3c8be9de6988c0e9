-- ===== src/Sieve/ModArith/Power.antt =====
-- Binary exponentiation computes the power.
use native.Mathlib.Nat
use prime_hunter.Common.{
  ℕ, zero, suc, ◌+◌, ◌*◌, ◌/◌, ◌%◌, ◌^◌, ◌<◌, ◌≡◌, refl, sym, ap, ◌∙◌, inl, inr, false, ok, ◌==◌,
  if◌then◌else◌, Bool-cases, ==_iff, arith,
}
use prime_hunter.Common.Mod.{CongMod, cong-mul, cong-pow, pow-add, pow_square}
use prime_hunter.Sieve.ModArith.{pow_loop, pow_mod}

-- One round keeps `result * base ^ exp`.
pub power_halves : (b e : ℕ) → b ^ e ≡ b ^ (e % 2) * (b * b) ^ (e / 2)
power_halves b e =
    ap (λ (t : ℕ). b ^ t) split
    ∙ pow-add b (e % 2) (e / 2 + e / 2)
    ∙ ap (λ (t : ℕ). b ^ (e % 2) * t) (pow-add b (e / 2) (e / 2) ∙ sym (pow_square b (e / 2)))
  where
    split : e ≡ e % 2 + (e / 2 + e / 2)
    split = omega arith

round_keeps :
    (m r b e : ℕ)
    → CongMod m ((if e % 2 == 1 then r * b % m else r) * (b * b % m) ^ (e / 2)) (r * b ^ e)
round_keeps m r b e = elim (Bool-cases (e % 2 == 1)) [
  | inl odd ↦
      rw (odd, power_halves b e)
        (let one : e % 2 ≡ 1 = (==_iff (e % 2) 1).0 odd in
          cong-mul m (r * b % m) (r * b) ((b * b % m) ^ (e / 2)) ((b * b) ^ (e / 2))
            (Nat.mod-mod (r * b) m) squares
          ∙ ap (λ (t : ℕ). t % m) (rw one (first r b ((b * b) ^ (e / 2)))))
  | inr even ↦
      rw (even, power_halves b e)
        (let nil : e % 2 ≡ 0 = ground (arith, even) in
          cong-mul m r r ((b * b % m) ^ (e / 2)) ((b * b) ^ (e / 2)) refl squares
          ∙ ap (λ (t : ℕ). t % m) (rw nil (no_factor r b ((b * b) ^ (e / 2)))))
]
  where
    squares : CongMod m ((b * b % m) ^ (e / 2)) ((b * b) ^ (e / 2))
    squares = cong-pow m (b * b % m) (b * b) (e / 2) (Nat.mod-mod (b * b) m)

    first : (x y z : ℕ) → x * y * z ≡ x * (y ^ 1 * z)
    first x y z = rw (Nat.pow-suc, Nat.pow-zero) (omega arith)

    no_factor : (x y z : ℕ) → x * z ≡ x * (y ^ 0 * z)
    no_factor x y z = rw Nat.pow-zero (omega arith)

-- With a round for each bit of `exp` the loop computes the power.
pub pow_loop_lem : (fuel m r b e : ℕ) → e < 2 ^ fuel → CongMod m (pow_loop fuel m r b e) (r * b ^ e)
unfolding pow_loop
pow_loop_lem zero m r b e h = let nil : e ≡ 0 = omega arith in rw (nil, Nat.pow-zero, Nat.mul-one)
pow_loop_lem (suc fuel) m r b e h = elim (Bool-cases (e == 0)) [
  | inl done ↦ rw (done, (==_iff e 0).0 done, Nat.pow-zero, Nat.mul-one)
  | inr more ↦ rw more (
      pow_loop_lem fuel m (if e % 2 == 1 then r * b % m else r) (b * b % m) (e / 2)
        (ground (arith, Nat.pow-suc 2 fuel))
      ∙ round_keeps m r b e)
]

pub pow_loop-lt : (fuel m r b e : ℕ) → 0 < m → r < m → pow_loop fuel m r b e < m
unfolding pow_loop
pow_loop-lt zero m r b e p h = h
pow_loop-lt (suc fuel) m r b e p h = ground (
  arith,
  Nat.mod-lt (r * b) {m = m},
  pow_loop-lt fuel m (if e % 2 == 1 then r * b % m else r) (b * b % m) (e / 2),
)

-- For a 64-bit exponent and a modulus that is not zero, `pow_mod` returns `base ^ exp % modulus`.
pub pow_mod-eq-pow :
    (base exp modulus : ℕ)
    → exp < 2 ^ 64
    → 0 < modulus
    → pow_mod base exp modulus ≡ ok (base ^ exp % modulus)
unfolding pow_mod
pow_mod-eq-pow base exp modulus h p = elim (Bool-cases (modulus == 1)) [
  | inl one ↦ rw (one, (==_iff modulus 1).0 one, Nat.mod-one)
  | inr many ↦ rw (many, not_zero) (ap ok (sym (reduced many) ∙ loop))
]
  where
    loop_value : ℕ
    loop_value = pow_loop 64 modulus 1 (base % modulus) exp

    not_zero : (modulus == 0) ≡ false
    not_zero = ground arith

    loop : loop_value % modulus ≡ base ^ exp % modulus
    loop =
        pow_loop_lem 64 modulus 1 (base % modulus) exp h
        ∙ ap (λ (t : ℕ). t % modulus) (Nat.one-mul _)
        ∙ cong-pow modulus (base % modulus) base exp (Nat.mod-mod base modulus)

    reduced : (modulus == 1) ≡ false → loop_value % modulus ≡ loop_value
    reduced many = Nat.mod-eq_of_lt (pow_loop-lt 64 modulus 1 (base % modulus) exp p (ground arith))
