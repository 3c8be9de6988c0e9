-- ===== src/Sieve/ModArith/Gcd.antt =====
-- Euclid's loop finds the greatest common divisor.
use mathlib.Core.Path.{subst}
use native.Mathlib.Nat
use prime_hunter.Common.{
  ℕ, zero, suc, ◌+◌, ◌*◌, ◌/◌, ◌%◌, ap, ◌<◌, ◌∣◌, ◌≡◌, ◌↔◌, inl, inr, ◌==◌, Bool-cases, ==_iff,
  arith,
}
use prime_hunter.Sieve.ModArith.{gcd_loop, gcd}

dvd-gcd_loop : (fuel k a b : ℕ) → b < fuel → (k ∣ gcd_loop fuel a b) ↔ ((k ∣ a) × (k ∣ b))
unfolding gcd_loop
dvd-gcd_loop zero k a b h = absurd (omega arith)
dvd-gcd_loop (suc fuel) k a b h = elim (Bool-cases (b == 0)) [
  | inl done ↦ rw (done, (==_iff b 0).0 done) ((λ d. (d, Nat.dvd-zero k)), λ d. d.0)
  | inr more ↦ rw more (
      let (sound, complete) = dvd-gcd_loop fuel k b (a % b) (ground arith) in
      (
        (λ d. ((Nat.dvd-mod_iff k (sound d).0).0 (sound d).1, (sound d).0)),
        λ d. complete (d.1, (Nat.dvd-mod_iff k d.1).1 d.0),
      ))
]

-- The divisors of `gcd a b` are exactly the common divisors of `a` and `b`.
pub dvd-gcd : (k a b : ℕ) → (k ∣ gcd a b) ↔ ((k ∣ a) × (k ∣ b))
unfolding gcd
dvd-gcd k a b = dvd-gcd_loop (suc b) k a b (omega arith)

scaled_remainder : (k a b c : ℕ) → k ∣ a * c → k ∣ b * c → k ∣ a % b * c
scaled_remainder k a b c ha hb =
    (Nat.dvd-add_iff_right k (Nat.dvd-mul_left_of_dvd k hb (a / b))).1 (subst (◌∣◌ k) split ha)
  where
    split : a * c ≡ a / b * (b * c) + a % b * c
    split = omega (arith, ap (λ (t : ℕ). t * c) (Nat.div-add-mod a b))

dvd-gcd_loop-mul : (fuel k a b c : ℕ) → b < fuel → k ∣ a * c → k ∣ b * c → k ∣ gcd_loop fuel a b * c
unfolding gcd_loop
dvd-gcd_loop-mul zero k a b c h ha hb = absurd (omega arith)
dvd-gcd_loop-mul (suc fuel) k a b c h ha hb = elim (Bool-cases (b == 0)) [
  | inl done ↦ rw done ha
  | inr more ↦ rw more (
      dvd-gcd_loop-mul fuel k b (a % b) c (ground (arith, more)) hb
        (scaled_remainder k a b c ha hb))
]

-- A common divisor of two multiples of `c` divides that multiple of the greatest common divisor.
pub dvd-gcd-mul : (k a b c : ℕ) → k ∣ a * c → k ∣ b * c → k ∣ gcd a b * c
unfolding gcd
dvd-gcd-mul k a b c = dvd-gcd_loop-mul (suc b) k a b c (omega arith)
