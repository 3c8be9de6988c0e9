-- ===== src/Sieve/Order/Prime.antt =====
-- `mod_inverse` and `multiplicative_order` modulo an odd prime, by Fermat's little theorem.
use native.Mathlib.Nat
use prime_hunter.Common.Prime.{IsPrime}
use prime_hunter.Common.{
  ℕ, ◌%◌, ◌^◌, ◌*◌, ◌<◌, ◌≤◌, ◌∣◌, ◌≡◌, inl, inr, some, ok, Bool-cases, ==_iff, ◌==◌, arith,
}
use prime_hunter.Sieve.Fermat.{fermat}
use prime_hunter.Sieve.Order.{mod_inverse, multiplicative_order}
use prime_hunter.Sieve.Order.Smallest.{IsOrder}
use prime_hunter.Sieve.Order.Inverse.{mod_inverse-inverts}
use prime_hunter.Sieve.Order.Loop.{multiplicative_order-IsOrder}

-- A prime above 2 is odd.
pub odd-prime : (p : ℕ) → IsPrime p → 2 < p → p % 2 ≡ 1
odd-prime p prime big = elim (Bool-cases (p % 2 == 0)) [
  | inl even ↦ absurd (
      omega (
        arith,
        prime.only 2 (omega arith) (Nat.dvd_of_mod-eq-zero 2 ((==_iff (p % 2) 0).0 even)),
        big,
      ))
  | inr odd ↦ ground (arith, odd)
]

-- For a prime p with 2 < p ≤ 2 ^ 63 that does not divide a, the result is an x below p whose
-- product with a is 1 modulo p.
pub mod_inverse-prime :
    (a p : ℕ)
    → IsPrime p
    → 2 < p
    → p ≤ 2 ^ 63
    → ¬ (p ∣ a)
    → (x : ℕ) × (mod_inverse a p ≡ ok (some x)) × (x < p) × (x * a % p ≡ 1)
mod_inverse-prime a p prime big small apart =
    mod_inverse-inverts a p big small (odd-prime p prime big) (fermat p a prime apart)

-- For a prime p with 2 < p ≤ 2 ^ 63 that does not divide the base, the result is the smallest
-- d > 0 with base ^ d ≡ 1 modulo p.
pub multiplicative_order-prime :
    (base p : ℕ)
    → IsPrime p
    → 2 < p
    → p ≤ 2 ^ 63
    → ¬ (p ∣ base)
    → (d : ℕ) × (multiplicative_order base p ≡ ok d) × IsOrder base p d
multiplicative_order-prime base p prime big small apart =
    multiplicative_order-IsOrder base p big small (odd-prime p prime big)
      (fermat p base prime apart)
