-- ===== src/Tests/Primes.antt =====
-- Small primes and lists of them.
use native.Mathlib.Nat
use prime_hunter.Common.Prime.{IsPrime, rest-IsPrime}
use prime_hunter.Common.{
  ℕ, ◌%◌, ◌<◌, ◌≤◌, ◌≡◌, ◌==◌, List, [], ◌∷◌, All, Bool-cases, inl, inr, refl, arith,
}
use prime_hunter.Forms.Factorial.Exact.{IsSievePrime}

-- A number below 9 is prime where 2 does not divide it, or is 2.
odd-IsPrime : (n : ℕ) → 1 < n → n < 9 → n % 2 ≡ 1 → IsPrime n
odd-IsPrime n big small odd = rest-IsPrime 3 n big small λ k above div. elim (Bool-cases (k == 2)) [
  | inl two ↦ absurd (ground (arith, two, odd, Nat.mod-eq-zero_of_dvd k div))
  | inr other ↦ ground (arith, other, above)
]

pub two-IsPrime : IsPrime 2
two-IsPrime = rest-IsPrime 2 2 (omega arith) (omega arith) λ k above div. above

pub three-IsPrime : IsPrime 3
three-IsPrime = odd-IsPrime 3 (omega arith) (omega arith) refl

pub five-IsPrime : IsPrime 5
five-IsPrime = odd-IsPrime 5 (omega arith) (omega arith) refl

pub seven-IsPrime : IsPrime 7
seven-IsPrime = odd-IsPrime 7 (omega arith) (omega arith) refl

abbrev pub primes : List ℕ
primes = 3 ∷ 5 ∷ 7 ∷ []

pub primes-IsSievePrime : All IsSievePrime primes
primes-IsSievePrime = (
  (three-IsPrime, omega arith),
  ((five-IsPrime, omega arith), ((seven-IsPrime, omega arith), tt)),
)

pub primes-le : All (λ p. p ≤ 7) primes
primes-le = (omega arith, (omega arith, (omega arith, tt)))
