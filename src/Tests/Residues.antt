-- ===== src/Tests/Residues.antt =====
-- The factorial and the primorial sieve at concrete numbers.
use prime_hunter.Common.Prime.{IsPrime}
use prime_hunter.Common.{
  ℕ, ◌+◌, ◌-◌, ◌<◌, ◌≤◌, ◌≡◌, ◌≢◌, Bool, true, List, [], ◌∷◌, ok, ◌>>=◌, arith,
}
use prime_hunter.Forms.Factorial
use prime_hunter.Forms.Factorial.Exact.{factorial, advance-new}
use prime_hunter.Forms.Factorial.Safe.{factorial_composites_sound}
use prime_hunter.Forms.Primorial
use prime_hunter.Forms.Primorial.Exact.{times, advance_all, IsPrefix, new-advance_all}
use prime_hunter.Forms.Primorial.Safe.{IsAscending, sieve_min_prime_lem, primorial_composites_sound}
use prime_hunter.Tests.Primes.{primes, primes-IsSievePrime, primes-le, two-IsPrime, three-IsPrime}

advance-new_example :
    (es : List (ℕ × ℕ)) × (Factorial.new primes 3 ≡ ok es)
    × (Factorial.advance es 4 ≡ Factorial.new primes 4)
advance-new_example = advance-new primes 3 primes-IsSievePrime

factorial_composites_sound_example :
    (plus : Bool) × (minus : Bool) × ((do
      min_n ← Factorial.sieve_min_n 7
      entries ← Factorial.new primes 6
      Factorial.sieve_composites min_n entries 6)
      ≡ ok (plus, minus))
    × (plus ≡ true → ¬ IsPrime (factorial 6 + 1))
    × (minus ≡ true → factorial 6 - 1 ≢ 7 → ¬ IsPrime (factorial 6 - 1))
factorial_composites_sound_example =
    factorial_composites_sound 7 6 primes (omega arith) (omega arith) primes-IsSievePrime primes-le

first_two : IsPrefix 3 (2 ∷ 3 ∷ [])
first_two = record {
  primes = ((two-IsPrime, omega arith), ((three-IsPrime, omega arith), tt));
  complete = λ q prime le. ground (arith, prime.big, le);
}

new-advance_all_example :
    (es : List (ℕ × ℕ)) × (Primorial.new primes (2 ∷ 3 ∷ 5 ∷ []) 2 ≡ ok es)
    × ((Primorial.new primes (2 ∷ 3 ∷ 5 ∷ []) 0 >>= λ start. advance_all start (2 ∷ 3 ∷ []))
        ≡ ok es)
new-advance_all_example = new-advance_all 3 (2 ∷ []) (5 ∷ []) primes primes-IsSievePrime first_two

ascending : IsAscending 2 (2 ∷ 3 ∷ 5 ∷ [])
ascending = (omega arith, omega arith, (omega arith, omega arith, (omega arith, omega arith, tt)))

sieve_min_prime_lem_example :
    (times 1 (2 ∷ 3 ∷ 5 ∷ []) ≤ 7 → Primorial.sieve_min_prime 7 (2 ∷ 3 ∷ 5 ∷ []) ≡ 2)
    × (7 < times 1 (2 ∷ 3 ∷ 5 ∷ [])
        → Primorial.sieve_min_prime 7 (2 ∷ 3 ∷ 5 ∷ []) ≤ 3
        → 7 < times 1 (2 ∷ 3 ∷ []))
sieve_min_prime_lem_example =
    sieve_min_prime_lem 7 (2 ∷ []) 3 (5 ∷ []) (omega arith) (omega arith) ascending

large : 7 < times 1 (2 ∷ 3 ∷ 5 ∷ [])
unfolding times
large = omega arith

primorial_composites_sound_example :
    (plus : Bool) × (minus : Bool) × ((do
      start ← Primorial.new primes (2 ∷ 3 ∷ 5 ∷ []) 0
      entries ← advance_all start (2 ∷ 3 ∷ 5 ∷ [])
      Primorial.sieve_composites (Primorial.sieve_min_prime 7 (2 ∷ 3 ∷ 5 ∷ [])) entries 5)
      ≡ ok (plus, minus))
    × (plus ≡ true → ¬ IsPrime (times 1 (2 ∷ 3 ∷ 5 ∷ []) + 1))
    × (minus ≡ true → times 1 (2 ∷ 3 ∷ 5 ∷ []) - 1 ≢ 7 → ¬ IsPrime (times 1 (2 ∷ 3 ∷ 5 ∷ []) - 1))
primorial_composites_sound_example =
    primorial_composites_sound 7 (2 ∷ 3 ∷ []) 5 [] primes (omega arith) (omega arith) ascending
      large primes-IsSievePrime primes-le
