-- ===== src/Forms/Primorial/Safe.antt =====
-- The threshold of the primorial search, and what the sieve strikes out from it on.
use native.Mathlib.Nat
use prime_hunter.Common.Prime.{IsPrime}
use prime_hunter.Common.{
  ℕ, ◌+◌, ◌-◌, ◌*◌, ◌%◌, ◌^◌, ◌<◌, ◌≤◌, Bool, true, false, List, [], ◌∷◌, ◌++◌, any, All, ◌==◌, ltb,
  leb, ◌≡◌, ◌≢◌, refl, ap, ◌∙◌, ok, ◌>>=◌, Bool-cases, leb→le, ltb→lt, ltb→le, inl, inr, arith,
}
use prime_hunter.Forms.Factorial.{saturating_mul}
use prime_hunter.Forms.Incremental.Tracked.{tracked}
use prime_hunter.Forms.Factorial.Exact
use prime_hunter.Forms.Factorial.Exact.{IsSievePrime}
use prime_hunter.Forms.Factorial.Safe.{hit}
use prime_hunter.Forms.Primorial.{new, min_prime_loop, sieve_min_prime, sieve_composites}
use prime_hunter.Forms.Primorial.Exact.{
  times, advance_all, advance_all-tracked, start-tracked, check_composites-advance_all,
}

-- What `generate_primes` returns: numbers of 64 bits, in order.
abbrev pub IsAscending : ℕ → List ℕ → Type 0
IsAscending low [] = Unit
IsAscending low (p ∷ ps) = (low ≤ p) × (p < 2 ^ 64) × IsAscending (p + 1) ps

times-le : (v low : ℕ) (ps : List ℕ) → 0 < low → IsAscending low ps → v ≤ times v ps
unfolding times
times-le v low [] pos h = omega arith
times-le v low (p ∷ ps) pos (le, small, rest) = omega (
  arith,
  times-le (v * p) (p + 1) ps (omega arith) rest,
  Nat.le-mul_of_pos_right {m = p} v (omega (arith, pos, le)),
)

-- The product of two numbers of 64 bits does not saturate.
exact : (v p : ℕ) → v < 2 ^ 64 → p < 2 ^ 64 → saturating_mul v p ≡ v * p
exact v p hv hp = ground (
  arith,
  Nat.mul-le-mul {n₁ = v} {m₁ = p} {n₂ = 2 ^ 64 - 1} {m₂ = 2 ^ 64 - 1} (omega (arith, hv))
      (omega (arith, hp)),
)

cut :
    (low : ℕ) (pre : List ℕ) (p : ℕ) (post : List ℕ)
    → IsAscending low (pre ++ p ∷ post)
    → IsAscending low (pre ++ p ∷ [])
cut low [] p post (le, small, rest) = (le, small, tt)
cut low (x ∷ pre) p post (le, small, rest) = (le, small, cut (x + 1) pre p post rest)

module _ (limit : ℕ) (narrow : limit < 2 ^ 64) where
  passes : (v p : ℕ) → v ≤ limit → p < 2 ^ 64 → ltb limit (saturating_mul v p) ≡ ltb limit (v * p)
  passes v p le small = ap (ltb limit) (exact v p (omega (arith, le, narrow)) small)

  within :
      (v low : ℕ) (ps : List ℕ)
      → 0 < low
      → IsAscending low ps
      → times v ps ≤ limit
      → min_prime_loop limit v ps ≡ 2
  unfolding min_prime_loop times
  within v low [] pos h le = refl
  within v low (p ∷ ps) pos (low_le, small, rest) le =
      let here : v * p ≤ limit =
        omega (arith, le, times-le (v * p) (p + 1) ps (omega arith) rest) in
      let before : v ≤ limit =
        omega (arith, here, Nat.le-mul_of_pos_right {m = p} v (omega (arith, pos, low_le))) in
      let stays : ltb limit (v * p) ≡ false = ground (arith, here) in
      rw (passes v p before small ∙ stays, exact v p (omega (arith, before, narrow)) small)
        (within (v * p) (p + 1) ps (omega arith) rest le)

  from_low :
      (v low : ℕ) (ps : List ℕ)
      → v ≤ limit
      → limit < times v ps
      → IsAscending low ps
      → low ≤ min_prime_loop limit v ps
  unfolding min_prime_loop times
  from_low v low [] le large h = absurd (omega (arith, le, large))
  from_low v low (p ∷ ps) le large (low_le, small, rest) = elim (Bool-cases (ltb limit (v * p))) [
    | inl over ↦ rw (passes v p le small ∙ over) low_le
    | inr under ↦
        rw (passes v p le small ∙ under, exact v p (omega (arith, le, narrow)) small)
          (omega
            (arith, low_le, from_low (v * p) (p + 1) ps (ltb→le limit (v * p) under) large rest))
  ]

  past :
      (v low : ℕ) (pre : List ℕ) (p : ℕ) (post : List ℕ)
      → v ≤ limit
      → 0 < low
      → limit < times v (pre ++ p ∷ post)
      → IsAscending low (pre ++ p ∷ post)
      → min_prime_loop limit v (pre ++ p ∷ post) ≤ p
      → limit < times v (pre ++ p ∷ [])
  unfolding min_prime_loop times
  past v low [] p post le pos large (low_le, small, rest) hit =
      elim (Bool-cases (ltb limit (v * p))) [
        | inl over ↦ ltb→lt limit (v * p) over
        | inr under ↦ absurd (
            omega (
              arith,
              (rw (passes v p le small ∙ under, exact v p (omega (arith, le, narrow)) small) at
                  hit),
              from_low (v * p) (p + 1) post (ltb→le limit (v * p) under) large rest,
            ))
      ]
  past v low (x ∷ pre) p post le pos large (low_le, small, rest) hit =
      elim (Bool-cases (ltb limit (v * x))) [
        | inl over ↦
            Nat.lt_of_lt_of_le (ltb→lt limit (v * x) over)
              (times-le (v * x) (x + 1) (pre ++ p ∷ []) (omega arith) (cut (x + 1) pre p post rest))
        | inr under ↦
            past (v * x) (x + 1) pre p post (ltb→le limit (v * x) under) (omega arith) large rest
              (rw (passes v x le small ∙ under, exact v x (omega (arith, le, narrow)) small) at hit)
      ]

-- For a limit from 1 up to 64 bits and an ascending list of numbers from 2 up to 64 bits: where the
-- product of the whole list stays within the limit, the threshold is 2, so that the search takes the
-- sieve's word from its first prime on; elsewhere the product up to each number of the list that is
-- not below the threshold is above the limit.
pub sieve_min_prime_lem :
    (sieve_limit : ℕ) (pre : List ℕ) (p : ℕ) (post : List ℕ)
    → 0 < sieve_limit
    → sieve_limit < 2 ^ 64
    → IsAscending 2 (pre ++ p ∷ post)
    → (times 1 (pre ++ p ∷ post) ≤ sieve_limit → sieve_min_prime sieve_limit (pre ++ p ∷ post) ≡ 2)
      × (sieve_limit < times 1 (pre ++ p ∷ post)
          → sieve_min_prime sieve_limit (pre ++ p ∷ post) ≤ p
          → sieve_limit < times 1 (pre ++ p ∷ []))
unfolding sieve_min_prime
sieve_min_prime_lem sieve_limit pre p post pos narrow asc = (
  within sieve_limit narrow 1 2 (pre ++ p ∷ post) (omega arith) asc,
  λ large hit. past sieve_limit narrow 1 2 pre p post pos (omega arith) large asc hit,
)

-- For a limit from 1 up to 32 bits, sieve primes up to the limit and an ascending list whose whole
-- product is above the limit, the sieve advanced up to p returns without an overflow; where `search`
-- strikes out p# + 1, that number is not prime, and where it strikes out p# - 1, that number is not
-- prime or is the limit itself.
pub primorial_composites_sound :
    (sieve_limit : ℕ) (pre : List ℕ) (p : ℕ) (post sieve_primes : List ℕ)
    → 0 < sieve_limit
    → sieve_limit < 2 ^ 32
    → IsAscending 2 (pre ++ p ∷ post)
    → sieve_limit < times 1 (pre ++ p ∷ post)
    → All IsSievePrime sieve_primes
    → All (λ q. q ≤ sieve_limit) sieve_primes
    → (plus : Bool) × (minus : Bool) × ((do
      start ← new sieve_primes (pre ++ p ∷ post) 0
      entries ← advance_all start (pre ++ p ∷ [])
      sieve_composites (sieve_min_prime sieve_limit (pre ++ p ∷ post)) entries p)
        ≡ ok (plus, minus))
      × (plus ≡ true → ¬ IsPrime (times 1 (pre ++ p ∷ []) + 1))
      × (minus ≡ true
          → times 1 (pre ++ p ∷ []) - 1 ≢ sieve_limit
          → ¬ IsPrime (times 1 (pre ++ p ∷ []) - 1))
unfolding sieve_composites
primorial_composites_sound sieve_limit pre p post sieve_primes pos narrow asc large primes small =
    let v : ℕ = times 1 (pre ++ p ∷ []) in
    let run = advanced in
    elim (Bool-cases (leb (sieve_min_prime sieve_limit (pre ++ p ∷ post)) p)) [
      | inr early ↦ (
        false,
        false,
        rw (start-tracked (pre ++ p ∷ post) sieve_primes primes, run, early) refl,
        λ found. absurd (ground (arith, found)),
        λ found. absurd (ground (arith, found)),
      )
      | inl late ↦
          let above : sieve_limit < v =
            (sieve_min_prime_lem sieve_limit pre p post pos (omega (arith, narrow)) asc).1 large
              (leb→le _ p late) in
          (
            any (λ q. (v + 1) % q == 0) sieve_primes,
            any (λ q. (v - 1) % q == 0) sieve_primes,
            rw late (
                check_composites-advance_all (pre ++ p ∷ post) (pre ++ p ∷ []) sieve_primes primes
                  (omega (arith, above))),
            λ found. hit sieve_limit (v + 1) sieve_primes primes small (omega (arith, above)) found,
            λ found apart.
                hit sieve_limit (v - 1) sieve_primes primes small (omega (arith, above, apart))
                  found,
          )
    ]
  where
    advanced :
        advance_all (tracked 1 sieve_primes) (pre ++ p ∷ [])
        ≡ ok (tracked (times 1 (pre ++ p ∷ [])) sieve_primes)
    advanced = advance_all-tracked 1 (pre ++ p ∷ []) sieve_primes (Exact.narrow sieve_primes primes)
