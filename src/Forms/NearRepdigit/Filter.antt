-- ===== src/Forms/NearRepdigit/Filter.antt =====
-- `sieve_filter` strikes out no prime.
use native.Mathlib.Nat
use prime_hunter.Common.Prime.{IsPrime}
use prime_hunter.Common.{
  ℕ, ◌+◌, ◌-◌, ◌*◌, ◌%◌, ◌^◌, ◌<◌, ◌≤◌, Bool, true, false, ◌&&◌, List, [], ◌∷◌, any, ◌==◌, leb, ltb,
  if◌then◌else◌, ◌≡◌, refl, sym, ap, ◌∙◌, ok, fits, Bool-cases, leb→le, inl, inr, arith,
}
use prime_hunter.Common.Residue.{fits-ok}
use prime_hunter.Forms.NearRepdigit.{filter_loop, sieve_filter}
use prime_hunter.Forms.NearRepdigit.Remainder.{
  IsTried, candidate, candidate-large, candidate_mod_p-mod,
}

-- What `generate_primes` returns: numbers from 2 up to 32 bits, in order.
abbrev pub IsAscending : ℕ → List ℕ → Type 0
IsAscending low [] = Unit
IsAscending low (p ∷ ps) = (low ≤ p) × (p < 2 ^ 32) × IsAscending (p + 1) ps

-- The numbers below `bound` that divide n.
abbrev pub divides_below : ℕ → ℕ → ℕ → Bool
divides_below bound n p = ltb p bound && (n % p == 0)

pub above :
    (bound n low : ℕ) (ps : List ℕ)
    → bound ≤ low
    → IsAscending low ps
    → any (divides_below bound n) ps ≡ false
above bound n low [] h asc = refl
above bound n low (p ∷ ps) h (le, small, rest) =
    ground (arith, above bound n (p + 1) ps (omega (arith, h, le)) rest, h, le)

module _ {k d m : ℕ} (tried : IsTried k d m) (bound : ℕ) where
  filter_loop_lem :
      (low : ℕ) (ps : List ℕ)
      → 0 < low
      → IsAscending low ps
      → filter_loop bound k d m ps ≡ ok (any (divides_below bound (candidate k d m)) ps)
  unfolding filter_loop
  filter_loop_lem low [] pos asc = refl
  filter_loop_lem low (p ∷ ps) pos (le, small, rest) = elim (Bool-cases (leb bound p)) [
    | inl stop ↦ rw stop (
        ap ok (
          sym (
            above bound (candidate k d m) p (p ∷ ps) (leb→le bound p stop)
              (omega arith, small, rest))))
    | inr go ↦
        rw (go, candidate_mod_p-mod p tried (omega (arith, pos, le)) small)
          (ground (arith, filter_loop_lem (p + 1) ps (omega arith) rest, go))
  ]

-- The candidate's smallest value, as far as it is computed.
abbrev pub max_safe_prime : ℕ → ℕ
max_safe_prime k = if ltb 18 (2 * k + 1) then 2 ^ 64 - 1 else 10 ^ (2 * k)

pub hit-divides :
    (bound n low : ℕ) (ps : List ℕ)
    → IsAscending low ps
    → any (divides_below bound n) ps ≡ true
    → (p : ℕ) × (low ≤ p) × (p < 2 ^ 32) × (p < bound) × (n % p ≡ 0)
hit-divides bound n low [] asc hit = ground (arith, hit)
hit-divides bound n low (p ∷ ps) (le, small, rest) hit =
    elim (Bool-cases (divides_below bound n p)) [
      | inl here ↦ (p, le, small, ground (arith, here), ground (arith, here))
      | inr miss ↦
          let (q, q_le, q_small, q_bound, q_div) =
            hit-divides bound n (p + 1) ps rest (ground (arith, hit, miss)) in
          (q, omega (arith, q_le, le), q_small, q_bound, q_div)
    ]

hit-composite :
    {k d m : ℕ}
    → IsTried k d m
    → (p : ℕ) → 1 < p
    → p < 2 ^ 32
    → p < max_safe_prime k
    → candidate k d m % p ≡ 0
    → ¬ IsPrime (candidate k d m)
hit-composite {k} {d} {m} tried p big small bound div prime =
    omega (arith, prime.only p big (Nat.dvd_of_mod-eq-zero p div), candidate-large tried, below)
  where
    p_small : 10 ^ 18 ≤ 10 ^ (2 * k) → p < 10 ^ (2 * k)
    p_small h = omega (arith, h, small)

    below : p < 10 ^ (2 * k)
    below = elim (Bool-cases (ltb 18 (2 * k + 1))) [
      | inl many ↦
          p_small (
            Nat.pow-le-pow_right {n = 10} (omega arith) {i = 18} {j = 2 * k} (ground (arith, many)))
      | inr few ↦ (rw few at bound)
    ]

-- For parameters that the search tries and an ascending list of numbers from 2 up to 32 bits, the
-- filter returns without an overflow, it answers whether a number of the list below the smallest
-- candidate of 2 * k + 1 digits (below 2 ^ 64 - 1 from 19 digits on) divides the candidate
-- 10 ^ (2 * k + 1) - 1 - d * (10 ^ (k + m) + 10 ^ (k - m)) (2 * d * 10 ^ k for m = 0), and a
-- candidate that is filtered out is not prime.
pub sieve_filter-candidate :
    {k d m : ℕ} (sieve_primes : List ℕ)
    → IsTried k d m
    → IsAscending 2 sieve_primes
    → (sieve_filter k d m sieve_primes
        ≡ ok (any (divides_below (max_safe_prime k) (candidate k d m)) sieve_primes))
      × (sieve_filter k d m sieve_primes ≡ ok true → ¬ IsPrime (candidate k d m))
unfolding sieve_filter
sieve_filter-candidate {k} {d} {m} sieve_primes tried asc = (
  run,
  λ filtered.
      let hit : any (divides_below (max_safe_prime k) (candidate k d m)) sieve_primes ≡ true =
        same _ (sym run ∙ filtered) in
      let (p, big, small, bound, div) =
        hit-divides (max_safe_prime k) (candidate k d m) 2 sieve_primes asc hit in
      hit-composite tried p (omega (arith, big)) small bound div,
)
  where
    run :
        sieve_filter k d m sieve_primes
        ≡ ok (any (divides_below (max_safe_prime k) (candidate k d m)) sieve_primes)
    run = elim (Bool-cases (ltb 18 (2 * k + 1))) [
      | inl many ↦
          rw (twice, count, many)
            (filter_loop_lem tried (2 ^ 64 - 1) 2 sieve_primes (omega arith) asc)
      | inr few ↦
          rw
            (
              twice,
              count,
              few,
              ap (λ (t : ℕ). 10 ^ t) exponent,
              fits-ok 64 (10 ^ (2 * k)) (
                  Nat.lt_of_le_of_lt
                    (Nat.pow-le-pow_right {n = 10} (omega arith) {i = 2 * k} {j = 18}
                      (ground (arith, few)))
                    (omega arith)),
            )
            (filter_loop_lem tried (10 ^ (2 * k)) 2 sieve_primes (omega arith) asc)
    ]
      where
        twice : fits 64 (2 * k) ≡ ok (2 * k)
        twice = fits-ok 64 (2 * k) (omega (arith, tried.narrow))

        count : fits 64 (2 * k + 1) ≡ ok (2 * k + 1)
        count = fits-ok 64 (2 * k + 1) (omega (arith, tried.narrow))

        exponent : 2 * k + 1 - 1 ≡ 2 * k
        exponent = omega arith

    same : (b : Bool) → ok b ≡ ok true → b ≡ true
    same b e = ground (arith, e)
