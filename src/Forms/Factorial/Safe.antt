-- ===== src/Forms/Factorial/Safe.antt =====
-- From its threshold on, the factorial sieve strikes out no prime but one that is the limit itself.
use native.Mathlib.Nat
use prime_hunter.Common.Prime.{IsPrime}
use prime_hunter.Common.{
  ℕ, zero, suc, ◌+◌, ◌-◌, ◌*◌, ◌%◌, ◌^◌, ◌<◌, ◌≤◌, Bool, true, false, List, [], ◌∷◌, any, All, ◌==◌,
  leb, ◌≡◌, ◌≢◌, refl, ap, ◌∙◌, ok, ◌>>=◌, Bool-cases, ==_iff, leb→le, inl, inr, arith,
}
use prime_hunter.Forms.Factorial.{
  new, threshold_loop, sieve_min_n, sieve_composites, saturating_mul,
}
use prime_hunter.Forms.Factorial.Exact.{factorial, IsSievePrime, new-tracked, check_composites-new}

-- The first number whose factorial is above the limit.
abbrev pub IsThreshold : ℕ → ℕ → Type 0
IsThreshold limit n = (limit < factorial n) × ((m : ℕ) → m < n → factorial m ≤ limit)

growth : (i : ℕ) → factorial (suc i) * 2 ≤ factorial (suc (suc i))
unfolding factorial
growth i = Nat.mul-le-mul_left (factorial i * suc i) (omega arith)

factorial_mono : (m n : ℕ) → m ≤ n → factorial m ≤ factorial n
unfolding factorial
factorial_mono m zero h = omega (arith, ap factorial {x = m} {y = 0} (omega (arith, h)))
factorial_mono m (suc n) h = elim (Bool-cases (m == suc n)) [
  | inl same ↦ omega (arith, ap factorial ((==_iff m (suc n)).0 same))
  | inr other ↦ omega (
    arith,
    factorial_mono m n (ground (arith, other, h)),
    Nat.le-mul_of_pos_right {m = suc n} (factorial n) (omega arith),
  )
]

module _ (limit : ℕ) where
  abbrev ReturnsThreshold : ℕ → ℕ → ℕ → Type 0
  ReturnsThreshold fuel fact i =
      (n : ℕ) × (threshold_loop fuel limit fact i ≡ ok n) × IsThreshold limit n

  stops :
      (fuel i : ℕ)
      → ((m : ℕ) → m ≤ i → factorial m ≤ limit)
      → leb (factorial (suc i)) limit ≡ false
      → ReturnsThreshold (suc fuel) (factorial (suc i)) (i + 2)
  unfolding threshold_loop
  stops fuel i below done = (
    suc i,
    rw done (ap ok (omega arith)),
    (ground (arith, done), λ m h. below m (omega (arith, h))),
  )

  goes_on :
      (fuel i : ℕ)
      → limit < 2 ^ 64
      → i ≤ 64
      → leb (factorial (suc i)) limit ≡ true
      → threshold_loop (suc fuel) limit (factorial (suc i)) (i + 2)
        ≡ threshold_loop fuel limit (factorial (suc (suc i))) (suc i + 2)
  unfolding threshold_loop factorial
  goes_on fuel i narrow small more = rw more (
      ap (λ (t : ℕ). threshold_loop fuel limit t (i + 2 + 1))
        (exact
          ∙ ap (λ (t : ℕ). factorial i * suc i * t) {x = i + 2} {y = suc (suc i)} (omega arith))
      ∙ ap (λ (t : ℕ). threshold_loop fuel limit (factorial i * suc i * suc (suc i)) t)
          {x = i + 2 + 1} {y = suc i + 2} (omega arith))
    where
      exact : saturating_mul (factorial (suc i)) (i + 2) ≡ factorial (suc i) * (i + 2)
      exact = ground (
        arith,
        Nat.mul-le-mul {n₁ = factorial (suc i)} {m₁ = i + 2} {n₂ = 2 ^ 64} {m₂ = 66}
            (omega (arith, leb→le (factorial (suc i)) limit more, narrow)) (omega (arith, small)),
      )

  threshold_loop_lem :
      (fuel i : ℕ)
      → limit < 2 ^ 64
      → limit < factorial (suc i) * 2 ^ fuel
      → i + fuel ≤ 64
      → ((m : ℕ) → m ≤ i → factorial m ≤ limit)
      → ReturnsThreshold (suc fuel) (factorial (suc i)) (i + 2)
  threshold_loop_lem zero i narrow enough sum below = stops zero i below (ground (arith, enough))
  threshold_loop_lem (suc fuel) i narrow enough sum below =
      elim (Bool-cases (leb (factorial (suc i)) limit)) [
        | inr done ↦ stops (suc fuel) i below done
        | inl more ↦
            let (n, run, threshold) =
              threshold_loop_lem fuel (suc i) narrow (doubled enough) (omega (arith, sum))
                (below_next (leb→le (factorial (suc i)) limit more)) in
            (n, goes_on (suc fuel) i narrow (omega (arith, sum)) more ∙ run, threshold)
      ]
    where
      doubled :
          limit < factorial (suc i) * 2 ^ suc fuel → limit < factorial (suc (suc i)) * 2 ^ fuel
      doubled h = omega (
        arith,
        h,
        ap (λ (t : ℕ). factorial (suc i) * t) (Nat.pow-suc 2 fuel ∙ Nat.mul_comm (2 ^ fuel) 2),
        Nat.mul_assoc (factorial (suc i)) 2 (2 ^ fuel),
        Nat.mul-le-mul_right (2 ^ fuel) (growth i),
      )

      below_next : factorial (suc i) ≤ limit → (m : ℕ) → m ≤ suc i → factorial m ≤ limit
      below_next h m le = elim (Bool-cases (m == suc i)) [
        | inl same ↦ rw ((==_iff m (suc i)).0 same) h
        | inr other ↦ below m (ground (arith, other, le))
      ]

-- For a limit from 1 up to 64 bits, the threshold is computed without running out of rounds, and it
-- is the first number whose factorial is above the limit.
pub sieve_min_n-IsThreshold :
    (sieve_limit : ℕ)
    → 0 < sieve_limit
    → sieve_limit < 2 ^ 64
    → (n : ℕ) × (sieve_min_n sieve_limit ≡ ok n) × IsThreshold sieve_limit n
unfolding sieve_min_n factorial
sieve_min_n-IsThreshold sieve_limit pos narrow =
    threshold_loop_lem sieve_limit 64 0 narrow (omega (arith, narrow)) (omega arith)
      (λ m h. low m h)
  where
    low : (m : ℕ) → m ≤ 0 → factorial m ≤ sieve_limit
    low zero h = omega (arith, pos)
    low (suc m) h = absurd (omega arith)

-- No prime of the list divides a prime above the limit.
pub hit :
    (limit v : ℕ) (ps : List ℕ)
    → All IsSievePrime ps
    → All (λ p. p ≤ limit) ps
    → limit < v
    → any (λ p. v % p == 0) ps ≡ true
    → ¬ IsPrime v
hit limit v [] primes small less found prime = ground (arith, found)
hit limit v (p ∷ ps) (here, primes) (p_small, small) less found prime =
    elim (Bool-cases (v % p == 0)) [
      | inl div ↦ omega (
        arith,
        less,
        p_small,
        prime.only p here.0.big (Nat.dvd_of_mod-eq-zero p ((==_iff (v % p) 0).0 div)),
      )
      | inr miss ↦ hit limit v ps primes small less (ground (arith, found, miss)) prime
    ]

-- For a limit from 1 up to 32 bits and a list of primes up to the limit, `search` computes its
-- threshold and its sieve at n without an overflow; where it strikes out n! + 1, that number is not
-- prime, and where it strikes out n! - 1, that number is not prime or is the limit itself.
pub factorial_composites_sound :
    (sieve_limit n : ℕ) (sieve_primes : List ℕ)
    → 0 < sieve_limit
    → sieve_limit < 2 ^ 32
    → All IsSievePrime sieve_primes
    → All (λ p. p ≤ sieve_limit) sieve_primes
    → (plus : Bool) × (minus : Bool) × ((do
      min_n ← sieve_min_n sieve_limit
      entries ← new sieve_primes n
      sieve_composites min_n entries n)
        ≡ ok (plus, minus))
      × (plus ≡ true → ¬ IsPrime (factorial n + 1))
      × (minus ≡ true → factorial n - 1 ≢ sieve_limit → ¬ IsPrime (factorial n - 1))
unfolding sieve_composites
factorial_composites_sound sieve_limit n sieve_primes pos narrow primes small =
    let (min_n, run, (large, least)) =
      sieve_min_n-IsThreshold sieve_limit pos (omega (arith, narrow)) in
    elim (Bool-cases (leb min_n n)) [
      | inr early ↦ (
        false,
        false,
        rw (run, new-tracked sieve_primes n primes, early) refl,
        λ found. absurd (ground (arith, found)),
        λ found. absurd (ground (arith, found)),
      )
      | inl late ↦
          let above : sieve_limit < factorial n =
            omega (arith, large, factorial_mono min_n n (leb→le min_n n late)) in
          (
            any (λ p. (factorial n + 1) % p == 0) sieve_primes,
            any (λ p. (factorial n - 1) % p == 0) sieve_primes,
            rw (run, late) (check_composites-new sieve_primes n primes),
            λ found.
                hit sieve_limit (factorial n + 1) sieve_primes primes small (omega (arith, above))
                  found,
            λ found apart.
                hit sieve_limit (factorial n - 1) sieve_primes primes small
                  (omega (arith, above, apart)) found,
          )
    ]
