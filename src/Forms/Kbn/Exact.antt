-- ===== src/Forms/Kbn/Exact.antt =====
-- `bsgs_sieve` clears exactly the exponents whose number has a divisor in the list.
use native.Mathlib.Nat
use prime_hunter.Common.Prime.{IsPrime}
use prime_hunter.Common.Residue.{fits-ok}
use prime_hunter.Common.{
  ℕ, ◌+◌, ◌-◌, ◌^◌, ◌<◌, ◌≤◌, ◌∣◌, ◌≡◌, ◌⊎◌, refl, ◌∙◌, Bool, true, false, not, ◌&&◌, ◌||◌, List,
  [], ◌∷◌, any, All, leb, Outcome, ok, ◌>>=◌, sub_checked, Bool-cases, lt→ltb, inl, inr, arith,
}
use prime_hunter.Sieve.BitSieve.{BitSieve, new_all_set}
use prime_hunter.Sieve.BitSieve.Words.{new_all_set-IsValid, new_all_set-bit}
use prime_hunter.Sieve.BitSieve.Access.{get-bit}
use prime_hunter.Sieve.Factor.{is_multiple_of}
use prime_hunter.Sieve.Order.{mod_inverse}
use prime_hunter.Sieve.Order.Prime.{mod_inverse-prime, multiplicative_order-prime}
use prime_hunter.Sieve.Fermat.{fermat}
use prime_hunter.Sieve.DiscreteLog.Exact.{IsRoot, discrete_log_bsgs-IsLog}
use prime_hunter.Forms.Kbn.{sieve_inverse, sieve_prime, sieve_all, bsgs_sieve, or_continue}
use prime_hunter.Forms.Kbn.Mark.{Reads, cong-Reads}
use prime_hunter.Forms.Kbn.Progression.{mark_log-Reads}
use prime_hunter.Forms.Kbn.Values.{
  IsSieved, hits_plus, hits_minus, left, spared_value, plus_value, minus_value,
}

module _ (sqrt_ceil : ℕ → ℕ) (roots : (n : ℕ) → 0 < n → n < 2 ^ 32 → IsRoot (sqrt_ceil n) n)
    (min_n max_n k base sieve_min_n : ℕ) (le : min_n ≤ max_n) (narrow : max_n + 2 ^ 32 < 2 ^ 64)
    (from_one : 0 < min_n) (k_pos : 0 < k) (base_pos : 0 < base) where
  abbrev span : ℕ
  span = max_n - min_n + 1

  abbrev Both : List ℕ → (ℕ → Bool) → (ℕ → Bool) → Outcome (BitSieve × BitSieve) → Type 0
  Both ps f g call =
      (both : BitSieve × BitSieve) × (call ≡ ok both)
      × Reads span (left sieve_min_n min_n (hits_plus k base) ps f) (both.0)
      × Reads span (left sieve_min_n min_n (hits_minus k base) ps g) (both.1)

  one_hit :
      (f b : Bool) (t hit : Bool) → hit ≡ b → (f && not (t && hit)) ≡ (f && not (t && (b || false)))
  one_hit f b t hit e = ground (arith, e)

  no_hit : (f t b : Bool) → b ≡ false → f ≡ (f && not (t && (b || false)))
  no_hit f t b e = ground (arith, e)

  skipped :
      (p : ℕ) (f g : ℕ → Bool) (plus minus : BitSieve)
      → IsPrime p
      → (is_multiple_of base p || is_multiple_of k p) ≡ true
      → Reads span f plus
      → Reads span g minus
      → Both (p ∷ []) f g (ok (plus, minus))
  skipped p f g plus minus prime h r s =
      let none_hit = λ (j : ℕ).
        spared_value p k base (min_n + j) prime.big k_pos base_pos (omega (arith, from_one)) h in
      (
        (plus, minus),
        refl,
        cong-Reads span f _ plus
            (λ j less. no_hit (f j) (leb sieve_min_n (min_n + j)) _ ((none_hit j).0)) r,
        cong-Reads span g _ minus
            (λ j less. no_hit (g j) (leb sieve_min_n (min_n + j)) _ ((none_hit j).1)) s,
      )

  marked :
      (p : ℕ) (f g : ℕ → Bool) (plus minus : BitSieve)
      → IsPrime p
      → 2 < p
      → p < 2 ^ 32
      → ¬ (p ∣ base)
      → ¬ (p ∣ k)
      → Reads span f plus
      → Reads span g minus
      → Both (p ∷ []) f g (
          mod_inverse k p
          >>= sieve_inverse sqrt_ceil min_n max_n k base sieve_min_n p (plus, minus))
  unfolding sieve_inverse or_continue
  marked p f g plus minus prime big small not_base not_k r s =
      let (i, i_run, below, inverse) =
        mod_inverse-prime k p prime big (omega (arith, small)) not_k in
      let (order, order_run, ord) =
        multiplicative_order-prime base p prime big (omega (arith, small)) not_base in
      let least = ord.smallest (p - 1) (omega (arith, big)) (fermat p base prime not_base) in
      let root = roots order ord.positive (omega (arith, least, small)) in
      let (log, log_run, is_log) =
        discrete_log_bsgs-IsLog sqrt_ceil base (p - i) p order prime big (omega (arith, small))
          not_base ord root in
      let (plus', plus_run, r') =
        mark_log-Reads base (p - i) p order min_n max_n sieve_min_n f plus log prime.big ord le
          (omega (arith, narrow, least, small)) is_log r in
      let (log', log_run', is_log') =
        discrete_log_bsgs-IsLog sqrt_ceil base i p order prime big (omega (arith, small)) not_base
          ord root in
      let (minus', minus_run, s') =
        mark_log-Reads base i p order min_n max_n sieve_min_n g minus log' prime.big ord le
          (omega (arith, narrow, least, small)) is_log' s in
      (
        (plus', minus'),
        rw (i_run, order_run, negated p i below, log_run, plus_run, log_run', minus_run) refl,
        cong-Reads span _ _ plus'
            (λ j less.
              one_hit (f j) _ (leb sieve_min_n (min_n + j)) _
                (plus_value p k i (base ^ (min_n + j)) prime.big inverse below))
            r',
        cong-Reads span _ _ minus'
            (λ j less. one_hit (g j) _ (leb sieve_min_n (min_n + j)) _ (
              minus_value p k i (base ^ (min_n + j)) prime.big inverse below
                (Nat.mul-pos k_pos (Nat.one-le-pow (min_n + j) base base_pos))))
            s',
      )
    where
      negated : (p i : ℕ) → i < p → sub_checked p i ≡ ok (p - i)
      negated p i h = ground (arith, h)

  sieve_prime_lem :
      (p : ℕ) (f g : ℕ → Bool) (plus minus : BitSieve)
      → IsSieved k base p
      → Reads span f plus
      → Reads span g minus
      → Both (p ∷ []) f g (sieve_prime sqrt_ceil min_n max_n k base sieve_min_n p (plus, minus))
  unfolding sieve_prime
  sieve_prime_lem p f g plus minus (prime, usable, small) r s =
      elim (Bool-cases (is_multiple_of base p || is_multiple_of k p)) [
        | inl skip ↦
            let (both, run, r', s') = skipped p f g plus minus prime skip r s in
            (both, rw skip run, r', s')
        | inr go ↦
            let (both, run, r', s') =
              marked p f g plus minus prime (odd_one usable go) small
                (λ h. ground (arith, go, Nat.mod-eq-zero_of_dvd p h))
                (λ h. ground (arith, go, Nat.mod-eq-zero_of_dvd p h)) r s in
            (both, rw go run, r', s')
      ]
    where
      odd_one :
          ((2 < p) ⊎ ((is_multiple_of base p || is_multiple_of k p) ≡ true))
          → (is_multiple_of base p || is_multiple_of k p) ≡ false
          → 2 < p
      odd_one (inl big) go = big
      odd_one (inr skip) go = absurd (ground (arith, skip, go))

  both_lists :
      (f t a b : Bool)
      → ((f && not (t && (a || false))) && not (t && b)) ≡ (f && not (t && (a || b)))
  both_lists f t a b = ground arith

  sieve_all_lem :
      (ps : List ℕ) (f g : ℕ → Bool) (plus minus : BitSieve)
      → All (IsSieved k base) ps
      → Reads span f plus
      → Reads span g minus
      → Both ps f g (sieve_all sqrt_ceil min_n max_n k base sieve_min_n ps (plus, minus))
  unfolding sieve_all
  sieve_all_lem [] f g plus minus h r s = (
    (plus, minus),
    refl,
    cong-Reads span f _ plus (λ j less. no_hit (f j) (leb sieve_min_n (min_n + j)) false refl) r,
    cong-Reads span g _ minus (λ j less. no_hit (g j) (leb sieve_min_n (min_n + j)) false refl) s,
  )
  sieve_all_lem (p ∷ ps) f g plus minus (odd, rest) r s =
      let ((plus', minus'), run, r', s') = sieve_prime_lem p f g plus minus odd r s in
      let (both, run', r'', s'') =
        sieve_all_lem ps (left sieve_min_n min_n (hits_plus k base) (p ∷ []) f)
          (left sieve_min_n min_n (hits_minus k base) (p ∷ []) g) plus' minus' rest r' s' in
      (
        both,
        rw run run',
        cong-Reads span _ _ (both.0)
            (λ j less.
              both_lists (f j) (leb sieve_min_n (min_n + j)) (hits_plus k base (min_n + j) p)
                (any (hits_plus k base (min_n + j)) ps))
            r'',
        cong-Reads span _ _ (both.1)
            (λ j less.
              both_lists (g j) (leb sieve_min_n (min_n + j)) (hits_minus k base (min_n + j) p)
                (any (hits_minus k base (min_n + j)) ps))
            s'',
      )

  all_set-Reads : Reads span (λ j. true) (new_all_set span)
  unfolding new_all_set
  all_set-Reads = record {
    valid = new_all_set-IsValid span;
    sized = refl;
    bits = λ j h.
        get-bit (new_all_set-IsValid span) j
        ∙ rw (lt→ltb j span h, new_all_set-bit span j) (rw (lt→ltb j span h) refl);
  }

  -- Where sqrt_ceil gives the root of each number of 32 bits, for 0 < min_n ≤ max_n with
  -- max_n + 2 ^ 32 below 2 ^ 64, a positive k and base and a list of primes of 32 bits, with 2 only
  -- where it divides the base or k, the sieve returns two valid bitmaps of max_n - min_n + 1 bits without an overflow: n survives in the first
  -- exactly when it lies below sieve_min_n or no prime of the list divides k * base ^ n + 1; in the
  -- second, k * base ^ n - 1.
  pub bsgs_sieve-Reads :
      (sieve_primes : List ℕ)
      → All (IsSieved k base) sieve_primes
      → (plus : BitSieve) × (minus : BitSieve) × (bsgs_sieve sqrt_ceil min_n max_n k base
            sieve_min_n sieve_primes
          ≡ ok (plus, minus))
        × Reads
            (max_n - min_n + 1)
            (left sieve_min_n min_n (hits_plus k base) sieve_primes (λ j. true))
            plus
        × Reads
            (max_n - min_n + 1)
            (left sieve_min_n min_n (hits_minus k base) sieve_primes (λ j. true))
            minus
  unfolding bsgs_sieve
  bsgs_sieve-Reads sieve_primes h =
      let (both, run, r, s) =
        sieve_all_lem sieve_primes (λ j. true) (λ j. true) (new_all_set span) (new_all_set span) h
          all_set-Reads all_set-Reads in
      (
        both.0,
        both.1,
        rw (difference, fits-ok 64 (max_n - min_n + 1) (omega (arith, narrow))) run,
        r,
        s,
      )
    where
      difference : sub_checked max_n min_n ≡ ok (max_n - min_n)
      difference = ground (arith, le)
