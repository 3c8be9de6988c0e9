-- ===== src/Forms/GenFermat/Exact.antt =====
-- `sieve_gf` strikes out exactly the bases whose number has a divisor in the list.
use native.Mathlib.Nat
use prime_hunter.Common.Residue.{fits-ok}
use prime_hunter.Common.{
  ℕ, zero, suc, ◌+◌, ◌-◌, ◌*◌, ◌/◌, ◌%◌, ◌^◌, ◌<◌, ◌≤◌, Bool, true, false, not, ◌&&◌, ◌||◌, List,
  [], ◌∷◌, replicate, length, any, All, ◌==◌, leb, ltb, if◌then◌else◌, ◌≡◌, refl, ap, ◌∙◌, Outcome,
  ok, sub_checked, Bool-cases, ==_iff, inl, inr, arith,
}
use prime_hunter.Sieve.ModArith.Power.{pow_mod-eq-pow}
use prime_hunter.Forms.Factorial.Exact.{IsSievePrime}
use prime_hunter.Forms.Sweep.{sweep, for_each, number_map, number_map_ext, number_map-number_map}
use prime_hunter.Forms.GenFermat.{gf_step, mark_gf, sieve_gf}
use prime_hunter.Forms.GenFermat.Values.{gen_fermat, multiple_misses, test_lem}

-- The number at index i survives the primes of the list.
module _ (min_b fermat_n sieve_min_b : ℕ) where
  abbrev base_at : ℕ → ℕ
  base_at i = min_b + 2 * i

  abbrev pub survives_gf : List ℕ → ℕ → Bool → Bool
  survives_gf ps i x =
      x
      && not (
          leb sieve_min_b (min_b + 2 * i)
          && any (λ p. gen_fermat (min_b + 2 * i) fermat_n % p == 0) ps)

  step_lem :
      (q i : ℕ) (u : Unit {0}) (x : Bool)
      → IsSievePrime q
      → 2 < q
      → min_b + 2 * i < 2 ^ 64
      → gf_step min_b sieve_min_b q (2 ^ fermat_n % (q - 1)) i u x
        ≡ ok (survives_gf (q ∷ []) i x, u)
  unfolding gf_step
  step_lem q i u x (prime, small) big narrow = elim (Bool-cases ((min_b + 2 * i) % q == 0)) [
    | inl multiple ↦
        let miss =
          multiple_misses q (min_b + 2 * i) (2 ^ fermat_n) prime.big
            (Nat.one-le-pow fermat_n 2 (omega arith))
            ((==_iff ((min_b + 2 * i) % q) 0).0 multiple) in
        rw
          (
            fits-ok 64 (2 * i) (omega (arith, narrow)),
            fits-ok 64 (min_b + 2 * i) narrow,
            multiple,
            miss,
          )
          (skipped (ltb (min_b + 2 * i) sieve_min_b) (leb sieve_min_b (min_b + 2 * i)) x)
    | inr other ↦
        rw
          (
            fits-ok 64 (2 * i) (omega (arith, narrow)),
            fits-ok 64 (min_b + 2 * i) narrow,
            other,
            pow_mod-eq-pow ((min_b + 2 * i) % q) (2 ^ fermat_n % (q - 1)) q
                (omega (arith, Nat.mod-lt (2 ^ fermat_n) {m = q - 1}, small, big))
                (omega (arith, big)),
            last,
            test_lem q (min_b + 2 * i) fermat_n prime other,
          )
          (tested (min_b + 2 * i) (gen_fermat (min_b + 2 * i) fermat_n % q == 0) x)
  ]
    where
      last : sub_checked q 1 ≡ ok (q - 1)
      last = ground (arith, big)

      skipped :
          (below from x : Bool)
          → ◌≡◌ {A = Outcome (Bool × Unit {0})}
              (if◌then◌else◌ {A = Outcome (Bool × Unit {0})} below (ok (x, u)) (ok (x, u)))
              (ok (x && not (from && (false || false)), u))
      skipped below from x = ground arith

      tested :
          (b : ℕ) (hit x : Bool)
          → ◌≡◌ {A = Outcome (Bool × Unit {0})}
              (if◌then◌else◌ {A = Outcome (Bool × Unit {0})}
                (ltb b sieve_min_b)
                (ok (x, u))
                (ok ((if hit then false else x), u)))
              (ok (x && not (leb sieve_min_b b && (hit || false)), u))
      tested b hit x = ground arith

  walk :
      (q i : ℕ) (xs : List Bool)
      → IsSievePrime q
      → 2 < q
      → min_b + 2 * (i + length xs) < 2 ^ 64 + 2
      → sweep (gf_step min_b sieve_min_b q (2 ^ fermat_n % (q - 1))) i tt xs
        ≡ ok (number_map (survives_gf (q ∷ [])) i xs)
  unfolding sweep number_map
  walk q i [] h big narrow = refl
  walk q i (x ∷ xs) h big narrow =
      rw
        (
          step_lem q i tt x h big (omega (arith, narrow)),
          walk q (i + 1) xs h big (omega (arith, narrow)),
        )
        refl

  -- An even power plus 1 is odd.
  two_misses : (i : ℕ) (x : Bool) → min_b % 2 ≡ 0 → x ≡ survives_gf (2 ∷ []) i x
  two_misses i x even = clear (
      multiple_misses 2 (min_b + 2 * i) (2 ^ fermat_n) (omega arith)
        (Nat.one-le-pow fermat_n 2 (omega arith)) (omega (arith, even)))
    where
      clear :
          {hit : Bool}
          → hit ≡ false
          → x ≡ (x && not (leb sieve_min_b (min_b + 2 * i) && (hit || false)))
      clear e = ground (arith, e)

  spared_two :
      (i : ℕ) (xs : List Bool) → min_b % 2 ≡ 0 → xs ≡ number_map (survives_gf (2 ∷ [])) i xs
  unfolding number_map
  spared_two i [] even = refl
  spared_two i (x ∷ xs) even = (λ j. two_misses i x even j ∷ spared_two (i + 1) xs even j)

  mark_lem :
      (q : ℕ) (xs : List Bool)
      → IsSievePrime q
      → fermat_n < 2 ^ 64
      → min_b % 2 ≡ 0
      → min_b + 2 * length xs < 2 ^ 64 + 2
      → mark_gf min_b fermat_n sieve_min_b q xs ≡ ok (number_map (survives_gf (q ∷ [])) 0 xs)
  unfolding mark_gf
  mark_lem q xs h short even narrow = elim (Bool-cases (q == 2)) [
    | inl two ↦ rw (two, (==_iff q 2).0 two) (ap ok (spared_two 0 xs even))
    | inr other ↦
        let big : 2 < q = ground (arith, other, h.0.big) in
        rw (other, less big, pow_mod-eq-pow 2 fermat_n (q - 1) short (omega (arith, big)))
          (walk q 0 xs h big (omega (arith, narrow)))
  ]
    where
      less : 2 < q → sub_checked q 1 ≡ ok (q - 1)
      less big = ground (arith, big)

  none_struck : (i : ℕ) (xs : List Bool) → xs ≡ number_map (survives_gf []) i xs
  unfolding number_map
  none_struck i [] = refl
  none_struck i (x ∷ xs) = (λ j. same i x j ∷ none_struck (i + 1) xs j)
    where
      same : (i : ℕ) (x : Bool) → x ≡ survives_gf [] i x
      same i x = ground arith

  joined :
      (p : ℕ) (ps : List ℕ) (i : ℕ) (x : Bool)
      → survives_gf ps i (survives_gf (p ∷ []) i x) ≡ survives_gf (p ∷ ps) i x
  joined p ps i x = ground arith

  length-number_map :
      (f : ℕ → Bool → Bool) (i : ℕ) (xs : List Bool) → length (number_map f i xs) ≡ length xs
  unfolding number_map
  length-number_map f i [] = refl
  length-number_map f i (x ∷ xs) = ap suc (length-number_map f (i + 1) xs)

  length-replicate : (n : ℕ) → length (replicate n true) ≡ n
  length-replicate zero = refl
  length-replicate (suc n) = ap suc (length-replicate n)

  all_lem :
      (ps : List ℕ) (xs : List Bool)
      → All IsSievePrime ps
      → fermat_n < 2 ^ 64
      → min_b % 2 ≡ 0
      → min_b + 2 * length xs < 2 ^ 64 + 2
      → for_each (mark_gf min_b fermat_n sieve_min_b) ps xs ≡ ok (number_map (survives_gf ps) 0 xs)
  unfolding for_each
  all_lem [] xs h short even narrow = ap ok (none_struck 0 xs)
  all_lem (p ∷ ps) xs (h, rest) short even narrow = rw (mark_lem p xs h short even narrow) (
      all_lem ps (number_map (survives_gf (p ∷ [])) 0 xs) rest short even
        (omega (arith, narrow, length-number_map (survives_gf (p ∷ [])) 0 xs))
      ∙ ap ok (
          number_map-number_map (survives_gf (p ∷ [])) (survives_gf ps) 0 xs
          ∙ number_map_ext _ (survives_gf (p ∷ ps)) (joined p ps) 0 xs))

  -- For an even first base, a last base of 64 bits, an exponent and primes of 32 bits, the sieve returns
  -- without an overflow, and the i-th base b = min_b + 2 * i survives exactly when it lies below
  -- sieve_min_b or no prime of the list divides b ^ (2 ^ n) + 1.
  pub sieve_gf-survives_gf :
      (max_b : ℕ) (sieve_primes : List ℕ)
      → min_b ≤ max_b
      → max_b < 2 ^ 64
      → min_b % 2 ≡ 0
      → fermat_n < 2 ^ 32
      → All IsSievePrime sieve_primes
      → sieve_gf min_b max_b fermat_n sieve_primes sieve_min_b
        ≡ ok (number_map (survives_gf sieve_primes) 0 (replicate ((max_b - min_b) / 2 + 1) true))
  unfolding sieve_gf
  sieve_gf-survives_gf max_b sieve_primes le narrow even short h =
      rw (span, fits-ok 64 ((max_b - min_b) / 2 + 1) (omega (arith, narrow)))
        (all_lem sieve_primes (replicate ((max_b - min_b) / 2 + 1) true) h (omega (arith, short))
          even (omega (arith, le, narrow, length-replicate ((max_b - min_b) / 2 + 1))))
    where
      span : sub_checked max_b min_b ≡ ok (max_b - min_b)
      span = ground (arith, le)
