-- ===== src/Forms/Factorial/Exact.antt =====
-- The factorial sieve tracks n! modulo each prime above n, and finds the neighbours' divisors.
use native.Mathlib.Nat
use prime_hunter.Common.Prime.{IsPrime}
use prime_hunter.Common.{
  ℕ, zero, suc, ◌+◌, ◌-◌, ◌*◌, ◌%◌, ◌^◌, ◌<◌, ◌≤◌, ◌∣◌, Bool, false, not, List, [], ◌∷◌, length,
  any, All, ◌==◌, ltb, if◌then◌else◌, ◌≡◌, refl, sym, ap, ◌∙◌, ok, ◌>>=◌, Bool-cases, ==_iff, inl,
  inr, arith,
}
use prime_hunter.Sieve.Factor.Euclid.{prime-dvd-mul}
use prime_hunter.Forms.Incremental.Tracked.{
  IsNarrow, tracked, then_lem, retain_mut-tracked, update_all-tracked, check_loop-tracked,
}
use prime_hunter.Forms.Factorial.{residue, new, advance, check_composites}

unfoldable pub factorial : ℕ → ℕ
factorial zero = 1
factorial (suc n) = factorial n * suc n

abbrev pub IsSievePrime : ℕ → Type 0
IsSievePrime p = IsPrime p × (p < 2 ^ 32)

pub factorial_pos : (n : ℕ) → 0 < factorial n
unfolding factorial
factorial_pos zero = omega arith
factorial_pos (suc n) = Nat.mul-pos (factorial_pos n) (omega arith)

pub narrow : (ps : List ℕ) → All IsSievePrime ps → All IsNarrow ps
narrow [] h = h
narrow (p ∷ ps) ((prime, small), rest) = ((prime.big, small), narrow ps rest)

-- A prime divides n! exactly when it is at most n.
factorial-dvd : (p n : ℕ) → IsPrime p → p ∣ factorial n → p ≤ n
unfolding factorial
factorial-dvd p zero prime h = absurd (omega (arith, prime.big, Nat.eq-one_of_dvd-one h))
factorial-dvd p (suc n) prime h = elim (prime-dvd-mul p (factorial n) (suc n) prime h) [
  | inl left ↦ omega (arith, factorial-dvd p n prime left)
  | inr right ↦ Nat.le_of_dvd (omega arith) right
]

dvd-factorial : (p n : ℕ) → 0 < p → p ≤ n → factorial n % p ≡ 0
unfolding factorial
dvd-factorial p zero pos h = absurd (omega arith)
dvd-factorial p (suc n) pos h = elim (Bool-cases (p == suc n)) [
  | inl same ↦
      rw ((==_iff p (suc n)).0 same)
        (Nat.mod-eq-zero_of_dvd (suc n) (Nat.dvd-mul_left (suc n) (factorial n)))
  | inr other ↦ Nat.mod-eq-zero_of_dvd p (
      Nat.dvd-mul_right_of_dvd p
        (Nat.dvd_of_mod-eq-zero p (dvd-factorial p n pos (ground (arith, other, h)))) (suc n))
]

kept_iff : (p n : ℕ) → IsPrime p → ltb n p ≡ not (factorial n % p == 0)
kept_iff p n prime = elim (Bool-cases (factorial n % p == 0)) [
  | inl gone ↦ ground (
    arith,
    gone,
    factorial-dvd p n prime (Nat.dvd_of_mod-eq-zero p ((==_iff (factorial n % p) 0).0 gone)),
  )
  | inr kept ↦ ground (arith, kept, dvd-factorial p n (omega (arith, prime.big)))
]

residue_lem :
    (p count i : ℕ)
    → IsNarrow p
    → residue p count (i + 1) (factorial i % p) ≡ ok (factorial (i + count) % p)
unfolding residue factorial
residue_lem p zero i h = ap (λ (t : ℕ). ok (factorial t % p)) (omega arith)
residue_lem p (suc count) i h =
    then_lem (i + 1) p (factorial i) (λ x. residue p count (i + 1 + 1) x) h
    ∙ ap (λ (t : ℕ). residue p count (i + 1 + 1) (factorial i * t % p)) {x = i + 1} {y = suc i}
        (omega arith)
    ∙ ap (λ (t : ℕ). residue p count (t + 1) (factorial (suc i) % p)) {x = i + 1} {y = suc i}
        (omega arith)
    ∙ residue_lem p count (suc i) h
    ∙ ap (λ (t : ℕ). ok (factorial t % p)) {x = suc i + count} {y = i + suc count} (omega arith)

initial : (p n : ℕ) → IsNarrow p → residue p (n - 1) 2 1 ≡ ok (factorial n % p)
unfolding residue factorial
initial p zero (big, small) = ap ok (sym (Nat.mod-eq_of_lt big))
initial p (suc m) h =
    ap (λ (t : ℕ). residue p t 2 1) {x = suc m - 1} {y = m} (omega arith)
    ∙ ap (λ (t : ℕ). residue p m 2 t) (sym (Nat.mod-eq_of_lt h.0))
    ∙ residue_lem p m 1 h
    ∙ ap (λ (t : ℕ). ok (factorial t % p)) {x = 1 + m} {y = suc m} (omega arith)

pub new-tracked :
    (ps : List ℕ) (n : ℕ) → All IsSievePrime ps → new ps n ≡ ok (tracked (factorial n) ps)
unfolding new tracked
new-tracked [] n h = refl
new-tracked (p ∷ ps) n ((prime, small), rest) =
    rw (kept_iff p n prime, initial p n (prime.big, small), new-tracked ps n rest)
      (branch (factorial n % p == 0) (p, factorial n % p) (tracked (factorial n) ps))
  where
    branch :
        (b : Bool) (e : ℕ × ℕ) (es : List (ℕ × ℕ))
        → (if not b then ok (e ∷ es) else ok es) ≡ ok (if b then es else e ∷ es)
    branch b e es = ground arith

pub advance-tracked :
    (n v : ℕ) (ps : List ℕ) → All IsNarrow ps → advance (tracked v ps) n ≡ ok (tracked (v * n) ps)
unfolding advance
advance-tracked n v ps h =
    let (es, run, left) = update_all-tracked n v ps h in
    rw (run, left, retain_mut-tracked n v ps h)
      (branch (ltb 10000 (length (tracked v ps))) (tracked (v * n) ps))
  where
    branch : (b : Bool) (es : List (ℕ × ℕ)) → (if b then ok es else ok es) ≡ ok es
    branch b es = ground arith

-- For a list of primes of 32 bits, the sieve set up at n and advanced to n + 1 is the sieve set up
-- at n + 1, on the parallel and on the sequential path, and neither overflows.
pub advance-new :
    (ps : List ℕ) (n : ℕ)
    → All IsSievePrime ps
    → (es : List (ℕ × ℕ)) × (new ps n ≡ ok es) × (advance es (n + 1) ≡ new ps (n + 1))
unfolding factorial
advance-new ps n h = (
  tracked (factorial n) ps,
  new-tracked ps n h,
  advance-tracked (n + 1) (factorial n) ps (narrow ps h)
      ∙ ap (λ (t : ℕ). ok (tracked (factorial n * t) ps)) (omega arith)
      ∙ sym (ap (λ (t : ℕ). new ps t) (omega arith) ∙ new-tracked ps (suc n) h),
)

-- For a list of primes of 32 bits, the sieve set up at n says of n! + 1 and of n! - 1 whether a
-- prime of the list divides it.
pub check_composites-new :
    (ps : List ℕ) (n : ℕ)
    → All IsSievePrime ps
    → (new ps n >>= check_composites)
      ≡ ok (any (λ p. (factorial n + 1) % p == 0) ps, any (λ p. (factorial n - 1) % p == 0) ps)
unfolding check_composites
check_composites-new ps n h =
    rw (new-tracked ps n h)
      (check_loop-tracked (factorial n) ps false false (factorial_pos n) (narrow ps h) refl)
