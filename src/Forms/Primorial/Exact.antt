-- ===== src/Forms/Primorial/Exact.antt =====
-- The primorial sieve tracks p# modulo each prime that does not divide it.
use native.Mathlib.Nat
use prime_hunter.Common.Prime.{IsPrime}
use prime_hunter.Common.{
  ℕ, suc, ◌+◌, ◌-◌, ◌*◌, ◌%◌, ◌<◌, ◌≤◌, ◌∣◌, Bool, true, false, not, List, [], ◌∷◌, ◌++◌, length,
  any, All, ◌==◌, ltb, if◌then◌else◌, ◌≡◌, refl, sym, ap, ◌∙◌, Outcome, ok, ◌>>=◌, Bool-cases,
  ==_iff, ltb→le, ltb→lt, lt→ltb, inl, inr, arith,
}
use prime_hunter.Sieve.Factor.Euclid.{prime-dvd-mul}
use prime_hunter.Forms.Incremental.Tracked.{
  IsNarrow, tracked, then_lem, retain_mut-tracked, update_all-tracked, check_loop-tracked,
}
use prime_hunter.Forms.Factorial.Exact.{IsSievePrime, narrow}
use prime_hunter.Forms.Primorial.{prefix, index, residue, entries, new, advance, check_composites}

-- v times the product of the list.
unfoldable pub times : ℕ → List ℕ → ℕ
times v [] = v
times v (p ∷ ps) = times (v * p) ps

-- `advance` for each prime of the list.
unfoldable pub advance_all : List (ℕ × ℕ) → List ℕ → Outcome (List (ℕ × ℕ))
advance_all es [] = ok es
advance_all es (p ∷ ps) = advance es p >>= λ es'. advance_all es' ps

pub advance-tracked :
    (n v : ℕ) (qs : List ℕ) → All IsNarrow qs → advance (tracked v qs) n ≡ ok (tracked (v * n) qs)
unfolding advance
advance-tracked n v qs h =
    let (es, run, left) = update_all-tracked n v qs h in
    rw (run, left, retain_mut-tracked n v qs h)
      (branch (ltb 10000 (length (tracked v qs))) (tracked (v * n) qs))
  where
    branch : (b : Bool) (es : List (ℕ × ℕ)) → (if b then ok es else ok es) ≡ ok es
    branch b es = ground arith

pub advance_all-tracked :
    (v : ℕ) (ps qs : List ℕ)
    → All IsNarrow qs
    → advance_all (tracked v qs) ps ≡ ok (tracked (times v ps) qs)
unfolding advance_all times
advance_all-tracked v [] qs h = refl
advance_all-tracked v (p ∷ ps) qs h =
    rw (advance-tracked p v qs h) (advance_all-tracked (v * p) ps qs h)

residue_lem : (q v : ℕ) (ps : List ℕ) → IsNarrow q → residue q ps (v % q) ≡ ok (times v ps % q)
unfolding residue times
residue_lem q v [] h = refl
residue_lem q v (p ∷ ps) h = then_lem p q v (residue q ps) h ∙ residue_lem q (v * p) ps h

-- The prefix holds the primes up to `last`.
pub record IsPrefix (last : ℕ) (included : List ℕ) : Type 0 where
  pub primes : All (λ p. IsPrime p × (p ≤ last)) included
  pub complete : (q : ℕ) → IsPrime q → q ≤ last → any (λ p. p == q) included ≡ true

times-dvd : (q v : ℕ) (ps : List ℕ) → q ∣ v → q ∣ times v ps
unfolding times
times-dvd q v [] h = h
times-dvd q v (p ∷ ps) h = times-dvd q (v * p) ps (Nat.dvd-mul_right_of_dvd q h p)

member-dvd : (q v : ℕ) (ps : List ℕ) → any (λ p. p == q) ps ≡ true → q ∣ times v ps
unfolding times
member-dvd q v [] h = absurd (ground (arith, h))
member-dvd q v (p ∷ ps) h = elim (Bool-cases (p == q)) [
  | inl same ↦ times-dvd q (v * p) ps (rw ((==_iff p q).0 same) (Nat.dvd-mul_left q v))
  | inr other ↦ member-dvd q (v * p) ps (ground (arith, h, other))
]

-- A prime above the prefix divides its product only where it divides v.
above-dvd :
    (q last v : ℕ) (ps : List ℕ)
    → IsPrime q
    → last < q
    → All (λ p. IsPrime p × (p ≤ last)) ps
    → q ∣ times v ps
    → q ∣ v
unfolding times
above-dvd q last v [] prime above h d = d
above-dvd q last v (p ∷ ps) prime above ((p_prime, le), rest) d =
    elim (prime-dvd-mul q v p prime (above-dvd q last (v * p) ps prime above rest d)) [
      | inl left ↦ left
      | inr right ↦ absurd (omega (arith, p_prime.only q prime.big right, le, above))
    ]

kept_iff :
    (q last : ℕ) (ps : List ℕ)
    → IsPrime q
    → IsPrefix last ps
    → ltb last q ≡ not (times 1 ps % q == 0)
kept_iff q last ps prime complete = elim (Bool-cases (ltb last q)) [
  | inl above ↦ ground (
    arith,
    above,
    λ (z : times 1 ps % q ≡ 0). Nat.eq-one_of_dvd-one (
        above-dvd q last 1 ps prime (ltb→lt last q above) complete.primes
          (Nat.dvd_of_mod-eq-zero q z)),
    prime.big,
  )
  | inr below ↦ ground (
    arith,
    below,
    Nat.mod-eq-zero_of_dvd q (member-dvd q 1 ps (complete.complete q prime (ltb→le last q below))),
  )
]

pub entries-tracked :
    (last : ℕ) (ps qs : List ℕ)
    → All IsSievePrime qs
    → IsPrefix last ps
    → entries qs last ps ≡ ok (tracked (times 1 ps) qs)
unfolding entries tracked
entries-tracked last ps [] h complete = refl
entries-tracked last ps (q ∷ qs) ((prime, small), rest) complete =
    rw
      (
        kept_iff q last ps prime complete,
        ap (λ (t : ℕ). residue q ps t) (sym (Nat.mod-eq_of_lt prime.big))
            ∙ residue_lem q 1 ps (prime.big, small),
        entries-tracked last ps qs rest complete,
      )
      (branch (times 1 ps % q == 0) (q, times 1 ps % q) (tracked (times 1 ps) qs))
  where
    branch :
        (b : Bool) (e : ℕ × ℕ) (es : List (ℕ × ℕ))
        → (if not b then ok (e ∷ es) else ok es) ≡ ok (if b then es else e ∷ es)
    branch b e es = ground arith

-- What `resume_idx` = the number of the included primes selects.
selected :
    (last : ℕ) (included rest qs : List ℕ)
    → new qs (included ++ last ∷ rest) (suc (length included))
      ≡ entries qs last (included ++ last ∷ [])
unfolding new index prefix
selected last included rest qs =
    rw
      (
        positive (length included),
        ap (λ (t : ℕ). index (included ++ last ∷ rest) t) (counted (length included)),
        at_last included,
        taken included,
      )
      refl
  where
    positive : (n : ℕ) → ltb 0 (suc n) ≡ true
    positive n = lt→ltb 0 (suc n) (omega arith)

    counted : (n : ℕ) → suc n - 1 ≡ n
    counted n = omega arith

    at_last : (ps : List ℕ) → index (ps ++ last ∷ rest) (length ps) ≡ ok last
    at_last [] = refl
    at_last (p ∷ ps) = at_last ps

    taken : (ps : List ℕ) → prefix (ps ++ last ∷ rest) (suc (length ps)) ≡ ok (ps ++ last ∷ [])
    taken [] = refl
    taken (p ∷ ps) = rw (taken ps) refl

pub start-tracked :
    (all_primes qs : List ℕ) → All IsSievePrime qs → new qs all_primes 0 ≡ ok (tracked 1 qs)
unfolding new prefix times
start-tracked all_primes qs h =
    entries-tracked 0 [] qs h
      (record { primes = tt; complete = λ q prime le. absurd (omega (arith, prime.big, le)) })

-- Where the included primes are all primes up to the last of them, a sieve of primes of 32 bits that
-- is set up there, as after a checkpoint, is the sieve set up at the start and advanced by each
-- included prime; neither overflows.
pub new-advance_all :
    (last : ℕ) (included rest sieve_primes : List ℕ)
    → All IsSievePrime sieve_primes
    → IsPrefix last (included ++ last ∷ [])
    → (es : List (ℕ × ℕ)) × (new sieve_primes (included ++ last ∷ rest) (suc (length included))
        ≡ ok es)
      × ((new sieve_primes (included ++ last ∷ rest) 0 >>= λ start.
            advance_all start (included ++ last ∷ []))
          ≡ ok es)
new-advance_all last included rest sieve_primes h complete = (
  tracked (times 1 (included ++ last ∷ [])) sieve_primes,
  selected last included rest sieve_primes
      ∙ entries-tracked last (included ++ last ∷ []) sieve_primes h complete,
  rw (start-tracked (included ++ last ∷ rest) sieve_primes h)
      (advance_all-tracked 1 (included ++ last ∷ []) sieve_primes (narrow sieve_primes h)),
)

-- After the primes of a list, a sieve of primes of 32 bits says of their product v whether one of
-- its primes divides v + 1, and whether one divides v - 1.
pub check_composites-advance_all :
    (all_primes ps sieve_primes : List ℕ)
    → All IsSievePrime sieve_primes
    → 0 < times 1 ps
    → (new sieve_primes all_primes 0 >>= λ start. advance_all start ps >>= check_composites)
      ≡ ok (
        any (λ q. (times 1 ps + 1) % q == 0) sieve_primes,
        any (λ q. (times 1 ps - 1) % q == 0) sieve_primes,
      )
unfolding check_composites
check_composites-advance_all all_primes ps sieve_primes h pos =
    rw
      (
        start-tracked all_primes sieve_primes h,
        advance_all-tracked 1 ps sieve_primes (narrow sieve_primes h),
      )
      (check_loop-tracked (times 1 ps) sieve_primes false false pos (narrow sieve_primes h) refl)
