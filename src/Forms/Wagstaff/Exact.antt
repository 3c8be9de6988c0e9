-- ===== src/Forms/Wagstaff/Exact.antt =====
-- `WagstaffSieve` knows exactly the exponents whose number has a divisor in the list.
use native.Mathlib.Nat
use prime_hunter.Common.Prime.{IsPrime}
use prime_hunter.Common.{
  ℕ, ◌+◌, ◌/◌, ◌%◌, ◌^◌, ◌<◌, ◌≤◌, ◌∣◌, ◌≡◌, refl, sym, ap, ◌∙◌, Bool, ◌&&◌, ◌||◌, List, [], ◌∷◌,
  any, All, ◌==◌, ltb, if◌then◌else◌, ok, Bool-cases, ==_iff, ltb→lt, inl, inr, arith,
}
use prime_hunter.Sieve.Order.Prime.{multiplicative_order-prime}
use prime_hunter.Forms.Wagstaff.{
  collect_entries, insert_entry, sort_entries, dedup_after, dedup, new, is_composite,
}
use prime_hunter.Forms.Wagstaff.Order.{entry_lem}

abbrev hits : ℕ → ℕ × ℕ → Bool
hits p e = p % e.0 == e.1

module _ (p : ℕ) where
  insert_lem :
      (e : ℕ × ℕ) (es : List (ℕ × ℕ)) → any (hits p) (insert_entry e es) ≡ any (hits p) (e ∷ es)
  unfolding insert_entry
  insert_lem e [] = refl
  insert_lem e (f ∷ fs) = ground (arith, insert_lem e fs)

  sort_lem : (es : List (ℕ × ℕ)) → any (hits p) (sort_entries es) ≡ any (hits p) es
  unfolding sort_entries
  sort_lem [] = refl
  sort_lem (e ∷ es) = insert_lem e (sort_entries es) ∙ ap (λ b. hits p e || b) (sort_lem es)

  dedup_after_lem :
      (e : ℕ × ℕ) (es : List (ℕ × ℕ))
      → hits p e || any (hits p) (dedup_after e es) ≡ hits p e || any (hits p) es
  unfolding dedup_after
  dedup_after_lem e [] = refl
  dedup_after_lem (a, b) ((c, d) ∷ fs) = elim (Bool-cases ((a == c) && (b == d))) [
    | inl same ↦
        rw (same, (==_iff a c).0 (ground (arith, same)), (==_iff b d).0 (ground (arith, same)))
          (ground (arith, dedup_after_lem (c, d) fs))
    | inr other ↦ rw other (ground (arith, dedup_after_lem (c, d) fs))
  ]

  dedup_lem : (es : List (ℕ × ℕ)) → any (hits p) (dedup es) ≡ any (hits p) es
  unfolding dedup
  dedup_lem [] = refl
  dedup_lem (e ∷ es) = dedup_after_lem e es

  -- The primes above 3 that divide 2 ^ p + 1.
  abbrev pub divides_wagstaff : ℕ → Bool
  divides_wagstaff q = ltb 3 q && ((2 ^ p + 1) % q == 0)

  collect_lem :
      (qs : List ℕ)
      → p % 2 ≡ 1
      → All (λ q. IsPrime q × (q ≤ 2 ^ 63)) qs
      → (es : List (ℕ × ℕ)) × (collect_entries qs ≡ ok es)
        × (any (hits p) es ≡ any divides_wagstaff qs)
  unfolding collect_entries
  collect_lem [] odd h = ([], refl, refl)
  collect_lem (q ∷ qs) odd ((prime, small), rest) =
      let (es, run, same) = collect_lem qs odd rest in
      elim (Bool-cases (ltb 3 q)) [
        | inr skipped ↦ (es, rw skipped run, rw skipped same)
        | inl above ↦
            let big : 2 < q = omega (arith, ltb→lt 3 q above) in
            let (d, order_run, order) =
              multiplicative_order-prime 2 q prime big small (apart big) in
            let entry = entry_lem q d prime big order p odd in
            (
              (if d % 4 == 2 then (d, d / 2) ∷ es else es),
              rw (above, order_run, run) refl,
              rw (above, sym entry) (kept d es (any divides_wagstaff qs) same),
            )
      ]
    where
      apart : 2 < q → ¬ (q ∣ 2)
      apart big h = omega (arith, big, Nat.le_of_dvd (omega arith) h)

      kept :
          (d : ℕ) (es : List (ℕ × ℕ)) (b : Bool)
          → any (hits p) es ≡ b
          → any (hits p) (if d % 4 == 2 then (d, d / 2) ∷ es else es)
            ≡ ((d % 4 == 2) && (p % d == d / 2)) || b
      kept d es b e = ground (arith, e)

-- For a list of primes of 63 bits the sieve is built without an overflow, and for every odd p it
-- calls p composite exactly when a prime of the list above 3 divides 2 ^ p + 1.
pub is_composite-new :
    (sieve_primes : List ℕ)
    → All (λ q. IsPrime q × (q ≤ 2 ^ 63)) sieve_primes
    → (p : ℕ) → p % 2 ≡ 1
    → (es : List (ℕ × ℕ)) × (new sieve_primes ≡ ok es)
      × (is_composite es p ≡ any (divides_wagstaff p) sieve_primes)
unfolding new is_composite
is_composite-new sieve_primes h p odd =
    let (es, run, same) = collect_lem p sieve_primes odd h in
    (dedup (sort_entries es), rw run refl, dedup_lem p (sort_entries es) ∙ sort_lem p es ∙ same)
