-- ===== src/Sieve/Factor/Correct.antt =====
-- Trial division returns the factorization.
use mathlib.Core.Path.{subst}
use mathlib.Core.List.{append-nil, append_assoc}
use native.Mathlib.Nat
use prime_hunter.Common.Prime.{IsPrime, HasNoneBelow, least_divisor-IsPrime, rest-IsPrime}
use prime_hunter.Common.{
  ℕ, zero, suc, ◌+◌, ◌-◌, ◌*◌, ◌/◌, ◌%◌, ◌^◌, ◌<◌, ◌≤◌, ◌∣◌, ◌≡◌, refl, sym, ap, ◌∙◌, inl, inr,
  true, List, [], ◌∷◌, ◌++◌, Outcome, ok, ◌==◌, leb, ltb, if◌then◌else◌, Bool-cases, ==_iff, ltb→lt,
  lt→ltb, ltb→le, leb→le, arith,
}
use prime_hunter.Sieve.Factor.{is_multiple_of, strip, factor_loop, factor_u64}

-- The number that a list of (prime, exponent) pairs stands for.
unfoldable pub product : List (ℕ × ℕ) → ℕ
product [] = 1
product ((p, e) ∷ fs) = p ^ e * product fs

-- Primes in ascending order from `low` on, each with a positive exponent.
abbrev pub AscendingPrimes : ℕ → List (ℕ × ℕ) → Type 0
AscendingPrimes low [] = Unit
AscendingPrimes low ((p, e) ∷ fs) = (low ≤ p) × IsPrime p × (0 < e) × AscendingPrimes (p + 1) fs

divides : (d n : ℕ) → is_multiple_of n d ≡ true → d * (n / d) ≡ n
divides d n h = omega (arith, (==_iff (n % d) 0).0 h, Nat.div-add-mod n d)

power_step : (d k m : ℕ) → d * (d ^ k * m) ≡ d ^ suc k * m
power_step d k m = rw Nat.pow-suc (omega arith)

-- `strip` takes out every factor `d`.
pub strip_lem :
    (fuel d n exp : ℕ)
    → 1 < d
    → 0 < n
    → n < 2 ^ fuel
    → let (n', exp') = strip fuel d n exp in
      (k : ℕ) × (exp' ≡ exp + k) × (n ≡ d ^ k * n') × (0 < n') × ¬ (d ∣ n')
unfolding strip
strip_lem zero d n exp h p small = absurd (omega arith)
strip_lem (suc fuel) d n exp h p small = elim (Bool-cases (is_multiple_of n d)) [
  | inl more ↦
      let whole : d * (n / d) ≡ n = divides d n more in
      let (k, count, left, positive, rest) =
        strip_lem fuel d (n / d) (exp + 1) h (ground (arith, whole, Nat.mul-zero d)) (half whole) in
      rw more (
        suc k,
        omega (arith, count),
        sym whole ∙ ap (λ (t : ℕ). d * t) left ∙ power_step d k (strip fuel d (n / d) (exp + 1)).0,
        positive,
        rest,
      )
  | inr last ↦ rw last (
    0,
    omega arith,
    rw Nat.pow-zero (omega arith),
    p,
    λ div. absurd (ground (arith, Nat.mod-eq-zero_of_dvd d div, last)),
  )
]
  where
    half : d * (n / d) ≡ n → n / d < 2 ^ fuel
    half whole =
        omega
          (arith, Nat.pow-suc 2 fuel, Nat.mul-le-mul_right {m = 2} {n = d} (n / d) (omega arith))

-- What a run of the loop from `n` returns: the factors found so far and those of `n`.
abbrev Returns : Outcome (List (ℕ × ℕ)) → ℕ → ℕ → List (ℕ × ℕ) → Type 0
Returns call low n found =
    (fs : List (ℕ × ℕ)) × (call ≡ ok (found ++ fs)) × (product fs ≡ n) × AscendingPrimes low fs

-- The loop is done: what is left is 1 or a prime.
last_factor :
    (d n : ℕ) (found : List (ℕ × ℕ))
    → 0 < n
    → n < d * d
    → HasNoneBelow d n
    → Returns (ok (if ltb 1 n then found ++ (n, 1) ∷ [] else found)) d n found
unfolding product
last_factor d n found p small none_below = elim (Bool-cases (ltb 1 n)) [
  | inl big ↦
      let h : 1 < n = ltb→lt 1 n big in
      rw big (
        (n, 1) ∷ [],
        refl,
        rw (Nat.pow-suc, Nat.pow-zero) (omega arith),
        (none_below n h (Nat.dvd_refl n), rest-IsPrime d n h small none_below, omega arith, tt),
      )
  | inr unit ↦ rw unit ([], ap ok (sym (append-nil found)), ground (arith, unit), tt)
]

-- One factor more in front.
cons_factor :
    (call : Outcome (List (ℕ × ℕ))) (d k m n : ℕ) (found : List (ℕ × ℕ))
    → n ≡ d ^ k * m
    → 0 < k
    → IsPrime d
    → Returns call (d + 1) m (found ++ (d, k) ∷ [])
    → Returns call d n found
unfolding product
cons_factor call d k m n found split positive prime (fs, run, value, ascending) = (
  (d, k) ∷ fs,
  run ∙ ap ok (append_assoc found ((d, k) ∷ []) fs),
  rw value (sym split),
  (omega arith, prime, positive, ascending),
)

weaken : (d n : ℕ) → HasNoneBelow d n → ¬ (d ∣ n) → HasNoneBelow (d + 1) n
weaken d n none_below not_div k h div = elim (Bool-cases (k == d)) [
  | inl same ↦ absurd (not_div (subst (λ t. t ∣ n) ((==_iff k d).0 same) div))
  | inr other ↦ ground (arith, none_below k h div, other)
]

root_bound : (c : ℕ) → c * c < (2 ^ 32 - 1) * (2 ^ 32 - 1) → c < 2 ^ 32 - 1
root_bound c h = elim (Bool-cases (ltb c (2 ^ 32 - 1))) [
  | inl small ↦ ltb→lt c (2 ^ 32 - 1) small
  | inr big ↦
      absurd
        (omega (arith, h, Nat.mul-le-mul (ltb→le c (2 ^ 32 - 1) big) (ltb→le c (2 ^ 32 - 1) big)))
]

square_fits :
    (c : ℕ) → c * c < (2 ^ 32 - 1) * (2 ^ 32 - 1) → ltb ((c + 1) * (c + 1)) (2 ^ 64) ≡ true
square_fits c h =
    let small : c + 1 ≤ 2 ^ 32 - 1 = omega (arith, root_bound c h) in
    lt→ltb ((c + 1) * (c + 1)) (2 ^ 64) (omega (arith, Nat.mul-le-mul small small))

positive_exponent : (d k m n : ℕ) → n ≡ d ^ k * m → d ∣ n → ¬ (d ∣ m) → 0 < k
positive_exponent d zero m n split div rest =
    absurd (rest (subst (◌∣◌ d) (split ∙ rw (Nat.pow-zero, Nat.one-mul)) div))
positive_exponent d (suc k) m n split div rest = omega arith

lower_AscendingPrimes :
    (low : ℕ) (fs : List (ℕ × ℕ)) → AscendingPrimes (low + 1) fs → AscendingPrimes low fs
lower_AscendingPrimes low [] h = tt
lower_AscendingPrimes low ((p, e) ∷ fs) h = (omega (arith, h.0), h.1, h.2, h.3)

-- A divisor was found: `strip` takes it out, and it is prime.
divided_round :
    (d n : ℕ) (found : List (ℕ × ℕ)) (next : ℕ → List (ℕ × ℕ) → Outcome (List (ℕ × ℕ)))
    → 1 < d
    → 0 < n
    → n < 2 ^ 64
    → is_multiple_of n d ≡ true
    → HasNoneBelow d n
    → ((m : ℕ) (found' : List (ℕ × ℕ))
        → 0 < m
        → m ≤ n
        → HasNoneBelow (d + 1) m
        → Returns (next m found') (d + 1) m found')
    → Returns (next (strip 64 d n 0).0 (found ++ (d, (strip 64 d n 0).1) ∷ [])) d n found
divided_round d n found next h p small div none_below continue =
    let (k, count, split, positive, rest) = strip_lem 64 d n 0 h p small in
    let m = (strip 64 d n 0).0 in
    let e = (strip 64 d n 0).1 in
    let whole : n ≡ d ^ e * m =
      split ∙ ap (λ (t : ℕ). d ^ t * m) (sym (Nat.zero-add k) ∙ sym count) in
    let d_divides : d ∣ n = Nat.dvd_of_mod-eq-zero d ((==_iff (n % d) 0).0 div) in
    let m_divides : m ∣ n = subst (◌∣◌ m) (sym whole) (Nat.dvd-mul_left m (d ^ e)) in
    cons_factor (next m (found ++ (d, e) ∷ [])) d e m n found whole
      (positive_exponent d e m n whole d_divides rest)
      (least_divisor-IsPrime d n h d_divides none_below)
      (continue m (found ++ (d, e) ∷ []) positive (Nat.le_of_dvd p m_divides)
        (weaken d m (λ k hk dk. none_below k hk (Nat.dvd_trans k dk m_divides)) rest))

-- With `c = d - 1`, whose square is at most the input `top`, the product `d * d` fits.
factor_loop_lem :
    (top fuel c n : ℕ) (found : List (ℕ × ℕ))
    → top < (2 ^ 32 - 1) * (2 ^ 32 - 1)
    → 0 < c
    → c * c ≤ top
    → top + 1 ≤ fuel + c
    → 0 < n
    → n ≤ top
    → HasNoneBelow (c + 1) n
    → Returns (factor_loop fuel (c + 1) n found) (c + 1) n found
unfolding factor_loop
factor_loop_lem top zero c n found bound hc square fuel_left p le none_below =
    absurd (omega (arith, Nat.mul-le-mul_left {m = 1} {n = c} c hc))
factor_loop_lem top (suc fuel) c n found bound hc square fuel_left p le none_below =
    elim (Bool-cases (leb ((c + 1) * (c + 1)) n)) [
      | inl more ↦ elim (Bool-cases (is_multiple_of n (c + 1))) [
        | inl div ↦
            rw (square_fits c small, more, div)
              (divided_round (c + 1) n found (factor_loop fuel (c + 1 + 1)) (omega arith) p
                (omega arith) div none_below
                λ m found' positive below.
                  factor_loop_lem top fuel (c + 1) m found' bound (omega arith)
                    (Nat.le_trans (leb→le ((c + 1) * (c + 1)) n more) le) (omega arith) positive
                    (Nat.le_trans below le))
        | inr skip ↦
            rw (square_fits c small, more, skip)
              (let not_div : ¬ ((c + 1) ∣ n) =
                  λ div. absurd (ground (arith, Nat.mod-eq-zero_of_dvd (c + 1) div, skip)) in
                let (fs, run, value, ascending) =
                  factor_loop_lem top fuel (c + 1) n found bound (omega arith)
                    (Nat.le_trans (leb→le ((c + 1) * (c + 1)) n more) le) (omega arith) p le
                    (weaken (c + 1) n none_below not_div) in
                (fs, run, value, lower_AscendingPrimes (c + 1) fs ascending))
      ]
      | inr done ↦
          rw (square_fits c small, done)
            (last_factor (c + 1) n found p (ground (arith, done)) none_below)
    ]
  where
    small : c * c < (2 ^ 32 - 1) * (2 ^ 32 - 1)
    small = Nat.lt_of_le_of_lt square bound

-- For 0 < n < (2 ^ 32 - 1) ^ 2 the result is the factorization of `n`: ascending primes with
-- positive exponents, whose product is `n`.
pub factor_u64_lem :
    (n : ℕ)
    → 0 < n
    → n < (2 ^ 32 - 1) * (2 ^ 32 - 1)
    → (fs : List (ℕ × ℕ)) × (factor_u64 n ≡ ok fs) × (product fs ≡ n) × AscendingPrimes 2 fs
unfolding factor_u64
factor_u64_lem n p bound =
    factor_loop_lem n (suc n) 1 n [] bound (omega arith) (omega arith) (omega arith) p
      (Nat.le_refl n) (λ k h d. h)
