-- ===== src/Sieve/Order/Loop.antt =====
-- `multiplicative_order` returns the order.
use mathlib.Core.Path.{subst}
use native.Mathlib.Nat
use prime_hunter.Common.Mod.{cong-pow}
use prime_hunter.Common.{
  ℕ, zero, suc, ◌+◌, ◌-◌, ◌*◌, ◌/◌, ◌%◌, ◌^◌, ◌<◌, ◌≤◌, ◌∣◌, ◌≡◌, refl, sym, ap, ◌∙◌, inl, inr,
  Bool, List, [], ◌∷◌, Outcome, ok, ◌>>=◌, ◌==◌, Bool-cases, ==_iff, lt→ltb, le→ltb, arith,
}
use prime_hunter.Sieve.Factor.{is_multiple_of}
use prime_hunter.Sieve.Factor.Correct.{AscendingPrimes, factor_u64_lem}
use prime_hunter.Sieve.Factor.Euclid.{IsFactor, prime-dvd-product}
use prime_hunter.Sieve.Montgomery.{MontgomeryCtx, new_ctx, mont_pow_mod, one}
use prime_hunter.Sieve.Montgomery.Reduce.{IsCtx, new_ctx-IsCtx, new_lem, new_ctx-n}
use prime_hunter.Sieve.Montgomery.Form.{
  IsForm, to_mont-IsForm, mont_pow_mod-IsForm, one-IsForm, IsForm-==,
}
use prime_hunter.Sieve.Order.{divide_out, divide_all, multiplicative_order}
use prime_hunter.Sieve.Order.Smallest.{IsUnitExp, IsOrder, unit-dvd, reduced-IsOrder}

-- The quotient of `d` by `q` is no unit exponent.
abbrev Reduced : ℕ → ℕ → ℕ → ℕ → Type 0
Reduced base p q d = q ∣ d → ¬ IsUnitExp base p (d / q)

quotients_dvd : (q d m : ℕ) → 0 < q → q ∣ d → d ∣ m → d / q ∣ m / q
quotients_dvd q d m pos qd dm =
    subst (◌∣◌ (d / q)) (sym quotient) (Nat.dvd-mul_right (d / q) (m / d))
  where
    whole : m ≡ q * (d / q * (m / d))
    whole =
        sym (Nat.mul-div_cancel' d dm)
        ∙ ap (λ (t : ℕ). t * (m / d)) (sym (Nat.mul-div_cancel' q qd))
        ∙ Nat.mul_assoc q (d / q) (m / d)

    quotient : m / q ≡ d / q * (m / d)
    quotient = ap (λ (t : ℕ). t / q) whole ∙ Nat.mul-div_cancel_left (d / q * (m / d)) pos

-- What a loop from `order` returns.
abbrev ReturnsExp : ℕ → ℕ → Outcome ℕ → ℕ → (ℕ → Type 0) → Type 0
ReturnsExp base p call order P =
    (d : ℕ) × (call ≡ ok d) × (d ∣ order) × (0 < d) × IsUnitExp base p d × P d

module _ (base : ℕ) {p : ℕ} (h : 1 < p) (is_one : ℕ → Outcome Bool)
    (runs : (e : ℕ) → e < 2 ^ 64 → is_one e ≡ ok (base ^ e % p == 1)) where
  Reduced-dvd : (q d m : ℕ) → 0 < q → d ∣ m → Reduced base p q m → Reduced base p q d
  Reduced-dvd q d m pos dm reduced qd u =
      reduced (Nat.dvd_trans q qd dm)
        (unit-dvd base h (d / q) (m / q) (quotients_dvd q d m pos qd dm) u)

  divide_out_lem :
      (fuel q order : ℕ)
      → 1 < q
      → 0 < order
      → order < 2 ^ fuel
      → order < 2 ^ 64
      → IsUnitExp base p order
      → ReturnsExp base p (divide_out fuel is_one q order) order (Reduced base p q)
  unfolding divide_out
  divide_out_lem zero q order hq pos small narrow u = absurd (omega arith)
  divide_out_lem (suc fuel) q order hq pos small narrow u =
      elim (Bool-cases (is_multiple_of order q)) [
        | inl more ↦
            let div : q ∣ order = Nat.dvd_of_mod-eq-zero q ((==_iff (order % q) 0).0 more) in
            let whole : q * (order / q) ≡ order = Nat.mul-div_cancel' q div in
            let less : order / q * 2 ≤ order =
              omega (arith, whole, Nat.mul-le-mul_right {m = 2} {n = q} (order / q) hq) in
            elim (Bool-cases (base ^ (order / q) % p == 1)) [
              | inl hit ↦
                  let (d, run, dvd, d_pos, d_unit, reduced) =
                    divide_out_lem fuel q (order / q) hq (ground (arith, whole, Nat.mul-zero q))
                      (omega (arith, Nat.pow-suc 2 fuel, less)) (omega (arith, less))
                      ((==_iff (base ^ (order / q) % p) 1).0 hit) in
                  rw (more, runs (order / q) (omega (arith, less)), hit)
                    (
                      d,
                      run,
                      Nat.dvd_trans d dvd
                          (subst (◌∣◌ (order / q)) whole (Nat.dvd-mul_left (order / q) q)),
                      d_pos,
                      d_unit,
                      reduced,
                    )
              | inr miss ↦
                  rw (more, runs (order / q) (omega (arith, less)), miss)
                    (order, refl, Nat.dvd_refl order, pos, u, λ qd u'. ground (arith, miss, u'))
            ]
        | inr last ↦ rw last (
          order,
          refl,
          Nat.dvd_refl order,
          pos,
          u,
          λ qd u'. ground (arith, last, Nat.mod-eq-zero_of_dvd q qd),
        )
      ]

  divide_all_lem :
      (low : ℕ) (fs : List (ℕ × ℕ)) (order : ℕ)
      → AscendingPrimes low fs
      → 0 < order
      → order < 2 ^ 64
      → IsUnitExp base p order
      → ReturnsExp base p
          (divide_all is_one fs order)
          order
          (λ d. (q : ℕ) → IsFactor q fs → Reduced base p q d)
  unfolding divide_all
  divide_all_lem low [] order primes pos narrow u =
      (order, refl, Nat.dvd_refl order, pos, u, λ q f. absurd f)
  divide_all_lem low ((q, e) ∷ fs) order primes pos narrow u =
      let q_big = primes.1.big in
      let (d, run, dvd, d_pos, d_unit, reduced) =
        divide_out_lem 64 q order q_big pos narrow narrow u in
      let (d', run', dvd', d_pos', d_unit', reduced') =
        divide_all_lem (q + 1) fs d primes.3 d_pos
          (Nat.lt_of_le_of_lt (Nat.le_of_dvd pos dvd) narrow) d_unit in
      (
        d',
        rw run run',
        Nat.dvd_trans d' dvd' dvd,
        d_pos',
        d_unit',
        λ r f. elim f [
          | inl same ↦
              subst (λ t. Reduced base p t d') (sym same)
                (Reduced-dvd q d' d (omega (arith, q_big)) dvd' reduced)
          | inr later ↦ reduced' r later
        ],
      )

-- The test of the Montgomery path.
mont_test :
    {ctx : MontgomeryCtx} (c : IsCtx ctx) (base b e p : ℕ)
    → ctx.n ≡ p
    → IsForm ctx b (base % p)
    → e < 2 ^ 64
    → (mont_pow_mod ctx b e >>= λ x. ok (x == one ctx)) ≡ ok (base ^ e % p == 1)
unfolding one
mont_test {ctx} c base b e p same f h =
    let (r, run, fr) = mont_pow_mod-IsForm c (base % p) e h f in
    rw run (
      ap ok (
        IsForm-== c fr (one-IsForm c)
        ∙ rw (
          same,
          cong-pow p (base % p) base e (Nat.mod-mod base p),
          Nat.mod-eq_of_lt (subst (λ t. 1 < t) same c.n_big),
        )))

-- For an odd p with 2 < p ≤ 2 ^ 63 and a base with base ^ (p - 1) ≡ 1 modulo p (Fermat's
-- congruence), the result is the smallest d > 0 with base ^ d ≡ 1 modulo p.
pub multiplicative_order-IsOrder :
    (base p : ℕ)
    → 2 < p
    → p ≤ 2 ^ 63
    → p % 2 ≡ 1
    → IsUnitExp base p (p - 1)
    → (d : ℕ) × (multiplicative_order base p ≡ ok d) × IsOrder base p d
unfolding multiplicative_order
multiplicative_order-IsOrder base p big small odd fermat =
    let above_one : 1 < p = omega arith in
    let (fs, factored, value, primes) = factor_u64_lem (p - 1) (omega arith) (omega arith) in
    let c = new_ctx-IsCtx p above_one small odd in
    let (b, run_b, fb) = to_mont-IsForm c (base % p) in
    let (d, run, dvd, d_pos, d_unit, reduced) =
      divide_all_lem base above_one
        (λ e. mont_pow_mod (new_ctx p) b e >>= λ x. ok (x == one (new_ctx p)))
        (λ e narrow. mont_test c base b e p (new_ctx-n p) fb narrow) 2 fs (p - 1) primes
        (omega arith) (omega arith) fermat in
    (
      d,
      rw (le→ltb p 1 (omega arith), factored, lt→ltb 2 p big, new_lem p above_one odd, run_b) run,
      reduced-IsOrder base above_one d d_pos d_unit λ q prime qd.
          reduced q
            (prime-dvd-product q 2 fs prime primes
              (subst (◌∣◌ q) (sym value) (Nat.dvd_trans q qd dvd)))
            qd,
    )
