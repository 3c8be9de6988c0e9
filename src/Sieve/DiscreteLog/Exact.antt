-- ===== src/Sieve/DiscreteLog/Exact.antt =====
-- `discrete_log_bsgs` finds the logarithm below the order, or there is none.
use mathlib.Core.Path.{subst}
use native.Mathlib.Nat
use prime_hunter.Common.Prime.{IsPrime}
use prime_hunter.Common.Mod.{CongMod, cong-pow}
use prime_hunter.Common.{
  ℕ, zero, suc, ◌+◌, ◌-◌, ◌*◌, ◌%◌, ◌^◌, ◌<◌, ◌≤◌, ◌∣◌, ◌≡◌, sym, ap, ◌∙◌, Option, [], ◌==◌, ltb,
  false, Outcome, ok, ◌>>=◌, Bool-cases, ==_iff, lt→ltb, ltb→lt, ltb→le, inl, inr, arith,
}
use prime_hunter.Sieve.Fermat.{fermat}
use prime_hunter.Sieve.Montgomery.{
  MontgomeryCtx, new_ctx, to_mont, one, mul, mont_pow_mod, mont_inverse, radix,
}
use prime_hunter.Sieve.Montgomery.Reduce.{IsCtx, new_ctx-IsCtx, new_lem}
use prime_hunter.Sieve.Montgomery.Form.{
  IsForm, to_mont-IsForm, mont_pow_mod-IsForm, one-IsForm, cong-IsForm,
}
use prime_hunter.Sieve.Order.Prime.{odd-prime}
use prime_hunter.Sieve.Order.Smallest.{IsOrder, one-pow}
use prime_hunter.Sieve.DiscreteLog.{
  baby_steps, giant_steps, with_inverse, log_montgomery, discrete_log_bsgs,
}
use prime_hunter.Sieve.DiscreteLog.Steps.{
  IsLog, table_lem, giant_steps-IsLog, same-IsForm, same_value, mul_pow,
}

-- What the source relies on of its root: m is the square root of n, rounded up.
pub record IsRoot (m n : ℕ) : Type 0 where
  pub enough : n ≤ m * m
  pub least : (m - 1) * (m - 1) < n

root_bounds : (m n : ℕ) → 0 < n → n < 2 ^ 63 → IsRoot m n → (0 < m) × (m ≤ n) × (m < 2 ^ 32 - 1)
root_bounds zero n pos small r = absurd (omega (arith, pos, r.enough))
root_bounds (suc k) n pos small r = (omega arith, at_most k square, short)
  where
    square : k * k < n
    square = subst (λ t. t * t < n) {x = suc k - 1} {y = k} (omega arith) r.least

    at_most : (k : ℕ) → k * k < n → suc k ≤ n
    at_most zero h = pos
    at_most (suc j) h = omega (arith, h, Nat.le-mul_of_pos_right {m = suc j} (suc j) (omega arith))

    short : suc k < 2 ^ 32 - 1
    short = elim (Bool-cases (ltb (suc k) (2 ^ 32 - 1))) [
      | inl less ↦ ltb→lt (suc k) (2 ^ 32 - 1) less
      | inr more ↦
          let large : 2 ^ 32 - 2 ≤ k = omega (arith, ltb→le (suc k) (2 ^ 32 - 1) more) in
          absurd (
            omega (
              arith,
              small,
              square,
              Nat.mul-le-mul {n₁ = 2 ^ 32 - 2} {m₁ = 2 ^ 32 - 2} {n₂ = k} {m₂ = k} large large,
            ))
    ]

room : (m : ℕ) → m < 2 ^ 32 - 1 → m * m + m < 2 ^ 64
room m h = omega (
  arith,
  h,
  Nat.mul-le-mul {n₁ = m} {m₁ = m} {n₂ = 2 ^ 32 - 2} {m₂ = 2 ^ 32 - 2} (omega (arith, h))
      (omega (arith, h)),
)

-- The giant step undoes m baby steps.
giant_inverse :
    (p base m : ℕ)
    → IsPrime p
    → ¬ (p ∣ base)
    → 2 < p
    → CongMod p (base ^ m * (base ^ (p - 2)) ^ m) 1
giant_inverse p base m prime apart big =
    ap (λ (t : ℕ). t % p) (sym (mul_pow base (base ^ (p - 2)) m))
    ∙ cong-pow p (base * base ^ (p - 2)) 1 m one_round
    ∙ ap (λ (t : ℕ). t % p) (one-pow m)
  where
    one_round : CongMod p (base * base ^ (p - 2)) 1
    one_round =
        ap (λ (t : ℕ). t % p)
          (Nat.mul_comm base (base ^ (p - 2))
            ∙ sym (Nat.pow-suc base (p - 2))
            ∙ ap (λ (t : ℕ). base ^ t) {x = suc (p - 2)} {y = p - 1} (omega (arith, big)))
        ∙ fermat p base prime apart
        ∙ sym (Nat.mod-eq_of_lt prime.big)

-- After the context is made.
module _ {ctx : MontgomeryCtx} (c : IsCtx ctx) (base target order m : ℕ) (prime : IsPrime ctx.n)
    (apart : ¬ (ctx.n ∣ base)) (big : 2 < ctx.n) (ord : IsOrder base ctx.n order)
    (small : order < 2 ^ 63) (root : IsRoot m order) where
  abbrev body : Outcome (Option ℕ)
  body = do
    base_mont ← to_mont ctx (base % ctx.n)
    target_mont ← to_mont ctx (target % ctx.n)
    table ← baby_steps (λ power. mul ctx power base_mont) m 0 (one ctx) []
    found ← mont_inverse ctx base_mont
    with_inverse found λ base_inv_mont. do
      giant_step ← mont_pow_mod ctx base_inv_mont m
      giant_steps (λ gamma. mul ctx gamma giant_step) table m order (m + 1) 0 target_mont

  nonzero : (a : ℕ) → IsForm ctx a base → (a == 0) ≡ false
  nonzero a f = elim (Bool-cases (a == 0)) [
    | inr other ↦ other
    | inl is_zero ↦
        let nil : IsForm ctx a 0 = record {
          below = f.below;
          scaled = ap (λ (t : ℕ). t % ctx.n) ((==_iff a 0).0 is_zero ∙ sym (Nat.zero-mul radix));
        } in
        absurd (
          apart (
            Nat.dvd_of_mod-eq-zero ctx.n
              (same_value c base order m (at_most root) ord f nil ∙ Nat.zero-mod ctx.n)))
  ]
    where
      at_most : IsRoot m order → m ≤ order
      at_most r = (root_bounds m order ord.positive small r).1

  body_lem : (r : Option ℕ) × (body ≡ ok r) × IsLog base target ctx.n order r
  unfolding mont_inverse with_inverse one
  body_lem =
      let (pos, short, narrow) = root_bounds m order ord.positive small root in
      let (base_mont, base_run, fb_) = to_mont-IsForm c (base % ctx.n) in
      let fb : IsForm ctx base_mont base =
        same-IsForm c base order m short ord (Nat.mod-mod base ctx.n) fb_ in
      let (target_mont, target_run, ft_) = to_mont-IsForm c (target % ctx.n) in
      let ft : IsForm ctx target_mont target =
        same-IsForm c base order m short ord (Nat.mod-mod target ctx.n) ft_ in
      let (table, table_run, t) =
        table_lem c base order m short ord base_mont ctx.r_mod_n fb
          (cong-IsForm c (sym (Nat.pow-zero base)) (one-IsForm c)) in
      let (inv, inv_run, fi) =
        mont_pow_mod-IsForm c base (ctx.n - 2) (omega (arith, c.n_small)) fb in
      let (giant_step, giant_run, fg) =
        mont_pow_mod-IsForm c (base ^ (ctx.n - 2)) m (omega (arith, narrow)) fi in
      let (r, run, log) =
        giant_steps-IsLog c base order m short ord target ((base ^ (ctx.n - 2)) ^ m)
          (giant_inverse ctx.n base m prime apart big) giant_step fg table t (room m narrow)
          (omega (arith, root.enough)) (m + 1) 0 target_mont pos (omega arith)
          (cong-IsForm c (first target ((base ^ (ctx.n - 2)) ^ m)) ft)
          (λ x less. absurd (omega (arith, less, Nat.zero-mul m))) in
      (r, rw (base_run, target_run, table_run, nonzero base_mont fb, inv_run, giant_run) run, log)
    where
      first : (t g : ℕ) → t ≡ t * g ^ 0
      first t g = sym (ap (λ (k : ℕ). t * k) (Nat.pow-zero g) ∙ Nat.mul-one t)

-- Where sqrt_ceil gives the root of the order, for a prime p with 2 < p ≤ 2 ^ 63 that does not
-- divide the base and the order of the base modulo p, the search returns without an overflow: either
-- an x below the order with base ^ x ≡ target modulo p, or none, and then no x has this.
pub discrete_log_bsgs-IsLog :
    (sqrt_ceil : ℕ → ℕ) (base target p order : ℕ)
    → IsPrime p
    → 2 < p
    → p ≤ 2 ^ 63
    → ¬ (p ∣ base)
    → IsOrder base p order
    → IsRoot (sqrt_ceil order) order
    → (r : Option ℕ) × (discrete_log_bsgs sqrt_ceil base target p order ≡ ok r)
      × IsLog base target p order r
unfolding discrete_log_bsgs log_montgomery new_ctx
discrete_log_bsgs-IsLog sqrt_ceil base target p order prime big small apart ord root =
    let least : order ≤ p - 1 =
      ord.smallest (p - 1) (omega (arith, big)) (fermat p base prime apart) in
    let narrow : order < 2 ^ 63 = omega (arith, least, small, big) in
    let c = new_ctx-IsCtx p prime.big small (odd-prime p prime big) in
    let (r, run, log) =
      body_lem c base target order (sqrt_ceil order) prime apart big ord narrow root in
    (
      r,
      rw
          (
            present (root_bounds (sqrt_ceil order) order ord.positive narrow root).0,
            lt→ltb 2 p big,
            new_lem p prime.big (odd-prime p prime big),
          )
          run,
      log,
    )
  where
    present : 0 < sqrt_ceil order → (sqrt_ceil order == 0) ≡ false
    present h = ground (arith, h)
