-- ===== src/Sieve/Montgomery/Form.antt =====
-- The operations of a context act on Montgomery forms as arithmetic modulo n does on numbers.
use native.Mathlib.Nat
use prime_hunter.Common.{
  ℕ, zero, suc, ◌+◌, ◌*◌, ◌/◌, ◌%◌, ◌^◌, ◌<◌, ◌≤◌, ◌≡◌, refl, sym, ap, ◌∙◌, inl, inr, Outcome, ok,
  ltb, ◌==◌, false, if◌then◌else◌, Bool-cases, ==_iff, ltb→le, arith,
}
use prime_hunter.Common.Mod.{CongMod, cong-mul}
use prime_hunter.Sieve.ModArith.Power.{power_halves}
use prime_hunter.Sieve.Montgomery.{
  MontgomeryCtx, radix, mul, sqr, to_mont, from_mont, mont_pow_loop, mont_pow_mod,
}
use prime_hunter.Sieve.Montgomery.Reduce.{IsCtx, reduce_lem}

-- `a` is the form of the number `x`.
pub record IsForm (ctx : MontgomeryCtx) (a x : ℕ) : Type 0 where
  pub below : a < ctx.n
  pub scaled : CongMod ctx.n a (x * radix)

-- A call that returns the form of `x`.
abbrev pub ReturnsForm : MontgomeryCtx → Outcome ℕ → ℕ → Type 0
ReturnsForm ctx call x = (r : ℕ) × (call ≡ ok r) × IsForm ctx r x

-- What the loop squares the base to: nothing in its last round.
next_base : ℕ → ℕ → ℕ
next_base v e = if ltb 0 (e / 2) then v * v else v

round_value : (w v e : ℕ) → w * v ^ (e % 2) * next_base v e ^ (e / 2) ≡ w * v ^ e
unfolding next_base
round_value w v e = elim (Bool-cases (ltb 0 (e / 2))) [
  | inl more ↦ rw more (
      Nat.mul_assoc w (v ^ (e % 2)) ((v * v) ^ (e / 2))
      ∙ ap (λ (t : ℕ). w * t) (sym (power_halves v e)))
  | inr last ↦ rw last (
      Nat.mul_assoc w (v ^ (e % 2)) (v ^ (e / 2))
      ∙ ap (λ (t : ℕ). w * t) (same (ltb→le 0 (e / 2) last)))
]
  where
    same : e / 2 ≤ 0 → v ^ (e % 2) * v ^ (e / 2) ≡ v ^ e
    same h =
        let nil : e / 2 ≡ 0 = omega arith in
        let small : e % 2 ≡ e = omega arith in rw (nil, Nat.pow-zero, Nat.mul-one, small)

module _ {ctx : MontgomeryCtx} (c : IsCtx ctx) where
  radix_inverse : ℕ
  radix_inverse = (ctx.n * ctx.n_prime + 1) / radix

  radix_inverse_lem : radix * radix_inverse ≡ 1 + ctx.n_prime * ctx.n
  unfolding radix_inverse
  radix_inverse_lem = omega (arith, c.n_prime_lem)

  unscale : (x : ℕ) → CongMod ctx.n (x * radix * radix_inverse) x
  unscale x =
      ap (λ (t : ℕ). t % ctx.n) (Nat.mul_assoc x radix radix_inverse)
      ∙ cong-mul ctx.n x x (radix * radix_inverse) 1 refl (
          ap (λ (t : ℕ). t % ctx.n) radix_inverse_lem
          ∙ Nat.add-mul-mod_self_right 1 ctx.n_prime ctx.n)
      ∙ ap (λ (t : ℕ). t % ctx.n) (Nat.mul-one x)

  -- R is invertible modulo n.
  radix_cancel : (x y : ℕ) → CongMod ctx.n (x * radix) (y * radix) → CongMod ctx.n x y
  radix_cancel x y e =
      sym (unscale x)
      ∙ cong-mul ctx.n (x * radix) (y * radix) radix_inverse radix_inverse e refl
      ∙ unscale y

  product_small : (a b : ℕ) → a < ctx.n → b < ctx.n → a * b < ctx.n * radix
  product_small a b ha hb = grind (arith, c.n_small)

  pub mul-IsForm :
      {a b : ℕ} (x y : ℕ) → IsForm ctx a x → IsForm ctx b y → ReturnsForm ctx (mul ctx a b) (x * y)
  unfolding mul
  mul-IsForm {a} {b} x y fa fb =
      let (r, run, below, scaled) = reduce_lem c (a * b) (product_small a b fa.below fb.below) in
      (
        r,
        run,
        record {
          below = below;
          scaled = radix_cancel r (x * y * radix) (
              scaled
              ∙ cong-mul ctx.n a (x * radix) b (y * radix) fa.scaled fb.scaled
              ∙ ap (λ (t : ℕ). t % ctx.n) (omega arith));
        },
      )

  positive : 0 < ctx.n
  positive = omega (arith, c.n_big)

  square_below : ctx.r2_mod_n < ctx.n
  square_below = rw c.r2_mod_n_lem (Nat.mod-lt (radix * radix) positive)

  square_lem : CongMod ctx.n ctx.r2_mod_n (radix * radix)
  square_lem = rw c.r2_mod_n_lem (Nat.mod-mod (radix * radix) ctx.n)

  pub to_mont-IsForm : (x : ℕ) → ReturnsForm ctx (to_mont ctx x) x
  unfolding to_mont mul
  to_mont-IsForm x =
      let (r, run, below, scaled) =
        reduce_lem c (x % ctx.n * ctx.r2_mod_n)
          (product_small (x % ctx.n) ctx.r2_mod_n (Nat.mod-lt x positive) square_below) in
      (
        r,
        run,
        record {
          below = below;
          scaled = radix_cancel r (x * radix) (
              scaled
              ∙ cong-mul ctx.n (x % ctx.n) x ctx.r2_mod_n (radix * radix) (Nat.mod-mod x ctx.n)
                  square_lem
              ∙ ap (λ (t : ℕ). t % ctx.n) (omega arith));
        },
      )

  pub from_mont-IsForm : {a : ℕ} (x : ℕ) → IsForm ctx a x → from_mont ctx a ≡ ok (x % ctx.n)
  unfolding from_mont
  from_mont-IsForm {a} x f =
      let (r, run, below, scaled) = reduce_lem c a (omega (arith, f.below)) in
      run ∙ ap ok (sym (Nat.mod-eq_of_lt below) ∙ radix_cancel r x (scaled ∙ f.scaled))

  pub one-IsForm : IsForm ctx ctx.r_mod_n 1
  one-IsForm = record {
    below = rw c.r_mod_n_lem (Nat.mod-lt radix positive);
    scaled = rw c.r_mod_n_lem (Nat.mod-mod radix ctx.n);
  }

  pub cong-IsForm : {a x y : ℕ} → x ≡ y → IsForm ctx a x → IsForm ctx a y
  cong-IsForm {a} e f = record {
    below = f.below;
    scaled = f.scaled ∙ ap (λ (t : ℕ). t * radix % ctx.n) e;
  }

  result_round :
      {r b : ℕ} (w v e : ℕ)
      → IsForm ctx r w
      → IsForm ctx b v
      → ReturnsForm ctx (if e % 2 == 1 then mul ctx r b else ok r) (w * v ^ (e % 2))
  result_round {r} w v e fr fb = elim (Bool-cases (e % 2 == 1)) [
    | inl odd ↦
        rw (odd, (==_iff (e % 2) 1).0 odd, Nat.pow-suc, Nat.pow-zero, Nat.one-mul)
          (mul-IsForm w v fr fb)
    | inr even ↦ rw even (
        let nil : e % 2 ≡ 0 = ground (arith, even) in
        (r, refl, cong-IsForm (rw (nil, Nat.pow-zero, Nat.mul-one)) fr))
  ]

  base_round :
      {b : ℕ} (v e : ℕ)
      → IsForm ctx b v
      → ReturnsForm ctx (if ltb 0 (e / 2) then sqr ctx b else ok b) (next_base v e)
  unfolding sqr next_base
  base_round {b} v e fb = elim (Bool-cases (ltb 0 (e / 2))) [
    | inl more ↦ rw more (mul-IsForm v v fb fb)
    | inr last ↦ rw last (b, refl, fb)
  ]

  -- With a round for each bit of `exp` the loop returns the form of the power.
  mont_pow_loop-IsForm :
      (fuel : ℕ) {r b : ℕ} (w v e : ℕ)
      → e < 2 ^ fuel
      → IsForm ctx r w
      → IsForm ctx b v
      → ReturnsForm ctx (mont_pow_loop fuel ctx r b e) (w * v ^ e)
  unfolding mont_pow_loop
  mont_pow_loop-IsForm zero {r} w v e h fr fb = (
    r,
    refl,
    cong-IsForm (let nil : e ≡ 0 = omega arith in rw (nil, Nat.pow-zero, Nat.mul-one)) fr,
  )
  mont_pow_loop-IsForm (suc fuel) {r} {b} w v e h fr fb = elim (Bool-cases (e == 0)) [
    | inl done ↦ (r, rw done, cong-IsForm (rw ((==_iff e 0).0 done, Nat.pow-zero, Nat.mul-one)) fr)
    | inr more ↦
        let (r', run_r, fr') = result_round w v e fr fb in
        let (b', run_b, fb') = base_round v e fb in
        let (z, run, fz) =
          mont_pow_loop-IsForm fuel (w * v ^ (e % 2)) (next_base v e) (e / 2)
            (ground (arith, more, Nat.pow-suc 2 fuel)) fr' fb' in
        (z, rw (more, run_r) (rw run_b run), cong-IsForm (round_value w v e) fz)
  ]

  pub mont_pow_mod-IsForm :
      {a : ℕ} (x e : ℕ)
      → e < 2 ^ 64
      → IsForm ctx a x
      → ReturnsForm ctx (mont_pow_mod ctx a e) (x ^ e)
  unfolding mont_pow_mod
  mont_pow_mod-IsForm x e h f =
      let (r, run, fr) = mont_pow_loop-IsForm 64 1 x e h one-IsForm f in
      (r, run, cong-IsForm (Nat.one-mul (x ^ e)) fr)

  -- Forms are equal exactly when the numbers are congruent.
  pub IsForm-== :
      {a b x y : ℕ} → IsForm ctx a x → IsForm ctx b y → (a == b) ≡ (x % ctx.n == y % ctx.n)
  IsForm-== {a} {b} {x} {y} fa fb = elim (Bool-cases (x % ctx.n == y % ctx.n)) [
    | inl same ↦
        let e : x % ctx.n ≡ y % ctx.n = (==_iff (x % ctx.n) (y % ctx.n)).0 same in
        rw same (
          (==_iff a b).1 (
            sym (Nat.mod-eq_of_lt fa.below)
            ∙ fa.scaled
            ∙ cong-mul ctx.n x y radix radix e refl
            ∙ sym fb.scaled
            ∙ Nat.mod-eq_of_lt fb.below))
    | inr other ↦ rw other (
        not_same a b λ e. absurd (
          differ other
            (radix_cancel x y (sym fa.scaled ∙ ap (λ (t : ℕ). t % ctx.n) e ∙ fb.scaled))))
  ]
    where
      not_same : (a b : ℕ) → ¬ (a ≡ b) → (a == b) ≡ false
      not_same a b h = elim (Bool-cases (a == b)) [
        | inl yes_same ↦ absurd (h ((==_iff a b).0 yes_same))
        | inr apart ↦ apart
      ]

      differ : {u v : ℕ} → (u == v) ≡ false → u ≡ v → ⊥
      differ h e = ground (arith, h, e)
