-- ===== src/Sieve/Montgomery/Reduce.antt =====
-- REDC: for a context of `new_ctx` and t < n * R the reduction returns the representative
-- below n of t / R modulo n.
use native.Mathlib.Nat
use prime_hunter.Common.{
  ℕ, ◌+◌, ◌-◌, ◌*◌, ◌/◌, ◌%◌, ◌^◌, ◌<◌, ◌≤◌, ◌≡◌, refl, sym, ap, ◌∙◌, inl, inr, ok, leb,
  if◌then◌else◌, Bool-cases, lt→ltb, leb→le, ==_iff, arith,
}
use prime_hunter.Common.Mod.{CongMod, cong-mul, cong-add, mul-mod_left, mul-mod_right}
use prime_hunter.Sieve.Montgomery.{MontgomeryCtx, radix, new, new_ctx, reduce}
use prime_hunter.Sieve.Montgomery.Inverse.{hensel_inverse, hensel_loop-lt}

-- What the precomputed values are for.
pub record IsCtx (ctx : MontgomeryCtx) : Type 0 where
  pub n_big : 1 < ctx.n
  pub n_small : ctx.n ≤ 2 ^ 63
  pub n_prime_lem : (ctx.n * ctx.n_prime + 1) % radix ≡ 0
  pub r_mod_n_lem : ctx.r_mod_n ≡ radix % ctx.n
  pub r2_mod_n_lem : ctx.r2_mod_n ≡ radix * radix % ctx.n

negated_inverse :
    (n inv : ℕ) → inv < radix → n * inv % radix ≡ 1 → (n * ((radix - inv) % radix) + 1) % radix ≡ 0
negated_inverse n inv h e = complement ((radix - inv) % radix) complements
  where
    positive : 0 < inv
    positive = ground (arith, e, Nat.mul-zero n)

    complements : (radix - inv) % radix + inv ≡ radix
    complements = omega (arith, positive)

    complement : (s : ℕ) → s + inv ≡ radix → (n * s + 1) % radix ≡ 0
    complement s sum = omega (arith, e, ap (λ (x : ℕ). n * x) sum)

pub new_ctx-IsCtx : (n : ℕ) → 1 < n → n ≤ 2 ^ 63 → n % 2 ≡ 1 → IsCtx (new_ctx n)
unfolding new_ctx
new_ctx-IsCtx n big small odd = record {
  n_big = big;
  n_small = small;
  n_prime_lem = negated_inverse n _ (hensel_loop-lt n) (hensel_inverse n odd);
  r_mod_n_lem = refl;
  r2_mod_n_lem = mul-mod_left n radix (radix % n) ∙ mul-mod_right n radix radix;
}

-- For an odd modulus above 1 the assertion of `new` holds.
pub new_lem : (n : ℕ) → 1 < n → n % 2 ≡ 1 → new n ≡ ok (new_ctx n)
unfolding new
new_lem n big odd = rw (lt→ltb 1 n big, (==_iff (n % 2) 1).1 odd)

pub new_ctx-n : (n : ℕ) → (new_ctx n).n ≡ n
unfolding new_ctx
new_ctx-n n = refl

-- The sum that REDC shifts is a multiple of R.
redc_multiple :
    (n n' t : ℕ) → (n * n' + 1) % radix ≡ 0 → (t + t % radix * n' % radix * n) % radix ≡ 0
redc_multiple n n' t e =
    cong-add radix t t (t % radix * n' % radix * n) (t * (n * n')) refl product
    ∙ ap (λ (x : ℕ). x % radix) regroup
    ∙ cong-mul radix t t (n * n' + 1) 0 refl (e ∙ sym (Nat.zero-mod radix))
    ∙ ap (λ (x : ℕ). x % radix) (Nat.mul-zero t)
    ∙ Nat.zero-mod radix
  where
    product : CongMod radix (t % radix * n' % radix * n) (t * (n * n'))
    product =
        mul-mod_left radix (t % radix * n') n
        ∙ ap (λ (x : ℕ). x % radix) (Nat.mul_assoc (t % radix) n' n)
        ∙ mul-mod_left radix t (n' * n)
        ∙ ap (λ (x : ℕ). t * x % radix) (Nat.mul_comm n' n)

    regroup : t + t * (n * n') ≡ t * (n * n' + 1)
    regroup = omega arith

-- The quotient is below 2 n, and the sum fits in 128 bits.
redc_bound : (n m t : ℕ) → n ≤ 2 ^ 63 → m < radix → t < n * radix → t + m * n < 2 * n * radix
redc_bound n m t small hm ht = grind arith

drop_modulus : (n q : ℕ) → n ≤ q → CongMod n ((q - n) * radix) (q * radix)
drop_modulus n q h =
    sym (Nat.add-mul-mod_self_right ((q - n) * radix) radix n)
    ∙ ap (λ (x : ℕ). x % n) (rw (Nat.mul_comm radix n, ← Nat.add-mul) (rw restored refl))
  where
    restored : q - n + n ≡ q
    restored = omega arith

module _ {ctx : MontgomeryCtx} (c : IsCtx ctx) (t : ℕ) (small : t < ctx.n * radix) where
  -- The reduction returns r < n with r R ≡ t modulo n, and does not overflow.
  pub reduce_lem : (r : ℕ) × (reduce ctx t ≡ ok r) × (r < ctx.n) × CongMod ctx.n (r * radix) t
  unfolding reduce
  reduce_lem =
      ((if leb ctx.n q then q - ctx.n else q), computed, ground (arith, quotient_bound), congruent)
    where
      m : ℕ
      m = t % radix * ctx.n_prime % radix

      u : ℕ
      u = t + m * ctx.n

      q : ℕ
      q = u / radix

      exact : u ≡ q * radix
      exact = omega (arith, redc_multiple ctx.n ctx.n_prime t c.n_prime_lem)

      below : u < 2 * ctx.n * radix
      below = redc_bound ctx.n m t c.n_small (omega arith) small

      quotient_bound : q < 2 * ctx.n
      quotient_bound = omega (arith, exact, below)

      narrow : q % radix ≡ q
      narrow = Nat.mod-eq_of_lt (omega (arith, quotient_bound, c.n_small))

      computed : reduce ctx t ≡ ok (if leb ctx.n q then q - ctx.n else q)
      computed = rw (lt→ltb u (2 ^ 128) (omega (arith, below, c.n_small)), narrow)

      shifted : CongMod ctx.n (q * radix) t
      shifted = ap (λ (x : ℕ). x % ctx.n) (sym exact) ∙ Nat.add-mul-mod_self_right t m ctx.n

      congruent : CongMod ctx.n ((if leb ctx.n q then q - ctx.n else q) * radix) t
      congruent = elim (Bool-cases (leb ctx.n q)) [
        | inl big ↦ rw big (drop_modulus ctx.n q (leb→le ctx.n q big) ∙ shifted)
        | inr less ↦ rw less shifted
      ]
