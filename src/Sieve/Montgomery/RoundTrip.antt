-- ===== src/Sieve/Montgomery/RoundTrip.antt =====
-- Arithmetic through a new context is arithmetic modulo n.
use prime_hunter.Common.{ℕ, ◌*◌, ◌%◌, ◌^◌, ◌<◌, ◌≤◌, ◌≡◌, ◌∙◌, ap, Outcome, ok, ◌>>=◌}
use prime_hunter.Sieve.Montgomery.{MontgomeryCtx, new, mul, to_mont, from_mont, mont_pow_mod}
use prime_hunter.Sieve.Montgomery.Reduce.{IsCtx, new_ctx-IsCtx, new_lem, new_ctx-n}
use prime_hunter.Sieve.Montgomery.Form.{
  to_mont-IsForm, mul-IsForm, from_mont-IsForm, mont_pow_mod-IsForm,
}

-- A product, and a power, computed in a context.
abbrev pub product_in : MontgomeryCtx → ℕ → ℕ → Outcome ℕ
product_in ctx a b = do x ← to_mont ctx a; y ← to_mont ctx b; z ← mul ctx x y; from_mont ctx z

abbrev pub power_in : MontgomeryCtx → ℕ → ℕ → Outcome ℕ
power_in ctx a e = do x ← to_mont ctx a; z ← mont_pow_mod ctx x e; from_mont ctx z

then_ok : {A B : Type 0} {m : Outcome A} {a : A} (f : A → Outcome B) → m ≡ ok a → (m >>= f) ≡ f a
then_ok f e = ap (λ m. m >>= f) e

module _ {ctx : MontgomeryCtx} (c : IsCtx ctx) where
  product_in_lem : (a b : ℕ) → product_in ctx a b ≡ ok (a * b % ctx.n)
  product_in_lem a b =
      let (x, run_x, fx) = to_mont-IsForm c a in
      let (y, run_y, fy) = to_mont-IsForm c b in
      let (z, run_z, fz) = mul-IsForm c a b fx fy in
      then_ok (λ x. do y ← to_mont ctx b; z ← mul ctx x y; from_mont ctx z) run_x
      ∙ then_ok (λ y. do z ← mul ctx x y; from_mont ctx z) run_y
      ∙ then_ok (from_mont ctx) run_z
      ∙ from_mont-IsForm c (a * b) fz

  power_in_lem : (a e : ℕ) → e < 2 ^ 64 → power_in ctx a e ≡ ok (a ^ e % ctx.n)
  power_in_lem a e h =
      let (x, run_x, fx) = to_mont-IsForm c a in
      let (z, run_z, fz) = mont_pow_mod-IsForm c a e h fx in
      then_ok (λ x. do z ← mont_pow_mod ctx x e; from_mont ctx z) run_x
      ∙ then_ok (from_mont ctx) run_z
      ∙ from_mont-IsForm c (a ^ e) fz

-- For an odd n with 1 < n ≤ 2 ^ 63 the context is made, and a product computed in it is the product
-- modulo n, without an overflow.
pub mul-roundtrip :
    (n a b : ℕ)
    → 1 < n
    → n ≤ 2 ^ 63
    → n % 2 ≡ 1
    → (new n >>= λ ctx. product_in ctx a b) ≡ ok (a * b % n)
mul-roundtrip n a b big small odd =
    then_ok (λ ctx. product_in ctx a b) (new_lem n big odd)
    ∙ product_in_lem (new_ctx-IsCtx n big small odd) a b
    ∙ ap (λ (m : ℕ). ok (a * b % m)) (new_ctx-n n)

-- For an odd n with 1 < n ≤ 2 ^ 63 and an exponent below 2 ^ 64 the context is made, and the power
-- computed in it is the power modulo n, without an overflow.
pub mont_pow_mod-roundtrip :
    (n a e : ℕ)
    → 1 < n
    → n ≤ 2 ^ 63
    → n % 2 ≡ 1
    → e < 2 ^ 64
    → (new n >>= λ ctx. power_in ctx a e) ≡ ok (a ^ e % n)
mont_pow_mod-roundtrip n a e big small odd h =
    then_ok (λ ctx. power_in ctx a e) (new_lem n big odd)
    ∙ power_in_lem (new_ctx-IsCtx n big small odd) a e h
    ∙ ap (λ (m : ℕ). ok (a ^ e % m)) (new_ctx-n n)
