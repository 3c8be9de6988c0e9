-- ===== src/Sieve/Order/Inverse.antt =====
-- `mod_inverse` returns a ^ (p - 2) mod p, which is the inverse where Fermat's congruence holds.
use native.Mathlib.Nat
use prime_hunter.Common.Mod.{mul-mod_left, mul-mod_right}
use prime_hunter.Common.{
  ℕ, suc, ◌-◌, ◌*◌, ◌%◌, ◌^◌, ◌<◌, ◌≤◌, ◌≡◌, sym, ap, ◌∙◌, inl, inr, true, false, none, some, ok,
  Bool-cases, ==_iff, lt→ltb, arith,
}
use prime_hunter.Sieve.Factor.{is_multiple_of}
use prime_hunter.Sieve.Montgomery.Reduce.{new_ctx-IsCtx, new_lem, new_ctx-n}
use prime_hunter.Sieve.Montgomery.Form.{to_mont-IsForm, from_mont-IsForm, mont_pow_mod-IsForm}
use prime_hunter.Sieve.Order.{mod_inverse}

-- A multiple of p has no inverse.
pub mod_inverse-multiple : (a p : ℕ) → is_multiple_of a p ≡ true → mod_inverse a p ≡ ok none
unfolding mod_inverse
mod_inverse-multiple a p h = rw h

pub mod_inverse-power :
    (a p : ℕ)
    → 2 < p
    → p ≤ 2 ^ 63
    → p % 2 ≡ 1
    → is_multiple_of a p ≡ false
    → mod_inverse a p ≡ ok (some (a ^ (p - 2) % p))
unfolding mod_inverse
mod_inverse-power a p big small odd h =
    let c = new_ctx-IsCtx p (omega arith) small odd in
    let (b, run_b, fb) = to_mont-IsForm c a in
    let (r, run_r, fr) = mont_pow_mod-IsForm c a (p - 2) (omega arith) fb in
    rw (
      h,
      lt→ltb 2 p big,
      new_lem p (omega arith) odd,
      run_b,
      run_r,
      from_mont-IsForm c (a ^ (p - 2)) fr,
      new_ctx-n,
    )

-- For an odd p with 2 < p ≤ 2 ^ 63 and a ^ (p - 1) ≡ 1 modulo p (Fermat's congruence), the result
-- is an x below p whose product with a is 1 modulo p.
pub mod_inverse-inverts :
    (a p : ℕ)
    → 2 < p
    → p ≤ 2 ^ 63
    → p % 2 ≡ 1
    → a ^ (p - 1) % p ≡ 1
    → (x : ℕ) × (mod_inverse a p ≡ ok (some x)) × (x < p) × (x * a % p ≡ 1)
mod_inverse-inverts a p big small odd fermat = (
  a ^ (p - 2) % p,
  mod_inverse-power a p big small odd not_multiple,
  Nat.mod-lt (a ^ (p - 2)) (omega arith),
  inverse,
)
  where
    next : p - 1 ≡ suc (p - 2)
    next = omega arith

    inverse : a ^ (p - 2) % p * a % p ≡ 1
    inverse =
        mul-mod_left p (a ^ (p - 2)) a
        ∙ ap (λ (t : ℕ). t % p) (sym (Nat.pow-suc a (p - 2)) ∙ ap (λ (t : ℕ). a ^ t) (sym next))
        ∙ fermat

    not_multiple : is_multiple_of a p ≡ false
    not_multiple = elim (Bool-cases (is_multiple_of a p)) [
      | inl multiple ↦
          let nil : a % p ≡ 0 = (==_iff (a % p) 0).0 multiple in
          absurd (
            omega (
              arith,
              fermat,
              ap (λ (t : ℕ). a ^ t % p) next,
              ap (λ (t : ℕ). t % p) (Nat.pow-suc a (p - 2)),
              mul-mod_right p (a ^ (p - 2)) a,
              ap (λ (t : ℕ). a ^ (p - 2) * t % p) nil,
              ap (λ (t : ℕ). t % p) (Nat.mul-zero (a ^ (p - 2))),
              Nat.zero-mod p,
            ))
      | inr other ↦ other
    ]
