-- ===== src/Common/Residue.antt =====
-- What a remainder says of the numbers next to it.
use native.Mathlib.Nat
use prime_hunter.Common.{
  ℕ, ◌+◌, ◌-◌, ◌*◌, ◌/◌, ◌%◌, ◌^◌, ◌<◌, ◌≤◌, ◌≡◌, refl, sym, ap, ◌∙◌, ◌==◌, Bool-cases, ==_iff, inl,
  inr, ok, fits, arith,
}
use prime_hunter.Common.Mod.{CongMod, cong-add}

pub fits-ok : (w x : ℕ) → x < 2 ^ w → fits w x ≡ ok x
fits-ok w x h = ground arith

-- x + 1 is a multiple of p exactly when x leaves p - 1.
pub mod-pred : (p x : ℕ) → 0 < p → (x % p == p - 1) ≡ ((x + 1) % p == 0)
mod-pred p x h =
    let step : (x + 1) % p ≡ (x % p + 1) % p =
      cong-add p x (x % p) 1 1 (sym (Nat.mod-mod x p)) refl in
    elim (Bool-cases (x % p == p - 1)) [
      | inl last ↦
          let e : x % p + 1 ≡ p = ground (arith, last) in
          let whole : (x + 1) % p ≡ 0 = step ∙ ap (λ (t : ℕ). t % p) e ∙ Nat.mod_self p in
          ground (arith, last, whole)
      | inr other ↦
          let small : x % p + 1 < p = ground (arith, other, Nat.mod-lt x h) in
          let part : (x + 1) % p ≡ x % p + 1 = step ∙ Nat.mod-eq_of_lt small in
          ground (arith, other, part)
    ]

-- x is 1 modulo p exactly when p divides x - 1.
pub mod-one_iff : (p x : ℕ) → 1 < p → 0 < x → (x % p == 1) ≡ ((x - 1) % p == 0)
mod-one_iff p x h pos =
    let e : x - 1 + 1 ≡ x = omega arith in
    let step : x % p ≡ ((x - 1) % p + 1) % p =
      ap (λ (t : ℕ). t % p) (sym e)
      ∙ cong-add p (x - 1) ((x - 1) % p) 1 1 (sym (Nat.mod-mod (x - 1) p)) refl in
    elim (Bool-cases ((x - 1) % p + 1 == p)) [
      | inl last ↦
          let whole : x % p ≡ 0 =
            step ∙ ap (λ (t : ℕ). t % p) ((==_iff ((x - 1) % p + 1) p).0 last) ∙ Nat.mod_self p in
          ground (arith, last, whole)
      | inr other ↦
          let small : (x - 1) % p + 1 < p = ground (arith, other, Nat.mod-lt (x - 1) {m = p}) in
          let part : x % p ≡ (x - 1) % p + 1 = step ∙ Nat.mod-eq_of_lt small in
          ground (arith, other, part)
    ]

-- Two remainders of 32 bits have a product of 64 bits.
pub product_narrow : (p a b : ℕ) → p < 2 ^ 32 → a < p → b < p → a * b < 2 ^ 64
product_narrow p a b small ha hb = Nat.lt_of_le_of_lt (Nat.mul-le-mul a_small b_small) (omega arith)
  where
    a_small : a ≤ 2 ^ 32 - 1
    a_small = omega (arith, ha, small)

    b_small : b ≤ 2 ^ 32 - 1
    b_small = omega (arith, hb, small)

-- Two numbers leave the same remainder exactly when it divides their difference.
pub mod-eq_iff : (q a b : ℕ) → 0 < q → b ≤ a → (a % q == b % q) ≡ ((a - b) % q == 0)
mod-eq_iff q a b pos le =
    let e : a ≡ a - b + b = omega (arith, le) in
    elim (Bool-cases ((a - b) % q == 0)) [
      | inl zero_rest ↦
          let z : (a - b) % q ≡ 0 = (==_iff ((a - b) % q) 0).0 zero_rest in
          let same : a % q ≡ b % q =
            ap (λ (t : ℕ). t % q) e
            ∙ cong-add q (a - b) 0 b b (z ∙ sym (Nat.zero-mod q)) refl
            ∙ ap (λ (t : ℕ). t % q) (Nat.zero-add b) in
          ground (arith, zero_rest, same)
      | inr other ↦ elim (Bool-cases (a % q == b % q)) [
        | inr apart ↦ ground (arith, other, apart)
        | inl same ↦
            let s : a % q ≡ b % q = (==_iff (a % q) (b % q)).0 same in
            absurd (ground (arith, other, difference_zero q a b pos le s))
      ]
    ]
  where
    difference_zero : (q a b : ℕ) → 0 < q → b ≤ a → a % q ≡ b % q → (a - b) % q ≡ 0
    difference_zero q a b pos le s =
        let factor : a - b ≡ q * (a / q - b / q) =
          omega
            (arith, Nat.div-add-mod a q, Nat.div-add-mod b q, s, Nat.mul-sub q (a / q) (b / q)) in
        rw factor (Nat.mul-mod_right q (a / q - b / q))

-- What is added on both sides can be taken away.
pub cong-cancel : (p a b s : ℕ) → 0 < p → CongMod p (a + s) (b + s) → CongMod p a b
cong-cancel p a b s h e =
    sym (lifted a) ∙ cong-add p (a + s) (b + s) (s * (p - 1)) (s * (p - 1)) e refl ∙ lifted b
  where
    whole : (c : ℕ) → c + s + s * (p - 1) ≡ p * s + c
    whole c = omega (arith, Nat.mul_comm p s, Nat.mul-sub s p 1, Nat.le-mul_of_pos_right s h)

    lifted : (c : ℕ) → CongMod p (c + s + s * (p - 1)) c
    lifted c = ap (λ (t : ℕ). t % p) (whole c) ∙ Nat.mul-add-mod_self_left p s c

-- a - 1 - s modulo p, computed without a number below 0.
pub cong-sub :
    (p a s : ℕ) → 0 < p → s + 1 ≤ a → ((a % p + p - 1) % p + p - s % p) % p ≡ (a - 1 - s) % p
cong-sub p a s pos room = cong-cancel p ((a % p + p - 1) % p + p - s % p) (a - 1 - s) s pos (
    cong-add p u u s (s % p) refl (sym (Nat.mod-mod s p))
    ∙ ap (λ (t : ℕ). t % p) (omega (arith, Nat.mod-lt s pos))
    ∙ cong-add p ((a % p + p - 1) % p) (a % p + (p - 1)) p 0
        (Nat.mod-mod (a % p + p - 1) p ∙ ap (λ (t : ℕ). t % p) (omega (arith, pos)))
        (Nat.mod_self p ∙ sym (Nat.zero-mod p))
    ∙ ap (λ (t : ℕ). t % p) (Nat.add-zero (a % p + (p - 1)))
    ∙ cong-add p (a % p) a (p - 1) (p - 1) (Nat.mod-mod a p) refl
    ∙ ap (λ (t : ℕ). t % p) (omega (arith, pos, room))
    ∙ Nat.mul-add-mod_self_left p 1 (a - 1 - s + s))
  where
    u : ℕ
    u = (a % p + p - 1) % p + p - s % p
