-- ===== src/Forms/Wagstaff/Order.antt =====
-- Where the order of 2 modulo q says that q divides 2 ^ p + 1.
use native.Mathlib.Nat
use prime_hunter.Common.Prime.{IsPrime}
use prime_hunter.Common.Mod.{CongMod, cong-add, cong-mul, pow-add}
use prime_hunter.Common.Residue.{mod-one_iff}
use prime_hunter.Common.{
  ℕ, zero, suc, ◌+◌, ◌-◌, ◌*◌, ◌/◌, ◌%◌, ◌^◌, ◌<◌, ◌≤◌, ◌≡◌, refl, sym, ap, ◌∙◌, ◌&&◌, ◌==◌, ltb,
  Bool-cases, ltb→lt, ltb→le, ==_iff, inl, inr, arith,
}
use prime_hunter.Sieve.Factor.Euclid.{prime-dvd-mul}
use prime_hunter.Sieve.Order.Smallest.{IsOrder, order-mod, unit-order}

-- A power of 2 is -1 modulo q.
abbrev pub IsMinusOne : ℕ → ℕ → Type 0
IsMinusOne q e = (2 ^ e + 1) % q ≡ 0

module _ (q d : ℕ) (prime : IsPrime q) (big : 2 < q) (order : IsOrder 2 q d) where
  -- The exponent counts modulo the order.
  reduced : (e : ℕ) → CongMod q (2 ^ e) (2 ^ (e % d))
  reduced e = order-mod 2 prime.big d e order

  square_minus : (x : ℕ) → 0 < x → (x + 1) * (x - 1) ≡ x * x - 1
  square_minus zero h = absurd (omega arith)
  square_minus (suc y) h = grind arith

  -- Half of an even order is an exponent of -1.
  half_minus : (h : ℕ) → 0 < h → d ≡ 2 * h → IsMinusOne q h
  half_minus h pos e =
      let one_le : 1 ≤ 2 ^ h = Nat.one-le-pow h 2 (omega arith) in
      let whole : 2 ^ d ≡ 2 ^ h * 2 ^ h =
        ap (λ (t : ℕ). 2 ^ t) {x = d} {y = h + h} (omega (arith, e)) ∙ pow-add 2 h h in
      let product_zero : (2 ^ h * 2 ^ h - 1) % q ≡ 0 = (==_iff ((2 ^ h * 2 ^ h - 1) % q) 0).0 (
        sym (mod-one_iff q (2 ^ h * 2 ^ h) prime.big (Nat.mul-pos one_le one_le))
        ∙ (==_iff (2 ^ h * 2 ^ h % q) 1).1 (ap (λ (t : ℕ). t % q) (sym whole) ∙ order.unit)) in
      elim (prime-dvd-mul q (2 ^ h + 1) (2 ^ h - 1) prime (
        Nat.dvd_of_mod-eq-zero q
          (ap (λ (t : ℕ). t % q) (square_minus (2 ^ h) one_le) ∙ product_zero))) [
            | inl left ↦ Nat.mod-eq-zero_of_dvd q left
            | inr right ↦ absurd (
                omega (
                  arith,
                  pos,
                  e,
                  order.smallest h pos (
                      (==_iff (2 ^ h % q) 1).0 (
                        mod-one_iff q (2 ^ h) prime.big one_le
                        ∙ (==_iff ((2 ^ h - 1) % q) 0).1 (Nat.mod-eq-zero_of_dvd q right))),
                ))
          ]

  -- An exponent of -1 below the order is half of the order.
  minus_half : (r : ℕ) → r < d → IsMinusOne q r → 2 * r ≡ d
  minus_half r less minus =
      let one_le : 1 ≤ 2 ^ r = Nat.one-le-pow r 2 (omega arith) in
      let square_one : 2 ^ (2 * r) % q ≡ 1 =
        ap (λ (t : ℕ). 2 ^ t % q) {x = 2 * r} {y = r + r} (omega arith)
        ∙ ap (λ (t : ℕ). t % q) (pow-add 2 r r)
        ∙ (==_iff (2 ^ r * 2 ^ r % q) 1).0 (
            mod-one_iff q (2 ^ r * 2 ^ r) prime.big (Nat.mul-pos one_le one_le)
            ∙ (==_iff ((2 ^ r * 2 ^ r - 1) % q) 0).1 (
                ap (λ (t : ℕ). t % q) (sym (square_minus (2 ^ r) one_le))
                ∙ cong-mul q (2 ^ r + 1) 0 (2 ^ r - 1) (2 ^ r - 1) (minus ∙ sym (Nat.zero-mod q))
                    refl
                ∙ ap (λ (t : ℕ). t % q) (Nat.zero-mul (2 ^ r - 1))
                ∙ Nat.zero-mod q)) in
      bounded (2 * r) (unit-order 2 prime.big d (2 * r) order square_one) (not_zero r minus)
        (omega (arith, less))
    where
      not_zero : (r : ℕ) → IsMinusOne q r → 0 < 2 * r
      not_zero zero m = absurd (
          omega (
            arith,
            sym (Nat.mod-eq_of_lt {n = 2} {m = q} big),
            ap (λ (t : ℕ). (t + 1) % q) (sym (Nat.pow-zero 2)) ∙ m,
          ))
      not_zero (suc r) m = omega arith

      bounded : (s : ℕ) → s % d ≡ 0 → 0 < s → s < 2 * d → s ≡ d
      bounded s z pos less = elim (Bool-cases (ltb s d)) [
        | inl small ↦
            absurd (omega (arith, z, pos, Nat.mod-eq_of_lt {n = s} {m = d} (ltb→lt s d small)))
        | inr large ↦
            let le : d ≤ s = ltb→le s d large in
            let rest : s % d ≡ s - d =
              ap (λ (t : ℕ). t % d) {x = s} {y = d * 1 + (s - d)} (omega (arith, le, Nat.mul-one d))
              ∙ Nat.mul-add-mod_self_left d 1 (s - d)
              ∙ Nat.mod-eq_of_lt (omega (arith, less, le)) in
            omega (arith, rest, z, le)
      ]

  -- For an odd p, the entry of q says exactly whether q divides 2 ^ p + 1.
  pub entry_lem : (p : ℕ) → p % 2 ≡ 1 → ((d % 4 == 2) && (p % d == d / 2)) ≡ ((2 ^ p + 1) % q == 0)
  entry_lem p odd = elim (Bool-cases ((2 ^ p + 1) % q == 0)) [
    | inl divides ↦
        let half : 2 * (p % d) ≡ d =
          minus_half (p % d) (Nat.mod-lt p order.positive)
            (sym (neighbour p) ∙ (==_iff ((2 ^ p + 1) % q) 0).0 divides) in
        let r_odd : p % d % 2 ≡ 1 = omega (
          arith,
          odd,
          Nat.div-add-mod p d,
          ap (λ (t : ℕ). t * (p / d)) (sym half) ∙ Nat.mul_assoc 2 (p % d) (p / d),
        ) in
        ground (arith, divides, half, r_odd)
    | inr apart ↦ elim (Bool-cases ((d % 4 == 2) && (p % d == d / 2))) [
      | inr missed ↦ missed ∙ sym apart
      | inl hit ↦
          let even : d ≡ 2 * (d / 2) = ground (arith, hit) in
          let here : p % d ≡ d / 2 = ground (arith, hit) in
          absurd (
            ground (
              arith,
              apart,
              neighbour p
                  ∙ ap (λ (t : ℕ). (2 ^ t + 1) % q) here
                  ∙ half_minus (d / 2) (omega (arith, order.positive, even)) even,
            ))
    ]
  ]
    where
      neighbour : (p : ℕ) → (2 ^ p + 1) % q ≡ (2 ^ (p % d) + 1) % q
      neighbour p = cong-add q (2 ^ p) (2 ^ (p % d)) 1 1 (reduced p) refl
