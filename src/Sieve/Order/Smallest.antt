-- ===== src/Sieve/Order/Smallest.antt =====
-- The multiplicative order as a number: an exponent that cannot be divided by any of its primes
-- is the smallest one.
use mathlib.Core.Path.{subst}
use native.Mathlib.Nat
use prime_hunter.Common.Prime.{IsPrime}
use prime_hunter.Common.Least.{least, IsPrime-divisor}
use prime_hunter.Common.Mod.{CongMod, cong-mul, cong-pow, pow-add}
use prime_hunter.Common.{
  ℕ, zero, suc, ◌+◌, ◌-◌, ◌*◌, ◌/◌, ◌%◌, ◌^◌, ◌<◌, ◌≤◌, ◌∣◌, ◌≡◌, refl, sym, ap, ◌∙◌, inl, inr,
  Bool, true, false, ◌&&◌, ◌==◌, ltb, ◌↔◌, Bool-cases, lt→ltb, ltb→lt, ltb→le, arith,
}

-- base ^ e ≡ 1.
abbrev pub IsUnitExp : ℕ → ℕ → ℕ → Type 0
IsUnitExp base p e = base ^ e % p ≡ 1

-- The specification: the smallest d > 0 with base ^ d ≡ 1 modulo p.
pub record IsOrder (base p d : ℕ) : Type 0 where
  pub positive : 0 < d
  pub unit : IsUnitExp base p d
  pub smallest : (e : ℕ) → 0 < e → IsUnitExp base p e → d ≤ e

pub pow-mul : (b x y : ℕ) → b ^ (x * y) ≡ (b ^ x) ^ y
pow-mul b x zero = rw (Nat.mul-zero, Nat.pow-zero, Nat.pow-zero)
pow-mul b x (suc y) =
    rw Nat.mul-suc (pow-add b (x * y) x ∙ rw (pow-mul b x y) (sym (Nat.pow-suc (b ^ x) y)))

pub one-pow : (y : ℕ) → 1 ^ y ≡ 1
one-pow zero = Nat.pow-zero 1
one-pow (suc y) = rw (Nat.pow-suc, one-pow y)

quotient_dvd : (o q d : ℕ) → 0 < q → o * (d / o) ≡ d → q ∣ d / o → (q ∣ d) × (o ∣ d / q)
quotient_dvd o q d pos split div = (
  subst (◌∣◌ q) split (Nat.dvd-mul_left_of_dvd q div o),
  subst (◌∣◌ o) (sym quotient) (Nat.dvd-mul_right o (d / o / q)),
)
  where
    whole : d ≡ q * (o * (d / o / q))
    whole =
        sym split
        ∙ ap (λ (t : ℕ). o * t) (sym (Nat.mul-div_cancel' q div))
        ∙ Nat.mul_left_comm o q (d / o / q)

    quotient : d / q ≡ o * (d / o / q)
    quotient = ap (λ (t : ℕ). t / q) whole ∙ Nat.mul-div_cancel_left (o * (d / o / q)) pos

quotient_one : (o x d : ℕ) → o * x ≡ d → 0 < d → x ≤ 1 → o ≡ d
quotient_one o zero d e pos h = absurd (omega arith)
quotient_one o (suc x) d e pos h = let nil : x ≡ 0 = omega arith in omega (arith, rw nil at e)

is_unit : ℕ → ℕ → ℕ → Bool
is_unit base p e = ltb 0 e && (base ^ e % p == 1)

clash : {b : Bool} → b ≡ false → b ≡ true → ⊥
clash e f = cc

is_unit_iff : (base p e : ℕ) → (is_unit base p e ≡ true) ↔ ((0 < e) × IsUnitExp base p e)
unfolding is_unit
is_unit_iff base p e =
    (λ h. (ground (arith, h), ground (arith, h)), λ (pos, u). rw (u, lt→ltb 0 e pos))

module _ (base : ℕ) {p : ℕ} (h : 1 < p) where
  one-mod : 1 % p ≡ 1
  one-mod = Nat.mod-eq_of_lt h

  unit_multiple : (x y : ℕ) → IsUnitExp base p x → IsUnitExp base p (x * y)
  unit_multiple x y u =
      ap (λ (t : ℕ). t % p) (pow-mul base x y)
      ∙ cong-pow p (base ^ x) 1 y (u ∙ sym one-mod)
      ∙ ap (λ (t : ℕ). t % p) (one-pow y)
      ∙ one-mod

  -- A multiple of a unit exponent is one.
  pub unit-dvd : (d m : ℕ) → d ∣ m → IsUnitExp base p d → IsUnitExp base p m
  unit-dvd d m div u =
      subst (IsUnitExp base p) (Nat.mul-div_cancel' d div) (unit_multiple d (m / d) u)

  -- The remainder of one unit exponent by another is one.
  pub unit-mod : (o e : ℕ) → IsUnitExp base p o → IsUnitExp base p e → IsUnitExp base p (e % o)
  unit-mod o e uo ue =
      ap (λ (t : ℕ). t % p) (sym (Nat.one-mul (base ^ (e % o))))
      ∙ cong-mul p 1 (base ^ (o * (e / o))) (base ^ (e % o)) (base ^ (e % o))
          (one-mod ∙ sym (unit_multiple o (e / o) uo)) refl
      ∙ ap (λ (t : ℕ). t % p) (sym (pow-add base (o * (e / o)) (e % o)))
      ∙ ap (λ (t : ℕ). base ^ t % p) (Nat.div-add-mod e o)
      ∙ ue

  -- A power depends on the remainder of the exponent by the order alone.
  pub order-mod : (o e : ℕ) → IsOrder base p o → CongMod p (base ^ e) (base ^ (e % o))
  order-mod o e order =
      ap (λ (t : ℕ). base ^ t % p) (sym (Nat.div-add-mod e o))
      ∙ ap (λ (t : ℕ). t % p) (pow-add base (o * (e / o)) (e % o))
      ∙ cong-mul p (base ^ (o * (e / o))) 1 (base ^ (e % o)) (base ^ (e % o))
          (unit_multiple o (e / o) order.unit ∙ sym one-mod) refl
      ∙ ap (λ (t : ℕ). t % p) (Nat.one-mul (base ^ (e % o)))

  -- An exponent is a unit exponent exactly where the order divides it.
  pub unit-order : (o e : ℕ) → IsOrder base p o → IsUnitExp base p e → e % o ≡ 0
  unit-order o e order u = elim (Bool-cases (ltb 0 (e % o))) [
    | inl pos ↦ absurd (
        omega (
          arith,
          order.smallest (e % o) (ltb→lt 0 (e % o) pos) (unit-mod o e order.unit u),
          Nat.mod-lt e order.positive,
        ))
    | inr none_left ↦ omega (arith, ltb→le 0 (e % o) none_left)
  ]

  -- Powers below the order are distinct.
  pub powers_distinct :
      (order j k : ℕ)
      → IsOrder base p order
      → j ≤ k
      → k < order
      → CongMod p (base ^ j) (base ^ k)
      → j ≡ k
  powers_distinct order j k ord le less e =
      let lifted : IsUnitExp base p (k - j + order) =
        ap (λ (t : ℕ). base ^ t % p) {x = k - j + order} {y = k + (order - j)}
          (omega (arith, le, less))
        ∙ ap (λ (t : ℕ). t % p) (pow-add base k (order - j))
        ∙ cong-mul p (base ^ k) (base ^ j) (base ^ (order - j)) (base ^ (order - j)) (sym e) refl
        ∙ ap (λ (t : ℕ). t % p) (sym (pow-add base j (order - j)))
        ∙ ap (λ (t : ℕ). base ^ t % p) {x = j + (order - j)} {y = order} (omega (arith, le, less))
        ∙ ord.unit in
      let whole : (k - j + order) % order ≡ 0 = unit-order order (k - j + order) ord lifted in
      let rest : (k - j + order) % order ≡ k - j =
        ap (λ (t : ℕ). t % order) {x = k - j + order} {y = order * 1 + (k - j)}
          (omega (arith, Nat.mul-one order))
        ∙ Nat.mul-add-mod_self_left order 1 (k - j)
        ∙ Nat.mod-eq_of_lt (omega (arith, less)) in
      omega (arith, whole, rest, le)

  -- The smallest unit exponent divides every other.
  least-IsOrder :
      (n : ℕ)
      → 0 < n
      → IsUnitExp base p n
      → (o : ℕ) × IsOrder base p o × ((e : ℕ) → IsUnitExp base p e → o ∣ e)
  least-IsOrder n pos u =
      let (o, (here, before), le) = least (is_unit base p) n ((is_unit_iff base p n).1 (pos, u)) in
      let (o_pos, o_unit) = (is_unit_iff base p o).0 here in
      (
        o,
        record { positive = o_pos; unit = o_unit; smallest = λ e he ue. minimal o e he ue before },
        λ e ue.
            Nat.dvd_of_mod-eq-zero o
              (no_remainder o (e % o) (Nat.mod-lt e o_pos) (unit-mod o e o_unit ue) before),
      )
    where
      minimal :
          (o e : ℕ)
          → 0 < e
          → IsUnitExp base p e
          → ((j : ℕ) → j < o → is_unit base p j ≡ false)
          → o ≤ e
      minimal o e he ue before = elim (Bool-cases (ltb e o)) [
        | inl less ↦ absurd (clash (before e (ltb→lt e o less)) ((is_unit_iff base p e).1 (he, ue)))
        | inr more ↦ ltb→le e o more
      ]

      no_remainder :
          (o r : ℕ)
          → r < o
          → IsUnitExp base p r
          → ((j : ℕ) → j < o → is_unit base p j ≡ false)
          → r ≡ 0
      no_remainder o zero lt ur before = refl
      no_remainder o (suc r) lt ur before =
          absurd (clash (before (suc r) lt) ((is_unit_iff base p (suc r)).1 (omega arith, ur)))

  -- An exponent none of whose prime quotients is a unit exponent is the order.
  pub reduced-IsOrder :
      (d : ℕ)
      → 0 < d
      → IsUnitExp base p d
      → ((q : ℕ) → IsPrime q → q ∣ d → ¬ IsUnitExp base p (d / q))
      → IsOrder base p d
  reduced-IsOrder d pos u reduced =
      let (o, order, divides) = least-IsOrder d pos u in
      let split : o * (d / o) ≡ d = Nat.mul-div_cancel' o (divides d u) in
      elim (Bool-cases (ltb 1 (d / o))) [
        | inl big ↦
            let (q, prime, div) = IsPrime-divisor (d / o) (ltb→lt 1 (d / o) big) in
            let (in_d, in_quotient) = quotient_dvd o q d (omega (arith, prime.big)) split div in
            absurd (reduced q prime in_d (unit-dvd o (d / q) in_quotient order.unit))
        | inr small ↦
            subst (IsOrder base p) (quotient_one o (d / o) d split pos (ltb→le 1 (d / o) small))
              order
      ]
