-- ===== src/Forms/Kbn/Values.antt =====
-- When a prime divides k * b ^ n + 1 or k * b ^ n - 1, by the inverse of k.
use native.Mathlib.Nat
use prime_hunter.Common.Prime.{IsPrime}
use prime_hunter.Common.Mod.{CongMod, cong-add, cong-mul}
use prime_hunter.Common.Residue.{mod-one_iff, mod-pred, cong-cancel}
use prime_hunter.Common.{
  ℕ, zero, suc, ◌+◌, ◌-◌, ◌*◌, ◌%◌, ◌^◌, ◌<◌, ◌≡◌, ◌⊎◌, refl, sym, ap, ◌∙◌, Bool, true, false, not,
  ◌&&◌, ◌||◌, List, any, ◌==◌, leb, Bool-cases, ==_iff, inl, inr, arith,
}
use prime_hunter.Sieve.Factor.{is_multiple_of}

-- Two tests agree where each implies the other.
agree : (a b c d : ℕ) → (a ≡ b → c ≡ d) → (c ≡ d → a ≡ b) → (a == b) ≡ (c == d)
agree a b c d forth back = ground (arith, forth, back)

module _ (p k i y : ℕ) (big : 1 < p) (inverse : i * k % p ≡ 1) (below : i < p) where
  unit : CongMod p (i * k) 1
  unit = inverse ∙ sym (Nat.mod-eq_of_lt big)

  pos : 0 < p
  pos = omega (arith, big)

  -- y is the negated inverse exactly when p divides k * y + 1.
  pub plus_value : (y % p == (p - i) % p) ≡ ((k * y + 1) % p == 0)
  plus_value = agree (y % p) ((p - i) % p) ((k * y + 1) % p) 0 forth back
    where
      zero_sum : CongMod p (p - i + i) 0
      zero_sum =
          ap (λ (t : ℕ). t % p) {x = p - i + i} {y = p} (omega (arith, below))
          ∙ Nat.mod_self p
          ∙ sym (Nat.zero-mod p)

      forth : y % p ≡ (p - i) % p → (k * y + 1) % p ≡ 0
      forth e =
          cong-add p (k * y) (k * y) 1 (i * k) refl (sym unit)
          ∙ ap (λ (t : ℕ). t % p) {x = k * y + i * k} {y = k * (y + i)}
              (omega (arith, Nat.mul-add k y i, Nat.mul_comm i k))
          ∙ cong-mul p k k (y + i) 0 refl (cong-add p y (p - i) i i e refl ∙ zero_sum)
          ∙ ap (λ (t : ℕ). t % p) (Nat.mul-zero k)
          ∙ Nat.zero-mod p

      back : (k * y + 1) % p ≡ 0 → y % p ≡ (p - i) % p
      back e = cong-cancel p y (p - i) i pos (
          cong-add p y (i * k * y) i i
            (sym (cong-mul p (i * k) 1 y y unit refl ∙ ap (λ (t : ℕ). t % p) (Nat.one-mul y))) refl
          ∙ ap (λ (t : ℕ). t % p) {x = i * k * y + i} {y = i * (k * y + 1)}
              (omega (arith, Nat.mul_assoc i k y, Nat.mul-add i (k * y) 1, Nat.mul-one i))
          ∙ cong-mul p i i (k * y + 1) 0 refl (e ∙ sym (Nat.zero-mod p))
          ∙ ap (λ (t : ℕ). t % p) (Nat.mul-zero i)
          ∙ sym zero_sum)

  -- y is the inverse exactly when p divides k * y - 1.
  pub minus_value : 0 < k * y → (y % p == i % p) ≡ ((k * y - 1) % p == 0)
  minus_value above =
      agree (y % p) (i % p) (k * y % p) 1 forth back ∙ mod-one_iff p (k * y) big above
    where
      forth : y % p ≡ i % p → k * y % p ≡ 1
      forth e = cong-mul p k k y i refl e ∙ ap (λ (t : ℕ). t % p) (Nat.mul_comm k i) ∙ inverse

      back : k * y % p ≡ 1 → y % p ≡ i % p
      back e =
          ap (λ (t : ℕ). t % p) (sym (Nat.one-mul y))
          ∙ cong-mul p 1 (i * k) y y (sym unit) refl
          ∙ ap (λ (t : ℕ). t % p) (Nat.mul_assoc i k y)
          ∙ cong-mul p i i (k * y) 1 refl (e ∙ sym (Nat.mod-eq_of_lt big))
          ∙ ap (λ (t : ℕ). t % p) (Nat.mul-one i)

-- What the sieve may use: a prime of 32 bits, and 2 where it divides the base or k.
abbrev pub IsSieved : ℕ → ℕ → ℕ → Type 0
IsSieved k base p =
    IsPrime p × ((2 < p) ⊎ ((is_multiple_of base p || is_multiple_of k p) ≡ true)) × (p < 2 ^ 32)

-- The primes that divide k * base ^ x + 1, and k * base ^ x - 1.
abbrev pub hits_plus : ℕ → ℕ → ℕ → ℕ → Bool
hits_plus k base x p = (k * base ^ x + 1) % p == 0

abbrev pub hits_minus : ℕ → ℕ → ℕ → ℕ → Bool
hits_minus k base x p = (k * base ^ x - 1) % p == 0

-- Index j stands for min_n + j: what is left of f after the numbers of the list, from sieve_min_n on.
abbrev pub left : ℕ → ℕ → (ℕ → ℕ → Bool) → List ℕ → (ℕ → Bool) → ℕ → Bool
left sieve_min_n min_n hits ps f j =
    f j && not (leb sieve_min_n (min_n + j) && any (hits (min_n + j)) ps)

-- A divisor of k or of the base divides neither number.
pub spared_value :
    (p k base x : ℕ)
    → 1 < p
    → 0 < k
    → 0 < base
    → 0 < x
    → (is_multiple_of base p || is_multiple_of k p) ≡ true
    → (hits_plus k base x p ≡ false) × (hits_minus k base x p ≡ false)
spared_value p k base zero big hk hb pos h = absurd (omega arith)
spared_value p k base (suc x) big hk hb pos h = (
  sym (mod-pred p v (omega (arith, big))) ∙ ground (arith, multiple, big),
  sym (mod-one_iff p v big positive) ∙ ground (arith, multiple),
)
  where
    v : ℕ
    v = k * base ^ suc x

    positive : 0 < v
    positive = Nat.mul-pos hk (Nat.one-le-pow (suc x) base hb)

    multiple : v % p ≡ 0
    multiple = elim (Bool-cases (is_multiple_of k p)) [
      | inl in_k ↦ Nat.mod-eq-zero_of_dvd p (
          Nat.dvd-mul_right_of_dvd p (Nat.dvd_of_mod-eq-zero p ((==_iff (k % p) 0).0 in_k))
            (base ^ suc x))
      | inr other ↦
          let in_base : base % p ≡ 0 = ground (arith, h, other) in
          ap (λ (t : ℕ). k * t % p) (Nat.pow-suc base x)
          ∙ Nat.mod-eq-zero_of_dvd p (
              Nat.dvd-mul_left_of_dvd p
                (Nat.dvd-mul_left_of_dvd p (Nat.dvd_of_mod-eq-zero p in_base) (base ^ x)) k)
    ]
