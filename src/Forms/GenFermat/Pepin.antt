-- ===== src/Forms/GenFermat/Pepin.antt =====
-- `is_pepin_provable` tests the condition of its comment.
use native.Mathlib.Nat
use prime_hunter.Common.{
  ℕ, zero, suc, ◌+◌, ◌*◌, ◌/◌, ◌%◌, ◌^◌, ◌<◌, ◌≤◌, true, false, ◌==◌, ltb, ◌≡◌, ◌≢◌, ◌↔◌, refl, sym,
  ap, ◌∙◌, Bool-cases, ==_iff, ltb→lt, inl, inr, arith,
}
use prime_hunter.Forms.GenFermat.{zeros_loop, is_pepin_provable}

-- b = 2 ^ t * m for an odd m below 2 ^ t, and t is at least 1.
pub record IsPepin (b t m : ℕ) : Type 0 where
  pub split : b ≡ 2 ^ t * m
  pub odd : m % 2 ≡ 1
  pub even : 1 ≤ t
  pub dominant : m < 2 ^ t

zeros_lem :
    (fuel b : ℕ) → 0 < b → b < 2 ^ fuel → (m : ℕ) × (b ≡ 2 ^ zeros_loop fuel b * m) × (m % 2 ≡ 1)
unfolding zeros_loop
zeros_lem zero b pos h = absurd (omega arith)
zeros_lem (suc fuel) b pos h = elim (Bool-cases (b % 2 == 0)) [
  | inl even ↦
      let zero_rest : b % 2 ≡ 0 = (==_iff (b % 2) 0).0 even in
      let (m, e, odd) =
        zeros_lem fuel (b / 2) (omega (arith, zero_rest, pos))
          (omega (arith, h, Nat.pow-suc 2 fuel)) in
      (m, rw even (doubled (zeros_loop fuel (b / 2)) m zero_rest e), odd)
  | inr odd ↦ (b, rw odd (omega arith), ground (arith, odd))
]
  where
    doubled : (t m : ℕ) → b % 2 ≡ 0 → b / 2 ≡ 2 ^ t * m → b ≡ 2 ^ (t + 1) * m
    doubled t m z e = omega (
      arith,
      z,
      e,
      ap (λ (k : ℕ). k * m)
          (ap (λ (k : ℕ). 2 ^ k) {x = t + 1} {y = suc t} (omega arith) ∙ Nat.pow-suc 2 t),
      ap (λ (k : ℕ). k * m) (Nat.mul_comm (2 ^ t) 2),
      Nat.mul_assoc 2 (2 ^ t) m,
    )

twice : (t m : ℕ) → 2 ^ suc t * m ≡ 2 * (2 ^ t * m)
twice t m =
    ap (λ (k : ℕ). k * m) (Nat.pow-suc 2 t ∙ Nat.mul_comm (2 ^ t) 2) ∙ Nat.mul_assoc 2 (2 ^ t) m

odd_last : (m : ℕ) → m % 2 ≡ 1 → (m % 2 == 0) ≡ false
odd_last m h = ground (arith, h)

zeros_exact : (fuel t m : ℕ) → m % 2 ≡ 1 → t < fuel → zeros_loop fuel (2 ^ t * m) ≡ t
unfolding zeros_loop
zeros_exact zero t m odd h = absurd (omega arith)
zeros_exact (suc fuel) zero m odd h = rw (Nat.pow-zero, Nat.one-mul, odd_last m odd) refl
zeros_exact (suc fuel) (suc t) m odd h =
    rw (twice t m, even (2 ^ t * m), half (2 ^ t * m), zeros_exact fuel t m odd (omega arith))
      (omega arith)
  where
    even : (x : ℕ) → (2 * x % 2 == 0) ≡ true
    even x = ground arith

    half : (x : ℕ) → 2 * x / 2 ≡ x
    half x = omega arith

-- A base of 64 bits passes the test exactly when it is 2 ^ t * m for an odd m below 2 ^ t and a t of
-- at least 1.
pub is_pepin_provable-IsPepin :
    (b : ℕ) → b < 2 ^ 64 → (is_pepin_provable b ≡ true) ↔ ((t : ℕ) × (m : ℕ) × IsPepin b t m)
unfolding is_pepin_provable
is_pepin_provable-IsPepin b narrow = (forth, back)
  where
    at_least : (t m : ℕ) → b ≡ 2 ^ t * m → m % 2 ≡ 1 → b % 2 ≢ 1 → 1 ≤ t
    at_least zero m e odd even = absurd (
        even (
          ap (λ (k : ℕ). k % 2) (e ∙ ap (λ (k : ℕ). k * m) (Nat.pow-zero 2) ∙ Nat.one-mul m) ∙ odd))
    at_least (suc t) m e odd even = omega arith

    forth : is_pepin_provable b ≡ true → (t : ℕ) × (m : ℕ) × IsPepin b t m
    forth h =
        let (m, e, odd) = zeros_lem 64 b (ground (arith, h)) narrow in
        let part : b / 2 ^ zeros_loop 64 b ≡ m =
          ap (λ (k : ℕ). k / 2 ^ zeros_loop 64 b) e
          ∙ Nat.mul-div_cancel_left m (Nat.one-le-pow (zeros_loop 64 b) 2 (omega arith)) in
        (
          zeros_loop 64 b,
          m,
          record {
            split = e;
            odd = odd;
            even = at_least (zeros_loop 64 b) m e odd (ground (arith, h));
            dominant = rw (sym part) (ground (arith, h));
          },
        )

    back : ((t : ℕ) × (m : ℕ) × IsPepin b t m) → is_pepin_provable b ≡ true
    back (t, m, p) =
        rw (zeros, part) (ground (arith, even_base t p.even p.split, p.dominant, positive))
      where
        short : t < 64
        short = elim (Bool-cases (ltb t 64)) [
          | inl small ↦ ltb→lt t 64 small
          | inr large ↦ absurd (
              omega (
                arith,
                narrow,
                p.split,
                p.odd,
                Nat.pow-le-pow_right {n = 2} (omega arith) {i = 64} {j = t} (ground (arith, large)),
                Nat.le-mul_of_pos_right {m = m} (2 ^ t) (omega (arith, p.odd)),
              ))
        ]

        zeros : zeros_loop 64 b ≡ t
        zeros = ap (zeros_loop 64) p.split ∙ zeros_exact 64 t m p.odd short

        part : b / 2 ^ t ≡ m
        part =
            ap (λ (k : ℕ). k / 2 ^ t) p.split
            ∙ Nat.mul-div_cancel_left m (Nat.one-le-pow t 2 (omega arith))

        positive : 0 < b
        positive = omega (
          arith,
          p.split,
          p.odd,
          Nat.one-le-pow t 2 (omega arith),
          Nat.le-mul_of_pos_right {m = m} (2 ^ t) (omega (arith, p.odd)),
        )

        even_base : (t : ℕ) → 1 ≤ t → b ≡ 2 ^ t * m → b % 2 ≡ 0
        even_base zero h e = absurd (omega arith)
        even_base (suc t) h e = omega (arith, e, twice t m)
