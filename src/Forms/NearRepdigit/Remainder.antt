-- ===== src/Forms/NearRepdigit/Remainder.antt =====
-- `candidate_mod_p` computes the candidate's remainder, and the candidate has its digits.
use native.Mathlib.Nat
use prime_hunter.Common.{
  ℕ, zero, suc, ◌+◌, ◌-◌, ◌*◌, ◌%◌, ◌^◌, ◌<◌, ◌≤◌, true, false, ◌==◌, if◌then◌else◌, ◌≡◌, sym, ap,
  ◌∙◌, ok, sub_checked, Bool-cases, inl, inr, arith,
}
use prime_hunter.Common.Mod.{cong-add, cong-mul, pow-add}
use prime_hunter.Common.Residue.{fits-ok, cong-sub, product_narrow}
use prime_hunter.Common.Int.{pos, difference}
use prime_hunter.Limits.{checked_u32}
use prime_hunter.Sieve.ModArith.Power.{pow_mod-eq-pow}
use prime_hunter.Forms.NearRepdigit.{
  is_valid_params, build_candidate, subtrahend_mod_p, candidate_mod_p,
}

-- What is taken from 10 ^ (2 * k + 1) - 1, and the candidate.
abbrev pub subtrahend : ℕ → ℕ → ℕ → ℕ
subtrahend k d m = if m == 0 then 2 * d * 10 ^ k else d * (10 ^ (k + m) + 10 ^ (k - m))

abbrev pub candidate : ℕ → ℕ → ℕ → ℕ
candidate k d m = 10 ^ (2 * k + 1) - 1 - subtrahend k d m

-- The parameters that `search` tries: a digit from 1 to 8 and an exponent of 32 bits.
pub record IsTried (k d m : ℕ) : Type 0 where
  pub digit : d ≤ 8
  pub valid : is_valid_params k d m ≡ ok true
  pub narrow : 2 * k + 1 < 2 ^ 32

module _ {k d m : ℕ} (tried : IsTried k d m) where
  pub inside : m ≤ k
  unfolding is_valid_params
  inside = ground (arith, tried.valid)

  middle_digit : (m == 0) ≡ true → 2 * d ≤ 9
  unfolding is_valid_params
  middle_digit is_zero = ground (arith, tried.valid, is_zero)

power_pos : (n : ℕ) → 1 ≤ 10 ^ n
power_pos n = Nat.one-le-pow n 10 (omega arith)

sum_of_powers : (k m : ℕ) → m ≤ k → 10 ^ (k + m) + 10 ^ (k - m) ≤ 10 ^ (2 * k) + 1
sum_of_powers k m h =
    bound (10 ^ (k + m)) (10 ^ (k - m)) (10 ^ (2 * k)) (power_pos (k + m)) (power_pos (k - m))
      (sym (pow-add 10 (k + m) (k - m)) ∙ ap (λ (t : ℕ). 10 ^ t) (omega (arith, h)))
  where
    bound : (x y z : ℕ) → 1 ≤ x → 1 ≤ y → x * y ≡ z → x + y ≤ z + 1
    bound zero y z hx hy e = absurd (omega arith)
    bound (suc x) zero z hx hy e = absurd (omega arith)
    bound (suc x) (suc y) z hx hy e = omega (arith, e, Nat.suc-mul x (suc y), Nat.mul-suc x y)

-- The candidate has 2 * k + 1 digits.
pub candidate-large :
    {k d m : ℕ} → IsTried k d m → subtrahend k d m + 1 + 10 ^ (2 * k) ≤ 10 ^ (2 * k + 1)
candidate-large {k} {d} {m} tried = elim (Bool-cases (m == 0)) [
  | inl middle ↦ rw middle (
      omega (
        arith,
        ten,
        power_pos (2 * k),
        Nat.mul-le-mul {n₁ = 2 * d} {n₂ = 8} (omega (arith, middle_digit tried middle))
            (Nat.pow-le-pow_right {n = 10} (omega arith) {i = k} {j = 2 * k} (omega arith)),
      ))
  | inr pair ↦ rw pair (
      omega (
        arith,
        ten,
        digits_above pair,
        Nat.mul-le-mul tried.digit (sum_of_powers k m (inside tried)),
      ))
]
  where
    digits_above : (m == 0) ≡ false → 100 ≤ 10 ^ (2 * k)
    digits_above h =
        Nat.pow-le-pow_right {n = 10} (omega arith) {i = 2} {j = 2 * k}
          (ground (arith, h, inside tried))

    ten : 10 ^ (2 * k + 1) ≡ 10 * 10 ^ (2 * k)
    ten =
        ap (λ (t : ℕ). 10 ^ t) (omega arith)
        ∙ Nat.pow-suc 10 (2 * k)
        ∙ Nat.mul_comm (10 ^ (2 * k)) 10

pub build_candidate-candidate :
    {k d m : ℕ} → IsTried k d m → build_candidate k d m ≡ ok (pos (candidate k d m))
unfolding build_candidate checked_u32
build_candidate-candidate {k} {d} {m} tried = elim (Bool-cases (m == 0)) [
  | inl middle ↦
      rw
        (
          middle,
          fits-ok 64 (2 * k) (omega (arith, tried.narrow)),
          fits-ok 64 (2 * k + 1) (omega (arith, tried.narrow)),
          fits-ok 32 (2 * k + 1) tried.narrow,
          fits-ok 32 (2 * d) (omega (arith, tried.digit)),
          fits-ok 32 k (omega (arith, tried.narrow)),
        )
        (whole (10 ^ (2 * k + 1) - 1) (2 * d * 10 ^ k) (rw middle at room))
  | inr pair ↦
      rw
        (
          pair,
          fits-ok 64 (2 * k) (omega (arith, tried.narrow)),
          fits-ok 64 (2 * k + 1) (omega (arith, tried.narrow)),
          fits-ok 32 (2 * k + 1) tried.narrow,
          fits-ok 64 (k + m) (omega (arith, tried.narrow, inside tried)),
          fits-ok 32 (k + m) (omega (arith, tried.narrow, inside tried)),
          checked k m (inside tried),
          fits-ok 32 (k - m) (omega (arith, tried.narrow)),
        )
        (whole (10 ^ (2 * k + 1) - 1) (d * (10 ^ (k + m) + 10 ^ (k - m))) (rw pair at room))
]
  where
    checked : (a b : ℕ) → b ≤ a → sub_checked a b ≡ ok (a - b)
    checked a b h = ground arith

    room : subtrahend k d m ≤ 10 ^ (2 * k + 1) - 1
    room = omega (arith, candidate-large tried)

    whole : (a b : ℕ) → b ≤ a → ok (difference a b) ≡ ok (pos (a - b))
    whole a b h = ground arith

subtrahend_mod_p_lem :
    {k d m : ℕ} (p : ℕ)
    → IsTried k d m
    → 0 < p
    → p < 2 ^ 32
    → subtrahend_mod_p k d m p ≡ ok (subtrahend k d m % p)
unfolding subtrahend_mod_p
subtrahend_mod_p_lem {k} {d} {m} p tried p_pos small = elim (Bool-cases (m == 0)) [
  | inl middle ↦
      rw
        (
          middle,
          fits-ok 64 (2 * d) (omega (arith, tried.digit)),
          pow_mod-eq-pow 10 k p (omega (arith, tried.narrow)) p_pos,
          fits-ok 64 (2 * d % p * (10 ^ k % p)) (
              product_narrow p (2 * d % p) (10 ^ k % p) small (Nat.mod-lt (2 * d) p_pos)
                (Nat.mod-lt (10 ^ k) p_pos)),
        )
        (ap ok (
          cong-mul p (2 * d % p) (2 * d) (10 ^ k % p) (10 ^ k) (Nat.mod-mod (2 * d) p)
            (Nat.mod-mod (10 ^ k) p)))
  | inr pair ↦
      let high_lt : 10 ^ (k + m) % p < p = Nat.mod-lt (10 ^ (k + m)) p_pos in
      let low_lt : 10 ^ (k - m) % p < p = Nat.mod-lt (10 ^ (k - m)) p_pos in
      let sum : ℕ = 10 ^ (k + m) % p + 10 ^ (k - m) % p in
      rw
        (
          pair,
          fits-ok 64 (k + m) (omega (arith, tried.narrow, inside tried)),
          pow_mod-eq-pow 10 (k + m) p (omega (arith, tried.narrow, inside tried)) p_pos,
          checked k m (inside tried),
          pow_mod-eq-pow 10 (k - m) p (omega (arith, tried.narrow)) p_pos,
          fits-ok 64 (10 ^ (k + m) % p + 10 ^ (k - m) % p) (omega (arith, high_lt, low_lt, small)),
          fits-ok 64 (d % p * (sum % p)) (
              product_narrow p (d % p) (sum % p) small (Nat.mod-lt d p_pos) (Nat.mod-lt sum p_pos)),
        )
        (ap ok (
          cong-mul p (d % p) d (sum % p) (10 ^ (k + m) + 10 ^ (k - m)) (Nat.mod-mod d p) (
            Nat.mod-mod sum p
            ∙ cong-add p (10 ^ (k + m) % p) (10 ^ (k + m)) (10 ^ (k - m) % p) (10 ^ (k - m))
                (Nat.mod-mod (10 ^ (k + m)) p) (Nat.mod-mod (10 ^ (k - m)) p))))
]
  where
    checked : (a b : ℕ) → b ≤ a → sub_checked a b ≡ ok (a - b)
    checked a b h = ground arith

-- candidate_mod_p
pub candidate_mod_p-mod :
    {k d m : ℕ} (p : ℕ)
    → IsTried k d m
    → 0 < p
    → p < 2 ^ 32
    → candidate_mod_p k d m p ≡ ok (candidate k d m % p)
unfolding candidate_mod_p
candidate_mod_p-mod {k} {d} {m} p tried p_pos small =
    rw
      (
        fits-ok 64 (2 * k) (omega (arith, tried.narrow)),
        fits-ok 64 (2 * k + 1) (omega (arith, tried.narrow)),
        pow_mod-eq-pow 10 (2 * k + 1) p (omega (arith, tried.narrow)) p_pos,
        subtrahend_mod_p_lem p tried p_pos small,
        fits-ok 64 (10 ^ (2 * k + 1) % p + p) (omega (arith, below, small)),
        checked (10 ^ (2 * k + 1) % p + p) 1 (omega (arith, p_pos)),
        fits-ok 64 ((10 ^ (2 * k + 1) % p + p - 1) % p + p) (omega (arith, less, small)),
        checked ((10 ^ (2 * k + 1) % p + p - 1) % p + p) (subtrahend k d m % p)
            (omega (arith, taken)),
      )
      (ap ok (
        cong-sub p (10 ^ (2 * k + 1)) (subtrahend k d m) p_pos
          (omega (arith, candidate-large tried))))
  where
    below : 10 ^ (2 * k + 1) % p < p
    below = Nat.mod-lt (10 ^ (2 * k + 1)) p_pos

    less : (10 ^ (2 * k + 1) % p + p - 1) % p < p
    less = Nat.mod-lt (10 ^ (2 * k + 1) % p + p - 1) p_pos

    taken : subtrahend k d m % p < p
    taken = Nat.mod-lt (subtrahend k d m) p_pos

    checked : (a b : ℕ) → b ≤ a → sub_checked a b ≡ ok (a - b)
    checked a b h = ground arith
