-- ===== src/Common/Prime.antt =====
-- Prime numbers, by their divisors.
use Prim.Native.Nat.{ℕ, zero, suc, ◌*◌, ◌/◌, ◌≤◌, ◌<◌, ◌∣◌}
use mathlib.Core.Path.{◌≡◌, subst}
use mathlib.Core.Logic.{◌⊎◌, inl, inr}
use native.Mathlib.Nat
use native.Mathlib.Omega.{arith}

pub record IsPrime (p : ℕ) : Type 0 where
  pub big : 1 < p
  pub only : (k : ℕ) → 1 < k → k ∣ p → k ≡ p

-- `n` has no divisor from 2 up to below `d`.
abbrev pub HasNoneBelow : ℕ → ℕ → Type 0
HasNoneBelow d n = (k : ℕ) → 1 < k → k ∣ n → d ≤ k

-- A divisor that no smaller one divides is prime.
pub least_divisor-IsPrime : (d n : ℕ) → 1 < d → d ∣ n → HasNoneBelow d n → IsPrime d
least_divisor-IsPrime d n h div none_below = record {
  big = h;
  only = λ k hk dk.
      Nat.le_antisymm (Nat.le_of_dvd (omega arith) dk) (none_below k hk (Nat.dvd_trans k dk div));
}

cofactor_cases : (j k n : ℕ) → 0 < n → k * j ≡ n → (k ≡ n) ⊎ (1 < j)
cofactor_cases zero k n p e = absurd (omega arith)
cofactor_cases (suc zero) k n p e = inl (omega arith)
cofactor_cases (suc (suc j)) k n p e = inr (omega arith)

cofactor-dvd : (j k n : ℕ) → k * j ≡ n → j ∣ n
cofactor-dvd j k n e = subst (◌∣◌ j) e (Nat.dvd-mul_left j k)

-- With no divisor up to the root, a number is prime.
pub rest-IsPrime : (d n : ℕ) → 1 < n → n < d * d → HasNoneBelow d n → IsPrime n
rest-IsPrime d n h small none_below = record {
  big = h;
  only = λ k hk dk.
      let split : k * (n / k) ≡ n = Nat.mul-div_cancel' k dk in
      elim (cofactor_cases (n / k) k n (omega arith) split) [
        | inl same ↦ same
        | inr more ↦ absurd (
            omega (
              arith,
              split,
              Nat.mul-le-mul (none_below k hk dk)
                  (none_below (n / k) more (cofactor-dvd (n / k) k n split)),
            ))
      ];
}
