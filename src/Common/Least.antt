-- ===== src/Common/Least.antt =====
-- The least number that passes a test, and the least divisor above 1, which is prime.
use Prim.Native.Nat.{ℕ, zero, suc, ◌%◌, ◌≤◌, ◌<◌, ◌∣◌}
use mathlib.Core.Path.{◌≡◌}
use mathlib.Core.Bool.{Bool, true, false, ◌&&◌}
use mathlib.Core.Logic.{◌⊎◌, inl, inr}
use native.Mathlib.Nat
use native.Mathlib.Omega.{arith}
use prime_hunter.Common.Tests.{ltb, ◌==◌, Bool-cases, ==_iff, ltb→lt, ltb→le}
use prime_hunter.Common.Prime.{IsPrime, least_divisor-IsPrime}

abbrev pub IsLeast : (ℕ → Bool) → ℕ → Type 0
IsLeast test m = (test m ≡ true) × ((j : ℕ) → j < m → test j ≡ false)

search_below :
    (test : ℕ → Bool) (n : ℕ)
    → ((m : ℕ) × IsLeast test m × (m < n)) ⊎ ((j : ℕ) → j < n → test j ≡ false)
search_below test zero = inr (λ j h. absurd (omega arith))
search_below test (suc n) = elim (search_below test n) [
  | inl found ↦ inl (found.0, found.1, omega (arith, found.2))
  | inr none_yet ↦ elim (Bool-cases (test n)) [
    | inl here ↦ inl (n, (here, none_yet), omega arith)
    | inr not_here ↦ inr (λ j h. extend j h not_here none_yet)
  ]
]
  where
    extend :
        (j : ℕ) → j < suc n → test n ≡ false → ((i : ℕ) → i < n → test i ≡ false) → test j ≡ false
    extend j h last before = elim (Bool-cases (j == n)) [
      | inl same ↦ rw ((==_iff j n).0 same) last
      | inr other ↦ before j (ground (arith, other))
    ]

pub least : (test : ℕ → Bool) (n : ℕ) → test n ≡ true → (m : ℕ) × IsLeast test m × (m ≤ n)
least test n h = elim (search_below test (suc n)) [
  | inl found ↦ (found.0, found.1, omega (arith, found.2))
  | inr none_at_all ↦ absurd (ground (arith, h, none_at_all n (omega arith)))
]

-- `k` is a divisor of `n` above 1.
abbrev divides_above_one : ℕ → ℕ → Bool
divides_above_one n k = ltb 1 k && (n % k == 0)

passes : (n k : ℕ) → 1 < k → k ∣ n → divides_above_one n k ≡ true
passes n k h div = ground (arith, Nat.mod-eq-zero_of_dvd k div)

-- Every number above 1 has a prime divisor.
pub IsPrime-divisor : (n : ℕ) → 1 < n → (q : ℕ) × IsPrime q × (q ∣ n)
IsPrime-divisor n h =
    let (m, (here, before), le) = least (divides_above_one n) n (passes n n h (Nat.dvd_refl n)) in
    let zero_rest : n % m ≡ 0 = ground (arith, here) in
    let div : m ∣ n = Nat.dvd_of_mod-eq-zero m zero_rest in
    (
      m,
      least_divisor-IsPrime m n (ground (arith, here)) div (λ k hk dk. above k m hk dk before),
      div,
    )
  where
    above : (k m : ℕ) → 1 < k → k ∣ n → ((j : ℕ) → j < m → divides_above_one n j ≡ false) → m ≤ k
    above k m hk dk before = elim (Bool-cases (ltb k m)) [
      | inl less ↦ absurd (ground (arith, before k (ltb→lt k m less), passes n k hk dk))
      | inr more ↦ ltb→le k m more
    ]
