-- ===== src/Forms/CarolKynea/Values.antt =====
-- The Carol and the Kynea numbers.
use native.Mathlib.Nat
use prime_hunter.Common.{
  ℕ, zero, suc, ◌+◌, ◌-◌, ◌*◌, ◌%◌, ◌^◌, ◌<◌, ◌≤◌, Bool, false, ◌==◌, ◌≡◌, refl, sym, ap, ◌∙◌,
  Bool-cases, ==_iff, inl, inr, arith,
}
use prime_hunter.Common.Mod.{mul-mod_left, mul-mod_right, pow_square}

-- The Carol and the Kynea number of n.
abbrev pub carol : ℕ → ℕ
carol n = (2 ^ n - 1) * (2 ^ n - 1) - 2

abbrev pub kynea : ℕ → ℕ
kynea n = (2 ^ n + 1) * (2 ^ n + 1) - 2

abbrev pub divides_carol : ℕ → ℕ → Bool
divides_carol q n = carol n % q == 0

abbrev pub divides_kynea : ℕ → ℕ → Bool
divides_kynea q n = kynea n % q == 0

square_below : (x : ℕ) → 0 < x → (x - 1) * (x - 1) - 2 ≡ x * x - (2 * x + 1)
square_below zero h = absurd (omega arith)
square_below (suc y) h = grind arith

square_above : (x : ℕ) → (x + 1) * (x + 1) - 2 ≡ x * x + 2 * x - 1
square_above x = grind arith

power_four : (n : ℕ) → 4 ^ n ≡ 2 ^ n * 2 ^ n
power_four n = pow_square 2 n

pub large : (n : ℕ) → 2 ≤ n → 4 ≤ 2 ^ n
large zero h = absurd (omega arith)
large (suc zero) h = absurd (omega arith)
large (suc (suc m)) h =
    omega (arith, Nat.pow-suc 2 (suc m), Nat.pow-suc 2 m, Nat.one-le-pow m 2 (omega arith))

pub carol_form : (n : ℕ) → carol n ≡ 4 ^ n - (2 * 2 ^ n + 1)
carol_form n =
    square_below (2 ^ n) (Nat.one-le-pow n 2 (omega arith))
    ∙ ap (λ (t : ℕ). t - (2 * 2 ^ n + 1)) (sym (power_four n))

pub kynea_form : (n : ℕ) → kynea n ≡ 4 ^ n + 2 * 2 ^ n - 1
kynea_form n = square_above (2 ^ n) ∙ ap (λ (t : ℕ). t + 2 * 2 ^ n - 1) (sym (power_four n))

pub carol_room : (n : ℕ) → 2 ≤ n → 2 * 2 ^ n + 1 ≤ 4 ^ n
carol_room n h = rw (power_four n) (grind (arith, large n h))

small_square : (r : ℕ) → r < 3 → r * r % 3 < 2
small_square zero h = omega arith
small_square (suc zero) h = omega arith
small_square (suc (suc zero)) h = omega arith
small_square (suc (suc (suc r))) h = absurd (omega arith)

-- A square minus 2 is no multiple of 3.
no_three : (y : ℕ) → 2 ≤ y * y → ((y * y - 2) % 3 == 0) ≡ false
no_three y h =
    let square : y * y % 3 ≡ y % 3 * (y % 3) % 3 =
      sym (mul-mod_left 3 y (y % 3) ∙ mul-mod_right 3 y y) in
    ground (arith, square, small_square (y % 3) (Nat.mod-lt y {m = 3} (omega arith)), h)

-- An odd square minus 2 is odd.
no_two : (y : ℕ) → y % 2 ≡ 1 → 2 ≤ y * y → ((y * y - 2) % 2 == 0) ≡ false
no_two y odd h =
    let square : y * y % 2 ≡ y % 2 * (y % 2) % 2 =
      sym (mul-mod_left 2 y (y % 2) ∙ mul-mod_right 2 y y) in
    let one : y % 2 * (y % 2) % 2 ≡ 1 = rw odd refl in ground (arith, square, one, h)

pub no_small : (q y : ℕ) → 1 < q → q ≤ 3 → y % 2 ≡ 1 → 2 ≤ y * y → ((y * y - 2) % q == 0) ≡ false
no_small q y big small odd h = elim (Bool-cases (q == 2)) [
  | inl two ↦ rw ((==_iff q 2).0 two) (no_two y odd h)
  | inr other ↦ let three : q ≡ 3 = ground (arith, other, big, small) in rw three (no_three y h)
]

pub even_power : (n : ℕ) → 2 ≤ n → 2 ^ n % 2 ≡ 0
even_power zero h = absurd (omega arith)
even_power (suc m) h = omega (arith, Nat.pow-suc 2 m)
