-- ===== src/Sieve/ModArith.antt =====
-- src/sieve.rs, `pow_mod` and `gcd`. A loop takes fuel: one unit for each round.
pub mod Power
pub mod Gcd
use prime_hunter.Common.{ℕ, zero, suc, ◌*◌, ◌/◌, ◌%◌, Outcome, ok, panic, ◌==◌, if◌then◌else◌}

-- `while exp > 0`. The products go through u128, so nothing is lost before the remainder.
pub pow_loop : ℕ → ℕ → ℕ → ℕ → ℕ → ℕ
pow_loop zero modulus result base exp = result
pow_loop (suc fuel) modulus result base exp =
    let rest =
      pow_loop fuel modulus (if exp % 2 == 1 then result * base % modulus else result)
        (base * base % modulus) (exp / 2) in
    if exp == 0 then result else rest

-- The 64 bits of `exp` bound the rounds; a remainder by zero panics.
unfoldable pub pow_mod : ℕ → ℕ → ℕ → Outcome ℕ
pow_mod base exp modulus =
    if modulus == 1
    then ok 0
    else if modulus == 0
    then panic
    else ok (pow_loop 64 modulus 1 (base % modulus) exp)

-- `while b != 0`.
pub gcd_loop : ℕ → ℕ → ℕ → ℕ
gcd_loop zero a b = a
gcd_loop (suc fuel) a b = let rest = gcd_loop fuel b (a % b) in if b == 0 then a else rest

-- Each round makes `b` smaller, so `b + 1` rounds are enough.
unfoldable pub gcd : ℕ → ℕ → ℕ
unfolding gcd_loop
gcd a b = gcd_loop (suc b) a b
