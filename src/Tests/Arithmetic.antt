-- ===== src/Tests/Arithmetic.antt =====
-- src/sieve.rs, modular arithmetic at concrete numbers.
use native.Mathlib.Nat
use prime_hunter.Common.{
  ◌⊎◌, ◌≤◌, ℕ, ◌*◌, ◌%◌, ◌^◌, ◌<◌, ◌∣◌, ◌≡◌, refl, ◌↔◌, List, ok, ◌>>=◌, some, Option, zero, suc,
  arith,
}
use prime_hunter.Sieve.ModArith.{pow_mod, gcd}
use prime_hunter.Sieve.ModArith.Power.{pow_mod-eq-pow}
use prime_hunter.Sieve.ModArith.Gcd.{dvd-gcd}
use prime_hunter.Sieve.Montgomery.{new}
use prime_hunter.Sieve.Montgomery.RoundTrip.{
  product_in, power_in, mul-roundtrip, mont_pow_mod-roundtrip,
}
use prime_hunter.Sieve.Factor.{factor_u64}
use prime_hunter.Sieve.Factor.Correct.{product, AscendingPrimes, factor_u64_lem}
use prime_hunter.Sieve.Depth.{sieve_limit_default, resolve_sieve_limit, resolve_sieve_limit-bounds}
use prime_hunter.Sieve.DiscreteLog.{discrete_log_bsgs}
use prime_hunter.Sieve.DiscreteLog.Steps.{IsLog}
use prime_hunter.Sieve.DiscreteLog.Exact.{discrete_log_bsgs-IsLog}
use prime_hunter.Sieve.Order.{multiplicative_order, mod_inverse}
use prime_hunter.Sieve.Order.Smallest.{IsOrder}
use prime_hunter.Sieve.Order.Prime.{mod_inverse-prime, multiplicative_order-prime}
use prime_hunter.Tests.Primes.{seven-IsPrime}

mul-roundtrip_example : (new 101 >>= λ ctx. product_in ctx 77 88) ≡ ok (77 * 88 % 101)
mul-roundtrip_example = mul-roundtrip 101 77 88 (omega arith) (omega arith) refl

mont_pow_mod-roundtrip_example : (new 101 >>= λ ctx. power_in ctx 3 50) ≡ ok (3 ^ 50 % 101)
mont_pow_mod-roundtrip_example =
    mont_pow_mod-roundtrip 101 3 50 (omega arith) (omega arith) refl (omega arith)

pow_mod-eq-pow_example : pow_mod 7 20 13 ≡ ok (7 ^ 20 % 13)
pow_mod-eq-pow_example = pow_mod-eq-pow 7 20 13 (omega arith) (omega arith)

dvd-gcd_example : (4 ∣ gcd 12 20) ↔ ((4 ∣ 12) × (4 ∣ 20))
dvd-gcd_example = dvd-gcd 4 12 20

factor_u64_lem_example :
    (fs : List (ℕ × ℕ)) × (factor_u64 360 ≡ ok fs) × (product fs ≡ 360) × AscendingPrimes 2 fs
factor_u64_lem_example = factor_u64_lem 360 (omega arith) (omega arith)

resolve_sieve_limit-bounds_example :
    ((0 < 0) × (resolve_sieve_limit (λ bits. bits * bits) 0 5000 50 ≡ 0))
    ⊎ ((◌≡◌ {A = ℕ} 0 0)
        × (1000000 ≤ resolve_sieve_limit (λ bits. bits * bits) 0 5000 50)
        × (resolve_sieve_limit (λ bits. bits * bits) 0 5000 50 ≤ 1000000000)
        × ((100 ≤ 50)
            ⊎ (resolve_sieve_limit (λ bits. bits * bits) 0 5000 50 ≤ sieve_limit_default)))
resolve_sieve_limit-bounds_example = resolve_sieve_limit-bounds (λ bits. bits * bits) 0 5000 50

multiplicative_order-prime_example : (d : ℕ) × (multiplicative_order 2 7 ≡ ok d) × IsOrder 2 7 d
multiplicative_order-prime_example =
    multiplicative_order-prime 2 7 seven-IsPrime (omega arith) (omega arith)
      λ h. omega (arith, Nat.le_of_dvd (omega arith) h)

mod_inverse-prime_example : (x : ℕ) × (mod_inverse 3 7 ≡ ok (some x)) × (x < 7) × (x * 3 % 7 ≡ 1)
mod_inverse-prime_example =
    mod_inverse-prime 3 7 seven-IsPrime (omega arith) (omega arith)
      λ h. omega (arith, Nat.le_of_dvd (omega arith) h)

-- The order of 2 modulo 7, and the root of it.
IsOrder-three : IsOrder 2 7 3
IsOrder-three = record {
  positive = omega arith;
  unit = refl;
  smallest = λ e pos unit. at_least e pos unit;
}
  where
    at_least : (e : ℕ) → 0 < e → 2 ^ e % 7 ≡ 1 → 3 ≤ e
    at_least zero pos unit = absurd (omega arith)
    at_least (suc zero) pos unit = absurd (omega (arith, unit))
    at_least (suc (suc zero)) pos unit = absurd (omega (arith, unit))
    at_least (suc (suc (suc e))) pos unit = omega arith

discrete_log_bsgs-IsLog_example :
    (r : Option ℕ) × (discrete_log_bsgs (λ n. 2) 2 4 7 3 ≡ ok r) × IsLog 2 4 7 3 r
discrete_log_bsgs-IsLog_example =
    discrete_log_bsgs-IsLog (λ n. 2) 2 4 7 3 seven-IsPrime (omega arith) (omega arith)
      (λ h. omega (arith, Nat.le_of_dvd (omega arith) h)) IsOrder-three
      (record { enough = omega arith; least = omega arith })
