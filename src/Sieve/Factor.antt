-- ===== src/Sieve/Factor.antt =====
-- src/sieve.rs, `factor_u64`: trial division into (prime, exponent) pairs.
pub mod Correct
pub mod Euclid
use prime_hunter.Common.{
  ℕ, zero, suc, ◌+◌, ◌*◌, ◌/◌, ◌%◌, Bool, List, [], ◌∷◌, ◌++◌, Outcome, ok, panic, ◌>>=◌, fits,
  ◌==◌, leb, ltb, if◌then◌else◌,
}

-- u64::is_multiple_of: only 0 is a multiple of 0, and `n % 0` is `n` on these numbers.
abbrev pub is_multiple_of : ℕ → ℕ → Bool
is_multiple_of n d = n % d == 0

-- `while n.is_multiple_of(d)`: what is left of `n`, and the exponent.
pub strip : ℕ → ℕ → ℕ → ℕ → ℕ × ℕ
strip zero d n exp = (n, exp)
strip (suc fuel) d n exp =
    let rest = strip fuel d (n / d) (exp + 1) in if is_multiple_of n d then rest else (n, exp)

-- `while d * d <= n`, then the prime that may be left. The product `d * d` is checked.
-- A number below 2 ^ 64 has fewer than 64 prime factors, the fuel of `strip`.
pub factor_loop : ℕ → ℕ → ℕ → List (ℕ × ℕ) → Outcome (List (ℕ × ℕ))
factor_loop zero d n factors = panic
factor_loop (suc fuel) d n factors =
    let (n', exp) = strip 64 d n 0 in
    let divided = factor_loop fuel (d + 1) n' (factors ++ (d, exp) ∷ []) in
    let skipped = factor_loop fuel (d + 1) n factors in
    let done : Outcome (List (ℕ × ℕ)) = ok (if ltb 1 n then factors ++ (n, 1) ∷ [] else factors) in
    fits 64 (d * d) >>= λ square.
    if leb square n then (if is_multiple_of n d then divided else skipped) else done

-- `d` rises from 2 and never passes `n + 1`, so `n + 1` rounds are enough.
unfoldable pub factor_u64 : ℕ → Outcome (List (ℕ × ℕ))
factor_u64 n = factor_loop (suc n) 2 n []
