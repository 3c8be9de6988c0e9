-- ===== src/Sieve/Montgomery.antt =====
-- src/sieve.rs, `MontgomeryCtx`: arithmetic modulo an odd `n` in the form `a * 2 ^ 64 % n`.
-- A u64 wraps by `% 2 ^ 64` where the source says `wrapping_`; a u128 sum that does not fit panics.
pub mod Inverse
pub mod Reduce
pub mod Form
pub mod RoundTrip
use prime_hunter.Common.{
  ℕ, zero, suc, ◌+◌, ◌-◌, ◌*◌, ◌/◌, ◌%◌, ◌^◌, Bool, Option, none, some, Outcome, ok, panic, ◌>>=◌,
  ◌>>◌, assert, fits, ◌&&◌, ◌==◌, ltb, leb, if◌then◌else◌,
}

-- R = 2 ^ 64.
abbrev pub radix : ℕ
radix = 2 ^ 64

pub record MontgomeryCtx : Type 0 where
  pub n : ℕ
  pub n_prime : ℕ
  pub r_mod_n : ℕ
  pub r2_mod_n : ℕ

-- inv * (2 - n * inv), each operation wrapping.
unfoldable pub hensel : ℕ → ℕ → ℕ
hensel n inv = inv * ((2 + radix - n * inv % radix) % radix) % radix

-- `for _ in 0..6`.
unfoldable pub hensel_loop : ℕ → ℕ → ℕ → ℕ
hensel_loop zero n inv = inv
hensel_loop (suc rounds) n inv = hensel_loop rounds n (hensel n inv)

unfoldable pub new_ctx : ℕ → MontgomeryCtx
new_ctx n =
    let inv = hensel_loop 6 n 1 in
    let r_mod_n = radix % n in
    record {
      n = n;
      n_prime = (radix - inv) % radix;
      r_mod_n = r_mod_n;
      r2_mod_n = r_mod_n * r_mod_n % n;
    }

-- `debug_assert!`, then the context.
unfoldable pub new : ℕ → Outcome MontgomeryCtx
new n = do assert (ltb 1 n && (n % 2 == 1)); ok (new_ctx n)

-- REDC. `m * n` fits in 128 bits; the sum with `t` may not.
unfoldable pub reduce : MontgomeryCtx → ℕ → Outcome ℕ
reduce ctx t = do
  let m = t % radix * ctx.n_prime % radix
  u ← fits 128 (t + m * ctx.n)
  let result = u / radix % radix
  ok (if leb ctx.n result then result - ctx.n else result)

unfoldable pub mul : MontgomeryCtx → ℕ → ℕ → Outcome ℕ
mul ctx a b = reduce ctx (a * b)

unfoldable pub sqr : MontgomeryCtx → ℕ → Outcome ℕ
sqr ctx a = mul ctx a a

unfoldable pub to_mont : MontgomeryCtx → ℕ → Outcome ℕ
to_mont ctx a = mul ctx (a % ctx.n) ctx.r2_mod_n

unfoldable pub from_mont : MontgomeryCtx → ℕ → Outcome ℕ
from_mont ctx a = reduce ctx a

unfoldable pub one : MontgomeryCtx → ℕ
one ctx = ctx.r_mod_n

-- `while exp > 0`; the last square is skipped.
pub mont_pow_loop : ℕ → MontgomeryCtx → ℕ → ℕ → ℕ → Outcome ℕ
mont_pow_loop zero ctx result b exp = ok result
mont_pow_loop (suc fuel) ctx result b exp =
    let round : Outcome ℕ = (do
      result' ← (if exp % 2 == 1 then mul ctx result b else ok result)
      b' ← (if ltb 0 (exp / 2) then sqr ctx b else ok b)
      mont_pow_loop fuel ctx result' b' (exp / 2)) in
    if exp == 0 then ok result else round

unfoldable pub mont_pow_mod : MontgomeryCtx → ℕ → ℕ → Outcome ℕ
mont_pow_mod ctx base exp = mont_pow_loop 64 ctx ctx.r_mod_n base exp

-- Fermat's inverse; `None` at 0.
unfoldable pub mont_inverse : MontgomeryCtx → ℕ → Outcome (Option ℕ)
mont_inverse ctx a_mont =
    if a_mont == 0 then ok none else do x ← mont_pow_mod ctx a_mont (ctx.n - 2); ok (some x)
