-- ===== src/Forms/GenFermat.antt =====
-- src/gen_fermat.rs, `is_pepin_provable` and `sieve_gf`.
pub mod Values
pub mod Exact
pub mod Pepin
use prime_hunter.Common.{
  ℕ, zero, suc, ◌+◌, ◌-◌, ◌*◌, ◌/◌, ◌%◌, ◌^◌, Bool, true, false, ◌||◌, List, replicate, ◌==◌, leb,
  ltb, if◌then◌else◌, Outcome, ok, ◌>>=◌, fits, sub_checked,
}
use prime_hunter.Sieve.Factor.{is_multiple_of}
use prime_hunter.Sieve.ModArith.{pow_mod}
use prime_hunter.Forms.Sweep.{sweep, for_each}

-- u64::trailing_zeros, of a number that is not 0; 64 rounds are enough.
pub zeros_loop : ℕ → ℕ → ℕ
zeros_loop zero b = 0
zeros_loop (suc fuel) b = let rest = zeros_loop fuel (b / 2) in if b % 2 == 0 then rest + 1 else 0

-- `b >> t` divides by a power of 2; `1 << t` fits, since t is at most 63.
unfoldable pub is_pepin_provable : ℕ → Bool
is_pepin_provable b =
    let t = zeros_loop 64 b in
    let m = b / 2 ^ t in if (b == 0) || (b % 2 == 1) then false else ltb m (2 ^ t)

-- One round of the inner loop, at the index i.
unfoldable pub gf_step : ℕ → ℕ → ℕ → ℕ → ℕ → Unit {0} → Bool → Outcome (Bool × Unit {0})
gf_step min_b sieve_min_b q exp i u survives_i = do
  double ← fits 64 (2 * i)
  b ← fits 64 (min_b + double)
  let test : Outcome (Bool × Unit {0}) = (do
    r ← pow_mod (b % q) exp q
    last ← sub_checked q 1
    ok ((if r == last then false else survives_i), u))
  if ltb b sieve_min_b
      then ok (survives_i, u)
      else if is_multiple_of b q
      then ok (survives_i, u)
      else test

unfoldable pub mark_gf : ℕ → ℕ → ℕ → ℕ → List Bool → Outcome (List Bool)
mark_gf min_b fermat_n sieve_min_b q survives =
    let pass : Outcome (List Bool) = (do
      order ← sub_checked q 1
      exp ← pow_mod 2 fermat_n order
      sweep (gf_step min_b sieve_min_b q exp) 0 tt survives) in
    if q == 2 then ok survives else pass

unfoldable pub sieve_gf : ℕ → ℕ → ℕ → List ℕ → ℕ → Outcome (List Bool)
sieve_gf min_b max_b fermat_n sieve_primes sieve_min_b = do
  span ← sub_checked max_b min_b
  range ← fits 64 (span / 2 + 1)
  for_each (mark_gf min_b fermat_n sieve_min_b) sieve_primes (replicate range true)
