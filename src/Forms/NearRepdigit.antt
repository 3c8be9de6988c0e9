-- ===== src/Forms/NearRepdigit.antt =====
-- src/near_repdigit.rs: the parameters, `build_candidate`, `candidate_mod_p` and `sieve_filter`.
pub mod Remainder
pub mod Filter
use prime_hunter.Common.{
  ℕ, ◌+◌, ◌-◌, ◌*◌, ◌%◌, ◌^◌, Bool, true, false, List, [], ◌∷◌, ◌==◌, leb, ltb, if◌then◌else◌,
  Outcome, ok, panic, ◌>>=◌, fits, sub_checked,
}
use prime_hunter.Common.Int.{ℤ, difference}
use prime_hunter.Limits.{checked_u32}
use prime_hunter.Sieve.ModArith.{pow_mod}

-- `2 * d` is computed in u32.
unfoldable pub is_valid_params : ℕ → ℕ → ℕ → Outcome Bool
is_valid_params k d m =
    let middle : Outcome Bool = (do
      double ← fits 32 (2 * d)
      ok (if ltb 9 double then false else true)) in
    if ltb k m then ok false else if m == 0 then middle else ok true

unfoldable pub build_candidate : ℕ → ℕ → ℕ → Outcome ℤ
build_candidate k d m = do
  twice ← fits 64 (2 * k)
  digit_count ← fits 64 (twice + 1)
  e ← checked_u32 digit_count
  let middle : Outcome ℤ = (do
    double ← fits 32 (2 * d)
    low ← checked_u32 k
    ok (difference (10 ^ e - 1) (double * 10 ^ low)))
  let pair : Outcome ℤ = (do
    above ← fits 64 (k + m)
    high ← checked_u32 above
    below ← sub_checked k m
    low ← checked_u32 below
    ok (difference (10 ^ e - 1) (d * (10 ^ high + 10 ^ low))))
  if m == 0 then middle else pair

-- What `candidate_mod_p` subtracts, modulo p.
unfoldable pub subtrahend_mod_p : ℕ → ℕ → ℕ → ℕ → Outcome ℕ
subtrahend_mod_p k d m p =
    let middle : Outcome ℕ = (do
      double ← fits 64 (2 * d)
      low ← pow_mod 10 k p
      x ← fits 64 (double % p * low)
      ok (x % p)) in
    let pair : Outcome ℕ = (do
      above ← fits 64 (k + m)
      high ← pow_mod 10 above p
      below ← sub_checked k m
      low ← pow_mod 10 below p
      sum ← fits 64 (high + low)
      x ← fits 64 (d % p * (sum % p))
      ok (x % p)) in
    if m == 0 then middle else pair

unfoldable pub candidate_mod_p : ℕ → ℕ → ℕ → ℕ → Outcome ℕ
candidate_mod_p k d m p = do
  twice ← fits 64 (2 * k)
  digit_count ← fits 64 (twice + 1)
  a ← pow_mod 10 digit_count p
  b ← subtrahend_mod_p k d m p
  sum ← fits 64 (a + p)
  less ← sub_checked sum 1
  raised ← fits 64 (less % p + p)
  rest ← sub_checked raised b
  ok (rest % p)

-- `for &p in sieve_primes`, up to max_safe_prime.
pub filter_loop : ℕ → ℕ → ℕ → ℕ → List ℕ → Outcome Bool
filter_loop max_safe_prime k d m [] = ok false
filter_loop max_safe_prime k d m (p ∷ ps) =
    let rest = filter_loop max_safe_prime k d m ps in
    let test : Outcome Bool = (do r ← candidate_mod_p k d m p; if r == 0 then ok true else rest) in
    if leb max_safe_prime p then ok false else test

unfoldable pub sieve_filter : ℕ → ℕ → ℕ → List ℕ → Outcome Bool
sieve_filter k d m sieve_primes = do
  twice ← fits 64 (2 * k)
  digit_count ← fits 64 (twice + 1)
  max_safe_prime ←
      (if ltb 18 digit_count then ok (2 ^ 64 - 1) else fits 64 (10 ^ (digit_count - 1)))
  filter_loop max_safe_prime k d m sieve_primes
