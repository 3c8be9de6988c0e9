-- ===== src/Forms/CarolKynea.antt =====
-- src/carol_kynea.rs, `sieve_carol_kynea`: the two vectors stand side by side in one list.
pub mod Values
pub mod Exact
use prime_hunter.Common.{
  ℕ, ◌+◌, ◌-◌, ◌*◌, ◌%◌, Bool, true, ◌&&◌, List, replicate, ◌==◌, leb, if◌then◌else◌, Outcome, ok,
  ◌>>=◌, fits, sub_checked,
}
use prime_hunter.Sieve.ModArith.{pow_mod}
use prime_hunter.Forms.Sweep.{sweep, for_each, strike}

-- One round for n: g2 is 2 ^ n and g4 is 4 ^ n, modulo q. The sums are computed where n is tested.
unfoldable pub carol_kynea_step :
    ℕ → ℕ → ℕ → ℕ × ℕ → Bool × Bool → Outcome ((Bool × Bool) × (ℕ × ℕ))
carol_kynea_step q sieve_min_n n (g2, g4) (carol, kynea) = do
  let test = leb sieve_min_n n
  double ← fits 64 (2 * g2)
  let two_g2 = double % q
  next ← fits 64 (two_g2 + 1)
  sum ← fits 64 (g4 + two_g2)
  quadruple ← fits 64 (4 * g4)
  ok (
    (strike (test && (g4 == next % q)) carol, strike (test && (sum % q == 1)) kynea),
    (double % q, quadruple % q),
  )

unfoldable pub mark_carol_kynea : ℕ → ℕ → ℕ → List (Bool × Bool) → Outcome (List (Bool × Bool))
mark_carol_kynea min_n sieve_min_n q survives =
    let pass : Outcome (List (Bool × Bool)) = (do
      g2 ← pow_mod 2 min_n q
      g4 ← pow_mod 4 min_n q
      sweep (carol_kynea_step q sieve_min_n) min_n (g2, g4) survives) in
    if leb q 3 then ok survives else pass

unfoldable pub sieve_carol_kynea : ℕ → ℕ → List ℕ → ℕ → Outcome (List (Bool × Bool))
sieve_carol_kynea min_n max_n sieve_primes sieve_min_n = do
  span ← sub_checked max_n min_n
  range ← fits 64 (span + 1)
  for_each (mark_carol_kynea min_n sieve_min_n) sieve_primes (replicate range (true, true))
