-- ===== src/Forms/CullenWoodall.antt =====
-- src/cullen_woodall.rs, `sieve_cullen_woodall`: the two vectors stand side by side in one list.
pub mod Exact
use prime_hunter.Common.{
  ℕ, ◌+◌, ◌-◌, ◌*◌, ◌%◌, Bool, true, false, ◌&&◌, List, replicate, ◌==◌, leb, if◌then◌else◌,
  Outcome, ok, ◌>>=◌, fits, sub_checked,
}
use prime_hunter.Sieve.ModArith.{pow_mod}
use prime_hunter.Forms.Sweep.{sweep, for_each, strike}

-- One round for n: g is 2 ^ n and f is n * 2 ^ n, modulo p.
unfoldable pub cullen_woodall_step :
    ℕ → ℕ → ℕ → ℕ × ℕ → Bool × Bool → Outcome ((Bool × Bool) × (ℕ × ℕ))
cullen_woodall_step p sieve_min_n n (g, f) (cullen, woodall) = do
  let test = leb sieve_min_n n
  two_g ← fits 64 (2 * g)
  two_f ← fits 64 (2 * f)
  sum ← fits 64 (two_f + two_g % p)
  ok (
    (strike (test && (f == p - 1)) cullen, strike (test && (f == 1)) woodall),
    (two_g % p, sum % p),
  )

unfoldable pub mark_cullen_woodall : ℕ → ℕ → ℕ → List (Bool × Bool) → Outcome (List (Bool × Bool))
mark_cullen_woodall min_n sieve_min_n p survives =
    let pass : Outcome (List (Bool × Bool)) = (do
      g ← pow_mod 2 min_n p
      product ← fits 64 (min_n % p * g)
      sweep (cullen_woodall_step p sieve_min_n) min_n (g, product % p) survives) in
    if p == 2 then ok survives else pass

unfoldable pub sieve_cullen_woodall : ℕ → ℕ → List ℕ → ℕ → Outcome (List (Bool × Bool))
sieve_cullen_woodall min_n max_n sieve_primes sieve_min_n = do
  span ← sub_checked max_n min_n
  range ← fits 64 (span + 1)
  for_each (mark_cullen_woodall min_n sieve_min_n) sieve_primes (replicate range (true, true))
