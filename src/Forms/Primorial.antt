-- ===== src/Forms/Primorial.antt =====
-- src/primorial.rs, `PrimorialSieve` and the threshold of `search`.
pub mod Exact
pub mod Safe
use prime_hunter.Common.{
  ℕ, zero, suc, ◌+◌, ◌-◌, ◌*◌, ◌%◌, Bool, false, List, [], ◌∷◌, Option, none, some, length,
  get_elem?, ◌==◌, ltb, leb, if◌then◌else◌, Outcome, ok, panic, ◌>>=◌, fits,
}
use prime_hunter.Forms.Incremental.{update_all, retain_nonzero, retain_mut, check_loop}
use prime_hunter.Forms.Factorial.{saturating_mul}

-- `&all_primes[..resume_idx]` and `all_primes[i]`, which panic out of range.
pub prefix : List ℕ → ℕ → Outcome (List ℕ)
prefix ps zero = ok []
prefix [] (suc n) = panic
prefix (p ∷ ps) (suc n) = do rest ← prefix ps n; ok (p ∷ rest)

pub index : List ℕ → ℕ → Outcome ℕ
index [] n = panic
index (p ∷ ps) zero = ok p
index (p ∷ ps) (suc n) = index ps n

-- `for &p in &all_primes[..resume_idx]`.
pub residue : ℕ → List ℕ → ℕ → Outcome ℕ
residue q [] pm = ok pm
residue q (p ∷ ps) pm = do
  x ← (if q == 0 then panic else fits 64 (pm * (p % q)))
  residue q ps (x % q)

pub entries : List ℕ → ℕ → List ℕ → Outcome (List (ℕ × ℕ))
entries [] max_included included = ok []
entries (q ∷ qs) max_included included =
    let rest = entries qs max_included included in
    let entry : Outcome (List (ℕ × ℕ)) = (do
      pm ← residue q included 1
      es ← rest
      ok ((q, pm) ∷ es)) in
    if ltb max_included q then entry else rest

unfoldable pub new : List ℕ → List ℕ → ℕ → Outcome (List (ℕ × ℕ))
new sieve_primes all_primes resume_idx = do
  max_included ← (if ltb 0 resume_idx then index all_primes (resume_idx - 1) else ok 0)
  included ← prefix all_primes resume_idx
  entries sieve_primes max_included included

unfoldable pub advance : List (ℕ × ℕ) → ℕ → Outcome (List (ℕ × ℕ))
advance entries p =
    let parallel : Outcome (List (ℕ × ℕ)) = (do
      updated ← update_all p entries
      ok (retain_nonzero updated)) in
    if ltb 10000 (length entries) then parallel else retain_mut p entries

unfoldable pub check_composites : List (ℕ × ℕ) → Outcome (Bool × Bool)
check_composites entries = check_loop false false entries

-- `for &p in &all_primes`, until the product passes the limit.
pub min_prime_loop : ℕ → ℕ → List ℕ → ℕ
min_prime_loop sieve_limit prod [] = 2
min_prime_loop sieve_limit prod (p ∷ ps) =
    let next = saturating_mul prod p in
    let rest = min_prime_loop sieve_limit next ps in if ltb sieve_limit next then p else rest

unfoldable pub sieve_min_prime : ℕ → List ℕ → ℕ
sieve_min_prime sieve_limit all_primes = min_prime_loop sieve_limit 1 all_primes

-- What `search` takes the sieve's word for, at p.
unfoldable pub sieve_composites : ℕ → List (ℕ × ℕ) → ℕ → Outcome (Bool × Bool)
sieve_composites min_prime entries p =
    if leb min_prime p then check_composites entries else ok (false, false)
