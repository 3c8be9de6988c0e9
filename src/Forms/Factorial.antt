-- ===== src/Forms/Factorial.antt =====
-- src/factorial.rs, `FactorialSieve`.
pub mod Exact
pub mod Safe
use prime_hunter.Common.{
  ℕ, zero, suc, ◌+◌, ◌-◌, ◌*◌, ◌%◌, ◌^◌, Bool, false, List, [], ◌∷◌, length, ◌==◌, ltb, leb,
  if◌then◌else◌, Outcome, ok, panic, ◌>>=◌, fits,
}
use prime_hunter.Forms.Incremental.{update_all, retain_nonzero, retain_mut, check_loop}

-- `for i in 2..=initial_n`: `count` numbers from i on.
pub residue : ℕ → ℕ → ℕ → ℕ → Outcome ℕ
residue p zero i fm = ok fm
residue p (suc count) i fm = do
  x ← (if p == 0 then panic else fits 64 (fm * (i % p)))
  residue p count (i + 1) (x % p)

unfoldable pub new : List ℕ → ℕ → Outcome (List (ℕ × ℕ))
new [] initial_n = ok []
new (p ∷ ps) initial_n =
    let rest = new ps initial_n in
    let entry : Outcome (List (ℕ × ℕ)) = (do
      fm ← residue p (initial_n - 1) 2 1
      es ← rest
      ok ((p, fm) ∷ es)) in
    if ltb initial_n p then entry else rest

unfoldable pub advance : List (ℕ × ℕ) → ℕ → Outcome (List (ℕ × ℕ))
advance entries n =
    let parallel : Outcome (List (ℕ × ℕ)) = (do
      updated ← update_all n entries
      ok (retain_nonzero updated)) in
    if ltb 10000 (length entries) then parallel else retain_mut n entries

unfoldable pub check_composites : List (ℕ × ℕ) → Outcome (Bool × Bool)
check_composites entries = check_loop false false entries

-- u128::saturating_mul.
abbrev pub saturating_mul : ℕ → ℕ → ℕ
saturating_mul a b = if ltb (a * b) (2 ^ 128) then a * b else 2 ^ 128 - 1

-- `while fact <= sieve_limit`.
pub threshold_loop : ℕ → ℕ → ℕ → ℕ → Outcome ℕ
threshold_loop zero sieve_limit fact i = panic
threshold_loop (suc fuel) sieve_limit fact i =
    let rest = threshold_loop fuel sieve_limit (saturating_mul fact i) (i + 1) in
    if leb fact sieve_limit then rest else ok (i - 1)

-- The product at least doubles in each round and the limit has 64 bits, so 65 rounds are enough.
unfoldable pub sieve_min_n : ℕ → Outcome ℕ
sieve_min_n sieve_limit = threshold_loop 65 sieve_limit 1 2

-- What `search` takes the sieve's word for, at n.
unfoldable pub sieve_composites : ℕ → List (ℕ × ℕ) → ℕ → Outcome (Bool × Bool)
sieve_composites min_n entries n =
    if leb min_n n then check_composites entries else ok (false, false)
