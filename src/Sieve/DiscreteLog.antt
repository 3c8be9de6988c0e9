-- ===== src/Sieve/DiscreteLog.antt =====
-- src/sieve.rs, `discrete_log_bsgs`: baby steps into a table, then giant steps. The root that the
-- source takes in f64 is the parameter `sqrt_ceil`.
pub mod Steps
pub mod Exact
use prime_hunter.Common.{
  ℕ, zero, suc, ◌+◌, ◌*◌, ◌%◌, Option, none, some, List, [], ◌∷◌, ◌==◌, ltb, if◌then◌else◌, Outcome,
  ok, panic, ◌>>=◌, fits,
}
use prime_hunter.Sieve.ModArith.{pow_mod}
use prime_hunter.Sieve.Montgomery.{
  MontgomeryCtx, new, to_mont, one, mul, mont_pow_mod, mont_inverse,
}
use prime_hunter.Sieve.Order.{mod_inverse}

-- The table, a HashMap, with its newest entry first: `insert` and `get`.
pub lookup : List (ℕ × ℕ) → ℕ → Option ℕ
lookup [] key = none
lookup ((k, j) ∷ es) key = let rest = lookup es key in if k == key then some j else rest

-- `for j in 0..m`: `count` steps from j on.
pub baby_steps : (ℕ → Outcome ℕ) → ℕ → ℕ → ℕ → List (ℕ × ℕ) → Outcome (List (ℕ × ℕ))
baby_steps next zero j power table = ok table
baby_steps next (suc count) j power table = do
  power' ← next power
  baby_steps next count (j + 1) power' ((power, j) ∷ table)

-- What a round does with the entry it finds, or goes on.
pub try_entry : ℕ → ℕ → ℕ → Outcome (Option ℕ) → Option ℕ → Outcome (Option ℕ)
try_entry m order i further none = further
try_entry m order i further (some j) = do
  whole ← fits 64 (i * m)
  x ← fits 64 (whole + j)
  if ltb x order then ok (some x) else further

-- `for i in 0..=m`: `count` steps from i on.
pub giant_steps : (ℕ → Outcome ℕ) → List (ℕ × ℕ) → ℕ → ℕ → ℕ → ℕ → ℕ → Outcome (Option ℕ)
giant_steps next table m order zero i gamma = ok none
giant_steps next table m order (suc count) i gamma =
    try_entry m order i
      (next gamma >>= λ gamma'. giant_steps next table m order count (i + 1) gamma')
      (lookup table gamma)

-- `?` on the inverse.
pub with_inverse : Option ℕ → (ℕ → Outcome (Option ℕ)) → Outcome (Option ℕ)
with_inverse none f = ok none
with_inverse (some inv) f = f inv

pub log_montgomery : ℕ → ℕ → ℕ → ℕ → ℕ → Outcome (Option ℕ)
log_montgomery m base target p order = do
  ctx ← new p
  base_mont ← to_mont ctx (base % p)
  target_mont ← to_mont ctx (target % p)
  table ← baby_steps (λ power. mul ctx power base_mont) m 0 (one ctx) []
  found ← mont_inverse ctx base_mont
  with_inverse found λ base_inv_mont. do
    giant_step ← mont_pow_mod ctx base_inv_mont m
    giant_steps (λ gamma. mul ctx gamma giant_step) table m order (m + 1) 0 target_mont

-- The products go through u128.
pub log_plain : ℕ → ℕ → ℕ → ℕ → ℕ → Outcome (Option ℕ)
log_plain m base target p order = do
  let times : ℕ → ℕ → Outcome ℕ = λ x y. if p == 0 then panic else ok (x * y % p)
  table ← baby_steps (λ power. times power base) m 0 1 []
  found ← mod_inverse base p
  with_inverse found λ base_inv. do
    giant_step ← pow_mod base_inv m p
    giant_steps (λ gamma. times gamma giant_step) table m order (m + 1) 0 target

unfoldable pub discrete_log_bsgs : (ℕ → ℕ) → ℕ → ℕ → ℕ → ℕ → Outcome (Option ℕ)
discrete_log_bsgs sqrt_ceil base target p order =
    let m = sqrt_ceil order in
    if m == 0
    then ok none
    else if ltb 2 p
    then log_montgomery m base target p order
    else log_plain m base target p order
