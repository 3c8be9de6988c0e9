-- ===== src/Forms/Kbn.antt =====
-- src/kbn.rs, `bsgs_sieve`: the exponents n for which a prime divides k * b ^ n + 1 or k * b ^ n - 1
-- form a progression, which starts at a discrete logarithm. The f64 root is `sqrt_ceil`.
pub mod Mark
pub mod Progression
pub mod Values
pub mod Exact
use prime_hunter.Common.{
  ℕ, zero, suc, ◌+◌, ◌-◌, ◌*◌, ◌/◌, ◌%◌, Bool, ◌||◌, Option, none, some, List, [], ◌∷◌, ◌==◌, leb,
  ltb, if◌then◌else◌, Outcome, ok, panic, ◌>>=◌, fits, sub_checked,
}
use prime_hunter.Sieve.BitSieve.{BitSieve, new_all_set, clear}
use prime_hunter.Sieve.Factor.{is_multiple_of}
use prime_hunter.Sieve.Order.{mod_inverse, multiplicative_order}
use prime_hunter.Sieve.DiscreteLog.{discrete_log_bsgs}

-- `while n <= max_n`; with an order above 0, n passes max_n in at most max_n + 1 rounds.
pub mark_loop : ℕ → ℕ → ℕ → ℕ → ℕ → ℕ → BitSieve → Outcome BitSieve
mark_loop zero min_n max_n sieve_min_n order n survives = panic
mark_loop (suc fuel) min_n max_n sieve_min_n order n survives =
    let more : Outcome BitSieve = (do
      left ← (if leb sieve_min_n n then (sub_checked n min_n >>= clear survives) else ok survives)
      next ← fits 64 (n + order)
      mark_loop fuel min_n max_n sieve_min_n order next left) in
    if leb n max_n then more else ok survives

-- The first member of the progression in the range; none stands for `continue`.
pub first_hit : ℕ → ℕ → ℕ → Outcome (Option ℕ)
first_hit n0 min_n order =
    let stepped : Outcome (Option ℕ) = (do
      rise ← fits 64 ((min_n - n0 + order - 1) / order * order)
      first ← fits 64 (n0 + rise)
      ok (some first)) in
    if leb min_n n0 then ok (some n0) else if order == 0 then ok none else stepped

pub mark_from : ℕ → ℕ → ℕ → ℕ → BitSieve → Option ℕ → Outcome (Option BitSieve)
mark_from min_n max_n sieve_min_n order survives none = ok none
mark_from min_n max_n sieve_min_n order survives (some first) = do
  marked ← mark_loop (max_n + 2) min_n max_n sieve_min_n order first survives
  ok (some marked)

-- `if let Some(n0)`.
pub mark_log : ℕ → ℕ → ℕ → ℕ → BitSieve → Option ℕ → Outcome (Option BitSieve)
mark_log min_n max_n sieve_min_n order survives none = ok (some survives)
mark_log min_n max_n sieve_min_n order survives (some n0) = do
  first ← first_hit n0 min_n order
  mark_from min_n max_n sieve_min_n order survives first

-- Either goes on with the marked sieve, or leaves the loop's body.
pub or_continue :
    (BitSieve × BitSieve)
    → Option BitSieve
    → (BitSieve → Outcome (BitSieve × BitSieve))
    → Outcome (BitSieve × BitSieve)
or_continue both none f = ok both
or_continue both (some marked) f = f marked

module _ (sqrt_ceil : ℕ → ℕ) (min_n max_n k base sieve_min_n : ℕ) where
  pub sieve_inverse : ℕ → BitSieve × BitSieve → Option ℕ → Outcome (BitSieve × BitSieve)
  sieve_inverse p (plus, minus) none = ok (plus, minus)
  sieve_inverse p (plus, minus) (some k_inv) = do
    order ← multiplicative_order base p
    neg_k_inv ← sub_checked p k_inv
    plus_log ← discrete_log_bsgs sqrt_ceil base neg_k_inv p order
    plus_marked ← mark_log min_n max_n sieve_min_n order plus plus_log
    or_continue (plus, minus) plus_marked
        λ plus'. do
          minus_log ← discrete_log_bsgs sqrt_ceil base k_inv p order
          minus_marked ← mark_log min_n max_n sieve_min_n order minus minus_log
          or_continue (plus', minus) minus_marked λ minus'. ok (plus', minus')

  unfoldable pub sieve_prime : ℕ → BitSieve × BitSieve → Outcome (BitSieve × BitSieve)
  sieve_prime p both =
      let marked : Outcome (BitSieve × BitSieve) = (mod_inverse k p >>= sieve_inverse p both) in
      if is_multiple_of base p || is_multiple_of k p then ok both else marked

  pub sieve_all : List ℕ → BitSieve × BitSieve → Outcome (BitSieve × BitSieve)
  sieve_all [] both = ok both
  sieve_all (p ∷ ps) both = sieve_prime p both >>= sieve_all ps

  unfoldable pub bsgs_sieve : List ℕ → Outcome (BitSieve × BitSieve)
  bsgs_sieve sieve_primes = do
    span ← sub_checked max_n min_n
    range ← fits 64 (span + 1)
    sieve_all sieve_primes (new_all_set range, new_all_set range)
