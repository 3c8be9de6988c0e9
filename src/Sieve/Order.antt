-- ===== src/Sieve/Order.antt =====
-- src/sieve.rs, `mod_inverse` and `multiplicative_order`.
pub mod Inverse
pub mod Smallest
pub mod Loop
pub mod Prime
use prime_hunter.Common.{
  ℕ, zero, suc, ◌-◌, ◌/◌, ◌%◌, Bool, Option, none, some, List, [], ◌∷◌, Outcome, ok, panic, ◌>>=◌,
  ◌>>◌, sub_checked, ◌==◌, ltb, if◌then◌else◌,
}
use prime_hunter.Sieve.ModArith.{pow_mod}
use prime_hunter.Sieve.Montgomery.{new, to_mont, from_mont, mont_pow_mod, one}
use prime_hunter.Sieve.Factor.{is_multiple_of, factor_u64}

-- a ^ (p - 2) mod p; through Montgomery form above 2.
unfoldable pub mod_inverse : ℕ → ℕ → Outcome (Option ℕ)
mod_inverse a p =
    let montgomery : Outcome (Option ℕ) = (do
      ctx ← new p
      a_mont ← to_mont ctx a
      inv_mont ← mont_pow_mod ctx a_mont (p - 2)
      x ← from_mont ctx inv_mont
      ok (some x)) in
    let plain : Outcome (Option ℕ) = (do e ← sub_checked p 2; x ← pow_mod a e p; ok (some x)) in
    if is_multiple_of a p then ok none else if ltb 2 p then montgomery else plain

-- `while order.is_multiple_of(q) && …(order / q) == 1`; `is_one` is the second test.
-- An order of 64 bits is divided by `q` fewer than 64 times.
pub divide_out : ℕ → (ℕ → Outcome Bool) → ℕ → ℕ → Outcome ℕ
divide_out zero is_one q order = ok order
divide_out (suc fuel) is_one q order =
    let more : Outcome ℕ = (do
      hit ← is_one (order / q)
      let rest = divide_out fuel is_one q (order / q)
      if hit then rest else ok order) in
    if is_multiple_of order q then more else ok order

-- `for (q, _) in factors`.
pub divide_all : (ℕ → Outcome Bool) → List (ℕ × ℕ) → ℕ → Outcome ℕ
divide_all is_one [] order = ok order
divide_all is_one ((q, e) ∷ fs) order = divide_out 64 is_one q order >>= divide_all is_one fs

unfoldable pub multiplicative_order : ℕ → ℕ → Outcome ℕ
multiplicative_order base p = do
  order ← sub_checked p 1
  factors ← factor_u64 order
  let montgomery : Outcome ℕ = (do
    ctx ← new p
    base_mont ← to_mont ctx (base % p)
    divide_all (λ e. do x ← mont_pow_mod ctx base_mont e; ok (x == one ctx)) factors order)
  let plain : Outcome ℕ = divide_all (λ e. do x ← pow_mod base e p; ok (x == 1)) factors order
  if ltb 2 p then montgomery else plain
