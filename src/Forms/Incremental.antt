-- ===== src/Forms/Incremental.antt =====
-- What `FactorialSieve` (src/factorial.rs) and `PrimorialSieve` (src/primorial.rs) share: a residue
-- for each prime, multiplied at each step.
pub mod Tracked
use prime_hunter.Common.{
  ℕ, ◌+◌, ◌-◌, ◌*◌, ◌%◌, Bool, true, false, not, ◌&&◌, List, [], ◌∷◌, length, ◌==◌, ltb,
  if◌then◌else◌, Outcome, ok, panic, ◌>>=◌, fits, sub_checked,
}

-- `*fm = *fm * (n % *p) % *p`.
unfoldable pub update_entry : ℕ → ℕ × ℕ → Outcome (ℕ × ℕ)
update_entry n (p, fm) = do x ← (if p == 0 then panic else fits 64 (fm * (n % p))); ok (p, x % p)

-- The parallel map, then `retain`.
pub update_all : ℕ → List (ℕ × ℕ) → Outcome (List (ℕ × ℕ))
update_all n [] = ok []
update_all n (e ∷ es) = do e' ← update_entry n e; rest ← update_all n es; ok (e' ∷ rest)

pub retain_nonzero : List (ℕ × ℕ) → List (ℕ × ℕ)
retain_nonzero [] = []
retain_nonzero (e ∷ es) = let rest = retain_nonzero es in if not (e.1 == 0) then e ∷ rest else rest

-- `retain_mut`: one pass.
pub retain_mut : ℕ → List (ℕ × ℕ) → Outcome (List (ℕ × ℕ))
retain_mut n [] = ok []
retain_mut n (e ∷ es) = do
  e' ← update_entry n e
  rest ← retain_mut n es
  ok (if not (e'.1 == 0) then e' ∷ rest else rest)

-- `for &(p, fm) in &self.entries`, with its `break`.
pub check_loop : Bool → Bool → List (ℕ × ℕ) → Outcome (Bool × Bool)
check_loop plus minus [] = ok (plus, minus)
check_loop plus minus ((p, fm) ∷ es) = do
  let last : Outcome Bool = (do l ← sub_checked p 1; ok (fm == l))
  hit ← (if not plus then last else ok false)
  let plus' = if hit then true else plus
  let minus' = if not minus && (fm == 1) then true else minus
  let rest = check_loop plus' minus' es
  if plus' && minus' then ok (plus', minus') else rest
