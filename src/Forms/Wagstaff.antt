-- ===== src/Forms/Wagstaff.antt =====
-- src/wagstaff.rs, `WagstaffSieve` and the block size.
pub mod Order
pub mod Exact
use prime_hunter.Common.{
  ℕ, ◌-◌, ◌*◌, ◌/◌, ◌%◌, Bool, true, false, ◌&&◌, List, [], ◌∷◌, any, ◌==◌, leb, ltb, if◌then◌else◌,
  Outcome, ok, ◌>>=◌,
}
use prime_hunter.Sieve.Order.{multiplicative_order}

-- `filter` and `filter_map`, in the order of the list.
pub collect_entries : List ℕ → Outcome (List (ℕ × ℕ))
collect_entries [] = ok []
collect_entries (q ∷ qs) =
    let rest = collect_entries qs in
    let entry : Outcome (List (ℕ × ℕ)) = (do
      ord ← multiplicative_order 2 q
      es ← rest
      ok (if ord % 4 == 2 then (ord, ord / 2) ∷ es else es)) in
    if ltb 3 q then entry else rest

-- `sort_unstable_by_key` on the first number; equal keys have equal halves.
pub insert_entry : ℕ × ℕ → List (ℕ × ℕ) → List (ℕ × ℕ)
insert_entry e [] = e ∷ []
insert_entry e (f ∷ fs) =
    let rest = insert_entry e fs in if leb e.0 f.0 then e ∷ (f ∷ fs) else f ∷ rest

pub sort_entries : List (ℕ × ℕ) → List (ℕ × ℕ)
sort_entries [] = []
sort_entries (e ∷ es) = insert_entry e (sort_entries es)

-- `dedup` drops an entry that is equal to the one before it.
pub dedup_after : ℕ × ℕ → List (ℕ × ℕ) → List (ℕ × ℕ)
dedup_after e [] = []
dedup_after e (f ∷ fs) =
    let same = dedup_after e fs in
    let other = dedup_after f fs in if (e.0 == f.0) && (e.1 == f.1) then same else f ∷ other

pub dedup : List (ℕ × ℕ) → List (ℕ × ℕ)
dedup [] = []
dedup (e ∷ es) = e ∷ dedup_after e es

unfoldable pub new : List ℕ → Outcome (List (ℕ × ℕ))
new sieve_primes = do entries ← collect_entries sieve_primes; ok (dedup (sort_entries entries))

unfoldable pub is_composite : List (ℕ × ℕ) → ℕ → Bool
is_composite entries p = any (λ e. p % e.0 == e.1) entries

unfoldable pub block_size_for_exp : ℕ → ℕ
block_size_for_exp exp =
    if leb exp 10000 then 500 else if leb exp 100000 then 100 else if leb exp 1000000 then 20 else 5
