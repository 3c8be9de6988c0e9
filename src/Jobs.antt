-- ===== src/Jobs.antt =====
-- src/db/jobs.rs, `create_search_job`: the division of a search range into work blocks.
pub mod Blocks
pub mod Summary
use prime_hunter.Common.{
  ℕ, zero, suc, ◌+◌, List, [], ◌∷◌, ltb, if◌then◌else◌, Option, none, some, Outcome, ok, fits,
  ◌>>=◌,
}

-- A row of work_blocks: [block_start, block_end).
pub record WorkBlock : Type 0 where
  pub block_start : ℕ
  pub block_end : ℕ

abbrev pub min : ℕ → ℕ → ℕ
min a b = if ltb a b then a else b

-- The block before the others.
abbrev pub prepend : WorkBlock → Option (List WorkBlock) → Option (List WorkBlock)
prepend block none = none
prepend block (some blocks) = some (block ∷ blocks)

-- `while start < range_end`, with at most `fuel` rounds; `none` when they do not suffice. The
-- bounds are i64 that are not negative, and the sum of a start and the size is checked as i64.
unfoldable pub block_loop : ℕ → ℕ → ℕ → ℕ → Outcome (Option (List WorkBlock))
block_loop zero start range_end block_size = ok (if ltb start range_end then none else some [])
block_loop (suc fuel) start range_end block_size =
    let rest = block_loop fuel (min (start + block_size) range_end) range_end block_size in
    if ltb start range_end
    then (do
      next ← fits 63 (start + block_size)
      blocks ← rest
      ok (prepend (record { block_start = start; block_end = min next range_end }) blocks))
    else ok (some [])
