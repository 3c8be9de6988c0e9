-- ===== src/Tests/Searches.antt =====
-- src/search_params.rs with numbers printed as strokes, and the work blocks of a job.
use prime_hunter.Common.{
  [], ◌∷◌, none, ok, true, All, ◌↔◌, ℕ, zero, suc, Option, some, List, length, replicate, ◌≡◌, refl,
  ap, arith,
}
use prime_hunter.Common.Strings.{Str, codes}
use prime_hunter.SearchParams.{wagstaff}
use prime_hunter.SearchParams.Args.{to_args-inj}
use prime_hunter.Jobs.Summary.{BlockRow, IsClosed, get_job_block_summary, is_phase_complete_iff}
use prime_hunter.Project.Phases.{is_phase_complete}
use prime_hunter.Jobs.{WorkBlock, block_loop}
use prime_hunter.Jobs.Blocks.{Tiles, block_loop-Tiles}

abbrev strokes : ℕ → Str
strokes n = replicate n b'|'

abbrev count : Str → Option ℕ
count s = some (length s)

length-strokes : (n : ℕ) → length (strokes n) ≡ n
length-strokes zero = refl
length-strokes (suc n) = ap suc (length-strokes n)

count-strokes : (n : ℕ) → count (strokes n) ≡ some n
count-strokes n = ap some (length-strokes n)

to_args-inj_example : wagstaff 3 4 ≡ wagstaff 3 4
to_args-inj_example = to_args-inj strokes count count-strokes (wagstaff 3 4) (wagstaff 3 4) refl

block_loop-Tiles_example :
    (blocks : List WorkBlock) × (block_loop 25 100 125 10 ≡ ok (some blocks))
    × Tiles 10 100 blocks 125
block_loop-Tiles_example =
    block_loop-Tiles 25 100 125 10 (omega arith) (omega arith) (omega arith) (omega arith)

abbrev rows : List BlockRow
rows =
    record { status = codes "completed"; tested = some 10; found = some 1 }
    ∷ record { status = codes "failed"; tested = none; found = none }
    ∷ []

is_phase_complete_iff_example :
    (is_phase_complete (codes "all_blocks_done") (get_job_block_summary rows) ≡ true)
    ↔ All IsClosed rows
is_phase_complete_iff_example = is_phase_complete_iff rows
