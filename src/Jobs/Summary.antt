-- ===== src/Jobs/Summary.antt =====
-- src/db/jobs.rs, `get_job_block_summary`, and what a complete phase means for its blocks.
use prime_hunter.Common.{
  ℕ, ◌+◌, true, false, ◌&&◌, Option, none, some, List, [], ◌∷◌, ◌==◌, if◌then◌else◌, All, ◌≡◌, ◌↔◌,
  refl, arith,
}
use prime_hunter.Common.Strings.{Str, codes, str_eq}
use prime_hunter.Project.Rows.{JobBlockSummary}
use prime_hunter.Project.Phases.{is_phase_complete}

-- The columns of a row of work_blocks that the query reads.
pub record BlockRow : Type 0 where
  pub status : Str
  pub tested : Option ℕ
  pub found : Option ℕ

-- COUNT(*) FILTER (WHERE status = ...).
abbrev pub count_status : Str → List BlockRow → ℕ
count_status status [] = 0
count_status status (r ∷ rs) = (if str_eq r.status status then 1 else 0) + count_status status rs

-- COALESCE(SUM(...) FILTER (WHERE status = 'completed'), 0); SUM skips NULL.
abbrev pub sum_completed : (BlockRow → Option ℕ) → List BlockRow → ℕ
sum_completed column [] = 0
sum_completed column (r ∷ rs) =
    let rest = sum_completed column rs in
    if str_eq r.status (codes "completed")
    then elim (column r) [ some v ↦ v + rest | none ↦ rest ]
    else rest

-- `rows` are the blocks of the job.
unfoldable pub get_job_block_summary : List BlockRow → JobBlockSummary
get_job_block_summary rows = record {
  available = count_status (codes "available") rows;
  claimed = count_status (codes "claimed") rows;
  completed = count_status (codes "completed") rows;
  failed = count_status (codes "failed") rows;
  total_tested = sum_completed (λ r. r.tested) rows;
  total_found = sum_completed (λ r. r.found) rows;
}

-- Neither to be claimed nor claimed.
abbrev pub IsClosed : BlockRow → Type 0
IsClosed r =
    (str_eq r.status (codes "available") ≡ false) × (str_eq r.status (codes "claimed") ≡ false)

counts-IsClosed :
    (rows : List BlockRow)
    → (((count_status (codes "available") rows == 0) && (count_status (codes "claimed") rows == 0))
        ≡ true)
      ↔ All IsClosed rows
counts-IsClosed [] = (λ h. tt, λ h. refl)
counts-IsClosed (r ∷ rs) =
    let (to, from) = counts-IsClosed rs in
    (λ h. ((ground arith, ground arith), to (ground arith)), λ (c, cs). ground (arith, from cs))

-- A phase with the condition "all_blocks_done" is complete exactly when none of the blocks of its job
-- is available or claimed, so that also failed blocks count as done.
pub is_phase_complete_iff :
    (rows : List BlockRow)
    → (is_phase_complete (codes "all_blocks_done") (get_job_block_summary rows) ≡ true)
      ↔ All IsClosed rows
unfolding is_phase_complete get_job_block_summary
is_phase_complete_iff rows = counts-IsClosed rows
