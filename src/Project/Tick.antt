-- ===== src/Project/Tick.antt =====
-- src/project/orchestration.rs, `orchestrate_project` and `activate_phase`: one tick of a project.
-- The numbers i64 are natural here; a panic ends the tick.
pub mod Views
pub mod Settled
pub mod Status
use prime_hunter.Common.{
  ℕ, zero, suc, ◌+◌, Bool, true, false, ◌&&◌, ◌||◌, not, Option, none, some, List, [], ◌∷◌, ◌==◌,
  ltb, leb, if◌then◌else◌, any, all, Outcome, ok, panic, checked_sum, map,
}
use prime_hunter.Common.Strings.{Str, codes, str_eq}
use prime_hunter.Common.State.{Run, ◌>>=◌, pure, stop, or_default, checked}
use prime_hunter.SearchParams.{as_i64}
use prime_hunter.Project.Json.{Json}
use prime_hunter.Project.Rows.{
  Floats, ProjectRow, PhaseConfig, ProjectPhaseRow, JobBlockSummary, FleetSummary,
}
use prime_hunter.Project.Phases.{
  or_else, and_then, unwrap_or, is_some, is_phase_complete, should_activate,
  extract_range_from_params, generate_followup_phase, check_fleet_requirements,
}
use prime_hunter.Project.Store.{
  Store, World, call, get_project_phases, update_project_status, update_project_progress,
  update_project_cost, update_project_best_prime, update_phase_status, update_phase_progress,
  activate_row, insert_phase, insert_project_event,
}

module _ (J : Json) (F : Floats J) (to_string : ℕ → Str) (w : World J F)
    (project : ProjectRow J F) where
  abbrev Act : Type 0
  Act = Run (Store J F) (Unit {0})

  abbrev has_status : Str → ProjectPhaseRow J → Bool
  has_status status p = str_eq p.status status

  -- 1. The phases that are active: their progress, and whether they are complete.
  unfoldable pub check_completion : ProjectPhaseRow J → ℕ → Act
  check_completion phase job_id = do
    summary ← call J F w (w.block_summary job_id) (λ s. s)
    _ ← update_phase_progress J F w phase.id summary.total_tested summary.total_found
    (if is_phase_complete phase.completion_condition summary
        then (do
          _ ← update_phase_status J F w phase.id (codes "completed")
          insert_project_event J F w (codes "phase_completed"))
        else pure tt)

  unfoldable pub check_active : List (ProjectPhaseRow J) → Act
  check_active [] = pure tt
  check_active (phase ∷ phases) =
      let rest = check_active phases in
      if has_status (codes "active") phase
      then elim phase.search_job_id [
        | some job_id ↦ do _ ← check_completion phase job_id; rest
        | none ↦ rest
      ]
      else rest

  -- `phase_order` of the last phase.
  abbrev max_order : List (ProjectPhaseRow J) → ℕ
  max_order [] = 0
  max_order (p ∷ ps) = let m = max_order ps in if ltb m p.phase_order then p.phase_order else m

  -- 1b. The follow-ups of the completed phases. An overflow ends the tick.
  unfoldable pub generate_followups : List (ProjectPhaseRow J) → List (ProjectPhaseRow J) → Act
  generate_followups snapshot [] = pure tt
  generate_followups snapshot (phase ∷ phases) =
      let rest = generate_followups snapshot phases in
      if has_status (codes "completed") phase
      then elim (generate_followup_phase J to_string project.form phase snapshot) [
        | panic ↦ stop
        | ok none ↦ rest
        | ok (some followup) ↦ do
          inserted ← insert_phase J F w followup (max_order snapshot + 1)
          _ ← if inserted then insert_project_event J F w (codes "phase_generated") else pure tt
          rest
      ]
      else rest

  -- The search type of the job: the one that the parameters name, or the project's form.
  abbrev search_type : ProjectPhaseRow J → Str
  search_type phase =
      unwrap_or (and_then (J.get phase.search_params (codes "search_type")) J.as_str) project.form

  -- `activate_phase`: the job, its link to the project, the row and the event. The range is cast to
  -- i64 for the job. The text of the event divides by the block size, so a size of 0 panics there.
  unfoldable pub activate_phase : ProjectPhaseRow J → Act
  activate_phase phase =
      let (range_start, range_end) = extract_range_from_params J phase.search_params in
      if leb range_end range_start then stop else (do
        job_id ← λ s.
            call J F w
              (w.create_search_job s.calls (search_type phase) phase.search_params
                (as_i64 range_start) (as_i64 range_end) phase.block_size)
              (λ t. t) s
        _ ← call J F w tt (λ s. s)
        _ ← activate_row J F w phase.id job_id
        _ ← if phase.block_size == 0 then stop else pure tt
        insert_project_event J F w (codes "phase_activated"))

  -- 2. The pending phases whose time has come, if the fleet suffices.
  unfoldable pub activate_pending :
      FleetSummary → List (ProjectPhaseRow J) → List (ProjectPhaseRow J) → Act
  activate_pending fleet all_phases [] = pure tt
  activate_pending fleet all_phases (phase ∷ phases) =
      let rest = activate_pending fleet all_phases phases in
      if has_status (codes "pending") phase && should_activate J phase all_phases
      then elim (check_fleet_requirements J to_string project.infrastructure fleet) [
        | some reason ↦ do
          _ ← or_default (insert_project_event J F w (codes "fleet_insufficient")) tt
          rest
        | none ↦ do _ ← activate_phase phase; rest
      ]
      else rest

  abbrev no_fleet : FleetSummary
  no_fleet = record { worker_count = 0; total_cores = 0; max_ram_gb = 0; active_search_types = [] }

  unfoldable pub sum_tested : List (ProjectPhaseRow J) → Outcome ℕ
  sum_tested phases = checked_sum 63 (map (λ p. p.total_tested) phases)

  unfoldable pub sum_found : List (ProjectPhaseRow J) → Outcome ℕ
  sum_found phases = checked_sum 63 (map (λ p. p.total_found) phases)

  -- 3b. The core hours of the phases that have a job; a call that fails counts as none.
  unfoldable pub sum_hours : F.F64 → List (ProjectPhaseRow J) → Run (Store J F) (F.F64)
  sum_hours total [] = pure total
  sum_hours total (phase ∷ phases) = elim phase.search_job_id [
    | some job_id ↦ do
      hours ← or_default (call J F w (w.core_hours job_id) (λ s. s)) (F.zero_usd)
      sum_hours (F.add total hours) phases
    | none ↦ sum_hours total phases
  ]

  abbrev budget_field : Str → Option (F.F64)
  budget_field key = and_then (J.get project.budget key) (F.as_f64)

  abbrev pub cost_of : F.F64 → F.F64
  cost_of hours =
      F.mul hours (unwrap_or (budget_field (codes "cloud_rate_usd_per_core_hour")) (F.default_rate))

  -- 3c. The best prime of the form, if it is longer than the one the project row had.
  unfoldable pub link_best : Act
  link_best = do
    best ← or_default (call J F w (w.best_prime) (λ s. s)) none
    elim best [
      | some prime ↦
          if ltb project.best_digits prime.1
          then update_project_best_prime J F w (some prime.0) prime.1
          else pure tt
      | none ↦ pure tt
    ]

  abbrev pub is_terminal : ProjectPhaseRow J → Bool
  is_terminal p =
      has_status (codes "completed") p
      || has_status (codes "skipped") p
      || has_status (codes "failed") p

  abbrev pub is_empty : List (ProjectPhaseRow J) → Bool
  is_empty [] = true
  is_empty (p ∷ ps) = false

  abbrev pub new_status : List (ProjectPhaseRow J) → Str
  new_status phases =
      if any (has_status (codes "failed")) phases then codes "failed" else codes "completed"

  -- 4. A project whose phases are all terminal.
  unfoldable pub settle : List (ProjectPhaseRow J) → Act
  settle phases =
      if all is_terminal phases && not (is_empty phases)
      then (do
        _ ← update_project_status J F w (new_status phases)
        insert_project_event J F w (codes "project_completed"))
      else pure tt

  -- 5. The budget.
  unfoldable pub check_budget : F.F64 → Act
  check_budget total_cost_usd = elim (budget_field (codes "max_cost_usd")) [
    | none ↦ pure tt
    | some max_cost ↦
        if F.at_least total_cost_usd max_cost
        then (do
          _ ← update_project_status J F w (codes "paused")
          insert_project_event J F w (codes "budget_exceeded"))
        else elim (budget_field (codes "cost_alert_threshold_usd")) [
          | none ↦ pure tt
          | some alert ↦
              if F.at_least total_cost_usd alert
              then insert_project_event J F w (codes "budget_alert")
              else pure tt
        ]
  ]

  -- Steps 3 to 5.
  unfoldable pub aggregate : Act
  aggregate = do
    phases ← get_project_phases J F w
    total_tested ← checked (sum_tested phases)
    total_found ← checked (sum_found phases)
    _ ← update_project_progress J F w total_tested total_found
    total_core_hours ← sum_hours (F.zero_usd) phases
    _ ← update_project_cost J F w total_core_hours (cost_of total_core_hours)
    _ ← link_best
    _ ← settle phases
    check_budget (cost_of total_core_hours)

  -- Steps 1 and 2.
  unfoldable pub advance : Act
  advance = do
    phases ← get_project_phases J F w
    _ ← check_active phases
    phases_snapshot ← get_project_phases J F w
    _ ← generate_followups phases_snapshot phases_snapshot
    current ← get_project_phases J F w
    fleet ← or_default (call J F w (w.fleet) (λ s. s)) no_fleet
    activate_pending fleet current current

  unfoldable pub orchestrate_project : Act
  orchestrate_project = do _ ← advance; aggregate
