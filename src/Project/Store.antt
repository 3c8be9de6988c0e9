-- ===== src/Project/Store.antt =====
-- src/db/projects.rs: the rows of one project and the calls that change them. Each call of the
-- database may fail; the time and what the other tables hold are given.
use prime_hunter.Common.{
  ℕ, ◌+◌, Bool, true, false, ◌||◌, Option, none, some, List, [], ◌∷◌, ◌++◌, ◌==◌, if◌then◌else◌,
  any, map,
}
use prime_hunter.Common.Strings.{Str, codes, str_eq}
use prime_hunter.Common.Int.{ℤ}
use prime_hunter.Common.State.{Run}
use prime_hunter.Project.Json.{Json}
use prime_hunter.Project.Rows.{
  Floats, ProjectRow, PhaseConfig, ProjectPhaseRow, JobBlockSummary, FleetSummary,
}
use prime_hunter.Project.Phases.{unwrap_or}

module _ (J : Json) (F : Floats J) where
  -- A row of project_events; its texts are left out.
  pub record Event : Type 0 where
    pub event_type : Str
    pub at_time : ℕ

  pub record Store : Type 0 where
    pub project : ProjectRow J F
    pub phases : List (ProjectPhaseRow J)
    pub events : List Event
    pub next_id : ℕ
    -- the number of calls so far
    pub calls : ℕ

  -- What the calls answer that read other tables, and which calls fail, by their number.
  pub record World : Type 0 where
    pub now : ℕ
    pub fails : ℕ → Bool
    pub block_summary : ℕ → JobBlockSummary
    pub fleet : FleetSummary
    pub core_hours : ℕ → F.F64
    -- the id and the digits of the best prime of the project's form
    pub best_prime : Option (ℕ × ℕ)
    -- the id of the job that the call of this number creates, from the search type, the parameters,
    -- the range and the block size
    pub create_search_job : ℕ → Str → J.Value → ℤ → ℤ → ℕ → ℕ

  module _ (w : World) where
    -- One call of the database.
    abbrev pub call : {A : Type 0} → A → (Store → Store) → Run Store A
    call a change s =
        let after = record s { calls = s.calls + 1 } in
        if w.fails s.calls then (none, after) else (some a, change after)

    abbrev pub get_project_phases : Run Store (List (ProjectPhaseRow J))
    get_project_phases s = call s.phases (λ t. t) s

    -- `UPDATE projects`; every statement sets `updated_at`.
    abbrev pub update_project : (ProjectRow J F → ProjectRow J F) → Run Store (Unit {0})
    update_project change =
        call tt (λ s. record s { project = record (change s.project) { updated_at = w.now } })

    -- `UPDATE project_phases ... WHERE id = phase_id`.
    abbrev pub update_phase : ℕ → (ProjectPhaseRow J → ProjectPhaseRow J) → Run Store (Unit {0})
    update_phase phase_id change =
        call tt
          (λ s. record s { phases = map (λ p. if p.id == phase_id then change p else p) s.phases })

    -- COALESCE of a time that is there if `set`.
    abbrev pub stamp : Bool → Option ℕ → Option ℕ
    stamp set old = if set then some w.now else old

    unfoldable pub update_project_status : Str → Run Store (Unit {0})
    update_project_status status = update_project (λ p. record p {
      status = status;
      started_at = stamp (str_eq status (codes "active")) p.started_at;
      completed_at =
          stamp
            (str_eq status (codes "completed")
              || str_eq status (codes "cancelled")
              || str_eq status (codes "failed"))
            p.completed_at;
    })

    unfoldable pub update_project_progress : ℕ → ℕ → Run Store (Unit {0})
    update_project_progress total_tested total_found =
        update_project (λ p. record p { total_tested = total_tested; total_found = total_found })

    unfoldable pub update_project_cost : F.F64 → F.F64 → Run Store (Unit {0})
    update_project_cost total_core_hours total_cost_usd =
        update_project
          (λ p. record p { total_core_hours = total_core_hours; total_cost_usd = total_cost_usd })

    unfoldable pub update_project_best_prime : Option ℕ → ℕ → Run Store (Unit {0})
    update_project_best_prime best_prime_id best_digits =
        update_project (λ p. record p { best_prime_id = best_prime_id; best_digits = best_digits })

    unfoldable pub update_phase_status : ℕ → Str → Run Store (Unit {0})
    update_phase_status phase_id status = update_phase phase_id (λ p. record p {
      status = status;
      completed_at =
          stamp
            (str_eq status (codes "completed")
              || str_eq status (codes "skipped")
              || str_eq status (codes "failed"))
            p.completed_at;
    })

    unfoldable pub update_phase_progress : ℕ → ℕ → ℕ → Run Store (Unit {0})
    update_phase_progress phase_id total_tested total_found =
        update_phase phase_id
          (λ p. record p { total_tested = total_tested; total_found = total_found })

    unfoldable pub activate_row : ℕ → ℕ → Run Store (Unit {0})
    activate_row phase_id search_job_id = update_phase phase_id (λ p. record p {
      status = codes "active";
      search_job_id = some search_job_id;
      started_at = some w.now;
    })

    -- The columns that the statement does not name have their defaults.
    abbrev pub new_row : ℕ → ℕ → PhaseConfig J → ℕ → ProjectPhaseRow J
    new_row id project_id phase phase_order = record {
      id = id;
      project_id = project_id;
      name = phase.name;
      description = phase.description;
      phase_order = phase_order;
      status = codes "pending";
      search_params = phase.search_params;
      block_size = unwrap_or phase.block_size 1000;
      depends_on = unwrap_or phase.depends_on [];
      activation_condition = phase.activation_condition;
      completion_condition = phase.completion;
      search_job_id = none;
      total_tested = 0;
      total_found = 0;
      started_at = none;
      completed_at = none;
    }

    -- `false`: the name is not unique in the project. The new phase comes last by its order.
    unfoldable pub insert_phase : PhaseConfig J → ℕ → Run Store Bool
    insert_phase phase phase_order s =
        if any (λ p. str_eq p.name phase.name) s.phases
        then call false (λ t. t) s
        else call true
            (λ t. record t {
              phases = t.phases ++ new_row t.next_id (t.project).id phase phase_order ∷ [];
              next_id = t.next_id + 1;
            })
            s

    unfoldable pub insert_project_event : Str → Run Store (Unit {0})
    insert_project_event event_type = call tt (λ s. record s {
      events = s.events ++ record { event_type = event_type; at_time = w.now } ∷ [];
    })
