-- ===== src/Project/Rows.antt =====
-- src/project/config.rs and src/project/types.rs: the target of a project, its phases as configured
-- and as rows; src/db: the summaries of a job and of the fleet.
use prime_hunter.Common.{ℕ, Bool, Option, List}
use prime_hunter.Common.Strings.{Str}
use prime_hunter.Project.Json.{Json}

pub data Objective : Type 0 where
  record_ : Objective
  survey : Objective
  verification : Objective
  custom : Objective

pub record TargetConfig : Type 0 where
  pub target_digits : Option ℕ
  pub range_start : Option ℕ
  pub range_end : Option ℕ

module _ (J : Json) where
  pub record PhaseConfig : Type 0 where
    pub name : Str
    pub description : Str
    pub search_params : J.Value
    pub block_size : Option ℕ
    pub depends_on : Option (List Str)
    pub activation_condition : Option Str
    pub completion : Str

  -- A row of project_phases; a time is a number.
  pub record ProjectPhaseRow : Type 0 where
    pub id : ℕ
    pub project_id : ℕ
    pub name : Str
    pub description : Str
    pub phase_order : ℕ
    pub status : Str
    pub search_params : J.Value
    pub block_size : ℕ
    pub depends_on : List Str
    pub activation_condition : Option Str
    pub completion_condition : Str
    pub search_job_id : Option ℕ
    pub total_tested : ℕ
    pub total_found : ℕ
    pub started_at : Option ℕ
    pub completed_at : Option ℕ

-- f64, as the orchestration uses it.
pub record Floats (J : Json) : Type 1 where
  pub F64 : Type 0
  pub zero_usd : F64
  -- 0.04
  pub default_rate : F64
  pub add : F64 → F64 → F64
  pub mul : F64 → F64 → F64
  -- `a >= b`
  pub at_least : F64 → F64 → Bool
  pub as_f64 : J.Value → Option F64

module _ (J : Json) (F : Floats J) where
  -- A row of projects.
  pub record ProjectRow : Type 0 where
    pub id : ℕ
    pub slug : Str
    pub name : Str
    pub description : Str
    pub objective : Str
    pub form : Str
    pub status : Str
    pub toml_source : Option Str
    pub target : J.Value
    pub competitive : J.Value
    pub strategy : J.Value
    pub infrastructure : J.Value
    pub budget : J.Value
    pub total_tested : ℕ
    pub total_found : ℕ
    pub best_prime_id : Option ℕ
    pub best_digits : ℕ
    pub total_core_hours : F.F64
    pub total_cost_usd : F.F64
    pub created_at : ℕ
    pub started_at : Option ℕ
    pub completed_at : Option ℕ
    pub updated_at : ℕ

pub record JobBlockSummary : Type 0 where
  pub available : ℕ
  pub claimed : ℕ
  pub completed : ℕ
  pub failed : ℕ
  pub total_tested : ℕ
  pub total_found : ℕ

pub record FleetSummary : Type 0 where
  pub worker_count : ℕ
  pub total_cores : ℕ
  pub max_ram_gb : ℕ
  pub active_search_types : List Str
