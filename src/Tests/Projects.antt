-- ===== src/Tests/Projects.antt =====
-- src/project: a sweep that found nothing, its extension, a fleet of two workers, and one tick.
use prime_hunter.Common.{
  ℕ, ◌+◌, ◌-◌, ◌*◌, ◌^◌, ◌<◌, true, false, none, some, List, [], ◌∷◌, ◌++◌, replicate, map, sum,
  All, leb, ◌≡◌, ◌↔◌, refl, ok, arith,
}
use prime_hunter.Common.Strings.{Str, codes}
use prime_hunter.Project.Rows.{
  record_, Floats, ProjectRow, PhaseConfig, ProjectPhaseRow, FleetSummary,
}
use prime_hunter.Project.Phases.{
  generate_followup_phase, extract_range_from_params, range_keys, should_activate,
  check_fleet_requirements,
}
use prime_hunter.Project.Phases.Activation.{Completed, Condition, should_activate_iff}
use prime_hunter.Project.Phases.Fleet.{Reaches, HasTools, check_fleet_requirements_iff}
use prime_hunter.Project.Phases.Range.{Paired}
use prime_hunter.Project.Phases.Followup.{generate_followup_phase-next}
use prime_hunter.Project.Strategy.{generate_auto_strategy}
use prime_hunter.Project.Strategy.Cover.{Covers, target, generate_auto_strategy-Covers}
use prime_hunter.Project.Store.{Store, World}
use prime_hunter.Project.Tick.{aggregate}
use prime_hunter.Project.Tick.Views.{view, jobs_of, hours_of}
use prime_hunter.Project.Tick.Status.{IsRate, Ends, aggregate_lem}
use prime_hunter.Tests.Objects.{Value, number, string, array, item, no_items, json, json-laws}

abbrev strokes : ℕ → Str
strokes n = replicate n b'|'

abbrev params : ℕ → ℕ → Value
params start end = json.object (
    (codes "search_type", string (codes "factorial"))
    ∷ (codes "start", number start)
    ∷ (codes "end", number end)
    ∷ [])

abbrev sweep : ProjectPhaseRow json
sweep = record {
  id = 1;
  project_id = 1;
  name = codes "sweep";
  description = [];
  phase_order = 0;
  status = codes "completed";
  search_params = params 10 20;
  block_size = 5;
  depends_on = [];
  activation_condition = none;
  completion_condition = codes "all_blocks_done";
  search_job_id = some 7;
  total_tested = 10;
  total_found = 0;
  started_at = some 1;
  completed_at = some 2;
}

abbrev extend : ProjectPhaseRow json
extend = record sweep {
  id = 2;
  name = codes "sweep-extend";
  status = codes "pending";
  depends_on = codes "sweep" ∷ [];
  activation_condition = some (codes "previous_phase_found_zero");
  search_job_id = none;
  total_tested = 0;
}

abbrev phases : List (ProjectPhaseRow json)
phases = sweep ∷ extend ∷ []

should_activate_iff_example : (should_activate json extend phases ≡ true) ↔ (
    All (Completed json phases) extend.depends_on
    × Condition json phases extend.depends_on extend.activation_condition)
should_activate_iff_example = should_activate_iff json phases extend

abbrev two_workers : FleetSummary
two_workers = record {
  worker_count = 2;
  total_cores = 16;
  max_ram_gb = 32;
  active_search_types = codes "factorial" ∷ [];
}

abbrev infrastructure : Value
infrastructure = json.object (
    (codes "min_cores", number 8)
    ∷ (codes "required_tools", array (item (string (codes "fact")) no_items))
    ∷ [])

check_fleet_requirements_iff_example :
    (check_fleet_requirements json strokes infrastructure two_workers ≡ none) ↔ (
      Reaches json strokes infrastructure (codes "min_workers") two_workers.worker_count
      × Reaches json strokes infrastructure (codes "min_cores") two_workers.total_cores
      × Reaches json strokes infrastructure (codes "min_ram_gb") two_workers.max_ram_gb
      × HasTools json strokes infrastructure two_workers.active_search_types)
check_fleet_requirements_iff_example =
    check_fleet_requirements_iff json strokes infrastructure two_workers

abbrev followup : PhaseConfig json
followup = record {
  name = codes "sweep-extend";
  description =
      codes "Auto-extend factorial search "
      ++ strokes 21
      ++ codes ".."
      ++ strokes 31
      ++ codes " (no primes found in "
      ++ strokes 10
      ++ codes ".."
      ++ strokes 20
      ++ codes ")";
  search_params =
      json.insert (json.insert (params 10 20) (codes "start") (number 21)) (codes "end")
        (number 31);
  block_size = some 5;
  depends_on = some (codes "sweep" ∷ []);
  activation_condition = some (codes "previous_phase_found_zero");
  completion = codes "all_blocks_done";
}

generates :
    generate_followup_phase json strokes (codes "factorial") sweep (sweep ∷ []) ≡ ok (some followup)
unfolding generate_followup_phase extract_range_from_params prime_hunter.Project.Phases.first_key
    prime_hunter.Project.Phases.extension prime_hunter.Project.Phases.update_range
generates = refl

paired : Paired json range_keys (params 10 20)
paired = (refl, (refl, (refl, (refl, (refl, tt)))))

generate_followup_phase-next_example :
    let (range_start, range_end) = extract_range_from_params json sweep.search_params in
    (extract_range_from_params json followup.search_params
      ≡ (range_end + 1, range_end + 1 + (range_end - range_start)))
    × (range_end + 1 + (range_end - range_start) < 2 ^ 64)
    × (followup.depends_on ≡ some (sweep.name ∷ []))
generate_followup_phase-next_example =
    generate_followup_phase-next json strokes json-laws (codes "factorial") sweep (sweep ∷ [])
      followup paired generates

generate_auto_strategy-Covers_example :
    (generated : List (PhaseConfig json)) × (generate_auto_strategy json strokes
        (codes "wagstaff")
        record_
        (target json json-laws strokes 100 200 none)
      ≡ ok generated)
    × Covers json json-laws strokes 100 200 generated
generate_auto_strategy-Covers_example =
    generate_auto_strategy-Covers json json-laws strokes 100 200 none (codes "wagstaff") record_
      (omega arith) (omega arith) (omega arith)

-- Costs in whole cents.
abbrev cents : Floats json
cents = record {
  F64 = ℕ;
  zero_usd = 0;
  default_rate = 4;
  add = λ a b. a + b;
  mul = λ a b. a * b;
  at_least = λ a b. leb b a;
  as_f64 = json.as_u64;
}

abbrev quiet : World json cents
quiet = record {
  now = 3;
  fails = λ n. false;
  block_summary = λ job. record {
    available = 0;
    claimed = 0;
    completed = 2;
    failed = 0;
    total_tested = 10;
    total_found = 0;
  };
  fleet = two_workers;
  core_hours = λ job. 5;
  best_prime = none;
  create_search_job = λ n search_type search_params start end block_size. n;
}

abbrev project : ProjectRow json cents
project = record {
  id = 1;
  slug = codes "p";
  name = codes "p";
  description = [];
  objective = codes "survey";
  form = codes "factorial";
  status = codes "active";
  toml_source = none;
  target = number 0;
  competitive = number 0;
  strategy = number 0;
  infrastructure = infrastructure;
  budget = json.object ((codes "max_cost_usd", number 10) ∷ []);
  total_tested = 0;
  total_found = 0;
  best_prime_id = none;
  best_digits = 0;
  total_core_hours = 0;
  total_cost_usd = 0;
  created_at = 0;
  started_at = some 0;
  completed_at = none;
  updated_at = 0;
}

abbrev store : Store json cents
store = record { project = project; phases = sweep ∷ []; events = []; next_id = 2; calls = 0 }

aggregate_lem_example :
    ((aggregate json cents strokes quiet project store).0 ≡ some tt)
    × (rate : ℕ) × (status : Str) × IsRate json cents strokes quiet project rate
    × Ends json cents strokes quiet project
        (hours_of json cents strokes quiet project 0
            (jobs_of json cents strokes quiet project store.phases)
          * rate)
        store.phases
        (store.project).status
        status
    × (view json cents strokes quiet project (aggregate json cents strokes quiet project store).1
        ≡ (
          status,
          hours_of json cents strokes quiet project 0
                (jobs_of json cents strokes quiet project store.phases)
              * rate,
          sum (map (λ p. p.total_tested) store.phases),
          sum (map (λ p. p.total_found) store.phases),
          store.phases,
        ))
aggregate_lem_example =
    aggregate_lem json cents strokes quiet project (λ n. refl) store (omega arith) (omega arith)
