-- ===== src/Project/Phases.antt =====
-- src/project/orchestration.rs: when a phase is complete, when it is activated, and what follows it.
-- src/project/cost.rs, `extract_range_from_params`.
pub mod Named
pub mod Activation
pub mod Substring
pub mod Fleet
pub mod Range
pub mod Followup
use prime_hunter.Common.{
  ℕ, zero, suc, ◌+◌, ◌-◌, Bool, true, false, not, ◌&&◌, ◌||◌, Option, none, some, List, [], ◌∷◌,
  ◌++◌, ◌==◌, ltb, leb, if◌then◌else◌, any, find, Outcome, ok, panic, fits, ◌>>=◌,
}
use prime_hunter.Common.Strings.{Str, codes, str_eq}
use prime_hunter.Project.Json.{Json}
use prime_hunter.Project.Rows.{PhaseConfig, ProjectPhaseRow, JobBlockSummary, FleetSummary}

-- The two conditions "all_blocks_done" and `_` have the same arm.
unfoldable pub is_phase_complete : Str → JobBlockSummary → Bool
is_phase_complete condition summary =
    if str_eq condition (codes "all_blocks_done")
    then (summary.available == 0) && (summary.claimed == 0)
    else if str_eq condition (codes "first_prime_found")
    then ltb 0 summary.total_found
    else (summary.available == 0) && (summary.claimed == 0)

-- Option::or_else and Option::and_then.
abbrev pub or_else : {A : Type 0} → Option A → Option A → Option A
or_else (some a) o = some a
or_else none o = o

abbrev pub and_then : {A B : Type 0} → Option A → (A → Option B) → Option B
and_then (some a) f = f a
and_then none f = none

abbrev pub unwrap_or : {A : Type 0} → Option A → A → A
unwrap_or (some a) b = a
unwrap_or none b = b

abbrev pub is_some : {A : Type 0} → Option A → Bool
is_some (some a) = true
is_some none = false

-- str::starts_with, str::ends_with and str::contains.
abbrev pub starts_with : Str → Str → Bool
starts_with s [] = true
starts_with [] (b ∷ t) = false
starts_with (a ∷ s) (b ∷ t) = (a == b) && starts_with s t

abbrev pub ends_with : Str → Str → Bool
ends_with [] t = str_eq [] t
ends_with (a ∷ s) t = str_eq (a ∷ s) t || ends_with s t

abbrev pub contains : Str → Str → Bool
contains [] t = starts_with [] t
contains (a ∷ s) t = starts_with (a ∷ s) t || contains s t

abbrev pub start_keys : List Str
start_keys =
    codes "start" ∷ codes "min_n" ∷ codes "min_exp" ∷ codes "min_digits" ∷ codes "min_base" ∷ []

abbrev pub end_keys : List Str
end_keys =
    codes "end" ∷ codes "max_n" ∷ codes "max_exp" ∷ codes "max_digits" ∷ codes "max_base" ∷ []

abbrev pub range_keys : List (Str × Str)
range_keys =
    (codes "start", codes "end")
    ∷ (codes "min_n", codes "max_n")
    ∷ (codes "min_exp", codes "max_exp")
    ∷ (codes "min_digits", codes "max_digits")
    ∷ (codes "min_base", codes "max_base")
    ∷ []

module _ (J : Json) where
  open J use {Value, get, as_u64, as_str, as_array, of_u64, insert}

  abbrev pub by_name : Str → List (ProjectPhaseRow J) → Option (ProjectPhaseRow J)
  by_name dep_name all_phases = find (λ p. str_eq p.name dep_name) all_phases

  abbrev pub completed_dep : Option (ProjectPhaseRow J) → Bool
  completed_dep (some d) = str_eq d.status (codes "completed")
  completed_dep none = false

  -- A dependency that is missing has found nothing.
  abbrev pub found_prime : Option (ProjectPhaseRow J) → Bool
  found_prime (some d) = ltb 0 d.total_found
  found_prime none = false

  unfoldable pub dependencies_met : List Str → List (ProjectPhaseRow J) → Bool
  dependencies_met [] all_phases = true
  dependencies_met (dep_name ∷ deps) all_phases =
      if completed_dep (by_name dep_name all_phases)
      then dependencies_met deps all_phases
      else false

  unfoldable pub none_found : List Str → List (ProjectPhaseRow J) → Bool
  none_found [] all_phases = true
  none_found (dep_name ∷ deps) all_phases =
      if found_prime (by_name dep_name all_phases) then false else none_found deps all_phases

  unfoldable pub condition_met : Option Str → List Str → List (ProjectPhaseRow J) → Bool
  condition_met none deps all_phases = true
  condition_met (some condition) deps all_phases =
      if str_eq condition (codes "previous_phase_found_zero")
      then none_found deps all_phases
      else if str_eq condition (codes "previous_phase_found_prime")
      then any (λ dep_name. found_prime (by_name dep_name all_phases)) deps
      else true

  unfoldable pub should_activate : ProjectPhaseRow J → List (ProjectPhaseRow J) → Bool
  should_activate phase all_phases =
      if dependencies_met phase.depends_on all_phases
      then condition_met phase.activation_condition phase.depends_on all_phases
      else false

  -- `params.get(k1).or_else(|| params.get(k2))...`
  unfoldable pub first_key : Value → List Str → Option Value
  first_key params [] = none
  first_key params (k ∷ ks) = or_else (get params k) (first_key params ks)

  unfoldable pub extract_range_from_params : Value → ℕ × ℕ
  extract_range_from_params params =
      let start = unwrap_or (and_then (first_key params start_keys) as_u64) 0 in
      (start, unwrap_or (and_then (first_key params end_keys) as_u64) start)

  -- The update of whichever range keys exist, first come first served.
  unfoldable pub update_range : List (Str × Str) → ℕ → ℕ → Value → Value
  update_range [] new_start new_end obj = obj
  update_range (keys ∷ rest) new_start new_end obj =
      if is_some (get obj keys.0)
      then insert (insert obj keys.0 (of_u64 new_start)) keys.1 (of_u64 new_end)
      else update_range rest new_start new_end obj

  module _ (to_string : ℕ → Str) where
    -- The description of a follow-up.
    unfoldable pub extension : Str → ℕ → ℕ → ℕ → ℕ → Str
    extension form new_start new_end range_start range_end =
        codes "Auto-extend "
        ++ form
        ++ codes " search "
        ++ to_string new_start
        ++ codes ".."
        ++ to_string new_end
        ++ codes " (no primes found in "
        ++ to_string range_start
        ++ codes ".."
        ++ to_string range_end
        ++ codes ")"

    -- `form` is the project's; the sums are u64.
    unfoldable pub generate_followup_phase :
        Str → ProjectPhaseRow J → List (ProjectPhaseRow J) → Outcome (Option (PhaseConfig J))
    generate_followup_phase form phase all_phases =
        let followup_name = phase.name ++ codes "-extend" in
        let (range_start, range_end) = extract_range_from_params phase.search_params in
        if ltb 0 phase.total_found
        then ok none
        else if any (λ p. str_eq p.name followup_name) all_phases
        then ok none
        else if ends_with phase.name (codes "-extend")
        then ok none
        else if leb range_end range_start
        then ok none
        else (do
          new_start ← fits 64 (range_end + 1)
          new_end ← fits 64 (new_start + (range_end - range_start))
          ok (
              some (record {
                name = followup_name;
                description = extension form new_start new_end range_start range_end;
                search_params = update_range range_keys new_start new_end phase.search_params;
                block_size = some phase.block_size;
                depends_on = some (phase.name ∷ []);
                activation_condition = some (codes "previous_phase_found_zero");
                completion = phase.completion_condition;
              })))

    -- A requirement of `infrastructure` that a figure of the fleet does not reach.
    unfoldable pub short_of : Value → Str → ℕ → Option ℕ
    short_of infrastructure key figure = elim (and_then (get infrastructure key) as_u64) [
      | some least ↦ if ltb figure least then some least else none
      | none ↦ none
    ]

    -- The first of the required tools that no search type of the fleet contains.
    unfoldable pub missing_tool : List Value → List Str → Option Str
    missing_tool [] types = none
    missing_tool (tool ∷ tools) types = elim (as_str tool) [
      | some tool_name ↦
          if not (str_eq tool_name []) && not (any (λ s. contains s tool_name) types)
          then some tool_name
          else missing_tool tools types
      | none ↦ missing_tool tools types
    ]

    unfoldable pub check_tools : Value → FleetSummary → Option Str
    check_tools infrastructure fleet =
        elim (and_then (get infrastructure (codes "required_tools")) as_array) [
          | some tools ↦ elim (missing_tool tools fleet.active_search_types) [
            | some tool_name ↦
                some (codes "Required tool '" ++ tool_name ++ codes "' not available in fleet")
            | none ↦ none
          ]
          | none ↦ none
        ]

    unfoldable pub check_ram : Value → FleetSummary → Option Str
    check_ram infrastructure fleet =
        elim (short_of infrastructure (codes "min_ram_gb") fleet.max_ram_gb) [
          | some min_ram ↦ some (
              codes "Need "
              ++ to_string min_ram
              ++ codes " GB RAM, best worker has "
              ++ to_string fleet.max_ram_gb
              ++ codes " GB")
          | none ↦ check_tools infrastructure fleet
        ]

    unfoldable pub check_cores : Value → FleetSummary → Option Str
    check_cores infrastructure fleet =
        elim (short_of infrastructure (codes "min_cores") fleet.total_cores) [
          | some min_cores ↦ some (
              codes "Need "
              ++ to_string min_cores
              ++ codes " cores, fleet has "
              ++ to_string fleet.total_cores)
          | none ↦ check_ram infrastructure fleet
        ]

    -- `infrastructure` is the project's column.
    unfoldable pub check_fleet_requirements : Value → FleetSummary → Option Str
    check_fleet_requirements infrastructure fleet =
        elim (short_of infrastructure (codes "min_workers") fleet.worker_count) [
          | some min_workers ↦ some (
              codes "Need "
              ++ to_string min_workers
              ++ codes " workers, only "
              ++ to_string fleet.worker_count
              ++ codes " active")
          | none ↦ check_cores infrastructure fleet
        ]
