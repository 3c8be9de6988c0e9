-- ===== src/Project/Strategy.antt =====
-- src/project/orchestration.rs, `generate_auto_strategy`: the phases of a project without phases of
-- its own. Arithmetic on u64 is checked.
pub mod Cover
use prime_hunter.Common.{
  ℕ, zero, suc, ◌+◌, ◌-◌, ◌/◌, Bool, true, false, ◌||◌, Option, none, some, List, [], ◌∷◌, ◌++◌,
  if◌then◌else◌, Outcome, ok, panic, fits, sub_checked, ◌>>=◌,
}
use prime_hunter.Common.Strings.{Str, codes, str_eq}
use prime_hunter.Project.Json.{Json}
use prime_hunter.Project.Rows.{
  Objective, record_, survey, verification, custom, TargetConfig, PhaseConfig,
}
use prime_hunter.Project.Phases.{unwrap_or}

module _ (J : Json) (to_string : ℕ → Str) where
  open J use {Value, of_u64, of_str, object}

  -- `json!` of a search over one pair of bounds.
  abbrev pub range_params : Str → Str → Str → ℕ → ℕ → Value
  range_params form min_key max_key low high =
      object
        ((codes "search_type", of_str form) ∷ (min_key, of_u64 low) ∷ (max_key, of_u64 high) ∷ [])

  abbrev pub span_text : ℕ → ℕ → Str
  span_text start end = to_string start ++ codes ".." ++ to_string end

  -- A phase that depends on no other.
  abbrev pub single : Str → Str → Value → ℕ → PhaseConfig J
  single name description search_params block_size = record {
    name = name;
    description = description;
    search_params = search_params;
    block_size = some block_size;
    depends_on = none;
    activation_condition = none;
    completion = codes "all_blocks_done";
  }

  -- `range_end.unwrap_or(start + span)`: the sum is computed in any case.
  abbrev pub end_or : TargetConfig → ℕ → ℕ → Outcome ℕ
  end_or target start span = do
    default ← fits 64 (start + span)
    ok (unwrap_or target.range_end default)

  unfoldable pub factorial_record : TargetConfig → Outcome (List (PhaseConfig J))
  factorial_record target = do
    let start = unwrap_or target.range_start 1000
    end ← end_or target start 10000
    ok (
        single (codes "sweep") (codes "Sequential factorial search n=" ++ span_text start end)
          (range_params (codes "factorial") (codes "start") (codes "end") start end) 100
        ∷ [])

  unfoldable pub factorial_survey : TargetConfig → Outcome (List (PhaseConfig J))
  factorial_survey target =
      let start = unwrap_or target.range_start 1 in
      let end = unwrap_or target.range_end 10000 in
      ok (
        single (codes "survey") (codes "Complete factorial survey n=" ++ span_text start end)
          (range_params (codes "factorial") (codes "start") (codes "end") start end) 100
        ∷ [])

  abbrev pub wagstaff_sweep : ℕ → ℕ → PhaseConfig J
  wagstaff_sweep start mid =
      single (codes "sweep") (codes "Sieve exponents " ++ span_text start mid)
        (range_params (codes "wagstaff") (codes "min_exp") (codes "max_exp") start mid) 1000

  abbrev pub wagstaff_extend : ℕ → ℕ → PhaseConfig J
  wagstaff_extend next end = record {
    name = codes "extend";
    description = codes "Extend to " ++ to_string end ++ codes " if no discovery";
    search_params = range_params (codes "wagstaff") (codes "min_exp") (codes "max_exp") next end;
    block_size = some 1000;
    depends_on = some (codes "sweep" ∷ []);
    activation_condition = some (codes "previous_phase_found_zero");
    completion = codes "all_blocks_done";
  }

  unfoldable pub wagstaff_record : TargetConfig → Outcome (List (PhaseConfig J))
  wagstaff_record target = do
    let start = unwrap_or target.range_start 13400000
    end ← end_or target start 5000000
    span ← sub_checked end start
    mid ← fits 64 (start + span / 2)
    next ← fits 64 (mid + 1)
    ok (wagstaff_sweep start mid ∷ wagstaff_extend next end ∷ [])

  unfoldable pub two_term : Str → TargetConfig → Outcome (List (PhaseConfig J))
  two_term form target =
      let start = unwrap_or target.range_start 1 in
      let end = unwrap_or target.range_end 1000000 in
      ok (
        single (codes "sweep") (codes "Sweep n=" ++ span_text start end)
          (object (
            (codes "search_type", of_str form)
            ∷ (codes "k", of_u64 1)
            ∷ (codes "base", of_u64 2)
            ∷ (codes "min_n", of_u64 start)
            ∷ (codes "max_n", of_u64 end)
            ∷ []))
          100000
        ∷ [])

  unfoldable pub digits : Str → TargetConfig → Outcome (List (PhaseConfig J))
  digits form target =
      let start = unwrap_or target.range_start 1 in
      let end = unwrap_or target.range_end 21 in
      ok (
        single (codes "sweep") (codes "Sweep digit counts " ++ span_text start end)
          (range_params form (codes "min_digits") (codes "max_digits") start end) 2
        ∷ [])

  unfoldable pub generic : Str → TargetConfig → Outcome (List (PhaseConfig J))
  generic form target =
      let start = unwrap_or target.range_start 1 in
      let end = unwrap_or target.range_end 10000 in
      ok (
        single (codes "sweep") (form ++ codes " search " ++ span_text start end)
          (range_params form (codes "start") (codes "end") start end) 1000
        ∷ [])

  -- The arms in the order of the source.
  unfoldable pub by_form : Str → TargetConfig → Outcome (List (PhaseConfig J))
  by_form form target =
      if str_eq form (codes "kbn")
        || str_eq form (codes "twin")
        || str_eq form (codes "sophie_germain")
      then two_term form target
      else if str_eq form (codes "palindromic") || str_eq form (codes "near_repdigit")
      then digits form target
      else generic form target

  unfoldable pub generate_auto_strategy :
      Str → Objective → TargetConfig → Outcome (List (PhaseConfig J))
  generate_auto_strategy form record_ target =
      if str_eq form (codes "factorial")
      then factorial_record target
      else if str_eq form (codes "wagstaff")
      then wagstaff_record target
      else by_form form target
  generate_auto_strategy form survey target =
      if str_eq form (codes "factorial") then factorial_survey target else by_form form target
  generate_auto_strategy form verification target = by_form form target
  generate_auto_strategy form custom target = by_form form target
