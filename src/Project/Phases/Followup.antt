-- ===== src/Project/Phases/Followup.antt =====
-- What `generate_followup_phase` generates: the range that follows, once.
use prime_hunter.Common.{
  ℕ, ◌+◌, ◌-◌, ◌^◌, ◌<◌, Bool, true, false, ◌||◌, none, some, List, [], ◌∷◌, ◌++◌, ◌≡◌, refl, ap,
  ◌∙◌, arith, ok,
}
use prime_hunter.Common.Strings.{Str, codes, str_eq, str_eq_self}
use prime_hunter.Project.Json.{Json, JsonLaws}
use prime_hunter.Project.Rows.{PhaseConfig, ProjectPhaseRow}
use prime_hunter.Project.Phases.{
  ends_with, update_range, range_keys, extract_range_from_params, generate_followup_phase,
}
use prime_hunter.Project.Phases.Range.{Paired, extract-update_range}

str_eq-append : (s t : Str) → ends_with (s ++ t) t ≡ true
str_eq-append [] [] = refl
str_eq-append [] (b ∷ t) = ap (λ c. c || ends_with t (b ∷ t)) (str_eq_self (b ∷ t))
str_eq-append (a ∷ s) t = or_true (str_eq (a ∷ s ++ t) t) (str_eq-append s t)
  where
    or_true : (b : Bool) {c : Bool} → c ≡ true → (b || c) ≡ true
    or_true true h = refl
    or_true false h = h

module _ (J : Json) (to_string : ℕ → Str) where
  -- What a follow-up that was generated says of the phase.
  generated :
      (form : Str) (phase : ProjectPhaseRow J) (all_phases : List (ProjectPhaseRow J))
      (followup : PhaseConfig J)
      → generate_followup_phase J to_string form phase all_phases ≡ ok (some followup)
      → let (range_start, range_end) = extract_range_from_params J phase.search_params in
        (range_start < range_end)
        × (followup.name ≡ phase.name ++ codes "-extend")
        × (followup.depends_on ≡ some (phase.name ∷ []))
        × (followup.search_params
            ≡ update_range J range_keys
                (range_end + 1)
                (range_end + 1 + (range_end - range_start))
                phase.search_params)
        × (range_end + 1 + (range_end - range_start) < 2 ^ 64)
  unfolding generate_followup_phase
  generated form phase all_phases followup h = ground (arith, h)

  -- Where the parameters of a phase have each start key together with its end key, a follow-up
  -- searches the next range of the same span, right after the range of its phase and within u64,
  -- and waits for that phase.
  pub generate_followup_phase-next :
      JsonLaws J
      → (form : Str) (phase : ProjectPhaseRow J) (all_phases : List (ProjectPhaseRow J))
        (followup : PhaseConfig J)
      → Paired J range_keys phase.search_params
      → generate_followup_phase J to_string form phase all_phases ≡ ok (some followup)
      → let (range_start, range_end) = extract_range_from_params J phase.search_params in
        (extract_range_from_params J followup.search_params
          ≡ (range_end + 1, range_end + 1 + (range_end - range_start)))
        × (range_end + 1 + (range_end - range_start) < 2 ^ 64)
        × (followup.depends_on ≡ some (phase.name ∷ []))
  generate_followup_phase-next laws form phase all_phases followup paired h =
      let (nonempty, named, waits, params, small) = generated form phase all_phases followup h in
      (
        ap (extract_range_from_params J) params
            ∙ extract-update_range J laws _ _ phase.search_params paired nonempty,
        small,
        waits,
      )

  extension_last :
      (form : Str) (phase : ProjectPhaseRow J) (all_phases : List (ProjectPhaseRow J))
      → ends_with phase.name (codes "-extend") ≡ true
      → generate_followup_phase J to_string form phase all_phases ≡ ok none
  unfolding generate_followup_phase
  extension_last form phase all_phases h = ground (arith, h)

  -- A phase with the name of a follow-up has no follow-up itself, in any project.
  generate_followup_phase-last :
      (form form' : Str) (phase phase' : ProjectPhaseRow J)
      (all_phases all_phases' : List (ProjectPhaseRow J)) (followup : PhaseConfig J)
      → generate_followup_phase J to_string form phase all_phases ≡ ok (some followup)
      → phase'.name ≡ followup.name
      → generate_followup_phase J to_string form' phase' all_phases' ≡ ok none
  generate_followup_phase-last form form' phase phase' all_phases all_phases' followup h same =
      let (nonempty, named, waits, params, small) = generated form phase all_phases followup h in
      extension_last form' phase' all_phases' (
        ap (λ s. ends_with s (codes "-extend")) (same ∙ named)
        ∙ str_eq-append phase.name (codes "-extend"))
