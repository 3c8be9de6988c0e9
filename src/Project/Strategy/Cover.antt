-- ===== src/Project/Strategy/Cover.antt =====
-- The phases of an automatic strategy cover the target range.
use prime_hunter.Common.{
  ℕ, ◌+◌, ◌-◌, ◌/◌, ◌^◌, ◌≤◌, ◌<◌, Bool, true, false, Option, none, some, List, [], ◌∷◌, ◌++◌,
  if◌then◌else◌, ◌≡◌, refl, ◌∙◌, arith, Outcome, ok, fits, sub_checked,
}
use prime_hunter.Common.Strings.{Str, codes}
use prime_hunter.Project.Json.{Json, JsonLaws, last_field}
use prime_hunter.Project.Rows.{
  Objective, record_, survey, verification, custom, TargetConfig, PhaseConfig,
}
use prime_hunter.Project.Phases.{
  or_else, first_key, start_keys, end_keys, extract_range_from_params,
}
use prime_hunter.Project.Strategy.{
  range_params, span_text, single, factorial_record, factorial_survey, wagstaff_sweep,
  wagstaff_extend, wagstaff_record, two_term, digits, generic, by_form, generate_auto_strategy,
}

module _ (J : Json) (laws : JsonLaws J) (to_string : ℕ → Str) where
  -- The ranges of the phases follow one another from `low` to `high` without a gap.
  pub data Covers : ℕ → ℕ → List (PhaseConfig J) → Type 0 where
    last :
        {low high : ℕ} (p : PhaseConfig J)
        → extract_range_from_params J p.search_params ≡ (low, high)
        → Covers low high (p ∷ [])
    next :
        {low mid high : ℕ} (p : PhaseConfig J) {ps : List (PhaseConfig J)}
        → extract_range_from_params J p.search_params ≡ (low, mid)
        → Covers (mid + 1) high ps
        → Covers low high (p ∷ ps)

  abbrev found_in : List (Str × J.Value) → List Str → Option J.Value
  found_in fields [] = none
  found_in fields (k ∷ ks) = or_else (last_field k fields) (found_in fields ks)

  first_key-object :
      (fields : List (Str × J.Value)) (ks : List Str)
      → first_key J (J.object fields) ks ≡ found_in fields ks
  unfolding first_key
  first_key-object fields [] = refl
  first_key-object fields (k ∷ ks) = rw (laws.get_object fields k, first_key-object fields ks) refl

  -- The range of an object whose range keys are these numbers.
  extract-object :
      (fields : List (Str × J.Value)) (low high : ℕ)
      → found_in fields start_keys ≡ some (J.of_u64 low)
      → found_in fields end_keys ≡ some (J.of_u64 high)
      → extract_range_from_params J (J.object fields) ≡ (low, high)
  unfolding extract_range_from_params
  extract-object fields low high start end =
      rw
        (
          first_key-object fields start_keys ∙ start,
          first_key-object fields end_keys ∙ end,
          laws.u64_back low,
          laws.u64_back high,
        )
        refl

  -- The strategies for one phase, with both ends given.
  module _ (start end : ℕ) (digits_wanted : Option ℕ) where
    abbrev pub target : TargetConfig
    target = record {
      target_digits = digits_wanted;
      range_start = some start;
      range_end = some end;
    }

    abbrev Covered : Outcome (List (PhaseConfig J)) → Type 0
    Covered o = (phases : List (PhaseConfig J)) × (o ≡ ok phases) × Covers start end phases

    two_term-Covered : (form : Str) → Covered (two_term J to_string form target)
    unfolding two_term
    two_term-Covered form = (_, refl, last _ (extract-object _ start end refl refl))

    digits-Covered : (form : Str) → Covered (digits J to_string form target)
    unfolding digits
    digits-Covered form = (_, refl, last _ (extract-object _ start end refl refl))

    generic-Covered : (form : Str) → Covered (generic J to_string form target)
    unfolding generic
    generic-Covered form = (_, refl, last _ (extract-object _ start end refl refl))

    factorial_survey-Covered : Covered (factorial_survey J to_string target)
    unfolding factorial_survey
    factorial_survey-Covered = (_, refl, last _ (extract-object _ start end refl refl))

    choose :
        {x y : Outcome (List (PhaseConfig J))} (b : Bool)
        → Covered x
        → Covered y
        → Covered (if b then x else y)
    choose true cx cy = cx
    choose false cx cy = cy

    by_form-Covered : (form : Str) → Covered (by_form J to_string form target)
    unfolding by_form
    by_form-Covered form =
        choose _ (two_term-Covered form) (choose _ (digits-Covered form) (generic-Covered form))

    fits-ok : (w x : ℕ) → x < 2 ^ w → fits w x ≡ ok x
    fits-ok w x h = ground arith

    factorial_record_lem :
        start + 5000000 < 2 ^ 64
        → factorial_record J to_string target
          ≡ ok (
              single J to_string
                (codes "sweep")
                (codes "Sequential factorial search n=" ++ span_text J to_string start end)
                (range_params J to_string
                  (codes "factorial")
                  (codes "start")
                  (codes "end")
                  start
                  end)
                100
              ∷ [])
    unfolding factorial_record
    factorial_record_lem h = rw (fits-ok 64 (start + 10000) (omega (arith, h))) refl

    factorial_record-Covered :
        start + 5000000 < 2 ^ 64 → Covered (factorial_record J to_string target)
    factorial_record-Covered h =
        (_, factorial_record_lem h, last _ (extract-object _ start end refl refl))

    middle : start ≤ end → start + (end - start) / 2 ≤ end
    middle h = omega (arith, h)

    wagstaff_record_lem :
        start ≤ end
        → start + 5000000 < 2 ^ 64
        → end + 1 < 2 ^ 64
        → wagstaff_record J to_string target
          ≡ ok (
              wagstaff_sweep J to_string start (start + (end - start) / 2)
              ∷ wagstaff_extend J to_string (start + (end - start) / 2 + 1) end
              ∷ [])
    unfolding wagstaff_record
    wagstaff_record_lem h small small_end =
        rw
          (
            fits-ok 64 (start + 5000000) small,
            checked h,
            fits-ok 64 (start + (end - start) / 2) (omega (arith, middle h, small_end)),
            fits-ok 64 (start + (end - start) / 2 + 1) (omega (arith, middle h, small_end)),
          )
          refl
      where
        checked : start ≤ end → sub_checked end start ≡ ok (end - start)
        checked h = ground arith

    wagstaff_record-Covered :
        start ≤ end
        → start + 5000000 < 2 ^ 64
        → end + 1 < 2 ^ 64
        → Covered (wagstaff_record J to_string target)
    wagstaff_record-Covered h small small_end = (
      _,
      wagstaff_record_lem h small small_end,
      next _ (extract-object _ start (start + (end - start) / 2) refl refl)
          (last _ (extract-object _ (start + (end - start) / 2 + 1) end refl refl)),
    )

    -- With both ends of the target given, the start not above the end, and neither end + 1 nor
    -- start + 5000000 beyond u64, a strategy is generated for each form and objective, and the
    -- ranges of its phases cover the target from end to end without a gap.
    pub generate_auto_strategy-Covers :
        (form : Str) (objective : Objective)
        → start ≤ end
        → start + 5000000 < 2 ^ 64
        → end + 1 < 2 ^ 64
        → (phases : List (PhaseConfig J)) × (generate_auto_strategy J to_string form objective
              target
            ≡ ok phases)
          × Covers start end phases
    unfolding generate_auto_strategy
    generate_auto_strategy-Covers form record_ h small small_end =
        choose _ (factorial_record-Covered small)
          (choose _ (wagstaff_record-Covered h small small_end) (by_form-Covered form))
    generate_auto_strategy-Covers form survey h small small_end =
        choose _ factorial_survey-Covered (by_form-Covered form)
    generate_auto_strategy-Covers form verification h small small_end = by_form-Covered form
    generate_auto_strategy-Covers form custom h small small_end = by_form-Covered form
