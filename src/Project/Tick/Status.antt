-- ===== src/Project/Tick/Status.antt =====
-- What the end of a tick leaves in the row of the project, from the phases and the budget.
use prime_hunter.Common.{
  ℕ, ◌<◌, ◌^◌, Bool, true, false, none, some, List, if◌then◌else◌, map, sum, ok, checked_sum-eq-sum,
  ◌≡◌, ◌⊎◌, refl, sym, ap, ◌∙◌, Bool-cases, Option-cases, inl, inr,
}
use prime_hunter.Common.Strings.{Str, codes}
use prime_hunter.Project.Json.{Json}
use prime_hunter.Project.Rows.{Floats, ProjectRow, ProjectPhaseRow}
use prime_hunter.Project.Store.{Store, World}
use prime_hunter.Project.Phases.{and_then, unwrap_or}
use prime_hunter.Project.Tick.{sum_tested, sum_found, cost_of, budget_field, aggregate}
use prime_hunter.Project.Tick.Settled.{Settles, settled-Settles}
use prime_hunter.Project.Tick.Views.{view, over_budget, settled, jobs_of, hours_of, aggregate-view}

module _ (J : Json) (F : Floats J) (to_string : ℕ → Str) (w : World J F)
    (project : ProjectRow J F) where
  -- The rate of the budget, or the default where it gives none.
  abbrev pub IsRate : F.F64 → Type 0
  IsRate rate =
      (and_then (J.get project.budget (codes "cloud_rate_usd_per_core_hour")) F.as_f64 ≡ some rate)
      ⊎ ((and_then (J.get project.budget (codes "cloud_rate_usd_per_core_hour")) F.as_f64 ≡ none)
          × (rate ≡ F.default_rate))

  -- The budget has a maximum, and the cost reaches it.
  abbrev pub IsOver : F.F64 → Type 0
  IsOver cost =
      (max_cost : F.F64) × (and_then (J.get project.budget (codes "max_cost_usd")) F.as_f64
        ≡ some max_cost)
      × (F.at_least cost max_cost ≡ true)

  -- The status at the end of the tick: the budget comes first.
  abbrev pub Ends : F.F64 → List (ProjectPhaseRow J) → Str → Str → Type 0
  Ends cost phases before after =
      (IsOver cost × (after ≡ codes "paused")) ⊎ ((IsOver cost → ⊥) × Settles J phases before after)

  over_budget_cases :
      (cost : F.F64)
      → (IsOver cost × (over_budget J F to_string w project cost ≡ true))
        ⊎ ((IsOver cost → ⊥) × (over_budget J F to_string w project cost ≡ false))
  over_budget_cases cost =
      elim (Option-cases (and_then (J.get project.budget (codes "max_cost_usd")) F.as_f64)) [
        | inl unlimited ↦ inr (
          λ over. none_some (sym unlimited ∙ over.1),
          rw (unlimited, over_budget, budget_field) refl,
        )
        | inr limited ↦ elim (Bool-cases (F.at_least cost limited.0)) [
          | inl reached ↦
              inl
                ((limited.0, limited.1, reached), rw (limited.1, over_budget, budget_field) reached)
          | inr below ↦ inr (
            λ over.
                differ below (ap (F.at_least cost) (same_some (sym limited.1 ∙ over.1)) ∙ over.2),
            rw (limited.1, over_budget, budget_field) below,
          )
        ]
      ]
    where
      none_some : {a : F.F64} → none ≡ some a → ⊥
      none_some e = cc

      same_some : {a b : F.F64} → some a ≡ some b → a ≡ b
      same_some e = cc

      differ : {b : Bool} → b ≡ false → b ≡ true → ⊥
      differ e h = cc

  ends :
      (cost : F.F64) (phases : List (ProjectPhaseRow J)) (before : Str)
      → Ends cost phases before (
          if over_budget J F to_string w project cost
          then codes "paused"
          else settled J F to_string w project phases before)
  ends cost phases before = elim (over_budget_cases cost) [
    | inl over ↦ inl (over.0, rw over.1 refl)
    | inr under ↦ inr (under.0, rw under.1 (settled-Settles J F to_string w project phases before))
  ]

  cost-IsRate :
      (hours : F.F64)
      → (rate : F.F64) × IsRate rate × (cost_of J F to_string w project hours ≡ F.mul hours rate)
  cost-IsRate hours =
      elim (Option-cases
        (and_then (J.get project.budget (codes "cloud_rate_usd_per_core_hour")) F.as_f64)) [
          | inl missing ↦ (
            F.default_rate,
            inr (missing, refl),
            ap (λ r. F.mul hours (unwrap_or r F.default_rate)) missing,
          )
          | inr given ↦
              (given.0, inl given.1, ap (λ r. F.mul hours (unwrap_or r F.default_rate)) given.1)
        ]

  module _ (no_fault : (n : ℕ) → w.fails n ≡ false) where
    tested_sum :
        (phases : List (ProjectPhaseRow J))
        → sum (map (λ p. p.total_tested) phases) < 2 ^ 63
        → sum_tested J F to_string w project phases ≡ ok (sum (map (λ p. p.total_tested) phases))
    unfolding sum_tested
    tested_sum phases h = checked_sum-eq-sum 63 _ h

    found_sum :
        (phases : List (ProjectPhaseRow J))
        → sum (map (λ p. p.total_found) phases) < 2 ^ 63
        → sum_found J F to_string w project phases ≡ ok (sum (map (λ p. p.total_found) phases))
    unfolding sum_found
    found_sum phases h = checked_sum-eq-sum 63 _ h

    -- When no call fails and the sums over the phases of the tested and of the found candidates fit
    -- i64, the end of a tick returns `Ok` and leaves the phases as they are. The project's totals
    -- are these sums. Its cost is the core hours of the phases' jobs, added up in order, times the
    -- budget's rate or the default. Its status is "paused" when the cost reaches the budget's
    -- maximum. Otherwise it stays what it was when there is no phase or some phase is neither
    -- completed, skipped nor failed; else it is "failed" when some phase failed, and "completed"
    -- when none did.
    pub aggregate_lem :
        (s : Store J F)
        → sum (map (λ p. p.total_tested) s.phases) < 2 ^ 63
        → sum (map (λ p. p.total_found) s.phases) < 2 ^ 63
        → ((aggregate J F to_string w project s).0 ≡ some tt)
          × (rate : F.F64) × (status : Str) × IsRate rate
          × Ends
              (F.mul
                (hours_of J F to_string w project F.zero_usd
                  (jobs_of J F to_string w project s.phases))
                rate)
              s.phases
              (s.project).status
              status
          × (view J F to_string w project (aggregate J F to_string w project s).1 ≡ (
            status,
            F.mul
                (hours_of J F to_string w project F.zero_usd
                  (jobs_of J F to_string w project s.phases))
                rate,
            sum (map (λ p. p.total_tested) s.phases),
            sum (map (λ p. p.total_found) s.phases),
            s.phases,
          ))
    aggregate_lem s fits_t fits_f =
        let (done, left) =
          aggregate-view J F to_string w project no_fault s
            (sum (map (λ p. p.total_tested) s.phases)) (sum (map (λ p. p.total_found) s.phases))
            (tested_sum s.phases fits_t) (found_sum s.phases fits_f) in
        let hours =
          hours_of J F to_string w project F.zero_usd (jobs_of J F to_string w project s.phases) in
        let (rate, is_rate, cost) = cost-IsRate hours in
        let cost_was = cost_of J F to_string w project hours in
        (
          done,
          rate,
          if over_budget J F to_string w project (F.mul hours rate)
              then codes "paused"
              else settled J F to_string w project s.phases (s.project).status,
          is_rate,
          ends (F.mul hours rate) s.phases (s.project).status,
          left
              ∙ ap
                  (λ c. (
                    if over_budget J F to_string w project c
                        then codes "paused"
                        else settled J F to_string w project s.phases (s.project).status,
                    c,
                    sum (map (λ p. p.total_tested) s.phases),
                    sum (map (λ p. p.total_found) s.phases),
                    s.phases,
                  ))
                  cost,
        )
