-- ===== src/Project/Tick/Settled.antt =====
-- The status that a project gets from its phases.
use prime_hunter.Common.{
  ℕ, true, false, List, [], ◌∷◌, all, All, Some, ◌≡◌, ◌≢◌, ◌⊎◌, refl, Bool-cases, inl, inr,
}
use prime_hunter.Common.Strings.{Str, codes, str_eq, str_eq→eq, str_eq→ne}
use prime_hunter.Project.Json.{Json}
use prime_hunter.Project.Rows.{Floats, ProjectRow, ProjectPhaseRow}
use prime_hunter.Project.Store.{World}
use prime_hunter.Project.Tick.{has_status, is_terminal, new_status}
use prime_hunter.Project.Tick.Views.{settled}

module _ (J : Json) where
  -- The status of a phase that will not run again, and of one that may.
  abbrev pub Terminal : ProjectPhaseRow J → Type 0
  Terminal p =
      (p.status ≡ codes "completed") ⊎ (p.status ≡ codes "skipped") ⊎ (p.status ≡ codes "failed")

  abbrev pub Open : ProjectPhaseRow J → Type 0
  Open p =
      (p.status ≢ codes "completed") × (p.status ≢ codes "skipped") × (p.status ≢ codes "failed")

  -- The status that the phases give to a project that had the status `before`.
  pub data Settles (phases : List (ProjectPhaseRow J)) (before after : Str) : Type 0 where
    no_phases : phases ≡ [] → after ≡ before → Settles phases before after
    running : Some Open phases → after ≡ before → Settles phases before after
    failing :
        All Terminal phases
        → Some (λ p. p.status ≡ codes "failed") phases
        → after ≡ codes "failed"
        → Settles phases before after
    completing :
        All Terminal phases
        → phases ≢ []
        → All (λ p. p.status ≢ codes "failed") phases
        → after ≡ codes "completed"
        → Settles phases before after

module _ (J : Json) (F : Floats J) (to_string : ℕ → Str) (w : World J F)
    (project : ProjectRow J F) where
  status_cases :
      (status : Str) (p : ProjectPhaseRow J)
      → ((p.status ≡ status) × (has_status J F to_string w project status p ≡ true))
        ⊎ ((p.status ≢ status) × (has_status J F to_string w project status p ≡ false))
  status_cases status p = elim (Bool-cases (str_eq p.status status)) [
    | inl same ↦ inl (str_eq→eq p.status status same, same)
    | inr other ↦ inr (str_eq→ne p.status status other, other)
  ]

  Terminal-cases :
      (p : ProjectPhaseRow J)
      → (Terminal J p × (is_terminal J F to_string w project p ≡ true))
        ⊎ (Open J p × (is_terminal J F to_string w project p ≡ false))
  Terminal-cases p = elim (status_cases (codes "completed") p) [
    | inl completed ↦ inl (inl completed.0, rw completed.1 refl)
    | inr not_completed ↦ elim (status_cases (codes "skipped") p) [
      | inl skipped ↦ inl (inr (inl skipped.0), rw (not_completed.1, skipped.1) refl)
      | inr not_skipped ↦ elim (status_cases (codes "failed") p) [
        | inl failed ↦ inl (inr (inr failed.0), rw (not_completed.1, not_skipped.1, failed.1) refl)
        | inr not_failed ↦ inr (
          (not_completed.0, not_skipped.0, not_failed.0),
          rw (not_completed.1, not_skipped.1, not_failed.1) refl,
        )
      ]
    ]
  ]

  all_cases :
      (phases : List (ProjectPhaseRow J))
      → (All (Terminal J) phases × (all (is_terminal J F to_string w project) phases ≡ true))
        ⊎ (Some (Open J) phases × (all (is_terminal J F to_string w project) phases ≡ false))
  all_cases [] = inl (tt, refl)
  all_cases (p ∷ phases) = elim (Terminal-cases p) [
    | inl closed ↦ elim (all_cases phases) [
      | inl rest ↦ inl ((closed.0, rest.0), rw (closed.1, rest.1) refl)
      | inr rest ↦ inr (inr rest.0, rw (closed.1, rest.1) refl)
    ]
    | inr still_open ↦ inr (inl still_open.0, rw still_open.1 refl)
  ]

  failed_cases :
      (phases : List (ProjectPhaseRow J))
      → (Some (λ p. p.status ≡ codes "failed") phases
          × (new_status J F to_string w project phases ≡ codes "failed"))
        ⊎ (All (λ p. p.status ≢ codes "failed") phases
            × (new_status J F to_string w project phases ≡ codes "completed"))
  failed_cases [] = inr (tt, refl)
  failed_cases (p ∷ phases) = elim (status_cases (codes "failed") p) [
    | inl failed ↦ inl (inl failed.0, rw failed.1 refl)
    | inr fine ↦ elim (failed_cases phases) [
      | inl rest ↦ inl (inr rest.0, rw fine.1 rest.1)
      | inr rest ↦ inr ((fine.0, rest.0), rw fine.1 rest.1)
    ]
  ]

  pub settled-Settles :
      (phases : List (ProjectPhaseRow J)) (before : Str)
      → Settles J phases before (settled J F to_string w project phases before)
  settled-Settles [] before = no_phases refl refl
  settled-Settles (p ∷ phases) before = elim (all_cases (p ∷ phases)) [
    | inl closed ↦ elim (failed_cases (p ∷ phases)) [
      | inl failed ↦ failing closed.0 failed.0 (rw closed.1 failed.1)
      | inr fine ↦ completing closed.0 (λ e. nonempty e) fine.0 (rw closed.1 fine.1)
    ]
    | inr still_open ↦ running still_open.0 (rw still_open.1 refl)
  ]
    where
      nonempty : p ∷ phases ≡ [] → ⊥
      nonempty e = cc
