-- ===== src/Project/Phases/Named.antt =====
-- The search of a phase by its name against the first phase that has it.
use prime_hunter.Common.{
  none, some, List, [], ◌∷◌, All, find, ◌≡◌, ◌≢◌, ◌⊎◌, inl, inr, refl, sym, ap, ◌∙◌, Bool-cases,
}
use prime_hunter.Common.Strings.{Str, str_eq, str_eq→eq, str_eq→ne}
use prime_hunter.Project.Json.{Json}
use prime_hunter.Project.Rows.{ProjectPhaseRow}
use prime_hunter.Project.Phases.{by_name}

module _ (J : Json) where
  -- `d` is the first phase that has the name.
  abbrev pub First : Str → ProjectPhaseRow J → List (ProjectPhaseRow J) → Type 0
  First dep d [] = ⊥
  First dep d (p ∷ phases) = ((p.name ≡ dep) × (d ≡ p)) ⊎ ((p.name ≢ dep) × First dep d phases)

  -- No phase has the name.
  abbrev pub Missing : Str → List (ProjectPhaseRow J) → Type 0
  Missing dep phases = All (λ p. p.name ≢ dep) phases

  by_name-cons :
      (dep : Str) (p : ProjectPhaseRow J) (phases : List (ProjectPhaseRow J))
      → ((p.name ≡ dep) × (by_name J dep (p ∷ phases) ≡ some p))
        ⊎ ((p.name ≢ dep) × (by_name J dep (p ∷ phases) ≡ by_name J dep phases))
  by_name-cons dep p phases = elim (Bool-cases (str_eq p.name dep)) [
    | inl same ↦ inl (str_eq→eq p.name dep same, rw (same, by_name, find) refl)
    | inr other ↦ inr (str_eq→ne p.name dep other, rw (other, by_name, find) refl)
  ]

  pub by_name-First :
      (dep : Str) (d : ProjectPhaseRow J) (phases : List (ProjectPhaseRow J))
      → by_name J dep phases ≡ some d
      → First dep d phases
  by_name-First dep d [] h = absurd cc
  by_name-First dep d (p ∷ phases) h = elim (by_name-cons dep p phases) [
    | inl here ↦ inl (here.0, some-inj (sym h ∙ here.1))
    | inr later ↦ inr (later.0, by_name-First dep d phases (sym later.1 ∙ h))
  ]
    where
      some-inj : {a b : ProjectPhaseRow J} → some a ≡ some b → a ≡ b
      some-inj e = cc

  pub by_name-Missing :
      (dep : Str) (phases : List (ProjectPhaseRow J))
      → by_name J dep phases ≡ none
      → Missing dep phases
  by_name-Missing dep [] h = tt
  by_name-Missing dep (p ∷ phases) h = elim (by_name-cons dep p phases) [
    | inl here ↦ absurd (clash (sym h ∙ here.1))
    | inr later ↦ (later.0, by_name-Missing dep phases (sym later.1 ∙ h))
  ]
    where
      clash : {a : ProjectPhaseRow J} → none ≡ some a → ⊥
      clash e = cc

  pub First-by_name :
      (dep : Str) (d : ProjectPhaseRow J) (phases : List (ProjectPhaseRow J))
      → First dep d phases
      → by_name J dep phases ≡ some d
  First-by_name dep d [] h = absurd h
  First-by_name dep d (p ∷ phases) h = elim (by_name-cons dep p phases) [
    | inl here ↦ elim h [
      | inl found ↦ here.1 ∙ ap some (sym found.1)
      | inr later ↦ absurd (later.0 here.0)
    ]
    | inr other ↦ elim h [
      | inl found ↦ absurd (other.0 found.0)
      | inr later ↦ other.1 ∙ First-by_name dep d phases later.1
    ]
  ]

  pub Missing-by_name :
      (dep : Str) (phases : List (ProjectPhaseRow J))
      → Missing dep phases
      → by_name J dep phases ≡ none
  Missing-by_name dep [] h = refl
  Missing-by_name dep (p ∷ phases) h = elim (by_name-cons dep p phases) [
    | inl here ↦ absurd (h.0 here.0)
    | inr other ↦ other.1 ∙ Missing-by_name dep phases h.1
  ]
