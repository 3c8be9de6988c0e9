-- ===== src/Project/Phases/Activation.antt =====
-- `should_activate` against what its conditions mean.
use prime_hunter.Common.{
  Bool, true, false, ◌||◌, Option, none, some, List, [], ◌∷◌, ◌<◌, if◌then◌else◌, any, All, Some,
  ◌≡◌, ◌≢◌, ◌↔◌, ◌⊎◌, inl, inr, refl, sym, ap, ◌∙◌, arith, Bool-cases, Option-cases, ltb→lt, lt→ltb,
  ltb→le, le→ltb,
}
use prime_hunter.Common.Strings.{Str, codes, str_eq, str_eq→eq, str_eq→ne, str_eq_self}
use prime_hunter.Project.Json.{Json}
use prime_hunter.Project.Rows.{ProjectPhaseRow}
use prime_hunter.Project.Phases.Named.{
  First, Missing, by_name-First, by_name-Missing, First-by_name, Missing-by_name,
}
use prime_hunter.Project.Phases.{
  by_name, completed_dep, found_prime, dependencies_met, none_found, condition_met, should_activate,
}

module _ (J : Json) (all_phases : List (ProjectPhaseRow J)) where
  -- The phase of this name is there and completed.
  abbrev pub Completed : Str → Type 0
  Completed dep =
      (d : ProjectPhaseRow J) × First J dep d all_phases × (d.status ≡ codes "completed")

  -- The phase of this name is there and has found a prime.
  abbrev pub FoundPrime : Str → Type 0
  FoundPrime dep = (d : ProjectPhaseRow J) × First J dep d all_phases × (0 < d.total_found)

  -- The phase of this name, if there is one, has found no prime.
  abbrev pub FoundNone : Str → Type 0
  FoundNone dep =
      Missing J dep all_phases
      ⊎ ((d : ProjectPhaseRow J) × First J dep d all_phases × (d.total_found ≡ 0))

  -- The first phase of the name, or that there is none.
  named :
      (dep : Str)
      → ((by_name J dep all_phases ≡ none) × Missing J dep all_phases)
        ⊎ ((d : ProjectPhaseRow J) × (by_name J dep all_phases ≡ some d) × First J dep d all_phases)
  named dep = elim (Option-cases (by_name J dep all_phases)) [
    | inl missing ↦ inl (missing, by_name-Missing J dep all_phases missing)
    | inr there ↦ inr (there.0, there.1, by_name-First J dep there.0 all_phases there.1)
  ]

  -- The activation condition holds; one of another name always does.
  pub data Condition (deps : List Str) (condition : Option Str) : Type 0 where
    without : condition ≡ none → Condition deps condition
    found_zero :
        condition ≡ some (codes "previous_phase_found_zero")
        → All FoundNone deps
        → Condition deps condition
    found_any :
        condition ≡ some (codes "previous_phase_found_prime")
        → Some FoundPrime deps
        → Condition deps condition
    other :
        (name : Str)
        → condition ≡ some name
        → name ≢ codes "previous_phase_found_zero"
        → name ≢ codes "previous_phase_found_prime"
        → Condition deps condition

  differ : false ≡ true → ⊥
  differ e = cc

  Completed-iff : (dep : Str) → (completed_dep J (by_name J dep all_phases) ≡ true) ↔ Completed dep
  Completed-iff dep = (
    λ h. elim (named dep) [
      | inl missing ↦ absurd (differ (ap (completed_dep J) (sym missing.0) ∙ h))
      | inr there ↦ (there.0, there.2, str_eq→eq _ _ (ap (completed_dep J) (sym there.1) ∙ h))
    ],
    λ found.
        ap (completed_dep J) (First-by_name J dep found.0 all_phases found.1)
        ∙ ap (λ s. str_eq s (codes "completed")) found.2
        ∙ str_eq_self (codes "completed"),
  )

  FoundPrime-iff : (dep : Str) → (found_prime J (by_name J dep all_phases) ≡ true) ↔ FoundPrime dep
  FoundPrime-iff dep = (
    λ h. elim (named dep) [
      | inl missing ↦ absurd (differ (ap (found_prime J) (sym missing.0) ∙ h))
      | inr there ↦ (there.0, there.2, ltb→lt _ _ (ap (found_prime J) (sym there.1) ∙ h))
    ],
    λ found.
        ap (found_prime J) (First-by_name J dep found.0 all_phases found.1) ∙ lt→ltb _ _ found.2,
  )

  FoundNone-iff : (dep : Str) → (found_prime J (by_name J dep all_phases) ≡ false) ↔ FoundNone dep
  FoundNone-iff dep = (
    λ h. elim (named dep) [
      | inl missing ↦ inl missing.1
      | inr there ↦ inr (
        there.0,
        there.2,
        omega (arith, ltb→le 0 (there.0).total_found (ap (found_prime J) (sym there.1) ∙ h)),
      )
    ],
    λ found. elim found [
      | inl missing ↦ ap (found_prime J) (Missing-by_name J dep all_phases missing)
      | inr here ↦
          ap (found_prime J) (First-by_name J dep here.0 all_phases here.1)
          ∙ le→ltb _ _ (omega (arith, here.2))
    ],
  )

  -- A test that is an `if` on a decided part, with the part's meaning and the rest's.
  both_iff :
      {P Q : Type 0} (b c : Bool)
      → (b ≡ true) ↔ P
      → (c ≡ true) ↔ Q
      → ((if b then c else false) ≡ true) ↔ (P × Q)
  both_iff true c (to, from) (to_rest, from_rest) = (λ h. (to refl, to_rest h), λ h. from_rest h.1)
  both_iff false c (to, from) rest = (λ h. absurd cc, λ h. from h.0)

  neither_iff :
      {P Q : Type 0} (b c : Bool)
      → (b ≡ false) ↔ P
      → (c ≡ true) ↔ Q
      → ((if b then false else c) ≡ true) ↔ (P × Q)
  neither_iff true c (to, from) rest = (λ h. absurd cc, λ h. absurd (clash (from h.0)))
    where
      clash : true ≡ false → ⊥
      clash e = cc
  neither_iff false c (to, from) (to_rest, from_rest) =
      (λ h. (to refl, to_rest h), λ h. from_rest h.1)

  either_iff :
      {P Q : Type 0} (b c : Bool) → (b ≡ true) ↔ P → (c ≡ true) ↔ Q → ((b || c) ≡ true) ↔ (P ⊎ Q)
  either_iff true c (to, from) rest = (λ h. inl (to refl), λ h. refl)
  either_iff false c (to, from) (to_rest, from_rest) =
      (λ h. inr (to_rest h), λ h. elim h [ inl p ↦ absurd (clash (from p)) | inr q ↦ from_rest q ])
    where
      clash : false ≡ true → ⊥
      clash e = cc

  dependencies_met_iff :
      (deps : List Str) → (dependencies_met J deps all_phases ≡ true) ↔ All Completed deps
  unfolding dependencies_met
  dependencies_met_iff [] = (λ h. tt, λ h. refl)
  dependencies_met_iff (dep ∷ deps) =
      both_iff _ (dependencies_met J deps all_phases) (Completed-iff dep)
        (dependencies_met_iff deps)

  none_found_iff : (deps : List Str) → (none_found J deps all_phases ≡ true) ↔ All FoundNone deps
  unfolding none_found
  none_found_iff [] = (λ h. tt, λ h. refl)
  none_found_iff (dep ∷ deps) =
      neither_iff _ (none_found J deps all_phases) (FoundNone-iff dep) (none_found_iff deps)

  any_iff :
      (deps : List Str)
      → (any (λ dep_name. found_prime J (by_name J dep_name all_phases)) deps ≡ true)
        ↔ Some FoundPrime deps
  any_iff [] = (λ h. absurd cc, λ h. absurd h)
  any_iff (dep ∷ deps) = either_iff _ _ (FoundPrime-iff dep) (any_iff deps)

  Condition-to :
      (name : Str) (deps : List Str)
      → condition_met J (some name) deps all_phases ≡ true
      → Condition deps (some name)
  unfolding condition_met
  Condition-to name deps h = elim (Bool-cases (str_eq name (codes "previous_phase_found_zero"))) [
    | inl zeros ↦
        found_zero (ap some (str_eq→eq _ _ zeros)) ((none_found_iff deps).0 (chosen _ _ _ zeros h))
    | inr others ↦ elim (Bool-cases (str_eq name (codes "previous_phase_found_prime"))) [
      | inl primes ↦
          found_any (ap some (str_eq→eq _ _ primes))
            ((any_iff deps).0 (chosen _ _ _ primes (refused _ _ _ others h)))
      | inr neither ↦ other name refl (str_eq→ne name _ others) (str_eq→ne name _ neither)
    ]
  ]
    where
      chosen : (b x y : Bool) → b ≡ true → (if b then x else y) ≡ true → x ≡ true
      chosen b x y e g = ap (λ c. if c then x else y) (sym e) ∙ g

      refused : (b x y : Bool) → b ≡ false → (if b then x else y) ≡ true → y ≡ true
      refused b x y e g = ap (λ c. if c then x else y) (sym e) ∙ g

  Condition-from :
      (condition : Option Str) (deps : List Str)
      → Condition deps condition
      → condition_met J condition deps all_phases ≡ true
  unfolding condition_met
  Condition-from condition deps (without e) = rw (e, condition_met) refl
  Condition-from condition deps (found_zero e found) =
      rw (e, condition_met) ((none_found_iff deps).1 found)
  Condition-from condition deps (found_any e found) = rw (e, condition_met) ((any_iff deps).1 found)
  Condition-from condition deps (other name e z p) =
      rw (e, condition_met)
        (elim (Bool-cases (str_eq name (codes "previous_phase_found_zero"))) [
          | inl zeros ↦ absurd (z (str_eq→eq _ _ zeros))
          | inr others ↦ elim (Bool-cases (str_eq name (codes "previous_phase_found_prime"))) [
            | inl primes ↦ absurd (p (str_eq→eq _ _ primes))
            | inr neither ↦ rw (others, neither) refl
          ]
        ])

  condition_met_iff :
      (condition : Option Str) (deps : List Str)
      → (condition_met J condition deps all_phases ≡ true) ↔ Condition deps condition
  condition_met_iff none deps = (λ h. without refl, Condition-from none deps)
  condition_met_iff (some name) deps = (Condition-to name deps, Condition-from (some name) deps)

  -- The test that a phase has to pass before it is activated succeeds exactly when, for each name it
  -- depends on, the first phase of the name is there and completed, and its activation condition
  -- holds: there is none, or it is previous_phase_found_zero and no such phase has found a prime, or
  -- previous_phase_found_prime and one has, or another name.
  pub should_activate_iff :
      (phase : ProjectPhaseRow J)
      → (should_activate J phase all_phases ≡ true)
        ↔ (All Completed phase.depends_on × Condition phase.depends_on phase.activation_condition)
  unfolding should_activate
  should_activate_iff phase =
      both_iff _ (condition_met J phase.activation_condition phase.depends_on all_phases)
        (dependencies_met_iff phase.depends_on)
        (condition_met_iff phase.activation_condition phase.depends_on)
