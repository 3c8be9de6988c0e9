-- ===== src/Project/Phases/Fleet.antt =====
-- `check_fleet_requirements` against what a fleet has to offer.
use prime_hunter.Common.{
  ℕ, none, some, List, [], ◌∷◌, ◌≤◌, any, All, Some, ap, ◌≡◌, ◌↔◌, inl, inr, refl, arith,
  Bool-cases, Option-cases,
}
use prime_hunter.Common.Strings.{Str, codes, str_eq, str_eq→eq}
use prime_hunter.Project.Json.{Json}
use prime_hunter.Project.Rows.{FleetSummary}
use prime_hunter.Project.Phases.Substring.{Within, any-Within-to, any-Within-from}
use prime_hunter.Project.Phases.{
  and_then, contains, short_of, missing_tool, check_tools, check_ram, check_cores,
  check_fleet_requirements,
}

module _ (J : Json) (to_string : ℕ → Str) where
  -- The figure reaches the requirement, if there is one that is a number.
  pub data Reaches (infrastructure : J.Value) (key : Str) (figure : ℕ) : Type 0 where
    unstated :
        and_then (J.get infrastructure key) J.as_u64 ≡ none → Reaches infrastructure key figure
    reached :
        (least : ℕ)
        → and_then (J.get infrastructure key) J.as_u64 ≡ some least
        → least ≤ figure
        → Reaches infrastructure key figure

  -- A tool that has a name that is not empty: the name is a part of some active search type.
  pub data Runs (types : List Str) (tool : J.Value) : Type 0 where
    unnamed : J.as_str tool ≡ none → Runs types tool
    empty : (name : Str) → J.as_str tool ≡ some name → name ≡ [] → Runs types tool
    runs : (name : Str) → J.as_str tool ≡ some name → Some (Within name) types → Runs types tool

  pub data HasTools (infrastructure : J.Value) (types : List Str) : Type 0 where
    no_tools :
        and_then (J.get infrastructure (codes "required_tools")) J.as_array ≡ none
        → HasTools infrastructure types
    tools :
        (list : List J.Value)
        → and_then (J.get infrastructure (codes "required_tools")) J.as_array ≡ some list
        → All (Runs types) list
        → HasTools infrastructure types

  short_of-to :
      (infrastructure : J.Value) (key : Str) (figure : ℕ)
      → short_of J to_string infrastructure key figure ≡ none
      → Reaches infrastructure key figure
  unfolding short_of
  short_of-to infrastructure key figure h =
      elim (Option-cases (and_then (J.get infrastructure key) J.as_u64)) [
        | inl missing ↦ unstated missing
        | inr there ↦ reached there.0 there.1 (ground (arith, there.1, h))
      ]

  short_of-from :
      (infrastructure : J.Value) (key : Str) (figure : ℕ)
      → Reaches infrastructure key figure
      → short_of J to_string infrastructure key figure ≡ none
  unfolding short_of
  short_of-from infrastructure key figure (unstated e) = rw (e, short_of) refl
  short_of-from infrastructure key figure (reached least e h) = ground (arith, e, h)

  missing_tool-to :
      (list : List J.Value) (types : List Str)
      → missing_tool J to_string list types ≡ none
      → All (Runs types) list
  unfolding missing_tool
  missing_tool-to [] types h = tt
  missing_tool-to (tool ∷ list) types h = elim (Option-cases (J.as_str tool)) [
    | inl nameless ↦ (unnamed nameless, missing_tool-to list types (ground (arith, nameless, h)))
    | inr named ↦ elim (Bool-cases (str_eq named.0 [])) [
      | inl blank ↦ (
        empty named.0 named.1 (str_eq→eq named.0 [] blank),
        missing_tool-to list types (ground (arith, named.1, blank, h)),
      )
      | inr nonblank ↦ elim (Bool-cases (any (λ s. contains s named.0) types)) [
        | inl found ↦ (
          runs named.0 named.1 (any-Within-to named.0 types found),
          missing_tool-to list types (ground (arith, named.1, found, nonblank, h)),
        )
        | inr lacking ↦ absurd (ground (arith, named.1, lacking, nonblank, h))
      ]
    ]
  ]

  missing_tool-from :
      (list : List J.Value) (types : List Str)
      → All (Runs types) list
      → missing_tool J to_string list types ≡ none
  unfolding missing_tool
  missing_tool-from [] types h = refl
  missing_tool-from (tool ∷ list) types (unnamed e, rest) =
      ground (arith, e, missing_tool-from list types rest)
  missing_tool-from (tool ∷ list) types (empty name e b, rest) =
      ground (arith, e, ap (λ s. str_eq s []) b, missing_tool-from list types rest)
  missing_tool-from (tool ∷ list) types (runs name e b, rest) =
      ground (arith, e, any-Within-from name types b, missing_tool-from list types rest)

  check_tools-to :
      (infrastructure : J.Value) (fleet : FleetSummary)
      → check_tools J to_string infrastructure fleet ≡ none
      → HasTools infrastructure fleet.active_search_types
  unfolding check_tools
  check_tools-to infrastructure fleet h =
      elim (Option-cases (and_then (J.get infrastructure (codes "required_tools")) J.as_array)) [
        | inl missing ↦ no_tools missing
        | inr there ↦
            tools there.0 there.1
              (missing_tool-to there.0 fleet.active_search_types (ground (arith, there.1, h)))
      ]

  check_tools-from :
      (infrastructure : J.Value) (fleet : FleetSummary)
      → HasTools infrastructure fleet.active_search_types
      → check_tools J to_string infrastructure fleet ≡ none
  unfolding check_tools
  check_tools-from infrastructure fleet (no_tools e) = ground (arith, e)
  check_tools-from infrastructure fleet (tools list e all_run) =
      ground (arith, e, missing_tool-from list fleet.active_search_types all_run)

  -- The chain goes on exactly when the figure is not short.
  check_fleet-parts :
      (infrastructure : J.Value) (fleet : FleetSummary)
      → (check_fleet_requirements J to_string infrastructure fleet ≡ none) ↔ (
          (short_of J to_string infrastructure (codes "min_workers") fleet.worker_count ≡ none)
          × (short_of J to_string infrastructure (codes "min_cores") fleet.total_cores ≡ none)
          × (short_of J to_string infrastructure (codes "min_ram_gb") fleet.max_ram_gb ≡ none)
          × (check_tools J to_string infrastructure fleet ≡ none))
  unfolding check_fleet_requirements check_cores check_ram
  check_fleet-parts infrastructure fleet = ground arith

  -- No reason is given exactly when the fleet has the workers and the cores and its best worker the
  -- memory that the project asks for, each if it is given as a number, and the name of every required
  -- tool, if it is text, is a substring of an active search type.
  pub check_fleet_requirements_iff :
      (infrastructure : J.Value) (fleet : FleetSummary)
      → (check_fleet_requirements J to_string infrastructure fleet ≡ none) ↔ (
          Reaches infrastructure (codes "min_workers") fleet.worker_count
          × Reaches infrastructure (codes "min_cores") fleet.total_cores
          × Reaches infrastructure (codes "min_ram_gb") fleet.max_ram_gb
          × HasTools infrastructure fleet.active_search_types)
  check_fleet_requirements_iff infrastructure fleet =
      let (to, from) = check_fleet-parts infrastructure fleet in
      (
        λ h. (
          short_of-to infrastructure (codes "min_workers") fleet.worker_count (to h).0,
          short_of-to infrastructure (codes "min_cores") fleet.total_cores (to h).1,
          short_of-to infrastructure (codes "min_ram_gb") fleet.max_ram_gb (to h).2,
          check_tools-to infrastructure fleet (to h).3,
        ),
        λ (w, c, r, t). from (
          short_of-from infrastructure (codes "min_workers") fleet.worker_count w,
          short_of-from infrastructure (codes "min_cores") fleet.total_cores c,
          short_of-from infrastructure (codes "min_ram_gb") fleet.max_ram_gb r,
          check_tools-from infrastructure fleet t,
        ),
      )
