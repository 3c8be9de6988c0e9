-- ===== src/Project/Tick/Views.antt =====
-- The end of a tick, step by step, on what it leaves in the row of the project.
use prime_hunter.Common.{
  ℕ, ◌+◌, Bool, false, ◌&&◌, not, none, some, List, [], ◌∷◌, if◌then◌else◌, all, ◌≡◌, refl, ap, ◌∙◌,
  Outcome, ok, panic, arith, Option-cases, inl, inr,
}
use prime_hunter.Common.Strings.{Str, codes}
use prime_hunter.Common.State.{Run, ◌>>=◌, checked}
use prime_hunter.Project.Json.{Json}
use prime_hunter.Project.Rows.{Floats, ProjectRow, ProjectPhaseRow}
use prime_hunter.Project.Store.{
  Store, World, get_project_phases, update_project_status, update_project_progress,
  update_project_cost, update_project_best_prime, insert_project_event,
}
use prime_hunter.Project.Tick.{
  sum_tested, sum_found, sum_hours, cost_of, link_best, is_terminal, is_empty, new_status, settle,
  check_budget, aggregate, budget_field,
}

module _ (J : Json) (F : Floats J) (to_string : ℕ → Str) (w : World J F)
    (project : ProjectRow J F) where
  abbrev pub View : Type 0
  View = Str × F.F64 × ℕ × ℕ × List (ProjectPhaseRow J)

  -- The status, the cost and the totals of the project, and its phases.
  abbrev pub view : Store J F → View
  view s = (
    (s.project).status,
    (s.project).total_cost_usd,
    (s.project).total_tested,
    (s.project).total_found,
    s.phases,
  )

  abbrev pub over_budget : F.F64 → Bool
  over_budget cost = elim (budget_field J F to_string w project (codes "max_cost_usd")) [
    | some max_cost ↦ F.at_least cost max_cost
    | none ↦ false
  ]

  abbrev pub settled : List (ProjectPhaseRow J) → Str → Str
  settled phases status =
      if all (is_terminal J F to_string w project) phases
        && not (is_empty J F to_string w project phases)
      then new_status J F to_string w project phases
      else status

  -- The jobs of the phases, and their hours added up.
  abbrev pub jobs_of : List (ProjectPhaseRow J) → List ℕ
  jobs_of [] = []
  jobs_of (phase ∷ phases) = elim phase.search_job_id [
    | some job_id ↦ job_id ∷ jobs_of phases
    | none ↦ jobs_of phases
  ]

  abbrev pub hours_of : F.F64 → List ℕ → F.F64
  hours_of total [] = total
  hours_of total (job_id ∷ job_ids) = hours_of (F.add total (w.core_hours job_id)) job_ids

  module _ (no_fault : (n : ℕ) → w.fails n ≡ false) where
    settle-view :
        (phases : List (ProjectPhaseRow J)) (s : Store J F)
        → ((settle J F to_string w project phases s).0 ≡ some tt)
          × (view (settle J F to_string w project phases s).1 ≡ (
            settled phases (s.project).status,
            (s.project).total_cost_usd,
            (s.project).total_tested,
            (s.project).total_found,
            s.phases,
          ))
    unfolding settle update_project_status insert_project_event
    settle-view phases s = ground (arith, no_fault s.calls, no_fault (s.calls + 1))

    check_budget-view :
        (cost : F.F64) (s : Store J F)
        → ((check_budget J F to_string w project cost s).0 ≡ some tt)
          × (view (check_budget J F to_string w project cost s).1 ≡ (
            if over_budget cost then codes "paused" else (s.project).status,
            (s.project).total_cost_usd,
            (s.project).total_tested,
            (s.project).total_found,
            s.phases,
          ))
    unfolding check_budget update_project_status insert_project_event
    check_budget-view cost s = ground (arith, no_fault s.calls, no_fault (s.calls + 1))

    link_best-view :
        (s : Store J F)
        → ((link_best J F to_string w project s).0 ≡ some tt)
          × (view (link_best J F to_string w project s).1 ≡ view s)
    unfolding link_best update_project_best_prime
    link_best-view s = ground (arith, no_fault s.calls, no_fault (s.calls + 1))

    sum_hours-view :
        (total : F.F64) (phases : List (ProjectPhaseRow J)) (s : Store J F)
        → ((sum_hours J F to_string w project total phases s).0
            ≡ some (hours_of total (jobs_of phases)))
          × (view (sum_hours J F to_string w project total phases s).1 ≡ view s)
    unfolding sum_hours
    sum_hours-view total [] s = (refl, refl)
    sum_hours-view total (phase ∷ phases) s = elim (Option-cases phase.search_job_id) [
      | inl no_job ↦ let (e, v) = sum_hours-view total phases s in (rw no_job e, rw no_job v)
      | inr job ↦
          let (e, v) =
            sum_hours-view (F.add total (w.core_hours job.0)) phases
              (record s { calls = s.calls + 1 }) in
          (rw (job.1, no_fault s.calls) e, rw (job.1, no_fault s.calls) v)
    ]

    progress-view :
        (tested found : ℕ) (s : Store J F)
        → ((update_project_progress J F w tested found s).0 ≡ some tt)
          × (view (update_project_progress J F w tested found s).1
              ≡ ((s.project).status, (s.project).total_cost_usd, tested, found, s.phases))
    unfolding update_project_progress
    progress-view tested found s = ground (arith, no_fault s.calls)

    cost-view :
        (hours cost : F.F64) (s : Store J F)
        → ((update_project_cost J F w hours cost s).0 ≡ some tt)
          × (view (update_project_cost J F w hours cost s).1 ≡ (
            (s.project).status,
            cost,
            (s.project).total_tested,
            (s.project).total_found,
            s.phases,
          ))
    unfolding update_project_cost
    cost-view hours cost s = ground (arith, no_fault s.calls)

    phases-view :
        (s : Store J F)
        → ((get_project_phases J F w s).0 ≡ some s.phases)
          × (view (get_project_phases J F w s).1 ≡ view s)
    phases-view s = ground (arith, no_fault s.calls)

    -- One step that succeeds, and the rest.
    then_lem :
        {A B : Type 0} (m : Run (Store J F) A) (f : A → Run (Store J F) B) (s : Store J F) (a : A)
        → (m s).0 ≡ some a
        → (m >>= f) s ≡ f a (m s).1
    then_lem m f s a e = rw (e, ◌>>=◌) refl

    -- What is left of the end of a tick after each of its steps.
    abbrev after_settle : F.F64 → Unit {0} → Run (Store J F) (Unit {0})
    after_settle hours done =
        check_budget J F to_string w project (cost_of J F to_string w project hours)

    abbrev after_link : List (ProjectPhaseRow J) → F.F64 → Unit {0} → Run (Store J F) (Unit {0})
    after_link phases hours done = settle J F to_string w project phases >>= after_settle hours

    abbrev after_cost : List (ProjectPhaseRow J) → F.F64 → Unit {0} → Run (Store J F) (Unit {0})
    after_cost phases hours done = link_best J F to_string w project >>= after_link phases hours

    abbrev after_hours : List (ProjectPhaseRow J) → F.F64 → Run (Store J F) (Unit {0})
    after_hours phases hours =
        update_project_cost J F w hours (cost_of J F to_string w project hours)
        >>= after_cost phases hours

    abbrev after_progress : List (ProjectPhaseRow J) → Unit {0} → Run (Store J F) (Unit {0})
    after_progress phases done =
        sum_hours J F to_string w project F.zero_usd phases >>= after_hours phases

    abbrev after_found : List (ProjectPhaseRow J) → ℕ → ℕ → Run (Store J F) (Unit {0})
    after_found phases tested found =
        update_project_progress J F w tested found >>= after_progress phases

    abbrev after_tested : List (ProjectPhaseRow J) → ℕ → Run (Store J F) (Unit {0})
    after_tested phases tested =
        checked (sum_found J F to_string w project phases) >>= after_found phases tested

    abbrev after_phases : List (ProjectPhaseRow J) → Run (Store J F) (Unit {0})
    after_phases phases =
        checked (sum_tested J F to_string w project phases) >>= after_tested phases

    then_lem_checked :
        {A B : Type 0} (m : Outcome A) (f : A → Run (Store J F) B) (a : A) (s : Store J F)
        → m ≡ ok a
        → (checked m >>= f) s ≡ f a s
    then_lem_checked (ok b) f a s e = ap (λ x. f x s) (ok-inj e)
      where
        ok-inj : {A : Type 0} {x y : A} → ok x ≡ ok y → x ≡ y
        ok-inj h = cc
    then_lem_checked panic f a s e = absurd cc

    -- The views after the seven steps, in order.
    combine :
        (over : Bool) (close : Str → Str) (cost : F.F64) (tested found : ℕ)
        (v u0 u1 u2 u3 u4 u5 u6 : View)
        → u0 ≡ v
        → u1 ≡ (u0.0, u0.1, tested, found, u0.4)
        → u2 ≡ u1
        → u3 ≡ (u2.0, cost, u2.2, u2.3, u2.4)
        → u4 ≡ u3
        → u5 ≡ (close u4.0, u4.1, u4.2, u4.3, u4.4)
        → u6 ≡ (if over then codes "paused" else u5.0, u5.1, u5.2, u5.3, u5.4)
        → u6 ≡ (if over then codes "paused" else close v.0, cost, tested, found, v.4)
    combine over close cost tested found v u0 u1 u2 u3 u4 u5 u6 p0 p1 p2 p3 p4 p5 p6 =
        rw (p6, p5, p4, p3, p2, p1, p0) refl

    -- When no call fails and the sums do not overflow: the result, and the view of the row.
    pub aggregate-view :
        (s : Store J F) (tested found : ℕ)
        → sum_tested J F to_string w project s.phases ≡ ok tested
        → sum_found J F to_string w project s.phases ≡ ok found
        → let cost = cost_of J F to_string w project (hours_of F.zero_usd (jobs_of s.phases)) in
          ((aggregate J F to_string w project s).0 ≡ some tt)
          × (view (aggregate J F to_string w project s).1 ≡ (
            if over_budget cost then codes "paused" else settled s.phases (s.project).status,
            cost,
            tested,
            found,
            s.phases,
          ))
    unfolding aggregate
    aggregate-view s tested found sum_t sum_f =
        let (e0, v0) = phases-view s in
        let s0 = (get_project_phases J F w s).1 in
        let (e1, v1) = progress-view tested found s0 in
        let s1 = (update_project_progress J F w tested found s0).1 in
        let hours = hours_of F.zero_usd (jobs_of s.phases) in
        let (e2, v2) = sum_hours-view F.zero_usd s.phases s1 in
        let s2 = (sum_hours J F to_string w project F.zero_usd s.phases s1).1 in
        let cost = cost_of J F to_string w project hours in
        let (e3, v3) = cost-view hours cost s2 in
        let s3 = (update_project_cost J F w hours cost s2).1 in
        let (e4, v4) = link_best-view s3 in
        let s4 = (link_best J F to_string w project s3).1 in
        let (e5, v5) = settle-view s.phases s4 in
        let s5 = (settle J F to_string w project s.phases s4).1 in
        let (e6, v6) = check_budget-view cost s5 in
        let run : aggregate J F to_string w project s
            ≡ check_budget J F to_string w project cost s5 =
          then_lem (get_project_phases J F w) after_phases s s.phases e0
          ∙ then_lem_checked (sum_tested J F to_string w project s.phases) (after_tested s.phases)
              tested s0 sum_t
          ∙ then_lem_checked (sum_found J F to_string w project s.phases)
              (after_found s.phases tested) found s0 sum_f
          ∙ then_lem (update_project_progress J F w tested found) (after_progress s.phases) s0 tt e1
          ∙ then_lem (sum_hours J F to_string w project F.zero_usd s.phases) (after_hours s.phases)
              s1 hours e2
          ∙ then_lem (update_project_cost J F w hours cost) (after_cost s.phases hours) s2 tt e3
          ∙ then_lem (link_best J F to_string w project) (after_link s.phases hours) s3 tt e4
          ∙ then_lem (settle J F to_string w project s.phases) (after_settle hours) s4 tt e5 in
        (
          ap (λ r. r.0) run ∙ e6,
          ap (λ r. view r.1) run
              ∙ combine (over_budget cost) (settled s.phases) cost tested found (view s) (view s0)
                  (view s1) (view s2) (view s3) (view s4) (view s5) _ v0 v1 v2 v3 v4 v5 v6,
        )
