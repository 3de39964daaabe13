-- ===== src/Coordinator/Outcome.antt =====
-- How `investigate` of src/yamazaki/service.py ends.
use yamazaki_incubator.Base.{
  ◌≡◌, refl, Bool, true, false, Option, none, some, List, [], ◌∷◌, String, subst, ap, sym,
}
use yamazaki_incubator.Base.Result.{ok}
use yamazaki_incubator.Contracts.{
  QueryRun, InvestigationState, running, succeeded, degraded, failed, cancelled,
  InvestigationRequest, InvestigationResult,
}
use yamazaki_incubator.Coordinator.Frame.{Progress, Run, no_progress, on_world}
use yamazaki_incubator.Coordinator.{Config, visit_all, result_of, run_all, investigate, final_state}
use yamazaki_incubator.Coordinator.Invariant.{Invariant}
use yamazaki_incubator.Coordinator.Kept.{visit_all-Settles}
use yamazaki_incubator.Coordinator.Triple.{
  Post-ok, Triple, Triple-pure, Triple-sure, Triple-bind, Triple-asked, Triple-from,
  Triple-bind-gets,
}

module _ {W : Type 0} (C : Config W) (request : InvestigationRequest) where
  -- The repository saves the investigation itself without raising.
  abbrev pub Saves : Type 0
  Saves =
      (result : Option InvestigationResult) (w : W)
      → (C.repository.save_investigation request result w).0 ≡ ok tt

  -- `investigate` returns a result with the property.
  abbrev pub Returns : W → (InvestigationResult → Type 0) → Type 0
  Returns w Q = (r : InvestigationResult) × ((investigate C request w).0 ≡ ok r) × Q r

  abbrev Reports : (Progress → Type 0) → InvestigationResult → Progress → Type 0
  Reports Q r p = ((b : Bool) × (r ≡ result_of C request b p)) × Q p

  run_all-ends :
      (P Q : Progress → Type 0)
      → Saves
      → ((u : W)
          → Triple P
              (visit_all C request (C.env.monotonic u).0 request.cluster_ids)
              (λ _. Q)
              (λ _. ⊥))
      → Triple P (run_all C request) (Reports Q) (λ _. ⊥)
  unfolding run_all
  run_all-ends P Q saves all =
      Triple-bind (λ _. P) (on_world (C.repository.save_investigation request none)) _
        (Triple-sure _ (saves none))
        λ _. Triple-from C.env.monotonic _ λ u.
          Triple-bind (λ _. Q) (visit_all C request (C.env.monotonic u).0 request.cluster_ids) _
            (all u)
            λ _. Triple-asked C.env.cancelled _ λ b.
              Triple-bind-gets (λ p. p) _
                λ p.
                  Triple-bind (λ _ p'. Q p' × (p' ≡ p))
                    (on_world
                      (C.repository.save_investigation request (some (result_of C request b p))))
                    _ (Triple-sure _ (saves (some (result_of C request b p))))
                    λ _.
                      Triple-pure (result_of C request b p)
                        (λ p' (q, e). ((b, ap (λ x. result_of C request b x) (sym e)), q))

  -- Whatever the loops establish holds of the lists of the result.
  pub investigate-Returns :
      (P Q : Progress → Type 0) (R : InvestigationResult → Type 0) (w : W)
      → Saves
      → P no_progress
      → ((u : W)
          → Triple P
              (visit_all C request (C.env.monotonic u).0 request.cluster_ids)
              (λ _. Q)
              (λ _. ⊥))
      → ((b : Bool) (p : Progress) → Q p → R (result_of C request b p))
      → Returns w R
  unfolding investigate
  investigate-Returns P Q R w saves start all_clusters fits =
      let s : Run W = record { progress = no_progress; world = w } in
      let (r, s') = run_all C request s in
      let (a, e, rest) =
        Post-ok (Reports Q) r s' ((run_all-ends P Q saves all_clusters).at s start) in
      let (bf, q) = rest in let (b, f) = bf in (a, e, subst R (sym f) (fits b s'.progress q))

  -- For the conditions of an invariant the loops establish them.
  pub Invariant-Returns :
      (V : Invariant C request) (R : InvestigationResult → Type 0) (w : W)
      → Saves
      → V.Idle no_progress
      → ((b : Bool) (p : Progress) → V.Idle p → R (result_of C request b p))
      → Returns w R
  Invariant-Returns V R w saves start fits =
      investigate-Returns V.Idle V.Idle R w saves start
        (λ u. visit_all-Settles C request V (C.env.monotonic u).0 request.cluster_ids (λ id h. h))
        fits

-- What the final state says of the errors and the listed queries.
abbrev pub StateFits : InvestigationState → List (String × String) → List QueryRun → Type 0
StateFits running errors query_runs = ⊥
StateFits succeeded errors query_runs = errors ≡ []
StateFits degraded errors query_runs = ¬ (errors ≡ []) × ¬ (query_runs ≡ [])
StateFits failed errors query_runs = ¬ (errors ≡ []) × (query_runs ≡ [])
StateFits cancelled errors query_runs = Unit

final_state-StateFits :
    (b : Bool) (errors : List (String × String)) (query_runs : List QueryRun)
    → StateFits (final_state b errors query_runs) errors query_runs
unfolding final_state
final_state-StateFits true errors query_runs = tt
final_state-StateFits false [] query_runs = refl
final_state-StateFits false (e ∷ errors) [] = ((λ h. cc), refl)
final_state-StateFits false (e ∷ errors) (q ∷ query_runs) = ((λ h. cc), (λ h. cc))

module _ {W : Type 0} (C : Config W) (request : InvestigationRequest) where
  -- The invariant of which nothing is asked.
  abbrev pub anything : Invariant C request
  anything = record {
    Idle = λ _. Unit;
    Listed = λ _ _. Unit;
    Due = λ _. Unit;
    query_listed = λ _ _ _. tt;
    detection_listed = λ _ _ _ _ _. tt;
    diagnosis_listed = λ _ _ _ _. tt;
    call_counted = λ _ _ _. tt;
    agent_failed = λ _ _ _ _. tt;
    cluster_failed = λ _ _ _ _ _. tt;
    listed_idle = λ _ _ _. tt;
    due_idle = λ _ _. tt;
  }

  -- Where the repository saves the investigation itself without raising, `investigate` returns a
  -- result, whatever its other ports raise. The final state is never `running`: `succeeded`
  -- means no errors, `degraded` errors beside listed queries, and `failed` errors and no query.
  pub investigate-StateFits :
      (w : W) → Saves C request → Returns C request w (λ r. StateFits r.state r.errors r.query_runs)
  investigate-StateFits w saves =
      Invariant-Returns C request anything _ w saves tt
        (λ b p h. final_state-StateFits b p.errors p.query_runs)
