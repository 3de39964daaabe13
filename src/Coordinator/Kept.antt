-- ===== src/Coordinator/Kept.antt =====
-- The loops of `investigate` in src/yamazaki/service.py keep an invariant, and never raise.
use yamazaki_incubator.Base.{
  ◌≡◌, true, Option, none, some, List, [], ◌∷◌, ◌++◌, String, contains, ==-refl, string_eq, arith,
}
use yamazaki_incubator.Base.Exec.{Exec, pure}
use yamazaki_incubator.Numbers.{Float}
use yamazaki_incubator.Engines.{RawQueryRecord}
use yamazaki_incubator.Ports.{EngineAdapter}
use yamazaki_incubator.Contracts.{InvestigationRequest}
use yamazaki_incubator.Coordinator.Frame.{Run, set_error, update}
use yamazaki_incubator.Coordinator.{
  Config, get_adapter, handle_query, handle_queries, investigate_cluster, visit, visit_all,
  max_running_queries,
}
use yamazaki_incubator.Coordinator.Invariant.{Invariant, handle_query-Ends}
use yamazaki_incubator.Coordinator.Triple.{
  Triple, Triple-pure, Triple-if, Triple-bind, Triple-update, Triple-catch, Triple-then,
  Triple-asked,
}

module _ {W : Type 0} (C : Config W) (request : InvestigationRequest)
    (V : Invariant C request) where
  open V use {Idle, cluster_failed}

  abbrev pub Keeps : Exec (Run W) (Unit {0}) → Type 0
  Keeps m = Triple Idle m (λ _. Idle) Idle

  -- No exception leaves the statement.
  abbrev pub Settles : Exec (Run W) (Unit {0}) → Type 0
  Settles m = Triple Idle m (λ _. Idle) (λ _. ⊥)

  handle_queries-Keeps :
      (a : EngineAdapter W) (raws : List RawQueryRecord) → Keeps (handle_queries C request a raws)
  unfolding handle_queries
  handle_queries-Keeps a [] = Triple-pure tt (λ p h. h)
  handle_queries-Keeps a (raw ∷ rest) = Triple-asked C.env.cancelled _ λ stop.
      Triple-if stop (pure tt) _ (λ _. Triple-pure tt (λ p h. h))
        λ _.
          Triple-bind (λ _. Idle) (handle_query C request a raw) _
            (handle_query-Ends C request V a raw) λ _. handle_queries-Keeps a rest

  investigate_cluster-Keeps : (a : EngineAdapter W) → Keeps (investigate_cluster C request a)
  unfolding investigate_cluster
  investigate_cluster-Keeps a =
      Triple-then (C.repository.save_cluster a.target) _ (λ p h. h)
        λ _.
          Triple-then a.probe_capabilities _ (λ p h. h)
            λ capability.
              Triple-then (C.repository.save_capability capability) _ (λ p h. h)
                λ _.
                  Triple-then (a.collect_completed_queries request.window_start request.window_end)
                    _ (λ p h. h)
                    λ completed.
                      Triple-then (a.collect_running_queries max_running_queries) _ (λ p h. h)
                        λ running. handle_queries-Keeps a (completed ++ running)

  abbrev pub Asked : String → Type 0
  Asked id = contains request.cluster_ids id ≡ true

  set_error-Settles : (id e : String) → Asked id → Settles (update (set_error id e))
  set_error-Settles id e asked =
      Triple-update (set_error id e) (λ p h. cluster_failed id e p asked h)

  pub visit-Settles :
      (id : String) (o : Option (EngineAdapter W)) → Asked id → Settles (visit C request id o)
  unfolding visit
  visit-Settles id none asked = set_error-Settles id "cluster_not_configured" asked
  visit-Settles id (some a) asked =
      Triple-catch (investigate_cluster C request a) _ (investigate_cluster-Keeps a)
        λ e. set_error-Settles id e asked

  pub visit_all-Settles :
      (started : Float) (ids : List String)
      → ((id : String) → contains ids id ≡ true → contains request.cluster_ids id ≡ true)
      → Triple Idle (visit_all C request started ids) (λ _. Idle) (λ _. ⊥)
  unfolding visit_all
  visit_all-Settles started [] asked = Triple-pure tt (λ p h. h)
  visit_all-Settles started (id ∷ rest) asked = Triple-asked C.env.cancelled _ λ stop.
      Triple-if stop (pure tt) _ (λ _. Triple-pure tt (λ p h. h))
        λ _. Triple-asked C.env.monotonic _ λ now.
          Triple-if (C.F.lt (C.F.of_int request.budget.deadline_seconds) (C.F.sub now started)) _ _
            (λ _. set_error-Settles id "investigation_deadline_exceeded" here)
            λ _.
              Triple-bind (λ _. Idle) (visit C request id (get_adapter C.adapters id)) _
                (visit-Settles id (get_adapter C.adapters id) here)
                λ _. visit_all-Settles started rest (λ j h. asked j (ground arith))
    where
      here : Asked id
      here = asked id (rw (==-refl id))
