-- ===== src/Coordinator/Integrity.antt =====
-- The statements of `investigate` in src/yamazaki/service.py against the rows that are there.
use yamazaki_incubator.Base.{
  ◌≡◌, refl, Option, none, some, List, [], ◌∷◌, ◌++◌, String, All, All-append, take, ltb,
}
use yamazaki_incubator.Base.Result.{Result, ok, raised}
use yamazaki_incubator.Base.Exec.{Exec, pure}
use yamazaki_incubator.Numbers.{Float}
use yamazaki_incubator.Engines.{RawQueryRecord}
use yamazaki_incubator.Normalization.{normalize_query, query_summary_evidence, persist_raw_evidence}
use yamazaki_incubator.Detector
use yamazaki_incubator.Detector.Decision.{detect-query_run_id}
use yamazaki_incubator.Diagnosis
use yamazaki_incubator.Ports.{EngineAdapter, AgentDiagnoser}
use yamazaki_incubator.Contracts.{
  QueryRun, EvidenceRef, EvidenceBundle, bundle_of, DetectionResult, Diagnosis, Recommendation,
  InvestigationRequest,
}
use yamazaki_incubator.Coordinator.Frame.{
  Run, no_progress, attempt, update, count_model_call, set_error, list_query, list_detection,
  list_diagnosis, on_world,
}
use yamazaki_incubator.Coordinator.Rows.{
  Tables, RowKey, cluster, query, Step, Step-pure, Step-lift, Step-if, Step-update, Step-bind,
  Step-asked, Step-gets, Step-weaken, Step-catch, Step-send,
}
use yamazaki_incubator.Coordinator.References.{
  Surroundings, OwnCluster, Linked, Outcome, normalize_query-cluster_id,
  query_summary_evidence-query_run_id, diagnose-Linked, persist_raw_evidence-Port, attempt-Port,
}
use yamazaki_incubator.Coordinator.{
  Config, get_adapter, detect_with, collect_detail, decide, report, diagnose_by_rules,
  report_assisted, call_agent, diagnose_by_agent, diagnose_anomaly, settle, examine, handle_query,
  handle_queries, investigate_cluster, visit, visit_all, max_running_queries, run_all, investigate,
}

module _ {W : Type 0} (C : Config W) (request : InvestigationRequest) (T : Tables W)
    (around : Surroundings C T) where
  open around use {saves}

  -- A statement that returns nothing of interest, where these rows are.
  abbrev Safe : List RowKey → {A : Type 0} → Exec (Run W) A → Type 0
  Safe need m = Step T need m (λ _. Unit) (λ _. [])

  report-Safe :
      (q : QueryRun) (o : Option (Diagnosis × Recommendation))
      → Linked q o
      → Safe (query q.query_run_id ∷ []) (report C request o)
  unfolding report
  report-Safe q none h = Step-pure T tt tt
  report-Safe q (some (g, r)) h =
      Step-bind T (on_world (C.repository.save_diagnosis g)) _
        (Step-send T _ (λ w k. (rw h.0 k.0, tt)) (saves.diagnoses g))
        λ _ _.
          Step-bind T (on_world (C.repository.save_recommendation r)) _
            (Step-send T _ (λ w k. (rw h.1 k.0, tt)) (saves.recommendations r))
            λ _ _. Step-update T (list_diagnosis g r)

  diagnose_by_rules-Safe :
      (q : QueryRun) (d : DetectionResult) (b : EvidenceBundle)
      → Safe (query q.query_run_id ∷ []) (diagnose_by_rules C request q d b)
  unfolding diagnose_by_rules
  diagnose_by_rules-Safe q d b = Step-asked T C.env.uuid4 _ around.uuid4 λ i.
      Step-asked T C.env.uuid4 _ around.uuid4 λ j.
        Step-bind T _ _
          (Step-lift T (Diagnosis.diagnose C.F C.P i j q d b) (diagnose-Linked C i j q d b))
          (λ o linked. report-Safe q o linked)

  report_assisted-Safe :
      (q : QueryRun) (r : Result (Option (Diagnosis × Recommendation)))
      → Outcome C T q r
      → Safe (query q.query_run_id ∷ []) (report_assisted C request q r)
  unfolding report_assisted
  report_assisted-Safe q (ok o) h = report-Safe q o h
  report_assisted-Safe q (raised e) h = Step-update T (set_error _ e)

  call_agent-Safe :
      (a : AgentDiagnoser W) (q : QueryRun) (d : DetectionResult) (b : EvidenceBundle)
      → C.agent ≡ some a
      → Safe (query q.query_run_id ∷ []) (call_agent C request a q d b)
  unfolding call_agent
  call_agent-Safe a q d b h =
      Step-bind T (update count_model_call) _ (Step-update T count_model_call) λ _ _.
        Step-bind T (on_world (attempt (a.diagnose q d b))) _
          (Step-send T _ (λ w k. tt)
            (attempt-Port C T q (a.diagnose q d b) (around.agents a h q d b)))
          (λ r known. report_assisted-Safe q r known)

  diagnose_by_agent-Safe :
      (o : Option (AgentDiagnoser W)) (q : QueryRun) (d : DetectionResult) (b : EvidenceBundle)
      → C.agent ≡ o
      → Safe (query q.query_run_id ∷ []) (diagnose_by_agent C request o q d b)
  unfolding diagnose_by_agent
  diagnose_by_agent-Safe none q d b h = Step-pure T tt tt
  diagnose_by_agent-Safe (some a) q d b h =
      Step-gets T (λ p. p.model_calls) _
        λ n.
          Step-if T (ltb n request.budget.max_model_calls) (call_agent C request a q d b) (pure tt)
            (call_agent-Safe a q d b h) (Step-pure T tt tt)

  diagnose_anomaly-Safe :
      (q : QueryRun) (d : DetectionResult) (items : List EvidenceRef)
      → Safe (query q.query_run_id ∷ []) (diagnose_anomaly C request q d items)
  unfolding diagnose_anomaly
  diagnose_anomaly-Safe q d items =
      Step-bind T _ _
        (Step-lift T {M = λ _. Unit} (bundle_of (take request.budget.max_evidence_items items))
          (λ b e. tt))
        λ b _.
          Step-bind T (diagnose_by_rules C request q d b) _ (diagnose_by_rules-Safe q d b)
            λ _ _. diagnose_by_agent-Safe C.agent q d b refl

  -- A detection of the query.
  abbrev Detects : QueryRun → DetectionResult → Type 0
  Detects q d = d.query_run_id ≡ q.query_run_id

  detect_with-Detects :
      {need : List RowKey} (q : QueryRun) (h : List QueryRun) (items : List EvidenceRef)
      → Step T need (detect_with C request q h items) (Detects q) (λ _. [])
  unfolding detect_with
  detect_with-Detects q h items = Step-asked T C.env.uuid4 _ around.uuid4 λ i.
      Step-lift T (Detector.detect C.F C.thresholds i q h items [])
        (detect-query_run_id C.F C.thresholds i q h items [])

  collect_detail-Safe :
      (id : String) (a : EngineAdapter W) (q : QueryRun)
      → OwnCluster C T a
      → Safe (query q.query_run_id ∷ []) (collect_detail C request a q)
  unfolding collect_detail
  collect_detail-Safe id a q own =
      Step-bind T (on_world (a.collect_query_evidence q.engine_query_id)) _
        (Step-send T _ (λ w k. tt) (own.detail q.engine_query_id))
        λ raw _. Step-asked T C.env.utc_now _ around.utc_now λ now.
          Step-bind T (on_world (persist_raw_evidence C.P C.show_float C.env.write now q raw)) _
            (Step-send T _ (λ w k. tt) (persist_raw_evidence-Port C T now q raw around))
            λ detail same. Step-send T _ (λ w k. (rw same k.0, tt)) (saves.evidence detail)

  decide-Detects :
      (a : EngineAdapter W) (q : QueryRun) (h : List QueryRun) (summary : EvidenceRef)
      → OwnCluster C T a
      → Step T
          (query q.query_run_id ∷ [])
          (decide C request a q h summary)
          (λ o. Detects q o.0)
          (λ _. [])
  unfolding decide
  decide-Detects a q h summary own =
      Step-bind T (detect_with C request q h (summary ∷ [])) _
        (detect_with-Detects q h (summary ∷ []))
        λ d same.
          Step-if T d.anomaly _ (pure (d, summary ∷ []))
            (Step-bind T (collect_detail C request a q) _ (collect_detail-Safe "" a q own)
              λ detail _.
                Step-bind T (detect_with C request q h (summary ∷ detail ∷ [])) _
                  (detect_with-Detects q h (summary ∷ detail ∷ []))
                  λ again same'. Step-pure T (again, summary ∷ detail ∷ []) same')
            (Step-pure T (d, summary ∷ []) same)

  settle-Safe :
      (q : QueryRun) (d : DetectionResult) (items : List EvidenceRef)
      → Detects q d
      → Safe (query q.query_run_id ∷ []) (settle C request q d items)
  unfolding settle
  settle-Safe q d items same =
      Step-bind T (on_world (C.repository.save_detection d)) _
        (Step-send T _ (λ w k. (rw same k.0, tt)) (saves.detections d))
        λ _ _. Step-bind T (update (list_detection d)) _ (Step-update T (list_detection d)) λ _ _.
          Step-if T d.anomaly (diagnose_anomaly C request q d items) (pure tt)
            (diagnose_anomaly-Safe q d items) (Step-pure T tt tt)

  examine-Safe :
      (a : EngineAdapter W) (q : QueryRun)
      → OwnCluster C T a
      → Safe (query q.query_run_id ∷ []) (examine C request a q)
  unfolding examine
  examine-Safe a q own = Step-asked T C.env.utc_now _ around.utc_now λ now.
      Step-bind T _ _
        (Step-lift T (query_summary_evidence C.P C.show_float now q)
          (query_summary_evidence-query_run_id C now q))
        λ made same.
          Step-bind T (on_world (C.repository.save_evidence made)) _
            (Step-send T _ (λ w k. (rw same k.0, tt)) (saves.evidence made))
            λ summary _.
              Step-bind T (on_world (C.repository.list_query_history q)) _
                (Step-send T _ (λ w k. tt) (saves.history q))
                λ h _.
                  Step-bind T (decide C request a q h summary) _ (decide-Detects a q h summary own)
                    (λ o same'. settle-Safe q o.0 o.1 same')

  handle_query-Safe :
      (a : EngineAdapter W) (raw : RawQueryRecord)
      → OwnCluster C T a
      → raw.cluster_id ≡ a.target.cluster_id
      → Safe (cluster a.target.cluster_id ∷ []) (handle_query C request a raw)
  unfolding handle_query
  handle_query-Safe a raw own of_target = Step-asked T C.env.utc_now _ around.utc_now λ now.
      Step-bind T _ _
        (Step-lift T (normalize_query C.P C.show_float C.F C.G now request.investigation_id raw)
          (normalize_query-cluster_id C now request.investigation_id raw))
        λ q same.
          Step-bind T (on_world (C.repository.save_query_run q)) _
            (Step-send T _ (λ w k. (rw (same, of_target) k.0, tt)) (saves.query_runs q))
            λ saved _.
              Step-bind T (update (list_query saved)) _ (Step-update T (list_query saved)) λ _ _.
                Step-weaken T (examine C request a saved) (λ w k. (k.0, tt))
                  (examine-Safe a saved own)

  -- The raw records that an adapter collects.
  abbrev OfTarget : EngineAdapter W → List RawQueryRecord → Type 0
  OfTarget a = All (λ r. r.cluster_id ≡ a.target.cluster_id)

  handle_queries-Safe :
      (a : EngineAdapter W) (raws : List RawQueryRecord)
      → OwnCluster C T a
      → OfTarget a raws
      → Safe (cluster a.target.cluster_id ∷ []) (handle_queries C request a raws)
  unfolding handle_queries
  handle_queries-Safe a [] own h = Step-pure T tt tt
  handle_queries-Safe a (raw ∷ rest) own h = Step-asked T C.env.cancelled _ around.cancelled λ stop.
      Step-if T stop (pure tt) _ (Step-pure T tt tt) (
        Step-bind T (handle_query C request a raw) _ (handle_query-Safe a raw own h.0)
          λ _ _. handle_queries-Safe a rest own h.1)

  investigate_cluster-Safe :
      (a : EngineAdapter W) → OwnCluster C T a → Safe [] (investigate_cluster C request a)
  unfolding investigate_cluster
  investigate_cluster-Safe a own =
      Step-bind T (on_world (C.repository.save_cluster a.target)) _
        (Step-send T _ (λ w k. tt) (saves.clusters a.target))
        λ _ _.
          Step-bind T (on_world a.probe_capabilities) _ (Step-send T _ (λ w k. tt) own.capability)
            λ p same.
              Step-bind T (on_world (C.repository.save_capability p)) _
                (Step-send T _ (λ w k. (rw same k.0, tt)) (saves.capabilities p))
                λ _ _.
                  Step-bind T
                    (on_world (a.collect_completed_queries request.window_start request.window_end))
                    _
                    (Step-send T _ (λ w k. tt)
                      (own.completed request.window_start request.window_end))
                    λ completed c.
                      Step-bind T (on_world (a.collect_running_queries max_running_queries)) _
                        (Step-send T _ (λ w k. tt) own.running)
                        λ running r. handle_queries-Safe a (completed ++ running) own (
                          All-append (λ x. x.cluster_id ≡ a.target.cluster_id) completed running c
                            r)

  visit-Safe :
      (id : String) (o : Option (EngineAdapter W))
      → get_adapter C.adapters id ≡ o
      → Safe [] (visit C request id o)
  unfolding visit
  visit-Safe id none h = Step-update T (set_error id "cluster_not_configured")
  visit-Safe id (some a) h =
      Step-catch T (investigate_cluster C request a) _
        (investigate_cluster-Safe a (around.adapters id a h)) λ e. Step-update T (set_error id e)

  visit_all-Safe : (started : Float) (ids : List String) → Safe [] (visit_all C request started ids)
  unfolding visit_all
  visit_all-Safe started [] = Step-pure T tt tt
  visit_all-Safe started (id ∷ rest) = Step-asked T C.env.cancelled _ around.cancelled λ stop.
      Step-if T stop (pure tt) _ (Step-pure T tt tt) (
        Step-asked T C.env.monotonic _ around.monotonic λ now.
          Step-if T (C.F.lt (C.F.of_int request.budget.deadline_seconds) (C.F.sub now started)) _ _
            (Step-update T (set_error id "investigation_deadline_exceeded"))
            (Step-bind T (visit C request id (get_adapter C.adapters id)) _
              (visit-Safe id (get_adapter C.adapters id) refl) λ _ _. visit_all-Safe started rest))

  run_all-Safe : Safe [] (run_all C request)
  unfolding run_all
  run_all-Safe =
      Step-bind T (on_world (C.repository.save_investigation request none)) _
        (Step-send T _ (λ w k. tt) (saves.investigations request none))
        λ _ _. Step-asked T C.env.monotonic _ around.monotonic λ started.
          Step-bind T (visit_all C request started request.cluster_ids) _
            (visit_all-Safe started request.cluster_ids)
            λ _ _. Step-asked T C.env.cancelled _ around.cancelled λ stop.
              Step-gets T (λ p. p) _
                λ p.
                  Step-bind T (on_world (C.repository.save_investigation request (some _))) _
                    (Step-send T _ (λ w k. tt) (saves.investigations request (some _)))
                    λ _ _. Step-pure T _ tt

module _ {W : Type 0} (C : Config W) (request : InvestigationRequest) (T : Tables W) where
  -- On intact tables, where saved rows stay and a save keeps the tables intact if the rows that
  -- its foreign keys name are there, where each adapter speaks of its own cluster, a model's
  -- diagnoses name their query, and nothing else touches the tables: `investigate` leaves the
  -- tables intact, whatever else the ports return and wherever they raise.
  pub investigate-Intact :
      (w : W) → Surroundings C T → T.Intact w → T.Intact (investigate C request w).1
  unfolding investigate
  investigate-Intact w around intact =
      let (grows, _) =
        (run_all-Safe C request T around).at (record { progress = no_progress; world = w }) intact
          tt in
      grows.intact intact
