-- ===== src/Coordinator/Invariant.antt =====
-- The invariant rule of `investigate` in src/yamazaki/service.py: conditions on the local variables
-- that each of its assignments keeps hold at its end, whatever the ports do and wherever they raise.
use yamazaki_incubator.Base.{
  ◌<◌, ◌≡◌, true, Option, none, some, List, [], ◌∷◌, String, take, ltb, contains, string_eq, arith,
}
use yamazaki_incubator.Base.Result.{Result, ok, raised}
use yamazaki_incubator.Base.Exec.{Exec, pure}
use yamazaki_incubator.Base.Text.{join}
use yamazaki_incubator.Engines.{RawQueryRecord}
use yamazaki_incubator.Normalization.{normalize_query, query_summary_evidence, persist_raw_evidence}
use yamazaki_incubator.Detector
use yamazaki_incubator.Detector.Decision.{detect-query_run_id}
use yamazaki_incubator.Diagnosis
use yamazaki_incubator.Ports.{EngineAdapter, AgentDiagnoser}
use yamazaki_incubator.Contracts.{
  QueryRun, EvidenceRef, EvidenceBundle, bundle_of, DetectionResult, Diagnosis, Recommendation,
  InvestigationRequest,
}
use yamazaki_incubator.Coordinator.Frame.{
  Progress, Run, list_query, list_detection, list_diagnosis, count_model_call, set_error, attempt,
  update,
}
use yamazaki_incubator.Coordinator.{
  Config, detect_with, collect_detail, decide, report, diagnose_by_rules, report_assisted,
  call_agent, diagnose_by_agent, diagnose_anomaly, settle, examine, handle_query,
}
use yamazaki_incubator.Coordinator.Triple.{
  Triple, Triple-pure, Triple-world, Triple-lift, Triple-if, Triple-bind, Triple-bind-lift,
  Triple-update, Triple-bind-gets, Triple-then, Triple-asked, Triple-weaken,
}

-- `Idle` holds between the queries, `Listed q` from the listing of `q` to that of its detection, and
-- `Due` where one diagnosis may be listed.
pub record Invariant {W : Type 0} (C : Config W) (request : InvestigationRequest) : Type 1 where
  pub Idle : Progress → Type 0
  pub Listed : QueryRun → Progress → Type 0
  pub Due : Progress → Type 0
  pub query_listed : (q : QueryRun) (p : Progress) → Idle p → Listed q (list_query q p)
  pub detection_listed :
      (q : QueryRun) (d : DetectionResult) (p : Progress)
      → d.query_run_id ≡ q.query_run_id
      → Listed q p
      → Due (list_detection d p)
  pub diagnosis_listed :
      (g : Diagnosis) (r : Recommendation) (p : Progress) → Due p → Idle (list_diagnosis g r p)
  pub call_counted :
      (p : Progress)
      → p.model_calls < request.budget.max_model_calls
      → Idle p
      → Due (count_model_call p)
  pub agent_failed :
      (q : QueryRun) (e : String) (p : Progress)
      → Idle p
      → Idle (set_error (join ("agent:" ∷ C.P.uuid_text q.query_run_id ∷ [])) e p)
  pub cluster_failed :
      (id e : String) (p : Progress)
      → contains request.cluster_ids id ≡ true
      → Idle p
      → Idle (set_error id e p)
  pub listed_idle : (q : QueryRun) (p : Progress) → Listed q p → Idle p
  pub due_idle : (p : Progress) → Due p → Idle p

module _ {W : Type 0} (C : Config W) (request : InvestigationRequest)
    (V : Invariant C request) where
  open V use {
    Idle, Listed, Due, query_listed, detection_listed, diagnosis_listed, call_counted, agent_failed,
    cluster_failed, listed_idle, due_idle,
  }

  -- From `P` to `Idle`, by whatever way.
  abbrev Ends : (Progress → Type 0) → {A : Type 0} → Exec (Run W) A → Type 0
  Ends P m = Triple P m (λ _. Idle) Idle

  report-Ends : (o : Option (Diagnosis × Recommendation)) → Ends Due (report C request o)
  unfolding report
  report-Ends none = Triple-pure tt (λ p h. due_idle p h)
  report-Ends (some (g, r)) = Triple-then (C.repository.save_diagnosis g) _ due_idle λ _.
      Triple-then (C.repository.save_recommendation r) _ due_idle
        λ _. Triple-update (list_diagnosis g r) (λ p h. diagnosis_listed g r p h)

  diagnose_by_rules-Ends :
      (q : QueryRun) (d : DetectionResult) (b : EvidenceBundle)
      → Ends Due (diagnose_by_rules C request q d b)
  unfolding diagnose_by_rules
  diagnose_by_rules-Ends q d b = Triple-asked C.env.uuid4 _ λ i.
      Triple-asked C.env.uuid4 _ λ j.
        Triple-bind-lift (Diagnosis.diagnose C.F C.P i j q d b) _ (λ o _. report-Ends o) due_idle

  report_assisted-Ends :
      (q : QueryRun) (r : Result (Option (Diagnosis × Recommendation)))
      → Ends Due (report_assisted C request q r)
  unfolding report_assisted
  report_assisted-Ends q (ok o) = report-Ends o
  report_assisted-Ends q (raised e) =
      Triple-update (set_error _ e) (λ p h. agent_failed q e p (due_idle p h))

  call_agent-Ends :
      (a : AgentDiagnoser W) (q : QueryRun) (d : DetectionResult) (b : EvidenceBundle)
      → Ends
          (λ p. Idle p × (p.model_calls < request.budget.max_model_calls))
          (call_agent C request a q d b)
  unfolding call_agent
  call_agent-Ends a q d b =
      Triple-bind (λ _. Due) (update count_model_call) _
        (Triple-update count_model_call (λ p h. call_counted p h.1 h.0))
        λ _. Triple-then (attempt (a.diagnose q d b)) _ due_idle (λ r. report_assisted-Ends q r)

  diagnose_by_agent-Ends :
      (o : Option (AgentDiagnoser W)) (q : QueryRun) (d : DetectionResult) (b : EvidenceBundle)
      → Ends Idle (diagnose_by_agent C request o q d b)
  unfolding diagnose_by_agent
  diagnose_by_agent-Ends none q d b = Triple-pure tt (λ p h. h)
  diagnose_by_agent-Ends (some a) q d b =
      Triple-bind-gets (λ p. p.model_calls) _
        λ n.
          Triple-if (ltb n request.budget.max_model_calls) (call_agent C request a q d b) (pure tt)
            (λ t.
              Triple-weaken (call_agent C request a q d b) (λ p (h, e). (h, ground arith))
                (call_agent-Ends a q d b))
            (λ t. Triple-pure tt (λ p h. h.0))

  diagnose_anomaly-Ends :
      (q : QueryRun) (d : DetectionResult) (items : List EvidenceRef)
      → Ends Due (diagnose_anomaly C request q d items)
  unfolding diagnose_anomaly
  diagnose_anomaly-Ends q d items =
      Triple-bind-lift (bundle_of (take request.budget.max_evidence_items items)) _
        (λ b _.
          Triple-bind (λ _. Idle) (diagnose_by_rules C request q d b) _
            (diagnose_by_rules-Ends q d b) λ _. diagnose_by_agent-Ends C.agent q d b)
        due_idle

  -- A detection of the query: it bears the identifier of the query.
  abbrev Detects : QueryRun → DetectionResult → Progress → Type 0
  Detects q d p = Listed q p × (d.query_run_id ≡ q.query_run_id)

  detect_with-Detects :
      (q : QueryRun) (h : List QueryRun) (items : List EvidenceRef)
      → Triple (Listed q) (detect_with C request q h items) (Detects q) Idle
  unfolding detect_with
  detect_with-Detects q h items = Triple-asked C.env.uuid4 _ λ i.
      Triple-lift (Detector.detect C.F C.thresholds i q h items [])
        (λ d e p l. (l, detect-query_run_id C.F C.thresholds i q h items [] d e)) (listed_idle q)

  collect_detail-Listed :
      (a : EngineAdapter W) (q : QueryRun)
      → Triple (Listed q) (collect_detail C request a q) (λ _. Listed q) Idle
  unfolding collect_detail
  collect_detail-Listed a q =
      Triple-then (a.collect_query_evidence q.engine_query_id) _ (listed_idle q) λ raw.
        Triple-asked C.env.utc_now _ λ now.
          Triple-then (persist_raw_evidence C.P C.show_float C.env.write now q raw) _
            (listed_idle q)
            λ detail. Triple-world (C.repository.save_evidence detail) (λ _ p h. h) (listed_idle q)

  decide-Detects :
      (a : EngineAdapter W) (q : QueryRun) (h : List QueryRun) (summary : EvidenceRef)
      → Triple (Listed q) (decide C request a q h summary) (λ o. Detects q o.0) Idle
  unfolding decide
  decide-Detects a q h summary =
      Triple-bind (Detects q) (detect_with C request q h (summary ∷ [])) _
        (detect_with-Detects q h (summary ∷ []))
        λ d.
          Triple-if d.anomaly _ (pure (d, summary ∷ []))
            (λ _.
              Triple-weaken _ (λ p x. x.0)
                (Triple-bind (λ _. Listed q) (collect_detail C request a q) _
                  (collect_detail-Listed a q)
                  λ detail.
                    Triple-bind (Detects q) (detect_with C request q h (summary ∷ detail ∷ [])) _
                      (detect_with-Detects q h (summary ∷ detail ∷ []))
                      λ again. Triple-pure (again, summary ∷ detail ∷ []) (λ p x. x)))
            (λ _. Triple-pure (d, summary ∷ []) (λ p x. x))

  settle-Ends :
      (q : QueryRun) (d : DetectionResult) (items : List EvidenceRef)
      → Ends (Detects q d) (settle C request q d items)
  unfolding settle
  settle-Ends q d items =
      Triple-then (C.repository.save_detection d) _ (λ p h. listed_idle q p h.0)
        λ _.
          Triple-bind (λ _. Due) (update (list_detection d)) _
            (Triple-update (list_detection d) (λ p h. detection_listed q d p h.1 h.0))
            λ _.
              Triple-if d.anomaly (diagnose_anomaly C request q d items) (pure tt)
                (λ _. diagnose_anomaly-Ends q d items) (λ _. Triple-pure tt due_idle)

  examine-Ends : (a : EngineAdapter W) (q : QueryRun) → Ends (Listed q) (examine C request a q)
  unfolding examine
  examine-Ends a q = Triple-asked C.env.utc_now _ λ now.
      Triple-bind-lift (query_summary_evidence C.P C.show_float now q) _
        (λ made _. Triple-then (C.repository.save_evidence made) _ (listed_idle q) λ summary.
          Triple-then (C.repository.list_query_history q) _ (listed_idle q) λ h.
            Triple-bind (λ o. Detects q o.0) (decide C request a q h summary) _
              (decide-Detects a q h summary) (λ o. settle-Ends q o.0 o.1))
        (listed_idle q)

  pub handle_query-Ends :
      (a : EngineAdapter W) (raw : RawQueryRecord)
      → Triple Idle (handle_query C request a raw) (λ _. Idle) Idle
  unfolding handle_query
  handle_query-Ends a raw = Triple-asked C.env.utc_now _ λ now.
      Triple-bind-lift (normalize_query C.P C.show_float C.F C.G now request.investigation_id raw) _
        (λ q _.
          Triple-then (C.repository.save_query_run q) _ (λ p h. h)
            λ saved.
              Triple-bind (λ _. Listed saved) (update (list_query saved)) _
                (Triple-update (list_query saved) (λ p h. query_listed saved p h))
                λ _. examine-Ends a saved)
        (λ p h. h)
