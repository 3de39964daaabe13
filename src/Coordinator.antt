-- ===== src/Coordinator.antt =====
-- src/yamazaki/service.py: the coordinator. The local lists of `investigate` are the `Progress`,
-- which outlives an exception; every call goes to a port. A `try` catches what the ports raise:
-- exceptions that are no `Exception` (`KeyboardInterrupt`) are not modelled.
mod Frame
mod Settings
pub mod Triple
pub mod Invariant
pub mod Kept
pub mod Recent
pub mod Token
pub mod Balance
pub mod Outcome
pub mod Reporting
pub mod Rows
pub mod References
pub mod Integrity
unfoldable pub use Frame.*
pub use Settings.{Config, max_running_queries}
unfoldable pub use Settings.{get_adapter, final_state}
use yamazaki_incubator.Base.{
  ℕ, suc, ◌+◌, Bool, true, false, not, ◌&&◌, Option, none, some, List, [], ◌∷◌, ◌++◌, String, take,
  ltb, is_empty, ◌==◌, if◌then◌else◌, string_eq,
}
use yamazaki_incubator.Base.Result.{Result, ok, raised}
use yamazaki_incubator.Base.Exec.{Exec, pure, lift, catch, handled, continue, ◌>>=◌, ◌>>◌}
use yamazaki_incubator.Base.Text.{join}
use yamazaki_incubator.Numbers.{Floats, Float}
use yamazaki_incubator.Json.{Platform}
use yamazaki_incubator.Redaction.{SqlGlot}
use yamazaki_incubator.Engines.{RawQueryRecord}
use yamazaki_incubator.Normalization.{normalize_query, query_summary_evidence, persist_raw_evidence}
use yamazaki_incubator.Detector
use yamazaki_incubator.Detector.Rules.{SlowQueryThresholds}
use yamazaki_incubator.Diagnosis
use yamazaki_incubator.Ports.{EngineAdapter, ControlStateRepository, AgentDiagnoser, Environment}
use yamazaki_incubator.Contracts.{
  Uuid, QueryRun, EvidenceRef, EvidenceBundle, bundle_of, DetectionResult, Diagnosis,
  Recommendation, InvestigationState, succeeded, degraded, failed, cancelled, InvestigationRequest,
  InvestigationResult,
}

module _ {W : Type 0} (C : Config W) (request : InvestigationRequest) where
  -- One detection, with a fresh `detection_id`.
  unfoldable pub detect_with :
      QueryRun → List QueryRun → List EvidenceRef → Exec (Run W) DetectionResult
  detect_with query history evidence = do
    id ← ask C.env.uuid4
    lift (Detector.detect C.F C.thresholds id query history evidence [])

  -- The raw evidence for an anomaly, stored and saved.
  unfoldable pub collect_detail : EngineAdapter W → QueryRun → Exec (Run W) EvidenceRef
  collect_detail adapter query = do
    raw_evidence ← on_world (adapter.collect_query_evidence query.engine_query_id)
    now ← ask C.env.utc_now
    detail ← on_world (persist_raw_evidence C.P C.show_float C.env.write now query raw_evidence)
    on_world (C.repository.save_evidence detail)

  -- The detection that is saved, with the evidence that it names.
  unfoldable pub decide :
      EngineAdapter W
      → QueryRun
      → List QueryRun
      → EvidenceRef
      → Exec (Run W) (DetectionResult × List EvidenceRef)
  unfolding detect_with collect_detail
  decide adapter query history summary = do
    detection ← detect_with query history (summary ∷ [])
    if detection.anomaly
        then (do
          detail ← collect_detail adapter query
          again ← detect_with query history (summary ∷ detail ∷ [])
          pure (again, summary ∷ detail ∷ []))
        else pure (detection, summary ∷ [])

  -- A diagnosis and its recommendation, saved and then listed.
  unfoldable pub report : Option (Diagnosis × Recommendation) → Exec (Run W) (Unit {0})
  report none = pure tt
  report (some (diagnosis, recommendation)) = do
    on_world (C.repository.save_diagnosis diagnosis)
    on_world (C.repository.save_recommendation recommendation)
    update (list_diagnosis diagnosis recommendation)

  unfoldable pub diagnose_by_rules :
      QueryRun → DetectionResult → EvidenceBundle → Exec (Run W) (Unit {0})
  unfolding report
  diagnose_by_rules query detection bundle = do
    diagnosis_id ← ask C.env.uuid4
    recommendation_id ← ask C.env.uuid4
    deterministic ←
        lift (Diagnosis.diagnose C.F C.P diagnosis_id recommendation_id query detection bundle)
    report deterministic

  -- The outcome of the model call; what it raised becomes an error of the run.
  unfoldable pub report_assisted :
      QueryRun → Result (Option (Diagnosis × Recommendation)) → Exec (Run W) (Unit {0})
  unfolding report join
  report_assisted query (ok assisted) = report assisted
  report_assisted query (raised e) =
      update (set_error (join ("agent:" ∷ C.P.uuid_text query.query_run_id ∷ [])) e)

  unfoldable pub call_agent :
      AgentDiagnoser W → QueryRun → DetectionResult → EvidenceBundle → Exec (Run W) (Unit {0})
  unfolding report_assisted
  call_agent agent query detection bundle = do
    update count_model_call
    assisted ← on_world (attempt (agent.diagnose query detection bundle))
    report_assisted query assisted

  unfoldable pub diagnose_by_agent :
      Option (AgentDiagnoser W)
      → QueryRun
      → DetectionResult
      → EvidenceBundle
      → Exec (Run W) (Unit {0})
  unfolding call_agent
  diagnose_by_agent none query detection bundle = pure tt
  diagnose_by_agent (some agent) query detection bundle = do
    model_calls ← gets_progress (λ p. p.model_calls)
    if ltb model_calls request.budget.max_model_calls
        then call_agent agent query detection bundle
        else pure tt

  unfoldable pub diagnose_anomaly :
      QueryRun → DetectionResult → List EvidenceRef → Exec (Run W) (Unit {0})
  unfolding diagnose_by_rules diagnose_by_agent bundle_of
  diagnose_anomaly query detection evidence_items = do
    bundle ← lift (bundle_of (take request.budget.max_evidence_items evidence_items))
    diagnose_by_rules query detection bundle
    diagnose_by_agent C.agent query detection bundle

  -- The detection is saved and listed, and an anomaly diagnosed.
  unfoldable pub settle : QueryRun → DetectionResult → List EvidenceRef → Exec (Run W) (Unit {0})
  unfolding diagnose_anomaly
  settle query detection evidence_items = do
    on_world (C.repository.save_detection detection)
    update (list_detection detection)
    if detection.anomaly then diagnose_anomaly query detection evidence_items else pure tt

  -- The rest of the loop's body, once the query is listed.
  unfoldable pub examine : EngineAdapter W → QueryRun → Exec (Run W) (Unit {0})
  unfolding decide settle
  examine adapter query = do
    now ← ask C.env.utc_now
    made ← lift (query_summary_evidence C.P C.show_float now query)
    summary ← on_world (C.repository.save_evidence made)
    history ← on_world (C.repository.list_query_history query)
    (detection, evidence_items) ← decide adapter query history summary
    settle query detection evidence_items

  unfoldable pub handle_query : EngineAdapter W → RawQueryRecord → Exec (Run W) (Unit {0})
  unfolding examine
  handle_query adapter raw = do
    now ← ask C.env.utc_now
    normalized ← lift (normalize_query C.P C.show_float C.F C.G now request.investigation_id raw)
    query ← on_world (C.repository.save_query_run normalized)
    update (list_query query)
    examine adapter query

  unfoldable pub handle_queries : EngineAdapter W → List RawQueryRecord → Exec (Run W) (Unit {0})
  unfolding handle_query
  handle_queries adapter [] = pure tt
  handle_queries adapter (raw ∷ rest) = do
    stop ← ask C.env.cancelled
    if stop then pure tt else do handle_query adapter raw; handle_queries adapter rest

  -- The body of the outer `try`.
  unfoldable pub investigate_cluster : EngineAdapter W → Exec (Run W) (Unit {0})
  unfolding handle_queries
  investigate_cluster adapter = do
    on_world (C.repository.save_cluster adapter.target)
    capability ← on_world adapter.probe_capabilities
    on_world (C.repository.save_capability capability)
    completed ← on_world (adapter.collect_completed_queries request.window_start request.window_end)
    running ← on_world (adapter.collect_running_queries max_running_queries)
    handle_queries adapter (completed ++ running)

  -- A cluster with its adapter, if it has one.
  unfoldable pub visit : String → Option (EngineAdapter W) → Exec (Run W) (Unit {0})
  unfolding investigate_cluster
  visit cluster_id none = update (set_error cluster_id "cluster_not_configured")
  visit cluster_id (some adapter) =
      catch (investigate_cluster adapter) (λ e. update (set_error cluster_id e))

  unfoldable pub visit_all : (started : Float) → List String → Exec (Run W) (Unit {0})
  unfolding visit get_adapter
  visit_all started [] = pure tt
  visit_all started (cluster_id ∷ rest) = do
    stop ← ask C.env.cancelled
    if stop then pure tt else do
      now ← ask C.env.monotonic
      if C.F.lt (C.F.of_int request.budget.deadline_seconds) (C.F.sub now started)
          then update (set_error cluster_id "investigation_deadline_exceeded")
          else do visit cluster_id (get_adapter C.adapters cluster_id); visit_all started rest

  abbrev pub result_of : Bool → Progress → InvestigationResult
  result_of was_cancelled p = record {
    investigation_id = request.investigation_id;
    state = final_state was_cancelled p.errors p.query_runs;
    query_runs = p.query_runs;
    detections = p.detections;
    diagnoses = p.diagnoses;
    recommendations = p.recommendations;
    errors = p.errors;
  }

  unfoldable pub run_all : Exec (Run W) InvestigationResult
  unfolding visit_all final_state
  run_all = do
    on_world (C.repository.save_investigation request none)
    started ← ask C.env.monotonic
    visit_all started request.cluster_ids
    was_cancelled ← ask C.env.cancelled
    p ← gets_progress (λ p. p)
    on_world (C.repository.save_investigation request (some (result_of was_cancelled p)))
    pure (result_of was_cancelled p)

  unfoldable pub investigate : Exec W InvestigationResult
  unfolding run_all
  investigate w =
      let (r, s) = run_all (record { progress = no_progress; world = w }) in (r, s.world)
