-- ===== src/Coordinator/References.antt =====
-- What the ports of `investigate` in src/yamazaki/service.py do to the tables, and which rows the
-- values that are saved name.
use yamazaki_incubator.Base.{
  ◌≡◌, ap, sym, subst, Bool-cases, inl, inr, Option, none, some, [], ◌∷◌, String, All, arith,
}
use yamazaki_incubator.Base.Result.{Result, ok, raised, >>=-returned, ok-injective}
use yamazaki_incubator.Base.Exec.{Exec}
use yamazaki_incubator.Json.{is_empty_dict}
use yamazaki_incubator.Engines.{RawQueryRecord, RawEvidence}
use yamazaki_incubator.Normalization.{normalize_query, query_summary_evidence, persist_raw_evidence}
use yamazaki_incubator.Normalization.Laws.{normalize_query-IsNormal}
use yamazaki_incubator.Diagnosis
use yamazaki_incubator.Ports.{EngineAdapter, ControlStateRepository, AgentDiagnoser}
use yamazaki_incubator.Contracts.{
  DateTime, ClusterTarget, CapabilityProfile, QueryRun, EvidenceRef, EvidenceBundle,
  DetectionResult, Diagnosis, Recommendation, InvestigationRequest, InvestigationResult,
  validate_evidence, validate_diagnosis, validate_recommendation, Uuid,
}
use yamazaki_incubator.Coordinator.Frame.{attempt}
use yamazaki_incubator.Coordinator.Rows.{
  Tables, Known, Grows-refl, lift-Known, cluster, query, diagnosis, Port, Quiet,
}
use yamazaki_incubator.Coordinator.{Config, get_adapter, max_running_queries}

-- A diagnosis of the query, with its recommendation.
abbrev pub Linked : QueryRun → Option (Diagnosis × Recommendation) → Type 0
Linked q none = Unit
Linked q (some (g, r)) = (g.query_run_id ≡ q.query_run_id) × (r.diagnosis_id ≡ g.diagnosis_id)

validate_evidence-query_run_id :
    (e e' : EvidenceRef) → validate_evidence e ≡ ok e' → e'.query_run_id ≡ e.query_run_id
unfolding validate_evidence
validate_evidence-query_run_id e e' h = ground arith

validate_diagnosis-eq : (g g' : Diagnosis) → validate_diagnosis g ≡ ok g' → g ≡ g'
unfolding validate_diagnosis
validate_diagnosis-eq g g' h = ground arith

validate_recommendation-eq : (r r' : Recommendation) → validate_recommendation r ≡ ok r' → r ≡ r'
unfolding validate_recommendation
validate_recommendation-eq r r' h = ground arith

-- What each port does to the tables.
module _ {W : Type 0} (R : ControlStateRepository W) (T : Tables W) where
  -- A statement that names rows is only sent where they are, and what is saved is there then.
  pub record Saves : Type 0 where
    pub clusters :
        (t : ClusterTarget)
        → Port T [] (R.save_cluster t) (λ _. Unit) (λ _. cluster t.cluster_id ∷ [])
    pub capabilities :
        (p : CapabilityProfile)
        → Port T (cluster p.cluster_id ∷ []) (R.save_capability p) (λ _. Unit) (λ _. [])
    pub query_runs :
        (q : QueryRun)
        → Port T
            (cluster q.cluster_id ∷ [])
            (R.save_query_run q)
            (λ _. Unit)
            (λ saved. query saved.query_run_id ∷ [])
    pub history : (q : QueryRun) → Port T [] (R.list_query_history q) (λ _. Unit) (λ _. [])
    pub evidence :
        (e : EvidenceRef)
        → Port T (query e.query_run_id ∷ []) (R.save_evidence e) (λ _. Unit) (λ _. [])
    pub detections :
        (d : DetectionResult)
        → Port T (query d.query_run_id ∷ []) (R.save_detection d) (λ _. Unit) (λ _. [])
    pub diagnoses :
        (g : Diagnosis)
        → Port T
            (query g.query_run_id ∷ [])
            (R.save_diagnosis g)
            (λ _. Unit)
            (λ _. diagnosis g.diagnosis_id ∷ [])
    pub recommendations :
        (r : Recommendation)
        → Port T (diagnosis r.diagnosis_id ∷ []) (R.save_recommendation r) (λ _. Unit) (λ _. [])
    pub investigations :
        (r : InvestigationRequest) (o : Option InvestigationResult)
        → Port T [] (R.save_investigation r o) (λ _. Unit) (λ _. [])

module _ {W : Type 0} (C : Config W) (T : Tables W) where
  -- An adapter speaks of its own cluster.
  pub record OwnCluster (a : EngineAdapter W) : Type 0 where
    pub capability :
        Port T [] a.probe_capabilities (λ p. p.cluster_id ≡ a.target.cluster_id) (λ _. [])
    pub completed :
        (b e : DateTime)
        → Port T []
            (a.collect_completed_queries b e)
            (All (λ (r : RawQueryRecord). r.cluster_id ≡ a.target.cluster_id))
            (λ _. [])
    pub running :
        Port T []
          (a.collect_running_queries max_running_queries)
          (All (λ (r : RawQueryRecord). r.cluster_id ≡ a.target.cluster_id))
          (λ _. [])
    pub detail : (id : String) → Port T [] (a.collect_query_evidence id) (λ _. Unit) (λ _. [])

  pub record Surroundings : Type 0 where
    pub saves : Saves C.repository T
    pub adapters :
        (id : String) (a : EngineAdapter W) → get_adapter C.adapters id ≡ some a → OwnCluster a
    pub agents :
        (a : AgentDiagnoser W)
        → C.agent ≡ some a
        → (q : QueryRun) (d : DetectionResult) (b : EvidenceBundle)
        → Port T [] (a.diagnose q d b) (Linked q) (λ _. [])
    pub write : (id : _) (fields : _) → Port T [] (C.env.write id fields) (λ _. Unit) (λ _. [])
    pub cancelled : Quiet T C.env.cancelled
    pub monotonic : Quiet T C.env.monotonic
    pub utc_now : Quiet T C.env.utc_now
    pub uuid4 : Quiet T C.env.uuid4

-- The values that the coordinator saves name the query, or the diagnosis, they are made for.
module _ {W : Type 0} (C : Config W) where
  pub normalize_query-cluster_id :
      (now : DateTime) (i : Uuid) (raw : RawQueryRecord) (q : QueryRun)
      → normalize_query C.P C.show_float C.F C.G now i raw ≡ ok q
      → q.cluster_id ≡ raw.cluster_id
  normalize_query-cluster_id now i raw q h =
      (normalize_query-IsNormal C.P C.show_float C.F C.G now i raw q h).cluster

  pub query_summary_evidence-query_run_id :
      (now : DateTime) (q : QueryRun) (e : EvidenceRef)
      → query_summary_evidence C.P C.show_float now q ≡ ok e
      → e.query_run_id ≡ q.query_run_id
  unfolding query_summary_evidence
  query_summary_evidence-query_run_id now q e h = validate_evidence-query_run_id _ e h

  pub diagnose-Linked :
      (i j : Uuid) (q : QueryRun) (d : DetectionResult) (b : EvidenceBundle)
      (o : Option (Diagnosis × Recommendation))
      → Diagnosis.diagnose C.F C.P i j q d b ≡ ok o
      → Linked q o
  unfolding Diagnosis.diagnose
  diagnose-Linked i j q d b o h = elim (Bool-cases d.anomaly) [
    | inr quiet ↦ subst (Linked q) (ok-injective (rw (Diagnosis.diagnose, quiet) at h)) tt
    | inl loud ↦
        let (causes, _, h1) =
          >>=-returned (Diagnosis.causes_of C.F _ _ [] d.signals) _
            (rw (Diagnosis.diagnose, loud) at h) in
        let (g, made, h2) = >>=-returned (validate_diagnosis _) _ h1 in
        let (r, said, h3) = >>=-returned (validate_recommendation _) _ h2 in
        subst (Linked q) (ok-injective h3) (
          ap (λ (x : Diagnosis). x.query_run_id) (sym (validate_diagnosis-eq _ g made)),
          ap (λ (x : Recommendation). x.diagnosis_id) (sym (validate_recommendation-eq _ r said)),
        )
  ]

module _ {W : Type 0} (C : Config W) (T : Tables W) where
  pub persist_raw_evidence-Port :
      (now : DateTime) (q : QueryRun) (raw : RawEvidence)
      → Surroundings C T
      → Port T []
          (persist_raw_evidence C.P C.show_float C.env.write now q raw)
          (λ (e : EvidenceRef). e.query_run_id ≡ q.query_run_id)
          (λ _. [])
  unfolding persist_raw_evidence
  persist_raw_evidence-Port now q raw around = record {
    at = λ w i k. elim (Bool-cases (is_empty_dict raw.restricted_payload)) [
      | inl b ↦
          rw (persist_raw_evidence, b)
            (Grows-refl T w, lift-Known T _ w (λ e h. validate_evidence-query_run_id _ e h))
      | inr b ↦
          rw (persist_raw_evidence, b)
            (
              ((around.write _ raw.restricted_payload).at w i tt).0,
              lift-Known T _ _ (λ e h.
                  let (x, _, made) = >>=-returned (C.env.write _ raw.restricted_payload w).0 _ h in
                  validate_evidence-query_run_id _ e made),
            )
    ];
  }

  -- What is known of an outcome as a value.
  abbrev pub Outcome : QueryRun → Result (Option (Diagnosis × Recommendation)) → Type 0
  Outcome q (ok o) = Linked q o
  Outcome q (raised e) = Unit

  Outcome-Known :
      (q : QueryRun) (r : Result (Option (Diagnosis × Recommendation))) (w : W)
      → Known T (Linked q) (λ _. []) r w
      → Outcome q r
  Outcome-Known q (ok o) w h = h.0
  Outcome-Known q (raised e) w h = tt

  pub attempt-Port :
      (q : QueryRun) (m : Exec W (Option (Diagnosis × Recommendation)))
      → Port T [] m (Linked q) (λ _. [])
      → Port T [] (attempt m) (Outcome q) (λ _. [])
  attempt-Port q m p = record {
    at = λ w i k. let (g, known) = p.at w i k in (g, (Outcome-Known q (m w).0 (m w).1 known, tt));
  }
