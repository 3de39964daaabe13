-- ===== src/Persistence.antt =====
-- src/yamazaki/persistence.py: the tables and `ControlStateRepository`. The SQL server is a
-- parameter: each `Table` has the reads and writes that the repository calls, `DB` is what is
-- committed, and JSON columns hold the `Payload` that a contract is dumped to.
pub mod Laws
pub mod Clearing
pub mod Saves
pub mod Widths
use yamazaki_incubator.Base.{
  ℕ, ◌+◌, Bool, ◌&&◌, Option, none, some, List, [], ◌∷◌, String, leb, map, ◌==◌, string_eq,
  if◌then◌else◌,
}
use yamazaki_incubator.Base.Result.{Result, ok, raised}
use yamazaki_incubator.Base.Exec.{Exec, pure, raise, lift, ◌>>=◌, ◌>>◌}
use yamazaki_incubator.Json.{Platform}
use yamazaki_incubator.Ports.{ControlStateRepository}
use yamazaki_incubator.Contracts.{
  Uuid, EngineKind, DateTime, DiagnosisSource, ClusterTarget, CapabilityProfile, QueryRun,
  EvidenceRef, DetectionResult, Diagnosis, Recommendation, InvestigationState, running,
  InvestigationRequest, InvestigationResult,
}

-- The statements that the repository runs against one table.
pub record Table (DB Row : Type 0) : Type 0 where
  -- `select(…).where(primary key == k)`, of which there is one row at most
  pub find : (k : String) → DB → Option Row
  -- `insert(table).values(…)`, which a constraint of the table may refuse
  pub insert : Row → Exec DB (Unit {0})
  -- `update(table).where(primary key == k).values(…)`
  pub change : (k : String) → (Row → Row) → Exec DB (Unit {0})
  -- `delete(table)`
  pub delete : Exec DB (Unit {0})
  -- `select(table).limit(n)`
  pub select : (n : ℕ) → DB → List Row
  -- `select(table).where(…).order_by(….desc()).limit(n)`
  pub select_latest : (where_ : Row → Bool) (order_by : Row → DateTime) (n : ℕ) → DB → List Row

-- `model_dump(mode="json")` and `_load_contract`, the strict validation of what was dumped.
pub record Codec (Payload A : Type 0) : Type 0 where
  pub model_dump : A → Payload
  pub load_contract : Payload → Result A

module _ (Payload : Type 0) where
  pub record ClusterRow : Type 0 where
    pub cluster_id : String
    pub engine : EngineKind
    pub payload : Payload

  pub record CapabilityRow : Type 0 where
    pub capability_profile_id : String
    pub cluster_id : String
    pub captured_at : DateTime
    pub payload : Payload

  pub record QueryRow : Type 0 where
    pub query_run_id : String
    pub engine : EngineKind
    pub cluster_id : String
    pub engine_query_id : String
    pub native_fingerprint : String
    pub started_at : DateTime
    pub payload : Payload

  pub record EvidenceRow : Type 0 where
    pub evidence_id : String
    pub query_run_id : String
    pub source_kind : String
    pub content_hash : String
    pub payload : Payload

  pub record DetectionRow : Type 0 where
    pub detection_id : String
    pub query_run_id : String
    pub payload : Payload

  pub record DiagnosisRow : Type 0 where
    pub diagnosis_id : String
    pub query_run_id : String
    pub source : DiagnosisSource
    pub payload : Payload

  pub record RecommendationRow : Type 0 where
    pub recommendation_id : String
    pub diagnosis_id : String
    pub payload : Payload

  pub record InvestigationRow : Type 0 where
    pub investigation_id : String
    pub state : InvestigationState
    pub request_payload : Payload
    pub result_payload : Option Payload
    pub version : ℕ

-- What a repository is built from.
pub record Server (Payload DB : Type 0) : Type 0 where
  pub P : Platform
  pub clusters : Table DB (ClusterRow Payload)
  pub capability_profiles : Table DB (CapabilityRow Payload)
  pub query_runs : Table DB (QueryRow Payload)
  pub evidence_refs : Table DB (EvidenceRow Payload)
  pub detections : Table DB (DetectionRow Payload)
  pub diagnoses : Table DB (DiagnosisRow Payload)
  pub recommendations : Table DB (RecommendationRow Payload)
  pub investigations : Table DB (InvestigationRow Payload)
  pub cluster_codec : Codec Payload ClusterTarget
  pub capability_codec : Codec Payload CapabilityProfile
  pub query_codec : Codec Payload QueryRun
  pub evidence_codec : Codec Payload EvidenceRef
  pub detection_codec : Codec Payload DetectionResult
  pub diagnosis_codec : Codec Payload Diagnosis
  pub recommendation_codec : Codec Payload Recommendation
  pub request_codec : Codec Payload InvestigationRequest
  pub result_codec : Codec Payload InvestigationResult

-- `_insert_once`
unfoldable pub insert_once : {DB Row : Type 0} → Table DB Row → String → Row → Exec DB (Unit {0})
insert_once table key_value values db = elim (table.find key_value db) [
  | none ↦ table.insert values db
  | some _ ↦ (ok tt, db)
]

-- The contracts of all rows, in their order, or the first failure.
unfoldable pub load_all : {Payload A : Type 0} → Codec Payload A → List Payload → Result (List A)
load_all codec [] = ok []
load_all codec (p ∷ ps) =
    let rest = load_all codec ps in
    elim (codec.load_contract p) [
      | raised e ↦ raised e
      | ok a ↦ elim rest [ raised e ↦ raised e | ok xs ↦ ok (a ∷ xs) ]
    ]

-- `_list`
unfoldable pub list_rows :
    {Payload DB Row A : Type 0}
    → Table DB Row
    → Codec Payload A
    → (Row → Payload)
    → ℕ
    → Exec DB (List A)
unfolding load_all
list_rows table codec payload limit db =
    if leb 1 limit && leb limit 1000
    then (load_all codec (map payload (table.select limit db)), db)
    else (raised "ValueError", db)

module _ {Payload DB : Type 0} (S : Server Payload DB) where
  -- An identifier as a key.
  abbrev pub key : Uuid → String
  key i = S.P.uuid_text i

  abbrev pub cluster_row : ClusterTarget → ClusterRow Payload
  cluster_row t = record {
    cluster_id = t.cluster_id;
    engine = t.engine;
    payload = S.cluster_codec.model_dump t;
  }

  abbrev pub query_row : QueryRun → QueryRow Payload
  query_row q = record {
    query_run_id = key q.query_run_id;
    engine = q.engine;
    cluster_id = q.cluster_id;
    engine_query_id = q.engine_query_id;
    native_fingerprint = q.native_fingerprint;
    started_at = q.started_at;
    payload = S.query_codec.model_dump q;
  }

  abbrev pub evidence_row : EvidenceRef → EvidenceRow Payload
  evidence_row e = record {
    evidence_id = key e.evidence_id;
    query_run_id = key e.query_run_id;
    source_kind = e.source_kind;
    content_hash = e.content_hash;
    payload = S.evidence_codec.model_dump e;
  }

  unfoldable pub save_cluster : ClusterTarget → Exec DB (Unit {0})
  save_cluster target db = elim (S.clusters.find target.cluster_id db) [
    | none ↦ S.clusters.insert (cluster_row target) db
    | some _ ↦
        S.clusters.change target.cluster_id
          (λ row. record row {
            engine = target.engine;
            payload = S.cluster_codec.model_dump target;
          })
          db
  ]

  unfoldable pub save_capability : CapabilityProfile → Exec DB (Unit {0})
  unfolding insert_once
  save_capability profile =
      insert_once S.capability_profiles (key profile.capability_profile_id) (record {
        capability_profile_id = key profile.capability_profile_id;
        cluster_id = profile.cluster_id;
        captured_at = profile.captured_at;
        payload = S.capability_codec.model_dump profile;
      })

  unfoldable pub save_query_run : QueryRun → Exec DB QueryRun
  save_query_run query db = elim (S.query_runs.find (key query.query_run_id) db) [
    | some existing ↦ (S.query_codec.load_contract existing.payload, db)
    | none ↦ (S.query_runs.insert (query_row query) >> pure query) db
  ]

  -- The latest runs of the same statement on the same cluster.
  unfoldable pub list_query_history : QueryRun → (limit : ℕ) → Exec DB (List QueryRun)
  unfolding load_all
  list_query_history query limit db =
      let rows =
        S.query_runs.select_latest
          (λ row.
            row.cluster_id == query.cluster_id
            && row.native_fingerprint == query.native_fingerprint)
          (λ row. row.started_at) limit db in
      (load_all S.query_codec (map (λ row. row.payload) rows), db)

  unfoldable pub save_evidence : EvidenceRef → Exec DB EvidenceRef
  save_evidence evidence db = elim (S.evidence_refs.find (key evidence.evidence_id) db) [
    | some existing ↦ (S.evidence_codec.load_contract existing.payload, db)
    | none ↦ (S.evidence_refs.insert (evidence_row evidence) >> pure evidence) db
  ]

  unfoldable pub save_detection : DetectionResult → Exec DB (Unit {0})
  unfolding insert_once
  save_detection detection = insert_once S.detections (key detection.detection_id) (record {
    detection_id = key detection.detection_id;
    query_run_id = key detection.query_run_id;
    payload = S.detection_codec.model_dump detection;
  })

  unfoldable pub save_diagnosis : Diagnosis → Exec DB (Unit {0})
  unfolding insert_once
  save_diagnosis diagnosis = insert_once S.diagnoses (key diagnosis.diagnosis_id) (record {
    diagnosis_id = key diagnosis.diagnosis_id;
    query_run_id = key diagnosis.query_run_id;
    source = diagnosis.source;
    payload = S.diagnosis_codec.model_dump diagnosis;
  })

  unfoldable pub save_recommendation : Recommendation → Exec DB (Unit {0})
  unfolding insert_once
  save_recommendation recommendation =
      insert_once S.recommendations (key recommendation.recommendation_id) (record {
        recommendation_id = key recommendation.recommendation_id;
        diagnosis_id = key recommendation.diagnosis_id;
        payload = S.recommendation_codec.model_dump recommendation;
      })

  abbrev pub state_of : Option InvestigationResult → InvestigationState
  state_of none = running
  state_of (some result) = result.state

  abbrev pub result_payload_of : Option InvestigationResult → Option Payload
  result_payload_of none = none
  result_payload_of (some result) = some (S.result_codec.model_dump result)

  -- The first save inserts version 0, and each later one adds one.
  unfoldable pub save_investigation :
      InvestigationRequest → Option InvestigationResult → Exec DB (Unit {0})
  save_investigation request result db =
      let identifier = key request.investigation_id in
      elim (S.investigations.find identifier db) [
        | none ↦
            S.investigations.insert
              (record {
                investigation_id = identifier;
                state = state_of result;
                request_payload = S.request_codec.model_dump request;
                result_payload = result_payload_of result;
                version = 0;
              })
              db
        | some existing ↦
            S.investigations.change identifier
              (λ row. record row {
                state = state_of result;
                result_payload = result_payload_of result;
                version = existing.version + 1;
              })
              db
      ]

  unfoldable pub list_clusters : Exec DB (List ClusterTarget)
  unfolding list_rows
  list_clusters = list_rows S.clusters S.cluster_codec (λ row. row.payload) 1000

  unfoldable pub list_query_runs : ℕ → Exec DB (List QueryRun)
  unfolding list_rows
  list_query_runs limit = list_rows S.query_runs S.query_codec (λ row. row.payload) limit

  unfoldable pub list_detections : ℕ → Exec DB (List DetectionResult)
  unfolding list_rows
  list_detections limit = list_rows S.detections S.detection_codec (λ row. row.payload) limit

  unfoldable pub list_diagnoses : ℕ → Exec DB (List Diagnosis)
  unfolding list_rows
  list_diagnoses limit = list_rows S.diagnoses S.diagnosis_codec (λ row. row.payload) limit

  -- Each table before those that its rows name.
  unfoldable pub clear_for_tests : Exec DB (Unit {0})
  clear_for_tests = do
    S.recommendations.delete
    S.diagnoses.delete
    S.detections.delete
    S.evidence_refs.delete
    S.query_runs.delete
    S.capability_profiles.delete
    S.investigations.delete
    S.clusters.delete

  -- The repository as the coordinator gets it.
  abbrev pub repository : ControlStateRepository DB
  repository = record {
    save_cluster = save_cluster;
    save_capability = save_capability;
    save_query_run = save_query_run;
    list_query_history = λ query. list_query_history query 100;
    save_evidence = save_evidence;
    save_detection = save_detection;
    save_diagnosis = save_diagnosis;
    save_recommendation = save_recommendation;
    save_investigation = save_investigation;
  }
