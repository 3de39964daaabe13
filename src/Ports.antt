-- ===== src/Ports.antt =====
-- src/yamazaki/ports.py: what the coordinator is given. Each port is a record of methods that act
-- on a state `W` of the world (databases, engines, clock, other threads) and may raise.
use yamazaki_incubator.Base.{ℕ, Bool, Option, List, String}
use yamazaki_incubator.Base.Exec.{Exec}
use yamazaki_incubator.Numbers.{Float}
use yamazaki_incubator.Json.{Fields}
use yamazaki_incubator.Engines.{RawQueryRecord, RawEvidence}
use yamazaki_incubator.Contracts.{
  Uuid, DateTime, ClusterTarget, CapabilityProfile, QueryRun, EvidenceRef, EvidenceBundle,
  DetectionResult, Diagnosis, Recommendation, InvestigationRequest, InvestigationResult,
}

pub record EngineAdapter (W : Type 0) : Type 0 where
  pub target : ClusterTarget
  pub probe_capabilities : Exec W CapabilityProfile
  pub collect_running_queries : (limit : ℕ) → Exec W (List RawQueryRecord)
  -- with the default limit
  pub collect_completed_queries :
      (window_start window_end : DateTime) → Exec W (List RawQueryRecord)
  pub collect_query_evidence : (query_id : String) → Exec W RawEvidence

-- The methods of `ControlStateRepositoryPort` that an investigation calls, `list_query_history`
-- with its default limit.
pub record ControlStateRepository (W : Type 0) : Type 0 where
  pub save_cluster : ClusterTarget → Exec W (Unit {0})
  pub save_capability : CapabilityProfile → Exec W (Unit {0})
  pub save_query_run : QueryRun → Exec W QueryRun
  pub list_query_history : QueryRun → Exec W (List QueryRun)
  pub save_evidence : EvidenceRef → Exec W EvidenceRef
  pub save_detection : DetectionResult → Exec W (Unit {0})
  pub save_diagnosis : Diagnosis → Exec W (Unit {0})
  pub save_recommendation : Recommendation → Exec W (Unit {0})
  pub save_investigation : InvestigationRequest → Option InvestigationResult → Exec W (Unit {0})

pub record AgentDiagnoser (W : Type 0) : Type 0 where
  pub diagnose :
      QueryRun → DetectionResult → EvidenceBundle → Exec W (Option (Diagnosis × Recommendation))

-- The evidence store, the cancellation token, the clocks and the source of fresh identifiers. All
-- but the store are of the standard library and do not raise; other threads may cancel at any time.
pub record Environment (W : Type 0) : Type 0 where
  pub write : Uuid → Fields → Exec W (String × String)
  pub cancelled : W → Bool × W
  pub monotonic : W → Float × W
  pub utc_now : W → DateTime × W
  pub uuid4 : W → Uuid × W
