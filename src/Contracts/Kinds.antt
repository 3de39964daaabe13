-- ===== src/Contracts/Kinds.antt =====
-- The enumerations of src/yamazaki/contracts.py, and the identifiers.
use yamazaki_incubator.Base.{ℕ, Bool, true, false, String}

-- A UUID is its 128-bit number, `UUID.int`.
abbrev pub Uuid : Type 0
Uuid = ℕ

pub data EngineKind : Type 0 where
  clickhouse doris : EngineKind

-- A StrEnum member prints as its value.
abbrev pub engine_text : EngineKind → String
engine_text EngineKind.clickhouse = "clickhouse"
engine_text EngineKind.doris = "doris"

-- `a is b`
abbrev pub same_engine : EngineKind → EngineKind → Bool
same_engine EngineKind.clickhouse EngineKind.clickhouse = true
same_engine EngineKind.doris EngineKind.doris = true
same_engine _ _ = false

pub data QueryState : Type 0 where
  running succeeded failed : QueryState

abbrev pub state_text : QueryState → String
state_text QueryState.running = "running"
state_text QueryState.succeeded = "succeeded"
state_text QueryState.failed = "failed"

abbrev pub is_running : QueryState → Bool
is_running QueryState.running = true
is_running _ = false

abbrev pub is_succeeded : QueryState → Bool
is_succeeded QueryState.succeeded = true
is_succeeded _ = false

pub data InvestigationState : Type 0 where
  running succeeded degraded failed cancelled : InvestigationState

pub data InferenceKind : Type 0 where
  fact rule statistical model : InferenceKind

pub data Sensitivity : Type 0 where
  internal restricted : Sensitivity

pub data RedactionStatus : Type 0 where
  redacted omitted : RedactionStatus

pub data DiagnosisSource : Type 0 where
  deterministic agent_assisted : DiagnosisSource
