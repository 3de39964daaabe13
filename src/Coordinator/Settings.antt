-- ===== src/Coordinator/Settings.antt =====
-- What the coordinator of src/yamazaki/service.py is built from, and two of its tables.
use yamazaki_incubator.Base.{
  ℕ, Bool, not, ◌&&◌, Option, none, some, List, [], ◌∷◌, String, is_empty, ◌==◌, if◌then◌else◌,
  string_eq,
}
use yamazaki_incubator.Numbers.{Floats, Float}
use yamazaki_incubator.Json.{Platform}
use yamazaki_incubator.Redaction.{SqlGlot}
use yamazaki_incubator.Detector.Rules.{SlowQueryThresholds}
use yamazaki_incubator.Ports.{EngineAdapter, ControlStateRepository, AgentDiagnoser, Environment}
use yamazaki_incubator.Contracts.{
  QueryRun, InvestigationState, succeeded, degraded, failed, cancelled,
}

-- What a coordinator is built from. `str` of a float and of a UUID are in `show_float` and `P`.
pub record Config (W : Type 0) : Type 1 where
  pub F : Floats
  pub P : Platform
  pub G : SqlGlot
  pub show_float : Float → String
  pub thresholds : SlowQueryThresholds
  pub adapters : List (EngineAdapter W)
  pub repository : ControlStateRepository W
  pub agent : Option (AgentDiagnoser W)
  pub env : Environment W

abbrev pub max_running_queries : ℕ
max_running_queries = 1000

-- `{adapter.target.cluster_id: adapter for adapter in adapters}.get(cluster_id)`: of two adapters
-- with one identifier the later counts.
unfoldable pub get_adapter :
    {W : Type 0} → List (EngineAdapter W) → String → Option (EngineAdapter W)
get_adapter [] cluster_id = none
get_adapter (a ∷ rest) cluster_id = elim (get_adapter rest cluster_id) [
  | some b ↦ some b
  | none ↦ if a.target.cluster_id == cluster_id then some a else none
]

unfoldable pub final_state : Bool → List (String × String) → List QueryRun → InvestigationState
final_state was_cancelled errors query_runs =
    if was_cancelled
    then cancelled
    else if not (is_empty errors) && not (is_empty query_runs)
    then degraded
    else if not (is_empty errors)
    then failed
    else succeeded
