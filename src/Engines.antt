-- ===== src/Engines.antt =====
-- src/yamazaki/engines/base.py: the transient records that an adapter hands over. Nothing has
-- checked them yet, so their integers may be negative.
pub mod Cells
pub mod Collected
pub mod ClickHouse
pub mod Doris
use yamazaki_incubator.Base.{Bool, Option, String}
use yamazaki_incubator.Base.Int.{ℤ}
use yamazaki_incubator.Numbers.{Float}
use yamazaki_incubator.Json.{Fields}
use yamazaki_incubator.Contracts.{EngineKind, QueryState, DateTime, Facts}

-- `COLLECTOR_MARKER`
abbrev pub collector_marker : String
collector_marker = "yamazaki-read-only-collector"

pub record RawQueryRecord : Type 0 where
  pub engine : EngineKind
  pub cluster_id : String
  pub query_id : String
  pub fingerprint : Option String
  pub state : QueryState
  pub started_at : DateTime
  pub finished_at : Option DateTime
  pub observed_at : DateTime
  pub duration_ms : ℤ
  pub queue_time_ms : Option ℤ
  pub cpu_time_ms : Option ℤ
  pub peak_memory_bytes : Option ℤ
  pub scanned_rows : Option ℤ
  pub returned_rows : Option ℤ
  pub shuffle_bytes : Option ℤ
  pub spill_bytes : Option ℤ
  pub progress : Option Float
  pub raw_sql : Option String
  pub native : Facts

pub record RawEvidence : Type 0 where
  pub source_kind : String
  pub summary : String
  pub facts : Facts
  pub restricted_payload : Fields
  pub available : Bool
  pub gap : Option String
