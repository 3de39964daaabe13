-- ===== src/Tests/Samples.antt =====
-- A slow query, its history and its evidence.
use yamazaki_incubator.Base.{true, none, some, [], ◌∷◌}
use yamazaki_incubator.Base.Int.{pos}
use yamazaki_incubator.Json.{done, field, text}
use yamazaki_incubator.Engines.{RawQueryRecord, RawEvidence}
use yamazaki_incubator.Contracts.{
  ClusterTarget, CapabilityProfile, DateTime, EngineKind, QueryState, QueryRun, of_clickhouse,
  EvidenceRef, EvidenceBundle, text_fact, internal, redacted, InvestigationRequest, default_budget,
}

abbrev pub noon : DateTime
noon = record { reading = pos 1000; offset = some (pos 0) }

-- The same instant an hour to the east, and the next one.
abbrev pub noon_east : DateTime
noon_east = record { reading = pos 3600001000; offset = some (pos 3600000000) }

abbrev pub later : DateTime
later = record { reading = pos 2000; offset = some (pos 0) }

abbrev pub slow_query : QueryRun
slow_query = record {
  query_run_id = 7;
  engine = EngineKind.clickhouse;
  cluster_id = "prod";
  engine_query_id = "q-7";
  native_fingerprint = "f";
  state = QueryState.succeeded;
  started_at = noon;
  finished_at = none;
  observed_at = noon;
  ingested_at = noon;
  duration_ms = 90000;
  queue_time_ms = some 20000;
  cpu_time_ms = none;
  peak_memory_bytes = none;
  scanned_rows = some 5;
  returned_rows = some 5;
  shuffle_bytes = none;
  spill_bytes = none;
  progress = none;
  statement_type = "SELECT";
  redacted_structure = some "SELECT ?";
  native = of_clickhouse (record {
    query_id = "q-7";
    initial_query_id = none;
    normalized_query_hash = none;
    query_kind = none;
  });
  correlation_id = 1;
}

abbrev pub quick_query : QueryRun
quick_query = record slow_query { query_run_id = 8; engine_query_id = "q-8"; duration_ms = 40 }

abbrev pub foreign_query : QueryRun
foreign_query = record slow_query { query_run_id = 9; cluster_id = "other" }

abbrev pub summary : EvidenceRef
summary = record {
  evidence_id = 30;
  query_run_id = 7;
  source_kind = "query_summary";
  engine = EngineKind.clickhouse;
  collected_at = noon;
  summary = "slow";
  facts = [];
  content_hash = "0123456789abcdef0123456789abcdef0123456789abcdef0123456789abcdef";
  sensitivity = internal;
  storage_locator = none;
  redaction_status = redacted;
}

abbrev pub bundle : EvidenceBundle
bundle = record { items = summary ∷ [] }

abbrev pub raw_query : RawQueryRecord
raw_query = record {
  engine = EngineKind.clickhouse;
  cluster_id = "prod";
  query_id = "q-7";
  fingerprint = some "f";
  state = QueryState.succeeded;
  started_at = noon;
  finished_at = none;
  observed_at = noon;
  duration_ms = pos 90000;
  queue_time_ms = some (pos 20000);
  cpu_time_ms = none;
  peak_memory_bytes = none;
  scanned_rows = none;
  returned_rows = none;
  shuffle_bytes = none;
  spill_bytes = none;
  progress = none;
  raw_sql = some "SELECT a FROM t";
  native = ("query_kind", text_fact "Select") ∷ [];
}

-- The same attempt, read again later from another time zone.
abbrev pub raw_query_again : RawQueryRecord
raw_query_again = record raw_query {
  started_at = noon_east;
  observed_at = later;
  duration_ms = pos 95000;
}

abbrev pub raw_evidence : RawEvidence
raw_evidence = record {
  source_kind = "query_log";
  summary = "log";
  facts = [];
  restricted_payload = field "plan" (text "scan") done;
  available = true;
  gap = none;
}

abbrev pub prod : ClusterTarget
prod = record {
  cluster_id = "prod";
  engine = EngineKind.clickhouse;
  display_name = "Production";
  environment = "prod";
  credential_ref = "env:CH";
}

abbrev pub capability : CapabilityProfile
capability = record {
  capability_profile_id = 50;
  cluster_id = "prod";
  engine = EngineKind.clickhouse;
  engine_version = "25";
  deployment_mode = "single";
  supports_running_queries = true;
  supports_completed_queries = true;
  supports_native_fingerprint = true;
  supports_profile = true;
  missing_capabilities = [];
  errors = [];
  captured_at = noon;
}

-- One cluster that is configured, and one that is not.
abbrev pub request : InvestigationRequest
request = record {
  investigation_id = 1;
  cluster_ids = "prod" ∷ "ghost" ∷ [];
  window_start = noon;
  window_end = later;
  budget = default_budget;
  created_at = later;
}
