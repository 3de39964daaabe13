-- ===== src/Engines/ClickHouse/Rows.antt =====
-- The loops of src/yamazaki/engines/clickhouse.py that turn the rows of a result into a profile,
-- records and evidence.
use yamazaki_incubator.Base.{
  Bool, true, false, not, ◌&&◌, ◌||◌, Option, none, some, List, [], ◌∷◌, String, nat_beq, ◌==◌,
  if◌then◌else◌, string_eq,
}
use yamazaki_incubator.Base.Result.{Result, ok, raised, ◌>>=◌}
use yamazaki_incubator.Base.Int.{ℤ, pos, negsuc, pos_part, ◌-ℤ◌}
use yamazaki_incubator.Numbers.{Floats}
use yamazaki_incubator.Json.{done, field, object, facts_json}
use yamazaki_incubator.Contracts.{
  Uuid, EngineKind, QueryState, DateTime, CapabilityProfile, validate_capability, Fact, Facts,
  int_fact, text_fact, bool_fact, no_fact,
}
use yamazaki_incubator.Engines.{RawQueryRecord, RawEvidence}
use yamazaki_incubator.Engines.Cells.{
  integer, words, nested, Row, get_cell, item_of, Casts, or_else, int_of, float_of, clamped,
  optional_int, optional_string, native_fact, cell_json, datetime_of, each_row,
}

-- `any(table == name for table, _ in names)`, and `(table, column) in names`
abbrev has_table : List (String × String) → String → Bool
has_table [] table = false
has_table ((t, c) ∷ names) table = t == table || has_table names table

abbrev has_column : List (String × String) → String → String → Bool
has_column [] table column = false
has_column ((t, c) ∷ names) table column =
    (t == table && c == column) || has_column names table column

-- `if not present: missing.append(name)`
abbrev lacking : Bool → String → List String → List String
lacking present name rest = if present then rest else name ∷ rest

-- `now - timedelta(microseconds=n)`
abbrev before : DateTime → ℤ → DateTime
before now n = record now { reading = now.reading -ℤ n }

-- `rows[0]`
abbrev pub first_row : List Row → Result Row
first_row [] = raised "IndexError"
first_row (row ∷ rows) = ok row

module _ (F : Floats) (K : Casts) where
  name_of : Row → Result (String × String)
  name_of row = do
    table ← item_of row "table"
    name ← item_of row "name"
    ok (K.str table, K.str name)

  -- The rest of `probe_capabilities`, after its two queries; `now` and `id` are the defaults.
  unfoldable pub profile_of :
      (cluster_id : String) (id : Uuid) (now : DateTime)
      → (version_rows columns : List Row) → Result CapabilityProfile
  unfolding name_of
  profile_of cluster_id id now version_rows columns = do
    row ← first_row version_rows
    version ← item_of row "version"
    names ← each_row name_of columns
    let query_log = has_table names "query_log"
    let processes = has_table names "processes"
    let native_fingerprint = has_column names "query_log" "normalized_query_hash"
    let collector_identity = has_column names "query_log" "http_user_agent"
    validate_capability (record {
      capability_profile_id = id;
      cluster_id = cluster_id;
      engine = EngineKind.clickhouse;
      engine_version = K.str version;
      deployment_mode = "single-node";
      supports_running_queries = processes;
      supports_completed_queries = query_log && collector_identity;
      supports_native_fingerprint = native_fingerprint;
      supports_profile = has_column names "query_log" "ProfileEvents";
      missing_capabilities = lacking query_log "system.query_log" (
          lacking processes "system.processes" (
            lacking native_fingerprint "normalized_query_hash"
              (lacking collector_identity "http_user_agent" [])));
      errors = [];
      captured_at = now;
    })

  -- The three entries that both kinds of records have.
  abbrev native_facts : Row → Facts → Facts
  native_facts row rest =
      ("initial_query_id", native_fact K (get_cell row "initial_query_id"))
      ∷ ("normalized_query_hash", native_fact K (get_cell row "normalized_query_hash"))
      ∷ ("query_kind", native_fact K (get_cell row "query_kind"))
      ∷ rest

  -- The body of the loop of `collect_running_queries`.
  unfoldable pub running_record :
      (cluster_id : String) (now : DateTime) → Row → Result RawQueryRecord
  running_record cluster_id now row = do
    elapsed ← float_of K (or_else F (get_cell row "elapsed") (integer (pos 0)))
    query_id ← item_of row "query_id"
    age ← K.microseconds elapsed
    duration_ms ← K.milliseconds elapsed
    peak_memory_bytes ← optional_int K (get_cell row "memory_usage")
    scanned_rows ← optional_int K (get_cell row "read_rows")
    ok (record {
      engine = EngineKind.clickhouse;
      cluster_id = cluster_id;
      query_id = K.str query_id;
      fingerprint = optional_string K (get_cell row "normalized_query_hash");
      state = QueryState.running;
      started_at = before now age;
      finished_at = none;
      observed_at = now;
      duration_ms = pos (pos_part duration_ms);
      queue_time_ms = none;
      cpu_time_ms = none;
      peak_memory_bytes = peak_memory_bytes;
      scanned_rows = scanned_rows;
      returned_rows = none;
      shuffle_bytes = none;
      spill_bytes = none;
      progress = none;
      raw_sql = optional_string K (get_cell row "query");
      native = native_facts row [];
    })

  -- `int(row.get("exception_code") or 0) != 0 or "Exception" in str(row.get("type") or "")`
  unfoldable pub has_failed : Row → Result Bool
  has_failed row = do
    code ← int_of K (or_else F (get_cell row "exception_code") (integer (pos 0)))
    let named = K.includes (K.str (or_else F (get_cell row "type") (words ""))) "Exception"
    ok (elim code [ pos n ↦ not (nat_beq n 0) || named | negsuc n ↦ true ])

  -- The body of the loop of `collect_completed_queries`; `now` is that of the iteration.
  unfoldable pub completed_record :
      (cluster_id : String) (now : DateTime) → Row → Result RawQueryRecord
  unfolding has_failed
  completed_record cluster_id now row = do
    query_start_time ← item_of row "query_start_time"
    started_at ← datetime_of query_start_time
    event_time ← item_of row "event_time"
    finished_at ← datetime_of event_time
    failed ← has_failed row
    query_id ← item_of row "query_id"
    duration_ms ← clamped K (or_else F (get_cell row "query_duration_ms") (integer (pos 0)))
    peak_memory_bytes ← optional_int K (get_cell row "memory_usage")
    scanned_rows ← optional_int K (get_cell row "read_rows")
    returned_rows ← optional_int K (get_cell row "result_rows")
    ok (record {
      engine = EngineKind.clickhouse;
      cluster_id = cluster_id;
      query_id = K.str query_id;
      fingerprint = optional_string K (get_cell row "normalized_query_hash");
      state = if failed then QueryState.failed else QueryState.succeeded;
      started_at = started_at;
      finished_at = some finished_at;
      observed_at = now;
      duration_ms = duration_ms;
      queue_time_ms = none;
      cpu_time_ms = none;
      peak_memory_bytes = peak_memory_bytes;
      scanned_rows = scanned_rows;
      returned_rows = returned_rows;
      shuffle_bytes = none;
      spill_bytes = none;
      progress = none;
      raw_sql = optional_string K (get_cell row "query");
      native =
          native_facts row (("exception_code", native_fact K (get_cell row "exception_code")) ∷ []);
    })

  abbrev int_or_none : Option ℤ → Fact
  int_or_none none = no_fact
  int_or_none (some n) = int_fact n

  -- The rest of `collect_query_evidence`, after its query.
  unfoldable pub evidence_of : (query_id : String) → List Row → Result RawEvidence
  evidence_of query_id [] = ok (record {
    source_kind = "clickhouse_query_log";
    summary = "ClickHouse Query Log evidence is unavailable.";
    facts = ("query_id", text_fact query_id) ∷ ("available", bool_fact false) ∷ [];
    restricted_payload = done;
    available = false;
    gap = some "query_log_record_unavailable";
  })
  evidence_of query_id (row ∷ rows) = do
    duration_ms ← optional_int K (get_cell row "query_duration_ms")
    read_rows ← optional_int K (get_cell row "read_rows")
    result_rows ← optional_int K (get_cell row "result_rows")
    memory_usage ← optional_int K (get_cell row "memory_usage")
    exception_code ← optional_int K (get_cell row "exception_code")
    let facts =
        ("query_id", text_fact query_id)
        ∷ ("duration_ms", int_or_none duration_ms)
        ∷ ("read_rows", int_or_none read_rows)
        ∷ ("result_rows", int_or_none result_rows)
        ∷ ("memory_usage", int_or_none memory_usage)
        ∷ ("exception_code", int_or_none exception_code)
        ∷ []
    ok (record {
      source_kind = "clickhouse_query_log";
      summary = "ClickHouse Query Log resource and status evidence.";
      facts = facts;
      restricted_payload = field "facts" (object (facts_json facts)) (
          field "profile_events"
            (cell_json K (or_else F (get_cell row "ProfileEvents") (nested (object done)))) done);
      available = true;
      gap = none;
    })
