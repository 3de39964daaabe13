-- ===== src/Tests/DorisRuns.antt =====
-- The theorems of the Doris adapter at concrete inputs.
use yamazaki_incubator.Base.{
  ℕ, suc, ◌-◌, ◌≤◌, ◌≡◌, refl, true, false, some, List, [], ◌∷◌, arith, length, string_eq, nat_eq,
  All, is_empty,
}
use yamazaki_incubator.Base.Result.{ok, raised}
use yamazaki_incubator.Base.Int.{pos}
use yamazaki_incubator.Json
use yamazaki_incubator.Contracts.{
  EngineKind, DateTime, ClusterTarget, CapabilityProfile, validate_capability,
}
use yamazaki_incubator.Engines.{RawQueryRecord, RawEvidence}
use yamazaki_incubator.Engines.Cells.{
  Row, words, integer, moment, is_true, get_cell, item_of, optional_int, int_of, datetime_of,
}
use yamazaki_incubator.Engines.Doris
use yamazaki_incubator.Engines.Doris.{DorisAdapter, DorisState}
use yamazaki_incubator.Engines.Doris.Statements.{
  required_audit_columns, profile_path, matches_query_id,
}
use yamazaki_incubator.Engines.Doris.Executor.{PyMySqlExecutor, Driver, query}
use yamazaki_incubator.Engines.Doris.Columns.{probe-collect}
use yamazaki_incubator.Engines.Doris.Answers.{
  collect_query_evidence-right, RaisesOnly, IsRightAfter,
}
use yamazaki_incubator.Engines.Doris.Connections.{query-open_connections, Counts}
use yamazaki_incubator.Engines.Doris.Laws.{
  collect_running_queries-bounds, collect_completed_queries-IsCollected, IsForeign,
}
use yamazaki_incubator.Engines.Collected.{IsCollected}
use yamazaki_incubator.Tests.Parameters.{hundredths, casts, returned_list}

abbrev noon : DateTime
noon = record { reading = pos 43200000000; offset = some (pos 0) }

abbrev doris_target : ClusterTarget
doris_target = record {
  cluster_id = "doris-poc";
  engine = EngineKind.doris;
  display_name = "Doris POC";
  environment = "poc";
  credential_ref = "env:DORIS_PASSWORD";
}

abbrev foreign_row : Row
foreign_row =
    ("user", words "reader")
    ∷ ("info", words "SELECT 1")
    ∷ ("version", words "2.1")
    ∷ ("column_name", words "query_id")
    ∷ ("time", integer (pos 3))
    ∷ []

abbrev own_row : Row
own_row = ("user", words "reader") ∷ ("info", words "yamazaki-read-only-collector") ∷ []

-- A server that answers every statement with two rows, and has a profile of every query.
abbrev doris : DorisAdapter ℕ
doris = record {
  target = doris_target;
  username = "reader";
  executor = record {
    query = λ sql parameters calls. (ok (foreign_row ∷ own_row ∷ []), suc calls);
    close = λ calls. (ok tt, calls);
  };
  http = record {
    get = λ path calls.
        (ok (record { status_code = 200; content_length = 12; json = ok Json.null }), suc calls);
    is_http_error = λ _. false;
    is_value_error = λ _. false;
    close = λ calls. (ok tt, calls);
  };
  owns_http = true;
  now = λ calls. (noon, suc calls);
  uuid4 = λ calls. (calls, suc calls);
}

abbrev fresh : DorisState ℕ
fresh = record { audit_columns = []; world = 5 }

abbrev doris_records : List RawQueryRecord
doris_records = returned_list (Doris.collect_running_queries hundredths casts doris 10 fresh).0

doris-collected :
    (Doris.collect_running_queries hundredths casts doris 10 fresh).0 ≡ ok doris_records
unfolding Doris.collect_running_queries Doris.Rows.running_records is_true get_cell int_of
doris-collected = refl

collect_running_queries-bounds_example :
    All (λ raw. IsCollected EngineKind.doris "doris-poc" raw × IsForeign casts raw) doris_records
    × (length doris_records ≤ 10)
collect_running_queries-bounds_example =
    collect_running_queries-bounds hundredths casts doris 10 fresh doris_records doris-collected

abbrev audit_row : Row
audit_row =
    ("time", moment noon)
    ∷ ("query_time", integer (pos 30))
    ∷ ("query_id", words "q2")
    ∷ ("state", words "EOF")
    ∷ []

abbrev audited : DorisAdapter ℕ
audited = record doris {
  executor = record {
    query = λ sql parameters calls. (ok (audit_row ∷ []), suc calls);
    close = λ calls. (ok tt, calls);
  };
}

abbrev known : DorisState ℕ
known = record { audit_columns = required_audit_columns; world = 5 }

abbrev audit_records : List RawQueryRecord
audit_records =
    returned_list (Doris.collect_completed_queries hundredths casts audited noon noon 10 known).0

audit-collected :
    (Doris.collect_completed_queries hundredths casts audited noon noon 10 known).0
    ≡ ok audit_records
unfolding Doris.collect_completed_queries Doris.Rows.completed_record item_of datetime_of int_of
    is_true get_cell optional_int
audit-collected = refl

collect_completed_queries-IsCollected_example :
    All (IsCollected EngineKind.doris "doris-poc") audit_records
collect_completed_queries-IsCollected_example =
    collect_completed_queries-IsCollected hundredths casts audited noon noon 10 known audit_records
      audit-collected

abbrev doris_profile : CapabilityProfile
doris_profile = record {
  capability_profile_id = 9;
  cluster_id = "doris-poc";
  engine = EngineKind.doris;
  engine_version = "2.1";
  deployment_mode = "single-node";
  supports_running_queries = true;
  supports_completed_queries = false;
  supports_native_fingerprint = false;
  supports_profile = true;
  missing_capabilities = "is_query" ∷ "query_time" ∷ "stmt" ∷ "time" ∷ "user" ∷ [];
  errors = [];
  captured_at = noon;
}

doris-probed : (Doris.probe_capabilities hundredths casts doris fresh).0 ≡ ok doris_profile
unfolding Doris.probe_capabilities item_of Doris.Rows.profile_of validate_capability
    Doris.Rows.audit_columns_of is_true get_cell
doris-probed = refl

doris-has_columns :
    is_empty (Doris.probe_capabilities hundredths casts doris fresh).1.audit_columns ≡ false
unfolding Doris.probe_capabilities item_of Doris.Rows.audit_columns_of
doris-has_columns = refl

probe-collect_example :
    Doris.collect_completed_queries hundredths casts doris noon noon 10
      (Doris.probe_capabilities hundredths casts doris fresh).1
    ≡ (ok [], (Doris.probe_capabilities hundredths casts doris fresh).1)
probe-collect_example =
    probe-collect hundredths casts doris fresh doris_profile noon noon 10 doris-probed
      doris-has_columns refl refl

doris-RaisesOnly : RaisesOnly doris.http
doris-RaisesOnly = record { get = λ path w e h. cc h; json = λ path w r e h k. cc (h, k) }

collect_query_evidence-right_example :
    (evidence : RawEvidence) × ((Doris.collect_query_evidence doris "q-1_B" fresh).0 ≡ ok evidence)
    × ((Doris.collect_query_evidence doris "q-1_B" fresh).1.audit_columns ≡ [])
    × IsRightAfter evidence (doris.http.get (profile_path "q-1_B") 5).0
unfolding matches_query_id
collect_query_evidence-right_example =
    collect_query_evidence-right doris "q-1_B" fresh refl doris-RaisesOnly

-- The world is the number of open connections, and a query fails.
abbrev driver : Driver ℕ ℕ
driver = record {
  connect = λ executor n. (ok n, suc n);
  fetch_all = λ connection sql parameters n. (raised "ProgrammingError", n);
  close = λ connection n. (ok tt, n - 1);
}

abbrev reader : PyMySqlExecutor
reader = record {
  host = "127.0.0.1";
  port = 9030;
  username = "reader";
  password = "";
  database = "information_schema";
}

driver-Counts : Counts driver (λ n. n)
driver-Counts = record {
  connected = λ x w c h. omega arith;
  failed = λ x w e h. cc h;
  fetched = λ c sql ps w. refl;
  closed = λ c w h. omega (arith, h);
}

query-open_connections_example : (query driver reader "SELECT 1" [] 3).1 ≡ 3
query-open_connections_example =
    query-open_connections driver (λ n. n) reader "SELECT 1" [] 3 driver-Counts
