-- ===== src/Tests/ClickHouseRuns.antt =====
-- The theorems of the ClickHouse adapter at concrete inputs.
use yamazaki_incubator.Base.{
  ℕ, suc, ◌≡◌, refl, some, List, [], ◌∷◌, string_eq, nat_eq, All, contains, if◌then◌else◌,
}
use yamazaki_incubator.Base.Result.{ok}
use yamazaki_incubator.Base.Int.{pos}
use yamazaki_incubator.Contracts.{EngineKind, DateTime, ClusterTarget}
use yamazaki_incubator.Engines.{RawQueryRecord}
use yamazaki_incubator.Engines.Cells.{
  Row, words, integer, each_row, float_of, is_true, get_cell, item_of, optional_int,
}
use yamazaki_incubator.Engines.ClickHouse.Rows.{running_record}
use yamazaki_incubator.Engines.Collected.{IsCollected}
use yamazaki_incubator.Engines.ClickHouse.{
  ClickHouseAdapter, ClickHouseClient, collect_running_queries,
}
use yamazaki_incubator.Engines.ClickHouse
use yamazaki_incubator.Engines.ClickHouse.Laws.{
  collect, Collection, collect-IsCollected, fixed_statements_lem,
}
use yamazaki_incubator.Tests.Parameters.{hundredths, casts, returned_list}

abbrev noon : DateTime
noon = record { reading = pos 43200000000; offset = some (pos 0) }

abbrev clickhouse_target : ClusterTarget
clickhouse_target = record {
  cluster_id = "clickhouse-poc";
  engine = EngineKind.clickhouse;
  display_name = "ClickHouse POC";
  environment = "poc";
  credential_ref = "env:CLICKHOUSE_PASSWORD";
}

abbrev running_row : Row
running_row =
    ("query_id", words "q1")
    ∷ ("elapsed", integer (pos 12))
    ∷ ("memory_usage", integer (pos 1024))
    ∷ []

-- A server that answers every statement with one row, and counts the calls.
abbrev clickhouse : ClickHouseAdapter ℕ
clickhouse = record {
  target = clickhouse_target;
  client = record {
    query = λ sql parameters settings calls. (ok (running_row ∷ []), suc calls);
    close = λ calls. (ok tt, calls);
    now = λ calls. (noon, suc calls);
    uuid4 = λ calls. (calls, suc calls);
  };
}

abbrev clickhouse_records : List RawQueryRecord
clickhouse_records = returned_list (collect hundredths casts clickhouse (Collection.running 10) 5).0

clickhouse-collected :
    (collect hundredths casts clickhouse (Collection.running 10) 5).0 ≡ ok clickhouse_records
unfolding collect_running_queries each_row running_record float_of is_true get_cell item_of
    optional_int
clickhouse-collected = refl

collect-IsCollected_example :
    All (IsCollected EngineKind.clickhouse "clickhouse-poc") clickhouse_records
collect-IsCollected_example =
    collect-IsCollected hundredths casts clickhouse (Collection.running 10) 5 clickhouse_records
      clickhouse-collected

-- Another server: it answers the five statements alike, and any other with no rows.
abbrev other_query : ClickHouse.Laws.Query ℕ
other_query sql parameters settings calls =
    (ok (if contains ClickHouse.Laws.fixed_statements sql then running_row ∷ [] else []), suc calls)

fixed_statements_lem_example :
    collect_running_queries hundredths casts clickhouse 10
    ≡ collect_running_queries hundredths casts
        (record clickhouse { client = record (clickhouse.client) { query = other_query } })
        10
unfolding ClickHouse.Statements.version_sql ClickHouse.Statements.capability_sql
    ClickHouse.Statements.running_sql ClickHouse.Statements.completed_sql
    ClickHouse.Statements.evidence_sql
fixed_statements_lem_example =
    (fixed_statements_lem hundredths casts clickhouse (clickhouse.client.query) other_query
        (λ _. refl, (λ _. refl, (λ _. refl, (λ _. refl, (λ _. refl, tt)))))).1
      10
