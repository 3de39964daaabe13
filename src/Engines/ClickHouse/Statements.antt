-- ===== src/Engines/ClickHouse/Statements.antt =====
-- The five statements of src/yamazaki/engines/clickhouse.py. The placeholders in braces are bound by
-- the client.
use yamazaki_incubator.Base.{List, [], ◌∷◌, ◌++◌, String}
use yamazaki_incubator.Base.Text.{join}
use yamazaki_incubator.Engines.{collector_marker}

-- The lines of an f-string, joined, with the marker in a comment at the end.
abbrev marked : List String → String
marked lines = join (lines ++ "/* " ∷ collector_marker ∷ " */" ∷ [])

unfoldable pub version_sql : String
unfolding join
version_sql = marked ("SELECT version() AS version " ∷ [])

-- `_CAPABILITY_SQL`
unfoldable pub capability_sql : String
unfolding join
capability_sql = marked (
    "SELECT database, table, name\n" ∷ "FROM system.columns\n"
    ∷ "WHERE database = 'system' AND table IN ('query_log', 'processes')\n" ∷ [])

-- `_RUNNING_SQL`
unfoldable pub running_sql : String
unfolding join
running_sql = marked (
    "SELECT query_id, initial_query_id, normalized_query_hash, query_kind, query,\n"
    ∷ "       elapsed, read_rows, memory_usage\n" ∷ "FROM system.processes\n"
    ∷ "WHERE user = currentUser()\n" ∷ "  AND positionCaseInsensitive(query, '" ∷ collector_marker
    ∷ "') = 0\n" ∷ "LIMIT {limit:UInt32}\n" ∷ [])

-- `_COMPLETED_SQL`
unfoldable pub completed_sql : String
unfolding join
completed_sql = marked (
    "SELECT event_time, query_start_time, query_duration_ms, read_rows, result_rows,\n"
    ∷ "       memory_usage, query_id, initial_query_id, normalized_query_hash, type,\n"
    ∷ "       exception_code, query_kind, query\n" ∷ "FROM system.query_log\n"
    ∷ "WHERE event_time >= {window_start:DateTime64(3)}\n"
    ∷ "  AND event_time <= {window_end:DateTime64(3)}\n" ∷ "  AND user = currentUser()\n"
    ∷ "  AND type != 'QueryStart'\n" ∷ "  AND query_kind = 'Select'\n"
    ∷ "  AND positionCaseInsensitive(query, '" ∷ collector_marker ∷ "') = 0\n"
    ∷ "  AND positionCaseInsensitive(http_user_agent, '" ∷ collector_marker ∷ "') = 0\n"
    ∷ "ORDER BY event_time, query_id\n" ∷ "LIMIT {limit:UInt32}\n" ∷ [])

unfoldable pub evidence_sql : String
unfolding join
evidence_sql = marked (
    "SELECT query_id, query_duration_ms, read_rows, result_rows, memory_usage,\n"
    ∷ "       exception_code, ProfileEvents\n" ∷ "FROM system.query_log\n"
    ∷ "WHERE query_id = {query_id:String} AND type != 'QueryStart'\n"
    ∷ "ORDER BY event_time DESC LIMIT 1\n" ∷ [])
