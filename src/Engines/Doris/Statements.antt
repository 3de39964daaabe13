-- ===== src/Engines/Doris/Statements.antt =====
-- The texts that src/yamazaki/engines/doris.py sends: its four SQL statements and the paths of the
-- profile endpoint.
use yamazaki_incubator.Base.{
  ℕ, Bool, ◌&&◌, ◌||◌, List, [], ◌∷◌, ◌++◌, map, String, keep, all, contains, leb, nat_beq, not,
  string_eq,
}
use yamazaki_incubator.Base.Sort.{sorted}
use yamazaki_incubator.Base.Text.{
  join, separated, show_ℕ, codes, codes_le, text_length, starts_with, is_lower, is_upper, is_digit,
}
use yamazaki_incubator.Engines.{collector_marker}

-- `_AUDIT_COLUMNS_SQL`
unfoldable pub audit_columns_sql : String
unfolding join
audit_columns_sql = join (
    "SELECT column_name\n" ∷ "FROM information_schema.columns\n"
    ∷ "WHERE table_schema = '__internal_schema' AND table_name = 'audit_log'\n" ∷ "/* "
    ∷ collector_marker ∷ " */" ∷ [])

unfoldable pub version_sql : String
unfolding join
version_sql = join ("SELECT VERSION() AS version /* " ∷ collector_marker ∷ " */" ∷ [])

unfoldable pub processlist_sql : String
unfolding join
processlist_sql = join ("SHOW PROCESSLIST /* " ∷ collector_marker ∷ " */" ∷ [])

-- `_REQUIRED_AUDIT_COLUMNS`, a set: here in the order that `sorted` gives it.
abbrev pub required_audit_columns : List String
required_audit_columns = "is_query" ∷ "query_id" ∷ "query_time" ∷ "stmt" ∷ "time" ∷ "user" ∷ []

-- `_OPTIONAL_AUDIT_COLUMNS`
abbrev pub optional_audit_columns : List String
optional_audit_columns =
    "sql_digest" ∷ "error_code" ∷ "scan_rows" ∷ "return_rows" ∷ "cpu_time_ms" ∷ "peak_memory_bytes"
    ∷ "shuffle_bytes" ∷ "spill_bytes" ∷ "state" ∷ "frontend_ip" ∷ "workload_group" ∷ []

-- `sorted(_REQUIRED_AUDIT_COLUMNS - self._audit_columns)`
abbrev pub missing_columns : (audit_columns : List String) → List String
missing_columns audit_columns = keep (λ c. not (contains audit_columns c)) required_audit_columns

abbrev text_le : String → String → Bool
text_le a b = codes_le (codes a) (codes b)

abbrev quoted : String → String
quoted column = join ("`" ∷ column ∷ "`" ∷ [])

-- `sorted(selected)`
unfoldable pub selected_columns : (audit_columns : List String) → List String
selected_columns audit_columns =
    sorted text_le (required_audit_columns ++ keep (contains audit_columns) optional_audit_columns)

-- The statement of `collect_completed_queries`.
unfoldable pub completed_sql : (audit_columns : List String) → (limit : ℕ) → String
unfolding selected_columns
completed_sql audit_columns limit = join (
    "SELECT "
    ∷ separated ", " (map quoted (selected_columns audit_columns))
    ∷ "\nFROM __internal_schema.audit_log\n"
    ∷ "WHERE `time` >= %s AND `time` <= %s\n"
    ∷ "  AND `user` = %s AND `is_query` = 1\n"
    ∷ "  AND LOWER(`stmt`) NOT LIKE %s\n"
    ∷ "ORDER BY `time`, `query_id`\n"
    ∷ "LIMIT "
    ∷ show_ℕ limit
    ∷ "\n/* "
    ∷ collector_marker
    ∷ " */"
    ∷ [])

-- `_PROFILE_PREFIX`
abbrev pub profile_prefix : String
profile_prefix = "/rest/v2/manager/query/profile/json/"

abbrev is_query_id_char : ℕ → Bool
is_query_id_char c = is_upper c || is_lower c || is_digit c || nat_beq c b'_' || nat_beq c b'-'

-- `_QUERY_ID.fullmatch(query_id)`
unfoldable pub matches_query_id : (query_id : String) → Bool
matches_query_id query_id =
    all is_query_id_char (codes query_id)
    && leb 1 (text_length query_id)
    && leb (text_length query_id) 256

-- `f"{_PROFILE_PREFIX}{query_id}"`
abbrev pub profile_path : (query_id : String) → String
profile_path query_id = join (profile_prefix ∷ query_id ∷ [])

-- `path.startswith(_PROFILE_PREFIX)`
abbrev pub is_profile_path : (path : String) → Bool
is_profile_path path = starts_with (codes path) (codes profile_prefix)
