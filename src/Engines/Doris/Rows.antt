-- ===== src/Engines/Doris/Rows.antt =====
-- The loops of src/yamazaki/engines/doris.py over the rows of a result.
use yamazaki_incubator.Base.{
  Bool, false, not, ◌||◌, Option, none, some, List, [], ◌∷◌, map, String, nat_beq, ◌==◌, contains,
  is_empty, if◌then◌else◌, string_eq, ◌++◌,
}
use yamazaki_incubator.Base.Result.{Result, ok, ◌>>=◌}
use yamazaki_incubator.Base.Int.{ℤ, pos, pos_part, scaled, ◌-ℤ◌, ◌+ℤ◌}
use yamazaki_incubator.Numbers.{Floats}
use yamazaki_incubator.Contracts.{
  Uuid, EngineKind, QueryState, DateTime, CapabilityProfile, validate_capability,
}
use yamazaki_incubator.Engines.{RawQueryRecord, collector_marker}
use yamazaki_incubator.Engines.Cells.{
  Cell, integer, words, Row, get_cell, item_of, Casts, or_else, int_of, clamped, optional_int,
  optional_string, native_fact, datetime_of,
}
use yamazaki_incubator.Engines.Doris.Statements.{missing_columns}

-- `d[key] = value` on a dict: a key keeps its first place.
abbrev put : String → Cell → Row → Row
put key value [] = (key, value) ∷ []
put key value ((k, v) ∷ row) = if k == key then (k, value) ∷ row else (k, v) ∷ put key value row

-- `now - timedelta(seconds=n)` and `d + timedelta(milliseconds=n)`
abbrev seconds_before : DateTime → ℤ → DateTime
seconds_before now n = record now { reading = now.reading -ℤ scaled 1000000 n }

abbrev milliseconds_after : DateTime → ℤ → DateTime
milliseconds_after d n = record d { reading = d.reading +ℤ scaled 1000 n }

-- `metric or 0`, then `!= 0`
abbrev is_nonzero : Option ℤ → Bool
is_nonzero none = false
is_nonzero (some n) = not (nat_beq (pos_part n) 0)

-- The profile that `probe_capabilities` makes of what it found; `id` and `now` are the defaults.
unfoldable pub profile_of :
    (cluster_id version : String) (id : Uuid) (now : DateTime)
    → (audit_columns : List String) → (processlist_available profile_available : Bool)
    → Result CapabilityProfile
profile_of cluster_id version id now audit_columns processlist_available profile_available =
    validate_capability (record {
      capability_profile_id = id;
      cluster_id = cluster_id;
      engine = EngineKind.doris;
      engine_version = version;
      deployment_mode = "single-node";
      supports_running_queries = processlist_available;
      supports_completed_queries = is_empty (missing_columns audit_columns);
      supports_native_fingerprint = contains audit_columns "sql_digest";
      supports_profile = profile_available;
      missing_capabilities =
          missing_columns audit_columns
          ++ (if processlist_available then [] else "show_processlist" ∷ [])
          ++ (if profile_available then [] else "query_profile_http" ∷ []);
      errors = [];
      captured_at = now;
    })

module _ (K : Casts) where
  lowered_into : Row → Row → Row
  lowered_into row [] = row
  lowered_into row ((key, value) ∷ original) = lowered_into (put (K.lower key) value row) original

  -- `{str(key).lower(): value for key, value in original.items()}`
  unfoldable pub lowered : (original : Row) → Row
  unfolding lowered_into
  lowered original = lowered_into [] original

module _ (F : Floats) (K : Casts) where
  -- `str(row.get(column) or "")`
  abbrev text_of : Row → String → String
  text_of row column = K.str (or_else F (get_cell row column) (words ""))

  -- `self._audit_columns` of `probe_capabilities`
  unfoldable pub audit_columns_of : List Row → List String
  audit_columns_of rows =
      map
        (λ row. K.lower (
          K.str (
            or_else F (or_else F (get_cell row "column_name") (get_cell row "COLUMN_NAME"))
              (words ""))))
        rows

  -- The row is of the user and is not a statement of the collector.
  abbrev pub is_wanted : (username : String) → Row → Bool
  is_wanted username row =
      if not (text_of row "user" == username)
      then false
      else let statement = text_of row "info" in
        not (statement == "" || K.includes (K.lower statement) (K.lower collector_marker))

  -- The record of a row with lower keys, in the loop of `collect_running_queries`.
  unfoldable pub running_record :
      (cluster_id : String) (now : DateTime) → Row → Result RawQueryRecord
  running_record cluster_id now row = do
    elapsed_seconds ← int_of K (or_else F (get_cell row "time") (integer (pos 0)))
    ok (record {
      engine = EngineKind.doris;
      cluster_id = cluster_id;
      query_id = K.str (
          or_else F (or_else F (get_cell row "queryid") (get_cell row "query_id"))
            (get_cell row "id"));
      fingerprint = none;
      state = QueryState.running;
      started_at = seconds_before now elapsed_seconds;
      finished_at = none;
      observed_at = now;
      duration_ms = pos (pos_part (scaled 1000 elapsed_seconds));
      queue_time_ms = none;
      cpu_time_ms = none;
      peak_memory_bytes = none;
      scanned_rows = none;
      returned_rows = none;
      shuffle_bytes = none;
      spill_bytes = none;
      progress = none;
      raw_sql = some (text_of row "info");
      native =
          ("frontend", native_fact K (get_cell row "frontend"))
          ∷ ("workload_group", native_fact K (get_cell row "workloadgroup"))
          ∷ [];
    })

  -- The loop of `collect_running_queries`, which passes over the unwanted rows.
  unfoldable pub running_records :
      (username cluster_id : String) (now : DateTime) → List Row → Result (List RawQueryRecord)
  unfolding lowered running_record
  running_records username cluster_id now [] = ok []
  running_records username cluster_id now (original ∷ rows) =
      let rest = running_records username cluster_id now rows in
      let row = lowered K original in
      if is_wanted username row
      then (do made ← running_record cluster_id now row; others ← rest; ok (made ∷ others))
      else rest

  -- The body of the loop of `collect_completed_queries`; `now` is that of the iteration.
  unfoldable pub completed_record :
      (cluster_id : String) (now : DateTime) → Row → Result RawQueryRecord
  unfolding lowered
  completed_record cluster_id now original = do
    let row = lowered K original
    time ← item_of row "time"
    started_at ← datetime_of time
    duration_ms ← clamped K (or_else F (get_cell row "query_time") (integer (pos 0)))
    let state = K.upper (text_of row "state")
    error_code ← optional_int K (get_cell row "error_code")
    let failed =
        is_nonzero error_code || not (contains ("OK" ∷ "EOF" ∷ "FINISHED" ∷ "SUCCESS" ∷ []) state)
    query_id ← item_of row "query_id"
    cpu_time_ms ← optional_int K (get_cell row "cpu_time_ms")
    peak_memory_bytes ← optional_int K (get_cell row "peak_memory_bytes")
    scanned_rows ← optional_int K (get_cell row "scan_rows")
    returned_rows ← optional_int K (get_cell row "return_rows")
    shuffle_bytes ← optional_int K (get_cell row "shuffle_bytes")
    spill_bytes ← optional_int K (get_cell row "spill_bytes")
    ok (record {
      engine = EngineKind.doris;
      cluster_id = cluster_id;
      query_id = K.str query_id;
      fingerprint = optional_string K (get_cell row "sql_digest");
      state = if failed then QueryState.failed else QueryState.succeeded;
      started_at = started_at;
      finished_at = some (milliseconds_after started_at duration_ms);
      observed_at = now;
      duration_ms = duration_ms;
      queue_time_ms = none;
      cpu_time_ms = cpu_time_ms;
      peak_memory_bytes = peak_memory_bytes;
      scanned_rows = scanned_rows;
      returned_rows = returned_rows;
      shuffle_bytes = shuffle_bytes;
      spill_bytes = spill_bytes;
      progress = none;
      raw_sql = optional_string K (get_cell row "stmt");
      native =
          ("sql_digest", native_fact K (get_cell row "sql_digest"))
          ∷ ("frontend", native_fact K (get_cell row "frontend_ip"))
          ∷ ("workload_group", native_fact K (get_cell row "workload_group"))
          ∷ ("error_code", native_fact K (get_cell row "error_code"))
          ∷ [];
    })
