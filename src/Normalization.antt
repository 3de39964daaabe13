-- ===== src/Normalization.antt =====
-- src/yamazaki/normalization.py, with `QueryRun.stable_id` and `EvidenceRef.stable_id` of
-- src/yamazaki/contracts.py. What `utc_now` returns is an argument `now`.
pub mod Laws
use yamazaki_incubator.Base.{
  ℕ, suc, Bool, true, false, not, Option, none, some, List, [], ◌∷◌, String, ◌==◌, if◌then◌else◌,
  string_eq,
}
use yamazaki_incubator.Base.Result.{Result, ok, raised, ◌>>=◌}
use yamazaki_incubator.Base.Exec.{Exec}
use yamazaki_incubator.Base.Int.{ℤ, pos, negsuc, pos_part}
use yamazaki_incubator.Base.Text.{join, show_ℕ}
use yamazaki_incubator.Numbers.{Floats, Float}
use yamazaki_incubator.Json.{
  Json, text, null, object, Fields, done, field, facts_json, is_empty_dict, Platform,
}
use yamazaki_incubator.Redaction.{SqlGlot, Dialect, RedactionResult, redact_sql}
use yamazaki_incubator.Engines.{RawQueryRecord, RawEvidence}
use yamazaki_incubator.Contracts.{
  Uuid, EngineKind, engine_text, state_text, DateTime, utc_aware, NativeIdentity, of_clickhouse,
  of_doris, QueryRun, non_negative, validate_query_run, Fact, int_fact, float_fact, text_fact,
  bool_fact, no_fact, Facts, EvidenceRef, validate_evidence, RedactionStatus, redacted, omitted,
  Sensitivity, internal, restricted,
}

-- `str(n)` of an int
unfoldable pub show_ℤ : ℤ → String
unfolding join show_ℕ
show_ℤ (pos n) = show_ℕ n
show_ℤ (negsuc n) = join ("-" ∷ show_ℕ (suc n) ∷ [])

abbrev pub show_bool : Bool → String
show_bool true = "True"
show_bool false = "False"

-- `native.get(key)`
unfoldable pub get_fact : Facts → String → Fact
get_fact [] key = no_fact
get_fact ((k, v) ∷ rest) key = if k == key then v else get_fact rest key

-- `a or b` of two texts, of which the first may be missing
abbrev pub text_or : Option String → String → String
text_or none d = d
text_or (some s) d = if s == "" then d else s

abbrev pub dialect_of : EngineKind → Dialect
dialect_of EngineKind.clickhouse = Dialect.clickhouse
dialect_of EngineKind.doris = Dialect.mysql

abbrev pub optional_text : Option String → Json
optional_text none = null
optional_text (some s) = text s

abbrev pub optional_fact : Option ℕ → Fact
optional_fact none = no_fact
optional_fact (some n) = int_fact (pos n)

-- `_aware(x) if x is not None else None`
abbrev pub optional_aware : Option DateTime → Option DateTime
optional_aware none = none
optional_aware (some d) = some (utc_aware d)

-- `show_float` is `str` of a float.
module _ (P : Platform) (show_float : Float → String) where
  -- `_string`
  unfoldable pub string_of : Fact → Option String
  unfolding show_ℤ
  string_of (int_fact n) = some (show_ℤ n)
  string_of (float_fact x) = some (show_float x)
  string_of (text_fact s) = some s
  string_of (bool_fact b) = some (show_bool b)
  string_of no_fact = none

  -- `QueryRun.stable_id`
  unfoldable pub query_stable_id : EngineKind → String → String → DateTime → Uuid
  unfolding join
  query_stable_id engine cluster_id engine_query_id started_at = P.uuid5 (
      join (
        engine_text engine
        ∷ ":"
        ∷ cluster_id
        ∷ ":"
        ∷ engine_query_id
        ∷ ":"
        ∷ P.isoformat started_at
        ∷ []))

  -- `EvidenceRef.stable_id`
  unfoldable pub evidence_stable_id : Uuid → String → String → Uuid
  unfolding join
  evidence_stable_id query_run_id source_kind content_hash =
      P.uuid5 (join (P.uuid_text query_run_id ∷ ":" ∷ source_kind ∷ ":" ∷ content_hash ∷ []))

  unfoldable pub native_of : EngineKind → String → Facts → NativeIdentity
  unfolding string_of get_fact
  native_of EngineKind.clickhouse query_id native = of_clickhouse (record {
    query_id = query_id;
    initial_query_id = string_of (get_fact native "initial_query_id");
    normalized_query_hash = string_of (get_fact native "normalized_query_hash");
    query_kind = string_of (get_fact native "query_kind");
  })
  native_of EngineKind.doris query_id native = of_doris (record {
    query_id = query_id;
    sql_digest = string_of (get_fact native "sql_digest");
    frontend = string_of (get_fact native "frontend");
    workload_group = string_of (get_fact native "workload_group");
  })

  -- The digest of engine, statement type and structure, where the engine gives no fingerprint.
  unfoldable pub fallback_fingerprint : EngineKind → RedactionResult → String
  fallback_fingerprint engine redaction = P.content_digest (
      object (
        field "engine" (text (engine_text engine)) (
          field "statement_type" (text redaction.statement_type)
            (field "structure" (optional_text redaction.structure) done))))

  module _ (F : Floats) (G : SqlGlot) where
    -- `normalize_query` after the redaction.
    unfoldable pub assemble :
        (now : DateTime) (correlation_id : Uuid)
        → RawQueryRecord
        → RedactionResult
        → Result QueryRun
    unfolding query_stable_id native_of fallback_fingerprint non_negative
    assemble now correlation_id raw redaction = do
      queue_time_ms ← non_negative raw.queue_time_ms
      cpu_time_ms ← non_negative raw.cpu_time_ms
      peak_memory_bytes ← non_negative raw.peak_memory_bytes
      scanned_rows ← non_negative raw.scanned_rows
      returned_rows ← non_negative raw.returned_rows
      shuffle_bytes ← non_negative raw.shuffle_bytes
      spill_bytes ← non_negative raw.spill_bytes
      validate_query_run F (record {
        query_run_id =
            query_stable_id raw.engine raw.cluster_id raw.query_id (utc_aware raw.started_at);
        engine = raw.engine;
        cluster_id = raw.cluster_id;
        engine_query_id = raw.query_id;
        native_fingerprint = text_or raw.fingerprint (fallback_fingerprint raw.engine redaction);
        state = raw.state;
        started_at = utc_aware raw.started_at;
        finished_at = optional_aware raw.finished_at;
        observed_at = utc_aware raw.observed_at;
        ingested_at = now;
        duration_ms = pos_part raw.duration_ms;
        queue_time_ms = queue_time_ms;
        cpu_time_ms = cpu_time_ms;
        peak_memory_bytes = peak_memory_bytes;
        scanned_rows = scanned_rows;
        returned_rows = returned_rows;
        shuffle_bytes = shuffle_bytes;
        spill_bytes = spill_bytes;
        progress = raw.progress;
        statement_type = redaction.statement_type;
        redacted_structure = redaction.structure;
        native = native_of raw.engine raw.query_id raw.native;
        correlation_id = correlation_id;
      })

    unfoldable pub normalize_query :
        (now : DateTime) (correlation_id : Uuid) → RawQueryRecord → Result QueryRun
    unfolding assemble
    normalize_query now correlation_id raw = do
      redaction ← redact_sql G (text_or raw.raw_sql "SELECT identifier") (dialect_of raw.engine)
      assemble now correlation_id raw redaction

  abbrev pub summary_facts : QueryRun → Facts
  summary_facts query =
      ("duration_ms", int_fact (pos query.duration_ms))
      ∷ ("queue_time_ms", optional_fact query.queue_time_ms)
      ∷ ("cpu_time_ms", optional_fact query.cpu_time_ms)
      ∷ ("peak_memory_bytes", optional_fact query.peak_memory_bytes)
      ∷ ("scanned_rows", optional_fact query.scanned_rows)
      ∷ ("returned_rows", optional_fact query.returned_rows)
      ∷ ("shuffle_bytes", optional_fact query.shuffle_bytes)
      ∷ ("spill_bytes", optional_fact query.spill_bytes)
      ∷ ("state", text_fact (state_text query.state))
      ∷ ("native_fingerprint", text_fact query.native_fingerprint)
      ∷ []

  unfoldable pub query_summary_evidence : (now : DateTime) → QueryRun → Result EvidenceRef
  unfolding evidence_stable_id facts_json join show_ℕ
  query_summary_evidence now query =
      let digest = P.content_digest (object (facts_json (summary_facts query))) in
      validate_evidence (record {
        evidence_id = evidence_stable_id query.query_run_id "query_summary" digest;
        query_run_id = query.query_run_id;
        source_kind = "query_summary";
        engine = query.engine;
        collected_at = now;
        summary = join (
            engine_text query.engine
            ∷ " query "
            ∷ query.engine_query_id
            ∷ " completed with state "
            ∷ state_text query.state
            ∷ " in "
            ∷ show_ℕ query.duration_ms
            ∷ " ms."
            ∷ []);
        facts = summary_facts query;
        content_hash = digest;
        sensitivity = internal;
        storage_locator = none;
        redaction_status = redacted;
      })

  -- `raw.restricted_payload or raw.facts`
  abbrev pub payload_of : RawEvidence → Json
  payload_of raw =
      if is_empty_dict raw.restricted_payload
      then object (facts_json raw.facts)
      else object raw.restricted_payload

  abbrev raw_evidence_id : QueryRun → RawEvidence → Uuid
  raw_evidence_id query raw =
      evidence_stable_id query.query_run_id raw.source_kind (P.content_digest (payload_of raw))

  -- The reference to raw evidence that is stored at `locator`, or not stored.
  unfoldable pub raw_evidence_ref :
      (now : DateTime) → QueryRun → RawEvidence → Option String → String → Result EvidenceRef
  unfolding evidence_stable_id facts_json
  raw_evidence_ref now query raw locator digest = validate_evidence (record {
    evidence_id = raw_evidence_id query raw;
    query_run_id = query.query_run_id;
    source_kind = raw.source_kind;
    engine = query.engine;
    collected_at = now;
    summary = raw.summary;
    facts = raw.facts;
    content_hash = digest;
    sensitivity = if is_empty_dict raw.restricted_payload then internal else restricted;
    storage_locator = locator;
    redaction_status = if raw.available then redacted else omitted;
  })

  -- `write` is the method of the evidence store, which acts on the state `S`.
  module _ {S : Type 0} (write : Uuid → Fields → Exec S (String × String)) where
    unfoldable pub persist_raw_evidence :
        (now : DateTime) → QueryRun → RawEvidence → Exec S EvidenceRef
    unfolding raw_evidence_ref
    persist_raw_evidence now query raw s =
        if is_empty_dict raw.restricted_payload
        then (raw_evidence_ref now query raw none (P.content_digest (payload_of raw)), s)
        else (let (r, s') = write (raw_evidence_id query raw) raw.restricted_payload s in
            ((do (locator, digest) ← r; raw_evidence_ref now query raw (some locator) digest), s'))
