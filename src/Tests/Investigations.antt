-- ===== src/Tests/Investigations.antt =====
-- The theorems of the coordinator, the redaction and the normalization at concrete inputs.
use yamazaki_incubator.Base.{
  ℕ, ◌+◌, ◌≤◌, ◌≡◌, refl, true, false, none, some, [], ◌∷◌, length, map, string_eq,
}
use yamazaki_incubator.Base.Result.{ok}
use yamazaki_incubator.Base.Exec.{pure, raise}
use yamazaki_incubator.Base.Int.{◌-ℤ◌}
use yamazaki_incubator.Contracts.{
  QueryRun, redacted, of_clickhouse, validate_query_run, utc_aware, instant,
}
use yamazaki_incubator.Base.Text.{truncate}
use yamazaki_incubator.Ports.{EngineAdapter, ControlStateRepository, Environment}
use yamazaki_incubator.Coordinator.{Config, Run, no_progress, list_query, get_adapter, visit}
use yamazaki_incubator.Coordinator.Outcome.{Returns, StateFits, investigate-StateFits}
use yamazaki_incubator.Coordinator.Balance.{
  Subsequence, investigate-balance, investigate-Subsequence,
}
use yamazaki_incubator.Coordinator.Reporting.{Keeps, visit-Keeps}
use yamazaki_incubator.Redaction.{
  RedactionResult, Dialect, has_read_only_prefix, redact_sql, validate_redaction,
}
use yamazaki_incubator.Redaction.Laws.{IsRedacted, redact_sql-IsRedacted}
use yamazaki_incubator.Normalization.{normalize_query}
use yamazaki_incubator.Normalization.Laws.{
  IsNormal, normalize_query-IsNormal, normalize_query-IsRedacted,
}
use yamazaki_incubator.Detector.Rules.{default_thresholds}
use yamazaki_incubator.Tests.Parameters.{hundredths, platform, sqlglot}
use yamazaki_incubator.Tests.Samples.{
  later, slow_query, raw_query, raw_query_again, raw_evidence, prod, capability, request,
}

-- The state of the world is the number of the next UUID. The engine has one slow query.
abbrev adapter : EngineAdapter ℕ
adapter = record {
  target = prod;
  probe_capabilities = pure capability;
  collect_running_queries = λ limit. pure [];
  collect_completed_queries = λ a b. pure (raw_query ∷ []);
  collect_query_evidence = λ id. pure raw_evidence;
}

abbrev repository : ControlStateRepository ℕ
repository = record {
  save_cluster = λ _. pure tt;
  save_capability = λ _. pure tt;
  save_query_run = λ q. pure q;
  list_query_history = λ q. pure [];
  save_evidence = λ e. pure e;
  save_detection = λ _. pure tt;
  save_diagnosis = λ _. pure tt;
  save_recommendation = λ _. pure tt;
  save_investigation = λ _ _. pure tt;
}

abbrev environment : Environment ℕ
environment = record {
  write = λ id fields. raise "OSError";
  cancelled = λ n. (false, n);
  monotonic = λ n. (0, n);
  utc_now = λ n. (later, n);
  uuid4 = λ n. (n, n + 1);
}

abbrev config : Config ℕ
config = record {
  F = hundredths;
  P = platform;
  G = sqlglot;
  show_float = λ _. "0.0";
  thresholds = default_thresholds hundredths;
  adapters = adapter ∷ [];
  repository = repository;
  agent = none;
  env = environment;
}

investigate-StateFits_example :
    Returns config request 100 (λ r. StateFits r.state r.errors r.query_runs)
investigate-StateFits_example = investigate-StateFits config request 100 (λ result w. refl)

investigate-balance_example : Returns config request 100 (λ r.
    (length r.detections ≤ length r.query_runs)
    × (length r.recommendations ≡ length r.diagnoses)
    × (length r.diagnoses ≤ length r.detections + 1))
investigate-balance_example = investigate-balance config request 100 (λ result w. refl)

investigate-Subsequence_example : Returns config request 100 (λ r.
    Subsequence (map (λ d. d.query_run_id) r.detections) (map (λ q. q.query_run_id) r.query_runs))
investigate-Subsequence_example = investigate-Subsequence config request 100 (λ result w. refl)

abbrev started : Run ℕ
started = record { progress = list_query slow_query no_progress; world = 100 }

visit-Keeps_example :
    ((visit config request "prod" (get_adapter config.adapters "prod") started).0 ≡ ok tt)
    × Keeps config request started.progress
        (visit config request "prod" (get_adapter config.adapters "prod") started).1.progress
visit-Keeps_example = visit-Keeps config request "prod" started refl

abbrev masked : RedactionResult
masked = record {
  status = redacted;
  statement_type = "SELECT";
  structure = some "SELECT ?";
  reason = none;
}

masked-result : redact_sql sqlglot "SELECT a FROM t" Dialect.clickhouse ≡ ok masked
unfolding redact_sql validate_redaction truncate
masked-result = refl

-- The dotless i counts as an i.
dotless_i : has_read_only_prefix sqlglot "wıth x AS (SELECT 1) SELECT 1" ≡ true
unfolding has_read_only_prefix
dotless_i = refl

redact_sql-IsRedacted_example : IsRedacted sqlglot "SELECT a FROM t" Dialect.clickhouse "SELECT ?"
redact_sql-IsRedacted_example =
    redact_sql-IsRedacted sqlglot "SELECT a FROM t" Dialect.clickhouse masked "SELECT ?"
      masked-result refl

abbrev normal : QueryRun
normal = record slow_query {
  query_run_id = 45;
  ingested_at = later;
  scanned_rows = none;
  returned_rows = none;
  native = of_clickhouse (record {
    query_id = "q-7";
    initial_query_id = none;
    normalized_query_hash = none;
    query_kind = some "Select";
  });
}

abbrev normal_again : QueryRun
normal_again = record normal { observed_at = later; duration_ms = 95000 }

normal-result :
    normalize_query platform (λ _. "0.0") hundredths sqlglot later 1 raw_query ≡ ok normal
unfolding normalize_query redact_sql validate_redaction truncate validate_query_run utc_aware ◌-ℤ◌
normal-result = refl

normal_again-result :
    normalize_query platform (λ _. "0.0") hundredths sqlglot later 1 raw_query_again
    ≡ ok normal_again
unfolding normalize_query redact_sql validate_redaction truncate validate_query_run utc_aware ◌-ℤ◌
normal_again-result = refl

normalize_query-IsNormal_example :
    IsNormal platform (λ _. "0.0") hundredths sqlglot raw_query normal
normalize_query-IsNormal_example =
    normalize_query-IsNormal platform (λ _. "0.0") hundredths sqlglot later 1 raw_query normal
      normal-result

normalize_query-IsRedacted_example :
    IsRedacted sqlglot "SELECT a FROM t" Dialect.clickhouse "SELECT ?"
normalize_query-IsRedacted_example =
    normalize_query-IsRedacted platform (λ _. "0.0") hundredths sqlglot later 1 raw_query normal
      "SELECT ?" normal-result refl

same_instant : instant raw_query.started_at ≡ instant raw_query_again.started_at
unfolding instant ◌-ℤ◌
same_instant = refl
