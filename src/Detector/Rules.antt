-- ===== src/Detector/Rules.antt =====
-- The thresholds and the blocks of `SlowQueryDetector.detect` in src/yamazaki/slow_query.py.
use yamazaki_incubator.Base.{
  ℕ, ◌-◌, ◌*◌, Bool, not, ◌&&◌, Option, none, some, List, [], ◌∷◌, ◌++◌, String, map, leb, ltb,
  length, keep, drop, ◌==◌, nat_eq, string_eq, if◌then◌else◌,
}
use yamazaki_incubator.Base.Result.{Result, ok, ◌>>=◌, ◌>>◌, require}
use yamazaki_incubator.Base.Sort.{sorted}
use yamazaki_incubator.Numbers.{Float, Floats, Number, int, to_float, is_positive}
use yamazaki_incubator.Contracts.{
  InferenceKind, rule, statistical, QueryRun, DetectionSignal, is_running, is_succeeded,
}
use yamazaki_incubator.Detector.Stats.{p95_of, median, deviation}

pub record SlowQueryThresholds : Type 0 where
  pub duration_ms : ℕ
  pub queue_time_ms : ℕ
  pub peak_memory_bytes : ℕ
  pub scanned_rows : ℕ
  pub scan_amplification : Float
  pub baseline_samples : ℕ
  pub p95_multiplier : Float
  pub mad_multiplier : Float
  pub stagnation_samples : ℕ

-- What a run of the blocks has appended so far.
pub record Findings : Type 0 where
  pub signals : List DetectionSignal
  pub gaps : List String

abbrev pub nothing : Findings
nothing = record { signals = []; gaps = [] }

abbrev pub gap : String → Findings
gap name = record { signals = []; gaps = name ∷ [] }

infixr 65 ◌<>◌
abbrev pub ◌<>◌ : Findings → Findings → Findings
a <> b = record { signals = a.signals ++ b.signals; gaps = a.gaps ++ b.gaps }

abbrev pub same_group : QueryRun → QueryRun → Bool
same_group query item =
    item.cluster_id == query.cluster_id
    && item.native_fingerprint == query.native_fingerprint
    && not (item.query_run_id == query.query_run_id)
    && is_succeeded item.state

-- `len(set(progress)) == 1`, with every value present: the first and last of the values.
unfoldable pub steady : (Float → Float → Bool) → List (Option Float) → Option (Float × Float)
steady eq [] = none
steady eq (none ∷ rest) = none
steady eq (some x ∷ []) = some (x, x)
steady eq (some x ∷ y ∷ rest) = elim (steady eq (y ∷ rest)) [
  | none ↦ none
  | some (first, last) ↦ if eq x first then some (x, last) else none
]

module _ (F : Floats) where
  -- The defaults of the fields.
  abbrev pub default_thresholds : SlowQueryThresholds
  default_thresholds = record {
    duration_ms = 5000;
    queue_time_ms = 2000;
    peak_memory_bytes = 512 * 1024 * 1024;
    scanned_rows = 1000000;
    scan_amplification = F.of_int 1000;
    baseline_samples = 5;
    p95_multiplier = F.decimal 15 1;
    mad_multiplier = F.of_int 6;
    stagnation_samples = 3;
  }

  -- The bounds of the fields.
  unfoldable pub validate_thresholds : SlowQueryThresholds → Result SlowQueryThresholds
  validate_thresholds T = do
    require (leb 1 T.duration_ms && leb 1 T.queue_time_ms) "ValidationError"
    require (leb 1 T.peak_memory_bytes && leb 1 T.scanned_rows) "ValidationError"
    require (F.le (F.of_int 1) T.scan_amplification) "ValidationError"
    require (leb 3 T.baseline_samples && leb 2 T.stagnation_samples) "ValidationError"
    require (F.lt (F.of_int 1) T.p95_multiplier && F.lt (F.of_int 1) T.mad_multiplier)
        "ValidationError"
    ok T

  abbrev pub signal : String → Float → Float → InferenceKind → Findings
  signal code observed threshold kind = record {
    signals =
        record {
          code = code;
          observed_value = observed;
          threshold = threshold;
          inference_kind = kind;
        }
        ∷ [];
    gaps = [];
  }

  -- A metric against its threshold: `elif value >= limit: signals.append(...)`
  unfoldable pub crossed : String → ℕ → ℕ → Result Findings
  crossed code value limit =
      if leb limit value
      then (do
        observed ← F.to_double value
        threshold ← F.to_double limit
        ok (signal code observed threshold rule))
      else ok nothing

  module _ (T : SlowQueryThresholds) (query : QueryRun) where
    unfoldable pub duration_rule : Result Findings
    unfolding crossed
    duration_rule = crossed "duration_threshold" query.duration_ms T.duration_ms

    unfoldable pub queue_rule : Option ℕ → Result Findings
    unfolding crossed
    queue_rule none = ok (gap "queue_time_unavailable")
    queue_rule (some value) = crossed "queue_time_threshold" value T.queue_time_ms

    unfoldable pub memory_rule : Option ℕ → Result Findings
    unfolding crossed
    memory_rule none = ok (gap "peak_memory_unavailable")
    memory_rule (some value) = crossed "memory_threshold" value T.peak_memory_bytes

    unfoldable pub amplification_rule : ℕ → Option ℕ → Result Findings
    amplification_rule scanned none = ok (gap "returned_rows_unavailable")
    amplification_rule scanned (some returned) =
        if ltb 0 returned
        then (do
          amplification ← F.int_div scanned returned
          ok (
              if F.le T.scan_amplification amplification
              then signal "scan_amplification" amplification T.scan_amplification statistical
              else nothing))
        else ok nothing

    unfoldable pub scanned_rule : ℕ → Result Findings
    unfolding crossed
    scanned_rule scanned = crossed "scanned_rows_threshold" scanned T.scanned_rows

    unfoldable pub scan_rule : Option ℕ → Option ℕ → Result Findings
    unfolding scanned_rule amplification_rule
    scan_rule none returned = ok (gap "scanned_rows_unavailable")
    scan_rule (some scanned) returned = do
      crossing ← scanned_rule scanned
      amplification ← amplification_rule scanned returned
      ok (crossing <> amplification)

    -- `if duration_ms >= threshold: signals.append(...)`, for a threshold that is a float
    unfoldable pub regressed : String → Float → Result Findings
    regressed code threshold =
        if F.le_int threshold query.duration_ms
        then (do
          observed ← F.to_double query.duration_ms
          ok (signal code observed threshold statistical))
        else ok nothing

    -- `duration_ms >= p95 * p95_multiplier`
    unfoldable pub p95_rule : ℕ → Result Findings
    unfolding regressed
    p95_rule p95 = do
      value ← F.to_double p95
      regressed "p95_regression" (F.mul value T.p95_multiplier)

    -- `duration_ms >= center + mad_multiplier * mad`, if `mad > 0`
    unfoldable pub mad_rule : Number → Number → Result Findings
    unfolding to_float is_positive regressed
    mad_rule center mad =
        if is_positive F mad
        then (do
          spread ← to_float F mad
          middle ← to_float F center
          regressed "mad_regression" (F.add middle (F.mul T.mad_multiplier spread)))
        else ok nothing

    unfoldable pub regression_rules : List ℕ → Result Findings
    unfolding p95_of median deviation p95_rule mad_rule
    regression_rules durations = do
      p95 ← p95_of durations
      by_p95 ← p95_rule p95
      center ← median F (map int durations)
      mad ← deviation F durations center
      by_mad ← mad_rule center mad
      ok (by_p95 <> by_mad)

    -- The durations of `comparable`, sorted.
    unfoldable pub comparable_durations : List QueryRun → List ℕ
    unfolding sorted
    comparable_durations history =
        sorted leb (map (λ item. item.duration_ms) (keep (same_group query) history))

    unfoldable pub history_rule : List QueryRun → Result Findings
    unfolding comparable_durations regression_rules
    history_rule history =
        let durations = comparable_durations history in
        if ltb (length durations) T.baseline_samples
        then ok (gap "history_baseline_insufficient")
        else regression_rules durations

    -- `float(value or 0)`
    unfoldable pub or_zero : Float → Float
    or_zero x = if F.eq x (F.of_int 0) then F.of_int 0 else x

    unfoldable pub stagnation_rule : List QueryRun → Findings
    unfolding steady or_zero
    stagnation_rule progress_snapshots =
        let snapshots =
          keep (λ item. item.engine_query_id == query.engine_query_id) progress_snapshots in
        let recent = drop (length snapshots - T.stagnation_samples) snapshots in
        if is_running query.state && leb T.stagnation_samples (length snapshots)
        then elim (steady F.eq (map (λ item. item.progress) recent)) [
          | none ↦ nothing
          | some (first, last) ↦
              signal "progress_stagnation" (or_zero last) (or_zero first) statistical
        ]
        else nothing

    -- The blocks that read the query alone.
    unfoldable pub query_rules : Result Findings
    unfolding duration_rule queue_rule memory_rule scan_rule
    query_rules = do
      duration ← duration_rule
      queue ← queue_rule query.queue_time_ms
      memory ← memory_rule query.peak_memory_bytes
      scan ← scan_rule query.scanned_rows query.returned_rows
      ok (duration <> queue <> memory <> scan)

    -- The blocks of `detect` in their order.
    unfoldable pub findings : (history progress_snapshots : List QueryRun) → Result Findings
    unfolding query_rules history_rule stagnation_rule
    findings history progress_snapshots = do
      own ← query_rules
      regressions ← history_rule history
      ok (own <> regressions <> stagnation_rule progress_snapshots)
