-- ===== src/Detector.antt =====
-- src/yamazaki/slow_query.py: deterministic slow-query detection. `Stats` has the statistics,
-- `Rules` the thresholds and the blocks of `detect`, one function for each. A block returns the
-- signals and the gaps that it appends.
pub mod Stats
pub mod Rules
pub mod Decision
pub mod Blocks
pub mod History
pub mod Signals
pub mod Conversions
pub mod Returns
pub mod Gaps
pub mod Total
use yamazaki_incubator.Base.{
  ℕ, ◌+◌, ◌*◌, Bool, true, false, not, ◌||◌, Option, none, some, List, [], ◌∷◌, ◌++◌, String, leb,
  ltb, is_empty, length, if◌then◌else◌, string_eq,
}
use yamazaki_incubator.Base.Result.{Result, ok, ◌>>=◌}
use yamazaki_incubator.Base.Unique.{from_keys}
use yamazaki_incubator.Numbers.{Float, Floats}
use yamazaki_incubator.Contracts.{
  Uuid, QueryRun, EvidenceRef, DetectionResult, DetectionSignal, Severity, no_severity, high,
  medium, unique_evidence_ids, validate_detection,
}
use yamazaki_incubator.Detector.Rules.{SlowQueryThresholds, Findings, findings}

-- `version` of the class
abbrev pub version : String
version = "yamazaki.slow-query/v1"

module _ (F : Floats) where
  unfoldable pub severity_of : SlowQueryThresholds → QueryRun → List DetectionSignal → Severity
  severity_of T query signals =
      if is_empty signals
      then no_severity
      else if leb 2 (length signals) || leb (T.duration_ms * 2) query.duration_ms
      then high
      else medium

  -- `max(a, b)` of Python keeps `a` unless `b` is greater.
  unfoldable pub greater : Float → Float → Float
  greater a b = if F.lt a b then b else a

  -- `0.95 - 0.08 * len(gaps)`
  unfoldable pub discounted : ℕ → Float
  discounted gaps = F.sub (F.decimal 95 2) (F.mul (F.decimal 8 2) (F.of_int gaps))

  unfoldable pub confidence_of : List DetectionSignal → List String → Float
  unfolding greater discounted
  confidence_of signals gaps =
      if is_empty signals
      then F.decimal 0 1
      else greater (F.decimal 55 2) (discounted (length gaps))

  -- The construction of the result from all that the blocks have appended.
  unfoldable pub conclude :
      SlowQueryThresholds → Uuid → QueryRun → List EvidenceRef → Findings → DetectionResult
  unfolding severity_of confidence_of unique_evidence_ids from_keys
  conclude T id query evidence found = record {
    detection_id = id;
    query_run_id = query.query_run_id;
    detector_version = version;
    anomaly = not (is_empty found.signals);
    signals = found.signals;
    evidence_ids = unique_evidence_ids evidence;
    severity = severity_of T query found.signals;
    confidence = confidence_of found.signals found.gaps;
    evidence_gaps = from_keys found.gaps;
  }

  -- `id` is what `uuid4` gives for `detection_id`.
  unfoldable pub detect :
      SlowQueryThresholds
      → Uuid
      → QueryRun
      → (history : List QueryRun) → (evidence : List EvidenceRef)
      → (progress_snapshots : List QueryRun) → Result DetectionResult
  unfolding conclude
  detect T id query history evidence progress_snapshots = do
    found ← findings F T query history progress_snapshots
    validate_detection F (conclude T id query evidence found)
