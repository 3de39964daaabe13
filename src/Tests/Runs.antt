-- ===== src/Tests/Runs.antt =====
-- The theorems of the detector and the diagnosis at concrete inputs.
use mathlib.Core.List.{Permᴰ}
use mathlib.Core.Logic.{◌↔◌}
use yamazaki_incubator.Base.{
  ◌≤◌, ◌≡◌, ◌≢◌, ◌⊎◌, refl, true, false, none, some, List, [], ◌∷◌, length, string_eq, nat_eq,
  arith,
}
use mathlib.Core.List.{Sublist}
use yamazaki_incubator.Base.Result.{Result, ok, ◌>>=◌}
use yamazaki_incubator.Base.Unique.{all_different}
use yamazaki_incubator.Contracts.{
  DetectionResult, rule, high, no_severity, QueryRun, validate_detection, Diagnosis, Recommendation,
  unique_evidence_ids,
}
use yamazaki_incubator.Detector
use yamazaki_incubator.Detector.Rules
use yamazaki_incubator.Detector.Rules.{SlowQueryThresholds, default_thresholds, validate_thresholds}
use yamazaki_incubator.Detector.Total.{detect-total}
use yamazaki_incubator.Detector.History.{detect-perm}
use yamazaki_incubator.Detector.Signals.{detect-codes, signal_codes}
use yamazaki_incubator.Detector.Blocks.{codes_of}
use yamazaki_incubator.Detector.Conversions.{Fits}
use yamazaki_incubator.Detector.Decision.{detect-severity, detect-evidence}
use yamazaki_incubator.Diagnosis
use yamazaki_incubator.Diagnosis.Laws.{diagnose-detect, IsSound}
use yamazaki_incubator.Tests.Parameters.{
  hundredths, limit, hundredths-Converts, hundredths-ConfidenceLaws, platform, platform-DigestLaws,
}
use yamazaki_incubator.Tests.Samples.{slow_query, quick_query, foreign_query, summary, bundle}

abbrev thresholds : SlowQueryThresholds
thresholds = default_thresholds hundredths

thresholds-valid : validate_thresholds hundredths thresholds ≡ ok thresholds
unfolding validate_thresholds
thresholds-valid = refl

abbrev history : List QueryRun
history = quick_query ∷ foreign_query ∷ []

abbrev swapped : List QueryRun
swapped = foreign_query ∷ quick_query ∷ []

abbrev detected : Result DetectionResult
detected = Detector.detect hundredths thresholds 3 slow_query history (summary ∷ []) []

abbrev found : DetectionResult
found = record {
  detection_id = 3;
  query_run_id = 7;
  detector_version = "yamazaki.slow-query/v1";
  anomaly = true;
  signals =
      record {
        code = "duration_threshold";
        observed_value = 9000000;
        threshold = 500000;
        inference_kind = rule;
      }
      ∷ record {
        code = "queue_time_threshold";
        observed_value = 2000000;
        threshold = 200000;
        inference_kind = rule;
      }
      ∷ [];
  evidence_ids = 30 ∷ [];
  severity = high;
  confidence = 79;
  evidence_gaps = "peak_memory_unavailable" ∷ "history_baseline_insufficient" ∷ [];
}

detected-found : detected ≡ ok found
unfolding Detector.detect Rules.findings validate_detection
detected-found = refl

slow_query-Fits : Fits hundredths limit thresholds slow_query history
slow_query-Fits = record {
  duration = omega arith;
  queue = ground arith;
  memory = ground arith;
  scanned = ground arith;
  duration_limit = omega arith;
  queue_limit = omega arith;
  memory_limit = omega arith;
  scanned_limit = omega arith;
  past = ground arith;
}

detect-total_example :
    (d : DetectionResult) × (detected ≡ ok d)
    × (all_different d.evidence_gaps ≡ true)
    × (length d.evidence_gaps ≤ 4)
detect-total_example =
    detect-total hundredths hundredths-ConfidenceLaws limit hundredths-Converts thresholds
      thresholds-valid 3 slow_query history slow_query-Fits (summary ∷ []) []

diagnose-detect_example :
    ((true ≡ false)
      × (Diagnosis.diagnose hundredths platform 11 12 slow_query found bundle ≡ ok none))
    ⊎ ((true ≡ true)
        × ((g : Diagnosis) × (r : Recommendation) × (Diagnosis.diagnose hundredths platform 11 12
                slow_query found bundle
              ≡ ok (some (g, r)))
            × IsSound found bundle g r))
diagnose-detect_example =
    diagnose-detect hundredths platform platform-DigestLaws thresholds 3 11 12 slow_query history
      (summary ∷ []) [] found bundle detected-found

detect-perm_example :
    detected ≡ Detector.detect hundredths thresholds 3 slow_query swapped (summary ∷ []) []
detect-perm_example =
    detect-perm hundredths thresholds 3 slow_query (summary ∷ []) [] (∣ Permᴰ.swap refl refl ∣₁)

detect-codes_example : Sublist (codes_of found.signals) signal_codes
detect-codes_example =
    detect-codes hundredths thresholds slow_query 3 history (summary ∷ []) [] found detected-found

detect-severity_example :
    ((true ≡ true) ↔ (found.signals ≢ []))
    × ((high ≡ no_severity) ↔ (found.signals ≡ []))
    × ((high ≡ high) ↔ ((2 ≤ 2) ⊎ (10000 ≤ 90000)))
detect-severity_example =
    detect-severity hundredths thresholds 3 slow_query history (summary ∷ []) [] found
      detected-found

detect-evidence_example :
    Detector.detect hundredths thresholds 3 slow_query history [] []
    ≡ (do d ← detected; ok (record d { evidence_ids = unique_evidence_ids [] }))
detect-evidence_example =
    detect-evidence hundredths thresholds 3 slow_query history (summary ∷ []) [] []
