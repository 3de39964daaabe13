-- ===== src/Diagnosis.antt =====
-- src/yamazaki/diagnosis.py: the deterministic diagnosis.
pub mod Causes
pub mod Laws
use yamazaki_incubator.Base.{
  Bool, true, false, Option, none, some, List, [], ◌∷◌, ◌++◌, String, is_empty, keep, contains,
  ◌==◌, if◌then◌else◌, string_eq, nat_eq,
}
use yamazaki_incubator.Base.Result.{Result, ok, raised, ◌>>=◌}
use yamazaki_incubator.Base.Unique.{from_keys}
use yamazaki_incubator.Numbers.{Float, Floats}
use yamazaki_incubator.Json.{Platform}
use yamazaki_incubator.Contracts.{
  Uuid, deterministic, QueryRun, EvidenceBundle, ids_of, DetectionSignal, DetectionResult,
  RootCause, Diagnosis, Recommendation, validate_cause, validate_diagnosis, validate_recommendation,
}

pub record Cause : Type 0 where
  pub code : String
  pub explanation : String

abbrev entry : String → String → String → String × Cause
entry signal code explanation = (signal, record { code = code; explanation = explanation })

-- `_CAUSES`
abbrev pub causes_table : List (String × Cause)
causes_table =
    entry "queue_time_threshold" "workload_queue_contention"
      "A material share of elapsed time was spent waiting in a workload queue."
    ∷ entry "scan_amplification" "scan_amplification"
        "The query scanned substantially more rows than it returned."
    ∷ entry "scanned_rows_threshold" "large_scan"
        "The query crossed the configured scanned-row threshold."
    ∷ entry "memory_threshold" "memory_pressure"
        "Observed peak memory crossed the configured threshold."
    ∷ entry "progress_stagnation" "execution_stagnation"
        "Repeated running snapshots reported no progress."
    ∷ entry "p95_regression" "fingerprint_regression"
        "Duration regressed relative to the same cluster and native fingerprint."
    ∷ entry "mad_regression" "fingerprint_regression"
        "Duration is an outlier relative to the robust historical baseline."
    ∷ entry "duration_threshold" "duration_threshold"
        "The query crossed the configured absolute duration threshold."
    ∷ []

-- `d[k]`
unfoldable pub lookup : List (String × Cause) → String → Result Cause
lookup [] k = raised "KeyError"
lookup ((j, v) ∷ d) k = if j == k then ok v else lookup d k

-- `_CAUSES[code]`
unfoldable pub cause_of : String → Result Cause
unfolding lookup
cause_of = lookup causes_table

-- The fixed texts of the recommendation.
abbrev pub recommendation_for : Uuid → Uuid → Recommendation
recommendation_for id diagnosis_id = record {
  recommendation_id = id;
  diagnosis_id = diagnosis_id;
  actionable = false;
  content =
      "Review the referenced engine evidence and validate the highest-ranked cause with a non-executing EXPLAIN or an isolated replay before changing SQL, schema, settings, or workload policy.";
  prerequisites = "Confirm the query owner and workload intent." ∷ [];
  risk = "The evidence is observational and may be incomplete.";
  expected_benefit = "A validated cause can guide a narrower optimization experiment.";
  verification =
      "Compare duration and resource evidence for the same native fingerprint after an independently reviewed change.";
}

-- The identifiers of the detection that the bundle holds.
unfoldable pub referenced_ids : DetectionResult → EvidenceBundle → List Uuid
referenced_ids detection evidence = keep (contains (ids_of evidence.items)) detection.evidence_ids

unfoldable pub uncertainty_of : DetectionResult → List Uuid → List String
unfolding from_keys
uncertainty_of detection referenced = from_keys (
    if is_empty referenced
    then detection.evidence_gaps ++ "no_persisted_evidence_reference" ∷ []
    else detection.evidence_gaps)

module _ (F : Floats) where
  module _ (referenced : List Uuid) (confidence : Float) where
    -- The loop over the signals: `seen` holds the codes that already have a cause.
    unfoldable pub causes_of : List String → List DetectionSignal → Result (List RootCause)
    causes_of seen [] = ok []
    causes_of seen (signal ∷ signals) = do
      cause ← cause_of signal.code
      let known = contains seen cause.code
      let rest = causes_of (if known then seen else cause.code ∷ seen) signals
      if known then rest else do
        made ← validate_cause F (record {
          code = cause.code;
          explanation = cause.explanation;
          inference_kind = signal.inference_kind;
          evidence_ids = referenced;
          confidence = confidence;
        })
        others ← rest
        ok (made ∷ others)

  module _ (P : Platform) where
    -- `diagnosis_id` and `recommendation_id` are what `uuid4` gives for the two records.
    unfoldable pub diagnose :
        (diagnosis_id recommendation_id : Uuid)
        → QueryRun
        → DetectionResult
        → EvidenceBundle
        → Result (Option (Diagnosis × Recommendation))
    unfolding referenced_ids causes_of uncertainty_of
    diagnose diagnosis_id recommendation_id query detection evidence =
        if detection.anomaly
        then (do
          let referenced = referenced_ids detection evidence
          causes ← causes_of referenced detection.confidence [] detection.signals
          diagnosis ← validate_diagnosis (record {
            diagnosis_id = diagnosis_id;
            query_run_id = query.query_run_id;
            source = deterministic;
            causes = causes;
            uncertainty = uncertainty_of detection referenced;
            evidence_bundle_digest = P.bundle_digest evidence;
            model_id = none;
            prompt_version = none;
          })
          recommendation ←
              validate_recommendation (recommendation_for recommendation_id diagnosis.diagnosis_id)
          ok (some (diagnosis, recommendation)))
        else ok none
