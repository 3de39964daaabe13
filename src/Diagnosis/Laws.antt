-- ===== src/Diagnosis/Laws.antt =====
-- `RuleDiagnoser.diagnose` of src/yamazaki/diagnosis.py: it returns on all that the detector
-- reports, and what it reports rests on the evidence.
use yamazaki_incubator.Base.{
  ◌≤◌, ◌≡◌, ◌⊎◌, inl, inr, refl, true, false, ◌&&◌, ◌||◌, none, some, List, [], ◌∷◌, String, arith,
  length, all, All, is_empty, contains, ◌==◌, Bool-cases, contains-append, contains-keep, string_eq,
  nat_eq,
}
use yamazaki_incubator.Base.Result.{ok}
use yamazaki_incubator.Base.Unique.{all_different, contains-from_keys}
use yamazaki_incubator.Numbers.{Floats}
use yamazaki_incubator.Json.{Platform, DigestLaws}
use yamazaki_incubator.Contracts.{
  Uuid, QueryRun, EvidenceRef, EvidenceBundle, ids_of, DetectionResult, RootCause, Diagnosis,
  Recommendation, deterministic, in_unit, validate_diagnosis, validate_recommendation,
}
use yamazaki_incubator.Detector.{detect, conclude}
use yamazaki_incubator.Detector.Decision.{detect-ok, detect-in_unit}
use yamazaki_incubator.Detector.Total.{findings-all}
use yamazaki_incubator.Detector.Rules.{SlowQueryThresholds}
use yamazaki_incubator.Diagnosis.{referenced_ids, uncertainty_of, diagnose, recommendation_for}
use yamazaki_incubator.Diagnosis.Causes.{
  has_cause, signal_codes-has_cause, causes_codes, IsCovered, causes_of-Returns,
}

-- What a diagnosis and its recommendation owe to the detection and the bundle.
pub record IsSound (detection : DetectionResult) (evidence : EvidenceBundle) (diagnosis : Diagnosis)
    (recommendation : Recommendation) : Type 0 where
  pub different : all_different (causes_codes diagnosis.causes) ≡ true
  pub few : length diagnosis.causes ≤ length detection.signals
  pub covered : All (IsCovered [] diagnosis.causes) detection.signals
  pub cited : All (λ c. c.evidence_ids ≡ referenced_ids detection evidence) diagnosis.causes
  pub uncertain :
      diagnosis.uncertainty ≡ uncertainty_of detection (referenced_ids detection evidence)
  pub linked : recommendation.diagnosis_id ≡ diagnosis.diagnosis_id
  pub review_only : recommendation.actionable ≡ false

validate_recommendation-fixed :
    (id diagnosis_id : Uuid)
    → validate_recommendation (recommendation_for id diagnosis_id)
      ≡ ok (recommendation_for id diagnosis_id)
unfolding validate_recommendation
validate_recommendation-fixed id diagnosis_id = refl

module _ (F : Floats) (P : Platform) (digests : DigestLaws P) where
  abbrev diagnosis_for :
      Uuid → QueryRun → DetectionResult → EvidenceBundle → List RootCause → Diagnosis
  diagnosis_for id query d evidence causes = record {
    diagnosis_id = id;
    query_run_id = query.query_run_id;
    source = deterministic;
    causes = causes;
    uncertainty = uncertainty_of d (referenced_ids d evidence);
    evidence_bundle_digest = P.bundle_digest evidence;
    model_id = none;
    prompt_version = none;
  }

  validate_diagnosis-ok :
      (id : Uuid) (query : QueryRun) (d : DetectionResult) (evidence : EvidenceBundle)
      (causes : List RootCause)
      → validate_diagnosis (diagnosis_for id query d evidence causes)
        ≡ ok (diagnosis_for id query d evidence causes)
  unfolding validate_diagnosis
  validate_diagnosis-ok id query d evidence causes = rw (digests.bundle_hex evidence)

  detect-has_cause :
      (T : SlowQueryThresholds) (id : Uuid) (query : QueryRun) (history : List QueryRun)
      (items : List EvidenceRef) (snapshots : List QueryRun) (d : DetectionResult)
      → detect F T id query history items snapshots ≡ ok d
      → all (λ s. has_cause s.code) d.signals ≡ true
  unfolding conclude
  detect-has_cause T id query history items snapshots d h =
      let (found, e, same) = detect-ok F T id query history items snapshots d h in
      rw same (findings-all F T query history snapshots found has_cause e signal_codes-has_cause)

  diagnose-Returns :
      (diagnosis_id recommendation_id : Uuid) (query : QueryRun) (d : DetectionResult)
      (evidence : EvidenceBundle)
      → d.anomaly ≡ true
      → in_unit F d.confidence ≡ true
      → all (λ s. has_cause s.code) d.signals ≡ true
      → (g : Diagnosis) × (r : Recommendation) × (diagnose F P diagnosis_id recommendation_id query
            d evidence
          ≡ ok (some (g, r)))
        × IsSound d evidence g r
  unfolding diagnose
  diagnose-Returns diagnosis_id recommendation_id query d evidence anomaly fits known =
      let refs = referenced_ids d evidence in
      let (causes, e, fit) = causes_of-Returns F refs d.confidence d.signals [] fits known in
      (
        diagnosis_for diagnosis_id query d evidence causes,
        recommendation_for recommendation_id diagnosis_id,
        rw (
          anomaly,
          e,
          validate_diagnosis-ok diagnosis_id query d evidence causes,
          validate_recommendation-fixed recommendation_id diagnosis_id,
        ),
        record {
          different = fit.different;
          few = fit.few;
          covered = fit.covered;
          cited = fit.cited;
          uncertain = refl;
          linked = refl;
          review_only = refl;
        },
      )

  -- For every result that `detect` returns, with digests of 64 hexadecimal digits, `diagnose`
  -- returns: nothing exactly if the result is no anomaly, and else a diagnosis and a
  -- recommendation that are sound as `IsSound` says: different causes, no more than signals,
  -- every signal covered by one, each citing the referenced evidence, and a recommendation of
  -- the diagnosis that is not actionable.
  pub diagnose-detect :
      (T : SlowQueryThresholds) (id diagnosis_id recommendation_id : Uuid) (query : QueryRun)
      (history : List QueryRun) (items : List EvidenceRef) (snapshots : List QueryRun)
      (d : DetectionResult) (evidence : EvidenceBundle)
      → detect F T id query history items snapshots ≡ ok d
      → ((d.anomaly ≡ false)
          × (diagnose F P diagnosis_id recommendation_id query d evidence ≡ ok none))
        ⊎ ((d.anomaly ≡ true)
            × ((g : Diagnosis) × (r : Recommendation) × (diagnose F P diagnosis_id recommendation_id
                    query d evidence
                  ≡ ok (some (g, r)))
                × IsSound d evidence g r))
  unfolding diagnose
  diagnose-detect T id diagnosis_id recommendation_id query history items snapshots d evidence h =
      elim (Bool-cases d.anomaly) [
        | inr quiet ↦ inl (quiet, rw quiet)
        | inl loud ↦ inr (
          loud,
          diagnose-Returns diagnosis_id recommendation_id query d evidence loud
              (detect-in_unit F T id query history items snapshots d h)
              (detect-has_cause T id query history items snapshots d h),
        )
      ]

-- A diagnosis references an identifier exactly if the detection names it and the bundle has an
-- item with it.
pub contains-referenced_ids :
    (d : DetectionResult) (evidence : EvidenceBundle) (i : Uuid)
    → contains (referenced_ids d evidence) i
      ≡ (contains d.evidence_ids i && contains (ids_of evidence.items) i)
unfolding referenced_ids
contains-referenced_ids d evidence i =
    contains-keep (contains (ids_of evidence.items)) d.evidence_ids i

-- A text is an uncertainty of a diagnosis exactly if it is a gap of the detection, or no
-- evidence is referenced and it is the text that says so.
pub contains-uncertainty_of :
    (d : DetectionResult) (referenced : List Uuid) (k : String)
    → contains (uncertainty_of d referenced) k ≡ (
        contains d.evidence_gaps k
        || (is_empty referenced && "no_persisted_evidence_reference" == k))
unfolding uncertainty_of
contains-uncertainty_of d referenced k =
    simp (contains-from_keys)
      (ground (arith, contains-append d.evidence_gaps ("no_persisted_evidence_reference" ∷ []) k))
