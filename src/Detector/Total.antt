-- ===== src/Detector/Total.antt =====
-- That `SlowQueryDetector.detect` of src/yamazaki/slow_query.py returns a result, with no index or
-- field out of range and no number too large for a double, and the gaps that it lists.
use mathlib.Core.List.{Sublist, Sublistᴰ}
use mathlib.Core.Logic.{∥∥₁_elim}
use yamazaki_incubator.Base.{
  ℕ, ◌≤◌, ◌≡◌, refl, ap, ◌∙◌, Bool, true, ◌&&◌, List, [], ◌∷◌, String, arith, leb, length, all,
  string_eq,
}
use yamazaki_incubator.Base.Result.{ok}
use yamazaki_incubator.Base.Unique.{all_different, all_different-from_keys, from_keys-all_different}
use yamazaki_incubator.Base.Text.{text_length}
use yamazaki_incubator.Numbers.{Float, Floats}
use yamazaki_incubator.Contracts.{
  Uuid, QueryRun, EvidenceRef, DetectionResult, DetectionSignal, is_code, in_unit,
  validate_detection,
}
use yamazaki_incubator.Detector.{detect, conclude, greater, discounted, confidence_of}
use yamazaki_incubator.Detector.Conversions.{Converts, Fits}
use yamazaki_incubator.Detector.Returns.{findings-Returns}
use yamazaki_incubator.Detector.Blocks.{codes_of}
use yamazaki_incubator.Detector.Signals.{signal_codes, findings-Within}
use yamazaki_incubator.Detector.Rules.{SlowQueryThresholds, Findings, validate_thresholds, findings}
use yamazaki_incubator.Detector.Gaps.{findings-GapsFit}

module _ (F : Floats) where
  -- Facts about six doubles. The first two say that 0.0 and 0.55 lie between 0 and 1, the third
  -- that 0.95 less up to four times 0.08 is at most 1, and the last that what exceeds 0.55 is not
  -- negative.
  pub record ConfidenceLaws : Type 0 where
    pub zero_fits : in_unit F (F.decimal 0 1) ≡ true
    pub floor_fits : in_unit F (F.decimal 55 2) ≡ true
    pub discounted_le_one : (n : ℕ) → n ≤ 4 → F.le (discounted F n) (F.of_int 1) ≡ true
    pub above_floor : (x : Float) → F.lt (F.decimal 55 2) x ≡ true → F.le (F.of_int 0) x ≡ true

  confidence_of-fits :
      ConfidenceLaws
      → (signals : List DetectionSignal) (gaps : List String) → length gaps ≤ 4
      → in_unit F (confidence_of F signals gaps) ≡ true
  unfolding confidence_of greater in_unit
  confidence_of-fits laws [] gaps h = laws.zero_fits
  confidence_of-fits laws (s ∷ signals) gaps h = ground (
    arith,
    laws.floor_fits,
    laws.discounted_le_one (length gaps) h,
    laws.above_floor (discounted F (length gaps)),
  )

Bool-set : IsSet Bool
Bool-set = hlevel

all-Sublistᴰ :
    (test : String → Bool) {xs ys : List String}
    → Sublistᴰ xs ys
    → all test ys ≡ true
    → all test xs ≡ true
all-Sublistᴰ test Sublistᴰ.slnil h = refl
all-Sublistᴰ test (Sublistᴰ.cons {a = a} s) h = all-Sublistᴰ test s (ground arith)
all-Sublistᴰ test (Sublistᴰ.cons-cons {a = a} {b = b} e s) h =
    rw e (ground (arith, all-Sublistᴰ test s))

all-Sublist :
    (test : String → Bool) (xs ys : List String)
    → Sublist xs ys
    → all test ys ≡ true
    → all test xs ≡ true
all-Sublist test xs ys s h = ∥∥₁_elim s (Bool-set (all test xs) true) (λ d. all-Sublistᴰ test d h)

all-codes_of :
    (test : String → Bool) (signals : List DetectionSignal)
    → all (λ s. test s.code) signals ≡ all test (codes_of signals)
all-codes_of test [] = refl
all-codes_of test (s ∷ signals) = ap (λ b. test s.code && b) (all-codes_of test signals)

-- A test that the eight codes pass is passed by every signal that the blocks append.
pub findings-all :
    (F : Floats) (T : SlowQueryThresholds) (query : QueryRun) (history snapshots : List QueryRun)
    (found : Findings) (test : String → Bool)
    → findings F T query history snapshots ≡ ok found
    → all test signal_codes ≡ true
    → all (λ s. test s.code) found.signals ≡ true
findings-all F T query history snapshots found test h passed =
    all-codes_of test found.signals
    ∙ all-Sublist test (codes_of found.signals) signal_codes
        (findings-Within F T query history snapshots found h) passed

signal_codes-is_code : all is_code signal_codes ≡ true
unfolding is_code
signal_codes-is_code = refl

validate_detection-ok :
    (F : Floats) (d : DetectionResult)
    → all (λ s. is_code s.code) d.signals ≡ true
    → leb 1 (text_length d.detector_version) ≡ true
    → in_unit F d.confidence ≡ true
    → validate_detection F d ≡ ok d
unfolding validate_detection
validate_detection-ok F d codes version fits = rw (codes, version, fits)

module _ (F : Floats) (laws : ConfidenceLaws F) (bound : ℕ) (converts : Converts F bound)
    (T : SlowQueryThresholds) (valid : validate_thresholds F T ≡ ok T) (id : Uuid)
    (query : QueryRun) (history : List QueryRun) (fits : Fits F bound T query history)
    (evidence : List EvidenceRef) (progress_snapshots : List QueryRun) where
  enough_samples : 1 ≤ T.baseline_samples
  unfolding validate_thresholds
  enough_samples = ground arith

  -- With thresholds that passed their own checks, floats with the laws of the confidence and
  -- conversions that return below a bound, `detect` returns a result for every query, history,
  -- evidence and snapshots whose metrics, durations and limits are less than half of the bound.
  -- Its gaps are all different, and at most four.
  pub detect-total :
      (d : DetectionResult) × (detect F T id query history evidence progress_snapshots ≡ ok d)
      × (all_different d.evidence_gaps ≡ true)
      × (length d.evidence_gaps ≤ 4)
  unfolding detect conclude
  detect-total =
      let (found, e) =
        findings-Returns F bound converts T query history fits progress_snapshots enough_samples in
      let (different, few) = findings-GapsFit F T query history progress_snapshots found e in
      let codes =
        findings-all F T query history progress_snapshots found is_code e signal_codes-is_code in
      let confident = confidence_of-fits F laws found.signals found.gaps few in
      (
        conclude F T id query evidence found,
        rw e (validate_detection-ok F (conclude F T id query evidence found) codes refl confident),
        all_different-from_keys found.gaps,
        rw (from_keys-all_different found.gaps different) few,
      )
