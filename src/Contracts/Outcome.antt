-- ===== src/Contracts/Outcome.antt =====
-- `DetectionSignal`, `DetectionResult`, `RootCause`, `Diagnosis` and `Recommendation` of
-- src/yamazaki/contracts.py.
use yamazaki_incubator.Base.{Bool, Option, List, String, leb, all}
use yamazaki_incubator.Base.Result.{Result, ok, ◌>>◌, require}
use yamazaki_incubator.Base.Text.{
  codes, text_length, has_length, starts_then, is_lower, is_code_char,
}
use yamazaki_incubator.Numbers.{Float, Floats}
use yamazaki_incubator.Contracts.Kinds.{Uuid, InferenceKind, DiagnosisSource}
use yamazaki_incubator.Contracts.Query.{at_most, in_unit}
use yamazaki_incubator.Contracts.Evidence.{is_content_hash}

pub record DetectionSignal : Type 0 where
  pub code : String
  pub observed_value : Float
  pub threshold : Float
  pub inference_kind : InferenceKind

-- `^[a-z][a-z0-9_]{0,63}$`
unfoldable pub is_code : String → Bool
is_code s = starts_then is_lower is_code_char 63 (codes s)

pub data Severity : Type 0 where
  no_severity low medium high : Severity

pub record DetectionResult : Type 0 where
  pub detection_id : Uuid
  pub query_run_id : Uuid
  pub detector_version : String
  pub anomaly : Bool
  pub signals : List DetectionSignal
  pub evidence_ids : List Uuid
  pub severity : Severity
  pub confidence : Float
  pub evidence_gaps : List String

pub record RootCause : Type 0 where
  pub code : String
  pub explanation : String
  pub inference_kind : InferenceKind
  pub evidence_ids : List Uuid
  pub confidence : Float

pub record Diagnosis : Type 0 where
  pub diagnosis_id : Uuid
  pub query_run_id : Uuid
  pub source : DiagnosisSource
  pub causes : List RootCause
  pub uncertainty : List String
  pub evidence_bundle_digest : String
  pub model_id : Option String
  pub prompt_version : Option String

-- `actionable: Literal[False]` has one value, which the field keeps.
pub record Recommendation : Type 0 where
  pub recommendation_id : Uuid
  pub diagnosis_id : Uuid
  pub actionable : Bool
  pub content : String
  pub prerequisites : List String
  pub risk : String
  pub expected_benefit : String
  pub verification : String

module _ (F : Floats) where
  -- Each signal is a model too, whose `code` has a pattern.
  unfoldable pub validate_detection : DetectionResult → Result DetectionResult
  unfolding in_unit is_code
  validate_detection d = do
    require (all (λ s. is_code s.code) d.signals) "ValidationError"
    require (leb 1 (text_length d.detector_version)) "ValidationError"
    require (in_unit F d.confidence) "ValidationError"
    ok d

  unfoldable pub validate_cause : RootCause → Result RootCause
  unfolding in_unit is_code
  validate_cause c = do
    require (is_code c.code) "ValidationError"
    require (has_length 1 2000 c.explanation) "ValidationError"
    require (in_unit F c.confidence) "ValidationError"
    ok c

unfoldable pub validate_diagnosis : Diagnosis → Result Diagnosis
unfolding is_content_hash
validate_diagnosis d = do
  require (is_content_hash d.evidence_bundle_digest) "ValidationError"
  require (at_most 256 d.model_id) "ValidationError"
  require (at_most 128 d.prompt_version) "ValidationError"
  ok d

unfoldable pub validate_recommendation : Recommendation → Result Recommendation
validate_recommendation r = do
  require (has_length 1 4000 r.content) "ValidationError"
  require (has_length 1 1000 r.risk) "ValidationError"
  require (has_length 1 1000 r.expected_benefit) "ValidationError"
  require (has_length 1 2000 r.verification) "ValidationError"
  ok r
