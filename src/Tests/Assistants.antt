-- ===== src/Tests/Assistants.antt =====
-- The theorem of the model's diagnoser at a concrete input.
use yamazaki_incubator.Base.{◌≡◌, refl, some, [], ◌∷◌, true, false, ℕ, ◌+◌, Option}
use yamazaki_incubator.Base.Result.{ok}
use yamazaki_incubator.Base.Exec.{Exec}
use yamazaki_incubator.Base.Text.{show_ℕ}
use yamazaki_incubator.Contracts.{
  InferenceKind, agent_assisted, Diagnosis, Recommendation, DetectionResult, EvidenceBundle,
  no_severity, validate_cause, validate_diagnosis, validate_recommendation,
}
use yamazaki_incubator.Agent
use yamazaki_incubator.Agent.{PromptQuery, DiagnosisOutput}
use yamazaki_incubator.Agent.Laws.{IsAssisted, diagnose-IsAssisted}
use yamazaki_incubator.Tests.Parameters.{hundredths, platform}
use yamazaki_incubator.Tests.Samples.{slow_query, bundle}

-- The first cause cites what the bundle does not have, and the second what it has.
abbrev output : DiagnosisOutput
output = record {
  causes =
      record { code = "guess"; explanation = "x"; evidence_ids = "99" ∷ []; confidence = 90 }
      ∷ record {
        code = "queue";
        explanation = "y";
        evidence_ids = "30" ∷ "99" ∷ [];
        confidence = 80;
      }
      ∷ [];
  uncertainty = [];
  recommendation = "Look at it.";
  prerequisites = [];
  risk = "None.";
  expected_benefit = "Some.";
  verification = "Again.";
}

abbrev detection : DetectionResult
detection = record {
  detection_id = 3;
  query_run_id = 7;
  detector_version = "v";
  anomaly = true;
  signals = [];
  evidence_ids = [];
  severity = no_severity;
  confidence = 0;
  evidence_gaps = [];
}

abbrev diagnosis : Diagnosis
diagnosis = record {
  diagnosis_id = 11;
  query_run_id = 7;
  source = agent_assisted;
  causes =
      record {
        code = "queue";
        explanation = "y";
        inference_kind = InferenceKind.model;
        evidence_ids = 30 ∷ [];
        confidence = 80;
      }
      ∷ [];
  uncertainty = [];
  evidence_bundle_digest = "0123456789abcdef0123456789abcdef0123456789abcdef0123456789abcdef";
  model_id = some "m";
  prompt_version = some "v";
}

abbrev recommendation : Recommendation
recommendation = record {
  recommendation_id = 12;
  diagnosis_id = 11;
  actionable = false;
  content = "Look at it.";
  prerequisites = [];
  risk = "None.";
  expected_benefit = "Some.";
  verification = "Again.";
}

-- The model's answer; the world counts its calls.
abbrev model : PromptQuery → DetectionResult → EvidenceBundle → Exec ℕ (Option DiagnosisOutput)
model q d e w = (ok (some output), w + 1)

assisted :
    (Agent.diagnose hundredths platform "m" "v" 11 12 model slow_query detection bundle 0).0
    ≡ ok (some (diagnosis, recommendation))
unfolding Agent.diagnose validate_cause validate_diagnosis validate_recommendation show_ℕ
assisted = refl

diagnose-IsAssisted_example :
    IsAssisted hundredths platform "m" "v" 11 12 slow_query bundle diagnosis recommendation
diagnose-IsAssisted_example =
    diagnose-IsAssisted hundredths platform "m" "v" 11 12 model slow_query detection bundle
      diagnosis recommendation 0 assisted
