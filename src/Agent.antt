-- ===== src/Agent.antt =====
-- src/yamazaki/agent.py: the diagnoser that asks a model. The call of the model is a parameter: it
-- returns an output of the declared type, or one of another type (`none`), or raises.
pub mod Laws
use yamazaki_incubator.Base.{
  ℕ, false, Option, none, some, List, [], ◌∷◌, String, is_empty, ◌==◌, string_eq, if◌then◌else◌,
}
use yamazaki_incubator.Base.Result.{Result, ok, raised, ◌>>=◌}
use yamazaki_incubator.Base.Exec.{Exec}
use yamazaki_incubator.Base.Unique.{from_keys}
use yamazaki_incubator.Numbers.{Floats, Float}
use yamazaki_incubator.Json.{Platform}
use yamazaki_incubator.Contracts.{
  Uuid, EngineKind, QueryState, QueryRun, EvidenceRef, EvidenceBundle, DetectionResult,
  InferenceKind, RootCause, validate_cause, Diagnosis, validate_diagnosis, agent_assisted,
  Recommendation, validate_recommendation,
}

-- `_CauseOutput`
pub record CauseOutput : Type 0 where
  pub code : String
  pub explanation : String
  pub evidence_ids : List String
  pub confidence : Float

-- `_DiagnosisOutput`
pub record DiagnosisOutput : Type 0 where
  pub causes : List CauseOutput
  pub uncertainty : List String
  pub recommendation : String
  pub prerequisites : List String
  pub risk : String
  pub expected_benefit : String
  pub verification : String

-- The dict that `_prompt_query` returns.
pub record PromptQuery : Type 0 where
  pub engine : EngineKind
  pub state : QueryState
  pub native_fingerprint : String
  pub duration_ms : ℕ
  pub queue_time_ms : Option ℕ
  pub cpu_time_ms : Option ℕ
  pub peak_memory_bytes : Option ℕ
  pub scanned_rows : Option ℕ
  pub returned_rows : Option ℕ
  pub shuffle_bytes : Option ℕ
  pub spill_bytes : Option ℕ
  pub progress : Option Float
  pub statement_type : String
  pub redacted_structure : Option String

abbrev pub prompt_query : QueryRun → PromptQuery
prompt_query query = record {
  engine = query.engine;
  state = query.state;
  native_fingerprint = query.native_fingerprint;
  duration_ms = query.duration_ms;
  queue_time_ms = query.queue_time_ms;
  cpu_time_ms = query.cpu_time_ms;
  peak_memory_bytes = query.peak_memory_bytes;
  scanned_rows = query.scanned_rows;
  returned_rows = query.returned_rows;
  shuffle_bytes = query.shuffle_bytes;
  spill_bytes = query.spill_bytes;
  progress = query.progress;
  statement_type = query.statement_type;
  redacted_structure = query.redacted_structure;
}

-- An identifier that the bundle has, before the others.
abbrev pub with_next : Option Uuid → List Uuid → List Uuid
with_next (some i) rest = i ∷ rest
with_next none rest = rest

module _ (F : Floats) (P : Platform) where
  -- `allowed.get(identifier)`: of two items with one text the later counts.
  unfoldable pub allowed : List EvidenceRef → String → Option Uuid
  allowed [] identifier = none
  allowed (item ∷ items) identifier = elim (allowed items identifier) [
    | some i ↦ some i
    | none ↦ if P.uuid_text item.evidence_id == identifier then some item.evidence_id else none
  ]

  -- The identifiers of the bundle among those that the model cites.
  unfoldable pub cited : List EvidenceRef → List String → List Uuid
  unfolding allowed
  cited items [] = []
  cited items (identifier ∷ rest) = with_next (allowed items identifier) (cited items rest)

  -- The loop over the causes: one without evidence is dropped.
  unfoldable pub assisted_causes : List EvidenceRef → List CauseOutput → Result (List RootCause)
  unfolding cited from_keys
  assisted_causes items [] = ok []
  assisted_causes items (cause ∷ causes) =
      let rest = assisted_causes items causes in
      let evidence_ids = cited items (from_keys cause.evidence_ids) in
      if is_empty evidence_ids then rest else do
        made ← validate_cause F (record {
          code = cause.code;
          explanation = cause.explanation;
          inference_kind = InferenceKind.model;
          evidence_ids = evidence_ids;
          confidence = cause.confidence;
        })
        others ← rest
        ok (made ∷ others)

  module _ (model_id prompt_version : String) (diagnosis_id recommendation_id : Uuid) where
    -- `diagnose` after its loop; the identifiers are what `uuid4` gives for the two records.
    unfoldable pub conclude :
        QueryRun
        → EvidenceBundle
        → DiagnosisOutput
        → List RootCause
        → Result (Option (Diagnosis × Recommendation))
    conclude query evidence output [] = ok none
    conclude query evidence output (cause ∷ causes) = do
      diagnosis ← validate_diagnosis (record {
        diagnosis_id = diagnosis_id;
        query_run_id = query.query_run_id;
        source = agent_assisted;
        causes = cause ∷ causes;
        uncertainty = output.uncertainty;
        evidence_bundle_digest = P.bundle_digest evidence;
        model_id = some model_id;
        prompt_version = some prompt_version;
      })
      recommendation ← validate_recommendation (record {
        recommendation_id = recommendation_id;
        diagnosis_id = diagnosis.diagnosis_id;
        actionable = false;
        content = output.recommendation;
        prerequisites = output.prerequisites;
        risk = output.risk;
        expected_benefit = output.expected_benefit;
        verification = output.verification;
      })
      ok (some (diagnosis, recommendation))

    unfoldable pub read_output :
        QueryRun
        → EvidenceBundle
        → Option DiagnosisOutput
        → Result (Option (Diagnosis × Recommendation))
    unfolding assisted_causes conclude
    read_output query evidence none = raised "TypeError"
    read_output query evidence (some output) = do
      causes ← assisted_causes evidence.items output.causes
      conclude query evidence output causes

    -- `run_sync` is the call of the model on the prompt's three parts.
    module _ {W : Type 0}
        (run_sync : PromptQuery
          → DetectionResult
          → EvidenceBundle
          → Exec W (Option DiagnosisOutput)) where
      unfoldable pub diagnose :
          QueryRun → DetectionResult → EvidenceBundle → Exec W (Option (Diagnosis × Recommendation))
      unfolding read_output
      diagnose query detection evidence w =
          let (result, after) = run_sync (prompt_query query) detection evidence w in
          (result >>= read_output query evidence, after)
