-- ===== src/Contracts/Request.antt =====
-- `AgentBudget`, `InvestigationRequest` and `InvestigationResult` of src/yamazaki/contracts.py.
use yamazaki_incubator.Base.{ℕ, Bool, not, ◌&&◌, List, String, leb, is_empty, string_eq}
use yamazaki_incubator.Base.Result.{Result, ok, ◌>>◌, require}
use yamazaki_incubator.Base.Unique.{all_different}
use yamazaki_incubator.Contracts.Kinds.{Uuid, InvestigationState}
use yamazaki_incubator.Contracts.Time.{DateTime, is_aware, time_le}
use yamazaki_incubator.Contracts.Query.{QueryRun}
use yamazaki_incubator.Contracts.Outcome.{DetectionResult, Diagnosis, Recommendation}

pub record AgentBudget : Type 0 where
  pub max_evidence_items : ℕ
  pub max_model_calls : ℕ
  pub deadline_seconds : ℕ

abbrev pub default_budget : AgentBudget
default_budget = record { max_evidence_items = 12; max_model_calls = 1; deadline_seconds = 30 }

-- The bounds of the fields.
unfoldable pub is_valid_budget : AgentBudget → Bool
is_valid_budget b =
    leb 1 b.max_evidence_items
    && leb b.max_evidence_items 12
    && leb b.max_model_calls 1
    && leb 1 b.deadline_seconds
    && leb b.deadline_seconds 300

pub record InvestigationRequest : Type 0 where
  pub investigation_id : Uuid
  pub cluster_ids : List String
  pub window_start : DateTime
  pub window_end : DateTime
  pub budget : AgentBudget
  pub created_at : DateTime

-- The bounds of the budget, then `_validate_request`.
unfoldable pub validate_request : InvestigationRequest → Result InvestigationRequest
unfolding is_valid_budget all_different time_le
validate_request r = do
  require (is_valid_budget r.budget) "ValidationError"
  require (not (is_empty r.cluster_ids) && all_different r.cluster_ids) "ValidationError"
  require (is_aware r.window_start && is_aware r.window_end) "ValidationError"
  require (not (time_le r.window_end r.window_start)) "ValidationError"
  ok r

pub record InvestigationResult : Type 0 where
  pub investigation_id : Uuid
  pub state : InvestigationState
  pub query_runs : List QueryRun
  pub detections : List DetectionResult
  pub diagnoses : List Diagnosis
  pub recommendations : List Recommendation
  pub errors : List (String × String)
