-- ===== src/Coordinator/Balance.antt =====
-- What the lists of an investigation (src/yamazaki/service.py) have to do with each other.
use yamazaki_incubator.Base.{
  ℕ, ◌+◌, ◌≤◌, ◌<◌, ◌≡◌, sym, ap, ◌∙◌, subst, List, [], ◌∷◌, ◌++◌, length, length-append, arith,
  map,
}
use mathlib.Core.List.{map-append}
use yamazaki_incubator.Contracts.{
  Uuid, QueryRun, DetectionResult, Diagnosis, Recommendation, InvestigationRequest,
}
use yamazaki_incubator.Coordinator.Frame.{
  list_query, list_detection, list_diagnosis, count_model_call, Progress,
}
use yamazaki_incubator.Coordinator.{Config}
use yamazaki_incubator.Coordinator.Invariant.{Invariant}
use yamazaki_incubator.Coordinator.Outcome.{Saves, Returns, Invariant-Returns}

-- At least `a` listed queries wait for their detection and `b` diagnoses may be listed yet.
abbrev Slack : (a b max_calls : ℕ) → Progress → Type 0
Slack a b max_calls p =
    (length p.detections + a ≤ length p.query_runs)
    × (length p.diagnoses ≡ length p.recommendations)
    × (length p.diagnoses + b ≤ length p.detections + p.model_calls)
    × (p.model_calls ≤ max_calls)

-- `xs` is `ys` less some of its entries.
pub data Subsequence {A : Type 0} : List A → List A → Type 0 where
  nil : Subsequence [] []
  skip : {xs ys : List A} (y : A) → Subsequence xs ys → Subsequence xs (y ∷ ys)
  same : {xs ys : List A} (x : A) → Subsequence xs ys → Subsequence (x ∷ xs) (x ∷ ys)

module _ {A : Type 0} where
  skip_last : {xs ys : List A} (y : A) → Subsequence xs ys → Subsequence xs (ys ++ y ∷ [])
  skip_last y nil = skip y nil
  skip_last y (skip z s) = skip z (skip_last y s)
  skip_last y (same z s) = same z (skip_last y s)

  same_last :
      {xs ys : List A} (y : A) → Subsequence xs ys → Subsequence (xs ++ y ∷ []) (ys ++ y ∷ [])
  same_last y nil = same y nil
  same_last y (skip z s) = skip z (same_last y s)
  same_last y (same z s) = same z (same_last y s)

module _ {W : Type 0} (C : Config W) (request : InvestigationRequest) where
  abbrev Balanced : (a b : ℕ) → Progress → Type 0
  Balanced a b = Slack a b request.budget.max_model_calls

  slack-list_query : (q : QueryRun) (p : Progress) → Balanced 0 0 p → Balanced 1 0 (list_query q p)
  slack-list_query q p h = ground (arith, length-append p.query_runs (q ∷ []))

  slack-list_detection :
      (d : DetectionResult) (p : Progress) → Balanced 1 0 p → Balanced 0 1 (list_detection d p)
  slack-list_detection d p h = ground (arith, length-append p.detections (d ∷ []))

  slack-list_diagnosis :
      (g : Diagnosis) (r : Recommendation) (p : Progress)
      → Balanced 0 1 p
      → Balanced 0 0 (list_diagnosis g r p)
  slack-list_diagnosis g r p h =
      ground (arith, length-append p.diagnoses (g ∷ []), length-append p.recommendations (r ∷ []))

  slack-count_model_call :
      (p : Progress)
      → p.model_calls < request.budget.max_model_calls
      → Balanced 0 0 p
      → Balanced 0 1 (count_model_call p)
  slack-count_model_call p l h = ground arith

  slack_less : (a b : ℕ) (p : Progress) → Balanced a b p → Balanced 0 0 p
  slack_less a b p h = ground arith

  abbrev balanced : Invariant C request
  balanced = record {
    Idle = Balanced 0 0;
    Listed = λ _. Balanced 1 0;
    Due = Balanced 0 1;
    query_listed = slack-list_query;
    detection_listed = λ q d p _ h. slack-list_detection d p h;
    diagnosis_listed = slack-list_diagnosis;
    call_counted = slack-count_model_call;
    agent_failed = λ _ _ _ h. h;
    cluster_failed = λ _ _ _ _ h. h;
    listed_idle = λ q p h. slack_less 1 0 p h;
    due_idle = λ p h. slack_less 0 1 p h;
  }

  -- Where the repository saves the investigation itself without raising, `investigate` returns a
  -- result with no more detections than queries, as many recommendations as diagnoses, and no
  -- more diagnoses than detections and model calls of the budget together.
  pub investigate-balance :
      (w : W)
      → Saves C request
      → Returns C request w (λ r.
        (length r.detections ≤ length r.query_runs)
        × (length r.recommendations ≡ length r.diagnoses)
        × (length r.diagnoses ≤ length r.detections + request.budget.max_model_calls))
  investigate-balance w saves =
      Invariant-Returns C request balanced _ w saves (ground arith) (λ b p h. ground arith)

  abbrev query_ids : List QueryRun → List Uuid
  query_ids = map (λ q. q.query_run_id)

  abbrev detected_ids : List DetectionResult → List Uuid
  detected_ids = map (λ d. d.query_run_id)

  abbrev Owned : Progress → Type 0
  Owned p = Subsequence (detected_ids p.detections) (query_ids p.query_runs)

  -- `q` is the last query that is listed, and its detection is not listed yet.
  abbrev Pending : QueryRun → Progress → Type 0
  Pending q p =
      (ids : List Uuid) × (query_ids p.query_runs ≡ ids ++ q.query_run_id ∷ [])
      × Subsequence (detected_ids p.detections) ids

  abbrev owned : Invariant C request
  owned = record {
    Idle = Owned;
    Listed = Pending;
    Due = Owned;
    query_listed = λ q p h. (query_ids p.query_runs, map-append _ p.query_runs (q ∷ []), h);
    detection_listed = λ q d p e (ids, f, h).
        subst (λ xs. Subsequence xs (query_ids p.query_runs))
          (sym
            (map-append _ p.detections (d ∷ []) ∙ ap (λ x. detected_ids p.detections ++ x ∷ []) e))
          (subst (Subsequence _) (sym f) (same_last q.query_run_id h));
    diagnosis_listed = λ _ _ _ h. h;
    call_counted = λ _ _ h. h;
    agent_failed = λ _ _ _ h. h;
    cluster_failed = λ _ _ _ _ h. h;
    listed_idle = λ q p (ids, f, h). subst (Subsequence _) (sym f) (skip_last q.query_run_id h);
    due_idle = λ _ h. h;
  }

  -- Where the repository saves the investigation itself without raising, `investigate` returns a
  -- result whose detections name the query runs of the result, in their order, each entry once
  -- at most.
  pub investigate-Subsequence :
      (w : W)
      → Saves C request
      → Returns C request w (λ r.
        Subsequence
          (map (λ d. d.query_run_id) r.detections)
          (map (λ q. q.query_run_id) r.query_runs))
  investigate-Subsequence w saves = Invariant-Returns C request owned _ w saves nil (λ b p h. h)
