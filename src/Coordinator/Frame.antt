-- ===== src/Coordinator/Frame.antt =====
-- The state of one call of `investigate` in src/yamazaki/service.py: its local variables, beside
-- the state of the world.
use yamazaki_incubator.Base.{ℕ, ◌+◌, List, [], ◌∷◌, ◌++◌, String, ◌==◌, if◌then◌else◌, string_eq}
use yamazaki_incubator.Base.Result.{Result, ok}
use yamazaki_incubator.Base.Exec.{Exec}
use yamazaki_incubator.Contracts.{QueryRun, DetectionResult, Diagnosis, Recommendation}

pub record Progress : Type 0 where
  pub query_runs : List QueryRun
  pub detections : List DetectionResult
  pub diagnoses : List Diagnosis
  pub recommendations : List Recommendation
  pub errors : List (String × String)
  pub model_calls : ℕ

abbrev pub no_progress : Progress
no_progress = record {
  query_runs = [];
  detections = [];
  diagnoses = [];
  recommendations = [];
  errors = [];
  model_calls = 0;
}

pub record Run (W : Type 0) : Type 0 where
  pub progress : Progress
  pub world : W

-- `errors[key] = value` on a dict, which keeps the place of a key that it has.
unfoldable pub put : String → String → List (String × String) → List (String × String)
put k v [] = (k, v) ∷ []
put k v ((j, w) ∷ d) = if j == k then (j, v) ∷ d else (j, w) ∷ put k v d

abbrev pub list_query : QueryRun → Progress → Progress
list_query q p = record p { query_runs = p.query_runs ++ q ∷ [] }

abbrev pub list_detection : DetectionResult → Progress → Progress
list_detection d p = record p { detections = p.detections ++ d ∷ [] }

abbrev pub list_diagnosis : Diagnosis → Recommendation → Progress → Progress
list_diagnosis d r p = record p {
  diagnoses = p.diagnoses ++ d ∷ [];
  recommendations = p.recommendations ++ r ∷ [];
}

abbrev pub count_model_call : Progress → Progress
count_model_call p = record p { model_calls = p.model_calls + 1 }

abbrev pub set_error : String → String → Progress → Progress
set_error k v p = record p { errors = put k v p.errors }

module _ {W : Type 0} where
  -- A call of a port: it cannot touch the local variables.
  unfoldable pub on_world : {A : Type 0} → Exec W A → Exec (Run W) A
  on_world m s = let (r, w) = m s.world in (r, record s { world = w })

  -- A question to the environment, which cannot raise.
  unfoldable pub ask : {A : Type 0} → (W → A × W) → Exec (Run W) A
  ask m s = let (a, w) = m s.world in (ok a, record s { world = w })

  -- The outcome of a call as a value, for a `try` that surrounds it alone.
  abbrev pub attempt : {A : Type 0} → Exec W A → Exec W (Result A)
  attempt m w = let (r, w') = m w in (ok r, w')

  unfoldable pub update : (Progress → Progress) → Exec (Run W) (Unit {0})
  update f s = (ok tt, record s { progress = f s.progress })

  unfoldable pub gets_progress : {A : Type 0} → (Progress → A) → Exec (Run W) A
  gets_progress f s = (ok (f s.progress), s)
