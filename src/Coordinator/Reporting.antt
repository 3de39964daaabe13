-- ===== src/Coordinator/Reporting.antt =====
-- Which clusters `investigate` of src/yamazaki/service.py accounts for, and what it keeps when one
-- of them fails.
use yamazaki_incubator.Base.{
  ◌≡◌, sym, Bool, true, false, ◌||◌, Option, none, some, List, [], ◌∷◌, ◌++◌, String, contains,
  ◌==◌, ==-refl, string_eq, arith, All,
}
use mathlib.Core.List.{append-nil, append_assoc}
use yamazaki_incubator.Base.Result.{ok}
use yamazaki_incubator.Contracts.{InvestigationRequest}
use yamazaki_incubator.Ports.{EngineAdapter}
use yamazaki_incubator.Coordinator.Frame.{Progress, Run, put, set_error}
use yamazaki_incubator.Coordinator.{Config, get_adapter, visit, visit_all}
use yamazaki_incubator.Coordinator.Invariant.{Invariant}
use yamazaki_incubator.Coordinator.Kept.{visit_all-Settles, visit-Settles, Asked}
use yamazaki_incubator.Coordinator.Outcome.{Saves, Returns, investigate-Returns, anything}
use yamazaki_incubator.Coordinator.Triple.{
  Post-ok, Triple, Triple-pure, Triple-answer, Triple-from, Triple-both, Triple-follow, Triple-if,
  Triple-bind, Triple-update, Triple-weaken,
}

-- `key in errors`
unfoldable pub has_key : String → List (String × String) → Bool
has_key k [] = false
has_key k ((j, v) ∷ d) = j == k || has_key k d

put-has_key : (k v : String) (d : List (String × String)) → has_key k (put k v d) ≡ true
unfolding put has_key
put-has_key k v [] = rw (==-refl k)
put-has_key k v ((j, w) ∷ d) = ground (arith, put-has_key k v d)

put-keeps :
    (j k v : String) (d : List (String × String))
    → has_key j d ≡ true
    → has_key j (put k v d) ≡ true
unfolding put has_key
put-keeps j k v [] h = cc
put-keeps j k v ((i, w) ∷ d) h = ground (arith, put-keeps j k v d)

-- A list that goes on from another.
abbrev pub Extends : {A : Type 0} → List A → List A → Type 0
Extends {A} xs ys = (more : List A) × (ys ≡ xs ++ more)

Extends-last : {A : Type 0} (xs ys : List A) (a : A) → Extends xs ys → Extends xs (ys ++ a ∷ [])
Extends-last xs ys a (more, e) = (more ++ a ∷ [], rw (e, append_assoc xs more (a ∷ [])))

module _ {W : Type 0} (C : Config W) (request : InvestigationRequest) where
  -- An error that is recorded stays, where `D` holds.
  abbrev recorded : Type 0 → String → Invariant C request
  recorded D k = record {
    Idle = λ p. D → has_key k p.errors ≡ true;
    Listed = λ _ p. D → has_key k p.errors ≡ true;
    Due = λ p. D → has_key k p.errors ≡ true;
    query_listed = λ _ _ h. h;
    detection_listed = λ _ _ _ _ h. h;
    diagnosis_listed = λ _ _ _ h. h;
    call_counted = λ _ _ h. h;
    agent_failed = λ q e p h d. put-keeps k _ e p.errors (h d);
    cluster_failed = λ id e p _ h d. put-keeps k id e p.errors (h d);
    listed_idle = λ _ _ h. h;
    due_idle = λ _ h. h;
  }

  -- The token is not cancelled, and no two readings of the clock are further apart than the deadline.
  abbrev pub Undisturbed : Type 0
  Undisturbed =
      ((w : W) → (C.env.cancelled w).0 ≡ false)
      × ((now start : W)
          → C.F.lt (C.F.of_int request.budget.deadline_seconds)
              (C.F.sub (C.env.monotonic now).0 (C.env.monotonic start).0)
            ≡ false)

  abbrev Reported : String → Progress → Type 0
  Reported id p = get_adapter C.adapters id ≡ none → has_key id p.errors ≡ true

  abbrev AllReported : List String → Progress → Type 0
  AllReported ids p = All (λ id. Reported id p) ids

  visit-Reported :
      (id : String) (o : Option (EngineAdapter W))
      → Asked C request (anything C request) id
      → Triple
          (λ _. Unit {0})
          (visit C request id o)
          (λ _ p. o ≡ none → has_key id p.errors ≡ true)
          (λ _. ⊥)
  unfolding visit
  visit-Reported id none asked =
      Triple-update (set_error id "cluster_not_configured") (λ p _ _. put-has_key id _ p.errors)
  visit-Reported id (some a) asked =
      Triple-follow (visit C request id (some a)) (λ _ p h e. cc)
        (visit-Settles C request (anything C request) id (some a) asked)

  visit_all-Reported :
      (start : W) (ids : List String)
      → Undisturbed
      → ((id : String) → contains ids id ≡ true → Asked C request (anything C request) id)
      → Triple
          (λ _. Unit {0})
          (visit_all C request (C.env.monotonic start).0 ids)
          (λ _. AllReported ids)
          (λ _. ⊥)
  unfolding visit_all
  visit_all-Reported start [] calm asked = Triple-pure tt (λ p h. tt)
  visit_all-Reported start (id ∷ rest) calm asked = Triple-answer false C.env.cancelled _ calm.0 (
      Triple-from C.env.monotonic _ λ now.
        Triple-if
          (C.F.lt (C.F.of_int request.budget.deadline_seconds)
            (C.F.sub (C.env.monotonic now).0 (C.env.monotonic start).0))
          _ _ (λ late. cc (late, calm.1 now start))
          λ _.
            Triple-bind (λ _. Reported id) (visit C request id (get_adapter C.adapters id)) _
              (visit-Reported id (get_adapter C.adapters id) (asked id (rw (==-refl id))))
              λ _.
                Triple-weaken (visit_all C request (C.env.monotonic start).0 rest) (λ p h. (h, tt))
                  (Triple-both (visit_all C request (C.env.monotonic start).0 rest)
                    (visit_all-Settles C request (recorded (get_adapter C.adapters id ≡ none) id)
                      (C.env.monotonic start).0 rest (λ j h. asked j (ground arith)))
                    (visit_all-Reported start rest calm (λ j h. asked j (ground arith)))))

  -- Where the repository saves the investigation itself without raising, the token is never
  -- cancelled, and no two readings of the clock are further apart than the deadline,
  -- `investigate` returns a result in whose errors every requested cluster without an adapter is
  -- a key, whatever the other clusters do.
  pub investigate-unconfigured :
      (w : W)
      → Saves C request
      → Undisturbed
      → Returns C request w (λ r.
        All
          (λ id. get_adapter C.adapters id ≡ none → has_key id r.errors ≡ true)
          request.cluster_ids)
  investigate-unconfigured w saves calm =
      investigate-Returns C request (λ _. Unit) (AllReported request.cluster_ids) _ w saves tt
        (λ start. visit_all-Reported start request.cluster_ids calm (λ id h. h)) (λ b p h. h)

  -- Every list of `p` goes on from the one of `base`.
  abbrev pub Keeps : Progress → Progress → Type 0
  Keeps base p =
      Extends base.query_runs p.query_runs
      × Extends base.detections p.detections
      × Extends base.diagnoses p.diagnoses
      × Extends base.recommendations p.recommendations

  abbrev extending : Progress → Invariant C request
  extending base = record {
    Idle = Keeps base;
    Listed = λ _. Keeps base;
    Due = Keeps base;
    query_listed = λ q p (h, i, j, k). (Extends-last _ _ q h, i, j, k);
    detection_listed = λ q d p _ (h, i, j, k). (h, Extends-last _ _ d i, j, k);
    diagnosis_listed = λ g r p (h, i, j, k). (h, i, Extends-last _ _ g j, Extends-last _ _ r k);
    call_counted = λ _ _ h. h;
    agent_failed = λ _ _ _ h. h;
    cluster_failed = λ _ _ _ _ h. h;
    listed_idle = λ _ _ h. h;
    due_idle = λ _ h. h;
  }

  -- From whatever the investigation has listed, the visit of a requested cluster returns,
  -- whatever its adapter, the repository and the model raise, and each of the four lists goes on
  -- from what it was.
  pub visit-Keeps :
      (id : String) (s : Run W)
      → contains request.cluster_ids id ≡ true
      → ((visit C request id (get_adapter C.adapters id) s).0 ≡ ok tt)
        × Keeps s.progress (visit C request id (get_adapter C.adapters id) s).1.progress
  visit-Keeps id s asked =
      let (r, s') = visit C request id (get_adapter C.adapters id) s in
      let (a, e, k) =
        Post-ok (λ _. Keeps s.progress) r s'
          ((visit-Settles C request (extending s.progress) id (get_adapter C.adapters id) asked).at
            s
            (
              ([], sym (append-nil _)),
              ([], sym (append-nil _)),
              ([], sym (append-nil _)),
              ([], sym (append-nil _)),
            )) in
      (e, k)
