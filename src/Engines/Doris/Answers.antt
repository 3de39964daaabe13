-- ===== src/Engines/Doris/Answers.antt =====
-- What `collect_query_evidence` of src/yamazaki/engines/doris.py returns for each answer of the
-- profile endpoint.
use yamazaki_incubator.Base.{
  ◌*◌, ◌≤◌, ◌≡◌, ◌↔◌, refl, [], ◌∷◌, String, true, false, arith, Bool, Bool-cases, inl, inr, ltb,
  nat_beq, string_eq, nat_beq_iff,
}
use yamazaki_incubator.Base.Result.{Result, ok, raised, Result-cases}
use yamazaki_incubator.Base.Exec.{Exec}
use yamazaki_incubator.Base.Int.{pos}
use yamazaki_incubator.Base.Text.{join, show_ℕ, starts_with-append}
use yamazaki_incubator.Contracts.{int_fact}
use yamazaki_incubator.Json.{Json}
use yamazaki_incubator.Engines.{RawEvidence}
use yamazaki_incubator.Engines.Doris.Statements.{
  matches_query_id, profile_path, profile_prefix, is_profile_path,
}
use yamazaki_incubator.Engines.Doris.Profile.{
  Response, HttpClient, answered, parsed, unreachable, without_profile, with_profile,
}
use yamazaki_incubator.Engines.Doris.{
  DorisAdapter, DorisState, collect_query_evidence, request_evidence,
}

-- The answer carries a profile: status 200, at most 2 MiB, and JSON.
abbrev pub HasProfile : Response → Type 0
HasProfile r = (r.status_code ≡ 200) × (r.content_length ≤ 2097152) × ((j : Json) × (r.json ≡ ok j))

-- The client raises `httpx.HTTPError`, the decoder `ValueError`, and nothing else.
pub record RaisesOnly {W : Type 0} (http : HttpClient W) : Type 0 where
  pub get :
      (path : String) (w : W) (e : String)
      → (http.get path w).0 ≡ raised e
      → http.is_http_error e ≡ true
  pub json :
      (path : String) (w : W) (r : Response) (e : String)
      → (http.get path w).0 ≡ ok r
      → r.json ≡ raised e
      → http.is_value_error e ≡ true

-- The evidence is available exactly when the answer has a profile.
abbrev pub IsRightFor : RawEvidence → Response → Type 0
IsRightFor evidence r = (evidence.available ≡ true) ↔ HasProfile r

parsed-right :
    (is_value_error : String → Bool) (id : String) (r : Response) (j : Result Json)
    → r.json ≡ j
    → r.status_code ≡ 200
    → r.content_length ≤ 2097152
    → ((e : String) → j ≡ raised e → is_value_error e ≡ true)
    → (evidence : RawEvidence) × (parsed is_value_error id j ≡ ok evidence) × IsRightFor evidence r
unfolding parsed
parsed-right is_value_error id r (ok j) h status size errors =
    (with_profile id j, refl, (λ _. (status, size, (j, h)), λ _. refl))
parsed-right is_value_error id r (raised e) h status size errors = (
  without_profile "Doris profile evidence was not valid JSON." "profile_invalid_json" id [],
  rw (errors e refl),
  (λ absurd. cc, λ profile. let (_, _, found) = profile in let (j, k) = found in cc),
)

answered-right :
    (is_value_error : String → Bool) (id : String) (r : Response)
    → ((e : String) → r.json ≡ raised e → is_value_error e ≡ true)
    → (evidence : RawEvidence) × (answered is_value_error id r ≡ ok evidence)
      × IsRightFor evidence r
unfolding answered
answered-right is_value_error id r errors = elim (Bool-cases (nat_beq r.status_code 404)) [
  | inl found ↦ (
    without_profile "Doris profile evidence is unavailable." "profile_unavailable" id [],
    rw found,
    (λ absurd. cc, λ profile. let (status, _, _) = profile in ground (arith, status)),
  )
  | inr known ↦ elim (Bool-cases (nat_beq r.status_code 200)) [
    | inr refused ↦ (
      without_profile "Doris profile evidence was rejected by the endpoint."
          (join ("profile_http_" ∷ show_ℕ r.status_code ∷ [])) id
          (("status_code", int_fact (pos r.status_code)) ∷ []),
      rw (known, refused),
      (λ absurd. cc, λ profile. let (status, _, _) = profile in ground (arith, status)),
    )
    | inl accepted ↦ elim (Bool-cases (ltb (2 * 1024 * 1024) r.content_length)) [
      | inl large ↦ (
        without_profile "Doris profile evidence exceeded the POC size limit."
            "profile_response_too_large" id [],
        rw (known, accepted, large),
        (λ absurd. cc, λ profile. let (_, size, _) = profile in ground (arith, size)),
      )
      | inr small ↦
          let (evidence, e, right) =
            parsed-right is_value_error id r r.json refl ((nat_beq_iff _ _).0 accepted)
              (ground arith) errors in
          (evidence, rw (known, accepted, small, e), right)
    ]
  ]
]

-- Every path of the endpoint begins with the prefix: the guard does not refuse.
profile_path-is_profile_path : (id : String) → is_profile_path (profile_path id) ≡ true
unfolding join
profile_path-is_profile_path id = starts_with-append profile_prefix (join (id ∷ []))

-- Which evidence is right for what the request gave.
abbrev pub IsRightAfter : RawEvidence → Result Response → Type 0
IsRightAfter evidence (ok r) = IsRightFor evidence r
IsRightAfter evidence (raised e) = evidence.available ≡ false

module _ {W : Type 0} where
  IsRightRun : DorisAdapter W → String → Exec (DorisState W) RawEvidence → DorisState W → Type 0
  IsRightRun adapter id m s =
      (evidence : RawEvidence) × ((m s).0 ≡ ok evidence)
      × ((m s).1.audit_columns ≡ s.audit_columns)
      × IsRightAfter evidence (adapter.http.get (profile_path id) s.world).0

  request_evidence-right :
      (adapter : DorisAdapter W) (id : String) (s : DorisState W)
      → RaisesOnly adapter.http
      → IsRightRun adapter id (request_evidence adapter id (profile_path id)) s
  unfolding IsRightRun request_evidence unreachable
  request_evidence-right adapter id s only =
      elim (Result-cases (adapter.http.get (profile_path id) s.world).0) [
        | inl (r, e) ↦
            let (evidence, e', right) =
              answered-right adapter.http.is_value_error id r
                (λ x k. only.json (profile_path id) s.world r x e k) in
            (evidence, rw (e, e'), rw e, rw e right)
        | inr (x, e) ↦ (
          unreachable id,
          rw (e, only.get (profile_path id) s.world x e),
          rw (e, only.get (profile_path id) s.world x e),
          rw e,
        )
      ]

  -- For a valid query identifier, if the HTTP client raises only `HTTPError` and the decoder only
  -- `ValueError`, `collect_query_evidence` of the Doris adapter returns evidence and keeps the
  -- columns. The evidence is available exactly if the endpoint answers with status 200, at most 2
  -- MiB and JSON, and not if the request raises.
  pub collect_query_evidence-right :
      (adapter : DorisAdapter W) (id : String) (s : DorisState W)
      → matches_query_id id ≡ true
      → RaisesOnly adapter.http
      → (evidence : RawEvidence) × ((collect_query_evidence adapter id s).0 ≡ ok evidence)
        × ((collect_query_evidence adapter id s).1.audit_columns ≡ s.audit_columns)
        × IsRightAfter evidence (adapter.http.get (profile_path id) s.world).0
  unfolding collect_query_evidence IsRightRun
  collect_query_evidence-right adapter id s valid only =
      rw (valid, profile_path-is_profile_path id) (request_evidence-right adapter id s only)
