-- ===== src/Engines/Doris/Profile.antt =====
-- The answers of the profile endpoint, and what `collect_query_evidence` of
-- src/yamazaki/engines/doris.py makes of each.
use yamazaki_incubator.Base.{
  ℕ, ◌*◌, Bool, true, false, not, none, some, [], ◌∷◌, String, nat_beq, ltb, if◌then◌else◌,
}
use yamazaki_incubator.Base.Int.{pos}
use yamazaki_incubator.Base.Result.{Result, ok, raised}
use yamazaki_incubator.Base.Exec.{Exec}
use yamazaki_incubator.Base.Text.{join, show_ℕ}
use yamazaki_incubator.Json.{Json, done, field, text}
use yamazaki_incubator.Contracts.{Facts, text_fact, bool_fact, int_fact}
use yamazaki_incubator.Engines.{RawEvidence}

-- What is read of an `httpx.Response`: `json` is the outcome of `response.json()`.
pub record Response : Type 0 where
  pub status_code : ℕ
  pub content_length : ℕ
  pub json : Result Json

-- `httpx.Client.get(path)`, which classes of exceptions are subclasses of `httpx.HTTPError` and of
-- `ValueError`, and `close`.
pub record HttpClient (W : Type 0) : Type 0 where
  pub get : (path : String) → Exec W Response
  pub is_http_error : String → Bool
  pub is_value_error : String → Bool
  pub close : Exec W (Unit {0})

-- The evidence of the five branches that have no profile.
abbrev pub without_profile :
    (summary gap : String) → (query_id : String) → (more : Facts) → RawEvidence
without_profile summary gap query_id more = record {
  source_kind = "doris_profile";
  summary = summary;
  facts = ("query_id", text_fact query_id) ∷ ("available", bool_fact false) ∷ more;
  restricted_payload = done;
  available = false;
  gap = some gap;
}

unfoldable pub unreachable : (query_id : String) → RawEvidence
unreachable query_id =
    without_profile "Doris profile evidence could not be reached." "profile_http_unavailable"
      query_id []

abbrev pub with_profile : (query_id : String) → Json → RawEvidence
with_profile query_id payload = record {
  source_kind = "doris_profile";
  summary = "Doris profile endpoint returned evidence for the query.";
  facts = ("query_id", text_fact query_id) ∷ ("available", bool_fact true) ∷ [];
  restricted_payload = field "query_id" (text query_id) (field "profile" payload done);
  available = true;
  gap = none;
}

-- `try: payload = response.json()`, and the rest.
unfoldable pub parsed :
    (is_value_error : String → Bool) → (query_id : String) → Result Json → Result RawEvidence
parsed is_value_error query_id (ok payload) = ok (with_profile query_id payload)
parsed is_value_error query_id (raised e) =
    if is_value_error e
    then ok (
        without_profile "Doris profile evidence was not valid JSON." "profile_invalid_json" query_id
          [])
    else raised e

-- The branches of `collect_query_evidence` after the request.
unfoldable pub answered :
    (is_value_error : String → Bool) → (query_id : String) → Response → Result RawEvidence
unfolding parsed
answered is_value_error query_id response =
    if nat_beq response.status_code 404
    then ok
        (without_profile "Doris profile evidence is unavailable." "profile_unavailable" query_id [])
    else if not (nat_beq response.status_code 200)
    then ok (
        without_profile "Doris profile evidence was rejected by the endpoint."
          (join ("profile_http_" ∷ show_ℕ response.status_code ∷ [])) query_id
          (("status_code", int_fact (pos response.status_code)) ∷ []))
    else if ltb (2 * 1024 * 1024) response.content_length
    then ok (
        without_profile "Doris profile evidence exceeded the POC size limit."
          "profile_response_too_large" query_id [])
    else parsed is_value_error query_id response.json
