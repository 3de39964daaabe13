-- ===== src/Api.antt =====
-- src/yamazaki/api.py. FastAPI is a parameter in so far as it solves the dependency of a route before
-- it validates the query parameters, and answers 422 for a parameter outside its bounds.
pub mod Laws
use Prim.Native.String
use yamazaki_incubator.Base.{
  ℕ, Bool, true, false, not, ◌&&◌, ◌||◌, Option, none, some, List, String, all, ltb, ◌==◌,
  string_eq, if◌then◌else◌,
}
use yamazaki_incubator.Base.Int.{ℤ, pos, leb_ℤ}
use yamazaki_incubator.Base.Result.{Result, ok, raised}
use yamazaki_incubator.Base.Exec.{Exec, pure, raise, lift, ◌>>=◌}
use yamazaki_incubator.Base.Text.{codes}
use yamazaki_incubator.Json.{Json}

-- The listings of `ControlStateRepositoryPort`, each item as its `model_dump`.
pub record Listings (W : Type 0) : Type 0 where
  pub list_clusters : Exec W (List Json)
  pub list_query_runs : (limit : ℤ) → Exec W (List Json)
  pub list_detections : (limit : ℤ) → Exec W (List Json)
  pub list_diagnoses : (limit : ℤ) → Exec W (List Json)

-- The five routes, with `limit` where it is given.
pub data Route : Type 0 where
  health clusters : Route
  query_runs detections diagnoses : (limit : Option ℤ) → Route

pub data Reply : Type 0 where
  healthy : Reply
  items : List Json → Reply
  -- 401 and 422
  unauthorized unprocessable : Reply

pub record Application (W : Type 0) : Type 0 where
  pub repository : Listings W
  pub api_token : String

unfoldable pub create_app :
    {W : Type 0} → Listings W → (api_token : String) → Result (Application W)
create_app repository api_token =
    if api_token == ""
    then raised "ValueError"
    else ok (record { repository = repository; api_token = api_token })

-- `str.isascii`
abbrev pub is_ascii : String → Bool
is_ascii s = all (λ c. ltb c 128) (codes s)

-- `hmac.compare_digest` of two texts, which refuses texts that are not ASCII.
abbrev compare_digest : String → String → Result Bool
compare_digest a b = if is_ascii a && is_ascii b then ok (a == b) else raised "TypeError"

-- `f"Bearer {api_token}"`
abbrev pub expected : {W : Type 0} → Application W → String
expected app = String.◌++◌ "Bearer " app.api_token

-- `require_token`: whether the route is entered.
unfoldable pub require_token :
    {W : Type 0} → Application W → (authorization : Option String) → Result Bool
require_token app none = ok false
require_token app (some authorization) = compare_digest authorization (expected app)

-- `Query(default=100, ge=1, le=1_000)`
unfoldable pub limit_of : Option ℤ → Option ℤ
limit_of none = some (pos 100)
limit_of (some limit) = if leb_ℤ (pos 1) limit && leb_ℤ limit (pos 1000) then some limit else none

module _ {W : Type 0} (app : Application W) where
  listed : Exec W (List Json) → Exec W Reply
  listed m = m >>= λ found. pure (items found)

  limited : (ℤ → Exec W (List Json)) → Option ℤ → Exec W Reply
  unfolding listed
  limited listing none = pure unprocessable
  limited listing (some limit) = listed (listing limit)

  -- The bodies of the routes.
  unfoldable pub enter : Route → Exec W Reply
  unfolding listed limited
  enter health = pure healthy
  enter clusters = listed app.repository.list_clusters
  enter (query_runs limit) = limited app.repository.list_query_runs (limit_of limit)
  enter (detections limit) = limited app.repository.list_detections (limit_of limit)
  enter (diagnoses limit) = limited app.repository.list_diagnoses (limit_of limit)

  abbrev guarded : (authorization : Option String) → Exec W Reply → Exec W Reply
  guarded authorization body =
      lift (require_token app authorization) >>= λ right. if right then body else pure unauthorized

  unfoldable pub respond : (authorization : Option String) → Route → Exec W Reply
  unfolding enter
  respond authorization health = enter health
  respond authorization clusters = guarded authorization (enter clusters)
  respond authorization (query_runs limit) = guarded authorization (enter (query_runs limit))
  respond authorization (detections limit) = guarded authorization (enter (detections limit))
  respond authorization (diagnoses limit) = guarded authorization (enter (diagnoses limit))
