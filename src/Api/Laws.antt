-- ===== src/Api/Laws.antt =====
-- Who is answered by the routes of src/yamazaki/api.py.
use yamazaki_incubator.Base.{
  ◌≡◌, ◌≢◌, ◌⊎◌, inl, inr, refl, ap, true, false, Option, none, some, String, Bool-cases, ◌==◌,
  ==-refl, string_eq,
}
use yamazaki_incubator.Base.Result.{Result, ok, raised}
use yamazaki_incubator.Base.Exec.{Exec}
use yamazaki_incubator.Api.{
  Application, Route, health, clusters, query_runs, detections, diagnoses, Reply, unauthorized,
  expected, require_token, respond, enter, guarded, is_ascii,
}

some-injective : {a b : String} → some a ≡ some b → a ≡ b
some-injective h = cc

-- Neither answered nor let through to the repository.
abbrev pub IsRefused : {W : Type 0} → Result Reply × W → W → Type 0
IsRefused done w = (done.1 ≡ w) × ((done.0 ≡ ok unauthorized) ⊎ (done.0 ≡ raised "TypeError"))

-- What `require_token` says of the right header and of any other.
TokenCase : {W : Type 0} → Application W → Option String → Type 0
TokenCase app authorization =
    ((authorization ≡ some (expected app)) × (require_token app authorization ≡ ok true))
    ⊎ ((authorization ≢ some (expected app))
        × ((require_token app authorization ≡ ok false)
            ⊎ (require_token app authorization ≡ raised "TypeError")))

require_token-TokenCase :
    {W : Type 0} (app : Application W) (authorization : Option String)
    → is_ascii (expected app) ≡ true
    → TokenCase app authorization
unfolding require_token TokenCase
require_token-TokenCase app none ascii = inr (λ e. cc e, inl refl)
require_token-TokenCase app (some s) ascii = elim (Bool-cases (s == expected app)) [
  | inl same ↦
      let e = (string_eq.same_iff s (expected app)).0 same in
      inl (ap some e, rw (e, ascii, ==-refl (expected app)))
  | inr differs ↦ inr (
    λ e. cc (rw ((string_eq.same_iff s (expected app)).1 (some-injective e)) at differs),
    elim (Bool-cases (is_ascii s)) [ inl k ↦ inl (rw (k, ascii, differs)) | inr k ↦ inr (rw k) ],
  )
]

module _ {W : Type 0} (app : Application W) where
  -- The right header enters the route, any other is refused.
  abbrev pub IsGuarded : Option String → Exec W Reply → Exec W Reply → W → Type 0
  IsGuarded authorization done body w =
      ((authorization ≡ some (expected app)) × (done w ≡ body w))
      ⊎ ((authorization ≢ some (expected app)) × IsRefused (done w) w)

  guarded-IsGuarded :
      (authorization : Option String) (body : Exec W Reply) (w : W)
      → is_ascii (expected app) ≡ true
      → IsGuarded authorization (guarded app authorization body) body w
  unfolding TokenCase
  guarded-IsGuarded authorization body w ascii =
      elim (require_token-TokenCase app authorization ascii) [
        | inl (right, e) ↦ inl (right, rw e)
        | inr (wrong, inl e) ↦ inr (wrong, (rw e, inl (rw e)))
        | inr (wrong, inr e) ↦ inr (wrong, (rw e, inr (rw e)))
      ]

  -- Every route but `/health`, if the token is of ASCII: a request whose header is the right one
  -- enters the route, and any other is refused, with 401 or by the `TypeError` of
  -- `compare_digest`, without a call of the repository.
  pub respond-IsGuarded :
      (authorization : Option String) (route : Route) (w : W)
      → is_ascii (expected app) ≡ true
      → route ≢ health
      → IsGuarded authorization (respond app authorization route) (enter app route) w
  unfolding respond
  respond-IsGuarded authorization health w ascii other = elim (other refl) [ ]
  respond-IsGuarded authorization clusters w ascii other = guarded-IsGuarded authorization _ w ascii
  respond-IsGuarded authorization (query_runs limit) w ascii other =
      guarded-IsGuarded authorization _ w ascii
  respond-IsGuarded authorization (detections limit) w ascii other =
      guarded-IsGuarded authorization _ w ascii
  respond-IsGuarded authorization (diagnoses limit) w ascii other =
      guarded-IsGuarded authorization _ w ascii
