-- ===== src/Engines/Doris/Columns.antt =====
-- What the texts of the server can change in what the adapter of src/yamazaki/engines/doris.py sends.
use yamazaki_incubator.Base.{
  ℕ, ◌≡◌, refl, ap, sym, is_empty, List, [], ◌∷◌, String, All, All-map, true, false, Bool, not,
  keep, contains, leb, string_eq,
}
use yamazaki_incubator.Base.Result.{ok, require, >>=-returned, ok-injective}
use yamazaki_incubator.Base.Exec.{gets, ◌>>=◌, modify, lift}
use yamazaki_incubator.Base.Text.{text_length}
use yamazaki_incubator.Engines.Doris.Statements.{
  version_sql, audit_columns_sql, missing_columns, completed_sql, selected_columns,
  required_audit_columns, optional_audit_columns,
}
use yamazaki_incubator.Numbers.{Floats}
use yamazaki_incubator.Contracts.{CapabilityProfile, is_aware, validate_capability, DateTime, Uuid}
use yamazaki_incubator.Base.Ensures.{Leaves, Leaves-then}
use yamazaki_incubator.Engines.Cells.{Casts}
use yamazaki_incubator.Engines.Doris.Rows.{profile_of, audit_columns_of}
use yamazaki_incubator.Engines.Doris.{
  DorisAdapter, DorisState, probe_capabilities, collect_completed_queries, is_limit, ensure_probed,
  outside, asked, set_columns, version_of, processlist_available, profile_endpoint_available,
}

-- Two tests that answer alike keep alike.
keep-agree :
    {A : Type 0} (f g : A → Bool) (xs : List A) → All (λ x. f x ≡ g x) xs → keep f xs ≡ keep g xs
keep-agree f g [] h = refl
keep-agree f g (x ∷ xs) h = rw (h.0, keep-agree f g xs h.1)

-- Two lists of columns that agree on the names that the program knows.
abbrev pub AgreeOn : List String → List String → List String → Type 0
AgreeOn names columns columns' = All (λ c. contains columns c ≡ contains columns' c) names

-- The statement on the Doris audit log and the missing columns depend on the column names that
-- the server reports only through which of the known seventeen are among them: two lists that
-- agree on these give the same text.
pub completed_sql-known :
    (columns columns' : List String) (limit : ℕ)
    → AgreeOn required_audit_columns columns columns'
    → AgreeOn optional_audit_columns columns columns'
    → (missing_columns columns ≡ missing_columns columns')
      × (completed_sql columns limit ≡ completed_sql columns' limit)
unfolding completed_sql selected_columns
completed_sql-known columns columns' limit required optional = (
  keep-agree (λ c. not (contains columns c)) (λ c. not (contains columns' c)) required_audit_columns
      (All-map {P = λ c. contains columns c ≡ contains columns' c}
        {Q = λ c. not (contains columns c) ≡ not (contains columns' c)} (λ c h. ap not h)
        required_audit_columns required),
  rw (keep-agree (contains columns) (contains columns') optional_audit_columns optional),
)

validated : (p profile : CapabilityProfile) → validate_capability p ≡ ok profile → p ≡ profile
unfolding validate_capability
validated p profile h =
    let (_, _, h1) =
      >>=-returned (require (leb 1 (text_length p.engine_version)) "ValidationError") _ h in
    let (_, _, h2) =
      >>=-returned (require (leb 1 (text_length p.deployment_mode)) "ValidationError") _ h1 in
    let (_, _, h3) = >>=-returned (require (is_aware p.captured_at) "ValidationError") _ h2 in
    ok-injective h3

profile_of-supports :
    (cluster_id version : String) (id : Uuid) (now : DateTime) (columns : List String)
    → (listed profiled : Bool) → (profile : CapabilityProfile)
    → profile_of cluster_id version id now columns listed profiled ≡ ok profile
    → profile.supports_completed_queries ≡ is_empty (missing_columns columns)
unfolding profile_of
profile_of-supports cluster_id version id now columns listed profiled profile h =
    sym (ap CapabilityProfile.supports_completed_queries (validated _ profile h))

module _ (F : Floats) (K : Casts) {W : Type 0} where
  -- The profile tells what the columns that are left tell.
  abbrev Tells : CapabilityProfile → DorisState W → Type 0
  Tells profile s = profile.supports_completed_queries ≡ is_empty (missing_columns s.audit_columns)

  last-Tells :
      (adapter : DorisAdapter W) (version : String) (listed profiled : Bool) (id : Uuid)
      (now : DateTime)
      → Leaves
          (gets DorisState.audit_columns >>= λ columns.
            lift (profile_of adapter.target.cluster_id version id now columns listed profiled))
          Tells
  last-Tells adapter version listed profiled id now = record {
    at = λ s profile h.
        profile_of-supports adapter.target.cluster_id version id now s.audit_columns listed profiled
          profile h;
  }

  probe-Tells : (adapter : DorisAdapter W) → Leaves (probe_capabilities F K adapter) Tells
  unfolding probe_capabilities
  probe-Tells adapter = Leaves-then (outside (adapter.executor.query version_sql [])) _ λ rows.
      Leaves-then (lift (version_of K rows)) _ λ version.
        Leaves-then (outside (adapter.executor.query audit_columns_sql [])) _ λ columns.
          Leaves-then (modify (set_columns (audit_columns_of F K columns))) _ λ _.
            Leaves-then (processlist_available adapter) _ λ listed.
              Leaves-then (profile_endpoint_available adapter) _ λ profiled.
                Leaves-then (asked adapter.uuid4) _ λ id.
                  Leaves-then (asked adapter.now) _
                    λ now. last-Tells adapter version listed profiled id now

  ensure_probed-known :
      (adapter : DorisAdapter W) (columns : List String) (s : DorisState W)
      → is_empty columns ≡ false
      → ensure_probed F K adapter columns s ≡ (ok tt, s)
  unfolding ensure_probed
  ensure_probed-known adapter [] s h = cc
  ensure_probed-known adapter (c ∷ columns) s h = refl

  -- If a probe of the Doris adapter finds columns of the audit log, but its profile does not
  -- support completed queries, then `collect_completed_queries` with a valid limit right after it
  -- returns nothing, sends nothing and leaves the state as it is.
  pub probe-collect :
      (adapter : DorisAdapter W) (s : DorisState W) (profile : CapabilityProfile)
      → (a b : DateTime) (limit : ℕ) → (probe_capabilities F K adapter s).0 ≡ ok profile
      → is_empty (probe_capabilities F K adapter s).1.audit_columns ≡ false
      → is_limit limit ≡ true
      → profile.supports_completed_queries ≡ false
      → collect_completed_queries F K adapter a b limit (probe_capabilities F K adapter s).1
        ≡ (ok [], (probe_capabilities F K adapter s).1)
  unfolding collect_completed_queries
  probe-collect adapter s profile a b limit h known valid unsupported =
      let left = (probe_capabilities F K adapter s).1 in
      let tells = (probe-Tells adapter).at s profile h in
      rw (valid, ensure_probed-known adapter left.audit_columns left known, sym tells, unsupported)
