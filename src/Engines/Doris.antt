-- ===== src/Engines/Doris.antt =====
-- src/yamazaki/engines/doris.py: the adapter. The database driver and the HTTP client are
-- parameters. The windows of a collection are typed here, so that the test for datetimes has nothing
-- to refuse.
pub mod Statements
pub mod Rows
pub mod Executor
pub mod Profile
pub mod Laws
pub mod Answers
pub mod Columns
pub mod Connections
use yamazaki_incubator.Base.{
  ℕ, ◌≡◌, ◌⊎◌, inl, inr, true, false, not, ◌&&◌, ◌||◌, Bool, Option, none, some, List, [], ◌∷◌,
  String, leb, nat_beq, is_empty, take, if◌then◌else◌,
}
use yamazaki_incubator.Base.Result.{Result, ok, raised}
use yamazaki_incubator.Base.Exec.{Exec, pure, raise, lift, gets, modify, catch, ◌>>=◌, ◌>>◌}
use yamazaki_incubator.Base.Text.{join}
use yamazaki_incubator.Numbers.{Floats}
use yamazaki_incubator.Contracts.{
  Uuid, EngineKind, same_engine, DateTime, ClusterTarget, CapabilityProfile,
}
use yamazaki_incubator.Engines.{RawQueryRecord, RawEvidence, collector_marker}
use yamazaki_incubator.Engines.Cells.{Row, Casts, item_of}
use yamazaki_incubator.Engines.Doris.Statements.{
  audit_columns_sql, version_sql, processlist_sql, missing_columns, completed_sql, matches_query_id,
  profile_path, is_profile_path, profile_prefix,
}
use yamazaki_incubator.Engines.Doris.Rows.{
  audit_columns_of, profile_of, running_records, completed_record,
}
use yamazaki_incubator.Engines.Doris.Executor.{Argument, naive, text}
use yamazaki_incubator.Engines.Doris.Profile.{Response, HttpClient, unreachable, answered}
use yamazaki_incubator.Ports.{EngineAdapter}

-- `DorisSqlExecutor`
pub record SqlExecutor (W : Type 0) : Type 0 where
  pub query : (sql : String) → (parameters : List Argument) → Exec W (List Row)
  pub close : Exec W (Unit {0})

-- What the adapter is made with, the clock and `uuid4` included.
pub record DorisAdapter (W : Type 0) : Type 0 where
  pub target : ClusterTarget
  pub username : String
  pub executor : SqlExecutor W
  pub http : HttpClient W
  pub owns_http : Bool
  pub now : W → DateTime × W
  pub uuid4 : W → Uuid × W

-- `self._audit_columns`, the one attribute that is assigned after the construction, and the world.
pub record DorisState (W : Type 0) : Type 0 where
  pub audit_columns : List String
  pub world : W

unfoldable pub new_adapter :
    {W : Type 0} → DorisAdapter W → W → Result (DorisAdapter W × DorisState W)
new_adapter adapter world =
    if same_engine adapter.target.engine EngineKind.doris
    then ok (adapter, record { audit_columns = []; world = world })
    else raised "ValueError"

module _ {W A : Type 0} where
  -- A call of a client, which does not touch the adapter.
  abbrev pub outside : Exec W A → Exec (DorisState W) A
  outside m s = let (r, w) = m s.world in (r, record s { world = w })

  -- `datetime.now` and `uuid4`, which do not raise.
  abbrev pub asked : (W → A × W) → Exec (DorisState W) A
  asked m = outside (λ w. let (a, after) = m w in (ok a, after))

-- `not 1 <= limit <= 1_000`
abbrev pub is_limit : ℕ → Bool
is_limit limit = leb 1 limit && leb limit 1000

-- `row = rows[0]`, then `str(row["version"])`
version_of : Casts → List Row → Result String
version_of K [] = raised "IndexError"
version_of K (row ∷ rows) = elim (item_of row "version") [
  | ok c ↦ ok (K.str c)
  | raised e ↦ raised e
]

abbrev set_columns : {W : Type 0} → List String → DorisState W → DorisState W
set_columns columns s = record s { audit_columns = columns }

module _ {W : Type 0} where
  -- `try: self._executor.query(...) except Exception`
  processlist_available : DorisAdapter W → Exec (DorisState W) Bool
  processlist_available adapter =
      catch (do _ ← outside (adapter.executor.query processlist_sql []); pure true)
        (λ _. pure false)

  -- `_profile_endpoint_available`
  unfoldable pub profile_endpoint_available : DorisAdapter W → Exec (DorisState W) Bool
  profile_endpoint_available adapter =
      catch
        (do
          response ← outside (adapter.http.get (profile_path "capability-probe"))
          pure (nat_beq response.status_code 200 || nat_beq response.status_code 404))
        (λ e. if adapter.http.is_http_error e then pure false else raise e)

  -- `try: response = self._http.get(path) except httpx.HTTPError`, and the rest.
  request_evidence : DorisAdapter W → (query_id path : String) → Exec (DorisState W) RawEvidence
  request_evidence adapter query_id path =
      catch (do response ← outside (adapter.http.get path); pure (inl response))
        (λ e. if adapter.http.is_http_error e then pure (inr tt) else raise e)
      >>= λ outcome. elim outcome [
        | inl response ↦ lift (answered adapter.http.is_value_error query_id response)
        | inr _ ↦ pure (unreachable query_id)
      ]

  unfoldable pub collect_query_evidence :
      DorisAdapter W → (query_id : String) → Exec (DorisState W) RawEvidence
  unfolding request_evidence
  collect_query_evidence adapter query_id =
      if not (matches_query_id query_id)
      then raise "ValueError"
      else let path = profile_path query_id in
        if not (is_profile_path path)
        then raise "ValueError"
        else request_evidence adapter query_id path

  unfoldable pub close : DorisAdapter W → Exec (DorisState W) (Unit {0})
  close adapter =
      outside adapter.executor.close
      >> (if adapter.owns_http then outside adapter.http.close else pure tt)

module _ (F : Floats) (K : Casts) {W : Type 0} where
  unfoldable pub probe_capabilities : DorisAdapter W → Exec (DorisState W) CapabilityProfile
  unfolding version_of processlist_available profile_endpoint_available
  probe_capabilities adapter = do
    version_rows ← outside (adapter.executor.query version_sql [])
    version ← lift (version_of K version_rows)
    columns ← outside (adapter.executor.query audit_columns_sql [])
    _ ← modify (set_columns (audit_columns_of F K columns))
    listed ← processlist_available adapter
    profiled ← profile_endpoint_available adapter
    id ← asked adapter.uuid4
    now ← asked adapter.now
    audit_columns ← gets DorisState.audit_columns
    lift (profile_of adapter.target.cluster_id version id now audit_columns listed profiled)

  unfoldable pub collect_running_queries :
      DorisAdapter W → (limit : ℕ) → Exec (DorisState W) (List RawQueryRecord)
  collect_running_queries adapter limit =
      if is_limit limit
      then (do
        found ← outside (adapter.executor.query processlist_sql [])
        now ← asked adapter.now
        lift
            (running_records F K adapter.username adapter.target.cluster_id now (take limit found)))
      else raise "ValueError"

  -- The loop over the rows of `collect_completed_queries`, which reads the clock for each.
  unfoldable pub completed_records :
      DorisAdapter W → List Row → Exec (DorisState W) (List RawQueryRecord)
  completed_records adapter [] = pure []
  completed_records adapter (row ∷ found) = do
    now ← asked adapter.now
    made ← lift (completed_record F K adapter.target.cluster_id now row)
    others ← completed_records adapter found
    pure (made ∷ others)

  -- `if not self._audit_columns: self.probe_capabilities()`
  ensure_probed : DorisAdapter W → List String → Exec (DorisState W) (Unit {0})
  ensure_probed adapter [] = probe_capabilities adapter >>= λ _. pure tt
  ensure_probed adapter (column ∷ columns) = pure tt

  -- The query and the loop, once all required columns are there.
  read_audit_log :
      DorisAdapter W
      → (audit_columns : List String) → (window_start window_end : DateTime) → (limit : ℕ)
      → Exec (DorisState W) (List RawQueryRecord)
  unfolding completed_records
  read_audit_log adapter audit_columns window_start window_end limit = do
    found ← outside (
        adapter.executor.query (completed_sql audit_columns limit) (
          naive (record window_start { offset = none })
          ∷ naive (record window_end { offset = none })
          ∷ text adapter.username
          ∷ text (join ("%" ∷ K.lower collector_marker ∷ "%" ∷ []))
          ∷ []))
    completed_records adapter found

  unfoldable pub collect_completed_queries :
      DorisAdapter W
      → (window_start window_end : DateTime) → (limit : ℕ)
      → Exec (DorisState W) (List RawQueryRecord)
  unfolding ensure_probed read_audit_log
  collect_completed_queries adapter window_start window_end limit =
      if is_limit limit
      then (do
        before ← gets DorisState.audit_columns
        _ ← ensure_probed adapter before
        audit_columns ← gets DorisState.audit_columns
        (if is_empty (missing_columns audit_columns)
            then read_audit_log adapter audit_columns window_start window_end limit
            else pure []))
      else raise "ValueError"

  -- The adapter as the coordinator gets it, with the default limit.
  abbrev pub port : DorisAdapter W → EngineAdapter (DorisState W)
  port adapter = record {
    target = adapter.target;
    probe_capabilities = probe_capabilities adapter;
    collect_running_queries = collect_running_queries adapter;
    collect_completed_queries = λ a b. collect_completed_queries adapter a b 1000;
    collect_query_evidence = collect_query_evidence adapter;
  }
