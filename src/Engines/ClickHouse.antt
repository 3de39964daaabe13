-- ===== src/Engines/ClickHouse.antt =====
-- src/yamazaki/engines/clickhouse.py: the adapter. The client library is a parameter. The windows of a
-- collection are typed here, so that the test for datetimes has nothing to refuse.
pub mod Statements
pub mod Rows
pub mod Laws
use yamazaki_incubator.Base.{
  ℕ, true, false, not, ◌&&◌, ◌||◌, Bool, Option, none, some, List, [], ◌∷◌, String, leb, ltb, ◌==◌,
  if◌then◌else◌, string_eq,
}
use yamazaki_incubator.Base.Result.{Result, ok, raised}
use yamazaki_incubator.Base.Exec.{Exec, pure, raise, lift, ◌>>=◌, ◌>>◌}
use yamazaki_incubator.Base.Text.{text_length}
use yamazaki_incubator.Numbers.{Floats}
use yamazaki_incubator.Contracts.{
  Uuid, EngineKind, same_engine, DateTime, ClusterTarget, CapabilityProfile,
}
use yamazaki_incubator.Engines.{RawQueryRecord, RawEvidence}
use yamazaki_incubator.Engines.Cells.{Row, Casts, each_row}
use yamazaki_incubator.Engines.ClickHouse.Statements.{
  version_sql, capability_sql, running_sql, completed_sql, evidence_sql,
}
use yamazaki_incubator.Engines.ClickHouse.Rows.{
  profile_of, running_record, completed_record, evidence_of,
}
use yamazaki_incubator.Ports.{EngineAdapter}

-- What is bound to a placeholder of a statement.
pub data Parameter : Type 0 where
  number : ℕ → Parameter
  time : DateTime → Parameter
  string : String → Parameter

pub record Settings : Type 0 where
  pub readonly : ℕ
  pub max_execution_time : ℕ
  pub max_result_rows : ℕ
  pub result_overflow_mode : String

-- `self._settings`
abbrev pub read_only_settings : Settings
read_only_settings = record {
  readonly = 1;
  max_execution_time = 10;
  max_result_rows = 1000;
  result_overflow_mode = "break";
}

-- The client, whose result is taken as the list of its named rows, and the clock.
pub record ClickHouseClient (W : Type 0) : Type 0 where
  pub query :
      String → (parameters : List (String × Parameter)) → (settings : Settings) → Exec W (List Row)
  pub close : Exec W (Unit {0})
  pub now : W → DateTime × W
  pub uuid4 : W → Uuid × W

-- `ClickHouseAdapter(target, client=client)`: the adapter is the pair.
pub record ClickHouseAdapter (W : Type 0) : Type 0 where
  pub target : ClusterTarget
  pub client : ClickHouseClient W

unfoldable pub new_adapter :
    {W : Type 0} → ClusterTarget → ClickHouseClient W → Result (ClickHouseAdapter W)
new_adapter target client =
    if same_engine target.engine EngineKind.clickhouse
    then ok (record { target = target; client = client })
    else raised "ValueError"

-- `not 1 <= limit <= 1_000`
abbrev pub is_limit : ℕ → Bool
is_limit limit = leb 1 limit && leb limit 1000

-- `datetime.now` and `uuid4`, which do not raise.
abbrev pub asked : {W A : Type 0} → (W → A × W) → Exec W A
asked m w = let (a, after) = m w in (ok a, after)

abbrev pub close : {W : Type 0} → ClickHouseAdapter W → Exec W (Unit {0})
close adapter = adapter.client.close

module _ (F : Floats) (K : Casts) {W : Type 0} where
  -- `_rows`
  unfoldable pub rows : ClickHouseAdapter W → String → List (String × Parameter) → Exec W (List Row)
  rows adapter sql parameters = adapter.client.query sql parameters read_only_settings

  unfoldable pub probe_capabilities : ClickHouseAdapter W → Exec W CapabilityProfile
  unfolding rows
  probe_capabilities adapter = do
    version_rows ← rows adapter version_sql []
    columns ← rows adapter capability_sql []
    id ← asked adapter.client.uuid4
    now ← asked adapter.client.now
    lift (profile_of F K adapter.target.cluster_id id now version_rows columns)

  unfoldable pub collect_running_queries :
      ClickHouseAdapter W → (limit : ℕ) → Exec W (List RawQueryRecord)
  unfolding rows
  collect_running_queries adapter limit =
      if is_limit limit
      then (do
        now ← asked adapter.client.now
        found ← rows adapter running_sql (("limit", number limit) ∷ [])
        lift (each_row (running_record F K adapter.target.cluster_id now) found))
      else raise "ValueError"

  -- The loop over the rows of `collect_completed_queries`, which reads the clock for each.
  unfoldable pub completed_records : ClickHouseAdapter W → List Row → Exec W (List RawQueryRecord)
  completed_records adapter [] = pure []
  completed_records adapter (row ∷ found) = do
    now ← asked adapter.client.now
    made ← lift (completed_record F K adapter.target.cluster_id now row)
    others ← completed_records adapter found
    pure (made ∷ others)

  unfoldable pub collect_completed_queries :
      ClickHouseAdapter W
      → (window_start window_end : DateTime) → (limit : ℕ) → Exec W (List RawQueryRecord)
  unfolding rows completed_records
  collect_completed_queries adapter window_start window_end limit =
      if is_limit limit
      then (do
        found ← rows adapter completed_sql (
            ("window_start", time window_start)
            ∷ ("window_end", time window_end)
            ∷ ("limit", number limit)
            ∷ [])
        completed_records adapter found)
      else raise "ValueError"

  unfoldable pub collect_query_evidence :
      ClickHouseAdapter W → (query_id : String) → Exec W RawEvidence
  unfolding rows
  collect_query_evidence adapter query_id =
      if query_id == "" || ltb 256 (text_length query_id) then raise "ValueError" else (do
        found ← rows adapter evidence_sql (("query_id", string query_id) ∷ [])
        lift (evidence_of F K query_id found))

  -- The adapter as the coordinator gets it, with the default limit.
  abbrev pub port : ClickHouseAdapter W → EngineAdapter W
  port adapter = record {
    target = adapter.target;
    probe_capabilities = probe_capabilities adapter;
    collect_running_queries = collect_running_queries adapter;
    collect_completed_queries = λ a b. collect_completed_queries adapter a b 1000;
    collect_query_evidence = collect_query_evidence adapter;
  }
