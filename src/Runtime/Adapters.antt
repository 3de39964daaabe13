-- ===== src/Runtime/Adapters.antt =====
-- How src/yamazaki/runtime.py constructs the adapters, with the constructors of
-- src/yamazaki/engines/clickhouse.py and src/yamazaki/engines/doris.py that it calls. What connects is a
-- parameter: the client libraries, the clock and the heap.
use yamazaki_incubator.Base.{ℕ, Bool, true, Option, none, some, List, String, if◌then◌else◌}
use yamazaki_incubator.Base.Exec.{Exec, pure, raise, lift, ◌>>=◌}
use yamazaki_incubator.Numbers.{Floats}
use yamazaki_incubator.Contracts.{Uuid, DateTime, EngineKind, same_engine, ClusterTarget}
use yamazaki_incubator.Ports.{EngineAdapter}
use yamazaki_incubator.Configuration.{ClusterConfig, ResolvedCredential, target}
use yamazaki_incubator.Engines.Cells.{Casts}
use yamazaki_incubator.Engines.ClickHouse
use yamazaki_incubator.Engines.ClickHouse.{ClickHouseAdapter, ClickHouseClient}
use yamazaki_incubator.Engines.Doris
use yamazaki_incubator.Engines.Doris.{DorisAdapter, DorisState, SqlExecutor}
use yamazaki_incubator.Engines.Doris.Executor
use yamazaki_incubator.Engines.Doris.Executor.{PyMySqlExecutor, Driver}
use yamazaki_incubator.Engines.Doris.Profile.{HttpClient}

-- The place of an attribute `_audit_columns` in the world.
pub record Attribute (W : Type 0) : Type 0 where
  pub get : W → List String
  pub set : List String → W → W

-- An object of one of the two classes.
pub data Adapter (W : Type 0) : Type 0 where
  clickhouse : ClickHouseAdapter W → Adapter W
  doris : DorisAdapter W → (audit_columns : Attribute W) → Adapter W

-- What the constructors call.
pub record Libraries (W : Type 0) : Type 1 where
  -- `clickhouse_connect.get_client`, with its marker and time limits
  pub get_client :
      (host : String)
      → (port : ℕ) → (username password database : String) → (secure : Bool)
      → Exec W (ClickHouseClient W)
  pub Connection : Type 0
  pub driver : Driver W Connection
  -- `httpx.Client(base_url=f"http://{host}:{http_port}", auth=(username, password), timeout=10)`
  pub http_client :
      (host : String) → (http_port : ℕ) → (username password : String) → Exec W (HttpClient W)
  -- `self._audit_columns = frozenset()` of a new object
  pub new_attribute : Exec W (Attribute W)
  pub now : W → DateTime × W
  pub uuid4 : W → Uuid × W

module _ {W A : Type 0} where
  -- A method of a Doris adapter, on the attribute where it stands.
  abbrev in_world : Attribute W → Exec (DorisState W) A → Exec W A
  in_world attribute method w =
      let (r, after) = method (record { audit_columns = attribute.get w; world = w }) in
      (r, attribute.set after.audit_columns after.world)

module _ (F : Floats) (K : Casts) {W : Type 0} where
  -- The methods of an object.
  unfoldable pub port : Adapter W → EngineAdapter W
  port (clickhouse adapter) = ClickHouse.port F K adapter
  port (doris adapter attribute) =
      let methods = Doris.port F K adapter in
      record {
        target = methods.target;
        probe_capabilities = in_world attribute methods.probe_capabilities;
        collect_running_queries =
            λ limit. in_world attribute (methods.collect_running_queries limit);
        collect_completed_queries =
            λ a b. in_world attribute (methods.collect_completed_queries a b);
        collect_query_evidence = λ id. in_world attribute (methods.collect_query_evidence id);
      }

module _ {W : Type 0} where
  unfoldable pub close_adapter : Adapter W → Exec W (Unit {0})
  close_adapter (clickhouse adapter) = ClickHouse.close adapter
  close_adapter (doris adapter attribute) = in_world attribute (Doris.close adapter)

module _ {W : Type 0} (libraries : Libraries W) where
  -- `ClickHouseAdapter(...)`
  unfoldable pub new_clickhouse_adapter :
      ClusterTarget → ClusterConfig → ResolvedCredential → Exec W (Adapter W)
  new_clickhouse_adapter t cluster credential =
      if same_engine t.engine EngineKind.clickhouse
      then (do
        client ←
            libraries.get_client cluster.host cluster.sql_port credential.username
              credential.password cluster.database cluster.secure
        pure (clickhouse (record { target = t; client = client })))
      else raise "ValueError"

  -- `PyMySqlExecutor(...)`, whose `close` does nothing
  abbrev new_executor : ClusterConfig → ResolvedCredential → SqlExecutor W
  new_executor cluster credential =
      let executor : PyMySqlExecutor = record {
        host = cluster.host;
        port = cluster.sql_port;
        username = credential.username;
        password = credential.password;
        database = cluster.database;
      } in
      record { query = Executor.query libraries.driver executor; close = pure tt }

  -- `DorisAdapter(...)`
  unfoldable pub new_doris_adapter :
      ClusterTarget → ClusterConfig → (http_port : ℕ) → ResolvedCredential → Exec W (Adapter W)
  new_doris_adapter t cluster http_port credential =
      if same_engine t.engine EngineKind.doris
      then (do
        http ← libraries.http_client cluster.host http_port credential.username credential.password
        audit_columns ← libraries.new_attribute
        pure (
            doris
              (record {
                target = t;
                username = credential.username;
                executor = new_executor cluster credential;
                http = http;
                owns_http = true;
                now = libraries.now;
                uuid4 = libraries.uuid4;
              })
              audit_columns))
      else raise "ValueError"

  -- `if cluster.http_port is None: raise`, and the rest of the branch.
  unfoldable pub build_doris : ClusterConfig → ResolvedCredential → Option ℕ → Exec W (Adapter W)
  unfolding new_doris_adapter
  build_doris cluster credential none = raise "ValueError"
  build_doris cluster credential (some http_port) = do
    t ← lift (target cluster)
    new_doris_adapter t cluster http_port credential

  unfoldable pub build_clickhouse : ClusterConfig → ResolvedCredential → Exec W (Adapter W)
  unfolding new_clickhouse_adapter
  build_clickhouse cluster credential = do
    t ← lift (target cluster)
    new_clickhouse_adapter t cluster credential

  unfoldable pub build_for : ClusterConfig → ResolvedCredential → EngineKind → Exec W (Adapter W)
  unfolding build_doris build_clickhouse
  build_for cluster credential EngineKind.clickhouse = build_clickhouse cluster credential
  build_for cluster credential EngineKind.doris = build_doris cluster credential cluster.http_port
