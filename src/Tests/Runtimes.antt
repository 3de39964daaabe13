-- ===== src/Tests/Runtimes.antt =====
-- The theorems of the configuration and the runtime at concrete inputs.
use yamazaki_incubator.Base.{ℕ, suc, ◌*◌, ◌≡◌, refl, true, false, none, some, [], ◌∷◌, arith, map}
use yamazaki_incubator.Base.Result.{Result, ok, raised}
use yamazaki_incubator.Base.Exec.{Exec, pure, raise}
use yamazaki_incubator.Base.Gives.{Gives-pure}
use yamazaki_incubator.Base.Int.{pos, ◌+ℤ◌}
use yamazaki_incubator.Base.Unique.{all_different}
use yamazaki_incubator.Contracts.{
  EngineKind, InvestigationRequest, instant, is_cluster_id, is_variable_name, validate_target,
}
use yamazaki_incubator.Ports.{Environment}
use yamazaki_incubator.Configuration.{
  ClusterConfig, YamazakiConfig, Environ, Files, validate_config, validate_cluster,
  resolve_credential, required_variable, target, resolve_database_url, load_config, identifiers,
}
use yamazaki_incubator.Coordinator.Recent.{recent_request}
use yamazaki_incubator.Engines.Doris
use yamazaki_incubator.Runtime.{Constructors, Runtime, Shell, build_runtime, main, run, close}
use yamazaki_incubator.Runtime.Laws.{configured_request, build_runtime-adapters, main-closes}
use yamazaki_incubator.Runtime.Instances.{
  Connects, IsProvided, instance_of, clickhouse_adapter, doris_adapter,
}
use yamazaki_incubator.Api.{Listings, Application, clusters, respond, enter}
use yamazaki_incubator.Api.Laws.{IsGuarded, respond-IsGuarded}
use yamazaki_incubator.Tests.Samples.{noon}
use yamazaki_incubator.Tests.Parameters.{hundredths, casts}

abbrev clickhouse_cluster : ClusterConfig
clickhouse_cluster = record {
  cluster_id = "clickhouse-poc";
  engine = EngineKind.clickhouse;
  display_name = "ClickHouse POC";
  environment = "poc";
  host = "127.0.0.1";
  sql_port = 8123;
  http_port = none;
  username = "yamazaki_reader";
  password_env = "YAMAZAKI_CLICKHOUSE_PASSWORD";
  database = "default";
  secure = false;
}

abbrev doris_cluster : ClusterConfig
doris_cluster = record clickhouse_cluster {
  cluster_id = "doris-poc";
  engine = EngineKind.doris;
  http_port = some 8030;
}

abbrev config : YamazakiConfig
config = record {
  clusters = clickhouse_cluster ∷ doris_cluster ∷ [];
  database_url_env = "YAMAZAKI_DATABASE_URL";
  evidence_directory = ".local/evidence";
  api_token_env = "YAMAZAKI_API_TOKEN";
}

config-valid : validate_config config ≡ ok config
unfolding validate_config validate_cluster is_cluster_id is_variable_name all_different
config-valid = refl

abbrev env : Environment ℕ
env = record {
  write = λ id payload. raise "OSError";
  cancelled = λ n. (false, suc n);
  monotonic = λ n. (n, suc n);
  utc_now = λ n. (noon, suc n);
  uuid4 = λ n. (n, suc n);
}

configured_request_example :
    (request : InvestigationRequest) × ((recent_request env (identifiers config) (pos 15) 3).0
      ≡ ok request)
    × (request.cluster_ids ≡ "clickhouse-poc" ∷ "doris-poc" ∷ [])
    × (request.window_end ≡ noon)
    × (instant request.window_end ≡ instant request.window_start +ℤ pos (60000000 * 15))
configured_request_example =
    configured_request env config config 15 3 config-valid (omega arith) (omega arith) refl

-- What is connected to answers nothing, and the world counts what is closed.
abbrev close_one : Exec ℕ (Unit {0})
close_one n = (ok tt, suc n)

abbrev make : Constructors ℕ
make = record {
  libraries = record {
    get_client = λ host port username password database secure. pure (record {
      query = λ sql parameters settings. raise "OperationalError";
      close = close_one;
      now = λ n. (noon, suc n);
      uuid4 = λ n. (n, suc n);
    });
    Connection = Unit;
    driver = record {
      connect = λ executor. raise "OperationalError";
      fetch_all = λ connection sql parameters. pure [];
      close = λ connection. close_one;
    };
    http_client = λ host port username password. pure (record {
      get = λ path. raise "ConnectError";
      is_http_error = λ e. true;
      is_value_error = λ e. false;
      close = close_one;
    });
    new_attribute = pure (record { get = λ n. []; set = λ columns n. n });
    now = λ n. (noon, suc n);
    uuid4 = λ n. (n, suc n);
  };
  repository = λ url. pure (record { close = λ n. (ok tt, 100) });
  evidence_store = λ directory. pure tt;
}

abbrev environ : Environ
environ name = some "secret"

make-Connects : Connects make
make-Connects = record {
  get_client = λ host port username password database secure. Gives-pure _ tt;
  http_client = λ host port username password. Gives-pure _ tt;
  new_attribute = Gives-pure _ tt;
  repository = λ url. Gives-pure _ tt;
  evidence_store = λ directory. Gives-pure tt tt;
}

clickhouse_cluster-IsProvided : IsProvided environ clickhouse_cluster
unfolding resolve_credential required_variable
clickhouse_cluster-IsProvided = record {
  credential = record { username = "yamazaki_reader"; password = "secret" };
  resolved = refl;
  has_port = λ e. cc e;
}

doris_cluster-IsProvided : IsProvided environ doris_cluster
unfolding resolve_credential required_variable
doris_cluster-IsProvided = record {
  credential = record { username = "yamazaki_reader"; password = "secret" };
  resolved = refl;
  has_port = λ e. (8030, refl);
}

url-resolved : resolve_database_url environ config ≡ ok "secret"
unfolding resolve_database_url required_variable
url-resolved = refl

abbrev runtime_of : Result (Runtime ℕ) → Runtime ℕ
runtime_of (ok r) = r
runtime_of (raised e) = record { repository = record { close = pure tt }; adapters = [] }

abbrev built : Runtime ℕ
built = runtime_of (build_runtime make environ config 3).0

config-built : (build_runtime make environ config 3).0 ≡ ok built
unfolding build_runtime resolve_credential required_variable target validate_target
    resolve_database_url
config-built = refl

build_runtime-adapters_example :
    (runtime : Runtime ℕ) × ((build_runtime make environ config 3).0 ≡ ok runtime)
    × (map instance_of runtime.adapters
        ≡ (clickhouse_adapter, "clickhouse-poc") ∷ (doris_adapter, "doris-poc") ∷ [])
build_runtime-adapters_example =
    build_runtime-adapters make environ make-Connects config config "secret" 3 config-valid
      (clickhouse_cluster-IsProvided, (doris_cluster-IsProvided, tt)) url-resolved

abbrev shell : Shell ℕ
shell = record {
  investigate = λ runtime request. raise "KeyboardInterrupt";
  print_status = λ n. pure tt;
  print_profiles = λ profiles. pure tt;
  print_result = λ result. pure tt;
  serve = λ runtime token port. pure tt;
  cancel = λ runtime. pure tt;
}

abbrev files : Files
files = record { suffix = λ path. ".json"; read_text = λ path. ok "{}"; decode = λ s. ok config }

config-loaded : load_config files "config.json" ≡ ok config
unfolding load_config validate_config validate_cluster is_cluster_id is_variable_name all_different
config-loaded = refl

-- Closing the repository sets the counter, and an interrupt ends the command.
built-closes : (v : ℕ) → (close built v).1 ≡ 100
unfolding close build_runtime resolve_credential required_variable target validate_target
    resolve_database_url Doris.close
built-closes v = refl

main-closes_example :
    (main hundredths casts shell env environ make files "config.json" (run (pos 15)) 3).1 ≡ 100
main-closes_example =
    main-closes hundredths casts shell env environ (λ n. n ≡ 100) make files "config.json"
      (run (pos 15)) config built 3 built-closes refl config-loaded config-built

-- Every listing counts as a call.
abbrev listings : Listings ℕ
listings = record {
  list_clusters = λ calls. (ok [], suc calls);
  list_query_runs = λ limit calls. (ok [], suc calls);
  list_detections = λ limit calls. (ok [], suc calls);
  list_diagnoses = λ limit calls. (ok [], suc calls);
}

abbrev application : Application ℕ
application = record { repository = listings; api_token = "secret" }

respond-IsGuarded_example :
    IsGuarded application
      (some "Bearer guess")
      (respond application (some "Bearer guess") clusters)
      (enter application clusters)
      0
respond-IsGuarded_example =
    respond-IsGuarded application (some "Bearer guess") clusters 0 refl (λ e. cc e)
