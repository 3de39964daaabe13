-- ===== src/Runtime.antt =====
-- src/yamazaki/runtime.py, the composition root, and `main` of src/yamazaki/cli.py. What opens
-- connections, the service that serves the API and the argument parser are parameters.
pub mod Adapters
pub mod Instances
pub mod Laws
use yamazaki_incubator.Base.{
  ℕ, Bool, true, false, Option, none, some, List, [], ◌∷◌, map, length, String, if◌then◌else◌, ◌==◌,
  string_eq,
}
use yamazaki_incubator.Base.Int.{ℤ}
use yamazaki_incubator.Base.Result.{Result, ok, raised}
use yamazaki_incubator.Base.Exec.{Exec, pure, raise, lift, catch, try_finally, ◌>>=◌, ◌>>◌}
use yamazaki_incubator.Contracts.{
  EngineKind, ClusterTarget, CapabilityProfile, InvestigationRequest, InvestigationResult,
  InvestigationState, succeeded, degraded,
}
use yamazaki_incubator.Ports.{EngineAdapter, Environment}
use yamazaki_incubator.Configuration.{
  ClusterConfig, YamazakiConfig, target, identifiers, Environ, ResolvedCredential,
  resolve_credential, resolve_database_url, required_variable, Files, load_config,
}
use yamazaki_incubator.Numbers.{Floats}
use yamazaki_incubator.Engines.Cells.{Casts}
use yamazaki_incubator.Runtime.Adapters.{Adapter, Libraries, port, close_adapter, build_for}
use yamazaki_incubator.Coordinator.Recent.{recent_request}

-- The control state, as far as the runtime uses it.
pub record Repository (W : Type 0) : Type 0 where
  pub close : Exec W (Unit {0})

-- What the composition root calls: what the two adapters connect with, and the constructors of
-- `ControlStateRepository` and of `LocalEvidenceStore`.
pub record Constructors (W : Type 0) : Type 1 where
  pub libraries : Libraries W
  pub repository : (url : String) → Exec W (Repository W)
  pub evidence_store : (directory : String) → Exec W (Unit {0})

pub record Runtime (W : Type 0) : Type 0 where
  pub repository : Repository W
  pub adapters : List (Adapter W)

module _ {W : Type 0} where
  close_all : List (Adapter W) → Exec W (Unit {0})
  unfolding close_adapter
  close_all [] = pure tt
  close_all (adapter ∷ rest) = close_adapter adapter >>= λ _. close_all rest

  -- `Runtime.close`
  unfoldable pub close : Runtime W → Exec W (Unit {0})
  unfolding close_all
  close runtime = close_all runtime.adapters >>= λ _. runtime.repository.close

module _ {W : Type 0} (make : Constructors W) (environ : Environ) where
  -- The body of the loop over the clusters.
  unfoldable pub build_adapter : ClusterConfig → Exec W (Adapter W)
  unfolding build_for
  build_adapter cluster = do
    credential ← lift (resolve_credential environ cluster)
    build_for make.libraries cluster credential cluster.engine

  unfoldable pub build_adapters : List ClusterConfig → Exec W (List (Adapter W))
  unfolding build_adapter
  build_adapters [] = pure []
  build_adapters (cluster ∷ clusters) = do
    adapter ← build_adapter cluster
    rest ← build_adapters clusters
    pure (adapter ∷ rest)

  unfoldable pub build_runtime : YamazakiConfig → Exec W (Runtime W)
  unfolding build_adapters
  build_runtime config = do
    adapters ← build_adapters config.clusters
    url ← lift (resolve_database_url environ config)
    repository ← make.repository url
    make.evidence_store config.evidence_directory
    pure (record { repository = repository; adapters = adapters })

-- The arguments that `parser` accepts, without the path of the configuration.
pub data Command : Type 0 where
  validate probe : Command
  run : (minutes : ℤ) → Command
  serve : (port : ℕ) → Command

-- `args.command == "validate"`
abbrev pub is_validate : Command → Bool
is_validate validate = true
is_validate _ = false

-- What `main` calls beside the parts above: the coordinator of a runtime, printing, `uvicorn.run`,
-- and `cancellation.cancel()`.
pub record Shell (W : Type 0) : Type 0 where
  pub investigate : Runtime W → InvestigationRequest → Exec W InvestigationResult
  pub print_status : (clusters : ℕ) → Exec W (Unit {0})
  pub print_profiles : List CapabilityProfile → Exec W (Unit {0})
  pub print_result : InvestigationResult → Exec W (Unit {0})
  pub serve : Runtime W → (token : String) (port : ℕ) → Exec W (Unit {0})
  pub cancel : Runtime W → Exec W (Unit {0})

-- `0 if result.state.value in {"succeeded", "degraded"} else 1`
abbrev pub exit_code : InvestigationState → ℕ
exit_code succeeded = 0
exit_code degraded = 0
exit_code _ = 1

module _ (F : Floats) (K : Casts) {W : Type 0} (shell : Shell W) (env : Environment W)
    (environ : Environ) where
  probe_all : List (Adapter W) → Exec W (List CapabilityProfile)
  unfolding port
  probe_all [] = pure []
  probe_all (adapter ∷ rest) = do
    profile ← (port F K adapter).probe_capabilities
    profiles ← probe_all rest
    pure (profile ∷ profiles)

  -- The branch of `validate`: it reads the environment and prints.
  resolve_all : List ClusterConfig → Result (Unit {0})
  resolve_all [] = ok tt
  resolve_all (cluster ∷ clusters) =
      let rest = resolve_all clusters in
      elim (resolve_credential environ cluster) [ ok _ ↦ rest | raised e ↦ raised e ]

  validate_command : YamazakiConfig → Exec W ℕ
  unfolding resolve_all
  validate_command config = do
    _ ← lift (resolve_database_url environ config)
    lift (resolve_all config.clusters)
    _ ← lift (required_variable environ config.api_token_env)
    shell.print_status (length config.clusters)
    pure 0

  -- The body of the `try` of `main`; the first case does not get there.
  run_command : YamazakiConfig → Runtime W → Command → Exec W ℕ
  unfolding probe_all
  run_command config runtime validate = pure 0
  run_command config runtime probe = do
    profiles ← probe_all runtime.adapters
    shell.print_profiles profiles
    pure 0
  run_command config runtime (run minutes) = do
    request ← recent_request env (identifiers config) minutes
    result ← shell.investigate runtime request
    shell.print_result result
    pure (exit_code result.state)
  run_command config runtime (serve port) = do
    token ← lift (required_variable environ config.api_token_env)
    shell.serve runtime token port
    pure 0

  -- `except KeyboardInterrupt`
  interrupted : Runtime W → String → Exec W ℕ
  interrupted runtime e =
      if e == "KeyboardInterrupt" then (shell.cancel runtime >>= λ _. pure 130) else raise e

  -- The commands that need a runtime, which is closed however they end.
  with_runtime : YamazakiConfig → Command → Runtime W → Exec W ℕ
  unfolding run_command interrupted
  with_runtime config command runtime =
      try_finally (catch (run_command config runtime command) (interrupted runtime)) (close runtime)

  start : Constructors W → Command → YamazakiConfig → Exec W ℕ
  unfolding validate_command with_runtime
  start make command config =
      if is_validate command
      then validate_command config
      else build_runtime make environ config >>= with_runtime config command

  -- `main`, from the parsed arguments on.
  unfoldable pub main : Constructors W → Files → (path : String) → Command → Exec W ℕ
  unfolding start
  main make files path command = lift (load_config files path) >>= start make command
