-- ===== src/Runtime/Laws.antt =====
-- What src/yamazaki/runtime.py and src/yamazaki/cli.py make of a configuration.
use yamazaki_incubator.Base.{ℕ, ◌*◌, ◌≤◌, ◌≡◌, sym, subst, map, All, String, some, false}
use yamazaki_incubator.Base.Result.{ok}
use yamazaki_incubator.Base.Int.{pos, ◌+ℤ◌}
use yamazaki_incubator.Base.Exec.{catch, try_finally-state}
use yamazaki_incubator.Base.Gives.{Gives, Gives-pure, Gives-bind, Gives-after}
use yamazaki_incubator.Contracts.{InvestigationRequest, instant}
use yamazaki_incubator.Ports.{Environment}
use yamazaki_incubator.Configuration.{
  YamazakiConfig, Environ, identifiers, validate_config, resolve_database_url, Files, load_config,
}
use yamazaki_incubator.Configuration.Laws.{validate_config-HasTarget}
use yamazaki_incubator.Numbers.{Floats}
use yamazaki_incubator.Engines.Cells.{Casts}
use yamazaki_incubator.Coordinator.Recent.{recent_request, recent_request-valid}
use yamazaki_incubator.Runtime.{
  Constructors, Runtime, build_runtime, build_adapters, Shell, Command, is_validate, close, main,
  start, with_runtime, run_command, interrupted,
}
use yamazaki_incubator.Runtime.Instances.{
  instance_of, configured, Connects, IsProvided, build_adapters-IsInstance,
}

-- If a configuration validates, the minutes are between 1 and 1440 and the clock reads UTC, then
-- `recent_request` returns a valid request for the configured clusters, whose window ends now and
-- is that many minutes long.
pub configured_request :
    {W : Type 0} (env : Environment W) (config valid : YamazakiConfig) (n : ℕ) (w : W)
    → validate_config config ≡ ok valid
    → 1 ≤ n
    → n ≤ 1440
    → (env.utc_now w).0.offset ≡ some (pos 0)
    → (request : InvestigationRequest) × ((recent_request env (identifiers valid) (pos n) w).0
        ≡ ok request)
      × (request.cluster_ids ≡ identifiers config)
      × (request.window_end ≡ (env.utc_now w).0)
      × (instant request.window_end ≡ instant request.window_start +ℤ pos (60000000 * n))
configured_request env config valid n w h lo hi utc =
    let (same, _, filled, unique) = validate_config-HasTarget config valid h in
    subst
      (λ c.
        (request : InvestigationRequest) × ((recent_request env (identifiers c) (pos n) w).0
          ≡ ok request)
        × (request.cluster_ids ≡ identifiers config)
        × (request.window_end ≡ (env.utc_now w).0)
        × (instant request.window_end ≡ instant request.window_start +ℤ pos (60000000 * n)))
      (sym same) (recent_request-valid env (identifiers config) n w lo hi filled unique utc)

module _ {W : Type 0} (make : Constructors W) (environ : Environ) where
  abbrev IsBuilt : YamazakiConfig → Runtime W → Type 0
  IsBuilt config runtime = map instance_of runtime.adapters ≡ map configured config.clusters

  -- If a configuration validates, its passwords and the URL of the database are in the
  -- environment, its Doris clusters have a port for HTTP, and nothing refuses to connect, then
  -- `build_runtime` returns, and its adapters are, one for one and in order, for the clusters of
  -- the configuration, each of the class that the engine of its cluster calls for.
  pub build_runtime-adapters :
      Connects make
      → (config valid : YamazakiConfig) (url : String) (w : W) → validate_config config ≡ ok valid
      → All (IsProvided environ) config.clusters
      → resolve_database_url environ config ≡ ok url
      → (runtime : Runtime W) × ((build_runtime make environ config w).0 ≡ ok runtime)
        × (map instance_of runtime.adapters ≡ map configured config.clusters)
  unfolding build_runtime
  build_runtime-adapters connects config valid url w h provided resolved =
      let (_, targets, _, _) = validate_config-HasTarget config valid h in
      let built : Gives (build_runtime make environ config) (IsBuilt config) =
        Gives-bind (λ adapters. map instance_of adapters ≡ map configured config.clusters)
          (build_adapters make environ config.clusters) _
          (build_adapters-IsInstance make environ connects config.clusters targets provided)
          λ adapters same. Gives-after (resolve_database_url environ config) url _ resolved (
            Gives-bind (λ _. Unit {0}) (make.repository url) _ (connects.repository url)
              λ repository _.
                Gives-bind (λ _. Unit {0}) (make.evidence_store config.evidence_directory) _
                  (connects.evidence_store config.evidence_directory)
                  λ _ _.
                    Gives-pure (record { repository = repository; adapters = adapters }) same) in
      built.at w

module _ (F : Floats) (K : Casts) {W : Type 0} (shell : Shell W) (env : Environment W)
    (environ : Environ) where
  with_runtime-closes :
      (Closed : W → Type 0) (config : YamazakiConfig) (command : Command) (runtime : Runtime W)
      (w : W)
      → ((v : W) → Closed (close runtime v).1)
      → Closed (with_runtime F K shell env environ config command runtime w).1
  unfolding with_runtime
  with_runtime-closes Closed config command runtime w closed =
      subst Closed
        (sym (
          try_finally-state
            (catch (run_command F K shell env environ config runtime command)
              (interrupted F K shell env environ runtime))
            (close runtime) w))
        (closed _)

  -- For each command but `validate`, if the configuration loads and the runtime is built: what
  -- closing that runtime makes true of the world holds when `main` ends, whether it returns, is
  -- interrupted or raises.
  pub main-closes :
      (Closed : W → Type 0) (make : Constructors W) (files : Files) (path : String)
      (command : Command)
      → (config : YamazakiConfig) (runtime : Runtime W) (w : W)
      → ((v : W) → Closed (close runtime v).1)
      → is_validate command ≡ false
      → load_config files path ≡ ok config
      → (build_runtime make environ config w).0 ≡ ok runtime
      → Closed (main F K shell env environ make files path command w).1
  unfolding main start
  main-closes Closed make files path command config runtime w closed other loaded built =
      rw (loaded, other, built)
        (with_runtime-closes Closed config command runtime (build_runtime make environ config w).1
          closed)
