-- ===== src/Configuration/Laws.antt =====
-- What a configuration that src/yamazaki/config.py accepts gives to the rest of the program.
use Prim.Native.String
use yamazaki_incubator.Base.{
  ◌≡◌, refl, sym, Bool, true, false, not, ◌&&◌, List, [], ◌∷◌, String, All, is_empty, string_eq,
}
use yamazaki_incubator.Base.Result.{ok, require, >>=-returned, ok-injective}
use yamazaki_incubator.Base.Unique.{all_different}
use yamazaki_incubator.Base.Text.{codes, codes-append, has_length}
use yamazaki_incubator.Contracts.{
  ClusterTarget, validate_target, is_cluster_id, is_credential_ref, is_variable_name,
}
use yamazaki_incubator.Configuration.{
  ClusterConfig, YamazakiConfig, validate_cluster, validate_clusters, validate_config, target,
  identifiers, is_port, is_optional_port,
}

require-true : (b : Bool) (e : String) (u : Unit {0}) → require b e ≡ ok u → b ≡ true
require-true true e u h = refl
require-true false e u h = cc h

reference :
    (name : String)
    → is_variable_name (codes name) ≡ true
    → is_credential_ref (codes (String.◌++◌ "env:" name)) ≡ true
unfolding is_credential_ref
reference name h = rw (codes-append "env:" name, h)

-- The cluster has a target, which names it and its engine.
abbrev pub HasTarget : ClusterConfig → Type 0
HasTarget c =
    (t : ClusterTarget) × (target c ≡ ok t) × (t.cluster_id ≡ c.cluster_id) × (t.engine ≡ c.engine)

cluster-HasTarget : (c v : ClusterConfig) → validate_cluster c ≡ ok v → HasTarget c
unfolding validate_cluster target validate_target
cluster-HasTarget c v h =
    let (u1, e1, h1) = >>=-returned (require (is_cluster_id c.cluster_id) "ValidationError") _ h in
    let (u2, e2, h2) =
      >>=-returned (require (has_length 1 128 c.display_name) "ValidationError") _ h1 in
    let (u3, e3, h3) =
      >>=-returned (require (has_length 1 64 c.environment) "ValidationError") _ h2 in
    let (u4, e4, h4) = >>=-returned (require (has_length 1 255 c.host) "ValidationError") _ h3 in
    let (u5, e5, h5) =
      >>=-returned (require (is_port c.sql_port && is_optional_port c.http_port) "ValidationError")
        _ h4 in
    let (u6, e6, h6) =
      >>=-returned (require (has_length 1 128 c.username) "ValidationError") _ h5 in
    let (u7, e7, h7) =
      >>=-returned (require (is_variable_name (codes c.password_env)) "ValidationError") _ h6 in
    (
      record {
        cluster_id = c.cluster_id;
        engine = c.engine;
        display_name = c.display_name;
        environment = c.environment;
        credential_ref = String.◌++◌ "env:" c.password_env;
      },
      rw (e1, e2, e3, reference c.password_env (require-true _ _ u7 e7)),
      refl,
      refl,
    )

clusters-HasTarget :
    (clusters : List ClusterConfig) (u : Unit {0})
    → validate_clusters clusters ≡ ok u
    → All HasTarget clusters
unfolding validate_clusters
clusters-HasTarget [] u h = tt
clusters-HasTarget (c ∷ clusters) u h =
    let (v, e, h1) = >>=-returned (validate_cluster c) _ h in
    (cluster-HasTarget c v e, clusters-HasTarget clusters u h1)

both-true : (a b : Bool) → not a && b ≡ true → (a ≡ false) × (b ≡ true)
both-true true b h = cc
both-true false b h = (refl, h)

pub validate_config-HasTarget :
    (config valid : YamazakiConfig)
    → validate_config config ≡ ok valid
    → (valid ≡ config)
      × All HasTarget config.clusters
      × (is_empty (identifiers config) ≡ false)
      × (all_different (identifiers config) ≡ true)
unfolding validate_config
validate_config-HasTarget config valid h =
    let (u1, e1, h1) = >>=-returned (validate_clusters config.clusters) _ h in
    let (u2, e2, h2) =
      >>=-returned (require (is_variable_name (codes config.database_url_env)) "ValidationError") _
        h1 in
    let (u3, e3, h3) =
      >>=-returned (require (is_variable_name (codes config.api_token_env)) "ValidationError") _
        h2 in
    let (u4, e4, h4) =
      >>=-returned
        (require (not (is_empty (identifiers config)) && all_different (identifiers config))
          "ValidationError")
        _ h3 in
    let (filled, unique) = both-true _ _ (require-true _ _ u4 e4) in
    (sym (ok-injective h4), clusters-HasTarget config.clusters u1 e1, filled, unique)
