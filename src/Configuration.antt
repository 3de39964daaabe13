-- ===== src/Configuration.antt =====
-- src/yamazaki/config.py. The fields that admit one value (`schema_version`, `api_host`) are left
-- out, and so is the example text. Reading the file and decoding JSON are parameters.
pub mod Laws
use Prim.Native.String
use yamazaki_incubator.Base.{
  ℕ, Bool, true, false, not, ◌&&◌, Option, none, some, List, [], ◌∷◌, map, String, leb, is_empty,
  ◌==◌, string_eq, if◌then◌else◌, all,
}
use yamazaki_incubator.Base.Result.{Result, ok, raised, require, ◌>>=◌, ◌>>◌}
use yamazaki_incubator.Base.Unique.{all_different}
use yamazaki_incubator.Base.Text.{has_length, codes}
use yamazaki_incubator.Contracts.{
  EngineKind, ClusterTarget, is_cluster_id, is_variable_name, validate_target,
}

pub record ClusterConfig : Type 0 where
  pub cluster_id : String
  pub engine : EngineKind
  pub display_name : String
  pub environment : String
  pub host : String
  pub sql_port : ℕ
  pub http_port : Option ℕ
  pub username : String
  pub password_env : String
  pub database : String
  pub secure : Bool

-- `ge=1, le=65535`
abbrev is_port : ℕ → Bool
is_port n = leb 1 n && leb n 65535

abbrev is_optional_port : Option ℕ → Bool
is_optional_port none = true
is_optional_port (some n) = is_port n

-- The bounds and patterns of the fields.
unfoldable pub validate_cluster : ClusterConfig → Result ClusterConfig
validate_cluster c = do
  require (is_cluster_id c.cluster_id) "ValidationError"
  require (has_length 1 128 c.display_name) "ValidationError"
  require (has_length 1 64 c.environment) "ValidationError"
  require (has_length 1 255 c.host) "ValidationError"
  require (is_port c.sql_port && is_optional_port c.http_port) "ValidationError"
  require (has_length 1 128 c.username) "ValidationError"
  require (is_variable_name (codes c.password_env)) "ValidationError"
  require (has_length 1 128 c.database) "ValidationError"
  ok c

-- `ClusterConfig.target`, whose constructor checks its fields.
unfoldable pub target : ClusterConfig → Result ClusterTarget
target c = validate_target (record {
  cluster_id = c.cluster_id;
  engine = c.engine;
  display_name = c.display_name;
  environment = c.environment;
  credential_ref = String.◌++◌ "env:" c.password_env;
})

pub record YamazakiConfig : Type 0 where
  pub clusters : List ClusterConfig
  pub database_url_env : String
  pub evidence_directory : String
  pub api_token_env : String

abbrev pub identifiers : YamazakiConfig → List String
identifiers config = map ClusterConfig.cluster_id config.clusters

validate_clusters : List ClusterConfig → Result (Unit {0})
validate_clusters [] = ok tt
validate_clusters (c ∷ clusters) = validate_cluster c >>= λ _. validate_clusters clusters

-- The fields, then `_validate_clusters`.
unfoldable pub validate_config : YamazakiConfig → Result YamazakiConfig
unfolding validate_clusters
validate_config config = do
  validate_clusters config.clusters
  require (is_variable_name (codes config.database_url_env)) "ValidationError"
  require (is_variable_name (codes config.api_token_env)) "ValidationError"
  require (not (is_empty (identifiers config)) && all_different (identifiers config))
      "ValidationError"
  ok config

-- The file system and pydantic's JSON decoder, before any check of bounds.
pub record Files : Type 0 where
  -- `path.suffix.lower()`
  pub suffix : (path : String) → String
  pub read_text : (path : String) → Result String
  pub decode : String → Result YamazakiConfig

unfoldable pub load_config : Files → (path : String) → Result YamazakiConfig
load_config files path =
    if not (files.suffix path == ".json")
    then raised "ValueError"
    else files.read_text path >>= λ s. files.decode s >>= validate_config

-- `os.environ.get`
abbrev pub Environ : Type 0
Environ = (name : String) → Option String

pub record ResolvedCredential : Type 0 where
  pub username : String
  pub password : String

-- `if not value: raise ValueError(...)`
unfoldable pub required_variable : Environ → (name : String) → Result String
required_variable environ name = elim (environ name) [
  | none ↦ raised "ValueError"
  | some value ↦ if value == "" then raised "ValueError" else ok value
]

unfoldable pub resolve_credential : Environ → ClusterConfig → Result ResolvedCredential
resolve_credential environ cluster = required_variable environ cluster.password_env >>= λ password.
    ok (record { username = cluster.username; password = password })

unfoldable pub resolve_database_url : Environ → YamazakiConfig → Result String
resolve_database_url environ config = required_variable environ config.database_url_env
