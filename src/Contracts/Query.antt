-- ===== src/Contracts/Query.antt =====
-- `ClusterTarget`, `CapabilityProfile`, the native identities and `QueryRun` of
-- src/yamazaki/contracts.py, with the checks of their constructors. A metric is a natural number:
-- its field has `ge=0`, which `non_negative` checks where a raw record is normalized.
use yamazaki_incubator.Base.{
  ℕ, Bool, true, false, ◌&&◌, ◌||◌, Option, none, some, List, [], ◌∷◌, String, leb, nat_beq, all,
}
use yamazaki_incubator.Base.Result.{Result, ok, raised, ◌>>◌, require}
use yamazaki_incubator.Base.Int.{ℤ, pos, negsuc}
use yamazaki_incubator.Base.Text.{
  codes, text_length, has_length, starts_then, is_lower, is_digit, is_upper, is_code_char,
}
use yamazaki_incubator.Numbers.{Float, Floats}
use yamazaki_incubator.Contracts.Kinds.{Uuid, EngineKind, same_engine, QueryState}
use yamazaki_incubator.Contracts.Time.{DateTime, is_aware}

pub record ClusterTarget : Type 0 where
  pub cluster_id : String
  pub engine : EngineKind
  pub display_name : String
  pub environment : String
  pub credential_ref : String

-- `^[a-z][a-z0-9_-]{0,63}$`
unfoldable pub is_cluster_id : String → Bool
is_cluster_id s = starts_then is_lower (λ c. is_code_char c || nat_beq c b'-') 63 (codes s)

-- `^[A-Z][A-Z0-9_]*$`, the name of an environment variable
unfoldable pub is_variable_name : List ℕ → Bool
is_variable_name [] = false
is_variable_name (c ∷ cs) = is_upper c && all (λ d. is_upper d || is_digit d || nat_beq d b'_') cs

-- `^env:[A-Z][A-Z0-9_]*$`
unfoldable pub is_credential_ref : List ℕ → Bool
unfolding is_variable_name
is_credential_ref (c ∷ d ∷ e ∷ f ∷ rest) =
    nat_beq c b'e' && nat_beq d b'n' && nat_beq e b'v' && nat_beq f b':' && is_variable_name rest
is_credential_ref _ = false

unfoldable pub validate_target : ClusterTarget → Result ClusterTarget
unfolding is_cluster_id is_credential_ref
validate_target t = do
  require (is_cluster_id t.cluster_id) "ValidationError"
  require (has_length 1 128 t.display_name) "ValidationError"
  require (has_length 1 64 t.environment) "ValidationError"
  require (is_credential_ref (codes t.credential_ref)) "ValidationError"
  ok t

pub record CapabilityProfile : Type 0 where
  pub capability_profile_id : Uuid
  pub cluster_id : String
  pub engine : EngineKind
  pub engine_version : String
  pub deployment_mode : String
  pub supports_running_queries : Bool
  pub supports_completed_queries : Bool
  pub supports_native_fingerprint : Bool
  pub supports_profile : Bool
  pub missing_capabilities : List String
  pub errors : List String
  pub captured_at : DateTime

unfoldable pub validate_capability : CapabilityProfile → Result CapabilityProfile
validate_capability p = do
  require (leb 1 (text_length p.engine_version)) "ValidationError"
  require (leb 1 (text_length p.deployment_mode)) "ValidationError"
  require (is_aware p.captured_at) "ValidationError"
  ok p

pub record ClickHouseIdentity : Type 0 where
  pub query_id : String
  pub initial_query_id : Option String
  pub normalized_query_hash : Option String
  pub query_kind : Option String

pub record DorisIdentity : Type 0 where
  pub query_id : String
  pub sql_digest : Option String
  pub frontend : Option String
  pub workload_group : Option String

pub data NativeIdentity : Type 0 where
  of_clickhouse : ClickHouseIdentity → NativeIdentity
  of_doris : DorisIdentity → NativeIdentity

-- `native.kind`
abbrev pub native_kind : NativeIdentity → EngineKind
native_kind (of_clickhouse _) = EngineKind.clickhouse
native_kind (of_doris _) = EngineKind.doris

-- `str | None = Field(max_length=n)`
abbrev pub at_most : ℕ → Option String → Bool
at_most n none = true
at_most n (some s) = leb (text_length s) n

unfoldable pub is_valid_identity : NativeIdentity → Bool
is_valid_identity (of_clickhouse i) =
    has_length 1 256 i.query_id
    && at_most 256 i.initial_query_id
    && at_most 64 i.normalized_query_hash
    && at_most 64 i.query_kind
is_valid_identity (of_doris i) =
    has_length 1 256 i.query_id
    && at_most 256 i.sql_digest
    && at_most 256 i.frontend
    && at_most 256 i.workload_group

pub record QueryRun : Type 0 where
  pub query_run_id : Uuid
  pub engine : EngineKind
  pub cluster_id : String
  pub engine_query_id : String
  pub native_fingerprint : String
  pub state : QueryState
  pub started_at : DateTime
  pub finished_at : Option DateTime
  pub observed_at : DateTime
  pub ingested_at : DateTime
  pub duration_ms : ℕ
  pub queue_time_ms : Option ℕ
  pub cpu_time_ms : Option ℕ
  pub peak_memory_bytes : Option ℕ
  pub scanned_rows : Option ℕ
  pub returned_rows : Option ℕ
  pub shuffle_bytes : Option ℕ
  pub spill_bytes : Option ℕ
  pub progress : Option Float
  pub statement_type : String
  pub redacted_structure : Option String
  pub native : NativeIdentity
  pub correlation_id : Uuid

-- `int | None = Field(ge=0)`
unfoldable pub non_negative : Option ℤ → Result (Option ℕ)
non_negative none = ok none
non_negative (some (pos n)) = ok (some n)
non_negative (some (negsuc n)) = raised "ValidationError"

unfoldable pub is_aware_or_none : Option DateTime → Bool
is_aware_or_none none = true
is_aware_or_none (some d) = is_aware d

module _ (F : Floats) where
  -- `float = Field(ge=0, le=1)`
  unfoldable pub in_unit : Float → Bool
  in_unit x = F.le (F.of_int 0) x && F.le x (F.of_int 1)

  unfoldable pub in_unit_or_none : Option Float → Bool
  unfolding in_unit
  in_unit_or_none none = true
  in_unit_or_none (some x) = in_unit x

  -- The checks on the fields, then `_validate_identity_and_time`.
  unfoldable pub validate_query_run : QueryRun → Result QueryRun
  unfolding in_unit_or_none is_valid_identity is_aware_or_none
  validate_query_run q = do
    require (has_length 1 256 q.engine_query_id) "ValidationError"
    require (has_length 1 256 q.native_fingerprint) "ValidationError"
    require (in_unit_or_none q.progress) "ValidationError"
    require (has_length 1 64 q.statement_type) "ValidationError"
    require (at_most 4000 q.redacted_structure) "ValidationError"
    require (is_valid_identity q.native) "ValidationError"
    require (is_aware q.started_at && is_aware q.observed_at && is_aware q.ingested_at)
        "ValidationError"
    require (is_aware_or_none q.finished_at) "ValidationError"
    require (same_engine (native_kind q.native) q.engine) "ValidationError"
    ok q
