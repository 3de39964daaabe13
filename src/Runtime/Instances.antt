-- ===== src/Runtime/Instances.antt =====
-- Which class of adapter src/yamazaki/runtime.py makes for each cluster of a configuration.
use yamazaki_incubator.Base.{
  ℕ, ◌≡◌, refl, sym, ap, ◌∙◌, subst, List, [], ◌∷◌, map, All, Bool, String, some,
}
use yamazaki_incubator.Base.Result.{ok}
use yamazaki_incubator.Base.Gives.{Gives, Gives-pure, Gives-if, Gives-bind, Gives-after}
use yamazaki_incubator.Contracts.{ClusterTarget, EngineKind, same_engine}
use yamazaki_incubator.Configuration.{
  ClusterConfig, Environ, target, ResolvedCredential, resolve_credential,
}
use yamazaki_incubator.Configuration.Laws.{HasTarget}
use yamazaki_incubator.Runtime.Adapters.{
  Adapter, build_for, build_clickhouse, build_doris, new_clickhouse_adapter, new_doris_adapter,
}
use yamazaki_incubator.Runtime.{Constructors, build_adapters, build_adapter}

-- The two classes of adapters, and the one that an engine calls for.
pub data AdapterClass : Type 0 where
  clickhouse_adapter doris_adapter : AdapterClass

abbrev pub class_for : EngineKind → AdapterClass
class_for EngineKind.clickhouse = clickhouse_adapter
class_for EngineKind.doris = doris_adapter

-- The class of an adapter and the cluster that it is for.
abbrev pub instance_of : {W : Type 0} → Adapter W → AdapterClass × String
instance_of (Adapter.clickhouse adapter) = (clickhouse_adapter, adapter.target.cluster_id)
instance_of (Adapter.doris adapter attribute) = (doris_adapter, adapter.target.cluster_id)

abbrev pub configured : ClusterConfig → AdapterClass × String
configured cluster = (class_for cluster.engine, cluster.cluster_id)

module _ {W : Type 0} (make : Constructors W) where
  -- Nothing that is connected to or opened refuses.
  pub record Connects : Type 0 where
    pub get_client :
        (host : String) (port : ℕ) (username password database : String) (secure : Bool)
        → Gives
            (make.libraries.get_client host port username password database secure)
            (λ _. Unit {0})
    pub http_client :
        (host : String) (http_port : ℕ) (username password : String)
        → Gives (make.libraries.http_client host http_port username password) (λ _. Unit {0})
    pub new_attribute : Gives make.libraries.new_attribute (λ _. Unit {0})
    pub repository : (url : String) → Gives (make.repository url) (λ _. Unit {0})
    pub evidence_store :
        (directory : String) → Gives (make.evidence_store directory) (λ _. Unit {0})

module _ (environ : Environ) where
  -- The password is in the environment, and a Doris cluster has a port for HTTP.
  pub record IsProvided (cluster : ClusterConfig) : Type 0 where
    pub credential : ResolvedCredential
    pub resolved : resolve_credential environ cluster ≡ ok credential
    pub has_port :
        cluster.engine ≡ EngineKind.doris → (http_port : ℕ) × (cluster.http_port ≡ some http_port)

module _ {W : Type 0} (make : Constructors W) (environ : Environ) where
  IsInstance : ClusterConfig → Adapter W → Type 0
  IsInstance cluster adapter = instance_of adapter ≡ configured cluster

  module _ (connects : Connects make) (cluster : ClusterConfig) (credential : ResolvedCredential)
      (has_target : HasTarget cluster) where
    same_instance :
        (t : ClusterTarget) (engine : EngineKind)
        → t.cluster_id ≡ cluster.cluster_id
        → cluster.engine ≡ engine
        → (class_for engine, t.cluster_id) ≡ configured cluster
    same_instance t engine same_id same =
        ap (λ id. (class_for engine, id)) same_id
        ∙ ap (λ k. (class_for k, cluster.cluster_id)) (sym same)

    build_clickhouse-IsInstance :
        cluster.engine ≡ EngineKind.clickhouse
        → Gives (build_clickhouse make.libraries cluster credential) (IsInstance cluster)
    unfolding build_clickhouse new_clickhouse_adapter IsInstance
    build_clickhouse-IsInstance is_clickhouse =
        let (t, e, same_id, same_engine_) = has_target in
        Gives-after (target cluster) t
          (λ t. new_clickhouse_adapter make.libraries t cluster credential) e
          (Gives-if (same_engine t.engine EngineKind.clickhouse) _ _
            (ap (λ k. same_engine k EngineKind.clickhouse) (same_engine_ ∙ is_clickhouse))
            (Gives-bind (λ _. Unit {0})
              (make.libraries.get_client cluster.host cluster.sql_port credential.username
                credential.password cluster.database cluster.secure)
              _
              (connects.get_client cluster.host cluster.sql_port credential.username
                credential.password cluster.database cluster.secure)
              λ client _.
                Gives-pure (Adapter.clickhouse (record { target = t; client = client }))
                  (same_instance t EngineKind.clickhouse same_id is_clickhouse)))

    build_doris-IsInstance :
        (http_port : ℕ)
        → cluster.engine ≡ EngineKind.doris
        → Gives
            (build_doris make.libraries cluster credential (some http_port))
            (IsInstance cluster)
    unfolding build_doris new_doris_adapter IsInstance
    build_doris-IsInstance http_port is_doris =
        let (t, e, same_id, same_engine_) = has_target in
        Gives-after (target cluster) t
          (λ t. new_doris_adapter make.libraries t cluster http_port credential) e
          (Gives-if (same_engine t.engine EngineKind.doris) _ _
            (ap (λ k. same_engine k EngineKind.doris) (same_engine_ ∙ is_doris))
            (Gives-bind (λ _. Unit {0})
              (make.libraries.http_client cluster.host http_port credential.username
                credential.password)
              _
              (connects.http_client cluster.host http_port credential.username credential.password)
              λ http _.
                Gives-bind (λ _. Unit {0}) make.libraries.new_attribute _ connects.new_attribute
                  λ attribute _. Gives-pure _ (same_instance t EngineKind.doris same_id is_doris)))

    build_for-IsInstance :
        (engine : EngineKind)
        → cluster.engine ≡ engine
        → (engine ≡ EngineKind.doris → (p : ℕ) × (cluster.http_port ≡ some p))
        → Gives (build_for make.libraries cluster credential engine) (IsInstance cluster)
    unfolding build_for
    build_for-IsInstance EngineKind.clickhouse e has_port = build_clickhouse-IsInstance e
    build_for-IsInstance EngineKind.doris e has_port =
        let (http_port, filled) = has_port refl in
        subst (λ o. Gives (build_doris make.libraries cluster credential o) (IsInstance cluster))
          (sym filled) (build_doris-IsInstance http_port e)

  build_adapter-IsInstance :
      Connects make
      → (cluster : ClusterConfig) → HasTarget cluster
      → IsProvided environ cluster
      → Gives (build_adapter make environ cluster) (IsInstance cluster)
  unfolding build_adapter
  build_adapter-IsInstance connects cluster has_target provided =
      Gives-after (resolve_credential environ cluster) provided.credential _ provided.resolved (
        build_for-IsInstance connects cluster provided.credential has_target cluster.engine refl
          provided.has_port)

  pub build_adapters-IsInstance :
      Connects make
      → (clusters : List ClusterConfig) → All HasTarget clusters
      → All (IsProvided environ) clusters
      → Gives
          (build_adapters make environ clusters)
          (λ adapters. map instance_of adapters ≡ map configured clusters)
  unfolding build_adapters IsInstance
  build_adapters-IsInstance connects [] targets provided = Gives-pure [] refl
  build_adapters-IsInstance connects (cluster ∷ clusters) targets provided =
      Gives-bind (IsInstance cluster) (build_adapter make environ cluster) _
        (build_adapter-IsInstance connects cluster targets.0 provided.0)
        λ adapter same.
          Gives-bind (λ rest. map instance_of rest ≡ map configured clusters)
            (build_adapters make environ clusters) _
            (build_adapters-IsInstance connects clusters targets.1 provided.1)
            λ rest others. Gives-pure (adapter ∷ rest) (rw (same, others) refl)
