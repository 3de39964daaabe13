-- ===== src/Migrations.antt =====
-- alembic/versions/0001_control_state.py: the migration that creates the control state, and
-- alembic/env.py, which runs it. Alembic, SQLAlchemy and the SQL server are parameters.
pub mod Laws
pub mod Env
pub mod Url
use yamazaki_incubator.Base.{ℕ, true, false, List, [], ◌∷◌, String}
use yamazaki_incubator.Base.Exec.{Exec, pure, ◌>>◌, ◌>>=◌}
use yamazaki_incubator.Schema.{
  ColumnType, varying, json, timestamp, integer, Column, ForeignKey, Named, TableSchema, Operation,
  create_table, create_index, drop_table,
}

-- `alembic.op`. A table is created without indexes.
pub record Op (DB : Type 0) : Type 0 where
  pub create_table : TableSchema → Exec DB (Unit {0})
  pub create_index : Named → (table : String) → Exec DB (Unit {0})
  pub drop_table : String → Exec DB (Unit {0})

module _ {DB : Type 0} (op : Op DB) where
  abbrev pub execute : Operation → Exec DB (Unit {0})
  execute (create_table t) = op.create_table t
  execute (create_index index table) = op.create_index index table
  execute (drop_table name) = op.drop_table name

  -- One statement after the other.
  unfoldable pub execute_all : List Operation → Exec DB (Unit {0})
  execute_all [] = pure tt
  execute_all (o ∷ os) = execute o >> execute_all os

-- `Column(name, type, nullable=False)`
abbrev required : String → ColumnType → Column
required name t = record { name = name; type_ = t; nullable = false }

-- `ForeignKeyConstraint([column], ["table.key"])`
abbrev references : (column table key : String) → ForeignKey
references column table key = record { column = column; table = table; key = key }

-- `op.create_index(name, table, [column])`
abbrev index_on : (name table column : String) → Operation
index_on name table column = create_index (record { name = name; columns = column ∷ [] }) table

abbrev create_clusters : Operation
create_clusters = create_table (record {
  name = "clusters";
  columns =
      required "cluster_id" (varying 64)
      ∷ required "engine" (varying 32)
      ∷ required "payload" json
      ∷ [];
  primary_key = "cluster_id" ∷ [];
  foreign_keys = [];
  uniques = [];
  indexes = [];
})

abbrev create_investigations : Operation
create_investigations = create_table (record {
  name = "investigations";
  columns =
      required "investigation_id" (varying 36)
      ∷ required "state" (varying 32)
      ∷ required "request_payload" json
      ∷ record { name = "result_payload"; type_ = json; nullable = true }
      ∷ required "version" integer
      ∷ [];
  primary_key = "investigation_id" ∷ [];
  foreign_keys = [];
  uniques = [];
  indexes = [];
})

abbrev create_capability_profiles : Operation
create_capability_profiles = create_table (record {
  name = "capability_profiles";
  columns =
      required "capability_profile_id" (varying 36)
      ∷ required "cluster_id" (varying 64)
      ∷ required "captured_at" timestamp
      ∷ required "payload" json
      ∷ [];
  primary_key = "capability_profile_id" ∷ [];
  foreign_keys = references "cluster_id" "clusters" "cluster_id" ∷ [];
  uniques = [];
  indexes = [];
})

abbrev create_query_runs : Operation
create_query_runs = create_table (record {
  name = "query_runs";
  columns =
      required "query_run_id" (varying 36)
      ∷ required "engine" (varying 32)
      ∷ required "cluster_id" (varying 64)
      ∷ required "engine_query_id" (varying 256)
      ∷ required "native_fingerprint" (varying 256)
      ∷ required "started_at" timestamp
      ∷ required "payload" json
      ∷ [];
  primary_key = "query_run_id" ∷ [];
  foreign_keys = references "cluster_id" "clusters" "cluster_id" ∷ [];
  uniques =
      record {
        name = "uq_query_execution_attempt";
        columns = "engine" ∷ "cluster_id" ∷ "engine_query_id" ∷ "started_at" ∷ [];
      }
      ∷ [];
  indexes = [];
})

abbrev create_evidence_refs : Operation
create_evidence_refs = create_table (record {
  name = "evidence_refs";
  columns =
      required "evidence_id" (varying 36)
      ∷ required "query_run_id" (varying 36)
      ∷ required "source_kind" (varying 128)
      ∷ required "content_hash" (varying 64)
      ∷ required "payload" json
      ∷ [];
  primary_key = "evidence_id" ∷ [];
  foreign_keys = references "query_run_id" "query_runs" "query_run_id" ∷ [];
  uniques =
      record {
        name = "uq_query_evidence_content";
        columns = "query_run_id" ∷ "source_kind" ∷ "content_hash" ∷ [];
      }
      ∷ [];
  indexes = [];
})

abbrev create_detections : Operation
create_detections = create_table (record {
  name = "detections";
  columns =
      required "detection_id" (varying 36)
      ∷ required "query_run_id" (varying 36)
      ∷ required "payload" json
      ∷ [];
  primary_key = "detection_id" ∷ [];
  foreign_keys = references "query_run_id" "query_runs" "query_run_id" ∷ [];
  uniques = [];
  indexes = [];
})

abbrev create_diagnoses : Operation
create_diagnoses = create_table (record {
  name = "diagnoses";
  columns =
      required "diagnosis_id" (varying 36)
      ∷ required "query_run_id" (varying 36)
      ∷ required "source" (varying 32)
      ∷ required "payload" json
      ∷ [];
  primary_key = "diagnosis_id" ∷ [];
  foreign_keys = references "query_run_id" "query_runs" "query_run_id" ∷ [];
  uniques = [];
  indexes = [];
})

abbrev create_recommendations : Operation
create_recommendations = create_table (record {
  name = "recommendations";
  columns =
      required "recommendation_id" (varying 36)
      ∷ required "diagnosis_id" (varying 36)
      ∷ required "payload" json
      ∷ [];
  primary_key = "recommendation_id" ∷ [];
  foreign_keys = references "diagnosis_id" "diagnoses" "diagnosis_id" ∷ [];
  uniques = [];
  indexes = [];
})

unfoldable pub upgrade_statements : List Operation
upgrade_statements =
    create_clusters
    ∷ create_investigations
    ∷ create_capability_profiles
    ∷ index_on "ix_capability_profiles_cluster_id" "capability_profiles" "cluster_id"
    ∷ create_query_runs
    ∷ index_on "ix_query_runs_cluster_id" "query_runs" "cluster_id"
    ∷ index_on "ix_query_runs_native_fingerprint" "query_runs" "native_fingerprint"
    ∷ index_on "ix_query_runs_started_at" "query_runs" "started_at"
    ∷ create_evidence_refs
    ∷ index_on "ix_evidence_refs_query_run_id" "evidence_refs" "query_run_id"
    ∷ create_detections
    ∷ index_on "ix_detections_query_run_id" "detections" "query_run_id"
    ∷ create_diagnoses
    ∷ index_on "ix_diagnoses_query_run_id" "diagnoses" "query_run_id"
    ∷ create_recommendations
    ∷ index_on "ix_recommendations_diagnosis_id" "recommendations" "diagnosis_id"
    ∷ []

unfoldable pub downgrade_statements : List Operation
downgrade_statements =
    drop_table "recommendations"
    ∷ drop_table "diagnoses"
    ∷ drop_table "detections"
    ∷ drop_table "evidence_refs"
    ∷ drop_table "query_runs"
    ∷ drop_table "capability_profiles"
    ∷ drop_table "investigations"
    ∷ drop_table "clusters"
    ∷ []

module _ {DB : Type 0} (op : Op DB) where
  abbrev pub upgrade : Exec DB (Unit {0})
  upgrade = execute_all op upgrade_statements

  abbrev pub downgrade : Exec DB (Unit {0})
  downgrade = execute_all op downgrade_statements
