-- ===== src/Schema/Tables.antt =====
-- The metadata of src/yamazaki/persistence.py: the eight tables as they are declared there, and the
-- schema that a declaration stands for. A foreign key takes the type of the column it names, a
-- primary key is not nullable, and `index=True` is an index `ix_<table>_<column>`, as SQLAlchemy
-- documents.
use yamazaki_incubator.Base.{
  Bool, true, false, not, ◌&&◌, Option, none, some, List, [], ◌∷◌, ◌++◌, map, String, ◌==◌,
  string_eq, keep, find,
}
use yamazaki_incubator.Base.Text.{join}
use yamazaki_incubator.Schema.{
  ColumnType, varying, json, timestamp, integer, ForeignKey, Named, TableSchema,
}

-- `Column("…", String(64), …)` or `Column("…", ForeignKey("table.key"), …)`
pub data Source : Type 0 where
  of_type : ColumnType → Source
  foreign_key : (table key : String) → Source

pub record Declared : Type 0 where
  pub name : String
  pub source : Source
  pub primary_key : Bool
  pub nullable : Bool
  pub index : Bool

pub record DeclaredTable : Type 0 where
  pub name : String
  pub columns : List Declared
  pub uniques : List Named

-- `Column(name, type, primary_key=True)`
abbrev key_column : String → ColumnType → Declared
key_column name t = record {
  name = name;
  source = of_type t;
  primary_key = true;
  nullable = false;
  index = false;
}

-- `Column(name, type, nullable=False)`
abbrev required : String → ColumnType → Declared
required name t = record {
  name = name;
  source = of_type t;
  primary_key = false;
  nullable = false;
  index = false;
}

-- `Column(name, type, nullable=False, index=True)`
abbrev required_indexed : String → ColumnType → Declared
required_indexed name t = record (required name t) { index = true }

-- `Column(name, ForeignKey("table.key"), nullable=False, index=True)`
abbrev reference : (name table key : String) → Declared
reference name table key = record {
  name = name;
  source = foreign_key table key;
  primary_key = false;
  nullable = false;
  index = true;
}

abbrev pub clusters_table : DeclaredTable
clusters_table = record {
  name = "clusters";
  columns =
      key_column "cluster_id" (varying 64)
      ∷ required "engine" (varying 32)
      ∷ required "payload" json
      ∷ [];
  uniques = [];
}

abbrev pub capability_profiles_table : DeclaredTable
capability_profiles_table = record {
  name = "capability_profiles";
  columns =
      key_column "capability_profile_id" (varying 36)
      ∷ reference "cluster_id" "clusters" "cluster_id"
      ∷ required "captured_at" timestamp
      ∷ required "payload" json
      ∷ [];
  uniques = [];
}

abbrev pub query_runs_table : DeclaredTable
query_runs_table = record {
  name = "query_runs";
  columns =
      key_column "query_run_id" (varying 36)
      ∷ required "engine" (varying 32)
      ∷ reference "cluster_id" "clusters" "cluster_id"
      ∷ required "engine_query_id" (varying 256)
      ∷ required_indexed "native_fingerprint" (varying 256)
      ∷ required_indexed "started_at" timestamp
      ∷ required "payload" json
      ∷ [];
  uniques =
      record {
        name = "uq_query_execution_attempt";
        columns = "engine" ∷ "cluster_id" ∷ "engine_query_id" ∷ "started_at" ∷ [];
      }
      ∷ [];
}

abbrev pub evidence_refs_table : DeclaredTable
evidence_refs_table = record {
  name = "evidence_refs";
  columns =
      key_column "evidence_id" (varying 36)
      ∷ reference "query_run_id" "query_runs" "query_run_id"
      ∷ required "source_kind" (varying 128)
      ∷ required "content_hash" (varying 64)
      ∷ required "payload" json
      ∷ [];
  uniques =
      record {
        name = "uq_query_evidence_content";
        columns = "query_run_id" ∷ "source_kind" ∷ "content_hash" ∷ [];
      }
      ∷ [];
}

abbrev pub detections_table : DeclaredTable
detections_table = record {
  name = "detections";
  columns =
      key_column "detection_id" (varying 36)
      ∷ reference "query_run_id" "query_runs" "query_run_id"
      ∷ required "payload" json
      ∷ [];
  uniques = [];
}

abbrev pub diagnoses_table : DeclaredTable
diagnoses_table = record {
  name = "diagnoses";
  columns =
      key_column "diagnosis_id" (varying 36)
      ∷ reference "query_run_id" "query_runs" "query_run_id"
      ∷ required "source" (varying 32)
      ∷ required "payload" json
      ∷ [];
  uniques = [];
}

abbrev pub recommendations_table : DeclaredTable
recommendations_table = record {
  name = "recommendations";
  columns =
      key_column "recommendation_id" (varying 36)
      ∷ reference "diagnosis_id" "diagnoses" "diagnosis_id"
      ∷ required "payload" json
      ∷ [];
  uniques = [];
}

abbrev pub investigations_table : DeclaredTable
investigations_table = record {
  name = "investigations";
  columns =
      key_column "investigation_id" (varying 36)
      ∷ required "state" (varying 32)
      ∷ required "request_payload" json
      ∷ record (required "result_payload" json) { nullable = true }
      ∷ required "version" integer
      ∷ [];
  uniques = [];
}

-- `metadata`, in the order of the declarations
abbrev pub metadata : List DeclaredTable
metadata =
    clusters_table ∷ capability_profiles_table ∷ query_runs_table ∷ evidence_refs_table
    ∷ detections_table ∷ diagnoses_table ∷ recommendations_table ∷ investigations_table ∷ []

-- The type of the column that a foreign key names, which is declared with its type.
abbrev source_type : Option Declared → ColumnType
source_type (some c) = elim c.source [ of_type t ↦ t | _ ↦ json ]
source_type none = json

abbrev columns_of : Option DeclaredTable → List Declared
columns_of (some t) = t.columns
columns_of none = []

abbrev type_of_source : List DeclaredTable → Source → ColumnType
type_of_source tables (of_type t) = t
type_of_source tables (foreign_key table key) =
    source_type (find (λ c. c.name == key) (columns_of (find (λ t. t.name == table) tables)))

abbrev key_of : Declared → List ForeignKey
key_of c = elim c.source [
  | of_type t ↦ []
  | foreign_key table key ↦ record { column = c.name; table = table; key = key } ∷ []
]

abbrev keys_of : List Declared → List ForeignKey
keys_of [] = []
keys_of (c ∷ columns) = key_of c ++ keys_of columns

abbrev pub schema_of : List DeclaredTable → DeclaredTable → TableSchema
schema_of tables t = record {
  name = t.name;
  columns =
      map
        (λ c. record {
          name = c.name;
          type_ = type_of_source tables c.source;
          nullable = c.nullable && not c.primary_key;
        })
        t.columns;
  primary_key = map Declared.name (keep Declared.primary_key t.columns);
  foreign_keys = keys_of t.columns;
  uniques = t.uniques;
  indexes =
      map (λ c. record { name = join ("ix_" ∷ t.name ∷ "_" ∷ c.name ∷ []); columns = c.name ∷ [] })
        (keep Declared.index t.columns);
}
