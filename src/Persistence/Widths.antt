-- ===== src/Persistence/Widths.antt =====
-- The texts that src/yamazaki/persistence.py writes, against the widths of their columns and the
-- bounds that the contracts of src/yamazaki/contracts.py check.
use yamazaki_incubator.Base.{
  ℕ, suc, ◌≤◌, ◌≡◌, refl, true, false, Bool, Option, some, List, [], ◌∷◌, String, arith, All,
  length,
}
use yamazaki_incubator.Base.Result.{ok, require, >>=-returned}
use yamazaki_incubator.Base.Text.{text_length, codes, starts_then}
use yamazaki_incubator.Numbers.{Floats}
use yamazaki_incubator.Contracts.{
  EngineKind, Uuid, ClusterTarget, QueryRun, EvidenceRef, engine_text, is_cluster_id,
  validate_target, validate_query_run, validate_evidence,
}
use yamazaki_incubator.Schema.{ColumnType, type_in}
use yamazaki_incubator.Schema.Tables.{
  DeclaredTable, metadata, schema_of, clusters_table, query_runs_table, evidence_refs_table,
}
use yamazaki_incubator.Persistence.{
  Server, ClusterRow, QueryRow, EvidenceRow, cluster_row, query_row, evidence_row,
}

abbrev pub Fits : Option ColumnType → String → Type 0
Fits (some (ColumnType.varying n)) s = text_length s ≤ n
Fits _ s = ⊥

-- Each text is no longer than its column is wide.
abbrev pub FitsIn : DeclaredTable → List (String × String) → Type 0
FitsIn t values = All (λ v. Fits (type_in v.0 (schema_of metadata t).columns) v.1) values

module _ {Payload : Type 0} where
  -- The text columns of a row. An engine is stored as its value.
  abbrev pub cluster_texts : ClusterRow Payload → List (String × String)
  cluster_texts row = ("cluster_id", row.cluster_id) ∷ ("engine", engine_text row.engine) ∷ []

  abbrev pub query_texts : QueryRow Payload → List (String × String)
  query_texts row =
      ("query_run_id", row.query_run_id)
      ∷ ("engine", engine_text row.engine)
      ∷ ("cluster_id", row.cluster_id)
      ∷ ("engine_query_id", row.engine_query_id)
      ∷ ("native_fingerprint", row.native_fingerprint)
      ∷ []

  abbrev pub evidence_texts : EvidenceRow Payload → List (String × String)
  evidence_texts row =
      ("evidence_id", row.evidence_id)
      ∷ ("query_run_id", row.query_run_id)
      ∷ ("source_kind", row.source_kind)
      ∷ ("content_hash", row.content_hash)
      ∷ []

engine_text-le : (e : EngineKind) → text_length (engine_text e) ≤ 32
engine_text-le EngineKind.clickhouse = omega arith
engine_text-le EngineKind.doris = omega arith

starts_then-le :
    (first other : ℕ → Bool) (n : ℕ) (cs : List ℕ)
    → starts_then first other n cs ≡ true
    → length cs ≤ suc n
starts_then-le first other n [] h = omega arith
starts_then-le first other n (c ∷ cs) h = ground arith

is_cluster_id-le : (s : String) → is_cluster_id s ≡ true → text_length s ≤ 64
unfolding is_cluster_id
is_cluster_id-le s h = starts_then-le _ _ 63 (codes s) h

require-true : (b : Bool) (e : String) (u : Unit {0}) → require b e ≡ ok u → b ≡ true
require-true true e u h = refl
require-true false e u h = cc h

validate_target-le :
    (t t' : ClusterTarget) → validate_target t ≡ ok t' → text_length t.cluster_id ≤ 64
unfolding validate_target
validate_target-le t t' h =
    let (u, e, _) = >>=-returned (require (is_cluster_id t.cluster_id) "ValidationError") _ h in
    is_cluster_id-le t.cluster_id (require-true (is_cluster_id t.cluster_id) "ValidationError" u e)

validate_query_run-le :
    (F : Floats) (q r : QueryRun)
    → validate_query_run F q ≡ ok r
    → (text_length q.engine_query_id ≤ 256) × (text_length q.native_fingerprint ≤ 256)
unfolding validate_query_run
validate_query_run-le F q r h = ground arith

validate_evidence-le :
    (e e' : EvidenceRef)
    → validate_evidence e ≡ ok e'
    → (text_length e.source_kind ≤ 128) × (text_length e.content_hash ≤ 64)
unfolding validate_evidence
validate_evidence-le e e' h = ground arith

module _ {Payload DB : Type 0} (S : Server Payload DB) where
  -- If a UUID's text has 36 characters at most: for a target, a query run of that cluster and an
  -- evidence reference that pass the checks of their contracts, each text in the rows that the
  -- repository writes for them is no longer than its column is wide.
  pub rows-FitsIn :
      (F : Floats) (t t' : ClusterTarget) (q q' : QueryRun) (e e' : EvidenceRef)
      → ((i : Uuid) → text_length (S.P.uuid_text i) ≤ 36)
      → validate_target t ≡ ok t'
      → validate_query_run F q ≡ ok q'
      → q.cluster_id ≡ t.cluster_id
      → validate_evidence e ≡ ok e'
      → FitsIn clusters_table (cluster_texts (cluster_row S t))
        × FitsIn query_runs_table (query_texts (query_row S q))
        × FitsIn evidence_refs_table (evidence_texts (evidence_row S e))
  rows-FitsIn F t t' q q' e e' short target run of_target evidence =
      let (id, fingerprint) = validate_query_run-le F q q' run in
      let (kind, hash) = validate_evidence-le e e' evidence in
      let cluster = validate_target-le t t' target in
      (
        (cluster, (engine_text-le t.engine, tt)),
        (
          short q.query_run_id,
          (engine_text-le q.engine, (rw of_target cluster, (id, (fingerprint, tt)))),
        ),
        (short e.evidence_id, (short e.query_run_id, (kind, (hash, tt)))),
      )
