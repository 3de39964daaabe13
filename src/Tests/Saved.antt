-- ===== src/Tests/Saved.antt =====
-- A server that adds clusters, knows one query run, and has no room for others. Its state is the
-- list of the identifiers of the clusters.
use yamazaki_incubator.Base.{
  arith, ◌≡◌, refl, sym, ap, true, none, some, List, [], ◌∷◌, String, contains, string_eq, ◌==◌,
  ==-refl, if◌then◌else◌, Bool-cases, inl, inr, ◌∙◌,
}
use text.Mathlib.TextEquality.{eq_iff}
use yamazaki_incubator.Base.Result.{ok, ok-injective}
use yamazaki_incubator.Base.Exec.{pure, raise}
use yamazaki_incubator.Contracts.{
  QueryRun, validate_target, validate_query_run, validate_evidence, is_cluster_id,
}
use yamazaki_incubator.Coordinator.Rows.{RowKey, cluster, query, diagnosis, Grows}
use yamazaki_incubator.Coordinator.References.{Saves}
use yamazaki_incubator.Persistence.{
  Table, Server, QueryRow, key, cluster_row, query_row, evidence_row, repository,
}
use yamazaki_incubator.Persistence.Widths.{
  FitsIn, cluster_texts, query_texts, evidence_texts, rows-FitsIn,
}
use yamazaki_incubator.Schema.Tables.{clusters_table, query_runs_table, evidence_refs_table}
use yamazaki_incubator.Persistence.Saves.{Serves, tables, repository-Saves}
use yamazaki_incubator.Tests.Samples.{slow_query, prod, summary}
use yamazaki_incubator.Tests.Parameters.{platform, hundredths}
use yamazaki_incubator.Tests.Tables.{Payload, empty_server}

abbrev Ids : Type 0
Ids = List String

-- A table that takes every row and shows none.
abbrev sink : {Row : Type 0} → Table Ids Row
sink = record {
  find = λ k db. none;
  insert = λ row. pure tt;
  change = λ k f. pure tt;
  delete = pure tt;
  select = λ n db. [];
  select_latest = λ where_ order_by n db. [];
}

abbrev base : Server Payload Ids
base = empty_server

abbrev known_run : QueryRow Payload
known_run = query_row base slow_query

some-injective : {A : Type 0} {a b : A} → some a ≡ some b → a ≡ b
some-injective h = cc

abbrev server : Server Payload Ids
server = record base {
  clusters = record sink {
    find = λ k db.
        if contains db k then some (cluster_row base (record prod { cluster_id = k })) else none;
    insert = λ row db. (ok tt, row.cluster_id ∷ db);
  };
  query_runs = record sink {
    find = λ k db. if known_run.query_run_id == k then some known_run else none;
    insert = λ row. raise "OperationalError";
  };
  diagnoses = record sink { insert = λ row. raise "OperationalError" };
  capability_profiles = sink;
  evidence_refs = sink;
  detections = sink;
  recommendations = sink;
  investigations = sink;
}

abbrev HasProd : Ids → Type 0
HasProd db = contains db "prod" ≡ true

same : (db : Ids) → Grows (tables server HasProd) db db
same db = record { intact = λ i. i; kept = λ r h. h }

contains-more : (id k : String) (db : Ids) → contains db k ≡ true → contains (id ∷ db) k ≡ true
contains-more id k db h = elim (Bool-cases (id == k)) [ inl b ↦ rw b refl | inr b ↦ rw b h ]

more : (id : String) (db : Ids) → Grows (tables server HasProd) db (id ∷ db)
more id db = record { intact = λ i. contains-more id "prod" db i; kept = kept_row }
  where
    kept_row :
        (r : RowKey) → (tables server HasProd).Has r db → (tables server HasProd).Has r (id ∷ db)
    kept_row (cluster k) h = elim (Bool-cases (contains db k)) [
      | inl b ↦
          (cluster_row base (record prod { cluster_id = k }), rw (contains-more id k db b) refl)
      | inr b ↦ cc (rw b at h.1)
    ]
    kept_row (query k) h = h
    kept_row (diagnosis k) h = h

own_run :
    (k : String) (row : QueryRow Payload) (q : QueryRun)
    → server.query_runs.find k [] ≡ some row
    → server.query_codec.load_contract row.payload ≡ ok q
    → key server q.query_run_id ≡ k
own_run k row q found loaded = elim (Bool-cases (known_run.query_run_id == k)) [
  | inl b ↦
      let stored : known_run ≡ row = some-injective (rw b at found) in
      let same_run : slow_query ≡ q = ok-injective (rw (← stored) at loaded) in
      ap (λ (x : QueryRun). key server x.query_run_id) (sym same_run)
      ∙ (eq_iff known_run.query_run_id k).0 b
  | inr b ↦ cc (rw b at found)
]

serves : Serves server HasProd
serves = record {
  clusters = λ t. record {
    at = λ db i h. (
      more t.cluster_id db,
      (
        tt,
        (
          (
            cluster_row base (record prod { cluster_id = t.cluster_id }),
            rw (==-refl t.cluster_id) refl,
          ),
          tt,
        ),
      ),
    );
  };
  changes = λ id f e. record { at = λ db i h. (same db, (tt, tt)) };
  capabilities = λ row. record { at = λ db i h. (same db, (tt, tt)) };
  query_runs = λ q. record { at = λ db i h. (same db, tt) };
  evidence_refs = λ e. record { at = λ db i h. (same db, (tt, tt)) };
  detections = λ d. record { at = λ db i h. (same db, (tt, tt)) };
  diagnoses = λ g. record { at = λ db i h. (same db, tt) };
  recommendations = λ r. record { at = λ db i h. (same db, (tt, tt)) };
  investigations = λ row. record { at = λ db i h. (same db, (tt, tt)) };
  investigation_changes = λ id f e. record { at = λ db i h. (same db, (tt, tt)) };
  own = λ db k row q i found loaded. own_run k row q found loaded;
}

repository-Saves_example : Saves (repository server) (tables server HasProd)
repository-Saves_example = repository-Saves server HasProd serves

-- UUIDs of one short text.
abbrev named_server : Server Payload Ids
named_server = record empty_server { P = record platform { uuid_text = λ _. "c0ffee" } }

prod-valid : validate_target prod ≡ ok prod
unfolding validate_target is_cluster_id
prod-valid = refl

slow_query-valid : validate_query_run hundredths slow_query ≡ ok slow_query
unfolding validate_query_run
slow_query-valid = refl

summary-valid : validate_evidence summary ≡ ok summary
unfolding validate_evidence
summary-valid = refl

rows-FitsIn_example :
    FitsIn clusters_table (cluster_texts (cluster_row named_server prod))
    × FitsIn query_runs_table (query_texts (query_row named_server slow_query))
    × FitsIn evidence_refs_table (evidence_texts (evidence_row named_server summary))
rows-FitsIn_example =
    rows-FitsIn named_server hundredths prod prod slow_query slow_query summary summary
      (λ i. omega arith) prod-valid slow_query-valid refl summary-valid
