-- ===== src/Tests/Tables.antt =====
-- The theorems of the repository, over tables that are lists of rows.
use yamazaki_incubator.Base.{
  ◌≡◌, refl, ap, sym, subst, ◌∙◌, ==-refl, Option, none, some, List, [], ◌∷◌, String, ◌==◌,
  string_eq, if◌then◌else◌, Bool-cases, inl, inr, Option-cases,
}
use text.Mathlib.TextEquality.{eq_iff}
use yamazaki_incubator.Base.Result.{Result, ok, raised}
use yamazaki_incubator.Base.Exec.{Exec, pure, raise}
use yamazaki_incubator.Base.Text.{show_ℕ}
use yamazaki_incubator.Contracts.{running, QueryRun, EvidenceRef, ClusterTarget}
use yamazaki_incubator.Persistence.{
  Table, Codec, Server, ClusterRow, QueryRow, EvidenceRow, InvestigationRow, save_query_run,
  save_evidence, save_cluster, save_investigation, cluster_row, query_row, evidence_row,
}
use yamazaki_incubator.Persistence.Laws.{
  TableLaws, save_query_run-twice, save_all, Stored, save_all-Stored,
}
use yamazaki_incubator.Tests.Parameters.{platform}
use yamazaki_incubator.Tests.Samples.{slow_query, summary, prod, request}

some-eq : {A : Type 0} (a b : A) → some a ≡ some b → a ≡ b
some-eq a b h = cc

module _ {Row : Type 0} (primary : Row → String) where
  unfoldable find_row : String → List Row → Option Row
  find_row k [] = none
  find_row k (r ∷ rows) = if primary r == k then some r else find_row k rows

  unfoldable change_row : String → (Row → Row) → List Row → List Row
  change_row k f [] = []
  change_row k f (r ∷ rows) = if primary r == k then f r ∷ rows else r ∷ change_row k f rows

  abbrev insert_row : Row → Exec (List Row) (Unit {0})
  insert_row r rows = elim (find_row (primary r) rows) [
    | none ↦ (ok tt, r ∷ rows)
    | some _ ↦ (raised "IntegrityError", rows)
  ]

  -- The table is the whole database.
  abbrev only_table : Table (List Row) Row
  only_table = record {
    find = find_row;
    insert = insert_row;
    change = λ k f rows. (ok tt, change_row k f rows);
    delete = λ rows. (ok tt, []);
    select = λ n rows. rows;
    select_latest = λ where_ order_by n rows. rows;
  }

  find_row-key : (k : String) (rows : List Row) (r : Row) → find_row k rows ≡ some r → primary r ≡ k
  unfolding find_row
  find_row-key k [] r h = cc
  find_row-key k (x ∷ rows) r h = elim (Bool-cases (primary x == k)) [
    | inl e ↦ ap primary (sym (some-eq x r (rw e at h))) ∙ (eq_iff (primary x) k).0 e
    | inr e ↦ find_row-key k rows r (rw e at h)
  ]

  insert_row-found :
      (r : Row) (rows rows' : List Row)
      → insert_row r rows ≡ (ok tt, rows')
      → find_row (primary r) rows' ≡ some r
  unfolding find_row
  insert_row-found r rows rows' h = elim (Option-cases (find_row (primary r) rows)) [
    | inl e ↦
        subst (λ xs. find_row (primary r) xs ≡ some r) (ap (λ y. y.1) (rw (e, insert_row) at h))
          (rw (==-refl (primary r)))
    | inr there ↦ let (x, e) = there in cc (ap (λ y. y.0) (rw (e, insert_row) at h))
  ]

  change_row-found :
      (k : String) (f : Row → Row) (r : Row) (rows : List Row)
      → primary (f r) ≡ primary r
      → find_row k rows ≡ some r
      → find_row k (change_row k f rows) ≡ some (f r)
  unfolding find_row change_row
  change_row-found k f r [] e h = cc
  change_row-found k f r (x ∷ rows) e h = elim (Bool-cases (primary x == k)) [
    | inl same ↦
        let h' = some-eq x r (rw same at h) in
        let kept : primary (f x) ≡ k =
          ap (λ y. primary (f y)) h' ∙ e ∙ ap primary (sym h') ∙ (eq_iff (primary x) k).0 same in
        rw (same, kept, ==-refl k) (ap (λ y. some (f y)) h')
    | inr other ↦ rw (other, other) (change_row-found k f r rows e (rw other at h))
  ]

  only_table-TableLaws : TableLaws only_table primary
  only_table-TableLaws = record {
    found_key = λ k rows r h. find_row-key k rows r h;
    insert_found = insert_row-found;
    change_found = λ k f r rows rows' e h done.
        subst (λ xs. find_row k xs ≡ some (f r)) (ap (λ y. y.1) done)
          (change_row-found k f r rows e h);
  }

-- The table that stays empty.
abbrev no_table : {DB Row : Type 0} → Table DB Row
no_table = record {
  find = λ k db. none;
  insert = λ r. raise "IntegrityError";
  change = λ k f. pure tt;
  delete = pure tt;
  select = λ n db. [];
  select_latest = λ where_ order_by n db. [];
}

-- What a JSON column holds.
pub data Payload : Type 0 where
  cluster : ClusterTarget → Payload
  query : QueryRun → Payload
  evidence : EvidenceRef → Payload
  other : Payload

abbrev load_query : Payload → Result QueryRun
load_query (query q) = ok q
load_query _ = raised "ValidationError"

abbrev load_evidence : Payload → Result EvidenceRef
load_evidence (evidence e) = ok e
load_evidence _ = raised "ValidationError"

abbrev no_codec : {A : Type 0} → Codec Payload A
no_codec = record { model_dump = λ a. other; load_contract = λ p. raised "ValidationError" }

abbrev query_codec : Codec Payload QueryRun
query_codec = record { model_dump = query; load_contract = load_query }

abbrev evidence_codec : Codec Payload EvidenceRef
evidence_codec = record { model_dump = evidence; load_contract = load_evidence }

abbrev pub empty_server : {DB : Type 0} → Server Payload DB
empty_server = record {
  P = platform;
  clusters = no_table;
  capability_profiles = no_table;
  query_runs = no_table;
  evidence_refs = no_table;
  detections = no_table;
  diagnoses = no_table;
  recommendations = no_table;
  investigations = no_table;
  cluster_codec = record { model_dump = cluster; load_contract = λ p. raised "ValidationError" };
  capability_codec = no_codec;
  query_codec = query_codec;
  evidence_codec = evidence_codec;
  detection_codec = no_codec;
  diagnosis_codec = no_codec;
  recommendation_codec = no_codec;
  request_codec = no_codec;
  result_codec = no_codec;
}

abbrev query_server : Server Payload (List (QueryRow Payload))
query_server = record empty_server { query_runs = only_table (λ row. row.query_run_id) }

abbrev evidence_server : Server Payload (List (EvidenceRow Payload))
evidence_server = record empty_server { evidence_refs = only_table (λ row. row.evidence_id) }

abbrev cluster_server : Server Payload (List (ClusterRow Payload))
cluster_server = record empty_server { clusters = only_table (λ row. row.cluster_id) }

abbrev investigation_server : Server Payload (List (InvestigationRow Payload))
investigation_server = record empty_server {
  investigations = only_table (λ row. row.investigation_id);
}

query_saved :
    save_query_run query_server slow_query []
    ≡ (ok slow_query, query_row query_server slow_query ∷ [])
unfolding save_query_run find_row
query_saved = refl

save_query_run-twice_example :
    save_query_run query_server
      (record slow_query { duration_ms = 1 })
      (query_row query_server slow_query ∷ [])
    ≡ (ok slow_query, query_row query_server slow_query ∷ [])
save_query_run-twice_example =
    save_query_run-twice query_server (only_table-TableLaws (λ row. row.query_run_id)) (λ q. refl)
      slow_query (record slow_query { duration_ms = 1 }) slow_query []
      (query_row query_server slow_query ∷ []) refl query_saved

evidence_saved :
    save_evidence evidence_server summary []
    ≡ (ok summary, evidence_row evidence_server summary ∷ [])
unfolding save_evidence find_row
evidence_saved = refl

abbrev renamed : ClusterTarget
renamed = record prod { display_name = "Main" }

cluster_saved :
    save_cluster cluster_server renamed (cluster_row cluster_server prod ∷ [])
    ≡ (ok tt, cluster_row cluster_server renamed ∷ [])
unfolding save_cluster find_row change_row
cluster_saved = refl

abbrev investigation_row : InvestigationRow Payload
investigation_row = record {
  investigation_id = "1";
  state = running;
  request_payload = other;
  result_payload = none;
  version = 1;
}

investigation_saved :
    save_all investigation_server request (none ∷ none ∷ []) [] ≡ (ok tt, investigation_row ∷ [])
unfolding save_investigation find_row change_row show_ℕ
investigation_saved = refl

save_all-Stored_example : Stored investigation_server request 1 none (investigation_row ∷ [])
unfolding find_row
save_all-Stored_example =
    save_all-Stored investigation_server request
      (only_table-TableLaws (λ row. row.investigation_id)) none (none ∷ []) []
      (investigation_row ∷ []) refl investigation_saved
