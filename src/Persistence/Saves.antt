-- ===== src/Persistence/Saves.antt =====
-- What the methods of src/yamazaki/persistence.py do to the tables, against what the coordinator
-- asks of a repository.
use yamazaki_incubator.Base.{◌≡◌, refl, String, some, List, [], ◌∷◌, Option-cases, inl, inr, Option}
use yamazaki_incubator.Base.Result.{Result, ok, raised}
use yamazaki_incubator.Base.Exec.{Exec, pure, continue, ◌>>◌}
use yamazaki_incubator.Contracts.{
  ClusterTarget, QueryRun, EvidenceRef, DetectionResult, Diagnosis, Recommendation,
  InvestigationRequest, InvestigationResult,
}
use yamazaki_incubator.Coordinator.Rows.{
  Tables, RowKey, cluster, query, diagnosis, HasAll, Grows, Grows-refl, Known, Port,
}
use yamazaki_incubator.Coordinator.References.{Saves}
use yamazaki_incubator.Persistence.{
  Table, Server, ClusterRow, QueryRow, InvestigationRow, key, cluster_row, query_row, evidence_row,
  insert_once, save_cluster, save_capability, save_query_run, list_query_history, save_evidence,
  save_detection, save_diagnosis, save_recommendation, save_investigation, repository,
}

module _ {Payload DB : Type 0} (S : Server Payload DB) (Intact : DB → Type 0) where
  -- A row is there if its key finds one.
  abbrev Present : RowKey → DB → Type 0
  Present (cluster id) db = (row : _) × (S.clusters.find id db ≡ some row)
  Present (query id) db = (row : _) × (S.query_runs.find (key S id) db ≡ some row)
  Present (diagnosis id) db = (row : _) × (S.diagnoses.find (key S id) db ≡ some row)

  abbrev pub tables : Tables DB
  tables = record { Intact = Intact; Has = Present }

  -- A statement on the server: where the rows that it names are there, it keeps the tables intact
  -- and all rows there, and what it inserted is there.
  abbrev Inserts : {Row : Type 0} → List RowKey → Table DB Row → Row → List RowKey → Type 0
  Inserts need table row new = Port tables need (table.insert row) (λ _. Unit) (λ _. new)

  pub record Serves : Type 0 where
    pub clusters :
        (t : ClusterTarget) → Inserts [] S.clusters (cluster_row S t) (cluster t.cluster_id ∷ [])
    -- An update that leaves the primary key alone.
    pub changes :
        (id : String) (f : ClusterRow Payload → ClusterRow Payload)
        → ((row : ClusterRow Payload) → (f row).cluster_id ≡ row.cluster_id)
        → Port tables [] (S.clusters.change id f) (λ _. Unit) (λ _. [])
    pub capabilities :
        (row : _) → Inserts (cluster row.cluster_id ∷ []) S.capability_profiles row []
    pub query_runs :
        (q : QueryRun)
        → Inserts
            (cluster q.cluster_id ∷ [])
            S.query_runs
            (query_row S q)
            (query q.query_run_id ∷ [])
    pub evidence_refs :
        (e : EvidenceRef)
        → Inserts (query e.query_run_id ∷ []) S.evidence_refs (evidence_row S e) []
    pub detections :
        (d : DetectionResult)
        → Inserts
            (query d.query_run_id ∷ [])
            S.detections
            (record {
              detection_id = key S d.detection_id;
              query_run_id = key S d.query_run_id;
              payload = S.detection_codec.model_dump d;
            })
            []
    pub diagnoses :
        (g : Diagnosis)
        → Inserts
            (query g.query_run_id ∷ [])
            S.diagnoses
            (record {
              diagnosis_id = key S g.diagnosis_id;
              query_run_id = key S g.query_run_id;
              source = g.source;
              payload = S.diagnosis_codec.model_dump g;
            })
            (diagnosis g.diagnosis_id ∷ [])
    pub recommendations :
        (r : Recommendation)
        → Inserts
            (diagnosis r.diagnosis_id ∷ [])
            S.recommendations
            (record {
              recommendation_id = key S r.recommendation_id;
              diagnosis_id = key S r.diagnosis_id;
              payload = S.recommendation_codec.model_dump r;
            })
            []
    pub investigations : (row : _) → Inserts [] S.investigations row []
    pub investigation_changes :
        (id : String) (f : InvestigationRow Payload → InvestigationRow Payload)
        → ((row : InvestigationRow Payload) → (f row).investigation_id ≡ row.investigation_id)
        → Port tables [] (S.investigations.change id f) (λ _. Unit) (λ _. [])
    -- What is stored under a key loads as the run of that key.
    pub own :
        (db : DB) (k : String) (row : QueryRow Payload) (q : QueryRun)
        → Intact db
        → S.query_runs.find k db ≡ some row
        → S.query_codec.load_contract row.payload ≡ ok q
        → key S q.query_run_id ≡ k

  Known-any : {A : Type 0} (r : Result A) (db : DB) → Known tables (λ _. Unit) (λ _. []) r db
  Known-any (ok a) db = (tt, tt)
  Known-any (raised e) db = tt

  Known-fixed :
      {A : Type 0} (new : List RowKey) (r : Result A) (db : DB)
      → HasAll tables new db
      → Known tables (λ _. Unit) (λ _. new) r db
  Known-fixed new (ok a) db h = (tt, h)
  Known-fixed new (raised e) db h = tt

  Known-loaded :
      (r : Result QueryRun) (db : DB)
      → ((q : QueryRun) → r ≡ ok q → Present (query q.query_run_id) db)
      → Known tables (λ _. Unit) (λ q. query q.query_run_id ∷ []) r db
  Known-loaded (ok q) db h = (tt, (h q refl, tt))
  Known-loaded (raised e) db h = tt

  then_pure-Known :
      {A : Type 0} (new : A → List RowKey) (r : Result (Unit {0})) (a : A) (w db : DB)
      → Grows tables w db
      → Known tables (λ _. Unit) (λ _. new a) r db
      → Grows tables w (continue {S = DB} r (λ _. pure a) db).1
        × Known tables
            (λ _. Unit)
            new
            (continue {S = DB} r (λ _. pure a) db).0
            (continue {S = DB} r (λ _. pure a) db).1
  then_pure-Known new (ok x) a w db g k = (g, k)
  then_pure-Known new (raised e) a w db g k = (g, tt)

  -- A statement, then `return a`.
  then_pure-Port :
      {A : Type 0} {need : List RowKey} (new : A → List RowKey) (m : Exec DB (Unit {0})) (a : A)
      → Port tables need m (λ _. Unit) (λ _. new a)
      → Port tables need (m >> pure a) (λ _. Unit) new
  then_pure-Port new m a p = record {
    at = λ db i h.
        let (grows, known) = p.at db i h in then_pure-Known new (m db).0 a db (m db).1 grows known;
  }

  -- A statement that only reads.
  reads-Port :
      {A : Type 0} {need : List RowKey} (f : DB → Result A)
      → Port tables need (λ db. (f db, db)) (λ _. Unit) (λ _. [])
  reads-Port f = record { at = λ db i k. (Grows-refl tables db, Known-any (f db) db) }

  insert_once-Port :
      {Row : Type 0} {need new : List RowKey} (table : Table DB Row) (k : String) (row : Row)
      → Inserts need table row new
      → ((db : DB) (found : Row) → table.find k db ≡ some found → HasAll tables new db)
      → Port tables need (insert_once table k row) (λ _. Unit) (λ _. new)
  unfolding insert_once
  insert_once-Port table k row p there = record {
    at = λ db i h. elim (Option-cases (table.find k db)) [
      | inl e ↦ rw (insert_once, e) (p.at db i h)
      | inr (found, e) ↦ rw (insert_once, e) (Grows-refl tables db, (tt, there db found e))
    ];
  }

  module _ (serves : Serves) where
    save_cluster-Port :
        (t : ClusterTarget)
        → Port tables [] (save_cluster S t) (λ _. Unit) (λ _. cluster t.cluster_id ∷ [])
    unfolding save_cluster
    save_cluster-Port t = record {
      at = λ db i h. elim (Option-cases (S.clusters.find t.cluster_id db)) [
        | inl e ↦ rw (save_cluster, e) ((serves.clusters t).at db i h)
        | inr (found, e) ↦
            let (grows, _) = (serves.changes t.cluster_id _ (λ row. refl)).at db i h in
            rw (save_cluster, e)
              (
                grows,
                Known-fixed (cluster t.cluster_id ∷ []) _ _
                    (grows.kept (cluster t.cluster_id) (found, e), tt),
              )
      ];
    }

    save_query_run-Port :
        (q : QueryRun)
        → Port tables
            (cluster q.cluster_id ∷ [])
            (save_query_run S q)
            (λ _. Unit)
            (λ saved. query saved.query_run_id ∷ [])
    unfolding save_query_run
    save_query_run-Port q = record {
      at = λ db i h. elim (Option-cases (S.query_runs.find (key S q.query_run_id) db)) [
        | inl e ↦
            rw (save_query_run, e)
              ((then_pure-Port (λ x. query x.query_run_id ∷ [])
                  (S.query_runs.insert (query_row S q)) q (serves.query_runs q)).at
                db i h)
        | inr (found, e) ↦
            rw (save_query_run, e)
              (
                Grows-refl tables db,
                Known-loaded (S.query_codec.load_contract found.payload) db
                    (λ x loaded. (found, rw (serves.own db _ found x i e loaded) e)),
              )
      ];
    }

    save_evidence-Port :
        (e : EvidenceRef)
        → Port tables (query e.query_run_id ∷ []) (save_evidence S e) (λ _. Unit) (λ _. [])
    unfolding save_evidence
    save_evidence-Port e = record {
      at = λ db i h. elim (Option-cases (S.evidence_refs.find (key S e.evidence_id) db)) [
        | inl f ↦
            rw (save_evidence, f)
              ((then_pure-Port (λ _. []) (S.evidence_refs.insert (evidence_row S e)) e
                  (serves.evidence_refs e)).at
                db i h)
        | inr (found, f) ↦
            rw (save_evidence, f)
              (Grows-refl tables db, Known-any (S.evidence_codec.load_contract found.payload) db)
      ];
    }

    save_investigation-Port :
        (r : InvestigationRequest) (o : Option InvestigationResult)
        → Port tables [] (save_investigation S r o) (λ _. Unit) (λ _. [])
    unfolding save_investigation
    save_investigation-Port r o = record {
      at = λ db i h. elim (Option-cases (S.investigations.find (key S r.investigation_id) db)) [
        | inl e ↦ rw (save_investigation, e) ((serves.investigations _).at db i h)
        | inr (found, e) ↦
            rw (save_investigation, e) ((serves.investigation_changes _ _ (λ row. refl)).at db i h)
      ];
    }

  -- On a server whose inserts and updates keep the tables intact where the rows that they name
  -- are there, and whose query rows load as the run of their key: the methods of
  -- `ControlStateRepository` are what the theorem on the tables of an investigation asks of a
  -- repository. In an intact database each names only rows that its caller vouches for, keeps all
  -- rows, and where it returns, the cluster, the returned run or the diagnosis is there.
  pub repository-Saves : Serves → Saves (repository S) tables
  unfolding save_capability save_detection save_diagnosis save_recommendation list_query_history
  repository-Saves serves = record {
    clusters = save_cluster-Port serves;
    capabilities =
        λ p. insert_once-Port S.capability_profiles _ _ (serves.capabilities _) (λ db found e. tt);
    query_runs = save_query_run-Port serves;
    history = λ q. reads-Port _;
    evidence = save_evidence-Port serves;
    detections = λ d. insert_once-Port S.detections _ _ (serves.detections d) (λ db found e. tt);
    diagnoses =
        λ g. insert_once-Port S.diagnoses _ _ (serves.diagnoses g) (λ db found e. ((found, e), tt));
    recommendations =
        λ r. insert_once-Port S.recommendations _ _ (serves.recommendations r) (λ db found e. tt);
    investigations = save_investigation-Port serves;
  }
