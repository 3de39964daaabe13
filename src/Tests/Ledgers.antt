-- ===== src/Tests/Ledgers.antt =====
-- An investigation over a ledger: the rows that are there, and whether each statement so far named
-- rows that were.
use yamazaki_incubator.Base.{
  ◌+◌, ◌≡◌, refl, Bool, true, false, ◌||◌, none, List, [], ◌∷◌, ◌++◌, all, nat_eq, string_eq, ◌==◌,
  ==-refl, subst, if◌then◌else◌, Bool-cases, inl, inr, some,
}
use yamazaki_incubator.Base.Result.{ok, raised}
use yamazaki_incubator.Base.Exec.{Exec}
use yamazaki_incubator.Contracts.{Uuid}
use yamazaki_incubator.Ports.{EngineAdapter, ControlStateRepository, Environment}
use yamazaki_incubator.Coordinator.{Config, get_adapter, investigate}
use yamazaki_incubator.Coordinator.Rows.{
  Tables, RowKey, cluster, query, diagnosis, HasAll, Port, Grows,
}
use yamazaki_incubator.Coordinator.References.{Saves, OwnCluster, Surroundings}
use yamazaki_incubator.Coordinator.Integrity.{investigate-Intact}
use yamazaki_incubator.Detector.Rules.{default_thresholds}
use yamazaki_incubator.Tests.Parameters.{hundredths, platform, sqlglot}
use yamazaki_incubator.Tests.Samples.{later, raw_query, raw_evidence, prod, capability, request}

record Ledger : Type 0 where
  rows : List RowKey
  intact : Bool
  next : Uuid

abbrev same_row : RowKey → RowKey → Bool
same_row (cluster i) (cluster j) = i == j
same_row (query i) (query j) = i == j
same_row (diagnosis i) (diagnosis j) = i == j
same_row _ _ = false

abbrev in_rows : RowKey → List RowKey → Bool
in_rows r [] = false
in_rows r (x ∷ rows) = same_row x r || in_rows r rows

abbrev tables : Tables Ledger
tables = record { Intact = λ l. l.intact ≡ true; Has = λ r l. in_rows r l.rows ≡ true }

-- A statement that names `needs` and, if they are there, adds `news`.
abbrev store : {A : Type 0} → (needs news : List RowKey) → A → Exec Ledger A
store needs news a l =
    if all (λ r. in_rows r l.rows) needs
    then (ok a, record l { rows = news ++ l.rows })
    else (raised "IntegrityError", record l { intact = false })

abbrev answer : {A : Type 0} → A → Exec Ledger A
answer a = store [] [] a

abbrev repository : ControlStateRepository Ledger
repository = record {
  save_cluster = λ t. store [] (cluster t.cluster_id ∷ []) tt;
  save_capability = λ p. store (cluster p.cluster_id ∷ []) [] tt;
  save_query_run = λ q. store (cluster q.cluster_id ∷ []) (query q.query_run_id ∷ []) q;
  list_query_history = λ q. answer [];
  save_evidence = λ e. store (query e.query_run_id ∷ []) [] e;
  save_detection = λ d. store (query d.query_run_id ∷ []) [] tt;
  save_diagnosis = λ g. store (query g.query_run_id ∷ []) (diagnosis g.diagnosis_id ∷ []) tt;
  save_recommendation = λ r. store (diagnosis r.diagnosis_id ∷ []) [] tt;
  save_investigation = λ r o. answer tt;
}

abbrev adapter : EngineAdapter Ledger
adapter = record {
  target = prod;
  probe_capabilities = answer capability;
  collect_running_queries = λ limit. answer [];
  collect_completed_queries = λ a b. answer (raw_query ∷ []);
  collect_query_evidence = λ id. answer raw_evidence;
}

abbrev environment : Environment Ledger
environment = record {
  write = λ id fields. answer ("file", "digest");
  cancelled = λ l. (false, l);
  monotonic = λ l. (0, l);
  utc_now = λ l. (later, l);
  uuid4 = λ l. (l.next, record l { next = l.next + 1 });
}

abbrev config : Config Ledger
config = record {
  F = hundredths;
  P = platform;
  G = sqlglot;
  show_float = λ _. "0.0";
  thresholds = default_thresholds hundredths;
  adapters = adapter ∷ [];
  repository = repository;
  agent = none;
  env = environment;
}

same_row_refl : (r : RowKey) → same_row r r ≡ true
same_row_refl (cluster i) = ==-refl i
same_row_refl (query i) = ==-refl i
same_row_refl (diagnosis i) = ==-refl i

in_rows-append :
    (r : RowKey) (news rows : List RowKey) → in_rows r rows ≡ true → in_rows r (news ++ rows) ≡ true
in_rows-append r [] rows h = h
in_rows-append r (x ∷ news) rows h = elim (Bool-cases (same_row x r)) [
  | inl b ↦ rw b refl
  | inr b ↦ rw b (in_rows-append r news rows h)
]

all_named :
    (needs : List RowKey) (l : Ledger)
    → HasAll tables needs l
    → all (λ r. in_rows r l.rows) needs ≡ true
all_named [] l h = refl
all_named (r ∷ needs) l h = rw (h.0, all_named needs l h.1) refl

in_rows-left :
    (r : RowKey) (news rows : List RowKey) → in_rows r news ≡ true → in_rows r (news ++ rows) ≡ true
in_rows-left r [] rows h = cc h
in_rows-left r (x ∷ news) rows h = elim (Bool-cases (same_row x r)) [
  | inl b ↦ rw b refl
  | inr b ↦ rw b (in_rows-left r news rows (rw b at h))
]

present :
    (news : List RowKey) (l : Ledger)
    → ((r : RowKey) → in_rows r news ≡ true → in_rows r l.rows ≡ true)
    → HasAll tables news l
present [] l h = tt
present (r ∷ news) l h = (
  h r (rw (same_row_refl r) refl),
  present news l (λ x k. h x (in_rows-append x (r ∷ []) news k)),
)

store-Port :
    {A : Type 0} (needs : List RowKey) (M : A → Type 0) (new : A → List RowKey) (a : A)
    → M a
    → Port tables needs (store needs (new a) a) M new
store-Port needs M new a m = record {
  at = λ l i k. rw (all_named needs l k) (
    record { intact = λ j. j; kept = λ r h. in_rows-append r (new a) l.rows h },
    (
      m,
      present (new a) (record l { rows = new a ++ l.rows })
          (λ r h. in_rows-left r (new a) l.rows h),
    ),
  );
}

saves : Saves repository tables
saves = record {
  clusters = λ t. store-Port [] _ _ tt tt;
  capabilities = λ p. store-Port _ _ _ tt tt;
  query_runs = λ q. store-Port _ _ _ q tt;
  history = λ q. store-Port [] _ _ _ tt;
  evidence = λ e. store-Port _ _ _ e tt;
  detections = λ d. store-Port _ _ _ tt tt;
  diagnoses = λ g. store-Port _ _ _ tt tt;
  recommendations = λ r. store-Port _ _ _ tt tt;
  investigations = λ r o. store-Port [] _ _ tt tt;
}

own_cluster : OwnCluster config tables adapter
own_cluster = record {
  capability = store-Port [] _ _ capability refl;
  completed = λ b e. store-Port [] _ _ (raw_query ∷ []) (refl, tt);
  running = store-Port [] _ _ [] tt;
  detail = λ id. store-Port [] _ _ raw_evidence tt;
}

quiet : (l l' : Ledger) → l'.rows ≡ l.rows → l'.intact ≡ l.intact → Grows tables l l'
quiet l l' e f = record { intact = λ i. rw f i; kept = λ r h. rw e h }

surroundings : Surroundings config tables
unfolding get_adapter
surroundings = record {
  saves = saves;
  adapters = λ id a e. elim (Bool-cases ("prod" == id)) [
    | inl b ↦ subst (OwnCluster config tables) (some-injective (rw b at e)) own_cluster
    | inr b ↦ cc (rw b at e)
  ];
  agents = λ a e q d b. cc e;
  write = λ id fields. store-Port [] _ _ ("file", "digest") tt;
  cancelled = λ l. quiet l l refl refl;
  monotonic = λ l. quiet l l refl refl;
  utc_now = λ l. quiet l l refl refl;
  uuid4 = λ l. quiet l (record l { next = l.next + 1 }) refl refl;
}
  where
    some-injective : {a b : EngineAdapter Ledger} → some a ≡ some b → a ≡ b
    some-injective e = cc

abbrev fresh : Ledger
fresh = record { rows = []; intact = true; next = 100 }

investigate-Intact_example : (investigate config request fresh).1.intact ≡ true
investigate-Intact_example = investigate-Intact config request tables fresh surroundings refl
