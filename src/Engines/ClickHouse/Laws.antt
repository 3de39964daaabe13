-- ===== src/Engines/ClickHouse/Laws.antt =====
-- What the adapter of src/yamazaki/engines/clickhouse.py collects, and what it sends.
use yamazaki_incubator.Base.{◌≡◌, refl, subst, List, [], ◌∷◌, String, ℕ, All}
use yamazaki_incubator.Base.Result.{ok, >>=-returned, ok-injective}
use yamazaki_incubator.Base.Exec.{Exec, lift, raise}
use yamazaki_incubator.Base.Ensures.{
  Ensures, Ensures-pure, Ensures-lift, Ensures-raise, Ensures-if, Ensures-bind, Ensures-then,
}
use yamazaki_incubator.Base.Int.{pos_part}
use yamazaki_incubator.Numbers.{Floats}
use yamazaki_incubator.Contracts.{EngineKind, DateTime}
use yamazaki_incubator.Engines.{RawQueryRecord}
use yamazaki_incubator.Engines.Cells.{
  Row, Casts, float_of, clamped, optional_int, item_of, datetime_of,
}
use yamazaki_incubator.Engines.Collected.{
  IsCollected, none-Passes, optional_int-Passes, clamped-pos, each_row-All,
}
use yamazaki_incubator.Engines.ClickHouse.Statements.{
  version_sql, capability_sql, running_sql, completed_sql, evidence_sql,
}
use yamazaki_incubator.Engines.ClickHouse.Rows.{running_record, completed_record, has_failed}
use yamazaki_incubator.Engines.ClickHouse.{
  ClickHouseAdapter, Parameter, number, time, string, Settings, read_only_settings, is_limit, rows,
  probe_capabilities, collect_running_queries, collect_completed_queries, collect_query_evidence,
  completed_records, asked,
}

-- The two collections of an adapter.
pub data Collection : Type 0 where
  running : (limit : ℕ) → Collection
  completed : (window_start window_end : DateTime) (limit : ℕ) → Collection

-- The five statements that the adapter may send.
abbrev pub fixed_statements : List String
fixed_statements = version_sql ∷ capability_sql ∷ running_sql ∷ completed_sql ∷ evidence_sql ∷ []

abbrev pub Query : Type 0 → Type 0
Query W = String → List (String × Parameter) → Settings → Exec W (List Row)

-- Two servers that answer the fixed statements alike, sent with read-only settings.
abbrev pub Agree : {W : Type 0} → Query W → Query W → Type 0
Agree q q' =
    All
      (λ sql.
        (parameters : List (String × Parameter))
        → q sql parameters read_only_settings ≡ q' sql parameters read_only_settings)
      fixed_statements

module _ (F : Floats) (K : Casts) where
  running_record-IsCollected :
      (cluster_id : String) (now : DateTime) (row : Row) (raw : RawQueryRecord)
      → running_record F K cluster_id now row ≡ ok raw
      → IsCollected EngineKind.clickhouse cluster_id raw
  unfolding running_record
  running_record-IsCollected cluster_id now row raw h =
      let (_, _, h1) = >>=-returned (float_of K _) _ h in
      let (_, _, h2) = >>=-returned (item_of row "query_id") _ h1 in
      let (_, _, h3) = >>=-returned (K.microseconds _) _ h2 in
      let (duration, _, h4) = >>=-returned (K.milliseconds _) _ h3 in
      let (memory, em, h5) = >>=-returned (optional_int K _) _ h4 in
      let (scanned, es, h6) = >>=-returned (optional_int K _) _ h5 in
      subst (IsCollected EngineKind.clickhouse cluster_id) (ok-injective h6) (record {
        of_engine = refl;
        of_cluster = refl;
        duration = (pos_part duration, refl);
        queue_time = none-Passes;
        cpu_time = none-Passes;
        peak_memory = optional_int-Passes K _ memory em;
        scanned = optional_int-Passes K _ scanned es;
        returned = none-Passes;
        shuffled = none-Passes;
        spilled = none-Passes;
      })

  completed_record-IsCollected :
      (cluster_id : String) (now : DateTime) (row : Row) (raw : RawQueryRecord)
      → completed_record F K cluster_id now row ≡ ok raw
      → IsCollected EngineKind.clickhouse cluster_id raw
  unfolding completed_record
  completed_record-IsCollected cluster_id now row raw h =
      let (_, _, h1) = >>=-returned (item_of row "query_start_time") _ h in
      let (_, _, h2) = >>=-returned (datetime_of _) _ h1 in
      let (_, _, h3) = >>=-returned (item_of row "event_time") _ h2 in
      let (_, _, h4) = >>=-returned (datetime_of _) _ h3 in
      let (_, _, h5) = >>=-returned (has_failed F K row) _ h4 in
      let (_, _, h6) = >>=-returned (item_of row "query_id") _ h5 in
      let (duration, ed, h7) = >>=-returned (clamped K _) _ h6 in
      let (memory, em, h8) = >>=-returned (optional_int K _) _ h7 in
      let (scanned, es, h9) = >>=-returned (optional_int K _) _ h8 in
      let (returned, er, h10) = >>=-returned (optional_int K _) _ h9 in
      subst (IsCollected EngineKind.clickhouse cluster_id) (ok-injective h10) (record {
        of_engine = refl;
        of_cluster = refl;
        duration = clamped-pos K _ duration ed;
        queue_time = none-Passes;
        cpu_time = none-Passes;
        peak_memory = optional_int-Passes K _ memory em;
        scanned = optional_int-Passes K _ scanned es;
        returned = optional_int-Passes K _ returned er;
        shuffled = none-Passes;
        spilled = none-Passes;
      })

  module _ {W : Type 0} where
    abbrev Collects : ClickHouseAdapter W → Exec W (List RawQueryRecord) → Type 0
    Collects adapter m =
        Ensures m (All (IsCollected EngineKind.clickhouse adapter.target.cluster_id))

    completed_records-Collects :
        (adapter : ClickHouseAdapter W) (found : List Row)
        → Collects adapter (completed_records F K adapter found)
    unfolding completed_records
    completed_records-Collects adapter [] = Ensures-pure [] tt
    completed_records-Collects adapter (row ∷ found) =
        Ensures-then (asked adapter.client.now) _ λ now.
          Ensures-bind (IsCollected EngineKind.clickhouse adapter.target.cluster_id)
            (lift (completed_record F K adapter.target.cluster_id now row)) _
            (Ensures-lift (completed_record F K adapter.target.cluster_id now row)
              (completed_record-IsCollected adapter.target.cluster_id now row))
            λ made h.
              Ensures-bind (All (IsCollected EngineKind.clickhouse adapter.target.cluster_id))
                (completed_records F K adapter found) _ (completed_records-Collects adapter found)
                λ others k. Ensures-pure (made ∷ others) (h, k)

    abbrev pub collect : ClickHouseAdapter W → Collection → Exec W (List RawQueryRecord)
    collect adapter (running limit) = collect_running_queries F K adapter limit
    collect adapter (completed a b limit) = collect_completed_queries F K adapter a b limit

    collect-Collects :
        (adapter : ClickHouseAdapter W) (c : Collection) → Collects adapter (collect adapter c)
    unfolding collect_running_queries collect_completed_queries
    collect-Collects adapter (running limit) =
        Ensures-if (is_limit limit) _ (raise "ValueError")
          (λ _. Ensures-then (asked adapter.client.now) _ λ now.
            Ensures-then (rows F K adapter running_sql (("limit", number limit) ∷ [])) _ λ found.
              Ensures-lift _ λ records e.
                each_row-All (IsCollected EngineKind.clickhouse adapter.target.cluster_id)
                  (running_record F K adapter.target.cluster_id now) found records
                  (running_record-IsCollected adapter.target.cluster_id now) e)
          (λ _. Ensures-raise "ValueError")
    collect-Collects adapter (completed a b limit) =
        Ensures-if (is_limit limit) _ (raise "ValueError")
          (λ _.
            Ensures-then
              (rows F K adapter completed_sql
                (("window_start", time a) ∷ ("window_end", time b) ∷ ("limit", number limit) ∷ []))
              _ λ found. completed_records-Collects adapter found)
          (λ _. Ensures-raise "ValueError")

    -- Each record that `collect_running_queries` or `collect_completed_queries` of the ClickHouse
    -- adapter returns is of ClickHouse and of the target's cluster, and its duration and each of
    -- its metrics passes the check of the contract, whatever the server sends.
    pub collect-IsCollected :
        (adapter : ClickHouseAdapter W) (c : Collection) (w : W) (records : List RawQueryRecord)
        → (collect adapter c w).0 ≡ ok records
        → All (IsCollected EngineKind.clickhouse adapter.target.cluster_id) records
    collect-IsCollected adapter c w records h = (collect-Collects adapter c).at w records h

    abbrev with_query : ClickHouseAdapter W → Query W → ClickHouseAdapter W
    with_query adapter query = record adapter { client = record adapter.client { query = query } }

    -- The ClickHouse adapter depends on its server through five fixed statements with read-only
    -- settings alone: with two servers that answer these alike, whatever the parameters, its four
    -- operations are equal.
    pub fixed_statements_lem :
        (adapter : ClickHouseAdapter W) (q q' : Query W)
        → Agree q q'
        → (probe_capabilities F K (with_query adapter q)
            ≡ probe_capabilities F K (with_query adapter q'))
          × ((limit : ℕ)
              → collect_running_queries F K (with_query adapter q) limit
                ≡ collect_running_queries F K (with_query adapter q') limit)
          × ((a b : DateTime) (limit : ℕ)
              → collect_completed_queries F K (with_query adapter q) a b limit
                ≡ collect_completed_queries F K (with_query adapter q') a b limit)
          × ((id : String)
              → collect_query_evidence F K (with_query adapter q) id
                ≡ collect_query_evidence F K (with_query adapter q') id)
    unfolding probe_capabilities collect_running_queries collect_completed_queries
        collect_query_evidence
    fixed_statements_lem adapter q q' agree = (
      rw (agree.0 [], agree.1.0 []),
      λ limit. rw (agree.1.1.0 (("limit", number limit) ∷ [])),
      λ a b limit. rw (
          agree.1.1.1.0
            (("window_start", time a) ∷ ("window_end", time b) ∷ ("limit", number limit) ∷ [])),
      λ id. rw (agree.1.1.1.1.0 (("query_id", string id) ∷ [])),
    )
