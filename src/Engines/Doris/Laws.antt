-- ===== src/Engines/Doris/Laws.antt =====
-- What the adapter of src/yamazaki/engines/doris.py collects.
use yamazaki_incubator.Base.{
  ℕ, ◌≡◌, ◌≤◌, refl, subst, List, [], ◌∷◌, String, All, true, false, length, length-take, arith,
  some, Bool-cases, inl, inr, is_empty, take, Bool, string_eq,
}
use yamazaki_incubator.Base.Result.{ok, >>=-returned, ok-injective}
use yamazaki_incubator.Base.Exec.{Exec, lift, raise, pure, gets}
use yamazaki_incubator.Base.Ensures.{
  Ensures, Ensures-pure, Ensures-lift, Ensures-raise, Ensures-if, Ensures-bind, Ensures-then,
}
use yamazaki_incubator.Base.Int.{pos_part, scaled}
use yamazaki_incubator.Numbers.{Floats}
use yamazaki_incubator.Contracts.{EngineKind, DateTime}
use yamazaki_incubator.Engines.{RawQueryRecord, collector_marker}
use yamazaki_incubator.Engines.Cells.{
  Row, Casts, int_of, optional_int, clamped, item_of, datetime_of,
}
use yamazaki_incubator.Engines.Collected.{
  IsCollected, none-Passes, optional_int-Passes, clamped-pos,
}
use yamazaki_incubator.Engines.Doris.Statements.{processlist_sql, missing_columns, completed_sql}
use yamazaki_incubator.Engines.Doris.Rows.{
  running_record, running_records, completed_record, lowered, is_wanted,
}
use yamazaki_incubator.Engines.Doris.{
  DorisAdapter, DorisState, outside, asked, is_limit, ensure_probed, read_audit_log,
  completed_records, collect_running_queries, collect_completed_queries,
}

-- A statement of the collector, by the test of the loop.
abbrev pub is_own : Casts → String → Bool
is_own K statement = K.includes (K.lower statement) (K.lower collector_marker)

-- A statement is there, and it is not the collector's.
abbrev pub IsForeign : Casts → RawQueryRecord → Type 0
IsForeign K raw = (sql : String) × (raw.raw_sql ≡ some sql) × (is_own K sql ≡ false)

module _ (F : Floats) (K : Casts) where
  running_record-IsCollected :
      (cluster_id : String) (now : DateTime) (row : Row) (raw : RawQueryRecord)
      → running_record F K cluster_id now row ≡ ok raw
      → IsCollected EngineKind.doris cluster_id raw
  unfolding running_record
  running_record-IsCollected cluster_id now row raw h =
      let (elapsed, _, h1) = >>=-returned (int_of K _) _ h in
      subst (IsCollected EngineKind.doris cluster_id) (ok-injective h1) (record {
        of_engine = refl;
        of_cluster = refl;
        duration = (pos_part (scaled 1000 elapsed), refl);
        queue_time = none-Passes;
        cpu_time = none-Passes;
        peak_memory = none-Passes;
        scanned = none-Passes;
        returned = none-Passes;
        shuffled = none-Passes;
        spilled = none-Passes;
      })

  wanted-IsForeign :
      (username cluster_id : String) (now : DateTime) (row : Row) (raw : RawQueryRecord)
      → is_wanted F K username row ≡ true
      → running_record F K cluster_id now row ≡ ok raw
      → IsForeign K raw
  unfolding running_record
  wanted-IsForeign username cluster_id now row raw wanted h =
      let (elapsed, _, h1) = >>=-returned (int_of K _) _ h in
      subst (IsForeign K) (ok-injective h1) (_, refl, ground arith)

  -- The records are collected, foreign, and no more than the rows.
  abbrev RunningOf : (cluster_id : String) → ℕ → List RawQueryRecord → Type 0
  RunningOf cluster_id n records =
      All (λ raw. IsCollected EngineKind.doris cluster_id raw × IsForeign K raw) records
      × (length records ≤ n)

  running_records-RunningOf :
      (username cluster_id : String) (now : DateTime) (rows : List Row)
      (records : List RawQueryRecord)
      → running_records F K username cluster_id now rows ≡ ok records
      → RunningOf cluster_id (length rows) records
  unfolding running_records
  running_records-RunningOf username cluster_id now [] records h =
      subst (RunningOf cluster_id 0) (ok-injective h) (tt, omega arith)
  running_records-RunningOf username cluster_id now (original ∷ rows) records h =
      elim (Bool-cases (is_wanted F K username (lowered K original))) [
        | inl wanted ↦
            let h0 = (rw wanted at h) in
            let (made, e, h1) =
              >>=-returned (running_record F K cluster_id now (lowered K original)) _ h0 in
            let (others, e', h2) =
              >>=-returned (running_records F K username cluster_id now rows) _ h1 in
            let (those, bound) = running_records-RunningOf username cluster_id now rows others e' in
            let row = lowered K original in
            subst (RunningOf cluster_id _) (ok-injective h2) (
              (
                (
                  running_record-IsCollected cluster_id now row made e,
                  wanted-IsForeign username cluster_id now row made wanted e,
                ),
                those,
              ),
              omega arith,
            )
        | inr unwanted ↦
            let (those, bound) =
              running_records-RunningOf username cluster_id now rows records (rw unwanted at h) in
            (those, omega arith)
      ]

  completed_record-IsCollected :
      (cluster_id : String) (now : DateTime) (row : Row) (raw : RawQueryRecord)
      → completed_record F K cluster_id now row ≡ ok raw
      → IsCollected EngineKind.doris cluster_id raw
  unfolding completed_record
  completed_record-IsCollected cluster_id now row raw h =
      let (_, _, h1) = >>=-returned (item_of (lowered K row) "time") _ h in
      let (_, _, h2) = >>=-returned (datetime_of _) _ h1 in
      let (duration, ed, h3) = >>=-returned (clamped K _) _ h2 in
      let (_, _, h4) = >>=-returned (optional_int K _) _ h3 in
      let (_, _, h5) = >>=-returned (item_of (lowered K row) "query_id") _ h4 in
      let (cpu, ec, h6) = >>=-returned (optional_int K _) _ h5 in
      let (memory, em, h7) = >>=-returned (optional_int K _) _ h6 in
      let (scanned, es, h8) = >>=-returned (optional_int K _) _ h7 in
      let (returned, er, h9) = >>=-returned (optional_int K _) _ h8 in
      let (shuffled, ef, h10) = >>=-returned (optional_int K _) _ h9 in
      let (spilled, ep, h11) = >>=-returned (optional_int K _) _ h10 in
      subst (IsCollected EngineKind.doris cluster_id) (ok-injective h11) (record {
        of_engine = refl;
        of_cluster = refl;
        duration = clamped-pos K _ duration ed;
        queue_time = none-Passes;
        cpu_time = optional_int-Passes K _ cpu ec;
        peak_memory = optional_int-Passes K _ memory em;
        scanned = optional_int-Passes K _ scanned es;
        returned = optional_int-Passes K _ returned er;
        shuffled = optional_int-Passes K _ shuffled ef;
        spilled = optional_int-Passes K _ spilled ep;
      })

  module _ {W : Type 0} where
    abbrev Collects : DorisAdapter W → Exec (DorisState W) (List RawQueryRecord) → Type 0
    Collects adapter m = Ensures m (All (IsCollected EngineKind.doris adapter.target.cluster_id))

    completed_records-Collects :
        (adapter : DorisAdapter W) (found : List Row)
        → Collects adapter (completed_records F K adapter found)
    unfolding completed_records
    completed_records-Collects adapter [] = Ensures-pure [] tt
    completed_records-Collects adapter (row ∷ found) = Ensures-then (asked adapter.now) _ λ now.
        Ensures-bind (IsCollected EngineKind.doris adapter.target.cluster_id)
          (lift (completed_record F K adapter.target.cluster_id now row)) _
          (Ensures-lift (completed_record F K adapter.target.cluster_id now row)
            (completed_record-IsCollected adapter.target.cluster_id now row))
          λ made h.
            Ensures-bind (All (IsCollected EngineKind.doris adapter.target.cluster_id))
              (completed_records F K adapter found) _ (completed_records-Collects adapter found)
              λ others k. Ensures-pure (made ∷ others) (h, k)

    completed-Collects :
        (adapter : DorisAdapter W) (a b : DateTime) (limit : ℕ)
        → Collects adapter (collect_completed_queries F K adapter a b limit)
    unfolding collect_completed_queries read_audit_log
    completed-Collects adapter a b limit =
        Ensures-if (is_limit limit) _ (raise "ValueError")
          (λ _. Ensures-then (gets DorisState.audit_columns) _ λ before.
            Ensures-then (ensure_probed F K adapter before) _ λ _.
              Ensures-then (gets DorisState.audit_columns) _ λ columns.
                Ensures-if (is_empty (missing_columns columns))
                  (read_audit_log F K adapter columns a b limit) (pure [])
                  (λ _.
                    Ensures-then (outside (adapter.executor.query (completed_sql columns limit) _))
                      _ λ found. completed_records-Collects adapter found)
                  (λ _. Ensures-pure [] tt))
          (λ _. Ensures-raise "ValueError")

    running-RunningOf :
        (adapter : DorisAdapter W) (limit : ℕ)
        → Ensures
            (collect_running_queries F K adapter limit)
            (RunningOf adapter.target.cluster_id limit)
    unfolding collect_running_queries
    running-RunningOf adapter limit =
        Ensures-if (is_limit limit) _ (raise "ValueError")
          (λ _. Ensures-then (outside (adapter.executor.query processlist_sql [])) _ λ found.
            Ensures-then (asked adapter.now) _ λ now.
              Ensures-lift
                (running_records F K adapter.username adapter.target.cluster_id now
                  (take limit found))
                λ records e.
                  let (those, bound) =
                    running_records-RunningOf adapter.username adapter.target.cluster_id now
                      (take limit found) records e in
                  (those, omega (arith, bound, length-take limit found)))
          (λ _. Ensures-raise "ValueError")

    -- `collect_running_queries` of the Doris adapter returns at most `limit` records, each of
    -- Doris and of the target's cluster with metrics that the contract accepts, and each with a
    -- statement that does not contain the collector's marker.
    pub collect_running_queries-bounds :
        (adapter : DorisAdapter W) (limit : ℕ) (s : DorisState W) (records : List RawQueryRecord)
        → (collect_running_queries F K adapter limit s).0 ≡ ok records
        → All
            (λ raw. IsCollected EngineKind.doris adapter.target.cluster_id raw × IsForeign K raw)
            records
          × (length records ≤ limit)
    collect_running_queries-bounds adapter limit s records h =
        (running-RunningOf adapter limit).at s records h

    -- Each record that `collect_completed_queries` of the Doris adapter returns is of Doris and
    -- of the target's cluster, and its duration and each of its metrics passes the check of the
    -- contract, whatever the server sends.
    pub collect_completed_queries-IsCollected :
        (adapter : DorisAdapter W) (a b : DateTime) (limit : ℕ) (s : DorisState W)
        → (records : List RawQueryRecord)
        → (collect_completed_queries F K adapter a b limit s).0 ≡ ok records
        → All (IsCollected EngineKind.doris adapter.target.cluster_id) records
    collect_completed_queries-IsCollected adapter a b limit s records h =
        (completed-Collects adapter a b limit).at s records h
