-- ===== src/Normalization/Laws.antt =====
-- What `normalize_query` of src/yamazaki/normalization.py keeps of a raw record, and what it never
-- lets through.
use yamazaki_incubator.Base.{ℕ, ◌≡◌, refl, sym, ap, ◌∙◌, subst, Option, none, some, String, arith}
use yamazaki_incubator.Base.Result.{ok, ok-injective, >>=-returned}
use yamazaki_incubator.Base.Int.{ℤ, pos, negsuc, pos_part, ◌-ℤ◌, -ℤ_parts, eq_of_parts}
use yamazaki_incubator.Numbers.{Floats, Float}
use yamazaki_incubator.Json.{Platform}
use yamazaki_incubator.Redaction.{SqlGlot, RedactionResult, redact_sql}
use yamazaki_incubator.Redaction.Laws.{IsRedacted, redact_sql-IsRedacted}
use yamazaki_incubator.Engines.{RawQueryRecord}
use yamazaki_incubator.Normalization.{
  query_stable_id, assemble, normalize_query, text_or, dialect_of, native_of,
}
use yamazaki_incubator.Contracts.{
  Uuid, DateTime, utc_aware, instant, native_kind, EngineKind, QueryRun, Facts, non_negative,
  validate_query_run,
}

-- A metric as the engine gives it.
abbrev pub signed {ℓ} : {A : Type ℓ} → (A → ℤ) → Option A → Option ℤ
signed f none = none
signed f (some n) = some (f n)

non_negative-signed : (o : Option ℤ) (m : Option ℕ) → non_negative o ≡ ok m → o ≡ signed pos m
unfolding non_negative
non_negative-signed none m h = ap (signed pos) (ok-injective h)
non_negative-signed (some (pos n)) m h = ap (signed pos) (ok-injective h)
non_negative-signed (some (negsuc n)) m h = cc

minus_zero : (z : ℤ) → z -ℤ pos 0 ≡ z
minus_zero z = eq_of_parts _ z (omega (arith, -ℤ_parts z (pos 0)))

utc_aware-instant : (d : DateTime) → instant (utc_aware d) ≡ instant d
unfolding utc_aware instant
utc_aware-instant d = minus_zero _

abbrev in_utc_at : ℤ → DateTime
in_utc_at z = record { reading = z; offset = some (pos 0) }

-- Two spellings of an instant become one.
utc_aware-same : (d d' : DateTime) → instant d ≡ instant d' → utc_aware d ≡ utc_aware d'
unfolding utc_aware instant
utc_aware-same d d' h = ap in_utc_at h

module _ (F : Floats) where
  validate_query_run-eq : (q r : QueryRun) → validate_query_run F q ≡ ok r → q ≡ r
  unfolding validate_query_run
  validate_query_run-eq q r h = ground arith

module _ (P : Platform) (show_float : Float → String) (F : Floats) (G : SqlGlot) where
  native_of-kind :
      (engine : EngineKind) (id : String) (facts : Facts)
      → native_kind (native_of P show_float engine id facts) ≡ engine
  unfolding native_of
  native_of-kind EngineKind.clickhouse id facts = refl
  native_of-kind EngineKind.doris id facts = refl

  -- `q` says of an execution what the raw record `raw` says, less the text of the statement.
  pub record IsNormal (raw : RawQueryRecord) (q : QueryRun) : Type 0 where
    pub engine : q.engine ≡ raw.engine
    pub cluster : q.cluster_id ≡ raw.cluster_id
    pub kind : native_kind q.native ≡ raw.engine
    pub same_instant : instant q.started_at ≡ instant raw.started_at
    pub identity :
        q.query_run_id
        ≡ query_stable_id P show_float raw.engine raw.cluster_id raw.query_id
            (utc_aware raw.started_at)
    pub duration : q.duration_ms ≡ pos_part raw.duration_ms
    pub queue_time : raw.queue_time_ms ≡ signed pos q.queue_time_ms
    pub cpu_time : raw.cpu_time_ms ≡ signed pos q.cpu_time_ms
    pub peak_memory : raw.peak_memory_bytes ≡ signed pos q.peak_memory_bytes
    pub scanned : raw.scanned_rows ≡ signed pos q.scanned_rows
    pub returned : raw.returned_rows ≡ signed pos q.returned_rows
    pub shuffled : raw.shuffle_bytes ≡ signed pos q.shuffle_bytes
    pub spilled : raw.spill_bytes ≡ signed pos q.spill_bytes

  assemble-IsNormal :
      (now : DateTime) (correlation_id : Uuid) (raw : RawQueryRecord) (redaction : RedactionResult)
      (q : QueryRun)
      → assemble P show_float F G now correlation_id raw redaction ≡ ok q
      → IsNormal raw q × (q.redacted_structure ≡ redaction.structure)
  unfolding assemble
  assemble-IsNormal now correlation_id raw redaction q h =
      let (a, ea, ha) = >>=-returned (non_negative raw.queue_time_ms) _ h in
      let (b, eb, hb) = >>=-returned (non_negative raw.cpu_time_ms) _ ha in
      let (c, ec, hc) = >>=-returned (non_negative raw.peak_memory_bytes) _ hb in
      let (d, ed, hd) = >>=-returned (non_negative raw.scanned_rows) _ hc in
      let (e, ee, he) = >>=-returned (non_negative raw.returned_rows) _ hd in
      let (f, ef, hf) = >>=-returned (non_negative raw.shuffle_bytes) _ he in
      let (g, eg, hg) = >>=-returned (non_negative raw.spill_bytes) _ hf in
      subst (λ x. IsNormal raw x × (x.redacted_structure ≡ redaction.structure))
        (validate_query_run-eq F _ q hg)
        (
          record {
            engine = refl;
            cluster = refl;
            kind = native_of-kind raw.engine raw.query_id raw.native;
            same_instant = utc_aware-instant raw.started_at;
            identity = refl;
            duration = refl;
            queue_time = non_negative-signed raw.queue_time_ms a ea;
            cpu_time = non_negative-signed raw.cpu_time_ms b eb;
            peak_memory = non_negative-signed raw.peak_memory_bytes c ec;
            scanned = non_negative-signed raw.scanned_rows d ed;
            returned = non_negative-signed raw.returned_rows e ee;
            shuffled = non_negative-signed raw.shuffle_bytes f ef;
            spilled = non_negative-signed raw.spill_bytes g eg;
          },
          refl,
        )

  -- Where `normalize_query` returns a run, the run has the engine, the cluster and the start
  -- of the raw record, a native identity of that engine, the identifier of the attempt, the duration cut at
  -- 0, and the seven other metrics just as the engine gave them.
  pub normalize_query-IsNormal :
      (now : DateTime) (correlation_id : Uuid) (raw : RawQueryRecord) (q : QueryRun)
      → normalize_query P show_float F G now correlation_id raw ≡ ok q
      → IsNormal raw q
  unfolding normalize_query
  normalize_query-IsNormal now correlation_id raw q h =
      let (r, e, k) = >>=-returned (redact_sql G _ _) _ h in
      (assemble-IsNormal now correlation_id raw r q k).0

  -- Where `normalize_query` returns a run with a structure, that structure is redacted as
  -- `IsRedacted` says, from the text of the statement or the placeholder text where there is
  -- none.
  pub normalize_query-IsRedacted :
      (now : DateTime) (correlation_id : Uuid) (raw : RawQueryRecord) (q : QueryRun)
      (structure : String)
      → normalize_query P show_float F G now correlation_id raw ≡ ok q
      → q.redacted_structure ≡ some structure
      → IsRedacted G (text_or raw.raw_sql "SELECT identifier") (dialect_of raw.engine) structure
  unfolding normalize_query
  normalize_query-IsRedacted now correlation_id raw q structure h s =
      let (r, e, k) = >>=-returned (redact_sql G _ _) _ h in
      redact_sql-IsRedacted G _ _ r structure e
        (sym (assemble-IsNormal now correlation_id raw r q k).1 ∙ s)

  -- Two raw records with the same engine, cluster, engine query id and instant of the start,
  -- however spelled, get the same query run id where `normalize_query` returns for both,
  -- whatever was measured and when.
  pub normalize_query-same :
      (now now' : DateTime) (c c' : Uuid) (raw raw' : RawQueryRecord) (q q' : QueryRun)
      → raw.engine ≡ raw'.engine
      → raw.cluster_id ≡ raw'.cluster_id
      → raw.query_id ≡ raw'.query_id
      → instant raw.started_at ≡ instant raw'.started_at
      → normalize_query P show_float F G now c raw ≡ ok q
      → normalize_query P show_float F G now' c' raw' ≡ ok q'
      → q.query_run_id ≡ q'.query_run_id
  normalize_query-same now now' c c' raw raw' q q' e f g i h h' =
      let n = normalize_query-IsNormal now c raw q h in
      let n' = normalize_query-IsNormal now' c' raw' q' h' in
      cc (n.identity, n'.identity, e, f, g, utc_aware-same raw.started_at raw'.started_at i)
