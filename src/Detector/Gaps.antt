-- ===== src/Detector/Gaps.antt =====
-- The gaps that `SlowQueryDetector.detect` of src/yamazaki/slow_query.py lists.
use yamazaki_incubator.Base.{
  ℕ, ◌≤◌, ◌≡◌, ◌⊎◌, inl, inr, refl, true, Option, none, some, List, [], ◌∷◌, ◌++◌, String, arith,
  ltb, length, Bool-cases, string_eq,
}
use yamazaki_incubator.Base.Result.{ok, ok-injective, >>=-returned}
use yamazaki_incubator.Base.Unique.{all_different}
use yamazaki_incubator.Numbers.{Floats}
use yamazaki_incubator.Contracts.{QueryRun, rule, statistical}
use yamazaki_incubator.Detector.Decision.{findings-split, query_rules-split}
use yamazaki_incubator.Detector.Blocks.{Appends-gaps, crossed-Appends}
use yamazaki_incubator.Detector.Signals.{regression_rules-split}
use yamazaki_incubator.Detector.Rules.{
  SlowQueryThresholds, Findings, crossed, duration_rule, queue_rule, memory_rule, scan_rule,
  scanned_rule, amplification_rule, comparable_durations, history_rule, stagnation_rule,
  query_rules, findings,
}

abbrev HistoryGap : List String → Type 0
HistoryGap gaps = (gaps ≡ []) ⊎ (gaps ≡ "history_baseline_insufficient" ∷ [])

-- The gaps never repeat, and at most four can be open at once.
abbrev pub GapsFit : List String → Type 0
GapsFit gaps = (all_different gaps ≡ true) × (length gaps ≤ 4)

-- No name, or this one.
abbrev AtMost : String → List String → Type 0
AtMost name gaps = (gaps ≡ []) ⊎ (gaps ≡ name ∷ [])

names-GapsFit :
    (queue memory scan past : List String)
    → AtMost "queue_time_unavailable" queue
    → AtMost "peak_memory_unavailable" memory
    → AtMost "scanned_rows_unavailable" scan ⊎ AtMost "returned_rows_unavailable" scan
    → HistoryGap past
    → GapsFit ((queue ++ (memory ++ scan)) ++ (past ++ []))
unfolding all_different
names-GapsFit queue memory scan past h k l m = ground arith

module _ (F : Floats) where
  module _ (T : SlowQueryThresholds) (query : QueryRun) where
    stagnation_gaps : (snapshots : List QueryRun) → (stagnation_rule F T query snapshots).gaps ≡ []
    unfolding stagnation_rule
    stagnation_gaps snapshots = ground arith

    history_rule-HistoryGap :
        (history : List QueryRun) (found : Findings)
        → history_rule F T query history ≡ ok found
        → HistoryGap found.gaps
    unfolding history_rule
    history_rule-HistoryGap history found h =
        let durations = comparable_durations F T query history in
        elim (Bool-cases (ltb (length durations) T.baseline_samples)) [
          | inl few ↦ rw (← ok-injective (rw few at h)) (inr refl)
          | inr enough ↦
              let (a, b, p, q, e) =
                regression_rules-split F T query durations found (rw enough at h) in
              rw
                (
                  ← e,
                  Appends-gaps F "p95_regression" statistical a p,
                  Appends-gaps F "mad_regression" statistical b q,
                )
                (inl refl)
        ]

    -- A block has no gap, or the one of this name.
    abbrev OpensOnly : String → Findings → Type 0
    OpensOnly name found = AtMost name found.gaps

    crossed-gaps :
        (code : String) (value limit : ℕ) (found : Findings)
        → crossed F code value limit ≡ ok found
        → found.gaps ≡ []
    crossed-gaps code value limit found h =
        Appends-gaps F code rule found (crossed-Appends F T query code value limit found h)

    queue_rule-OpensOnly :
        (v : Option ℕ) (found : Findings)
        → queue_rule F T query v ≡ ok found
        → OpensOnly "queue_time_unavailable" found
    unfolding queue_rule
    queue_rule-OpensOnly none found h = rw (← ok-injective h) (inr refl)
    queue_rule-OpensOnly (some value) found h =
        inl (crossed-gaps "queue_time_threshold" value T.queue_time_ms found h)

    memory_rule-OpensOnly :
        (v : Option ℕ) (found : Findings)
        → memory_rule F T query v ≡ ok found
        → OpensOnly "peak_memory_unavailable" found
    unfolding memory_rule
    memory_rule-OpensOnly none found h = rw (← ok-injective h) (inr refl)
    memory_rule-OpensOnly (some value) found h =
        inl (crossed-gaps "memory_threshold" value T.peak_memory_bytes found h)

    amplification_rule-OpensOnly :
        (n : ℕ) (v : Option ℕ) (found : Findings)
        → amplification_rule F T query n v ≡ ok found
        → OpensOnly "returned_rows_unavailable" found
    unfolding amplification_rule
    amplification_rule-OpensOnly n none found h = rw (← ok-injective h) (inr refl)
    amplification_rule-OpensOnly n (some m) found h = elim (Bool-cases (ltb 0 m)) [
      | inl e ↦
          let (amplification, _, h1) = >>=-returned (F.int_div n m) _ (rw e at h) in
          rw (← ok-injective h1) (ground arith)
      | inr e ↦ rw (← ok-injective (rw e at h)) (inl refl)
    ]

    scan_rule-OpensOnly :
        (n m : Option ℕ) (found : Findings)
        → scan_rule F T query n m ≡ ok found
        → OpensOnly "scanned_rows_unavailable" found ⊎ OpensOnly "returned_rows_unavailable" found
    unfolding scan_rule scanned_rule
    scan_rule-OpensOnly none m found h = inl (rw (← ok-injective h) (inr refl))
    scan_rule-OpensOnly (some n) m found h =
        let (crossing, e, h1) =
          >>=-returned (crossed F "scanned_rows_threshold" n T.scanned_rows) _ h in
        let (amplification, f, h2) = >>=-returned (amplification_rule F T query n m) _ h1 in
        inr (
          rw (← ok-injective h2, crossed-gaps "scanned_rows_threshold" n T.scanned_rows crossing e)
            (amplification_rule-OpensOnly n m amplification f))

    query_rules-GapsFit :
        (own : Findings) (gaps : List String)
        → query_rules F T query ≡ ok own
        → HistoryGap gaps
        → GapsFit (own.gaps ++ (gaps ++ []))
    unfolding duration_rule
    query_rules-GapsFit own gaps h past =
        let (duration, queue, memory, scan, a, b, c, d, same) = query_rules-split F T query own h in
        rw (same, crossed-gaps "duration_threshold" query.duration_ms T.duration_ms duration a)
          (names-GapsFit queue.gaps memory.gaps scan.gaps gaps
            (queue_rule-OpensOnly query.queue_time_ms queue b)
            (memory_rule-OpensOnly query.peak_memory_bytes memory c)
            (scan_rule-OpensOnly query.scanned_rows query.returned_rows scan d) past)

    pub findings-GapsFit :
        (history snapshots : List QueryRun) (found : Findings)
        → findings F T query history snapshots ≡ ok found
        → GapsFit found.gaps
    findings-GapsFit history snapshots found h =
        let (own, d, r, e, same) = findings-split F T query history snapshots found h in
        rw (same, stagnation_gaps snapshots)
          (query_rules-GapsFit own r.gaps d (history_rule-HistoryGap history r e))
