-- ===== src/Detector/History.antt =====
-- What `detect` of src/yamazaki/slow_query.py reads of the history.
use mathlib.Core.List.{Perm, Permᴰ, Perm-prop}
use mathlib.Core.Logic.{∥∥₁_elim}
use mathlib.Core.List.Perm
use text.Mathlib.TextEquality.{eq_iff}
use yamazaki_incubator.Base.{
  ℕ, zero, suc, ◌+◌, ◌*◌, ◌-◌, ◌/◌, ◌≤◌, ◌<◌, ◌≡◌, ◌≢◌, refl, Bool, false, List, [], ◌∷◌, ◌++◌, map,
  arith, leb, ltb, length, keep, get_or, Bool-cases, inl, inr,
}
use yamazaki_incubator.Base.Result.{ok}
use yamazaki_incubator.Base.Sort.{
  sorted, sorted-perm, sorted-IsSorted, length-sorted, count-sorted, count_le, count_lt,
  count_le-get_or, count_lt-get_or,
}
use yamazaki_incubator.Numbers.{Floats}
use yamazaki_incubator.Contracts.{Uuid, QueryState, QueryRun, EvidenceRef}
use yamazaki_incubator.Detector.{detect}
use yamazaki_incubator.Detector.Stats.{index, p95_index, p95_of}
use yamazaki_incubator.Detector.Rules.{
  SlowQueryThresholds, same_group, comparable_durations, history_rule, findings,
}

-- The durations that a test selects.
abbrev selected : (QueryRun → Bool) → List QueryRun → List ℕ
selected test h = map (λ q. q.duration_ms) (keep test h)

selected-cons :
    (test : QueryRun → Bool) (a : QueryRun) (h k : List QueryRun)
    → Perm (selected test h) (selected test k)
    → Perm (selected test (a ∷ h)) (selected test (a ∷ k))
selected-cons test a h k p = elim (Bool-cases (test a)) [
  | inl t ↦ rw t (Perm.cons a.duration_ms p)
  | inr t ↦ rw t p
]

selected-swap :
    (test : QueryRun → Bool) (a b : QueryRun) (h : List QueryRun)
    → Perm (selected test (a ∷ b ∷ h)) (selected test (b ∷ a ∷ h))
selected-swap test a b h = elim (Bool-cases (test a)) [
  | inl s ↦ elim (Bool-cases (test b)) [
    | inl t ↦ rw (s, t) (Perm.swap b.duration_ms a.duration_ms (selected test h))
    | inr t ↦ rw (s, t) (Perm.refl (a.duration_ms ∷ selected test h))
  ]
  | inr s ↦ elim (Bool-cases (test b)) [
    | inl t ↦ rw (s, t) (Perm.refl (b.duration_ms ∷ selected test h))
    | inr t ↦ rw (s, t) (Perm.refl (selected test h))
  ]
]

selected-permᴰ :
    (test : QueryRun → Bool) {h k : List QueryRun}
    → Permᴰ h k
    → Perm (selected test h) (selected test k)
selected-permᴰ test Permᴰ.nil = Perm.refl []
selected-permᴰ test (Permᴰ.cons {a = a} {l₁ = l₁} {l₂ = l₂} e p) =
    rw (← e) (selected-cons test a l₁ l₂ (selected-permᴰ test p))
selected-permᴰ test (Permᴰ.swap {a = a} {b = b} {l = l} e f) =
    rw (← e, ← f) (selected-swap test a b l)
selected-permᴰ test (Permᴰ.trans p q) = Perm.trans (selected-permᴰ test p) (selected-permᴰ test q)

selected-perm :
    (test : QueryRun → Bool) {h k : List QueryRun}
    → Perm h k
    → Perm (selected test h) (selected test k)
selected-perm test {h} {k} p =
    ∥∥₁_elim p (Perm-prop {l₁ = selected test h} {l₂ = selected test k}) (selected-permᴰ test)

keep-skip :
    {A : Type 0} (test : A → Bool) (r : A) (h k : List A)
    → test r ≡ false
    → keep test (h ++ r ∷ k) ≡ keep test (h ++ k)
keep-skip test r [] k e = rw e
keep-skip test r (x ∷ h) k e = ground (arith, keep-skip test r h k e)

-- A run that the baseline of `query` does not count.
pub data IsForeign (query r : QueryRun) : Type 0 where
  other_cluster : r.cluster_id ≢ query.cluster_id → IsForeign query r
  other_fingerprint : r.native_fingerprint ≢ query.native_fingerprint → IsForeign query r
  itself : r.query_run_id ≡ query.query_run_id → IsForeign query r
  unsuccessful : r.state ≢ QueryState.succeeded → IsForeign query r

same_group-foreign : (query r : QueryRun) → IsForeign query r → same_group query r ≡ false
same_group-foreign query r (other_cluster h) = ground (arith, eq_iff r.cluster_id query.cluster_id)
same_group-foreign query r (other_fingerprint h) =
    ground (arith, eq_iff r.native_fingerprint query.native_fingerprint)
same_group-foreign query r (itself h) = ground arith
same_group-foreign query r (unsuccessful h) = ground arith

index-get_or : (d i : ℕ) (xs : List ℕ) → i < length xs → index xs i ≡ ok (get_or xs i d)
unfolding index
index-get_or d i [] h = absurd (omega arith)
index-get_or d zero (x ∷ xs) h = refl
index-get_or d (suc i) (x ∷ xs) h = index-get_or d i xs (omega arith)

-- For a history of at least one duration, the p95 of the sorted durations is a value that at
-- least 95% of them do not exceed, and less than 95% of them are smaller.
pub p95_of-sorted :
    (xs : List ℕ)
    → 0 < length xs
    → (v : ℕ) × (p95_of (sorted leb xs) ≡ ok v)
      × (95 * length xs ≤ 100 * count_le v xs)
      × (100 * count_lt v xs < 95 * length xs)
unfolding p95_of p95_index
p95_of-sorted xs h =
    let n = length xs in
    let i = (n * 95 + 99) / 100 - 1 in
    let v = get_or (sorted leb xs) i 0 in
    let inside : i < length (sorted leb xs) = omega (arith, length-sorted leb xs) in
    (
      v,
      rw (length-sorted leb xs) (index-get_or 0 i (sorted leb xs) inside),
      omega (
        arith,
        count_le-get_or 0 i (sorted leb xs) (sorted-IsSorted xs) inside,
        count-sorted leb (λ x. leb x v) xs,
      ),
      omega (
        arith,
        count_lt-get_or 0 i (sorted leb xs) (sorted-IsSorted xs) inside,
        count-sorted leb (λ x. ltb x v) xs,
      ),
    )

module _ (F : Floats) (T : SlowQueryThresholds) (id : Uuid) (query : QueryRun)
    (evidence : List EvidenceRef) (progress_snapshots : List QueryRun) where
  -- The order of the history does not matter: for two histories with the same runs, `detect`
  -- gives one outcome.
  pub detect-perm :
      {h k : List QueryRun}
      → Perm h k
      → detect F T id query h evidence progress_snapshots
        ≡ detect F T id query k evidence progress_snapshots
  unfolding detect findings history_rule comparable_durations
  detect-perm p = rw (sorted-perm (selected-perm (same_group query) p))

  -- A run of another cluster or fingerprint, a run that did not succeed, and the run itself have
  -- no influence on the outcome of `detect`, wherever they stand in the history.
  pub detect-foreign :
      (r : QueryRun) (h k : List QueryRun)
      → IsForeign query r
      → detect F T id query (h ++ r ∷ k) evidence progress_snapshots
        ≡ detect F T id query (h ++ k) evidence progress_snapshots
  unfolding detect findings history_rule comparable_durations
  detect-foreign r h k foreign =
      rw (keep-skip (same_group query) r h k (same_group-foreign query r foreign))
