-- ===== src/Persistence/Clearing.antt =====
-- `clear_for_tests` of src/yamazaki/persistence.py and the foreign keys of its metadata: a row that
-- another row names cannot be deleted.
use yamazaki_incubator.Base.{
  ℕ, ◌≡◌, ◌≢◌, refl, ◌∙◌, Bool, true, false, ◌||◌, List, [], ◌∷◌, map, String, all, All, keep, ◌==◌,
  string_eq, Bool-cases, inl, inr,
}
use yamazaki_incubator.Base.Result.{ok}
use yamazaki_incubator.Base.Exec.{Exec, ◌>>◌}
use yamazaki_incubator.Schema.{refers_to}
use yamazaki_incubator.Schema.Tables.{DeclaredTable, metadata, schema_of}
use yamazaki_incubator.Persistence.{Server, clear_for_tests}

-- The tables with a foreign key to a table.
abbrev pub referrers : String → List String
referrers name = map DeclaredTable.name (keep (λ t. refers_to name (schema_of metadata t)) metadata)

abbrev pub names : List String
names = map DeclaredTable.name metadata

-- The last table that is cleared comes first.
abbrev cleared_names : List String
cleared_names =
    "clusters" ∷ "investigations" ∷ "capability_profiles" ∷ "query_runs" ∷ "evidence_refs"
    ∷ "detections" ∷ "diagnoses" ∷ "recommendations" ∷ []

-- `n in ns`
abbrev is_in : List String → String → Bool
is_in [] n = false
is_in (m ∷ ns) n = m == n || is_in ns n

module _ {DB : Type 0} (count : String → DB → ℕ) where
  -- These tables have no rows.
  abbrev pub Empty : List String → DB → Type 0
  Empty ns db = All (λ n. count n db ≡ 0) ns

  -- `delete(table)`: with no rows left in the tables that refer to this one it returns, and the
  -- table, and no other, is empty.
  pub record Deletes (name : String) (delete : Exec DB (Unit {0})) : Type 0 where
    pub deletes :
        (db : DB)
        → Empty (referrers name) db
        → ((delete db).0 ≡ ok tt) × (count name (delete db).1 ≡ 0)
    pub keeps : (db : DB) (n : String) → n ≢ name → count n (delete db).1 ≡ count n db

  pub record ServerDeletes {Payload : Type 0} (S : Server Payload DB) : Type 0 where
    pub clusters : Deletes "clusters" S.clusters.delete
    pub capability_profiles : Deletes "capability_profiles" S.capability_profiles.delete
    pub query_runs : Deletes "query_runs" S.query_runs.delete
    pub evidence_refs : Deletes "evidence_refs" S.evidence_refs.delete
    pub detections : Deletes "detections" S.detections.delete
    pub diagnoses : Deletes "diagnoses" S.diagnoses.delete
    pub recommendations : Deletes "recommendations" S.recommendations.delete
    pub investigations : Deletes "investigations" S.investigations.delete

  is_in-Empty :
      (ns : List String) (n : String) (db : DB) → Empty ns db → is_in ns n ≡ true → count n db ≡ 0
  is_in-Empty [] n db empty h = cc h
  is_in-Empty (m ∷ ns) n db empty h = elim (Bool-cases (string_eq.same m n)) [
    | inl b ↦ rw (← ((string_eq.same_iff m n).0 b)) empty.0
    | inr b ↦ is_in-Empty ns n db empty.1 (rw b at h)
  ]

  all-is_in-Empty :
      (ns ms : List String) (db : DB) → Empty ns db → all (is_in ns) ms ≡ true → Empty ms db
  all-is_in-Empty ns [] db empty h = tt
  all-is_in-Empty ns (m ∷ ms) db empty h = elim (Bool-cases (is_in ns m)) [
    | inl b ↦ (is_in-Empty ns m db empty b, all-is_in-Empty ns ms db empty (rw b at h))
    | inr b ↦ cc (rw b at h)
  ]

  Empty-kept :
      (ns : List String) (name : String) (delete : Exec DB (Unit {0})) (db : DB)
      → Deletes name delete
      → count name (delete db).1 ≡ 0
      → Empty ns db
      → Empty ns (delete db).1
  Empty-kept [] name delete db law gone empty = tt
  Empty-kept (n ∷ ns) name delete db law gone empty =
      (still, Empty-kept ns name delete db law gone empty.1)
    where
      still : count n (delete db).1 ≡ 0
      still = elim (Bool-cases (string_eq.same n name)) [
        | inl b ↦ rw ((string_eq.same_iff n name).0 b) gone
        | inr b ↦ law.keeps db n (λ e. cc ((string_eq.same_iff n name).1 e, b)) ∙ empty.0
      ]

  -- From a state with these tables empty the statement returns, and then those are.
  record Clears (before after : List String) (m : Exec DB (Unit {0})) : Type 0 where
    at : (db : DB) → Empty before db → ((m db).0 ≡ ok tt) × Empty after (m db).1

  delete-Clears :
      {ns : List String} {name : String} {delete : Exec DB (Unit {0})}
      → Deletes name delete
      → all (is_in ns) (referrers name) ≡ true
      → Clears ns (name ∷ ns) delete
  delete-Clears {ns} {name} {delete} law h = record {
    at = λ db empty.
        let (returned, gone) = law.deletes db (all-is_in-Empty ns (referrers name) db empty h) in
        (returned, (gone, Empty-kept ns name delete db law gone empty));
  }

  then-Clears :
      {a b c : List String} {m n : Exec DB (Unit {0})}
      → Clears a b m
      → Clears b c n
      → Clears a c (m >> n)
  then-Clears first next = record {
    at = λ db empty. let (returned, cleared) = first.at db empty in rw returned (next.at _ cleared);
  }

  module _ {Payload : Type 0} (S : Server Payload DB) where
    -- On a server that deletes the rows of a table if no table that refers to it has rows, and
    -- leaves the other tables alone, `clear_for_tests` returns, and each of the eight tables is
    -- empty then.
    pub clear_for_tests-Empty :
        (db : DB)
        → ServerDeletes S
        → ((clear_for_tests S db).0 ≡ ok tt) × Empty names (clear_for_tests S db).1
    unfolding clear_for_tests
    clear_for_tests-Empty db law =
        let (returned, cleared) = cleared_in_order.at db tt in
        (returned, all-is_in-Empty cleared_names names _ cleared refl)
      where
        cleared_in_order : Clears [] cleared_names (clear_for_tests S)
        cleared_in_order = then-Clears (delete-Clears law.recommendations refl) (
            then-Clears (delete-Clears law.diagnoses refl) (
              then-Clears (delete-Clears law.detections refl) (
                then-Clears (delete-Clears law.evidence_refs refl) (
                  then-Clears (delete-Clears law.query_runs refl) (
                    then-Clears (delete-Clears law.capability_profiles refl) (
                      then-Clears (delete-Clears law.investigations refl)
                        (delete-Clears law.clusters refl)))))))
