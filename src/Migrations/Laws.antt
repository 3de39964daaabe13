-- ===== src/Migrations/Laws.antt =====
-- The migration of alembic/versions/0001_control_state.py against the metadata of
-- src/yamazaki/persistence.py, and against itself.
use mathlib.Core.List.{Perm, Permᴰ}
use mathlib.Core.List.Permᴰ
use yamazaki_incubator.Base.{
  ◌≡◌, refl, ◌∙◌, Option, none, some, List, [], ◌∷◌, ◌++◌, map, Option-cases, inl, inr,
}
use yamazaki_incubator.Base.Result.{ok}
use yamazaki_incubator.Base.Exec.{◌>>◌}
use yamazaki_incubator.Schema.{Catalog, Operation, apply, apply_all}
use yamazaki_incubator.Schema.Tables.{
  DeclaredTable, metadata, schema_of, clusters_table, investigations_table,
  capability_profiles_table, query_runs_table, evidence_refs_table, detections_table,
  diagnoses_table, recommendations_table,
}
use yamazaki_incubator.Migrations.{
  Op, execute, execute_all, upgrade, downgrade, upgrade_statements, downgrade_statements,
}

some-injective : {A : Type 0} {a b : A} → some a ≡ some b → a ≡ b
some-injective h = cc

-- The schemas of the metadata, in the order in which the migration creates them.
abbrev migrated : Catalog
migrated = map (schema_of metadata) (
    clusters_table ∷ investigations_table ∷ capability_profiles_table ∷ query_runs_table
    ∷ evidence_refs_table ∷ detections_table ∷ diagnoses_table ∷ recommendations_table ∷ [])

upgrade_statements-migrated : apply_all upgrade_statements [] ≡ some migrated
unfolding apply_all upgrade_statements yamazaki_incubator.Base.Text.join
upgrade_statements-migrated = refl

downgrade_statements-migrated : apply_all downgrade_statements migrated ≡ some []
unfolding apply_all downgrade_statements
downgrade_statements-migrated = refl

migrated-perm : Perm migrated (map (schema_of metadata) metadata)
migrated-perm =
    ∣ Permᴰ.cons refl (Permᴰ.symm (Permᴰ.middle _ (map (schema_of metadata) rest) [])) ∣₁
  where
    rest : List DeclaredTable
    rest =
        capability_profiles_table ∷ query_runs_table ∷ evidence_refs_table ∷ detections_table
        ∷ diagnoses_table ∷ recommendations_table ∷ []

module _ {DB : Type 0} (op : Op DB) (tables : DB → Catalog) where
  -- What a server documents of these statements: where nothing is in the way of one, it returns and
  -- has done what it says. `tables` are those beside Alembic's own.
  pub record Obeys : Type 0 where
    pub returns :
        (o : Operation) (db : DB) (c : Catalog)
        → apply o (tables db) ≡ some c
        → ((execute op o db).0 ≡ ok tt) × (tables (execute op o db).1 ≡ c)

  execute_all-apply_all :
      (os : List Operation) (db : DB) (c : Catalog)
      → Obeys
      → apply_all os (tables db) ≡ some c
      → ((execute_all op os db).0 ≡ ok tt) × (tables (execute_all op os db).1 ≡ c)
  unfolding execute_all apply_all
  execute_all-apply_all [] db c obeys h = (refl, some-injective h)
  execute_all-apply_all (o ∷ os) db c obeys h = elim (Option-cases (apply o (tables db))) [
    | inl e ↦ cc (rw (apply_all, e) at h)
    | inr (c', e) ↦
        let (returned, view) = obeys.returns o db c' e in
        rw (execute_all, returned)
          (execute_all-apply_all os (execute op o db).1 c obeys (rw view (rw (apply_all, e) at h)))
  ]

  upgrade-migrated :
      (db : DB)
      → Obeys
      → tables db ≡ []
      → ((upgrade op db).0 ≡ ok tt) × (tables (upgrade op db).1 ≡ migrated)
  upgrade-migrated db obeys empty =
      execute_all-apply_all upgrade_statements db migrated obeys
        (rw empty upgrade_statements-migrated)

  -- On a server that does what a statement says where nothing is in its way, `upgrade` on a
  -- database without tables returns. The tables are then, up to their order, those that the
  -- metadata of the repository declares, with columns, keys, constraints and indexes.
  pub upgrade-metadata :
      (db : DB)
      → Obeys
      → tables db ≡ []
      → ((upgrade op db).0 ≡ ok tt)
        × Perm (tables (upgrade op db).1) (map (schema_of metadata) metadata)
  upgrade-metadata db obeys empty =
      let (returned, view) = upgrade-migrated db obeys empty in (returned, rw view migrated-perm)

  -- On a server that does what a statement says where nothing is in its way, `upgrade` and then
  -- `downgrade` return on a database without tables, and leave none.
  pub downgrade-upgrade :
      (db : DB)
      → Obeys
      → tables db ≡ []
      → (((upgrade op >> downgrade op) db).0 ≡ ok tt)
        × (tables ((upgrade op >> downgrade op) db).1 ≡ [])
  downgrade-upgrade db obeys empty =
      let (returned, view) = upgrade-migrated db obeys empty in
      rw returned (
        execute_all-apply_all downgrade_statements (upgrade op db).1 [] obeys
          (rw view downgrade_statements-migrated))
