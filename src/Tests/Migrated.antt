-- ===== src/Tests/Migrated.antt =====
-- The theorems about the schema, on a server that is only its tables, and on one that is only the
-- number of rows of each table.
use yamazaki_incubator.Base.{
  ℕ, ◌≡◌, refl, ap, true, false, none, some, List, [], ◌∷◌, map, String, ◌==◌, string_eq, nat_beq,
  if◌then◌else◌, all, Bool-cases, inl, inr, ==-refl,
}
use mathlib.Core.List.{Perm}
use Prim.Native.Char.{Char}
use yamazaki_incubator.Base.Result.{Result, ok, raised}
use yamazaki_incubator.Base.Exec.{Exec, pure, ◌>>◌}
use yamazaki_incubator.Schema.{Catalog, Operation, create_table, create_index, drop_table, apply}
use yamazaki_incubator.Schema.Tables.{metadata, schema_of}
use yamazaki_incubator.Migrations.{Op, execute, upgrade, downgrade}
use yamazaki_incubator.Migrations.Laws.{Obeys, upgrade-metadata, downgrade-upgrade}
use yamazaki_incubator.Migrations.Env.{Alembic, Target, online, offline, run_env, is_percent}
use yamazaki_incubator.Migrations.Url.{
  Interpolates, Configured, run_env-url, migrate_at, with_option,
}
use yamazaki_incubator.Persistence.{Table, Server, clear_for_tests}
use yamazaki_incubator.Persistence.Clearing.{
  Empty, Deletes, referrers, names, clear_for_tests-Empty,
}
use yamazaki_incubator.Tests.Tables.{Payload, empty_server}

abbrev attempt : Operation → Exec Catalog (Unit {0})
attempt o catalog = elim (apply o catalog) [
  | none ↦ (raised "ProgrammingError", catalog)
  | some c ↦ (ok tt, c)
]

abbrev op : Op Catalog
op = record {
  create_table = λ t. attempt (create_table t);
  create_index = λ index table. attempt (create_index index table);
  drop_table = λ name. attempt (drop_table name);
}

op-attempt : (o : Operation) (db : Catalog) → execute op o db ≡ attempt o db
op-attempt (create_table t) db = refl
op-attempt (create_index index table) db = refl
op-attempt (drop_table name) db = refl

op-Obeys : Obeys op (λ catalog. catalog)
op-Obeys = record { returns = λ o db c e. rw (op-attempt o db, attempt, e) (refl, refl) }

upgrade-metadata_example :
    ((upgrade op []).0 ≡ ok tt) × Perm (upgrade op []).1 (map (schema_of metadata) metadata)
upgrade-metadata_example = upgrade-metadata op (λ catalog. catalog) [] op-Obeys refl

downgrade-upgrade_example :
    (((upgrade op >> downgrade op) []).0 ≡ ok tt) × (((upgrade op >> downgrade op) []).1 ≡ [])
downgrade-upgrade_example = downgrade-upgrade op (λ catalog. catalog) [] op-Obeys refl

-- The number of rows of each table.
abbrev Rows : Type 0
Rows = String → ℕ

abbrev count : String → Rows → ℕ
count n db = db n

-- Rows that others may name stay, and the statement fails.
abbrev delete_rows : String → Exec Rows (Unit {0})
delete_rows name db =
    if all (λ n. nat_beq (db n) 0) (referrers name)
    then (ok tt, λ n. if n == name then 0 else db n)
    else (raised "IntegrityError", db)

unreferenced :
    (ns : List String) (db : Rows) → Empty count ns db → all (λ n. nat_beq (db n) 0) ns ≡ true
unreferenced [] db empty = refl
unreferenced (n ∷ ns) db empty = rw (empty.0, unreferenced ns db empty.1) refl

delete_rows-Deletes : (name : String) → Deletes count name (delete_rows name)
delete_rows-Deletes name = record {
  deletes = λ db empty. rw (unreferenced (referrers name) db empty, ==-refl name) (refl, refl);
  keeps = λ db n other. elim (Bool-cases (all (λ m. nat_beq (db m) 0) (referrers name))) [
    | inl b ↦ elim (Bool-cases (n == name)) [
      | inl same ↦ absurd (other ((string_eq.same_iff n name).0 same))
      | inr differ ↦ rw (b, differ) refl
    ]
    | inr b ↦ rw b refl
  ];
}

abbrev counting : {Row : Type 0} → String → Table Rows Row
counting name = record {
  find = λ k db. none;
  insert = λ row. pure tt;
  change = λ k f. pure tt;
  delete = delete_rows name;
  select = λ n db. [];
  select_latest = λ where_ order_by n db. [];
}

abbrev counting_server : Server Payload Rows
counting_server = record empty_server {
  clusters = counting "clusters";
  capability_profiles = counting "capability_profiles";
  query_runs = counting "query_runs";
  evidence_refs = counting "evidence_refs";
  detections = counting "detections";
  diagnoses = counting "diagnoses";
  recommendations = counting "recommendations";
  investigations = counting "investigations";
}

clear_for_tests-Empty_example :
    ((clear_for_tests counting_server (λ n. 2)).0 ≡ ok tt)
    × Empty count names (clear_for_tests counting_server (λ n. 2)).1
clear_for_tests-Empty_example =
    clear_for_tests-Empty count counting_server (λ n. 2)
      (record {
        clusters = delete_rows-Deletes "clusters";
        capability_profiles = delete_rows-Deletes "capability_profiles";
        query_runs = delete_rows-Deletes "query_runs";
        evidence_refs = delete_rows-Deletes "evidence_refs";
        detections = delete_rows-Deletes "detections";
        diagnoses = delete_rows-Deletes "diagnoses";
        recommendations = delete_rows-Deletes "recommendations";
        investigations = delete_rows-Deletes "investigations";
      })

abbrev prefixed : Char → Result String → Result String
prefixed c (ok s) = ok (String.◌∷◌ c s)
prefixed c (raised e) = raised e

-- `ConfigParser`'s reading of a text
unfoldable interpolate : String → Result String
interpolate String.[] = ok String.[]
interpolate (String.◌∷◌ c String.[]) =
    if is_percent c then raised "InterpolationSyntaxError" else ok (String.◌∷◌ c String.[])
interpolate (String.◌∷◌ c (String.◌∷◌ d s)) =
    let tail = interpolate (String.◌∷◌ d s) in
    let rest = interpolate s in
    if is_percent c
    then (if is_percent d then prefixed c rest else raised "InterpolationSyntaxError")
    else prefixed c tail

interpolate-plain :
    (c : Char) (s t : String)
    → is_percent c ≡ false
    → interpolate s ≡ ok t
    → interpolate (String.◌∷◌ c s) ≡ ok (String.◌∷◌ c t)
unfolding interpolate
interpolate-plain c String.[] t b e = rw b (ap (prefixed c) e)
interpolate-plain c (String.◌∷◌ d s) t b e = rw (interpolate, b) (ap (prefixed c) e)

interpolate-Interpolates : Interpolates interpolate
unfolding interpolate
interpolate-Interpolates = record {
  empty = refl;
  plain = interpolate-plain;
  doubled = λ c s t b e. rw (interpolate, b, e) refl;
}

-- The option of the URL, and the URL of the engine that was migrated.
abbrev Desk : Type 0
Desk = String × String

abbrev connected_to : Target String → String
connected_to (online url) = url
connected_to (offline url) = ""

abbrev set_value : String → Desk → Result String → Result (Unit {0}) × Desk
set_value value w (ok text) = (ok tt, (value, w.1))
set_value value w (raised e) = (raised "ValueError", w)

abbrev alembic : Alembic Desk
alembic = record {
  config_file_name = none;
  file_config = λ name. pure tt;
  set_main_option = λ name value w. set_value value w (interpolate value);
  get_section = λ w. (interpolate w.0, w);
  is_offline_mode = λ w. false;
  Engine = String;
  Connection = String;
  engine_from_config = λ url. pure url;
  connect = λ engine. pure engine;
  close = λ connection. pure tt;
  configure = λ target w. (ok tt, (w.0, connected_to target));
  in_transaction = λ m. m;
  run_migrations = pure tt;
}

abbrev url : String
url = "postgresql://reader:a%40b@db/yamazaki"

set_value-section :
    (value text : String) (w : Desk) (r : Result String)
    → r ≡ ok text
    → interpolate value ≡ ok text
    → alembic.get_section (set_value value w r).1 ≡ (ok text, (set_value value w r).1)
set_value-section value text w (ok t) h e = rw e refl
set_value-section value text w (raised x) h e = cc

alembic-Configured : Configured alembic interpolate
alembic-Configured = record {
  interpolates = interpolate-Interpolates;
  set = λ value text w e. ap (λ r. (set_value value w r).0) e;
  section = λ value text w e. set_value-section value text w (interpolate value) e e;
}

run_env-url_example :
    run_env alembic (λ name. some url) ("", "")
    ≡ migrate_at alembic url (with_option alembic url ("", ""))
run_env-url_example =
    run_env-url alembic interpolate (λ name. some url) url ("", "") ("", "") alembic-Configured refl
      refl refl refl
