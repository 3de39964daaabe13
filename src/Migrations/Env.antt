-- ===== src/Migrations/Env.antt =====
-- alembic/env.py: which database the migrations run on, and in what. Alembic's configuration and
-- context and SQLAlchemy's engine are parameters.
use Prim.Native.Char.{Char, code}
use yamazaki_incubator.Base.{
  Bool, Option, none, some, String, nat_beq, ◌==◌, string_eq, if◌then◌else◌,
}
use yamazaki_incubator.Base.Exec.{Exec, pure, raise, gets, try_finally, ◌>>=◌, ◌>>◌}
use yamazaki_incubator.Configuration.{Environ}

abbrev pub is_percent : Char → Bool
is_percent c = nat_beq (code c) b'%'

-- `s.replace("%", "%%")`
unfoldable pub escape_percent : String → String
escape_percent String.[] = String.[]
escape_percent (String.◌∷◌ c s) =
    let rest = escape_percent s in
    if is_percent c then String.◌∷◌ c (String.◌∷◌ c rest) else String.◌∷◌ c rest

-- How the context of a migration is configured.
pub data Target (Connection : Type 0) : Type 0 where
  -- `url=…, literal_binds=True, dialect_opts={"paramstyle": "named"}`
  offline : (url : String) → Target Connection
  -- `connection=…`
  online : Connection → Target Connection

-- `alembic.context`, its configuration, and `engine_from_config`.
pub record Alembic (W : Type 0) : Type 1 where
  pub config_file_name : Option String
  pub file_config : String → Exec W (Unit {0})
  pub set_main_option : (name value : String) → Exec W (Unit {0})
  -- `config.get_section(config.config_ini_section, {})`, of which the URL is read
  pub get_section : Exec W String
  pub is_offline_mode : W → Bool
  pub Engine : Type 0
  pub Connection : Type 0
  -- with `poolclass=pool.NullPool`
  pub engine_from_config : (url : String) → Exec W Engine
  pub connect : Engine → Exec W Connection
  pub close : Connection → Exec W (Unit {0})
  pub configure : Target Connection → Exec W (Unit {0})
  -- `with context.begin_transaction(): …`
  pub in_transaction : Exec W (Unit {0}) → Exec W (Unit {0})
  pub run_migrations : Exec W (Unit {0})

module _ {W : Type 0} (alembic : Alembic W) where
  unfoldable pub run_migrations_offline : (url : String) → Exec W (Unit {0})
  run_migrations_offline url = do
    alembic.configure (offline url)
    alembic.in_transaction alembic.run_migrations

  unfoldable pub run_migrations_online : Exec W (Unit {0})
  unfolding try_finally
  run_migrations_online = do
    url ← alembic.get_section
    engine ← alembic.engine_from_config url
    connection ← alembic.connect engine
    try_finally
        (alembic.configure (online connection) >> alembic.in_transaction alembic.run_migrations)
        (alembic.close connection)

  abbrev pub read_file : Option String → Exec W (Unit {0})
  read_file none = pure tt
  read_file (some name) = alembic.file_config name

  -- `if not database_url: raise RuntimeError`, and the rest of the module.
  abbrev with_url : Option String → Exec W (Unit {0})
  with_url none = raise "RuntimeError"
  with_url (some url) =
      if url == ""
      then raise "RuntimeError"
      else (alembic.set_main_option "sqlalchemy.url" (escape_percent url)
          >> (gets alembic.is_offline_mode >>= λ b.
              if b then run_migrations_offline url else run_migrations_online))

  -- The module, which Alembic runs.
  unfoldable pub run_env : Environ → Exec W (Unit {0})
  unfolding escape_percent run_migrations_offline run_migrations_online
  run_env environ = read_file alembic.config_file_name >> with_url (environ "YAMAZAKI_DATABASE_URL")
