-- ===== src/Migrations/Url.antt =====
-- The URL that alembic/env.py connects to, and the percent signs in it, which the configuration
-- would take for the start of an interpolation.
use Prim.Native.Char.{Char}
use yamazaki_incubator.Base.{
  ◌≡◌, refl, true, false, some, String, Bool-cases, inl, inr, ◌==◌, string_eq,
}
use yamazaki_incubator.Base.Exec.{Exec, try_finally, ◌>>=◌, ◌>>◌}
use yamazaki_incubator.Base.Result.{Result, ok}
use yamazaki_incubator.Configuration.{Environ}
use yamazaki_incubator.Migrations.Env.{
  Alembic, online, is_percent, escape_percent, read_file, run_env, run_migrations_online,
}

-- `ConfigParser` with its basic interpolation: two percent signs are one, and a text without
-- percent signs is itself.
pub record Interpolates (interpolate : String → Result String) : Type 0 where
  pub empty : interpolate String.[] ≡ ok String.[]
  pub plain :
      (c : Char) (s t : String)
      → is_percent c ≡ false
      → interpolate s ≡ ok t
      → interpolate (String.◌∷◌ c s) ≡ ok (String.◌∷◌ c t)
  pub doubled :
      (c : Char) (s t : String)
      → is_percent c ≡ true
      → interpolate s ≡ ok t
      → interpolate (String.◌∷◌ c (String.◌∷◌ c s)) ≡ ok (String.◌∷◌ c t)

interpolate-escape_percent :
    (interpolate : String → Result String) (s : String)
    → Interpolates interpolate
    → interpolate (escape_percent s) ≡ ok s
unfolding escape_percent
interpolate-escape_percent interpolate String.[] laws = laws.empty
interpolate-escape_percent interpolate (String.◌∷◌ c s) laws = elim (Bool-cases (is_percent c)) [
  | inl b ↦
      rw (escape_percent, b) (laws.doubled c _ s b (interpolate-escape_percent interpolate s laws))
  | inr b ↦
      rw (escape_percent, b) (laws.plain c _ s b (interpolate-escape_percent interpolate s laws))
]

module _ {W : Type 0} (alembic : Alembic W) where
  -- `set_main_option` returns for a value that interpolates, and what is read from the
  -- configuration after it is the interpolation.
  pub record Configured (interpolate : String → Result String) : Type 0 where
    pub interpolates : Interpolates interpolate
    pub set :
        (value text : String) (w : W)
        → interpolate value ≡ ok text
        → (alembic.set_main_option "sqlalchemy.url" value w).0 ≡ ok tt
    pub section :
        (value text : String) (w : W)
        → interpolate value ≡ ok text
        → alembic.get_section (alembic.set_main_option "sqlalchemy.url" value w).1
          ≡ (ok text, (alembic.set_main_option "sqlalchemy.url" value w).1)

  -- Running the migrations on an engine of this URL.
  abbrev pub migrate_at : (url : String) → Exec W (Unit {0})
  migrate_at url = do
    engine ← alembic.engine_from_config url
    connection ← alembic.connect engine
    try_finally
        (alembic.configure (online connection) >> alembic.in_transaction alembic.run_migrations)
        (alembic.close connection)

  abbrev pub with_option : (url : String) → W → W
  with_option url w = (alembic.set_main_option "sqlalchemy.url" (escape_percent url) w).1

  -- Outside of offline mode, with a URL in the environment that is not empty, and a configuration
  -- that takes a value that interpolates and reads its interpolation back: running `env.py` is
  -- running the migrations on an engine of exactly that URL, percent signs included.
  pub run_env-url :
      (interpolate : String → Result String) (environ : Environ) (url : String) (w w' : W)
      → Configured interpolate
      → environ "YAMAZAKI_DATABASE_URL" ≡ some url
      → (url == "") ≡ false
      → read_file alembic alembic.config_file_name w ≡ (ok tt, w')
      → alembic.is_offline_mode (with_option url w') ≡ false
      → run_env alembic environ w ≡ migrate_at url (with_option url w')
  unfolding run_env run_migrations_online
  run_env-url interpolate environ url w w' laws set_ filled read is_online =
      let escaped = interpolate-escape_percent interpolate url laws.interpolates in
      rw
        (
          read,
          set_,
          filled,
          laws.set (escape_percent url) url w' escaped,
          is_online,
          laws.section (escape_percent url) url w' escaped,
        )
        refl
