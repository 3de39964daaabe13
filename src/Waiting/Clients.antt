-- ===== src/Waiting/Clients.antt =====
-- The three checks of scripts/wait_for_services.py and its `main`. What the client libraries
-- do is a parameter, and so is the environment.
use yamazaki_incubator.Base.{
  ℕ, Bool, false, not, ◌||◌, Option, none, some, List, [], ◌∷◌, String, ◌==◌, string_eq, is_empty,
  if◌then◌else◌,
}
use yamazaki_incubator.Base.Int.{ℤ}
use yamazaki_incubator.Base.Exec.{Exec, pure, raise, try_finally, ◌>>=◌}
use yamazaki_incubator.Configuration.{Environ}
use yamazaki_incubator.Engines.Cells.{Casts, Row, get_cell}
use yamazaki_incubator.Waiting.{Console, Ending, escaped, wait_until, after_wait}

-- What is opened of a kind: how it is opened, asked and closed.
pub record Client (W Place Answer : Type 0) : Type 1 where
  pub Handle : Type 0
  pub connect : Place → Exec W Handle
  pub ask : Handle → (statement : String) → Exec W Answer
  pub close : Handle → Exec W (Unit {0})

-- `handle = connect(…)`, then `try: body(handle) finally: handle.close()`
unfoldable pub using :
    {W Handle A : Type 0}
    → (connect : Exec W Handle) (body : Handle → Exec W A) (close : Handle → Exec W (Unit {0}))
    → Exec W A
unfolding try_finally
using connect body close = connect >>= λ handle. try_finally (body handle) (close handle)

-- The arguments of the connections.
pub record Address : Type 0 where
  pub host : String
  pub port : ℕ
  pub username : String
  pub password : String

abbrev pub clickhouse_server : (password : String) → Address
clickhouse_server password = record {
  host = "127.0.0.1";
  port = 18124;
  username = "admin";
  password = password;
}

abbrev pub doris_server : Address
doris_server = record { host = "127.0.0.1"; port = 19031; username = "root"; password = "" }

-- `sqlalchemy`, `clickhouse_connect` and `pymysql`.
pub record Clients (W : Type 0) : Type 1 where
  pub Engine : Type 0
  pub create_engine : (url : String) → Exec W Engine
  pub dispose : Engine → Exec W (Unit {0})
  -- a connection of an engine, as a context manager
  pub connections : Client W Engine (Unit {0})
  pub clickhouse : Client W Address (Unit {0})
  -- a connection with its timeouts of 5 seconds, and a cursor of one with rows as dicts
  pub Connection : Type 0
  pub connect : Address → Exec W Connection
  pub close : Connection → Exec W (Unit {0})
  pub cursors : Client W Connection (List Row)

-- `any(str(row.get("Alive")).lower() == "true" for row in rows)`
unfoldable pub any_alive : Casts → List Row → Bool
any_alive K [] = false
any_alive K (row ∷ rows) = K.lower (K.str (get_cell row "Alive")) == "true" || any_alive K rows

-- `if not rows or not any(…): raise RuntimeError`
unfoldable pub require_alive : {W : Type 0} → Casts → List Row → Exec W (Unit {0})
unfolding any_alive
require_alive K rows =
    if is_empty rows || not (any_alive K rows) then raise "RuntimeError" else pure tt

module _ {W : Type 0} (clients : Clients W) where
  unfoldable pub postgres : (url : String) → Exec W (Unit {0})
  unfolding using
  postgres url =
      using (clients.create_engine url)
        (λ engine.
          using (clients.connections.connect engine)
            (λ connection. clients.connections.ask connection "SELECT 1") clients.connections.close)
        clients.dispose

  unfoldable pub clickhouse : (password : String) → Exec W (Unit {0})
  unfolding using
  clickhouse password =
      using (clients.clickhouse.connect (clickhouse_server password))
        (λ client. clients.clickhouse.ask client "SELECT 1") clients.clickhouse.close

  unfoldable pub doris : Casts → Exec W (Unit {0})
  unfolding using require_alive
  doris K =
      using (clients.connect doris_server)
        (λ connection.
          using (clients.cursors.connect connection)
            (λ cursor. clients.cursors.ask cursor "SHOW BACKENDS" >>= require_alive K)
            clients.cursors.close)
        clients.close

module _ {W : Type 0} (clients : Clients W) (console : Console W) (K : Casts) where
  -- The three waits, each with the whole timeout.
  unfoldable pub wait_for_all :
      (fuel : ℕ) (url password : String) (timeout : ℤ) → W → Option (Ending × W)
  unfolding wait_until after_wait postgres clickhouse doris
  wait_for_all fuel url password timeout w =
      after_wait (wait_until console fuel "doris" (doris clients K) timeout) (
        after_wait (wait_until console fuel "clickhouse" (clickhouse clients password) timeout)
          (wait_until console fuel "postgres" (postgres clients url) timeout w))

  -- `main`, from the parsed timeout on.
  unfoldable pub main : (fuel : ℕ) → Environ → (timeout : ℤ) → W → Option (Ending × W)
  unfolding wait_for_all
  main fuel environ timeout w = elim (environ "YAMAZAKI_DATABASE_URL") [
    | none ↦ some (escaped "KeyError", w)
    | some url ↦ elim (environ "YAMAZAKI_IT_CLICKHOUSE_ADMIN_PASSWORD") [
      | none ↦ some (escaped "KeyError", w)
      | some password ↦ wait_for_all fuel url password timeout w
    ]
  ]
