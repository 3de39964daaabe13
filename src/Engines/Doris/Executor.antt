-- ===== src/Engines/Doris/Executor.antt =====
-- `PyMySqlExecutor` of src/yamazaki/engines/doris.py. The driver is a parameter; the three time
-- limits, the cursor class and the autocommit flag are the same in every connection and are left out.
use yamazaki_incubator.Base.{ℕ, String, List}
use yamazaki_incubator.Base.Exec.{Exec, try_finally, ◌>>=◌}
use yamazaki_incubator.Contracts.{DateTime}
use yamazaki_incubator.Engines.Cells.{Row}

-- What is bound to a `%s`.
pub data Argument : Type 0 where
  naive : DateTime → Argument
  text : String → Argument

pub record PyMySqlExecutor : Type 0 where
  pub host : String
  pub port : ℕ
  pub username : String
  pub password : String
  pub database : String

-- `C` is the type of the connections. `fetch_all` opens a cursor, executes and fetches the rows.
pub record Driver (W C : Type 0) : Type 0 where
  pub connect : PyMySqlExecutor → Exec W C
  pub fetch_all : C → (sql : String) → (parameters : List Argument) → Exec W (List Row)
  pub close : C → Exec W (Unit {0})

module _ {W C : Type 0} (driver : Driver W C) where
  unfoldable pub query : PyMySqlExecutor → String → List Argument → Exec W (List Row)
  unfolding try_finally
  query executor sql parameters = do
    connection ← driver.connect executor
    try_finally (driver.fetch_all connection sql parameters) (driver.close connection)
