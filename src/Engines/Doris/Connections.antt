-- ===== src/Engines/Doris/Connections.antt =====
-- When `PyMySqlExecutor` of src/yamazaki/engines/doris.py closes what it opens.
use yamazaki_incubator.Base.{ℕ, ◌+◌, ◌≤◌, ◌≡◌, List, String, arith, inl, inr, string_eq}
use yamazaki_incubator.Base.Result.{ok, raised, Result-cases}
use yamazaki_incubator.Base.Exec.{try_finally-state}
use yamazaki_incubator.Engines.Doris.Executor.{PyMySqlExecutor, Driver, Argument, query}

module _ {W C : Type 0} (driver : Driver W C) (open_connections : W → ℕ) where
  -- Connecting opens one connection, closing one closes it, and a cursor changes nothing.
  pub record Counts : Type 0 where
    pub connected :
        (x : PyMySqlExecutor) (w : W) (c : C)
        → (driver.connect x w).0 ≡ ok c
        → open_connections (driver.connect x w).1 ≡ 1 + open_connections w
    pub failed :
        (x : PyMySqlExecutor) (w : W) (e : String)
        → (driver.connect x w).0 ≡ raised e
        → open_connections (driver.connect x w).1 ≡ open_connections w
    pub fetched :
        (c : C) (sql : String) (ps : List Argument) (w : W)
        → open_connections (driver.fetch_all c sql ps w).1 ≡ open_connections w
    pub closed :
        (c : C) (w : W)
        → 1 ≤ open_connections w
        → 1 + open_connections (driver.close c w).1 ≡ open_connections w

  -- If connecting opens one connection and closing one closes it, a query of `PyMySqlExecutor`
  -- leaves as many open connections as there were, also where connecting, the query or closing
  -- raises.
  pub query-open_connections :
      (executor : PyMySqlExecutor) (sql : String) (parameters : List Argument) (w : W)
      → Counts
      → open_connections (query driver executor sql parameters w).1 ≡ open_connections w
  unfolding query
  query-open_connections executor sql parameters w counts =
      elim (Result-cases (driver.connect executor w).0) [
        | inl (c, e) ↦
            rw
              (
                e,
                try_finally-state (driver.fetch_all c sql parameters) (driver.close c)
                    (driver.connect executor w).1,
              )
              (omega (
                arith,
                counts.connected executor w c e,
                counts.fetched c sql parameters (driver.connect executor w).1,
                counts.closed c (driver.fetch_all c sql parameters (driver.connect executor w).1).1
                    (omega (
                      arith,
                      counts.connected executor w c e,
                      counts.fetched c sql parameters (driver.connect executor w).1,
                    )),
              ))
        | inr (x, e) ↦ rw e (counts.failed executor w x e)
      ]
