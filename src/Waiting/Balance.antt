-- ===== src/Waiting/Balance.antt =====
-- What scripts/wait_for_services.py leaves open: engines, connections, cursors and clients are
-- counted together.
use yamazaki_incubator.Base.{
  ℕ, zero, suc, ◌≤◌, ◌≡◌, ◌∙◌, refl, some, String, arith, inl, inr, subst, Bool-cases, Option-cases,
  none, List, Option,
}
use yamazaki_incubator.Base.Int.{ℤ}
use yamazaki_incubator.Base.Result.{ok, raised, Result-cases}
use yamazaki_incubator.Base.Exec.{Exec, try_finally-state, ◌>>=◌}
use yamazaki_incubator.Configuration.{Environ}
use yamazaki_incubator.Engines.Cells.{Casts, Row}
use yamazaki_incubator.Waiting.{
  Console, Ending, ready, timed_out, escaped, is_uncaught, is_before, wait_rounds, wait_until,
  after_wait,
}
use yamazaki_incubator.Waiting.Clients.{
  Clients, Client, using, postgres, clickhouse, doris, require_alive, main, Address,
  clickhouse_server, doris_server,
}
use yamazaki_incubator.Waiting.Rounds.{asked, round_of}

module _ {W : Type 0} (opened : W → ℕ) where
  pub record Keeps {A : Type 0} (m : Exec W A) : Type 0 where
    pub at : (w : W) → opened (m w).1 ≡ opened w

  -- Opening opens one, also closing closes one, and a failure to open opens none.
  pub record Opens {Handle : Type 0} (connect : Exec W Handle) : Type 0 where
    pub connected :
        (w : W) (h : Handle) → (connect w).0 ≡ ok h → opened (connect w).1 ≡ suc (opened w)
    pub refused : (w : W) (e : String) → (connect w).0 ≡ raised e → opened (connect w).1 ≡ opened w

  pub record Closes (close : Exec W (Unit {0})) : Type 0 where
    pub at : (w : W) → 1 ≤ opened w → suc (opened (close w).1) ≡ opened w

  using-Keeps :
      {Handle A : Type 0} (connect : Exec W Handle) (body : Handle → Exec W A)
      (close : Handle → Exec W (Unit {0}))
      → Opens connect
      → ((h : Handle) → Keeps (body h))
      → ((h : Handle) → Closes (close h))
      → Keeps (using connect body close)
  unfolding using
  using-Keeps connect body close opens keeps closes = record {
    at = λ w. elim (Result-cases (connect w).0) [
      | inl (h, e) ↦
          rw (e, try_finally-state (body h) (close h) (connect w).1)
            (omega (
              arith,
              opens.connected w h e,
              (keeps h).at (connect w).1,
              (closes h).at (body h (connect w).1).1
                  (omega (arith, opens.connected w h e, (keeps h).at (connect w).1)),
            ))
      | inr (x, e) ↦ rw e (opens.refused w x e)
    ];
  }

  pub record ClientCounts {Place Answer : Type 0} (client : Client W Place Answer) : Type 0 where
    pub opens : (place : Place) → Opens (client.connect place)
    pub asks : (h : client.Handle) (statement : String) → Keeps (client.ask h statement)
    pub closes : (h : client.Handle) → Closes (client.close h)

  pub record Counts (clients : Clients W) : Type 0 where
    pub created : (url : String) → Opens (clients.create_engine url)
    pub disposed : (engine : clients.Engine) → Closes (clients.dispose engine)
    pub connections : ClientCounts clients.connections
    pub clickhouse : ClientCounts clients.clickhouse
    pub connected : (server : Address) → Opens (clients.connect server)
    pub closed : (connection : clients.Connection) → Closes (clients.close connection)
    pub cursors : ClientCounts clients.cursors

  require_alive-Keeps : (K : Casts) (rows : List Row) → Keeps (require_alive {W = W} K rows)
  unfolding require_alive
  require_alive-Keeps K rows = record { at = λ w. ground arith }

  module _ (clients : Clients W) (counts : Counts clients) where
    postgres-Keeps : (url : String) → Keeps (postgres clients url)
    unfolding postgres
    postgres-Keeps url =
        using-Keeps _ _ _ (counts.created url)
          (λ engine.
            using-Keeps _ _ _ (counts.connections.opens engine)
              (λ connection. counts.connections.asks connection "SELECT 1")
              counts.connections.closes)
          counts.disposed

    clickhouse-Keeps : (password : String) → Keeps (clickhouse clients password)
    unfolding clickhouse
    clickhouse-Keeps password =
        using-Keeps _ _ _ (counts.clickhouse.opens (clickhouse_server password))
          (λ client. counts.clickhouse.asks client "SELECT 1") counts.clickhouse.closes

    backends-Keeps :
        (K : Casts) (cursor : clients.cursors.Handle)
        → Keeps (clients.cursors.ask cursor "SHOW BACKENDS" >>= require_alive K)
    backends-Keeps K cursor = record {
      at = λ w. elim (Result-cases (clients.cursors.ask cursor "SHOW BACKENDS" w).0) [
        | inl (rows, e) ↦
            rw e (
              (require_alive-Keeps K rows).at _ ∙ (counts.cursors.asks cursor "SHOW BACKENDS").at w)
        | inr (x, e) ↦ rw e ((counts.cursors.asks cursor "SHOW BACKENDS").at w)
      ];
    }

    doris-Keeps : (K : Casts) → Keeps (doris clients K)
    unfolding doris
    doris-Keeps K =
        using-Keeps _ _ _ (counts.connected doris_server)
          (λ connection.
            using-Keeps _ _ _ (counts.cursors.opens connection) (backends-Keeps K)
              counts.cursors.closes)
          counts.closed

  -- The clock and the console open nothing.
  pub record Quiet (console : Console W) : Type 0 where
    pub monotonic : (w : W) → opened (console.monotonic w).1 ≡ opened w
    pub sleep : (s : ℕ) (w : W) → opened (console.sleep s w) ≡ opened w
    pub print : (s : String) (w : W) → opened (console.print s w) ≡ opened w

  -- What has ended left as many open as there were.
  abbrev pub EndsWith : ℕ → Option (Ending × W) → Type 0
  EndsWith n none = Unit
  EndsWith n (some (e, w)) = opened w ≡ n

  module _ (console : Console W) (quiet : Quiet console) where
    wait_rounds-EndsWith :
        (fuel : ℕ) (name : String) (check : Exec W (Unit {0})) (deadline : ℤ) (last : String)
        (w : W)
        → Keeps check
        → EndsWith (opened w) (wait_rounds console fuel name check deadline last w)
    unfolding wait_rounds
    wait_rounds-EndsWith zero name check deadline last w keeps = tt
    wait_rounds-EndsWith (suc fuel) name check deadline last w keeps =
        elim (Bool-cases (is_before (console.monotonic w).0 deadline)) [
          | inr b ↦ rw (wait_rounds, b) (quiet.monotonic w)
          | inl b ↦ elim (Result-cases (asked console check w).0) [
            | inl (_, a) ↦ rw (wait_rounds, b, a) (quiet.print _ _ ∙ asked-opened)
            | inr (e, a) ↦ elim (Bool-cases (is_uncaught console e)) [
              | inl u ↦ rw (wait_rounds, b, a, u) asked-opened
              | inr u ↦
                  rw (wait_rounds, b, a, u)
                    (subst
                      (λ n.
                        EndsWith n (
                          wait_rounds console fuel name check deadline e
                            (round_of console check w)))
                      (quiet.sleep _ _ ∙ asked-opened)
                      (wait_rounds-EndsWith fuel name check deadline e (round_of console check w)
                        keeps))
            ]
          ]
        ]
      where
        asked-opened : opened (asked console check w).1 ≡ opened w
        asked-opened = keeps.at (console.monotonic w).1 ∙ quiet.monotonic w

    wait_until-EndsWith :
        (fuel : ℕ) (name : String) (check : Exec W (Unit {0})) (timeout : ℤ) (w : W)
        → Keeps check
        → EndsWith (opened w) (wait_until console fuel name check timeout w)
    unfolding wait_until
    wait_until-EndsWith fuel name check timeout w keeps =
        subst (λ n. EndsWith n (wait_until console fuel name check timeout w)) (quiet.monotonic w)
          (wait_rounds-EndsWith fuel name check _ "unavailable" (console.monotonic w).1 keeps)

    after_wait-EndsWith :
        (n : ℕ) (next : W → Option (Ending × W)) (first : Option (Ending × W))
        → EndsWith n first
        → ((w : W) → EndsWith (opened w) (next w))
        → EndsWith n (after_wait next first)
    unfolding after_wait
    after_wait-EndsWith n next none first rest = tt
    after_wait-EndsWith n next (some (ready, w)) first rest =
        subst (λ k. EndsWith k (next w)) first (rest w)
    after_wait-EndsWith n next (some (timed_out message, w)) first rest = first
    after_wait-EndsWith n next (some (escaped e, w)) first rest = first

    main-EndsWith :
        (clients : Clients W) (K : Casts) (fuel : ℕ) (environ : Environ) (timeout : ℤ) (w : W)
        → Counts clients
        → EndsWith (opened w) (main clients console K fuel environ timeout w)
    unfolding main
    main-EndsWith clients K fuel environ timeout w counts =
        elim (Option-cases (environ "YAMAZAKI_DATABASE_URL")) [
          | inl e ↦ rw (main, e) refl
          | inr (url, e) ↦ elim (Option-cases (environ "YAMAZAKI_IT_CLICKHOUSE_ADMIN_PASSWORD")) [
            | inl f ↦ rw (main, e, f) refl
            | inr (password, f) ↦
                rw (main, e, f)
                  (after_wait-EndsWith (opened w) _ _
                    (after_wait-EndsWith (opened w) _ _
                      (wait_until-EndsWith fuel "postgres" (postgres clients url) timeout w
                        (postgres-Keeps clients counts url))
                      (λ v.
                        wait_until-EndsWith fuel "clickhouse" (clickhouse clients password) timeout
                          v (clickhouse-Keeps clients counts password)))
                    (λ v.
                      wait_until-EndsWith fuel "doris" (doris clients K) timeout v
                        (doris-Keeps clients counts K)))
          ]
        ]

module _ {W : Type 0} (opened : W → ℕ) (clients : Clients W) (console : Console W) where
  pub main-opened :
      (K : Casts) (fuel : ℕ) (environ : Environ) (timeout : ℤ) (w : W)
      → Counts opened clients
      → Quiet opened console
      → (ending : Ending) (end : W)
      → main clients console K fuel environ timeout w ≡ some (ending, end)
      → opened end ≡ opened w
  main-opened K fuel environ timeout w counts quiet ending end returned =
      subst (EndsWith opened (opened w)) returned
        (main-EndsWith opened console quiet clients K fuel environ timeout w counts)
