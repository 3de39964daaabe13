-- ===== src/Tests/Waits.antt =====
-- The theorems about waiting for the services at concrete inputs. A world is the seconds of its
-- clock and the number of what is open; ClickHouse answers from the second second on.
use yamazaki_incubator.Base.{
  ℕ, suc, ◌+◌, ◌-◌, ◌≤◌, ◌≡◌, refl, ◌||◌, some, [], ◌∷◌, arith, ltb, ◌==◌, string_eq, if◌then◌else◌,
}
use yamazaki_incubator.Base.Int.{pos}
use yamazaki_incubator.Base.Result.{ok, raised}
use yamazaki_incubator.Base.Exec.{Exec}
use yamazaki_incubator.Configuration.{Environ}
use yamazaki_incubator.Engines.Cells.{Row, Cell, get_cell}
use yamazaki_incubator.Waiting.{Console, Ending, wait_until, deadline_at}
use yamazaki_incubator.Waiting.Rounds.{IsClock, Waits}
use yamazaki_incubator.Waiting.Ends.{wait_until-ends}
use yamazaki_incubator.Waiting.Balance.{Opens, Closes, Counts, Quiet}
use yamazaki_incubator.Waiting.Services.{main-ends, Forward}
use yamazaki_incubator.Waiting.Clients.{Clients, postgres, clickhouse, doris, main}
use yamazaki_incubator.Tests.Parameters.{casts}

abbrev Desk : Type 0
Desk = ℕ × ℕ

abbrev seconds : Desk → ℕ
seconds (t, n) = t

abbrev opened : Desk → ℕ
opened (t, n) = n

abbrev console : Console Desk
console = record {
  ticks_per_second = 1;
  monotonic = λ w. (seconds w, w);
  sleep = λ s w. (seconds w + s, opened w);
  print = λ text w. w;
  is_exception = λ e. e == "OperationalError" || e == "TimeoutError";
}

abbrev enter_one : Exec Desk (Unit {0})
enter_one (t, n) = (ok tt, (t, suc n))

abbrev leave_one : Exec Desk (Unit {0})
leave_one (t, n) = (ok tt, (t, n - 1))

abbrev answer_later : Exec Desk (Unit {0})
answer_later w = (if ltb (seconds w) 2 then raised "OperationalError" else ok tt, w)

abbrev backend_row : Row
backend_row = ("Alive", Cell.words "true") ∷ []

abbrev clients : Clients Desk
clients = record {
  Engine = Unit;
  create_engine = λ url. enter_one;
  dispose = λ engine. leave_one;
  connections = record {
    Handle = Unit;
    connect = λ engine. enter_one;
    ask = λ connection statement w. (ok tt, w);
    close = λ connection. leave_one;
  };
  clickhouse = record {
    Handle = Unit;
    connect = λ server. enter_one;
    ask = λ client statement. answer_later;
    close = λ client. leave_one;
  };
  Connection = Unit;
  connect = λ server. enter_one;
  close = λ connection. leave_one;
  cursors = record {
    Handle = Unit;
    connect = λ connection. enter_one;
    ask = λ cursor statement w. (ok (backend_row ∷ []), w);
    close = λ cursor. leave_one;
  };
}

abbrev environ : Environ
environ name = some "secret"

IsClock-of :
    (check : Exec Desk (Unit {0}))
    → ((w : Desk) → seconds w ≤ seconds (check w).1)
    → IsClock console check seconds
IsClock-of check forward = record {
  ticks = omega arith;
  reads = λ w. refl;
  reading = λ w. omega arith;
  checking = forward;
  sleeping = λ s w. omega arith;
}

clickhouse-IsClock : IsClock console (clickhouse clients "secret") seconds
unfolding clickhouse
clickhouse-IsClock = IsClock-of _ (λ w. omega arith)

wait_until-ends_example :
    (r : Ending × Desk) × (wait_until console 3 "clickhouse"
        (clickhouse clients "secret")
        (pos 4)
        (0, 0)
      ≡ some r)
    × Waits console
        (clickhouse clients "secret")
        "clickhouse"
        (deadline_at console (pos 4) 0)
        2
        "unavailable"
        (0, 0)
        r
wait_until-ends_example =
    wait_until-ends console (clickhouse clients "secret") seconds "clickhouse" 2 (pos 4) (0, 0)
      clickhouse-IsClock (omega arith)

forward : Forward clients console seconds casts
unfolding postgres clickhouse doris get_cell
forward = record {
  postgres_clock = λ url. IsClock-of _ (λ w. omega arith);
  clickhouse_clock = λ password. IsClock-of _ (λ w. omega arith);
  doris_clock = IsClock-of _ (λ w. omega arith);
}

counts : Counts opened clients
counts = record {
  created = λ url. opens;
  disposed = λ engine. closes;
  connections = record {
    opens = λ engine. opens;
    asks = λ h statement. record { at = λ w. refl };
    closes = λ h. closes;
  };
  clickhouse = record {
    opens = λ server. opens;
    asks = λ h statement. record { at = λ w. refl };
    closes = λ h. closes;
  };
  connected = λ server. opens;
  closed = λ connection. closes;
  cursors = record {
    opens = λ connection. opens;
    asks = λ h statement. record { at = λ w. refl };
    closes = λ h. closes;
  };
}
  where
    opens : Opens opened enter_one
    opens = record { connected = λ w h e. refl; refused = λ w x e. cc e }

    closes : Closes opened leave_one
    closes = record { at = λ w h. omega arith }

quiet : Quiet opened console
quiet = record { monotonic = λ w. refl; sleep = λ s w. refl; print = λ text w. refl }

main-ends_example :
    (ending : Ending) × (end : Desk) × (main clients console casts 3 environ (pos 4) (0, 0)
      ≡ some (ending, end))
    × (opened end ≡ 0)
main-ends_example =
    main-ends clients console seconds casts opened 2 environ (pos 4) (0, 0) forward counts quiet
      (omega arith)
