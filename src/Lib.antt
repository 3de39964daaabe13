-- ===== src/Lib.antt =====
-- A model of the investigation core of Yamazaki, and the theorems that make it correct.
--
-- One investigation runs through fixed stages (src/yamazaki/service.py, `investigate`): for each
-- requested cluster it asks an engine adapter for raw query records, normalizes and redacts each
-- (normalization.py, redaction.py), saves it, and detects slow queries from deterministic rules
-- over the query and its history (slow_query.py). An anomaly is diagnosed by a table of causes
-- (diagnosis.py) and, within a budget, by a model behind a port. All values are the contracts of
-- contracts.py; what the stages call stands behind ports.py; persistence.py is the repository.
--
-- Which file models which part:
--   Contracts, Contracts/*       src/yamazaki/contracts.py, a record per model and a `validate_…`
--                                per constructor's checks; Time is `_aware` of normalization.py
--   Numbers, Json                the numbers and JSON values of Python that the program computes with
--   Detector, Detector/Rules, Detector/Stats
--                                src/yamazaki/slow_query.py, one `…_rule` per block of `detect`
--   Diagnosis                    src/yamazaki/diagnosis.py
--   Redaction                    src/yamazaki/redaction.py
--   Engines                      src/yamazaki/engines/base.py
--   Engines/Cells                the values in the rows of an engine, and the helpers `_optional_int`,
--                                `_optional_string` and `_datetime` that both adapters declare
--   Engines/ClickHouse, Engines/ClickHouse/Statements, Engines/ClickHouse/Rows
--                                src/yamazaki/engines/clickhouse.py: the adapter, its SQL, its loops
--   Engines/Doris, Engines/Doris/Statements, Engines/Doris/Rows, Engines/Doris/Profile,
--   Engines/Doris/Executor       src/yamazaki/engines/doris.py: the adapter with its remembered columns,
--                                its SQL and paths, its loops, the profile endpoint, the connections
--   EvidenceStore, EvidenceStore/Locator
--                                src/yamazaki/evidence_store.py; EvidenceStore/Register is the
--                                register of digests that it implements
--   Configuration                src/yamazaki/config.py
--   Runtime, Runtime/Adapters    src/yamazaki/runtime.py, with the constructors of the two adapters, and
--                                `main` of src/yamazaki/cli.py
--   Api                          src/yamazaki/api.py
--   Normalization                src/yamazaki/normalization.py and the `stable_id`s of contracts.py
--   Ports                        src/yamazaki/ports.py
--   Coordinator, Coordinator/Frame, Coordinator/Settings
--                                src/yamazaki/service.py, `investigate` cut at its statements;
--                                Coordinator/Recent is its `recent_request`,
--                                Coordinator/Token its `CancellationToken`
--   Agent                        src/yamazaki/agent.py, `diagnose`
--   Persistence, Schema/Tables   src/yamazaki/persistence.py: the repository, and the metadata
--   Schema                       what a schema is made of, and what a statement does to the tables
--   Migrations, Migrations/Env   alembic/versions/0001_control_state.py and alembic/env.py
--   Waiting, Waiting/Clients     scripts/wait_for_services.py: the loop, and the checks with `main`
--   Base/*                       lists, texts, results, statements with exceptions and state, sorting
-- The other files below a part prove what they are named for. Coordinator/Triple is a logic of
-- statements that may raise; Coordinator/Invariant and Coordinator/Kept derive from it one rule
-- for all conditions on the local lists of `investigate`. Base/Ensures is a smaller logic, for the
-- values of statements, and Base/Gives one for statements that always return. Coordinator/Rows is
-- a logic of what is in the tables meanwhile, Waiting/Rounds describes a wait without its loop.
-- Tests/* apply the theorems to concrete values.
--
-- How the program is read. An exception is the name of its class, and an error path is a value
-- of `Result`; a statement is a function from a state to a result and a state, where what was
-- done before a raise stays done. The methods of the ports act on any type of worlds and may
-- raise anything anywhere, unless a theorem says otherwise. All loops are over lists, but for
-- the one that waits for a service: it is on fuel, a round for a unit, and n + 1 units are
-- enough for a timeout of 2n seconds, since a failed round sleeps two seconds. Integers of
-- Python are unbounded: naturals where a `ge=0` field was checked, signed in the raw records.
-- The detector raises where Python does not convert an int to a double or divide two ints, and
-- returns for ints below half of a bound, which for doubles is 2 to the power of 1023.
-- The index of the p95 is computed exactly, by (95 n + 99) / 100 - 1, which is what `ceil(n *
-- 0.95) - 1` gives for every length below two million; a history has 100 runs at most.
--
-- Parameters, since their code is not in this repository: the operations of floating point
-- (`Floats`), SHA-256, uuid5 and the printing of values (`Platform`), sqlglot and the tables of
-- Unicode (`SqlGlot`), the model (`run_sync`), the SQL server and pydantic's JSON codecs
-- (`Table`, `Codec`), the conversions of Python's built-in types on what an engine sends
-- (`Casts`), the clients of the engines (`ClickHouseClient`, `SqlExecutor`, `Driver`,
-- `HttpClient`, and `Libraries` for what opens them), `json` (`Codec` of the store), the file with
-- the configuration (`Files`), the constructors of the repository and the store (`Constructors`),
-- what the command line calls (`Shell`),
-- Alembic (`Op`, `Alembic`), and the clock and the client libraries of the script (`Console`,
-- `Clients`). What a theorem needs of them is a hypothesis: `ConfidenceLaws`, `DigestLaws`,
-- `TableLaws`, `RoundTrip`, `RaisesOnly`, `Counts`, `StoreLaws`, `Connects`, `Converts`, `Surroundings`, `Serves`,
-- `Obeys`, `ServerDeletes`, `Configured`, `IsClock`. An adapter reads the clock for each
-- record: the model reads it just before the conversions of that record, which do not depend on
-- it.
--
-- Not modelled: the argument parsers and the construction of clients, which are third-party
-- code with few lines around; exceptions that are no `Exception`, but for the interrupt of the
-- command line and those that leave a wait; failures of the disk and other processes in the evidence directory; the range
-- of `datetime`; constant fields such as `schema_version`.
pub mod Base
pub mod Numbers
pub mod Contracts
pub mod Json
pub mod Detector
pub mod Diagnosis
pub mod Redaction
pub mod Engines
pub mod Normalization
pub mod EvidenceStore
pub mod Ports
pub mod Coordinator
pub mod Agent
pub mod Configuration
pub mod Runtime
pub mod Api
pub mod Persistence
pub mod Schema
pub mod Migrations
pub mod Tests
pub mod Waiting
