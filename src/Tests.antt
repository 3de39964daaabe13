-- ===== src/Tests.antt =====
-- Concrete parameters, values and runs: the theorems are applied to them, each where its conditions
-- hold. A float is a number of hundredths here.
mod Parameters
mod Samples
mod Tables
mod ClickHouseRuns
mod DorisRuns
mod Stores
mod Runtimes
mod Runs
mod Assistants
mod Investigations
mod Waits
mod Migrated
mod Ledgers
mod Saved
