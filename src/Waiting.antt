-- ===== src/Waiting.antt =====
-- scripts/wait_for_services.py: the loop that waits for a service, the checks of the three
-- services, and `main` from the parsed timeout on. The clock, the console and the three client
-- libraries are parameters. The loop is on fuel, and `none` is a loop that has not ended yet.
pub mod Clients
pub mod Rounds
pub mod Ends
pub mod Balance
pub mod Services
use Prim.Native.String
use yamazaki_incubator.Base.{
  ℕ, zero, suc, Bool, true, false, not, Option, none, some, List, [], ◌∷◌, String, ◌==◌, string_eq,
  if◌then◌else◌,
}
use yamazaki_incubator.Base.Int.{ℤ, pos, ◌+ℤ◌, leb_ℤ, scaled}
use yamazaki_incubator.Base.Result.{Result, ok, raised}
use yamazaki_incubator.Base.Exec.{Exec}
use yamazaki_incubator.Base.Text.{join}

-- The module `time` and `print`. The clock counts ticks.
pub record Console (W : Type 0) : Type 0 where
  pub ticks_per_second : ℕ
  -- `time.monotonic()`
  pub monotonic : W → ℕ × W
  -- `time.sleep(seconds)`
  pub sleep : (seconds : ℕ) → W → W
  pub print : String → W → W
  -- `issubclass(class, Exception)`, by the name of the class
  pub is_exception : String → Bool

-- How a wait ends: it returns, it raises `TimeoutError(message)`, or another exception leaves it.
pub data Ending : Type 0 where
  ready : Ending
  timed_out : (message : String) → Ending
  escaped : (exception : String) → Ending

-- `time < deadline`
abbrev pub is_before : ℕ → ℤ → Bool
is_before time deadline = leb_ℤ (pos (suc time)) deadline

unfoldable pub timeout_message : (name last_error : String) → String
timeout_message name last_error = join (name ∷ " did not become ready: " ∷ last_error ∷ [])

module _ {W : Type 0} (console : Console W) where
  -- What `except Exception` does not catch.
  unfoldable pub is_uncaught : String → Bool
  is_uncaught e = not (console.is_exception e)

  -- The `while` loop.
  unfoldable pub wait_rounds :
      (fuel : ℕ) (name : String) (check : Exec W (Unit {0})) (deadline : ℤ) (last_error : String)
      → W
      → Option (Ending × W)
  unfolding is_uncaught
  wait_rounds zero name check deadline last_error w = none
  wait_rounds (suc fuel) name check deadline last_error w =
      let (time, read) = console.monotonic w in
      elim (is_before time deadline) [
        | true ↦
            let (answer, checked) = check read in
            elim answer [
              | ok _ ↦ some (ready, console.print (String.◌++◌ name ": ready") checked)
              | raised e ↦ elim (is_uncaught e) [
                | true ↦ some (escaped e, checked)
                | false ↦ wait_rounds fuel name check deadline e (console.sleep 2 checked)
              ]
            ]
        | false ↦ some (timed_out (timeout_message name last_error), read)
      ]

  -- `time.monotonic() + timeout`
  unfoldable pub deadline_at : (timeout : ℤ) (time : ℕ) → ℤ
  deadline_at timeout time = pos time +ℤ scaled console.ticks_per_second timeout

  unfoldable pub wait_until :
      (fuel : ℕ) (name : String) (check : Exec W (Unit {0})) (timeout : ℤ) → W → Option (Ending × W)
  unfolding wait_rounds deadline_at
  wait_until fuel name check timeout w =
      let (time, read) = console.monotonic w in
      wait_rounds fuel name check (deadline_at timeout time) "unavailable" read

-- The next statement runs if the wait before it returned.
unfoldable pub after_wait :
    {W : Type 0} → (W → Option (Ending × W)) → Option (Ending × W) → Option (Ending × W)
after_wait next none = none
after_wait next (some (ready, w)) = next w
after_wait next (some (timed_out message, w)) = some (timed_out message, w)
after_wait next (some (escaped e, w)) = some (escaped e, w)
