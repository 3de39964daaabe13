-- ===== src/Waiting/Rounds.antt =====
-- `wait_until` of scripts/wait_for_services.py, described without its loop: the world after so
-- many failed rounds, and what ends the rounds.
use Prim.Native.String
use yamazaki_incubator.Base.{ℕ, zero, suc, ◌+◌, ◌*◌, ◌≤◌, ◌≡◌, true, false, String}
use yamazaki_incubator.Base.Int.{ℤ}
use yamazaki_incubator.Base.Result.{Result, ok, raised}
use yamazaki_incubator.Base.Exec.{Exec}
use yamazaki_incubator.Waiting.{
  Console, Ending, ready, timed_out, escaped, is_uncaught, is_before, timeout_message,
}

module _ {W : Type 0} (console : Console W) (check : Exec W (Unit {0})) where
  -- The check of a round, which follows a reading of the clock.
  abbrev pub asked : W → Result (Unit {0}) × W
  asked w = check (console.monotonic w).1

  -- A round whose check failed.
  abbrev pub round_of : W → W
  round_of w = console.sleep 2 (asked w).1

  abbrev pub world_after : ℕ → W → W
  world_after zero w = w
  world_after (suc n) w = world_after n (round_of w)

  -- `type(exc).__name__`, where there is an exception
  abbrev pub error_or : String → Result (Unit {0}) → String
  error_or last (ok _) = last
  error_or last (raised e) = e

  -- The error of the last of so many rounds.
  abbrev pub error_after : ℕ → String → W → String
  error_after zero last w = last
  error_after (suc n) last w = error_after n (error_or last (asked w).0) (round_of w)

  -- The clock never goes back, and a sleep lasts as long as it was asked to.
  pub record IsClock (now : W → ℕ) : Type 0 where
    pub ticks : 1 ≤ console.ticks_per_second
    pub reads : (w : W) → (console.monotonic w).0 ≡ now w
    pub reading : (w : W) → now w ≤ now (console.monotonic w).1
    pub checking : (w : W) → now w ≤ now (check w).1
    pub sleeping : (s : ℕ) (w : W) → now w + console.ticks_per_second * s ≤ now (console.sleep s w)

  module _ (name : String) (deadline : ℤ) where
    pub record Failed (w : W) : Type 0 where
      pub before : is_before (console.monotonic w).0 deadline ≡ true
      pub error : String
      pub raises : (asked w).0 ≡ raised error
      pub caught : is_uncaught console error ≡ false

    -- The round that is the last.
    pub data Final (last : String) (w : W) : Ending × W → Type 0 where
      answered :
          is_before (console.monotonic w).0 deadline ≡ true
          → (asked w).0 ≡ ok tt
          → Final last w (ready, console.print (String.◌++◌ name ": ready") (asked w).1)
      interrupted :
          {e : String}
          → is_before (console.monotonic w).0 deadline ≡ true
          → (asked w).0 ≡ raised e
          → is_uncaught console e ≡ true
          → Final last w (escaped e, (asked w).1)
      late :
          is_before (console.monotonic w).0 deadline ≡ false
          → Final last w (timed_out (timeout_message name last), (console.monotonic w).1)

    -- So many rounds at most fail, one after the other, and then comes the last.
    pub record Waits (most : ℕ) (last : String) (w : W) (result : Ending × W) : Type 0 where
      pub rounds : ℕ
      pub bounded : rounds ≤ most
      pub failed : (j : ℕ) → suc j ≤ rounds → Failed (world_after j w)
      pub final : Final (error_after rounds last w) (world_after rounds w) result
