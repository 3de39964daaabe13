-- ===== src/Waiting/Ends.antt =====
-- The end of `wait_until` of scripts/wait_for_services.py.
use native.Mathlib.Nat.{suc-mul, mul_comm, mul_left_comm, mul-le-mul_left}
use yamazaki_incubator.Base.{
  ℕ, zero, suc, ◌+◌, ◌*◌, ◌≤◌, ◌≡◌, refl, true, false, some, String, arith, inl, inr, Bool-cases,
}
use yamazaki_incubator.Base.Int.{ℤ, pos, negsuc, ◌≤ℤ◌, +ℤ_parts, pos_part, neg_part, scaled}
use yamazaki_incubator.Base.Result.{raised, Result-cases}
use yamazaki_incubator.Base.Exec.{Exec}
use yamazaki_incubator.Waiting.{
  Console, Ending, is_uncaught, is_before, wait_rounds, wait_until, deadline_at,
}
use yamazaki_incubator.Waiting.Rounds.{
  asked, round_of, world_after, IsClock, Failed, Final, answered, interrupted, late, Waits,
}

is_before-lt : (t : ℕ) (d : ℤ) → is_before t d ≡ true → suc t + neg_part d ≤ pos_part d
is_before-lt t d b = ground arith

-- A timeout of `2 * n` seconds at most.
scaled-le : (k n : ℕ) (timeout : ℤ) → timeout ≤ℤ pos (2 * n) → scaled k timeout ≤ℤ pos (n * (2 * k))
unfolding scaled
scaled-le k n (pos t) h = omega (
  arith,
  mul-le-mul_left {m = t} {n = 2 * n} k (omega arith),
  mul_left_comm n 2 k,
  mul_left_comm k 2 n,
  mul_comm n k,
)
scaled-le k n (negsuc t) h = ground arith

module _ {W : Type 0} (console : Console W) (check : Exec W (Unit {0})) (now : W → ℕ) where
  -- A round that failed takes two seconds at least.
  round-now :
      (w : W)
      → IsClock console check now
      → now w + 2 * console.ticks_per_second ≤ now (round_of console check w)
  round-now w clock = omega (
    arith,
    clock.reading w,
    clock.checking (console.monotonic w).1,
    clock.sleeping 2 (asked console check w).1,
  )

module _ {W : Type 0} (console : Console W) (check : Exec W (Unit {0})) (now : W → ℕ)
    (name : String) (deadline : ℤ) where
  one_more :
      {most : ℕ} {last e : String} {w : W} {r : Ending × W}
      → is_before (console.monotonic w).0 deadline ≡ true
      → (asked console check w).0 ≡ raised e
      → is_uncaught console e ≡ false
      → Waits console check name deadline most e (round_of console check w) r
      → Waits console check name deadline (suc most) last w r
  one_more {most} {last} {e} {w} {r} b a c waits = record {
    rounds = suc waits.rounds;
    bounded = omega (arith, waits.bounded);
    failed = first;
    final = rw a waits.final;
  }
    where
      first :
          (j : ℕ)
          → suc j ≤ suc waits.rounds
          → Failed console check name deadline (world_after console check j w)
      first zero h = record { before = b; error = e; raises = a; caught = c }
      first (suc j) h = waits.failed j (omega arith)

  -- A round is the last, or its check failed.
  last_or_failed :
      (fuel n : ℕ) (last : String) (w : W)
      → ((e : String)
          → is_before (console.monotonic w).0 deadline ≡ true
          → (asked console check w).0 ≡ raised e
          → is_uncaught console e ≡ false
          → (r : Ending × W) × (wait_rounds console fuel name check deadline e
                (round_of console check w)
              ≡ some r)
            × Waits console check name deadline n last w r)
      → (r : Ending × W) × (wait_rounds console (suc fuel) name check deadline last w ≡ some r)
        × Waits console check name deadline n last w r
  unfolding wait_rounds
  last_or_failed fuel n last w next =
      elim (Bool-cases (is_before (console.monotonic w).0 deadline)) [
        | inr b ↦ (_, rw (wait_rounds, b) refl, at_once (late b))
        | inl b ↦ elim (Result-cases (asked console check w).0) [
          | inl (_, a) ↦ (_, rw (wait_rounds, b, a) refl, at_once (answered b a))
          | inr (e, a) ↦ elim (Bool-cases (is_uncaught console e)) [
            | inl u ↦ (_, rw (wait_rounds, b, a, u) refl, at_once (interrupted b a u))
            | inr u ↦
                let (r, returned, waits) = next e b a u in
                (r, rw (wait_rounds, b, a, u) returned, waits)
          ]
        ]
      ]
    where
      at_once :
          {r : Ending × W}
          → Final console check name deadline last w r
          → Waits console check name deadline n last w r
      at_once final = record {
        rounds = 0;
        bounded = omega arith;
        failed = λ j k. absurd (omega arith);
        final = final;
      }

  wait_rounds-ends :
      (n : ℕ) (last : String) (w : W)
      → IsClock console check now
      → deadline ≤ℤ pos (now w + n * (2 * console.ticks_per_second))
      → (r : Ending × W) × (wait_rounds console (suc n) name check deadline last w ≡ some r)
        × Waits console check name deadline n last w r
  wait_rounds-ends zero last w clock h =
      last_or_failed 0 0 last w
        (λ e b a u. absurd (omega (arith, is_before-lt _ deadline b, clock.reads w)))
  wait_rounds-ends (suc n) last w clock h = last_or_failed (suc n) (suc n) last w (λ e b a u.
      let (r, returned, waits) = wait_rounds-ends n e (round_of console check w) clock (
        omega
          (arith, round-now console check now w clock, suc-mul n (2 * console.ticks_per_second))) in
      (r, returned, one_more b a u waits))

module _ {W : Type 0} (console : Console W) (check : Exec W (Unit {0})) (now : W → ℕ)
    (name : String) where
  -- If the clock never goes back, a sleep lasts as long as asked and the timeout is at most 2n
  -- seconds, `wait_until` ends with n + 1 rounds of fuel. At most n rounds fail, each before the
  -- deadline; then the check returns, or an exception leaves it that `except Exception` does not
  -- catch, or the deadline has come and `TimeoutError` names the last error.
  pub wait_until-ends :
      (n : ℕ) (timeout : ℤ) (w : W)
      → IsClock console check now
      → timeout ≤ℤ pos (2 * n)
      → (r : Ending × W) × (wait_until console (suc n) name check timeout w ≡ some r)
        × Waits console check name
            (deadline_at console timeout (now w))
            n
            "unavailable"
            (console.monotonic w).1
            r
  unfolding wait_until
  wait_until-ends n timeout w clock h =
      rw (clock.reads w, wait_until)
        (wait_rounds-ends console check now name (deadline_at console timeout (now w)) n
          "unavailable" (console.monotonic w).1 clock
          (omega (
            arith,
            scaled-le console.ticks_per_second n timeout h,
            +ℤ_parts (pos (now w)) (scaled console.ticks_per_second timeout),
            clock.reading w,
          )))
