-- ===== src/Waiting/Services.antt =====
-- The end of `main` of scripts/wait_for_services.py, and what it means that Doris is ready.
use mathlib.Core.List.{Mem, mem-cons_self, mem-cons_of_mem}
use yamazaki_incubator.Base.{
  ℕ, suc, ◌*◌, ◌≡◌, ◌≢◌, refl, true, false, Option, some, List, [], ◌∷◌, String, inl, inr,
  Option-cases, Bool-cases, string_eq,
}
use yamazaki_incubator.Base.Int.{ℤ, pos, ◌≤ℤ◌}
use yamazaki_incubator.Base.Result.{ok, Result-cases}
use yamazaki_incubator.Base.Exec.{Exec, try_finally}
use yamazaki_incubator.Configuration.{Environ}
use yamazaki_incubator.Engines.Cells.{Casts, Row, get_cell}
use yamazaki_incubator.Waiting.{Console, Ending, ready, timed_out, escaped, wait_until, after_wait}
use yamazaki_incubator.Waiting.Rounds.{IsClock}
use yamazaki_incubator.Waiting.Balance.{Counts, Quiet, main-opened}
use yamazaki_incubator.Waiting.Ends.{wait_until-ends}
use yamazaki_incubator.Waiting.Clients.{
  Clients, using, postgres, clickhouse, doris, doris_server, any_alive, require_alive, main,
}

module _ {W Handle A : Type 0} (connect : Exec W Handle) (body : Handle → Exec W A) where
  -- What returned returned from the body.
  using-returned :
      (close : Handle → Exec W (Unit {0})) (w : W) (a : A)
      → (using connect body close w).0 ≡ ok a
      → (h : Handle) × (v : W) × ((body h v).0 ≡ ok a)
  unfolding using try_finally
  using-returned close w a returned = elim (Result-cases (connect w).0) [
    | inl (h, e) ↦ (h, (connect w).1, within h (connect w).1 (rw e at returned))
    | inr (x, e) ↦ cc (rw e at returned)
  ]
    where
      within :
          (h : Handle) (v : W) → (try_finally (body h) (close h) v).0 ≡ ok a → (body h v).0 ≡ ok a
      within h v r = elim (Result-cases (close h (body h v).1).0) [
        | inl (_, e) ↦ rw (try_finally, e) at r
        | inr (x, e) ↦ cc (rw (try_finally, e) at r)
      ]

any_alive-row :
    (K : Casts) (rows : List Row)
    → any_alive K rows ≡ true
    → (row : Row) × Mem row rows × (K.lower (K.str (get_cell row "Alive")) ≡ "true")
unfolding any_alive
any_alive-row K [] h = cc
any_alive-row K (row ∷ rows) h =
    elim (Bool-cases (string_eq.same (K.lower (K.str (get_cell row "Alive"))) "true")) [
      | inl b ↦ (row, mem-cons_self, (string_eq.same_iff _ _).0 b)
      | inr b ↦
          let (found, m, alive) = any_alive-row K rows (rw b at h) in
          (found, mem-cons_of_mem row m, alive)
    ]

require_alive-row :
    {W : Type 0} (K : Casts) (rows : List Row) (w : W)
    → (require_alive K rows w).0 ≡ ok tt
    → any_alive K rows ≡ true
unfolding require_alive
require_alive-row K rows w h = elim (Bool-cases (any_alive K rows)) [
  | inl b ↦ b
  | inr b ↦ absurd (none_alive rows b h)
]
  where
    none_alive : (rows : List Row) → any_alive K rows ≡ false → (require_alive K rows w).0 ≢ ok tt
    none_alive [] b h = cc h
    none_alive (row ∷ rows) b h = cc (rw b at h)

module _ {W : Type 0} (clients : Clients W) (K : Casts) where
  pub doris-alive :
      (w : W)
      → (doris clients K w).0 ≡ ok tt
      → (cursor : clients.cursors.Handle) × (v : W) × (rows : List Row) × (row : Row)
        × ((clients.cursors.ask cursor "SHOW BACKENDS" v).0 ≡ ok rows)
        × Mem row rows
        × (K.lower (K.str (get_cell row "Alive")) ≡ "true")
  unfolding doris
  doris-alive w returned =
      let (connection, u, h) =
        using-returned (clients.connect doris_server) _ clients.close w tt returned in
      let (cursor, v, k) =
        using-returned (clients.cursors.connect connection) _ clients.cursors.close u tt h in
      elim (Result-cases (clients.cursors.ask cursor "SHOW BACKENDS" v).0) [
        | inl (rows, e) ↦
            let (row, m, alive) = any_alive-row K rows (require_alive-row K rows _ (rw e at k)) in
            (cursor, v, rows, row, e, m, alive)
        | inr (x, e) ↦ cc (rw e at k)
      ]

module _ {W : Type 0} (clients : Clients W) (console : Console W) (now : W → ℕ) (K : Casts) where
  -- No client turns the clock back.
  pub record Forward : Type 0 where
    pub postgres_clock : (url : String) → IsClock console (postgres clients url) now
    pub clickhouse_clock : (password : String) → IsClock console (clickhouse clients password) now
    pub doris_clock : IsClock console (doris clients K) now

  after_wait-ends :
      (next : W → Option (Ending × W)) (first : Option (Ending × W)) (r : Ending × W)
      → first ≡ some r
      → ((w : W) → (r' : Ending × W) × (next w ≡ some r'))
      → (r' : Ending × W) × (after_wait next first ≡ some r')
  unfolding after_wait
  after_wait-ends next first (ready, w) e rest = rw e (rest w)
  after_wait-ends next first (timed_out m, w) e rest = ((timed_out m, w), rw e refl)
  after_wait-ends next first (escaped x, w) e rest = ((escaped x, w), rw e refl)

  main-returns :
      (n : ℕ) (environ : Environ) (timeout : ℤ) (w : W)
      → Forward
      → timeout ≤ℤ pos (2 * n)
      → (r : Ending × W) × (main clients console K (suc n) environ timeout w ≡ some r)
  unfolding main
  main-returns n environ timeout w clocks h =
      elim (Option-cases (environ "YAMAZAKI_DATABASE_URL")) [
        | inl e ↦ ((escaped "KeyError", w), rw (main, e) refl)
        | inr (url, e) ↦ elim (Option-cases (environ "YAMAZAKI_IT_CLICKHOUSE_ADMIN_PASSWORD")) [
          | inl f ↦ ((escaped "KeyError", w), rw (main, e, f) refl)
          | inr (password, f) ↦
              let (r, first) =
                waits "postgres" (postgres clients url) w (clocks.postgres_clock url) in
              let (r', second) = after_wait-ends _ _ r first (λ v.
                waits "clickhouse" (clickhouse clients password) v
                  (clocks.clickhouse_clock password)) in
              let (r'', third) =
                after_wait-ends _ _ r' second
                  (λ v. waits "doris" (doris clients K) v clocks.doris_clock) in
              (r'', rw (main, e, f) third)
        ]
      ]
    where
      waits :
          (name : String) (check : Exec W (Unit {0})) (v : W)
          → IsClock console check now
          → (r : Ending × W) × (wait_until console (suc n) name check timeout v ≡ some r)
      waits name check v clock =
          let (r, e, _) = wait_until-ends console check now name n timeout v clock h in (r, e)

  -- If the clock never goes back, a sleep lasts as long as asked, the timeout is at most 2n
  -- seconds, and opening opens one engine, connection, client or cursor and closing one closes
  -- it: `main` of the script ends with n + 1 rounds of fuel for each service, whatever the
  -- services answer, and leaves as many open as there were.
  pub main-ends :
      (opened : W → ℕ) (n : ℕ) (environ : Environ) (timeout : ℤ) (w : W)
      → Forward
      → Counts opened clients
      → Quiet opened console
      → timeout ≤ℤ pos (2 * n)
      → (ending : Ending) × (end : W) × (main clients console K (suc n) environ timeout w
          ≡ some (ending, end))
        × (opened end ≡ opened w)
  main-ends opened n environ timeout w clocks counts quiet h =
      let ((ending, end), e) = main-returns n environ timeout w clocks h in
      (
        ending,
        end,
        e,
        main-opened opened clients console K (suc n) environ timeout w counts quiet ending end e,
      )
