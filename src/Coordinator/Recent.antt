-- ===== src/Coordinator/Recent.antt =====
-- `recent_request` of src/yamazaki/service.py: the request of the CLI.
use yamazaki_incubator.Base.{
  ℕ, ◌*◌, ◌≤◌, ◌≡◌, refl, sym, true, false, not, ◌&&◌, List, String, if◌then◌else◌, is_empty, arith,
  some, string_eq,
}
use yamazaki_incubator.Base.Int.{ℤ, pos, ◌-ℤ◌, ◌+ℤ◌, leb_ℤ, scaled, eq_of_parts, +ℤ_parts, -ℤ_parts}
use yamazaki_incubator.Base.Result.{ok}
use yamazaki_incubator.Base.Exec.{Exec, raise, lift, ◌>>=◌}
use yamazaki_incubator.Base.Unique.{all_different}
use yamazaki_incubator.Ports.{Environment}
use yamazaki_incubator.Contracts.{
  DateTime, InvestigationRequest, validate_request, default_budget, is_valid_budget, instant,
  instant-utc, time_le,
}

abbrev asked : {W A : Type 0} → (W → A × W) → Exec W A
asked m w = let (a, after) = m w in (ok a, after)

-- `end - timedelta(minutes=n)`
abbrev pub minutes_before : DateTime → ℤ → DateTime
minutes_before end n = record end { reading = end.reading -ℤ scaled 60000000 n }

-- The fields with a `default_factory` are made by the constructor, which then checks.
unfoldable pub recent_request :
    {W : Type 0}
    → Environment W
    → (cluster_ids : List String) → (minutes : ℤ) → Exec W InvestigationRequest
recent_request env cluster_ids minutes =
    if not (leb_ℤ (pos 1) minutes && leb_ℤ minutes (pos 1440)) then raise "ValueError" else (do
      end ← asked env.utc_now
      id ← asked env.uuid4
      created_at ← asked env.utc_now
      lift (
          validate_request (record {
            investigation_id = id;
            cluster_ids = cluster_ids;
            window_start = minutes_before end minutes;
            window_end = end;
            budget = default_budget;
            created_at = created_at;
          })))

-- Going back by a difference and forth again.
sub-add : (a b : ℤ) → (a -ℤ b) +ℤ b ≡ a
sub-add a b = eq_of_parts ((a -ℤ b) +ℤ b) a (omega (arith, +ℤ_parts (a -ℤ b) b, -ℤ_parts a b))

sub-lt : (a : ℤ) (n : ℕ) → 1 ≤ n → leb_ℤ a (a -ℤ pos n) ≡ false
sub-lt a n h = ground (arith, -ℤ_parts a (pos n))

module _ (end : DateTime) (n : ℕ) (utc : end.offset ≡ some (pos 0)) where
  end-instant : instant end ≡ end.reading
  end-instant = instant-utc end utc

  start-instant : instant (minutes_before end (pos n)) ≡ end.reading -ℤ pos (60000000 * n)
  unfolding scaled
  start-instant = instant-utc (minutes_before end (pos n)) utc

  window-ordered : 1 ≤ n → time_le end (minutes_before end (pos n)) ≡ false
  unfolding time_le
  window-ordered h =
      rw (end-instant, start-instant) (sub-lt end.reading (60000000 * n) (omega (arith, h)))

  window-length : instant end ≡ instant (minutes_before end (pos n)) +ℤ pos (60000000 * n)
  window-length = rw (end-instant, start-instant) (sym (sub-add end.reading (pos (60000000 * n))))

in_range : (n : ℕ) → 1 ≤ n → n ≤ 1440 → (leb_ℤ (pos 1) (pos n) && leb_ℤ (pos n) (pos 1440)) ≡ true
in_range n h k = ground arith

pub recent_request-valid :
    {W : Type 0} (env : Environment W) (cluster_ids : List String) (n : ℕ) (w : W)
    → 1 ≤ n
    → n ≤ 1440
    → is_empty cluster_ids ≡ false
    → all_different cluster_ids ≡ true
    → (env.utc_now w).0.offset ≡ some (pos 0)
    → (request : InvestigationRequest) × ((recent_request env cluster_ids (pos n) w).0 ≡ ok request)
      × (request.cluster_ids ≡ cluster_ids)
      × (request.window_end ≡ (env.utc_now w).0)
      × (instant request.window_end ≡ instant request.window_start +ℤ pos (60000000 * n))
unfolding recent_request validate_request is_valid_budget
recent_request-valid env cluster_ids n w h k filled unique utc =
    let end = (env.utc_now w).0 in
    (
      record {
        investigation_id = (env.uuid4 (env.utc_now w).1).0;
        cluster_ids = cluster_ids;
        window_start = minutes_before end (pos n);
        window_end = end;
        budget = default_budget;
        created_at = (env.utc_now (env.uuid4 (env.utc_now w).1).1).0;
      },
      rw (in_range n h k, filled, unique, window-ordered end n utc h, utc),
      refl,
      refl,
      window-length end n utc,
    )
