-- ===== src/Contracts/Time.antt =====
-- Python's `datetime`: a clock reading in microseconds and, if it is timezone-aware, the offset
-- from UTC. `utc_aware` is `_aware` of src/yamazaki/normalization.py, which the engine adapters
-- repeat as `_datetime`. The range limits of `datetime` (years 1 to 9999) are not modelled.
use yamazaki_incubator.Base.{◌≡◌, arith, Bool, true, false, Option, none, some}
use yamazaki_incubator.Base.Int.{ℤ, pos, ◌-ℤ◌, leb_ℤ, eq_of_parts, -ℤ_parts}

pub record DateTime : Type 0 where
  pub reading : ℤ
  pub offset : Option ℤ

-- `value.tzinfo is not None`
abbrev pub is_aware : DateTime → Bool
is_aware d = elim d.offset [ none ↦ false | some _ ↦ true ]

in_utc : Option ℤ → ℤ → ℤ
in_utc none reading = reading
in_utc (some offset) reading = reading -ℤ offset

-- A naive value is read as UTC, an aware one is converted to UTC.
unfoldable pub utc_aware : DateTime → DateTime
unfolding in_utc
utc_aware d = record { reading = in_utc d.offset d.reading; offset = some (pos 0) }

-- The instant of an aware value; Python compares aware values by it.
unfoldable pub instant : DateTime → ℤ
unfolding in_utc
instant d = in_utc d.offset d.reading

-- `a <= b` on aware values
unfoldable pub time_le : DateTime → DateTime → Bool
unfolding instant
time_le a b = leb_ℤ (instant a) (instant b)

minus_zero : (a : ℤ) → a -ℤ pos 0 ≡ a
minus_zero a = eq_of_parts (a -ℤ pos 0) a (omega (arith, -ℤ_parts a (pos 0)))

pub instant-utc : (d : DateTime) → d.offset ≡ some (pos 0) → instant d ≡ d.reading
unfolding instant
instant-utc d h = rw (h, minus_zero d.reading)
