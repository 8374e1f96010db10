-- ===== src/Domain/Time.antt =====
-- Aware Python datetimes. A datetime keeps its zone, its wall clock and the instant it denotes, in
-- microseconds; the rules of a zone are `zoneinfo`'s, and stand as the functions of a record.
-- Python compares the wall clocks of two datetimes of one zone, and the instants of two zones; a
-- `timedelta` moves the wall clock. A subtraction below the year 1, which Python refuses, stops at 0.
use clock_ha_orchestrator.Prelude.{
  ℕ, ◌+◌, ◌-◌, ◌*◌, ◌/◌, Bool, true, false, ltb, leb, if◌then◌else◌,
}

-- What `ZoneInfo(name)` gives: the instant of a wall time, and the wall time at an instant.
pub record ZoneInfo : Type 0 where
  pub to_utc : ℕ → ℕ
  pub to_wall : ℕ → ℕ

-- The zones at work: UTC, and the one of the hotel.
pub data Tz : Type 0 where
  utc hotel : Tz

pub record DateTime : Type 0 where
  pub tz : Tz
  pub wall : ℕ
  pub instant : ℕ

abbrev pub minute : ℕ
minute = 60000000

abbrev pub day : ℕ
day = 86400000000

abbrev pub same_tz : Tz → Tz → Bool
same_tz Tz.utc Tz.utc = true
same_tz Tz.hotel Tz.hotel = true
same_tz _ _ = false

-- `a < b`
abbrev pub before : DateTime → DateTime → Bool
before a b = if same_tz a.tz b.tz then ltb a.wall b.wall else ltb a.instant b.instant

-- `a <= b`
abbrev pub not_after : DateTime → DateTime → Bool
not_after a b = if same_tz a.tz b.tz then leb a.wall b.wall else leb a.instant b.instant

abbrev pub utc_time : ℕ → DateTime
utc_time n = record { tz = Tz.utc; wall = n; instant = n }

-- A wall time read in the hotel's zone.
abbrev pub hotel_time : ZoneInfo → ℕ → DateTime
hotel_time z w = record { tz = Tz.hotel; wall = w; instant = z.to_utc w }

-- `value.astimezone(UTC)`, and `value.astimezone(zone)` of the hotel's zone.
abbrev pub to_utc : DateTime → DateTime
to_utc t = utc_time t.instant

abbrev pub to_hotel : ZoneInfo → DateTime → DateTime
to_hotel z t = record { tz = Tz.hotel; wall = z.to_wall t.instant; instant = t.instant }

-- `datetime.combine(date, time, tzinfo=zone)`
abbrev pub combine : ZoneInfo → ℕ → ℕ → DateTime
combine z date time = hotel_time z (date * day + time)

-- `value.date()`
abbrev pub date_of : DateTime → ℕ
date_of t = t.wall / day

abbrev pub at_wall : ZoneInfo → Tz → ℕ → DateTime
at_wall z Tz.utc w = utc_time w
at_wall z Tz.hotel w = hotel_time z w

-- `value - delta` and `value + delta`
abbrev pub minus : ZoneInfo → DateTime → ℕ → DateTime
minus z t delta = at_wall z t.tz (t.wall - delta)

abbrev pub plus : ZoneInfo → DateTime → ℕ → DateTime
plus z t delta = at_wall z t.tz (t.wall + delta)
