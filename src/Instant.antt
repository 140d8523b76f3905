-- ===== src/Instant.antt =====
-- The `datetime` of Python as the services read it: a clock in microseconds with the zone of its text,
-- or none. The clock counts from a midnight more than a day before the least `datetime`, so that no
-- offset, which is less than a day, leads below zero. The day of the year is the calendar's, a parameter where it is used.
use hec_mvp.Base.{ℕ, ◌+◌, ◌-◌, ◌*◌, ◌/◌, ◌%◌, nat_eq, string_eq}

-- `tzinfo`: none, or an offset east or west of UTC in microseconds.
pub data Zone : Type 0 where
  naive : Zone
  east west : ℕ → Zone

pub record Datetime : Type 0 where
  pub wall : ℕ
  pub zone : Zone

-- `dt.replace(tzinfo=timezone.utc)` where there is no zone.
abbrev pub or_utc_zone : Zone → Zone
or_utc_zone naive = east 0
or_utc_zone z = z

abbrev pub aware : Datetime → Datetime
aware dt = record dt { zone = or_utc_zone dt.zone }

abbrev pub shifted : ℕ → Zone → ℕ
shifted wall naive = wall
shifted wall (east k) = wall - k
shifted wall (west k) = wall + k

-- The moment that is meant, on the clock of UTC.
abbrev pub instant : Datetime → ℕ
instant dt = shifted dt.wall dt.zone

abbrev pub second_us : ℕ
second_us = 1000000

abbrev pub hour_us : ℕ
hour_us = 3600 * second_us

-- `dt.hour`, `dt.minute` and `dt.second`, on the clock of the text.
abbrev pub hour : Datetime → ℕ
hour dt = dt.wall / hour_us % 24

abbrev pub minute : Datetime → ℕ
minute dt = dt.wall / (60 * second_us) % 60

abbrev pub second : Datetime → ℕ
second dt = dt.wall / second_us % 60

abbrev pub day : Datetime → ℕ
day dt = dt.wall / (24 * hour_us)
