-- ===== src/Engine/Date/Access/Hours.antt =====
-- `setUTCHours` of .backup/quickjs.c: `set_date_field` with the magic number 0x370.
use cno_cli.Base.{ℕ, ◌<◌, arith}
use cno_cli.Base.Int.{ℤ, ◌+ℤ◌, ◌*ℤ◌, +ℤ_parts, -ℤ_parts, *ℤ_parts}
use cno_cli.Engine.Date.Fields.{Fields}
use cno_cli.Engine.Date.Fields.RoundTrip.{fields}

ruleset parts = (arith, +ℤ_parts, -ℤ_parts, *ℤ_parts)

-- MakeTime
abbrev pub time_of : ℤ → ℤ → ℤ → ℤ → ℤ
time_of h m s milli = 3600000 *ℤ h +ℤ 60000 *ℤ m +ℤ 1000 *ℤ s +ℤ milli

module _ (tz days : ℤ) (n : ℕ) (y : ℤ) (small : n < 86400000) (h m s milli : ℤ) where
  -- The fields of a time with another time of the day.
  abbrev changed : Fields
  changed = record (fields tz days n y small) { hours = h; minutes = m; seconds = s; ms = milli }
