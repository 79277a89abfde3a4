-- ===== src/Engine/Date/Iso.antt =====
-- The reading of an ISO date string in .backup/quickjs.c: `js_date_parse_isostring`, and what `js_Date_parse` does with the fields. The bytes end with a NUL, which is what is
-- found at the end of the list.
pub mod Digits
pub mod Bytes
pub mod Text
pub mod Read
pub mod RoundTrip
pub mod Tests
use cno_cli.Base.{
  ℕ, zero, suc, ◌+◌, ◌-◌, ◌*◌, ◌/◌, ◌%◌, Bool, true, false, ◌&&◌, ◌||◌, not, Option, none, some,
}
use cno_cli.Base.{List, [], ◌∷◌, length, take, ltb, leb, ◌==◌, if◌then◌else◌}
use cno_cli.Base.Int.{ℤ, pos, negsuc, ◌+ℤ◌, ◌-ℤ◌, ◌*ℤ◌, ltb_ℤ}
use cno_cli.Engine.Date.Scan.{
  peek, string_skip_char, is_digit, digits_loop, string_get_digits, ms_loop,
  string_get_milliseconds, trim_hours, zone_minutes, zone_of, signed_zone, string_get_tzoffset,
}
use cno_cli.Engine.Date.Fields.{Fields, negate, set_date_fields}

-- The year, and what is behind it.
abbrev pub unsigned : Option (ℕ × List ℕ) → Option (ℤ × List ℕ)
unsigned none = none
unsigned (some (v, sp)) = some (pos v, sp)

abbrev pub negative_year : Option (ℕ × List ℕ) → Option (ℤ × List ℕ)
negative_year none = none
negative_year (some (zero, sp)) = none
negative_year (some (suc v, sp)) = some (negsuc v, sp)

unfoldable pub iso_read_year : List ℕ → Option (ℤ × List ℕ)
unfolding string_get_digits
iso_read_year [] = none
iso_read_year (sgn ∷ sp) =
    if sgn == b'-'
    then negative_year (string_get_digits 6 6 sp)
    else if sgn == b'+'
    then unsigned (string_get_digits 6 6 sp)
    else unsigned (string_get_digits 4 4 (sgn ∷ sp))

-- A month or a day, from 1 on.
abbrev pub from_one : Option (ℕ × List ℕ) → Option (ℕ × List ℕ)
from_one none = none
from_one (some (zero, sp)) = none
from_one (some (suc v, sp)) = some (suc v, sp)

abbrev pub day_behind : ℕ → Option (List ℕ) → List ℕ → Option (ℕ × (ℕ × List ℕ))
day_behind month none sp = some (month, (1, sp))
day_behind month (some rest) sp = elim (from_one (string_get_digits 2 2 rest)) [
  | none ↦ none
  | some day ↦ some (month, (day.0, day.1))
]

-- The month from 0 and the day, where they are there.
unfoldable pub iso_read_day : List ℕ → Option (ℕ × (ℕ × List ℕ))
unfolding string_get_digits string_skip_char
iso_read_day sp = elim (string_skip_char b'-' sp) [
  | none ↦ some (0, (1, sp))
  | some rest ↦ elim (from_one (string_get_digits 2 2 rest)) [
    | none ↦ none
    | some month ↦ day_behind (month.0 - 1) (string_skip_char b'-' (month.1)) (month.1)
  ]
]

-- The time of day, whether it makes the date local, and what is behind it.
pub record Time : Type 0 where
  pub hour : ℕ
  pub minute : ℕ
  pub second : ℕ
  pub milli : ℕ
  pub local : Bool
  pub behind : List ℕ

-- A time that is cut short makes the hour 100, which no date has.
pub data TimeRead : Type 0 where
  failed rejected : TimeRead
  time : Time → TimeRead

abbrev pub seconds_behind : ℕ → ℕ → Option (List ℕ) → List ℕ → TimeRead
seconds_behind h m none sp =
    time (record { hour = h; minute = m; second = 0; milli = 0; local = true; behind = sp })
seconds_behind h m (some rest) sp = elim (string_get_digits 2 2 rest) [
  | none ↦ failed
  | some s ↦
      let (ms, left) = string_get_milliseconds (s.1) in
      time (record { hour = h; minute = m; second = s.0; milli = ms; local = true; behind = left })
]

abbrev pub minutes_behind : ℕ → Option (List ℕ) → TimeRead
minutes_behind h none = rejected
minutes_behind h (some rest) = elim (string_get_digits 2 2 rest) [
  | none ↦ rejected
  | some m ↦ seconds_behind h (m.0) (string_skip_char b':' (m.1)) (m.1)
]

unfoldable pub iso_read_time : List ℕ → TimeRead
unfolding string_get_digits string_skip_char string_get_milliseconds
iso_read_time sp = elim (string_skip_char b'T' sp) [
  | none ↦ time (record { hour = 0; minute = 0; second = 0; milli = 0; local = false; behind = sp })
  | some rest ↦ elim (string_get_digits 2 2 rest) [
    | none ↦ rejected
    | some h ↦ minutes_behind (h.0) (string_skip_char b':' (h.1))
  ]
]

abbrev pub fields_with : ℤ → ℕ → ℕ → Time → ℤ → Fields
fields_with y month day t tz = record {
  year = y;
  month = pos month;
  day = pos day;
  hours = pos t.hour;
  minutes = pos t.minute;
  seconds = pos t.second;
  ms = pos t.milli;
  week_day = pos 0;
  tz = tz;
}

-- The zone and the end of the text.
abbrev pub zone_read : ℤ → ℕ → ℕ → Time → Option (ℤ × List ℕ) → Option (Fields × Bool)
zone_read y month day t none = none
zone_read y month day t (some (tz, rest)) =
    if peek rest == 0 then some (fields_with y month day t tz, false) else none

abbrev pub with_time : ℤ → ℕ → ℕ → TimeRead → Option (Fields × Bool)
with_time y month day failed = none
with_time y month day rejected = some (
  fields_with y month day
      (record { hour = 100; minute = 0; second = 0; milli = 0; local = true; behind = [] }) (pos 0),
  true,
)
with_time y month day (time t) =
    if not (peek t.behind == 0)
    then zone_read y month day t (string_get_tzoffset true t.behind)
    else some (fields_with y month day t (pos 0), t.local)

unfoldable pub js_date_parse_isostring : List ℕ → Option (Fields × Bool)
unfolding iso_read_year iso_read_day iso_read_time string_get_tzoffset
js_date_parse_isostring sp = elim (iso_read_year sp) [
  | none ↦ none
  | some y ↦ elim (iso_read_day (y.1)) [
    | none ↦ none
    | some d ↦ with_time (y.0) (d.0) (d.1.0) (iso_read_time (d.1.1))
  ]
]

abbrev pub within : ℤ → ℕ → Bool
within v max_value = not (ltb_ℤ (pos max_value) v)

abbrev pub is_zero : ℤ → Bool
is_zero (pos zero) = true
is_zero (pos (suc n)) = false
is_zero (negsuc n) = false

-- `field_max`, and 24:00:00.000.
unfoldable pub is_valid : Fields → Bool
is_valid f =
    within f.month 11
    && within f.day 31
    && within f.hours 24
    && within f.minutes 59
    && within f.seconds 59
    && (within f.hours 23 || (is_zero f.minutes && is_zero f.seconds && is_zero f.ms))

abbrev pub minus_zone : ℤ → Option ℤ → Option ℤ
minus_zone tz none = none
minus_zone tz (some d) = some (d -ℤ 60000 *ℤ tz)

-- What `js_Date_parse` makes of the fields that were read.
unfoldable pub date_of_fields : (ℤ → ℤ) → Fields × Bool → Option ℤ
unfolding is_valid
date_of_fields offset (f, is_local) =
    if is_valid f then minus_zone f.tz (set_date_fields offset is_local f) else none

-- The string as a byte array.
abbrev pub to_byte : ℕ → ℕ
to_byte c = if ltb 255 c then (if c == 0x2212 then b'-' else b'x') else c

unfoldable pub byte_array : ℕ → List ℕ → List ℕ
byte_array zero str = []
byte_array (suc room) [] = []
byte_array (suc room) (c ∷ str) = to_byte c ∷ byte_array room str

-- With a reader for the other forms of dates. The buffer has 128 bytes, the last for the NUL.
module _ (js_date_parse_otherstring : List ℕ → Option (Fields × Bool)) where
  abbrev pub either_reader : Option (Fields × Bool) → List ℕ → Option (Fields × Bool)
  either_reader none sp = js_date_parse_otherstring sp
  either_reader (some read) sp = some read

  abbrev pub date_if : (ℤ → ℤ) → Option (Fields × Bool) → Option ℤ
  date_if offset none = none
  date_if offset (some read) = date_of_fields offset read

  unfoldable pub js_date_parse : (ℤ → ℤ) → List ℕ → Option ℤ
  unfolding byte_array js_date_parse_isostring date_of_fields
  js_date_parse offset str =
      let buf = byte_array 127 str in
      date_if offset (either_reader (js_date_parse_isostring buf) buf)
