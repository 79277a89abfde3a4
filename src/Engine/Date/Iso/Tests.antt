-- ===== src/Engine/Date/Iso/Tests.antt =====
-- Runs of `toISOString`, `toUTCString` and `Date.parse` of .backup/quickjs.c.
use cno_cli.Base.{ℕ, ◌+◌, ◌≡◌, refl, arith, Bool, Option, none, some, List, [], ◌∷◌}
use cno_cli.Base.Int.{ℤ, pos, negsuc, ◌+ℤ◌, ◌-ℤ◌, ◌*ℤ◌}
use cno_cli.Engine.Result.{ok}
use cno_cli.Engine.Date.Fields.{
  Fields, set_date_fields, time_clip, make_date, add_months, to_index, month_length,
}
use cno_cli.Engine.Date.Calendar.{floor_div, quot, rem}
use cno_cli.Engine.Date.Year.{days_from_year, days_in_year, logical_not}
use cno_cli.Engine.Date.Print.{iso_string, utc_string, date_text, get_date_string}
use cno_cli.Engine.Date.Iso.{js_date_parse}
use cno_cli.Engine.Date.Iso.RoundTrip.{js_date_parse-get_date_string}

abbrev in_utc : ℤ → ℤ
in_utc t = pos 0

abbrev no_other : List ℕ → Option (Fields × Bool)
no_other sp = none

abbrev moment : Fields
moment = record {
  year = pos 2018;
  month = pos 0;
  day = pos 2;
  hours = pos 23;
  minutes = pos 2;
  seconds = pos 56;
  ms = pos 927;
  week_day = pos 2;
  tz = pos 0;
}

printed_iso :
    date_text iso_string 3 moment
    ≡ b'2' ∷ b'0' ∷ b'1' ∷ b'8' ∷ b'-' ∷ b'0' ∷ b'1' ∷ b'-' ∷ b'0' ∷ b'2' ∷ b'T' ∷ b'2' ∷ b'3'
      ∷ b':' ∷ b'0' ∷ b'2' ∷ b':' ∷ b'5' ∷ b'6' ∷ b'.' ∷ b'9' ∷ b'2' ∷ b'7' ∷ b'Z' ∷ []
unfolding date_text ◌+ℤ◌
printed_iso = refl

printed_utc :
    date_text utc_string 3 moment
    ≡ b'T' ∷ b'u' ∷ b'e' ∷ b',' ∷ b' ' ∷ b'0' ∷ b'2' ∷ b' ' ∷ b'J' ∷ b'a' ∷ b'n' ∷ b' ' ∷ b'2'
      ∷ b'0' ∷ b'1' ∷ b'8' ∷ b' ' ∷ b'2' ∷ b'3' ∷ b':' ∷ b'0' ∷ b'2' ∷ b':' ∷ b'5' ∷ b'6' ∷ b' '
      ∷ b'G' ∷ b'M' ∷ b'T' ∷ []
unfolding date_text ◌+ℤ◌
printed_utc = refl

-- A zone takes the last time value of a `Date` beyond it: the sum is not clipped.
parsed_beyond :
    js_date_parse no_other in_utc (
      b'+' ∷ b'2' ∷ b'7' ∷ b'5' ∷ b'7' ∷ b'6' ∷ b'0' ∷ b'-' ∷ b'0' ∷ b'9' ∷ b'-' ∷ b'1' ∷ b'3'
      ∷ b'T' ∷ b'0' ∷ b'0' ∷ b':' ∷ b'0' ∷ b'0' ∷ b':' ∷ b'0' ∷ b'0' ∷ b'.' ∷ b'0' ∷ b'0' ∷ b'0'
      ∷ b'-' ∷ b'0' ∷ b'1' ∷ b':' ∷ b'0' ∷ b'0' ∷ [])
    ≡ some (pos (8640000000000000 + 3600000))
unfolding js_date_parse set_date_fields ◌+ℤ◌ floor_div quot ◌-ℤ◌ rem time_clip make_date ◌*ℤ◌
    add_months to_index days_from_year month_length days_in_year logical_not
parsed_beyond = refl

js_date_parse-get_date_string_example :
    (text : List ℕ) × (get_date_string in_utc iso_string 3 (some (negsuc 61999999999)) ≡ ok text)
    × (js_date_parse no_other in_utc text ≡ some (negsuc 61999999999))
unfolding ◌-ℤ◌
js_date_parse-get_date_string_example =
    js_date_parse-get_date_string no_other in_utc (negsuc 61999999999) (omega arith) (omega arith)
