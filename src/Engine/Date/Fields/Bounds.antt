-- ===== src/Engine/Date/Fields/Bounds.antt =====
-- The ranges of the fields that `get_date_fields` gives.
use cno_cli.Base.{ℕ, ◌<◌, ◌≡◌, arith, ap}
use cno_cli.Base.{Bool, true, false, some, take}
use cno_cli.Base.Int.{
  ℤ, pos, pos_part, neg_part, ◌+ℤ◌, ◌-ℤ◌, ◌≤ℤ◌, ◌<ℤ◌, +ℤ_parts, -ℤ_parts, *ℤ_parts, eq_of_parts,
}
use cno_cli.Engine.Date.Calendar.{floor_div-math_mod}
use cno_cli.Engine.Date.Year.{days_from_year, days_in_year}
use cno_cli.Engine.Date.Year.Laws.{days_in_year_bounds, days_from_year_step}
use cno_cli.Engine.Date.Year.Search.{IsYearOf}
use cno_cli.Engine.Date.Fields.{Fields, month_days, month_length, get_date_fields}
use cno_cli.Engine.Date.Fields.Months.{month_loop_le, month_loop_day, total, Short}
use cno_cli.Engine.Date.Fields.RoundTrip.{fields, found, split_time_lem}

ruleset parts = (arith, +ℤ_parts, -ℤ_parts, *ℤ_parts)

abbrev pub InRange : ℤ → ℕ → ℕ → Type 0
InRange a lo hi = (pos lo ≤ℤ a) × (a ≤ℤ pos hi)

-- Every field lies in the range that a calendar gives it.
pub record IsCalendar (f : Fields) : Type 0 where
  pub month_ok : InRange f.month 0 11
  pub day_ok : InRange f.day 1 31
  pub hours_ok : InRange f.hours 0 23
  pub minutes_ok : InRange f.minutes 0 59
  pub seconds_ok : InRange f.seconds 0 59
  pub ms_ok : InRange f.ms 0 999
  pub week_day_ok : InRange f.week_day 0 6

Short-months : (y : ℤ) → Short y (take 11 month_days) 0
unfolding month_length
Short-months y =
    let (n, len, le) = days_in_year_bounds y in
    let p = ap pos_part len in let q = ap neg_part len in omega parts

-- The first eleven months are a year but for 31 days.
eleven_months : (y : ℤ) → total y (take 11 month_days) 0 +ℤ pos 31 ≡ days_in_year y
unfolding month_length
eleven_months y = eq_of_parts _ _ (omega parts)

module _ (tz days : ℤ) (n : ℕ) (y : ℤ) (small : n < 86400000) (year_of : IsYearOf days y) where
  day_left : let left = (found tz days n y small).1 in (pos 0 ≤ℤ left) × (left <ℤ pos 31)
  day_left =
      let step = days_from_year_step y in
      let until : days <ℤ days_from_year y +ℤ days_in_year y = rw step at (year_of.1) in
      month_loop_day y (take 11 month_days) 0 (days -ℤ days_from_year y) (Short-months y)
        (omega parts) (rw (eleven_months y) (omega parts))

  pub fields-IsCalendar : IsCalendar (fields tz days n y small)
  fields-IsCalendar =
      let (r, m, (lt, div)) = floor_div-math_mod (days +ℤ pos 4) 7 (omega arith) in
      let left = day_left in
      record {
        month_ok = omega (arith, month_loop_le y (take 11 month_days) 0 (days -ℤ days_from_year y));
        day_ok = omega parts;
        hours_ok = omega arith;
        minutes_ok = omega arith;
        seconds_ok = omega arith;
        ms_ok = omega arith;
        week_day_ok = rw m (omega arith);
      }

-- For every time value that is a number, in UTC and under every local offset: `get_date_fields`
-- gives fields, and the month, the day of the month, the time of the day and the day of the week
-- are all in their ranges.
pub get_date_fields-IsCalendar :
    (offset : ℤ → ℤ) (is_local force : Bool) (t : ℤ)
    → (f : Fields) × (get_date_fields offset is_local force (some t) ≡ some f) × IsCalendar f
unfolding get_date_fields
get_date_fields-IsCalendar offset true force t =
    let s = split_time_lem _ _ in
    (_, s.result, fields-IsCalendar _ s.days s.n s.y s.small s.year_of)
get_date_fields-IsCalendar offset false force t =
    let s = split_time_lem (pos 0) t in
    (_, s.result, fields-IsCalendar _ s.days s.n s.y s.small s.year_of)
