-- ===== src/Engine/Date/Fields.antt =====
-- `get_date_fields`, `set_date_fields` and `time_clip` of .backup/quickjs.c. The fields are the
-- integers that their doubles hold: exact while no product or sum reaches 2 ^ 53. A time value that
-- is NaN is `none`. `getTimezoneOffset`, which asks the system, is a parameter.
pub mod Months
pub mod RoundTrip
pub mod Bounds
use cno_cli.Base.{
  ℕ, zero, suc, ◌+◌, ◌-◌, ◌*◌, Bool, true, false, ◌||◌, ◌&&◌, not, Option, none, some,
}
use cno_cli.Base.{List, [], ◌∷◌, ltb, ◌==◌, if◌then◌else◌, take}
use cno_cli.Base.Int.{ℤ, pos, negsuc, ◌+ℤ◌, ◌-ℤ◌, ◌*ℤ◌, ltb_ℤ}
use cno_cli.Engine.Date.Calendar.{rem, quot, floor_div, math_mod}
use cno_cli.Engine.Date.Year.{days_from_year, days_in_year, year_from_days}

pub record Fields : Type 0 where
  pub year : ℤ
  pub month : ℤ
  pub day : ℤ
  pub hours : ℤ
  pub minutes : ℤ
  pub seconds : ℤ
  pub ms : ℤ
  pub week_day : ℤ
  pub tz : ℤ

abbrev pub month_days : List ℕ
month_days = 31 ∷ 28 ∷ 31 ∷ 30 ∷ 31 ∷ 30 ∷ 31 ∷ 31 ∷ 30 ∷ 31 ∷ 30 ∷ 31 ∷ []

-- The length of month `i`, which is `md` but for a leap day.
unfoldable pub month_length : ℤ → ℕ → ℕ → ℤ
month_length y i md = if i == 1 then pos md +ℤ (days_in_year y -ℤ pos 365) else pos md

-- The search for the month: the loop breaks where the days left are fewer than the month's.
unfoldable pub month_loop : ℤ → List ℕ → ℕ → ℤ → ℕ × ℤ
month_loop y [] i days = (i, days)
month_loop y (md ∷ mds) i days =
    let next = month_loop y mds (i + 1) (days -ℤ month_length y i md) in
    if ltb_ℤ days (month_length y i md) then (i, days) else next

-- The fields of a day and of the milliseconds `h` within it.
unfoldable pub fields_of : ℤ → ℤ → ℤ → ℤ × ℤ → Fields
fields_of tz h days (y, day_of_year) =
    let ms = rem h 1000 in
    let h1 = quot (h -ℤ ms) 1000 in
    let s = rem h1 60 in
    let h2 = quot (h1 -ℤ s) 60 in
    let m = rem h2 60 in
    let h3 = quot (h2 -ℤ m) 60 in
    let (i, left) = month_loop y (take 11 month_days) 0 day_of_year in
    record {
      year = y;
      month = pos i;
      day = left +ℤ pos 1;
      hours = h3;
      minutes = m;
      seconds = s;
      ms = ms;
      week_day = math_mod (days +ℤ pos 4) 7;
      tz = tz;
    }

abbrev pub negate : ℤ → ℤ
negate a = pos 0 -ℤ a

-- The fields of a time that is a number; `none` only if the search for the year ran out of fuel.
unfoldable pub split_time : ℤ → ℤ → Option Fields
split_time tz d =
    let h = math_mod d 86400000 in
    let days = quot (d -ℤ h) 86400000 in
    elim (year_from_days days) [ none ↦ none | some found ↦ some (fields_of tz h days found) ]

unfoldable pub get_date_fields : (ℤ → ℤ) → Bool → Bool → Option ℤ → Option Fields
get_date_fields offset is_local force none = if force then split_time (pos 0) (pos 0) else none
get_date_fields offset is_local force (some d) =
    if is_local
    then split_time (negate (offset d)) (d +ℤ 60000 *ℤ negate (offset d))
    else split_time (pos 0) d

abbrev pub max_time : ℤ
max_time = pos 8640000000000000

unfoldable pub time_clip : ℤ → Option ℤ
time_clip t = if not (ltb_ℤ t (negate max_time)) && not (ltb_ℤ max_time t) then some t else none

-- The days of the months before month `mi`.
unfoldable pub add_months : ℤ → List ℕ → ℕ → ℕ → ℤ → ℤ
add_months y [] i mi days = days
add_months y (md ∷ mds) i mi days =
    let next = add_months y mds (i + 1) mi (days +ℤ month_length y i md) in
    if ltb i mi then next else days

-- An `int` that is not negative.
unfoldable pub to_index : ℤ → ℕ
to_index (pos n) = n
to_index (negsuc n) = 0

-- MakeDay, MakeTime and MakeDate, for the year `ym` and the month `mn` in it.
unfoldable pub make_date : ℤ → ℤ → Fields → ℤ
make_date ym mn f =
    let days = add_months ym month_days 0 (to_index mn) (days_from_year ym) in
    let day = days +ℤ f.day -ℤ pos 1 in
    let time = 3600000 *ℤ f.hours +ℤ 60000 *ℤ f.minutes +ℤ 1000 *ℤ f.seconds +ℤ f.ms in
    86400000 *ℤ day +ℤ time

unfoldable pub set_date_fields : (ℤ → ℤ) → Bool → Fields → Option ℤ
set_date_fields offset is_local f =
    let ym = f.year +ℤ floor_div f.month 12 in
    let mn = math_mod f.month 12 in
    let tv = make_date ym mn f in
    if ltb_ℤ ym (negsuc 271820) || ltb_ℤ (pos 275760) ym
    then none
    else time_clip (if is_local then tv +ℤ 60000 *ℤ offset tv else tv)
