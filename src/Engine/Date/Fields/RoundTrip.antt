-- ===== src/Engine/Date/Fields/RoundTrip.antt =====
-- `set_date_fields` undoes `get_date_fields`.
use cno_cli.Base.{ℕ, ◌+◌, ◌/◌, ◌%◌, ◌≤◌, ◌<◌, ◌≡◌, refl, arith, ap, ◌∙◌}
use cno_cli.Base.{Bool, true, false, some, [], ◌∷◌, take, if◌then◌else◌}
use cno_cli.Base.Int.{
  ℤ, pos, negsuc, pos_part, neg_part, ◌+ℤ◌, ◌-ℤ◌, ◌*ℤ◌, ltb_ℤ, ◌≤ℤ◌, +ℤ_parts, -ℤ_parts, *ℤ_parts,
  eq_of_parts,
}
use cno_cli.Engine.Date.Calendar.{rem, quot, floor_div, math_mod, floor_div-math_mod}
use cno_cli.Engine.Date.Calendar.{math_mod_pos, floor_div_pos}
use cno_cli.Engine.Date.Year.{days_from_year, year_from_days}
use cno_cli.Engine.Date.Year.Laws.{days_from_year_scaled}
use cno_cli.Engine.Date.Year.Search.{year_from_days-IsYearOf, IsYearOf}
use cno_cli.Engine.Date.Fields.{
  Fields, month_days, month_loop, fields_of, split_time, get_date_fields, max_time, negate,
  time_clip, to_index, make_date, set_date_fields,
}
use cno_cli.Engine.Date.Fields.Months.{add_months-month_loop, month_loop_le}

ruleset parts = (arith, +ℤ_parts, -ℤ_parts, *ℤ_parts)

rem_pos : (n b : ℕ) → rem (pos n) b ≡ pos (n % b)
unfolding rem
rem_pos n b = refl

-- `(h - h % b) / b` for a number h that is not negative.
quot_rest : (n b : ℕ) → 0 < b → quot (pos n -ℤ rem (pos n) b) b ≡ pos (n / b)
unfolding floor_div
quot_rest n b h = rw (rem_pos n b) (rw (math_mod_pos n b) at (floor_div_pos n b h))

-- The fields of the milliseconds of a day, in plain arithmetic.
fields_of_pos :
    (tz days : ℤ) (n : ℕ) (y left : ℤ)
    → let f = fields_of tz (pos n) days (y, left) in
      let found = month_loop y (take 11 month_days) 0 left in
      f ≡ record {
        year = y;
        month = pos found.0;
        day = found.1 +ℤ pos 1;
        hours = pos (n / 1000 / 60 / 60);
        minutes = pos (n / 1000 / 60 % 60);
        seconds = pos (n / 1000 % 60);
        ms = pos (n % 1000);
        week_day = math_mod (days +ℤ pos 4) 7;
        tz = tz;
      }
unfolding fields_of
fields_of_pos tz days n y left = rw (quot_rest n 1000 (omega arith)) (
    rw (quot_rest (n / 1000) 60 (omega arith)) (
      rw (quot_rest (n / 1000 / 60) 60 (omega arith))
        (rw (rem_pos n 1000, rem_pos (n / 1000) 60, rem_pos (n / 1000 / 60) 60) refl)))

pub to_index_pos : (k : ℕ) → to_index (pos k) ≡ k
unfolding to_index
to_index_pos k = refl

date_sum :
    (a left base days : ℤ) (n : ℕ)
    → a +ℤ left ≡ base +ℤ (days -ℤ base)
    → 86400000 *ℤ (a +ℤ (left +ℤ pos 1) -ℤ pos 1)
        +ℤ (3600000 *ℤ pos (n / 1000 / 60 / 60)
            +ℤ 60000 *ℤ pos (n / 1000 / 60 % 60)
            +ℤ 1000 *ℤ pos (n / 1000 % 60)
            +ℤ pos (n % 1000))
      ≡ 86400000 *ℤ days +ℤ pos n
date_sum a left base days n e = eq_of_parts _ _ (omega (parts, ap pos_part e, ap neg_part e))

-- The day and the time of the day put together again.
module _ (tz days : ℤ) (n : ℕ) (y : ℤ) (small : n < 86400000) where
  abbrev pub found : ℕ × ℤ
  found = month_loop y (take 11 month_days) 0 (days -ℤ days_from_year y)

  abbrev pub fields : Fields
  fields = record {
    year = y;
    month = pos found.0;
    day = found.1 +ℤ pos 1;
    hours = pos (n / 1000 / 60 / 60);
    minutes = pos (n / 1000 / 60 % 60);
    seconds = pos (n / 1000 % 60);
    ms = pos (n % 1000);
    week_day = math_mod (days +ℤ pos 4) 7;
    tz = tz;
  }

  make_date-fields : make_date y (pos found.0) fields ≡ 86400000 *ℤ days +ℤ pos n
  unfolding make_date
  make_date-fields = rw (to_index_pos found.0) (
      date_sum _ found.1 (days_from_year y) days n (
        add_months-month_loop y (take 11 month_days) (31 ∷ []) 0 (days -ℤ days_from_year y)
          (days_from_year y)))

  pub month_in_year : math_mod (pos found.0) 12 ≡ pos found.0
  month_in_year =
      math_mod_pos found.0 12
      ∙ ground (arith, month_loop_le y (take 11 month_days) 0 (days -ℤ days_from_year y))

  pub same_year : y +ℤ floor_div (pos found.0) 12 ≡ y
  same_year = rw (floor_div_pos found.0 12 (omega arith)) (
      eq_of_parts _ _ (
        ground (
          arith,
          +ℤ_parts y (pos (found.0 / 12)),
          month_loop_le y (take 11 month_days) 0 (days -ℤ days_from_year y),
        )))

-- What `get_date_fields` makes of a time: the year of its day, and the milliseconds of that day.
pub record Split (tz d : ℤ) : Type 0 where
  pub days : ℤ
  pub n : ℕ
  pub y : ℤ
  pub small : n < 86400000
  pub year_of : IsYearOf days y
  pub joined : 86400000 *ℤ days +ℤ pos n ≡ d
  pub result : split_time tz d ≡ some (fields tz days n y small)

split_time_at :
    (tz d : ℤ) (which : ℤ × ℤ)
    → year_from_days (floor_div d 86400000) ≡ some which
    → split_time tz d ≡ some (fields_of tz (math_mod d 86400000) (floor_div d 86400000) which)
unfolding split_time floor_div
split_time_at tz d which e = rw (e, split_time) refl

pub split_time_lem : (tz d : ℤ) → Split tz d
split_time_lem tz d =
    let (r, m, (lt, div)) = floor_div-math_mod d 86400000 (omega arith) in
    let (y, found_year, year) = year_from_days-IsYearOf (floor_div d 86400000) in
    record {
      days = floor_div d 86400000;
      n = r;
      y = y;
      small = lt;
      year_of = year;
      joined = eq_of_parts _ _ (omega parts);
      result =
          split_time_at tz d _ found_year
          ∙ ap some (rw m (fields_of_pos tz (floor_div d 86400000) r y _));
    }

-- The years that a time within a day of the allowed range can fall in.
pub year_in_range :
    (d days : ℤ) (n : ℕ) (y : ℤ)
    → n < 86400000
    → 86400000 *ℤ days +ℤ pos n ≡ d
    → negate max_time ≤ℤ d +ℤ pos 86400000
    → d ≤ℤ max_time +ℤ pos 86400000
    → IsYearOf days y
    → (negsuc 271820 ≤ℤ y) × (y ≤ℤ pos 275760)
year_in_range d days n y small e lo hi (from, until) =
    let s1 = days_from_year_scaled y in
    let s2 = days_from_year_scaled (y +ℤ pos 1) in
    let p = ap pos_part e in let q = ap neg_part e in omega parts

pub not_below : (a b : ℤ) → b ≤ℤ a → ltb_ℤ a b ≡ false
not_below a b h = ground arith

pub set_date_fields-fields :
    (offset : ℤ → ℤ) (is_local : Bool) (tz days : ℤ) (n : ℕ) (y d : ℤ) (small : n < 86400000)
    → 86400000 *ℤ days +ℤ pos n ≡ d
    → negsuc 271820 ≤ℤ y
    → y ≤ℤ pos 275760
    → set_date_fields offset is_local (fields tz days n y small)
      ≡ time_clip (if is_local then d +ℤ 60000 *ℤ offset d else d)
unfolding set_date_fields
set_date_fields-fields offset is_local tz days n y d small e lo hi =
    rw
      (
        same_year tz days n y small,
        month_in_year tz days n y small,
        make_date-fields tz days n y small,
        e,
        not_below y (negsuc 271820) lo,
        not_below (pos 275760) y hi,
      )
      refl

-- Setting the fields that a time splits into gives the time, clipped.
set_date_fields-split :
    (offset : ℤ → ℤ) (is_local : Bool) (tz d : ℤ)
    → negate max_time ≤ℤ d +ℤ pos 86400000
    → d ≤ℤ max_time +ℤ pos 86400000
    → (f : Fields) × (split_time tz d ≡ some f)
      × (set_date_fields offset is_local f
          ≡ time_clip (if is_local then d +ℤ 60000 *ℤ offset d else d))
set_date_fields-split offset is_local tz d lo hi =
    let s = split_time_lem tz d in
    let range = year_in_range d s.days s.n s.y s.small s.joined lo hi s.year_of in
    (
      fields tz s.days s.n s.y s.small,
      s.result,
      set_date_fields-fields offset is_local tz s.days s.n s.y d s.small s.joined range.0 range.1,
    )

pub time_clip-some : (t : ℤ) → negate max_time ≤ℤ t → t ≤ℤ max_time → time_clip t ≡ some t
unfolding time_clip
time_clip-some t lo hi = rw (not_below t (negate max_time) lo, not_below max_time t hi) refl

-- For every time value in the range of a `Date`, the fields in UTC exist, and set again they give
-- the time value.
pub set_date_fields-get_date_fields :
    (offset : ℤ → ℤ) (force : Bool) (t : ℤ)
    → negate max_time ≤ℤ t
    → t ≤ℤ max_time
    → (f : Fields) × (get_date_fields offset false force (some t) ≡ some f)
      × (set_date_fields offset false f ≡ some t)
unfolding get_date_fields
set_date_fields-get_date_fields offset force t lo hi =
    let (f, split, back) =
      set_date_fields-split offset false (pos 0) t (omega parts) (omega parts) in
    (f, split, back ∙ time_clip-some t lo hi)

-- For every time value in the range of a `Date`, the fields in local time exist, and set again they
-- give the time value: for an offset of at most a day that is the same at the time value and at the
-- local reading of it, which the code asks for instead.
pub set_date_fields-get_date_fields_local :
    (offset : ℤ → ℤ) (force : Bool) (t : ℤ)
    → negate max_time ≤ℤ t
    → t ≤ℤ max_time
    → pos_part (offset t) + neg_part (offset t) ≤ 1440
    → offset (t +ℤ 60000 *ℤ negate (offset t)) ≡ offset t
    → (f : Fields) × (get_date_fields offset true force (some t) ≡ some f)
      × (set_date_fields offset true f ≡ some t)
unfolding get_date_fields
set_date_fields-get_date_fields_local offset force t lo hi day same =
    let d = t +ℤ 60000 *ℤ negate (offset t) in
    let (f, split, back) =
      set_date_fields-split offset true (negate (offset t)) d (omega parts) (omega parts) in
    (
      f,
      split,
      back ∙ rw same (ap time_clip (eq_of_parts _ _ (omega parts)) ∙ time_clip-some t lo hi),
    )
