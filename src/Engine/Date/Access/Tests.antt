-- ===== src/Engine/Date/Access/Tests.antt =====
-- Runs of the getters and setters of `Date` of .backup/quickjs.c.
use cno_cli.Base.{◌≡◌, refl, sym, ap, ◌∙◌, arith, Option, none, some, [], ◌∷◌}
use cno_cli.Base.Int.{ℤ, pos, ◌+ℤ◌, ◌-ℤ◌, ◌*ℤ◌}
use cno_cli.Engine.Date.Calendar.{floor_div, quot, rem, math_mod}
use cno_cli.Engine.Date.Year.{days_from_year, days_in_year, logical_not, year_from_days}
use cno_cli.Engine.Date.Fields.{get_date_fields, split_time, fields_of, month_loop, month_length}
use cno_cli.Engine.Date.Access.{number, get_date_field, set_date_field, js_date_utc}
use cno_cli.Engine.Date.Access.Laws.{own_fields, IsFullYear, js_date_utc-get_date_field}

abbrev in_utc : ℤ → ℤ
in_utc t = pos 0

-- 2018-01-02T23:02:56.927Z
abbrev moment : ℤ
moment = pos 1514934176927

moment_year : get_date_field in_utc 0 (some moment) ≡ some (pos 2018)
unfolding get_date_field get_date_fields split_time year_from_days ◌-ℤ◌ quot math_mod ◌+ℤ◌ rem
    days_from_year ◌*ℤ◌ floor_div days_in_year logical_not fields_of month_loop month_length
moment_year = refl

abbrev or_zero : Option ℤ → ℤ
or_zero none = pos 0
or_zero (some y) = y

moment-IsFullYear : (y : ℤ) → get_date_field in_utc 0 (some moment) ≡ some y → IsFullYear y
moment-IsFullYear y e =
    let same : pos 2018 ≡ y = ap or_zero (sym moment_year ∙ e) in rw (← same) refl

-- An argument that is not finite: NaN is returned, and the date keeps its time value.
nan_kept : set_date_field in_utc 0x370 (number none ∷ []) (some moment) ≡ (some moment, some none)
unfolding set_date_field get_date_fields split_time year_from_days ◌-ℤ◌ quot math_mod ◌+ℤ◌ rem
    days_from_year ◌*ℤ◌ floor_div days_in_year logical_not fields_of month_loop month_length
nan_kept = refl

js_date_utc-get_date_field_example :
    js_date_utc in_utc (own_fields in_utc 7 0 moment) ≡ some (some moment)
js_date_utc-get_date_field_example =
    js_date_utc-get_date_field in_utc moment (unfold ◌-ℤ◌ in omega arith)
      (unfold ◌-ℤ◌ in omega arith) moment-IsFullYear
