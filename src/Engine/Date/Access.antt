-- ===== src/Engine/Date/Access.antt =====
-- `get_date_field`, `set_date_field` and `js_Date_UTC` of .backup/quickjs.c: the methods that get and
-- set fields of a `Date`, told apart by their number `magic`. The time value of the object is its
-- state. An argument is what `JS_ToFloat64` makes of it, cut to an integer.
pub mod Laws
pub mod Hours
pub mod Tests
use cno_cli.Base.{ℕ, zero, suc, ◌+◌, ◌-◌, ◌*◌, Bool, true, false, ◌&&◌, not, Option, none, some}
use cno_cli.Base.{List, [], ◌∷◌, length, take, ltb, ◌==◌, if◌then◌else◌, shr, low_bits}
use cno_cli.Base.Int.{ℤ, pos, negsuc, ◌+ℤ◌, ◌-ℤ◌, ltb_ℤ}
use cno_cli.Engine.Date.Fields.{Fields, get_date_fields, set_date_fields}

-- `none` for a number that is not finite.
pub data Argument : Type 0 where
  throwing : Argument
  number : Option ℤ → Argument

-- `fields[n]`
unfoldable pub field_at : ℕ → Fields → ℤ
field_at zero f = f.year
field_at (suc zero) f = f.month
field_at (suc (suc zero)) f = f.day
field_at (suc (suc (suc zero))) f = f.hours
field_at (suc (suc (suc (suc zero)))) f = f.minutes
field_at (suc (suc (suc (suc (suc zero))))) f = f.seconds
field_at (suc (suc (suc (suc (suc (suc zero)))))) f = f.ms
field_at (suc (suc (suc (suc (suc (suc (suc zero))))))) f = f.week_day
field_at (suc (suc (suc (suc (suc (suc (suc (suc n)))))))) f = f.tz

unfoldable pub put_field : ℕ → ℤ → Fields → Fields
put_field zero v f = record f { year = v }
put_field (suc zero) v f = record f { month = v }
put_field (suc (suc zero)) v f = record f { day = v }
put_field (suc (suc (suc zero))) v f = record f { hours = v }
put_field (suc (suc (suc (suc zero)))) v f = record f { minutes = v }
put_field (suc (suc (suc (suc (suc zero))))) v f = record f { seconds = v }
put_field (suc (suc (suc (suc (suc (suc zero)))))) v f = record f { ms = v }
put_field (suc (suc (suc (suc (suc (suc (suc n))))))) v f = f

abbrev pub with_offset : Bool → Fields → Fields
with_offset true f = record f { year = f.year -ℤ pos 1900 }
with_offset false f = f

-- `none` is NaN.
unfoldable pub get_date_field : (ℤ → ℤ) → ℕ → Option ℤ → Option ℤ
unfolding field_at
get_date_field offset magic tv =
    elim (get_date_fields offset (not (low_bits magic 4 == 0)) false tv) [
      | none ↦ none
      | some f ↦
          some (field_at (low_bits (shr magic 4) 4) (with_offset (low_bits (shr magic 8) 1 == 1) f))
    ]

-- The loop over the arguments, from field `i` on: whether all are finite, and the fields.
unfoldable pub take_arguments : ℕ → List Argument → Bool → Fields → Option (Bool × Fields)
unfolding put_field
take_arguments i [] res f = some (res, f)
take_arguments i (throwing ∷ args) res f = none
take_arguments i (number none ∷ args) res f = take_arguments (i + 1) args false f
take_arguments i (number (some a) ∷ args) res f = take_arguments (i + 1) args res (put_field i a f)

-- The time value that is left, and the number that is returned or `none` for an exception.
abbrev pub Outcome : Type 0
Outcome = Option ℤ × Option (Option ℤ)

-- Fields of an invalid date, whatever they hold, are not used.
abbrev pub fields_or : Option Fields → Bool × Fields
fields_or (some f) = (true, f)
fields_or none = (
  false,
  record {
    year = pos 0;
    month = pos 0;
    day = pos 0;
    hours = pos 0;
    minutes = pos 0;
    seconds = pos 0;
    ms = pos 0;
    week_day = pos 0;
    tz = pos 0;
  },
)

abbrev pub conclude_set : (ℤ → ℤ) → Bool → Bool → Option ℤ → Option (Bool × Fields) → Outcome
conclude_set offset is_local given tv none = (tv, none)
conclude_set offset is_local given tv (some (false, f)) = (tv, some none)
conclude_set offset is_local given tv (some (true, f)) =
    let d = if given then set_date_fields offset is_local f else none in (d, some d)

unfoldable pub set_date_field : (ℤ → ℤ) → ℕ → List Argument → Option ℤ → Outcome
unfolding take_arguments
set_date_field offset magic args tv =
    let first_field = low_bits (shr magic 8) 4 in
    let end_field = low_bits (shr magic 4) 4 in
    let is_local = not (low_bits magic 4 == 0) in
    let (res, f) = fields_or (get_date_fields offset is_local (first_field == 0) tv) in
    conclude_set offset is_local (ltb 0 (length args)) tv
      (take_arguments first_field (take (end_field - first_field) args) res f)

-- `fields[0] += 1900` for a year of two digits, which is done with the first argument.
abbrev pub full_year : ℕ → ℤ → ℤ
full_year zero a = if not (ltb_ℤ a (pos 0)) && ltb_ℤ a (pos 100) then a +ℤ pos 1900 else a
full_year (suc i) a = a

-- `none` for an exception; the number is `none` where an argument is not finite.
unfoldable pub utc_loop : ℕ → List Argument → Fields → Option (Option Fields)
unfolding put_field
utc_loop i [] f = some (some f)
utc_loop i (throwing ∷ args) f = none
utc_loop i (number none ∷ args) f = some none
utc_loop i (number (some a) ∷ args) f = utc_loop (i + 1) args (put_field i (full_year i a) f)

abbrev pub utc_of : (ℤ → ℤ) → Option (Option Fields) → Option (Option ℤ)
utc_of offset none = none
utc_of offset (some none) = some none
utc_of offset (some (some f)) = some (set_date_fields offset false f)

unfoldable pub js_date_utc : (ℤ → ℤ) → List Argument → Option (Option ℤ)
unfolding utc_loop
js_date_utc offset [] = some none
js_date_utc offset (a ∷ args) = utc_of offset (
    utc_loop 0 (take 7 (a ∷ args)) (record {
      year = pos 0;
      month = pos 0;
      day = pos 1;
      hours = pos 0;
      minutes = pos 0;
      seconds = pos 0;
      ms = pos 0;
      week_day = pos 0;
      tz = pos 0;
    }))
