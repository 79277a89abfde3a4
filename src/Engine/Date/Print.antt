-- ===== src/Engine/Date/Print.antt =====
-- `get_date_string` of .backup/quickjs.c. Of `snprintf` it uses `%0*d`, `%+0*d` and `%.3s`.
use cno_cli.Base.{
  ℕ, zero, suc, ◌+◌, ◌-◌, ◌*◌, ◌/◌, ◌%◌, Bool, true, false, ◌&&◌, not, Option, none, some,
}
use cno_cli.Base.{List, [], ◌∷◌, ◌++◌, ◌==◌, if◌then◌else◌, take, drop, bit_and}
use cno_cli.Base.Int.{ℤ, pos, negsuc, ◌+ℤ◌, ltb_ℤ}
use cno_cli.Engine.Result.{Result, ok, throws, date_is_nan}
use cno_cli.Engine.Date.Fields.{Fields, to_index, get_date_fields}

-- "SunMonTueWedThuFriSat" and "JanFebMarAprMayJunJulAugSepOctNovDec".
abbrev pub day_names : List ℕ
day_names =
    b'S' ∷ b'u' ∷ b'n' ∷ b'M' ∷ b'o' ∷ b'n' ∷ b'T' ∷ b'u' ∷ b'e' ∷ b'W' ∷ b'e' ∷ b'd' ∷ b'T' ∷ b'h'
    ∷ b'u' ∷ b'F' ∷ b'r' ∷ b'i' ∷ b'S' ∷ b'a' ∷ b't' ∷ []

abbrev pub month_names : List ℕ
month_names =
    b'J' ∷ b'a' ∷ b'n' ∷ b'F' ∷ b'e' ∷ b'b' ∷ b'M' ∷ b'a' ∷ b'r' ∷ b'A' ∷ b'p' ∷ b'r' ∷ b'M' ∷ b'a'
    ∷ b'y' ∷ b'J' ∷ b'u' ∷ b'n' ∷ b'J' ∷ b'u' ∷ b'l' ∷ b'A' ∷ b'u' ∷ b'g' ∷ b'S' ∷ b'e' ∷ b'p'
    ∷ b'O' ∷ b'c' ∷ b't' ∷ b'N' ∷ b'o' ∷ b'v' ∷ b'D' ∷ b'e' ∷ b'c' ∷ []

-- The four values of `fmt`.
pub data Format : Type 0 where
  utc_string plain_string iso_string locale_string : Format

-- `fmt & 1`
unfoldable pub is_local_format : Format → Bool
is_local_format utc_string = false
is_local_format plain_string = true
is_local_format iso_string = false
is_local_format locale_string = true

-- The three letters at an index.
unfoldable pub name_at : List ℕ → ℤ → List ℕ
unfolding to_index
name_at names i = take 3 (drop (to_index i * 3) names)

-- The digits of `n`, at least so many, before `behind`. Ten are enough for an `int`.
unfoldable pub printed : ℕ → ℕ → ℕ → List ℕ → List ℕ
printed zero width n behind = behind
printed (suc fuel) width n behind =
    let more = printed fuel (width - 1) (n / 10) ((48 + n % 10) ∷ behind) in
    if width == 0 && n == 0 then behind else more

-- `%0*d`, with the sign within the width.
unfoldable pub print_int : ℕ → ℤ → List ℕ → List ℕ
unfolding printed
print_int width (pos n) behind = printed 10 width n behind
print_int width (negsuc n) behind = b'-' ∷ printed 10 (width - 1) (suc n) behind

-- `%+0*d`
unfoldable pub print_signed : ℕ → ℤ → List ℕ → List ℕ
unfolding printed
print_signed width (pos n) behind = b'+' ∷ printed 10 (width - 1) n behind
print_signed width (negsuc n) behind = b'-' ∷ printed 10 (width - 1) (suc n) behind

-- `"%0*d", 4 + (y < 0), y`
unfoldable pub print_year : ℤ → List ℕ → List ℕ
unfolding print_int
print_year y behind = if ltb_ℤ y (pos 0) then print_int 5 y behind else print_int 4 y behind

unfoldable pub iso_year : ℤ → List ℕ → List ℕ
unfolding print_int print_signed
iso_year y behind =
    if not (ltb_ℤ y (pos 0)) && not (ltb_ℤ (pos 9999) y)
    then print_int 4 y behind
    else print_signed 7 y behind

-- The date part, before the time part; both have what `part` asks for.
unfoldable pub date_part : Format → ℕ → Fields → List ℕ → List ℕ
unfolding name_at print_int print_year iso_year
date_part utc_string part f time =
    name_at day_names f.week_day
    ++ (b','
        ∷ b' '
        ∷ print_int 2 f.day
            (b' ' ∷ (name_at month_names f.month ++ (b' ' ∷ print_year f.year (b' ' ∷ time)))))
date_part plain_string part f time =
    name_at day_names f.week_day
    ++ (b' '
        ∷ (name_at month_names f.month
            ++ (b' '
                ∷ print_int 2 f.day
                    (b' ' ∷ print_year f.year (if part == 3 then b' ' ∷ time else time)))))
date_part iso_string part f time =
    iso_year f.year (b'-' ∷ print_int 2 (f.month +ℤ pos 1) (b'-' ∷ print_int 2 f.day (b'T' ∷ time)))
date_part locale_string part f time = print_int 2 (f.month +ℤ pos 1) (
    b'/'
    ∷ print_int 2 f.day (b'/' ∷ print_year f.year (if part == 3 then b',' ∷ b' ' ∷ time else time)))

-- `%02d:%02d:%02d`
unfoldable pub print_time : ℤ → ℤ → ℤ → List ℕ → List ℕ
unfolding print_int
print_time h m s behind = print_int 2 h (b':' ∷ print_int 2 m (b':' ∷ print_int 2 s behind))

-- The sign and the four digits of a zone.
unfoldable pub print_zone : ℤ → List ℕ
unfolding printed
print_zone (negsuc n) = b'-' ∷ printed 10 2 (suc n / 60) (printed 10 2 (suc n % 60) [])
print_zone (pos n) = b'+' ∷ printed 10 2 (n / 60) (printed 10 2 (n % 60) [])

unfoldable pub time_part : Format → Fields → List ℕ
unfolding print_time print_zone print_int to_index
time_part utc_string f = print_time f.hours f.minutes f.seconds (b' ' ∷ b'G' ∷ b'M' ∷ b'T' ∷ [])
time_part plain_string f =
    print_time f.hours f.minutes f.seconds (b' ' ∷ b'G' ∷ b'M' ∷ b'T' ∷ print_zone f.tz)
time_part iso_string f =
    print_time f.hours f.minutes f.seconds (b'.' ∷ print_int 3 f.ms (b'Z' ∷ []))
time_part locale_string f =
    print_time (pos ((to_index f.hours + 11) % 12 + 1)) f.minutes f.seconds
      (b' ' ∷ (if ltb_ℤ f.hours (pos 12) then b'A' else b'P') ∷ b'M' ∷ [])

unfoldable pub date_text : Format → ℕ → Fields → List ℕ
unfolding date_part time_part
date_text fmt part f =
    let time = if not (bit_and part 2 == 0) then time_part fmt f else [] in
    if not (bit_and part 1 == 0) then date_part fmt part f time else time

-- "Invalid Date"
abbrev pub invalid_date : List ℕ
invalid_date =
    b'I' ∷ b'n' ∷ b'v' ∷ b'a' ∷ b'l' ∷ b'i' ∷ b'd' ∷ b' ' ∷ b'D' ∷ b'a' ∷ b't' ∷ b'e' ∷ []

unfoldable pub no_date : Format → Result (List ℕ)
no_date iso_string = throws date_is_nan
no_date fmt = ok invalid_date

-- For the time value of the object, once it is known to be a `Date`.
unfoldable pub get_date_string : (ℤ → ℤ) → Format → ℕ → Option ℤ → Result (List ℕ)
unfolding date_text no_date is_local_format
get_date_string offset fmt part t = elim (get_date_fields offset (is_local_format fmt) false t) [
  | none ↦ no_date fmt
  | some f ↦ ok (date_text fmt part f)
]
