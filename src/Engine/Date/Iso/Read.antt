-- ===== src/Engine/Date/Iso/Read.antt =====
-- The ISO reader on the text of `toISOString`.
use cno_cli.Base.{
  ℕ, suc, ◌+◌, ◌-◌, ◌/◌, ◌%◌, ◌≡◌, ◌<◌, refl, ap, ◌∙◌, arith, true, false, Option, some,
}
use cno_cli.Base.{List, [], ◌∷◌, ltb, ◌==◌, Bool-cases, inl, inr}
use cno_cli.Base.Int.{ℤ, pos, negsuc, pos_part, neg_part}
use cno_cli.Engine.Date.Fields.{Fields}
use cno_cli.Engine.Date.Print.{}
use cno_cli.Engine.Date.Scan.{
  string_skip_char, string_get_digits, string_get_milliseconds, string_get_tzoffset,
}
use cno_cli.Engine.Date.Iso.{
  day_behind, minutes_behind, seconds_behind, iso_read_year, iso_read_day, time, iso_read_time,
  js_date_parse_isostring,
}
use cno_cli.Engine.Date.Iso.Digits.{two, three, get-two, get-three, get-four, get-six}
use cno_cli.Engine.Date.Iso.Text.{time_text, day_text, year_text}

-- The readers on that text.
read_year-text :
    (y : ℤ) (rest : List ℕ)
    → pos_part y < 1000000
    → neg_part y < 1000000
    → iso_read_year (year_text y rest) ≡ some (y, rest)
unfolding iso_read_year
read_year-text (pos n) rest lo hi = elim (Bool-cases (ltb 9999 n)) [
  | inl wide ↦ rw (wide, get-six n rest lo) refl
  | inr narrow ↦
      let d : n / 10 / 10 / 10 % 10 < 10 = omega arith in
      let no_minus : (48 + n / 10 / 10 / 10 % 10 == b'-') ≡ false = ground arith in
      let no_plus : (48 + n / 10 / 10 / 10 % 10 == b'+') ≡ false = ground arith in
      rw (narrow, no_minus, no_plus, get-four n rest (ground arith)) refl
]
read_year-text (negsuc n) rest lo hi = rw (get-six (suc n) rest hi) refl

skip_here : (c : ℕ) (sp : List ℕ) → (c == c) ≡ true → string_skip_char c (c ∷ sp) ≡ some sp
unfolding string_skip_char
skip_here c sp e = rw e refl

day_found :
    (month day : ℕ) (sp rest left : List ℕ)
    → string_get_digits 2 2 rest ≡ some (suc day, left)
    → day_behind month (some rest) sp ≡ some (month, (suc day, left))
day_found month day sp rest left e = rw (day_behind, e) refl

read_day-text :
    (month day : ℕ) (rest : List ℕ)
    → month < 12
    → day < 31
    → iso_read_day (day_text month day rest) ≡ some (month, (suc day, b'T' ∷ rest))
unfolding iso_read_day
read_day-text month day rest hm hd =
    let behind = two (suc day) (b'T' ∷ rest) in
    rw (iso_read_day, get-two (suc month) (b'-' ∷ behind) (omega arith))
      (ap (λ (o : Option (List ℕ)). day_behind (suc month - 1) o (b'-' ∷ behind))
          (skip_here b'-' behind refl)
        ∙ day_found (suc month - 1) day (b'-' ∷ behind) behind (b'T' ∷ rest)
            (get-two (suc day) (b'T' ∷ rest) (omega arith))
        ∙ ap (λ (m : ℕ). some (m, (suc day, b'T' ∷ rest))) (omega arith))

seconds_found :
    (h m s ms : ℕ) (sp rest left : List ℕ)
    → string_get_digits 2 2 rest ≡ some (s, left)
    → string_get_milliseconds left ≡ (ms, b'Z' ∷ [])
    → seconds_behind h m (some rest) sp
      ≡ time (record {
        hour = h;
        minute = m;
        second = s;
        milli = ms;
        local = true;
        behind = b'Z' ∷ [];
      })
seconds_found h m s ms sp rest left e k = rw (seconds_behind, e, k) refl

minutes_found :
    (h m : ℕ) (rest left : List ℕ)
    → string_get_digits 2 2 rest ≡ some (m, left)
    → minutes_behind h (some rest) ≡ seconds_behind h m (string_skip_char b':' left) left
minutes_found h m rest left e = rw (minutes_behind, e) refl

read_time-text :
    (h m s ms : ℕ)
    → h < 100
    → m < 100
    → s < 100
    → ms < 1000
    → iso_read_time (b'T' ∷ time_text h m s ms)
      ≡ time (record {
        hour = h;
        minute = m;
        second = s;
        milli = ms;
        local = true;
        behind = b'Z' ∷ [];
      })
unfolding iso_read_time
read_time-text h m s ms hh hm hs hms =
    let millis = b'.' ∷ three ms (b'Z' ∷ []) in
    let seconds = two s millis in
    let minutes = two m (b':' ∷ seconds) in
    rw (iso_read_time, get-two h (b':' ∷ minutes) hh)
      (ap (minutes_behind h) (skip_here b':' minutes refl)
        ∙ minutes_found h m minutes (b':' ∷ seconds) (get-two m (b':' ∷ seconds) hm)
        ∙ ap (λ (o : Option (List ℕ)). seconds_behind h m o (b':' ∷ seconds))
            (skip_here b':' seconds refl)
        ∙ seconds_found h m s ms (b':' ∷ seconds) seconds millis (get-two s millis hs)
            (get-three ms [] hms))

-- The fields that are read: those that were printed, but for the day of the week and the zone.
abbrev pub read_back : Fields → Fields
read_back f = record f { week_day = pos 0; tz = pos 0 }

pub read-text :
    (y : ℤ) (month day h m s ms : ℕ)
    → pos_part y < 1000000
    → neg_part y < 1000000
    → month < 12
    → day < 31
    → h < 100
    → m < 100
    → s < 100
    → ms < 1000
    → js_date_parse_isostring (year_text y (day_text month day (time_text h m s ms)))
      ≡ some (
        record {
          year = y;
          month = pos month;
          day = pos (suc day);
          hours = pos h;
          minutes = pos m;
          seconds = pos s;
          ms = pos ms;
          week_day = pos 0;
          tz = pos 0;
        },
        false,
      )
unfolding js_date_parse_isostring string_get_tzoffset
read-text y month day h m s ms ylo yhi hmo hd hh hm hs hms =
    rw
      (
        js_date_parse_isostring,
        read_year-text y (day_text month day (time_text h m s ms)) ylo yhi,
        read_day-text month day (time_text h m s ms) hmo hd,
        read_time-text h m s ms hh hm hs hms,
      )
      refl
