-- ===== src/Engine/Date/Iso/RoundTrip.antt =====
-- `Date.parse` undoes `toISOString`.
use cno_cli.Base.{
  ℕ, suc, ◌-◌, ◌≡◌, ◌≤◌, ◌<◌, refl, sym, ap, ◌∙◌, arith, Bool, true, false, Option, some,
}
use cno_cli.Base.{List}
use cno_cli.Base.Int.{
  ℤ, pos, negsuc, pos_part, neg_part, ◌-ℤ◌, ◌*ℤ◌, ◌≤ℤ◌, +ℤ_parts, -ℤ_parts, *ℤ_parts, eq_of_parts,
}
use cno_cli.Engine.Result.{ok}
use cno_cli.Engine.Date.Fields.{
  Fields, split_time, get_date_fields, max_time, negate, set_date_fields, make_date,
}
use cno_cli.Engine.Date.Fields.RoundTrip.{
  fields, split_time_lem, year_in_range, set_date_fields-fields, time_clip-some,
}
use cno_cli.Engine.Date.Fields.Bounds.{InRange, IsCalendar, fields-IsCalendar}
use cno_cli.Engine.Date.Print.{is_local_format, iso_string, date_text, get_date_string}
use cno_cli.Engine.Date.Iso.{
  js_date_parse_isostring, is_valid, date_of_fields, byte_array, js_date_parse,
}
use cno_cli.Engine.Date.Iso.Bytes.{byte_array-same, year-IsBytes, rest-IsBytes}
use cno_cli.Engine.Date.Iso.Read.{read_back, read-text}
use cno_cli.Engine.Date.Iso.Text.{Numbers, time_text, day_text, year_text, text_of}

ruleset parts = (arith, +ℤ_parts, -ℤ_parts, *ℤ_parts)

is_pos : (a : ℤ) (lo hi : ℕ) → InRange a lo hi → a ≡ pos (pos_part a)
is_pos (pos n) lo hi h = refl
is_pos (negsuc n) lo hi h = absurd (omega (arith, h.0, h.1))

is_pos_suc : (a : ℤ) (hi : ℕ) → InRange a 1 hi → a ≡ pos (suc (pos_part a - 1))
is_pos_suc (pos n) hi h = ap pos (omega (arith, h.0))
is_pos_suc (negsuc n) hi h = absurd (omega (arith, h.0, h.1))

in_range : (a : ℤ) (lo hi : ℕ) → InRange a lo hi → pos_part a ≤ hi
in_range (pos n) lo hi h = omega (arith, h.1)
in_range (negsuc n) lo hi h = omega arith

numbers : (f : Fields) → IsCalendar f → negsuc 271820 ≤ℤ f.year → f.year ≤ℤ pos 275760 → Numbers f
numbers f c lo hi = record {
  month = pos_part f.month;
  day = pos_part f.day - 1;
  hour = pos_part f.hours;
  minute = pos_part f.minutes;
  second = pos_part f.seconds;
  milli = pos_part f.ms;
  month_ok = omega (arith, in_range f.month 0 11 c.month_ok);
  day_ok = omega (arith, in_range f.day 1 31 c.day_ok);
  hour_ok = omega (arith, in_range f.hours 0 23 c.hours_ok);
  minute_ok = omega (arith, in_range f.minutes 0 59 c.minutes_ok);
  second_ok = omega (arith, in_range f.seconds 0 59 c.seconds_ok);
  milli_ok = omega (arith, in_range f.ms 0 999 c.ms_ok);
  year_low = (by_sign f.year lo hi).0;
  year_high = (by_sign f.year lo hi).1;
  month_is = is_pos f.month 0 11 c.month_ok;
  day_is = is_pos_suc f.day 31 c.day_ok;
  hour_is = is_pos f.hours 0 23 c.hours_ok;
  minute_is = is_pos f.minutes 0 59 c.minutes_ok;
  second_is = is_pos f.seconds 0 59 c.seconds_ok;
  milli_is = is_pos f.ms 0 999 c.ms_ok;
}
  where
    by_sign :
        (y : ℤ)
        → negsuc 271820 ≤ℤ y
        → y ≤ℤ pos 275760
        → (pos_part y < 1000000) × (neg_part y < 1000000)
    by_sign (pos n) lo hi = (omega arith, omega arith)
    by_sign (negsuc n) lo hi = (omega arith, omega arith)

read_back-set :
    (offset : ℤ → ℤ) (f : Fields)
    → set_date_fields offset false (read_back f) ≡ set_date_fields offset false f
unfolding set_date_fields make_date
read_back-set offset f = refl

numbers-valid :
    (y : ℤ) (month day h m s ms : ℕ)
    → month < 12
    → day < 31
    → h < 24
    → m < 60
    → s < 60
    → is_valid (record {
      year = y;
      month = pos month;
      day = pos (suc day);
      hours = pos h;
      minutes = pos m;
      seconds = pos s;
      ms = pos ms;
      week_day = pos 0;
      tz = pos 0;
    })
      ≡ true
unfolding is_valid
numbers-valid y month day h m s ms hmo hd hh hm hs = ground arith

read_back_is :
    (f : Fields) (n : Numbers f)
    → read_back f ≡ record {
      year = f.year;
      month = pos n.month;
      day = pos (suc n.day);
      hours = pos n.hour;
      minutes = pos n.minute;
      seconds = pos n.second;
      ms = pos n.milli;
      week_day = pos 0;
      tz = pos 0;
    }
read_back_is f n = rw (n.month_is, n.day_is, n.hour_is, n.minute_is, n.second_is, n.milli_is) refl

no_zone : (t : ℤ) → t -ℤ 60000 *ℤ pos 0 ≡ t
no_zone t = eq_of_parts _ _ (omega parts)

date_of_read :
    (offset : ℤ → ℤ) (f : Fields) (n : Numbers f) (t : ℤ)
    → set_date_fields offset false f ≡ some t
    → date_of_fields offset (read_back f, false) ≡ some t
unfolding date_of_fields
date_of_read offset f n t e =
    let valid : is_valid (read_back f) ≡ true =
      ap is_valid (read_back_is f n)
      ∙ numbers-valid f.year n.month n.day n.hour n.minute n.second n.milli n.month_ok n.day_ok
          n.hour_ok n.minute_ok n.second_ok in
    rw (valid, read_back-set offset f, e) (ap some (no_zone t))

-- The text of the fields is read as the fields.
parse-text :
    (f : Fields) (n : Numbers f)
    → js_date_parse_isostring (
        byte_array 127
          (year_text f.year (day_text n.month n.day (time_text n.hour n.minute n.second n.milli))))
      ≡ some (read_back f, false)
parse-text f n =
    let text =
      year_text f.year (day_text n.month n.day (time_text n.hour n.minute n.second n.milli)) in
    let (all, short) =
      year-IsBytes f.year (day_text n.month n.day (time_text n.hour n.minute n.second n.milli))
        (rest-IsBytes n.month n.day n.hour n.minute n.second n.milli) (omega arith) in
    ap js_date_parse_isostring (byte_array-same 127 text all short)
    ∙ read-text f.year n.month n.day n.hour n.minute n.second n.milli n.year_low n.year_high
        n.month_ok n.day_ok (omega (arith, n.hour_ok)) (omega (arith, n.minute_ok))
        (omega (arith, n.second_ok)) n.milli_ok
    ∙ ap (λ (x : Fields). some (x, false)) (sym (read_back_is f n))

string_of :
    (offset : ℤ → ℤ) (t : ℤ) (f : Fields)
    → split_time (pos 0) t ≡ some f
    → get_date_string offset iso_string 3 (some t) ≡ ok (date_text iso_string 3 f)
unfolding get_date_string is_local_format get_date_fields
string_of offset t f e = rw (get_date_string, e) refl

parse_of :
    (other : List ℕ → Option (Fields × Bool)) (offset : ℤ → ℤ) (text : List ℕ)
    (read : Fields × Bool)
    → js_date_parse_isostring (byte_array 127 text) ≡ some read
    → js_date_parse other offset text ≡ date_of_fields offset read
unfolding js_date_parse
parse_of other offset text read e = rw (js_date_parse, e) refl

-- For every time value in the range of a `Date`: `toISOString` gives a text, and `Date.parse` of that
-- text is the time value, whatever the reader for other forms does.
pub js_date_parse-get_date_string :
    (js_date_parse_otherstring : List ℕ → Option (Fields × Bool)) (offset : ℤ → ℤ) (t : ℤ)
    → negate max_time ≤ℤ t
    → t ≤ℤ max_time
    → (text : List ℕ) × (get_date_string offset iso_string 3 (some t) ≡ ok text)
      × (js_date_parse js_date_parse_otherstring offset text ≡ some t)
js_date_parse-get_date_string js_date_parse_otherstring offset t lo hi =
    let s = split_time_lem (pos 0) t in
    let (low, high) =
      year_in_range t s.days s.n s.y s.small s.joined (omega parts) (omega parts) s.year_of in
    let f = fields (pos 0) s.days s.n s.y s.small in
    let n = numbers f (fields-IsCalendar (pos 0) s.days s.n s.y s.small s.year_of) low high in
    let back =
      set_date_fields-fields offset false (pos 0) s.days s.n s.y t s.small s.joined low high
      ∙ time_clip-some t lo hi in
    (
      year_text f.year (day_text n.month n.day (time_text n.hour n.minute n.second n.milli)),
      string_of offset t f s.result ∙ ap ok (text_of f n),
      parse_of js_date_parse_otherstring offset _ (read_back f, false) (parse-text f n)
          ∙ date_of_read offset f n t back,
    )
