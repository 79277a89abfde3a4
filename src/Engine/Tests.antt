-- ===== src/Engine/Tests.antt =====
-- Runs of the functions of .backup/quickjs.c that the modules beside this one model.
use cno_cli.Base.{ℕ, ◌<◌, ◌≡◌, ◌↔◌, refl, arith, true, false, some, All, map}
use cno_cli.Base.{List, [], ◌∷◌, length}
use cno_cli.Base.Int.{ℤ, pos, negsuc, ◌-ℤ◌}
use cno_cli.Engine.Base64.{base64, b64_encode, b64_decode, push, partial_bytes}
use cno_cli.Engine.Base64.Tables.{enc, has, flags, b64_val}
use cno_cli.Engine.Base64.From.{loose, strict, done, skip_ws, from_base64}
use cno_cli.Engine.Base64.RoundTrip.{b64_decode-b64_encode}
use cno_cli.Engine.Base64.Bounds.{IsWithin, from_base64-IsWithin}
use cno_cli.Engine.Base64.Ending.{answer, whole}
use cno_cli.Engine.Base64.Agree.{from_base64-b64_decode}
use cno_cli.Engine.Hex.{hex_encode, hex_decode, hex_byte, hex_nibble}
use cno_cli.Engine.Hex.Laws.{
  lower, hex_decode-hex_encode, hex_decode-IsWithin, hex_encode-hex_decode,
}
use cno_cli.Engine.Result.{Memory, ok, throws, invalid_character, ◌>>=◌}
use cno_cli.Engine.Text.{JsString, js_btoa, js_atob}
use cno_cli.Engine.Text.RoundTrip.{js_atob-js_btoa, js_btoa_invalid}
use cno_cli.Engine.Date.Year.{days_from_year, year_from_days}
use cno_cli.Engine.Date.Year.Search.{IsYearOf, year_from_days-IsYearOf}
use cno_cli.Engine.Date.Fields.{Fields, get_date_fields, set_date_fields}
use cno_cli.Engine.Date.Fields.RoundTrip.{
  set_date_fields-get_date_fields, set_date_fields-get_date_fields_local,
}
use cno_cli.Engine.Date.Fields.Bounds.{IsCalendar, get_date_fields-IsCalendar}

-- "Many", and its text in base64 with a space in it.
abbrev many : List ℕ
many = b'M' ∷ b'a' ∷ b'n' ∷ b'y' ∷ []

abbrev many_text : List ℕ
many_text = b'T' ∷ b'W' ∷ b'F' ∷ b'u' ∷ b' ' ∷ b'e' ∷ b'Q' ∷ b'=' ∷ b'=' ∷ []

encode_many : b64_encode base64 many ≡ b'T' ∷ b'W' ∷ b'F' ∷ b'u' ∷ b'e' ∷ b'Q' ∷ b'=' ∷ b'=' ∷ []
unfolding b64_encode enc
encode_many = refl

decode_many : b64_decode many_text ≡ some many
unfolding b64_decode has flags push b64_val partial_bytes
decode_many = refl

from_many : from_base64 base64 strict 10 many_text ≡ done 9 many
unfolding from_base64 has flags push skip_ws b64_val partial_bytes
from_many = refl

-- Only one byte of room: nothing of the group of four is read.
from_no_room : from_base64 base64 loose 1 many_text ≡ done 0 []
unfolding from_base64 has flags push
from_no_room = refl

b64_decode-b64_encode_example : b64_decode (b64_encode base64 many) ≡ some many
b64_decode-b64_encode_example =
    b64_decode-b64_encode many (omega arith, (omega arith, (omega arith, (omega arith, tt))))

from_base64-IsWithin_example : IsWithin 2 9 (from_base64 base64 loose 2 many_text)
from_base64-IsWithin_example = from_base64-IsWithin base64 loose 2 many_text

from_base64-b64_decode_example :
    answer (from_base64 base64 loose 9 many_text) ≡ whole 9 (b64_decode many_text)
from_base64-b64_decode_example = from_base64-b64_decode 9 many_text (omega arith)

hex_decode-hex_encode_example : hex_decode 4 (hex_encode many) ≡ done 8 many
hex_decode-hex_encode_example =
    hex_decode-hex_encode 4 many (omega arith, (omega arith, (omega arith, (omega arith, tt))))
      (omega arith)

abbrev mixed : List ℕ
mixed = b'4' ∷ b'd' ∷ b'6' ∷ b'A' ∷ []

hex_decode-IsWithin_example : IsWithin 1 4 (hex_decode 1 mixed)
hex_decode-IsWithin_example = hex_decode-IsWithin 1 mixed

hex_mixed : hex_decode 2 mixed ≡ done 4 (77 ∷ 106 ∷ [])
unfolding hex_decode hex_byte hex_nibble
hex_mixed = refl

hex_encode-hex_decode_example : (4 ≡ length mixed) × (hex_encode (77 ∷ 106 ∷ []) ≡ map lower mixed)
hex_encode-hex_decode_example = hex_encode-hex_decode 2 mixed (omega arith) hex_mixed

abbrev roomy : Memory
roomy = record {
  malloc = λ n. true;
  alloc_string = λ n. true;
  new_array = λ n. true;
  new_object = true;
}

abbrev wide : List ℕ → JsString
wide cs = record { is_wide_char = true; chars = cs }

js_atob-js_btoa_example :
    (js_btoa roomy (wide many) >>= js_atob roomy)
    ≡ ok (record { is_wide_char = false; chars = many })
js_atob-js_btoa_example =
    js_atob-js_btoa roomy (λ n. (refl, refl)) (wide many)
      (omega arith, (omega arith, (omega arith, (omega arith, tt)))) (omega arith)

js_btoa_invalid_example :
    (js_btoa roomy (wide (77 ∷ 300 ∷ [])) ≡ throws invalid_character)
    ↔ (¬ (All (λ c. c < 256) (77 ∷ 300 ∷ [])))
js_btoa_invalid_example = js_btoa_invalid roomy (λ n. (refl, refl)) (77 ∷ 300 ∷ [])

year_from_days-IsYearOf_example :
    (y : ℤ) × (year_from_days (negsuc 0) ≡ some (y, negsuc 0 -ℤ days_from_year y))
    × IsYearOf (negsuc 0) y
year_from_days-IsYearOf_example = year_from_days-IsYearOf (negsuc 0)

-- One hour east of UTC.
abbrev east : ℤ → ℤ
east t = negsuc 59

set_date_fields-get_date_fields_example :
    (f : Fields) × (get_date_fields east false false (some (pos 951782400000)) ≡ some f)
    × (set_date_fields east false f ≡ some (pos 951782400000))
unfolding ◌-ℤ◌
set_date_fields-get_date_fields_example =
    set_date_fields-get_date_fields east false (pos 951782400000) (omega arith) (omega arith)

set_date_fields-get_date_fields_local_example :
    (f : Fields) × (get_date_fields east true false (some (negsuc 0)) ≡ some f)
    × (set_date_fields east true f ≡ some (negsuc 0))
unfolding ◌-ℤ◌
set_date_fields-get_date_fields_local_example =
    set_date_fields-get_date_fields_local east false (negsuc 0) (omega arith) (omega arith)
      (omega arith) refl

get_date_fields-IsCalendar_example :
    (f : Fields) × (get_date_fields east true false (some (pos 951782400000)) ≡ some f)
    × IsCalendar f
get_date_fields-IsCalendar_example = get_date_fields-IsCalendar east true false (pos 951782400000)
