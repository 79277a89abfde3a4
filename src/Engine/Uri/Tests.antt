-- ===== src/Engine/Uri/Tests.antt =====
-- Runs of `encodeURI` and `decodeURI` of .backup/quickjs.c.
use cno_cli.Base.{
  ℕ, ◌+◌, ◌-◌, ◌*◌, ◌/◌, ◌%◌, ◌<◌, ◌≡◌, refl, arith, true, false, ◌&&◌, ltb, leb, Option, none,
  some, List, [], ◌∷◌, if◌then◌else◌,
}
use cno_cli.Engine.Result.{ok, throws, malformed_utf8, ◌>>=◌}
use cno_cli.Engine.Escape.{upper_digit}
use cno_cli.Engine.Uri.{Surrogates, js_global_encode_uri, js_global_decode_uri}
use cno_cli.Engine.Uri.Points.{IsUtf16}
use cno_cli.Engine.Uri.Pairing.{paired}
use cno_cli.Engine.Uri.RoundTrip.{succeeds, js_global_encode_uri-paired, decode_uri-encode_uri}

abbrev utf16_units : Surrogates
utf16_units = record {
  is_hi = λ c. leb 0xd800 c && leb c 0xdbff;
  is_lo = λ c. leb 0xdc00 c && leb c 0xdfff;
  is_either = λ c. leb 0xd800 c && leb c 0xdfff;
  from_pair = λ hi lo. 0x10000 + 1024 * (hi - 0xd800) + (lo - 0xdc00);
  get_hi = λ c. 0xd800 + (c - 0x10000) / 1024;
  get_lo = λ c. 0xdc00 + c % 1024;
}

utf16_units-IsUtf16 : IsUtf16 utf16_units
utf16_units-IsUtf16 = record {
  hi = λ c. refl;
  lo = λ c. refl;
  either = λ c. refl;
  pair = λ x y hx hy. omega arith;
  unpair_hi = λ c lo hi. refl;
  unpair_lo = λ c lo hi. refl;
}

-- The digits in upper case, and nothing else.
abbrev upper_hex : ℕ → Option ℕ
upper_hex u =
    if ltb u 48
    then none
    else if ltb u 58
    then some (u - 48)
    else if ltb u 65
    then none
    else if ltb u 71
    then some (u - 55)
    else none

upper_hex-upper_digit : (i : ℕ) → i < 16 → upper_hex (upper_digit i) ≡ some i
unfolding upper_digit
upper_hex-upper_digit i h = ground arith

-- A letter, an euro sign, a pair and a reserved sign.
abbrev sample : List ℕ
sample = b'a' ∷ 0x20ac ∷ 0xd83d ∷ 0xde00 ∷ b'?' ∷ []

sample_encoded :
    js_global_encode_uri utf16_units false (0x20ac ∷ b'?' ∷ [])
    ≡ ok (b'%' ∷ b'E' ∷ b'2' ∷ b'%' ∷ b'8' ∷ b'2' ∷ b'%' ∷ b'A' ∷ b'C' ∷ b'?' ∷ [])
unfolding js_global_encode_uri
sample_encoded = refl

-- A reserved sign stays escaped in `decodeURI`.
reserved_kept :
    js_global_decode_uri utf16_units upper_hex false (b'%' ∷ b'3' ∷ b'F' ∷ [])
    ≡ ok (b'%' ∷ b'3' ∷ b'F' ∷ [])
unfolding js_global_decode_uri
reserved_kept = refl

-- Two bytes for a number of one.
overlong :
    js_global_decode_uri utf16_units upper_hex true (b'%' ∷ b'C' ∷ b'0' ∷ b'%' ∷ b'8' ∷ b'0' ∷ [])
    ≡ throws malformed_utf8
unfolding js_global_decode_uri
overlong = refl

decode_uri-encode_uri_example :
    (js_global_encode_uri utf16_units true sample
      >>= js_global_decode_uri utf16_units upper_hex true)
    ≡ ok sample
decode_uri-encode_uri_example =
    decode_uri-encode_uri utf16_units utf16_units-IsUtf16 upper_hex upper_hex-upper_digit true
      sample (omega arith, (omega arith, (omega arith, (omega arith, (omega arith, tt))))) refl

js_global_encode_uri-paired_example :
    succeeds (js_global_encode_uri utf16_units false (b'a' ∷ 0xde00 ∷ []))
    ≡ paired false (b'a' ∷ 0xde00 ∷ [])
js_global_encode_uri-paired_example =
    js_global_encode_uri-paired utf16_units utf16_units-IsUtf16 upper_hex upper_hex-upper_digit
      false (b'a' ∷ 0xde00 ∷ []) (omega arith, (omega arith, tt))
