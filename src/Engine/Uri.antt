-- ===== src/Engine/Uri.antt =====
-- `encodeURI`, `decodeURI` and their `Component` forms of .backup/quickjs.c, on the string that
-- `JS_ToString` gives: a list of 16-bit units. The string buffer has the memory that it asks for.
-- `from_hex` and the functions on surrogates, of other source files, are parameters.
pub mod Bytes
pub mod Points
pub mod RoundTrip
pub mod Pairing
pub mod Pairs
pub mod Tests
use cno_cli.Base.{
  ℕ, zero, suc, ◌+◌, ◌*◌, ◌≡◌, ◌≤◌, ◌<◌, Bool, true, false, not, ◌&&◌, ◌||◌, Option, none, some,
}
use cno_cli.Base.{
  List, [], ◌∷◌, ◌++◌, length, drop, ltb, leb, ◌==◌, if◌then◌else◌, shl, shr, low_bits, bit_or,
  bit_and,
}
use cno_cli.Engine.Result.{
  Result, ok, throws, unpaired_low, unpaired_high, expecting_percent, expecting_hex, malformed_utf8,
}
use cno_cli.Engine.Escape.{one_of, encode_uri_hex, string_get_hex}

-- `is_hi_surrogate`, `is_lo_surrogate`, `is_surrogate`, `from_surrogate`, `get_hi_surrogate` and
-- `get_lo_surrogate`.
pub record Surrogates : Type 0 where
  pub is_hi : ℕ → Bool
  pub is_lo : ℕ → Bool
  pub is_either : ℕ → Bool
  pub from_pair : ℕ → ℕ → ℕ
  pub get_hi : ℕ → ℕ
  pub get_lo : ℕ → ℕ

-- `isURIReserved`: ";/?:@&=+$,#".
unfoldable pub is_uri_reserved : ℕ → Bool
unfolding one_of
is_uri_reserved c =
    ltb c 256
    && one_of (b';' ∷ b'/' ∷ b'?' ∷ b':' ∷ b'@' ∷ b'&' ∷ b'=' ∷ b'+' ∷ b'$' ∷ b',' ∷ b'#' ∷ []) c

-- `isURIUnescaped`
unfoldable pub is_uri_unescaped : ℕ → Bool → Bool
unfolding one_of is_uri_reserved
is_uri_unescaped c is_component =
    ltb c 256
    && ((leb 0x61 c && leb c 0x7a)
        || (leb 0x41 c && leb c 0x5a)
        || (leb 0x30 c && leb c 0x39)
        || one_of (b'-' ∷ b'_' ∷ b'.' ∷ b'!' ∷ b'~' ∷ b'*' ∷ 39 ∷ b'(' ∷ b')' ∷ []) c
        || (not is_component && is_uri_reserved c))

-- A code point in UTF-8, each byte as an escape.
unfoldable pub utf8_escapes : ℕ → List ℕ
unfolding encode_uri_hex
utf8_escapes c =
    if ltb c 0x80
    then encode_uri_hex c
    else if ltb c 0x800
    then encode_uri_hex (bit_or (shr c 6) 0xc0) ++ encode_uri_hex (bit_or (low_bits c 6) 0x80)
    else if ltb c 0x10000
    then encode_uri_hex (bit_or (shr c 12) 0xe0)
      ++ (encode_uri_hex (bit_or (low_bits (shr c 6) 6) 0x80)
          ++ encode_uri_hex (bit_or (low_bits c 6) 0x80))
    else encode_uri_hex (bit_or (shr c 18) 0xf0)
      ++ (encode_uri_hex (bit_or (low_bits (shr c 12) 6) 0x80)
          ++ (encode_uri_hex (bit_or (low_bits (shr c 6) 6) 0x80)
              ++ encode_uri_hex (bit_or (low_bits c 6) 0x80)))

-- What is written first and then what is written for the rest.
abbrev pub written : List ℕ → Result (List ℕ) → Result (List ℕ)
written out (throws e) = throws e
written out (ok rest) = ok (out ++ rest)

-- What a byte says of the UTF-8 sequence that it begins: how many bytes follow, the least number so
-- long a sequence is for, and the bits of the number.
unfoldable pub lead : ℕ → ℕ × (ℕ × ℕ)
lead c =
    if leb 0xc0 c && leb c 0xdf
    then (1, (0x80, low_bits c 5))
    else if leb 0xe0 c && leb c 0xef
    then (2, (0x800, low_bits c 4))
    else if leb 0xf0 c && leb c 0xf7
    then (3, (0x10000, low_bits c 3))
    else (0, (1, 0))

-- What is written for a unit or a pair, with how many more units were read than one.
abbrev pub Piece : Type 0
Piece = Result (List ℕ × ℕ)

module _ (surrogates : Surrogates) where
  open surrogates use {is_hi, is_lo, is_either, from_pair, get_hi, get_lo}

  unfoldable pub encode_pair : ℕ → List ℕ → Piece
  unfolding utf8_escapes
  encode_pair c [] = throws unpaired_high
  encode_pair c (c1 ∷ rest) =
      if not (is_lo c1) then throws unpaired_high else ok (utf8_escapes (from_pair c c1), 1)

  unfoldable pub encode_unit : Bool → ℕ → List ℕ → Piece
  unfolding encode_pair utf8_escapes is_uri_unescaped
  encode_unit is_component c rest =
      if is_uri_unescaped c is_component
      then ok (c ∷ [], 0)
      else if is_lo c
      then throws unpaired_low
      else if is_hi c
      then encode_pair c rest
      else ok (utf8_escapes c, 0)

  -- The loop, with the number of units that `k` has already passed.
  unfoldable pub encode_loop : Bool → ℕ → List ℕ → Result (List ℕ)
  unfolding encode_unit
  encode_loop is_component skip [] = ok []
  encode_loop is_component (suc skip) (c ∷ rest) = encode_loop is_component skip rest
  encode_loop is_component zero (c ∷ rest) = elim (encode_unit is_component c rest) [
    | throws e ↦ throws e
    | ok piece ↦ written (piece.0) (encode_loop is_component (piece.1) rest)
  ]

  unfoldable pub js_global_encode_uri : Bool → List ℕ → Result (List ℕ)
  unfolding encode_loop
  js_global_encode_uri is_component str = encode_loop is_component 0 str

  -- `string_buffer_putc`
  unfoldable pub string_buffer_putc : ℕ → List ℕ
  string_buffer_putc c = if leb 0x10000 c then get_hi c ∷ get_lo c ∷ [] else c ∷ []

  -- `from_hex` gives the value of a hexadecimal digit, and `none` for what it returns as negative.
  module _ (from_hex : ℕ → Option ℕ) where
    abbrev pub hex_or_throw : Option ℕ → Result ℕ
    hex_or_throw none = throws expecting_hex
    hex_or_throw (some c) = ok c

    -- `hex_decode`, on the units from `k` on.
    unfoldable pub uri_hex_decode : List ℕ → Result ℕ
    unfolding string_get_hex
    uri_hex_decode [] = throws expecting_percent
    uri_hex_decode (u ∷ rest) =
        if not (u == b'%')
        then throws expecting_percent
        else if leb 2 (length rest)
        then hex_or_throw (string_get_hex from_hex 2 0 rest)
        else throws expecting_hex

    -- The loop over the bytes that follow. A byte that may not follow leaves 0, which is too small.
    unfoldable pub continue_utf8 : ℕ → ℕ → List ℕ → Result ℕ
    unfolding uri_hex_decode
    continue_utf8 zero c units = ok c
    continue_utf8 (suc n) c units = elim (uri_hex_decode units) [
      | throws e ↦ throws e
      | ok c1 ↦
          let more = continue_utf8 n (bit_or (shl c 6) (low_bits c1 6)) (drop 3 units) in
          if not (bit_and c1 0xc0 == 0x80) then ok 0 else more
    ]

    unfoldable pub check_point : ℕ → ℕ → ℕ → Result (ℕ × ℕ)
    check_point c_min skip c =
        if ltb c c_min || ltb 0x10ffff c || is_either c then throws malformed_utf8 else ok (c, skip)

    unfoldable pub decode_utf8 : ℕ → List ℕ → Result (ℕ × ℕ)
    unfolding lead continue_utf8 check_point
    decode_utf8 c units =
        let (n, (c_min, bits)) = lead c in
        elim (continue_utf8 n bits units) [
          | throws e ↦ throws e
          | ok point ↦ check_point c_min (2 + 3 * n) point
        ]

    -- What `%` begins, with how many more units were read than one.
    unfoldable pub decode_escape : Bool → List ℕ → Result (ℕ × ℕ)
    unfolding uri_hex_decode decode_utf8 is_uri_reserved
    decode_escape is_component units = elim (uri_hex_decode units) [
      | throws e ↦ throws e
      | ok c ↦
          if ltb c 0x80
          then (if not is_component && is_uri_reserved c then ok (b'%', 0) else ok (c, 2))
          else decode_utf8 c (drop 3 units)
    ]

    unfoldable pub decode_unit : Bool → ℕ → List ℕ → Result (ℕ × ℕ)
    unfolding decode_escape
    decode_unit is_component c rest =
        if c == b'%' then decode_escape is_component (c ∷ rest) else ok (c, 0)

    unfoldable pub decode_loop : Bool → ℕ → List ℕ → Result (List ℕ)
    unfolding decode_unit string_buffer_putc
    decode_loop is_component skip [] = ok []
    decode_loop is_component (suc skip) (c ∷ rest) = decode_loop is_component skip rest
    decode_loop is_component zero (c ∷ rest) = elim (decode_unit is_component c rest) [
      | throws e ↦ throws e
      | ok point ↦ written (string_buffer_putc (point.0)) (decode_loop is_component (point.1) rest)
    ]

    unfoldable pub js_global_decode_uri : Bool → List ℕ → Result (List ℕ)
    unfolding decode_loop
    js_global_decode_uri is_component str = decode_loop is_component 0 str
