-- ===== src/Engine/Uint8Array.antt =====
-- The base64 and hexadecimal methods of `Uint8Array` of .backup/quickjs.c, on the values
-- that the engine finds for the arguments. A string is its UTF-8 bytes.
pub mod Arguments
pub mod Size
pub mod RoundTrip
pub mod Tests
pub use Arguments.{Value, undefined, text, other, Lookups, Options, no_options, object, primitive}
unfoldable pub use Arguments.{
  check_options_object, parse_alphabet_option, parse_last_chunk_option, parse_omit_padding,
}
use cno_cli.Base.{ℕ, ◌+◌, ◌*◌, ◌/◌, Bool, true, false, not, ◌&&◌, Option, none, some}
use cno_cli.Base.{List, [], ◌∷◌, ◌++◌, length, drop, leb, ◌==◌, if◌then◌else◌, u32}
use cno_cli.Engine.Result.{
  Memory, Error, Result, ok, throws, guard, ◌>>=◌, ◌>>◌, string_len_max, out_of_memory,
  output_too_large, not_uint8array, immutable_buffer, out_of_bounds, expected_string,
  options_not_object, lookup_failed, not_a_string, invalid_alphabet, invalid_last_chunk,
  invalid_base64, invalid_hex,
}
use cno_cli.Engine.Text.{JsString}
use cno_cli.Engine.Base64.{Alphabet, base64, base64url, b64_encode}
use cno_cli.Engine.Base64.Tables.{codes}
use cno_cli.Engine.Base64.From.{
  LastChunk, loose, strict, stop_before_partial, Outcome, done, failed, from_base64,
}
use cno_cli.Engine.Hex.{hex_encode, hex_decode}

-- A `Uint8Array`; its bytes are those after the options have been read, and `none` where the array is
-- out of bounds of its buffer by then.
pub record Array : Type 0 where
  pub immutable : Bool
  pub elements : Option (List ℕ)

unfoldable pub check_uint8array : Option Array → Result Array
check_uint8array none = throws not_uint8array
check_uint8array (some p) = ok p

unfoldable pub get_uint8array_bytes : Array → Result (List ℕ)
get_uint8array_bytes p = elim p.elements [ none ↦ throws out_of_bounds | some bs ↦ ok bs ]

-- The loop that takes the signs `=` off the end.
unfoldable pub strip_padding : List ℕ → List ℕ
strip_padding [] = []
strip_padding (c ∷ cs) =
    let rest = strip_padding cs in if c == b'=' && length rest == 0 then [] else c ∷ rest

unfoldable pub js_uint8array_to_base64 : Memory → Option Array → Options → Result JsString
js_uint8array_to_base64 mem this opts = do
  p ← check_uint8array this
  found ← check_options_object opts
  alpha ← parse_alphabet_option found
  omit ← parse_omit_padding found
  bs ← get_uint8array_bytes p
  let out_len = 4 * ((length bs + 2) / 3)
  guard (leb out_len string_len_max) output_too_large
  guard (mem.alloc_string out_len) out_of_memory
  let written = b64_encode alpha bs
  ok (record { is_wide_char = false; chars = if omit then strip_padding written else written })

unfoldable pub js_uint8array_to_hex : Memory → Option Array → Result JsString
js_uint8array_to_hex mem this = do
  p ← check_uint8array this
  bs ← get_uint8array_bytes p
  let out_len = length bs * 2
  guard (leb out_len string_len_max) output_too_large
  guard (mem.alloc_string out_len) out_of_memory
  ok (record { is_wide_char = false; chars = hex_encode bs })

-- `JS_IsString` and `JS_ToCStringLen` of the first argument.
unfoldable pub string_argument : Value → Result (List ℕ)
string_argument (text none) = throws out_of_memory
string_argument (text (some str)) = ok str
string_argument undefined = throws expected_string
string_argument (other b) = throws expected_string

unfoldable pub new_array : Memory → Error → Outcome → Result (List ℕ)
new_array mem invalid (failed out) = throws invalid
new_array mem invalid (done read out) = do guard (mem.new_array (length out)) out_of_memory; ok out

unfoldable pub js_uint8array_from_base64 : Memory → Value → Options → Result (List ℕ)
js_uint8array_from_base64 mem argument opts = do
  str ← string_argument argument
  found ← check_options_object opts
  alpha ← parse_alphabet_option found
  mode ← parse_last_chunk_option found
  let out_cap = length str / 4 * 3 + 3
  guard (mem.malloc out_cap) out_of_memory
  new_array mem invalid_base64 (from_base64 alpha mode out_cap str)

unfoldable pub js_uint8array_from_hex : Memory → Value → Result (List ℕ)
js_uint8array_from_hex mem argument = do
  str ← string_argument argument
  let out_cap = length str / 2 + 1
  guard (mem.malloc out_cap) out_of_memory
  new_array mem invalid_hex (hex_decode out_cap str)

-- What a method leaves in the array, and what it returns: how much was read and written.
pub record Stored : Type 0 where
  pub contents : Option (List ℕ)
  pub result : Result (ℕ × ℕ)

unfoldable pub js_make_read_written : Memory → ℕ → ℕ → Result (ℕ × ℕ)
js_make_read_written mem read written = do
  guard (mem.new_object) out_of_memory
  ok (u32 read, u32 written)

-- A decoder has written from the start of the array, also where it fails.
unfoldable pub store : Memory → Error → List ℕ → Outcome → Stored
unfolding js_make_read_written
store mem invalid bs (failed out) = record {
  contents = some (out ++ drop (length out) bs);
  result = throws invalid;
}
store mem invalid bs (done read out) = record {
  contents = some (out ++ drop (length out) bs);
  result = js_make_read_written mem read (length out);
}

-- Where a method throws before it decodes, the array is as it was.
unfoldable pub stored_or : Option (List ℕ) → Result Stored → Stored
stored_or before (ok s) = s
stored_or before (throws e) = record { contents = before; result = throws e }

unfoldable pub set_from_base64_checked : Memory → Array → Value → Options → Result Stored
unfolding store
set_from_base64_checked mem p argument opts = do
  guard (not (p.immutable)) immutable_buffer
  str ← string_argument argument
  found ← check_options_object opts
  alpha ← parse_alphabet_option found
  mode ← parse_last_chunk_option found
  bs ← get_uint8array_bytes p
  ok (store mem invalid_base64 bs (from_base64 alpha mode (length bs) str))

unfoldable pub js_uint8array_set_from_base64 : Memory → Option Array → Value → Options → Stored
js_uint8array_set_from_base64 mem none argument opts = record {
  contents = none;
  result = throws not_uint8array;
}
js_uint8array_set_from_base64 mem (some p) argument opts =
    stored_or p.elements (set_from_base64_checked mem p argument opts)

unfoldable pub set_from_hex_checked : Memory → Array → Value → Result Stored
unfolding store
set_from_hex_checked mem p argument = do
  guard (not (p.immutable)) immutable_buffer
  str ← string_argument argument
  bs ← get_uint8array_bytes p
  ok (store mem invalid_hex bs (hex_decode (length bs) str))

unfoldable pub js_uint8array_set_from_hex : Memory → Option Array → Value → Stored
js_uint8array_set_from_hex mem none argument = record {
  contents = none;
  result = throws not_uint8array;
}
js_uint8array_set_from_hex mem (some p) argument =
    stored_or p.elements (set_from_hex_checked mem p argument)
