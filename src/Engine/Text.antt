-- ===== src/Engine/Text.antt =====
-- `js_btoa` and `js_atob` of .backup/quickjs.c, on the string that `JS_ToString` gives. What the
-- allocator grants is a parameter.
pub mod RoundTrip
use cno_cli.Base.{
  ℕ, suc, ◌+◌, ◌-◌, ◌*◌, ◌/◌, ◌^◌, ◌<◌, Bool, true, false, not, ◌||◌, Option, none, some,
}
use cno_cli.Base.{List, [], ◌∷◌, length, ltb, leb, All, map, u8, if◌then◌else◌}
use cno_cli.Engine.Result.{
  Memory, Error, Result, ok, throws, guard, ◌>>=◌, ◌>>◌, string_len_max, size_max, out_of_memory,
  invalid_character, input_too_large, output_too_large,
}
use cno_cli.Engine.Base64.{base64, b64_encode, b64_decode}

-- A `JSString`: its characters are bytes, or 16-bit units where `is_wide_char` is set.
pub record JsString : Type 0 where
  pub is_wide_char : Bool
  pub chars : List ℕ

-- Whether a loop that stops at the first character above `top` stops.
unfoldable pub any_above : ℕ → List ℕ → Bool
any_above top [] = false
any_above top (c ∷ cs) = ltb top c || any_above top cs

-- The bytes of the source: a wide string is copied, unless one of its units is above `top`.
unfoldable pub narrow : ℕ → Memory → JsString → Result (List ℕ)
unfolding any_above
narrow top mem s =
    if s.is_wide_char
    then (do
      guard (mem.malloc (if leb 1 (length s.chars) then length s.chars else 1)) out_of_memory
      guard (not (any_above top s.chars)) invalid_character
      ok (map u8 s.chars))
    else ok s.chars

unfoldable pub js_btoa : Memory → JsString → Result JsString
js_btoa mem s = do
  src ← narrow 255 mem s
  let len = length s.chars
  guard (leb len ((size_max - 2) / 3)) input_too_large
  let out_len = 4 * ((len + 2) / 3)
  guard (leb out_len string_len_max) output_too_large
  guard (mem.alloc_string out_len) out_of_memory
  ok (record { is_wide_char = false; chars = b64_encode base64 src })

decoded : Option (List ℕ) → Result JsString
decoded none = throws invalid_character
decoded (some bytes) = ok (record { is_wide_char = false; chars = bytes })

unfoldable pub js_atob : Memory → JsString → Result JsString
unfolding decoded
js_atob mem s = do
  guard (s.is_wide_char || not (any_above 127 s.chars)) invalid_character
  src ← narrow 127 mem s
  let slen = length s.chars
  guard (leb slen (size_max / 3 * 4)) input_too_large
  let out_cap = slen / 4 * 3 + 3
  guard (leb out_cap string_len_max) output_too_large
  guard (mem.alloc_string out_cap) out_of_memory
  decoded (b64_decode src)
