-- ===== src/Engine/Uint8Array/RoundTrip.antt =====
-- `fromBase64` and `fromHex` of .backup/quickjs.c against `b64_decode` and the encoders.
use cno_cli.Base.{
  ℕ, ◌+◌, ◌*◌, ◌/◌, ◌≤◌, ◌≡◌, refl, ap, ◌∙◌, arith, true, false, Option, none, some, Option-cases,
}
use mathlib.Core.Option.{some-injective}
use cno_cli.Base.{List, [], ◌∷◌, length, All, inl, inr}
use cno_cli.Engine.Result.{
  Memory, Result, ok, throws, ◌>>=◌, string_len_max, invalid_base64, invalid_hex, Error,
}
use cno_cli.Engine.Base64.{IsByte, base64, b64_encode, b64_decode}
use cno_cli.Engine.Base64.From.{Outcome, done, failed, loose, from_base64}
use cno_cli.Engine.Base64.Ending.{answer, whole}
use cno_cli.Engine.Base64.Agree.{from_base64-b64_decode}
use cno_cli.Engine.Base64.RoundTrip.{b64_decode-b64_encode}
use cno_cli.Engine.Hex.{hex_encode, hex_decode}
use cno_cli.Engine.Hex.Laws.{hex_decode-hex_encode}
use cno_cli.Engine.Uint8Array.{
  text, no_options, Array, check_uint8array, check_options_object, parse_alphabet_option,
  parse_last_chunk_option, parse_omit_padding, get_uint8array_bytes, string_argument, new_array,
  js_uint8array_to_base64, js_uint8array_from_base64, js_uint8array_to_hex, js_uint8array_from_hex,
}

-- The allocator grants every request.
pub record IsAmpleFor (mem : Memory) : Type 0 where
  pub mallocs : (n : ℕ) → mem.malloc n ≡ true
  pub strings : (n : ℕ) → mem.alloc_string n ≡ true
  pub arrays : (n : ℕ) → mem.new_array n ≡ true

-- What `fromBase64` returns for what `atob` makes of the same text.
abbrev pub array_or_syntax_error : Option (List ℕ) → Result (List ℕ)
array_or_syntax_error none = throws invalid_base64
array_or_syntax_error (some out) = ok out

new_array-answer :
    (mem : Memory) (invalid : Error) (o : Outcome) (len : ℕ) (bs : List ℕ)
    → IsAmpleFor mem
    → answer o ≡ some (len, bs)
    → new_array mem invalid o ≡ ok bs
unfolding new_array
new_array-answer mem invalid (done read out) len bs ample e =
    rw (ample.arrays (length out)) (ap ok (ap (λ (r : ℕ × List ℕ). r.1) (some-injective _ _ e)))
new_array-answer mem invalid (failed out) len bs ample e = absurd (cc)

new_array_failed :
    (mem : Memory) (invalid : Error) (o : Outcome)
    → answer o ≡ none
    → new_array mem invalid o ≡ throws invalid
unfolding new_array
new_array_failed mem invalid (done read out) e = absurd (cc)
new_array_failed mem invalid (failed out) e = refl

length-hex_encode : (bs : List ℕ) → length (hex_encode bs) ≡ 2 * length bs
unfolding hex_encode
length-hex_encode [] = refl
length-hex_encode (b ∷ bs) = omega (arith, length-hex_encode bs)

module _ (mem : Memory) (ample : IsAmpleFor mem) where
  from_base64-plain :
      (str : List ℕ)
      → js_uint8array_from_base64 mem (text (some str)) no_options
        ≡ new_array mem invalid_base64 (from_base64 base64 loose (length str / 4 * 3 + 3) str)
  unfolding js_uint8array_from_base64 string_argument check_options_object parse_alphabet_option
      parse_last_chunk_option
  from_base64-plain str = rw (ample.mallocs (length str / 4 * 3 + 3)) refl

  -- With an allocator that grants every request and without options, `fromBase64` accepts the texts
  -- that `b64_decode`, behind `atob`, accepts, returns the same bytes, and throws a `SyntaxError` on
  -- every other text.
  pub js_uint8array_from_base64-b64_decode :
      (str : List ℕ)
      → js_uint8array_from_base64 mem (text (some str)) no_options
        ≡ array_or_syntax_error (b64_decode str)
  js_uint8array_from_base64-b64_decode str =
      let agree = from_base64-b64_decode (length str / 4 * 3 + 3) str (omega arith) in
      from_base64-plain str ∙ elim (Option-cases (b64_decode str)) [
        | inl none_there ↦
            rw none_there
              (new_array_failed mem invalid_base64 _ (agree ∙ ap (whole (length str)) none_there))
        | inr (bs, found) ↦ rw found (
            new_array-answer mem invalid_base64 _ (length str) bs ample
              (agree ∙ ap (whole (length str)) found))
      ]

  to_base64-plain :
      (p : Array) (bs : List ℕ)
      → p.elements ≡ some bs
      → 4 * ((length bs + 2) / 3) ≤ string_len_max
      → js_uint8array_to_base64 mem (some p) no_options
        ≡ ok (record { is_wide_char = false; chars = b64_encode base64 bs })
  unfolding js_uint8array_to_base64 check_uint8array check_options_object parse_alphabet_option
      parse_omit_padding get_uint8array_bytes
  to_base64-plain p bs e small = rw e (ground (arith, ample.strings (4 * ((length bs + 2) / 3))))

  to_hex-plain :
      (p : Array) (bs : List ℕ)
      → p.elements ≡ some bs
      → length bs * 2 ≤ string_len_max
      → js_uint8array_to_hex mem (some p)
        ≡ ok (record { is_wide_char = false; chars = hex_encode bs })
  unfolding js_uint8array_to_hex check_uint8array get_uint8array_bytes
  to_hex-plain p bs e small = rw e (ground (arith, ample.strings (length bs * 2)))

  from_hex-plain :
      (str : List ℕ)
      → js_uint8array_from_hex mem (text (some str))
        ≡ new_array mem invalid_hex (hex_decode (length str / 2 + 1) str)
  unfolding js_uint8array_from_hex string_argument
  from_hex-plain str = rw (ample.mallocs (length str / 2 + 1)) refl

  -- With an allocator that grants every request, and where the text is short enough for a string:
  -- `fromBase64` of what `toBase64` returns for an array of bytes has the elements of the array.
  pub js_uint8array_from_base64-to_base64 :
      (p : Array) (bs : List ℕ)
      → p.elements ≡ some bs
      → All IsByte bs
      → 4 * ((length bs + 2) / 3) ≤ string_len_max
      → (js_uint8array_to_base64 mem (some p) no_options >>= λ s.
          js_uint8array_from_base64 mem (text (some s.chars)) no_options)
        ≡ ok bs
  js_uint8array_from_base64-to_base64 p bs e h small = rw (to_base64-plain p bs e small) (
      js_uint8array_from_base64-b64_decode (b64_encode base64 bs)
      ∙ ap array_or_syntax_error (b64_decode-b64_encode bs h))

  -- With an allocator that grants every request, and where the text is short enough for a string:
  -- `fromHex` of what `toHex` returns for an array of bytes has the elements of the array.
  pub js_uint8array_from_hex-to_hex :
      (p : Array) (bs : List ℕ)
      → p.elements ≡ some bs
      → All IsByte bs
      → length bs * 2 ≤ string_len_max
      → (js_uint8array_to_hex mem (some p) >>= λ s.
          js_uint8array_from_hex mem (text (some s.chars)))
        ≡ ok bs
  js_uint8array_from_hex-to_hex p bs e h small = rw (to_hex-plain p bs e small) (
      from_hex-plain (hex_encode bs)
      ∙ new_array-answer mem invalid_hex _ (2 * length bs) bs ample (
          ap answer (
            hex_decode-hex_encode (length (hex_encode bs) / 2 + 1) bs h
              (omega (arith, length-hex_encode bs)))))
