-- ===== src/Engine/Uint8Array/Tests.antt =====
-- Runs of the `Uint8Array` methods of .backup/quickjs.c.
use cno_cli.Base.{ℕ, ◌≡◌, refl, arith, true, false, some, List, [], ◌∷◌}
use cno_cli.Engine.Result.{Memory, ok, ◌>>=◌}
use cno_cli.Engine.Base64.{base64, b64_decode}
use cno_cli.Engine.Base64.Tables.{codes}
use cno_cli.Engine.Uint8Array.{
  text, no_options, Array, js_uint8array_to_base64, js_uint8array_from_base64, js_uint8array_to_hex,
  js_uint8array_from_hex, js_uint8array_set_from_base64,
}
use cno_cli.Engine.Uint8Array.Arguments.{alphabet_named, c_string, same}
use cno_cli.Engine.Uint8Array.Size.{size, size-set_from_base64}
use cno_cli.Engine.Uint8Array.RoundTrip.{
  IsAmpleFor, array_or_syntax_error, js_uint8array_from_base64-b64_decode,
  js_uint8array_from_base64-to_base64, js_uint8array_from_hex-to_hex,
}

abbrev roomy_memory : Memory
roomy_memory = record {
  malloc = λ n. true;
  alloc_string = λ n. true;
  new_array = λ n. true;
  new_object = true;
}

roomy_memory-IsAmpleFor : IsAmpleFor roomy_memory
roomy_memory-IsAmpleFor = record { mallocs = λ n. refl; strings = λ n. refl; arrays = λ n. refl }

abbrev three_bytes : Array
three_bytes = record { immutable = false; elements = some (1 ∷ 2 ∷ 255 ∷ []) }

abbrev broken_text : List ℕ
broken_text = codes "TWFu!"

-- The comparison stops at a NUL.
alphabet_nul : alphabet_named (98 ∷ 97 ∷ 115 ∷ 101 ∷ 54 ∷ 52 ∷ 0 ∷ 120 ∷ []) ≡ ok base64
unfolding alphabet_named c_string same
alphabet_nul = refl

size-set_from_base64_example :
    size
      (js_uint8array_set_from_base64 roomy_memory
        (some three_bytes)
        (text (some broken_text))
        no_options).contents
    ≡ some 3
size-set_from_base64_example =
    size-set_from_base64 roomy_memory three_bytes (text (some broken_text)) no_options

js_uint8array_from_base64-b64_decode_example :
    js_uint8array_from_base64 roomy_memory (text (some broken_text)) no_options
    ≡ array_or_syntax_error (b64_decode broken_text)
js_uint8array_from_base64-b64_decode_example =
    js_uint8array_from_base64-b64_decode roomy_memory roomy_memory-IsAmpleFor broken_text

js_uint8array_from_base64-to_base64_example :
    (js_uint8array_to_base64 roomy_memory (some three_bytes) no_options >>= λ s.
    js_uint8array_from_base64 roomy_memory (text (some s.chars)) no_options)
    ≡ ok (1 ∷ 2 ∷ 255 ∷ [])
js_uint8array_from_base64-to_base64_example =
    js_uint8array_from_base64-to_base64 roomy_memory roomy_memory-IsAmpleFor three_bytes
      (1 ∷ 2 ∷ 255 ∷ []) refl (omega arith, (omega arith, (omega arith, tt))) (omega arith)

js_uint8array_from_hex-to_hex_example :
    (js_uint8array_to_hex roomy_memory (some three_bytes) >>= λ s.
    js_uint8array_from_hex roomy_memory (text (some s.chars)))
    ≡ ok (1 ∷ 2 ∷ 255 ∷ [])
js_uint8array_from_hex-to_hex_example =
    js_uint8array_from_hex-to_hex roomy_memory roomy_memory-IsAmpleFor three_bytes
      (1 ∷ 2 ∷ 255 ∷ []) refl (omega arith, (omega arith, (omega arith, tt))) (omega arith)
