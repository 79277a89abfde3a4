-- ===== src/Engine/Uint8Array/Arguments.antt =====
-- The options of the base64 methods of .backup/quickjs.c. What the engine finds for a value or a
-- property is an argument: a string is its UTF-8 bytes.
use cno_cli.Base.{ℕ, Bool, true, false, ◌&&◌, Option, none, some}
use cno_cli.Base.{List, [], ◌∷◌, length, leb, ◌==◌, if◌then◌else◌}
use cno_cli.Engine.Result.{
  Result, ok, throws, out_of_memory, options_not_object, lookup_failed, not_a_string,
  invalid_alphabet, invalid_last_chunk,
}
use cno_cli.Engine.Base64.{Alphabet, base64, base64url}
use cno_cli.Engine.Base64.Tables.{codes}
use cno_cli.Engine.Base64.From.{LastChunk, loose, strict, stop_before_partial}

-- A value as these methods look at it; `text none` is a string whose copy as a C string fails, and
-- `other` has its truth value.
pub data Value : Type 0 where
  undefined : Value
  text : Option (List ℕ) → Value
  other : Bool → Value

-- What `JS_GetPropertyStr` gives; `none` is an exception.
pub record Lookups : Type 0 where
  pub alphabet : Option Value
  pub last_chunk_handling : Option Value
  pub omit_padding : Option Value

pub data Options : Type 0 where
  no_options : Options
  object : Lookups → Options
  primitive : Options

unfoldable pub check_options_object : Options → Result (Option Lookups)
check_options_object no_options = ok none
check_options_object (object found) = ok (some found)
check_options_object primitive = throws options_not_object

-- A C string ends before its first NUL.
unfoldable pub c_string : List ℕ → List ℕ
c_string [] = []
c_string (b ∷ bs) = let rest = c_string bs in if b == 0 then [] else b ∷ rest

unfoldable pub same : List ℕ → List ℕ → Bool
same [] [] = true
same [] (y ∷ ys) = false
same (x ∷ xs) [] = false
same (x ∷ xs) (y ∷ ys) = x == y && same xs ys

-- `!strcmp(str, name)`
unfoldable pub equal_strings : List ℕ → List ℕ → Bool
unfolding c_string same
equal_strings str name = same (c_string str) name

unfoldable pub alphabet_named : List ℕ → Result Alphabet
unfolding equal_strings
alphabet_named str =
    if equal_strings str (codes "base64")
    then ok base64
    else if equal_strings str (codes "base64url")
    then ok base64url
    else throws invalid_alphabet

unfoldable pub last_chunk_named : List ℕ → Result LastChunk
unfolding equal_strings
last_chunk_named str =
    if equal_strings str (codes "loose")
    then ok loose
    else if equal_strings str (codes "strict")
    then ok strict
    else if equal_strings str (codes "stop-before-partial")
    then ok stop_before_partial
    else throws invalid_last_chunk

-- An option that must be a string, or undefined for its default.
unfoldable pub string_option {ℓ} : {A : Type ℓ} → A → (List ℕ → Result A) → Option Value → Result A
string_option default named none = throws lookup_failed
string_option default named (some undefined) = ok default
string_option default named (some (text none)) = throws out_of_memory
string_option default named (some (text (some str))) = named str
string_option default named (some (other b)) = throws not_a_string

unfoldable pub parse_alphabet_option : Option Lookups → Result Alphabet
unfolding string_option alphabet_named
parse_alphabet_option none = ok base64
parse_alphabet_option (some found) = string_option base64 alphabet_named found.alphabet

unfoldable pub parse_last_chunk_option : Option Lookups → Result LastChunk
unfolding string_option last_chunk_named
parse_last_chunk_option none = ok loose
parse_last_chunk_option (some found) =
    string_option loose last_chunk_named found.last_chunk_handling

-- `JS_ToBool`; a string is true unless it is empty.
unfoldable pub to_bool : Value → Bool
to_bool undefined = false
to_bool (text none) = true
to_bool (text (some str)) = leb 1 (length str)
to_bool (other b) = b

unfoldable pub parse_omit_padding : Option Lookups → Result Bool
unfolding to_bool
parse_omit_padding none = ok false
parse_omit_padding (some found) = elim found.omit_padding [
  | none ↦ throws lookup_failed
  | some v ↦ ok (to_bool v)
]
