-- ===== src/Engine/Escape.antt =====
-- `escape` and `unescape` of .backup/quickjs.c, on the string that `JS_ToString` gives: a list of
-- 16-bit units. `from_hex`, of another source file, is a parameter.
pub mod RoundTrip
pub mod Tests
use cno_cli.Base.{ℕ, zero, suc, ◌+◌, ◌/◌, ◌%◌, Bool, true, false, ◌&&◌, ◌||◌, Option, none, some}
use cno_cli.Base.{
  List, [], ◌∷◌, ◌++◌, length, drop, ltb, leb, ◌==◌, if◌then◌else◌, shl, shr, low_bits, bit_or,
}

unfoldable pub one_of : List ℕ → ℕ → Bool
one_of [] c = false
one_of (x ∷ xs) c = x == c || one_of xs c

unfoldable pub is_unescaped : ℕ → Bool
unfolding one_of
is_unescaped c =
    ltb c 256
    && ((leb b'A' c && leb c b'Z')
        || (leb b'a' c && leb c b'z')
        || (leb b'0' c && leb c b'9')
        || one_of (b'@' ∷ b'*' ∷ b'_' ∷ b'+' ∷ b'-' ∷ b'.' ∷ b'/' ∷ []) c)

-- `hex[i]` of "0123456789ABCDEF".
unfoldable pub upper_digit : ℕ → ℕ
upper_digit i = if ltb i 10 then 48 + i else 55 + i

unfoldable pub encode_uri_hex : ℕ → List ℕ
unfolding upper_digit
encode_uri_hex c =
    let low = upper_digit (low_bits (shr c 4) 4) ∷ upper_digit (low_bits c 4) ∷ [] in
    if leb 256 c
    then b'%'
      ∷ b'u'
      ∷ upper_digit (low_bits (shr c 12) 4)
      ∷ upper_digit (low_bits (shr c 8) 4)
      ∷ low
    else b'%' ∷ low

unfoldable pub js_global_escape : List ℕ → List ℕ
unfolding is_unescaped encode_uri_hex
js_global_escape [] = []
js_global_escape (c ∷ cs) =
    let rest = js_global_escape cs in if is_unescaped c then c ∷ rest else encode_uri_hex c ++ rest

unfoldable pub starts_with : ℕ → List ℕ → Bool
starts_with u [] = false
starts_with u (x ∷ xs) = x == u

abbrev pub first_escape : ℕ → Option ℕ → Option ℕ → ℕ × ℕ
first_escape c (some n) short = (n, 5)
first_escape c none (some n) = (n, 2)
first_escape c none none = (c, 0)

-- `from_hex` gives the value of a hexadecimal digit, and `none` for what it returns as negative.
module _ (from_hex : ℕ → Option ℕ) where
  -- The number that the next `n` units spell, behind the digits of `c`; `none` where one is no digit.
  -- The callers have seen that there are so many units.
  unfoldable pub string_get_hex : ℕ → ℕ → List ℕ → Option ℕ
  string_get_hex zero c units = some c
  string_get_hex (suc n) c [] = none
  string_get_hex (suc n) c (u ∷ units) = elim (from_hex u) [
    | none ↦ none
    | some h ↦ string_get_hex n (bit_or (shl c 4) h) units
  ]

  -- The number in `%uXXXX` and in `%XX`, by what follows the sign.
  unfoldable pub long_escape : List ℕ → Option ℕ
  unfolding string_get_hex starts_with
  long_escape rest =
      if leb 5 (length rest) && starts_with b'u' rest
      then string_get_hex 4 0 (drop 1 rest)
      else none

  unfoldable pub short_escape : List ℕ → Option ℕ
  unfolding string_get_hex
  short_escape rest = if leb 2 (length rest) then string_get_hex 2 0 rest else none

  -- The unit that `c` begins, and how much is added to `i` for it.
  unfoldable pub unit_at : ℕ → List ℕ → ℕ × ℕ
  unit_at c rest =
      if c == b'%' then first_escape c (long_escape rest) (short_escape rest) else (c, 0)

  -- The loop, with the number of units that `i` has already passed.
  unfoldable pub unescape_loop : ℕ → List ℕ → List ℕ
  unescape_loop skip [] = []
  unescape_loop (suc skip) (c ∷ rest) = unescape_loop skip rest
  unescape_loop zero (c ∷ rest) =
      let (unit, skip) = unit_at c rest in unit ∷ unescape_loop skip rest

  unfoldable pub js_global_unescape : List ℕ → List ℕ
  unfolding unescape_loop
  js_global_unescape str = unescape_loop 0 str
