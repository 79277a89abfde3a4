-- ===== src/Engine/Hex.antt =====
-- The hexadecimal routines of .backup/quickjs.c: `u8a_hex_nibble`, `u8a_hex_encode` and
-- `u8a_hex_decode`. The outcome of a decoder is that of `from_base64`.
pub mod Laws
use cno_cli.Base.{
  ℕ, zero, suc, ◌+◌, ◌-◌, ◌*◌, ◌%◌, Bool, true, false, ◌&&◌, ◌||◌, Option, none, some,
}
use cno_cli.Base.{List, [], ◌∷◌, ◌++◌, length, ltb, leb, ◌==◌, if◌then◌else◌}
use cno_cli.Base.{shl, shr, low_bits, u8, bit_or}
use cno_cli.Engine.Base64.From.{Outcome, done, failed}

-- `u8a_hex_digits[i]`.
unfoldable pub hex_digit : ℕ → ℕ
hex_digit i = if ltb i 10 then b'0' + i else b'a' + (i - 10)

-- `none` stands for -1.
unfoldable pub hex_nibble : ℕ → Option ℕ
hex_nibble ch =
    if leb b'0' ch && leb ch b'9'
    then some (ch - b'0')
    else if leb b'a' ch && leb ch b'f'
    then some (ch - b'a' + 10)
    else if leb b'A' ch && leb ch b'F'
    then some (ch - b'A' + 10)
    else none

unfoldable pub hex_encode : List ℕ → List ℕ
unfolding hex_digit
hex_encode [] = []
hex_encode (x ∷ xs) = hex_digit (shr x 4) ∷ hex_digit (low_bits x 4) ∷ hex_encode xs

-- `(hi << 4) | lo`, or `none` where one of the two is no digit.
unfoldable pub hex_byte : ℕ → ℕ → Option ℕ
hex_byte hi lo = join (hex_nibble hi) (hex_nibble lo)
  where
    join : Option ℕ → Option ℕ → Option ℕ
    join (some h) (some l) = some (u8 (bit_or (shl h 4) l))
    join (some h) none = none
    join none l = none

-- The loop, with `written` the length of `out` and `i` the characters read.
unfoldable pub hex_loop : ℕ → List ℕ → ℕ → List ℕ → Outcome
hex_loop max_len (hi ∷ lo ∷ rest) i out =
    if ltb (length out) max_len
    then elim (hex_byte hi lo) [
      | none ↦ failed out
      | some b ↦ hex_loop max_len rest (i + 2) (out ++ (b ∷ []))
    ]
    else done i out
hex_loop max_len rest i out = done i out

unfoldable pub hex_decode : ℕ → List ℕ → Outcome
unfolding hex_loop
hex_decode max_len src = if length src % 2 == 1 then failed [] else hex_loop max_len src 0 []
