-- ===== src/Engine/Base64.antt =====
-- The base64 routines of .backup/quickjs.c. A buffer of bytes or of characters is a list of
-- numbers; what the code writes at `dst[j++]` is appended to a list, whose length is `j`.
pub mod Tables
pub mod Sextet
pub mod Loop
pub mod RoundTrip
pub mod From
pub mod Bounds
pub mod Quad
pub mod Ending
pub mod Agree
pub use Tables.{Alphabet, base64, base64url, IsByte}
use cno_cli.Base.{
  ℕ, suc, ◌+◌, ◌*◌, ◌≤◌, ◌<◌, ◌-◌, Bool, true, false, ◌&&◌, ◌||◌, Option, none, some,
}
use cno_cli.Base.{List, [], ◌∷◌, ◌++◌, length, leb, ◌==◌, if◌then◌else◌}
use cno_cli.Base.{shl, shr, low_bits, u8, u32, bit_and, bit_or}
use Tables.{enc, flags, b64_val, has, k_val, k_ws}

-- `b64_encode`: the loop over groups of three, and the last group of one or two.
unfoldable pub b64_encode : Alphabet → List ℕ → List ℕ
b64_encode alpha (x ∷ y ∷ z ∷ rest) =
    let v = 65536 * x + 256 * y + z in
    enc alpha (low_bits (shr v 18) 6)
    ∷ enc alpha (low_bits (shr v 12) 6)
    ∷ enc alpha (low_bits (shr v 6) 6)
    ∷ enc alpha (low_bits v 6)
    ∷ b64_encode alpha rest
b64_encode alpha (x ∷ y ∷ []) =
    let v = 65536 * x + 256 * y in
    enc alpha (low_bits (shr v 18) 6)
    ∷ enc alpha (low_bits (shr v 12) 6)
    ∷ enc alpha (low_bits (shr v 6) 6)
    ∷ b'='
    ∷ []
b64_encode alpha (x ∷ []) =
    let v = 65536 * x in
    enc alpha (low_bits (shr v 18) 6) ∷ enc alpha (low_bits (shr v 12) 6) ∷ b'=' ∷ b'=' ∷ []
b64_encode alpha [] = []

-- The sextets read of the current group of four, and the bytes written.
pub record Group : Type 0 where
  pub acc : ℕ  -- uint32_t
  pub seen : ℕ
  pub out : List ℕ

unfoldable pub empty_group : List ℕ → Group
empty_group out = record { acc = 0; seen = 0; out = out }

-- `acc = (acc << 6) | b64_val[ch]; seen++`, and the flush of a full group.
unfoldable pub push : ℕ → Group → Group
unfolding empty_group
push ch g =
    let acc = bit_or (u32 (shl g.acc 6)) (b64_val ch) in
    if g.seen + 1 == 4
    then empty_group (g.out ++ (u8 (shr acc 16) ∷ u8 (shr acc 8) ∷ u8 acc ∷ []))
    else record { acc = acc; seen = g.seen + 1; out = g.out }

-- Where the first loop of `b64_decode` breaks: what it has not read, and the group there.
pub record Break : Type 0 where
  pub rest : List ℕ
  pub group : Group

unfoldable pub decode_loop : List ℕ → Group → Break
decode_loop [] g = record { rest = []; group = g }
decode_loop (ch ∷ rest) g =
    let skipped = decode_loop rest g in
    let pushed = decode_loop rest (push ch g) in
    if has (flags base64 ch) k_ws
    then skipped
    else if has (flags base64 ch) k_val
    then pushed
    else record { rest = ch ∷ rest; group = g }

-- The second loop: at most two signs `=` among white space. It returns `pad` and what is left.
unfoldable pub pad_loop : List ℕ → ℕ → List ℕ × ℕ
pad_loop [] pad = ([], pad)
pad_loop (ch ∷ rest) pad =
    let padded = pad_loop rest (pad + 1) in
    let skipped = pad_loop rest pad in
    if leb (pad + 1) 2 && ch == b'='
    then padded
    else if has (flags base64 ch) k_ws
    then skipped
    else (ch ∷ rest, pad)

-- The bytes of a last group of two or three sextets.
unfoldable pub partial_bytes : Group → List ℕ
partial_bytes g =
    if g.seen == 2
    then u8 (shr g.acc 4) ∷ []
    else if g.seen == 3
    then u8 (shr g.acc 10) ∷ u8 (shr g.acc 2) ∷ []
    else []

is_empty : List ℕ → Bool
is_empty [] = true
is_empty (x ∷ xs) = false

-- The result of `b64_decode`: the bytes, or `none` where it sets `*err`.
unfoldable pub finish : Group → List ℕ × ℕ → Option (List ℕ)
unfolding is_empty
finish g (rest, pad) =
    if not_zero pad && not_four (g.seen + pad)
    then none
    else if is_empty rest
    then some (g.out ++ partial_bytes g)
    else none
  where
    not_zero : ℕ → Bool
    not_zero n = leb 1 n

    not_four : ℕ → Bool
    not_four n = if n == 4 then false else true

-- What `b64_decode` does after its first loop.
unfoldable pub conclude : Break → Option (List ℕ)
unfolding pad_loop finish is_empty
conclude b =
    if b.group.seen == 0
    then (if is_empty b.rest then some b.group.out else none)
    else if b.group.seen == 1
    then none
    else finish b.group (pad_loop b.rest 0)

unfoldable pub b64_decode : List ℕ → Option (List ℕ)
unfolding decode_loop empty_group conclude
b64_decode src = conclude (decode_loop src (empty_group []))
