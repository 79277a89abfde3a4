-- ===== src/Engine/Base64/From.antt =====
-- `from_base64` of .backup/quickjs.c, the decoder behind `Uint8Array.fromBase64` and
-- `setFromBase64`. A state has the characters not read yet beside `index`, the number of those
-- read; `b64_skip_ws` only advances `index`, so here it drops characters.
use cno_cli.Base.{ℕ, ◌+◌, ◌-◌, Bool, not, ◌&&◌, ◌||◌}
use cno_cli.Base.{List, [], ◌∷◌, ◌++◌, length, ltb, leb, ◌==◌, if◌then◌else◌}
use cno_cli.Base.{shl, shr, low_bits, u8, bit_and, bit_or}
use cno_cli.Engine.Base64.{Group, empty_group, push, partial_bytes, Alphabet}
use cno_cli.Engine.Base64.Tables.{flags, has, k_val, k_ws, b64_val}

pub data LastChunk : Type 0 where
  loose strict stop_before_partial : LastChunk

-- The characters read and the bytes written; or, after `*p_err = 1`, the bytes that stand in the
-- buffer all the same.
pub data Outcome : Type 0 where
  done : ℕ → List ℕ → Outcome
  failed : List ℕ → Outcome

unfoldable pub skip_ws : Alphabet → List ℕ → List ℕ
skip_ws alpha [] = []
skip_ws alpha (ch ∷ rest) =
    let skipped = skip_ws alpha rest in if has (flags alpha ch) k_ws then skipped else ch ∷ rest

-- `decode_partial`: the bytes of the last group, all of the source being read.
unfoldable pub decode_partial : ℕ → Group → Outcome
decode_partial src_len g = done src_len (g.out ++ partial_bytes g)

-- The end of the source inside the slow loop.
unfoldable pub at_end : LastChunk → ℕ → ℕ → Group → Outcome
unfolding decode_partial
at_end loose src_len read g =
    if g.seen == 0
    then done src_len g.out
    else if g.seen == 1
    then failed g.out
    else decode_partial src_len g
at_end strict src_len read g = if g.seen == 0 then done src_len g.out else failed g.out
at_end stop_before_partial src_len read g =
    if g.seen == 0 then done src_len g.out else done read g.out

-- The bits of the last sextet that no byte takes.
unused_bits : Group → Bool
unused_bits g = not (low_bits g.acc (if g.seen == 2 then 4 else 2) == 0)

-- After the padding only the end may follow; the strict mode wants the unused bits to be zero.
unfoldable pub after_pad : LastChunk → ℕ → Group → List ℕ → Outcome
unfolding unused_bits decode_partial
after_pad strict src_len g [] = if unused_bits g then failed g.out else decode_partial src_len g
after_pad loose src_len g [] = decode_partial src_len g
after_pad stop_before_partial src_len g [] = decode_partial src_len g
after_pad mode src_len g (ch ∷ rest) = failed g.out

-- The second sign `=` of a group of two.
unfoldable pub second_pad : Alphabet → LastChunk → ℕ → ℕ → Group → List ℕ → Outcome
unfolding after_pad
second_pad alpha stop_before_partial src_len read g [] = done read g.out
second_pad alpha loose src_len read g [] = failed g.out
second_pad alpha strict src_len read g [] = failed g.out
second_pad alpha mode src_len read g (ch ∷ rest) =
    if ch == b'=' then after_pad mode src_len g (skip_ws alpha rest) else failed g.out

-- A sign `=`, with `rest` behind it.
unfoldable pub padding : Alphabet → LastChunk → ℕ → ℕ → Group → List ℕ → Outcome
unfolding second_pad
padding alpha mode src_len read g rest =
    if ltb g.seen 2
    then failed g.out
    else if g.seen == 2
    then second_pad alpha mode src_len read g (skip_ws alpha rest)
    else after_pad mode src_len g (skip_ws alpha rest)

-- No room for the group that the next sextet would complete or extend.
unfoldable pub no_room : ℕ → Group → Bool
no_room max_len g =
    let remaining = max_len - length g.out in
    (remaining == 1 && g.seen == 2) || (remaining == 2 && g.seen == 3)

-- The slow loop. `read` is the end of the last full group.
unfoldable pub slow_loop : Alphabet → LastChunk → ℕ → ℕ → List ℕ → ℕ → ℕ → Group → Outcome
unfolding at_end padding no_room
slow_loop alpha mode max_len src_len [] index read g = at_end mode src_len read g
slow_loop alpha mode max_len src_len (ch ∷ rest) index read g =
    let full = g.seen + 1 == 4 in
    let pushed = push ch g in
    let skipped = slow_loop alpha mode max_len src_len rest (index + 1) read g in
    let next =
      slow_loop alpha mode max_len src_len rest (index + 1) (if full then index + 1 else read)
        pushed in
    if has (flags alpha ch) k_ws
    then skipped
    else if ch == b'='
    then padding alpha mode src_len read g rest
    else if not (has (flags alpha ch) k_val)
    then failed g.out
    else if no_room max_len g
    then done read g.out
    else if full && leb max_len (length pushed.out)
    then done (index + 1) pushed.out
    else next

-- Where the fast loop breaks.
pub record Fast : Type 0 where
  pub rest : List ℕ
  pub index : ℕ
  pub out : List ℕ

unfoldable pub quad : ℕ → ℕ → ℕ → ℕ → ℕ
quad a b c d =
    bit_or (bit_or (bit_or (shl (b64_val a) 18) (shl (b64_val b) 12)) (shl (b64_val c) 6))
      (b64_val d)

-- The fast loop: complete groups of four characters that are values.
unfoldable pub fast_loop : Alphabet → ℕ → List ℕ → ℕ → List ℕ → Fast
unfolding quad
fast_loop alpha max_len (a ∷ b ∷ c ∷ d ∷ rest) index out =
    let f =
      bit_and (bit_and (bit_and (flags alpha a) (flags alpha b)) (flags alpha c)) (flags alpha d) in
    let v = quad a b c d in
    let next =
      fast_loop alpha max_len rest (index + 4)
        (out ++ (u8 (shr v 16) ∷ u8 (shr v 8) ∷ u8 v ∷ [])) in
    if leb (length out + 3) max_len && has f k_val
    then next
    else record { rest = a ∷ b ∷ c ∷ d ∷ rest; index = index; out = out }
fast_loop alpha max_len rest index out = record { rest = rest; index = index; out = out }

-- What follows the fast loop.
unfoldable pub resume : Alphabet → LastChunk → ℕ → ℕ → Fast → Outcome
unfolding slow_loop empty_group
resume alpha mode max_len src_len f =
    if leb max_len (length f.out)
    then done f.index f.out
    else slow_loop alpha mode max_len src_len f.rest f.index f.index (empty_group f.out)

unfoldable pub from_base64 : Alphabet → LastChunk → ℕ → List ℕ → Outcome
unfolding fast_loop resume
from_base64 alpha mode max_len src =
    if max_len == 0
    then done 0 []
    else resume alpha mode max_len (length src) (fast_loop alpha max_len src 0 [])
