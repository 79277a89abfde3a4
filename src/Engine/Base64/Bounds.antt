-- ===== src/Engine/Base64/Bounds.antt =====
-- `from_base64` stays inside its buffer and inside its source.
use cno_cli.Base.{ℕ, ◌+◌, ◌≤◌, ◌<◌, ◌≡◌, arith}
use cno_cli.Base.{shl, shr, u8, u32, bit_or}
use cno_cli.Base.{false, List, [], ◌∷◌, ◌++◌, length, length-append, ◌==◌, if◌then◌else◌}
use cno_cli.Engine.Base64.{Group, empty_group, push, partial_bytes, Alphabet}
use cno_cli.Engine.Base64.Tables.{b64_val}
use cno_cli.Engine.Base64.From.{
  LastChunk, loose, strict, stop_before_partial, Outcome, done, failed, skip_ws, decode_partial,
  at_end, after_pad, second_pad, padding, no_room, slow_loop, Fast, fast_loop, quad, resume,
  from_base64,
}

-- The bytes written, whether or not the result is an error, and the characters taken.
abbrev pub bytes : Outcome → List ℕ
bytes (done read out) = out
bytes (failed out) = out

abbrev pub taken : Outcome → ℕ
taken (done read out) = read
taken (failed out) = 0

abbrev pub IsWithin : ℕ → ℕ → Outcome → Type 0
IsWithin max_len src_len o = (taken o ≤ src_len) × (length (bytes o) ≤ max_len)

-- The bytes of the group so far, and those of the partial group, fit.
abbrev Fits : ℕ → Group → Type 0
Fits max_len g = length g.out + length (partial_bytes g) ≤ max_len

pub push_size :
    (ch : ℕ) (g : Group)
    → ((push ch g).seen ≡ (if g.seen + 1 == 4 then 0 else g.seen + 1))
      × (length (push ch g).out ≡ (if g.seen + 1 == 4 then length g.out + 3 else length g.out))
unfolding push empty_group
push_size ch g =
    let acc = bit_or (u32 (shl g.acc 6)) (b64_val ch) in
    ground (arith, length-append g.out (u8 (shr acc 16) ∷ u8 (shr acc 8) ∷ u8 acc ∷ []))

length-partial :
    (g : Group)
    → length (partial_bytes g) ≡ (if g.seen == 2 then 1 else if g.seen == 3 then 2 else 0)
unfolding partial_bytes
length-partial g = ground arith

module _ (max_len src_len read : ℕ) (g : Group) (room : Fits max_len g) (hr : read ≤ src_len) where
  decode_partial-IsWithin : IsWithin max_len src_len (decode_partial src_len g)
  unfolding decode_partial
  decode_partial-IsWithin = omega (arith, length-append g.out (partial_bytes g))

  at_end-IsWithin : (mode : LastChunk) → IsWithin max_len src_len (at_end mode src_len read g)
  unfolding at_end
  at_end-IsWithin loose = ground (arith, length-append g.out (partial_bytes g))
  at_end-IsWithin strict = ground (arith, length-append g.out (partial_bytes g))
  at_end-IsWithin stop_before_partial = ground (arith, length-append g.out (partial_bytes g))

  after_pad-IsWithin :
      (mode : LastChunk) (rest : List ℕ) → IsWithin max_len src_len (after_pad mode src_len g rest)
  unfolding after_pad
  after_pad-IsWithin strict [] = ground (arith, length-append g.out (partial_bytes g))
  after_pad-IsWithin loose [] = ground (arith, length-append g.out (partial_bytes g))
  after_pad-IsWithin stop_before_partial [] = ground (arith, length-append g.out (partial_bytes g))
  after_pad-IsWithin strict (ch ∷ rest) = omega arith
  after_pad-IsWithin loose (ch ∷ rest) = omega arith
  after_pad-IsWithin stop_before_partial (ch ∷ rest) = omega arith

  second_pad-IsWithin :
      (alpha : Alphabet) (mode : LastChunk) (rest : List ℕ)
      → IsWithin max_len src_len (second_pad alpha mode src_len read g rest)
  unfolding second_pad
  second_pad-IsWithin alpha strict [] = omega arith
  second_pad-IsWithin alpha loose [] = omega arith
  second_pad-IsWithin alpha stop_before_partial [] = omega arith
  second_pad-IsWithin alpha strict (ch ∷ rest) =
      ground (arith, after_pad-IsWithin strict (skip_ws alpha rest))
  second_pad-IsWithin alpha loose (ch ∷ rest) =
      ground (arith, after_pad-IsWithin loose (skip_ws alpha rest))
  second_pad-IsWithin alpha stop_before_partial (ch ∷ rest) =
      ground (arith, after_pad-IsWithin stop_before_partial (skip_ws alpha rest))

  padding-IsWithin :
      (alpha : Alphabet) (mode : LastChunk) (rest : List ℕ)
      → IsWithin max_len src_len (padding alpha mode src_len read g rest)
  unfolding padding
  padding-IsWithin alpha mode rest = ground (
    arith,
    second_pad-IsWithin alpha mode (skip_ws alpha rest),
    after_pad-IsWithin mode (skip_ws alpha rest),
  )

-- What holds at the head of the slow loop: the buffer is not full, and a group of three sextets
-- has room for its two bytes.
record HasRoom (max_len : ℕ) (g : Group) : Type 0 where
  few : g.seen < 4
  not_full : length g.out < max_len
  two_left : g.seen ≡ 3 → length g.out + 2 ≤ max_len

empty-HasRoom :
    (max_len : ℕ) (out : List ℕ) → length out < max_len → HasRoom max_len (empty_group out)
unfolding empty_group
empty-HasRoom max_len out h = ground arith

HasRoom-Fits : {max_len : ℕ} {g : Group} → HasRoom max_len g → Fits max_len g
HasRoom-Fits {g = g} h = ground (arith, length-partial g)

push-HasRoom :
    {max_len : ℕ} {g : Group} (ch : ℕ)
    → HasRoom max_len g
    → no_room max_len g ≡ false
    → length (push ch g).out < max_len
    → HasRoom max_len (push ch g)
unfolding no_room
push-HasRoom {g = g} ch h room lt = ground (arith, push_size ch g)

push_full-le :
    {max_len : ℕ} {g : Group} (ch : ℕ)
    → HasRoom max_len g
    → no_room max_len g ≡ false
    → length (push ch g).out ≤ max_len
unfolding no_room
push_full-le {g = g} ch h room = ground (arith, push_size ch g)

module _ (alpha : Alphabet) (mode : LastChunk) (max_len src_len : ℕ) where
  slow_loop-IsWithin :
      (src : List ℕ) (index read : ℕ) (g : Group)
      → HasRoom max_len g
      → read ≤ src_len
      → index + length src ≡ src_len
      → IsWithin max_len src_len (slow_loop alpha mode max_len src_len src index read g)
  unfolding slow_loop
  slow_loop-IsWithin [] index read g h hr e =
      at_end-IsWithin max_len src_len read g (HasRoom-Fits h) hr mode
  slow_loop-IsWithin (ch ∷ rest) index read g h hr e = ground (
    arith,
    HasRoom-Fits h,
    push_size ch g,
    push_full-le ch h,
    push-HasRoom ch h,
    padding-IsWithin max_len src_len read g (HasRoom-Fits h) hr alpha mode rest,
    slow_loop-IsWithin rest (index + 1) read g h hr (omega arith),
    slow_loop-IsWithin rest (index + 1) (if g.seen + 1 == 4 then index + 1 else read) (push ch g),
  )

  fast_loop-IsWithin :
      (src : List ℕ) (index : ℕ) (out : List ℕ)
      → length out ≤ max_len
      → index + length src ≡ src_len
      → let f = fast_loop alpha max_len src index out in
        (length f.out ≤ max_len) × (f.index + length f.rest ≡ src_len)
  unfolding fast_loop
  fast_loop-IsWithin [] index out h e = (h, e)
  fast_loop-IsWithin (a ∷ []) index out h e = (h, e)
  fast_loop-IsWithin (a ∷ b ∷ []) index out h e = (h, e)
  fast_loop-IsWithin (a ∷ b ∷ c ∷ []) index out h e = (h, e)
  fast_loop-IsWithin (a ∷ b ∷ c ∷ d ∷ rest) index out h e =
      let v = quad a b c d in
      let group = u8 (shr v 16) ∷ u8 (shr v 8) ∷ u8 v ∷ [] in
      ground (arith, length-append out group, fast_loop-IsWithin rest (index + 4) (out ++ group))

  resume-IsWithin :
      (f : Fast)
      → length f.out ≤ max_len
      → f.index + length f.rest ≡ src_len
      → IsWithin max_len src_len (resume alpha mode max_len src_len f)
  unfolding resume
  resume-IsWithin f h e = ground (
    arith,
    empty-HasRoom max_len f.out,
    slow_loop-IsWithin f.rest f.index f.index (empty_group f.out),
  )

-- Whatever the source, the alphabet and the mode, and also where it fails: `from_base64` writes at
-- most `max_len` bytes, and it reports at most `src_len` characters as read.
pub from_base64-IsWithin :
    (alpha : Alphabet) (mode : LastChunk) (max_len : ℕ) (src : List ℕ)
    → IsWithin max_len (length src) (from_base64 alpha mode max_len src)
unfolding from_base64
from_base64-IsWithin alpha mode max_len src = ground (
  arith,
  fast_loop-IsWithin alpha mode max_len (length src) src 0 [],
  resume-IsWithin alpha mode max_len (length src) (fast_loop alpha max_len src 0 []),
)
