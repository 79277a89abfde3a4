-- ===== src/Engine/Base64/Ending.antt =====
-- How the two base64 decoders of .backup/quickjs.c end a source.
use cno_cli.Base.{ℕ, ◌<◌, ◌≡◌, refl, arith}
use cno_cli.Base.{Bool, true, false, List, [], ◌∷◌, ◌==◌}
use cno_cli.Base.{◌&&◌}
use cno_cli.Base.{Option, none, some}
use cno_cli.Engine.Base64.{Group, base64, pad_loop, conclude, finish}
use cno_cli.Engine.Base64.Tables.{flags, has, k_ws, flags_pad}
use cno_cli.Engine.Base64.From.{
  loose, Outcome, done, failed, skip_ws, at_end, after_pad, second_pad, padding,
}

-- What a caller sees of an outcome: the characters read and the bytes, unless it failed.
abbrev pub answer : Outcome → Option (ℕ × List ℕ)
answer (done read out) = some (read, out)
answer (failed out) = none

-- A decoder that reads all of its source.
abbrev pub whole : ℕ → Option (List ℕ) → Option (ℕ × List ℕ)
whole src_len none = none
whole src_len (some out) = some (src_len, out)

pub and_right : (p q : Bool) → (p && q) ≡ true → q ≡ true
and_right p q h = ground arith

abbrev SkipHead : List ℕ → Type 0
SkipHead [] = Unit {0}
SkipHead (c ∷ r) = has (flags base64 c) k_ws ≡ false

skip_ws-head : (src : List ℕ) → SkipHead (skip_ws base64 src)
unfolding skip_ws
skip_ws-head [] = tt
skip_ws-head (c ∷ r) = ground (arith, skip_ws-head r)

-- White space is no sign `=`.
ws-ne-pad : (c : ℕ) → has (flags base64 c) k_ws ≡ true → (c == b'=') ≡ false
unfolding has
ws-ne-pad c h = ground (arith, flags_pad base64)

pub value-ne-pad : (c : ℕ) → flags base64 c ≡ 1 → (c == b'=') ≡ false
value-ne-pad c h = ground (arith, flags_pad base64)

pad_loop-skip_ws : (src : List ℕ) (pad : ℕ) → pad_loop src pad ≡ pad_loop (skip_ws base64 src) pad
unfolding skip_ws pad_loop
pad_loop-skip_ws [] pad = refl
pad_loop-skip_ws (c ∷ r) pad = ground (arith, ws-ne-pad c, pad_loop-skip_ws r pad)

-- Two signs `=` are read at most.
pad_loop_two : (src : List ℕ) → (pad_loop src 2).1 ≡ 2
unfolding pad_loop
pad_loop_two [] = refl
pad_loop_two (c ∷ r) = ground (arith, pad_loop_two r)

pad_loop_stuck :
    (c : ℕ) (r : List ℕ)
    → flags base64 c ≡ 0
    → (c == b'=') ≡ false
    → pad_loop (c ∷ r) 0 ≡ (c ∷ r, 0)
unfolding pad_loop has
pad_loop_stuck c r f e = rw (e, f) refl

module _ (src_len : ℕ) (g : Group) (few : g.seen < 4) where
  after_second :
      (r : List ℕ)
      → SkipHead r
      → g.seen ≡ 2
      → answer (after_pad loose src_len g r) ≡ whole src_len (finish g (pad_loop r 2))
  unfolding after_pad finish pad_loop
  after_second [] h two = ground arith
  after_second (c ∷ r) h two = ground arith

  second_pad-finish :
      (r : List ℕ) (read : ℕ)
      → SkipHead r
      → g.seen ≡ 2
      → answer (second_pad base64 loose src_len read g r) ≡ whole src_len (finish g (pad_loop r 1))
  unfolding second_pad finish pad_loop
  second_pad-finish [] read h two = ground arith
  second_pad-finish (c ∷ r) read h two =
      ground (arith, after_second (skip_ws base64 r) (skip_ws-head r) two, pad_loop-skip_ws r 2)

  after_third :
      (r : List ℕ)
      → SkipHead r
      → g.seen ≡ 3
      → answer (after_pad loose src_len g r) ≡ whole src_len (finish g (pad_loop r 1))
  unfolding after_pad finish pad_loop
  after_third [] h three = ground arith
  after_third (c ∷ r) h three = ground (arith, pad_loop_two r)

  pub padding-conclude :
      (r : List ℕ) (read : ℕ)
      → answer (padding base64 loose src_len read g r)
        ≡ whole src_len (conclude (record { rest = b'=' ∷ r; group = g }))
  unfolding padding conclude pad_loop
  padding-conclude r read = ground (
    arith,
    pad_loop-skip_ws r 1,
    second_pad-finish (skip_ws base64 r) read (skip_ws-head r),
    after_third (skip_ws base64 r) (skip_ws-head r),
  )

  pub at_end-conclude :
      (read : ℕ)
      → answer (at_end loose src_len read g)
        ≡ whole src_len (conclude (record { rest = []; group = g }))
  unfolding at_end conclude finish pad_loop
  at_end-conclude read = ground arith

  -- A character that is no white space, no value and no sign `=` is an error in both.
  pub conclude_stuck :
      (c : ℕ) (r : List ℕ)
      → flags base64 c ≡ 0
      → (c == b'=') ≡ false
      → whole src_len (conclude (record { rest = c ∷ r; group = g })) ≡ none
  unfolding conclude finish
  conclude_stuck c r f e = ground (arith, pad_loop_stuck c r f e)
