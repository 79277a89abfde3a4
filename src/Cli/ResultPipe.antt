-- ===== src/Cli/ResultPipe.antt =====
-- src/commands/test-result-pipe.ts: the reader of the one frame that a test child writes to its
-- pipe. `JSON.parse` after `engine.decodeString`, `JSON.stringify` and the pipe are not of this
-- repository: the first two are a parameter, and the pipe calls the handlers below.
pub mod Frame
pub mod Lines
pub mod Protocol
pub mod Events
pub mod Runs
pub mod RoundTrip
use cno_cli.Base.{ℕ, zero, suc, ◌+◌, ◌*◌, ◌-◌, Bool, true, false, Option, none, some, not}
use cno_cli.Base.{List, [], ◌∷◌, ◌++◌, length, take, drop, ltb, leb, ◌==◌, if◌then◌else◌}

-- What `typeof`, `null` and `Array.isArray` tell of a value.
pub data Shape : Type 0 where
  null array object primitive : Shape

-- `parse` is `none` where decoding or parsing throws, `stringify` where `JSON.stringify` gives
-- `undefined`.
pub record Json : Type 1 where
  pub Value : Type 0
  pub shape : Value → Shape
  pub parse : List ℕ → Option Value
  pub stringify : Value → Option (List ℕ)

abbrev pub newline : ℕ
newline = 0x0a

abbrev pub max_result_bytes : ℕ
max_result_bytes = 64 * 1024 * 1024

pub data Failure : Type 0 where
  read_failed second_frame too_long : Failure
  not_json not_object trailing_bytes bad_length : Failure

unfoldable pub find_newline : List ℕ → Option ℕ
find_newline [] = none
find_newline (b ∷ bs) =
    let later = find_newline bs in
    if b == newline then some 0 else elim later [ none ↦ none | some i ↦ some (suc i) ]

unfoldable pub zeros : ℕ → List ℕ
zeros zero = []
zeros (suc n) = 0 ∷ zeros n

-- `frame.set(chunk, offset)`, which throws a `RangeError` past the end.
unfoldable pub set_at : List ℕ → ℕ → List ℕ → Option (List ℕ)
set_at frame offset chunk =
    if leb (offset + length chunk) (length frame)
    then some (take offset frame ++ (chunk ++ drop (offset + length chunk) frame))
    else none

unfoldable pub join_loop : List (List ℕ) → ℕ → List ℕ → Option (List ℕ)
unfolding set_at
join_loop [] offset frame = some frame
join_loop (c ∷ cs) offset frame = elim (set_at frame offset c) [
  | none ↦ none
  | some frame' ↦ join_loop cs (offset + length c) frame'
]

unfoldable pub join_chunks : List (List ℕ) → ℕ → Option (List ℕ)
unfolding join_loop zeros
join_chunks chunks len = join_loop chunks 0 (zeros len)

module _ (json : Json) where
  open json use {Value, shape, parse, stringify}

  pub data Outcome : Type 0 where
    result : Value → Outcome
    closed : Outcome
    error : Failure → Outcome

  -- The variables of the closure; `outcome` is what the promise is resolved with.
  pub record Reader : Type 0 where
    pub finished : Bool
    pub outcome : Option Outcome
    pub chunks : List (List ℕ)
    pub size : ℕ
    pub message : Option Value
    pub pipe_open : Bool

  unfoldable pub start : Reader
  start = record {
    finished = false;
    outcome = none;
    chunks = [];
    size = 0;
    message = none;
    pipe_open = true;
  }

  unfoldable pub finish : Outcome → Reader → Reader
  finish value r = if r.finished then r else record r { finished = true; outcome = some value }

  unfoldable pub is_message : Value → Bool
  is_message v = elim (shape v) [ object ↦ true | _ ↦ false ]

  -- The `try` block on what `parse` makes of a frame whose end is the byte at `delimiter` of the
  -- last chunk.
  unfoldable pub accept_value : Option Value → ℕ → List ℕ → Reader → Reader
  unfolding finish is_message
  accept_value none delimiter chunk r = finish (error not_json) r
  accept_value (some value) delimiter chunk r =
      if not (is_message value)
      then finish (error not_object) r
      else if not (delimiter + 1 == length chunk)
      then finish (error trailing_bytes) r
      else record r { message = some value }

  unfoldable pub accept : Option (List ℕ) → ℕ → List ℕ → Reader → Reader
  unfolding accept_value finish
  accept none delimiter chunk r = finish (error bad_length) r
  accept (some frame) delimiter chunk r = accept_value (parse frame) delimiter chunk r

  -- A part of the frame: the bytes of the chunk before the delimiter, if there is one.
  unfoldable pub receive : Option ℕ → List ℕ → Reader → Reader
  unfolding finish accept join_chunks
  receive delimiter chunk r =
      let part : List ℕ = elim delimiter [ none ↦ chunk | some i ↦ take i chunk ] in
      let r' = record r { chunks = r.chunks ++ (part ∷ []); size = r.size + length part } in
      if ltb max_result_bytes (r.size + length part)
      then finish (error too_long) r
      else elim delimiter [ none ↦ r' | some i ↦ accept (join_chunks r'.chunks r'.size) i chunk r' ]

  unfoldable pub at_end : Option Value → Outcome
  at_end none = closed
  at_end (some v) = result v

  -- `readTestChildResult`, whose `startRead` may throw.
  unfoldable pub read_test_child_result : Bool → Reader
  unfolding start finish
  read_test_child_result throws = if throws then finish (error read_failed) start else start

  -- What the pipe hands to `onread`.
  pub data Read : Type 0 where
    failure : Read
    eof : Read
    bytes : List ℕ → Read

  unfoldable pub on_bytes : List ℕ → Option Value → Reader → Reader
  unfolding finish receive find_newline
  on_bytes chunk (some v) r = if ltb 0 (length chunk) then finish (error second_frame) r else r
  on_bytes chunk none r = receive (find_newline chunk) chunk r

  unfoldable pub on_read : Read → Reader → Reader
  unfolding finish at_end on_bytes
  on_read failure r = if r.finished then r else finish (error read_failed) r
  on_read eof r = if r.finished then r else finish (at_end r.message) r
  on_read (bytes chunk) r = if r.finished then r else on_bytes chunk r.message r

  unfoldable pub close : Reader → Reader
  unfolding finish
  close r = record (finish closed r) { pipe_open = false }

  -- `writeTestChildResult`: the bytes that are written, or none where it throws before.
  unfoldable pub write_test_child_result : Value → Option (List ℕ)
  write_test_child_result v = elim (stringify v) [
    | none ↦ none
    | some text ↦ some (text ++ (newline ∷ []))
  ]
