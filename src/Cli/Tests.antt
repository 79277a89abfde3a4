-- ===== src/Cli/Tests.antt =====
-- Runs of the reader of src/commands/test-result-pipe.ts, with a `JSON` whose values are their texts.
use cno_cli.Base.{ℕ, ◌≡◌, refl, arith, true, some, none, List, [], ◌∷◌, ◌==◌, if◌then◌else◌}
use cno_cli.Cli.ResultPipe.{
  Json, Shape, object, primitive, Reader, bytes, start, closed, on_read, find_newline, is_message,
  write_test_child_result,
}
use cno_cli.Cli.ResultPipe.Protocol.{message, failed, closed_early, protocol}
use cno_cli.Cli.ResultPipe.Events.{verdict, on_read_finished}
use cno_cli.Cli.ResultPipe.Runs.{reader_protocol}
use cno_cli.Cli.ResultPipe.RoundTrip.{IsSendable, read-write}

abbrev shape_of : List ℕ → Shape
shape_of [] = primitive
shape_of (c ∷ cs) = if c == 123 then object else primitive

abbrev texts : Json
texts = record { Value = List ℕ; shape = shape_of; parse = λ bs. some bs; stringify = λ v. some v }

-- "{", "}" and the newline in two chunks.
abbrev two_chunks : List (List ℕ)
two_chunks = (123 ∷ []) ∷ (125 ∷ 10 ∷ []) ∷ []

reader_protocol_example : verdict texts two_chunks (start texts) ≡ message (123 ∷ 125 ∷ [])
unfolding protocol is_message
reader_protocol_example = reader_protocol texts two_chunks

reader_trailing : verdict texts ((123 ∷ 10 ∷ 10 ∷ []) ∷ []) (start texts) ≡ failed
unfolding protocol is_message
reader_trailing = reader_protocol texts ((123 ∷ 10 ∷ 10 ∷ []) ∷ [])

reader_no_line : verdict texts ((123 ∷ []) ∷ []) (start texts) ≡ closed_early
unfolding protocol
reader_no_line = reader_protocol texts ((123 ∷ []) ∷ [])

two_chunks-IsSendable : IsSendable texts (123 ∷ 125 ∷ []) (123 ∷ 125 ∷ [])
unfolding find_newline is_message
two_chunks-IsSendable = record {
  prints = refl;
  parses = refl;
  one_line = refl;
  object = refl;
  fits = omega arith;
}

read-write_example : verdict texts two_chunks (start texts) ≡ message (123 ∷ 125 ∷ [])
unfolding write_test_child_result
read-write_example =
    read-write texts (123 ∷ 125 ∷ []) (123 ∷ 125 ∷ []) two_chunks two_chunks-IsSendable refl

abbrev gone : Reader texts
gone = record {
  finished = true;
  outcome = some closed;
  chunks = [];
  size = 0;
  message = none;
  pipe_open = true;
}

on_read_finished_example : on_read texts (bytes (123 ∷ 10 ∷ [])) gone ≡ gone
on_read_finished_example = on_read_finished texts (bytes (123 ∷ 10 ∷ [])) gone refl
