-- ===== src/Cli/ResultPipe/RoundTrip.antt =====
-- What a test child writes is what the reader gives, src/commands/test-result-pipe.ts.
use cno_cli.Base.{ℕ, ◌≤◌, ◌≡◌, refl, sym, ap, ◌∙◌, true, none, some}
use mathlib.Core.Option.{some-injective}
use cno_cli.Base.{List, [], ◌∷◌, ◌++◌, length, append-nil}
use cno_cli.Cli.ResultPipe.{
  Json, newline, max_result_bytes, find_newline, start, is_message, write_test_child_result,
}
use cno_cli.Cli.ResultPipe.Frame.{stream}
use cno_cli.Cli.ResultPipe.Lines.{find_newline-none, line-append}
use cno_cli.Cli.ResultPipe.Protocol.{message, protocol, protocol-line}
use cno_cli.Cli.ResultPipe.Events.{verdict}
use cno_cli.Cli.ResultPipe.Runs.{reader_protocol}

-- What `JSON` does with a message that the reader can take: an object, whose text is parsed back,
-- is on one line, and is not too long.
pub record IsSendable (json : Json) (v : json.Value) (text : List ℕ) : Type 0 where
  pub prints : json.stringify v ≡ some text
  pub parses : json.parse text ≡ some v
  pub one_line : find_newline text ≡ none
  pub object : is_message json v ≡ true
  pub fits : length text ≤ max_result_bytes

module _ (json : Json) where
  written :
      (v : json.Value) (text bs : List ℕ)
      → IsSendable json v text
      → write_test_child_result json v ≡ some bs
      → bs ≡ text ++ (newline ∷ [])
  unfolding write_test_child_result
  written v text bs h w = sym (some-injective _ _ (rw (write_test_child_result, h.prints) at w))

  protocol-written :
      (v : json.Value) (text : List ℕ)
      → IsSendable json v text
      → protocol json (text ++ (newline ∷ [])) ≡ message v
  protocol-written v text h =
      let (clear, all) = find_newline-none text h.one_line in
      let (l, a) = line-append text (newline ∷ []) clear in
      protocol-line json (text ++ (newline ∷ [])) text [] (l ∙ append-nil text) h.fits a
      ∙ rw (h.parses, h.object) refl

  -- A message that can be sent, written by the child and read in any chunks, is what the reader
  -- gives once the end of the pipe is seen.
  pub read-write :
      (v : json.Value) (text : List ℕ) (cs : List (List ℕ))
      → IsSendable json v text
      → write_test_child_result json v ≡ some (stream cs)
      → verdict json cs (start json) ≡ message v
  read-write v text cs h w =
      reader_protocol json cs
      ∙ ap (protocol json) (written v text (stream cs) h w)
      ∙ protocol-written v text h
