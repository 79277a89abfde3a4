-- ===== src/Cli/ResultPipe/Protocol.antt =====
-- The protocol between `readTestChildResult` of src/commands/test-result-pipe.ts and a test child.
use cno_cli.Base.{ℕ, ◌≤◌, ◌<◌, ◌≡◌, refl, arith}
use cno_cli.Base.{false, Option, none, some, ◌==◌, ltb, if◌then◌else◌}
use cno_cli.Base.{List, length}
use cno_cli.Cli.ResultPipe.{Json, max_result_bytes, Outcome, result, closed, error, is_message}
use cno_cli.Cli.ResultPipe.Lines.{line, after_line}

module _ (json : Json) where
  open json use {Value, shape, parse}

  -- The kinds of outcome that a caller can tell apart.
  pub data Verdict : Type 0 where
    pending closed_early failed : Verdict
    message : Value → Verdict

  abbrev pub kind : Option (Outcome json) → Verdict
  kind none = pending
  kind (some closed) = closed_early
  kind (some (error e)) = failed
  kind (some (result v)) = message v

  abbrev pub judge : Option Value → List ℕ → Verdict
  judge none rest = failed
  judge (some v) rest =
      if is_message json v then (if length rest == 0 then message v else failed) else failed

  abbrev pub judge_line : Option (List ℕ) → List ℕ → Verdict
  judge_line none l = closed_early
  judge_line (some rest) l = judge (parse l) rest

  -- The protocol: one line of JSON, of at most 64 MiB, and nothing behind it.
  unfoldable pub protocol : List ℕ → Verdict
  protocol bs =
      if ltb max_result_bytes (length (line bs))
      then failed
      else judge_line (after_line bs) (line bs)

  module _ (bs : List ℕ) where
    pub protocol_long : max_result_bytes < length (line bs) → protocol bs ≡ failed
    unfolding protocol
    protocol_long h = ground arith

    pub protocol_open :
        length (line bs) ≤ max_result_bytes → after_line bs ≡ none → protocol bs ≡ closed_early
    unfolding protocol
    protocol_open h e = ground arith

    pub protocol-line :
        (l rest : List ℕ)
        → line bs ≡ l
        → length l ≤ max_result_bytes
        → after_line bs ≡ some rest
        → protocol bs ≡ judge (parse l) rest
    unfolding protocol
    protocol-line l rest el h e = rw (el, e, not_long l h) refl
      where
        not_long :
            (l : List ℕ) → length l ≤ max_result_bytes → ltb max_result_bytes (length l) ≡ false
        not_long l h = ground arith
