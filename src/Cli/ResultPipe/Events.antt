-- ===== src/Cli/ResultPipe/Events.antt =====
-- The reader of src/commands/test-result-pipe.ts, one event at a time.
use cno_cli.Base.{ℕ, suc, ◌+◌, ◌<◌, ◌≡◌, refl, ap, ◌∙◌, arith}
use cno_cli.Base.{Bool-cases, inl, inr}
use cno_cli.Base.{true, false, Option, none, some, ◌==◌, ltb, if◌then◌else◌}
use cno_cli.Base.{List, [], ◌∷◌, ◌++◌, length, length-append, length-drop, take, drop}
use cno_cli.Cli.ResultPipe.{
  Json, max_result_bytes, find_newline, Failure, second_frame, too_long, not_json, not_object,
  trailing_bytes, Outcome, error, Reader, finish, is_message, accept_value, accept, receive, at_end,
  Read, failure, eof, bytes, on_bytes, on_read,
}
use cno_cli.Cli.ResultPipe.Frame.{stream}
use cno_cli.Cli.ResultPipe.Protocol.{Verdict, kind, judge, failed, message}

module _ (json : Json) where
  open json use {Value, shape, parse}

  unfoldable pub feed : List (List ℕ) → Reader json → Reader json
  feed [] r = r
  feed (c ∷ cs) r = feed cs (on_read json (bytes c) r)

  abbrev pub verdict : List (List ℕ) → Reader json → Verdict json
  verdict cs r = kind json (on_read json eof (feed cs r)).outcome

  -- One event at a time.
  pub on_read_finished :
      (e : Read json) (r : Reader json) → r.finished ≡ true → on_read json e r ≡ r
  unfolding on_read
  on_read_finished failure r h = ground arith
  on_read_finished eof r h = ground arith
  on_read_finished (bytes c) r h = ground arith

  pub on_read-bytes :
      (c : List ℕ) (r : Reader json)
      → r.finished ≡ false
      → on_read json (bytes c) r ≡ on_bytes json c r.message r
  unfolding on_read
  on_read-bytes c r h = ground arith

  pub on_read_eof :
      (r : Reader json)
      → r.finished ≡ false
      → (on_read json eof r).outcome ≡ some (at_end json r.message)
  unfolding on_read
  on_read_eof r h = ground arith

  pub on_bytes_message :
      (c : List ℕ) (v : Value) (r : Reader json)
      → on_bytes json c (some v) r
        ≡ (if ltb 0 (length c) then finish json (error second_frame) r else r)
  unfolding on_bytes
  on_bytes_message c v r = refl

  with_message :
      (c : List ℕ) (v : Value) (r : Reader json)
      → r.finished ≡ false
      → r.message ≡ some v
      → on_read json (bytes c) r
        ≡ (if ltb 0 (length c) then finish json (error second_frame) r else r)
  with_message c v r e m =
      on_read-bytes c r e
      ∙ ap (λ (o : Option Value). on_bytes json c o r) m
      ∙ on_bytes_message c v r

  finish-outcome :
      (o : Outcome json) (r : Reader json)
      → r.finished ≡ false
      → ((finish json o r).outcome ≡ some o) × ((finish json o r).finished ≡ true)
  unfolding finish
  finish-outcome o r h = ground arith

  -- Nothing changes a reader that has finished.
  finished-verdict :
      (cs : List (List ℕ)) (r : Reader json)
      → r.finished ≡ true
      → verdict cs r ≡ kind json r.outcome
  unfolding feed
  finished-verdict [] r e = ap (λ (s : Reader json). kind json s.outcome) (on_read_finished eof r e)
  finished-verdict (c ∷ cs) r e =
      ap (verdict cs) (on_read_finished (bytes c) r e) ∙ finished-verdict cs r e

  -- A reader that fails on a chunk.
  pub failed-verdict :
      (cs : List (List ℕ)) (r : Reader json) (e : Failure)
      → r.finished ≡ false
      → verdict cs (finish json (error e) r) ≡ failed
  failed-verdict cs r e h =
      let (o, f) = finish-outcome (error e) r h in
      finished-verdict cs (finish json (error e) r) f ∙ ap (kind json) o

  -- After the message nothing may follow but empty chunks.
  message-verdict :
      (cs : List (List ℕ)) (r : Reader json) (v : Value)
      → r.finished ≡ false
      → r.message ≡ some v
      → verdict cs r ≡ (if length (stream cs) == 0 then message v else failed)
  unfolding feed
  message-verdict [] r v e m = ap (kind json) (on_read_eof r e) ∙ rw m (unfold at_end in refl)
  message-verdict ([] ∷ cs) r v e m =
      ap (verdict cs) (with_message [] v r e m) ∙ message-verdict cs r v e m
  message-verdict ((b ∷ bs) ∷ cs) r v e m =
      ap (verdict cs) (with_message (b ∷ bs) v r e m ∙ ground arith)
      ∙ failed-verdict cs r second_frame e
      ∙ ground arith

  module _ (v : Value) (c : List ℕ) (i : ℕ) (r : Reader json) where
    accept_other :
        is_message json v ≡ false
        → accept_value json (some v) i c r ≡ finish json (error not_object) r
    unfolding accept_value
    accept_other h = rw h refl

    accept_trailing :
        is_message json v ≡ true
        → (i + 1 == length c) ≡ false
        → accept_value json (some v) i c r ≡ finish json (error trailing_bytes) r
    unfolding accept_value
    accept_trailing h k = rw (h, k) refl

    accept_message :
        is_message json v ≡ true
        → (i + 1 == length c) ≡ true
        → accept_value json (some v) i c r ≡ record r { message = some v }
    unfolding accept_value
    accept_message h k = rw (h, k) refl

  pub value-verdict :
      (cs : List (List ℕ)) (o : Option Value) (c : List ℕ) (i : ℕ) (r : Reader json)
      → i < length c
      → r.finished ≡ false
      → verdict cs (accept_value json o i c r) ≡ judge json o (drop (suc i) c ++ stream cs)
  value-verdict cs none c i r lt e = unfold accept_value in failed-verdict cs r not_json e
  value-verdict cs (some v) c i r lt e = elim (Bool-cases (is_message json v)) [
    | inr other ↦
        ap (verdict cs) (accept_other v c i r other)
        ∙ failed-verdict cs r not_object e
        ∙ rw other refl
    | inl object ↦ elim (Bool-cases (i + 1 == length c)) [
      | inl last ↦
          ap (verdict cs) (accept_message v c i r object last)
          ∙ message-verdict cs (record r { message = some v }) v e refl
          ∙ rw object
              (ground (arith, length-drop (suc i) c, length-append (drop (suc i) c) (stream cs)))
      | inr more ↦
          ap (verdict cs) (accept_trailing v c i r object more)
          ∙ failed-verdict cs r trailing_bytes e
          ∙ rw object
              (ground (arith, length-drop (suc i) c, length-append (drop (suc i) c) (stream cs)))
    ]
  ]

  -- The line that a frame ends with is judged as the protocol says.
  pub accept-verdict :
      (cs : List (List ℕ)) (l c : List ℕ) (i : ℕ) (r : Reader json)
      → i < length c
      → r.finished ≡ false
      → verdict cs (accept json (some l) i c r) ≡ judge json (parse l) (drop (suc i) c ++ stream cs)
  accept-verdict cs l c i r lt e = unfold accept in value-verdict cs (parse l) c i r lt e

  pub without_message :
      (c : List ℕ) (r : Reader json)
      → r.finished ≡ false
      → r.message ≡ none
      → on_read json (bytes c) r ≡ receive json (find_newline c) c r
  without_message c r e m =
      on_read-bytes c r e
      ∙ ap (λ (o : Option Value). on_bytes json c o r) m
      ∙ unfold on_bytes in refl

  pub receive-none_long :
      (c : List ℕ) (r : Reader json)
      → max_result_bytes < r.size + length c
      → receive json none c r ≡ finish json (error too_long) r
  unfolding receive
  receive-none_long c r long = ground arith

  pub receive-some_long :
      (i : ℕ) (c : List ℕ) (r : Reader json)
      → max_result_bytes < r.size + length (take i c)
      → receive json (some i) c r ≡ finish json (error too_long) r
  unfolding receive
  receive-some_long i c r long = ground arith
