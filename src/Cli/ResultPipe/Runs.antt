-- ===== src/Cli/ResultPipe/Runs.antt =====
-- What the reader makes of a stream of bytes, however it is cut into chunks.
use cno_cli.Base.{ℕ, suc, ◌+◌, ◌≤◌, ◌<◌, ◌≡◌, refl, sym, ap, ◌∙◌, arith}
use cno_cli.Base.{◌⊎◌}
use cno_cli.Base.{Option-cases, inl, inr}
use cno_cli.Base.{false, Option, none, some}
use cno_cli.Base.{List, [], ◌∷◌, ◌++◌, length, length-append, take, drop, append-nil, append_assoc}
use cno_cli.Cli.ResultPipe.{
  Json, max_result_bytes, find_newline, too_long, Reader, start, accept, receive, at_end,
}
use cno_cli.Cli.ResultPipe.Frame.{stream, stream-snoc, join_chunks-stream}
use cno_cli.Cli.ResultPipe.Lines.{
  line, after_line, find_newline-none, find_newline-some, line-append, line-none, line-some,
}
use cno_cli.Cli.ResultPipe.Protocol.{kind, protocol, protocol_long, protocol_open, protocol-line}
use cno_cli.Cli.ResultPipe.Events.{
  feed, verdict, on_read_eof, failed-verdict, accept-verdict, without_message, receive-none_long,
  receive-some_long,
}

module _ (json : Json) where
  open json use {Value, shape, parse}

  -- The reader before the end of the line.
  record Collects (seen : List ℕ) (r : Reader json) : Type 0 where
    running : r.finished ≡ false
    no_message : r.message ≡ none
    chunks_are : stream r.chunks ≡ seen
    size_is : r.size ≡ length seen
    small : length seen ≤ max_result_bytes
    no_line : after_line seen ≡ none

  -- A chunk with no newline.
  receive_part :
      (seen c : List ℕ) (r : Reader json)
      → Collects seen r
      → find_newline c ≡ none
      → length (seen ++ c) ≤ max_result_bytes
      → Collects (seen ++ c) (receive json none c r)
  unfolding receive
  receive_part seen c r h e small = ground (
    arith,
    h,
    length-append seen c,
    stream-snoc r.chunks c,
    find_newline-none c e,
    line-append seen c h.no_line,
  )

  -- The reader with the last part of the line.
  abbrev with_part : ℕ → List ℕ → Reader json → Reader json
  with_part i c r = record r {
    chunks = r.chunks ++ (take i c ∷ []);
    size = r.size + length (take i c);
  }

  receive_line :
      (seen c : List ℕ) (i : ℕ) (r : Reader json)
      → Collects seen r
      → r.size + length (take i c) ≤ max_result_bytes
      → receive json (some i) c r ≡ accept json (some (seen ++ take i c)) i c (with_part i c r)
  receive_line seen c i r h small =
      unfold receive in
      ground arith
      ∙ ap (λ (f : Option (List ℕ)). accept json f i c (with_part i c r))
          (join_chunks-stream (r.chunks ++ (take i c ∷ [])) (r.size + length (take i c)) (
              rw (stream-snoc r.chunks (take i c))
                (ground (arith, h, length-append seen (take i c))))
            ∙ ap some (
                rw (stream-snoc r.chunks (take i c))
                  (ap (λ (bs : List ℕ). bs ++ take i c) (h.chunks_are))))

  long_or_not : (n : ℕ) → (max_result_bytes < n) ⊎ (n ≤ max_result_bytes)
  long_or_not n = grind arith

  collect-verdict :
      (cs : List (List ℕ)) (seen : List ℕ) (r : Reader json)
      → Collects seen r
      → verdict json cs r ≡ protocol json (seen ++ stream cs)
  unfolding feed
  collect-verdict [] seen r h =
      let (l, a) = line-append seen [] h.no_line in
      ap (kind json) (on_read_eof json r h.running)
      ∙ rw (h.no_message) (unfold at_end in refl)
      ∙ sym (protocol_open json (seen ++ []) (rw (l, append-nil seen) (h.small)) a)
  collect-verdict (c ∷ cs) seen r h = elim (Option-cases (find_newline c)) [
    | inl clear ↦ elim (long_or_not (r.size + length c)) [
      | inl long ↦
          ap (verdict json cs) (
            without_message json c r h.running h.no_message
            ∙ rw clear (receive-none_long json c r long))
          ∙ failed-verdict json cs r too_long h.running
          ∙ sym (
              protocol_long json (seen ++ (c ++ stream cs)) (
                rw (line-none seen c (stream cs) h.no_line clear) (
                  omega (
                    arith,
                    length-append seen (c ++ line (stream cs)),
                    length-append c (line (stream cs)),
                  ))))
      | inr small ↦
          ap (verdict json cs) (without_message json c r h.running h.no_message ∙ rw clear refl)
          ∙ collect-verdict cs (seen ++ c) (receive json none c r)
              (receive_part seen c r h clear (omega (arith, length-append seen c)))
          ∙ ap (protocol json) (append_assoc seen c (stream cs))
    ]
    | inr (i, found) ↦
        let (l, a) = line-some seen c (stream cs) h.no_line i found in
        elim (long_or_not (r.size + length (take i c))) [
          | inl long ↦
              ap (verdict json cs) (
                without_message json c r h.running h.no_message
                ∙ rw found (receive-some_long json i c r long))
              ∙ failed-verdict json cs r too_long h.running
              ∙ sym (
                  protocol_long json (seen ++ (c ++ stream cs))
                    (rw l (omega (arith, length-append seen (take i c)))))
          | inr small ↦
              ap (verdict json cs) (
                without_message json c r h.running h.no_message
                ∙ rw found (receive_line seen c i r h small))
              ∙ accept-verdict json cs (seen ++ take i c) c i (with_part i c r)
                  ((find_newline-some c i found).2) h.running
              ∙ sym (
                  protocol-line json (seen ++ (c ++ stream cs)) (seen ++ take i c)
                    (drop (suc i) c ++ stream cs) l (omega (arith, length-append seen (take i c)))
                    a)
        ]
  ]

  Collects-start : Collects [] (start json)
  unfolding start
  Collects-start = record {
    running = refl;
    no_message = refl;
    chunks_are = refl;
    size_is = refl;
    small = grind arith;
    no_line = refl;
  }

  -- However the bytes on the pipe are cut into chunks, once the end of the pipe is seen a new
  -- reader has decided what the protocol says of the bytes all together.
  pub reader_protocol :
      (cs : List (List ℕ)) → verdict json cs (start json) ≡ protocol json (stream cs)
  reader_protocol cs = collect-verdict cs [] (start json) Collects-start
