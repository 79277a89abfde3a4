-- ===== src/Engine/Base64/RoundTrip.antt =====
-- `b64_decode` reads back what `b64_encode` writes with the standard alphabet.
use cno_cli.Base.{ℕ, ◌+◌, ◌*◌, ◌/◌, ◌%◌, ◌<◌, ◌≡◌, refl, ap, ◌∙◌, arith}
use cno_cli.Base.{List, [], ◌∷◌, ◌++◌, All, append-nil, append_assoc, some, shr}
use cno_cli.Engine.Base64.{empty_group, decode_loop, conclude, b64_encode, b64_decode}
use cno_cli.Engine.Base64.{base64, IsByte, partial_bytes}
use cno_cli.Engine.Base64.Tables.{enc, flags, has, enc_inverse}
use cno_cli.Engine.Base64.Sextet.{three_bytes}
use cno_cli.Engine.Base64.Loop.{IsSextet, decode_two, decode_three, decode_four}

enc-IsSextet : (i : ℕ) → i < 64 → IsSextet (enc base64 i) i
enc-IsSextet i h = let e = enc_inverse base64 i h in (e.0, e.1)

conclude_pair :
    (acc : ℕ) (out : List ℕ)
    → conclude (decode_loop (b'=' ∷ b'=' ∷ []) (record { acc = acc; seen = 2; out = out }))
      ≡ some (out ++ (acc / 16 % 256 ∷ []))
unfolding conclude decode_loop partial_bytes flags has
conclude_pair acc out = refl

conclude_triple :
    (acc : ℕ) (out : List ℕ)
    → conclude (decode_loop (b'=' ∷ []) (record { acc = acc; seen = 3; out = out }))
      ≡ some (out ++ (acc / 1024 % 256 ∷ acc / 4 % 256 ∷ []))
unfolding conclude decode_loop partial_bytes flags has
conclude_triple acc out = refl

conclude_none : (out : List ℕ) → conclude (decode_loop [] (empty_group out)) ≡ some out
unfolding conclude decode_loop empty_group
conclude_none out = refl

module _ (x y z : ℕ) (hx : x < 256) (hy : y < 256) (hz : z < 256) where
  -- The four sextets of three bytes give the bytes back, and so do those of two and of one.
  pub sextets_three :
      let v = 65536 * x + 256 * y + z in
      three_bytes (((shr v 18 % 64 * 64 + shr v 12 % 64) * 64 + shr v 6 % 64) * 64 + v % 64)
      ≡ x ∷ y ∷ z ∷ []
  sextets_three = ground arith

  pub sextets_two :
      let v = 65536 * x + 256 * y in
      let acc = (shr v 18 % 64 * 64 + shr v 12 % 64) * 64 + shr v 6 % 64 in
      ◌≡◌ {A = List ℕ} (acc / 1024 % 256 ∷ acc / 4 % 256 ∷ []) (x ∷ y ∷ [])
  sextets_two = ground arith

  pub sextets_one :
      let v = 65536 * x in
      ◌≡◌ {A = List ℕ} ((shr v 18 % 64 * 64 + shr v 12 % 64) / 16 % 256 ∷ []) (x ∷ [])
  sextets_one = ground arith

module _ (out : List ℕ) where
  conclude_one :
      (a b : ℕ)
      → a < 64
      → b < 64
      → conclude (decode_loop (enc base64 a ∷ enc base64 b ∷ b'=' ∷ b'=' ∷ []) (empty_group out))
        ≡ some (out ++ ((a * 64 + b) / 16 % 256 ∷ []))
  conclude_one a b ha hb =
      ap conclude (decode_two _ a (enc-IsSextet a ha) out _ b (enc-IsSextet b hb) ha _)
      ∙ conclude_pair _ out

  conclude_two :
      (a b c : ℕ)
      → a < 64
      → b < 64
      → c < 64
      → let acc = (a * 64 + b) * 64 + c in
        conclude
          (decode_loop (enc base64 a ∷ enc base64 b ∷ enc base64 c ∷ b'=' ∷ []) (empty_group out))
        ≡ some (out ++ (acc / 1024 % 256 ∷ acc / 4 % 256 ∷ []))
  conclude_two a b c ha hb hc =
      ap conclude (
        decode_three _ a (enc-IsSextet a ha) out _ b (enc-IsSextet b hb) ha _ c (enc-IsSextet c hc)
          hb _)
      ∙ conclude_triple _ out

  decode_quad :
      (a b c d : ℕ) (rest : List ℕ)
      → a < 64
      → b < 64
      → c < 64
      → d < 64
      → decode_loop
          (enc base64 a ∷ enc base64 b ∷ enc base64 c ∷ enc base64 d ∷ rest)
          (empty_group out)
        ≡ decode_loop rest (empty_group (out ++ three_bytes (((a * 64 + b) * 64 + c) * 64 + d)))
  decode_quad a b c d rest ha hb hc hd =
      decode_four _ a (enc-IsSextet a ha) out _ b (enc-IsSextet b hb) ha _ c (enc-IsSextet c hc) hb
        _ d rest (enc-IsSextet d hd) hc

conclude-encode :
    (src out : List ℕ)
    → All IsByte src
    → conclude (decode_loop (b64_encode base64 src) (empty_group out)) ≡ some (out ++ src)
unfolding b64_encode
conclude-encode [] out h = rw append-nil (conclude_none out)
conclude-encode (x ∷ []) out (hx, _) =
    conclude_one out _ _ (omega arith) (omega arith)
    ∙ ap (λ (bs : List ℕ). some (out ++ bs)) (sextets_one x 0 0 hx (omega arith) (omega arith))
conclude-encode (x ∷ y ∷ []) out (hx, (hy, _)) =
    conclude_two out _ _ _ (omega arith) (omega arith) (omega arith)
    ∙ ap (λ (bs : List ℕ). some (out ++ bs)) (sextets_two x y 0 hx hy (omega arith))
conclude-encode (x ∷ y ∷ z ∷ rest) out (hx, (hy, (hz, hs))) =
    ap conclude (
      decode_quad out _ _ _ _ _ (omega arith) (omega arith) (omega arith) (omega arith)
      ∙ rw (sextets_three x y z hx hy hz) refl)
    ∙ conclude-encode rest (out ++ (x ∷ y ∷ z ∷ [])) hs
    ∙ ap some (append_assoc out (x ∷ y ∷ z ∷ []) rest)

-- For every list of bytes, `b64_decode` of what `b64_encode` writes with the standard alphabet
-- succeeds and returns the list.
pub b64_decode-b64_encode :
    (src : List ℕ) → All IsByte src → b64_decode (b64_encode base64 src) ≡ some src
unfolding b64_decode
b64_decode-b64_encode src h = conclude-encode src [] h
