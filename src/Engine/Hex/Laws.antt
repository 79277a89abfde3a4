-- ===== src/Engine/Hex/Laws.antt =====
-- Round trips and bounds of the hexadecimal routines.
use cno_cli.Base.{ℕ, ◌+◌, ◌*◌, ◌/◌, ◌%◌, ◌≤◌, ◌<◌, ◌≡◌, refl, sym, ◌∙◌, arith}
use cno_cli.Base.{◌&&◌, none, some, Option-cases, inl, inr, map, Bool-cases, ◌==◌}
use cno_cli.Base.{List, [], ◌∷◌, ◌++◌, length, length-append, All, append_assoc, append-nil}
use cno_cli.Base.{leb, ltb, if◌then◌else◌}
use cno_cli.Base.Bits.{bit_or-shl}
use cno_cli.Engine.Base64.{IsByte}
use cno_cli.Engine.Base64.From.{Outcome, done, failed}
use cno_cli.Engine.Base64.Bounds.{IsWithin}
use cno_cli.Engine.Hex.{hex_digit, hex_nibble, hex_encode, hex_byte, hex_loop, hex_decode}

nibble-digit : (i : ℕ) → i < 16 → hex_nibble (hex_digit i) ≡ some i
unfolding hex_nibble hex_digit
nibble-digit i h = ground arith

hex_byte-some :
    (hi lo h l : ℕ)
    → hex_nibble hi ≡ some h
    → hex_nibble lo ≡ some l
    → h < 16
    → l < 16
    → hex_byte hi lo ≡ some (h * 16 + l)
unfolding hex_byte
hex_byte-some hi lo h l eh el bh bl = ground (arith, bit_or-shl 4 h l)

byte-digits : (x : ℕ) → x < 256 → hex_byte (hex_digit (x / 16)) (hex_digit (x % 16)) ≡ some x
byte-digits x h =
    hex_byte-some _ _ (x / 16) (x % 16) (nibble-digit _ (omega arith))
      (nibble-digit _ (omega arith)) (omega arith) (omega arith)
    ∙ ground arith

length-hex_encode : (src : List ℕ) → length (hex_encode src) ≡ 2 * length src
unfolding hex_encode
length-hex_encode [] = refl
length-hex_encode (x ∷ xs) = omega (arith, length-hex_encode xs)

module _ (max_len hi lo : ℕ) (rest : List ℕ) (i : ℕ) (out : List ℕ) where
  loop_some :
      (b : ℕ)
      → hex_byte hi lo ≡ some b
      → length out < max_len
      → hex_loop max_len (hi ∷ lo ∷ rest) i out ≡ hex_loop max_len rest (i + 2) (out ++ (b ∷ []))
  unfolding hex_loop
  loop_some b e lt = ground arith

  loop_none :
      hex_byte hi lo ≡ none
      → length out < max_len
      → hex_loop max_len (hi ∷ lo ∷ rest) i out ≡ failed out
  unfolding hex_loop
  loop_none e lt = ground arith

  loop_full : max_len ≤ length out → hex_loop max_len (hi ∷ lo ∷ rest) i out ≡ done i out
  unfolding hex_loop
  loop_full le = ground arith

hex_loop-encode :
    (max_len : ℕ) (src : List ℕ) (i : ℕ) (out : List ℕ)
    → All IsByte src
    → length out + length src ≤ max_len
    → hex_loop max_len (hex_encode src) i out ≡ done (i + 2 * length src) (out ++ src)
unfolding hex_encode
hex_loop-encode max_len [] i out h room = rw append-nil (unfold hex_loop in ground arith)
hex_loop-encode max_len (x ∷ xs) i out (hx, hs) room =
    loop_some max_len _ _ (hex_encode xs) i out x (byte-digits x hx) (omega arith)
    ∙ hex_loop-encode max_len xs (i + 2) (out ++ (x ∷ [])) hs
        (omega (arith, length-append out (x ∷ [])))
    ∙ ground (arith, append_assoc out (x ∷ []) xs)

-- Every list of bytes is read back from its hexadecimal text, all of which is taken, if the buffer
-- has room for it.
pub hex_decode-hex_encode :
    (max_len : ℕ) (src : List ℕ)
    → All IsByte src
    → length src ≤ max_len
    → hex_decode max_len (hex_encode src) ≡ done (2 * length src) src
unfolding hex_decode
hex_decode-hex_encode max_len src h room =
    ground (arith, length-hex_encode src, hex_loop-encode max_len src 0 [] h (omega arith))

-- The lower-case form of a hexadecimal digit, by which `hex_encode` writes.
abbrev pub lower : ℕ → ℕ
lower ch = if leb b'A' ch && leb ch b'F' then ch + 32 else ch

lower_digit : (ch h : ℕ) → hex_nibble ch ≡ some h → (hex_digit h ≡ lower ch) × (h < 16)
unfolding hex_digit hex_nibble
lower_digit ch h e = ground arith

hex_byte_parts :
    (hi lo b : ℕ)
    → hex_byte hi lo ≡ some b
    → (hex_digit (b / 16) ≡ lower hi) × (hex_digit (b % 16) ≡ lower lo) × (b < 256)
hex_byte_parts hi lo b e = elim (Option-cases (hex_nibble hi)) [
  | inl none_hi ↦ unfold hex_byte in ground arith
  | inr (h, eh) ↦ elim (Option-cases (hex_nibble lo)) [
    | inl none_lo ↦ unfold hex_byte in ground arith
    | inr (l, el) ↦
        let dh = lower_digit hi h eh in
        let dl = lower_digit lo l el in
        ground (arith, dh, dl, hex_byte-some hi lo h l eh el dh.1 dl.1)
  ]
]

encode_cons :
    (hi lo b : ℕ) (bs rest : List ℕ)
    → hex_digit (b / 16) ≡ lower hi
    → hex_digit (b % 16) ≡ lower lo
    → hex_encode bs ≡ map lower rest
    → hex_encode (b ∷ bs) ≡ map lower (hi ∷ lo ∷ rest)
unfolding hex_encode
encode_cons hi lo b bs rest eh el e = rw (eh, el, e) refl

-- What a loop that succeeds with room for all has read: the lower-case text of its bytes.
record IsText (src : List ℕ) (i : ℕ) (out : List ℕ) (o : Outcome) : Type 0 where
  bs : List ℕ
  result : o ≡ done (i + length src) (out ++ bs)
  text : hex_encode bs ≡ map lower src

hex_loop-IsText :
    (max_len : ℕ) (src : List ℕ) (i : ℕ) (out : List ℕ) {r : ℕ} {o : List ℕ}
    → length src % 2 ≡ 0
    → 2 * length out + length src ≤ 2 * max_len
    → hex_loop max_len src i out ≡ done r o
    → IsText src i out (hex_loop max_len src i out)
hex_loop-IsText max_len [] i out even room e = record {
  bs = [];
  result = rw append-nil (unfold hex_loop in ground arith);
  text = unfold hex_encode in refl;
}
hex_loop-IsText max_len (hi ∷ []) i out even room e = absurd (omega arith)
hex_loop-IsText max_len (hi ∷ lo ∷ rest) i out even room e = elim (Option-cases (hex_byte hi lo)) [
  | inl bad ↦ absurd (cc (loop_none max_len hi lo rest i out bad (omega arith)))
  | inr (b, good) ↦
      let step = loop_some max_len hi lo rest i out b good (omega arith) in
      let parts = hex_byte_parts hi lo b good in
      let ih =
        hex_loop-IsText max_len rest (i + 2) (out ++ (b ∷ [])) (omega arith)
          (omega (arith, length-append out (b ∷ []))) (sym step ∙ e) in
      record {
        bs = b ∷ ih.bs;
        result = step ∙ ih.result ∙ ground (arith, append_assoc out (b ∷ []) ih.bs);
        text = encode_cons hi lo b ih.bs rest parts.0 parts.1 ih.text;
      }
]

hex_loop-IsWithin :
    (max_len src_len : ℕ) (src : List ℕ) (i : ℕ) (out : List ℕ)
    → length out ≤ max_len
    → i + length src ≤ src_len
    → IsWithin max_len src_len (hex_loop max_len src i out)
hex_loop-IsWithin max_len src_len [] i out h hi = unfold hex_loop in (omega arith, h)
hex_loop-IsWithin max_len src_len (a ∷ []) i out h hi = unfold hex_loop in (omega arith, h)
hex_loop-IsWithin max_len src_len (a ∷ b ∷ rest) i out h hi =
    elim (Bool-cases (ltb (length out) max_len)) [
      | inl lt ↦ elim (Option-cases (hex_byte a b)) [
        | inl bad ↦ rw (loop_none max_len a b rest i out bad (ground arith)) (omega arith)
        | inr (x, good) ↦ rw (loop_some max_len a b rest i out x good (ground arith)) (
            hex_loop-IsWithin max_len src_len rest (i + 2) (out ++ (x ∷ []))
              (ground (arith, length-append out (x ∷ []))) (omega arith))
      ]
      | inr full ↦ rw (loop_full max_len a b rest i out (ground arith)) (omega arith)
    ]

-- Whatever the text, and also where it fails: `u8a_hex_decode` writes at most `max_len` bytes and
-- reports at most the length of the text as read.
pub hex_decode-IsWithin :
    (max_len : ℕ) (src : List ℕ) → IsWithin max_len (length src) (hex_decode max_len src)
unfolding hex_decode
hex_decode-IsWithin max_len src =
    ground (arith, hex_loop-IsWithin max_len (length src) src 0 [] (omega arith) (omega arith))

-- Where `u8a_hex_decode` succeeds with room for every pair of digits, it has taken all of the text,
-- and the text in lower case is what `u8a_hex_encode` writes for the bytes.
pub hex_encode-hex_decode :
    (max_len : ℕ) (src : List ℕ) {r : ℕ} {o : List ℕ}
    → length src ≤ 2 * max_len
    → hex_decode max_len src ≡ done r o
    → (r ≡ length src) × (hex_encode o ≡ map lower src)
unfolding hex_decode
hex_encode-hex_decode max_len src {r} {o} room e = elim (Bool-cases (length src % 2 == 1)) [
  | inl odd ↦ absurd (cc (rw odd at e))
  | inr even ↦
      let loop = hex_loop-IsText max_len src 0 [] (ground arith) (omega arith) (rw even at e) in
      let same = loop.result in
      let e' = rw even at e in let text = loop.text in ground (arith, same, e', text)
]
