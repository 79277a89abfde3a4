-- ===== src/Engine/Uri/Bytes.antt =====
-- The escapes of UTF-8 bytes, as they are written and read.
use cno_cli.Base.{
  ℕ, suc, ◌+◌, ◌*◌, ◌/◌, ◌%◌, ◌^◌, ◌≡◌, ◌≤◌, ◌<◌, refl, ap, ◌∙◌, arith, true, false, Option, some,
}
use cno_cli.Base.{
  List, ◌∷◌, ◌++◌, append_assoc, length, ltb, leb, shl, shr, low_bits, bit_or, bit_and,
}
use cno_cli.Base.Bits.{bit_or-shl, bit_or_comm, bit_and-top}
use cno_cli.Engine.Result.{ok}
use cno_cli.Engine.Escape.{upper_digit, encode_uri_hex}
use cno_cli.Engine.Escape.RoundTrip.{get_hex_two}
use cno_cli.Engine.Uri.{Surrogates, utf8_escapes, lead, uri_hex_decode, continue_utf8}

-- `%` and the two digits of a byte.
abbrev pub escape_of : ℕ → List ℕ → List ℕ
escape_of b rest = b'%' ∷ upper_digit (low_bits (shr b 4) 4) ∷ upper_digit (low_bits b 4) ∷ rest

below : (a b : ℕ) → a < b → ltb a b ≡ true
below a b h = ground arith

not_below : (a b : ℕ) → b ≤ a → ltb a b ≡ false
not_below a b h = ground arith

-- A marker above the bits of a number.
marked : (k x hi : ℕ) → x < 2 ^ k → bit_or x (hi * 2 ^ k) ≡ hi * 2 ^ k + x
marked k x hi h = bit_or_comm x (hi * 2 ^ k) ∙ bit_or-shl k hi x h

encode-byte : (b : ℕ) (rest : List ℕ) → b < 256 → encode_uri_hex b ++ rest ≡ escape_of b rest
unfolding encode_uri_hex
encode-byte b rest h = ground arith

-- The byte that follows others, and the three kinds of a first byte.
follows :
    (x : ℕ) (rest : List ℕ)
    → encode_uri_hex (bit_or (low_bits x 6) 128) ++ rest ≡ escape_of (128 + x % 64) rest
follows x rest =
    ap (λ (b : ℕ). encode_uri_hex b ++ rest) (marked 6 (x % 64) 2 (omega arith))
    ∙ encode-byte (128 + x % 64) rest (omega arith)

begins :
    (k x hi : ℕ) (rest : List ℕ)
    → x < 2 ^ k
    → hi * 2 ^ k + x < 256
    → encode_uri_hex (bit_or x (hi * 2 ^ k)) ++ rest ≡ escape_of (hi * 2 ^ k + x) rest
begins k x hi rest h le =
    ap (λ (b : ℕ). encode_uri_hex b ++ rest) (marked k x hi h)
    ∙ encode-byte (hi * 2 ^ k + x) rest le

pub utf8_one : (c : ℕ) (rest : List ℕ) → c < 128 → utf8_escapes c ++ rest ≡ escape_of c rest
unfolding utf8_escapes
utf8_one c rest h = rw (below c 128 h) (encode-byte c rest (omega arith))

pub utf8_two :
    (c : ℕ) (rest : List ℕ)
    → 128 ≤ c
    → c < 2048
    → utf8_escapes c ++ rest ≡ escape_of (192 + c / 64) (escape_of (128 + c % 64) rest)
unfolding utf8_escapes
utf8_two c rest lo hi =
    rw (not_below c 128 (omega arith), below c 2048 (omega arith))
      (append_assoc _ _ rest
        ∙ ap (λ (t : List ℕ). encode_uri_hex (bit_or (shr c 6) 192) ++ t) (follows c rest)
        ∙ begins 6 (c / 64) 3 _ (omega arith) (omega arith))

pub utf8_three :
    (c : ℕ) (rest : List ℕ)
    → 2048 ≤ c
    → c < 65536
    → utf8_escapes c ++ rest
      ≡ escape_of (224 + c / 4096) (escape_of (128 + c / 64 % 64) (escape_of (128 + c % 64) rest))
unfolding utf8_escapes
utf8_three c rest lo hi =
    rw (not_below c 128 (omega arith), not_below c 2048 (omega arith), below c 65536 (omega arith))
      (append_assoc _ _ rest
        ∙ ap (λ (t : List ℕ). encode_uri_hex (bit_or (shr c 12) 224) ++ t)
            (append_assoc _ _ rest
              ∙ ap (λ (t : List ℕ). encode_uri_hex (bit_or (low_bits (shr c 6) 6) 128) ++ t)
                  (follows c rest)
              ∙ follows (c / 64) _)
        ∙ begins 5 (c / 4096) 7 _ (omega arith) (omega arith))

pub utf8_four :
    (c : ℕ) (rest : List ℕ)
    → 65536 ≤ c
    → c < 1114112
    → utf8_escapes c ++ rest
      ≡ escape_of (240 + c / 262144) (
          escape_of
            (128 + c / 4096 % 64)
            (escape_of (128 + c / 64 % 64) (escape_of (128 + c % 64) rest)))
unfolding utf8_escapes
utf8_four c rest lo hi =
    rw
      (
        not_below c 128 (omega arith),
        not_below c 2048 (omega arith),
        not_below c 65536 (omega arith),
      )
      (append_assoc _ _ rest
        ∙ ap (λ (t : List ℕ). encode_uri_hex (bit_or (shr c 18) 240) ++ t)
            (append_assoc _ _ rest
              ∙ ap (λ (t : List ℕ). encode_uri_hex (bit_or (low_bits (shr c 12) 6) 128) ++ t)
                  (append_assoc _ _ rest
                    ∙ ap (λ (t : List ℕ). encode_uri_hex (bit_or (low_bits (shr c 6) 6) 128) ++ t)
                        (follows c rest)
                    ∙ follows (c / 64) _)
              ∙ follows (c / 4096) _)
        ∙ begins 4 (c / 262144) 15 _ (omega arith) (omega arith))

pub lead_two : (x : ℕ) → x < 32 → lead (192 + x) ≡ (1, (128, x))
unfolding lead
lead_two x h = ground arith

pub lead_three : (x : ℕ) → x < 16 → lead (224 + x) ≡ (2, (2048, x))
unfolding lead
lead_three x h = ground arith

pub lead_four : (x : ℕ) → x < 8 → lead (240 + x) ≡ (3, (65536, x))
unfolding lead
lead_four x h = ground arith

is_follower : (y : ℕ) → y < 64 → bit_and (128 + y) 192 ≡ 128
is_follower y h =
    let quarter : (128 + y) / 64 ≡ 2 = omega arith in
    bit_and-top (128 + y) ∙ ap (λ (x : ℕ). 64 * bit_and x 3) quarter

two_units : (a b : ℕ) (rest : List ℕ) → leb 2 (length (a ∷ b ∷ rest)) ≡ true
two_units a b rest = ground arith

-- Reading, with a `from_hex` that knows the digits in upper case.
module _ (surrogates : Surrogates) (from_hex : ℕ → Option ℕ)
    (reads : (i : ℕ) → i < 16 → from_hex (upper_digit i) ≡ some i) where
  pub uri_hex_decode-escape :
      (b : ℕ) (rest : List ℕ)
      → b < 256
      → uri_hex_decode surrogates from_hex (escape_of b rest) ≡ ok b
  unfolding uri_hex_decode
  uri_hex_decode-escape b rest h =
      rw
        (
          two_units (upper_digit (low_bits (shr b 4) 4)) (upper_digit (low_bits b 4)) rest,
          get_hex_two from_hex reads 0 (low_bits (shr b 4) 4) (low_bits b 4) rest (omega arith)
              (omega arith),
        )
        (ap ok (omega arith))

  continue_end : (c : ℕ) (units : List ℕ) → continue_utf8 surrogates from_hex 0 c units ≡ ok c
  unfolding continue_utf8
  continue_end c units = refl

  continue_on :
      (n c y : ℕ) (rest : List ℕ)
      → y < 64
      → continue_utf8 surrogates from_hex (suc n) c (escape_of (128 + y) rest)
        ≡ continue_utf8 surrogates from_hex n (c * 64 + y) rest
  unfolding continue_utf8
  continue_on n c y rest h =
      rw (continue_utf8, uri_hex_decode-escape (128 + y) rest (omega arith), is_follower y h)
        (ap (λ (t : ℕ). continue_utf8 surrogates from_hex n t rest)
          (ap (bit_or (shl c 6)) (omega arith) ∙ bit_or-shl 6 c y h))

  pub continue_one :
      (c y : ℕ) (rest : List ℕ)
      → y < 64
      → continue_utf8 surrogates from_hex 1 c (escape_of (128 + y) rest) ≡ ok (c * 64 + y)
  continue_one c y rest h = continue_on 0 c y rest h ∙ continue_end _ rest

  pub continue_two :
      (c y z : ℕ) (rest : List ℕ)
      → y < 64
      → z < 64
      → continue_utf8 surrogates from_hex 2 c (escape_of (128 + y) (escape_of (128 + z) rest))
        ≡ ok ((c * 64 + y) * 64 + z)
  continue_two c y z rest hy hz = continue_on 1 c y _ hy ∙ continue_one (c * 64 + y) z rest hz

  pub continue_three :
      (c x y z : ℕ) (rest : List ℕ)
      → x < 64
      → y < 64
      → z < 64
      → continue_utf8 surrogates from_hex 3 c
          (escape_of (128 + x) (escape_of (128 + y) (escape_of (128 + z) rest)))
        ≡ ok (((c * 64 + x) * 64 + y) * 64 + z)
  continue_three c x y z rest hx hy hz =
      continue_on 2 c x _ hx ∙ continue_two (c * 64 + x) y z rest hy hz
