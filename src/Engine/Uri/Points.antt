-- ===== src/Engine/Uri/Points.antt =====
-- What is written for a code point is read back as the code point.
use cno_cli.Base.{
  ℕ, suc, ◌+◌, ◌-◌, ◌*◌, ◌/◌, ◌%◌, ◌≡◌, ◌≤◌, ◌<◌, refl, ap, ◌∙◌, arith, Bool, true, false, not,
  ◌&&◌, Option, some,
}
use cno_cli.Base.{List, ◌∷◌, ◌++◌, drop, ltb, leb, Bool-cases, inl, inr}
use cno_cli.Engine.Result.{ok}
use cno_cli.Engine.Escape.{upper_digit}
use cno_cli.Engine.Uri.{
  Surrogates, is_uri_reserved, utf8_escapes, lead, continue_utf8, written, string_buffer_putc,
  check_point, decode_utf8, decode_escape, decode_unit, decode_loop,
}
use cno_cli.Engine.Uri.Bytes.{
  escape_of, utf8_one, utf8_two, utf8_three, utf8_four, lead_two, lead_three, lead_four,
  uri_hex_decode-escape, continue_one, continue_two, continue_three,
}

-- What the functions on surrogates are documented to do.
pub record IsUtf16 (surrogates : Surrogates) : Type 0 where
  pub hi : (c : ℕ) → surrogates.is_hi c ≡ (leb 0xd800 c && leb c 0xdbff)
  pub lo : (c : ℕ) → surrogates.is_lo c ≡ (leb 0xdc00 c && leb c 0xdfff)
  pub either : (c : ℕ) → surrogates.is_either c ≡ (leb 0xd800 c && leb c 0xdfff)
  pub pair :
      (x y : ℕ)
      → x < 1024
      → y < 1024
      → surrogates.from_pair (0xd800 + x) (0xdc00 + y) ≡ 0x10000 + 1024 * x + y
  pub unpair_hi :
      (c : ℕ) → 0x10000 ≤ c → c < 0x110000 → surrogates.get_hi c ≡ 0xd800 + (c - 0x10000) / 1024
  pub unpair_lo : (c : ℕ) → 0x10000 ≤ c → c < 0x110000 → surrogates.get_lo c ≡ 0xdc00 + c % 1024

module _ (surrogates : Surrogates) (utf16 : IsUtf16 surrogates) (from_hex : ℕ → Option ℕ)
    (reads : (i : ℕ) → i < 16 → from_hex (upper_digit i) ≡ some i) where
  pub loop_step :
      (is_component : Bool) (u point skip : ℕ) (rest : List ℕ)
      → decode_unit surrogates from_hex is_component u rest ≡ ok (point, skip)
      → decode_loop surrogates from_hex is_component 0 (u ∷ rest)
        ≡ written
            (string_buffer_putc surrogates point)
            (decode_loop surrogates from_hex is_component skip rest)
  unfolding decode_loop
  loop_step is_component u point skip rest e = rw (decode_loop, e) refl

  escape_step :
      (is_component : Bool) (b point skip : ℕ) (rest : List ℕ)
      → decode_escape surrogates from_hex is_component (escape_of b rest) ≡ ok (point, skip)
      → decode_loop surrogates from_hex is_component 0 (escape_of b rest)
        ≡ written
            (string_buffer_putc surrogates point)
            (decode_loop surrogates from_hex is_component skip (drop 1 (escape_of b rest)))
  escape_step is_component b point skip rest e =
      loop_step is_component b'%' point skip (drop 1 (escape_of b rest)) (unfold decode_unit in e)

  is_point :
      (c_min skip c : ℕ)
      → c_min ≤ c
      → c < 0x110000
      → surrogates.is_either c ≡ false
      → check_point surrogates from_hex c_min skip c ≡ ok (c, skip)
  unfolding check_point
  is_point c_min skip c lo hi e = rw e (ground arith)

  many_bytes :
      (is_component : Bool) (b n c_min bits c : ℕ) (rest : List ℕ)
      → 128 ≤ b
      → b < 256
      → lead b ≡ (n, (c_min, bits))
      → continue_utf8 surrogates from_hex n bits rest ≡ ok c
      → c_min ≤ c
      → c < 0x110000
      → surrogates.is_either c ≡ false
      → decode_escape surrogates from_hex is_component (escape_of b rest) ≡ ok (c, 2 + 3 * n)
  unfolding decode_escape decode_utf8
  many_bytes is_component b n c_min bits c rest lo hi l k least most e =
      let high : ltb b 128 ≡ false = ground arith in
      rw
        (
          decode_escape,
          uri_hex_decode-escape surrogates from_hex reads b rest hi,
          high,
          decode_utf8,
          l,
          k,
          l,
        )
        (is_point c_min (2 + 3 * n) c least most e)

  one_byte :
      (is_component : Bool) (c : ℕ) (rest : List ℕ)
      → c < 128
      → (not is_component && is_uri_reserved c) ≡ false
      → decode_escape surrogates from_hex is_component (escape_of c rest) ≡ ok (c, 2)
  unfolding decode_escape
  one_byte is_component c rest h plain =
      let low : ltb c 128 ≡ true = ground arith in
      rw
        (
          decode_escape,
          uri_hex_decode-escape surrogates from_hex reads c rest (omega arith),
          low,
          plain,
        )
        refl

  -- What is behind the escapes of one, two, three or four bytes.
  skip_one :
      (is_component : Bool) (b : ℕ) (rest : List ℕ)
      → decode_loop surrogates from_hex is_component 2 (drop 1 (escape_of b rest))
        ≡ decode_loop surrogates from_hex is_component 0 rest
  unfolding decode_loop
  skip_one is_component b rest = refl

  skip_more :
      (is_component : Bool) (n b d : ℕ) (rest : List ℕ)
      → decode_loop surrogates from_hex is_component
          (suc (suc (suc n)))
          (drop 1 (escape_of b (escape_of d rest)))
        ≡ decode_loop surrogates from_hex is_component n (drop 1 (escape_of d rest))
  unfolding decode_loop
  skip_more is_component n b d rest = refl

  -- The escapes of a code point, with what is written when they are read.
  abbrev IsRead : Bool → ℕ → List ℕ → List ℕ → Type 0
  IsRead is_component c units rest =
      decode_loop surrogates from_hex is_component 0 units
      ≡ written (string_buffer_putc surrogates c)
          (decode_loop surrogates from_hex is_component 0 rest)

  IsRead-two :
      (is_component : Bool) (c : ℕ) (rest : List ℕ)
      → 128 ≤ c
      → c < 2048
      → surrogates.is_either c ≡ false
      → IsRead is_component c (utf8_escapes c ++ rest) rest
  IsRead-two is_component c rest lo hi e = rw (utf8_two c rest lo hi) (
      escape_step is_component (192 + c / 64) c 5 _ (
        many_bytes is_component (192 + c / 64) 1 128 (c / 64) c _ (omega arith) (omega arith)
          (lead_two (c / 64) (omega arith))
          (continue_one surrogates from_hex reads (c / 64) (c % 64) rest (omega arith)
            ∙ ap ok (omega arith))
          lo (omega arith) e)
      ∙ ap (written (string_buffer_putc surrogates c)) (
          skip_more is_component 2 (192 + c / 64) (128 + c % 64) rest
          ∙ skip_one is_component (128 + c % 64) rest))

  IsRead-three :
      (is_component : Bool) (c : ℕ) (rest : List ℕ)
      → 2048 ≤ c
      → c < 65536
      → surrogates.is_either c ≡ false
      → IsRead is_component c (utf8_escapes c ++ rest) rest
  IsRead-three is_component c rest lo hi e = rw (utf8_three c rest lo hi) (
      escape_step is_component (224 + c / 4096) c 8 _ (
        many_bytes is_component (224 + c / 4096) 2 2048 (c / 4096) c _ (omega arith) (omega arith)
          (lead_three (c / 4096) (omega arith))
          (continue_two surrogates from_hex reads (c / 4096) (c / 64 % 64) (c % 64) rest
              (omega arith) (omega arith)
            ∙ ap ok (omega arith))
          lo (omega arith) e)
      ∙ ap (written (string_buffer_putc surrogates c)) (
          skip_more is_component 5 (224 + c / 4096) (128 + c / 64 % 64)
            (escape_of (128 + c % 64) rest)
          ∙ skip_more is_component 2 (128 + c / 64 % 64) (128 + c % 64) rest
          ∙ skip_one is_component (128 + c % 64) rest))

  IsRead-four :
      (is_component : Bool) (c : ℕ) (rest : List ℕ)
      → 65536 ≤ c
      → c < 1114112
      → surrogates.is_either c ≡ false
      → IsRead is_component c (utf8_escapes c ++ rest) rest
  IsRead-four is_component c rest lo hi e = rw (utf8_four c rest lo hi) (
      escape_step is_component (240 + c / 262144) c 11 _ (
        many_bytes is_component (240 + c / 262144) 3 65536 (c / 262144) c _ (omega arith)
          (omega arith) (lead_four (c / 262144) (omega arith))
          (continue_three surrogates from_hex reads (c / 262144) (c / 4096 % 64) (c / 64 % 64)
              (c % 64) rest (omega arith) (omega arith) (omega arith)
            ∙ ap ok (omega arith))
          lo hi e)
      ∙ ap (written (string_buffer_putc surrogates c)) (
          skip_more is_component 8 (240 + c / 262144) (128 + c / 4096 % 64)
            (escape_of (128 + c / 64 % 64) (escape_of (128 + c % 64) rest))
          ∙ skip_more is_component 5 (128 + c / 4096 % 64) (128 + c / 64 % 64)
              (escape_of (128 + c % 64) rest)
          ∙ skip_more is_component 2 (128 + c / 64 % 64) (128 + c % 64) rest
          ∙ skip_one is_component (128 + c % 64) rest))

  IsRead-one :
      (is_component : Bool) (c : ℕ) (rest : List ℕ)
      → c < 128
      → (not is_component && is_uri_reserved c) ≡ false
      → IsRead is_component c (utf8_escapes c ++ rest) rest
  IsRead-one is_component c rest h plain = rw (utf8_one c rest h) (
      escape_step is_component c c 2 rest (one_byte is_component c rest h plain)
      ∙ ap (written (string_buffer_putc surrogates c)) (skip_one is_component c rest))

  -- Every code point that is no surrogate, and for which no sign `%` is kept.
  pub IsRead-point :
      (is_component : Bool) (c : ℕ) (rest : List ℕ)
      → c < 1114112
      → surrogates.is_either c ≡ false
      → (c < 128 → (not is_component && is_uri_reserved c) ≡ false)
      → IsRead is_component c (utf8_escapes c ++ rest) rest
  IsRead-point is_component c rest h e plain = elim (Bool-cases (ltb c 128)) [
    | inl one ↦ let low : c < 128 = ground arith in IsRead-one is_component c rest low (plain low)
    | inr more ↦ elim (Bool-cases (ltb c 2048)) [
      | inl two ↦ IsRead-two is_component c rest (ground arith) (ground arith) e
      | inr wide ↦ elim (Bool-cases (ltb c 65536)) [
        | inl three ↦ IsRead-three is_component c rest (ground arith) (ground arith) e
        | inr four ↦ IsRead-four is_component c rest (ground arith) h e
      ]
    ]
  ]
