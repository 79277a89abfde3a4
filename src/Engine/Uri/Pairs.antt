-- ===== src/Engine/Uri/Pairs.antt =====
-- What `encodeURI` does with the first unit or pair, in every case.
use cno_cli.Base.{
  ℕ, ◌+◌, ◌-◌, ◌*◌, ◌/◌, ◌%◌, ◌≡◌, ◌⊎◌, ◌<◌, refl, ap, ◌∙◌, arith, Bool, true, false, Option, some,
}
use cno_cli.Base.{List, [], ◌∷◌, leb, Bool-cases, inl, inr}
use cno_cli.Engine.Result.{unpaired_low, unpaired_high}
use cno_cli.Engine.Escape.{upper_digit}
use cno_cli.Engine.Uri.{
  Surrogates, is_uri_unescaped, utf8_escapes, written, string_buffer_putc, encode_pair, encode_unit,
  encode_loop, decode_loop,
}
use cno_cli.Engine.Uri.Points.{IsUtf16, IsRead-point}
use cno_cli.Engine.Uri.Pairing.{
  is_high, is_low, paired, Encoded, Refused, encode_step, refuse_step, plain_unit, lone_unit,
}

-- A high surrogate is no low one.
paired_high :
    (c : ℕ) (rest : List ℕ) → is_high c ≡ true → paired false (c ∷ rest) ≡ paired true rest
paired_high c rest h = let l : is_low c ≡ false = ground arith in rw (l, h) refl

paired_low :
    (c1 : ℕ) (rest : List ℕ) → is_low c1 ≡ true → paired true (c1 ∷ rest) ≡ paired false rest
paired_low c1 rest h = rw h refl

not_paired : (c1 : ℕ) (rest : List ℕ) → is_low c1 ≡ false → paired true (c1 ∷ rest) ≡ false
not_paired c1 rest h = rw h refl

starts_low : (c : ℕ) (rest : List ℕ) → is_low c ≡ true → paired false (c ∷ rest) ≡ false
starts_low c rest h = rw h refl

module _ (surrogates : Surrogates) (utf16 : IsUtf16 surrogates) (from_hex : ℕ → Option ℕ)
    (reads : (i : ℕ) → i < 16 → from_hex (upper_digit i) ≡ some i) (is_component : Bool) where
  abbrev Outcome : List ℕ → Type 0
  Outcome units =
      Encoded surrogates utf16 from_hex reads is_component units
      ⊎ Refused surrogates utf16 from_hex reads is_component units

  -- The code point of a pair, which is written as the pair.
  pair_point :
      (c c1 : ℕ)
      → is_high c ≡ true
      → is_low c1 ≡ true
      → surrogates.from_pair c c1 ≡ 65536 + 1024 * (c - 55296) + (c1 - 56320)
  pair_point c c1 h l =
      let high : c ≡ 0xd800 + (c - 55296) = ground arith in
      let low : c1 ≡ 0xdc00 + (c1 - 56320) = ground arith in
      ap (λ (x : ℕ). surrogates.from_pair x c1) high
      ∙ ap (surrogates.from_pair (0xd800 + (c - 55296))) low
      ∙ utf16.pair (c - 55296) (c1 - 56320) (ground arith) (ground arith)

  putc_pair :
      (c c1 : ℕ)
      → is_high c ≡ true
      → is_low c1 ≡ true
      → string_buffer_putc surrogates (surrogates.from_pair c c1) ≡ c ∷ c1 ∷ []
  unfolding string_buffer_putc
  putc_pair c c1 h l =
      let point = 65536 + 1024 * (c - 55296) + (c1 - 56320) in
      let wide : leb 65536 point ≡ true = ground arith in
      let high : 0xd800 + (point - 0x10000) / 1024 ≡ c = ground arith in
      let low : 0xdc00 + point % 1024 ≡ c1 = ground arith in
      rw
        (
          pair_point c c1 h l,
          wide,
          utf16.unpair_hi point (omega arith) (ground arith),
          utf16.unpair_lo point (omega arith) (ground arith),
          high,
          low,
        )
        refl

  high_coded : (c : ℕ) → is_high c ≡ true → is_uri_unescaped c is_component ≡ false
  unfolding is_uri_unescaped
  high_coded c h = ground arith

  high_unit :
      (c : ℕ) (rest : List ℕ)
      → is_high c ≡ true
      → encode_unit surrogates is_component c rest ≡ encode_pair surrogates c rest
  unfolding encode_unit
  high_unit c rest h =
      let l : is_low c ≡ false = ground arith in
      rw (high_coded c h, utf16.lo c, l, utf16.hi c, h) refl

  pair_unit :
      (c c1 : ℕ) (rest : List ℕ)
      → is_high c ≡ true
      → is_low c1 ≡ true
      → Encoded surrogates utf16 from_hex reads is_component (c ∷ c1 ∷ rest)
  pair_unit c c1 rest h l =
      let point = surrogates.from_pair c c1 in
      let value = pair_point c c1 h l in
      record {
        first = c ∷ c1 ∷ [];
        rest = rest;
        out = utf8_escapes point;
        whole = refl;
        shorter = omega arith;
        encoded =
            encode_step surrogates utf16 from_hex reads is_component c 1 (c1 ∷ rest)
              (utf8_escapes point)
              (high_unit c (c1 ∷ rest) h ∙ unfold encode_pair in rw (utf16.lo c1, l) refl)
            ∙ ap (written (utf8_escapes point)) (unfold encode_loop in refl);
        decoded = λ more.
            IsRead-point surrogates utf16 from_hex reads is_component point more (ground arith)
              (utf16.either point ∙ ground arith) (λ small. absurd (omega arith))
            ∙ ap (λ (us : List ℕ). written us (decode_loop surrogates from_hex is_component 0 more))
                (putc_pair c c1 h l);
        same_pairs = paired_high c (c1 ∷ rest) h ∙ paired_low c1 rest l;
      }

  after_high : (c : ℕ) (rest : List ℕ) → is_high c ≡ true → Outcome (c ∷ rest)
  after_high c [] h = inr (
    (
      unpaired_high,
      refuse_step surrogates utf16 from_hex reads is_component c [] unpaired_high
          (high_unit c [] h ∙ unfold encode_pair in refl),
    ),
    paired_high c [] h,
  )
  after_high c (c1 ∷ rest) h = elim (Bool-cases (is_low c1)) [
    | inl low ↦ inl (pair_unit c c1 rest h low)
    | inr other ↦ inr (
      (
        unpaired_high,
        refuse_step surrogates utf16 from_hex reads is_component c (c1 ∷ rest) unpaired_high
            (high_unit c (c1 ∷ rest) h ∙ unfold encode_pair in rw (utf16.lo c1, other) refl),
      ),
      paired_high c (c1 ∷ rest) h ∙ not_paired c1 rest other,
    )
  ]

  low_unit :
      (c : ℕ) (rest : List ℕ)
      → is_uri_unescaped c is_component ≡ false
      → is_low c ≡ true
      → Refused surrogates utf16 from_hex reads is_component (c ∷ rest)
  low_unit c rest h l = (
    (
      unpaired_low,
      refuse_step surrogates utf16 from_hex reads is_component c rest unpaired_low
          (unfold encode_unit in rw (h, utf16.lo c, l) refl),
    ),
    starts_low c rest l,
  )

  -- Every string of 16-bit units that is not empty begins with units that are encoded by themselves,
  -- or is refused.
  pub encode_loop-cases : (c : ℕ) (rest : List ℕ) → c < 65536 → Outcome (c ∷ rest)
  encode_loop-cases c rest small = elim (Bool-cases (is_uri_unescaped c is_component)) [
    | inl plain ↦ inl (plain_unit surrogates utf16 from_hex reads is_component c rest plain)
    | inr coded ↦ elim (Bool-cases (is_low c)) [
      | inl low ↦ inr (low_unit c rest coded low)
      | inr no_low ↦ elim (Bool-cases (is_high c)) [
        | inl high ↦ after_high c rest high
        | inr no_high ↦ inl (
            lone_unit surrogates utf16 from_hex reads is_component c rest small coded no_low
              no_high)
      ]
    ]
  ]
