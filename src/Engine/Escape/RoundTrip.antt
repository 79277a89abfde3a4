-- ===== src/Engine/Escape/RoundTrip.antt =====
-- `unescape` undoes `escape`.
use cno_cli.Base.{ℕ, suc, ◌+◌, ◌*◌, ◌<◌, ◌≡◌, refl, ap, ◌∙◌, arith, true, false, Option, none, some}
use cno_cli.Base.{
  List, [], ◌∷◌, ◌++◌, All, inl, inr, Bool-cases, ◌==◌, leb, shl, shr, low_bits, bit_or,
}
use cno_cli.Base.Bits.{bit_or-shl}
use cno_cli.Engine.Escape.{
  one_of, is_unescaped, upper_digit, encode_uri_hex, js_global_escape, string_get_hex, starts_with,
  long_escape, short_escape, unit_at, unescape_loop, js_global_unescape,
}

digit_not_u : (i : ℕ) → i < 16 → (upper_digit i == b'u') ≡ false
unfolding upper_digit
digit_not_u i h = ground arith

is_unescaped-percent : (c : ℕ) → is_unescaped c ≡ true → (c == b'%') ≡ false
unfolding is_unescaped one_of
is_unescaped-percent c h = ground arith

module _ (from_hex : ℕ → Option ℕ)
    (reads : (i : ℕ) → i < 16 → from_hex (upper_digit i) ≡ some i) where
  get_hex_some :
      (n c u h : ℕ) (units : List ℕ)
      → from_hex u ≡ some h
      → string_get_hex from_hex (suc n) c (u ∷ units)
        ≡ string_get_hex from_hex n (bit_or (shl c 4) h) units
  unfolding string_get_hex
  get_hex_some n c u h units e = rw (string_get_hex, e) refl

  get_hex-digit :
      (n c i : ℕ) (units : List ℕ)
      → i < 16
      → string_get_hex from_hex (suc n) c (upper_digit i ∷ units)
        ≡ string_get_hex from_hex n (16 * c + i) units
  get_hex-digit n c i units h =
      get_hex_some n c (upper_digit i) i units (reads i h)
      ∙ ap (λ (k : ℕ). string_get_hex from_hex n k units) (bit_or-shl 4 c i h ∙ omega arith)

  get_hex_end : (c : ℕ) (units : List ℕ) → string_get_hex from_hex 0 c units ≡ some c
  unfolding string_get_hex
  get_hex_end c units = refl

  pub get_hex_two :
      (c i j : ℕ) (units : List ℕ)
      → i < 16
      → j < 16
      → string_get_hex from_hex 2 c (upper_digit i ∷ upper_digit j ∷ units)
        ≡ some (256 * c + 16 * i + j)
  get_hex_two c i j units hi hj =
      get_hex-digit 1 c i (upper_digit j ∷ units) hi
      ∙ get_hex-digit 0 (16 * c + i) j units hj
      ∙ get_hex_end _ units
      ∙ ap some (omega arith)

  get_hex_four :
      (h i j k : ℕ) (units : List ℕ)
      → h < 16
      → i < 16
      → j < 16
      → k < 16
      → string_get_hex from_hex 4 0
          (upper_digit h ∷ upper_digit i ∷ upper_digit j ∷ upper_digit k ∷ units)
        ≡ some (256 * (16 * h + i) + 16 * j + k)
  get_hex_four h i j k units hh hi hj hk =
      get_hex-digit 3 0 h _ hh
      ∙ get_hex-digit 2 (16 * 0 + h) i _ hi
      ∙ get_hex_two (16 * (16 * 0 + h) + i) j k units hj hk
      ∙ ap some (omega arith)

  long_escape_u :
      (a b d e : ℕ) (rest : List ℕ)
      → long_escape from_hex (b'u' ∷ a ∷ b ∷ d ∷ e ∷ rest)
        ≡ string_get_hex from_hex 4 0 (a ∷ b ∷ d ∷ e ∷ rest)
  unfolding long_escape starts_with
  long_escape_u a b d e rest = ground arith

  long_escape_other :
      (a : ℕ) (rest : List ℕ) → (a == b'u') ≡ false → long_escape from_hex (a ∷ rest) ≡ none
  unfolding long_escape starts_with
  long_escape_other a rest h = ground arith

  short_escape_two :
      (a b : ℕ) (rest : List ℕ)
      → short_escape from_hex (a ∷ b ∷ rest) ≡ string_get_hex from_hex 2 0 (a ∷ b ∷ rest)
  unfolding short_escape
  short_escape_two a b rest = ground arith

  unit_at-plain : (c : ℕ) (rest : List ℕ) → is_unescaped c ≡ true → unit_at from_hex c rest ≡ (c, 0)
  unfolding unit_at
  unit_at-plain c rest h = rw (is_unescaped-percent c h) refl

  unit_at-short :
      (c : ℕ) (rest : List ℕ)
      → c < 256
      → unit_at from_hex b'%'
          (upper_digit (low_bits (shr c 4) 4) ∷ upper_digit (low_bits c 4) ∷ rest)
        ≡ (c, 2)
  unfolding unit_at
  unit_at-short c rest h =
      rw
        (
          long_escape_other (upper_digit (low_bits (shr c 4) 4)) (upper_digit (low_bits c 4) ∷ rest)
              (digit_not_u (low_bits (shr c 4) 4) (omega arith)),
          short_escape_two (upper_digit (low_bits (shr c 4) 4)) (upper_digit (low_bits c 4)) rest,
          get_hex_two 0 (low_bits (shr c 4) 4) (low_bits c 4) rest (omega arith) (omega arith),
        )
        (ap (λ (n : ℕ). (n, 2)) (omega arith))

  unit_at-long :
      (c : ℕ) (rest : List ℕ)
      → c < 65536
      → unit_at from_hex b'%' (
          b'u'
          ∷ upper_digit (low_bits (shr c 12) 4)
          ∷ upper_digit (low_bits (shr c 8) 4)
          ∷ upper_digit (low_bits (shr c 4) 4)
          ∷ upper_digit (low_bits c 4)
          ∷ rest)
        ≡ (c, 5)
  unfolding unit_at
  unit_at-long c rest h =
      rw
        (
          long_escape_u (upper_digit (low_bits (shr c 12) 4)) (upper_digit (low_bits (shr c 8) 4))
              (upper_digit (low_bits (shr c 4) 4)) (upper_digit (low_bits c 4)) rest,
          get_hex_four (low_bits (shr c 12) 4) (low_bits (shr c 8) 4) (low_bits (shr c 4) 4)
              (low_bits c 4) rest (omega arith) (omega arith) (omega arith) (omega arith),
        )
        (ap (λ (n : ℕ). (n, 5)) (omega arith))

  unescape_one :
      (c u skip : ℕ) (rest : List ℕ)
      → unit_at from_hex c rest ≡ (u, skip)
      → unescape_loop from_hex 0 (c ∷ rest) ≡ u ∷ unescape_loop from_hex skip rest
  unfolding unescape_loop
  unescape_one c u skip rest e = rw e refl

  unescape-encode :
      (c : ℕ) (rest : List ℕ)
      → c < 65536
      → unescape_loop from_hex 0 (encode_uri_hex c ++ rest) ≡ c ∷ unescape_loop from_hex 0 rest
  unfolding encode_uri_hex
  unescape-encode c rest h = elim (Bool-cases (leb 256 c)) [
    | inl wide ↦
        rw wide (unescape_one b'%' c 5 _ (unit_at-long c rest h) ∙ unfold unescape_loop in refl)
    | inr narrow ↦ rw narrow (
        unescape_one b'%' c 2 _ (unit_at-short c rest (ground arith))
        ∙ unfold unescape_loop in refl)
  ]

  -- With a `from_hex` that reads the digits in upper case: for every string of 16-bit units, `unescape`
  -- of what `escape` returns is the string.
  pub unescape-escape :
      (s : List ℕ) → All (λ c. c < 65536) s → js_global_unescape from_hex (js_global_escape s) ≡ s
  unfolding js_global_escape js_global_unescape
  unescape-escape [] h = unfold unescape_loop in refl
  unescape-escape (c ∷ cs) (hc, hs) = elim (Bool-cases (is_unescaped c)) [
    | inl plain ↦ rw plain (
        unescape_one c c 0 _ (unit_at-plain c _ plain)
        ∙ ap (λ (units : List ℕ). c ∷ units) (unescape-escape cs hs))
    | inr coded ↦
        rw coded
          (unescape-encode c _ hc ∙ ap (λ (units : List ℕ). c ∷ units) (unescape-escape cs hs))
  ]
