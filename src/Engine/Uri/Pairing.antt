-- ===== src/Engine/Uri/Pairing.antt =====
-- What `encodeURI` does with a unit or a pair, and how that is read.
use cno_cli.Base.{ℕ, ◌≡◌, ◌<◌, refl, ap, ◌∙◌, arith, Bool, true, false, not, ◌&&◌, Option, some}
use cno_cli.Base.{List, [], ◌∷◌, ◌++◌, length, leb, ◌==◌}
use cno_cli.Engine.Result.{Error, ok, throws}
use cno_cli.Engine.Escape.{upper_digit, one_of}
use cno_cli.Engine.Uri.{
  Surrogates, is_uri_reserved, is_uri_unescaped, utf8_escapes, written, string_buffer_putc,
  encode_unit, encode_loop, decode_unit, decode_loop,
}
use cno_cli.Engine.Uri.Points.{IsUtf16, loop_step, IsRead-point}

abbrev pub is_high : ℕ → Bool
is_high c = leb 0xd800 c && leb c 0xdbff

abbrev pub is_low : ℕ → Bool
is_low c = leb 0xdc00 c && leb c 0xdfff

-- Whether every high surrogate is followed by a low one, and every low one follows a high one; the
-- flag says that a low one is due.
abbrev pub paired : Bool → List ℕ → Bool
paired due [] = not due
paired true (c ∷ cs) = is_low c && paired false cs
paired false (c ∷ cs) = not (is_low c) && paired (is_high c) cs

unescaped_small : (is_component : Bool) (c : ℕ) → is_uri_unescaped c is_component ≡ true → c < 256
unfolding is_uri_unescaped
unescaped_small is_component c h = ground arith

unescaped-percent :
    (is_component : Bool) (c : ℕ) → is_uri_unescaped c is_component ≡ true → (c == b'%') ≡ false
unfolding is_uri_unescaped is_uri_reserved one_of
unescaped-percent is_component c h = ground arith

coded-reserved :
    (is_component : Bool) (c : ℕ)
    → is_uri_unescaped c is_component ≡ false
    → c < 128
    → (not is_component && is_uri_reserved c) ≡ false
unfolding is_uri_unescaped
coded-reserved is_component c h lt = ground arith

paired_plain :
    (c : ℕ) (rest : List ℕ)
    → is_low c ≡ false
    → is_high c ≡ false
    → paired false (c ∷ rest) ≡ paired false rest
paired_plain c rest l h = rw (l, h) refl

module _ (surrogates : Surrogates) (utf16 : IsUtf16 surrogates) (from_hex : ℕ → Option ℕ)
    (reads : (i : ℕ) → i < 16 → from_hex (upper_digit i) ≡ some i) (is_component : Bool) where
  -- Units that are encoded by themselves, and come back.
  pub record Encoded (units : List ℕ) : Type 0 where
    pub first : List ℕ
    pub rest : List ℕ
    pub out : List ℕ
    pub whole : first ++ rest ≡ units
    pub shorter : length rest < length units
    pub encoded :
        encode_loop surrogates is_component 0 units
        ≡ written out (encode_loop surrogates is_component 0 rest)
    pub decoded :
        (more : List ℕ)
        → decode_loop surrogates from_hex is_component 0 (out ++ more)
          ≡ written first (decode_loop surrogates from_hex is_component 0 more)
    pub same_pairs : paired false units ≡ paired false rest

  abbrev pub Refused : List ℕ → Type 0
  Refused units =
      ((e : Error) × (encode_loop surrogates is_component 0 units ≡ throws e))
      × (paired false units ≡ false)

  putc_small : (c : ℕ) → c < 65536 → string_buffer_putc surrogates c ≡ c ∷ []
  unfolding string_buffer_putc
  putc_small c h = ground arith

  pub encode_step :
      (c skip : ℕ) (rest out : List ℕ)
      → encode_unit surrogates is_component c rest ≡ ok (out, skip)
      → encode_loop surrogates is_component 0 (c ∷ rest)
        ≡ written out (encode_loop surrogates is_component skip rest)
  unfolding encode_loop
  encode_step c skip rest out e = rw (encode_loop, e) refl

  pub refuse_step :
      (c : ℕ) (rest : List ℕ) (e : Error)
      → encode_unit surrogates is_component c rest ≡ throws e
      → encode_loop surrogates is_component 0 (c ∷ rest) ≡ throws e
  unfolding encode_loop
  refuse_step c rest e h = rw (encode_loop, h) refl

  pub plain_unit :
      (c : ℕ) (rest : List ℕ) → is_uri_unescaped c is_component ≡ true → Encoded (c ∷ rest)
  plain_unit c rest h =
      let small = unescaped_small is_component c h in
      record {
        first = c ∷ [];
        rest = rest;
        out = c ∷ [];
        whole = refl;
        shorter = omega arith;
        encoded = encode_step c 0 rest (c ∷ []) (unfold encode_unit in rw h refl);
        decoded = λ more.
            loop_step surrogates utf16 from_hex reads is_component c c 0 more
              (unfold decode_unit in rw (unescaped-percent is_component c h) refl)
            ∙ ap (λ (us : List ℕ). written us (decode_loop surrogates from_hex is_component 0 more))
                (putc_small c (omega arith));
        same_pairs = paired_plain c rest (ground arith) (ground arith);
      }

  pub lone_unit :
      (c : ℕ) (rest : List ℕ)
      → c < 65536
      → is_uri_unescaped c is_component ≡ false
      → is_low c ≡ false
      → is_high c ≡ false
      → Encoded (c ∷ rest)
  lone_unit c rest small h l hi = record {
    first = c ∷ [];
    rest = rest;
    out = utf8_escapes c;
    whole = refl;
    shorter = omega arith;
    encoded =
        encode_step c 0 rest (utf8_escapes c)
          (unfold encode_unit in rw (h, utf16.lo c, l, utf16.hi c, hi) refl);
    decoded = λ more.
        IsRead-point surrogates utf16 from_hex reads is_component c more (omega arith)
          (utf16.either c ∙ ground arith) (coded-reserved is_component c h)
        ∙ ap (λ (us : List ℕ). written us (decode_loop surrogates from_hex is_component 0 more))
            (putc_small c small);
    same_pairs = paired_plain c rest l hi;
  }
