-- ===== src/Engine/Text/RoundTrip.antt =====
-- `atob` after `btoa`, and where `btoa` refuses.
use cno_cli.Base.{ℕ, suc, ◌+◌, ◌*◌, ◌/◌, ◌≤◌, ◌<◌, ◌≡◌, refl, arith}
use cno_cli.Base.{◌↔◌, ◌≢◌}
use cno_cli.Base.{true, false, some, Bool-cases, inl, inr, map}
use cno_cli.Base.{List, [], ◌∷◌, length, All, leb, if◌then◌else◌, u8}
use cno_cli.Engine.Base64.{base64, b64_encode, b64_decode, IsByte}
use cno_cli.Engine.Base64.Tables.{enc, enc_inverse}
use cno_cli.Engine.Base64.RoundTrip.{b64_decode-b64_encode}
use cno_cli.Engine.Result.{Memory, invalid_character, ok, throws, ◌>>=◌, string_len_max}
use cno_cli.Engine.Text.{JsString, any_above, narrow, js_btoa, js_atob}

abbrev IsAscii : ℕ → Type 0
IsAscii c = c < 128

length-b64_encode : (src : List ℕ) → length (b64_encode base64 src) ≡ 4 * ((length src + 2) / 3)
unfolding b64_encode
length-b64_encode [] = omega arith
length-b64_encode (x ∷ []) = omega arith
length-b64_encode (x ∷ y ∷ []) = omega arith
length-b64_encode (x ∷ y ∷ z ∷ rest) = omega (arith, length-b64_encode rest)

enc-IsAscii : (i : ℕ) → i < 64 → IsAscii (enc base64 i)
enc-IsAscii i h = (enc_inverse base64 i h).2

b64_encode-IsAscii : (src : List ℕ) → All IsAscii (b64_encode base64 src)
unfolding b64_encode
b64_encode-IsAscii [] = tt
b64_encode-IsAscii (x ∷ []) =
    (enc-IsAscii _ (omega arith), (enc-IsAscii _ (omega arith), (omega arith, (omega arith, tt))))
b64_encode-IsAscii (x ∷ y ∷ []) = (
  enc-IsAscii _ (omega arith),
  (enc-IsAscii _ (omega arith), (enc-IsAscii _ (omega arith), (omega arith, tt))),
)
b64_encode-IsAscii (x ∷ y ∷ z ∷ rest) = (
  enc-IsAscii _ (omega arith),
  (
    enc-IsAscii _ (omega arith),
    (enc-IsAscii _ (omega arith), (enc-IsAscii _ (omega arith), b64_encode-IsAscii rest)),
  ),
)

none_above : (top : ℕ) (cs : List ℕ) → All (λ c. c < suc top) cs → any_above top cs ≡ false
unfolding any_above
none_above top [] h = refl
none_above top (c ∷ cs) (h, hs) = ground (arith, none_above top cs hs)

u8_bytes : (cs : List ℕ) → All IsByte cs → map u8 cs ≡ cs
u8_bytes [] h = refl
u8_bytes (c ∷ cs) (h, hs) = ground (arith, u8_bytes cs hs)

-- The allocator grants every request.
abbrev pub IsAmple : Memory → Type 0
IsAmple mem = (n : ℕ) → (mem.malloc n ≡ true) × (mem.alloc_string n ≡ true)

narrow-bytes :
    (mem : Memory) (s : JsString) → IsAmple mem → All IsByte s.chars → narrow 255 mem s ≡ ok s.chars
unfolding narrow
narrow-bytes mem s ample h = ground (
  arith,
  ample (if leb 1 (length s.chars) then length s.chars else 1),
  none_above 255 s.chars h,
  u8_bytes s.chars h,
)

module _ (mem : Memory) (ample : IsAmple mem) where
  btoa_ok :
      (s : JsString)
      → All IsByte s.chars
      → 4 * ((length s.chars + 2) / 3) ≤ string_len_max
      → js_btoa mem s ≡ ok (record { is_wide_char = false; chars = b64_encode base64 s.chars })
  unfolding js_btoa
  btoa_ok s h small =
      rw (narrow-bytes mem s ample h) (ground (arith, ample (4 * ((length s.chars + 2) / 3))))

  atob_ok :
      (cs bytes : List ℕ)
      → All IsAscii cs
      → length cs / 4 * 3 + 3 ≤ string_len_max
      → b64_decode cs ≡ some bytes
      → js_atob mem (record { is_wide_char = false; chars = cs })
        ≡ ok (record { is_wide_char = false; chars = bytes })
  unfolding js_atob narrow
  atob_ok cs bytes h small e =
      rw (none_above 127 cs h, e) (ground (arith, ample (length cs / 4 * 3 + 3)))

  -- For a string of characters below 256, narrow or wide, whose encoding is short enough for a
  -- string of the engine, and an allocator that grants every request: `btoa` succeeds, and `atob`
  -- gives the characters back.
  pub js_atob-js_btoa :
      (s : JsString)
      → All IsByte s.chars
      → 4 * ((length s.chars + 2) / 3) + 3 ≤ string_len_max
      → (js_btoa mem s >>= js_atob mem) ≡ ok (record { is_wide_char = false; chars = s.chars })
  js_atob-js_btoa s h small = rw (btoa_ok s h (omega arith)) (
      atob_ok (b64_encode base64 s.chars) s.chars (b64_encode-IsAscii s.chars)
        (omega (arith, length-b64_encode s.chars)) (b64_decode-b64_encode s.chars h))

  All-any_above : (top : ℕ) (cs : List ℕ) → any_above top cs ≡ false → All (λ c. c < suc top) cs
  unfolding any_above
  All-any_above top [] e = tt
  All-any_above top (c ∷ cs) e = (ground arith, All-any_above top cs (ground arith))

  btoa_throws :
      (cs : List ℕ)
      → any_above 255 cs ≡ true
      → js_btoa mem (record { is_wide_char = true; chars = cs }) ≡ throws invalid_character
  unfolding js_btoa narrow
  btoa_throws cs e = ground (arith, ample (if leb 1 (length cs) then length cs else 1))

  btoa_not_thrown :
      (cs : List ℕ)
      → any_above 255 cs ≡ false
      → js_btoa mem (record { is_wide_char = true; chars = cs }) ≢ throws invalid_character
  unfolding js_btoa narrow
  btoa_not_thrown cs e =
      ground (
        arith,
        ample (if leb 1 (length cs) then length cs else 1),
        ample (4 * ((length cs + 2) / 3)),
      )

  -- With an allocator that grants every request, `btoa` throws `InvalidCharacterError` on a wide
  -- string exactly where not all of its units are below 256.
  pub js_btoa_invalid :
      (cs : List ℕ)
      → (js_btoa mem (record { is_wide_char = true; chars = cs }) ≡ throws invalid_character)
        ↔ (¬ (All IsByte cs))
  js_btoa_invalid cs = (
    λ e h. btoa_not_thrown cs (none_above 255 cs h) e,
    λ h. elim (Bool-cases (any_above 255 cs)) [
      | inl found ↦ btoa_throws cs found
      | inr clear ↦ absurd (h (All-any_above 255 cs clear))
    ],
  )
