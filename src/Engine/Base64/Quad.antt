-- ===== src/Engine/Base64/Quad.antt =====
-- The four sextets that the fast loop of `from_base64` joins by `|`, as a sum.
use cno_cli.Base.{ℕ, ◌+◌, ◌*◌, ◌^◌, ◌<◌, ◌≡◌, refl, ap, ◌∙◌, arith, bit_or, shl}
use cno_cli.Base.Bits.{bit_or-shl}
use cno_cli.Engine.Base64.Tables.{b64_val, b64_val-lt}
use cno_cli.Base.{List, ◌∷◌, ◌++◌, true, bit_and}
use cno_cli.Engine.Base64.From.{quad}
use cno_cli.Engine.Base64.{base64, decode_loop, empty_group}
use cno_cli.Engine.Base64.Tables.{flags, flags_and, has, k_val}
use cno_cli.Engine.Base64.Sextet.{three_bytes}
use cno_cli.Engine.Base64.Loop.{decode_four}

joined :
    (a b c d : ℕ)
    → a < 64
    → b < 64
    → c < 64
    → d < 64
    → bit_or (bit_or (bit_or (shl a 18) (shl b 12)) (shl c 6)) d ≡ ((a * 64 + b) * 64 + c) * 64 + d
joined a b c d ha hb hc hd =
    ap (λ (t : ℕ). bit_or (bit_or t (shl c 6)) d) high
    ∙ ap (λ (t : ℕ). bit_or t d) middle
    ∙ bit_or-shl 6 ((a * 64 + b) * 64 + c) d (omega arith)
  where
    high : bit_or (shl a 18) (shl b 12) ≡ (a * 64 + b) * 2 ^ 12
    high = bit_or-shl 18 a (shl b 12) (omega arith) ∙ omega arith

    middle : bit_or ((a * 64 + b) * 2 ^ 12) (shl c 6) ≡ ((a * 64 + b) * 64 + c) * 2 ^ 6
    middle = bit_or-shl 12 (a * 64 + b) (shl c 6) (omega arith) ∙ omega arith

pub quad_lem :
    (a b c d : ℕ) → quad a b c d ≡ ((b64_val a * 64 + b64_val b) * 64 + b64_val c) * 64 + b64_val d
unfolding quad
quad_lem a b c d = joined _ _ _ _ (b64_val-lt a) (b64_val-lt b) (b64_val-lt c) (b64_val-lt d)

-- What the fast loop takes in one round, `b64_decode` takes in four.
pub fast_round :
    (a b c d : ℕ) (out rest : List ℕ)
    → has
        (bit_and
          (bit_and (bit_and (flags base64 a) (flags base64 b)) (flags base64 c))
          (flags base64 d))
        k_val
      ≡ true
    → decode_loop (a ∷ b ∷ c ∷ d ∷ rest) (empty_group out)
      ≡ decode_loop rest (empty_group (out ++ three_bytes (quad a b c d)))
fast_round a b c d out rest h =
    let (fa, fb, fc, fd) = flags_and base64 a b c d h in
    decode_four a _ (fa, refl) out b _ (fb, refl) (b64_val-lt a) c _ (fc, refl) (b64_val-lt b) d _
      rest (fd, refl) (b64_val-lt c)
    ∙ rw (quad_lem a b c d) refl
