-- ===== src/Engine/Base64/Sextet.antt =====
-- One step of the decoders on a sextet, in plain arithmetic.
use cno_cli.Base.{ℕ, ◌+◌, ◌*◌, ◌/◌, ◌%◌, ◌<◌, ◌≡◌, arith}
use cno_cli.Base.{List, [], ◌∷◌, ◌++◌, shl, u32, bit_or}
use cno_cli.Base.Bits.{bit_or-shl}
use cno_cli.Engine.Base64.{empty_group, push}
use cno_cli.Engine.Base64.Tables.{b64_val, b64_val-lt}

-- The accumulator never overflows its 32 bits: at most 24 of them are used.
pub acc_step :
    (acc ch : ℕ) → acc < 262144 → bit_or (u32 (shl acc 6)) (b64_val ch) ≡ acc * 64 + b64_val ch
acc_step acc ch h = ground (arith, b64_val-lt ch, bit_or-shl 6 acc (b64_val ch))

pub push_open :
    (ch acc seen : ℕ) (out : List ℕ)
    → acc < 262144
    → seen < 3
    → push ch (record { acc = acc; seen = seen; out = out })
      ≡ record { acc = acc * 64 + b64_val ch; seen = seen + 1; out = out }
unfolding push
push_open ch acc seen out h hs = ground (arith, acc_step acc ch)

abbrev pub three_bytes : ℕ → List ℕ
three_bytes v = v / 65536 % 256 ∷ v / 256 % 256 ∷ v % 256 ∷ []

pub push_full :
    (ch acc : ℕ) (out : List ℕ)
    → acc < 262144
    → push ch (record { acc = acc; seen = 3; out = out })
      ≡ empty_group (out ++ three_bytes (acc * 64 + b64_val ch))
unfolding push
push_full ch acc out h = ground (arith, acc_step acc ch)
