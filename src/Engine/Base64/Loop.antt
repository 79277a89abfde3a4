-- ===== src/Engine/Base64/Loop.antt =====
-- The first loop of `b64_decode` on characters that stand for sextets.
use cno_cli.Base.{ℕ, ◌+◌, ◌*◌, ◌<◌, ◌≡◌, refl, ap, ◌∙◌, arith}
use cno_cli.Base.{List, ◌∷◌, ◌++◌}
use cno_cli.Engine.Base64.{Group, empty_group, push, decode_loop, base64}
use cno_cli.Engine.Base64.Tables.{flags, has, b64_val}
use cno_cli.Engine.Base64.Sextet.{push_open, push_full, three_bytes}

-- A character that stands for the sextet i.
abbrev pub IsSextet : ℕ → ℕ → Type 0
IsSextet ch i = (flags base64 ch ≡ 1) × (b64_val ch ≡ i)

decode_push :
    (ch : ℕ) (rest : List ℕ) (g : Group)
    → flags base64 ch ≡ 1
    → decode_loop (ch ∷ rest) g ≡ decode_loop rest (push ch g)
unfolding decode_loop has
decode_push ch rest g f = rw f refl

decode_open :
    (ch i acc seen : ℕ) (out rest : List ℕ)
    → IsSextet ch i
    → acc < 262144
    → seen < 3
    → decode_loop (ch ∷ rest) (record { acc = acc; seen = seen; out = out })
      ≡ decode_loop rest (record { acc = acc * 64 + i; seen = seen + 1; out = out })
decode_open ch i acc seen out rest (f, v) ha hs =
    decode_push ch rest _ f ∙ ap (decode_loop rest) (push_open ch acc seen out ha hs ∙ rw v refl)

decode_full :
    (ch i acc : ℕ) (out rest : List ℕ)
    → IsSextet ch i
    → acc < 262144
    → decode_loop (ch ∷ rest) (record { acc = acc; seen = 3; out = out })
      ≡ decode_loop rest (empty_group (out ++ three_bytes (acc * 64 + i)))
decode_full ch i acc out rest (f, v) ha =
    decode_push ch rest _ f ∙ ap (decode_loop rest) (push_full ch acc out ha ∙ rw v refl)

module _ (a i : ℕ) (sa : IsSextet a i) (out : List ℕ) where
  pub decode_first :
      (rest : List ℕ)
      → decode_loop (a ∷ rest) (empty_group out)
        ≡ decode_loop rest (record { acc = i; seen = 1; out = out })
  unfolding empty_group
  decode_first rest = decode_open a i 0 0 out rest sa (omega arith) (omega arith) ∙ ground arith

  module _ (b j : ℕ) (sb : IsSextet b j) (hi : i < 64) where
    pub decode_two :
        (rest : List ℕ)
        → decode_loop (a ∷ b ∷ rest) (empty_group out)
          ≡ decode_loop rest (record { acc = i * 64 + j; seen = 2; out = out })
    decode_two rest = decode_first _ ∙ decode_open b j i 1 out rest sb (omega arith) (omega arith)

    module _ (c k : ℕ) (sc : IsSextet c k) (hj : j < 64) where
      pub decode_three :
          (rest : List ℕ)
          → decode_loop (a ∷ b ∷ c ∷ rest) (empty_group out)
            ≡ decode_loop rest (record { acc = (i * 64 + j) * 64 + k; seen = 3; out = out })
      decode_three rest =
          decode_two _ ∙ decode_open c k (i * 64 + j) 2 out rest sc (omega arith) (omega arith)

      pub decode_four :
          (d l : ℕ) (rest : List ℕ)
          → IsSextet d l
          → k < 64
          → decode_loop (a ∷ b ∷ c ∷ d ∷ rest) (empty_group out)
            ≡ decode_loop rest (empty_group (out ++ three_bytes (((i * 64 + j) * 64 + k) * 64 + l)))
      decode_four d l rest sd hk =
          decode_three _ ∙ decode_full d l ((i * 64 + j) * 64 + k) out rest sd (omega arith)
