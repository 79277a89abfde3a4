-- ===== src/Engine/Base64/Agree.antt =====
-- The two decoders of .backup/quickjs.c compared: `b64_decode`, behind `atob`, and `from_base64` in
-- its loose mode, behind `Uint8Array.fromBase64`.
use cno_cli.Base.{ℕ, suc, ◌+◌, ◌*◌, ◌/◌, ◌≤◌, ◌<◌, ◌≡◌, refl, sym, ap, ◌∙◌, arith}
use cno_cli.Base.{false, List, [], ◌∷◌, ◌++◌, length, length-append, leb, ◌==◌, if◌then◌else◌}
use cno_cli.Base.{u8, shr, bit_and, ◌&&◌}
use cno_cli.Base.{inl, inr, Bool-cases}
use cno_cli.Engine.Base64.{
  Group, empty_group, push, base64, conclude, decode_loop, b64_decode, Break,
}
use cno_cli.Engine.Base64.Tables.{flags, has, k_val, flags-cases}
use cno_cli.Engine.Base64.From.{loose, no_room, slow_loop, quad, fast_loop, resume, from_base64}
use cno_cli.Engine.Base64.Bounds.{push_size}
use cno_cli.Engine.Base64.Quad.{fast_round}
use cno_cli.Engine.Base64.Ending.{
  answer, whole, and_right, value-ne-pad, padding-conclude, at_end-conclude, conclude_stuck,
}

-- How far the decoders are: k groups written, and the open group. No buffer of
-- `src_len / 4 * 3 + 3` bytes is full by then.
record Progress (src_len left : ℕ) (g : Group) : Type 0 where
  groups : ℕ
  few : g.seen < 4
  written : length g.out ≡ 3 * groups
  read_so_far : 4 * groups + g.seen + left ≤ src_len

push-Progress :
    {src_len left : ℕ} {g : Group} (ch : ℕ)
    → Progress src_len (suc left) g
    → Progress src_len left (push ch g)
push-Progress {g = g} ch p = elim (Bool-cases (g.seen + 1 == 4)) [
  | inl full ↦ record {
    groups = suc p.groups;
    few = ground (arith, push_size ch g);
    written = ground (arith, push_size ch g);
    read_so_far = ground (arith, push_size ch g);
  }
  | inr open_group ↦ record {
    groups = p.groups;
    few = ground (arith, push_size ch g);
    written = ground (arith, push_size ch g);
    read_so_far = ground (arith, push_size ch g);
  }
]

skip-Progress :
    {src_len left : ℕ} {g : Group} → Progress src_len (suc left) g → Progress src_len left g
skip-Progress p = record {
  groups = p.groups;
  few = p.few;
  written = p.written;
  read_so_far = omega arith;
}

module _ (max_len src_len : ℕ) (roomy : src_len / 4 * 3 + 3 ≤ max_len) where
  has_room : {left : ℕ} (g : Group) → Progress src_len (suc left) g → no_room max_len g ≡ false
  unfolding no_room
  has_room g p = ground arith

  not_full : {left : ℕ} (g : Group) → Progress src_len left g → leb max_len (length g.out) ≡ false
  not_full g p = ground arith

  slow_loop-conclude :
      (src : List ℕ) (index read : ℕ) (g : Group)
      → Progress src_len (length src) g
      → answer (slow_loop base64 loose max_len src_len src index read g)
        ≡ whole src_len (conclude (decode_loop src g))
  unfolding slow_loop decode_loop has
  slow_loop-conclude [] index read g p = at_end-conclude src_len g p.few read
  slow_loop-conclude (c ∷ r) index read g p = elim (flags-cases base64 c) [
    | inl no_flag ↦ rw no_flag (
        ground (
          arith,
          padding-conclude src_len g p.few r read,
          conclude_stuck src_len g p.few c r no_flag,
        ))
    | inr (inl value) ↦
        rw (value, value-ne-pad c value)
          (ground (
            arith,
            has_room g p,
            not_full (push c g) (push-Progress c p),
            slow_loop-conclude r (index + 1) (if g.seen + 1 == 4 then index + 1 else read)
                (push c g) (push-Progress c p),
          ))
    | inr (inr space) ↦ rw space (slow_loop-conclude r (index + 1) read g (skip-Progress p))
  ]

  open_group :
      (out : List ℕ) (k left : ℕ)
      → length out ≡ 3 * k
      → 4 * k + left ≤ src_len
      → Progress src_len left (empty_group out)
  unfolding empty_group
  open_group out k left e h = record {
    groups = k;
    few = omega arith;
    written = e;
    read_so_far = omega arith;
  }

  -- A stop of the fast loop anywhere.
  resume-conclude :
      (src : List ℕ) (index k : ℕ) (out : List ℕ)
      → length out ≡ 3 * k
      → 4 * k + length src ≤ src_len
      → answer
          (resume base64 loose max_len src_len (record { rest = src; index = index; out = out }))
        ≡ whole src_len (conclude (decode_loop src (empty_group out)))
  unfolding resume
  resume-conclude src index k out e h = ground (
    arith,
    slow_loop-conclude src index index (empty_group out) (open_group out k (length src) e h),
  )

  fast_loop-conclude :
      (src : List ℕ) (index k : ℕ) (out : List ℕ)
      → length out ≡ 3 * k
      → 4 * k + length src ≤ src_len
      → answer (resume base64 loose max_len src_len (fast_loop base64 max_len src index out))
        ≡ whole src_len (conclude (decode_loop src (empty_group out)))
  unfolding fast_loop
  fast_loop-conclude [] index k out e h = resume-conclude [] index k out e h
  fast_loop-conclude (a ∷ []) index k out e h = resume-conclude (a ∷ []) index k out e h
  fast_loop-conclude (a ∷ b ∷ []) index k out e h = resume-conclude (a ∷ b ∷ []) index k out e h
  fast_loop-conclude (a ∷ b ∷ c ∷ []) index k out e h =
      resume-conclude (a ∷ b ∷ c ∷ []) index k out e h
  fast_loop-conclude (a ∷ b ∷ c ∷ d ∷ rest) index k out e h =
      elim (Bool-cases (leb (length out + 3) max_len && has f k_val)) [
        | inl go ↦ rw go (
            fast_loop-conclude rest (index + 4) (suc k) (out ++ group)
              (omega (arith, length-append out group)) (omega arith)
            ∙ ap (λ (b : Break). whole src_len (conclude b))
                (sym (fast_round a b c d out rest (and_right _ _ go))))
        | inr stop ↦ rw stop (resume-conclude (a ∷ b ∷ c ∷ d ∷ rest) index k out e h)
      ]
    where
      f : ℕ
      f =
          bit_and (bit_and (bit_and (flags base64 a) (flags base64 b)) (flags base64 c))
            (flags base64 d)

      v : ℕ
      v = quad a b c d

      group : List ℕ
      group = u8 (shr v 16) ∷ u8 (shr v 8) ∷ u8 v ∷ []

-- With room for every group, the two decoders agree on every source: `from_base64` in loose mode
-- succeeds exactly where `b64_decode` does, with the same bytes, having read all of the source.
pub from_base64-b64_decode :
    (max_len : ℕ) (src : List ℕ)
    → length src / 4 * 3 + 3 ≤ max_len
    → answer (from_base64 base64 loose max_len src) ≡ whole (length src) (b64_decode src)
unfolding from_base64 b64_decode
from_base64-b64_decode max_len src roomy =
    ground (arith, fast_loop-conclude max_len (length src) roomy src 0 0 [] refl (omega arith))
