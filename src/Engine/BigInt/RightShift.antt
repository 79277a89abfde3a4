-- ===== src/Engine/BigInt/RightShift.antt =====
-- `js_bigint_shr` of .backup/quickjs.c divides by a power of two and rounds down.
use cno_cli.Base.{
  ℕ, ◌*◌, ◌-◌, ◌/◌, ◌%◌, ◌^◌, ◌≤◌, ◌<◌, ◌≡◌, true, false, List, [], ◌∷◌, length, arith, ap, ◌∙◌,
  sym, refl, inl, inr, Bool-cases, ◌==◌, leb, drop, length-drop,
}
use cno_cli.Base.Int.{ℤ, pos, ◌+ℤ◌, ◌*ℤ◌, eq_of_parts}
use cno_cli.Engine.BigInt.Limbs.{shr_loop, js_mp_shr, limb_neg}
use cno_cli.Engine.BigInt.Number.{
  Allocator, bigint_max_size, js_bigint_sign, js_bigint_new_si, js_bigint_normalize,
}
use cno_cli.Engine.BigInt.Arith.{js_bigint_shr}
use cno_cli.Engine.BigInt.Halves.{pow_pos, pow_split}
use cno_cli.Engine.BigInt.Normal.{js_bigint_sign-le, js_bigint_normalize_lem}
use cno_cli.Engine.BigInt.Value.{
  Limbs, joined, value, sign_part, IsNormal, parts, GrantsAll, Returns, js_bigint_new_lem,
}
use native.Mathlib.Nat.{mod-lt}
use cno_cli.Engine.BigInt.RightLoop.{shr_loop_lem, length-shr_loop, taken_sign, sign-shr_all}
use cno_cli.Engine.BigInt.Dropped.{
  Divides, Divides-trans, sign-Divides, drop-Divides, dropped, sign_number, drop_all,
}

-- What the theorem promises.
abbrev Quotient : Allocator → List ℕ → ℕ → Type 0
Quotient m a n = (w : ℤ) × Returns (js_bigint_shr m a n) w × Divides (value a) (2 ^ n) w

module _ (m : Allocator) (granted : GrantsAll m) (a : List ℕ) (n : ℕ) (limbs : Limbs a)
    (normal : IsNormal a) (short : length a ≤ bigint_max_size) where
  shr_split :
      (w : ℤ)
      → Divides (joined (drop (n / 32) a) (sign_part (js_bigint_sign a))) (2 ^ (n % 32)) w
      → Divides (value a) (2 ^ n) w
  unfolding value
  shr_split w divides = rw (pow_split n) (
      Divides-trans _ _ w (2 ^ (32 * (n / 32))) (2 ^ (n % 32))
        (drop-Divides (n / 32) a (js_bigint_sign a) limbs) divides)

  shr_all : length a ≤ n / 32 → Quotient m a n
  unfolding js_bigint_shr js_bigint_new_si joined
  shr_all h =
      let s = js_bigint_sign a in
      let all : leb (length a) (n / 32) ≡ true = ground arith in
      (
        sign_part s,
        (
          limb_neg s ∷ [],
          rw (all, js_bigint_new_lem m 1 granted (omega arith)) refl,
          sign_number s (js_bigint_sign-le a limbs),
        ),
        shr_split (sign_part s)
            (rw (drop_all (n / 32) a h) (sign-Divides s (2 ^ (n % 32)) (pow_pos (n % 32)))),
      )

  module _ (some : n / 32 < length a) where
    shr_limbs : n % 32 ≡ 0 → Quotient m a n
    unfolding js_bigint_shr value
    shr_limbs whole =
        let (rest_limbs, rest_normal, same) = dropped (n / 32) a limbs normal some in
        let more : leb (length a) (n / 32) ≡ false = ground arith in
        (
          value (drop (n / 32) a),
          (
            drop (n / 32) a,
            rw (more, js_bigint_new_lem m (length a - n / 32) granted (omega arith), whole) refl,
            record { same_value = refl; limbs = rest_limbs; normal = rest_normal },
          ),
          shr_split _
              (0, pow_pos (n % 32), rw (whole, value, same) (eq_of_parts _ _ (omega parts))),
        )

    shr_bits : 0 < n % 32 → Quotient m a n
    unfolding js_bigint_shr js_mp_shr value
    shr_bits bits =
        let s = js_bigint_sign a in
        let (rest_limbs, rest_normal, same) = dropped (n / 32) a limbs normal some in
        let more : leb (length a) (n / 32) ≡ false = ground arith in
        let not_whole : (n % 32 == 0) ≡ false = ground arith in
        let shifted = (shr_loop (drop (n / 32) a) (n % 32) (limb_neg s)).0 in
        let loop =
          shr_loop_lem (n % 32) (omega arith) (drop (n / 32) a) (limb_neg s) (sign_part s)
            rest_limbs (taken_sign (n % 32) s (omega arith) (js_bigint_sign-le a limbs)) in
        let low = (shr_loop (drop (n / 32) a) (n % 32) (limb_neg s)).1 % 2 ^ (n % 32) in
        let signed =
          sign-shr_all (n % 32) s (drop (n / 32) a) bits (omega arith) rest_limbs
            (omega (arith, length-drop (n / 32) a)) same in
        let normalized = js_bigint_normalize_lem shifted loop.1 (
          omega (
            arith,
            length-shr_loop (n % 32) (omega arith) (drop (n / 32) a) (limb_neg s),
            length-drop (n / 32) a,
          )) in
        (
          value shifted,
          (
            js_bigint_normalize shifted,
            rw (more, js_bigint_new_lem m (length a - n / 32) granted (omega arith), not_whole)
                refl,
            normalized,
          ),
          shr_split (value shifted) (
            low,
            mod-lt _ (pow_pos (n % 32)),
            sym loop.0
                ∙ ap (λ t. 2 ^ (n % 32) *ℤ joined shifted (sign_part t) +ℤ pos low) (sym signed),
          ),
        )

-- On a normal number of at most JS_BIGINT_MAX_SIZE limbs and with memory granted, js_bigint_shr
-- returns the integer divided by 2 ^ n and rounded down, as a normal number: the integer is 2 ^ n
-- times the result and a rest below 2 ^ n.
pub js_bigint_shr_lem :
    (m : Allocator) (a : List ℕ) (n : ℕ)
    → GrantsAll m
    → Limbs a
    → IsNormal a
    → length a ≤ bigint_max_size
    → (w : ℤ) × Returns (js_bigint_shr m a n) w × Divides (value a) (2 ^ n) w
js_bigint_shr_lem m a n granted limbs normal short = elim (Bool-cases (leb (length a) (n / 32))) [
  | inl all ↦ shr_all m granted a n limbs normal short (ground arith)
  | inr more ↦ elim (Bool-cases (n % 32 == 0)) [
    | inl whole ↦ shr_limbs m granted a n limbs normal short (ground arith) (ground arith)
    | inr bits ↦ shr_bits m granted a n limbs normal short (ground arith) (ground arith)
  ]
]
