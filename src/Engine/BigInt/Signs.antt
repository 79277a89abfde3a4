-- ===== src/Engine/BigInt/Signs.antt =====
-- The sign bit and the length of a number of .backup/quickjs.c, and the size of its integer.
use cno_cli.Base.{
  ℕ, zero, suc, ◌/◌, ◌≤◌, ◌<◌, ◌≡◌, false, List, [], ◌∷◌, length, arith, ap, ◌∙◌, sym, refl, inl,
  inr, ◌⊎◌,
}
use cno_cli.Base.Int.{pos, negsuc, ◌+ℤ◌, ◌*ℤ◌, ◌≤ℤ◌, ◌<ℤ◌}
use cno_cli.Engine.BigInt.Number.{js_bigint_sign, redundant}
use cno_cli.Engine.BigInt.Normal.{limb_at-top}
use cno_cli.Engine.BigInt.Value.{IsLimb, Limbs, IsNumber, joined, value, sign_part, IsNormal, parts}

pub js_bigint_sign-cons :
    (x y : ℕ) (r : List ℕ) → js_bigint_sign (x ∷ y ∷ r) ≡ js_bigint_sign (y ∷ r)
unfolding js_bigint_sign
js_bigint_sign-cons x y r = ap (λ t. t / 2147483648) (limb_at-top x y r)

pub value-cons : (x y : ℕ) (r : List ℕ) → value (x ∷ y ∷ r) ≡ pos x +ℤ 4294967296 *ℤ value (y ∷ r)
unfolding value joined
value-cons x y r =
    ap (λ s. pos x +ℤ 4294967296 *ℤ joined (y ∷ r) (sign_part s)) (js_bigint_sign-cons x y r)

pub value-one :
    (x : ℕ) → value (x ∷ []) ≡ pos x +ℤ 4294967296 *ℤ sign_part (js_bigint_sign (x ∷ []))
unfolding value joined
value-one x = refl

one_bit : (s : ℕ) → s ≤ 1 → (s ≡ 0) ⊎ (s ≡ 1)
one_bit zero h = inl refl
one_bit (suc zero) h = inr refl
one_bit (suc (suc s)) h = absurd (omega arith)

-- The sign of the number is the sign of its integer.
pub value_sign :
    (l : List ℕ)
    → IsNumber l
    → ((js_bigint_sign l ≡ 0) × pos 0 ≤ℤ value l) ⊎ ((js_bigint_sign l ≡ 1) × value l <ℤ pos 0)
unfolding js_bigint_sign
value_sign [] (h, p) = absurd (omega arith)
value_sign (x ∷ []) (h, p) = elim (one_bit (x / 2147483648) (omega arith)) [
  | inl s ↦ inl (s, rw (value-one x) (omega (parts, s)))
  | inr s ↦ inr (s, rw (value-one x) (omega (parts, s)))
]
value_sign (x ∷ y ∷ r) (h, p) = elim (value_sign (y ∷ r) (h.1, omega arith)) [
  | inl (s, v) ↦ inl (js_bigint_sign-cons x y r ∙ s, rw (value-cons x y r) (omega parts))
  | inr (s, v) ↦ inr (js_bigint_sign-cons x y r ∙ s, rw (value-cons x y r) (omega parts))
]

-- A limb that is not redundant, by its sign bit.
kept_limb :
    (v u : ℕ)
    → IsLimb v
    → IsLimb u
    → redundant v u ≡ false
    → ((0 < v) ⊎ (2147483648 ≤ u)) × ((v < 4294967295) ⊎ (u < 2147483648))
unfolding redundant
kept_limb v u hv hu h = (ground arith, ground arith)

-- A normal number of two limbs or more does not fit in one.
beyond_one_limb :
    (x y : ℕ) (r : List ℕ)
    → Limbs (x ∷ y ∷ r)
    → IsNormal (x ∷ y ∷ r)
    → ((js_bigint_sign (y ∷ r) ≡ 0) × pos 2147483648 ≤ℤ value (x ∷ y ∷ r))
      ⊎ ((js_bigint_sign (y ∷ r) ≡ 1) × value (x ∷ y ∷ r) <ℤ negsuc 2147483647)
unfolding js_bigint_sign
beyond_one_limb x y [] h n =
    let kept = kept_limb y x h.1.0 h.0 n in
    elim (one_bit (y / 2147483648) (omega arith)) [
      | inl s ↦ inl (s, rw (value-cons x y [], value-one y) (omega (parts, s, kept.0)))
      | inr s ↦ inr (s, rw (value-cons x y [], value-one y) (omega (parts, s, kept.1)))
    ]
beyond_one_limb x y (z ∷ r) h n = elim (beyond_one_limb y z r h.1 n) [
  | inl (s, v) ↦ inl (js_bigint_sign-cons y z r ∙ s, rw (value-cons x y (z ∷ r)) (omega parts))
  | inr (s, v) ↦ inr (js_bigint_sign-cons y z r ∙ s, rw (value-cons x y (z ∷ r)) (omega parts))
]

-- Of two numbers of one sign the longer one, if normal, is further from zero.
pub longer :
    (a b : List ℕ)
    → IsNumber a
    → Limbs b
    → IsNormal b
    → length a < length b
    → js_bigint_sign a ≡ js_bigint_sign b
    → ((js_bigint_sign b ≡ 0) × value a <ℤ value b) ⊎ ((js_bigint_sign b ≡ 1) × value b <ℤ value a)
unfolding js_bigint_sign
longer [] b ha hb n p s = absurd (omega arith)
longer (x ∷ a) [] ha hb n p s = absurd (omega arith)
longer (x ∷ a) (y ∷ []) ha hb n p s = absurd (omega arith)
longer (x ∷ []) (y ∷ z ∷ b) ha hb n p s = elim (beyond_one_limb y z b hb n) [
  | inl (t, v) ↦ inl (
    js_bigint_sign-cons y z b ∙ t,
    rw (value-one x) (omega (parts, js_bigint_sign-cons y z b, ha.0.0)),
  )
  | inr (t, v) ↦ inr (
    js_bigint_sign-cons y z b ∙ t,
    rw (value-one x) (omega (parts, js_bigint_sign-cons y z b, ha.0.0)),
  )
]
longer (x ∷ w ∷ a) (y ∷ z ∷ []) ha hb n p s = absurd (omega arith)
longer (x ∷ w ∷ a) (y ∷ z ∷ v ∷ b) ha hb n p s =
    elim (longer (w ∷ a) (z ∷ v ∷ b) (ha.0.1, omega arith) hb.1 n (omega arith)
      (sym (js_bigint_sign-cons x w a) ∙ s ∙ js_bigint_sign-cons y z (v ∷ b))) [
        | inl (t, q) ↦ inl (
          js_bigint_sign-cons y z (v ∷ b) ∙ t,
          rw (value-cons x w a, value-cons y z (v ∷ b)) (omega parts),
        )
        | inr (t, q) ↦ inr (
          js_bigint_sign-cons y z (v ∷ b) ∙ t,
          rw (value-cons x w a, value-cons y z (v ∷ b)) (omega parts),
        )
      ]

pub IsNormal-IsNumber : (l : List ℕ) → Limbs l → IsNormal l → IsNumber l
IsNormal-IsNumber [] h n = absurd n
IsNormal-IsNumber (x ∷ l) h n = (h, omega arith)
