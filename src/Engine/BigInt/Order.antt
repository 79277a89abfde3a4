-- ===== src/Engine/BigInt/Order.antt =====
-- `js_bigint_cmp` of .backup/quickjs.c orders normal numbers as their integers.
use cno_cli.Base.{
  ℕ, ◌+◌, ◌*◌, ◌<◌, ◌≡◌, ◌≢◌, List, [], ◌∷◌, length, arith, ap, ◌∙◌, sym, refl, inl, inr, ◌⊎◌,
  Bool-cases, if◌then◌else◌, ◌==◌, ltb,
}
use cno_cli.Base.Int.{ℤ, pos, negsuc, pos_part, neg_part, ◌+ℤ◌, ◌-ℤ◌, ◌*ℤ◌, ◌<ℤ◌, ltb_ℤ}
use cno_cli.Engine.BigInt.Number.{js_bigint_sign}
use cno_cli.Engine.BigInt.Compare.{cmp_loop, js_bigint_cmp}
use cno_cli.Engine.BigInt.Value.{IsLimb, Limbs, IsNumber, joined, value, sign_part, IsNormal, parts}
use cno_cli.Engine.BigInt.Signs.{value_sign, longer, IsNormal-IsNumber}

-- The order of two integers as -1, 0 or 1.
unfoldable pub compare_ℤ : ℤ → ℤ → ℤ
compare_ℤ u v = if ltb_ℤ u v then negsuc 0 else if ltb_ℤ v u then pos 1 else pos 0

compare-lt : (u v : ℤ) → u <ℤ v → compare_ℤ u v ≡ negsuc 0
unfolding compare_ℤ
compare-lt u v h = ground arith

compare-gt : (u v : ℤ) → v <ℤ u → compare_ℤ u v ≡ pos 1
unfolding compare_ℤ
compare-gt u v h = ground arith

compare-eq : (u v : ℤ) → pos_part u + neg_part v ≡ pos_part v + neg_part u → compare_ℤ u v ≡ pos 0
unfolding compare_ℤ
compare-eq u v h = ground arith

compare-cases :
    (u v : ℤ)
    → ((u <ℤ v) × (compare_ℤ u v ≡ negsuc 0))
      ⊎ ((v <ℤ u) × (compare_ℤ u v ≡ pos 1))
      ⊎ ((pos_part u + neg_part v ≡ pos_part v + neg_part u) × (compare_ℤ u v ≡ pos 0))
unfolding compare_ℤ
compare-cases u v = elim (Bool-cases (ltb_ℤ u v)) [
  | inl below ↦ inl (ground arith, ground arith)
  | inr not_below ↦ elim (Bool-cases (ltb_ℤ v u)) [
    | inl above ↦ inr (inl (ground arith, ground arith))
    | inr not_above ↦ inr (inr (ground arith, ground arith))
  ]
]

module _ (x y : ℕ) (u v : ℤ) (hx : IsLimb x) (hy : IsLimb y) where
  abbrev left : ℤ
  left = pos x +ℤ 4294967296 *ℤ u

  abbrev right : ℤ
  right = pos y +ℤ 4294967296 *ℤ v

  -- Where the limbs above are equal.
  limbs_decide :
      pos_part u + neg_part v ≡ pos_part v + neg_part u
      → (if x == y then pos 0 else if ltb x y then negsuc 0 else pos 1) ≡ compare_ℤ left right
  limbs_decide h = elim (compare-cases (pos x) (pos y)) [
    | inl (order, e) ↦ rw (compare-lt left right (omega parts)) (ground arith)
    | inr (inl (order, e)) ↦ rw (compare-gt left right (omega parts)) (ground arith)
    | inr (inr (order, e)) ↦ rw (compare-eq left right (omega parts)) (ground arith)
  ]

  -- One round of the loop.
  cmp_step :
      (a b : List ℕ)
      → cmp_loop a b ≡ compare_ℤ u v
      → cmp_loop (x ∷ a) (y ∷ b) ≡ compare_ℤ left right
  unfolding cmp_loop
  cmp_step a b above = elim (compare-cases u v) [
    | inl (order, e) ↦ rw (above ∙ e) (sym (compare-lt left right (omega parts)))
    | inr (inl (order, e)) ↦ rw (above ∙ e) (sym (compare-gt left right (omega parts)))
    | inr (inr (order, e)) ↦ rw (above ∙ e) (limbs_decide order)
  ]

cmp_loop_lem :
    (a b : List ℕ) (high : ℤ)
    → Limbs a
    → Limbs b
    → length a ≡ length b
    → cmp_loop a b ≡ compare_ℤ (joined a high) (joined b high)
unfolding cmp_loop joined
cmp_loop_lem [] [] high ha hb p = sym (compare-eq high high (omega arith))
cmp_loop_lem [] (y ∷ b) high ha hb p = absurd (omega arith)
cmp_loop_lem (x ∷ a) [] high ha hb p = absurd (omega arith)
cmp_loop_lem (x ∷ a) (y ∷ b) high ha hb p =
    cmp_step x y (joined a high) (joined b high) ha.0 hb.0 a b
      (cmp_loop_lem a b high ha.1 hb.1 (omega arith))

module _ (a b : List ℕ) (same : js_bigint_sign a ≡ js_bigint_sign b) where
  cmp_equal : length a ≡ length b → js_bigint_cmp a b ≡ cmp_loop a b
  unfolding js_bigint_cmp
  cmp_equal p = ground arith

  cmp_shorter : length a < length b → js_bigint_cmp a b ≡ pos (2 * js_bigint_sign a) -ℤ pos 1
  unfolding js_bigint_cmp
  cmp_shorter p = ground arith

  cmp_longer : length b < length a → js_bigint_cmp a b ≡ pos 1 -ℤ pos (2 * js_bigint_sign a)
  unfolding js_bigint_cmp
  cmp_longer p = ground arith

  cmp_ends : length a ≡ length b → Limbs a → Limbs b → cmp_loop a b ≡ compare_ℤ (value a) (value b)
  unfolding value
  cmp_ends p ha hb =
      cmp_loop_lem a b (sign_part (js_bigint_sign a)) ha hb p
      ∙ ap (λ s. compare_ℤ (value a) (joined b (sign_part s))) same

  cmp_same_sign :
      Limbs a
      → Limbs b
      → IsNormal a
      → IsNormal b
      → js_bigint_cmp a b ≡ compare_ℤ (value a) (value b)
  unfolding ◌-ℤ◌
  cmp_same_sign ha hb na nb = elim (compare-cases (pos (length a)) (pos (length b))) [
    | inl (p, _) ↦ elim (longer a b (IsNormal-IsNumber a ha na) hb nb (omega arith) same) [
      | inl (t, q) ↦
          cmp_shorter (omega arith) ∙ rw (same ∙ t) (sym (compare-lt (value a) (value b) q))
      | inr (t, q) ↦
          cmp_shorter (omega arith) ∙ rw (same ∙ t) (sym (compare-gt (value a) (value b) q))
    ]
    | inr (inl (p, _)) ↦
        elim (longer b a (IsNormal-IsNumber b hb nb) ha na (omega arith) (sym same)) [
          | inl (t, q) ↦ cmp_longer (omega arith) ∙ rw t (sym (compare-gt (value a) (value b) q))
          | inr (t, q) ↦ cmp_longer (omega arith) ∙ rw t (sym (compare-lt (value a) (value b) q))
        ]
    | inr (inr (p, _)) ↦ cmp_equal (omega arith) ∙ cmp_ends (omega arith) ha hb
  ]

-- On normal numbers js_bigint_cmp is -1, 0 or 1 as the integer of a is less than, equal to or
-- greater than that of b.
pub js_bigint_cmp_lem :
    (a b : List ℕ)
    → Limbs a
    → Limbs b
    → IsNormal a
    → IsNormal b
    → js_bigint_cmp a b ≡ compare_ℤ (value a) (value b)
unfolding js_bigint_cmp
js_bigint_cmp_lem a b ha hb na nb = elim (value_sign a (IsNormal-IsNumber a ha na)) [
  | inl (s, p) ↦ elim (value_sign b (IsNormal-IsNumber b hb nb)) [
    | inl (t, q) ↦ cmp_same_sign a b (s ∙ sym t) ha hb na nb
    | inr (t, q) ↦ rw (compare-gt (value a) (value b) (omega arith), s, t) refl
  ]
  | inr (s, p) ↦ elim (value_sign b (IsNormal-IsNumber b hb nb)) [
    | inl (t, q) ↦ rw (compare-lt (value a) (value b) (omega arith), s, t) refl
    | inr (t, q) ↦ cmp_same_sign a b (s ∙ sym t) ha hb na nb
  ]
]

cmp_loop-eq : (a b : List ℕ) → length a ≡ length b → cmp_loop a b ≡ pos 0 → a ≡ b
unfolding cmp_loop
cmp_loop-eq [] [] p h = refl
cmp_loop-eq [] (y ∷ b) p h = absurd (omega arith)
cmp_loop-eq (x ∷ a) [] p h = absurd (omega arith)
cmp_loop-eq (x ∷ a) (y ∷ b) p h = ground (arith, cmp_loop-eq a b)

same_sign :
    (a b : List ℕ)
    → IsNumber a
    → IsNumber b
    → value a ≡ value b
    → js_bigint_sign a ≡ js_bigint_sign b
same_sign a b ha hb e = elim (value_sign a ha) [
  | inl (s, p) ↦ elim (value_sign b hb) [
    | inl (t, q) ↦ s ∙ sym t
    | inr (t, q) ↦ absurd (omega (arith, ap pos_part e, ap neg_part e))
  ]
  | inr (s, p) ↦ elim (value_sign b hb) [
    | inl (t, q) ↦ absurd (omega (arith, ap pos_part e, ap neg_part e))
    | inr (t, q) ↦ s ∙ sym t
  ]
]

-- A number that is further from zero is another.
apart :
    (a b : List ℕ)
    → ((js_bigint_sign b ≡ 0) × value a <ℤ value b) ⊎ ((js_bigint_sign b ≡ 1) × value b <ℤ value a)
    → value a ≢ value b
apart a b (inl (s, p)) e = omega (arith, ap pos_part e, ap neg_part e)
apart a b (inr (s, p)) e = omega (arith, ap pos_part e, ap neg_part e)

-- Two normal numbers that stand for the same integer have the same limbs.
pub value-injective :
    (a b : List ℕ) → Limbs a → Limbs b → IsNormal a → IsNormal b → value a ≡ value b → a ≡ b
value-injective a b ha hb na nb e =
    let number_a = IsNormal-IsNumber a ha na in
    let number_b = IsNormal-IsNumber b hb nb in
    let same = same_sign a b number_a number_b e in
    elim (compare-cases (pos (length a)) (pos (length b))) [
      | inl (p, _) ↦ absurd (apart a b (longer a b number_a hb nb (omega arith) same) e)
      | inr (inl (p, _)) ↦
          absurd (apart b a (longer b a number_b ha na (omega arith) (sym same)) (sym e))
      | inr (inr (p, _)) ↦ cmp_loop-eq a b (omega arith) (
          cmp_ends a b same (omega arith) ha hb
          ∙ compare-eq (value a) (value b) (omega (arith, ap pos_part e, ap neg_part e)))
    ]
