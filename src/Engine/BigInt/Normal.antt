-- ===== src/Engine/BigInt/Normal.antt =====
-- `js_bigint_normalize` and `js_bigint_extend` of .backup/quickjs.c keep the value and end normal.
use cno_cli.Base.{
  ℕ, zero, suc, ◌+◌, ◌-◌, ◌/◌, ◌%◌, ◌≤◌, ◌<◌, ◌≡◌, true, false, List, [], ◌∷◌, ◌++◌, length, take,
  arith, ap, ◌∙◌, sym, refl, inl, inr, ◌⊎◌, Bool-cases, All-append,
}
use cno_cli.Base.Int.{ℤ, pos, ◌+ℤ◌, ◌*ℤ◌, eq_of_parts}
use cno_cli.Engine.BigInt.Number.{
  limb_at, redundant, js_bigint_sign, significant, js_bigint_normalize, js_bigint_extend, Allocator,
  bytes_of, js_bigint_normalize1,
}
use cno_cli.Engine.BigInt.Value.{
  IsLimb, Limbs, joined, joined-append, value, sign_part, IsNormal, Represents, Returns, GrantsAll,
  parts,
}

pub limb_at-IsLimb : (l : List ℕ) (i : ℕ) → Limbs l → IsLimb (limb_at l i)
limb_at-IsLimb [] i h = omega arith
limb_at-IsLimb (x ∷ l) zero h = h.0
limb_at-IsLimb (x ∷ l) (suc i) h = limb_at-IsLimb l i h.1

pub js_bigint_sign-le : (l : List ℕ) → Limbs l → js_bigint_sign l ≤ 1
unfolding js_bigint_sign
js_bigint_sign-le l h = omega (arith, limb_at-IsLimb l (length l - 1) h)

-- The highest limb with its sign.
unfoldable pub signed_limb : ℕ → ℤ
signed_limb x = pos x +ℤ 4294967296 *ℤ sign_part (x / 2147483648)

joined-take :
    (a : List ℕ) (l : ℕ) (h : ℤ)
    → l < length a
    → joined (take (suc l) a) h ≡ joined (take l a) (pos (limb_at a l) +ℤ 4294967296 *ℤ h)
unfolding joined
joined-take [] l h p = absurd (omega arith)
joined-take (x ∷ a) zero h p = refl
joined-take (x ∷ a) (suc l) h p =
    ap (λ t. pos x +ℤ 4294967296 *ℤ t) (joined-take a l h (omega arith))

pub limb_at-top :
    (x y : ℕ) (r : List ℕ)
    → limb_at (x ∷ y ∷ r) (length (x ∷ y ∷ r) - 1) ≡ limb_at (y ∷ r) (length (y ∷ r) - 1)
limb_at-top x y r =
    let e : suc (suc (length r)) - 1 ≡ suc (suc (length r) - 1) = omega arith in
    ap (limb_at (x ∷ y ∷ r)) e

limb_at-take :
    (a : List ℕ) (l : ℕ)
    → l < length a
    → limb_at (take (suc l) a) (length (take (suc l) a) - 1) ≡ limb_at a l
limb_at-take [] l p = absurd (omega arith)
limb_at-take (x ∷ a) zero p = refl
limb_at-take (x ∷ []) (suc l) p = absurd (omega arith)
limb_at-take (x ∷ y ∷ a) (suc l) p =
    limb_at-top x y (take l a) ∙ limb_at-take (y ∷ a) l (omega arith)

-- The value of the limbs up to l.
value-take :
    (a : List ℕ) (l : ℕ)
    → l < length a
    → value (take (suc l) a) ≡ joined (take l a) (signed_limb (limb_at a l))
unfolding value js_bigint_sign signed_limb
value-take a l p =
    ap (λ t. joined (take (suc l) a) (sign_part (t / 2147483648))) (limb_at-take a l p)
    ∙ joined-take a l (sign_part (limb_at a l / 2147483648)) p

-- What the test of the loop means.
pub redundant_value :
    (v u : ℕ)
    → IsLimb v
    → IsLimb u
    → redundant v u ≡ true
    → pos u +ℤ 4294967296 *ℤ signed_limb v ≡ signed_limb u
unfolding redundant signed_limb
redundant_value v u hv hu h =
    let small : (v ≡ 0) ⊎ (v ≡ 4294967295) = ground arith in
    let parity : v % 2 ≡ u / 2147483648 = ground arith in eq_of_parts _ _ (omega parts)

-- A limb that is not redundant stays.
IsNormal-take :
    (a : List ℕ) (l : ℕ)
    → suc l < length a
    → redundant (limb_at a (suc l)) (limb_at a l) ≡ false
    → IsNormal (take (suc (suc l)) a)
IsNormal-take [] l p h = absurd (omega arith)
IsNormal-take (x ∷ []) l p h = absurd (omega arith)
IsNormal-take (x ∷ y ∷ a) zero p h = h
IsNormal-take (x ∷ y ∷ []) (suc l) p h = absurd (omega arith)
IsNormal-take (x ∷ y ∷ z ∷ a) (suc l) p h = IsNormal-take (y ∷ z ∷ a) l (omega arith) h

Limbs-take : (n : ℕ) (a : List ℕ) → Limbs a → Limbs (take n a)
Limbs-take zero a h = tt
Limbs-take (suc n) [] h = tt
Limbs-take (suc n) (x ∷ a) h = (h.0, Limbs-take n a h.1)

IsNormal-one : (a : List ℕ) → 0 < length a → IsNormal (take 1 a)
IsNormal-one [] h = absurd (omega arith)
IsNormal-one (x ∷ a) h = tt

significant_loop :
    (a : List ℕ) (l : ℕ)
    → Limbs a
    → l < length a
    → (value (take (significant a (suc l)) a) ≡ value (take (suc l) a))
      × IsNormal (take (significant a (suc l)) a)
unfolding significant
significant_loop a zero h p = (refl, IsNormal-one a p)
significant_loop a (suc l) h p = elim (Bool-cases (redundant (limb_at a (suc l)) (limb_at a l))) [
  | inl drops ↦
      let rest = significant_loop a l h (omega arith) in
      rw drops (rest.0 ∙ sym (fewer drops), rest.1)
  | inr stays ↦ rw stays (refl, IsNormal-take a l p stays)
]
  where
    fewer :
        redundant (limb_at a (suc l)) (limb_at a l) ≡ true
        → value (take (suc (suc l)) a) ≡ value (take (suc l) a)
    fewer drops =
        value-take a (suc l) p
        ∙ joined-take a l (signed_limb (limb_at a (suc l))) (omega arith)
        ∙ ap (joined (take l a)) (
            redundant_value (limb_at a (suc l)) (limb_at a l) (limb_at-IsLimb a (suc l) h)
              (limb_at-IsLimb a l h) drops)
        ∙ sym (value-take a l (omega arith))

take-all {ℓ} : {A : Type ℓ} (a : List A) → take (length a) a ≡ a
take-all [] = refl
take-all (x ∷ a) = ap (λ t. x ∷ t) (take-all a)

pub js_bigint_normalize_lem :
    (a : List ℕ) → Limbs a → 0 < length a → Represents (js_bigint_normalize a) (value a)
unfolding js_bigint_normalize js_bigint_normalize1
js_bigint_normalize_lem [] h p = absurd (omega arith)
js_bigint_normalize_lem (x ∷ a) h p =
    let loop = significant_loop (x ∷ a) (length a) h (omega arith) in
    record {
      same_value = loop.0 ∙ ap value (take-all (x ∷ a));
      limbs = Limbs-take (significant (x ∷ a) (suc (length a))) (x ∷ a) h;
      normal = loop.1;
    }

limb_at-append : (r : List ℕ) (x : ℕ) → limb_at (r ++ x ∷ []) (length (r ++ x ∷ []) - 1) ≡ x
limb_at-append [] x = refl
limb_at-append (y ∷ []) x = refl
limb_at-append (y ∷ z ∷ r) x = limb_at-top y z (r ++ x ∷ []) ∙ limb_at-append (z ∷ r) x

pub value-append : (r : List ℕ) (x : ℕ) → value (r ++ x ∷ []) ≡ joined r (signed_limb x)
unfolding value js_bigint_sign signed_limb joined
value-append r x =
    ap (λ t. joined (r ++ x ∷ []) (sign_part (t / 2147483648))) (limb_at-append r x)
    ∙ joined-append r (x ∷ []) (sign_part (x / 2147483648))

IsNormal-append :
    (r : List ℕ) (x : ℕ)
    → 0 < length r
    → redundant x (limb_at r (length r - 1)) ≡ false
    → IsNormal (r ++ x ∷ [])
IsNormal-append [] x p h = absurd (omega arith)
IsNormal-append (y ∷ []) x p h = h
IsNormal-append (y ∷ z ∷ []) x p h = h
IsNormal-append (y ∷ z ∷ w ∷ r) x p h =
    IsNormal-append (z ∷ w ∷ r) x (omega arith) (rw (limb_at-top y z (w ∷ r)) at h)

-- A redundant limb on top changes nothing.
value-redundant :
    (r : List ℕ) (x : ℕ)
    → Limbs r
    → IsLimb x
    → 0 < length r
    → redundant x (limb_at r (length r - 1)) ≡ true
    → value r ≡ joined r (signed_limb x)
value-redundant [] x hr hx p h = absurd (omega arith)
value-redundant (y ∷ r) x hr hx p h =
    let l = length r in
    let e : suc (length r) - 1 ≡ length r = omega arith in
    let whole : take (suc (length r)) (y ∷ r) ≡ y ∷ r = take-all (y ∷ r) in
    ap value (sym whole)
    ∙ value-take (y ∷ r) (length r) (omega arith)
    ∙ ap (joined (take (length r) (y ∷ r))) (
        sym (
          redundant_value x (limb_at (y ∷ r) (length r)) hx (limb_at-IsLimb (y ∷ r) (length r) hr)
            (rw e at h)))
    ∙ sym (joined-take (y ∷ r) (length r) (signed_limb x) (omega arith))
    ∙ ap (λ t. joined t (signed_limb x)) whole

pub js_bigint_extend_lem :
    (m : Allocator) (r : List ℕ) (x : ℕ)
    → Limbs r
    → IsLimb x
    → 0 < length r
    → GrantsAll m
    → Returns (js_bigint_extend m r x) (joined r (signed_limb x))
unfolding js_bigint_extend
js_bigint_extend_lem m r x hr hx p granted =
    elim (Bool-cases (redundant x (limb_at r (length r - 1)))) [
      | inl drops ↦
          let normalized = js_bigint_normalize_lem r hr p in
          (
            js_bigint_normalize r,
            rw drops,
            record {
              same_value = normalized.same_value ∙ value-redundant r x hr hx p drops;
              limbs = normalized.limbs;
              normal = normalized.normal;
            },
          )
      | inr stays ↦ (
        r ++ x ∷ [],
        rw (stays, (granted (bytes_of (length r + 1))).1),
        record {
          same_value = value-append r x;
          limbs = All-append IsLimb r (x ∷ []) hr (hx, tt);
          normal = IsNormal-append r x p stays;
        },
      )
    ]
