-- ===== src/Engine/BigInt/Value.antt =====
-- What the limbs of .backup/quickjs.c stand for, and what it means that they are normal.
use cno_cli.Base.{
  ℕ, zero, suc, ◌+◌, ◌*◌, ◌-◌, ◌/◌, ◌≤◌, ◌<◌, ◌≡◌, false, true, List, [], ◌∷◌, ◌++◌, length, take,
  All, arith, ap, refl, ◌∙◌, min, map,
}
use cno_cli.Base.Int.{
  ℤ, pos, negsuc, pos_part, neg_part, ◌+ℤ◌, ◌*ℤ◌, +ℤ_parts, -ℤ_parts, *ℤ_parts, ◌-ℤ◌, eq_of_parts,
}
use cno_cli.Engine.BigInt.Number.{
  Allocator, bigint_max_size, bytes_of, js_bigint_new, BigIntResult, ok, redundant, js_bigint_sign,
}

abbrev pub IsLimb : ℕ → Type 0
IsLimb x = x < 4294967296

abbrev pub Limbs : List ℕ → Type 0
Limbs l = All IsLimb l

-- The integer of the limbs l below a high part: l + high * B ^ (length l).
unfoldable pub joined : List ℕ → ℤ → ℤ
joined [] high = high
joined (x ∷ xs) high = pos x +ℤ 4294967296 *ℤ joined xs high

-- The sign bit read as the integer of the limbs that are not there: 0 or -1.
abbrev pub sign_part : ℕ → ℤ
sign_part zero = pos 0
sign_part (suc _) = negsuc 0

-- Two's complement.
unfoldable pub value : List ℕ → ℤ
unfolding joined
value l = joined l (sign_part (js_bigint_sign l))

-- Limbs of 32 bits, at least one of them.
abbrev pub IsNumber : List ℕ → Type 0
IsNumber l = Limbs l × (0 < length l)

-- At least one limb, and the highest says more than the sign of the limb below it.
abbrev pub IsNormal : List ℕ → Type 0
IsNormal [] = ⊥
IsNormal (x ∷ []) = Unit {0}
IsNormal (x ∷ y ∷ []) = redundant y x ≡ false
IsNormal (x ∷ y ∷ z ∷ rest) = IsNormal (y ∷ z ∷ rest)

pub joined-append :
    (xs ys : List ℕ) (high : ℤ) → joined (xs ++ ys) high ≡ joined xs (joined ys high)
unfolding joined
joined-append [] ys high = refl
joined-append (x ∷ xs) ys high = ap (λ t. pos x +ℤ 4294967296 *ℤ t) (joined-append xs ys high)

pub sign_part_parts : (s : ℕ) → (pos_part (sign_part s) ≡ 0) × (neg_part (sign_part s) ≡ min s 1)
sign_part_parts zero = (refl, refl)
sign_part_parts (suc s) = (refl, omega arith)

pub ruleset parts = (arith, +ℤ_parts, -ℤ_parts, *ℤ_parts, sign_part_parts)

-- A normal number that stands for v.
pub record Represents (r : List ℕ) (v : ℤ) : Type 0 where
  pub same_value : value r ≡ v
  pub limbs : Limbs r
  pub normal : IsNormal r

-- Every request is granted.
abbrev pub GrantsAll : Allocator → Type 0
GrantsAll m = (bytes : ℕ) → (m.malloc bytes ≡ true) × (m.realloc bytes ≡ true)

-- The call returns a normal number that stands for v.
abbrev pub Returns : BigIntResult (List ℕ) → ℤ → Type 0
Returns result v = (r : List ℕ) × (result ≡ ok r) × Represents r v

pub Returns-eq :
    {result : BigIntResult (List ℕ)} {v w : ℤ} → Returns result v → v ≡ w → Returns result w
Returns-eq (r, e, represents) same = (
  r,
  e,
  record {
    same_value = represents.same_value ∙ same;
    limbs = represents.limbs;
    normal = represents.normal;
  },
)

pub js_bigint_new_lem :
    (m : Allocator) (len : ℕ) → GrantsAll m → len ≤ bigint_max_size → js_bigint_new m len ≡ ok tt
unfolding js_bigint_new
js_bigint_new_lem m len granted h = ground (arith, (granted (bytes_of len)).0)

-- The limbs one by one.
pub joined-complement :
    (f : ℕ → ℕ) (l : List ℕ) (high : ℤ)
    → ((x : ℕ) → IsLimb x → f x ≡ 4294967295 - x)
    → Limbs l
    → joined (map f l) (negsuc 0 -ℤ high) ≡ negsuc 0 -ℤ joined l high
unfolding joined
joined-complement f [] high flips h = refl
joined-complement f (x ∷ l) high flips h =
    rw (joined-complement f l high flips h.1, flips x h.0) (eq_of_parts _ _ (omega parts))
