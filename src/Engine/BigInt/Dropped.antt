-- ===== src/Engine/BigInt/Dropped.antt =====
-- The whole limbs that `js_bigint_shr` of .backup/quickjs.c leaves out.
use cno_cli.Base.{
  ℕ, zero, suc, ◌+◌, ◌*◌, ◌-◌, ◌^◌, ◌≤◌, ◌<◌, ◌≡◌, List, [], ◌∷◌, length, arith, ap, ◌∙◌, sym, refl,
  drop,
}
use cno_cli.Base.Int.{ℤ, pos, ◌+ℤ◌, ◌*ℤ◌, eq_of_parts, *ℤ_add, *ℤ_assoc, *ℤ_pos}
use cno_cli.Base.Bits.{pow_add}
use cno_cli.Engine.BigInt.Limbs.{limb_neg}
use cno_cli.Engine.BigInt.Number.{js_bigint_sign}
use cno_cli.Engine.BigInt.Halves.{pow_pos}
use cno_cli.Engine.BigInt.Signs.{js_bigint_sign-cons}
use cno_cli.Engine.BigInt.Value.{Limbs, joined, value, sign_part, IsNormal, parts, Represents}
use native.Mathlib.Nat.{mul-le-mul_left}

-- v is w times k and a rest below k.
abbrev pub Divides : ℤ → ℕ → ℤ → Type 0
Divides v k w = (rest : ℕ) × (rest < k) × (v ≡ k *ℤ w +ℤ pos rest)

pub Divides-trans : (v u w : ℤ) (j k : ℕ) → Divides v j u → Divides u k w → Divides v (j * k) w
Divides-trans v u w j k (low, low_lt, e) (high, high_lt, f) = (
  j * high + low,
  omega (arith, mul-le-mul_left {m = suc high} {n = k} j high_lt),
  e
      ∙ rw (f, *ℤ_add j (k *ℤ w) (pos high), *ℤ_pos j high, ← *ℤ_assoc j k w)
          (eq_of_parts _ _ (omega parts)),
)

pub sign-Divides : (s k : ℕ) → 0 < k → Divides (sign_part s) k (sign_part s)
sign-Divides zero k h = (0, h, eq_of_parts _ _ (omega parts))
sign-Divides (suc s) k h = (k - 1, omega arith, eq_of_parts _ _ (omega parts))

-- The limbs below d are the rest of a division.
pub drop-Divides :
    (d : ℕ) (a : List ℕ) (s : ℕ)
    → Limbs a
    → Divides (joined a (sign_part s)) (2 ^ (32 * d)) (joined (drop d a) (sign_part s))
unfolding joined
drop-Divides zero a s h = (0, omega arith, eq_of_parts _ _ (omega parts))
drop-Divides (suc d) [] s h = sign-Divides s (2 ^ (32 * suc d)) (pow_pos (32 * suc d))
drop-Divides (suc d) (x ∷ a) s h =
    let e : 32 * suc d ≡ 32 + 32 * d = omega arith in
    let one : Divides (pos x +ℤ 4294967296 *ℤ joined a (sign_part s)) 4294967296
        (joined a (sign_part s)) =
      (x, h.0, eq_of_parts _ _ (omega parts)) in
    rw (ap (λ n. 2 ^ n) e ∙ pow_add 32 (32 * d)) (
      Divides-trans _ (joined a (sign_part s)) _ 4294967296 (2 ^ (32 * d)) one
        (drop-Divides d a s h.1))

IsNormal-tail : (x y : ℕ) (r : List ℕ) → IsNormal (x ∷ y ∷ r) → IsNormal (y ∷ r)
IsNormal-tail x y [] n = tt
IsNormal-tail x y (z ∷ r) n = n

pub dropped :
    (d : ℕ) (a : List ℕ)
    → Limbs a
    → IsNormal a
    → d < length a
    → Limbs (drop d a) × IsNormal (drop d a) × (js_bigint_sign (drop d a) ≡ js_bigint_sign a)
dropped d [] h n p = absurd (omega arith)
dropped zero (x ∷ a) h n p = (h, n, refl)
dropped (suc d) (x ∷ []) h n p = absurd (omega arith)
dropped (suc d) (x ∷ y ∷ a) h n p =
    let rest = dropped d (y ∷ a) h.1 (IsNormal-tail x y a n) (omega arith) in
    (rest.0, rest.1, rest.2 ∙ sym (js_bigint_sign-cons x y a))

pub sign_number : (s : ℕ) → s ≤ 1 → Represents (limb_neg s ∷ []) (sign_part s)
unfolding value joined js_bigint_sign
sign_number s h = record {
  same_value = eq_of_parts _ _ (omega parts);
  limbs = (omega arith, tt);
  normal = tt;
}

pub drop_all : (d : ℕ) (a : List ℕ) → length a ≤ d → drop d a ≡ []
drop_all zero [] h = refl
drop_all (suc d) [] h = refl
drop_all zero (x ∷ a) h = absurd (omega arith)
drop_all (suc d) (x ∷ a) h = drop_all d a (omega arith)
