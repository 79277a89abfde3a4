-- ===== src/Engine/BigInt/Number.antt =====
-- `JSBigInt` of .backup/quickjs.c: its allocation, its sign and its normal form.
use cno_cli.Base.{
  ℕ, zero, suc, ◌+◌, ◌-◌, ◌*◌, ◌/◌, ◌%◌, Bool, not, ◌&&◌, ◌||◌, List, [], ◌∷◌, ◌++◌, leb, ◌==◌,
  if◌then◌else◌, length, take,
}
use cno_cli.Engine.BigInt.Limbs.{limb_base}

-- Which requests `js_malloc` and `js_realloc` grant, by their size in bytes.
pub record Allocator : Type 0 where
  pub malloc : ℕ → Bool
  pub realloc : ℕ → Bool

pub data BigIntError : Type 0 where
  too_large_to_allocate out_of_memory division_by_zero negative_exponent too_large : BigIntError

pub data BigIntResult {ℓ} (A : Type ℓ) : Type ℓ where
  ok : A → BigIntResult A
  throws : BigIntError → BigIntResult A

infixl 5 ◌>>◌ ◌>>=◌
abbrev pub ◌>>=◌ {ℓ κ} :
    {A : Type ℓ} {B : Type κ} → BigIntResult A → (A → BigIntResult B) → BigIntResult B
ok a >>= next = next a
throws e >>= next = throws e

abbrev pub ◌>>◌ {ℓ} : {B : Type ℓ} → BigIntResult (Unit {0}) → BigIntResult B → BigIntResult B
m >> next = m >>= λ _. next

-- `JS_BIGINT_MAX_SIZE`
abbrev pub bigint_max_size : ℕ
bigint_max_size = 32768

-- `tab[i]`
abbrev pub limb_at : List ℕ → ℕ → ℕ
limb_at [] i = 0
limb_at (x ∷ xs) zero = x
limb_at (x ∷ xs) (suc i) = limb_at xs i

-- `sizeof(JSBigInt) + len * sizeof(js_limb_t)`
abbrev pub bytes_of : ℕ → ℕ
bytes_of len = 4 + 4 * len

-- What `js_bigint_new` checks; the limbs that its callers write follow.
unfoldable pub js_bigint_new : Allocator → ℕ → BigIntResult (Unit {0})
js_bigint_new m len =
    if leb len bigint_max_size
    then (if m.malloc (bytes_of len) then ok tt else throws out_of_memory)
    else throws too_large_to_allocate

-- The limbs of an `int32_t`, given by its bits.
unfoldable pub js_bigint_set_si : ℕ → List ℕ
js_bigint_set_si a = a ∷ []

unfoldable pub js_bigint_new_si : Allocator → ℕ → BigIntResult (List ℕ)
unfolding js_bigint_new
js_bigint_new_si m a = do js_bigint_new m 1; ok (a ∷ [])

-- Whether the limb v says no more than the sign of the limb u below it.
unfoldable pub redundant : ℕ → ℕ → Bool
redundant v u = (v == 0 || v == limb_base - 1) && v % 2 == u / 2147483648

-- How many limbs the loop of `js_bigint_normalize1` leaves.
unfoldable pub significant : List ℕ → ℕ → ℕ
unfolding redundant
significant a zero = zero
significant a (suc zero) = suc zero
significant a (suc (suc l)) =
    let fewer = significant a (suc l) in
    if redundant (limb_at a (suc l)) (limb_at a l) then fewer else suc (suc l)

unfoldable pub js_bigint_normalize1 : List ℕ → ℕ → List ℕ
unfolding significant
js_bigint_normalize1 a l = take (significant a l) a

unfoldable pub js_bigint_normalize : List ℕ → List ℕ
unfolding js_bigint_normalize1
js_bigint_normalize a = js_bigint_normalize1 a (length a)

unfoldable pub js_bigint_sign : List ℕ → ℕ
js_bigint_sign a = limb_at a (length a - 1) / 2147483648

-- The bits of an `int32_t`.
unfoldable pub js_bigint_get_si_sat : List ℕ → ℕ
unfolding js_bigint_sign
js_bigint_get_si_sat a =
    if length a == 1 then limb_at a 0 else if js_bigint_sign a == 0 then 2147483647 else 2147483648

unfoldable pub js_bigint_extend : Allocator → List ℕ → ℕ → BigIntResult (List ℕ)
unfolding redundant js_bigint_normalize
js_bigint_extend m r op1 =
    let n2 = length r in
    if not (redundant op1 (limb_at r (n2 - 1)))
    then (if m.realloc (bytes_of (n2 + 1)) then ok (r ++ op1 ∷ []) else throws out_of_memory)
    else ok (js_bigint_normalize r)
