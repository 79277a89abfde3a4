-- ===== src/Engine/MapState/Coherent.antt =====
-- Keys of .backup/quickjs.c that `js_same_value_zero` takes for the same have the same hash, once
-- `map_normalize_key` has gone over them.
use cno_cli.Base.{
  ℕ, ◌<◌, ◌≡◌, refl, sym, ap, ◌∙◌, arith, Bool, true, false, List, [], ◌∷◌, length, bit_xor,
  if◌then◌else◌, Bool-cases, inl, inr,
}
use cno_cli.Base.Int.{ℤ, pos, eq_of_parts, ltb_ℤ}
use cno_cli.Engine.BigInt.Number.{js_bigint_set_si}
use cno_cli.Engine.BigInt.Order.{js_bigint_cmp_lem, compare_ℤ, value-injective}
use cno_cli.Engine.BigInt.Value.{IsLimb, Limbs, IsNormal, value}
use cno_cli.Engine.MapState.{Keys}
use cno_cli.Engine.MapState.Numbers.{
  is_nan, is_zero, nan, number_test, number_test-cases, double_of_int, IsInt32,
  double_of_int-Converts,
}
use cno_cli.Engine.MapState.Hash.{
  Key, bool, null, undefined, symbol, object, text, string_rope, int, float64, short_big_int,
  big_int, same_chars, same_big_ints, js_same_value_zero, map_normalize_key, hash8_loop,
  hash16_loop, hash_float64, tag_float64, hash_string8, hash_string16, hash_string, hash_parts,
  map_hash_key, is_valid_weakref_target,
}

-- A value that a key can be, as the engine represents it; a string that is flat.
abbrev pub IsFlatValue : Key → Type 0
IsFlatValue (string_rope r) = ⊥
IsFlatValue (int a) = IsInt32 a
IsFlatValue (short_big_int a) = IsLimb a
IsFlatValue (big_int l) = Limbs l × IsNormal l × (1 < length l)
IsFlatValue other = Unit {0}

same_chars-eq : (cs ds : List ℕ) → same_chars cs ds ≡ true → cs ≡ ds
unfolding same_chars
same_chars-eq [] [] h = refl
same_chars-eq [] (d ∷ ds) h = absurd (cc)
same_chars-eq (c ∷ cs) [] h = absurd (cc)
same_chars-eq (c ∷ cs) (d ∷ ds) h = ground (arith, same_chars-eq cs ds)

hash16_loop-hash8_loop : (cs : List ℕ) (h : ℕ) → hash16_loop cs h ≡ hash8_loop cs h
unfolding hash16_loop hash8_loop
hash16_loop-hash8_loop [] h = refl
hash16_loop-hash8_loop (c ∷ cs) h = hash16_loop-hash8_loop cs _

same_value :
    (u v : ℤ)
    → (ltb_ℤ (compare_ℤ u v) (pos 0) ≡ false)
    → (ltb_ℤ (pos 0) (compare_ℤ u v) ≡ false)
    → u ≡ v
unfolding compare_ℤ
same_value u v lo hi = eq_of_parts u v (ground arith)

same_big_ints-eq :
    (a b : List ℕ) → Limbs a × IsNormal a → Limbs b × IsNormal b → same_big_ints a b ≡ true → a ≡ b
unfolding same_big_ints
same_big_ints-eq a b (la, na) (lb, nb) h =
    let e = js_bigint_cmp_lem a b la lb na nb in
    value-injective a b la lb na nb
      (same_value (value a) (value b) (ground (arith, e)) (ground (arith, e)))

-- The hash of a number as a double.
abbrev hash_number : ℕ → ℕ
hash_number x =
    if is_zero x
    then hash_float64 (double_of_int (pos 0))
    else hash_float64 (if is_nan x then nan else x)

nan-is_zero : (x : ℕ) → is_nan x ≡ true → is_zero x ≡ false
unfolding is_nan is_zero
nan-is_zero x h = ground arith

same_number : (x y : ℕ) → number_test x y ≡ true → hash_number x ≡ hash_number y
same_number x y h = elim (number_test-cases x y h) [
  | inl (nx, ny) ↦ rw (nan-is_zero x nx, nan-is_zero y ny, nx, ny) refl
  | inr (inl (zx, zy, _, _)) ↦ rw (zx, zy) refl
  | inr (inr e) ↦ ap (λ (n : ℕ). hash_number n) e
]

number_of_int : (a : ℤ) → IsInt32 a → hash_float64 (double_of_int a) ≡ hash_number (double_of_int a)
number_of_int a h =
    let (number, nonzero) = double_of_int-Converts a h in
    elim nonzero [
      | inr other ↦ rw (number, other) refl
      | inl none ↦ rw none (unfold is_zero double_of_int in refl)
    ]

-- Short BigInts, each of one limb.
same_short :
    (a b : ℕ)
    → IsLimb a
    → IsLimb b
    → same_big_ints (js_bigint_set_si a) (js_bigint_set_si b) ≡ true
    → a ≡ b
unfolding js_bigint_set_si
same_short a b la lb h =
    let e = same_big_ints-eq (a ∷ []) (b ∷ []) ((la, tt), tt) ((lb, tt), tt) h in ground (arith, e)

short-long :
    (a : ℕ) (l : List ℕ)
    → IsLimb a
    → Limbs l
    → IsNormal l
    → 1 < length l
    → ¬ (same_big_ints (js_bigint_set_si a) l ≡ true)
unfolding js_bigint_set_si
short-long a l la ll nl more h =
    omega
      (arith, ap (λ (t : List ℕ). length t) (same_big_ints-eq (a ∷ []) l ((la, tt), tt) (ll, nl) h))

long-short :
    (a : ℕ) (l : List ℕ)
    → IsLimb a
    → Limbs l
    → IsNormal l
    → 1 < length l
    → ¬ (same_big_ints l (js_bigint_set_si a) ≡ true)
unfolding js_bigint_set_si
long-short a l la ll nl more h =
    omega
      (arith, ap (λ (t : List ℕ). length t) (same_big_ints-eq l (a ∷ []) (ll, nl) ((la, tt), tt) h))

pub normalized-IsFlatValue : (key : Key) → IsFlatValue key → IsFlatValue (map_normalize_key key)
unfolding map_normalize_key
normalized-IsFlatValue (float64 x) v = elim (Bool-cases (is_zero x)) [
  | inl found ↦ rw found (omega arith)
  | inr other ↦ rw other tt
]
normalized-IsFlatValue (bool b) v = v
normalized-IsFlatValue null v = v
normalized-IsFlatValue undefined v = v
normalized-IsFlatValue (symbol registered p) v = v
normalized-IsFlatValue (object p) v = v
normalized-IsFlatValue (text wide cs) v = v
normalized-IsFlatValue (string_rope r) v = v
normalized-IsFlatValue (int a) v = v
normalized-IsFlatValue (short_big_int a) v = v
normalized-IsFlatValue (big_int l) v = v

module _ (hash32 : ℕ → ℕ) (seed : ℕ) where
  hash_string16-8 :
      (cs : List ℕ) (h : ℕ) → hash_string16 hash32 seed cs h ≡ hash_string8 hash32 seed cs h
  unfolding hash_string16 hash_string8
  hash_string16-8 cs h =
      ap (λ (n : ℕ). bit_xor n (hash32 (length cs))) (hash16_loop-hash8_loop cs h)

  hash_string-width :
      (wide wide' : Bool) (cs : List ℕ)
      → hash_string hash32 seed wide cs 0 ≡ hash_string hash32 seed wide' cs 0
  unfolding hash_string
  hash_string-width true true cs = refl
  hash_string-width true false cs = hash_string16-8 cs 0
  hash_string-width false true cs = sym (hash_string16-8 cs 0)
  hash_string-width false false cs = refl

  abbrev pub hashed : Key → ℕ
  hashed key = map_hash_key hash32 seed (map_normalize_key key)

  abbrev of_number : ℕ → ℕ
  of_number x = bit_xor (bit_xor (hash_number x) seed) (hash32 tag_float64)

  hashed-int : (a : ℤ) → IsInt32 a → hashed (int a) ≡ of_number (double_of_int a)
  unfolding map_hash_key map_normalize_key
  hashed-int a h = ap (λ (n : ℕ). bit_xor (bit_xor n seed) (hash32 tag_float64)) (number_of_int a h)

  hashed-float64 : (x : ℕ) → hashed (float64 x) ≡ of_number x
  unfolding map_hash_key map_normalize_key
  hashed-float64 x = elim (Bool-cases (is_zero x)) [
    | inl zero_found ↦ rw zero_found refl
    | inr other ↦ rw other refl
  ]

  numbers : (x y : ℕ) → number_test x y ≡ true → of_number x ≡ of_number y
  numbers x y h = ap (λ (n : ℕ). bit_xor (bit_xor n seed) (hash32 tag_float64)) (same_number x y h)

  -- Of two values that js_same_value_zero takes for the same, none of which is a rope, the hashes are
  -- the same once map_normalize_key has gone over them, whatever hash32 and the seed are: so for a
  -- narrow string and a wide one, an integer and a double, the two zeros, all NaN, and for BigInts.
  pub map_hash_key-same :
      (a b : Key)
      → IsFlatValue a
      → IsFlatValue b
      → js_same_value_zero a b ≡ true
      → map_hash_key hash32 seed (map_normalize_key a)
        ≡ map_hash_key hash32 seed (map_normalize_key b)
  unfolding js_same_value_zero map_normalize_key
  map_hash_key-same (bool true) (bool true) va vb h = refl
  map_hash_key-same (bool false) (bool false) va vb h = refl
  map_hash_key-same null null va vb h = refl
  map_hash_key-same undefined undefined va vb h = refl
  map_hash_key-same (symbol registered p) (symbol registered' q) va vb h =
      unfold map_hash_key hash_parts in ground arith
  map_hash_key-same (object p) (object q) va vb h =
      ap (λ (n : ℕ). map_hash_key hash32 seed (object n)) (ground arith)
  map_hash_key-same (text wide cs) (text wide' ds) va vb h =
      ap (λ (xs : List ℕ). map_hash_key hash32 seed (text wide xs)) (same_chars-eq cs ds h)
      ∙ unfold map_hash_key hash_parts in
        ap (λ (n : ℕ). bit_xor (bit_xor n seed) (hash32 4294967289))
          (hash_string-width wide wide' ds)
  map_hash_key-same (int a) (int b) va vb h =
      hashed-int a va ∙ numbers _ _ h ∙ sym (hashed-int b vb)
  map_hash_key-same (int a) (float64 y) va vb h =
      hashed-int a va ∙ numbers _ _ h ∙ sym (hashed-float64 y)
  map_hash_key-same (float64 x) (int b) va vb h =
      hashed-float64 x ∙ numbers _ _ h ∙ sym (hashed-int b vb)
  map_hash_key-same (float64 x) (float64 y) va vb h =
      hashed-float64 x ∙ numbers _ _ h ∙ sym (hashed-float64 y)
  map_hash_key-same (short_big_int a) (short_big_int b) va vb h =
      ap (λ (n : ℕ). map_hash_key hash32 seed (short_big_int n)) (same_short a b va vb h)
  map_hash_key-same (short_big_int a) (big_int b) va (lb, nb, more) h =
      absurd (short-long a b va lb nb more h)
  map_hash_key-same (big_int a) (short_big_int b) (la, na, more) vb h =
      absurd (long-short b a vb la na more h)
  map_hash_key-same (big_int a) (big_int b) (la, na, _) (lb, nb, _) h =
      ap (λ (l : List ℕ). map_hash_key hash32 seed (big_int l))
        (same_big_ints-eq a b (la, na) (lb, nb) h)
  map_hash_key-same (string_rope r) b va vb h = absurd va
  map_hash_key-same a (string_rope r) va vb h = absurd vb
  map_hash_key-same a b va vb h = absurd (cc)

  -- The values as the keys of a table. The table hashes keys that map_normalize_key has gone over; to
  -- go over them again changes nothing.
  abbrev pub value_keys : Keys
  value_keys = record {
    Key = (key : Key) × IsFlatValue key;
    hash = λ k. hashed k.0;
    same = λ a b. js_same_value_zero a.0 b.0;
    normalize = λ k. (map_normalize_key k.0, normalized-IsFlatValue k.0 k.1);
    weak_target = λ k. is_valid_weakref_target k.0;
  }
