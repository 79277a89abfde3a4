-- ===== src/Engine/MapState/Hash.antt =====
-- `hash_string`, `hash_string_rope`, `map_normalize_key`, `map_hash_key` and `js_same_value_zero` of
-- .backup/quickjs.c. `hash32`, of another source file, and the seed are parameters. The words of a
-- double and the bytes of a limb stand with the lowest first.
use cno_cli.Base.{ℕ, ◌+◌, ◌*◌, ◌/◌, ◌%◌, ◌-◌, Bool, true, false, not, ◌&&◌, if◌then◌else◌}
use cno_cli.Base.{List, [], ◌∷◌, ◌++◌, length, ◌==◌, u32, bit_xor}
use cno_cli.Base.Int.{ℤ, pos, negsuc, ltb_ℤ}
use cno_cli.Engine.BigInt.Compare.{js_bigint_cmp}
use cno_cli.Engine.BigInt.Number.{js_bigint_set_si}
use cno_cli.Engine.MapState.Numbers.{is_nan, is_zero, nan, same_bool, number_test, double_of_int}

-- A string that is not flat is a tree of flat ones, each of narrow or of wide characters.
pub data Rope : Type 0 where
  flat : Bool → List ℕ → Rope
  rope : Rope → Rope → Rope

-- A symbol and an object are their addresses; a symbol may be registered by `Symbol.for`. A double is
-- its bits, and a short BigInt its limb.
pub data Key : Type 0 where
  bool : Bool → Key
  null undefined : Key
  symbol : Bool → ℕ → Key
  object : ℕ → Key
  text : Bool → List ℕ → Key
  string_rope : Rope → Key
  int : ℤ → Key
  float64 : ℕ → Key
  short_big_int : ℕ → Key
  big_int : List ℕ → Key

unfoldable pub same_chars : List ℕ → List ℕ → Bool
same_chars [] [] = true
same_chars [] (d ∷ ds) = false
same_chars (c ∷ cs) [] = false
same_chars (c ∷ cs) (d ∷ ds) = c == d && same_chars cs ds

unfoldable pub rope_chars : Rope → List ℕ
rope_chars (flat wide cs) = cs
rope_chars (rope left right) = rope_chars left ++ rope_chars right

-- `js_bigint_cmp(...) == 0`
unfoldable pub same_big_ints : List ℕ → List ℕ → Bool
unfolding js_bigint_cmp
same_big_ints a b =
    let order = js_bigint_cmp a b in not (ltb_ℤ order (pos 0)) && not (ltb_ℤ (pos 0) order)

-- The cases of `js_strict_eq2`; `js_string_eq` and `js_string_rope_compare` compare the characters,
-- whatever their width.
unfoldable pub js_same_value_zero : Key → Key → Bool
unfolding same_bool same_chars rope_chars number_test double_of_int same_big_ints js_bigint_set_si
js_same_value_zero (bool a) (bool b) = same_bool a b
js_same_value_zero null null = true
js_same_value_zero undefined undefined = true
js_same_value_zero (symbol registered p) (symbol registered' q) = p == q
js_same_value_zero (object p) (object q) = p == q
js_same_value_zero (text wide cs) (text wide' ds) = same_chars cs ds
js_same_value_zero (text wide cs) (string_rope r) = same_chars cs (rope_chars r)
js_same_value_zero (string_rope r) (text wide ds) = same_chars (rope_chars r) ds
js_same_value_zero (string_rope r) (string_rope q) = same_chars (rope_chars r) (rope_chars q)
js_same_value_zero (int a) (int b) = number_test (double_of_int a) (double_of_int b)
js_same_value_zero (int a) (float64 y) = number_test (double_of_int a) y
js_same_value_zero (float64 x) (int b) = number_test x (double_of_int b)
js_same_value_zero (float64 x) (float64 y) = number_test x y
js_same_value_zero (short_big_int a) (short_big_int b) =
    same_big_ints (js_bigint_set_si a) (js_bigint_set_si b)
js_same_value_zero (short_big_int a) (big_int b) = same_big_ints (js_bigint_set_si a) b
js_same_value_zero (big_int a) (short_big_int b) = same_big_ints a (js_bigint_set_si b)
js_same_value_zero (big_int a) (big_int b) = same_big_ints a b
js_same_value_zero a b = false

unfoldable pub map_normalize_key : Key → Key
unfolding is_zero
map_normalize_key (float64 x) = if is_zero x then int (pos 0) else float64 x
map_normalize_key key = key

unfoldable pub hash8_loop : List ℕ → ℕ → ℕ
hash8_loop [] h = h
hash8_loop (c ∷ cs) h = hash8_loop cs (u32 (h * 263 + c))

unfoldable pub hash16_loop : List ℕ → ℕ → ℕ
hash16_loop [] h = h
hash16_loop (c ∷ cs) h = hash16_loop cs (u32 (h * 263 + c))

-- `(void *)r->tab`
unfoldable pub tab_bytes : List ℕ → List ℕ
tab_bytes [] = []
tab_bytes (x ∷ l) = x % 256 ∷ x / 256 % 256 ∷ x / 65536 % 256 ∷ x / 16777216 % 256 ∷ tab_bytes l

abbrev pub tag_string : ℕ
tag_string = 4294967289

abbrev pub tag_string_rope : ℕ
tag_string_rope = 4294967290

abbrev pub tag_float64 : ℕ
tag_float64 = 8

-- The tag that is hashed: numbers and short BigInts are hashed as doubles.
unfoldable pub tag_of : Key → ℕ
tag_of (bool b) = 1
tag_of null = 2
tag_of undefined = 3
tag_of (symbol registered p) = 4294967288
tag_of (object p) = 4294967295
tag_of (text wide cs) = tag_string
tag_of (string_rope r) = tag_string_rope
tag_of (int a) = tag_float64
tag_of (float64 x) = tag_float64
tag_of (short_big_int a) = tag_float64
tag_of (big_int l) = 4294967287

-- The label `hash_float64`.
unfoldable pub hash_float64 : ℕ → ℕ
hash_float64 bits = u32 (bit_xor (bits % 4294967296) (bits / 4294967296) * 3163)

-- The integer of a short BigInt.
unfoldable pub short_value : ℕ → ℤ
short_value a = if a / 2147483648 == 0 then pos a else negsuc (4294967295 - a)

module _ (hash32 : ℕ → ℕ) (seed : ℕ) where
  unfoldable pub hash_string8 : List ℕ → ℕ → ℕ
  unfolding hash8_loop
  hash_string8 cs h = bit_xor (hash8_loop cs h) (hash32 (length cs))

  unfoldable pub hash_string16 : List ℕ → ℕ → ℕ
  unfolding hash16_loop
  hash_string16 cs h = bit_xor (hash16_loop cs h) (hash32 (length cs))

  unfoldable pub hash_string : Bool → List ℕ → ℕ → ℕ
  unfolding hash_string8 hash_string16
  hash_string true cs h = hash_string16 cs h
  hash_string false cs h = hash_string8 cs h

  unfoldable pub hash_string_rope : Rope → ℕ → ℕ
  unfolding hash_string
  hash_string_rope (flat wide cs) h = hash_string wide cs h
  hash_string_rope (rope left right) h = hash_string_rope right (hash_string_rope left h)

  unfoldable pub hash_parts : Key → ℕ
  unfolding hash_string hash_string_rope hash_string8 hash_float64 double_of_int short_value
      tab_bytes is_nan
  hash_parts (bool true) = 1
  hash_parts (bool false) = 0
  hash_parts null = 0
  hash_parts undefined = 0
  hash_parts (symbol registered p) = u32 (p * 3163)
  hash_parts (object p) = u32 (p * 3163)
  hash_parts (text wide cs) = hash_string wide cs 0
  hash_parts (string_rope r) = hash_string_rope r 0
  hash_parts (int a) = hash_float64 (double_of_int a)
  hash_parts (float64 x) = hash_float64 (if is_nan x then nan else x)
  hash_parts (short_big_int a) = hash_float64 (double_of_int (short_value a))
  hash_parts (big_int l) = hash_string8 (tab_bytes l) 0

  unfoldable pub map_hash_key : Key → ℕ
  unfolding hash_parts tag_of
  map_hash_key key = bit_xor (bit_xor (hash_parts key) seed) (hash32 (tag_of key))

unfoldable pub is_valid_weakref_target : Key → Bool
is_valid_weakref_target (symbol registered p) = not registered
is_valid_weakref_target (object p) = true
is_valid_weakref_target _ = false
