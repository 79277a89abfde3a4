-- ===== src/Engine/Base64/Tables.antt =====
-- The tables `b64_enc`, `b64url_enc`, `b64_val`, `b64_flags` and `b64_flags_url` of
-- .backup/quickjs.c.
use Prim.Native.String.{String}
use Prim.Native.Char.{code}
use cno_cli.Base.{ℕ, zero, suc, ◌+◌, ◌-◌, ◌<◌, ◌≡◌, refl, ◌⊎◌, arith}
use cno_cli.Base.{Bool, true, not, ◌&&◌, ◌||◌, List, [], ◌∷◌, ltb, leb, ◌==◌}
use cno_cli.Base.{if◌then◌else◌, bit_and, ◌%◌}
use cno_cli.Base.Bits.{bit_and-one, bit_and-even}

pub data Alphabet : Type 0 where
  base64 base64url : Alphabet

abbrev pub IsByte : ℕ → Type 0
IsByte b = b < 256

abbrev pub codes : String → List ℕ
codes String.[] = []
codes (String.◌∷◌ c s) = code c ∷ codes s

abbrev b64_enc : List ℕ
b64_enc = codes "ABCDEFGHIJKLMNOPQRSTUVWXYZabcdefghijklmnopqrstuvwxyz0123456789+/"

abbrev b64url_enc : List ℕ
b64url_enc = codes "ABCDEFGHIJKLMNOPQRSTUVWXYZabcdefghijklmnopqrstuvwxyz0123456789-_"

nth : List ℕ → ℕ → ℕ
nth [] i = 0
nth (c ∷ cs) zero = c
nth (c ∷ cs) (suc i) = nth cs i

-- `alpha[i]`; the code masks every index to six bits.
unfoldable pub enc : Alphabet → ℕ → ℕ
unfolding nth
enc base64 i = nth b64_enc i
enc base64url i = nth b64url_enc i

between : ℕ → ℕ → ℕ → Bool
between lo hi ch = leb lo ch && leb ch hi

-- A designated initializer sets every other entry to 0.
unfoldable pub b64_val : ℕ → ℕ
unfolding between
b64_val ch =
    if between b'A' b'Z' ch
    then ch - 65
    else if between b'a' b'z' ch
    then ch - 71
    else if between b'0' b'9' ch
    then ch + 4
    else if ch == b'+' || ch == b'-'
    then 62
    else if ch == b'/' || ch == b'_'
    then 63
    else 0

abbrev pub k_val : ℕ
k_val = 1

abbrev pub k_ws : ℕ
k_ws = 2

is_space : ℕ → Bool
is_space ch = ch == 32 || ch == 9 || ch == 10 || ch == 12 || ch == 13

is_alnum : ℕ → Bool
unfolding between
is_alnum ch = between b'A' b'Z' ch || between b'a' b'z' ch || between b'0' b'9' ch

is_last_pair : Alphabet → ℕ → Bool
is_last_pair base64 ch = ch == b'+' || ch == b'/'
is_last_pair base64url ch = ch == b'-' || ch == b'_'

unfoldable pub flags : Alphabet → ℕ → ℕ
unfolding is_space is_alnum is_last_pair
flags alpha ch =
    if is_space ch then k_ws else if is_alnum ch || is_last_pair alpha ch then k_val else 0

-- `f & bit`, as a condition.
unfoldable pub has : ℕ → ℕ → Bool
has f bit = not (bit_and f bit == 0)

pub flags-cases :
    (alpha : Alphabet) (ch : ℕ)
    → (flags alpha ch ≡ 0) ⊎ ((flags alpha ch ≡ 1) ⊎ (flags alpha ch ≡ 2))
unfolding flags
flags-cases alpha ch = ground arith

all_below : ℕ → (ℕ → Bool) → Bool
all_below zero p = true
all_below (suc n) p = p n && all_below n p

all_below→eq : (n : ℕ) (p : ℕ → Bool) (x : ℕ) → all_below n p ≡ true → x < n → p x ≡ true
unfolding all_below
all_below→eq zero p x h lt = absurd (omega arith)
all_below→eq (suc n) p x h lt = ground (arith, all_below→eq n p x)

inverse_at : Alphabet → ℕ → Bool
unfolding enc flags b64_val
inverse_at alpha i =
    flags alpha (enc alpha i) == 1 && b64_val (enc alpha i) == i && ltb (enc alpha i) 128

inverse_below : (alpha : Alphabet) → all_below 64 (inverse_at alpha) ≡ true
unfolding all_below inverse_at
inverse_below base64 = refl
inverse_below base64url = refl

three_tests : (f v c i : ℕ) → (f == 1 && v == i && ltb c 128) ≡ true → (f ≡ 1) × (v ≡ i) × (c < 128)
three_tests f v c i h = ground arith

-- Each character of an alphabet is flagged as a value, and `b64_val` gives back its place.
pub enc_inverse :
    (alpha : Alphabet) (i : ℕ)
    → i < 64
    → (flags alpha (enc alpha i) ≡ 1) × (b64_val (enc alpha i) ≡ i) × (enc alpha i < 128)
unfolding inverse_at
enc_inverse alpha i h =
    three_tests (flags alpha (enc alpha i)) (b64_val (enc alpha i)) (enc alpha i) i
      (all_below→eq 64 (inverse_at alpha) i (inverse_below alpha) h)

pub b64_val-lt : (ch : ℕ) → b64_val ch < 64
unfolding b64_val
b64_val-lt ch = ground arith

-- The sign `=` and white space are no values.
pub flags_pad : (alpha : Alphabet) → flags alpha b'=' ≡ 0
unfolding flags
flags_pad base64 = refl
flags_pad base64url = refl

one_of_three : (f : ℕ) → (f ≡ 0) ⊎ ((f ≡ 1) ⊎ (f ≡ 2)) → f % 2 ≡ 1 → f ≡ 1
one_of_three f cases odd = omega arith

-- Where the conjunction of four flags has the bit `k_val`, each of them is `k_val`.
pub flags_and :
    (alpha : Alphabet) (a b c d : ℕ)
    → has
        (bit_and
          (bit_and (bit_and (flags alpha a) (flags alpha b)) (flags alpha c))
          (flags alpha d))
        k_val
      ≡ true
    → (flags alpha a ≡ 1) × (flags alpha b ≡ 1) × (flags alpha c ≡ 1) × (flags alpha d ≡ 1)
unfolding has
flags_and alpha a b c d h =
    let fa = flags alpha a in
    let fb = flags alpha b in
    let fc = flags alpha c in
    let fd = flags alpha d in
    let odd : bit_and (bit_and (bit_and fa fb) fc) fd % 2 ≡ 1 =
      ground (arith, bit_and-one (bit_and (bit_and (bit_and fa fb) fc) fd)) in
    let and3 = bit_and-even (bit_and (bit_and fa fb) fc) fd in
    let and2 = bit_and-even (bit_and fa fb) fc in
    let and1 = bit_and-even fa fb in
    (
      one_of_three fa (flags-cases alpha a) (omega arith),
      one_of_three fb (flags-cases alpha b) (omega arith),
      one_of_three fc (flags-cases alpha c) (omega arith),
      one_of_three fd (flags-cases alpha d) (omega arith),
    )
