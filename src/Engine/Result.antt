-- ===== src/Engine/Result.antt =====
-- What the functions of .backup/quickjs.c ask of the allocator, what they throw, and their results.
use cno_cli.Base.{ℕ, ◌-◌, ◌^◌, Bool, if◌then◌else◌}

-- Which requests `js_malloc`, `js_alloc_string`, `JS_NewUint8ArrayCopy` and `JS_NewObject` with its
-- two properties grant.
pub record Memory : Type 0 where
  pub malloc : ℕ → Bool
  pub alloc_string : ℕ → Bool
  pub new_array : ℕ → Bool
  pub new_object : Bool

pub data Error : Type 0 where
  out_of_memory invalid_character input_too_large output_too_large : Error
  not_uint8array immutable_buffer out_of_bounds expected_string : Error
  options_not_object lookup_failed not_a_string : Error
  invalid_alphabet invalid_last_chunk invalid_base64 invalid_hex : Error
  unpaired_low unpaired_high expecting_percent expecting_hex malformed_utf8 date_is_nan : Error

pub data Result {ℓ} (A : Type ℓ) : Type ℓ where
  ok : A → Result A
  throws : Error → Result A

abbrev pub and_then {ℓ κ} : {A : Type ℓ} {B : Type κ} → (A → Result B) → Result A → Result B
and_then next (throws e) = throws e
and_then next (ok a) = next a

infixl 5 ◌>>=◌ ◌>>◌
abbrev pub ◌>>=◌ {ℓ κ} : {A : Type ℓ} {B : Type κ} → Result A → (A → Result B) → Result B
m >>= next = and_then next m

abbrev pub ◌>>◌ {ℓ κ} : {A : Type ℓ} {B : Type κ} → Result A → Result B → Result B
m >> next = and_then (λ _. next) m

-- A `goto fail` under a condition that does not hold.
abbrev pub guard : Bool → Error → Result (Unit {0})
guard passes e = if passes then ok tt else throws e

abbrev pub string_len_max : ℕ
string_len_max = 2 ^ 30 - 1

abbrev pub size_max : ℕ
size_max = 2 ^ 64 - 1
