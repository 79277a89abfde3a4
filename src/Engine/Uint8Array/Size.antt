-- ===== src/Engine/Uint8Array/Size.antt =====
-- The methods of .backup/quickjs.c that decode into an array never change its size.
use cno_cli.Base.{ℕ, ◌≤◌, ◌≡◌, refl, ap, arith, Bool, not, Option, none, some}
use cno_cli.Base.{List, ◌++◌, length, length-append, length-drop, drop}
use cno_cli.Engine.Result.{
  Memory, Error, Result, ok, throws, guard, ◌>>=◌, immutable_buffer, invalid_base64, invalid_hex,
}
use cno_cli.Engine.Base64.From.{Outcome, done, failed, from_base64}
use cno_cli.Engine.Base64.Bounds.{bytes, from_base64-IsWithin}
use cno_cli.Engine.Hex.{hex_decode}
use cno_cli.Engine.Hex.Laws.{hex_decode-IsWithin}
use cno_cli.Engine.Uint8Array.{
  Value, Options, Array, check_options_object, get_uint8array_bytes, parse_alphabet_option,
  parse_last_chunk_option, string_argument, Stored, store, stored_or, set_from_base64_checked,
  js_uint8array_set_from_base64, set_from_hex_checked, js_uint8array_set_from_hex,
}

-- The size of an array that has its elements.
abbrev pub size : Option (List ℕ) → Option ℕ
size none = none
size (some bs) = some (length bs)

-- What a result stores has the size of `before`.
abbrev KeepsSize : Option (List ℕ) → Result Stored → Type 0
KeepsSize before (ok s) = size s.contents ≡ size before
KeepsSize before (throws e) = Unit {0}

KeepsSize-bind {ℓ} :
    {A : Type ℓ} (before : Option (List ℕ)) (m : Result A) (next : A → Result Stored)
    → ((a : A) → KeepsSize before (next a))
    → KeepsSize before (m >>= next)
KeepsSize-bind before (ok a) next h = h a
KeepsSize-bind before (throws e) next h = tt

size-stored_or :
    (before : Option (List ℕ)) (r : Result Stored)
    → KeepsSize before r
    → size (stored_or before r).contents ≡ size before
unfolding stored_or
size-stored_or before (ok s) h = h
size-stored_or before (throws e) h = refl

length-overwritten :
    (out bs : List ℕ) → length out ≤ length bs → length (out ++ drop (length out) bs) ≡ length bs
length-overwritten out bs h =
    omega (arith, length-append out (drop (length out) bs), length-drop (length out) bs)

size-store :
    (mem : Memory) (invalid : Error) (bs : List ℕ) (o : Outcome)
    → length (bytes o) ≤ length bs
    → size (store mem invalid bs o).contents ≡ some (length bs)
unfolding store
size-store mem invalid bs (done read out) h = ap some (length-overwritten out bs h)
size-store mem invalid bs (failed out) h = ap some (length-overwritten out bs h)

elements-KeepsSize :
    (immutable : Bool) (e : Option (List ℕ)) (next : List ℕ → Stored)
    → ((bs : List ℕ) → size (next bs).contents ≡ some (length bs))
    → KeepsSize e (
        get_uint8array_bytes (record { immutable = immutable; elements = e }) >>= λ bs.
        ok (next bs))
unfolding get_uint8array_bytes
elements-KeepsSize immutable none next h = tt
elements-KeepsSize immutable (some bs) next h = h bs

-- The step that the two methods end with.
stored-KeepsSize :
    (p : Array) (next : List ℕ → Stored)
    → ((bs : List ℕ) → size (next bs).contents ≡ some (length bs))
    → KeepsSize p.elements (get_uint8array_bytes p >>= λ bs. ok (next bs))
stored-KeepsSize p next h = elements-KeepsSize p.immutable p.elements next h

set_from_base64_checked-KeepsSize :
    (mem : Memory) (p : Array) (argument : Value) (opts : Options)
    → KeepsSize p.elements (set_from_base64_checked mem p argument opts)
unfolding set_from_base64_checked
set_from_base64_checked-KeepsSize mem p argument opts =
    KeepsSize-bind p.elements (guard (not (p.immutable)) immutable_buffer) _ (λ _.
      KeepsSize-bind p.elements (string_argument argument) _ (λ str.
        KeepsSize-bind p.elements (check_options_object opts) _ (λ found.
          KeepsSize-bind p.elements (parse_alphabet_option found) _ (λ alpha.
            KeepsSize-bind p.elements (parse_last_chunk_option found) _ (λ mode.
              stored-KeepsSize p
                (λ bs. store mem invalid_base64 bs (from_base64 alpha mode (length bs) str))
                (λ bs.
                  size-store mem invalid_base64 bs _
                    ((from_base64-IsWithin alpha mode (length bs) str).1)))))))

set_from_hex_checked-KeepsSize :
    (mem : Memory) (p : Array) (argument : Value)
    → KeepsSize p.elements (set_from_hex_checked mem p argument)
unfolding set_from_hex_checked
set_from_hex_checked-KeepsSize mem p argument =
    KeepsSize-bind p.elements (guard (not (p.immutable)) immutable_buffer) _ (λ _.
      KeepsSize-bind p.elements (string_argument argument) _ (λ str.
        stored-KeepsSize p (λ bs. store mem invalid_hex bs (hex_decode (length bs) str))
          (λ bs. size-store mem invalid_hex bs _ ((hex_decode-IsWithin (length bs) str).1))))

-- For every argument and all options, also where it throws: `setFromBase64` writes inside the array,
-- whose size stays what it was.
pub size-set_from_base64 :
    (mem : Memory) (p : Array) (argument : Value) (opts : Options)
    → size (js_uint8array_set_from_base64 mem (some p) argument opts).contents ≡ size p.elements
unfolding js_uint8array_set_from_base64
size-set_from_base64 mem p argument opts =
    size-stored_or p.elements _ (set_from_base64_checked-KeepsSize mem p argument opts)

-- For every argument, also where it throws: `setFromHex` writes inside the array, whose size stays
-- what it was.
pub size-set_from_hex :
    (mem : Memory) (p : Array) (argument : Value)
    → size (js_uint8array_set_from_hex mem (some p) argument).contents ≡ size p.elements
unfolding js_uint8array_set_from_hex
size-set_from_hex mem p argument =
    size-stored_or p.elements _ (set_from_hex_checked-KeepsSize mem p argument)
