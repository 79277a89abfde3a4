-- ===== src/Engine/Date/Scan.antt =====
-- The scanners of date strings of .backup/quickjs.c: characters, numbers, milliseconds and zones. The
-- bytes end with a NUL, which is what is found at the end of the list.
use cno_cli.Base.{ℕ, suc, ◌+◌, ◌-◌, ◌*◌, ◌/◌, ◌%◌, Bool, ◌&&◌, ◌||◌, not, Option, none, some}
use cno_cli.Base.{List, [], ◌∷◌, length, ltb, leb, ◌==◌, if◌then◌else◌}
use cno_cli.Base.Int.{ℤ, pos}
use cno_cli.Engine.Date.Fields.{negate}

-- `sp[p]` and what is behind it.
abbrev pub peek : List ℕ → ℕ
peek [] = 0
peek (c ∷ sp) = c

-- The text behind the character, if it is the next.
unfoldable pub string_skip_char : ℕ → List ℕ → Option (List ℕ)
string_skip_char c [] = none
string_skip_char c (u ∷ sp) = if u == c then some sp else none

abbrev pub is_digit : ℕ → Bool
is_digit c = leb b'0' c && leb c b'9'

-- The value, how many digits were read and what is behind them; `none` above nine digits.
unfoldable pub digits_loop : ℕ → ℕ → ℕ → List ℕ → Option (ℕ × (ℕ × List ℕ))
digits_loop max_digits v n [] = some (v, (n, []))
digits_loop max_digits v n (c ∷ sp) =
    let more = digits_loop max_digits (v * 10 + (c - 48)) (n + 1) sp in
    if is_digit c
    then (if leb 100000000 v
        then none
        else if n + 1 == max_digits
        then some (v * 10 + (c - 48), (n + 1, sp))
        else more)
    else some (v, (n, c ∷ sp))

unfoldable pub string_get_digits : ℕ → ℕ → List ℕ → Option (ℕ × List ℕ)
unfolding digits_loop
string_get_digits min_digits max_digits sp = elim (digits_loop max_digits 0 0 sp) [
  | none ↦ none
  | some found ↦ if ltb (found.1.0) min_digits then none else some (found.0, found.1.1)
]

unfoldable pub ms_loop : ℕ → ℕ → ℕ → List ℕ → ℕ × (ℕ × List ℕ)
ms_loop mul ms n [] = (ms, (n, []))
ms_loop mul ms n (c ∷ sp) =
    let more = ms_loop (mul / 10) (ms + (c - 48) * mul) (n + 1) sp in
    if is_digit c
    then (if n + 1 == 9 then (ms + (c - 48) * mul, (n + 1, sp)) else more)
    else (ms, (n, c ∷ sp))

-- The milliseconds, 0 where there are none.
unfoldable pub string_get_milliseconds : List ℕ → ℕ × List ℕ
unfolding ms_loop
string_get_milliseconds [] = (0, [])
string_get_milliseconds (c ∷ sp) =
    let (ms, (n, rest)) = ms_loop 100 0 0 sp in
    if (c == b'.' || c == b',') && ltb 0 n then (ms, rest) else (0, c ∷ sp)

-- `while (n > 4)`
unfoldable pub trim_hours : ℕ → ℕ → ℕ × ℕ
trim_hours (suc (suc (suc (suc (suc n))))) hh = trim_hours (suc (suc (suc n))) (hh / 100)
trim_hours n hh = (n, hh)

-- The minutes behind an optional `:`.
unfoldable pub zone_minutes : List ℕ → Option (ℕ × List ℕ)
unfolding string_get_digits string_skip_char
zone_minutes sp = elim (string_skip_char b':' sp) [
  | none ↦ some (0, sp)
  | some rest ↦ string_get_digits 2 2 rest
]

abbrev pub zone_of : Bool → ℕ → Option (ℕ × List ℕ) → Option (ℤ × List ℕ)
zone_of negative hh none = none
zone_of negative hh (some (mm, rest)) =
    if ltb 23 hh || ltb 59 mm
    then none
    else if negative
    then some (negate (pos (hh * 60 + mm)), rest)
    else some (pos (hh * 60 + mm), rest)

unfoldable pub signed_zone : Bool → Bool → List ℕ → Option (ℤ × List ℕ)
unfolding string_get_digits trim_hours zone_minutes
signed_zone negative strict sp = elim (string_get_digits 1 0 sp) [
  | none ↦ none
  | some found ↦
      let n = length sp - length (found.1) in
      let (n', hh) = trim_hours n (found.0) in
      if strict && not (n == 2) && not (n == 4)
      then none
      else if ltb 2 n'
      then zone_of negative (hh / 100) (some (hh % 100, found.1))
      else zone_of negative hh (zone_minutes (found.1))
]

unfoldable pub string_get_tzoffset : Bool → List ℕ → Option (ℤ × List ℕ)
unfolding signed_zone
string_get_tzoffset strict [] = none
string_get_tzoffset strict (sgn ∷ sp) =
    if sgn == b'+' || sgn == b'-'
    then signed_zone (sgn == b'-') strict sp
    else if sgn == b'Z'
    then some (pos 0, sp)
    else none
