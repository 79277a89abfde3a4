-- ===== src/Engine/Escape/Tests.antt =====
-- Runs of `escape` and `unescape` of .backup/quickjs.c.
use cno_cli.Base.{ℕ, ◌-◌, ◌<◌, ◌≡◌, refl, arith, ltb, Option, none, some, [], ◌∷◌, if◌then◌else◌}
use cno_cli.Engine.Escape.{upper_digit, js_global_escape, js_global_unescape}
use cno_cli.Engine.Escape.RoundTrip.{unescape-escape}

-- The digits in upper case, and nothing else.
abbrev upper_hex : ℕ → Option ℕ
upper_hex u =
    if ltb u 48
    then none
    else if ltb u 58
    then some (u - 48)
    else if ltb u 65
    then none
    else if ltb u 71
    then some (u - 55)
    else none

upper_hex-upper_digit : (i : ℕ) → i < 16 → upper_hex (upper_digit i) ≡ some i
unfolding upper_digit
upper_hex-upper_digit i h = ground arith

-- An euro sign.
escape_euro :
    js_global_escape (b'a' ∷ 0x20ac ∷ []) ≡ b'a' ∷ b'%' ∷ b'u' ∷ b'2' ∷ b'0' ∷ b'A' ∷ b'C' ∷ []
unfolding js_global_escape
escape_euro = refl

unescape-escape_example :
    js_global_unescape upper_hex (js_global_escape (b'a' ∷ 0x20ac ∷ b'%' ∷ []))
    ≡ b'a' ∷ 0x20ac ∷ b'%' ∷ []
unescape-escape_example =
    unescape-escape upper_hex upper_hex-upper_digit (b'a' ∷ 0x20ac ∷ b'%' ∷ [])
      (omega arith, (omega arith, (omega arith, tt)))
