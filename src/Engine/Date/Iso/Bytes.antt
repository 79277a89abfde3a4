-- ===== src/Engine/Date/Iso/Bytes.antt =====
-- The text of `toISOString` fits in the buffer of `js_Date_parse` as it is.
use cno_cli.Base.{ℕ, zero, suc, ◌≡◌, ◌≤◌, ◌<◌, refl, arith, false}
use cno_cli.Base.{List, [], ◌∷◌, length, ltb, All, Bool-cases, inl, inr}
use cno_cli.Base.Int.{ℤ, pos, negsuc}
use cno_cli.Engine.Date.Fields.{}
use cno_cli.Engine.Date.Fields.RoundTrip.{}
use cno_cli.Engine.Date.Iso.{byte_array}
use cno_cli.Engine.Date.Iso.Digits.{two, four, six}
use cno_cli.Engine.Date.Iso.Text.{time_text, day_text, year_text}

-- The text is bytes, and short.
pub byte_array-same :
    (room : ℕ) (s : List ℕ) → All (λ c. c < 256) s → length s ≤ room → byte_array room s ≡ s
unfolding byte_array
byte_array-same zero [] h le = refl
byte_array-same zero (c ∷ s) h le = absurd (omega arith)
byte_array-same (suc room) [] h le = refl
byte_array-same (suc room) (c ∷ s) h le =
    let small : ltb 255 c ≡ false = ground (arith, h.0) in
    rw (small, byte_array-same room s h.1 (omega arith)) refl

abbrev pub IsBytes : List ℕ → Type 0
IsBytes s = All (λ c. c < 256) s

two-IsBytes : (n : ℕ) (rest : List ℕ) → IsBytes rest → IsBytes (two n rest)
two-IsBytes n rest h = (omega arith, (omega arith, h))

four-IsBytes : (n : ℕ) (rest : List ℕ) → IsBytes rest → IsBytes (four n rest)
four-IsBytes n rest h = (omega arith, (omega arith, two-IsBytes n rest h))

six-IsBytes : (n : ℕ) (rest : List ℕ) → IsBytes rest → IsBytes (six n rest)
six-IsBytes n rest h = (omega arith, (omega arith, four-IsBytes n rest h))

pub year-IsBytes :
    (y : ℤ) (rest : List ℕ)
    → IsBytes rest
    → length rest ≤ 100
    → IsBytes (year_text y rest) × (length (year_text y rest) ≤ 127)
year-IsBytes (pos n) rest h le = elim (Bool-cases (ltb 9999 n)) [
  | inl wide ↦ rw wide ((omega arith, six-IsBytes n rest h), omega arith)
  | inr narrow ↦ rw narrow (four-IsBytes n rest h, omega arith)
]
year-IsBytes (negsuc n) rest h le = ((omega arith, six-IsBytes (suc n) rest h), omega arith)

pub rest-IsBytes : (month day h m s ms : ℕ) → IsBytes (day_text month day (time_text h m s ms))
rest-IsBytes month day h m s ms = (
  omega arith,
  (
    omega arith,
    (
      omega arith,
      (
        omega arith,
        (
          omega arith,
          (
            omega arith,
            (
              omega arith,
              (
                omega arith,
                (
                  omega arith,
                  (
                    omega arith,
                    (
                      omega arith,
                      (
                        omega arith,
                        (
                          omega arith,
                          (
                            omega arith,
                            (
                              omega arith,
                              (
                                omega arith,
                                (omega arith, (omega arith, (omega arith, (omega arith, tt)))),
                              ),
                            ),
                          ),
                        ),
                      ),
                    ),
                  ),
                ),
              ),
            ),
          ),
        ),
      ),
    ),
  ),
)
