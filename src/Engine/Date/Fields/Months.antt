-- ===== src/Engine/Date/Fields/Months.antt =====
-- The two month loops undo one another.
use cno_cli.Base.{ℕ, ◌+◌, ◌≤◌, ◌≡◌, refl, arith, ◌∙◌}
use cno_cli.Base.{List, [], ◌∷◌, ◌++◌, length, Bool-cases, inl, inr, true, false, ltb}
use cno_cli.Base.Int.{
  ℤ, pos, ◌+ℤ◌, ◌-ℤ◌, ltb_ℤ, ◌≤ℤ◌, ◌<ℤ◌, +ℤ_parts, -ℤ_parts, *ℤ_parts, eq_of_parts,
}
use cno_cli.Engine.Date.Fields.{month_length, month_loop, add_months}

ruleset parts = (arith, +ℤ_parts, -ℤ_parts, *ℤ_parts)

month_loop_ge : (y : ℤ) (mds : List ℕ) (i : ℕ) (days : ℤ) → i ≤ (month_loop y mds i days).0
unfolding month_loop
month_loop_ge y [] i days = omega arith
month_loop_ge y (md ∷ mds) i days =
    ground (arith, month_loop_ge y mds (i + 1) (days -ℤ month_length y i md))

lt_true : (i k : ℕ) → i + 1 ≤ k → ltb i k ≡ true
lt_true i k h = ground arith

le_of_not : (a b : ℤ) → ltb_ℤ a b ≡ false → b ≤ℤ a
le_of_not a b h = ground arith

-- Adding up the months before the one found gives back the days, for any months behind the list.
pub add_months-month_loop :
    (y : ℤ) (mds tail : List ℕ) (i : ℕ) (days base : ℤ)
    → let found = month_loop y mds i days in
      add_months y (mds ++ tail) i found.0 base +ℤ found.1 ≡ base +ℤ days
unfolding month_loop add_months
add_months-month_loop y [] [] i days base = refl
add_months-month_loop y [] (t ∷ tail) i days base = ground arith
add_months-month_loop y (md ∷ mds) tail i days base =
    elim (Bool-cases (ltb_ℤ days (month_length y i md))) [
      | inl here ↦ rw here (ground arith)
      | inr on ↦
          let len = month_length y i md in
          let rest = month_loop y mds (i + 1) (days -ℤ len) in
          rw (on, lt_true i rest.0 (month_loop_ge y mds (i + 1) (days -ℤ len)))
            (add_months-month_loop y mds tail (i + 1) (days -ℤ len) (base +ℤ len)
              ∙ eq_of_parts _ _ (omega parts))
    ]

pub month_loop_le :
    (y : ℤ) (mds : List ℕ) (i : ℕ) (days : ℤ) → (month_loop y mds i days).0 ≤ i + length mds
unfolding month_loop
month_loop_le y [] i days = omega arith
month_loop_le y (md ∷ mds) i days =
    ground (arith, month_loop_le y mds (i + 1) (days -ℤ month_length y i md))

abbrev pub total : ℤ → List ℕ → ℕ → ℤ
total y [] i = pos 0
total y (md ∷ mds) i = month_length y i md +ℤ total y mds (i + 1)

-- No month of the list has more than 31 days.
abbrev pub Short : ℤ → List ℕ → ℕ → Type 0
Short y [] i = Unit {0}
Short y (md ∷ mds) i = (month_length y i md ≤ℤ pos 31) × Short y mds (i + 1)

pub month_loop_day :
    (y : ℤ) (mds : List ℕ) (i : ℕ) (days : ℤ)
    → Short y mds i
    → pos 0 ≤ℤ days
    → days <ℤ total y mds i +ℤ pos 31
    → (pos 0 ≤ℤ (month_loop y mds i days).1) × ((month_loop y mds i days).1 <ℤ pos 31)
unfolding month_loop
month_loop_day y [] i days s lo hi = omega parts
month_loop_day y (md ∷ mds) i days (s, ss) lo hi =
    elim (Bool-cases (ltb_ℤ days (month_length y i md))) [
      | inl here ↦ rw here (lo, ground arith)
      | inr on ↦ rw on (
          month_loop_day y mds (i + 1) (days -ℤ month_length y i md) ss
            (omega (parts, le_of_not (days) (month_length y i md) on)) (omega parts))
    ]
