-- ===== src/Engine/Date/Year/Search.antt =====
-- The loop of `year_from_days`.
use cno_cli.Base.{ℕ, suc, ◌≡◌, refl, arith, ap, ◌∙◌}
use cno_cli.Base.{some, inl, inr, Bool-cases, true, false, ◌⊎◌}
use cno_cli.Base.Int.{
  ℤ, pos, pos_part, neg_part, ◌+ℤ◌, ◌-ℤ◌, ◌≤ℤ◌, ◌<ℤ◌, ltb_ℤ, +ℤ_parts, -ℤ_parts, *ℤ_parts,
  eq_of_parts,
}
use cno_cli.Engine.Date.Year.{days_from_year, days_in_year, year_loop, estimate, year_from_days}
use cno_cli.Engine.Date.Year.Laws.{days_from_year_step, estimate_near, days_in_year_bounds}

ruleset parts = (arith, +ℤ_parts, -ℤ_parts, *ℤ_parts)

ltb_true : (a b : ℤ) → a <ℤ b → ltb_ℤ a b ≡ true
ltb_true a b h = ground arith

ltb_false : (a b : ℤ) → b ≤ℤ a → ltb_ℤ a b ≡ false
ltb_false a b h = ground arith

lt_or_le : (a b : ℤ) → (a <ℤ b) ⊎ (b ≤ℤ a)
lt_or_le a b = elim (Bool-cases (ltb_ℤ a b)) [
  | inl h ↦ inl (ground arith)
  | inr h ↦ inr (ground arith)
]

module _ (fuel : ℕ) (d y : ℤ) where
  round_below : d <ℤ days_from_year y → year_loop (suc fuel) d y ≡ year_loop fuel d (y -ℤ pos 1)
  unfolding year_loop
  round_below h = rw (ltb_true (d -ℤ days_from_year y) (pos 0) (omega parts)) refl

  round_above :
      days_from_year (y +ℤ pos 1) ≤ℤ d → year_loop (suc fuel) d y ≡ year_loop fuel d (y +ℤ pos 1)
  unfolding year_loop
  round_above h =
      let e = days_from_year_step y in
      let (n, len, le) = days_in_year_bounds y in
      let h' : days_from_year y +ℤ days_in_year y ≤ℤ d = rw e at h in
      rw
        (
          ltb_false (d -ℤ days_from_year y) (pos 0)
              (omega (parts, ap pos_part len, ap neg_part len)),
          ltb_false (d -ℤ days_from_year y) (days_in_year y) (omega parts),
        )
        refl

  round_hit :
      days_from_year y ≤ℤ d
      → d <ℤ days_from_year (y +ℤ pos 1)
      → year_loop (suc fuel) d y ≡ some (y, d -ℤ days_from_year y)
  unfolding year_loop
  round_hit h k =
      let k' : d <ℤ days_from_year y +ℤ days_in_year y = rw (days_from_year_step y) at k in
      rw
        (
          ltb_false (d -ℤ days_from_year y) (pos 0) (omega parts),
          ltb_true (d -ℤ days_from_year y) (days_in_year y) (omega parts),
        )
        refl

-- `y` is the year that day `d` falls in.
abbrev pub IsYearOf : ℤ → ℤ → Type 0
IsYearOf d y = (days_from_year y ≤ℤ d) × (d <ℤ days_from_year (y +ℤ pos 1))

pred_suc : (y : ℤ) → y -ℤ pos 1 +ℤ pos 1 ≡ y
pred_suc y = eq_of_parts _ _ (omega parts)

-- For every day `year_from_days` ends within two rounds, with the year that the day falls in and
-- the number of days from the start of that year.
pub year_from_days-IsYearOf :
    (d : ℤ) → (y : ℤ) × (year_from_days d ≡ some (y, d -ℤ days_from_year y)) × IsYearOf d y
unfolding year_from_days
year_from_days-IsYearOf d =
    let y = estimate d in
    let (lo, hi) = estimate_near d in
    elim (lt_or_le d (days_from_year y)) [
      | inl below ↦
          let k : d <ℤ days_from_year (y -ℤ pos 1 +ℤ pos 1) = rw (pred_suc y) below in
          (y -ℤ pos 1, round_below 1 d y below ∙ round_hit 0 d (y -ℤ pos 1) lo k, (lo, k))
      | inr from ↦ elim (lt_or_le d (days_from_year (y +ℤ pos 1))) [
        | inl within ↦ (y, round_hit 1 d y from within, (from, within))
        | inr above ↦
            (y +ℤ pos 1, round_above 1 d y above ∙ round_hit 0 d (y +ℤ pos 1) above hi, (above, hi))
      ]
    ]
