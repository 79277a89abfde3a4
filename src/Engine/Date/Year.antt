-- ===== src/Engine/Date/Year.antt =====
-- `days_from_year`, `days_in_year` and `year_from_days` of .backup/quickjs.c.
pub mod Laws
pub mod Search
use cno_cli.Base.{ℕ, zero, suc, ◌+◌, ◌-◌, ◌*◌, Bool, true, false, Option, none, some, if◌then◌else◌}
use cno_cli.Base.Int.{ℤ, pos, negsuc, ◌+ℤ◌, ◌-ℤ◌, ◌*ℤ◌, ltb_ℤ}
use cno_cli.Engine.Date.Calendar.{rem, floor_div}

unfoldable pub days_from_year : ℤ → ℤ
days_from_year y =
    365 *ℤ (y -ℤ pos 1970)
    +ℤ floor_div (y -ℤ pos 1969) 4
    -ℤ floor_div (y -ℤ pos 1901) 100
    +ℤ floor_div (y -ℤ pos 1601) 400

-- `!x`, as a number.
unfoldable pub logical_not : ℤ → ℕ
logical_not (pos zero) = 1
logical_not (pos (suc n)) = 0
logical_not (negsuc n) = 0

unfoldable pub days_in_year : ℤ → ℤ
days_in_year y =
    pos 365
    +ℤ pos (logical_not (rem y 4))
    -ℤ pos (logical_not (rem y 100))
    +ℤ pos (logical_not (rem y 400))

-- The loop of `year_from_days`: the year, and the day within it. What it adds to or takes from `d1`
-- before it goes on is not read again. `none` means that the fuel ran out.
unfoldable pub year_loop : ℕ → ℤ → ℤ → Option (ℤ × ℤ)
year_loop zero d y = none
year_loop (suc fuel) d y =
    let d1 = d -ℤ days_from_year y in
    let below = year_loop fuel d (y -ℤ pos 1) in
    let above = year_loop fuel d (y +ℤ pos 1) in
    if ltb_ℤ d1 (pos 0) then below else if ltb_ℤ d1 (days_in_year y) then some (y, d1) else above

unfoldable pub estimate : ℤ → ℤ
estimate d = floor_div (10000 *ℤ d) 3652425 +ℤ pos 1970

-- Two rounds are enough.
unfoldable pub year_from_days : ℤ → Option (ℤ × ℤ)
unfolding year_loop estimate
year_from_days d = year_loop 2 d (estimate d)
