-- ===== src/Engine/Date/Iso/Text.antt =====
-- The text of `toISOString`.
use cno_cli.Base.{ℕ, suc, ◌≡◌, ◌<◌, ap, ◌∙◌, arith, true, false, not, ◌&&◌}
use cno_cli.Base.{List, [], ◌∷◌, if◌then◌else◌, ltb, Bool-cases, inl, inr}
use cno_cli.Base.Int.{
  ℤ, pos, negsuc, pos_part, neg_part, ◌+ℤ◌, ltb_ℤ, +ℤ_parts, -ℤ_parts, *ℤ_parts, eq_of_parts,
}
use cno_cli.Engine.Date.Fields.{Fields}
use cno_cli.Engine.Date.Print.{
  iso_string, print_int, print_signed, iso_year, date_part, print_time, time_part, date_text,
}
use cno_cli.Engine.Date.Iso.Digits.{
  two, three, four, six, printed-two, printed-three, printed-four, printed-six,
}

ruleset parts = (arith, +ℤ_parts, -ℤ_parts, *ℤ_parts)

-- Fields in the ranges of a calendar, by their numbers.
pub record Numbers (f : Fields) : Type 0 where
  pub month : ℕ
  pub day : ℕ
  pub hour : ℕ
  pub minute : ℕ
  pub second : ℕ
  pub milli : ℕ
  pub month_ok : month < 12
  pub day_ok : day < 31
  pub hour_ok : hour < 24
  pub minute_ok : minute < 60
  pub second_ok : second < 60
  pub milli_ok : milli < 1000
  pub year_low : pos_part f.year < 1000000
  pub year_high : neg_part f.year < 1000000
  pub month_is : f.month ≡ pos month
  pub day_is : f.day ≡ pos (suc day)
  pub hour_is : f.hours ≡ pos hour
  pub minute_is : f.minutes ≡ pos minute
  pub second_is : f.seconds ≡ pos second
  pub milli_is : f.ms ≡ pos milli

-- The text of the parts.
abbrev pub time_text : ℕ → ℕ → ℕ → ℕ → List ℕ
time_text h m s ms = two h (b':' ∷ two m (b':' ∷ two s (b'.' ∷ three ms (b'Z' ∷ []))))

abbrev pub day_text : ℕ → ℕ → List ℕ → List ℕ
day_text month day rest = b'-' ∷ two (suc month) (b'-' ∷ two (suc day) (b'T' ∷ rest))

abbrev pub year_text : ℤ → List ℕ → List ℕ
year_text (pos n) rest = if ltb 9999 n then b'+' ∷ six n rest else four n rest
year_text (negsuc n) rest = b'-' ∷ six (suc n) rest

print-two : (n : ℕ) (rest : List ℕ) → n < 100 → print_int 2 (pos n) rest ≡ two n rest
unfolding print_int
print-two n rest h = printed-two n rest h

print_year-text :
    (y : ℤ) (rest : List ℕ)
    → pos_part y < 1000000
    → neg_part y < 1000000
    → iso_year y rest ≡ year_text y rest
unfolding iso_year print_int print_signed
print_year-text (pos n) rest lo hi = elim (Bool-cases (ltb 9999 n)) [
  | inl wide ↦
      let w : (not (ltb_ℤ (pos n) (pos 0)) && not (ltb_ℤ (pos 9999) (pos n))) ≡ false =
        ground arith in
      rw (w, wide) (ap (λ (t : List ℕ). b'+' ∷ t) (printed-six n rest lo))
  | inr narrow ↦
      let w : (not (ltb_ℤ (pos n) (pos 0)) && not (ltb_ℤ (pos 9999) (pos n))) ≡ true =
        ground arith in
      rw (w, narrow) (printed-four n rest (ground arith))
]
print_year-text (negsuc n) rest lo hi =
    let w : (not (ltb_ℤ (negsuc n) (pos 0)) && not (ltb_ℤ (pos 9999) (negsuc n))) ≡ false =
      ground arith in
    rw w (ap (λ (t : List ℕ). b'-' ∷ t) (printed-six (suc n) rest hi))

month_up : (n : ℕ) → pos n +ℤ pos 1 ≡ pos (suc n)
month_up n = eq_of_parts _ _ (omega parts)

print-three : (n : ℕ) (rest : List ℕ) → n < 1000 → print_int 3 (pos n) rest ≡ three n rest
unfolding print_int
print-three n rest h = printed-three n rest h

print_time-text :
    (h m s ms : ℕ)
    → h < 100
    → m < 100
    → s < 100
    → ms < 1000
    → print_time (pos h) (pos m) (pos s) (b'.' ∷ print_int 3 (pos ms) (b'Z' ∷ []))
      ≡ time_text h m s ms
unfolding print_time
print_time-text h m s ms hh hm hs hms =
    print-two h _ hh
    ∙ ap (λ (t : List ℕ). two h (b':' ∷ t))
        (print-two m _ hm
          ∙ ap (λ (t : List ℕ). two m (b':' ∷ t))
              (print-two s _ hs ∙ ap (λ (t : List ℕ). two s (b'.' ∷ t)) (print-three ms _ hms)))

print_day-text :
    (month day : ℕ) (rest : List ℕ)
    → month < 12
    → day < 31
    → (b'-' ∷ print_int 2 (pos month +ℤ pos 1) (b'-' ∷ print_int 2 (pos (suc day)) (b'T' ∷ rest)))
      ≡ day_text month day rest
print_day-text month day rest hm hd =
    ap (λ (t : List ℕ). b'-' ∷ t)
      (ap (λ (v : ℤ). print_int 2 v (b'-' ∷ print_int 2 (pos (suc day)) (b'T' ∷ rest)))
          (month_up month)
        ∙ print-two (suc month) _ (omega arith)
        ∙ ap (λ (t : List ℕ). two (suc month) (b'-' ∷ t)) (print-two (suc day) _ (omega arith)))

pub text_of :
    (f : Fields) (n : Numbers f)
    → date_text iso_string 3 f
      ≡ year_text f.year (day_text n.month n.day (time_text n.hour n.minute n.second n.milli))
unfolding date_text date_part time_part
text_of f n =
    rw (n.month_is, n.day_is, n.hour_is, n.minute_is, n.second_is, n.milli_is)
      (print_year-text f.year _ n.year_low n.year_high
        ∙ ap (year_text f.year) (
            print_day-text n.month n.day _ n.month_ok n.day_ok
            ∙ ap (day_text n.month n.day) (
                print_time-text n.hour n.minute n.second n.milli (omega (arith, n.hour_ok))
                  (omega (arith, n.minute_ok)) (omega (arith, n.second_ok)) n.milli_ok)))
