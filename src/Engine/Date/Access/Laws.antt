-- ===== src/Engine/Date/Access/Laws.antt =====
-- Setting the fields that a date has, and `Date.UTC` of them.
use cno_cli.Base.{
  ℕ, zero, suc, ◌+◌, ◌-◌, ◌*◌, ◌≡◌, ◌≤◌, ◌<◌, refl, ap, ◌∙◌, arith, Bool, true, false, Option, some,
}
use cno_cli.Base.{List, [], ◌∷◌, length, take, ltb, ◌==◌, shr, low_bits}
use cno_cli.Base.Int.{ℤ, pos, ◌≤ℤ◌}
use cno_cli.Engine.Date.Fields.{
  Fields, get_date_fields, max_time, negate, make_date, set_date_fields,
}
use cno_cli.Engine.Date.Fields.RoundTrip.{set_date_fields-get_date_fields}
use cno_cli.Engine.Date.Access.{
  Argument, number, field_at, put_field, get_date_field, take_arguments, conclude_set,
  set_date_field, full_year, js_date_utc,
}

put-field_at : (i : ℕ) (f : Fields) → put_field i (field_at i f) f ≡ f
unfolding put_field field_at
put-field_at zero f = refl
put-field_at (suc zero) f = refl
put-field_at (suc (suc zero)) f = refl
put-field_at (suc (suc (suc zero))) f = refl
put-field_at (suc (suc (suc (suc zero)))) f = refl
put-field_at (suc (suc (suc (suc (suc zero))))) f = refl
put-field_at (suc (suc (suc (suc (suc (suc zero)))))) f = refl
put-field_at (suc (suc (suc (suc (suc (suc (suc n))))))) f = refl

-- What the getters for the fields from `first_field` on return, as arguments.
abbrev pub own_fields : (ℤ → ℤ) → ℕ → ℕ → ℤ → List Argument
own_fields offset zero i t = []
own_fields offset (suc count) i t =
    number (get_date_field offset (16 * i) (some t)) ∷ own_fields offset count (i + 1) t

get-field_at :
    (offset : ℤ → ℤ) (i : ℕ) (t : ℤ) (f : Fields)
    → i < 16
    → get_date_fields offset false false (some t) ≡ some f
    → get_date_field offset (16 * i) (some t) ≡ some (field_at i f)
unfolding get_date_field
get-field_at offset i t f h e =
    let utc : (low_bits (16 * i) 4 == 0) ≡ true = ground arith in
    let at : low_bits (shr (16 * i) 4) 4 ≡ i = omega arith in
    let full : (low_bits (shr (16 * i) 8) 1 == 1) ≡ false = ground arith in
    rw (get_date_field, utc, e, at, full) refl

own_fields-kept :
    (offset : ℤ → ℤ) (count i : ℕ) (t : ℤ) (f : Fields)
    → i + count ≤ 16
    → get_date_fields offset false false (some t) ≡ some f
    → take_arguments i (own_fields offset count i t) true f ≡ some (true, f)
unfolding take_arguments
own_fields-kept offset zero i t f h e = refl
own_fields-kept offset (suc count) i t f h e =
    rw (get-field_at offset i t f (omega arith) e, put-field_at i f)
      (own_fields-kept offset count (i + 1) t f (omega arith) e)

take-own_fields :
    (offset : ℤ → ℤ) (count i : ℕ) (t : ℤ)
    → take count (own_fields offset count i t) ≡ own_fields offset count i t
take-own_fields offset zero i t = refl
take-own_fields offset (suc count) i t =
    ap (λ (args : List Argument). number (get_date_field offset (16 * i) (some t)) ∷ args)
      (take-own_fields offset count (i + 1) t)

forced :
    (offset : ℤ → ℤ) (force : Bool) (t : ℤ)
    → get_date_fields offset false force (some t) ≡ get_date_fields offset false false (some t)
unfolding get_date_fields
forced offset force t = refl

set_of :
    (offset : ℤ → ℤ) (first_field count : ℕ) (t : ℤ) (f : Fields)
    → first_field + suc count < 16
    → get_date_fields offset false false (some t) ≡ some f
    → set_date_field offset
        (256 * first_field + 16 * (first_field + suc count))
        (own_fields offset (suc count) first_field t)
        (some t)
      ≡ conclude_set offset false true (some t) (some (true, f))
unfolding set_date_field
set_of offset first_field count t f h e =
    let magic = 256 * first_field + 16 * (first_field + suc count) in
    let from : low_bits (shr magic 8) 4 ≡ first_field = omega arith in
    let until : low_bits (shr magic 4) 4 ≡ first_field + suc count = omega arith in
    let utc : (low_bits magic 4 == 0) ≡ true = ground arith in
    let wide : first_field + suc count - first_field ≡ suc count = omega arith in
    let given : ltb 0 (length (own_fields offset (suc count) first_field t)) ≡ true =
      ground arith in
    rw
      (
        set_date_field,
        from,
        until,
        utc,
        wide,
        forced offset (first_field == 0) t,
        e,
        take-own_fields offset (suc count) first_field t,
        own_fields-kept offset (suc count) first_field t f (omega arith) e,
        given,
      )
      refl

-- For every time value in the range of a `Date` and every UTC setter, of the fields from
-- `first_field` on: given what the getters of its fields return, it returns the time value and
-- leaves the date as it is.
pub set_date_field-get_date_field :
    (offset : ℤ → ℤ) (first_field count : ℕ) (t : ℤ)
    → first_field + suc count < 16
    → negate max_time ≤ℤ t
    → t ≤ℤ max_time
    → set_date_field offset
        (256 * first_field + 16 * (first_field + suc count))
        (own_fields offset (suc count) first_field t)
        (some t)
      ≡ (some t, some (some t))
set_date_field-get_date_field offset first_field count t h lo hi =
    let (f, found, back) = set_date_fields-get_date_fields offset false t lo hi in
    set_of offset first_field count t f h found ∙ ap (λ (d : Option ℤ). (d, some d)) back

set_date_fields-same :
    (offset : ℤ → ℤ) (f : Fields)
    → set_date_fields offset false (record f { week_day = pos 0; tz = pos 0 })
      ≡ set_date_fields offset false f
unfolding set_date_fields make_date
set_date_fields-same offset f = refl

-- A year that `Date.UTC` does not take for one of two digits.
abbrev pub IsFullYear : ℤ → Type 0
IsFullYear y = full_year 0 y ≡ y

utc_of_fields :
    (offset : ℤ → ℤ) (t : ℤ) (f : Fields)
    → get_date_fields offset false false (some t) ≡ some f
    → IsFullYear (field_at 0 f)
    → js_date_utc offset (own_fields offset 7 0 t)
      ≡ some (set_date_fields offset false (record f { week_day = pos 0; tz = pos 0 }))
unfolding js_date_utc
utc_of_fields offset t f e full =
    rw
      (
        get-field_at offset 0 t f (omega arith) e,
        get-field_at offset 1 t f (omega arith) e,
        get-field_at offset 2 t f (omega arith) e,
        get-field_at offset 3 t f (omega arith) e,
        get-field_at offset 4 t f (omega arith) e,
        get-field_at offset 5 t f (omega arith) e,
        get-field_at offset 6 t f (omega arith) e,
        full,
      )
      (unfold field_at in refl)

-- For every time value in the range of a `Date` whose year is not 0 to 99: `Date.UTC` of what the
-- UTC getters return for it, from the year to the milliseconds, is the time value.
pub js_date_utc-get_date_field :
    (offset : ℤ → ℤ) (t : ℤ)
    → negate max_time ≤ℤ t
    → t ≤ℤ max_time
    → ((y : ℤ) → get_date_field offset 0 (some t) ≡ some y → IsFullYear y)
    → js_date_utc offset (own_fields offset 7 0 t) ≡ some (some t)
js_date_utc-get_date_field offset t lo hi full =
    let (f, found, back) = set_date_fields-get_date_fields offset false t lo hi in
    utc_of_fields offset t f found
      (full (field_at 0 f) (get-field_at offset 0 t f (omega arith) found))
    ∙ ap some (set_date_fields-same offset f ∙ back)
