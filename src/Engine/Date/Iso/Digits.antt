-- ===== src/Engine/Date/Iso/Digits.antt =====
-- Numbers of a fixed width, as they are printed and read.
use cno_cli.Base.{ℕ, ◌+◌, ◌-◌, ◌*◌, ◌/◌, ◌%◌, ◌≡◌, ◌<◌, refl, ap, ◌∙◌, arith, true, false, some}
use cno_cli.Base.{List, ◌∷◌, ltb, leb, ◌==◌}
use cno_cli.Engine.Date.Print.{printed}
use cno_cli.Engine.Date.Scan.{
  is_digit, digits_loop, string_get_digits, ms_loop, string_get_milliseconds,
}

abbrev pub two : ℕ → List ℕ → List ℕ
two n rest = (48 + n / 10 % 10) ∷ (48 + n % 10) ∷ rest

abbrev pub three : ℕ → List ℕ → List ℕ
three n rest = (48 + n / 10 / 10 % 10) ∷ two n rest

abbrev pub four : ℕ → List ℕ → List ℕ
four n rest = (48 + n / 10 / 10 / 10 % 10) ∷ three n rest

abbrev pub six : ℕ → List ℕ → List ℕ
six n rest =
    (48 + n / 10 / 10 / 10 / 10 / 10 % 10) ∷ (48 + n / 10 / 10 / 10 / 10 % 10) ∷ four n rest

pub printed-two : (n : ℕ) (rest : List ℕ) → n < 100 → printed 10 2 n rest ≡ two n rest
unfolding printed
printed-two n rest h = let done : (n / 10 / 10 == 0) ≡ true = ground arith in rw done refl

pub printed-three : (n : ℕ) (rest : List ℕ) → n < 1000 → printed 10 3 n rest ≡ three n rest
unfolding printed
printed-three n rest h = let done : (n / 10 / 10 / 10 == 0) ≡ true = ground arith in rw done refl

pub printed-four : (n : ℕ) (rest : List ℕ) → n < 10000 → printed 10 4 n rest ≡ four n rest
unfolding printed
printed-four n rest h =
    let done : (n / 10 / 10 / 10 / 10 == 0) ≡ true = ground arith in rw done refl

pub printed-six : (n : ℕ) (rest : List ℕ) → n < 1000000 → printed 10 6 n rest ≡ six n rest
unfolding printed
printed-six n rest h =
    let done : (n / 10 / 10 / 10 / 10 / 10 / 10 == 0) ≡ true = ground arith in rw done refl

digit-ok : (x : ℕ) → x < 10 → is_digit (48 + x) ≡ true
digit-ok x h = ground arith

digit_more :
    (max_digits v n x : ℕ) (sp : List ℕ)
    → x < 10
    → v < 100000000
    → (n + 1 == max_digits) ≡ false
    → digits_loop max_digits v n ((48 + x) ∷ sp) ≡ digits_loop max_digits (v * 10 + x) (n + 1) sp
unfolding digits_loop
digit_more max_digits v n x sp h small e =
    let fits : leb 100000000 v ≡ false = ground arith in
    rw (digits_loop, digit-ok x h, fits, e)
      (ap (λ (w : ℕ). digits_loop max_digits w (n + 1) sp) (omega arith))

digit_last :
    (max_digits v n x : ℕ) (sp : List ℕ)
    → x < 10
    → v < 100000000
    → (n + 1 == max_digits) ≡ true
    → digits_loop max_digits v n ((48 + x) ∷ sp) ≡ some (v * 10 + x, (n + 1, sp))
unfolding digits_loop
digit_last max_digits v n x sp h small e =
    let fits : leb 100000000 v ≡ false = ground arith in
    rw (digits_loop, digit-ok x h, fits, e) (ap (λ (w : ℕ). some (w, (n + 1, sp))) (omega arith))

got :
    (count v w : ℕ) (sp rest : List ℕ)
    → digits_loop count 0 0 sp ≡ some (v, (count, rest))
    → v ≡ w
    → string_get_digits count count sp ≡ some (w, rest)
unfolding string_get_digits
got count v w sp rest e same =
    let enough : ltb count count ≡ false = ground arith in
    rw (string_get_digits, e, enough) (ap (λ (x : ℕ). some (x, rest)) same)

pub get-two :
    (n : ℕ) (rest : List ℕ) → n < 100 → string_get_digits 2 2 (two n rest) ≡ some (n, rest)
get-two n rest h =
    got 2 _ n _ rest
      (digit_more 2 0 0 (n / 10 % 10) _ (omega arith) (omega arith) refl
        ∙ digit_last 2 _ 1 (n % 10) rest (omega arith) (omega arith) refl)
      (omega arith)

pub get-four :
    (n : ℕ) (rest : List ℕ) → n < 10000 → string_get_digits 4 4 (four n rest) ≡ some (n, rest)
get-four n rest h =
    got 4 _ n _ rest
      (digit_more 4 0 0 (n / 10 / 10 / 10 % 10) _ (omega arith) (omega arith) refl
        ∙ digit_more 4 _ 1 (n / 10 / 10 % 10) _ (omega arith) (omega arith) refl
        ∙ digit_more 4 _ 2 (n / 10 % 10) _ (omega arith) (omega arith) refl
        ∙ digit_last 4 _ 3 (n % 10) rest (omega arith) (omega arith) refl)
      (omega arith)

pub get-six :
    (n : ℕ) (rest : List ℕ) → n < 1000000 → string_get_digits 6 6 (six n rest) ≡ some (n, rest)
get-six n rest h =
    got 6 _ n _ rest
      (digit_more 6 0 0 (n / 10 / 10 / 10 / 10 / 10 % 10) _ (omega arith) (omega arith) refl
        ∙ digit_more 6 _ 1 (n / 10 / 10 / 10 / 10 % 10) _ (omega arith) (omega arith) refl
        ∙ digit_more 6 _ 2 (n / 10 / 10 / 10 % 10) _ (omega arith) (omega arith) refl
        ∙ digit_more 6 _ 3 (n / 10 / 10 % 10) _ (omega arith) (omega arith) refl
        ∙ digit_more 6 _ 4 (n / 10 % 10) _ (omega arith) (omega arith) refl
        ∙ digit_last 6 _ 5 (n % 10) rest (omega arith) (omega arith) refl)
      (omega arith)

ms_more :
    (mul ms n x : ℕ) (sp : List ℕ)
    → x < 10
    → (n + 1 == 9) ≡ false
    → ms_loop mul ms n ((48 + x) ∷ sp) ≡ ms_loop (mul / 10) (ms + x * mul) (n + 1) sp
unfolding ms_loop
ms_more mul ms n x sp h e =
    let value : 48 + x - 48 ≡ x = omega arith in rw (ms_loop, digit-ok x h, e, value) refl

ms-three :
    (n : ℕ) (rest : List ℕ)
    → ms_loop 100 0 0 (three n (b'Z' ∷ rest))
      ≡ (0 + n / 10 / 10 % 10 * 100 + n / 10 % 10 * 10 + n % 10 * 1, (3, b'Z' ∷ rest))
ms-three n rest =
    ms_more 100 0 0 (n / 10 / 10 % 10) _ (omega arith) refl
    ∙ ms_more 10 (0 + n / 10 / 10 % 10 * 100) 1 (n / 10 % 10) _ (omega arith) refl
    ∙ ms_more 1 (0 + n / 10 / 10 % 10 * 100 + n / 10 % 10 * 10) 2 (n % 10) _ (omega arith) refl
    ∙ unfold ms_loop in refl

pub get-three :
    (n : ℕ) (rest : List ℕ)
    → n < 1000
    → string_get_milliseconds (b'.' ∷ three n (b'Z' ∷ rest)) ≡ (n, b'Z' ∷ rest)
unfolding string_get_milliseconds
get-three n rest h = rw (ms-three n rest) (ap (λ (x : ℕ). (x, b'Z' ∷ rest)) (omega arith))
