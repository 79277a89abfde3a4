-- ===== src/Cli/ResultPipe/Lines.antt =====
-- The first line of a stream of bytes, and `findNewline` of src/commands/test-result-pipe.ts.
use cno_cli.Base.{ℕ, suc, ◌<◌, ◌≡◌, refl, ap, ◌∙◌, arith}
use mathlib.Core.Option.{some-injective}
use cno_cli.Base.{Bool-cases, Option-cases, inl, inr}
use cno_cli.Base.{Option, none, some, ◌==◌, if◌then◌else◌}
use cno_cli.Base.{List, [], ◌∷◌, ◌++◌, length, take, drop}
use cno_cli.Cli.ResultPipe.{newline, find_newline}

-- The part of a list before the first newline, and what follows that newline.
abbrev pub line : List ℕ → List ℕ
line [] = []
line (b ∷ bs) = if b == newline then [] else b ∷ line bs

abbrev pub after_line : List ℕ → Option (List ℕ)
after_line [] = none
after_line (b ∷ bs) = if b == newline then some bs else after_line bs

pub find_newline-none :
    (bs : List ℕ) → find_newline bs ≡ none → (after_line bs ≡ none) × (line bs ≡ bs)
unfolding find_newline
find_newline-none [] e = (refl, refl)
find_newline-none (b ∷ bs) e = elim (Bool-cases (b == newline)) [
  | inl here ↦ absurd (cc (rw here at e))
  | inr on ↦ elim (Option-cases (find_newline bs)) [
    | inl clear ↦ rw on (let r = find_newline-none bs clear in ground (arith, r))
    | inr (i, found) ↦ absurd (ground (arith, on, found))
  ]
]

pub find_newline-some :
    (bs : List ℕ) (i : ℕ)
    → find_newline bs ≡ some i
    → (after_line bs ≡ some (drop (suc i) bs)) × (line bs ≡ take i bs) × (i < length bs)
unfolding find_newline
find_newline-some [] i e = absurd (cc)
find_newline-some (b ∷ bs) i e = elim (Bool-cases (b == newline)) [
  | inl here ↦ rw here (ground (arith, here))
  | inr on ↦ elim (Option-cases (find_newline bs)) [
    | inl clear ↦ absurd (ground (arith, on, clear))
    | inr (j, found) ↦
        let same : i ≡ suc j = ground (arith, on, found) in
        rw (on, same) (let r = find_newline-some bs j found in ground (arith, r))
  ]
]

pub line-append :
    (xs ys : List ℕ)
    → after_line xs ≡ none
    → (line (xs ++ ys) ≡ xs ++ line ys) × (after_line (xs ++ ys) ≡ after_line ys)
line-append [] ys e = (refl, refl)
line-append (x ∷ xs) ys e = ground (arith, line-append xs ys)

pub line-append_some :
    (xs ys rest : List ℕ)
    → after_line xs ≡ some rest
    → (line (xs ++ ys) ≡ line xs) × (after_line (xs ++ ys) ≡ some (rest ++ ys))
line-append_some [] ys rest e = absurd (cc)
line-append_some (x ∷ xs) ys rest e = elim (Bool-cases (x == 10)) [
  | inl here ↦ (
    rw here refl,
    rw here (
        let e' : some xs ≡ some rest = rw here at e in
        ap (λ (zs : List ℕ). some (zs ++ ys)) (some-injective _ _ e')),
  )
  | inr on ↦ rw on (let r = line-append_some xs ys rest (rw on at e) in ground (arith, r))
]

-- Where the line of the whole stream ends, by the chunk that is next.
module _ (seen c rest : List ℕ) (open_line : after_line seen ≡ none) where
  pub line-none : find_newline c ≡ none → line (seen ++ (c ++ rest)) ≡ seen ++ (c ++ line rest)
  line-none e =
      let (none_after, all) = find_newline-none c e in
      (line-append seen (c ++ rest) open_line).0
      ∙ ap (λ (bs : List ℕ). seen ++ bs) ((line-append c rest none_after).0)

  pub line-some :
      (i : ℕ)
      → find_newline c ≡ some i
      → (line (seen ++ (c ++ rest)) ≡ seen ++ take i c)
        × (after_line (seen ++ (c ++ rest)) ≡ some (drop (suc i) c ++ rest))
  line-some i e =
      let (after, before, lt) = find_newline-some c i e in
      let (l, a) = line-append seen (c ++ rest) open_line in
      let (l', a') = line-append_some c rest (drop (suc i) c) after in
      (l ∙ ap (λ (bs : List ℕ). seen ++ bs) (l' ∙ before), a ∙ a')
