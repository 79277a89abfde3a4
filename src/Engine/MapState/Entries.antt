-- ===== src/Engine/MapState/Entries.antt =====
-- The entries of a list of records under the changes of one record.
use cno_cli.Base.{ℕ, suc, ◌+◌, ◌≡◌, refl, sym, ap, ◌∙◌, arith, true, false, Option, none, some}
use cno_cli.Base.{List, [], ◌∷◌, ◌++◌, length, ◌==◌, Bool-cases, inl, inr}
use cno_cli.Engine.MapState.{Keys, MapRecord, Records, edit, put_back, entry_at, release}
use cno_cli.Engine.MapState.Methods.{put_value, with_value}
use cno_cli.Engine.MapState.Ordered.{cons_entry, entries, edit_here, edit_on}

module _ (keys : Keys) (V : Type 0) where
  open keys use {Key}

  cons_entry-append :
      (e : Option (Key × V)) (xs ys : List (Key × V))
      → cons_entry keys V e (xs ++ ys) ≡ cons_entry keys V e xs ++ ys
  cons_entry-append none xs ys = refl
  cons_entry-append (some e) xs ys = refl

  pub entries-append :
      (rs qs : Records keys V) → entries keys V (rs ++ qs) ≡ entries keys V rs ++ entries keys V qs
  entries-append [] qs = refl
  entries-append ((a, r) ∷ rs) qs =
      ap (cons_entry keys V r.entry) (entries-append rs qs)
      ∙ cons_entry-append r.entry (entries keys V rs) (entries keys V qs)

  pub entry_at_here :
      (mr a : ℕ) (r : MapRecord keys V) (rs : Records keys V)
      → (a == mr) ≡ true
      → entry_at keys V mr ((a, r) ∷ rs) ≡ r.entry
  unfolding entry_at
  entry_at_here mr a r rs h = rw h refl

  pub entry_at_on :
      (mr a : ℕ) (r : MapRecord keys V) (rs : Records keys V)
      → (a == mr) ≡ false
      → entry_at keys V mr ((a, r) ∷ rs) ≡ entry_at keys V mr rs
  unfolding entry_at
  entry_at_on mr a r rs h = rw h refl

  -- A record that is released has no entry any more.
  pub entries-released :
      (a : ℕ) (r : MapRecord keys V) (rs : Records keys V)
      → entries keys V (put_back keys V a (release keys V r) rs) ≡ entries keys V rs
  unfolding release
  entries-released a r rs = ground arith

  length-cons_entry :
      (e : Option (Key × V)) (k : Key × V) (es : List (Key × V))
      → e ≡ some k
      → length (cons_entry keys V e es) ≡ length es + 1
  length-cons_entry none k es h = absurd (cc)
  length-cons_entry (some k') k es h = omega arith

  length-cons_more :
      (e : Option (Key × V)) (xs ys : List (Key × V))
      → length xs + 1 ≡ length ys
      → length (cons_entry keys V e xs) + 1 ≡ length (cons_entry keys V e ys)
  length-cons_more none xs ys h = h
  length-cons_more (some k) xs ys h = omega arith

  pub length-entries-release :
      (mr : ℕ) (k : Key × V) (rs : Records keys V)
      → entry_at keys V mr rs ≡ some k
      → length (entries keys V (edit keys V mr (release keys V) rs)) + 1
        ≡ length (entries keys V rs)
  length-entries-release mr k [] e = absurd (unfold entry_at in cc)
  length-entries-release mr k ((a, r) ∷ rs) e = elim (Bool-cases (a == mr)) [
    | inl here ↦
        let one =
          length-cons_entry r.entry k (entries keys V rs)
            (sym (entry_at_here mr a r rs here) ∙ e) in
        let there = ap length (
          ap (entries keys V) (edit_here keys V mr a (release keys V) r rs here)
          ∙ entries-released a r rs) in
        omega arith
    | inr on ↦
        let ih = length-entries-release mr k rs (sym (entry_at_on mr a r rs on) ∙ e) in
        ap (λ (qs : Records keys V). length (entries keys V qs) + 1)
          (edit_on keys V mr a (release keys V) r rs on)
        ∙ length-cons_more r.entry _ (entries keys V rs) ih
  ]

  length-cons_put :
      (v : V) (e : Option (Key × V)) (xs ys : List (Key × V))
      → length xs ≡ length ys
      → length (cons_entry keys V (with_value keys V v e) xs) ≡ length (cons_entry keys V e ys)
  length-cons_put v none xs ys h = h
  length-cons_put v (some (k, w)) xs ys h = ap suc h

  length-cons_same :
      (e : Option (Key × V)) (xs ys : List (Key × V))
      → length xs ≡ length ys
      → length (cons_entry keys V e xs) ≡ length (cons_entry keys V e ys)
  length-cons_same none xs ys h = h
  length-cons_same (some k) xs ys h = ap suc h

  pub length-entries_put :
      (mr : ℕ) (v : V) (rs : Records keys V)
      → length (entries keys V (edit keys V mr (put_value keys V v) rs))
        ≡ length (entries keys V rs)
  unfolding edit put_value
  length-entries_put mr v [] = refl
  length-entries_put mr v ((a, r) ∷ rs) = elim (Bool-cases (a == mr)) [
    | inl here ↦ rw here (length-cons_put v r.entry (entries keys V rs) (entries keys V rs) refl)
    | inr on ↦ rw on (length-cons_same r.entry _ (entries keys V rs) (length-entries_put mr v rs))
  ]
