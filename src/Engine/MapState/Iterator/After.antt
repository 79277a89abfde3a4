-- ===== src/Engine/MapState/Iterator/After.antt =====
-- The records behind an address, and those that an iterator holds.
use cno_cli.Base.{
  ℕ, suc, ◌-◌, ◌≤◌, ◌<◌, ◌≡◌, ◌≢◌, ◌⊎◌, refl, sym, ap, ◌∙◌, arith, true, false, Option, none, some,
}
use cno_cli.Base.{[], ◌∷◌, ◌==◌, Bool-cases, inl, inr}
use cno_cli.Engine.MapState.{Keys, MapRecord, Records, edit, put_back, let_go}
use cno_cli.Engine.MapState.Ordered.{Ordered, cons_entry, entries, edit_here, edit_on, edit-below}
use cno_cli.Engine.MapState.Iterator.{after, lock}

module _ (keys : Keys) (V : Type 0) where
  open keys use {Key}

  -- A record that an iterator is at is among the records, and where it has an entry its count is
  -- one more than that of the table alone.
  abbrev pub IsHeld : ℕ → Records keys V → Type 0
  IsHeld mr [] = ⊥
  IsHeld mr ((a, r) ∷ rs) =
      ((a ≡ mr) × ((r.entry ≡ none) ⊎ (2 ≤ r.ref_count))) ⊎ ((a ≢ mr) × IsHeld mr rs)

  -- No record has the count 0.
  abbrev pub IsCounted : Records keys V → Type 0
  IsCounted [] = Unit {0}
  IsCounted ((a, r) ∷ rs) = (1 ≤ r.ref_count) × IsCounted rs

  pub here_same : (a mr : ℕ) → (a == mr) ≡ true → a ≡ mr
  here_same a mr h = ground arith

  pub on_other : (a mr : ℕ) → a ≢ mr → (a == mr) ≡ false
  on_other a mr h = ground arith

  pub IsHeld-from :
      (mr lo hi : ℕ) (rs : Records keys V) → Ordered keys V lo hi rs → IsHeld mr rs → lo ≤ mr
  IsHeld-from mr lo hi [] h held = absurd held
  IsHeld-from mr lo hi ((a, r) ∷ rs) h (inl (same, held)) = omega (arith, h.0)
  IsHeld-from mr lo hi ((a, r) ∷ rs) h (inr (other, held)) =
      omega (arith, h.0, IsHeld-from mr (suc a) hi rs h.1 held)

  pub entries-lock :
      (mr : ℕ) (rs : Records keys V)
      → entries keys V (edit keys V mr (lock keys V) rs) ≡ entries keys V rs
  unfolding edit lock
  entries-lock mr [] = refl
  entries-lock mr ((a, r) ∷ rs) = ground (arith, entries-lock mr rs)

  pub IsCounted-lock :
      (mr : ℕ) (rs : Records keys V) → IsCounted rs → IsCounted (edit keys V mr (lock keys V) rs)
  unfolding edit lock
  IsCounted-lock mr [] h = tt
  IsCounted-lock mr ((a, r) ∷ rs) h = ground (arith, IsCounted-lock mr rs h.1)

  pub IsCounted-let_go :
      (mr : ℕ) (rs : Records keys V) → IsCounted rs → IsCounted (edit keys V mr (let_go keys V) rs)
  unfolding edit let_go
  IsCounted-let_go mr [] h = tt
  IsCounted-let_go mr ((a, r) ∷ rs) h = ground (arith, IsCounted-let_go mr rs h.1)

  -- Letting go of a record that is held loses no entry.
  pub let_go_one :
      (a : ℕ) (r : MapRecord keys V) (rs : Records keys V)
      → (r.entry ≡ none) ⊎ (2 ≤ r.ref_count)
      → entries keys V (put_back keys V a (let_go keys V r) rs)
        ≡ cons_entry keys V r.entry (entries keys V rs)
  unfolding let_go
  let_go_one a r rs (inl gone) = elim (Bool-cases (r.ref_count - 1 == 0)) [
    | inl last ↦ rw (last, gone) refl
    | inr more ↦ rw (more, gone) refl
  ]
  let_go_one a r rs (inr many) = ground arith

  pub entries-let_go :
      (mr : ℕ) (rs : Records keys V)
      → IsHeld mr rs
      → entries keys V (edit keys V mr (let_go keys V) rs) ≡ entries keys V rs
  entries-let_go mr [] held = absurd held
  entries-let_go mr ((a, r) ∷ rs) (inl (same, held)) =
      ap (entries keys V) (edit_here keys V mr a (let_go keys V) r rs (ground arith))
      ∙ let_go_one a r rs held
  entries-let_go mr ((a, r) ∷ rs) (inr (other, held)) =
      ap (entries keys V) (edit_on keys V mr a (let_go keys V) r rs (on_other a mr other))
      ∙ ap (cons_entry keys V r.entry) (entries-let_go mr rs held)

  pub after_here :
      (mr a : ℕ) (r : MapRecord keys V) (rs : Records keys V)
      → (a == mr) ≡ true
      → after keys V mr ((a, r) ∷ rs) ≡ rs
  unfolding after
  after_here mr a r rs h = rw h refl

  pub after_on :
      (mr a : ℕ) (r : MapRecord keys V) (rs : Records keys V)
      → (a == mr) ≡ false
      → after keys V mr ((a, r) ∷ rs) ≡ after keys V mr rs
  unfolding after
  after_on mr a r rs h = rw h refl

  pub Ordered-after :
      (mr lo hi : ℕ) (rs : Records keys V)
      → Ordered keys V lo hi rs
      → IsHeld mr rs
      → Ordered keys V (suc mr) hi (after keys V mr rs)
  Ordered-after mr lo hi [] h held = absurd held
  Ordered-after mr lo hi ((a, r) ∷ rs) h (inl (same, held)) =
      rw (after_here mr a r rs (ground arith), ← same) h.1
  Ordered-after mr lo hi ((a, r) ∷ rs) h (inr (other, held)) =
      rw (after_on mr a r rs (on_other a mr other)) (Ordered-after mr (suc a) hi rs h.1 held)

  pub after-put_back :
      (a b : ℕ) (o : Option (MapRecord keys V)) (rs : Records keys V)
      → (b == a) ≡ false
      → after keys V a (put_back keys V b o rs) ≡ after keys V a rs
  after-put_back a b none rs h = refl
  after-put_back a b (some r) rs h = after_on a b r rs h

  -- What is behind a record does not change with one before it.
  pub after-edit :
      (a mr lo hi : ℕ) (f : MapRecord keys V → Option (MapRecord keys V)) (rs : Records keys V)
      → Ordered keys V lo hi rs
      → mr < a
      → after keys V a (edit keys V mr f rs) ≡ after keys V a rs
  after-edit a mr lo hi f [] h lt = unfold edit in refl
  after-edit a mr lo hi f ((b, r) ∷ rs) h lt = elim (Bool-cases (b == mr)) [
    | inl here ↦
        let apart : (b == a) ≡ false = ground arith in
        ap (after keys V a) (edit_here keys V mr b f r rs here)
        ∙ after-put_back a b (f r) rs apart
        ∙ sym (after_on a b r rs apart)
    | inr on ↦ ap (after keys V a) (edit_on keys V mr b f r rs on) ∙ elim (Bool-cases (b == a)) [
      | inl found ↦
          after_here a b r (edit keys V mr f rs) found
          ∙ edit-below keys V mr (suc b) hi f rs h.1 (ground arith)
          ∙ sym (after_here a b r rs found)
      | inr further ↦
          after_on a b r (edit keys V mr f rs) further
          ∙ after-edit a mr (suc b) hi f rs h.1 lt
          ∙ sym (after_on a b r rs further)
    ]
  ]

  pub after-lock :
      (a : ℕ) (rs : Records keys V)
      → after keys V a (edit keys V a (lock keys V) rs) ≡ after keys V a rs
  unfolding edit lock after
  after-lock a [] = refl
  after-lock a ((b, r) ∷ rs) = ground (arith, after-lock a rs)

  pub after-after :
      (a mr lo hi : ℕ) (rs : Records keys V)
      → Ordered keys V lo hi rs
      → IsHeld mr rs
      → mr < a
      → after keys V a (after keys V mr rs) ≡ after keys V a rs
  after-after a mr lo hi [] h held lt = absurd held
  after-after a mr lo hi ((b, r) ∷ rs) h (inl (equal, held)) lt =
      ap (after keys V a) (after_here mr b r rs (ground arith))
      ∙ sym (after_on a b r rs (ground arith))
  after-after a mr lo hi ((b, r) ∷ rs) h (inr (other, held)) lt =
      let from = IsHeld-from mr (suc b) hi rs h.1 held in
      ap (after keys V a) (after_on mr b r rs (on_other b mr other))
      ∙ after-after a mr (suc b) hi rs h.1 held lt
      ∙ sym (after_on a b r rs (ground arith))
