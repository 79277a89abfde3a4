-- ===== src/Engine/MapState/Iterator/Held.antt =====
-- What the methods do to the table keeps the record that an iterator is at.
use cno_cli.Base.{ℕ, ◌-◌, ◌≤◌, ◌≡◌, ◌≢◌, ◌⊎◌, refl, sym, ap, ◌∙◌, arith, Option, none, some}
use cno_cli.Base.{[], ◌∷◌, ◌++◌, ◌==◌, Bool-cases, inl, inr}
use cno_cli.Engine.MapState.{
  Keys, Grants, MapRecord, Records, MapState, edit, put_back, entry_at, release, link_record,
  map_add_record, unlink_record, map_delete_record,
}
use cno_cli.Engine.MapState.Methods.{Reply, with_value, put_value, stored}
use cno_cli.Engine.MapState.Ordered.{edit_here, edit_on}
use cno_cli.Engine.MapState.Entries.{entry_at_here, entry_at_on}
use cno_cli.Engine.MapState.Refines.{records-enlarge}
use cno_cli.Engine.MapState.Iterator.After.{IsHeld, IsCounted}
use cno_cli.Engine.MapState.Iterator.Steps.{HeldBy}

module _ (keys : Keys) (V : Type 0) where
  open keys use {Key, normalize}

  IsCounted-release :
      (a : ℕ) (rs : Records keys V)
      → IsCounted keys V rs
      → IsCounted keys V (edit keys V a (release keys V) rs)
  unfolding edit release
  IsCounted-release a [] h = tt
  IsCounted-release a ((b, r) ∷ rs) h = ground (arith, IsCounted-release a rs h.1)

  IsCounted-put_value :
      (a : ℕ) (v : V) (rs : Records keys V)
      → IsCounted keys V rs
      → IsCounted keys V (edit keys V a (put_value keys V v) rs)
  unfolding edit put_value
  IsCounted-put_value a v [] h = tt
  IsCounted-put_value a v ((b, r) ∷ rs) h = ground (arith, IsCounted-put_value a v rs h.1)

  IsCounted-append :
      (rs more : Records keys V)
      → IsCounted keys V rs
      → IsCounted keys V more
      → IsCounted keys V (rs ++ more)
  IsCounted-append [] more h k = k
  IsCounted-append ((b, r) ∷ rs) more h k = (h.0, IsCounted-append rs more h.1 k)

  IsHeld-append :
      (mr : ℕ) (rs more : Records keys V) → IsHeld keys V mr rs → IsHeld keys V mr (rs ++ more)
  IsHeld-append mr [] more h = absurd h
  IsHeld-append mr ((b, r) ∷ rs) more (inl here) = inl here
  IsHeld-append mr ((b, r) ∷ rs) more (inr (other, h)) = inr (other, IsHeld-append mr rs more h)

  IsHeld-put_back :
      (mr b : ℕ) (o : Option (MapRecord keys V)) (rs : Records keys V)
      → b ≢ mr
      → IsHeld keys V mr rs
      → IsHeld keys V mr (put_back keys V b o rs)
  IsHeld-put_back mr b none rs other h = h
  IsHeld-put_back mr b (some r) rs other h = inr (other, h)

  -- A held record with an entry stays as an empty one.
  held_release :
      (r : MapRecord keys V) (e : Key × V)
      → r.entry ≡ some e
      → (r.entry ≡ none) ⊎ (2 ≤ r.ref_count)
      → release keys V r ≡ some (record { ref_count = r.ref_count - 1; entry = none })
  unfolding release
  held_release r e at (inl gone) = absurd (cc)
  held_release r e at (inr many) = ground arith

  IsHeld-release :
      (mr a : ℕ) (e : Key × V) (rs : Records keys V)
      → entry_at keys V a rs ≡ some e
      → IsHeld keys V mr rs
      → IsHeld keys V mr (edit keys V a (release keys V) rs)
  IsHeld-release mr a e [] at held = absurd held
  IsHeld-release mr a e ((b, r) ∷ rs) at (inl (same, held)) = elim (Bool-cases (b == a)) [
    | inl here ↦
        rw
          (
            edit_here keys V a b (release keys V) r rs here,
            held_release r e (sym (entry_at_here keys V a b r rs here) ∙ at) held,
          )
          (inl (same, inl refl))
    | inr on ↦ rw (edit_on keys V a b (release keys V) r rs on) (inl (same, held))
  ]
  IsHeld-release mr a e ((b, r) ∷ rs) at (inr (other, held)) = elim (Bool-cases (b == a)) [
    | inl here ↦
        rw (edit_here keys V a b (release keys V) r rs here)
          (IsHeld-put_back mr b (release keys V r) rs other held)
    | inr on ↦
        rw (edit_on keys V a b (release keys V) r rs on)
          (inr (other, IsHeld-release mr a e rs (sym (entry_at_on keys V a b r rs on) ∙ at) held))
  ]

  still_held :
      (v : V) (r : MapRecord keys V)
      → (r.entry ≡ none) ⊎ (2 ≤ r.ref_count)
      → (with_value keys V v r.entry ≡ none) ⊎ (2 ≤ r.ref_count)
  still_held v r (inl gone) = inl (ap (with_value keys V v) gone)
  still_held v r (inr many) = inr many

  IsHeld-put_value :
      (mr a : ℕ) (v : V) (rs : Records keys V)
      → IsHeld keys V mr rs
      → IsHeld keys V mr (edit keys V a (put_value keys V v) rs)
  IsHeld-put_value mr a v [] held = absurd held
  IsHeld-put_value mr a v ((b, r) ∷ rs) (inl (same, held)) = elim (Bool-cases (b == a)) [
    | inl here ↦
        rw (edit_here keys V a b (put_value keys V v) r rs here)
          (unfold put_value in inl (same, still_held v r held))
    | inr on ↦ rw (edit_on keys V a b (put_value keys V v) r rs on) (inl (same, held))
  ]
  IsHeld-put_value mr a v ((b, r) ∷ rs) (inr (other, held)) = elim (Bool-cases (b == a)) [
    | inl here ↦
        rw (edit_here keys V a b (put_value keys V v) r rs here)
          (unfold put_value in inr (other, held))
    | inr on ↦
        rw (edit_on keys V a b (put_value keys V v) r rs on)
          (inr (other, IsHeld-put_value mr a v rs held))
  ]

  HeldBy-each :
      (cur : Option ℕ) (rs rs' : Records keys V)
      → ((mr : ℕ) → IsHeld keys V mr rs → IsHeld keys V mr rs')
      → HeldBy keys V cur rs
      → HeldBy keys V cur rs'
  HeldBy-each none rs rs' f h = tt
  HeldBy-each (some mr) rs rs' f h = f mr h

  -- What an iterator at `cur` needs of the records.
  abbrev pub Kept : Option ℕ → MapState keys V → Type 0
  Kept cur s = IsCounted keys V s.records × HeldBy keys V cur s.records

  pub put_value-Kept :
      (cur : Option ℕ) (mr : ℕ) (v : V) (s : MapState keys V)
      → Kept cur s
      → Kept cur (record s { records = edit keys V mr (put_value keys V v) s.records })
  put_value-Kept cur mr v s (counted, held) = (
    IsCounted-put_value mr v s.records counted,
    HeldBy-each cur s.records _ (λ m h. IsHeld-put_value m mr v s.records h) held,
  )

  unlink-Kept :
      (cur : Option ℕ) (mr : ℕ) (o : Option (Key × V)) (s : MapState keys V)
      → entry_at keys V mr s.records ≡ o
      → Kept cur s
      → Kept cur (unlink_record keys V mr o s)
  unfolding unlink_record
  unlink-Kept cur mr none s at h = h
  unlink-Kept cur mr (some e) s at (counted, held) = (
    IsCounted-release mr s.records counted,
    HeldBy-each cur s.records _ (λ m h. IsHeld-release m mr e s.records at h) held,
  )

  pub delete-Kept :
      (cur : Option ℕ) (mr : ℕ) (s : MapState keys V)
      → Kept cur s
      → Kept cur (map_delete_record keys V mr s)
  unfolding map_delete_record
  delete-Kept cur mr s h = unlink-Kept cur mr (entry_at keys V mr s.records) s refl h

  link-Kept :
      (cur : Option ℕ) (key : Key) (v : V) (s : MapState keys V)
      → Kept cur s
      → Kept cur (link_record keys V key v s)
  unfolding link_record
  link-Kept cur key v s (counted, held) = (
    IsCounted-append s.records _ counted (omega arith, tt),
    HeldBy-each cur s.records _ (λ m h. IsHeld-append m s.records _ h) held,
  )

  pub add-Kept :
      (cur : Option ℕ) (grants : Grants) (key : Key) (v : V) (s : MapState keys V)
      (reply : Reply keys V)
      → Kept cur s
      → Kept cur (stored keys V (map_add_record keys V grants key v s) s reply).0
  unfolding stored map_add_record
  add-Kept cur grants key v s reply h = elim (Bool-cases (grants.for_record)) [
    | inl granted ↦
        rw (granted, (records-enlarge keys V grants.for_table (link_record keys V key v s)).0)
          (link-Kept cur key v s h)
    | inr no_memory ↦ rw no_memory h
  ]
