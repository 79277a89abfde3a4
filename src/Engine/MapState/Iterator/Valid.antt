-- ===== src/Engine/MapState/Iterator/Valid.antt =====
-- A call of `js_map_iterator_next` keeps the invariant of the table.
use cno_cli.Base.{
  ℕ, ◌-◌, ◌≤◌, ◌≡◌, ◌⊎◌, refl, sym, ap, ◌∙◌, arith, Bool, true, false, Option, none, some, length,
}
use cno_cli.Base.{[], ◌∷◌, ◌==◌, Bool-cases, inl, inr}
use cno_cli.Engine.MapState.{
  Keys, MapRecord, Records, MapState, edit, put_back, let_go, map_decref_record,
}
use cno_cli.Engine.MapState.Ordered.{Ordered-edit, entries, cons_listed, listed, edit_here, edit_on}
use cno_cli.Engine.MapState.Invariant.{IsValid}
use cno_cli.Engine.MapState.Iterator.{
  Iterator, after, first_live, lock, take_record, step_from, js_map_iterator_next,
}
use cno_cli.Engine.MapState.Iterator.After.{IsHeld, on_other, entries-lock, entries-let_go}
use cno_cli.Engine.MapState.Iterator.Steps.{HeldBy}

module _ (keys : Keys) (V : Type 0) where
  open keys use {Key}

  listed-lock :
      (mr size i : ℕ) (rs : Records keys V)
      → listed keys V size i (edit keys V mr (lock keys V) rs) ≡ listed keys V size i rs
  unfolding edit lock
  listed-lock mr size i [] = refl
  listed-lock mr size i ((a, r) ∷ rs) = ground (arith, listed-lock mr size i rs)

  listed_one :
      (size i a : ℕ) (r : MapRecord keys V) (rs : Records keys V)
      → (r.entry ≡ none) ⊎ (2 ≤ r.ref_count)
      → listed keys V size i (put_back keys V a (let_go keys V r) rs)
        ≡ cons_listed keys V size i a r.entry (listed keys V size i rs)
  unfolding let_go
  listed_one size i a r rs (inl gone) = elim (Bool-cases (r.ref_count - 1 == 0)) [
    | inl last ↦ rw (last, gone) refl
    | inr more ↦ rw (more, gone) refl
  ]
  listed_one size i a r rs (inr many) = ground arith

  listed-let_go :
      (mr size i : ℕ) (rs : Records keys V)
      → IsHeld keys V mr rs
      → listed keys V size i (edit keys V mr (let_go keys V) rs) ≡ listed keys V size i rs
  listed-let_go mr size i [] held = absurd held
  listed-let_go mr size i ((a, r) ∷ rs) (inl (same, held)) =
      ap (listed keys V size i) (edit_here keys V mr a (let_go keys V) r rs (ground arith))
      ∙ listed_one size i a r rs held
  listed-let_go mr size i ((a, r) ∷ rs) (inr (other, held)) =
      ap (listed keys V size i)
        (edit_on keys V mr a (let_go keys V) r rs (on_other keys V a mr other))
      ∙ ap (cons_listed keys V size i a r.entry) (listed-let_go mr size i rs held)

  edit-IsValid :
      (mr : ℕ) (f : MapRecord keys V → Option (MapRecord keys V)) (s : MapState keys V)
      → ((size i : ℕ)
          → listed keys V size i (edit keys V mr f s.records) ≡ listed keys V size i s.records)
      → entries keys V (edit keys V mr f s.records) ≡ entries keys V s.records
      → IsValid keys V s
      → IsValid keys V (record s { records = edit keys V mr f s.records })
  edit-IsValid mr f s same_listed same_entries h = record {
    ordered = Ordered-edit keys V mr 0 s.next_address f s.records h.ordered;
    sized = h.sized;
    tabled = h.tabled;
    buckets = λ i. h.buckets i ∙ sym (same_listed s.hash_size i);
    counted = h.counted ∙ ap length (sym same_entries);
  }

  take-IsValid :
      (found : Option (ℕ × (Key × V))) (s : MapState keys V)
      → IsValid keys V s
      → IsValid keys V ((take_record keys V found s).1.1)
  unfolding take_record
  take-IsValid none s h = h
  take-IsValid (some (a, e)) s h =
      edit-IsValid a (lock keys V) s (λ size i. listed-lock a size i s.records)
        (entries-lock keys V a s.records) h

  step-IsValid :
      (cur : Option ℕ) (s : MapState keys V)
      → HeldBy keys V cur s.records
      → IsValid keys V s
      → IsValid keys V ((step_from keys V cur s).1.1)
  unfolding step_from map_decref_record
  step-IsValid none s held h = take-IsValid (first_live keys V s.records) s h
  step-IsValid (some mr) s held h = take-IsValid (first_live keys V (after keys V mr s.records)) _ (
      edit-IsValid mr (let_go keys V) s (λ size i. listed-let_go mr size i s.records held)
        (entries-let_go keys V mr s.records held) h)

  next_by-IsValid :
      (is_open : Bool) (cur : Option ℕ) (s : MapState keys V)
      → HeldBy keys V cur s.records
      → IsValid keys V s
      → IsValid keys V
          ((js_map_iterator_next keys V (record { is_open = is_open; cur_record = cur }) s).1.1)
  unfolding js_map_iterator_next
  next_by-IsValid true cur s held h = step-IsValid cur s held h
  next_by-IsValid false cur s held h = h

  pub js_map_iterator_next-IsValid :
      (it : Iterator keys V) (s : MapState keys V)
      → HeldBy keys V it.cur_record s.records
      → IsValid keys V s
      → IsValid keys V ((js_map_iterator_next keys V it s).1.1)
  js_map_iterator_next-IsValid it s held h = next_by-IsValid it.is_open it.cur_record s held h
