-- ===== src/Engine/MapState/Clear.antt =====
-- The loop of `js_map_clear` leaves no entry.
use cno_cli.Base.{ℕ, suc, ◌≤◌, ◌<◌, ◌≡◌, refl, sym, ap, ◌∙◌, arith, Option, none, some}
use cno_cli.Base.{[], ◌∷◌, ◌++◌, append_assoc, append-nil}
use cno_cli.Engine.MapState.{
  Keys, MapRecord, Records, MapState, edit, put_back, entry_at, release, unlink_record,
  map_delete_record,
}
use cno_cli.Engine.MapState.Methods.{clear_loop}
use cno_cli.Engine.MapState.Ordered.{Ordered, entries, edit_here, edit_on}
use cno_cli.Engine.MapState.Entries.{entry_at_here, entry_at_on, entries-append, entries-released}
use cno_cli.Engine.MapState.Invariant.{IsValid, delete-IsValid}

module _ (keys : Keys) (V : Type 0) where
  open keys use {Key}

  -- All addresses are below `a`.
  abbrev Below : ℕ → Records keys V → Type 0
  Below a [] = Unit {0}
  Below a ((b, r) ∷ rs) = (b < a) × Below a rs

  Ordered-first :
      (lo hi a : ℕ) (r : MapRecord keys V) (pre rs : Records keys V)
      → Ordered keys V lo hi (pre ++ ((a, r) ∷ rs))
      → lo ≤ a
  Ordered-first lo hi a r [] rs h = h.0
  Ordered-first lo hi a r ((b, q) ∷ pre) rs h =
      omega (arith, h.0, Ordered-first (suc b) hi a r pre rs h.1)

  Ordered-Below :
      (lo hi a : ℕ) (r : MapRecord keys V) (pre rs : Records keys V)
      → Ordered keys V lo hi (pre ++ ((a, r) ∷ rs))
      → Below a pre
  Ordered-Below lo hi a r [] rs h = tt
  Ordered-Below lo hi a r ((b, q) ∷ pre) rs h =
      (Ordered-first (suc b) hi a r pre rs h.1, Ordered-Below (suc b) hi a r pre rs h.1)

  edit-append :
      (a : ℕ) (f : MapRecord keys V → Option (MapRecord keys V)) (pre rs : Records keys V)
      → Below a pre
      → edit keys V a f (pre ++ rs) ≡ pre ++ edit keys V a f rs
  edit-append a f [] rs b = refl
  edit-append a f ((c, q) ∷ pre) rs b =
      edit_on keys V a c f q (pre ++ rs) (ground (arith, b.0))
      ∙ ap (λ (qs : Records keys V). (c, q) ∷ qs) (edit-append a f pre rs b.1)

  entry_at-append :
      (a : ℕ) (pre rs : Records keys V)
      → Below a pre
      → entry_at keys V a (pre ++ rs) ≡ entry_at keys V a rs
  entry_at-append a [] rs b = refl
  entry_at-append a ((c, q) ∷ pre) rs b =
      entry_at_on keys V a c q (pre ++ rs) (ground (arith, b.0)) ∙ entry_at-append a pre rs b.1

  -- The records are some without an entry, and those that the loop has still to visit.
  abbrev Cleared : Records keys V → Records keys V → Type 0
  Cleared rs records = (pre : Records keys V) × (entries keys V pre ≡ []) × (records ≡ pre ++ rs)

  -- The record that the loop is at, without an entry or taken off.
  Cleared-put_back :
      (a : ℕ) (o : Option (MapRecord keys V)) (pre rs : Records keys V)
      → entries keys V pre ≡ []
      → entries keys V (put_back keys V a o []) ≡ []
      → Cleared rs (pre ++ put_back keys V a o rs)
  Cleared-put_back a none pre rs e z = (pre, e, refl)
  Cleared-put_back a (some q) pre rs e z = (
    pre ++ ((a, q) ∷ []),
    entries-append keys V pre ((a, q) ∷ []) ∙ rw (e, z) refl,
    sym (append_assoc pre ((a, q) ∷ []) rs),
  )

  delete-Cleared :
      (e : Option (Key × V)) (a : ℕ) (r : MapRecord keys V) (pre rs : Records keys V)
      (s : MapState keys V)
      → r.entry ≡ e
      → Below a pre
      → entries keys V pre ≡ []
      → s.records ≡ pre ++ ((a, r) ∷ rs)
      → Cleared rs (unlink_record keys V a e s).records
  unfolding unlink_record
  delete-Cleared none a r pre rs s at b empty e =
      rw e (Cleared-put_back a (some r) pre rs empty (rw at refl))
  delete-Cleared (some k) a r pre rs s at b empty e =
      rw
        (
          e,
          edit-append a (release keys V) pre ((a, r) ∷ rs) b,
          edit_here keys V a a (release keys V) r rs (ground arith),
        )
        (Cleared-put_back a (release keys V r) pre rs empty (entries-released keys V a r []))

  is_weak-delete :
      (mr : ℕ) (e : Option (Key × V)) (s : MapState keys V)
      → (unlink_record keys V mr e s).is_weak ≡ s.is_weak
  unfolding unlink_record
  is_weak-delete mr none s = refl
  is_weak-delete mr (some k) s = refl

  pub clear_loop_lem :
      (rs pre : Records keys V) (s : MapState keys V)
      → IsValid keys V s
      → entries keys V pre ≡ []
      → s.records ≡ pre ++ rs
      → IsValid keys V (clear_loop keys V rs s)
        × ((clear_loop keys V rs s).is_weak ≡ s.is_weak)
        × (entries keys V (clear_loop keys V rs s).records ≡ [])
  unfolding clear_loop map_delete_record
  clear_loop_lem [] pre s h empty e = (h, refl, rw (e, append-nil pre) empty)
  clear_loop_lem ((a, r) ∷ rs) pre s h empty e =
      let order : Ordered keys V 0 s.next_address (pre ++ ((a, r) ∷ rs)) = rw e at h.ordered in
      let below = Ordered-Below 0 s.next_address a r pre rs order in
      let at : entry_at keys V a s.records ≡ r.entry = rw e (
        entry_at-append a pre ((a, r) ∷ rs) below ∙ entry_at_here keys V a a r rs (ground arith)) in
      let (pre', empty', e') =
        delete-Cleared (entry_at keys V a s.records) a r pre rs s (sym at) below empty e in
      let (valid, weak, none_left) =
        clear_loop_lem rs pre' (map_delete_record keys V a s) (delete-IsValid keys V a s h) empty'
          e' in
      (valid, weak ∙ is_weak-delete a (entry_at keys V a s.records) s, none_left)
