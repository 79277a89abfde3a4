-- ===== src/Engine/MapState/Iterator.antt =====
-- `js_create_map_iterator` and `js_map_iterator_next` of .backup/quickjs.c, for the kind of iterator
-- that gives whole entries.
pub mod After
pub mod Steps
pub mod Drain
pub mod Held
pub mod Valid
pub mod Interleaved
use cno_cli.Base.{
  ℕ, zero, suc, ◌+◌, ◌-◌, ◌≤◌, ◌<◌, ◌≡◌, refl, sym, ap, ◌∙◌, arith, Bool, true, false, Option, none,
  some,
}
use cno_cli.Base.{
  List, [], ◌∷◌, ◌++◌, length, ◌==◌, if◌then◌else◌, Bool-cases, Option-cases, inl, inr,
}
use cno_cli.Engine.MapState.{
  Keys, MapRecord, Records, MapState, edit, put_back, let_go, map_decref_record,
}
use cno_cli.Engine.MapState.Ordered.{
  Ordered, Ordered-weaken, cons_entry, entries, edit_here, edit_on, Ordered-edit, edit-below,
}

module _ (keys : Keys) (V : Type 0) where
  open keys use {Key}

  -- `is_open` until the end has been seen.
  pub record Iterator : Type 0 where
    pub is_open : Bool
    pub cur_record : Option ℕ

  -- `js_create_map_iterator`
  unfoldable pub new_iterator : Iterator
  new_iterator = record { is_open = true; cur_record = none }

  -- The records behind an address, from `mr->link.next` on.
  unfoldable pub after : ℕ → Records keys V → Records keys V
  after mr [] = []
  after mr ((a, r) ∷ rs) = let rest = after mr rs in if a == mr then rs else rest

  abbrev pub or_first : Option (Key × V) → ℕ → Option (ℕ × (Key × V)) → Option (ℕ × (Key × V))
  or_first none a later = later
  or_first (some e) a later = some (a, e)

  -- The loop over the records that are empty.
  unfoldable pub first_live : Records keys V → Option (ℕ × (Key × V))
  first_live [] = none
  first_live ((a, r) ∷ rs) = or_first r.entry a (first_live rs)

  -- `mr->ref_count++`
  unfoldable pub lock : MapRecord keys V → Option (MapRecord keys V)
  lock r = some (record r { ref_count = r.ref_count + 1 })

  abbrev pub Next : Type 0
  Next = Option (Key × V) × (Iterator × MapState keys V)

  unfoldable pub take_record : Option (ℕ × (Key × V)) → MapState keys V → Next
  unfolding lock
  take_record none s = (none, (record { is_open = false; cur_record = none }, s))
  take_record (some (a, e)) s = (
    some e,
    (
      record { is_open = true; cur_record = some a },
      record s { records = edit keys V a lock s.records },
    ),
  )

  unfoldable pub step_from : Option ℕ → MapState keys V → Next
  unfolding take_record after first_live
  step_from none s = take_record (first_live s.records) s
  step_from (some mr) s =
      take_record (first_live (after mr s.records)) (map_decref_record keys V mr s)

  unfoldable pub js_map_iterator_next : Iterator → MapState keys V → Next
  unfolding step_from
  js_map_iterator_next it s = if it.is_open then step_from it.cur_record s else (none, (it, s))
