-- ===== src/Engine/MapState/Methods.antt =====
-- The methods of `Map` and `Set` of .backup/quickjs.c on their table, after the check of `this`.
use cno_cli.Base.{ℕ, Bool, true, false, not, ◌&&◌, Option, none, some, [], ◌∷◌, if◌then◌else◌}
use cno_cli.Engine.MapState.{
  Keys, Grants, MapRecord, Records, MapState, edit, entry_at, map_find_record, map_add_record,
  map_delete_record,
}

module _ (keys : Keys) (V : Type 0) where
  open keys use {Key, normalize, weak_target}

  -- What a method returns or throws.
  pub data Reply : Type 0 where
    this_map undefined : Reply
    value : V → Reply
    bool : Bool → Reply
    number : ℕ → Reply
    invalid_key out_of_memory callback_threw : Reply

  abbrev pub with_value : V → Option (Key × V) → Option (Key × V)
  with_value v none = none
  with_value v (some (k, old)) = some (k, v)

  -- `mr->value = value`
  unfoldable pub put_value : V → MapRecord keys V → Option (MapRecord keys V)
  put_value v r = some (record r { entry = with_value v r.entry })

  unfoldable pub stored :
      Option (MapState keys V) → MapState keys V → Reply → MapState keys V × Reply
  stored none s reply = (s, out_of_memory)
  stored (some s') s reply = (s', reply)

  unfoldable pub refused : Key → MapState keys V → Bool
  refused key s = s.is_weak && not (weak_target key)

  -- For a `Set` the value is undefined.
  unfoldable pub js_map_set : Grants → Key → V → MapState keys V → MapState keys V × Reply
  unfolding put_value stored refused
  js_map_set grants arg v s =
      let key = normalize arg in
      if refused key s then (s, invalid_key) else elim (map_find_record keys V s key) [
        | some mr ↦ (record s { records = edit keys V mr (put_value v) s.records }, this_map)
        | none ↦ stored (map_add_record keys V grants key v s) s this_map
      ]

  unfoldable pub value_of : Option (Key × V) → Reply
  value_of none = undefined
  value_of (some (k, v)) = value v

  unfoldable pub js_map_get : Key → MapState keys V → Reply
  unfolding value_of
  js_map_get arg s = elim (map_find_record keys V s (normalize arg)) [
    | none ↦ undefined
    | some mr ↦ value_of (entry_at keys V mr s.records)
  ]

  unfoldable pub js_map_has : Key → MapState keys V → Reply
  js_map_has arg s =
      bool (elim (map_find_record keys V s (normalize arg)) [ none ↦ false | some mr ↦ true ])

  unfoldable pub js_map_delete : Key → MapState keys V → MapState keys V × Reply
  js_map_delete arg s = elim (map_find_record keys V s (normalize arg)) [
    | none ↦ (s, bool false)
    | some mr ↦ (map_delete_record keys V mr s, bool true)
  ]

  -- The loop of `js_map_clear`, over the addresses that the list has when it begins: what the body
  -- takes off the list is the record it is at.
  unfoldable pub clear_loop : Records keys V → MapState keys V → MapState keys V
  clear_loop [] s = s
  clear_loop ((mr, r) ∷ rs) s = clear_loop rs (map_delete_record keys V mr s)

  unfoldable pub js_map_clear : MapState keys V → MapState keys V × Reply
  unfolding clear_loop
  js_map_clear s = (clear_loop s.records s, undefined)

  unfoldable pub js_map_get_size : MapState keys V → Reply
  js_map_get_size s = number s.record_count

  -- `getOrInsert`.
  unfoldable pub js_map_get_or_insert : Grants → Key → V → MapState keys V → MapState keys V × Reply
  unfolding value_of stored refused
  js_map_get_or_insert grants arg v s =
      let key = normalize arg in
      if refused key s then (s, invalid_key) else elim (map_find_record keys V s key) [
        | some mr ↦ (s, value_of (entry_at keys V mr s.records))
        | none ↦ stored (map_add_record keys V grants key v s) s (value v)
      ]

  -- `getOrInsertComputed`, where the callback leaves the table as `called` and returns a value or
  -- throws. The callback is not called where the key is there. It is a function: `check_function`
  -- throws on anything else, before the table is read.
  unfoldable pub drop_found : Option ℕ → MapState keys V → MapState keys V
  drop_found none s = s
  drop_found (some mr) s = map_delete_record keys V mr s

  unfoldable pub insert_computed :
      Grants → Key → Option V → MapState keys V → MapState keys V × Reply
  unfolding drop_found stored
  insert_computed grants key none called = (called, callback_threw)
  insert_computed grants key (some v) called =
      let dropped = drop_found (map_find_record keys V called key) called in
      stored (map_add_record keys V grants key v dropped) dropped (value v)

  unfoldable pub js_map_get_or_insert_computed :
      Grants
      → Key
      → Option V
      → (MapState keys V → MapState keys V)
      → MapState keys V
      → MapState keys V × Reply
  unfolding insert_computed value_of refused
  js_map_get_or_insert_computed grants arg computed callback s =
      let key = normalize arg in
      if refused key s then (s, invalid_key) else elim (map_find_record keys V s key) [
        | some mr ↦ (s, value_of (entry_at keys V mr s.records))
        | none ↦ insert_computed grants key computed (callback s)
      ]
