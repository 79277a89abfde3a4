-- ===== src/Engine/MapState/Iterator/Interleaved.antt =====
-- An iterator and calls on its map, in any order.
use cno_cli.Base.{ℕ, arith, Bool, Option, none, some}
use cno_cli.Base.{List, [], ◌∷◌, Bool-cases, Option-cases, inl, inr}
use cno_cli.Engine.MapState.{
  Keys, Grants, Records, MapState, map_find_record, map_delete_record, new_map,
}
use cno_cli.Engine.MapState.Methods.{
  this_map, value, refused, js_map_set, js_map_delete, clear_loop, js_map_clear,
  js_map_get_or_insert, drop_found, insert_computed, js_map_get_or_insert_computed,
}
use cno_cli.Engine.MapState.Spec.{
  Action, set, get, has, delete, clear, size, get_or_insert, Call, plain, get_or_insert_computed,
  act, act_all, answer,
}
use cno_cli.Engine.MapState.Invariant.{IsValid, new_map-IsValid}
use cno_cli.Engine.MapState.Find.{IsCoherent}
use cno_cli.Engine.MapState.Runs.{answer-Agrees}
use cno_cli.Engine.MapState.Iterator.{Iterator, new_iterator, js_map_iterator_next}
use cno_cli.Engine.MapState.Iterator.Steps.{IsSound, js_map_iterator_next-Advances}
use cno_cli.Engine.MapState.Iterator.Held.{Kept, put_value-Kept, delete-Kept, add-Kept}
use cno_cli.Engine.MapState.Iterator.Valid.{js_map_iterator_next-IsValid}

module _ (keys : Keys) (V : Type 0) where
  open keys use {Key, normalize}

  set-Kept :
      (cur : Option ℕ) (grants : Grants) (arg : Key) (v : V) (s : MapState keys V)
      → Kept keys V cur s
      → Kept keys V cur ((js_map_set keys V grants arg v s).0)
  unfolding js_map_set
  set-Kept cur grants arg v s h = elim (Bool-cases (refused keys V (normalize arg) s)) [
    | inl bad ↦ rw bad h
    | inr fine ↦ elim (Option-cases (map_find_record keys V s (normalize arg))) [
      | inl none_found ↦
          rw (js_map_set, fine, none_found)
            (add-Kept keys V cur grants (normalize arg) v s this_map h)
      | inr (mr, found) ↦ rw (js_map_set, fine, found) (put_value-Kept keys V cur mr v s h)
    ]
  ]

  get_or_insert-Kept :
      (cur : Option ℕ) (grants : Grants) (arg : Key) (v : V) (s : MapState keys V)
      → Kept keys V cur s
      → Kept keys V cur ((js_map_get_or_insert keys V grants arg v s).0)
  unfolding js_map_get_or_insert
  get_or_insert-Kept cur grants arg v s h = elim (Bool-cases (refused keys V (normalize arg) s)) [
    | inl bad ↦ rw bad h
    | inr fine ↦ elim (Option-cases (map_find_record keys V s (normalize arg))) [
      | inl none_found ↦
          rw (js_map_get_or_insert, fine, none_found)
            (add-Kept keys V cur grants (normalize arg) v s (value v) h)
      | inr (mr, found) ↦ rw (js_map_get_or_insert, fine, found) h
    ]
  ]

  js_map_delete-Kept :
      (cur : Option ℕ) (arg : Key) (s : MapState keys V)
      → Kept keys V cur s
      → Kept keys V cur ((js_map_delete keys V arg s).0)
  unfolding js_map_delete
  js_map_delete-Kept cur arg s h = elim (Option-cases (map_find_record keys V s (normalize arg))) [
    | inl none_found ↦ rw (js_map_delete, none_found) h
    | inr (mr, found) ↦ rw (js_map_delete, found) (delete-Kept keys V cur mr s h)
  ]

  clear_loop-Kept :
      (cur : Option ℕ) (rs : Records keys V) (s : MapState keys V)
      → Kept keys V cur s
      → Kept keys V cur (clear_loop keys V rs s)
  unfolding clear_loop
  clear_loop-Kept cur [] s h = h
  clear_loop-Kept cur ((mr, r) ∷ rs) s h =
      clear_loop-Kept cur rs (map_delete_record keys V mr s) (delete-Kept keys V cur mr s h)

  act-Kept :
      (cur : Option ℕ) (a : Action keys V) (s : MapState keys V)
      → Kept keys V cur s
      → Kept keys V cur ((act keys V a s).0)
  unfolding act
  act-Kept cur (set grants key v) s h = set-Kept cur grants key v s h
  act-Kept cur (get key) s h = h
  act-Kept cur (has key) s h = h
  act-Kept cur (delete key) s h = js_map_delete-Kept cur key s h
  act-Kept cur clear s h = unfold js_map_clear in clear_loop-Kept cur s.records s h
  act-Kept cur size s h = h
  act-Kept cur (get_or_insert grants key v) s h = get_or_insert-Kept cur grants key v s h

  act_all-Kept :
      (cur : Option ℕ) (inner : List (Action keys V)) (s : MapState keys V)
      → Kept keys V cur s
      → Kept keys V cur (act_all keys V inner s)
  unfolding act_all
  act_all-Kept cur [] s h = h
  act_all-Kept cur (a ∷ inner) s h =
      act_all-Kept cur inner ((act keys V a s).0) (act-Kept cur a s h)

  drop_found-Kept :
      (cur found : Option ℕ) (s : MapState keys V)
      → Kept keys V cur s
      → Kept keys V cur (drop_found keys V found s)
  unfolding drop_found
  drop_found-Kept cur none s h = h
  drop_found-Kept cur (some mr) s h = delete-Kept keys V cur mr s h

  insert_computed-Kept :
      (cur : Option ℕ) (grants : Grants) (key : Key) (computed : Option V) (s : MapState keys V)
      → Kept keys V cur s
      → Kept keys V cur ((insert_computed keys V grants key computed s).0)
  unfolding insert_computed
  insert_computed-Kept cur grants key none s h = h
  insert_computed-Kept cur grants key (some v) s h =
      add-Kept keys V cur grants key v _ (value v)
        (drop_found-Kept cur (map_find_record keys V s key) s h)

  answer-Kept :
      (cur : Option ℕ) (c : Call keys V) (s : MapState keys V)
      → Kept keys V cur s
      → Kept keys V cur ((answer keys V c s).0)
  unfolding answer js_map_get_or_insert_computed
  answer-Kept cur (plain a) s h = act-Kept cur a s h
  answer-Kept cur (get_or_insert_computed grants arg computed inner) s h =
      elim (Bool-cases (refused keys V (normalize arg) s)) [
        | inl bad ↦ rw bad h
        | inr fine ↦ elim (Option-cases (map_find_record keys V s (normalize arg))) [
          | inl none_found ↦
              rw (js_map_get_or_insert_computed, fine, none_found)
                (insert_computed-Kept cur grants (normalize arg) computed (act_all keys V inner s)
                  (act_all-Kept cur inner s h))
          | inr (mr, found) ↦ rw (js_map_get_or_insert_computed, fine, found) h
        ]
      ]

  -- A call on the map, or one of `next`.
  pub data Event : Type 0 where
    call : Call keys V → Event
    next : Event

  unfoldable pub play :
      List Event → Iterator keys V → MapState keys V → Iterator keys V × MapState keys V
  play [] it s = (it, s)
  play (call c ∷ events) it s = play events it ((answer keys V c s).0)
  play (next ∷ events) it s =
      let (out, (it', s')) = js_map_iterator_next keys V it s in play events it' s'

  abbrev pub AllIsWell : Iterator keys V × MapState keys V → Type 0
  AllIsWell (it, s) = IsValid keys V s × IsSound keys V it s

  play_from :
      (coherent : IsCoherent keys) (events : List Event) (it : Iterator keys V)
      (s : MapState keys V)
      → IsValid keys V s
      → IsSound keys V it s
      → AllIsWell (play events it s)
  unfolding play
  play_from coherent [] it s valid sound = (valid, sound)
  play_from coherent (call c ∷ events) it s valid sound =
      let (valid', weak, same_entries, reply) = answer-Agrees keys V coherent c s valid in
      let (counted, held) = answer-Kept it.cur_record c s (sound.counted, sound.held) in
      play_from coherent events it ((answer keys V c s).0) valid'
        (record { ordered = valid'.ordered; counted = counted; held = held })
  play_from coherent (next ∷ events) it s valid sound =
      let (out, more, same, sound') = js_map_iterator_next-Advances keys V it s sound in
      play_from coherent events _ _ (js_map_iterator_next-IsValid keys V it s sound.held valid)
        sound'

  -- Keys that are the same having the same hash: whatever calls are made on a new map between those of
  -- `next` of an iterator on it, the table keeps its invariant and the iterator stays sound: no count
  -- is 0, and the record that the iterator is at is in the table, empty or with a count of 2 at least.
  pub play-AllIsWell :
      (coherent : IsCoherent keys) (events : List Event) (is_weak : Bool)
      → AllIsWell (play events (new_iterator keys V) (new_map keys V is_weak))
  play-AllIsWell coherent events is_weak =
      play_from coherent events (new_iterator keys V) (new_map keys V is_weak)
        (new_map-IsValid keys V is_weak)
        (unfold new_iterator new_map in record { ordered = omega arith; counted = tt; held = tt })
