-- ===== src/Engine/MapState/Refines.antt =====
-- The table does what the association list does, call by call.
use cno_cli.Base.{◌≡◌, refl, sym, ap, ◌∙◌, Bool, true, false, Option, none, some}
use cno_cli.Base.{List, [], ◌∷◌, ◌++◌, leb, Bool-cases, inl, inr, not, ◌&&◌}
use cno_cli.Engine.MapState.{
  Keys, Grants, MapState, map_find_record, map_hash_resize, enlarge, link_record, map_add_record,
  unlink_record, map_delete_record,
}
use cno_cli.Engine.MapState.Methods.{
  Reply, this_map, value, bool, number, stored, refused, value_of, js_map_set, js_map_get,
  js_map_has, js_map_delete, js_map_clear, js_map_get_size, js_map_get_or_insert, drop_found,
  insert_computed,
}
use cno_cli.Engine.MapState.Spec.{
  lookup, erase, Action, set, get, has, delete, clear, size, get_or_insert, act, act_all, appended,
  get_found, is_found, compute, spec_act, spec_act_all,
}
use cno_cli.Engine.MapState.Ordered.{entries}
use cno_cli.Engine.MapState.Entries.{entries-append}
use cno_cli.Engine.MapState.Invariant.{IsValid, add-IsValid, delete-IsValid, put_value-IsValid}
use cno_cli.Engine.MapState.Find.{IsCoherent, Hit, map_find_record-cases}
use cno_cli.Engine.MapState.Clear.{clear_loop_lem}

module _ (keys : Keys) (V : Type 0) where
  open keys use {Key, normalize}

  -- An outcome on the table that is the one on the entries.
  abbrev pub Agrees : Bool → MapState keys V × Reply keys V → List (Key × V) × Reply keys V → Type 0
  Agrees weak out spec =
      IsValid keys V out.0
      × (out.0.is_weak ≡ weak)
      × (entries keys V out.0.records ≡ spec.0)
      × (out.1 ≡ spec.1)

  records-resize :
      (granted : Bool) (s : MapState keys V)
      → ((map_hash_resize keys V granted s).records ≡ s.records)
        × ((map_hash_resize keys V granted s).is_weak ≡ s.is_weak)
  unfolding map_hash_resize
  records-resize true s = (refl, refl)
  records-resize false s = (refl, refl)

  pub records-enlarge :
      (granted : Bool) (s : MapState keys V)
      → ((enlarge keys V granted s).records ≡ s.records)
        × ((enlarge keys V granted s).is_weak ≡ s.is_weak)
  records-enlarge granted s = elim (Bool-cases (leb s.record_count_threshold s.record_count)) [
    | inl over ↦ rw over (records-resize granted s)
    | inr under ↦ rw under (refl, refl)
  ]

  link-entries :
      (key : Key) (v : V) (s : MapState keys V)
      → (entries keys V (link_record keys V key v s).records
          ≡ entries keys V s.records ++ ((key, v) ∷ []))
        × ((link_record keys V key v s).is_weak ≡ s.is_weak)
  unfolding link_record
  link-entries key v s = (entries-append keys V s.records _, refl)

  stored-Agrees :
      (grants : Grants) (key : Key) (v : V) (s : MapState keys V) (reply : Reply keys V)
      → IsValid keys V s
      → Agrees s.is_weak
          (stored keys V (map_add_record keys V grants key v s) s reply)
          (appended keys V s.is_weak grants key v reply (entries keys V s.records))
  unfolding stored map_add_record
  stored-Agrees grants key v s reply h = elim (Bool-cases (grants.for_record)) [
    | inl granted ↦ rw granted (
      add-IsValid keys V grants.for_table key v s h,
      (records-enlarge grants.for_table (link_record keys V key v s)).1 ∙ (link-entries key v s).1,
      ap (entries keys V) ((records-enlarge grants.for_table (link_record keys V key v s)).0)
          ∙ (link-entries key v s).0,
      refl,
    )
    | inr refused_memory ↦ rw refused_memory (h, refl, refl, refl)
  ]

  -- The deletion of a record that has been found.
  delete-Hit :
      (key : Key) (s : MapState keys V) (hit : Hit keys V key 0 s.records)
      → IsValid keys V s
      → IsValid keys V (map_delete_record keys V hit.mr s)
        × ((map_delete_record keys V hit.mr s).is_weak ≡ s.is_weak)
        × (entries keys V (map_delete_record keys V hit.mr s).records
            ≡ erase keys V key (entries keys V s.records))
  delete-Hit key s hit h = (delete-IsValid keys V hit.mr s h, parts.0, parts.1)
    where
      parts :
          ((map_delete_record keys V hit.mr s).is_weak ≡ s.is_weak)
          × (entries keys V (map_delete_record keys V hit.mr s).records
              ≡ erase keys V key (entries keys V s.records))
      parts = unfold map_delete_record unlink_record in (rw (hit.at) (refl, hit.erased))

  erase-miss :
      (key : Key) (es : List (Key × V)) → lookup keys V key es ≡ none → erase keys V key es ≡ es
  erase-miss key [] e = refl
  erase-miss key ((k, v) ∷ es) e = elim (Bool-cases (keys.same k key)) [
    | inl equal ↦ absurd (cc (rw equal at e))
    | inr other ↦
        rw other (ap (λ (xs : List (Key × V)). (k, v) ∷ xs) (erase-miss key es (rw other at e)))
  ]

  module _ (coherent : IsCoherent keys) (s : MapState keys V) (h : IsValid keys V s) where
    set-Agrees :
        (grants : Grants) (arg : Key) (v : V)
        → Agrees s.is_weak
            (js_map_set keys V grants arg v s)
            (spec_act keys V s.is_weak (set grants arg v) (entries keys V s.records))
    unfolding js_map_set refused spec_act
    set-Agrees grants arg v =
        elim (Bool-cases (s.is_weak && not (keys.weak_target (normalize arg)))) [
          | inl bad ↦ rw bad (h, refl, refl, refl)
          | inr fine ↦ elim (map_find_record-cases keys V s (normalize arg) coherent h) [
            | inl (found, (first, gone)) ↦
                rw (fine, found, gone) (stored-Agrees grants (normalize arg) v s this_map h)
            | inr (hit, found) ↦
                rw (fine, found, hit.looked_up)
                  (put_value-IsValid keys V hit.mr v s h, refl, hit.replaced v, refl)
          ]
        ]

    get-Agrees :
        (arg : Key)
        → Agrees s.is_weak
            (s, js_map_get keys V arg s)
            (
              entries keys V s.records,
              get_found keys V s.is_weak (lookup keys V (normalize arg) (entries keys V s.records)),
            )
    unfolding js_map_get value_of
    get-Agrees arg = elim (map_find_record-cases keys V s (normalize arg) coherent h) [
      | inl (found, (first, gone)) ↦ rw (js_map_get, found, gone) (h, refl, refl, refl)
      | inr (hit, found) ↦ rw (js_map_get, found, hit.looked_up, hit.at) (h, refl, refl, refl)
    ]

    has-Agrees :
        (arg : Key)
        → Agrees s.is_weak
            (s, js_map_has keys V arg s)
            (
              entries keys V s.records,
              bool (
                  is_found keys V s.is_weak
                    (lookup keys V (normalize arg) (entries keys V s.records))),
            )
    unfolding js_map_has
    has-Agrees arg = elim (map_find_record-cases keys V s (normalize arg) coherent h) [
      | inl (found, (first, gone)) ↦ rw (js_map_has, found, gone) (h, refl, refl, refl)
      | inr (hit, found) ↦ rw (js_map_has, found, hit.looked_up) (h, refl, refl, refl)
    ]

    delete-Agrees :
        (arg : Key)
        → Agrees s.is_weak (js_map_delete keys V arg s) (
          erase keys V (normalize arg) (entries keys V s.records),
          bool (
              is_found keys V s.is_weak (lookup keys V (normalize arg) (entries keys V s.records))),
        )
    unfolding js_map_delete
    delete-Agrees arg = elim (map_find_record-cases keys V s (normalize arg) coherent h) [
      | inl (found, (first, gone)) ↦
          rw (js_map_delete, found, gone)
            (h, refl, sym (erase-miss (normalize arg) (entries keys V s.records) gone), refl)
      | inr (hit, found) ↦
          let (valid, weak, erased) = delete-Hit (normalize arg) s hit h in
          rw (js_map_delete, found, hit.looked_up) (valid, weak, erased, refl)
    ]

    insert-Agrees :
        (grants : Grants) (arg : Key) (v : V)
        → Agrees s.is_weak
            (js_map_get_or_insert keys V grants arg v s)
            (spec_act keys V s.is_weak (get_or_insert grants arg v) (entries keys V s.records))
    unfolding js_map_get_or_insert refused spec_act value_of
    insert-Agrees grants arg v =
        elim (Bool-cases (s.is_weak && not (keys.weak_target (normalize arg)))) [
          | inl bad ↦ rw bad (h, refl, refl, refl)
          | inr fine ↦ elim (map_find_record-cases keys V s (normalize arg) coherent h) [
            | inl (found, (first, gone)) ↦
                rw (fine, found, gone) (stored-Agrees grants (normalize arg) v s (value v) h)
            | inr (hit, found) ↦ rw (fine, found, hit.looked_up, hit.at) (h, refl, refl, refl)
          ]
        ]

    pub act-Agrees :
        (a : Action keys V)
        → Agrees s.is_weak (act keys V a s) (spec_act keys V s.is_weak a (entries keys V s.records))
    unfolding act spec_act js_map_clear js_map_get_size
    act-Agrees (set grants key v) = set-Agrees grants key v
    act-Agrees (get key) = get-Agrees key
    act-Agrees (has key) = has-Agrees key
    act-Agrees (delete key) = delete-Agrees key
    act-Agrees clear =
        let (valid, weak, none_left) = clear_loop_lem keys V s.records [] s h refl refl in
        (valid, weak, none_left, refl)
    act-Agrees size = (h, refl, refl, ap number h.counted)
    act-Agrees (get_or_insert grants key v) = insert-Agrees grants key v

  module _ (coherent : IsCoherent keys) (weak : Bool) where
    -- What an outcome of the table has to be with what it was before.
    pub act_at :
        (a : Action keys V) (s : MapState keys V) (es : List (Key × V))
        → IsValid keys V s
        → s.is_weak ≡ weak
        → entries keys V s.records ≡ es
        → Agrees weak (act keys V a s) (spec_act keys V weak a es)
    act_at a s es h w e = rw (← w, ← e) (act-Agrees coherent s h a)

    pub act_all-Agrees :
        (as' : List (Action keys V)) (s : MapState keys V) (es : List (Key × V))
        → IsValid keys V s
        → s.is_weak ≡ weak
        → entries keys V s.records ≡ es
        → IsValid keys V (act_all keys V as' s)
          × ((act_all keys V as' s).is_weak ≡ weak)
          × (entries keys V (act_all keys V as' s).records ≡ spec_act_all keys V weak as' es)
    unfolding act_all spec_act_all
    act_all-Agrees [] s es h w e = (h, w, e)
    act_all-Agrees (a ∷ as') s es h w e =
        let (h', w', e', reply) = act_at a s es h w e in
        act_all-Agrees as' ((act keys V a s).0) ((spec_act keys V weak a es).0) h' w' e'

    pub drop_found-Agrees :
        (key : Key) (s : MapState keys V) (es : List (Key × V))
        → IsValid keys V s
        → s.is_weak ≡ weak
        → entries keys V s.records ≡ es
        → let s' = drop_found keys V (map_find_record keys V s key) s in
          IsValid keys V s'
          × (s'.is_weak ≡ weak)
          × (entries keys V s'.records ≡ erase keys V key es)
    unfolding drop_found
    drop_found-Agrees key s es h w e = elim (map_find_record-cases keys V s key coherent h) [
      | inl (found, (first, gone)) ↦
          rw (drop_found, found) (h, w, e ∙ sym (erase-miss key es (rw e at gone)))
      | inr (hit, found) ↦
          let (valid, same_weak, erased) = delete-Hit key s hit h in
          rw (drop_found, found) (valid, same_weak ∙ w, erased ∙ ap (erase keys V key) e)
    ]

    pub computed-Agrees :
        (grants : Grants) (key : Key) (computed : Option V) (s : MapState keys V)
        (es : List (Key × V))
        → IsValid keys V s
        → s.is_weak ≡ weak
        → entries keys V s.records ≡ es
        → Agrees weak
            (insert_computed keys V grants key computed s)
            (compute keys V weak grants key computed es)
    unfolding insert_computed
    computed-Agrees grants key none s es h w e = (h, w, e, refl)
    computed-Agrees grants key (some v) s es h w e =
        let (h', w', e') = drop_found-Agrees key s es h w e in
        rw (← w', ← e')
          (stored-Agrees grants key v (drop_found keys V (map_find_record keys V s key) s) (value v)
            h')
