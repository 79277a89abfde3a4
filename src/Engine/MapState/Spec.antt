-- ===== src/Engine/MapState/Spec.antt =====
-- What a `Map` promises: an association list in the order of insertion.
use cno_cli.Base.{
  Bool, true, false, not, ◌&&◌, Option, none, some, List, [], ◌∷◌, ◌++◌, length, if◌then◌else◌,
}
use cno_cli.Engine.MapState.{Keys, Grants, MapState}
use cno_cli.Engine.MapState.Methods.{
  Reply, this_map, undefined, value, bool, number, invalid_key, out_of_memory, callback_threw,
  js_map_set, js_map_get, js_map_has, js_map_delete, js_map_clear, js_map_get_size,
  js_map_get_or_insert, js_map_get_or_insert_computed,
}

module _ (keys : Keys) (V : Type 0) where
  open keys use {Key, same, normalize, weak_target}

  abbrev pub Entries : Type 0
  Entries = List (Key × V)

  abbrev pub lookup : Key → Entries → Option V
  lookup key [] = none
  lookup key ((k, v) ∷ es) = if same k key then some v else lookup key es

  abbrev pub replace : Key → V → Entries → Entries
  replace key w [] = []
  replace key w ((k, v) ∷ es) = if same k key then (k, w) ∷ es else (k, v) ∷ replace key w es

  abbrev pub erase : Key → Entries → Entries
  erase key [] = []
  erase key ((k, v) ∷ es) = if same k key then es else (k, v) ∷ erase key es

  -- A call of a method, by itself and with a callback that makes such calls on the same map.
  pub data Action : Type 0 where
    set : Grants → Key → V → Action
    get has delete : Key → Action
    clear size : Action
    get_or_insert : Grants → Key → V → Action

  pub data Call : Type 0 where
    plain : Action → Call
    get_or_insert_computed : Grants → Key → Option V → List Action → Call

  unfoldable pub act : Action → MapState keys V → MapState keys V × Reply keys V
  act (set grants key v) s = js_map_set keys V grants key v s
  act (get key) s = (s, js_map_get keys V key s)
  act (has key) s = (s, js_map_has keys V key s)
  act (delete key) s = js_map_delete keys V key s
  act clear s = js_map_clear keys V s
  act size s = (s, js_map_get_size keys V s)
  act (get_or_insert grants key v) s = js_map_get_or_insert keys V grants key v s

  unfoldable pub act_all : List Action → MapState keys V → MapState keys V
  act_all [] s = s
  act_all (a ∷ as') s = act_all as' ((act a s).0)

  unfoldable pub answer : Call → MapState keys V → MapState keys V × Reply keys V
  answer (plain a) s = act a s
  answer (get_or_insert_computed grants key computed inner) s =
      js_map_get_or_insert_computed keys V grants key computed (act_all inner) s

  unfoldable pub run : List Call → MapState keys V → MapState keys V × List (Reply keys V)
  run [] s = (s, [])
  run (c ∷ cs) s =
      let (s', reply) = answer c s in let (s'', replies) = run cs s' in (s'', reply ∷ replies)

  -- The same on an association list.
  module _ (is_weak : Bool) where
    abbrev pub denied : Key → Bool
    denied key = is_weak && not (weak_target key)

    abbrev pub appended : Grants → Key → V → Reply keys V → Entries → Entries × Reply keys V
    appended grants key v reply es =
        if grants.for_record then (es ++ ((key, v) ∷ []), reply) else (es, out_of_memory)

    abbrev pub set_found : Option V → Grants → Key → V → Entries → Entries × Reply keys V
    set_found none grants key v es = appended grants key v this_map es
    set_found (some old) grants key v es = (replace key v es, this_map)

    abbrev pub get_found : Option V → Reply keys V
    get_found none = undefined
    get_found (some v) = value v

    abbrev pub is_found : Option V → Bool
    is_found none = false
    is_found (some v) = true

    abbrev pub insert_found : Option V → Grants → Key → V → Entries → Entries × Reply keys V
    insert_found none grants key v es = appended grants key v (value v) es
    insert_found (some old) grants key v es = (es, value old)

    unfoldable pub spec_act : Action → Entries → Entries × Reply keys V
    spec_act (set grants arg v) es =
        if denied (normalize arg)
        then (es, invalid_key)
        else set_found (lookup (normalize arg) es) grants (normalize arg) v es
    spec_act (get arg) es = (es, get_found (lookup (normalize arg) es))
    spec_act (has arg) es = (es, bool (is_found (lookup (normalize arg) es)))
    spec_act (delete arg) es =
        (erase (normalize arg) es, bool (is_found (lookup (normalize arg) es)))
    spec_act clear es = ([], undefined)
    spec_act size es = (es, number (length es))
    spec_act (get_or_insert grants arg v) es =
        if denied (normalize arg)
        then (es, invalid_key)
        else insert_found (lookup (normalize arg) es) grants (normalize arg) v es

    unfoldable pub spec_act_all : List Action → Entries → Entries
    spec_act_all [] es = es
    spec_act_all (a ∷ as') es = spec_act_all as' ((spec_act a es).0)

    -- An entry that the callback has made for the key is taken off, and the new one comes last.
    abbrev pub compute : Grants → Key → Option V → Entries → Entries × Reply keys V
    compute grants key none es = (es, callback_threw)
    compute grants key (some v) es = appended grants key v (value v) (erase key es)

    abbrev pub compute_found :
        Option V → Grants → Key → Option V → List Action → Entries → Entries × Reply keys V
    compute_found none grants key computed inner es =
        compute grants key computed (spec_act_all inner es)
    compute_found (some old) grants key computed inner es = (es, value old)

    unfoldable pub spec_answer : Call → Entries → Entries × Reply keys V
    spec_answer (plain a) es = spec_act a es
    spec_answer (get_or_insert_computed grants arg computed inner) es =
        if denied (normalize arg)
        then (es, invalid_key)
        else compute_found (lookup (normalize arg) es) grants (normalize arg) computed inner es

    unfoldable pub spec_run : List Call → Entries → Entries × List (Reply keys V)
    spec_run [] es = (es, [])
    spec_run (c ∷ cs) es =
        let (es', reply) = spec_answer c es in
        let (es'', replies) = spec_run cs es' in (es'', reply ∷ replies)
