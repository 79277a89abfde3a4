-- ===== src/Engine/MapState/Runs.antt =====
-- Any sequence of calls on a table of .backup/quickjs.c, against the association list.
use cno_cli.Base.{◌≡◌, refl, Bool, Option}
use cno_cli.Base.{List, [], ◌∷◌, Bool-cases, inl, inr, not, ◌&&◌}
use cno_cli.Engine.MapState.{Keys, Grants, MapState, new_map}
use cno_cli.Engine.MapState.Methods.{refused, value_of, js_map_get_or_insert_computed}
use cno_cli.Engine.MapState.Spec.{
  Action, Call, plain, get_or_insert_computed, act_all, answer, run, spec_answer, spec_run,
}
use cno_cli.Engine.MapState.Ordered.{entries}
use cno_cli.Engine.MapState.Invariant.{IsValid, new_map-IsValid}
use cno_cli.Engine.MapState.Find.{IsCoherent, map_find_record-cases}
use cno_cli.Engine.MapState.Refines.{Agrees, act_at, act_all-Agrees, computed-Agrees}

module _ (keys : Keys) (V : Type 0) (coherent : IsCoherent keys) where
  open keys use {Key, normalize}

  answer_computed :
      (grants : Grants) (arg : Key) (computed : Option V) (inner : List (Action keys V))
      (s : MapState keys V)
      → IsValid keys V s
      → Agrees keys V s.is_weak
          (js_map_get_or_insert_computed keys V grants arg computed (act_all keys V inner) s)
          (spec_answer keys V s.is_weak
            (get_or_insert_computed grants arg computed inner)
            (entries keys V s.records))
  unfolding js_map_get_or_insert_computed refused spec_answer value_of
  answer_computed grants arg computed inner s h =
      elim (Bool-cases (s.is_weak && not (keys.weak_target (normalize arg)))) [
        | inl bad ↦ rw bad (h, refl, refl, refl)
        | inr fine ↦ elim (map_find_record-cases keys V s (normalize arg) coherent h) [
          | inl (found, (first, gone)) ↦
              let (h', w', e') =
                act_all-Agrees keys V coherent s.is_weak inner s (entries keys V s.records) h refl
                  refl in
              rw (fine, found, gone)
                (computed-Agrees keys V coherent s.is_weak grants (normalize arg) computed
                  (act_all keys V inner s) _ h' w' e')
          | inr (hit, found) ↦ rw (fine, found, hit.looked_up, hit.at) (h, refl, refl, refl)
        ]
      ]

  pub answer-Agrees :
      (c : Call keys V) (s : MapState keys V)
      → IsValid keys V s
      → Agrees keys V s.is_weak
          (answer keys V c s)
          (spec_answer keys V s.is_weak c (entries keys V s.records))
  answer-Agrees (plain a) s h =
      unfold answer spec_answer in
      act_at keys V coherent s.is_weak a s (entries keys V s.records) h refl refl
  answer-Agrees (get_or_insert_computed grants arg computed inner) s h =
      unfold answer in answer_computed grants arg computed inner s h

  run-Agrees :
      (cs : List (Call keys V)) (s : MapState keys V) (weak : Bool) (es : List (Key × V))
      → IsValid keys V s
      → s.is_weak ≡ weak
      → entries keys V s.records ≡ es
      → IsValid keys V (run keys V cs s).0
        × (entries keys V (run keys V cs s).0.records ≡ (spec_run keys V weak cs es).0)
        × ((run keys V cs s).1 ≡ (spec_run keys V weak cs es).1)
  unfolding run spec_run
  run-Agrees [] s weak es h w e = (h, e, refl)
  run-Agrees (c ∷ cs) s weak es h w e =
      let first : Agrees keys V weak (answer keys V c s) (spec_answer keys V weak c es) =
        rw (← w, ← e) (answer-Agrees c s h) in
      let (h', w', e', reply) = first in
      let (valid, same_entries, replies) =
        run-Agrees cs ((answer keys V c s).0) weak ((spec_answer keys V weak c es).0) h' w' e' in
      (valid, same_entries, rw (reply, replies) refl)

  -- Keys that are the same having the same hash: whatever calls are made on a table that keeps its
  -- invariant, with callbacks that make calls themselves and whatever the allocator refuses, the
  -- replies and the entries in their order are those of an association list.
  pub run-spec_run :
      (cs : List (Call keys V)) (s : MapState keys V)
      → IsValid keys V s
      → (entries keys V (run keys V cs s).0.records
          ≡ (spec_run keys V s.is_weak cs (entries keys V s.records)).0)
        × ((run keys V cs s).1 ≡ (spec_run keys V s.is_weak cs (entries keys V s.records)).1)
  run-spec_run cs s h =
      let (valid, same_entries, replies) =
        run-Agrees cs s s.is_weak (entries keys V s.records) h refl refl in
      (same_entries, replies)

  -- Keys that are the same having the same hash: after any calls on a new table the invariant holds:
  -- the addresses of the records grow, every bucket lists, in the order of insertion, the records
  -- whose keys belong in it, and the count is that of the entries.
  pub run-IsValid :
      (cs : List (Call keys V)) (is_weak : Bool)
      → IsValid keys V (run keys V cs (new_map keys V is_weak)).0
  run-IsValid cs is_weak =
      (run-Agrees cs (new_map keys V is_weak) (new_map keys V is_weak).is_weak _
        (new_map-IsValid keys V is_weak) refl refl).0
