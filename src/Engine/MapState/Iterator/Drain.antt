-- ===== src/Engine/MapState/Iterator/Drain.antt =====
-- Calls of `js_map_iterator_next` up to the end.
use cno_cli.Base.{ℕ, zero, suc, ◌≡◌, refl, Bool, true, false, none, some, List, [], ◌∷◌, length}
use cno_cli.Engine.MapState.{Keys, MapState}
use cno_cli.Engine.MapState.Iterator.{Iterator, js_map_iterator_next}
use cno_cli.Engine.MapState.Iterator.Steps.{IsSound, remaining, js_map_iterator_next-Advances}

module _ (keys : Keys) (V : Type 0) where
  open keys use {Key}

  -- What the calls give, and whether the end has come; at most so many calls are made.
  unfoldable pub drain : ℕ → Iterator keys V → MapState keys V → List (Key × V) × Bool
  drain zero it s = ([], false)
  drain (suc calls) it s =
      let (out, (it', s')) = js_map_iterator_next keys V it s in
      let (es, ended) = drain calls it' s' in
      elim out [ none ↦ ([], true) | some e ↦ (e ∷ es, ended) ]

  drain_all :
      (es : List (Key × V)) (it : Iterator keys V) (s : MapState keys V)
      → remaining keys V it s ≡ es
      → IsSound keys V it s
      → drain (suc (length es)) it s ≡ (es, true)
  unfolding drain
  drain_all [] it s e h =
      let (out, more, same, sound) = rw e at (js_map_iterator_next-Advances keys V it s h) in
      rw (drain, out) refl
  drain_all (x ∷ es) it s e h =
      let (out, more, same, sound) = rw e at (js_map_iterator_next-Advances keys V it s h) in
      rw (drain, out, drain_all es _ _ more sound) refl

  -- An iterator that is sound gives all that it has still to give, in that order, and then the end,
  -- in one call more than there are entries.
  pub drain-remaining :
      (it : Iterator keys V) (s : MapState keys V)
      → IsSound keys V it s
      → drain (suc (length (remaining keys V it s))) it s ≡ (remaining keys V it s, true)
  drain-remaining it s h = drain_all (remaining keys V it s) it s refl h
