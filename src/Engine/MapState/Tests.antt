-- ===== src/Engine/MapState/Tests.antt =====
-- Runs of the table of `Map` of .backup/quickjs.c.
use cno_cli.Base.{
  ℕ, suc, ◌≡◌, inl, inr, refl, arith, true, false, none, some, List, [], ◌∷◌, length,
}
use cno_cli.Engine.MapState.{Keys, Grants, MapState, new_map}
use cno_cli.Engine.MapState.Spec.{
  set, get, has, delete, clear, size, Call, plain, get_or_insert_computed, run, spec_run,
}
use cno_cli.Engine.MapState.Ordered.{entries}
use cno_cli.Engine.MapState.Invariant.{IsValid}
use cno_cli.Engine.MapState.Find.{IsCoherent}
use cno_cli.Engine.MapState.Runs.{run-spec_run, run-IsValid}
use cno_cli.Engine.MapState.Hash.{
  object, text, int, float64, js_same_value_zero, map_normalize_key, map_hash_key,
}
use cno_cli.Engine.MapState.Coherent.{map_hash_key-same, value_keys}
use cno_cli.Base.Int.{pos}
use cno_cli.Engine.MapState.Iterator.{Iterator, new_iterator, js_map_iterator_next}
use cno_cli.Engine.MapState.Iterator.Steps.{
  IsSound, remaining, Advances, js_map_iterator_next-Advances,
}
use cno_cli.Engine.MapState.Iterator.Interleaved.{
  Event, call, next, play, AllIsWell, play-AllIsWell,
}
use cno_cli.Engine.MapState.Iterator.Drain.{drain, drain-remaining}

-- A mixing function, and no seed.
abbrev mixed : ℕ → ℕ
mixed n = n

abbrev some_keys : Keys
some_keys = value_keys mixed 0

some_keys-IsCoherent : IsCoherent some_keys
some_keys-IsCoherent (a, va) (b, vb) h = map_hash_key-same mixed 0 a b va vb h

abbrev granted : Grants
granted = record { for_record = true; for_table = true }

-- Six keys, so that the table grows, then calls of each kind.
abbrev calls : List (Call some_keys ℕ)
calls =
    plain (set granted (object 16, tt) 1)
    ∷ plain (set granted (object 20, tt) 2)
    ∷ plain (set granted (object 24, tt) 3)
    ∷ plain (set granted (text false (b'a' ∷ []), tt) 4)
    ∷ plain (set granted (object 28, tt) 5)
    ∷ plain (set granted (text true (b'a' ∷ []), tt) 6)
    ∷ plain (delete (object 20, tt))
    ∷ get_or_insert_computed granted (object 32, tt) (some 7) (set granted (object 36, tt) 8 ∷ [])
    ∷ plain (get (object 24, tt))
    ∷ plain size
    ∷ []

abbrev filled : MapState some_keys ℕ
filled = (run some_keys ℕ calls (new_map some_keys ℕ false)).0

filled-IsValid : IsValid some_keys ℕ filled
filled-IsValid = run-IsValid some_keys ℕ some_keys-IsCoherent calls false

run-IsValid_example : IsValid some_keys ℕ (run some_keys ℕ calls (new_map some_keys ℕ true)).0
run-IsValid_example = run-IsValid some_keys ℕ some_keys-IsCoherent calls true

abbrev more_calls : List (Call some_keys ℕ)
more_calls =
    plain (has (object 28, tt))
    ∷ plain clear
    ∷ plain (set granted (object 28, tt) 9)
    ∷ plain size
    ∷ []

run-spec_run_example :
    (entries some_keys ℕ (run some_keys ℕ more_calls filled).0.records
      ≡ (spec_run some_keys ℕ filled.is_weak more_calls (entries some_keys ℕ filled.records)).0)
    × ((run some_keys ℕ more_calls filled).1
        ≡ (spec_run some_keys ℕ filled.is_weak more_calls (entries some_keys ℕ filled.records)).1)
run-spec_run_example =
    run-spec_run some_keys ℕ some_keys-IsCoherent more_calls filled filled-IsValid

-- The number 1 as an integer and as a double.
map_hash_key-same_example :
    map_hash_key mixed 5 (map_normalize_key (int (pos 1)))
    ≡ map_hash_key mixed 5 (map_normalize_key (float64 4607182418800017408))
map_hash_key-same_example =
    map_hash_key-same mixed 5 (int (pos 1)) (float64 4607182418800017408) (omega arith) tt
      (unfold js_same_value_zero in refl)

-- A table with a record that an iterator is at, one that another iterator holds after its entry was
-- deleted, and one more.
abbrev walked : MapState some_keys ℕ
walked = record {
  is_weak = false;
  records =
      (0, record { ref_count = 2; entry = some ((object 16, tt), 1) })
      ∷ (2, record { ref_count = 1; entry = none })
      ∷ (5, record { ref_count = 1; entry = some ((object 20, tt), 2) })
      ∷ [];
  record_count = 2;
  hash_table = [] ∷ [];
  hash_size = 1;
  record_count_threshold = 4;
  next_address = 6;
}

abbrev walker : Iterator some_keys ℕ
walker = record { is_open = true; cur_record = some 0 }

walker-IsSound : IsSound some_keys ℕ walker walked
walker-IsSound = record {
  ordered = (omega arith, (omega arith, (omega arith, omega arith)));
  counted = (omega arith, (omega arith, (omega arith, tt)));
  held = inl (refl, inr (omega arith));
}

js_map_iterator_next-Advances_example :
    Advances some_keys ℕ
      (remaining some_keys ℕ walker walked)
      walked
      (js_map_iterator_next some_keys ℕ walker walked)
js_map_iterator_next-Advances_example =
    js_map_iterator_next-Advances some_keys ℕ walker walked walker-IsSound

drain-remaining_example :
    drain some_keys ℕ (suc (length (remaining some_keys ℕ walker walked))) walker walked
    ≡ (remaining some_keys ℕ walker walked, true)
drain-remaining_example = drain-remaining some_keys ℕ walker walked walker-IsSound

-- A step, then the deletion of the record that the iterator is at, and more steps.
abbrev events : List (Event some_keys ℕ)
events =
    call (plain (set granted (object 16, tt) 1))
    ∷ call (plain (set granted (object 20, tt) 2))
    ∷ next
    ∷ call (plain (delete (object 16, tt)))
    ∷ next
    ∷ call (plain clear)
    ∷ next
    ∷ []

play-AllIsWell_example :
    AllIsWell some_keys ℕ
      (play some_keys ℕ events (new_iterator some_keys ℕ) (new_map some_keys ℕ false))
play-AllIsWell_example = play-AllIsWell some_keys ℕ some_keys-IsCoherent events false
