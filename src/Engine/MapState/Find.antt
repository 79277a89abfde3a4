-- ===== src/Engine/MapState/Find.antt =====
-- `map_find_record` finds the first record whose key is the same.
use cno_cli.Base.{
  ℕ, suc, ◌≤◌, ◌<◌, ◌≡◌, refl, sym, ap, ◌∙◌, arith, ◌⊎◌, true, false, Option, none, some,
}
use cno_cli.Base.{List, [], ◌∷◌, ◌==◌, if◌then◌else◌, Bool-cases, inl, inr}
use cno_cli.Engine.MapState.{
  Keys, MapRecord, Records, MapState, edit, entry_at, release, holds, slot, find_loop,
  map_find_record,
}
use cno_cli.Engine.MapState.Methods.{put_value}
use cno_cli.Engine.MapState.Spec.{lookup, replace, erase}
use cno_cli.Engine.MapState.Ordered.{
  Ordered, cons_entry, entries, cons_listed, listed, edit_here, edit_on,
}
use cno_cli.Engine.MapState.Entries.{entry_at_here, entry_at_on, entries-released}
use cno_cli.Engine.MapState.Invariant.{IsValid}

-- Keys that are the same have the same hash.
abbrev pub IsCoherent : Keys → Type 0
IsCoherent keys = (a b : keys.Key) → keys.same a b ≡ true → keys.hash a ≡ keys.hash b

module _ (keys : Keys) (V : Type 0) where
  open keys use {Key, same, hash}

  abbrev first_same : Key → Records keys V → Option ℕ
  first_same key [] = none
  first_same key ((a, r) ∷ rs) = if holds keys V key r.entry then some a else first_same key rs

  -- The record that is found for a key, and the entries after a change of that record.
  pub record Hit (key : Key) (lo : ℕ) (rs : Records keys V) : Type 0 where
    pub mr : ℕ
    pub k : Key
    pub v : V
    pub from : lo ≤ mr
    pub first : first_same key rs ≡ some mr
    pub at : entry_at keys V mr rs ≡ some (k, v)
    pub looked_up : lookup keys V key (entries keys V rs) ≡ some v
    pub replaced :
        (w : V)
        → entries keys V (edit keys V mr (put_value keys V w) rs)
          ≡ replace keys V key w (entries keys V rs)
    pub erased :
        entries keys V (edit keys V mr (release keys V) rs) ≡ erase keys V key (entries keys V rs)

  abbrev pub Miss : Key → Records keys V → Type 0
  Miss key rs = (first_same key rs ≡ none) × (lookup keys V key (entries keys V rs) ≡ none)

  Hit-here :
      (key k : Key) (v : V) (lo a : ℕ) (r : MapRecord keys V) (rs : Records keys V)
      → lo ≤ a
      → r.entry ≡ some (k, v)
      → same k key ≡ true
      → Hit key lo ((a, r) ∷ rs)
  Hit-here key k v lo a r rs le e s = record {
    mr = a;
    k = k;
    v = v;
    from = le;
    first = rw e (unfold holds in rw s refl);
    at = entry_at_here keys V a a r rs (ground arith) ∙ e;
    looked_up = rw (e, s) refl;
    replaced = λ w.
        ap (entries keys V) (edit_here keys V a a (put_value keys V w) r rs (ground arith))
        ∙ unfold put_value in rw (e, s) refl;
    erased =
        ap (entries keys V) (edit_here keys V a a (release keys V) r rs (ground arith))
        ∙ entries-released keys V a r rs
        ∙ rw (e, s) refl;
  }

  -- Of a record with another key, or with none.
  abbrev Passes : Key → Option (Key × V) → Type 0
  Passes key none = Unit {0}
  Passes key (some (k, v)) = same k key ≡ false

  Passes-holds : (key : Key) (e : Option (Key × V)) → Passes key e → holds keys V key e ≡ false
  unfolding holds
  Passes-holds key none p = refl
  Passes-holds key (some (k, v)) p = p

  Passes-lookup :
      (key : Key) (e : Option (Key × V)) (es : List (Key × V))
      → Passes key e
      → lookup keys V key (cons_entry keys V e es) ≡ lookup keys V key es
  Passes-lookup key none es p = refl
  Passes-lookup key (some (k, v)) es p = rw p refl

  Passes-replace :
      (key : Key) (w : V) (e : Option (Key × V)) (es : List (Key × V))
      → Passes key e
      → replace keys V key w (cons_entry keys V e es)
        ≡ cons_entry keys V e (replace keys V key w es)
  Passes-replace key w none es p = refl
  Passes-replace key w (some (k, v)) es p = rw p refl

  Passes-erase :
      (key : Key) (e : Option (Key × V)) (es : List (Key × V))
      → Passes key e
      → erase keys V key (cons_entry keys V e es) ≡ cons_entry keys V e (erase keys V key es)
  Passes-erase key none es p = refl
  Passes-erase key (some (k, v)) es p = rw p refl

  Hit-later :
      (key : Key) (lo a : ℕ) (r : MapRecord keys V) (rs : Records keys V)
      → lo ≤ a
      → Passes key r.entry
      → Hit key (suc a) rs
      → Hit key lo ((a, r) ∷ rs)
  Hit-later key lo a r rs le p h =
      let other : (a == h.mr) ≡ false = ground (arith, h.from) in
      record {
        mr = h.mr;
        k = h.k;
        v = h.v;
        from = omega (arith, h.from);
        first = rw (Passes-holds key r.entry p) (h.first);
        at = entry_at_on keys V h.mr a r rs other ∙ h.at;
        looked_up = Passes-lookup key r.entry (entries keys V rs) p ∙ h.looked_up;
        replaced = λ w.
            ap (entries keys V) (edit_on keys V h.mr a (put_value keys V w) r rs other)
            ∙ ap (cons_entry keys V r.entry) (h.replaced w)
            ∙ sym (Passes-replace key w r.entry (entries keys V rs) p);
        erased =
            ap (entries keys V) (edit_on keys V h.mr a (release keys V) r rs other)
            ∙ ap (cons_entry keys V r.entry) h.erased
            ∙ sym (Passes-erase key r.entry (entries keys V rs) p);
      }

  Miss-later :
      (key : Key) (a : ℕ) (r : MapRecord keys V) (rs : Records keys V)
      → Passes key r.entry
      → Miss key rs
      → Miss key ((a, r) ∷ rs)
  Miss-later key a r rs p (first, gone) = (
    rw (Passes-holds key r.entry p) first,
    Passes-lookup key r.entry (entries keys V rs) p ∙ gone,
  )

  later :
      (key : Key) (lo a : ℕ) (r : MapRecord keys V) (rs : Records keys V)
      → lo ≤ a
      → Passes key r.entry
      → Miss key rs ⊎ Hit key (suc a) rs
      → Miss key ((a, r) ∷ rs) ⊎ Hit key lo ((a, r) ∷ rs)
  later key lo a r rs le p (inl m) = inl (Miss-later key a r rs p m)
  later key lo a r rs le p (inr h) = inr (Hit-later key lo a r rs le p h)

  First-cons :
      (key : Key) (lo a : ℕ) (r : MapRecord keys V) (rs : Records keys V) (e : Option (Key × V))
      → r.entry ≡ e
      → lo ≤ a
      → Miss key rs ⊎ Hit key (suc a) rs
      → Miss key ((a, r) ∷ rs) ⊎ Hit key lo ((a, r) ∷ rs)
  First-cons key lo a r rs none eq le c = later key lo a r rs le (rw eq tt) c
  First-cons key lo a r rs (some (k, v)) eq le c = elim (Bool-cases (same k key)) [
    | inl equal ↦ inr (Hit-here key k v lo a r rs le eq equal)
    | inr other ↦ later key lo a r rs le (rw eq other) c
  ]

  pub first_cases :
      (key : Key) (lo hi : ℕ) (rs : Records keys V)
      → Ordered keys V lo hi rs
      → Miss key rs ⊎ Hit key lo rs
  first_cases key lo hi [] h = inl (refl, refl)
  first_cases key lo hi ((a, r) ∷ rs) h =
      First-cons key lo a r rs r.entry refl h.0 (first_cases key (suc a) hi rs h.1)

  -- Every address of `rs` leads to its record.
  abbrev Derefs : Records keys V → Records keys V → Type 0
  Derefs records [] = Unit {0}
  Derefs records ((a, r) ∷ rs) = (entry_at keys V a records ≡ r.entry) × Derefs records rs

  Derefs-cons :
      (a lo hi : ℕ) (r : MapRecord keys V) (records rs : Records keys V)
      → Ordered keys V lo hi rs
      → a < lo
      → Derefs records rs
      → Derefs ((a, r) ∷ records) rs
  Derefs-cons a lo hi r records [] h lt d = tt
  Derefs-cons a lo hi r records ((b, q) ∷ rs) h lt d = (
    entry_at_on keys V b a r records (ground (arith, h)) ∙ d.0,
    Derefs-cons a (suc b) hi r records rs h.1 (omega (arith, h.0)) d.1,
  )

  Derefs-self : (lo hi : ℕ) (rs : Records keys V) → Ordered keys V lo hi rs → Derefs rs rs
  Derefs-self lo hi [] h = tt
  Derefs-self lo hi ((a, r) ∷ rs) h = (
    entry_at_here keys V a a r rs (ground arith),
    Derefs-cons a (suc a) hi r rs rs h.1 (omega arith) (Derefs-self (suc a) hi rs h.1),
  )

  find_one :
      (records : Records keys V) (key : Key) (a : ℕ) (rest : List ℕ) (e : Option (Key × V))
      → entry_at keys V a records ≡ e
      → find_loop keys V records key (a ∷ rest)
        ≡ (if holds keys V key e then some a else find_loop keys V records key rest)
  unfolding find_loop
  find_one records key a rest e h = rw h refl

  module _ (coherent : IsCoherent keys) (size : ℕ) (key : Key) (records : Records keys V) where
    other_slot :
        (k : Key) → (slot keys V k size == slot keys V key size) ≡ false → same k key ≡ false
    unfolding slot
    other_slot k h = elim (Bool-cases (same k key)) [
      | inl equal ↦ absurd (ground (arith, h, coherent k key equal))
      | inr other ↦ other
    ]

    find_entry :
        (a : ℕ) (e : Option (Key × V)) (rest : List ℕ)
        → entry_at keys V a records ≡ e
        → find_loop keys V records key (cons_listed keys V size (slot keys V key size) a e rest)
          ≡ (if holds keys V key e then some a else find_loop keys V records key rest)
    find_entry a none rest h = unfold holds in refl
    find_entry a (some (k, v)) rest h =
        elim (Bool-cases (slot keys V k size == slot keys V key size)) [
          | inl here ↦ rw here (find_one records key a rest (some (k, v)) h)
          | inr elsewhere ↦ rw elsewhere (unfold holds in rw (other_slot k elsewhere) refl)
        ]

    find_listed :
        (rs : Records keys V)
        → Derefs records rs
        → find_loop keys V records key (listed keys V size (slot keys V key size) rs)
          ≡ first_same key rs
    find_listed [] d = unfold find_loop in refl
    find_listed ((a, r) ∷ rs) d =
        find_entry a r.entry (listed keys V size (slot keys V key size) rs) d.0
        ∙ ap (λ (o : Option ℕ). if holds keys V key r.entry then some a else o) (find_listed rs d.1)

  -- In a valid table the bucket of a key leads to the first record with that key.
  map_find_record_lem :
      (s : MapState keys V) (key : Key)
      → IsCoherent keys
      → IsValid keys V s
      → map_find_record keys V s key ≡ first_same key s.records
  unfolding map_find_record
  map_find_record_lem s key coherent h =
      ap (find_loop keys V s.records key) (h.buckets (slot keys V key s.hash_size))
      ∙ find_listed coherent s.hash_size key s.records s.records
          (Derefs-self 0 s.next_address s.records h.ordered)

  abbrev pub Found : MapState keys V → Key → Type 0
  Found s key =
      ((map_find_record keys V s key ≡ none) × Miss key s.records)
      ⊎ ((h : Hit key 0 s.records) × (map_find_record keys V s key ≡ some h.mr))

  -- Either there is no entry for a key, and none is found, or the record of the first one is found.
  pub map_find_record-cases :
      (s : MapState keys V) (key : Key) → IsCoherent keys → IsValid keys V s → Found s key
  map_find_record-cases s key coherent h =
      let found = map_find_record_lem s key coherent h in
      elim (first_cases key 0 s.next_address s.records h.ordered) [
        | inl miss ↦ inl (found ∙ miss.0, miss)
        | inr hit ↦ inr (hit, found ∙ hit.first)
      ]
