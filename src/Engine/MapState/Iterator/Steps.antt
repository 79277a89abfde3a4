-- ===== src/Engine/MapState/Iterator/Steps.antt =====
-- An iterator gives the entries in their order, one by one.
use cno_cli.Base.{
  ℕ, suc, ◌≤◌, ◌<◌, ◌≡◌, ◌≢◌, ◌⊎◌, refl, sym, ap, ◌∙◌, arith, Bool, true, false, Option, none, some,
}
use cno_cli.Base.{List, [], ◌∷◌, ◌==◌, if◌then◌else◌, inl, inr}
use cno_cli.Engine.MapState.{
  Keys, MapRecord, Records, MapState, edit, put_back, let_go, map_decref_record,
}
use cno_cli.Engine.MapState.Ordered.{Ordered, entries, edit_here, edit_on, Ordered-edit}
use cno_cli.Engine.MapState.Iterator.{
  Iterator, after, first_live, lock, Next, take_record, step_from, js_map_iterator_next,
}
use cno_cli.Engine.MapState.Iterator.After.{
  IsHeld, IsCounted, on_other, IsHeld-from, entries-lock, IsCounted-lock, IsCounted-let_go,
  entries-let_go, after_here, after_on, Ordered-after, after-edit, after-lock, after-after,
}

module _ (keys : Keys) (V : Type 0) where
  open keys use {Key}

  -- An entry at an address.
  abbrev HasEntry : ℕ → Records keys V → Type 0
  HasEntry a [] = ⊥
  HasEntry a ((b, r) ∷ rs) = (b ≡ a) ⊎ ((b ≢ a) × HasEntry a rs)

  lock-IsHeld :
      (a : ℕ) (rs : Records keys V)
      → IsCounted keys V rs
      → HasEntry a rs
      → IsHeld keys V a (edit keys V a (lock keys V) rs)
  lock-IsHeld a [] c h = absurd h
  lock-IsHeld a ((b, r) ∷ rs) c (inl equal) =
      rw (edit_here keys V a b (lock keys V) r rs (ground arith))
        (unfold lock in inl (equal, inr (omega (arith, c.0))))
  lock-IsHeld a ((b, r) ∷ rs) c (inr (other, h)) =
      rw (edit_on keys V a b (lock keys V) r rs (on_other keys V b a other))
        (inr (other, lock-IsHeld a rs c.1 h))

  -- The first entry of a list of records, if there is one.
  record First (lo : ℕ) (rs : Records keys V) : Type 0 where
    a : ℕ
    e : Key × V
    from : lo ≤ a
    found : first_live keys V rs ≡ some (a, e)
    split : entries keys V rs ≡ e ∷ entries keys V (after keys V a rs)
    there : HasEntry a rs

  abbrev NoFirst : Records keys V → Type 0
  NoFirst rs = (first_live keys V rs ≡ none) × (entries keys V rs ≡ [])

  First-cons :
      (lo b hi : ℕ) (r : MapRecord keys V) (rs : Records keys V) (e : Option (Key × V))
      → r.entry ≡ e
      → lo ≤ b
      → NoFirst rs ⊎ First (suc b) rs
      → NoFirst ((b, r) ∷ rs) ⊎ First lo ((b, r) ∷ rs)
  unfolding first_live after
  First-cons lo b hi r rs (some e) eq le c = inr (record {
    a = b;
    e = e;
    from = le;
    found = rw eq refl;
    split = rw (eq, after_here keys V b b r rs (ground arith)) refl;
    there = inl refl;
  })
  First-cons lo b hi r rs none eq le (inl (gone, no_entries)) =
      inl (rw (eq, gone) refl, rw (eq, no_entries) refl)
  First-cons lo b hi r rs none eq le (inr f) =
      let other : (b == f.a) ≡ false = ground (arith, f.from) in
      inr (record {
        a = f.a;
        e = f.e;
        from = omega (arith, f.from);
        found = rw (eq, f.found) refl;
        split = rw (eq, after_on keys V f.a b r rs other) (f.split);
        there = inr (ground (arith, f.from), f.there);
      })

  First-cases :
      (lo hi : ℕ) (rs : Records keys V) → Ordered keys V lo hi rs → NoFirst rs ⊎ First lo rs
  First-cases lo hi [] h = inl (unfold first_live in refl, refl)
  First-cases lo hi ((b, r) ∷ rs) h =
      First-cons lo b hi r rs r.entry refl h.0 (First-cases (suc b) hi rs h.1)

  HasEntry-put_back :
      (a b : ℕ) (o : Option (MapRecord keys V)) (rs : Records keys V)
      → b ≢ a
      → HasEntry a rs
      → HasEntry a (put_back keys V b o rs)
  HasEntry-put_back a b none rs other h = h
  HasEntry-put_back a b (some r) rs other h = inr (other, h)

  HasEntry-after :
      (a mr lo hi : ℕ) (rs : Records keys V)
      → Ordered keys V lo hi rs
      → IsHeld keys V mr rs
      → mr < a
      → HasEntry a (after keys V mr rs)
      → HasEntry a (edit keys V mr (let_go keys V) rs)
  HasEntry-after a mr lo hi [] h held lt there = absurd held
  HasEntry-after a mr lo hi ((b, r) ∷ rs) h (inl (equal, held)) lt there =
      rw (edit_here keys V mr b (let_go keys V) r rs (ground arith)) (
        HasEntry-put_back a b (let_go keys V r) rs (ground arith)
          (rw (after_here keys V mr b r rs (ground arith)) at there))
  HasEntry-after a mr lo hi ((b, r) ∷ rs) h (inr (other, held)) lt there =
      let from = IsHeld-from keys V mr (suc b) hi rs h.1 held in
      rw (edit_on keys V mr b (let_go keys V) r rs (on_other keys V b mr other)) (
        inr (
          ground arith,
          HasEntry-after a mr (suc b) hi rs h.1 held lt
              (rw (after_on keys V mr b r rs (on_other keys V b mr other)) at there),
        ))

  -- Where an iterator goes on.
  abbrev pub behind : Option ℕ → Records keys V → Records keys V
  behind none rs = rs
  behind (some mr) rs = after keys V mr rs

  abbrev pub HeldBy : Option ℕ → Records keys V → Type 0
  HeldBy none rs = Unit {0}
  HeldBy (some mr) rs = IsHeld keys V mr rs

  -- The entries that an iterator has still to give.
  abbrev pub remaining : Iterator keys V → MapState keys V → List (Key × V)
  remaining it s = if it.is_open then entries keys V (behind it.cur_record s.records) else []

  pub record IsSound (it : Iterator keys V) (s : MapState keys V) : Type 0 where
    pub ordered : Ordered keys V 0 s.next_address s.records
    pub counted : IsCounted keys V s.records
    pub held : HeldBy it.cur_record s.records

  abbrev pub popped : List (Key × V) → Option (Key × V) × List (Key × V)
  popped [] = (none, [])
  popped (e ∷ es) = (some e, es)

  -- A call that gives the first of `es`, leaves the rest to give, and does not change what is in the
  -- table.
  abbrev pub Advances : List (Key × V) → MapState keys V → Next keys V → Type 0
  Advances es s (out, (it, s')) =
      (out ≡ (popped es).0)
      × (remaining it s' ≡ (popped es).1)
      × (entries keys V s'.records ≡ entries keys V s.records)
      × IsSound it s'

  take-Advances :
      (lo : ℕ) (rs : Records keys V) (s s1 : MapState keys V)
      → NoFirst rs ⊎ First lo rs
      → Ordered keys V 0 s1.next_address s1.records
      → IsCounted keys V s1.records
      → entries keys V s1.records ≡ entries keys V s.records
      → ((f : First lo rs)
          → HasEntry f.a s1.records × (after keys V f.a s1.records ≡ after keys V f.a rs))
      → Advances (entries keys V rs) s (take_record keys V (first_live keys V rs) s1)
  unfolding take_record
  take-Advances lo rs s s1 (inl (gone, no_entries)) o c e follows =
      rw (gone, no_entries) (refl, refl, e, record { ordered = o; counted = c; held = tt })
  take-Advances lo rs s s1 (inr f) o c e follows =
      let (there, behind_a) = follows f in
      rw (f.found, f.split)
        (
          refl,
          ap (entries keys V) (after-lock keys V f.a s1.records ∙ behind_a),
          entries-lock keys V f.a s1.records ∙ e,
          record {
            ordered = Ordered-edit keys V f.a 0 s1.next_address (lock keys V) s1.records o;
            counted = IsCounted-lock keys V f.a s1.records c;
            held = lock-IsHeld f.a s1.records c there;
          },
        )

  step-Advances :
      (cur : Option ℕ) (s : MapState keys V)
      → Ordered keys V 0 s.next_address s.records
      → IsCounted keys V s.records
      → HeldBy cur s.records
      → Advances (entries keys V (behind cur s.records)) s (step_from keys V cur s)
  unfolding step_from map_decref_record
  step-Advances none s o c held =
      take-Advances 0 s.records s s (First-cases 0 s.next_address s.records o) o c refl
        (λ f. (f.there, refl))
  step-Advances (some mr) s o c held =
      let o' = Ordered-after keys V mr 0 s.next_address s.records o held in
      take-Advances (suc mr) (after keys V mr s.records) s
        (record s { records = edit keys V mr (let_go keys V) s.records })
        (First-cases (suc mr) s.next_address (after keys V mr s.records) o')
        (Ordered-edit keys V mr 0 s.next_address (let_go keys V) s.records o)
        (IsCounted-let_go keys V mr s.records c) (entries-let_go keys V mr s.records held)
        (λ f. (
          HasEntry-after f.a mr 0 s.next_address s.records o held f.from f.there,
          after-edit keys V f.a mr 0 s.next_address (let_go keys V) s.records o f.from
              ∙ sym (after-after keys V f.a mr 0 s.next_address s.records o held f.from),
        ))

  next_by :
      (is_open : Bool) (cur : Option ℕ) (s : MapState keys V)
      → IsSound (record { is_open = is_open; cur_record = cur }) s
      → Advances
          (remaining (record { is_open = is_open; cur_record = cur }) s)
          s
          (js_map_iterator_next keys V (record { is_open = is_open; cur_record = cur }) s)
  unfolding js_map_iterator_next
  next_by true cur s h = step-Advances cur s h.ordered h.counted h.held
  next_by false cur s h = (refl, refl, refl, h)

  -- An iterator gives the first entry that it has still to give, or the end; the rest remains to
  -- give, the entries of the table stay, and the record that it is at then is in the table, with a
  -- count that keeps it there: an invariant that the next call needs.
  pub js_map_iterator_next-Advances :
      (it : Iterator keys V) (s : MapState keys V)
      → IsSound it s
      → Advances (remaining it s) s (js_map_iterator_next keys V it s)
  js_map_iterator_next-Advances it s h = next_by it.is_open it.cur_record s h
