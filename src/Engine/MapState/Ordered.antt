-- ===== src/Engine/MapState/Ordered.antt =====
-- Lists of records whose addresses grow, and changes of one record in them.
use cno_cli.Base.{
  ℕ, suc, ◌+◌, ◌≤◌, ◌<◌, ◌≡◌, refl, sym, ap, ◌∙◌, arith, true, false, Option, none, some,
}
use cno_cli.Base.{List, [], ◌∷◌, ◌++◌, ◌==◌, if◌then◌else◌, Bool-cases, inl, inr}
use cno_cli.Engine.MapState.{Keys, MapRecord, Records, remove, put_back, edit, release, slot}
use cno_cli.Engine.MapState.Methods.{with_value, put_value}

module _ (keys : Keys) (V : Type 0) where
  open keys use {Key}

  -- The addresses grow, from `lo` on and below `hi`.
  abbrev pub Ordered : ℕ → ℕ → Records keys V → Type 0
  Ordered lo hi [] = lo ≤ hi
  Ordered lo hi ((a, r) ∷ rs) = (lo ≤ a) × Ordered (suc a) hi rs

  abbrev pub cons_entry : Option (Key × V) → List (Key × V) → List (Key × V)
  cons_entry none es = es
  cons_entry (some e) es = e ∷ es

  -- The entries of the records that are not empty.
  abbrev pub entries : Records keys V → List (Key × V)
  entries [] = []
  entries ((a, r) ∷ rs) = cons_entry r.entry (entries rs)

  abbrev pub cons_listed : ℕ → ℕ → ℕ → Option (Key × V) → List ℕ → List ℕ
  cons_listed size h a none rest = rest
  cons_listed size h a (some (k, v)) rest = if slot keys V k size == h then a ∷ rest else rest

  -- What bucket `h` of a table of that size has to list.
  abbrev pub listed : ℕ → ℕ → Records keys V → List ℕ
  listed size h [] = []
  listed size h ((a, r) ∷ rs) = cons_listed size h a r.entry (listed size h rs)

  pub Ordered-weaken :
      (lo lo' hi : ℕ) (rs : Records keys V) → lo ≤ lo' → Ordered lo' hi rs → Ordered lo hi rs
  Ordered-weaken lo lo' hi [] le h = omega arith
  Ordered-weaken lo lo' hi ((a, r) ∷ rs) le h = (omega arith, h.1)

  pub Ordered-snoc :
      (lo hi : ℕ) (rs : Records keys V) (r : MapRecord keys V)
      → Ordered lo hi rs
      → Ordered lo (hi + 1) (rs ++ ((hi, r) ∷ []))
  Ordered-snoc lo hi [] r h = (h, omega arith)
  Ordered-snoc lo hi ((a, q) ∷ rs) r h = (h.0, Ordered-snoc (suc a) hi rs r h.1)

  Ordered-put_back :
      (lo hi a : ℕ) (o : Option (MapRecord keys V)) (rs : Records keys V)
      → lo ≤ a
      → Ordered (suc a) hi rs
      → Ordered lo hi (put_back keys V a o rs)
  Ordered-put_back lo hi a none rs le h = Ordered-weaken lo (suc a) hi rs (omega arith) h
  Ordered-put_back lo hi a (some r) rs le h = (le, h)

  pub Ordered-edit :
      (mr lo hi : ℕ) (f : MapRecord keys V → Option (MapRecord keys V)) (rs : Records keys V)
      → Ordered lo hi rs
      → Ordered lo hi (edit keys V mr f rs)
  unfolding edit
  Ordered-edit mr lo hi f [] h = h
  Ordered-edit mr lo hi f ((a, r) ∷ rs) h = elim (Bool-cases (a == mr)) [
    | inl here ↦ rw here (Ordered-put_back lo hi a (f r) rs h.0 h.1)
    | inr on ↦ rw on (h.0, Ordered-edit mr (suc a) hi f rs h.1)
  ]

  pub edit_here :
      (mr a : ℕ) (f : MapRecord keys V → Option (MapRecord keys V)) (r : MapRecord keys V)
      (rs : Records keys V)
      → (a == mr) ≡ true
      → edit keys V mr f ((a, r) ∷ rs) ≡ put_back keys V a (f r) rs
  unfolding edit
  edit_here mr a f r rs h = rw h refl

  pub edit_on :
      (mr a : ℕ) (f : MapRecord keys V → Option (MapRecord keys V)) (r : MapRecord keys V)
      (rs : Records keys V)
      → (a == mr) ≡ false
      → edit keys V mr f ((a, r) ∷ rs) ≡ (a, r) ∷ edit keys V mr f rs
  unfolding edit
  edit_on mr a f r rs h = rw h refl

  pub edit-below :
      (mr lo hi : ℕ) (f : MapRecord keys V → Option (MapRecord keys V)) (rs : Records keys V)
      → Ordered lo hi rs
      → mr < lo
      → edit keys V mr f rs ≡ rs
  unfolding edit
  edit-below mr lo hi f [] h lt = refl
  edit-below mr lo hi f ((a, r) ∷ rs) h lt = ground (arith, edit-below mr (suc a) hi f rs h.1)

  -- What is taken off a bucket is the address itself, if it is there.
  remove-cons_here :
      (size i a : ℕ) (e : Option (Key × V)) (rest : List ℕ)
      → remove keys V a (cons_listed size i a e rest) ≡ remove keys V a rest
  unfolding remove
  remove-cons_here size i a none rest = refl
  remove-cons_here size i a (some (k, v)) rest = ground arith

  remove-cons_on :
      (mr size i a : ℕ) (e : Option (Key × V)) (rest : List ℕ)
      → (a == mr) ≡ false
      → remove keys V mr (cons_listed size i a e rest)
        ≡ cons_listed size i a e (remove keys V mr rest)
  unfolding remove
  remove-cons_on mr size i a none rest h = refl
  remove-cons_on mr size i a (some (k, v)) rest h = ground arith

  remove-listed_below :
      (mr size i lo hi : ℕ) (rs : Records keys V)
      → Ordered lo hi rs
      → mr < lo
      → remove keys V mr (listed size i rs) ≡ listed size i rs
  remove-listed_below mr size i lo hi [] h lt = unfold remove in refl
  remove-listed_below mr size i lo hi ((a, r) ∷ rs) h lt =
      remove-cons_on mr size i a r.entry (listed size i rs) (ground arith)
      ∙ ap (cons_listed size i a r.entry)
          (remove-listed_below mr size i (suc a) hi rs h.1 (omega arith))

  listed-released :
      (size i a : ℕ) (r : MapRecord keys V) (rs : Records keys V)
      → listed size i (put_back keys V a (release keys V r) rs) ≡ listed size i rs
  unfolding release
  listed-released size i a r rs = ground arith

  -- Releasing a record takes it off its bucket.
  pub listed-release :
      (mr size i lo hi : ℕ) (rs : Records keys V)
      → Ordered lo hi rs
      → listed size i (edit keys V mr (release keys V) rs) ≡ remove keys V mr (listed size i rs)
  listed-release mr size i lo hi [] h = unfold edit remove in refl
  listed-release mr size i lo hi ((a, r) ∷ rs) h = elim (Bool-cases (a == mr)) [
    | inl here ↦
        let same : a ≡ mr = ground arith in
        ap (listed size i) (edit_here mr a (release keys V) r rs here)
        ∙ listed-released size i a r rs
        ∙ sym (remove-listed_below mr size i (suc a) hi rs h.1 (omega arith))
        ∙ sym (rw (← same) (remove-cons_here size i a r.entry (listed size i rs)))
    | inr on ↦
        ap (listed size i) (edit_on mr a (release keys V) r rs on)
        ∙ ap (cons_listed size i a r.entry) (listed-release mr size i (suc a) hi rs h.1)
        ∙ sym (remove-cons_on mr size i a r.entry (listed size i rs) on)
  ]

  listed-with_value :
      (size i a : ℕ) (v : V) (e : Option (Key × V)) (rest : List ℕ)
      → cons_listed size i a (with_value keys V v e) rest ≡ cons_listed size i a e rest
  listed-with_value size i a v none rest = refl
  listed-with_value size i a v (some (k, w)) rest = refl

  pub listed-put_value :
      (mr size i : ℕ) (v : V) (rs : Records keys V)
      → listed size i (edit keys V mr (put_value keys V v) rs) ≡ listed size i rs
  unfolding edit put_value
  listed-put_value mr size i v [] = refl
  listed-put_value mr size i v ((a, r) ∷ rs) = ground (
    arith,
    listed-put_value mr size i v rs,
    listed-with_value size i a v r.entry (listed size i rs),
  )
