-- ===== src/Engine/MapState/Buckets.antt =====
-- The buckets of the table: what they list after an addition, a removal and a resize.
use cno_cli.Base.{ℕ, zero, suc, ◌-◌, ◌<◌, ◌≡◌, refl, sym, ap, ◌∙◌, arith, Option, none, some}
use cno_cli.Base.{List, [], ◌∷◌, ◌++◌, append_assoc, append-nil, length, ◌==◌, if◌then◌else◌}
use cno_cli.Base.Bits.{bit_and-le}
use cno_cli.Engine.MapState.{
  Keys, MapRecord, Records, init_table, bucket, add_tail, remove, unlink, slot, link_entry, rehash,
}
use cno_cli.Engine.MapState.Ordered.{cons_listed, listed}

module _ (keys : Keys) (V : Type 0) where
  open keys use {Key, hash}

  -- A slot is inside a table that is not empty.
  pub slot-lt : (key : Key) (size : ℕ) → 0 < size → slot keys V key size < size
  unfolding slot
  slot-lt key size h = omega (arith, bit_and-le (hash key) (size - 1))

  pub length-init_table : (n : ℕ) → length (init_table keys V n) ≡ n
  unfolding init_table
  length-init_table zero = refl
  length-init_table (suc n) = ap suc (length-init_table n)

  pub bucket-init_table : (n h : ℕ) → bucket keys V (init_table keys V n) h ≡ []
  unfolding init_table bucket
  bucket-init_table zero h = refl
  bucket-init_table (suc n) zero = refl
  bucket-init_table (suc n) (suc h) = bucket-init_table n h

  pub length-add_tail :
      (h a : ℕ) (table : List (List ℕ)) → length (add_tail keys V h a table) ≡ length table
  unfolding add_tail
  length-add_tail h a [] = refl
  length-add_tail zero a (b ∷ bs) = refl
  length-add_tail (suc h) a (b ∷ bs) = ap suc (length-add_tail h a bs)

  pub bucket-add_tail :
      (at h a : ℕ) (table : List (List ℕ))
      → at < length table
      → bucket keys V (add_tail keys V at a table) h
        ≡ bucket keys V table h ++ (if at == h then a ∷ [] else [])
  unfolding add_tail bucket
  bucket-add_tail at h a [] lt = absurd (omega arith)
  bucket-add_tail zero zero a (b ∷ bs) lt = refl
  bucket-add_tail zero (suc h) a (b ∷ bs) lt = ground (arith, append-nil (bucket keys V bs h))
  bucket-add_tail (suc at) zero a (b ∷ bs) lt = ground (arith, append-nil b)
  bucket-add_tail (suc at) (suc h) a (b ∷ bs) lt =
      ground (arith, bucket-add_tail at h a bs (omega arith))

  pub length-unlink :
      (a : ℕ) (table : List (List ℕ)) → length (unlink keys V a table) ≡ length table
  unfolding unlink
  length-unlink a [] = refl
  length-unlink a (b ∷ bs) = ap suc (length-unlink a bs)

  pub bucket-unlink :
      (a h : ℕ) (table : List (List ℕ))
      → bucket keys V (unlink keys V a table) h ≡ remove keys V a (bucket keys V table h)
  unfolding unlink bucket
  bucket-unlink a h [] = unfold remove in refl
  bucket-unlink a zero (b ∷ bs) = refl
  bucket-unlink a (suc h) (b ∷ bs) = bucket-unlink a h bs

  cons_listed-append :
      (size h a : ℕ) (e : Option (Key × V)) (xs ys : List ℕ)
      → cons_listed keys V size h a e (xs ++ ys) ≡ cons_listed keys V size h a e xs ++ ys
  cons_listed-append size h a none xs ys = refl
  cons_listed-append size h a (some (k, v)) xs ys = ground arith

  length-link_entry :
      (size a : ℕ) (e : Option (Key × V)) (table : List (List ℕ))
      → length (link_entry keys V size a e table) ≡ length table
  length-link_entry size a none table = refl
  length-link_entry size a (some (k, v)) table = length-add_tail (slot keys V k size) a table

  bucket-link_entry :
      (size h a : ℕ) (e : Option (Key × V)) (table : List (List ℕ))
      → 0 < size
      → length table ≡ size
      → bucket keys V (link_entry keys V size a e table) h
        ≡ bucket keys V table h ++ cons_listed keys V size h a e []
  bucket-link_entry size h a none table pos e = sym (append-nil (bucket keys V table h))
  bucket-link_entry size h a (some (k, v)) table pos e =
      let inside = slot-lt k size pos in
      bucket-add_tail (slot keys V k size) h a table (omega arith)

  pub length-rehash :
      (size : ℕ) (rs : Records keys V) (table : List (List ℕ))
      → length (rehash keys V size rs table) ≡ length table
  unfolding rehash
  length-rehash size [] table = refl
  length-rehash size ((a, r) ∷ rs) table =
      length-rehash size rs (link_entry keys V size a r.entry table)
      ∙ length-link_entry size a r.entry table

  -- A table is filled with what it has to list.
  pub bucket-rehash :
      (size h : ℕ) (rs : Records keys V) (table : List (List ℕ))
      → 0 < size
      → length table ≡ size
      → bucket keys V (rehash keys V size rs table) h
        ≡ bucket keys V table h ++ listed keys V size h rs
  unfolding rehash
  bucket-rehash size h [] table pos e = sym (append-nil (bucket keys V table h))
  bucket-rehash size h ((a, r) ∷ rs) table pos e =
      bucket-rehash size h rs (link_entry keys V size a r.entry table) pos
        (length-link_entry size a r.entry table ∙ e)
      ∙ ap (λ (xs : List ℕ). xs ++ listed keys V size h rs)
          (bucket-link_entry size h a r.entry table pos e)
      ∙ append_assoc (bucket keys V table h) (cons_listed keys V size h a r.entry [])
          (listed keys V size h rs)
      ∙ ap (λ (xs : List ℕ). bucket keys V table h ++ xs)
          (sym (cons_listed-append size h a r.entry [] (listed keys V size h rs)))

  pub listed-snoc :
      (size h a : ℕ) (r : MapRecord keys V) (rs : Records keys V)
      → listed keys V size h (rs ++ ((a, r) ∷ []))
        ≡ listed keys V size h rs ++ cons_listed keys V size h a r.entry []
  listed-snoc size h a r [] = refl
  listed-snoc size h a r ((b, q) ∷ rs) =
      ap (cons_listed keys V size h b q.entry) (listed-snoc size h a r rs)
      ∙ cons_listed-append size h b q.entry (listed keys V size h rs)
          (cons_listed keys V size h a r.entry [])
