-- ===== src/Engine/MapState/Invariant.antt =====
-- The invariant of the table, which every operation on it keeps.
use cno_cli.Base.{
  ℕ, zero, suc, ◌<◌, ◌≡◌, refl, sym, ap, ◌∙◌, arith, Bool, true, false, Option, none, some,
}
use cno_cli.Base.{
  List, [], ◌∷◌, ◌++◌, length, length-append, ◌==◌, leb, if◌then◌else◌, Bool-cases, inl, inr,
}
use cno_cli.Engine.MapState.{
  Keys, MapState, init_table, bucket, edit, entry_at, remove, slot, grown, map_hash_resize,
  link_record, enlarge, unlink_record, release, map_delete_record, new_map,
}
use cno_cli.Engine.MapState.Methods.{put_value}
use cno_cli.Engine.MapState.Ordered.{
  Ordered, entries, listed, Ordered-snoc, Ordered-edit, listed-release, listed-put_value,
}
use cno_cli.Engine.MapState.Entries.{entries-append, length-entries-release, length-entries_put}
use cno_cli.Engine.MapState.Buckets.{
  slot-lt, length-init_table, bucket-init_table, length-add_tail, bucket-add_tail, length-unlink,
  bucket-unlink, length-rehash, bucket-rehash, listed-snoc,
}

module _ (keys : Keys) (V : Type 0) where
  open keys use {Key}

  -- The addresses of the records grow, there are as many buckets as the table says, each lists the
  -- records whose keys belong in it, in the order of insertion, and the count is that of the
  -- entries.
  pub record IsValid (s : MapState keys V) : Type 0 where
    pub ordered : Ordered keys V 0 s.next_address s.records
    pub sized : 0 < s.hash_size
    pub tabled : length s.hash_table ≡ s.hash_size
    pub buckets : (h : ℕ) → bucket keys V s.hash_table h ≡ listed keys V s.hash_size h s.records
    pub counted : s.record_count ≡ length (entries keys V s.records)

  one_bucket : (h : ℕ) → bucket keys V ([] ∷ []) h ≡ []
  unfolding bucket
  one_bucket zero = refl
  one_bucket (suc h) = refl

  pub new_map-IsValid : (is_weak : Bool) → IsValid (new_map keys V is_weak)
  unfolding new_map
  new_map-IsValid is_weak = record {
    ordered = omega arith;
    sized = omega arith;
    tabled = refl;
    buckets = one_bucket;
    counted = refl;
  }

  grown_pos : (size : ℕ) → 0 < size → 0 < grown keys V size
  unfolding grown
  grown_pos size h = ground arith

  resize-IsValid :
      (granted : Bool) (s : MapState keys V)
      → IsValid s
      → IsValid (map_hash_resize keys V granted s)
  unfolding map_hash_resize
  resize-IsValid false s h = h
  resize-IsValid true s h =
      let size = grown keys V s.hash_size in
      let empty = length-init_table keys V size in
      record {
        ordered = h.ordered;
        sized = grown_pos s.hash_size h.sized;
        tabled = length-rehash keys V size s.records (init_table keys V size) ∙ empty;
        buckets = λ i.
            bucket-rehash keys V size i s.records (init_table keys V size)
              (grown_pos s.hash_size h.sized) empty
            ∙ ap (λ (xs : List ℕ). xs ++ listed keys V size i s.records)
                (bucket-init_table keys V size i);
        counted = h.counted;
      }

  enlarge-IsValid :
      (granted : Bool) (s : MapState keys V) → IsValid s → IsValid (enlarge keys V granted s)
  enlarge-IsValid granted s h = elim (Bool-cases (leb s.record_count_threshold s.record_count)) [
    | inl over ↦ rw over (resize-IsValid granted s h)
    | inr under ↦ rw under h
  ]

  link_record-IsValid :
      (key : Key) (v : V) (s : MapState keys V) → IsValid s → IsValid (link_record keys V key v s)
  unfolding link_record
  link_record-IsValid key v s h =
      let inside = slot-lt keys V key s.hash_size h.sized in
      let at = slot keys V key s.hash_size in
      record {
        ordered = Ordered-snoc keys V 0 s.next_address s.records _ h.ordered;
        sized = h.sized;
        tabled = length-add_tail keys V at s.next_address s.hash_table ∙ h.tabled;
        buckets = λ i.
            bucket-add_tail keys V at i s.next_address s.hash_table
              (omega (arith, inside, h.tabled))
            ∙ ap (λ (xs : List ℕ). xs ++ (if at == i then s.next_address ∷ [] else []))
                (h.buckets i)
            ∙ sym (listed-snoc keys V s.hash_size i s.next_address _ s.records);
        counted = omega (
          arith,
          h.counted,
          ap length (
              entries-append keys V s.records
                ((s.next_address, record { ref_count = 1; entry = some (key, v) }) ∷ [])),
          length-append (entries keys V s.records) ((key, v) ∷ []),
        );
      }

  pub add-IsValid :
      (granted : Bool) (key : Key) (v : V) (s : MapState keys V)
      → IsValid s
      → IsValid (enlarge keys V granted (link_record keys V key v s))
  add-IsValid granted key v s h =
      enlarge-IsValid granted (link_record keys V key v s) (link_record-IsValid key v s h)

  unlink_record-IsValid :
      (mr : ℕ) (e : Option (Key × V)) (s : MapState keys V)
      → entry_at keys V mr s.records ≡ e
      → IsValid s
      → IsValid (unlink_record keys V mr e s)
  unfolding unlink_record
  unlink_record-IsValid mr none s at h = h
  unlink_record-IsValid mr (some e) s at h = record {
    ordered = Ordered-edit keys V mr 0 s.next_address (release keys V) s.records h.ordered;
    sized = h.sized;
    tabled = length-unlink keys V mr s.hash_table ∙ h.tabled;
    buckets = λ i.
        bucket-unlink keys V mr i s.hash_table
        ∙ ap (remove keys V mr) (h.buckets i)
        ∙ sym (listed-release keys V mr s.hash_size i 0 s.next_address s.records h.ordered);
    counted = omega (arith, h.counted, length-entries-release keys V mr e s.records at);
  }

  pub delete-IsValid :
      (mr : ℕ) (s : MapState keys V) → IsValid s → IsValid (map_delete_record keys V mr s)
  unfolding map_delete_record
  delete-IsValid mr s h = unlink_record-IsValid mr (entry_at keys V mr s.records) s refl h

  pub put_value-IsValid :
      (mr : ℕ) (v : V) (s : MapState keys V)
      → IsValid s
      → IsValid (record s { records = edit keys V mr (put_value keys V v) s.records })
  put_value-IsValid mr v s h = record {
    ordered = Ordered-edit keys V mr 0 s.next_address (put_value keys V v) s.records h.ordered;
    sized = h.sized;
    tabled = h.tabled;
    buckets = λ i. h.buckets i ∙ sym (listed-put_value keys V mr s.hash_size i v s.records);
    counted = h.counted ∙ sym (length-entries_put keys V mr v s.records);
  }
