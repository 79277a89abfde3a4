-- ===== src/Engine/MapState.antt =====
-- The table behind `Map`, `Set`, `WeakMap` and `WeakSet` of .backup/quickjs.c: a list of records in
-- the order of insertion, and buckets that list the addresses of the records that are not empty.
-- An address is a number, and the allocator gives one that is above all before. The counts of the
-- table are not cut to their 32 bits: a table so large does not fit in memory. What the keys are and
-- how they compare is a parameter, `Keys`.
pub mod Methods
pub mod Tests
pub mod Ordered
pub mod Entries
pub mod Buckets
pub mod Invariant
pub mod Spec
pub mod Find
pub mod Clear
pub mod Refines
pub mod Runs
pub mod Numbers
pub mod Hash
pub mod Coherent
pub mod Iterator
use cno_cli.Base.{ℕ, zero, suc, ◌+◌, ◌-◌, ◌*◌, ◌≡◌, Bool, true, false, Option, none, some}
use cno_cli.Base.{List, [], ◌∷◌, ◌++◌, leb, ◌==◌, if◌then◌else◌, bit_and}

-- `map_hash_key`, `js_same_value_zero`, `map_normalize_key` and `is_valid_weakref_target`.
pub record Keys : Type 1 where
  pub Key : Type 0
  pub hash : Key → ℕ
  pub same : Key → Key → Bool
  pub normalize : Key → Key
  pub weak_target : Key → Bool

-- What the allocator grants a new record, and a larger table.
pub record Grants : Type 0 where
  pub for_record : Bool
  pub for_table : Bool

module _ (keys : Keys) (V : Type 0) where
  open keys use {Key, hash, same}

  -- A record that is `empty` has no entry; its key and value are then undefined.
  pub record MapRecord : Type 0 where
    pub ref_count : ℕ
    pub entry : Option (Key × V)

  abbrev pub Records : Type 0
  Records = List (ℕ × MapRecord)

  pub record MapState : Type 0 where
    pub is_weak : Bool
    pub records : Records
    pub record_count : ℕ
    pub hash_table : List (List ℕ)
    pub hash_size : ℕ
    pub record_count_threshold : ℕ
    pub next_address : ℕ

  -- `init_list_head` of that many buckets.
  unfoldable pub init_table : ℕ → List (List ℕ)
  init_table zero = []
  init_table (suc n) = [] ∷ init_table n

  unfoldable pub bucket : List (List ℕ) → ℕ → List ℕ
  bucket [] h = []
  bucket (b ∷ bs) zero = b
  bucket (b ∷ bs) (suc h) = bucket bs h

  -- `list_add_tail(&mr->hash_link, &hash_table[h])`
  unfoldable pub add_tail : ℕ → ℕ → List (List ℕ) → List (List ℕ)
  add_tail h mr [] = []
  add_tail zero mr (b ∷ bs) = (b ++ (mr ∷ [])) ∷ bs
  add_tail (suc h) mr (b ∷ bs) = b ∷ add_tail h mr bs

  unfoldable pub remove : ℕ → List ℕ → List ℕ
  remove mr [] = []
  remove mr (a ∷ as') = let rest = remove mr as' in if a == mr then rest else a ∷ rest

  -- `list_del(&mr->hash_link)`, whichever bucket has it.
  unfoldable pub unlink : ℕ → List (List ℕ) → List (List ℕ)
  unfolding remove
  unlink mr [] = []
  unlink mr (b ∷ bs) = remove mr b ∷ unlink mr bs

  -- What the record at an address holds.
  unfoldable pub entry_at : ℕ → Records → Option (Key × V)
  entry_at mr [] = none
  entry_at mr ((a, r) ∷ rs) = let rest = entry_at mr rs in if a == mr then r.entry else rest

  abbrev pub put_back : ℕ → Option MapRecord → Records → Records
  put_back a none rs = rs
  put_back a (some r) rs = (a, r) ∷ rs

  -- A change of the record at an address; `none` takes it off the list and frees it.
  unfoldable pub edit : ℕ → (MapRecord → Option MapRecord) → Records → Records
  edit mr f [] = []
  edit mr f ((a, r) ∷ rs) =
      let rest = edit mr f rs in if a == mr then put_back a (f r) rs else (a, r) ∷ rest

  -- `map_hash_key(ctx, key) & (s->hash_size - 1)`
  unfoldable pub slot : Key → ℕ → ℕ
  slot key size = bit_and (hash key) (size - 1)

  unfoldable pub holds : Key → Option (Key × V) → Bool
  holds key none = false
  holds key (some (k, v)) = same k key

  unfoldable pub find_loop : Records → Key → List ℕ → Option ℕ
  unfolding holds entry_at
  find_loop records key [] = none
  find_loop records key (mr ∷ rest) =
      let later = find_loop records key rest in
      if holds key (entry_at mr records) then some mr else later

  unfoldable pub map_find_record : MapState → Key → Option ℕ
  unfolding find_loop bucket slot
  map_find_record s key = find_loop s.records key (bucket s.hash_table (slot key s.hash_size))

  abbrev pub link_entry : ℕ → ℕ → Option (Key × V) → List (List ℕ) → List (List ℕ)
  link_entry size mr none table = table
  link_entry size mr (some (k, v)) table = add_tail (slot k size) mr table

  -- The loop of `map_hash_resize` over the records.
  unfoldable pub rehash : ℕ → Records → List (List ℕ) → List (List ℕ)
  unfolding add_tail slot
  rehash size [] table = table
  rehash size ((a, r) ∷ rs) table = rehash size rs (link_entry size a r.entry table)

  unfoldable pub grown : ℕ → ℕ
  grown size = if size == 1 then 4 else size * 2

  unfoldable pub map_hash_resize : Bool → MapState → MapState
  unfolding rehash init_table grown
  map_hash_resize granted s =
      if granted
      then record s {
        hash_table = rehash (grown s.hash_size) s.records (init_table (grown s.hash_size));
        hash_size = grown s.hash_size;
        record_count_threshold = grown s.hash_size * 2;
      }
      else s

  -- The record is linked in its bucket and at the end of the list, with the value that each caller
  -- stores in it next.
  unfoldable pub link_record : Key → V → MapState → MapState
  unfolding add_tail slot
  link_record key value s = record s {
    hash_table = add_tail (slot key s.hash_size) s.next_address s.hash_table;
    records =
        s.records ++ ((s.next_address, record { ref_count = 1; entry = some (key, value) }) ∷ []);
    record_count = s.record_count + 1;
    next_address = s.next_address + 1;
  }

  abbrev pub enlarge : Bool → MapState → MapState
  enlarge granted s =
      if leb s.record_count_threshold s.record_count then map_hash_resize granted s else s

  -- `none` where there is no memory for the record, or for the weak reference to its key.
  unfoldable pub map_add_record : Grants → Key → V → MapState → Option MapState
  unfolding link_record map_hash_resize
  map_add_record grants key value s =
      if grants.for_record then some (enlarge grants.for_table (link_record key value s)) else none

  -- `ref_count` less one; a record that an iterator still holds is kept as an empty one.
  unfoldable pub release : MapRecord → Option MapRecord
  release r =
      if r.ref_count - 1 == 0
      then none
      else some (record { ref_count = r.ref_count - 1; entry = none })

  unfoldable pub unlink_record : ℕ → Option (Key × V) → MapState → MapState
  unfolding edit unlink release
  unlink_record mr none s = s
  unlink_record mr (some e) s = record s {
    hash_table = unlink mr s.hash_table;
    records = edit mr release s.records;
    record_count = s.record_count - 1;
  }

  unfoldable pub map_delete_record : ℕ → MapState → MapState
  unfolding unlink_record entry_at
  map_delete_record mr s = unlink_record mr (entry_at mr s.records) s

  -- An iterator lets go of a record.
  unfoldable pub let_go : MapRecord → Option MapRecord
  let_go r = if r.ref_count - 1 == 0 then none else some (record r { ref_count = r.ref_count - 1 })

  unfoldable pub map_decref_record : ℕ → MapState → MapState
  unfolding edit let_go
  map_decref_record mr s = record s { records = edit mr let_go s.records }

  -- The state that `js_map_constructor` sets up.
  unfoldable pub new_map : Bool → MapState
  new_map is_weak = record {
    is_weak = is_weak;
    records = [];
    record_count = 0;
    hash_table = [] ∷ [];
    hash_size = 1;
    record_count_threshold = 4;
    next_address = 0;
  }
