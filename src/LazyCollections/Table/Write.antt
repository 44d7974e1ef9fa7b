-- ===== src/LazyCollections/Table/Write.antt =====
-- `LazyTable::write` of src/lazy_collections.rs. The keys go into buckets by their unseeded hash, the
-- fullest bucket first; a bucket of one key leads straight to its item, and for a larger one a seed is
-- searched that sends its keys to distinct free slots of the second table. The search has no bound in
-- the source: it runs on fuel here, and out of fuel is `none`.
pub mod Sorting
pub mod Buckets
pub mod Seeds
pub mod Slots
pub mod Fill
pub mod Tables
pub mod Serving
pub mod Bytes
pub mod Keys
pub mod RoundTrip
mod Runs
use skitter.Prelude.{
  ℕ, zero, suc, ◌%◌, ◌^◌, Bool, true, false, not, ◌||◌, Option, none, some, List, [], ◌∷◌, ◌++◌,
  map, ◌>>=◌, if◌then◌else◌, leb, ◌==◌, length, get_elem?, set, replicate,
}
use skitter.Prelude.Int.{ℤ, pos, negsuc, eqb_ℤ}
use skitter.Persist.Stream.{PersistWriter, write_bytes}
use skitter.Persist.Class.{Persist}
use skitter.Persist.Uint.{usize}
use skitter.Vm.Words.{b32, to_signed, wrap}
use skitter.LazyCollections.Array.{raw_bytes}
use skitter.LazyCollections.Array
use skitter.LazyCollections.Table.{table_slot_invalid}

-- `item_index as i32`
abbrev pub as_i32 : ℕ → ℤ
as_i32 i = to_signed b32 (i % 2 ^ 32)

-- `table_2[i] != TABLE_SLOT_INVALID`; the slots asked for are all inside the table.
unfoldable pub occupied : List ℤ → ℕ → Bool
occupied t i = elim (get_elem? t i) [ none ↦ true | some v ↦ not (eqb_ℤ v table_slot_invalid) ]

-- `new_indices.iter().any(|(x, _, _)| *x == hash_index)`
unfoldable pub any_slot : ℕ → List (ℕ × ℕ) → Bool
any_slot h [] = false
any_slot h (e ∷ es) = (e.0 == h) || any_slot h es

-- The loop that writes `new_indices` into the second table.
unfoldable pub store_all : List (ℕ × ℕ) → List ℤ → List ℤ
store_all [] t = t
store_all (e ∷ es) t = store_all es (set t e.0 (as_i32 e.1))

module _ {A : Type 0} where
  -- `buckets[i].push(x)`
  unfoldable pub push_at : ℕ → A → List (List A) → List (List A)
  push_at i x [] = []
  push_at zero x (b ∷ bs) = (b ++ x ∷ []) ∷ bs
  push_at (suc i) x (b ∷ bs) = b ∷ push_at i x bs

  unfoldable pub enumerate : ℕ → List A → List (ℕ × A)
  enumerate i [] = []
  enumerate i (x ∷ xs) = (i, x) ∷ enumerate (suc i) xs

  -- `sort_by_key(|(_, bucket)| -(bucket.len() as isize))`, which is stable.
  unfoldable pub insert_sorted : ℕ × List A → List (ℕ × List A) → List (ℕ × List A)
  insert_sorted e [] = e ∷ []
  insert_sorted e (x ∷ xs) =
      if leb (length x.1) (length e.1) then e ∷ x ∷ xs else x ∷ insert_sorted e xs

  unfoldable pub sort_buckets : List (ℕ × List A) → List (ℕ × List A)
  sort_buckets [] = []
  sort_buckets (e ∷ es) = insert_sorted e (sort_buckets es)

module _ {K : Type 0} (hash : ℤ → K → ℕ) (table_size : ℕ) where
  abbrev pub slot_of : ℤ → K → ℕ
  slot_of seed k = hash seed k % table_size

  -- Which bucket each entry falls in.
  unfoldable pub fill_buckets : List (K × ℕ) → List (List (K × ℕ)) → List (List (K × ℕ))
  fill_buckets [] buckets = buckets
  fill_buckets (e ∷ es) buckets = fill_buckets es (push_at (slot_of (pos 0) e.0) e buckets)

  -- `new_indices`: it breaks off at the first key whose slot is taken.
  unfoldable pub place : ℤ → List ℤ → List (K × ℕ) → List (ℕ × ℕ) → List (ℕ × ℕ)
  place seed t2 [] new_indices = new_indices
  place seed t2 (e ∷ es) new_indices =
      let h = slot_of seed e.0 in
      let rest = place seed t2 es (new_indices ++ (h, e.1) ∷ []) in
      if occupied t2 h || any_slot h new_indices then new_indices else rest

  -- The seeds -1, -2, …
  unfoldable pub search_seed : ℕ → ℕ → List ℤ → List (K × ℕ) → Option (ℤ × List (ℕ × ℕ))
  search_seed zero s t2 keys = none
  search_seed (suc fuel) s t2 keys =
      let new_indices = place (negsuc s) t2 keys [] in
      let rest = search_seed fuel (suc s) t2 keys in
      if length new_indices == length keys then some (negsuc s, new_indices) else rest

  unfoldable pub fill_bucket : ℕ → ℕ → List (K × ℕ) → List ℤ × List ℤ → Option (List ℤ × List ℤ)
  fill_bucket fuel bucket_i [] (t1, t2) = some (t1, t2)
  fill_bucket fuel bucket_i (e ∷ []) (t1, t2) = some (set t1 bucket_i (as_i32 e.1), t2)
  fill_bucket fuel bucket_i (e ∷ f ∷ es) (t1, t2) = do
    (seed, new_indices) ← search_seed fuel 0 t2 (e ∷ f ∷ es)
    some (set t1 bucket_i seed, store_all new_indices t2)

  unfoldable pub fill_tables :
      ℕ → List (ℕ × List (K × ℕ)) → List ℤ × List ℤ → Option (List ℤ × List ℤ)
  fill_tables fuel [] tables = some tables
  fill_tables fuel ((i, keys) ∷ rest) tables =
      fill_bucket fuel i keys tables >>= fill_tables fuel rest

  abbrev pub new_buckets : List (K × ℕ) → List (List (K × ℕ))
  new_buckets keys = fill_buckets keys (replicate table_size [])

  abbrev pub new_table : List ℤ
  new_table = replicate table_size table_slot_invalid

  unfoldable pub build_tables : ℕ → List (K × ℕ) → Option (List ℤ × List ℤ)
  build_tables fuel keys =
      fill_tables fuel (sort_buckets (enumerate 0 (new_buckets keys))) (new_table, new_table)

module _ {I K : Type 0} (key_for_input : I → Option K) where
  -- The items that have a key, each with its index.
  unfoldable pub keys_of : ℕ → List I → List (K × ℕ)
  keys_of i [] = []
  keys_of i (x ∷ xs) = elim (key_for_input x) [
    | none ↦ keys_of (suc i) xs
    | some k ↦ (k, i) ∷ keys_of (suc i) xs
  ]

  unfoldable pub table_write :
      Persist I → (ℤ → K → ℕ) → ℕ → List I → PersistWriter → Option PersistWriter
  unfolding build_tables
  table_write p hash fuel items out = do
    let keys = keys_of 0 items
    let table_size = length keys
    let counted = usize.persist_write table_size (Array.write p items out)
    (table_1, table_2) ← build_tables hash table_size fuel keys
    let first = write_bytes (raw_bytes 4 (map (wrap b32) table_1)) counted
    some (write_bytes (raw_bytes 4 (map (wrap b32) table_2)) first)
