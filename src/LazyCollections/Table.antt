-- ===== src/LazyCollections/Table.antt =====
-- src/lazy_collections.rs: `LazyTable`, a perfect hash table over a `LazyArray`: reading one from a file
-- and looking a key up. The hasher is an argument, since `ahash` is no part of the source.
pub mod Lookup
pub mod Write
mod Runs
use skitter.Prelude.{
  ℕ, ◌-◌, ◌%◌, ◌^◌, Bool, false, Option, none, some, List, map, ◌>>=◌, if◌then◌else◌, length,
  get_elem?,
}
use skitter.Prelude.Int.{ℤ, pos, negsuc, eqb_ℤ}
use skitter.Persist.Stream
use skitter.Persist.Stream.{Read}
use skitter.Persist.Class.{Persist}
use skitter.Persist.Uint.{usize}
use skitter.Vm.Words.{b32, to_signed}
use skitter.LazyCollections.Array.{LazyArray, read_raw_array, read, get}

pub record LazyTable (T : Type 0) : Type 0 where
  pub array : LazyArray T
  -- From primary hashes to indices, or to the seed of a secondary hash, which is negative.
  pub table_1 : List ℤ
  -- From secondary hashes to indices.
  pub table_2 : List ℤ

abbrev pub table_slot_invalid : ℤ
table_slot_invalid = pos (2 ^ 31 - 1)

unfoldable pub table_read : {T : Type 0} → Read (LazyTable T)
table_read = Stream.◌>>=◌ read (λ array. Stream.◌>>=◌ usize.persist_read (λ table_len.
    Stream.◌>>=◌ (read_raw_array 4 table_len) (λ table_1.
      Stream.◌>>=◌ (read_raw_array 4 table_len) (λ table_2. Stream.pure (record {
        array = array;
        table_1 = map (to_signed b32) table_1;
        table_2 = map (to_signed b32) table_2;
      })))))

module _ {I T K : Type 0} (p : Persist I) (build : I → T) where
  module _ (key : T → Option K) (key_eq : K → K → Bool) (hash : ℤ → K → ℕ) where
    -- An empty table panics: the remainder by 0 in the source, the missing slot here.
    abbrev pub slot : List ℤ → ℤ → K → Option ℤ
    slot table seed k = get_elem? table (hash seed k % length table)

    -- A negative entry of the first table is the seed for the second.
    unfoldable pub final_index : LazyTable T → K → Option ℤ
    final_index t k = slot t.table_1 (pos 0) k >>= λ t1_index. second t1_index
      where
        second : ℤ → Option ℤ
        second (pos n) = some (pos n)
        second (negsuc n) = slot t.table_2 (negsuc n) k

    -- `final_index as usize`, which for a negative index is out of bounds.
    abbrev pub as_usize : ℤ → Option ℕ
    as_usize (pos n) = some n
    as_usize (negsuc n) = none

    abbrev pub has_key : Option K → K → Bool
    has_key none k = false
    has_key (some j) k = key_eq j k

    pub table_get : LazyTable T → K → Option (Option T × LazyTable T)
    unfolding final_index
    table_get t k = final_index t k >>= λ final.
        if eqb_ℤ final table_slot_invalid
        then some (none, t)
        else (as_usize final >>= λ index. get p build t.array index >>= λ (item, array).
            some (if has_key (key item) k then some item else none, record t { array = array }))
