-- ===== src/LazyCollections/Runs.antt =====
-- src/lazy_collections.rs on a file of two numbers, and the theorems at concrete inputs.
use skitter.Prelude.{ℕ, suc, ◌≡◌, refl, some, List, [], ◌∷◌, ◌++◌, All, arith}
use skitter.Persist.Stream.{new_writer, new_reader, at}
use skitter.Persist.Class.{RoundTrips}
use skitter.Persist.Uint.{persist_uint, uint_write, to_le_bytes}
use skitter.Persist.Uint.Laws.{uint_trip, uint_bytes}
use skitter.Persist.Sequences.Laws.{items_bytes}
use skitter.LazyCollections.Array.{LazyArray, write, read}
use skitter.LazyCollections.Array.Lookup.{
  Represents, Finds, fresh_array, fresh_array-Represents, get-Finds,
}
use skitter.LazyCollections.Array.RoundTrip.{read-write_lazy}

abbrev numbers : List ℕ
numbers = 7 ∷ 300 ∷ []

trips : All (RoundTrips (persist_uint 32)) numbers
trips =
    (uint_trip 32 7 (omega arith) (omega arith), (uint_trip 32 300 (omega arith) (omega arith), tt))

-- Two entries, at offsets 0 and 1, in four bytes.
file :
    (write (persist_uint 32) numbers new_writer).output
    ≡ 2 ∷ 0 ∷ 0 ∷ 0 ∷ 0 ∷ 1 ∷ 0 ∷ 0 ∷ 0 ∷ 4 ∷ 7 ∷ 252 ∷ 44 ∷ 1 ∷ []
unfolding write uint_write to_le_bytes
file = refl

read-write_lazy_example :
    (a : LazyArray ℕ) × (read
        (new_reader ((write (persist_uint 32) numbers new_writer).output ++ 9 ∷ []))
      ≡ some (a, at (write (persist_uint 32) numbers new_writer).output (9 ∷ [])))
    × Represents (persist_uint 32) suc a numbers
unfolding trips items_bytes uint_trip uint_bytes to_le_bytes
read-write_lazy_example =
    read-write_lazy (persist_uint 32) suc numbers (9 ∷ []) trips (omega arith) (omega arith)

get-Finds_example :
    Finds (persist_uint 32) suc (fresh_array (persist_uint 32) numbers trips) numbers 1 300
get-Finds_example =
    get-Finds (persist_uint 32) suc (fresh_array (persist_uint 32) numbers trips) numbers 1 300
      (fresh_array-Represents (persist_uint 32) suc numbers trips) refl
