-- ===== src/LazyCollections/Table/Write/Runs.antt =====
-- `LazyTable::write` of src/lazy_collections.rs on two numbers that are their own keys, with a hash
-- that puts both into the first bucket, and the theorem at a concrete input.
use skitter.Prelude.{
  ℕ, zero, suc, ◌%◌, ◌<◌, ◌≡◌, ◌≢◌, refl, ap, ◌∙◌, Option, some, none, inl, inr, List, [], ◌∷◌,
  ◌++◌, All, ◌==◌, get_elem?, arith,
}
use mathlib.Core.List.Memᴰ.{cases_cons}
use skitter.Prelude.Int.{ℤ, pos, negsuc}
use skitter.Persist.Stream.{PersistWriter, at, new_writer, new_reader}
use skitter.Persist.Class.{RoundTrips}
use skitter.Persist.Uint.{persist_uint, to_le_bytes}
use skitter.Persist.Sequences.Laws.{items_bytes}
use skitter.Persist.Uint.Laws.{uint_trip, uint_bytes}
use skitter.LazyCollections.Table.{LazyTable, table_slot_invalid, table_read}
use skitter.LazyCollections.Table.Lookup.{Serves}
use skitter.Vm.Words.{to_signed}
use skitter.LazyCollections.Table.Write.{
  build_tables, keys_of, table_write, sort_buckets, fill_tables, enumerate, fill_buckets, push_at,
  insert_sorted, fill_bucket, search_seed, slot_of, place, occupied, any_slot, store_all,
}
use skitter.LazyCollections.Table.Write.Sorting.{Distinct}
use skitter.LazyCollections.Table.Write.Seeds.{Free, Fits, targets}
use skitter.LazyCollections.Table.Write.Tables.{HasSeeds, SeedsFrom}
use skitter.LazyCollections.Table.Write.Fill.{HasSeed}
use skitter.LazyCollections.Table.Write.Keys.{Unique}
use skitter.LazyCollections.Table.Write.RoundTrip.{table_read-table_write}

abbrev numbers : List ℕ
numbers = 4 ∷ 7 ∷ []

trips : All (RoundTrips (persist_uint 32)) numbers
trips =
    (uint_trip 32 4 (omega arith) (omega arith), (uint_trip 32 7 (omega arith) (omega arith), tt))

-- Unseeded, everything goes into bucket 0; by the seed -1 everything goes into slot 1, and by the
-- others a number goes by its parity.
abbrev hash : ℤ → ℕ → ℕ
hash (pos n) k = 0
hash (negsuc zero) k = 1
hash (negsuc (suc n)) k = k % 2

abbrev own_key : ℕ → Option ℕ
own_key n = some n

abbrev build : ℕ → ℕ
build n = n

abbrev numbered : List (ℕ × ℕ)
numbered = (4, 0) ∷ (7, 1) ∷ []

tables_run :
    build_tables hash 2 2 numbered ≡ some (negsuc 1 ∷ table_slot_invalid ∷ [], pos 0 ∷ pos 1 ∷ [])
unfolding build_tables fill_tables sort_buckets enumerate fill_buckets push_at insert_sorted
    fill_bucket search_seed place occupied any_slot store_all to_signed
tables_run = refl

-- One seed is not enough.
fuel_run : build_tables hash 2 1 numbered ≡ none
unfolding build_tables fill_tables sort_buckets enumerate fill_buckets push_at insert_sorted
    fill_bucket search_seed place occupied any_slot store_all to_signed
fuel_run = refl

-- Two keys that are the same never find a seed.
twice_run : build_tables hash 2 9 ((4, 0) ∷ (4, 1) ∷ []) ≡ none
unfolding build_tables fill_tables sort_buckets enumerate fill_buckets push_at insert_sorted
    fill_bucket search_seed place occupied any_slot store_all to_signed
twice_run = refl

sort_run :
    sort_buckets {A = ℕ} ((0, 5 ∷ []) ∷ (1, []) ∷ (2, 6 ∷ 7 ∷ []) ∷ (3, 8 ∷ []) ∷ [])
    ≡ (2, 6 ∷ 7 ∷ []) ∷ (0, 5 ∷ []) ∷ (3, 8 ∷ []) ∷ (1, []) ∷ []
unfolding sort_buckets insert_sorted
sort_run = refl

four_seven : {A : Type 0} → ◌≡◌ {A = ℕ} 4 7 → A
four_seven e = absurd (omega arith)

numbers-Unique : Unique own_key numbers
numbers-Unique = record { unique = go }
  where
    go :
        (i j x y k : ℕ)
        → get_elem? numbers i ≡ some x
        → get_elem? numbers j ≡ some y
        → own_key x ≡ some k
        → own_key y ≡ some k
        → i ≡ j
    go zero zero x y k e f g h = refl
    go zero (suc zero) x y k e f g h = four_seven (cc)
    go zero (suc (suc j)) x y k e f g h = cc
    go (suc zero) zero x y k e f g h = four_seven (cc)
    go (suc zero) (suc zero) x y k e f g h = refl
    go (suc zero) (suc (suc j)) x y k e f g h = cc
    go (suc (suc i)) j x y k e f g h = cc

abbrev empty_table : List ℤ
empty_table = table_slot_invalid ∷ table_slot_invalid ∷ []

slots-Free : (h : ℕ) → h < 2 → Free empty_table h
slots-Free zero b = refl
slots-Free (suc zero) b = refl
slots-Free (suc (suc h)) b = absurd (omega arith)

-- The seed -2 sends keys of two parities to the two slots.
parities-Fits :
    (a b : ℕ × ℕ)
    → slot_of hash 2 (negsuc 1) a.0 ≢ slot_of hash 2 (negsuc 1) b.0
    → Fits hash 2 (negsuc 1) empty_table (a ∷ b ∷ [])
unfolding targets Distinct
parities-Fits a b n = record {
  distinct = (
    λ e m. elim (cases_cons m) [
      | inl s ↦ λ q. n (q ∙ ap (λ (w : ℕ × ℕ). w.0) s)
      | inr z ↦ elim z [ ]
    ],
    (λ e m. elim m [ ], tt),
  );
  free = λ e m. elim (cases_cons m) [
    | inl s ↦ cc (slots-Free (hash (negsuc 1) a.0 % 2) (omega arith))
    | inr r ↦ elim (cases_cons r) [
      | inl s ↦ cc (slots-Free (hash (negsuc 1) b.0 % 2) (omega arith))
      | inr z ↦ elim z [ ]
    ]
  ];
}

numbers-HasSeeds : HasSeeds hash 2 2 numbered
unfolding HasSeeds SeedsFrom HasSeed sort_buckets enumerate fill_buckets push_at insert_sorted
    fill_bucket search_seed place occupied any_slot store_all to_signed
numbers-HasSeeds =
    ((1, omega arith, parities-Fits (4, 0) (7, 1) (λ q. absurd (omega arith))), (tt, tt))

table_read-table_write_example :
    (w : PersistWriter) × (t : LazyTable ℕ) × (table_write own_key
        (persist_uint 32)
        hash
        2
        numbers
        new_writer
      ≡ some w)
    × (table_read (new_reader (w.output ++ 9 ∷ [])) ≡ some (t, at w.output (9 ∷ [])))
    × Serves (persist_uint 32) build own_key ◌==◌ hash t numbers
unfolding trips items_bytes uint_trip uint_bytes to_le_bytes keys_of
table_read-table_write_example =
    table_read-table_write (persist_uint 32) build own_key ◌==◌ own_key hash 2 numbers (9 ∷ [])
      trips (omega arith) (omega arith) (λ x. refl) numbers-Unique (omega arith) (omega arith)
      numbers-HasSeeds
