-- ===== src/Impls/Tables/Refinement/Lookups.antt =====
-- The tables of src/impls.rs by key: what a lookup in the lazy table answers, and when it is written.
use skitter.Prelude.{
  some-eq, ℕ, ◌^◌, ◌≤◌, ◌<◌, ◌≡◌, ◌↔◌, refl, sym, Bool, true, Option, none, some, List, All, length,
}
use skitter.Prelude.Int.{ℤ}
use skitter.Persist.Class.{Persist, RoundTrips}
use skitter.Persist.Sequences.Laws.{items_bytes}
use skitter.LazyCollections.Table.{LazyTable, table_get}
use skitter.LazyCollections.Table.Lookup.{Serves, Answers, table_get-Answers}
use skitter.LazyCollections.Table.Write.{keys_of}
use skitter.LazyCollections.Table.Write.Sorting.{Distinct}
use skitter.LazyCollections.Table.Write.Tables.{HasSeeds}
use skitter.LazyCollections.Table.Write.Keys.{Unique}
use skitter.LazyCollections.Table.Write.RoundTrip.{Written, table-Written}
use skitter.Impls.Tables.{map_get, entry_key, entry_build, lazy_list}
use skitter.Impls.Tables.Maps.{map_get-found, map_get-missing, Distinct-Unique}

module _ {K W : Type 0} (key_eq : K → K → Bool) (lawful : (a b : K) → (key_eq a b ≡ true) ↔ (a ≡ b))
    (p : Persist (K × List W)) (hash : ℤ → K → ℕ) where
  -- A lookup in the lazy table: what the map in memory has, and a table that serves the same entries.
  pub record Looks (entries : List (K × List W)) (k : K) (t : LazyTable (K × List W)) : Type 0 where
    pub found : Option (K × List W)
    pub after : LazyTable (K × List W)
    pub gets : table_get p entry_build entry_key key_eq hash t k ≡ some (found, after)
    pub agrees : lazy_list found ≡ map_get key_eq entries k
    pub serves : Serves p entry_build entry_key key_eq hash after entries

  answers-Looks :
      (entries : List (K × List W)) (k : K) (t : LazyTable (K × List W))
      → Unique entry_key entries
      → Answers p entry_build entry_key key_eq hash entries k
          (table_get p entry_build entry_key key_eq hash t k)
      → Looks entries k t
  answers-Looks entries k t u (Answers.found i x after f g r s) = record {
    found = some x;
    after = after;
    gets = r;
    agrees = sym (map_get-found key_eq lawful entries i x k u f (some-eq g));
    serves = s;
  }
  answers-Looks entries k t u (Answers.missing after h r s) = record {
    found = none;
    after = after;
    gets = r;
    agrees = sym (map_get-missing key_eq lawful entries k h);
    serves = s;
  }

  pub Serves-Looks :
      (entries : List (K × List W)) (k : K) (t : LazyTable (K × List W))
      → Distinct entries
      → Serves p entry_build entry_key key_eq hash t entries
      → Looks entries k t
  Serves-Looks entries k t d s =
      answers-Looks entries k t (Distinct-Unique entries d)
        (table_get-Answers p entry_build entry_key key_eq hash lawful t entries k s)

  -- Entries that can be written: there is at least one, their keys differ, they survive a round trip,
  -- they are fewer than 2 ^ 31 in fewer than 2 ^ 32 bytes, and each bucket of their keys in turn has a
  -- seed.
  pub record Writable (fuel : ℕ) (entries : List (K × List W)) : Type 0 where
    pub trips : All (RoundTrips p) entries
    pub distinct : Distinct entries
    pub few : length entries < 2 ^ 31
    pub fits : length (items_bytes p entries trips) < 2 ^ 32
    pub nonempty : 0 < length (keys_of entry_key 0 entries)
    pub seeds :
        HasSeeds hash (length (keys_of entry_key 0 entries)) fuel (keys_of entry_key 0 entries)

  pub writable-Written :
      (fuel : ℕ) (entries : List (K × List W))
      → fuel ≤ 2 ^ 31
      → Writable fuel entries
      → Written p entry_build entry_key key_eq entry_key hash fuel entries
  writable-Written fuel entries bound w =
      table-Written p entry_build entry_key key_eq entry_key hash fuel entries w.trips w.few w.fits
        (λ x. refl) (Distinct-Unique entries w.distinct) w.nonempty bound w.seeds
