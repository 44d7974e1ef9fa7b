-- ===== src/Impls/Tables/Refinement.antt =====
-- `ImplTableSimple::write` and `ImplTableLazy` of src/impls.rs: the table that is read back from a file
-- refines the one in memory, and its lookups answer as the ones in memory do.
pub mod Lookups
use skitter.Prelude.{
  ℕ, ◌^◌, ◌≤◌, ◌<◌, ◌≡◌, refl, ap, Option, some, List, [], ◌++◌, All, length, ◌==◌, ==_iff,
  get_elem?, append_assoc, arith,
}
use skitter.Prelude.Int.{ℤ}
use skitter.Persist.Stream.{PersistWriter, Reads, new_writer, new_reader, at}
use skitter.Persist.Stream.Laws.{Reads-bind}
use skitter.Persist.Class.{Persist, RoundTrips}
use skitter.Persist.Values.Laws.{Reads-map}
use skitter.Persist.Sequences.Laws.{Fits, usize-RoundTrips, items_bytes}
use skitter.LazyCollections.Array
use skitter.LazyCollections.Array.Laws.{starts, length-starts}
use skitter.LazyCollections.Array.Lookup.{
  Represents, fresh_array, fresh_array-Represents, get-Finds, Finds,
}
use skitter.LazyCollections.Array.RoundTrip.{table_bytes, write-bytes, Reads-read}
use skitter.LazyCollections.Table.{table_read}
use skitter.LazyCollections.Table.Lookup.{Serves}
use skitter.LazyCollections.Table.Write.Sorting.{Distinct}
use skitter.Impls.Bounds.{ImplBounds}
use skitter.Impls.Tables.{
  TraitKey, TraitEntry, InherentEntry, map_get, trait_key_eq, entry_key, entry_build,
  ImplTableSimple, ImplTableLazy, impls_write, impls_read, lazy_get_bounds, lazy_get_inherent,
  lazy_get_trait,
}
use skitter.Impls.Tables.Maps.{trait_key_iff}
use skitter.Impls.Tables.Refinement.Lookups.{Serves-Looks, Writable, writable-Written}

module _ {V : Type 0} (bounds : Persist ImplBounds) (traits : Persist (TraitEntry V))
    (inherents : Persist (InherentEntry V)) (trait_hash : ℤ → TraitKey × Option ℕ → ℕ)
    (inherent_hash : ℤ → ℕ → ℕ) where
  -- The lazy table stands for the one in memory.
  pub record Stands (s : ImplTableSimple V) (t : ImplTableLazy V) : Type 0 where
    pub for_bounds : Represents bounds (λ b. b) t.bounds_table s.bounds_table
    pub for_traits :
        Serves traits entry_build entry_key trait_key_eq trait_hash t.trait_table s.trait_table
    pub for_inherents :
        Serves inherents entry_build entry_key ◌==◌ inherent_hash t.inherent_table s.inherent_table
    pub traits_differ : Distinct s.trait_table
    pub inherents_differ : Distinct s.inherent_table

  -- The three parts of a table in memory can be written: the bounds, and the entries by either key.
  pub record CanWrite (fuel : ℕ) (s : ImplTableSimple V) : Type 0 where
    pub trips : All (RoundTrips bounds) s.bounds_table
    pub few : Fits (length s.bounds_table)
    pub fits : length (items_bytes bounds s.bounds_table trips) < 2 ^ 32
    pub for_traits : Writable trait_key_eq trait_key_iff traits trait_hash fuel s.trait_table
    pub for_inherents : Writable ◌==◌ ==_iff inherents inherent_hash fuel s.inherent_table

  -- A table in memory with at least one entry by trait and one inherent entry, of which all and the
  -- bounds survive a round trip each, fewer than 2 ^ 31 entries of either kind, of which no two have one
  -- key, and fewer than 2 ^ 32 bytes of bounds and of either kind: if for each bucket of the keys of
  -- either kind in turn one of the first `fuel` seeds, 2 ^ 31 at most, sends the keys to distinct slots
  -- that are free, the table is written, and the file is read as a lazy table that stands for it, with
  -- the reader before what follows.
  pub impls_read-impls_write :
      (fuel : ℕ) (s : ImplTableSimple V) (more : List ℕ)
      → fuel ≤ 2 ^ 31
      → CanWrite fuel s
      → (w : PersistWriter) × (t : ImplTableLazy V) × (impls_write bounds traits inherents
            trait_hash inherent_hash fuel s new_writer
          ≡ some w)
        × (impls_read bounds traits inherents trait_hash inherent_hash
              (new_reader (w.output ++ more))
            ≡ some (t, at w.output more))
        × Stands s t
  unfolding impls_write impls_read
  impls_read-impls_write fuel s more bound c =
      let n =
        usize-RoundTrips (length (starts bounds 0 s.bounds_table c.trips))
          (rw (length-starts bounds 0 s.bounds_table c.trips) c.few) in
      let m =
        usize-RoundTrips (length (items_bytes bounds s.bounds_table c.trips))
          (omega (arith, c.fits)) in
      let array = table_bytes bounds s.bounds_table c.trips n m in
      let a =
        writable-Written trait_key_eq trait_key_iff traits trait_hash fuel s.trait_table bound
          c.for_traits in
      let b =
        writable-Written ◌==◌ ==_iff inherents inherent_hash fuel s.inherent_table bound
          c.for_inherents in
      let t : ImplTableLazy V = record {
        bounds_table = fresh_array bounds s.bounds_table c.trips;
        trait_table = a.table;
        inherent_table = b.table;
      } in
      let reads : Reads (impls_read bounds traits inherents trait_hash inherent_hash)
          (array ++ (a.bytes ++ b.bytes)) t =
        Reads-bind Array.read _ (Reads-read bounds s.bounds_table c.trips n m c.fits ImplBounds)
          (Reads-bind table_read _ a.reads (Reads-map table_read _ b.reads)) in
      (
        record { output = array ++ (a.bytes ++ b.bytes) },
        t,
        rw
            (
              write-bytes bounds s.bounds_table c.trips n m c.fits new_writer,
              a.writes (record { output = array }),
              b.writes (record { output = array ++ a.bytes }),
            )
            (ap (λ (o : List ℕ). some (record { output = o }))
              (append_assoc array a.bytes b.bytes)),
        reads [] more,
        record {
          for_bounds = fresh_array-Represents bounds (λ b. b) s.bounds_table c.trips;
          for_traits = a.serves;
          for_inherents = b.serves;
          traits_differ = c.for_traits.distinct;
          inherents_differ = c.for_inherents.distinct;
        },
      )

  module _ (s : ImplTableSimple V) (t : ImplTableLazy V) (h : Stands s t) where
    pub inherent-Stands :
        (k : ℕ)
        → (t' : ImplTableLazy V) × (lazy_get_inherent bounds traits inherents trait_hash
              inherent_hash t k
            ≡ some (map_get ◌==◌ s.inherent_table k, t'))
          × Stands s t'
    unfolding lazy_get_inherent
    inherent-Stands k =
        let l =
          Serves-Looks ◌==◌ ==_iff inherents inherent_hash s.inherent_table k t.inherent_table
            h.inherents_differ h.for_inherents in
        (
          record t { inherent_table = l.after },
          rw (l.gets, l.agrees) refl,
          record {
            for_bounds = h.for_bounds;
            for_traits = h.for_traits;
            for_inherents = l.serves;
            traits_differ = h.traits_differ;
            inherents_differ = h.inherents_differ;
          },
        )

    pub trait-Stands :
        (k : TraitKey) (key : Option ℕ)
        → (t' : ImplTableLazy V) × (lazy_get_trait bounds traits inherents trait_hash inherent_hash
              t k key
            ≡ some (map_get trait_key_eq s.trait_table (k, key), t'))
          × Stands s t'
    unfolding lazy_get_trait
    trait-Stands k key =
        let l =
          Serves-Looks trait_key_eq trait_key_iff traits trait_hash s.trait_table (k, key)
            t.trait_table h.traits_differ h.for_traits in
        (
          record t { trait_table = l.after },
          rw (l.gets, l.agrees) refl,
          record {
            for_bounds = h.for_bounds;
            for_traits = l.serves;
            for_inherents = h.for_inherents;
            traits_differ = h.traits_differ;
            inherents_differ = h.inherents_differ;
          },
        )

    pub bounds-Stands :
        (i : ℕ) (b : ImplBounds)
        → get_elem? s.bounds_table i ≡ some b
        → (t' : ImplTableLazy V) × (lazy_get_bounds bounds traits inherents trait_hash inherent_hash
              t i
            ≡ some (b, t'))
          × Stands s t'
    unfolding lazy_get_bounds Finds
    bounds-Stands i b e =
        let (a, g, r) =
          get-Finds bounds (λ x. x) t.bounds_table s.bounds_table i b h.for_bounds e in
        (
          record t { bounds_table = a },
          rw g refl,
          record {
            for_bounds = r;
            for_traits = h.for_traits;
            for_inherents = h.for_inherents;
            traits_differ = h.traits_differ;
            inherents_differ = h.inherents_differ;
          },
        )

  -- On a lazy table that stands for one in memory, the lookups of inherent members, of the impls of a
  -- trait, and of bounds that are there answer what the lookups in memory do, and leave a table that
  -- still stands for it.
  pub lookups-Stands :
      (s : ImplTableSimple V) (t : ImplTableLazy V)
      → Stands s t
      → (k : ℕ) (trait_key : TraitKey) (type_key : Option ℕ) (i : ℕ) (b : ImplBounds)
      → get_elem? s.bounds_table i ≡ some b
      → ((t' : ImplTableLazy V) × (lazy_get_inherent bounds traits inherents trait_hash
              inherent_hash t k
            ≡ some (map_get ◌==◌ s.inherent_table k, t'))
          × Stands s t')
        × ((t' : ImplTableLazy V) × (lazy_get_trait bounds traits inherents trait_hash inherent_hash
                t trait_key type_key
              ≡ some (map_get trait_key_eq s.trait_table (trait_key, type_key), t'))
            × Stands s t')
        × ((t' : ImplTableLazy V) × (lazy_get_bounds bounds traits inherents trait_hash
                inherent_hash t i
              ≡ some (b, t'))
            × Stands s t')
  lookups-Stands s t h k trait_key type_key i b e =
      (inherent-Stands s t h k, trait-Stands s t h trait_key type_key, bounds-Stands s t h i b e)
