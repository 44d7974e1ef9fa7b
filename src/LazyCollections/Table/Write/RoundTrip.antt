-- ===== src/LazyCollections/Table/Write/RoundTrip.antt =====
-- `LazyTable` of src/lazy_collections.rs: the table that `write` leaves in a file is read back as one
-- that serves the items.
use skitter.Prelude.{
  ℕ, ◌-◌, ◌^◌, ◌≤◌, ◌<◌, ◌≡◌, ap, ◌∙◌, Bool, Option, some, List, [], ◌++◌, map, All, arith, length,
}
use mathlib.Core.List.{Memᴰ}
use skitter.Prelude.Int.{ℤ}
use skitter.Persist.Stream.{PersistWriter, Reads, at, new_writer, new_reader}
use skitter.Persist.Stream.Laws.{Reads-bind}
use skitter.Persist.Class.{Persist, RoundTrips}
use skitter.Persist.Uint.{usize}
use skitter.Persist.Values.Laws.{written_twice, Reads-map}
use skitter.Persist.Sequences.Laws.{usize-RoundTrips, items_bytes}
use skitter.Vm.Words.{b32, to_signed, wrap}
use skitter.LazyCollections.Array
use skitter.LazyCollections.Array.{raw_bytes, read_raw_array}
use skitter.LazyCollections.Array.Laws.{starts, length-starts}
use skitter.LazyCollections.Array.Lookup.{fresh_array, fresh_array-Represents}
use skitter.LazyCollections.Array.RoundTrip.{table_bytes, write-bytes, Reads-read}
use skitter.LazyCollections.Table.{LazyTable, table_read}
use skitter.LazyCollections.Table.Lookup.{Serves}
use skitter.LazyCollections.Table.Write.{keys_of, table_write}
use skitter.LazyCollections.Table.Write.Fill.{Item, Entry}
use skitter.LazyCollections.Table.Write.Tables.{Built, HasSeeds, build_tables-Built}
use skitter.LazyCollections.Table.Write.Bytes.{I32, signed_words, Reads-table}
use skitter.LazyCollections.Table.Write.Keys.{key_item, length-keys_of, Unique, keys_of-Distinct}
use skitter.LazyCollections.Table.Write.Serving.{built-Serves}

module _ {I T K : Type 0} (p : Persist I) (build : I → T) (key : T → Option K)
    (key_eq : K → K → Bool) (key_for_input : I → Option K) (hash : ℤ → K → ℕ) (fuel : ℕ)
    (xs : List I) where
  abbrev keys : List (K × ℕ)
  keys = keys_of key_for_input 0 xs

  abbrev size : ℕ
  size = length keys

  module _ (h : All (RoundTrips p) xs) (t : RoundTrips usize (length (starts p 0 xs h)))
      (s : RoundTrips usize (length (items_bytes p xs h)))
      (fits : length (items_bytes p xs h) < 2 ^ 32) (c : RoundTrips usize size)
      (b : Built hash size fuel keys) where
    -- The serialised form: the array, the size of the tables, the tables.
    file_bytes : List ℕ
    file_bytes =
        table_bytes p xs h t s
        ++ (c.bytes ++ (raw_bytes 4 (map (wrap b32) b.t1) ++ raw_bytes 4 (map (wrap b32) b.t2)))

    table_write-bytes :
        (w : PersistWriter)
        → table_write key_for_input p hash fuel xs w
          ≡ some (record w { output = w.output ++ file_bytes })
    unfolding table_write file_bytes
    table_write-bytes w =
        let array_bytes = table_bytes p xs h t s in
        let tables = raw_bytes 4 (map (wrap b32) b.t1) ++ raw_bytes 4 (map (wrap b32) b.t2) in
        rw (b.builds, write-bytes p xs h t s fits w, c.writes _)
          (ap some (
            written_twice ((w.output ++ array_bytes) ++ c.bytes) (raw_bytes 4 (map (wrap b32) b.t1))
              (raw_bytes 4 (map (wrap b32) b.t2))
            ∙ written_twice (w.output ++ array_bytes) c.bytes tables
            ∙ written_twice w.output array_bytes (c.bytes ++ tables)))

    Reads-table_read : Reads (table_read {T = T}) file_bytes (record {
      array = fresh_array p xs h;
      table_1 = map (to_signed b32) (map (wrap b32) b.t1);
      table_2 = map (to_signed b32) (map (wrap b32) b.t2);
    })
    unfolding table_read file_bytes
    Reads-table_read = Reads-bind Array.read _ (Reads-read p xs h t s fits T) (
        Reads-bind usize.persist_read _ c.reads (
          Reads-bind (read_raw_array 4 size) _ (Reads-table b.t1 size b.size_1)
            (Reads-map (read_raw_array 4 size) _ (Reads-table b.t2 size b.size_2))))

  Item-I32 : length xs < 2 ^ 31 → (v : ℤ) → Item hash size fuel keys v → I32 v
  Item-I32 few v (Item.nothing q) = I32.positive (2 ^ 31 - 1) (omega arith) q
  Item-I32 few v (Item.item e m q) =
      I32.positive e.1 (omega (arith, (key_item key_for_input xs e m).2)) q

  Entry-I32 : length xs < 2 ^ 31 → fuel ≤ 2 ^ 31 → (v : ℤ) → Entry hash size fuel keys v → I32 v
  Entry-I32 few bound v (Entry.direct i) = Item-I32 few v i
  Entry-I32 few bound v (Entry.seed s b q) = I32.negative s (omega arith) q

  -- What is known of a table that is written: its bytes, what is read from them, and the items that
  -- this serves.
  pub record Written : Type 0 where
    pub bytes : List ℕ
    pub table : LazyTable T
    pub writes :
        (w : PersistWriter)
        → table_write key_for_input p hash fuel xs w
          ≡ some (record w { output = w.output ++ bytes })
    pub reads : Reads table_read bytes table
    pub serves : Serves p build key key_eq hash table xs

  pub table-Written :
      (h : All (RoundTrips p) xs)
      → length xs < 2 ^ 31
      → length (items_bytes p xs h) < 2 ^ 32
      → ((x : I) → key (build x) ≡ key_for_input x)
      → Unique key_for_input xs
      → 0 < size
      → fuel ≤ 2 ^ 31
      → HasSeeds hash size fuel keys
      → Written
  table-Written h few fits same_key u some_key bound sc =
      let t =
        usize-RoundTrips (length (starts p 0 xs h)) (rw (length-starts p 0 xs h) (omega arith)) in
      let s = usize-RoundTrips (length (items_bytes p xs h)) (omega arith) in
      let c = usize-RoundTrips size (omega (arith, length-keys_of key_for_input 0 xs)) in
      let b =
        build_tables-Built hash size fuel keys small_index some_key
          (keys_of-Distinct key_for_input 0 xs u) sc in
      let table : LazyTable T = record {
        array = fresh_array p xs h;
        table_1 = map (to_signed b32) (map (wrap b32) b.t1);
        table_2 = map (to_signed b32) (map (wrap b32) b.t2);
      } in
      record {
        bytes = file_bytes h t s fits c b;
        table = table;
        writes = table_write-bytes h t s fits c b;
        reads = Reads-table_read h t s fits c b;
        serves =
            built-Serves p build key key_eq key_for_input hash fuel xs same_key few some_key table b
              (signed_words b.t1 (λ j v e. Entry-I32 few bound v (b.entries_1 j v e)))
              (signed_words b.t2 (λ j v e. Item-I32 few v (b.entries_2 j v e)))
              (fresh_array-Represents p build xs h);
      }
    where
      small_index : (e : K × ℕ) → Memᴰ e keys → e.1 < 2 ^ 31 - 1
      small_index e m = omega (arith, (key_item key_for_input xs e m).2)

  -- Items that survive a round trip each, fewer than 2 ^ 31 and of fewer than 2 ^ 32 bytes in all, no
  -- two of them with one key and at least one with a key: if for each bucket in turn, the fullest
  -- first, one of the first `fuel` seeds, 2 ^ 31 at most, sends its keys to distinct slots that the
  -- buckets before it leave free, then the table is written, and the file is read back as a table that
  -- serves the items, with the reader before what follows.
  pub table_read-table_write :
      (more : List ℕ) (h : All (RoundTrips p) xs)
      → length xs < 2 ^ 31
      → length (items_bytes p xs h) < 2 ^ 32
      → ((x : I) → key (build x) ≡ key_for_input x)
      → Unique key_for_input xs
      → 0 < size
      → fuel ≤ 2 ^ 31
      → HasSeeds hash size fuel keys
      → (w : PersistWriter) × (t : LazyTable T) × (table_write key_for_input p hash fuel xs
            new_writer
          ≡ some w)
        × (table_read (new_reader (w.output ++ more)) ≡ some (t, at w.output more))
        × Serves p build key key_eq hash t xs
  table_read-table_write more h few fits same_key u some_key bound sc =
      let r = table-Written h few fits same_key u some_key bound sc in
      (record { output = r.bytes }, r.table, r.writes new_writer, r.reads [] more, r.serves)
