-- ===== src/LazyCollections/Array/RoundTrip.antt =====
-- `LazyArray` of src/lazy_collections.rs: `read` of what `write` wrote.
use skitter.Prelude.{
  ℕ, ◌+◌, ◌^◌, ◌<◌, ◌≡◌, ap, ◌∙◌, some, List, [], ◌∷◌, ◌++◌, All, length, arith, length-append,
}
use skitter.Persist.Stream.{PersistWriter, Reads, at, new_writer, new_reader, read_bytes}
use skitter.Persist.Stream.Laws.{Reads-bind, Reads-read_bytes}
use skitter.Persist.Class.{Persist, RoundTrips}
use skitter.Persist.Uint.{usize}
use skitter.Persist.Values.Laws.{written_twice, Reads-map}
use skitter.Persist.Sequences.Laws.{Fits, usize-RoundTrips, items_bytes}
use skitter.LazyCollections.Array.{LazyArray, raw_bytes, read_raw_array, write, read}
use skitter.LazyCollections.Array.Laws.{
  starts, length-starts, write_loop-starts, Reads-read_raw_array,
}
use skitter.LazyCollections.Array.Lookup.{fresh_array, Represents, fresh_array-Represents}

module _ {I : Type 0} (p : Persist I) where
  starts-lt :
      (base : ℕ) (xs : List I) (h : All (RoundTrips p) xs)
      → base + length (items_bytes p xs h) < 2 ^ 32
      → All (λ n. n < 256 ^ 4) (starts p base xs h)
  unfolding starts items_bytes
  starts-lt base [] h fits = tt
  starts-lt base (x ∷ xs) (t, ts) fits =
      let sum = length-append t.bytes (items_bytes p xs ts) in
      (omega arith, starts-lt (base + length t.bytes) xs ts (omega (arith, sum)))

  -- The serialised form: count, offsets, length of the data, data.
  pub table_bytes :
      (xs : List I) (h : All (RoundTrips p) xs)
      → RoundTrips usize (length (starts p 0 xs h))
      → RoundTrips usize (length (items_bytes p xs h))
      → List ℕ
  table_bytes xs h t s =
      t.bytes ++ (raw_bytes 4 (starts p 0 xs h) ++ (s.bytes ++ items_bytes p xs h))

  module _ (xs : List I) (h : All (RoundTrips p) xs)
      (t : RoundTrips usize (length (starts p 0 xs h)))
      (s : RoundTrips usize (length (items_bytes p xs h)))
      (fits : length (items_bytes p xs h) < 2 ^ 32) where
    pub write-bytes :
        (w : PersistWriter) → write p xs w ≡ record w { output = w.output ++ table_bytes xs h t s }
    unfolding write table_bytes
    write-bytes w =
        rw (write_loop-starts p xs h [] new_writer (omega arith), t.writes w)
          (ap (λ (u : PersistWriter). record u { output = u.output ++ items_bytes p xs h })
              (s.writes _)
            ∙ written_twice ((w.output ++ t.bytes) ++ raw_bytes 4 (starts p 0 xs h)) s.bytes
                (items_bytes p xs h)
            ∙ written_twice (w.output ++ t.bytes) (raw_bytes 4 (starts p 0 xs h))
                (s.bytes ++ items_bytes p xs h)
            ∙ written_twice w.output t.bytes _)

    pub Reads-read : (T : Type 0) → Reads (read {T = T}) (table_bytes xs h t s) (fresh_array p xs h)
    unfolding read table_bytes fresh_array
    Reads-read T = Reads-bind usize.persist_read _ t.reads (
        Reads-bind (read_raw_array 4 (length (starts p 0 xs h))) _
          (Reads-read_raw_array 4 (starts p 0 xs h) (starts-lt 0 xs h (omega arith)))
          (Reads-bind usize.persist_read _ s.reads (
            Reads-map (read_bytes (length (items_bytes p xs h))) _
              (Reads-read_bytes (items_bytes p xs h)))))

module _ {I T : Type 0} (p : Persist I) (build : I → T) where
  -- Items that survive a round trip each, fewer than 2 ^ 64 and of fewer than 2 ^ 32 bytes in all,
  -- are read back from the file as an array that represents them, and the reader stands before
  -- what follows.
  pub read-write_lazy :
      (xs : List I) (more : List ℕ) (h : All (RoundTrips p) xs)
      → Fits (length xs)
      → length (items_bytes p xs h) < 2 ^ 32
      → (a : LazyArray T) × (read (new_reader ((write p xs new_writer).output ++ more))
          ≡ some (a, at (write p xs new_writer).output more))
        × Represents p build a xs
  read-write_lazy xs more h n fits =
      let t = usize-RoundTrips (length (starts p 0 xs h)) (rw (length-starts p 0 xs h) n) in
      let s = usize-RoundTrips (length (items_bytes p xs h)) (omega arith) in
      (
        fresh_array p xs h,
        rw (write-bytes p xs h t s fits new_writer) (Reads-read p xs h t s fits T [] more),
        fresh_array-Represents p build xs h,
      )
