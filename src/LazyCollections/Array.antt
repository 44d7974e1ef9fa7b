-- ===== src/LazyCollections/Array.antt =====
-- src/lazy_collections.rs: `LazyArray`, an array of serialised items of which each is parsed and
-- built when it is first asked for. The host is little-endian.
pub mod Laws
pub mod Lookup
pub mod RoundTrip
use skitter.Prelude.{
  ℕ, zero, suc, ◌*◌, Option, none, some, List, [], ◌∷◌, ◌++◌, ◌>>=◌, assert, leb, length, get_elem?,
  set, take, drop,
}
use skitter.Persist.Stream
use skitter.Persist.Stream.{
  PersistWriter, Read, new_child_writer, new_reader, offset, write_bytes, flip, read_bytes,
}
use skitter.Persist.Class.{Persist}
use skitter.Persist.Uint.{to_le_bytes, from_le_bytes, usize}

pub record LazyArray (T : Type 0) : Type 0 where
  pub item_indices : List ℕ
  pub data_bytes : List ℕ
  -- A `OnceLock` is an `Option`, set once.
  pub loaded : List (Option T)

-- The memory of a slice of integers of `k` bytes, and such a slice made of raw bytes.
unfoldable pub raw_bytes : ℕ → List ℕ → List ℕ
raw_bytes k [] = []
raw_bytes k (n ∷ ns) = to_le_bytes k n ++ raw_bytes k ns

unfoldable pub raw_split : ℕ → ℕ → List ℕ → List ℕ
raw_split k zero bs = []
raw_split k (suc n) bs = from_le_bytes (take k bs) ∷ raw_split k n (drop k bs)

-- `read_raw_array` at an element size of `k` bytes.
unfoldable pub read_raw_array : ℕ → ℕ → Read (List ℕ)
unfolding raw_split
read_raw_array k n = Stream.◌>>=◌ (read_bytes (n * k)) (λ bs. Stream.pure (raw_split k n bs))

unloaded : {T : Type 0} → List ℕ → List (Option T)
unloaded [] = []
unloaded (i ∷ is) = none ∷ unloaded is

module _ {I : Type 0} (p : Persist I) where
  unfoldable pub write_loop : List I → List ℕ → PersistWriter → List ℕ × PersistWriter
  write_loop [] item_indices w = (item_indices, w)
  write_loop (x ∷ xs) item_indices w =
      write_loop xs (item_indices ++ offset w ∷ []) (p.persist_write x w)

  unfoldable pub write : List I → PersistWriter → PersistWriter
  unfolding write_loop raw_bytes offset
  write items out =
      let (item_indices, data_writer) = write_loop items [] (new_child_writer out) in
      let bytes = (flip data_writer).0 in
      let counted = usize.persist_write (length item_indices) out in
      let indexed = write_bytes (raw_bytes 4 item_indices) counted in
      write_bytes bytes (usize.persist_write (length bytes) indexed)

pub read : {T : Type 0} → Read (LazyArray T)
unfolding unloaded
read = Stream.◌>>=◌ usize.persist_read (λ indices_len.
    Stream.◌>>=◌ (read_raw_array 4 indices_len) (λ item_indices.
      Stream.◌>>=◌ usize.persist_read (λ data_len. Stream.◌>>=◌ (read_bytes data_len) (λ bytes.
        Stream.pure (record {
          item_indices = item_indices;
          data_bytes = bytes;
          loaded = unloaded item_indices;
        })))))

abbrev pub len : {T : Type 0} → LazyArray T → ℕ
len a = length a.item_indices

-- `LazyItem::build` is the argument `build`; `p` is the `Persist` of its input.
module _ {I T : Type 0} (p : Persist I) (build : I → T) where
  -- The first `get` of an index fills its cell, and the next ones read the cell.
  pub load : LazyArray T → ℕ → Option T → Option (T × LazyArray T)
  load a index (some t) = some (t, a)
  load a index none = do
    start ← get_elem? a.item_indices index
    _ ← assert (leb start (length a.data_bytes))
    (input, _) ← p.persist_read (new_reader (drop start a.data_bytes))
    some (build input, record a { loaded = set a.loaded index (some (build input)) })

  pub get : LazyArray T → ℕ → Option (T × LazyArray T)
  unfolding load
  get a index = get_elem? a.loaded index >>= load a index
