-- ===== src/Persist/Sequences.antt =====
-- src/persist.rs: `Persist` for byte slices and strings, `Vec`, `Arc<[T]>` and `AHashMap`.
pub mod Laws
pub mod Map
pub mod Utf8
use skitter.Prelude.{ℕ, zero, suc, List, [], ◌∷◌, ◌++◌, if◌then◌else◌, length}
use skitter.Persist.Stream.{PersistWriter, Read, write_bytes, read_bytes, pure, panic, ◌>>=◌}
use skitter.Persist.Class.{Persist}
use skitter.Persist.Uint.{usize}
use skitter.Persist.Sequences.Utf8.{is_utf8}

unfoldable pub write_byte_slice : List ℕ → PersistWriter → PersistWriter
write_byte_slice bytes w = write_bytes bytes (usize.persist_write (length bytes) w)

unfoldable pub read_byte_slice : Read (List ℕ)
read_byte_slice = usize.persist_read >>= read_bytes

abbrev pub persist_bytes : Persist (List ℕ)
persist_bytes = record { persist_write = write_byte_slice; persist_read = read_byte_slice }

-- A string is its UTF-8 bytes. `from_utf8` refuses any others, and `unwrap` panics.
unfoldable pub write_str : List ℕ → PersistWriter → PersistWriter
unfolding write_byte_slice
write_str s w = write_byte_slice s w

abbrev from_utf8 : List ℕ → Read (List ℕ)
from_utf8 bytes = if is_utf8 bytes then pure bytes else panic

unfoldable pub read_str : Read (List ℕ)
read_str = read_byte_slice >>= from_utf8

abbrev pub persist_str : Persist (List ℕ)
persist_str = record { persist_write = write_str; persist_read = read_str }

module _ {ℓ} {A : Type ℓ} (p : Persist A) where
  pub write_items : List A → PersistWriter → PersistWriter
  write_items [] w = w
  write_items (x ∷ xs) w = write_items xs (p.persist_write x w)

  -- The loop over `0..len`, with the items pushed so far.
  pub read_items : ℕ → List A → Read (List A)
  read_items zero result = pure result
  read_items (suc n) result = p.persist_read >>= λ x. read_items n (result ++ x ∷ [])

  pub vec_write : List A → PersistWriter → PersistWriter
  vec_write xs w = write_items xs (usize.persist_write (length xs) w)

  pub vec_read : Read (List A)
  vec_read = usize.persist_read >>= λ len. read_items len []

  -- `Vec<T>` and `Arc<[T]>`.
  abbrev pub persist_vec : Persist (List A)
  persist_vec = record { persist_write = vec_write; persist_read = vec_read }

-- A hash map is the list of its entries in its order of iteration. `AHashMap::insert` is an argument,
-- for it decides what this order is.
module _ {ℓ κ} {K : Type ℓ} {V : Type κ} (insert : K → V → List (K × V) → List (K × V))
    (p : Persist K) (q : Persist V) where
  pub write_entries : List (K × V) → PersistWriter → PersistWriter
  write_entries [] w = w
  write_entries ((k, v) ∷ m) w = write_entries m (q.persist_write v (p.persist_write k w))

  pub read_entries : ℕ → List (K × V) → Read (List (K × V))
  read_entries zero result = pure result
  read_entries (suc n) result =
      p.persist_read >>= λ k. q.persist_read >>= λ v. read_entries n (insert k v result)

  pub map_write : List (K × V) → PersistWriter → PersistWriter
  map_write m w = write_entries m (usize.persist_write (length m) w)

  pub map_read : Read (List (K × V))
  map_read = usize.persist_read >>= λ len. read_entries len []

  abbrev pub persist_map : Persist (List (K × V))
  persist_map = record { persist_write = map_write; persist_read = map_read }
