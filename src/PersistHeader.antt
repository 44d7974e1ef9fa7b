-- ===== src/PersistHeader.antt =====
-- src/persist_header.rs: the header of a cache file, and the check that the sources are those that it was
-- made of. The metadata of a file is an argument: its size and the milliseconds of its last change, or
-- nothing where asking for them fails.
pub mod Laws
mod Runs
use skitter.Prelude.{
  ℕ, Bool, true, false, ◌&&◌, Option, none, some, List, [], ◌∷◌, ◌==◌, if◌then◌else◌, length,
}
use skitter.Persist.Stream.{PersistWriter, Read, write_bytes, read_bytes, pure, ◌>>=◌}
use skitter.Persist.Sequences.{write_str, read_str}

-- "SKITTER-CRATE\n" and "TODO"
abbrev pub magic : List ℕ
magic = 83 ∷ 75 ∷ 73 ∷ 84 ∷ 84 ∷ 69 ∷ 82 ∷ 45 ∷ 67 ∷ 82 ∷ 65 ∷ 84 ∷ 69 ∷ 10 ∷ []

abbrev pub build_id : List ℕ
build_id = 84 ∷ 79 ∷ 68 ∷ 79 ∷ []

pub data HeaderResult : Type 0 where
  ok bad_magic bad_build_id : HeaderResult

abbrev pub bytes_eq : List ℕ → List ℕ → Bool
bytes_eq [] [] = true
bytes_eq (x ∷ xs) (y ∷ ys) = x == y && bytes_eq xs ys
bytes_eq _ _ = false

unfoldable pub persist_header_write : PersistWriter → PersistWriter
persist_header_write w = write_str build_id (write_bytes magic w)

abbrev pub check_build_id : List ℕ → Read HeaderResult
check_build_id id = if bytes_eq id build_id then pure ok else pure bad_build_id

abbrev pub check_magic : List ℕ → Read HeaderResult
check_magic found = if bytes_eq found magic then (read_str >>= check_build_id) else pure bad_magic

unfoldable pub persist_header_read : Read HeaderResult
persist_header_read = read_bytes (length magic) >>= check_magic

pub record FileVersionEntry : Type 0 where
  pub path : List ℕ
  pub size : ℕ
  pub time : ℕ

pub data Validation : Type 0 where
  valid modified unreadable : Validation

module _ (metadata : List ℕ → Option (ℕ × ℕ)) where
  abbrev pub compare_file : FileVersionEntry → Option (ℕ × ℕ) → Validation → Validation
  compare_file file none rest = unreadable
  compare_file file (some (size, time)) rest =
      if size == file.size && time == file.time then rest else modified

  unfoldable pub validate : List FileVersionEntry → Validation
  validate [] = valid
  validate (file ∷ files) = let rest = validate files in compare_file file (metadata file.path) rest
