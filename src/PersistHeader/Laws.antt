-- ===== src/PersistHeader/Laws.antt =====
-- src/persist_header.rs: what its two checks accept.
use mathlib.Core.Path.{subst}
use skitter.Prelude.{
  ℕ, ◌≡◌, ◌↔◌, refl, inl, inr, Option, none, some, List, [], ◌∷◌, ◌++◌, All, ◌==◌, ==_iff,
  Bool-cases, length, append-nil, arith,
}
use skitter.Persist.Stream.{Reads, read_bytes, new_writer, new_reader, at}
use skitter.Persist.Stream.Laws.{Reads-pure, Reads-bind, Reads-read_bytes}
use skitter.Persist.Class.{RoundTrips}
use skitter.Persist.Sequences.{persist_str, read_str}
use skitter.Persist.Sequences.Utf8.{is_utf8}
use skitter.Persist.Sequences.Laws.{persist_str-RoundTrips}
use skitter.PersistHeader.{
  magic, build_id, ok, persist_header_write, persist_header_read, check_magic, check_build_id,
  FileVersionEntry, Validation, valid, modified, validate, compare_file,
}

build_id-RoundTrips : RoundTrips persist_str build_id
unfolding is_utf8
build_id-RoundTrips = persist_str-RoundTrips build_id refl (omega arith)

-- The file is still the one that the entry is of.
abbrev pub Unchanged : (List ℕ → Option (ℕ × ℕ)) → FileVersionEntry → Type 0
Unchanged metadata file = metadata file.path ≡ some (file.size, file.time)

module _ (metadata : List ℕ → Option (ℕ × ℕ)) where
  compare_file-valid :
      (file : FileVersionEntry) (m : Option (ℕ × ℕ)) (rest : Validation)
      → compare_file metadata file m rest ≡ valid
      → (m ≡ some (file.size, file.time)) × (rest ≡ valid)
  compare_file-valid file none rest e = absurd (cc)
  compare_file-valid file (some (size, time)) rest e = elim (Bool-cases (size == file.size)) [
    | inl h ↦ elim (Bool-cases (time == file.time)) [
      | inl k ↦
          let s = (==_iff size file.size).0 h in
          let t = (==_iff time file.time).0 k in (cc, rw (h, k) at e)
      | inr k ↦ absurd (modified-ne-valid (rw (h, k) at e))
    ]
    | inr h ↦ absurd (modified-ne-valid (rw h at e))
  ]
    where
      modified-ne-valid : modified ≡ valid → ⊥
      modified-ne-valid e = cc

  accepted :
      (files : List FileVersionEntry)
      → All (Unchanged metadata) files
      → validate metadata files ≡ valid
  unfolding validate
  accepted [] h = refl
  accepted (file ∷ files) (h, hs) =
      rw (h, (==_iff file.size file.size).1 refl, (==_iff file.time file.time).1 refl)
        (accepted files hs)

  unchanged :
      (files : List FileVersionEntry)
      → validate metadata files ≡ valid
      → All (Unchanged metadata) files
  unfolding validate
  unchanged [] e = tt
  unchanged (file ∷ files) e =
      let (here, rest) = compare_file-valid file (metadata file.path) (validate metadata files) e in
      (here, unchanged files rest)

-- A header is valid exactly if each of its files can be asked for its metadata and has the size and the
-- time of its entry.
pub validate_iff :
    (metadata : List ℕ → Option (ℕ × ℕ)) (files : List FileVersionEntry)
    → (validate metadata files ≡ valid) ↔ All (Unchanged metadata) files
validate_iff metadata files = (unchanged metadata files, accepted metadata files)

Reads-header :
    (t : RoundTrips persist_str build_id) → Reads persist_header_read (magic ++ t.bytes) ok
unfolding persist_header_read
Reads-header t = Reads-bind (read_bytes (length magic)) check_magic (Reads-read_bytes magic) (
    subst (λ bs. Reads (check_magic magic) bs ok) (append-nil t.bytes)
      (Reads-bind read_str check_build_id t.reads (Reads-pure ok)))

-- A file with a header and more is accepted, with the reader behind the header.
pub persist_header_read-persist_header_write :
    (more : List ℕ)
    → persist_header_read (new_reader ((persist_header_write new_writer).output ++ more))
      ≡ some (ok, at (persist_header_write new_writer).output more)
unfolding persist_header_write
persist_header_read-persist_header_write more =
    let t = build_id-RoundTrips in
    rw (t.writes (record { output = magic })) (Reads-header t [] more)
