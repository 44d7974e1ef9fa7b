-- ===== src/Persist/Sequences/Laws.antt =====
-- Byte slices, strings, vectors and maps of src/persist.rs read back what they wrote.
use mathlib.Core.Path.{subst}
use skitter.Prelude.{
  ℕ, ◌^◌, ◌<◌, ◌≡◌, ap, ◌∙◌, true, List, [], ◌∷◌, ◌++◌, All, length, append-nil, append_assoc,
  arith,
}
use skitter.Persist.Stream.{PersistWriter, Reads, read_bytes}
use skitter.Persist.Stream.Laws.{Reads-bind, Reads-pure, Reads-read_bytes}
use skitter.Persist.Class.{Persist, RoundTrips}
use skitter.Persist.Uint.{usize}
use skitter.Persist.Uint.Laws.{persist_uint-RoundTrips}
use skitter.Persist.Values.Laws.{written_twice}
use skitter.Persist.Sequences.Utf8.{is_utf8}
use skitter.Persist.Sequences.{
  write_byte_slice, read_byte_slice, persist_bytes, write_str, from_utf8, read_str, persist_str,
  write_items, read_items, vec_write, vec_read, persist_vec,
}

abbrev pub Fits : ℕ → Type 0
Fits n = n < 2 ^ 64

pub usize-RoundTrips : (n : ℕ) → Fits n → RoundTrips usize n
usize-RoundTrips n h = persist_uint-RoundTrips 64 n h (omega arith)

pub persist_bytes-RoundTrips :
    (bytes : List ℕ) → Fits (length bytes) → RoundTrips persist_bytes bytes
unfolding write_byte_slice read_byte_slice
persist_bytes-RoundTrips bytes h =
    let t = usize-RoundTrips (length bytes) h in
    record {
      bytes = t.bytes ++ bytes;
      writes = λ w.
          ap (λ (u : PersistWriter). record u { output = u.output ++ bytes }) (t.writes w)
          ∙ written_twice w.output t.bytes bytes;
      reads = Reads-bind usize.persist_read read_bytes t.reads (Reads-read_bytes bytes);
    }

-- A string, which is UTF-8, of fewer than 2 ^ 64 bytes survives the round trip.
pub persist_str-RoundTrips :
    (s : List ℕ) → is_utf8 s ≡ true → Fits (length s) → RoundTrips persist_str s
unfolding write_str read_str
persist_str-RoundTrips s u h =
    let t = persist_bytes-RoundTrips s h in
    record {
      bytes = t.bytes;
      writes = t.writes;
      reads =
          subst (λ bs. Reads read_str bs s) (append-nil t.bytes)
            (Reads-bind read_byte_slice from_utf8 t.reads (rw u (Reads-pure s)));
    }

module _ {ℓ} {A : Type ℓ} (p : Persist A) where
  -- The items' bytes, one after the other.
  unfoldable pub items_bytes : (xs : List A) → All (RoundTrips p) xs → List ℕ
  items_bytes [] h = []
  items_bytes (x ∷ xs) (t, ts) = t.bytes ++ items_bytes xs ts

  write_items-bytes :
      (xs : List A) (h : All (RoundTrips p) xs) (w : PersistWriter)
      → write_items p xs w ≡ record w { output = w.output ++ items_bytes xs h }
  unfolding write_items items_bytes
  write_items-bytes [] h w = rw append-nil
  write_items-bytes (x ∷ xs) (t, ts) w =
      ap (write_items p xs) (t.writes w)
      ∙ write_items-bytes xs ts _
      ∙ written_twice w.output t.bytes (items_bytes xs ts)

  Reads-read_items :
      (xs : List A) (h : All (RoundTrips p) xs) (result : List A)
      → Reads (read_items p (length xs) result) (items_bytes xs h) (result ++ xs)
  unfolding read_items items_bytes
  Reads-read_items [] h result = rw (append-nil result) (Reads-pure result)
  Reads-read_items (x ∷ xs) (t, ts) result =
      Reads-bind p.persist_read (λ y. read_items p (length xs) (result ++ y ∷ [])) t.reads
        (subst (λ r. Reads (read_items p (length xs) (result ++ x ∷ [])) (items_bytes xs ts) r)
          (append_assoc result (x ∷ []) xs) (Reads-read_items xs ts (result ++ x ∷ [])))

  -- A vector of fewer than 2 ^ 64 items survives the round trip if each of its items does.
  pub persist_vec-RoundTrips :
      (xs : List A) → Fits (length xs) → All (RoundTrips p) xs → RoundTrips (persist_vec p) xs
  unfolding vec_write vec_read
  persist_vec-RoundTrips xs h ts =
      let t = usize-RoundTrips (length xs) h in
      record {
        bytes = t.bytes ++ items_bytes xs ts;
        writes = λ w.
            ap (write_items p xs) (t.writes w)
            ∙ write_items-bytes xs ts _
            ∙ written_twice w.output t.bytes (items_bytes xs ts);
        reads =
            Reads-bind usize.persist_read (λ len. read_items p len []) t.reads
              (Reads-read_items xs ts []);
      }
