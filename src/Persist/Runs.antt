-- ===== src/Persist/Runs.antt =====
-- src/persist.rs on concrete values, and the theorems at concrete inputs.
use skitter.Prelude.{
  ℕ, ◌-◌, ◌^◌, ◌≡◌, ◌≢◌, refl, sym, ap, List, if◌then◌else◌, true, false, none, some, [], ◌∷◌, ◌++◌,
  ◌==◌, arith, ◌⊎◌, inl, inr,
}
use skitter.Prelude.Int.{pos, negsuc}
use mathlib.Core.List.{Permᴰ}
use mathlib.Core.List.Permᴰ
use mathlib.Core.Path.{subst}
use skitter.Persist.Stream.{PersistWriter, new_writer, new_reader, at, read_bytes, read_byte}
use skitter.Persist.Class.{RoundTrips}
use skitter.Persist.Uint.{
  persist_uint, uint_write, uint_read, uint_read_tag, to_le_bytes, from_le_bytes,
}
use skitter.Persist.Uint.Laws.{persist_uint-RoundTrips}
use skitter.Persist.Sint.{sint_write, sint_read}
use skitter.Persist.Sint.Laws.{sint_read-sint_write}
use skitter.Persist.Sequences.{persist_str, persist_vec, map_write, map_read}
use skitter.Persist.Sequences.Utf8.{is_utf8}
use skitter.Persist.Sequences.Laws.{persist_str-RoundTrips, persist_vec-RoundTrips}
use skitter.Persist.Sequences.Map.{
  EntryRoundTrips, Inserts, IsFresh, ReadsUpToOrder, map_read-map_write,
}

one_byte : (uint_write 250 new_writer).output ≡ 250 ∷ []
unfolding uint_write to_le_bytes
one_byte = refl

five_bytes : (uint_write 65536 new_writer).output ≡ 253 ∷ 0 ∷ 0 ∷ 1 ∷ 0 ∷ []
unfolding uint_write to_le_bytes
five_bytes = refl

-- A `u16` read of a wider integer keeps its low bits.
narrowed :
    uint_read 16 (new_reader (253 ∷ 7 ∷ 0 ∷ 1 ∷ 0 ∷ []))
    ≡ some (7, at (253 ∷ 7 ∷ 0 ∷ 1 ∷ 0 ∷ []) [])
unfolding uint_read uint_read_tag read_bytes read_byte from_le_bytes
narrowed = refl

truncated : uint_read 64 (new_reader (253 ∷ 7 ∷ 0 ∷ [])) ≡ none
unfolding uint_read uint_read_tag read_bytes read_byte from_le_bytes
truncated = refl

accepts : is_utf8 (0x61 ∷ 0xc3 ∷ 0xa9 ∷ 0xe2 ∷ 0x82 ∷ 0xac ∷ 0xf0 ∷ 0x9f ∷ 0x98 ∷ 0x80 ∷ []) ≡ true
unfolding is_utf8
accepts = refl

rejects : is_utf8 (0x61 ∷ 0xc0 ∷ 0x80 ∷ []) ≡ false
unfolding is_utf8
rejects = refl

persist_uint-RoundTrips_example : RoundTrips (persist_uint 32) 70000
persist_uint-RoundTrips_example = persist_uint-RoundTrips 32 70000 (omega arith) (omega arith)

-- The least `i128` comes back as 0.
sint_read-sint_write_example :
    sint_read (new_reader ((sint_write (negsuc (2 ^ 127 - 1)) new_writer).output ++ 9 ∷ []))
    ≡ some (pos 0, at (sint_write (negsuc (2 ^ 127 - 1)) new_writer).output (9 ∷ []))
sint_read-sint_write_example = sint_read-sint_write (negsuc (2 ^ 127 - 1)) (9 ∷ []) (omega arith)

small : (n : ℕ) → n ≡ 300 → RoundTrips (persist_uint 16) n
small n e = persist_uint-RoundTrips 16 n (omega arith) (omega arith)

persist_str-RoundTrips_example : RoundTrips persist_str (0xc3 ∷ 0xa9 ∷ [])
unfolding is_utf8
persist_str-RoundTrips_example = persist_str-RoundTrips (0xc3 ∷ 0xa9 ∷ []) refl (omega arith)

persist_vec-RoundTrips_example : RoundTrips (persist_vec (persist_uint 16)) (300 ∷ 300 ∷ [])
persist_vec-RoundTrips_example =
    persist_vec-RoundTrips (persist_uint 16) (300 ∷ 300 ∷ []) (omega arith)
      (small 300 refl, (small 300 refl, tt))

-- A map that iterates over the latest key first.
abbrev remove : ℕ → List (ℕ × ℕ) → List (ℕ × ℕ)
remove k [] = []
remove k (e ∷ m) = if e.0 == k then remove k m else e ∷ remove k m

abbrev put_first : ℕ → ℕ → List (ℕ × ℕ) → List (ℕ × ℕ)
put_first k v m = (k, v) ∷ remove k m

put_first-Inserts : Inserts put_first
put_first-Inserts = record {
  inserts = λ k v m f. Permᴰ.cons refl (subst (λ l. Permᴰ l m) (sym (absent k m f)) (Permᴰ.refl m));
}
  where
    different : (a b : ℕ) → a ≢ b → (a == b) ≡ false
    different a b n = ground arith

    absent : (k : ℕ) (m : List (ℕ × ℕ)) → IsFresh k m → remove k m ≡ m
    absent k [] f = refl
    absent k (e ∷ m) (f, fs) = rw (different e.0 k f) (ap (λ l. e ∷ l) (absent k m fs))

entry :
    (k : ℕ)
    → (k ≡ 5) ⊎ (k ≡ 6)
    → EntryRoundTrips put_first (persist_uint 16) (persist_uint 16) (k, 300)
entry k h = record {
  key = persist_uint-RoundTrips 16 k (omega arith) (omega arith);
  value = small 300 refl;
}

map_read-map_write_example :
    (bytes : List ℕ) × ((w : PersistWriter)
      → map_write put_first (persist_uint 16) (persist_uint 16) ((5, 300) ∷ (6, 300) ∷ []) w
        ≡ record w { output = w.output ++ bytes })
    × ReadsUpToOrder put_first
        (persist_uint 16)
        (persist_uint 16)
        (map_read put_first (persist_uint 16) (persist_uint 16))
        bytes
        ((5, 300) ∷ (6, 300) ∷ [])
map_read-map_write_example =
    map_read-map_write put_first (persist_uint 16) (persist_uint 16) put_first-Inserts
      ((5, 300) ∷ (6, 300) ∷ []) (omega arith) (((λ q. absurd (omega arith)), tt), (tt, tt))
      (entry 5 (inl refl), (entry 6 (inr refl), tt))
