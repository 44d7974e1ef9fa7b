-- ===== src/LazyCollections/Table/Write/Bytes.antt =====
-- The two tables of `LazyTable` (src/lazy_collections.rs) as raw 32-bit integers in the file.
use skitter.Prelude.{
  ℕ, suc, ◌%◌, ◌^◌, ◌<◌, ◌≡◌, refl, ap, ◌∙◌, List, [], ◌∷◌, map, All, arith, length,
}
use mathlib.Core.Path.{subst}
use native.Mathlib.Nat.{mod-eq_of_lt}
use skitter.Prelude.Int.{ℤ, pos, negsuc}
use skitter.Persist.Stream.{Reads}
use skitter.Vm.Words.{b32, to_signed, wrap}
use skitter.Vm.Words.Laws.{wrap-lt}
use skitter.LazyCollections.Array.{raw_bytes, read_raw_array}
use skitter.LazyCollections.Array.Laws.{Reads-read_raw_array}
use skitter.LazyCollections.Table.Write.Slots.{Every}

-- The integers that an `i32` holds.
pub data I32 (z : ℤ) : Type 0 where
  positive : (n : ℕ) → n < 2 ^ 31 → z ≡ pos n → I32 z
  negative : (n : ℕ) → n < 2 ^ 31 → z ≡ negsuc n → I32 z

to_signed-wrap : (z : ℤ) → I32 z → to_signed b32 (wrap b32 z) ≡ z
unfolding to_signed wrap
to_signed-wrap z (positive n h e) =
    let m : n % 2 ^ 32 ≡ n = mod-eq_of_lt (omega arith) in rw (e, m) (ground arith)
to_signed-wrap z (negative n h e) =
    let m : n % 2 ^ 32 ≡ n = mod-eq_of_lt (omega arith) in rw (e, m) (ground arith)

pub signed_words : (t : List ℤ) → Every I32 t → map (to_signed b32) (map (wrap b32) t) ≡ t
signed_words [] h = refl
signed_words (z ∷ zs) h = rw (to_signed-wrap z (h 0 z refl), signed_words zs (λ j. h (suc j))) refl

words_fit : (t : List ℤ) → All (λ n. n < 256 ^ 4) (map (wrap b32) t)
words_fit [] = tt
words_fit (z ∷ zs) = (wrap-lt b32 z, words_fit zs)

length-words : (t : List ℤ) → length (map (wrap b32) t) ≡ length t
length-words [] = refl
length-words (z ∷ zs) = ap suc (length-words zs)

-- The memory of a table is read back as its integers.
pub Reads-table :
    (t : List ℤ) (n : ℕ)
    → length t ≡ n
    → Reads (read_raw_array 4 n) (raw_bytes 4 (map (wrap b32) t)) (map (wrap b32) t)
Reads-table t n e =
    subst (λ m. Reads (read_raw_array 4 m) (raw_bytes 4 (map (wrap b32) t)) (map (wrap b32) t))
      (length-words t ∙ e) (Reads-read_raw_array 4 (map (wrap b32) t) (words_fit t))
