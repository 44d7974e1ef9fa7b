-- ===== src/LazyCollections/Table/Runs.antt =====
-- `LazyTable` of src/lazy_collections.rs on two numbers that are their own keys, with a hash that puts
-- both into the first bucket, and the theorem at a concrete input.
use skitter.Prelude.{
  ℕ, zero, suc, ◌-◌, ◌%◌, ◌^◌, ◌<◌, ◌≡◌, ◌⊎◌, inl, inr, refl, sym, ap, ◌∙◌, Option, some, List, [],
  ◌∷◌, All, ◌==◌, ==_iff, get_elem?, arith,
}
use skitter.Prelude.Int.{ℤ, pos, negsuc}
use skitter.Persist.Class.{RoundTrips}
use skitter.Persist.Uint.{persist_uint}
use skitter.Persist.Uint.Laws.{persist_uint-RoundTrips}
use skitter.LazyCollections.Array.Lookup.{fresh_array, fresh_array-Represents}
use skitter.LazyCollections.Table.{LazyTable, table_slot_invalid, final_index, table_get}
use skitter.LazyCollections.Table.Lookup.{Serves, Answers, table_get-Answers}

abbrev numbers : List ℕ
numbers = 4 ∷ 7 ∷ []

trips : All (RoundTrips (persist_uint 32)) numbers
trips = (
  persist_uint-RoundTrips 32 4 (omega arith) (omega arith),
  (persist_uint-RoundTrips 32 7 (omega arith) (omega arith), tt),
)

-- Unseeded, everything goes into bucket 0; with a seed, a number goes by its parity.
abbrev hash : ℤ → ℕ → ℕ
hash (pos n) k = 0
hash (negsuc n) k = k % 2

abbrev own_key : ℕ → Option ℕ
own_key n = some n

abbrev build : ℕ → ℕ
build n = n

table : LazyTable ℕ
table = record {
  array = fresh_array (persist_uint 32) numbers trips;
  table_1 = negsuc 0 ∷ table_slot_invalid ∷ [];
  table_2 = pos 0 ∷ pos 1 ∷ [];
}

abbrev index_of : ℕ → Option ℤ
index_of k = final_index (persist_uint 32) build own_key ◌==◌ hash table k

index_of-parity : (k : ℕ) → index_of k ≡ get_elem? (pos 0 ∷ pos 1 ∷ []) (k % 2)
unfolding final_index table
index_of-parity k = ap (get_elem? (pos 0 ∷ pos 1 ∷ [])) (omega arith)

even_or_odd : (k : ℕ) → (k % 2 ≡ 0) ⊎ (k % 2 ≡ 1)
even_or_odd k = ground arith

table_hits :
    (i x k : ℕ)
    → get_elem? numbers i ≡ some x
    → own_key x ≡ some k
    → (index_of k ≡ some (pos i)) × (i < 2 ^ 31 - 1)
table_hits zero x k e f =
    let same : 4 ≡ k = cc in (ap index_of (sym same) ∙ index_of-parity 4, omega arith)
table_hits (suc zero) x k e f =
    let same : 7 ≡ k = cc in (ap index_of (sym same) ∙ index_of-parity 7, omega arith)
table_hits (suc (suc i)) x k e f = absurd (cc)

table-Serves : Serves (persist_uint 32) build own_key ◌==◌ hash table numbers
table-Serves = record {
  represents = unfold table in fresh_array-Represents (persist_uint 32) build numbers trips;
  hits = table_hits;
  leads = λ k. elim (even_or_odd k) [
    | inl h ↦
        inr (0, 4, index_of-parity k ∙ ap (get_elem? (pos 0 ∷ pos 1 ∷ [])) h, omega arith, refl)
    | inr h ↦
        inr (1, 7, index_of-parity k ∙ ap (get_elem? (pos 0 ∷ pos 1 ∷ [])) h, omega arith, refl)
  ];
}

table_get-Answers_example :
    Answers
      (persist_uint 32)
      build
      own_key
      ◌==◌
      hash
      numbers
      7
      (table_get (persist_uint 32) build own_key ◌==◌ hash table 7)
table_get-Answers_example =
    table_get-Answers (persist_uint 32) build own_key ◌==◌ hash ==_iff table numbers 7 table-Serves
