-- ===== src/LazyCollections/Table/Write/Serving.antt =====
-- `LazyTable` of src/lazy_collections.rs: a table of the two tables that `write` builds serves the
-- items.
use skitter.Prelude.{
  ℕ, ◌-◌, ◌^◌, ◌<◌, ◌≡◌, refl, sym, ap, ◌∙◌, ◌⊎◌, inl, inr, zero, suc, Bool, Option, some, List, [],
  ◌∷◌, arith, length, get_elem?,
}
use native.Mathlib.Nat.{mod-lt}
use skitter.Prelude.Int.{ℤ, pos, negsuc}
use skitter.Persist.Class.{Persist}
use skitter.LazyCollections.Array.Lookup.{Represents}
use skitter.LazyCollections.Table.{LazyTable, table_slot_invalid, final_index}
use skitter.LazyCollections.Table.Lookup.{Serves}
use skitter.LazyCollections.Table.Write.{slot_of, keys_of}
use skitter.LazyCollections.Table.Write.Fill.{Found, Item, Entry}
use skitter.LazyCollections.Table.Write.Tables.{Built}
use skitter.LazyCollections.Table.Write.Keys.{key_item, keys_of-Mem}

get_elem?-exists :
    {A : Type 0} (xs : List A) (i : ℕ) → i < length xs → (a : A) × (get_elem? xs i ≡ some a)
get_elem?-exists [] i h = absurd (omega arith)
get_elem?-exists (x ∷ xs) zero h = (x, refl)
get_elem?-exists (x ∷ xs) (suc i) h = get_elem?-exists xs i (omega arith)

module _ {I T K : Type 0} (p : Persist I) (build : I → T) (key : T → Option K)
    (key_eq : K → K → Bool) (hash : ℤ → K → ℕ) (t : LazyTable T) (n : ℕ)
    (size_1 : length t.table_1 ≡ n) (size_2 : length t.table_2 ≡ n) where
  final_index-direct :
      (k : K) (i : ℕ)
      → get_elem? t.table_1 (slot_of hash n (pos 0) k) ≡ some (pos i)
      → final_index p build key key_eq hash t k ≡ some (pos i)
  unfolding final_index
  final_index-direct k i e = rw (size_1, e) refl

  final_index-seeded :
      (k : K) (s : ℕ) {v : ℤ}
      → get_elem? t.table_1 (slot_of hash n (pos 0) k) ≡ some (negsuc s)
      → get_elem? t.table_2 (slot_of hash n (negsuc s) k) ≡ some v
      → final_index p build key key_eq hash t k ≡ some v
  unfolding final_index
  final_index-seeded k s e f = rw (size_1, e, size_2, f) refl

module _ {I T K : Type 0} (p : Persist I) (build : I → T) (key : T → Option K)
    (key_eq : K → K → Bool) (key_for_input : I → Option K) (hash : ℤ → K → ℕ) (fuel : ℕ)
    (xs : List I) where
  abbrev keys : List (K × ℕ)
  keys = keys_of key_for_input 0 xs

  abbrev size : ℕ
  size = length keys

  module _ (same_key : (x : I) → key (build x) ≡ key_for_input x) (few : length xs < 2 ^ 31)
      (some_key : 0 < size) (t : LazyTable T) (b : Built hash size fuel keys)
      (tables_1 : t.table_1 ≡ b.t1) (tables_2 : t.table_2 ≡ b.t2) where
    found_index :
        (e : K × ℕ)
        → Found hash size fuel keys b.t1 b.t2 (slot_of hash size (pos 0) e.0) e
        → final_index p build key key_eq hash t e.0 ≡ some (pos e.1)
    found_index e (Found.single f) =
        final_index-direct p build key key_eq hash t size (ap length tables_1 ∙ b.size_1)
          (ap length tables_2 ∙ b.size_2) e.0 e.1 (rw tables_1 f)
    found_index e (Found.seeded s f g) =
        final_index-seeded p build key key_eq hash t size (ap length tables_1 ∙ b.size_1)
          (ap length tables_2 ∙ b.size_2) e.0 s (rw tables_1 f) (rw tables_2 g)

    abbrev Leads : K → Type 0
    Leads k =
        (final_index p build key key_eq hash t k ≡ some table_slot_invalid)
        ⊎ ((i : ℕ) × (x : I) × (final_index p build key key_eq hash t k ≡ some (pos i))
            × (i < 2 ^ 31 - 1)
            × (get_elem? xs i ≡ some x))

    Item-Leads :
        (k : K) (v : ℤ)
        → final_index p build key key_eq hash t k ≡ some v
        → Item hash size fuel keys v
        → Leads k
    Item-Leads k v e (Item.nothing q) = inl (e ∙ ap some q)
    Item-Leads k v e (Item.item d m q) =
        let (x, found, inside) = key_item key_for_input xs d m in
        inr (d.1, x, (e ∙ ap some q), omega arith, found)

    Entry-Leads :
        (k : K) (v : ℤ)
        → get_elem? b.t1 (slot_of hash size (pos 0) k) ≡ some v
        → Entry hash size fuel keys v
        → Leads k
    Entry-Leads k v e (Entry.direct (Item.nothing q)) =
        Item-Leads k table_slot_invalid
          (final_index-direct p build key key_eq hash t size (ap length tables_1 ∙ b.size_1)
            (ap length tables_2 ∙ b.size_2) k (2 ^ 31 - 1) (rw tables_1 (e ∙ ap some q)))
          (Item.nothing refl)
    Entry-Leads k v e (Entry.direct (Item.item d m q)) =
        Item-Leads k (pos d.1)
          (final_index-direct p build key key_eq hash t size (ap length tables_1 ∙ b.size_1)
            (ap length tables_2 ∙ b.size_2) k d.1 (rw tables_1 (e ∙ ap some q)))
          (Item.item d m refl)
    Entry-Leads k v e (Entry.seed s h q) =
        let (w, f) =
          get_elem?-exists b.t2 (slot_of hash size (negsuc s) k)
            (rw b.size_2 (mod-lt (hash (negsuc s) k) some_key)) in
        Item-Leads k w
          (final_index-seeded p build key key_eq hash t size (ap length tables_1 ∙ b.size_1)
            (ap length tables_2 ∙ b.size_2) k s (rw tables_1 (e ∙ ap some q)) (rw tables_2 f))
          (b.entries_2 (slot_of hash size (negsuc s) k) w f)

    pub built-Serves : Represents p build t.array xs → Serves p build key key_eq hash t xs
    built-Serves r = record {
      represents = r;
      hits = λ i x k f g.
          let m = keys_of-Mem key_for_input 0 i xs x k i (omega arith) f (sym (same_key x) ∙ g) in
          let (y, found, inside) = key_item key_for_input xs (k, i) m in
          (found_index (k, i) (b.finds (k, i) m), omega arith);
      leads = λ k.
          let (v, f) =
            get_elem?-exists b.t1 (slot_of hash size (pos 0) k)
              (rw b.size_1 (mod-lt (hash (pos 0) k) some_key)) in
          Entry-Leads k v f (b.entries_1 (slot_of hash size (pos 0) k) v f);
    }
