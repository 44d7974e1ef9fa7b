-- ===== src/LazyCollections/Table/Lookup.antt =====
-- `LazyTable::get` of src/lazy_collections.rs: on a table that serves some items, it answers every key.
use skitter.Prelude.{
  true-ne-false, false-ne-true, ℕ, ◌-◌, ◌^◌, ◌<◌, ◌≡◌, ◌≢◌, ◌↔◌, ◌⊎◌, inl, inr, refl, ap, sym, ◌∙◌,
  Bool, true, false, Option, none, some, List, get_elem?, arith, Bool-cases,
}
use skitter.Prelude.Int.{ℤ, pos, eqb_ℤ}
use skitter.Persist.Class.{Persist}
use skitter.LazyCollections.Array.{LazyArray}
use skitter.LazyCollections.Array.Lookup.{Represents, Finds, get-Finds}
use skitter.LazyCollections.Table.{LazyTable, table_slot_invalid, final_index, has_key, table_get}

not_invalid : (i : ℕ) → i < 2 ^ 31 - 1 → eqb_ℤ (pos i) table_slot_invalid ≡ false
not_invalid i h = ground arith

is_invalid : eqb_ℤ table_slot_invalid table_slot_invalid ≡ true
is_invalid = refl

pos-injective : {i j : ℕ} → some (pos i) ≡ some (pos j) → i ≡ j
pos-injective e = cc

module _ {I T K : Type 0} (p : Persist I) (build : I → T) where
  module _ (key : T → Option K) (key_eq : K → K → Bool) (hash : ℤ → K → ℕ) where
    -- The slot of the key of an item leads to the item, and every slot leads to an item or nowhere.
    pub record Serves (t : LazyTable T) (xs : List I) : Type 0 where
      pub represents : Represents p build t.array xs
      pub hits :
          (i : ℕ) (x : I) (k : K)
          → get_elem? xs i ≡ some x
          → key (build x) ≡ some k
          → (final_index p build key key_eq hash t k ≡ some (pos i)) × (i < 2 ^ 31 - 1)
      pub leads :
          (k : K)
          → (final_index p build key key_eq hash t k ≡ some table_slot_invalid)
            ⊎ ((i : ℕ) × (x : I) × (final_index p build key key_eq hash t k ≡ some (pos i))
                × (i < 2 ^ 31 - 1)
                × (get_elem? xs i ≡ some x))

    -- An answer to a key: an item with the key, or that there is none; either way the table that is
    -- left still serves the items.
    pub data Answers (xs : List I) (k : K) (r : Option (Option T × LazyTable T)) : Type 0 where
      found :
          (i : ℕ) (x : I) (t : LazyTable T)
          → get_elem? xs i ≡ some x
          → key (build x) ≡ some k
          → r ≡ some (some (build x), t)
          → Serves t xs
          → Answers xs k r
      missing :
          (t : LazyTable T)
          → ((i : ℕ) (x : I) → get_elem? xs i ≡ some x → key (build x) ≢ some k)
          → r ≡ some (none, t)
          → Serves t xs
          → Answers xs k r

    reloaded :
        (t : LazyTable T) (xs : List I) (a : LazyArray T)
        → Serves t xs
        → Represents p build a xs
        → Serves (record t { array = a }) xs
    unfolding final_index
    reloaded t xs a s r = record { represents = r; hits = s.hits; leads = s.leads }

    module _ (lawful : (a b : K) → (key_eq a b ≡ true) ↔ (a ≡ b)) where
      has_key-eq : (o : Option K) (k : K) → has_key p build key key_eq hash o k ≡ true → o ≡ some k
      has_key-eq none k h = absurd (false-ne-true h)
      has_key-eq (some j) k h = ap some ((lawful j k).0 h)

      has_key_self : (k : K) → has_key p build key key_eq hash (some k) k ≡ true
      has_key_self k = (lawful k k).1 refl

      other :
          (i : ℕ) (x : I) (k : K) (t : LazyTable T) (xs : List I) {j : ℕ} {z : I}
          → has_key p build key key_eq hash (key (build x)) k ≡ false
          → get_elem? xs i ≡ some x
          → final_index p build key key_eq hash t k ≡ some (pos i)
          → final_index p build key key_eq hash t k ≡ some (pos j)
          → get_elem? xs j ≡ some z
          → key (build z) ≡ some k
          → ⊥
      other i x k t xs {z} n f e h u v =
          let same : i ≡ _ = pos-injective (sym e ∙ h) in
          let item : some x ≡ some z = sym f ∙ ap (get_elem? xs) same ∙ u in
          let equal : x ≡ z = cc in
          let keyed : key (build x) ≡ some k = ap (λ w. key (build w)) equal ∙ v in
          true-ne-false
            (sym (has_key_self k) ∙ ap (λ o. has_key p build key key_eq hash o k) (sym keyed) ∙ n)

      -- On a table that serves some items, `get` answers every key: with an item that has it, or with
      -- nothing where no item has it. It does not panic, and the table still serves the items.
      pub table_get-Answers :
          (t : LazyTable T) (xs : List I) (k : K)
          → Serves t xs
          → Answers xs k (table_get p build key key_eq hash t k)
      unfolding table_get Finds
      table_get-Answers t xs k s = elim (s.leads k) [
        | inl e ↦
            missing t
              (λ i x f g.
                let (h, small) = s.hits i x k f g in
                let same : i ≡ 2 ^ 31 - 1 = pos-injective (sym h ∙ e) in omega arith)
              (rw e) s
        | inr (i, x, e, small, f) ↦
            let (a, g, r) = get-Finds p build t.array xs i x s.represents f in
            let s' = reloaded t xs a s r in
            elim (Bool-cases (has_key p build key key_eq hash (key (build x)) k)) [
              | inl y ↦
                  found i x (record t { array = a }) f (has_key-eq (key (build x)) k y)
                    (rw (e, not_invalid i small, g, y)) s'
              | inr y ↦
                  missing (record t { array = a })
                    (λ j z u v. other i x k t xs y f e (s.hits j z k u v).0 u v)
                    (rw (e, not_invalid i small, g, y)) s'
            ]
      ]
