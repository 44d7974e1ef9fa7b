-- ===== src/Impls/Tables/Interface.antt =====
-- `ImplTable for ImplTableLazy` of src/impls.rs: the searches of the interface go through a table in a
-- file, and find what they find in memory.
use skitter.Prelude.{ℕ, ◌≡◌, ◌↔◌, refl, ap, Bool, Option, none, some, [], ◌∷◌, ◌==◌, get_elem?}
use skitter.Prelude.Int.{ℤ}
use skitter.Prelude.Run.{Run, done, panicked, or_panic}
use skitter.Persist.Class.{Persist}
use skitter.LazyCollections.Array.Lookup.{get-missing}
use skitter.Types.Kind.{Ty, SubList}
use skitter.Types.Items.{Items}
use skitter.Impls.Bounds.{ImplBounds, first_ty}
use skitter.Impls.Tables.{
  InherentMember, TraitKey, TraitEntry, InherentEntry, ImplTable, ImplTableSimple, ImplTableLazy,
  members, map_get, simple_table, lazy_get_bounds, lazy_get_inherent, lazy_get_trait, find_inherent,
  find_inherent_raw, find_trait,
}
use skitter.Impls.Tables.Refinement.{Stands, inherent-Stands, trait-Stands, bounds-Stands}
use skitter.Impls.Tables.Searches.{
  first_fit, test_member, test_value, candidates, find_in_members-first_fit, only_member_iff,
  find_trait-first_fit,
}

-- The lookups of the interface.
pub data Lookup : Type 0 where
  bounds : ℕ → Lookup
  inherent : ℕ → Lookup
  impls : TraitKey → Option ℕ → Lookup

-- What a lookup answers, without the table that it leaves.
abbrev answer : {A T : Type 0} → Option (A × T) → Run A
answer none = panicked
answer (some r) = done r.0

module _ {V : Type 0} (bounds : Persist ImplBounds) (traits : Persist (TraitEntry V))
    (inherents : Persist (InherentEntry V)) (trait_hash : ℤ → TraitKey × Option ℕ → ℕ)
    (inherent_hash : ℤ → ℕ → ℕ) where
  -- The interface of a lazy table. `&self` hides the items that lookups load, on this thread and on
  -- others: `seen` gives the table as a lookup finds it.
  unfoldable pub lazy_table : ℕ → (Lookup → ImplTableLazy V) → ImplTable V
  lazy_table crate_id seen = record {
    get_crate_id = crate_id;
    get_bounds = λ i. answer (
        lazy_get_bounds bounds traits inherents trait_hash inherent_hash (seen (Lookup.bounds i))
          i);
    get_inherent_table = λ full_key. answer (
        lazy_get_inherent bounds traits inherents trait_hash inherent_hash
          (seen (Lookup.inherent full_key)) full_key);
    get_trait_table = λ trait_key type_key. answer (
        lazy_get_trait bounds traits inherents trait_hash inherent_hash
          (seen (Lookup.impls trait_key type_key)) trait_key type_key);
  }

  get_bounds-agrees :
      (s : ImplTableSimple V) (t : ImplTableLazy V)
      → Stands bounds traits inherents trait_hash inherent_hash s t
      → (i : ℕ) (found : Option ImplBounds) → get_elem? s.bounds_table i ≡ found
      → answer (lazy_get_bounds bounds traits inherents trait_hash inherent_hash t i)
        ≡ or_panic found
  unfolding lazy_get_bounds
  get_bounds-agrees s t h i (some b) e =
      ap answer (bounds-Stands bounds traits inherents trait_hash inherent_hash s t h i b e).1
  get_bounds-agrees s t h i none e =
      rw (get-missing bounds (λ b. b) t.bounds_table s.bounds_table i h.for_bounds e) refl

  lazy_table-simple_table :
      (s : ImplTableSimple V) (seen : Lookup → ImplTableLazy V)
      → ((q : Lookup) → Stands bounds traits inherents trait_hash inherent_hash s (seen q))
      → lazy_table s.crate_id seen ≡ simple_table s
  unfolding lazy_table simple_table
  lazy_table-simple_table s seen h = λ j. record {
    get_crate_id = s.crate_id;
    get_bounds = λ i.
        get_bounds-agrees s (seen (Lookup.bounds i)) (h (Lookup.bounds i)) i
          (get_elem? s.bounds_table i) refl j;
    get_inherent_table = λ k. answer (
        (inherent-Stands bounds traits inherents trait_hash inherent_hash s
            (seen (Lookup.inherent k)) (h (Lookup.inherent k)) k).1
          j);
    get_trait_table = λ k key. answer (
        (trait-Stands bounds traits inherents trait_hash inherent_hash s (seen (Lookup.impls k key))
            (h (Lookup.impls k key)) k key).1
          j);
  }

module _ {V : Type 0} (bounds : Persist ImplBounds) (traits : Persist (TraitEntry V))
    (inherents : Persist (InherentEntry V)) (trait_hash : ℤ → TraitKey × Option ℕ → ℕ)
    (inherent_hash : ℤ → ℕ → ℕ) (items : Items) (trait_has_impl : ℕ → SubList → Run Bool)
    (impl_key : Ty → Run (Option ℕ)) (fuel : ℕ) where
  -- The searches in a table in a file, each lookup of which finds a lazy table that stands for one in
  -- memory, whichever of its items are loaded by then. That for an inherent item of a type tests the
  -- members in memory under its key, in their order, whether the first type of their impl matches the
  -- type, and gives the value of the first that does, or nothing. That by the key alone gives a value
  -- exactly if it is that of the one member under the key. That for the impl of a trait tests the
  -- entries under the key of the first type, and then, if the type has a key, those under none,
  -- whether their impl accepts the types, and gives that of the first that does, or nothing. A test
  -- that panics before is the result of a search.
  pub searches-first_fit :
      (s : ImplTableSimple V) (seen : Lookup → ImplTableLazy V) (full_key : ℕ) (ty : Ty) (v : V)
      (trait_key : TraitKey) (for_tys : SubList) (for_ty : Ty) (key : Option ℕ)
      → ((q : Lookup) → Stands bounds traits inherents trait_hash inherent_hash s (seen q))
      → first_ty for_tys ≡ some for_ty
      → impl_key for_ty ≡ done key
      → let lazy = lazy_table bounds traits inherents trait_hash inherent_hash s.crate_id seen in
        (find_inherent items trait_has_impl impl_key fuel lazy full_key ty
          ≡ first_fit
              (test_member items trait_has_impl impl_key fuel s ty)
              (members (map_get ◌==◌ s.inherent_table full_key)))
        × ((find_inherent_raw items trait_has_impl impl_key fuel lazy full_key ≡ done (some v)) ↔ (
            (m : InherentMember V) × (map_get ◌==◌ s.inherent_table full_key ≡ some (m ∷ []))
            × (m.value ≡ v)))
        × (find_trait items trait_has_impl impl_key fuel lazy trait_key for_tys
            ≡ first_fit
                (test_value items trait_has_impl impl_key fuel s for_tys)
                (candidates items trait_has_impl impl_key fuel s trait_key key))
  unfolding find_inherent find_inherent_raw simple_table
  searches-first_fit s seen full_key ty v trait_key for_tys for_ty key h e f =
      rw (lazy_table-simple_table bounds traits inherents trait_hash inherent_hash s seen h) (
        find_in_members-first_fit items trait_has_impl impl_key fuel s ty
            (members (map_get ◌==◌ s.inherent_table full_key)),
        only_member_iff items trait_has_impl impl_key fuel s
            (map_get ◌==◌ s.inherent_table full_key) v,
        find_trait-first_fit items trait_has_impl impl_key fuel s trait_key for_tys for_ty key e f,
      )
