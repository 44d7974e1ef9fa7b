-- ===== src/Impls/Tables.antt =====
-- src/impls.rs: the impls of a crate. `ImplTable` is the interface that lookups go through;
-- `ImplTableSimple` fills it from tables in memory, `ImplTableLazy` from tables in a file. A string is
-- a key that is compared for equality, and a hash map is a list of entries with different keys.
pub mod Maps
pub mod Refinement
pub mod Searches
pub mod Interface
mod Runs
use skitter.Prelude.{
  ℕ, ◌%◌, ◌^◌, Bool, true, false, Option, none, some, List, [], ◌∷◌, ◌++◌, ◌==◌, if◌then◌else◌,
  length, get_elem?, ◌&&◌, ◌>>=◌,
}
use skitter.Prelude.Int.{ℤ}
use skitter.Persist.Stream
use skitter.Persist.Stream.{PersistWriter, Read}
use skitter.Persist.Class.{Persist}
use skitter.LazyCollections.Array
use skitter.LazyCollections.Array.{LazyArray}
use skitter.LazyCollections.Table.{LazyTable, table_read, table_get}
use skitter.LazyCollections.Table.Write.{table_write}
use skitter.Prelude.Run
use skitter.Prelude.Run.{Run, done, or_panic}
use skitter.Types.Kind.{Ty, SubList}
use skitter.Types.Items.{Items}
use skitter.Impls.Bounds.{ImplBounds, check, check_inherent, first_ty}

-- `AssocValue` is the parameter `V`.
pub record InherentMember (V : Type 0) : Type 0 where
  pub bounds_id : ℕ
  pub value : V

pub record TraitKey : Type 0 where
  pub crate_id : ℕ
  pub item_id : ℕ

pub record TraitValue (V : Type 0) : Type 0 where
  pub bounds_id : ℕ
  pub values : List (Option V)

pub record TraitImpl (V : Type 0) : Type 0 where
  pub crate_id : ℕ
  pub assoc_values : List (Option V)
  pub impl_subs : SubList

-- The operations that the two tables supply.
pub record ImplTable (V : Type 0) : Type 0 where
  pub get_crate_id : ℕ
  pub get_bounds : ℕ → Run ImplBounds
  pub get_inherent_table : ℕ → Run (Option (List (InherentMember V)))
  pub get_trait_table : TraitKey → Option ℕ → Run (Option (List (TraitValue V)))

abbrev pub members : {A : Type 0} → Option (List A) → List A
members none = []
members (some list) = list

module _ {V : Type 0} (items : Items) (trait_has_impl : ℕ → SubList → Run Bool)
    (impl_key : Ty → Run (Option ℕ)) (fuel : ℕ) (table : ImplTable V) where
  unfoldable pub find_in_members : Ty → List (InherentMember V) → Run (Option V)
  find_in_members ty [] = done none
  find_in_members ty (member ∷ list) =
      let rest = find_in_members ty list in
      Run.◌>>=◌ (table.get_bounds member.bounds_id) (λ bounds.
        Run.◌>>=◌ (check_inherent items trait_has_impl fuel bounds ty)
          (λ fits. if fits then done (some member.value) else rest))

  unfoldable pub find_inherent : ℕ → Ty → Run (Option V)
  find_inherent full_key ty =
      Run.◌>>=◌ (table.get_inherent_table full_key) (λ list. find_in_members ty (members list))

  abbrev pub only_member : List (InherentMember V) → Option V
  only_member (member ∷ []) = some member.value
  only_member _ = none

  unfoldable pub find_inherent_raw : ℕ → Run (Option V)
  find_inherent_raw full_key =
      Run.◌>>=◌ (table.get_inherent_table full_key) (λ list. done (only_member (members list)))

  unfoldable pub find_in_values : SubList → List (TraitValue V) → Run (Option (TraitImpl V))
  find_in_values for_tys [] = done none
  find_in_values for_tys (trait_value ∷ list) =
      let rest = find_in_values for_tys list in
      Run.◌>>=◌ (table.get_bounds trait_value.bounds_id) (λ bounds.
        Run.◌>>=◌ (check items trait_has_impl fuel bounds for_tys) (λ result. elim result [
          | none ↦ rest
          | some impl_subs ↦ done (
              some (record {
                crate_id = table.get_crate_id;
                assoc_values = trait_value.values;
                impl_subs = impl_subs;
              }))
        ]))

  unfoldable pub find_under : TraitKey → SubList → Option ℕ → Run (Option (TraitImpl V))
  find_under trait_key for_tys type_key =
      Run.◌>>=◌ (table.get_trait_table trait_key type_key)
        (λ list. find_in_values for_tys (members list))

  -- Under the key of the first type, and then under none.
  unfoldable pub find_trait : TraitKey → SubList → Run (Option (TraitImpl V))
  find_trait trait_key for_tys = Run.◌>>=◌ (or_panic (first_ty for_tys)) (λ ty.
      Run.◌>>=◌ (impl_key ty) (λ type_key.
        Run.◌>>=◌ (find_under trait_key for_tys type_key) (λ found. elim found [
          | some trait_impl ↦ done (some trait_impl)
          | none ↦ elim type_key [ none ↦ done none | some key ↦ find_under trait_key for_tys none ]
        ])))

module _ {K W : Type 0} (key_eq : K → K → Bool) where
  -- `AHashMap::get`, and `entry(key).or_default().push(value)`.
  unfoldable pub map_get : List (K × List W) → K → Option (List W)
  map_get [] k = none
  map_get (e ∷ es) k = if key_eq e.0 k then some e.1 else map_get es k

  unfoldable pub push_entry : List (K × List W) → K → W → List (K × List W)
  push_entry [] k w = (k, w ∷ []) ∷ []
  push_entry (e ∷ es) k w =
      if key_eq e.0 k then (e.0, e.1 ++ w ∷ []) ∷ es else e ∷ push_entry es k w

abbrev pub option_eq : Option ℕ → Option ℕ → Bool
option_eq none none = true
option_eq (some a) (some b) = a == b
option_eq _ _ = false

-- A map of maps is a map on pairs of keys.
abbrev pub trait_key_eq : TraitKey × Option ℕ → TraitKey × Option ℕ → Bool
trait_key_eq a b =
    (a.0.crate_id == b.0.crate_id) && (a.0.item_id == b.0.item_id) && option_eq a.1 b.1

pub record ImplTableSimple (V : Type 0) : Type 0 where
  pub crate_id : ℕ
  pub inherent_table : List (ℕ × List (InherentMember V))
  pub trait_table : List ((TraitKey × Option ℕ) × List (TraitValue V))
  pub bounds_table : List ImplBounds

module _ {V : Type 0} where
  unfoldable pub new_table : ℕ → ImplTableSimple V
  new_table crate_id = record {
    crate_id = crate_id;
    inherent_table = [];
    trait_table = [];
    bounds_table = [];
  }

  unfoldable pub add_bounds : ImplBounds → ImplTableSimple V → ℕ × ImplTableSimple V
  add_bounds bounds t =
      (length t.bounds_table % 2 ^ 32, record t { bounds_table = t.bounds_table ++ bounds ∷ [] })

  unfoldable pub add_inherent : ℕ → ℕ → V → ImplTableSimple V → ImplTableSimple V
  add_inherent key bounds_id value t = record t {
    inherent_table =
        push_entry ◌==◌ t.inherent_table key (record { bounds_id = bounds_id; value = value });
  }

  unfoldable pub add_trait :
      TraitKey → Option ℕ → ℕ → List (Option V) → ImplTableSimple V → ImplTableSimple V
  add_trait trait_key key bounds_id assoc_values t = record t {
    trait_table =
        push_entry trait_key_eq t.trait_table (trait_key, key)
          (record { bounds_id = bounds_id; values = assoc_values });
  }

  unfoldable pub simple_table : ImplTableSimple V → ImplTable V
  simple_table t = record {
    get_crate_id = t.crate_id;
    get_bounds = λ i. or_panic (get_elem? t.bounds_table i);
    get_inherent_table = λ full_key. done (map_get ◌==◌ t.inherent_table full_key);
    get_trait_table =
        λ trait_key type_key. done (map_get trait_key_eq t.trait_table (trait_key, type_key));
  }

-- `TraitKeyValue` and `InherentKeyValue`: an entry with its key, built as it is, and what a lookup
-- takes of it.
module _ {K W : Type 0} where
  abbrev pub entry_key : K × List W → Option K
  entry_key e = some e.0

  abbrev pub entry_build : K × List W → K × List W
  entry_build e = e

  abbrev pub lazy_list : Option (K × List W) → Option (List W)
  lazy_list none = none
  lazy_list (some e) = some e.1

abbrev pub InherentEntry : Type 0 → Type 0
InherentEntry V = ℕ × List (InherentMember V)

abbrev pub TraitEntry : Type 0 → Type 0
TraitEntry V = (TraitKey × Option ℕ) × List (TraitValue V)

pub record ImplTableLazy (V : Type 0) : Type 0 where
  pub bounds_table : LazyArray ImplBounds
  pub trait_table : LazyTable (TraitEntry V)
  pub inherent_table : LazyTable (InherentEntry V)

module _ {V : Type 0} (bounds : Persist ImplBounds) (traits : Persist (TraitEntry V))
    (inherents : Persist (InherentEntry V)) (trait_hash : ℤ → TraitKey × Option ℕ → ℕ)
    (inherent_hash : ℤ → ℕ → ℕ) where
  -- The fuel is that of the search for seeds.
  unfoldable pub impls_write : ℕ → ImplTableSimple V → PersistWriter → Option PersistWriter
  impls_write fuel t writer =
      table_write entry_key traits trait_hash fuel t.trait_table
        (Array.write bounds t.bounds_table writer)
      >>= table_write entry_key inherents inherent_hash fuel t.inherent_table

  unfoldable pub impls_read : Read (ImplTableLazy V)
  impls_read = Stream.◌>>=◌ Array.read (λ bounds_table. Stream.◌>>=◌ table_read (λ trait_table.
      Stream.◌>>=◌ table_read (λ inherent_table. Stream.pure (record {
        bounds_table = bounds_table;
        trait_table = trait_table;
        inherent_table = inherent_table;
      }))))

  -- The lookups of the lazy table, with the table that is left.
  unfoldable pub lazy_get_bounds : ImplTableLazy V → ℕ → Option (ImplBounds × ImplTableLazy V)
  lazy_get_bounds t i = Array.get bounds (λ b. b) t.bounds_table i >>= λ (b, array).
      some (b, record t { bounds_table = array })

  unfoldable pub lazy_get_inherent :
      ImplTableLazy V → ℕ → Option (Option (List (InherentMember V)) × ImplTableLazy V)
  lazy_get_inherent t full_key =
      table_get inherents entry_build entry_key ◌==◌ inherent_hash t.inherent_table full_key
      >>= λ (found, table). some (lazy_list found, record t { inherent_table = table })

  unfoldable pub lazy_get_trait :
      ImplTableLazy V
      → TraitKey
      → Option ℕ
      → Option (Option (List (TraitValue V)) × ImplTableLazy V)
  lazy_get_trait t trait_key type_key =
      table_get traits entry_build entry_key trait_key_eq trait_hash t.trait_table
        (trait_key, type_key)
      >>= λ (found, table). some (lazy_list found, record t { trait_table = table })
