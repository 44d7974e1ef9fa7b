-- ===== src/Impls/Tables/Runs/Samples.antt =====
-- The tables of the tests of src/impls.rs: two inherent members and two trait impls, in memory and in a
-- file. An entry is persisted as one byte, from which the rest of it follows.
use skitter.Prelude.{
  ℕ, zero, suc, ◌%◌, ◌≡◌, refl, sym, ap, ◌∙◌, Option, none, some, [], ◌∷◌, ◌==◌, arith, inl, inr,
  ==_iff,
}
use mathlib.Core.List.{Memᴰ}
use mathlib.Core.List.Memᴰ.{cases_cons}
use skitter.Prelude.Int.{ℤ, pos, negsuc}
use skitter.Persist.Stream.{Reads, write_byte, read_byte}
use skitter.Persist.Stream
use skitter.Persist.Stream.Laws.{Reads-read_byte}
use skitter.Persist.Class.{Persist, RoundTrips}
use skitter.Persist.Values.Laws.{Reads-map}
use skitter.Persist.Sequences.Laws.{items_bytes}
use skitter.LazyCollections.Table.Write.{keys_of}
use skitter.LazyCollections.Table.Write.Sorting.{Distinct}
use skitter.LazyCollections.Table.{table_slot_invalid}
use skitter.LazyCollections.Table.Write.{
  sort_buckets, enumerate, fill_buckets, push_at, insert_sorted, fill_bucket, search_seed, place,
  occupied, any_slot, store_all,
}
use skitter.LazyCollections.Table.Write.Seeds.{Fits, Free, targets}
use skitter.LazyCollections.Table.Write.Tables.{HasSeeds, SeedsFrom}
use skitter.LazyCollections.Table.Write.Fill.{HasSeed}
use skitter.Vm.Words.{to_signed}
use mathlib.Core.Path.{subst}
use skitter.Types.Kind.{param, type, empty, more}
use skitter.Impls.Bounds.{ImplBounds}
use skitter.Impls.Tables.{
  TraitKey, TraitEntry, InherentEntry, push_entry, trait_key_eq, ImplTableSimple, ImplTableLazy,
  new_table, add_bounds, add_inherent, add_trait,
}
use skitter.Impls.Tables.Maps.{trait_key_iff}
use skitter.Impls.Tables.Refinement.Lookups.{Writable}
use skitter.Impls.Tables.Refinement.{Stands, CanWrite}

-- A persistence by a number of a value.
abbrev persist_by : {A : Type 0} → (A → ℕ) → (ℕ → A) → Persist A
persist_by number of = record {
  persist_write = λ a. write_byte (number a);
  persist_read = Stream.◌>>=◌ read_byte (λ n. Stream.pure (of n));
}

trip_by :
    {A : Type 0} (number : A → ℕ) (of : ℕ → A) (a : A)
    → of (number a) ≡ a
    → RoundTrips (persist_by number of) a
trip_by number of a e = record {
  bytes = number a ∷ [];
  writes = λ w. refl;
  reads =
      subst (Reads (Stream.◌>>=◌ read_byte (λ n. Stream.pure (of n))) (number a ∷ [])) e
        (Reads-map read_byte of (Reads-read_byte (number a)));
}

-- `impl<T> … for T`.
abbrev pub any_type : ImplBounds
any_type = record {
  for_tys = more (type (param 0)) empty;
  bounds = [];
  generic_counts = record { lifetimes = 0; types = 1; consts = 0 };
}

-- Members 5 and 8 under the keys 4 and 7, and impls of the traits 4 and 7 of crate 1 under no key, all
-- with bounds 0.
abbrev pub the_trait : ℕ → TraitKey
the_trait n = record { crate_id = 1; item_id = n }

abbrev member : ℕ → InherentEntry ℕ
member n = (n, record { bounds_id = 0; value = suc n } ∷ [])

abbrev trait_impl : ℕ → TraitEntry ℕ
trait_impl n = ((the_trait n, none), record { bounds_id = 0; values = some (suc n) ∷ [] } ∷ [])

abbrev pub table : ImplTableSimple ℕ
table = record {
  crate_id = 1;
  inherent_table = member 4 ∷ member 7 ∷ [];
  trait_table = trait_impl 4 ∷ trait_impl 7 ∷ [];
  bounds_table = any_type ∷ [];
}

table_run :
    let (bounds_id, start) = add_bounds any_type (new_table {V = ℕ} 1) in
    add_trait (the_trait 7) none bounds_id (some 8 ∷ []) (
      add_trait
        (the_trait 4)
        none
        bounds_id
        (some 5 ∷ [])
        (add_inherent 7 bounds_id 8 (add_inherent 4 bounds_id 5 start)))
    ≡ table
unfolding add_trait add_inherent add_bounds new_table push_entry
table_run = refl

-- Unseeded, everything goes into bucket 0; by the seed -1 everything goes into slot 1, and by the
-- others a number goes by its parity.
abbrev parity_hash : ℤ → ℕ → ℕ
parity_hash (pos n) k = 0
parity_hash (negsuc zero) k = 1
parity_hash (negsuc (suc n)) k = k % 2

abbrev pub trait_hash : ℤ → TraitKey × Option ℕ → ℕ
trait_hash seed k = parity_hash seed k.0.item_id

abbrev pub inherent_hash : ℤ → ℕ → ℕ
inherent_hash seed k = parity_hash seed k

-- A seed that sends two keys to the two slots fits.
two_slots-Fits :
    {K : Type 0} (hash : ℤ → K → ℕ) (seed : ℤ) (a b : K × ℕ)
    → targets hash 2 seed (a ∷ b ∷ []) ≡ (0, 0) ∷ (1, 1) ∷ []
    → Fits hash 2 seed (table_slot_invalid ∷ table_slot_invalid ∷ []) (a ∷ b ∷ [])
unfolding Distinct
two_slots-Fits hash seed a b e = record {
  distinct = subst Distinct (sym e) slots-Distinct;
  free = λ x m. slot-Free x (subst (Memᴰ x) e m);
}
  where
    slots-Distinct : Distinct {A = ℕ} {B = ℕ} ((0, 0) ∷ (1, 1) ∷ [])
    slots-Distinct = (
      λ x m. elim (cases_cons m) [
        | inl s ↦ λ q. let r = q ∙ ap (λ (w : ℕ × ℕ). w.0) s in omega arith
        | inr z ↦ elim z [ ]
      ],
      (λ x m. elim m [ ], tt),
    )

    slot-Free :
        (x : ℕ × ℕ)
        → Memᴰ x ((0, 0) ∷ (1, 1) ∷ [])
        → Free (table_slot_invalid ∷ table_slot_invalid ∷ []) x.0
    slot-Free x m = elim (cases_cons m) [
      | inl s ↦ cc
      | inr r ↦ elim (cases_cons r) [ inl s ↦ cc | inr z ↦ elim z [ ] ]
    ]

abbrev pub bounds : Persist ImplBounds
bounds = persist_by (λ b. 0) (λ n. any_type)

abbrev pub traits : Persist (TraitEntry ℕ)
traits = persist_by (λ e. e.0.0.item_id) trait_impl

abbrev pub inherents : Persist (InherentEntry ℕ)
inherents = persist_by (λ e. e.0) member

-- A lazy table that stands for the one above.
abbrev pub Holds : ImplTableLazy ℕ → Type 0
Holds = Stands bounds traits inherents trait_hash inherent_hash table

traits-Writable : Writable trait_key_eq trait_key_iff traits trait_hash 2 table.trait_table
unfolding items_bytes trip_by keys_of Distinct HasSeeds SeedsFrom HasSeed sort_buckets enumerate
    fill_buckets push_at insert_sorted fill_bucket search_seed place occupied any_slot store_all
    to_signed targets
traits-Writable = record {
  trips =
      (trip_by _ trait_impl (trait_impl 4) refl, (trip_by _ trait_impl (trait_impl 7) refl, tt));
  distinct = (
    λ x m. elim (cases_cons m) [
      | inl s ↦ λ q.
          let r =
            ap (λ (k : TraitKey × Option ℕ). k.0.item_id) (q ∙ ap (λ (w : TraitEntry ℕ). w.0) s) in
          omega arith
      | inr z ↦ elim z [ ]
    ],
    (λ x m. elim m [ ], tt),
  );
  few = omega arith;
  fits = omega arith;
  nonempty = omega arith;
  seeds = (
    (
      1,
      omega arith,
      two_slots-Fits trait_hash (negsuc 1) ((the_trait 4, none), 0) ((the_trait 7, none), 1) refl,
    ),
    (tt, tt),
  );
}

inherents-Writable : Writable ◌==◌ ==_iff inherents inherent_hash 2 table.inherent_table
unfolding items_bytes trip_by keys_of Distinct HasSeeds SeedsFrom HasSeed sort_buckets enumerate
    fill_buckets push_at insert_sorted fill_bucket search_seed place occupied any_slot store_all
    to_signed targets
inherents-Writable = record {
  trips = (trip_by _ member (member 4) refl, (trip_by _ member (member 7) refl, tt));
  distinct = (
    λ x m. elim (cases_cons m) [
      | inl s ↦ λ q. let r = q ∙ ap (λ (w : InherentEntry ℕ). w.0) s in omega arith
      | inr z ↦ elim z [ ]
    ],
    (λ x m. elim m [ ], tt),
  );
  few = omega arith;
  fits = omega arith;
  nonempty = omega arith;
  seeds = ((1, omega arith, two_slots-Fits inherent_hash (negsuc 1) (4, 0) (7, 1) refl), (tt, tt));
}

pub can_write : CanWrite bounds traits inherents trait_hash inherent_hash 2 table
unfolding items_bytes trip_by
can_write = record {
  trips = (trip_by _ (λ n. any_type) any_type refl, tt);
  few = omega arith;
  fits = omega arith;
  for_traits = traits-Writable;
  for_inherents = inherents-Writable;
}
