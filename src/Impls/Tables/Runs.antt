-- ===== src/Impls/Tables/Runs.antt =====
-- The impl tables of src/impls.rs with two inherent members and two trait impls, in memory and in a
-- file. An entry is persisted as one byte, from which the rest of it follows.
mod Samples
use skitter.Prelude.{◌↔◌, ℕ, ◌≡◌, refl, Bool, true, Option, none, some, [], ◌∷◌, ◌++◌, ◌==◌, arith}
use skitter.Persist.Stream.{PersistWriter, at, new_writer, new_reader}
use skitter.Prelude.Run.{Run, done}
use skitter.Types.Kind.{Ty, type, SubList, empty, more}
use skitter.Types.Subs.{sub, is_concrete, get_sub, assert_ty}
use skitter.Types.Samples.{pairs, word}
use skitter.Impls.SubMap.{set_sub, set_entry, set_param, from_summary, repeat_sub}
use skitter.Impls.Patterns.{sub_count}
use skitter.Impls.Matching.{
  match_types, match_subs, matching, shortcut, adt_arm, is_listed, mismatch, and_then, tuple_arm,
  same_length,
}
use skitter.Impls.Bounds.{check, check_bounds, hand_on}
use skitter.Impls.Tables.{
  InherentMember, members, map_get, trait_key_eq, ImplTableLazy, impls_write, impls_read,
  lazy_get_bounds, lazy_get_inherent, lazy_get_trait, simple_table, find_inherent,
  find_inherent_raw, find_trait, find_under, find_in_values,
}
use skitter.Impls.Tables.Searches.{first_fit, test_member, test_value, candidates}
use skitter.Impls.Tables.Interface.{Lookup, lazy_table, searches-first_fit}
use skitter.Impls.Tables.Refinement.{impls_read-impls_write, lookups-Stands}
use skitter.Impls.Tables.Runs.Samples.{
  any_type, the_trait, table, trait_hash, inherent_hash, bounds, traits, inherents, Holds,
  can_write,
}

impls_read-impls_write_example :
    (w : PersistWriter) × (t : ImplTableLazy ℕ) × (impls_write bounds traits inherents trait_hash
        inherent_hash 2 table new_writer
      ≡ some w)
    × (impls_read bounds traits inherents trait_hash inherent_hash (new_reader (w.output ++ 9 ∷ []))
        ≡ some (t, at w.output (9 ∷ [])))
    × Holds t
impls_read-impls_write_example =
    impls_read-impls_write bounds traits inherents trait_hash inherent_hash 2 table (9 ∷ [])
      (omega arith) can_write

stored : (t : ImplTableLazy ℕ) × Holds t
stored =
    let (w, t, written, read, holds) =
      impls_read-impls_write bounds traits inherents trait_hash inherent_hash 2 table []
        (omega arith) can_write in
    (t, holds)

lookups-Stands_example :
    ((t' : ImplTableLazy ℕ) × (lazy_get_inherent bounds traits inherents trait_hash inherent_hash
          stored.0 4
        ≡ some (map_get ◌==◌ table.inherent_table 4, t'))
      × Holds t')
    × ((t' : ImplTableLazy ℕ) × (lazy_get_trait bounds traits inherents trait_hash inherent_hash
            stored.0
            (the_trait 4)
            none
          ≡ some (map_get trait_key_eq table.trait_table ((the_trait 4), none), t'))
        × Holds t')
    × ((t' : ImplTableLazy ℕ) × (lazy_get_bounds bounds traits inherents trait_hash inherent_hash
            stored.0 0
          ≡ some (any_type, t'))
        × Holds t')
lookups-Stands_example =
    lookups-Stands bounds traits inherents trait_hash inherent_hash table stored.0 stored.1 4
      (the_trait 4) none 0 any_type refl

loaded :
    (t' : ImplTableLazy ℕ) × (lazy_get_inherent bounds traits inherents trait_hash inherent_hash
        stored.0 4
      ≡ some (map_get ◌==◌ table.inherent_table 4, t'))
    × Holds t'
loaded =
    (lookups-Stands bounds traits inherents trait_hash inherent_hash table stored.0 stored.1 4
      (the_trait 4) none 0 any_type refl).0

-- The first lookup finds nothing loaded, and the others find the member loaded.
abbrev seen : Lookup → ImplTableLazy ℕ
seen (Lookup.inherent k) = stored.0
seen q = loaded.0

seen-Holds : (q : Lookup) → Holds (seen q)
seen-Holds (Lookup.inherent k) = stored.1
seen-Holds (Lookup.bounds i) = loaded.2
seen-Holds (Lookup.impls k key) = loaded.2

abbrev has_impl : ℕ → SubList → Run Bool
has_impl item for_tys = done true

abbrev impl_key : Ty → Run (Option ℕ)
impl_key ty = done (some 9)

abbrev asked : SubList
asked = more (type word) empty

trait_run :
    find_trait pairs has_impl impl_key 1 (simple_table table) (the_trait 4) asked
    ≡ done (some (record { crate_id = 1; assoc_values = some 5 ∷ []; impl_subs = asked }))
unfolding find_trait find_under find_in_values simple_table map_get check hand_on check_bounds
    from_summary repeat_sub sub_count match_subs match_types set_param set_entry shortcut adt_arm
    tuple_arm set_sub matching is_concrete and_then get_sub same_length mismatch is_listed sub
    assert_ty
trait_run = refl

searches-first_fit_example :
    let lazy = lazy_table bounds traits inherents trait_hash inherent_hash 1 seen in
    (find_inherent pairs has_impl impl_key 1 lazy 4 word
      ≡ first_fit
          (test_member pairs has_impl impl_key 1 table word)
          (members (map_get ◌==◌ table.inherent_table 4)))
    × ((find_inherent_raw pairs has_impl impl_key 1 lazy 4 ≡ done (some 5)) ↔ (
        (m : InherentMember ℕ) × (map_get ◌==◌ table.inherent_table 4 ≡ some (m ∷ []))
        × (m.value ≡ 5)))
    × (find_trait pairs has_impl impl_key 1 lazy (the_trait 4) asked
        ≡ first_fit
            (test_value pairs has_impl impl_key 1 table asked)
            (candidates pairs has_impl impl_key 1 table (the_trait 4) (some 9)))
unfolding assert_ty
searches-first_fit_example =
    searches-first_fit bounds traits inherents trait_hash inherent_hash pairs has_impl impl_key 1
      table seen 4 word 5 (the_trait 4) asked word (some 9) seen-Holds refl refl
