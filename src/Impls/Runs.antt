-- ===== src/Impls/Runs.antt =====
-- src/impls.rs on a generic pair, and the theorems at concrete inputs.
use skitter.Prelude.{ℕ, ◌≡◌, ◌↔◌, refl, Bool, true, false, some, [], ◌∷◌, ◌==◌}
use mathlib.Core.List.{Memᴰ}
use skitter.Prelude.Int.{ℤ}
use skitter.Prelude.Run.{Run, done, panicked}
use skitter.Types.Kind.{
  Ty, param, unknown, adt, tuple, cons, nil, array, bool, value, type, SubList, empty, more,
}
use skitter.Types.Items.{Items}
use skitter.Types.Subs.{sub, sub_list, is_concrete, get_sub, assert_ty}
use skitter.Types.Samples.{pairs, pair_of_word, word}
use skitter.Impls.SubMap.{set_sub, set_entry, set_param, from_summary, repeat_sub}
use skitter.Impls.SubMap.Below.{Below}
use skitter.Impls.Matching.{
  match_types, match_subs, matching, shortcut, adt_arm, is_listed, mismatch, and_then, tuple_arm,
  same_length,
}
use skitter.Impls.Patterns.{is_pattern, has_arities, sub_count}
use skitter.Impls.Unify.{match_types_iff, match_types-Below}
use skitter.Impls.Bounds.{BoundKind, ImplBounds, check, check_bounds, hand_on}
use skitter.Impls.Bounds.Laws.{
  HasPatterns, AreConcrete, Resolved, After, ChecksConcrete, check-Below,
}
use skitter.Impls.Crates.{
  ImplLocation, InternalCrates, contains, push_new, push_present, add_crates, find_source_crate,
  find_trait_impl_crate,
}
use skitter.Impls.Crates.Laws.{NoDup, Covers, find_trait_impl_crate-Covers}

abbrev arity : ℕ → ℕ
arity item = 1

-- `Pair<T>`, and a list of one type that is not yet known.
abbrev pair_of_param : Ty
pair_of_param = adt 0 (more (type (param 0)) empty)

abbrev nothing_known : SubList
nothing_known = more (type unknown) empty

abbrev word_known : SubList
word_known = more (type word) empty

-- `Pair<T>` against `Pair<i32>`, and `(T, T)` against `(i32, bool)`.
match_run : match_types pairs 1 pair_of_param pair_of_word nothing_known ≡ done (true, word_known)
unfolding match_types set_param set_entry shortcut adt_arm tuple_arm set_sub matching is_concrete
    and_then get_sub same_length mismatch is_listed
match_run = refl

mismatch_run :
    match_types pairs 1
      (tuple (cons (param 0) (cons (param 0) nil)))
      (tuple (cons word (cons bool nil)))
      nothing_known
    ≡ done (false, word_known)
unfolding match_types set_param set_entry shortcut adt_arm tuple_arm set_sub matching is_concrete
    and_then get_sub same_length mismatch is_listed
mismatch_run = refl

-- A tuple against an array panics.
tuple_array_run :
    match_types pairs 1 (tuple (cons (param 0) nil)) (array word (value (ℤ.pos 2))) nothing_known
    ≡ panicked
unfolding match_types set_param set_entry shortcut adt_arm tuple_arm set_sub matching is_concrete
    and_then get_sub same_length mismatch is_listed
tuple_array_run = refl

match_types_iff_example :
    ((m' : SubList) × (match_types pairs 1 pair_of_param pair_of_word nothing_known
        ≡ done (true, m')))
    ↔ ((u : SubList) × Below nothing_known u × (sub pairs u pair_of_param ≡ some pair_of_word))
unfolding is_pattern has_arities is_concrete sub_count
match_types_iff_example =
    match_types_iff pairs arity 0 pair_of_param pair_of_word nothing_known refl refl refl

match_types-Below_example :
    Below nothing_known word_known
    × (sub pairs word_known pair_of_param ≡ some pair_of_word)
    × ((u : SubList)
        → Below nothing_known u
        → sub pairs u pair_of_param ≡ some pair_of_word
        → Below word_known u)
unfolding is_pattern has_arities is_concrete sub_count
match_types-Below_example =
    match_types-Below pairs arity 0 pair_of_param pair_of_word nothing_known word_known refl refl
      refl match_run

-- `impl<T: Trait<Item = U>, U> … for Pair<T>`, where `Trait` is the item 3 and `Item` the item 5, which
-- is bool whatever the type is.
abbrev impl : ImplBounds
impl = record {
  for_tys = more (type pair_of_param) empty;
  bounds =
      BoundKind.trait 3 (more (type (param 0)) empty)
      ∷ BoundKind.projection 5 (more (type (param 0)) empty) (param 1)
      ∷ [];
  generic_counts = record { lifetimes = 0; types = 2; consts = 0 };
}

abbrev has_impl : ℕ → SubList → Run Bool
has_impl item for_tys = done (item == 3)

abbrev with_item : Items
with_item = record pairs { resolve_associated_ty = λ item l. some bool }

abbrev asked : SubList
asked = more (type pair_of_word) empty

abbrev found : SubList
found = more (type word) (more (type bool) empty)

check_run : check with_item has_impl 1 impl asked ≡ done (some found)
unfolding check hand_on check_bounds from_summary repeat_sub sub_count sub match_subs assert_ty
    match_types set_param set_entry shortcut adt_arm tuple_arm set_sub matching is_concrete and_then
    get_sub same_length mismatch is_listed
check_run = refl

asked-ChecksConcrete : ChecksConcrete with_item arity 1 impl asked
unfolding ChecksConcrete AreConcrete Resolved After hand_on from_summary repeat_sub sub_count sub
    match_subs assert_ty match_types set_param set_entry shortcut adt_arm tuple_arm set_sub matching
    is_concrete and_then get_sub same_length mismatch is_listed has_arities
asked-ChecksConcrete = (refl, refl, tt)

check-Below_example :
    Below (from_summary impl.generic_counts) found
    × (sub_list with_item found impl.for_tys ≡ some asked)
unfolding is_pattern has_arities is_concrete HasPatterns sub_count
check-Below_example =
    check-Below with_item has_impl arity 0 impl asked found refl (refl, tt) refl refl refl
      asked-ChecksConcrete check_run

abbrev crates : InternalCrates
crates = record { core_crate = some 1; alloc_crate = some 2 }

-- Item 0 is of crate 7.
abbrev crate_of : ℕ → ℕ
crate_of item = 7

find_trait_impl_crate_run :
    find_trait_impl_crate crate_of crates (more (type pair_of_word) (more (type word) empty)) 1
    ≡ done (1 ∷ 7 ∷ 2 ∷ [])
unfolding find_trait_impl_crate add_crates find_source_crate push_new push_present contains
find_trait_impl_crate_run = refl

find_trait_impl_crate-Covers_example :
    NoDup (1 ∷ 7 ∷ 2 ∷ [])
    × Memᴰ {A = ℕ} 1 (1 ∷ 7 ∷ 2 ∷ [])
    × Covers crate_of crates (1 ∷ 7 ∷ 2 ∷ []) ImplLocation.internal
unfolding get_sub find_source_crate
find_trait_impl_crate-Covers_example =
    find_trait_impl_crate-Covers crate_of crates (more (type pair_of_word) (more (type word) empty))
      1 (1 ∷ 7 ∷ 2 ∷ []) 1 word ImplLocation.internal find_trait_impl_crate_run refl refl
