-- ===== src/Impls/Crates.antt =====
-- src/impls.rs: the crates in which an impl for some types may stand.
pub mod Laws
use skitter.Prelude.{
  ℕ, Bool, false, Option, none, some, List, [], ◌∷◌, ◌++◌, ◌||◌, ◌==◌, if◌then◌else◌,
}
use skitter.Prelude.Run
use skitter.Prelude.Run.{Run, done, panicked}
use skitter.Types.Kind.{
  Ty, int, float, char, bool, ref, ptr, tuple, array, slice, string_slice, function_def, adt,
  function_pointer, closure, dynamic_auto, dynamic, type, lifetime, const, SubList, empty, more,
}

pub data ImplLocation : Type 0 where
  crate : ℕ → ImplLocation
  internal : ImplLocation

-- `core_crate` and `alloc_crate` of the virtual machine; the third is not there yet.
pub record InternalCrates : Type 0 where
  pub core_crate : Option ℕ
  pub alloc_crate : Option ℕ

abbrev pub get_internal_crates : InternalCrates → List (Option ℕ)
get_internal_crates vm = vm.core_crate ∷ vm.alloc_crate ∷ none ∷ []

unfoldable pub contains : List ℕ → ℕ → Bool
contains [] c = false
contains (x ∷ xs) c = (x == c) || contains xs c

-- `if !res.contains(&cid) { res.push(cid); }`
unfoldable pub push_new : List ℕ → ℕ → List ℕ
push_new res c = if contains res c then res else res ++ c ∷ []

unfoldable pub push_present : List (Option ℕ) → List ℕ → List ℕ
push_present [] res = res
push_present (none ∷ list) res = push_present list res
push_present (some c ∷ list) res = push_present list (push_new res c)

unfoldable pub filter_present : List (Option ℕ) → List ℕ
filter_present [] = []
filter_present (none ∷ list) = filter_present list
filter_present (some c ∷ list) = c ∷ filter_present list

-- `crate_of` is the crate of an item.
module _ (crate_of : ℕ → ℕ) (vm : InternalCrates) where
  unfoldable pub find_source_crate : Ty → Run ImplLocation
  find_source_crate (adt item l) = done (crate (crate_of item))
  find_source_crate (function_def item l) = done (crate (crate_of item))
  find_source_crate (dynamic trait l autos star) = done (crate (crate_of trait))
  find_source_crate (dynamic_auto autos star) = panicked
  find_source_crate (ref child m) = find_source_crate child
  find_source_crate bool = done internal
  find_source_crate char = done internal
  find_source_crate (ptr t m) = done internal
  find_source_crate (closure c l) = done internal
  find_source_crate (function_pointer inputs output) = done internal
  find_source_crate (float w) = done internal
  find_source_crate (int w s) = done internal
  find_source_crate (tuple fields) = done internal
  find_source_crate string_slice = done internal
  find_source_crate (slice t) = done internal
  find_source_crate (array t size) = done internal
  find_source_crate _ = panicked

  abbrev pub add_location : List ℕ → ImplLocation → List ℕ
  add_location res (crate c) = push_new res c
  add_location res internal = push_present (get_internal_crates vm) res

  unfoldable pub add_crates : SubList → List ℕ → Run (List ℕ)
  add_crates empty res = done res
  add_crates (more (type ty) l) res =
      Run.◌>>=◌ (find_source_crate ty) (λ loc. add_crates l (add_location res loc))
  add_crates (more lifetime l) res = add_crates l res
  add_crates (more (const ty c) l) res = add_crates l res

  unfoldable pub find_trait_impl_crate : SubList → ℕ → Run (List ℕ)
  find_trait_impl_crate for_tys trait_crate = add_crates for_tys (trait_crate ∷ [])

  unfoldable pub find_inherent_impl_crate : Ty → Run (List ℕ)
  find_inherent_impl_crate ty = Run.◌>>=◌ (find_source_crate ty) (λ loc. done (candidates loc))
    where
      candidates : ImplLocation → List ℕ
      candidates (crate c) = c ∷ []
      candidates internal = filter_present (get_internal_crates vm)
