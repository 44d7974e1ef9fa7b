-- ===== src/Impls/Bounds.antt =====
-- src/impls.rs: `ImplBounds`, the types an impl is for and the bounds it comes with. Whether a trait
-- has an impl for some types goes through all crates and back to here, and is an argument.
pub mod Laws
use skitter.Prelude.{ℕ, zero, suc, Bool, Option, none, some, List, [], ◌∷◌, ltb, if◌then◌else◌}
use skitter.Prelude.Run
use skitter.Prelude.Run.{Run, done, panicked, or_panic}
use skitter.Types.Kind.{Ty, SubList, empty, more}
use skitter.Types.Items.{Items}
use skitter.Types.Subs.{sub_list, assert_ty}
use skitter.Impls.SubMap.{Matched, GenericCounts, from_summary}
use skitter.Impls.Matching.{match_types, match_subs}
use skitter.Impls.Patterns.{sub_count}

pub data BoundKind : Type 0 where
  trait : ℕ → SubList → BoundKind
  projection : ℕ → SubList → Ty → BoundKind

pub record ImplBounds : Type 0 where
  pub for_tys : SubList
  pub bounds : List BoundKind
  pub generic_counts : GenericCounts

unfoldable pub append_subs : SubList → SubList → SubList
append_subs empty k = k
append_subs (more s l) k = more s (append_subs l k)

unfoldable pub drop_subs : ℕ → SubList → SubList
drop_subs zero l = l
drop_subs (suc n) empty = empty
drop_subs (suc n) (more s l) = drop_subs n l

-- What a projection bound does after the match of its type.
abbrev pub or_unmatched : {A : Type 0} → Matched → (SubList → Run A) → Run A
or_unmatched r k = Run.◌>>=◌ r (λ (x : Bool × SubList). if x.0 then k x.1 else panicked)

-- The arguments that the impl does not have are handed on.
unfoldable pub hand_on : ImplBounds → SubList → SubList → SubList
hand_on impl for_tys m =
    let start = sub_count impl.for_tys in
    if ltb start (sub_count for_tys) then append_subs m (drop_subs start for_tys) else m

abbrev pub first_ty : SubList → Option Ty
first_ty empty = none
first_ty (more s l) = assert_ty s

module _ (items : Items) (trait_has_impl : ℕ → SubList → Run Bool) (fuel : ℕ) where
  unfoldable pub check_bounds : List BoundKind → SubList → Run (Option SubList)
  check_bounds [] m = done (some m)
  check_bounds (BoundKind.trait item subs ∷ bounds) m =
      let rest = check_bounds bounds m in
      Run.◌>>=◌ (or_panic (sub_list items m subs)) (λ types_to_check.
        Run.◌>>=◌ (trait_has_impl item types_to_check)
          (λ has_impl. if has_impl then rest else done none))
  check_bounds (BoundKind.projection item subs eq_ty ∷ bounds) m =
      Run.◌>>=◌ (or_panic (sub_list items m subs)) (λ types_to_check.
        Run.◌>>=◌ (or_panic (items.resolve_associated_ty item types_to_check)) (λ resolved_assoc_ty.
          or_unmatched (match_types items fuel eq_ty resolved_assoc_ty m) (check_bounds bounds)))

  unfoldable pub check : ImplBounds → SubList → Run (Option SubList)
  check impl for_tys =
      Run.◌>>=◌ (match_subs items fuel impl.for_tys for_tys (from_summary impl.generic_counts))
        (λ (r : Bool × SubList).
          if r.0 then check_bounds impl.bounds (hand_on impl for_tys r.1) else done none)

  unfoldable pub check_inherent : ImplBounds → Ty → Run Bool
  check_inherent impl ty = Run.◌>>=◌ (or_panic (first_ty impl.for_tys)) (λ check_ty.
      Run.◌>>=◌ (match_types items fuel ty check_ty (from_summary impl.generic_counts))
        (λ (r : Bool × SubList). done r.0))
