-- ===== src/Impls/Matching.antt =====
-- src/impls.rs: `match_subs`, `match_types` and `match_const`. A panic, also that of `is_concrete`, is
-- `panicked`. Matching goes into the arguments of a type, and on after an associated type is
-- resolved: how it goes on is an argument of `matching`, and `match_types` runs on fuel, one for each
-- type resolved.
use skitter.Prelude.{ℕ, zero, suc, Bool, true, false, not, ◌||◌, ◌==◌, if◌then◌else◌}
use mathlib.Core.Logic.{ite}
use skitter.Prelude.Run
use skitter.Prelude.Run.{Run, done, panicked, exhausted, or_panic}
use skitter.Types.Kind.{
  Mutability, ConstGeneric, value, param, error, unknown, Ty, int, float, char, bool, never, ref,
  ptr, tuple, array, slice, string_slice, adt, associated_type, dynamic_auto, dynamic, Tys, nil,
  cons, Sub, type, lifetime, const, SubList, more, Ty-discrete,
}
use skitter.Types.Items.{Items}
use skitter.Types.Subs.{is_concrete, sub_list, usize_ty}
use skitter.Impls.SubMap.{Matched, ConstGeneric-discrete, set_param, set_param_const}

abbrev pub same_mutability : Mutability → Mutability → Bool
same_mutability Mutability.mut Mutability.mut = true
same_mutability Mutability.const Mutability.const = true
same_mutability _ _ = false

abbrev pub same_bool : Bool → Bool → Bool
same_bool true b = b
same_bool false b = not b

-- The kinds that match nothing but themselves, on either side.
unfoldable pub is_listed : Ty → Bool
is_listed (adt item l) = true
is_listed (ptr t m) = true
is_listed (ref t m) = true
is_listed (slice t) = true
is_listed bool = true
is_listed char = true
is_listed string_slice = true
is_listed never = true
is_listed (int w s) = true
is_listed (float w) = true
is_listed _ = false

-- What is left where the kinds differ; the argument is whether the left one is listed.
unfoldable pub mismatch : Bool → Ty → SubList → Matched
mismatch listed (param n) m = panicked
mismatch listed (associated_type item l) m = panicked
mismatch listed rhs m = if listed || is_listed rhs then done (false, m) else panicked

-- `lhs.is_concrete() && lhs == rhs`
unfoldable pub shortcut : Ty → Ty → SubList → Matched → Matched
unfolding Ty-discrete
shortcut lhs rhs m rest =
    Run.◌>>=◌ (or_panic (is_concrete lhs))
      (λ concrete. if concrete then ite (Ty-discrete lhs rhs) (done (true, m)) rest else rest)

-- `match_const`
unfoldable pub match_const : ConstGeneric → ConstGeneric → Ty → SubList → Matched
unfolding ConstGeneric-discrete
match_const (param n) rhs ty m = set_param_const n rhs ty m
match_const (value v) rhs ty m = ite (ConstGeneric-discrete (value v) rhs) (done (true, m)) panicked
match_const error rhs ty m = panicked
match_const unknown rhs ty m = panicked

-- `a && b`, and one step of a loop that returns at the first mismatch.
unfoldable pub and_then : Matched → (SubList → Matched) → Matched
and_then a b = Run.◌>>=◌ a (λ (r : Bool × SubList). if r.0 then b r.1 else done (false, r.1))

-- The arms of the match, by the left side; what the arm does with the arguments is `go`.
unfoldable pub adt_arm : ℕ → Ty → (SubList → SubList → Matched) → SubList → Matched
adt_arm item (adt rhs_item l) go m = if item == rhs_item then go l m else done (false, m)
adt_arm item rhs go m = mismatch true rhs m

unfoldable pub ptr_arm : Mutability → Ty → (Ty → SubList → Matched) → SubList → Matched
ptr_arm k (ptr t rhs_k) go m = if same_mutability k rhs_k then go t m else done (false, m)
ptr_arm k rhs go m = mismatch true rhs m

unfoldable pub ref_arm : Mutability → Ty → (Ty → SubList → Matched) → SubList → Matched
ref_arm k (ref t rhs_k) go m = if same_mutability k rhs_k then go t m else done (false, m)
ref_arm k rhs go m = mismatch true rhs m

unfoldable pub slice_arm : Ty → (Ty → SubList → Matched) → SubList → Matched
slice_arm (slice t) go m = go t m
slice_arm rhs go m = mismatch true rhs m

unfoldable pub same_length : Tys → Tys → Bool
same_length nil nil = true
same_length (cons t ts) (cons u us) = same_length ts us
same_length _ _ = false

unfoldable pub tuple_arm : Tys → Ty → (Tys → SubList → Matched) → SubList → Matched
tuple_arm ts (tuple us) go m = if same_length ts us then go us m else done (false, m)
tuple_arm ts rhs go m = mismatch false rhs m

unfoldable pub array_arm : ConstGeneric → Ty → (Ty → SubList → Matched) → SubList → Matched
array_arm size (array t rhs_size) go m =
    and_then (go t m) (λ m'. match_const size rhs_size usize_ty m')
array_arm size rhs go m = mismatch false rhs m

unfoldable pub dynamic_arm : ℕ → ℕ → Bool → Ty → (SubList → SubList → Matched) → SubList → Matched
dynamic_arm trait autos star (dynamic rhs_trait l rhs_autos rhs_star) go m =
    if autos == rhs_autos
    then if same_bool star rhs_star
      then if trait == rhs_trait then go l m else done (false, m)
      else done (false, m)
    else done (false, m)
dynamic_arm trait autos star (dynamic_auto rhs_autos rhs_star) go m = done (false, m)
dynamic_arm trait autos star rhs go m = mismatch false rhs m

unfoldable pub dynamic_auto_arm : ℕ → Bool → Ty → SubList → Matched
dynamic_auto_arm autos star (dynamic_auto rhs_autos rhs_star) m =
    done ((if autos == rhs_autos then same_bool star rhs_star else false), m)
dynamic_auto_arm autos star (dynamic rhs_trait l rhs_autos rhs_star) m = done (false, m)
dynamic_auto_arm autos star rhs m = mismatch false rhs m

-- The arm for a parameter on the right comes before the one for an associated type.
unfoldable pub associated_arm : Ty → Matched → Matched
associated_arm (param n) rest = panicked
associated_arm rhs rest = rest

-- A pair of constants: their types must be equal and concrete.
unfoldable pub const_pair : Ty → ConstGeneric → Ty → ConstGeneric → SubList → Matched
unfolding Ty-discrete
const_pair lhs_ty lhs_const rhs_ty rhs_const m =
    Run.◌>>=◌ (or_panic (is_concrete lhs_ty)) (λ concrete.
      if concrete
      then ite (Ty-discrete lhs_ty rhs_ty) (match_const lhs_const rhs_const lhs_ty m) panicked
      else panicked)

module _ (items : Items) (again : Ty → Ty → SubList → Matched) where
  unfoldable mutual
    pub matching : Ty → Ty → SubList → Matched
    matching (adt item l) rhs m = shortcut (adt item l) rhs m (adt_arm item rhs (matching_subs l) m)
    matching (ptr t k) rhs m = shortcut (ptr t k) rhs m (ptr_arm k rhs (matching t) m)
    matching (ref t k) rhs m = shortcut (ref t k) rhs m (ref_arm k rhs (matching t) m)
    matching (slice t) rhs m = shortcut (slice t) rhs m (slice_arm rhs (matching t) m)
    matching (tuple ts) rhs m = shortcut (tuple ts) rhs m (tuple_arm ts rhs (matching_tys ts) m)
    matching (array t size) rhs m =
        shortcut (array t size) rhs m (array_arm size rhs (matching t) m)
    matching (dynamic trait l autos star) rhs m =
        shortcut (dynamic trait l autos star) rhs m
          (dynamic_arm trait autos star rhs (matching_subs l) m)
    matching (dynamic_auto autos star) rhs m =
        shortcut (dynamic_auto autos star) rhs m (dynamic_auto_arm autos star rhs m)
    matching (param n) rhs m = set_param n rhs m
    matching (associated_type item l) rhs m = associated_arm rhs (
        Run.◌>>=◌ (or_panic (sub_list items m l)) (λ for_tys.
          Run.◌>>=◌ (or_panic (items.resolve_associated_ty item for_tys)) (λ at. again at rhs m)))
    matching lhs rhs m = shortcut lhs rhs m (mismatch (is_listed lhs) rhs m)

    pub matching_tys : Tys → Tys → SubList → Matched
    matching_tys (cons t ts) (cons u us) m = and_then (matching t u m) (matching_tys ts us)
    matching_tys _ _ m = done (true, m)

    -- The pairs of two lists, as far as the shorter one goes.
    pub matching_subs : SubList → SubList → SubList → Matched
    matching_subs (more s l) (more r k) m = and_then (matching_pair s r m) (matching_subs l k)
    matching_subs _ _ m = done (true, m)

    pub matching_pair : Sub → Sub → SubList → Matched
    matching_pair (type t) (type u) m = matching t u m
    matching_pair (const t c) (const u d) m = const_pair t c u d m
    matching_pair lifetime lifetime m = done (true, m)
    matching_pair s r m = done (false, m)

module _ (items : Items) where
  -- Fuel for each associated type that is resolved on the way.
  unfoldable pub match_types : ℕ → Ty → Ty → SubList → Matched
  match_types zero lhs rhs m = exhausted
  match_types (suc fuel) lhs rhs m = matching items (match_types fuel) lhs rhs m

  unfoldable pub match_subs : ℕ → SubList → SubList → SubList → Matched
  match_subs fuel lhs rhs m = matching_subs items (match_types fuel) lhs rhs m
