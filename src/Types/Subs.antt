-- ===== src/Types/Subs.antt =====
-- src/types/subs.rs and `Type::sub`, `Type::is_concrete` of src/types/types.rs: substitution of
-- generic parameters. A panic is `none`.
pub mod Compose
pub mod Concrete
mod Runs
use skitter.Prelude.{
  ℕ, zero, suc, ◌+◌, Bool, true, false, not, Option, none, some, ◌==◌, ◌>>=◌, ◌>>◌, assert,
  if◌then◌else◌,
}
use mathlib.Core.Logic.{ite}
use skitter.Types.Kind.{
  IntSign, IntWidth, ConstGeneric, value, param, error, unknown, Ty, int, float, char, bool, never,
  ref, ptr, tuple, array, slice, string_slice, function_def, adt, associated_type, foreign, opaque,
  function_pointer, closure, dynamic_auto, dynamic, Tys, nil, cons, Sub, type, lifetime, const,
  SubList, empty, more, Ty-discrete,
}
use skitter.Types.Items.{Items}

-- `common_types().usize`
abbrev pub usize_ty : Ty
usize_ty = int IntWidth.isize IntSign.unsigned

unfoldable pub get_sub : SubList → ℕ → Option Sub
get_sub empty n = none
get_sub (more s l) zero = some s
get_sub (more s l) (suc n) = get_sub l n

unfoldable pub assert_ty : Sub → Option Ty
assert_ty (type t) = some t
assert_ty lifetime = none
assert_ty (const t c) = none

unfoldable pub assert_const : Ty → Sub → Option ConstGeneric
unfolding Ty-discrete
assert_const expect_ty (const t c) = ite (Ty-discrete t expect_ty) (some c) none
assert_const expect_ty (type t) = none
assert_const expect_ty lifetime = none

unfoldable pub const_sub : SubList → ConstGeneric → Ty → Option ConstGeneric
const_sub subs (param n) expect_ty = get_sub subs n >>= assert_const expect_ty
const_sub subs (value v) expect_ty = some (value v)
const_sub subs error expect_ty = some error
const_sub subs unknown expect_ty = some unknown

abbrev pub is_empty : SubList → Bool
is_empty empty = true
is_empty (more s l) = false

abbrev pub has_no_fields : Tys → Bool
has_no_fields nil = true
has_no_fields (cons t ts) = false

module _ (items : Items) (subs : SubList) where
  unfoldable mutual
    pub sub : Ty → Option Ty
    sub (param n) = get_sub subs n >>= assert_ty
    sub (ref t m) = sub t >>= λ t'. some (ref t' m)
    sub (ptr t m) = sub t >>= λ t'. some (ptr t' m)
    sub (tuple fields) =
        let new_fields = sub_tys fields in
        if has_no_fields fields then some (tuple fields) else (new_fields >>= λ ts. some (tuple ts))
    sub (array t size) =
        const_sub subs size usize_ty >>= λ size'. sub t >>= λ t'. some (array t' size')
    sub (slice t) = sub t >>= λ t'. some (slice t')
    sub (adt item l) =
        let new_subs = sub_list l in
        if is_empty l then some (adt item l) else (new_subs >>= λ l'. some (adt item l'))
    sub (function_def item l) =
        let new_subs = sub_list l in
        if is_empty l
        then some (function_def item l)
        else (new_subs >>= λ l'. some (function_def item l'))
    sub (associated_type item l) = sub_list l >>= items.resolve_associated_ty item
    sub (closure c l) = sub_list l >>= λ l'. some (closure c l')
    sub (function_pointer inputs output) =
        sub_tys inputs >>= λ ts. sub output >>= λ t. some (function_pointer ts t)
    sub (dynamic trait l autos is_dyn_star) =
        assert (not is_dyn_star)
        >> (assert (is_empty l) >> some (dynamic trait l autos is_dyn_star))
    sub (dynamic_auto autos is_dyn_star) = none
    sub (opaque item l path) = sub_list l >>= λ l'. items.resolve_opaque item l' path
    sub never = some never
    sub (int w s) = some (int w s)
    sub (float w) = some (float w)
    sub bool = some bool
    sub string_slice = some string_slice
    sub (foreign c path) = some (foreign c path)
    sub char = some char
    sub unknown = none

    pub sub_tys : Tys → Option Tys
    sub_tys nil = some nil
    sub_tys (cons t ts) = sub t >>= λ t'. sub_tys ts >>= λ ts'. some (cons t' ts')

    pub sub_sub : Sub → Option Sub
    sub_sub (type t) = sub t >>= λ t'. some (type t')
    sub_sub (const t c) = const_sub subs c t >>= λ c'. some (const t c')
    sub_sub lifetime = some lifetime

    pub sub_list : SubList → Option SubList
    sub_list empty = some empty
    sub_list (more s l) = sub_sub s >>= λ s'. sub_list l >>= λ l'. some (more s' l')

abbrev pub const_is_concrete : ConstGeneric → Bool
const_is_concrete (value v) = true
const_is_concrete _ = false

-- `&&` and `all` stop at the first `false`.
abbrev pub both : Option Bool → Option Bool → Option Bool
both a b = a >>= λ x. if x then b else some false

unfoldable mutual
  pub is_concrete : Ty → Option Bool
  is_concrete (int w s) = some true
  is_concrete (float w) = some true
  is_concrete bool = some true
  is_concrete char = some true
  is_concrete string_slice = some true
  is_concrete (tuple ts) = all_concrete ts
  is_concrete (adt item l) = subs_concrete l
  is_concrete (function_def item l) = subs_concrete l
  is_concrete (closure c l) = subs_concrete l
  is_concrete (dynamic trait l autos is_dyn_star) = subs_concrete l
  is_concrete (dynamic_auto autos is_dyn_star) = some true
  is_concrete (ref t m) = is_concrete t
  is_concrete (ptr t m) = is_concrete t
  is_concrete (slice t) = is_concrete t
  is_concrete (function_pointer inputs output) = both (all_concrete inputs) (is_concrete output)
  is_concrete (array t size) = both (is_concrete t) (some (const_is_concrete size))
  is_concrete (param n) = some false
  is_concrete unknown = some false
  is_concrete (associated_type item l) = some false
  is_concrete never = none
  is_concrete (foreign c path) = none
  is_concrete (opaque item l path) = none

  pub all_concrete : Tys → Option Bool
  all_concrete nil = some true
  all_concrete (cons t ts) = both (is_concrete t) (all_concrete ts)

  pub sub_concrete : Sub → Option Bool
  sub_concrete (type t) = is_concrete t
  sub_concrete lifetime = some true
  sub_concrete (const t c) = both (is_concrete t) (some (const_is_concrete c))

  pub subs_concrete : SubList → Option Bool
  subs_concrete empty = some true
  subs_concrete (more s l) = both (sub_concrete s) (subs_concrete l)

-- `SubList::is_identity`, from index `i` on. A type or constant that is no parameter panics.
abbrev is_index : ℕ → Sub → Option Bool
is_index i (type (param p)) = some (p == i)
is_index i (const t (param p)) = some (p == i)
is_index i lifetime = some true
is_index i _ = none

unfoldable pub is_identity_from : ℕ → SubList → Option Bool
is_identity_from i empty = some true
is_identity_from i (more s l) =
    let rest = is_identity_from (i + 1) l in is_index i s >>= λ b. if b then rest else some false

abbrev pub is_identity : SubList → Option Bool
is_identity = is_identity_from 0
