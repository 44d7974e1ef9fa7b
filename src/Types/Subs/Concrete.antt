-- ===== src/Types/Subs/Concrete.antt =====
-- src/types/: a concrete type mentions no parameter, and substitution leaves it as it is.
use skitter.Prelude.{◌≡◌, refl, Bool, true, false, Option, some, arith, ◌>>=◌, if◌then◌else◌, ◌&&◌}
use skitter.Types.Kind.{
  ConstGeneric, value, param, unknown, Ty, int, ref, ptr, tuple, array, slice, function_def, adt,
  associated_type, opaque, function_pointer, closure, dynamic_auto, dynamic, Tys, nil, cons, Sub,
  type, lifetime, const, SubList, empty, more,
}
use skitter.Types.Items.{Items}
use skitter.Types.Subs.{
  sub, sub_tys, sub_sub, sub_list, is_concrete, all_concrete, sub_concrete, subs_concrete,
  const_sub, both, const_is_concrete, usize_ty, has_no_fields, is_empty,
}

pub both-true : (a b : Option Bool) → both a b ≡ some true → (a ≡ some true) × (b ≡ some true)
both-true a b h = ground arith

some-true : (b : Bool) → ◌≡◌ {A = Option Bool} (some b) (some true) → b ≡ true
some-true b h = cc

&&-true : (a b : Bool) → (a && b) ≡ true → (a ≡ true) × (b ≡ true)
&&-true a b h = ground arith

-- The shortcut for an empty list gives what the whole way would.
pub shortcut :
    {A : Type 0} (b : Bool) (o : Option A) (f : A → Ty) (a : A)
    → o ≡ some a
    → (if b then some (f a) else (o >>= λ x. some (f x))) ≡ some (f a)
shortcut true o f a h = refl
shortcut false o f a h = rw h

const_concrete :
    (l : SubList) (c : ConstGeneric) (t : Ty)
    → const_is_concrete c ≡ true
    → const_sub l c t ≡ some c
unfolding const_sub
const_concrete l (value v) t h = refl
const_concrete l _ t h = cc

-- No trait object occurs, so the assertions that `sub` makes of one are not met.
unfoldable mutual
  pub no_dyn : Ty → Bool
  no_dyn (dynamic trait l autos is_dyn_star) = false
  no_dyn (dynamic_auto autos is_dyn_star) = false
  no_dyn (ref t m) = no_dyn t
  no_dyn (ptr t m) = no_dyn t
  no_dyn (slice t) = no_dyn t
  no_dyn (array t size) = no_dyn t
  no_dyn (tuple ts) = no_dyn_tys ts
  no_dyn (function_pointer ts t) = no_dyn_tys ts && no_dyn t
  no_dyn (adt item l) = no_dyn_list l
  no_dyn (function_def item l) = no_dyn_list l
  no_dyn (closure c l) = no_dyn_list l
  no_dyn _ = true

  pub no_dyn_tys : Tys → Bool
  no_dyn_tys nil = true
  no_dyn_tys (cons t ts) = no_dyn t && no_dyn_tys ts

  pub no_dyn_sub : Sub → Bool
  no_dyn_sub (type t) = no_dyn t
  no_dyn_sub _ = true

  pub no_dyn_list : SubList → Bool
  no_dyn_list empty = true
  no_dyn_list (more s l) = no_dyn_sub s && no_dyn_list l

module _ (items : Items) (subs : SubList) where
  mutual
    unfolding sub is_concrete no_dyn

    pub sub-concrete :
        (t : Ty) → is_concrete t ≡ some true → no_dyn t ≡ true → sub items subs t ≡ some t
    sub-concrete (int w s) h d = refl
    sub-concrete (tuple ts) h d =
        shortcut (has_no_fields ts) (sub_tys items subs ts) tuple ts (sub_tys-concrete ts h d)
    sub-concrete (ref t m) h d = rw (sub-concrete t h d)
    sub-concrete (ptr t m) h d = rw (sub-concrete t h d)
    sub-concrete (slice t) h d = rw (sub-concrete t h d)
    sub-concrete (array t size) h d =
        let (c, s) = both-true (is_concrete t) (some (const_is_concrete size)) h in
        rw (const_concrete subs size usize_ty (some-true _ s), sub-concrete t c d)
    sub-concrete (function_pointer ts t) h d =
        let (c, s) = both-true (all_concrete ts) (is_concrete t) h in
        let (e, g) = &&-true (no_dyn_tys ts) (no_dyn t) d in
        rw (sub_tys-concrete ts c e, sub-concrete t s g)
    sub-concrete (adt item l) h d =
        shortcut (is_empty l) (sub_list items subs l) (adt item) l (sub_list-concrete l h d)
    sub-concrete (function_def item l) h d =
        shortcut (is_empty l) (sub_list items subs l) (function_def item) l
          (sub_list-concrete l h d)
    sub-concrete (closure c l) h d = rw (sub_list-concrete l h d)
    sub-concrete (dynamic trait l autos s) h d = cc
    sub-concrete (dynamic_auto autos s) h d = cc
    sub-concrete (param n) h d = cc
    sub-concrete unknown h d = cc
    sub-concrete (associated_type item l) h d = cc
    sub-concrete (opaque item l path) h d = cc
    sub-concrete _ h d = refl

    sub_tys-concrete :
        (ts : Tys)
        → all_concrete ts ≡ some true
        → no_dyn_tys ts ≡ true
        → sub_tys items subs ts ≡ some ts
    sub_tys-concrete nil h d = refl
    sub_tys-concrete (cons t ts) h d =
        let (c, s) = both-true (is_concrete t) (all_concrete ts) h in
        let (e, g) = &&-true (no_dyn t) (no_dyn_tys ts) d in
        rw (sub-concrete t c e, sub_tys-concrete ts s g)

    sub_sub-concrete :
        (s : Sub) → sub_concrete s ≡ some true → no_dyn_sub s ≡ true → sub_sub items subs s ≡ some s
    sub_sub-concrete (type t) h d = rw (sub-concrete t h d)
    sub_sub-concrete lifetime h d = refl
    sub_sub-concrete (const t c) h d =
        let (k, s) = both-true (is_concrete t) (some (const_is_concrete c)) h in
        rw (const_concrete subs c t (some-true _ s))

    sub_list-concrete :
        (l : SubList)
        → subs_concrete l ≡ some true
        → no_dyn_list l ≡ true
        → sub_list items subs l ≡ some l
    sub_list-concrete empty h d = refl
    sub_list-concrete (more s l) h d =
        let (c, k) = both-true (sub_concrete s) (subs_concrete l) h in
        let (e, g) = &&-true (no_dyn_sub s) (no_dyn_list l) d in
        rw (sub_sub-concrete s c e, sub_list-concrete l k g)

-- Substitution does not panic on a concrete type without trait objects, whatever the list, and
-- returns the type unchanged.
pub sub_of_concrete :
    (items : Items) (subs : SubList) (t : Ty)
    → is_concrete t ≡ some true
    → no_dyn t ≡ true
    → sub items subs t ≡ some t
sub_of_concrete items subs t h d = sub-concrete items subs t h d
