-- ===== src/Impls/Patterns.antt =====
-- The types that an impl of src/impls.rs is written for: those that `match_types` takes apart. They
-- hold no trait object, function, closure, or type that is still to be resolved.
use skitter.Prelude.{ℕ, suc, ◌≡◌, refl, Bool, true, false, ◌&&◌, ◌==◌, arith}
use skitter.Types.Kind.{
  ConstGeneric, value, param, Ty, int, float, char, bool, ref, ptr, tuple, array, slice,
  string_slice, adt, Tys, nil, cons, Sub, type, lifetime, const, SubList, empty, more,
}
use skitter.Types.Subs.Concrete.{no_dyn, no_dyn_tys, no_dyn_sub, no_dyn_list}

unfoldable pub sub_count : SubList → ℕ
sub_count empty = 0
sub_count (more s l) = suc (sub_count l)

-- A constant of an impl is a number or a parameter, of a primitive type.
unfoldable pub is_size : ConstGeneric → Bool
is_size (value v) = true
is_size (param n) = true
is_size _ = false

unfoldable pub is_const_ty : Ty → Bool
is_const_ty (int w s) = true
is_const_ty bool = true
is_const_ty char = true
is_const_ty _ = false

pub &&-true : (a b : Bool) → (a && b) ≡ true → (a ≡ true) × (b ≡ true)
&&-true a b h = ground arith

module _ (arity : ℕ → ℕ) where
  unfoldable mutual
    pub is_pattern : Ty → Bool
    is_pattern (int w s) = true
    is_pattern (float w) = true
    is_pattern bool = true
    is_pattern char = true
    is_pattern string_slice = true
    is_pattern (param n) = true
    is_pattern (ref t m) = is_pattern t
    is_pattern (ptr t m) = is_pattern t
    is_pattern (slice t) = is_pattern t
    is_pattern (array t size) = is_pattern t && is_size size
    is_pattern (tuple ts) = are_patterns ts
    is_pattern (adt item l) = (sub_count l == arity item) && list_pattern l
    is_pattern _ = false

    pub are_patterns : Tys → Bool
    are_patterns nil = true
    are_patterns (cons t ts) = is_pattern t && are_patterns ts

    pub sub_pattern : Sub → Bool
    sub_pattern (type t) = is_pattern t
    sub_pattern lifetime = true
    sub_pattern (const t c) = is_const_ty t && is_size c

    pub list_pattern : SubList → Bool
    list_pattern empty = true
    list_pattern (more s l) = sub_pattern s && list_pattern l

  -- Each item has as many arguments as it takes.
  unfoldable mutual
    pub has_arities : Ty → Bool
    has_arities (ref t m) = has_arities t
    has_arities (ptr t m) = has_arities t
    has_arities (slice t) = has_arities t
    has_arities (array t size) = has_arities t
    has_arities (tuple ts) = tys_arities ts
    has_arities (adt item l) = (sub_count l == arity item) && list_arities l
    has_arities _ = true

    pub tys_arities : Tys → Bool
    tys_arities nil = true
    tys_arities (cons t ts) = has_arities t && tys_arities ts

    pub sub_arities : Sub → Bool
    sub_arities (type t) = has_arities t
    sub_arities _ = true

    pub list_arities : SubList → Bool
    list_arities empty = true
    list_arities (more s l) = sub_arities s && list_arities l

  mutual
    unfolding is_pattern no_dyn

    pub is_pattern-no_dyn : (t : Ty) → is_pattern t ≡ true → no_dyn t ≡ true
    is_pattern-no_dyn (ref t m) h = is_pattern-no_dyn t h
    is_pattern-no_dyn (ptr t m) h = is_pattern-no_dyn t h
    is_pattern-no_dyn (slice t) h = is_pattern-no_dyn t h
    is_pattern-no_dyn (array t size) h =
        is_pattern-no_dyn t (&&-true (is_pattern t) (is_size size) h).0
    is_pattern-no_dyn (tuple ts) h = are_patterns-no_dyn ts h
    is_pattern-no_dyn (adt item l) h =
        list_pattern-no_dyn l (&&-true (sub_count l == arity item) (list_pattern l) h).1
    is_pattern-no_dyn (int w s) h = refl
    is_pattern-no_dyn (float w) h = refl
    is_pattern-no_dyn bool h = refl
    is_pattern-no_dyn char h = refl
    is_pattern-no_dyn string_slice h = refl
    is_pattern-no_dyn (param n) h = refl
    is_pattern-no_dyn _ h = cc

    are_patterns-no_dyn : (ts : Tys) → are_patterns ts ≡ true → no_dyn_tys ts ≡ true
    are_patterns-no_dyn nil h = refl
    are_patterns-no_dyn (cons t ts) h =
        let (a, b) = &&-true (is_pattern t) (are_patterns ts) h in
        rw (is_pattern-no_dyn t a, are_patterns-no_dyn ts b) refl

    sub_pattern-no_dyn : (s : Sub) → sub_pattern s ≡ true → no_dyn_sub s ≡ true
    sub_pattern-no_dyn (type t) h = is_pattern-no_dyn t h
    sub_pattern-no_dyn lifetime h = refl
    sub_pattern-no_dyn (const t c) h = refl

    list_pattern-no_dyn : (l : SubList) → list_pattern l ≡ true → no_dyn_list l ≡ true
    list_pattern-no_dyn empty h = refl
    list_pattern-no_dyn (more s l) h =
        let (a, b) = &&-true (sub_pattern s) (list_pattern l) h in
        rw (sub_pattern-no_dyn s a, list_pattern-no_dyn l b) refl
