-- ===== src/Impls/Completeness/Steps.antt =====
-- Steps of `match_types` of src/impls.rs that stay below a substitution: the comparison of concrete
-- types, constants, and one match after another.
use mathlib.Core.Path.{subst}
use mathlib.Core.Logic.{ite}
use skitter.Prelude.{
  some-eq, ℕ, ◌≡◌, refl, ap, ◌∙◌, Bool, true, false, Option, some, >>=-eq-some, ◌==◌, if◌then◌else◌,
}
use skitter.Prelude.Run.{done, panicked}
use skitter.Types.Kind.{
  Mutability, ConstGeneric, value, param, Ty, int, float, char, bool, ref, ptr, tuple, array, slice,
  string_slice, adt, Tys, nil, cons, Sub, type, lifetime, const, SubList, empty, more, Ty-discrete,
}
use skitter.Types.Items.{Items}
use skitter.Types.Subs.{
  sub, sub_tys, sub_list, is_concrete, all_concrete, sub_concrete, subs_concrete, const_sub,
  get_sub, assert_const, both, const_is_concrete,
}
use skitter.Types.Subs.Compose.Steps.{assert_const-some}
use skitter.Impls.SubMap.{Matched, ConstGeneric-discrete}
use skitter.Impls.SubMap.Below.{Below}
use skitter.Impls.SubMap.Entries.{Stays, set_param_const-Stays}
use skitter.Impls.Matching.{match_const, same_length, shortcut, and_then, same_mutability}
use skitter.Impls.Patterns.{
  sub_count, is_size, is_const_ty, is_pattern, are_patterns, sub_pattern, list_pattern, &&-true,
}

-- Whether a pattern is concrete is decided without a panic.
abbrev Decided : Option Bool → Type 0
Decided o = (b : Bool) × (o ≡ some b)

both-Decided : (a b : Option Bool) → Decided a → Decided b → Decided (both a b)
both-Decided a b (x, e) (y, f) = rw (e, f) (if_decided x y)
  where
    if_decided : (c d : Bool) → Decided (if c then some d else some false)
    if_decided true d = (d, refl)
    if_decided false d = (false, refl)

pub const_ty-concrete : (t : Ty) → is_const_ty t ≡ true → is_concrete t ≡ some true
unfolding is_const_ty is_concrete
const_ty-concrete (int w s) h = refl
const_ty-concrete bool h = refl
const_ty-concrete char h = refl
const_ty-concrete _ h = cc

module _ (arity : ℕ → ℕ) where
  mutual
    unfolding is_pattern is_concrete

    pub pattern-Decided : (t : Ty) → is_pattern arity t ≡ true → Decided (is_concrete t)
    pattern-Decided (ref t m) h = pattern-Decided t h
    pattern-Decided (ptr t m) h = pattern-Decided t h
    pattern-Decided (slice t) h = pattern-Decided t h
    pattern-Decided (array t size) h =
        both-Decided (is_concrete t) (some (const_is_concrete size))
          (pattern-Decided t (&&-true (is_pattern arity t) (is_size size) h).0)
          (const_is_concrete size, refl)
    pattern-Decided (tuple ts) h = patterns-Decided ts h
    pattern-Decided (adt item l) h =
        list-Decided l (&&-true (sub_count l == arity item) (list_pattern arity l) h).1
    pattern-Decided (int w s) h = (true, refl)
    pattern-Decided (float w) h = (true, refl)
    pattern-Decided bool h = (true, refl)
    pattern-Decided char h = (true, refl)
    pattern-Decided string_slice h = (true, refl)
    pattern-Decided (param n) h = (false, refl)
    pattern-Decided _ h = cc

    patterns-Decided : (ts : Tys) → are_patterns arity ts ≡ true → Decided (all_concrete ts)
    patterns-Decided nil h = (true, refl)
    patterns-Decided (cons t ts) h =
        let (a, b) = &&-true (is_pattern arity t) (are_patterns arity ts) h in
        both-Decided (is_concrete t) (all_concrete ts) (pattern-Decided t a) (patterns-Decided ts b)

    sub-Decided : (s : Sub) → sub_pattern arity s ≡ true → Decided (sub_concrete s)
    sub-Decided (type t) h = pattern-Decided t h
    sub-Decided lifetime h = (true, refl)
    sub-Decided (const t c) h =
        both-Decided (is_concrete t) (some (const_is_concrete c))
          (true, const_ty-concrete t (&&-true (is_const_ty t) (is_size c) h).0)
          (const_is_concrete c, refl)

    list-Decided : (l : SubList) → list_pattern arity l ≡ true → Decided (subs_concrete l)
    list-Decided empty h = (true, refl)
    list-Decided (more s l) h =
        let (a, b) = &&-true (sub_pattern arity s) (list_pattern arity l) h in
        both-Decided (sub_concrete s) (subs_concrete l) (sub-Decided s a) (list-Decided l b)

pub shortcut-Stays :
    (lhs rhs : Ty) (m upper : SubList) (rest : Matched)
    → Decided (is_concrete lhs)
    → Below m upper
    → Stays rest upper
    → Stays (shortcut lhs rhs m rest) upper
unfolding shortcut
shortcut-Stays lhs rhs m upper rest (c, e) b s = rw e (by c (Ty-discrete lhs rhs))
  where
    by :
        (d : Bool) (f : Dec (lhs ≡ rhs))
        → Stays (if d then ite f (done (true, m)) rest else rest) upper
    by false f = s
    by true (yes f) = (m, refl, b)
    by true (no f) = s

-- A concrete type is compared as a whole.
pub shortcut_leaf :
    (t rhs : Ty) (m upper : SubList) (rest : Matched)
    → is_concrete t ≡ some true
    → t ≡ rhs
    → Below m upper
    → Stays (shortcut t rhs m rest) upper
unfolding shortcut
shortcut_leaf t rhs m upper rest c e b = rw c (by (Ty-discrete t rhs))
  where
    by : (f : Dec (t ≡ rhs)) → Stays (ite f (done (true, m)) rest) upper
    by (yes f) = (m, refl, b)
    by (no f) = absurd (f e)

pub and_then-Stays :
    (a : Matched) (k : SubList → Matched) (upper : SubList)
    → Stays a upper
    → ((m : SubList) → Below m upper → Stays (k m) upper)
    → Stays (and_then a k) upper
unfolding and_then
and_then-Stays a k upper (m, e, b) f = rw e (f m b)

pub match_const-Stays :
    (c d : ConstGeneric) (t : Ty) (m upper : SubList)
    → is_size c ≡ true
    → const_sub upper c t ≡ some d
    → Below m upper
    → Stays (match_const c d t m) upper
unfolding match_const is_size const_sub
match_const-Stays (value v) d t m upper s e b = by (ConstGeneric-discrete (value v) d)
  where
    by : (f : Dec (value v ≡ d)) → Stays (ite f (done (true, m)) panicked) upper
    by (yes f) = (m, refl, b)
    by (no f) = absurd (f (some-eq e))
match_const-Stays (param n) d t m upper s e b =
    let (r, g, f) = >>=-eq-some (get_sub upper n) (assert_const t) e in
    set_param_const-Stays n d t m upper b (g ∙ ap some (assert_const-some t r d f))
match_const-Stays _ d t m upper s e b = cc

pub same_mutability_self : (k : Mutability) → same_mutability k k ≡ true
same_mutability_self Mutability.mut = refl
same_mutability_self Mutability.const = refl

pub same_length-sub_tys :
    (items : Items) (u : SubList) (ts us : Tys)
    → sub_tys items u ts ≡ some us
    → same_length ts us ≡ true
unfolding sub_tys same_length
same_length-sub_tys items u nil us e =
    let q : nil ≡ us = cc in subst (λ x. same_length nil x ≡ true) q refl
same_length-sub_tys items u (cons t ts) us e =
    let (r, f, g) = >>=-eq-some (sub items u t) _ e in
    let (rs, h, i) = >>=-eq-some (sub_tys items u ts) _ g in
    let q : cons r rs ≡ us = some-eq i in
    subst (λ x. same_length (cons t ts) x ≡ true) q (same_length-sub_tys items u ts rs h)

module _ (items : Items) (u : SubList) where
  pub sub-adt_shape :
      (item : ℕ) (l : SubList) (rhs : Ty)
      → sub items u (adt item l) ≡ some rhs
      → (k : SubList) × (sub_list items u l ≡ some k) × (adt item k ≡ rhs)
  unfolding sub sub_list
  sub-adt_shape item empty rhs e = (empty, refl, some-eq e)
  sub-adt_shape item (more s l) rhs e =
      let (k, f, g) = >>=-eq-some (sub_list items u (more s l)) (λ l'. some (adt item l')) e in
      (k, f, some-eq g)

  pub sub-tuple_shape :
      (ts : Tys) (rhs : Ty)
      → sub items u (tuple ts) ≡ some rhs
      → (us : Tys) × (sub_tys items u ts ≡ some us) × (tuple us ≡ rhs)
  unfolding sub sub_tys
  sub-tuple_shape nil rhs e = (nil, refl, some-eq e)
  sub-tuple_shape (cons t ts) rhs e =
      let (k, f, g) = >>=-eq-some (sub_tys items u (cons t ts)) (λ l'. some (tuple l')) e in
      (k, f, some-eq g)
