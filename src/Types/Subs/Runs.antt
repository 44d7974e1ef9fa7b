-- ===== src/Types/Subs/Runs.antt =====
-- src/types/subs.rs on a generic pair, and the theorems at concrete inputs.
use skitter.Prelude.{◌≡◌, refl, sym, ap, ◌∙◌, Option, none, some, some-eq}
use skitter.Types.Kind.{
  Ty, SubList, tuple, adt, param, associated_type, opaque, lifetime, const, type, nil, cons, more,
  empty,
}
use skitter.Types.Items.{Items}
use mathlib.Core.Path.{subst}
use skitter.Types.Subs.Compose.Steps.{shape, shape₂}
use skitter.Types.Subs.{sub, sub_sub, sub_list, get_sub, assert_ty, is_concrete}
use skitter.Types.Subs.Compose.{ResolutionCommutes, sub-sub}
use skitter.Types.Subs.Concrete.{no_dyn, sub_of_concrete}
use skitter.Types.Samples.{pairs, pair_of_word, word}

sub_of_concrete_example : sub pairs empty pair_of_word ≡ some pair_of_word
unfolding is_concrete no_dyn
sub_of_concrete_example = sub_of_concrete pairs empty pair_of_word refl refl

-- The associated type of any item is the first argument, and the opaque type of any is i32, as long as
-- there are arguments.
abbrev first_argument : SubList → Option Ty
first_argument empty = none
first_argument (more s l) = assert_ty s

abbrev word_if_any : SubList → Option Ty
word_if_any empty = none
word_if_any (more s l) = some word

abbrev resolving : Items
resolving = record pairs {
  resolve_associated_ty = λ item l. first_argument l;
  resolve_opaque = λ item l path. word_if_any l;
}

first_argument-sub :
    (subs l l' : SubList) (t u : Ty)
    → first_argument l ≡ some t
    → sub_list resolving subs l ≡ some l'
    → first_argument l' ≡ some u
    → sub resolving subs t ≡ some u
unfolding sub assert_ty
first_argument-sub subs empty l' t u e f g = cc
first_argument-sub subs (more lifetime l) l' t u e f g = cc
first_argument-sub subs (more (const v c) l) l' t u e f g = cc
first_argument-sub subs (more (type v) l) l' t u e f g =
    let (x, k, a, b, q) =
      shape₂ (sub_sub resolving subs (type v)) (sub_list resolving subs l) more f in
    let (w, c, d) = shape (sub resolving subs v) type a in
    let found : first_argument (more (type w) k) ≡ some u =
      subst (λ m. first_argument m ≡ some u) (sym (ap (λ y. more y k) d ∙ q)) g in
    subst (λ y. sub resolving subs y ≡ some u) (some-eq e) (c ∙ found)

resolving-commutes : (subs : SubList) → ResolutionCommutes resolving subs
unfolding sub
resolving-commutes subs = record {
  associated = λ item. first_argument-sub subs;
  opaque_ty = λ item l l' path. word_too l l';
}
  where
    word_too :
        (l l' : SubList) (t u : Ty)
        → word_if_any l ≡ some t
        → sub_list resolving subs l ≡ some l'
        → word_if_any l' ≡ some u
        → sub resolving subs t ≡ some u
    word_too empty l' t u e f g = cc
    word_too (more s l) empty t u e f g = cc
    word_too (more s l) (more s' l') t u e f g =
        subst (λ v. sub resolving subs v ≡ some u) (some-eq e) g

-- `(Pair<T>, <T as ..>::Item, impl ..)` at `T = (U,)`, then at `U = i32`.
abbrev generic_tuple : Ty
generic_tuple = tuple (
    cons (adt 0 (more (type (param 0)) empty)) (
      cons (associated_type 3 (more (type (param 0)) empty))
        (cons (opaque 4 (more (type (param 0)) empty) 0) nil)))

abbrev one_tuple : Ty → Ty
one_tuple t = tuple (cons t nil)

abbrev tuple_at : Ty → Ty
tuple_at t =
    tuple (cons (adt 0 (more (type (one_tuple t)) empty)) (cons (one_tuple t) (cons word nil)))

sub-sub_example : sub resolving (more (type word) empty) (tuple_at (param 0)) ≡ some (tuple_at word)
unfolding sub get_sub assert_ty
sub-sub_example =
    sub-sub resolving (more (type (one_tuple (param 0))) empty) (more (type word) empty)
      (more (type (one_tuple word)) empty) generic_tuple (tuple_at (param 0)) (tuple_at word) refl
      (resolving-commutes _) refl refl
