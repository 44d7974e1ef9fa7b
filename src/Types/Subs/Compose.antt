-- ===== src/Types/Subs/Compose.antt =====
-- src/types/: substituting twice is substituting once by the composed list.
pub mod Steps
use skitter.Prelude.{
  some-eq, ℕ, zero, suc, ◌≡◌, refl, sym, Option, some, none, ◌>>=◌, >>=-eq-some, ap, ◌∙◌, not,
}
use skitter.Types.Kind.{
  ConstGeneric, value, param, error, unknown, Ty, int, float, char, bool, never, ref, ptr, tuple,
  array, slice, string_slice, function_def, adt, associated_type, foreign, opaque, function_pointer,
  closure, dynamic_auto, dynamic, Tys, nil, cons, Sub, type, lifetime, const, SubList, empty, more,
}
use skitter.Types.Items.{Items}
use skitter.Types.Subs.{
  sub, sub_tys, sub_sub, sub_list, const_sub, get_sub, assert_ty, assert_const, is_empty, usize_ty,
}
use mathlib.Core.Path.{subst}
use skitter.Types.Subs.Compose.Steps.{
  shape, shape₂, assert_const-some, assert_const_self, assert_ty-some, AtMost, AtMost-of_eq,
  between, through, through₂, after_ty, sub-tuple, sub-adt, sub-function_def, asserted,
}

-- Resolution is stable under substitution: where a list of arguments resolves, and resolves once more
-- with `subs` substituted in it, the second type is the first one with `subs` substituted in it.
pub record ResolutionCommutes (items : Items) (subs : SubList) : Type 0 where
  pub associated :
      (item : ℕ) (l l' : SubList) (t u : Ty)
      → items.resolve_associated_ty item l ≡ some t
      → sub_list items subs l ≡ some l'
      → items.resolve_associated_ty item l' ≡ some u
      → sub items subs t ≡ some u
  pub opaque_ty :
      (item : ℕ) (l l' : SubList) (path : ℕ) (t u : Ty)
      → items.resolve_opaque item l path ≡ some t
      → sub_list items subs l ≡ some l'
      → items.resolve_opaque item l' path ≡ some u
      → sub items subs t ≡ some u

module _ (items : Items) (first second both : SubList)
    (composed : sub_list items second first ≡ some both) where
  get_sub_composed :
      (l l' : SubList) (n : ℕ) (s : Sub)
      → sub_list items second l ≡ some l'
      → get_sub l n ≡ some s
      → get_sub l' n ≡ sub_sub items second s
  unfolding get_sub sub
  get_sub_composed empty l' n s e g = cc
  get_sub_composed (more x l) l' zero s e g =
      let (x', k, a, b, q) = shape₂ (sub_sub items second x) (sub_list items second l) more e in
      subst (λ m. get_sub m zero ≡ sub_sub items second s) q (cc (a, g))
  get_sub_composed (more x l) l' (suc n) s e g =
      let (x', k, a, b, q) = shape₂ (sub_sub items second x) (sub_list items second l) more e in
      subst (λ m. get_sub m (suc n) ≡ sub_sub items second s) q (get_sub_composed l k n s b g)

  const_sub-compose :
      (c c' : ConstGeneric) (t : Ty)
      → const_sub first c t ≡ some c'
      → const_sub both c t ≡ const_sub second c' t
  unfolding const_sub
  const_sub-compose (param n) c' t e =
      let (s, g, h) = >>=-eq-some (get_sub first n) (assert_const t) e in
      let g' : get_sub both n ≡ sub_sub items second (const t c') =
        get_sub_composed first both n s composed g
        ∙ ap (sub_sub items second) (assert_const-some t s c' h) in
      rw g' (unfold sub in after (const_sub second c' t))
    where
      after : (o : Option ConstGeneric) → ((o >>= λ d. some (const t d)) >>= assert_const t) ≡ o
      after (some d) = assert_const_self t d
      after none = refl
  const_sub-compose (value v) c' t e =
      subst (λ d. some (value v) ≡ const_sub second d t) (some-eq e) refl
  const_sub-compose error c' t e = subst (λ d. some error ≡ const_sub second d t) (some-eq e) refl
  const_sub-compose unknown c' t e =
      subst (λ d. some unknown ≡ const_sub second d t) (some-eq e) refl

  module _ (commutes : ResolutionCommutes items second) where
    mutual
      unfolding sub

      sub-compose :
          (t t' : Ty)
          → sub items first t ≡ some t'
          → AtMost (sub items both t) (sub items second t')
      sub-compose (param n) t' e =
          let (s, g, h) = >>=-eq-some (get_sub first n) assert_ty e in
          let g' : get_sub both n ≡ sub_sub items second (type t') =
            get_sub_composed first both n s composed g
            ∙ ap (sub_sub items second) (assert_ty-some s t' h) in
          AtMost-of_eq (rw g' (after_ty (sub items second t')))
      sub-compose (ref t m) t' e =
          let (u, p, q) = shape (sub items first t) (λ v. ref v m) e in
          subst (λ v. AtMost (sub items both (ref t m)) (sub items second v)) q
            (through (λ v. ref v m) (sub-compose t u p))
      sub-compose (ptr t m) t' e =
          let (u, p, q) = shape (sub items first t) (λ v. ptr v m) e in
          subst (λ v. AtMost (sub items both (ptr t m)) (sub items second v)) q
            (through (λ v. ptr v m) (sub-compose t u p))
      sub-compose (slice t) t' e =
          let (u, p, q) = shape (sub items first t) slice e in
          subst (λ v. AtMost (sub items both (slice t)) (sub items second v)) q
            (through slice (sub-compose t u p))
      sub-compose (tuple ts) t' e =
          let (k, p, q) =
            shape (sub_tys items first ts) tuple (sym (sub-tuple items first ts) ∙ e) in
          subst (λ v. AtMost (sub items both (tuple ts)) (sub items second v)) q
            (between (sub-tuple items both ts) (through tuple (sub_tys-compose ts k p))
              (sym (sub-tuple items second k)))
      sub-compose (adt item l) t' e =
          let (k, p, q) =
            shape (sub_list items first l) (adt item) (sym (sub-adt items first item l) ∙ e) in
          subst (λ v. AtMost (sub items both (adt item l)) (sub items second v)) q
            (between (sub-adt items both item l) (through (adt item) (sub_list-compose l k p))
              (sym (sub-adt items second item k)))
      sub-compose (function_def item l) t' e =
          let (k, p, q) =
            shape (sub_list items first l) (function_def item)
              (sym (sub-function_def items first item l) ∙ e) in
          subst (λ v. AtMost (sub items both (function_def item l)) (sub items second v)) q
            (between (sub-function_def items both item l)
              (through (function_def item) (sub_list-compose l k p))
              (sym (sub-function_def items second item k)))
      sub-compose (array t size) t' e =
          let (c, u, p, q, r) =
            shape₂ (const_sub first size usize_ty) (sub items first t) (λ d v. array v d) e in
          subst (λ v. AtMost (sub items both (array t size)) (sub items second v)) r
            (through₂ (λ d v. array v d) (AtMost-of_eq (const_sub-compose size c usize_ty p))
              (sub-compose t u q))
      sub-compose (closure c l) t' e =
          let (k, p, q) = shape (sub_list items first l) (closure c) e in
          subst (λ v. AtMost (sub items both (closure c l)) (sub items second v)) q
            (through (closure c) (sub_list-compose l k p))
      sub-compose (function_pointer ts t) t' e =
          let (us, u, p, q, r) =
            shape₂ (sub_tys items first ts) (sub items first t) function_pointer e in
          subst (λ v. AtMost (sub items both (function_pointer ts t)) (sub items second v)) r
            (through₂ function_pointer (sub_tys-compose ts us p) (sub-compose t u q))
      sub-compose (associated_type item l) t' e =
          let (k, p, q) =
            >>=-eq-some (sub_list items first l) (items.resolve_associated_ty item) e in
          λ u h.
            let (l', f, g) =
              >>=-eq-some (sub_list items both l) (items.resolve_associated_ty item) h in
            commutes.associated item k l' t' u q (sub_list-compose l k p l' f) g
      sub-compose (opaque item l path) t' e =
          let (k, p, q) =
            >>=-eq-some (sub_list items first l) (λ l'. items.resolve_opaque item l' path) e in
          λ u h.
            let (l', f, g) =
              >>=-eq-some (sub_list items both l) (λ l'. items.resolve_opaque item l' path) h in
            commutes.opaque_ty item k l' path t' u q (sub_list-compose l k p l' f) g
      sub-compose (dynamic trait l autos s) t' e =
          subst (λ v. AtMost (sub items both (dynamic trait l autos s)) (sub items second v))
            (asserted (not s) (is_empty l) e) (AtMost-of_eq refl)
      sub-compose (dynamic_auto autos s) t' e = cc
      sub-compose unknown t' e = cc
      sub-compose never t' e =
          subst (λ v. AtMost (some never) (sub items second v)) (some-eq e) (AtMost-of_eq refl)
      sub-compose bool t' e =
          subst (λ v. AtMost (some bool) (sub items second v)) (some-eq e) (AtMost-of_eq refl)
      sub-compose char t' e =
          subst (λ v. AtMost (some char) (sub items second v)) (some-eq e) (AtMost-of_eq refl)
      sub-compose string_slice t' e =
          subst (λ v. AtMost (some string_slice) (sub items second v)) (some-eq e)
            (AtMost-of_eq refl)
      sub-compose (int w s) t' e =
          subst (λ v. AtMost (some (int w s)) (sub items second v)) (some-eq e) (AtMost-of_eq refl)
      sub-compose (float w) t' e =
          subst (λ v. AtMost (some (float w)) (sub items second v)) (some-eq e) (AtMost-of_eq refl)
      sub-compose (foreign c path) t' e =
          subst (λ v. AtMost (some (foreign c path)) (sub items second v)) (some-eq e)
            (AtMost-of_eq refl)

      sub_tys-compose :
          (ts ts' : Tys)
          → sub_tys items first ts ≡ some ts'
          → AtMost (sub_tys items both ts) (sub_tys items second ts')
      sub_tys-compose nil ts' e =
          subst (λ v. AtMost (some nil) (sub_tys items second v)) (some-eq e) (AtMost-of_eq refl)
      sub_tys-compose (cons t ts) ts' e =
          let (u, us, p, q, r) = shape₂ (sub items first t) (sub_tys items first ts) cons e in
          subst (λ v. AtMost (sub_tys items both (cons t ts)) (sub_tys items second v)) r
            (through₂ cons (sub-compose t u p) (sub_tys-compose ts us q))

      sub_sub-compose :
          (s s' : Sub)
          → sub_sub items first s ≡ some s'
          → AtMost (sub_sub items both s) (sub_sub items second s')
      sub_sub-compose lifetime s' e =
          subst (λ v. AtMost (some lifetime) (sub_sub items second v)) (some-eq e)
            (AtMost-of_eq refl)
      sub_sub-compose (type t) s' e =
          let (u, p, q) = shape (sub items first t) type e in
          subst (λ v. AtMost (sub_sub items both (type t)) (sub_sub items second v)) q
            (through type (sub-compose t u p))
      sub_sub-compose (const t c) s' e =
          let (d, p, q) = shape (const_sub first c t) (const t) e in
          subst (λ v. AtMost (sub_sub items both (const t c)) (sub_sub items second v)) q
            (AtMost-of_eq (rw (const_sub-compose c d t p)))

      sub_list-compose :
          (l l' : SubList)
          → sub_list items first l ≡ some l'
          → AtMost (sub_list items both l) (sub_list items second l')
      sub_list-compose empty l' e =
          subst (λ v. AtMost (some empty) (sub_list items second v)) (some-eq e) (AtMost-of_eq refl)
      sub_list-compose (more s l) l' e =
          let (u, k, p, q, r) = shape₂ (sub_sub items first s) (sub_list items first l) more e in
          subst (λ v. AtMost (sub_list items both (more s l)) (sub_list items second v)) r
            (through₂ more (sub_sub-compose s u p) (sub_list-compose l k q))

-- If `both` is the list `first` with `second` substituted in it, and neither substituting `first` in a
-- type nor substituting `both` panics, then substituting `first` and `second` in the result gives what
-- substituting `both` gives, provided the resolution of associated and opaque types is stable under
-- substituting `second`.
pub sub-sub :
    (items : Items) (first second both : SubList) (t t' u : Ty)
    → sub_list items second first ≡ some both
    → ResolutionCommutes items second
    → sub items first t ≡ some t'
    → sub items both t ≡ some u
    → sub items second t' ≡ some u
sub-sub items first second both t t' u composed commutes e h =
    sub-compose items first second both composed commutes t t' e u h
