-- ===== src/Impls/Completeness.antt =====
-- `match_types` of src/impls.rs: where some substitution makes the type of an impl the type asked for,
-- the match succeeds, and it commits to nothing that this substitution does not have.
mod Steps
use mathlib.Core.Path.{subst}
use mathlib.Core.Logic.{ite}
use skitter.Prelude.{some-eq, ℕ, ◌≡◌, refl, ap, ◌∙◌, true, some, >>=-eq-some, ◌==◌, ==_iff}
use skitter.Prelude.Run.{panicked}
use skitter.Types.Kind.{
  param, Ty, int, float, char, bool, ref, ptr, tuple, array, slice, string_slice, adt, Tys, nil,
  cons, Sub, type, lifetime, const, SubList, empty, more, Ty-discrete,
}
use skitter.Types.Items.{Items}
use skitter.Types.Subs.{
  sub, sub_tys, sub_sub, sub_list, is_concrete, const_sub, get_sub, assert_ty, usize_ty,
}
use skitter.Types.Subs.Compose.Steps.{assert_ty-some}
use skitter.Impls.SubMap.{Matched}
use skitter.Impls.SubMap.Below.{Below}
use skitter.Impls.SubMap.Entries.{Stays, set_param-Stays}
use skitter.Impls.Matching.{
  matching, matching_tys, matching_subs, matching_pair, match_const, const_pair, same_length,
  adt_arm, ptr_arm, ref_arm, slice_arm, tuple_arm, array_arm,
}
use skitter.Impls.Patterns.{
  sub_count, is_size, is_const_ty, is_pattern, are_patterns, sub_pattern, list_pattern, &&-true,
}
use skitter.Impls.Completeness.Steps.{
  const_ty-concrete, pattern-Decided, shortcut-Stays, shortcut_leaf, and_then-Stays,
  match_const-Stays, same_mutability_self, same_length-sub_tys, sub-adt_shape, sub-tuple_shape,
}

module _ (items : Items) (again : Ty → Ty → SubList → Matched) (arity : ℕ → ℕ)
    (upper : SubList) where
  mutual
    unfolding matching is_pattern sub same_length is_concrete assert_ty ref_arm ptr_arm slice_arm
        tuple_arm array_arm adt_arm const_pair

    pub matching-Stays :
        (t rhs : Ty) (m : SubList)
        → is_pattern arity t ≡ true
        → sub items upper t ≡ some rhs
        → Below m upper
        → Stays (matching items again t rhs m) upper
    matching-Stays (ref t k) rhs m p e b =
        let (r, f, g) = >>=-eq-some (sub items upper t) (λ t'. some (ref t' k)) e in
        subst (λ x. Stays (matching items again (ref t k) x m) upper) (some-eq g)
          (shortcut-Stays (ref t k) (ref r k) m upper _ (pattern-Decided arity (ref t k) p) b
            (rw (same_mutability_self k) (matching-Stays t r m p f b)))
    matching-Stays (ptr t k) rhs m p e b =
        let (r, f, g) = >>=-eq-some (sub items upper t) (λ t'. some (ptr t' k)) e in
        subst (λ x. Stays (matching items again (ptr t k) x m) upper) (some-eq g)
          (shortcut-Stays (ptr t k) (ptr r k) m upper _ (pattern-Decided arity (ptr t k) p) b
            (rw (same_mutability_self k) (matching-Stays t r m p f b)))
    matching-Stays (slice t) rhs m p e b =
        let (r, f, g) = >>=-eq-some (sub items upper t) (λ t'. some (slice t')) e in
        subst (λ x. Stays (matching items again (slice t) x m) upper) (some-eq g)
          (shortcut-Stays (slice t) (slice r) m upper _ (pattern-Decided arity (slice t) p) b
            (matching-Stays t r m p f b))
    matching-Stays (tuple ts) rhs m p e b =
        let (us, f, g) = sub-tuple_shape items upper ts rhs e in
        subst (λ x. Stays (matching items again (tuple ts) x m) upper) g
          (shortcut-Stays (tuple ts) (tuple us) m upper _ (pattern-Decided arity (tuple ts) p) b
            (rw (same_length-sub_tys items upper ts us f) (matching_tys-Stays ts us m p f b)))
    matching-Stays (array t size) rhs m p e b =
        let (p1, p2) = &&-true (is_pattern arity t) (is_size size) p in
        let (d, f, g) = >>=-eq-some (const_sub upper size usize_ty) _ e in
        let (r, h, i) = >>=-eq-some (sub items upper t) _ g in
        subst (λ x. Stays (matching items again (array t size) x m) upper) (some-eq i)
          (shortcut-Stays (array t size) (array r d) m upper _
            (pattern-Decided arity (array t size) p) b
            (and_then-Stays (matching items again t r m) _ upper (matching-Stays t r m p1 h b)
              (λ m' b'. match_const-Stays size d usize_ty m' upper p2 f b')))
    matching-Stays (adt item l) rhs m p e b =
        let (p1, p2) = &&-true (sub_count l == arity item) (list_pattern arity l) p in
        let (k, f, g) = sub-adt_shape items upper item l rhs e in
        subst (λ x. Stays (matching items again (adt item l) x m) upper) g
          (shortcut-Stays (adt item l) (adt item k) m upper _ (pattern-Decided arity (adt item l) p)
            b (rw ((==_iff item item).1 refl) (matching_subs-Stays l k m p2 f b)))
    matching-Stays (param n) rhs m p e b =
        let (s, f, g) = >>=-eq-some (get_sub upper n) assert_ty e in
        set_param-Stays n rhs m upper b (f ∙ ap some (assert_ty-some s rhs g))
    matching-Stays (int w s) rhs m p e b = shortcut_leaf (int w s) rhs m upper _ refl (some-eq e) b
    matching-Stays (float w) rhs m p e b = shortcut_leaf (float w) rhs m upper _ refl (some-eq e) b
    matching-Stays bool rhs m p e b = shortcut_leaf bool rhs m upper _ refl (some-eq e) b
    matching-Stays char rhs m p e b = shortcut_leaf char rhs m upper _ refl (some-eq e) b
    matching-Stays string_slice rhs m p e b =
        shortcut_leaf string_slice rhs m upper _ refl (some-eq e) b
    matching-Stays _ rhs m p e b = cc

    matching_tys-Stays :
        (ts us : Tys) (m : SubList)
        → are_patterns arity ts ≡ true
        → sub_tys items upper ts ≡ some us
        → Below m upper
        → Stays (matching_tys items again ts us m) upper
    matching_tys-Stays nil us m p e b = (m, refl, b)
    matching_tys-Stays (cons t ts) us m p e b =
        let (p1, p2) = &&-true (is_pattern arity t) (are_patterns arity ts) p in
        let (r, f, g) = >>=-eq-some (sub items upper t) _ e in
        let (rs, h, i) = >>=-eq-some (sub_tys items upper ts) _ g in
        subst (λ x. Stays (matching_tys items again (cons t ts) x m) upper) (some-eq i)
          (and_then-Stays (matching items again t r m) (matching_tys items again ts rs) upper
            (matching-Stays t r m p1 f b) (λ m' b'. matching_tys-Stays ts rs m' p2 h b'))

    matching_subs-Stays :
        (l k m : SubList)
        → list_pattern arity l ≡ true
        → sub_list items upper l ≡ some k
        → Below m upper
        → Stays (matching_subs items again l k m) upper
    matching_subs-Stays empty k m p e b = (m, refl, b)
    matching_subs-Stays (more s l) k m p e b =
        let (p1, p2) = &&-true (sub_pattern arity s) (list_pattern arity l) p in
        let (r, f, g) = >>=-eq-some (sub_sub items upper s) _ e in
        let (rs, h, i) = >>=-eq-some (sub_list items upper l) _ g in
        subst (λ x. Stays (matching_subs items again (more s l) x m) upper) (some-eq i)
          (and_then-Stays (matching_pair items again s r m) (matching_subs items again l rs) upper
            (matching_pair-Stays s r m p1 f b) (λ m' b'. matching_subs-Stays l rs m' p2 h b'))

    matching_pair-Stays :
        (s r : Sub) (m : SubList)
        → sub_pattern arity s ≡ true
        → sub_sub items upper s ≡ some r
        → Below m upper
        → Stays (matching_pair items again s r m) upper
    matching_pair-Stays (type t) r m p e b =
        let (x, f, g) = >>=-eq-some (sub items upper t) (λ t'. some (type t')) e in
        subst (λ y. Stays (matching_pair items again (type t) y m) upper) (some-eq g)
          (matching-Stays t x m p f b)
    matching_pair-Stays lifetime r m p e b =
        subst (λ y. Stays (matching_pair items again lifetime y m) upper) (some-eq e) (m, refl, b)
    matching_pair-Stays (const t c) r m p e b =
        let (p1, p2) = &&-true (is_const_ty t) (is_size c) p in
        let (d, f, g) = >>=-eq-some (const_sub upper c t) (λ c'. some (const t c')) e in
        subst (λ y. Stays (matching_pair items again (const t c) y m) upper) (some-eq g)
          (rw (const_ty-concrete t p1)
            (by_type t (match_const c d t m) (match_const-Stays c d t m upper p2 f b)))
      where
        by_type :
            (x : Ty) (rest : Matched)
            → Stays rest upper
            → Stays (ite (Ty-discrete x x) rest panicked) upper
        by_type x rest s = by (Ty-discrete x x)
          where
            by : (q : Dec (x ≡ x)) → Stays (ite q rest panicked) upper
            by (yes q) = s
            by (no q) = absurd (q refl)
