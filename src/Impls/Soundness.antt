-- ===== src/Impls/Soundness.antt =====
-- `match_types` of src/impls.rs: where it succeeds, the substitution it leaves makes the type of the
-- impl the type asked for, however the parameters that are still unknown are filled in.
mod Steps
use mathlib.Core.Path.{subst}
use skitter.Prelude.{ℕ, ◌≡◌, refl, sym, ap, ◌∙◌, inl, inr, true, some, ◌==◌, ==_iff, arith}
use skitter.Prelude.Run.{done}
use skitter.Types.Kind.{
  param, unknown, Ty, int, float, char, bool, ref, ptr, tuple, array, slice, string_slice, adt, Tys,
  nil, cons, Sub, type, lifetime, const, SubList, empty, more,
}
use skitter.Types.Items.{Items}
use skitter.Types.Subs.{
  sub, sub_tys, sub_sub, sub_list, is_concrete, all_concrete, sub_concrete, subs_concrete,
  const_sub, assert_ty, usize_ty, const_is_concrete,
}
use skitter.Types.Subs.Concrete.{sub_of_concrete, both-true}
use skitter.Impls.SubMap.{Matched}
use skitter.Impls.SubMap.Below.{Known, get_sub-Below}
use skitter.Impls.SubMap.Entries.{set_param-Fills}
use skitter.Impls.Matching.{
  matching, matching_tys, matching_subs, matching_pair, same_length, is_listed, mismatch, shortcut,
}
use skitter.Impls.Patterns.{
  sub_count, is_size, is_const_ty, is_pattern, are_patterns, sub_pattern, list_pattern, has_arities,
  tys_arities, sub_arities, list_arities, is_pattern-no_dyn, &&-true,
}
use skitter.Impls.Arms.{
  mismatch-ne, and_then-done, shortcut-done, adt_arm-done, ptr_arm-done, ref_arm-done,
  slice_arm-done, tuple_arm-done, array_arm-done, const_pair-done,
}
use skitter.Impls.Soundness.Steps.{
  Sound, always, both_sound, weaken, const_ty-known, match_const-Sound, sub-adt, sub-tuple,
}

module _ (items : Items) (again : Ty → Ty → SubList → Matched) (arity : ℕ → ℕ) where
  -- A concrete type that was compared as a whole.
  whole :
      (t rhs : Ty) {m m' : SubList}
      → is_pattern arity t ≡ true
      → (is_concrete t ≡ some true) × (t ≡ rhs) × (m ≡ m')
      → Sound m m' (λ u. sub items u t ≡ some rhs)
  whole t rhs p (c, e, f) =
      always (λ u. sub items u t ≡ some rhs) f
        (λ u. sub_of_concrete items u t c (is_pattern-no_dyn arity t p) ∙ ap some e)

  -- A match of the parts is one of the whole.
  as_type :
      (t : Ty) {rhs r : Ty} {m m' : SubList}
      → rhs ≡ r
      → (P : SubList → Type 0) → ((u : SubList) → P u → sub items u t ≡ some r)
      → Sound m m' P
      → Sound m m' (λ u. sub items u t ≡ some rhs)
  as_type t {m} {m'} e P f s =
      subst (λ x. Sound m m' (λ u. sub items u t ≡ some x)) (sym e) (weaken P _ f s)

  leaf :
      (t rhs : Ty) (m : SubList) {m' : SubList}
      → is_pattern arity t ≡ true
      → shortcut t rhs m (mismatch (is_listed t) rhs m) ≡ done (true, m')
      → Sound m m' (λ u. sub items u t ≡ some rhs)
  leaf t rhs m p h = elim (shortcut-done t rhs m (mismatch (is_listed t) rhs m) h) [
    | inl w ↦ whole t rhs p w
    | inr q ↦ absurd (mismatch-ne (is_listed t) rhs m q)
  ]

  mutual
    unfolding matching is_pattern has_arities sub same_length sub_count is_concrete assert_ty

    pub matching-Sound :
        (t rhs : Ty) (m : SubList) {m' : SubList}
        → matching items again t rhs m ≡ done (true, m')
        → is_pattern arity t ≡ true
        → has_arities arity rhs ≡ true
        → is_concrete rhs ≡ some true
        → Sound m m' (λ u. sub items u t ≡ some rhs)
    matching-Sound (ref t k) rhs m {m'} h p a c = elim (shortcut-done (ref t k) rhs m _ h) [
      | inl w ↦ whole (ref t k) rhs p w
      | inr q ↦
          let (r, e, g) = ref_arm-done k rhs (matching items again t) m q in
          as_type (ref t k) e (λ u. sub items u t ≡ some r) (λ u s. rw s refl)
            (matching-Sound t r m g p (rw e at a) (rw e at c))
    ]
    matching-Sound (ptr t k) rhs m {m'} h p a c = elim (shortcut-done (ptr t k) rhs m _ h) [
      | inl w ↦ whole (ptr t k) rhs p w
      | inr q ↦
          let (r, e, g) = ptr_arm-done k rhs (matching items again t) m q in
          as_type (ptr t k) e (λ u. sub items u t ≡ some r) (λ u s. rw s refl)
            (matching-Sound t r m g p (rw e at a) (rw e at c))
    ]
    matching-Sound (slice t) rhs m {m'} h p a c = elim (shortcut-done (slice t) rhs m _ h) [
      | inl w ↦ whole (slice t) rhs p w
      | inr q ↦
          let (r, e, g) = slice_arm-done rhs (matching items again t) m q in
          as_type (slice t) e (λ u. sub items u t ≡ some r) (λ u s. rw s refl)
            (matching-Sound t r m g p (rw e at a) (rw e at c))
    ]
    matching-Sound (tuple ts) rhs m {m'} h p a c = elim (shortcut-done (tuple ts) rhs m _ h) [
      | inl w ↦ whole (tuple ts) rhs p w
      | inr q ↦
          let (us, e, l, g) = tuple_arm-done ts rhs (matching_tys items again ts) m q in
          as_type (tuple ts) e (λ u. sub_tys items u ts ≡ some us)
            (λ u s. sub-tuple items u ts us s)
            (matching_tys-Sound ts us m l g p (rw e at a) (rw e at c))
    ]
    matching-Sound (array t size) rhs m {m'} h p a c =
        elim (shortcut-done (array t size) rhs m _ h) [
          | inl w ↦ whole (array t size) rhs p w
          | inr q ↦
              let (r, d, m1, e, g, f) = array_arm-done size rhs (matching items again t) m q in
              let (p1, p2) = &&-true (is_pattern arity t) (is_size size) p in
              let (c1, c2) = both-true (is_concrete r) (some (const_is_concrete d)) (rw e at c) in
              subst (λ x. Sound m m' (λ u. sub items u (array t size) ≡ some x)) (sym e)
                (both_sound (λ u. sub items u t ≡ some r) (λ u. const_sub u size usize_ty ≡ some d)
                  _ (λ u s z. rw (z, s) refl) (matching-Sound t r m g p1 (rw e at a) c1)
                  (match_const-Sound size d usize_ty m1 f p2 (λ y. cc)))
        ]
    matching-Sound (adt item l) rhs m {m'} h p a c = elim (shortcut-done (adt item l) rhs m _ h) [
      | inl w ↦ whole (adt item l) rhs p w
      | inr q ↦
          let (k, e, g) = adt_arm-done item rhs (matching_subs items again l) m q in
          let (p1, p2) = &&-true (sub_count l == arity item) (list_pattern arity l) p in
          let (a1, a2) = &&-true (sub_count k == arity item) (list_arities arity k) (rw e at a) in
          let count : sub_count l ≡ sub_count k = (==_iff _ _).0 p1 ∙ sym ((==_iff _ _).0 a1) in
          as_type (adt item l) e (λ u. sub_list items u l ≡ some k)
            (λ u s. sub-adt items u item l k s)
            (matching_subs-Sound l k m count g p2 a2 (rw e at c))
    ]
    matching-Sound (param n) rhs m h p a c =
        let (b, g) = set_param-Fills n rhs m h in
        record {
          below = b;
          above = λ u q. rw (get_sub-Below _ u n (type rhs) (known rhs c) q g) refl;
        }
      where
        type_eq : {x y : Ty} → type x ≡ type y → x ≡ y
        type_eq e = cc

        unknown-ne : is_concrete unknown ≡ some true → ⊥
        unknown-ne e = cc

        known : (t : Ty) → is_concrete t ≡ some true → Known (type t)
        known t k = record {
          not_type = λ e. unknown-ne (sym (ap is_concrete (type_eq e)) ∙ k);
          not_const = λ e. cc;
        }
    matching-Sound (int w s) rhs m h p a c = leaf (int w s) rhs m p h
    matching-Sound (float w) rhs m h p a c = leaf (float w) rhs m p h
    matching-Sound bool rhs m h p a c = leaf bool rhs m p h
    matching-Sound char rhs m h p a c = leaf char rhs m p h
    matching-Sound string_slice rhs m h p a c = leaf string_slice rhs m p h
    matching-Sound _ rhs m h p a c = cc

    matching_tys-Sound :
        (ts us : Tys) (m : SubList) {m' : SubList}
        → same_length ts us ≡ true
        → matching_tys items again ts us m ≡ done (true, m')
        → are_patterns arity ts ≡ true
        → tys_arities arity us ≡ true
        → all_concrete us ≡ some true
        → Sound m m' (λ u. sub_tys items u ts ≡ some us)
    matching_tys-Sound nil nil m l h p a c = always _ (end h) (λ u. refl)
      where
        end : {m m' : SubList} → ◌≡◌ {A = Matched} (done (true, m)) (done (true, m')) → m ≡ m'
        end e = cc
    matching_tys-Sound nil (cons r us) m l h p a c = cc
    matching_tys-Sound (cons t ts) nil m l h p a c = cc
    matching_tys-Sound (cons t ts) (cons r us) m l h p a c =
        let (m1, e, f) =
          and_then-done (matching items again t r m) (matching_tys items again ts us) h in
        let (p1, p2) = &&-true (is_pattern arity t) (are_patterns arity ts) p in
        let (a1, a2) = &&-true (has_arities arity r) (tys_arities arity us) a in
        let (c1, c2) = both-true (is_concrete r) (all_concrete us) c in
        both_sound (λ u. sub items u t ≡ some r) (λ u. sub_tys items u ts ≡ some us) _
          (λ u s z. rw (s, z) refl) (matching-Sound t r m e p1 a1 c1)
          (matching_tys-Sound ts us m1 l f p2 a2 c2)

    pub matching_subs-Sound :
        (l k : SubList) (m : SubList) {m' : SubList}
        → sub_count l ≡ sub_count k
        → matching_subs items again l k m ≡ done (true, m')
        → list_pattern arity l ≡ true
        → list_arities arity k ≡ true
        → subs_concrete k ≡ some true
        → Sound m m' (λ u. sub_list items u l ≡ some k)
    matching_subs-Sound empty empty m n h p a c = always _ (end h) (λ u. refl)
      where
        end : {m m' : SubList} → ◌≡◌ {A = Matched} (done (true, m)) (done (true, m')) → m ≡ m'
        end e = cc
    matching_subs-Sound empty (more r k) m n h p a c = absurd (omega arith)
    matching_subs-Sound (more s l) empty m n h p a c = absurd (omega arith)
    matching_subs-Sound (more s l) (more r k) m n h p a c =
        let (m1, e, f) =
          and_then-done (matching_pair items again s r m) (matching_subs items again l k) h in
        let (p1, p2) = &&-true (sub_pattern arity s) (list_pattern arity l) p in
        let (a1, a2) = &&-true (sub_arities arity r) (list_arities arity k) a in
        let (c1, c2) = both-true (sub_concrete r) (subs_concrete k) c in
        both_sound (λ u. sub_sub items u s ≡ some r) (λ u. sub_list items u l ≡ some k) _
          (λ u x y. rw (x, y) refl) (matching_pair-Sound s r m e p1 a1 c1)
          (matching_subs-Sound l k m1 (omega arith) f p2 a2 c2)

    matching_pair-Sound :
        (s r : Sub) (m : SubList) {m' : SubList}
        → matching_pair items again s r m ≡ done (true, m')
        → sub_pattern arity s ≡ true
        → sub_arities arity r ≡ true
        → sub_concrete r ≡ some true
        → Sound m m' (λ u. sub_sub items u s ≡ some r)
    matching_pair-Sound (type t) (type r) m h p a c =
        weaken (λ u. sub items u t ≡ some r) _ (λ u s. rw s refl) (matching-Sound t r m h p a c)
    matching_pair-Sound lifetime lifetime m h p a c = always _ (end h) (λ u. refl)
      where
        end : {m m' : SubList} → ◌≡◌ {A = Matched} (done (true, m)) (done (true, m')) → m ≡ m'
        end e = cc
    matching_pair-Sound (const t x) (const r y) m {m'} h p a c =
        let (e, f) = const_pair-done t x r y m h in
        let (p1, p2) = &&-true (is_const_ty t) (is_size x) p in
        weaken (λ u. const_sub u x t ≡ some y) _ (λ u s. rw (s, e) refl)
          (match_const-Sound x y t m f p2 (const_ty-known t p1))
    matching_pair-Sound s r m h p a c = cc
