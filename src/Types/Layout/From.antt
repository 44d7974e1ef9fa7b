-- ===== src/Types/Layout/From.antt =====
-- `Layout::from` of src/types/layout.rs: every layout it returns is well formed.
use skitter.Prelude.{ℕ, zero, suc, ◌*◌, ◌%◌, ◌≡◌, none, some, List, [], ◌∷◌, All, ◌∙◌, sym, length}
use mathlib.Core.Path.{subst}
use skitter.Prelude.Run.{
  done-eq, or_panic-done, Run, done, ◌>>=◌, or_panic, check, traverse, >>=-eq-done,
}
use skitter.Abi.Align.{IsAlign, one, four, eight}
use skitter.Types.Kind.{
  f32, f64, Ty, int, float, char, bool, never, ref, ptr, tuple, array, slice, string_slice,
  function_def, adt, function_pointer, closure, SubList,
}
use skitter.Types.Items.{Items, AdtKind, struct, union, enum}
use skitter.Types.Subs.{sub, is_concrete}
use skitter.Types.Layout.{
  Layout, u32, compound, int_size, union_layout, unsized, assert_size, sized_part, field_layout,
  adt_layout, layout_from, is_sized, pointer_layout, get_value, as_u32, tys_list, assert_single,
}
use skitter.Types.Layout.Sized.{
  IsLaidOut, simple-IsLaidOut, empty-IsLaidOut, unsized-IsLaidOut, pointer-IsLaidOut,
  int_size-IsAlign, compound-IsLaidOut, compound-none, union-IsLaidOut, times-multiple,
  traverse-All,
}

-- What a function returns, it returns laid out.
abbrev LaysOut : (Ty → Run Layout) → Type 0
LaysOut f = (t : Ty) (l : Layout) → f t ≡ done l → IsLaidOut l

module _ (items : Items) (layout : Ty → Run Layout) (sound : LaysOut layout) (subs : SubList) where
  field-IsLaidOut : (t : Ty) (l : Layout) → field_layout items layout subs t ≡ done l → IsLaidOut l
  field-IsLaidOut t l e =
      let (u, p, q) = >>=-eq-done (or_panic (sub items subs t)) layout e in sound u l q

  fields-IsLaidOut :
      (vs : List (List Ty)) (ls : List (List Layout))
      → traverse (traverse (field_layout items layout subs)) vs ≡ done ls
      → All (All IsLaidOut) ls
  fields-IsLaidOut =
      traverse-All (All IsLaidOut) (traverse (field_layout items layout subs))
        (traverse-All IsLaidOut (field_layout items layout subs) field-IsLaidOut)

  sized_part-IsAlign :
      (l : Layout) (part : ℕ × ℕ) → IsLaidOut l → sized_part items l ≡ done part → IsAlign part.1
  unfolding sized_part
  sized_part-IsAlign l part h e =
      let (n, p, q) = >>=-eq-done (assert_size l) (λ size. done (size, l.align_to)) e in
      subst (λ (r : ℕ × ℕ). IsAlign r.1) (done-eq q) h.aligned

  part-IsAlign :
      (t : Ty) (part : ℕ × ℕ)
      → (field_layout items layout subs t >>= sized_part items) ≡ done part
      → IsAlign part.1
  part-IsAlign t part e =
      let (l, p, q) = >>=-eq-done (field_layout items layout subs t) (sized_part items) e in
      sized_part-IsAlign l part (field-IsLaidOut t l p) q

  adt-IsLaidOut :
      (k : AdtKind) (vs : List (List Ty)) (l : Layout)
      → adt_layout items layout subs k vs ≡ done l
      → IsLaidOut l
  unfolding adt_layout
  adt-IsLaidOut struct vs l e =
      let (ls, p, q) =
        >>=-eq-done (traverse (traverse (field_layout items layout subs)) vs)
          (λ ls. done (compound ls none)) e in
      subst IsLaidOut (sym (compound-none ls) ∙ done-eq q)
        (compound-IsLaidOut ls 0 1 (fields-IsLaidOut vs ls p) one)
  adt-IsLaidOut union vs l e =
      let (fields, p, q) = >>=-eq-done (assert_single vs) _ e in
      let (parts, r, s) =
        >>=-eq-done (traverse (λ t. field_layout items layout subs t >>= sized_part items) fields)
          (λ parts. done (union_layout parts (length fields) 0 1)) q in
      subst IsLaidOut (done-eq s) (
        union-IsLaidOut parts (length fields) 0 1
          (traverse-All (λ (r : ℕ × ℕ). IsAlign r.1) _ part-IsAlign fields parts r) one)
  adt-IsLaidOut (enum en) vs l e =
      let (dl, p, q) = >>=-eq-done (layout en.discriminant_internal) _ e in
      let ((size, a), r, s) = >>=-eq-done (sized_part items dl) _ q in
      let (ls, u, v) =
        >>=-eq-done (traverse (traverse (field_layout items layout subs)) vs)
          (λ ls. done (compound ls (some (size, a)))) s in
      subst IsLaidOut (done-eq v) (
        compound-IsLaidOut ls size a (fields-IsLaidOut vs ls u)
          (sized_part-IsAlign dl (size, a) (sound en.discriminant_internal dl p) r))

module _ (items : Items) where
  array-IsLaidOut :
      (elem : Layout) (n size : ℕ)
      → IsLaidOut elem
      → assert_size elem ≡ done size
      → IsLaidOut (record {
        maybe_size = some (u32 (size * n));
        align_to = elem.align_to;
        field_offsets = [];
      })
  array-IsLaidOut elem n size h e =
      let divided =
        times-multiple size n h.aligned (h.divides size (or_panic-done elem.maybe_size e)) in
      record {
        aligned = h.aligned;
        divides = λ m f.
            let same : u32 (size * n) ≡ m = cc in
            subst (λ (k : ℕ). k % elem.align_to ≡ 0) same divided;
      }

  -- Whatever the fuel, a layout that `Layout::from` returns has an alignment of 1, 2, 4, 8 or 16, and
  -- its size, if it has one, is a multiple of the alignment.
  pub layout_from-IsLaidOut :
      (fuel : ℕ) (t : Ty) (l : Layout) → layout_from items fuel t ≡ done l → IsLaidOut l
  unfolding layout_from
  layout_from-IsLaidOut zero t l e = cc
  layout_from-IsLaidOut (suc fuel) (int w s) l e =
      subst IsLaidOut (done-eq e) (simple-IsLaidOut (int_size w) (int_size-IsAlign w))
  layout_from-IsLaidOut (suc fuel) (float f32) l e =
      subst IsLaidOut (done-eq e) (simple-IsLaidOut 4 four)
  layout_from-IsLaidOut (suc fuel) (float f64) l e =
      subst IsLaidOut (done-eq e) (simple-IsLaidOut 8 eight)
  layout_from-IsLaidOut (suc fuel) bool l e = subst IsLaidOut (done-eq e) (simple-IsLaidOut 1 one)
  layout_from-IsLaidOut (suc fuel) char l e = subst IsLaidOut (done-eq e) (simple-IsLaidOut 4 four)
  layout_from-IsLaidOut (suc fuel) (tuple fields) l e =
      let (ls, p, q) = >>=-eq-done (traverse (layout_from items fuel) (tys_list fields)) _ e in
      subst IsLaidOut (sym (compound-none (ls ∷ [])) ∙ done-eq q) (
        compound-IsLaidOut (ls ∷ []) 0 1
          (
            traverse-All IsLaidOut (layout_from items fuel) (layout_from-IsLaidOut fuel)
                (tys_list fields) ls p,
            tt,
          )
          one)
  layout_from-IsLaidOut (suc fuel) (array t count) l e =
      let (el, p, q) = >>=-eq-done (layout_from items fuel t) _ e in
      let (size, r, s) = >>=-eq-done (assert_size el) _ q in
      let (n, u, v) = >>=-eq-done (get_value count) _ s in
      subst IsLaidOut (done-eq v)
        (array-IsLaidOut el (as_u32 n) size (layout_from-IsLaidOut fuel t el p) r)
  layout_from-IsLaidOut (suc fuel) (slice t) l e =
      let (el, p, q) = >>=-eq-done (layout_from items fuel t) (λ l. done (unsized l.align_to)) e in
      subst IsLaidOut (done-eq q)
        (unsized-IsLaidOut el.align_to (layout_from-IsLaidOut fuel t el p).aligned)
  layout_from-IsLaidOut (suc fuel) string_slice l e =
      subst IsLaidOut (done-eq e) (unsized-IsLaidOut 1 one)
  layout_from-IsLaidOut (suc fuel) (ref t m) l e =
      let (b, p, q) = >>=-eq-done (is_sized items fuel t) (λ b. done (pointer_layout items b)) e in
      subst IsLaidOut (done-eq q) (pointer-IsLaidOut items b)
  layout_from-IsLaidOut (suc fuel) (ptr t m) l e =
      let (b, p, q) = >>=-eq-done (is_sized items fuel t) (λ b. done (pointer_layout items b)) e in
      subst IsLaidOut (done-eq q) (pointer-IsLaidOut items b)
  layout_from-IsLaidOut (suc fuel) (function_pointer inputs output) l e =
      subst IsLaidOut (done-eq e) (simple-IsLaidOut 8 eight)
  layout_from-IsLaidOut (suc fuel) (adt item subs) l e =
      adt-IsLaidOut items (layout_from items fuel) (layout_from-IsLaidOut fuel) subs
        (items.adt_info item).kind (items.adt_info item).variant_fields l e
  layout_from-IsLaidOut (suc fuel) (function_def item subs) l e =
      subst IsLaidOut (done-eq e) empty-IsLaidOut
  layout_from-IsLaidOut (suc fuel) never l e = subst IsLaidOut (done-eq e) empty-IsLaidOut
  layout_from-IsLaidOut (suc fuel) (closure c subs) l e =
      let (env, p, q) = >>=-eq-done (or_panic (items.closure_env c subs)) _ e in
      let (b, r, s) = >>=-eq-done (or_panic (is_concrete env) >>= check) _ q in
      layout_from-IsLaidOut fuel env l s
  layout_from-IsLaidOut (suc fuel) _ l e = cc
