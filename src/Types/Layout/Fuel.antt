-- ===== src/Types/Layout/Fuel.antt =====
-- `Layout::from` and `Type::is_sized` of src/types/: the recursion ends on every type that does not
-- contain itself by value, so fuel above the rank of a type is enough.
mod Exhausted
use skitter.Prelude.{
  ℕ, zero, suc, ◌<◌, ◌≡◌, ◌≢◌, refl, Bool, false, not, Option, none, some, List, [], ◌∷◌, All,
  arith,
}
use skitter.Prelude.Run.{or_panic-done, Run, done, exhausted, ◌>>=◌, or_panic, check, traverse}
use skitter.Types.Kind.{
  f32, f64, ConstGeneric, Ty, float, ref, ptr, tuple, array, slice, adt, closure, dynamic_auto,
  dynamic, SubList, Tys, Mutability,
}
use skitter.Types.Items.{Items, AdtKind, EnumInfo, struct, union, enum}
use skitter.Types.Subs.{sub, is_concrete}
use mathlib.Core.Path.{subst}
use skitter.Types.Layout.{
  Layout, last, end_sized, struct_sized, field_layout, sized_part, assert_size, adt_layout,
  layout_from, is_sized, get_value, tys_list, assert_single,
}
use skitter.Types.Layout.Fuel.Exhausted.{
  bind-ne-exhausted, done-ne-exhausted, or_panic-ne-exhausted, check-ne-exhausted,
  traverse-ne-exhausted, All-map, assert_single-ne-exhausted, get_value-ne-exhausted,
}

module _ (items : Items) where
  -- A rank that falls from a type to the types that lie in it by value, and one that falls from a
  -- struct to its last field. A pointer's rank is above the second rank of what it points to.
  pub record Ranks : Type 0 where
    pub rank : Ty → ℕ
    pub sized_rank : Ty → ℕ
    pub tuple_falls : (fields : Tys) → All (λ t. rank t < rank (tuple fields)) (tys_list fields)
    pub array_falls : (t : Ty) (c : ConstGeneric) → rank t < rank (array t c)
    pub slice_falls : (t : Ty) → rank t < rank (slice t)
    pub ref_falls : (t : Ty) (m : Mutability) → sized_rank t < rank (ref t m)
    pub ptr_falls : (t : Ty) (m : Mutability) → sized_rank t < rank (ptr t m)
    pub adt_falls :
        (item : ℕ) (l : SubList)
        → All
            (All (λ f. (u : Ty) → sub items l f ≡ some u → rank u < rank (adt item l)))
            (items.adt_info item).variant_fields
    pub discriminant_falls :
        (item : ℕ) (l : SubList) (e : EnumInfo)
        → (items.adt_info item).kind ≡ enum e
        → rank e.discriminant_internal < rank (adt item l)
    pub env_falls :
        (c : ℕ) (l : SubList) (u : Ty)
        → items.closure_env c l ≡ some u
        → rank u < rank (closure c l)
    pub last_falls :
        (item : ℕ) (l : SubList) (fields : List Ty) (f u : Ty)
        → assert_single (items.adt_info item).variant_fields ≡ done fields
        → last fields ≡ some f
        → sub items l f ≡ some u
        → sized_rank u < sized_rank (adt item l)

  end_sized-ne-exhausted :
      (sized : Ty → Run Bool) (l : SubList) (o : Option Ty)
      → ((f u : Ty) → o ≡ some f → sub items l f ≡ some u → sized u ≢ exhausted)
      → end_sized items sized l o ≢ exhausted
  unfolding end_sized
  end_sized-ne-exhausted sized l none h = λ e. cc
  end_sized-ne-exhausted sized l (some f) h =
      bind-ne-exhausted (or_panic (sub items l f)) sized (or_panic-ne-exhausted (sub items l f))
        (λ u p. h f u refl (or_panic-done (sub items l f) p))

  struct_sized-ne-exhausted :
      (sized : Ty → Run Bool) (l : SubList) (k : AdtKind) (vs : List (List Ty))
      → ((fields : List Ty) (f u : Ty)
          → assert_single vs ≡ done fields
          → last fields ≡ some f
          → sub items l f ≡ some u
          → sized u ≢ exhausted)
      → struct_sized items sized l k vs ≢ exhausted
  unfolding struct_sized
  struct_sized-ne-exhausted sized l struct vs h =
      bind-ne-exhausted (assert_single vs) _ (assert_single-ne-exhausted vs)
        (λ fields p. end_sized-ne-exhausted sized l (last fields) (λ f u. h fields f u p))
  struct_sized-ne-exhausted sized l union vs h = λ e. cc
  struct_sized-ne-exhausted sized l (enum en) vs h = λ e. cc

  single-All :
      {A : Type 0} (Q : A → Type 0) (vs : List A) (v : A)
      → assert_single vs ≡ done v
      → All Q vs
      → Q v
  single-All Q [] v e h = cc
  single-All Q (a ∷ []) v e h = let same : a ≡ v = cc in subst Q same h.0
  single-All Q (a ∷ b ∷ l) v e h = cc

  module _ (layout : Ty → Run Layout) (l : SubList) where
    abbrev Ends : Ty → Type 0
    Ends f = (u : Ty) → sub items l f ≡ some u → layout u ≢ exhausted

    field-ne-exhausted : (f : Ty) → Ends f → field_layout items layout l f ≢ exhausted
    field-ne-exhausted f h =
        bind-ne-exhausted (or_panic (sub items l f)) layout (or_panic-ne-exhausted (sub items l f))
          (λ u p. h u (or_panic-done (sub items l f) p))

    variants-ne-exhausted :
        (vs : List (List Ty))
        → All (All Ends) vs
        → traverse (traverse (field_layout items layout l)) vs ≢ exhausted
    variants-ne-exhausted vs h = traverse-ne-exhausted _ vs (
        All-map
          (λ v k.
            traverse-ne-exhausted (field_layout items layout l) v (All-map field-ne-exhausted v k))
          vs h)

    sized_part-ne-exhausted : (lay : Layout) → sized_part items lay ≢ exhausted
    unfolding sized_part
    sized_part-ne-exhausted lay =
        bind-ne-exhausted (assert_size lay) _ (or_panic-ne-exhausted lay.maybe_size) (λ n _ e. cc)

    adt_layout-ne-exhausted :
        (k : AdtKind) (vs : List (List Ty))
        → All (All Ends) vs
        → ((e : EnumInfo) → k ≡ enum e → layout e.discriminant_internal ≢ exhausted)
        → adt_layout items layout l k vs ≢ exhausted
    unfolding adt_layout
    adt_layout-ne-exhausted struct vs h d =
        bind-ne-exhausted (traverse (traverse (field_layout items layout l)) vs) _
          (variants-ne-exhausted vs h) (λ ls _ e. cc)
    adt_layout-ne-exhausted union vs h d =
        bind-ne-exhausted (assert_single vs) _ (assert_single-ne-exhausted vs) (λ fields p.
          bind-ne-exhausted _ _
            (traverse-ne-exhausted (λ t. field_layout items layout l t >>= sized_part items) fields
              (All-map
                (λ f k.
                  bind-ne-exhausted _ _ (field-ne-exhausted f k)
                    (λ lay _. sized_part-ne-exhausted lay))
                fields (single-All (All Ends) vs fields p h)))
            (λ parts _ e. cc))
    adt_layout-ne-exhausted (enum en) vs h d = bind-ne-exhausted _ _ (d en refl) (λ dl _.
        bind-ne-exhausted _ _ (sized_part-ne-exhausted dl)
          (λ disc _. bind-ne-exhausted _ _ (variants-ne-exhausted vs h) (λ ls _ e. cc)))

  module _ (ranks : Ranks) where
    open ranks use {
      rank, sized_rank, tuple_falls, array_falls, slice_falls, ref_falls, ptr_falls, adt_falls,
      discriminant_falls, env_falls, last_falls,
    }

    -- Fuel above the second rank is enough for `is_sized`.
    pub is_sized-ne-exhausted :
        (fuel : ℕ) (t : Ty) → sized_rank t < fuel → is_sized items fuel t ≢ exhausted
    unfolding is_sized
    is_sized-ne-exhausted zero t h = absurd (omega arith)
    is_sized-ne-exhausted (suc fuel) (slice t) h = λ e. cc
    is_sized-ne-exhausted (suc fuel) (dynamic trait l autos s) h =
        bind-ne-exhausted (check (not s)) _ (check-ne-exhausted (not s))
          (λ _ _. done-ne-exhausted false)
    is_sized-ne-exhausted (suc fuel) (dynamic_auto autos s) h =
        bind-ne-exhausted (check (not s)) _ (check-ne-exhausted (not s))
          (λ _ _. done-ne-exhausted false)
    is_sized-ne-exhausted (suc fuel) (adt item l) h =
        struct_sized-ne-exhausted (is_sized items fuel) l (items.adt_info item).kind
          (items.adt_info item).variant_fields
          (λ fields f u p q r.
            is_sized-ne-exhausted fuel u (omega (arith, last_falls item l fields f u p q r)))
    is_sized-ne-exhausted (suc fuel) _ h = λ e. cc

    -- If all that the layout of a type looks at has a lower rank than the type, fuel above the rank is
    -- enough for `Layout::from`: it returns or panics.
    pub layout_from-ne-exhausted :
        (fuel : ℕ) (t : Ty) → rank t < fuel → layout_from items fuel t ≢ exhausted
    unfolding layout_from
    layout_from-ne-exhausted zero t h = absurd (omega arith)
    layout_from-ne-exhausted (suc fuel) (float f32) h = λ e. cc
    layout_from-ne-exhausted (suc fuel) (float f64) h = λ e. cc
    layout_from-ne-exhausted (suc fuel) (tuple fields) h =
        bind-ne-exhausted (traverse (layout_from items fuel) (tys_list fields)) _
          (traverse-ne-exhausted (layout_from items fuel) (tys_list fields) (
            All-map (λ t k. layout_from-ne-exhausted fuel t (omega arith)) (tys_list fields)
              (tuple_falls fields)))
          (λ ls _ e. cc)
    layout_from-ne-exhausted (suc fuel) (array t c) h =
        bind-ne-exhausted (layout_from items fuel t) _
          (layout_from-ne-exhausted fuel t (omega (arith, array_falls t c)))
          (λ el _.
            bind-ne-exhausted (assert_size el) _ (or_panic-ne-exhausted el.maybe_size) (λ size _.
              bind-ne-exhausted (get_value c) _ (get_value-ne-exhausted c) (λ n _ e. cc)))
    layout_from-ne-exhausted (suc fuel) (slice t) h =
        bind-ne-exhausted (layout_from items fuel t) _
          (layout_from-ne-exhausted fuel t (omega (arith, slice_falls t))) (λ el _ e. cc)
    layout_from-ne-exhausted (suc fuel) (ref t m) h =
        bind-ne-exhausted (is_sized items fuel t) _
          (is_sized-ne-exhausted fuel t (omega (arith, ref_falls t m))) (λ b _ e. cc)
    layout_from-ne-exhausted (suc fuel) (ptr t m) h =
        bind-ne-exhausted (is_sized items fuel t) _
          (is_sized-ne-exhausted fuel t (omega (arith, ptr_falls t m))) (λ b _ e. cc)
    layout_from-ne-exhausted (suc fuel) (adt item l) h =
        adt_layout-ne-exhausted (layout_from items fuel) l (items.adt_info item).kind
          (items.adt_info item).variant_fields
          (All-map
            (λ v k. All-map (λ f g u s. layout_from-ne-exhausted fuel u (omega (arith, g u s))) v k)
            (items.adt_info item).variant_fields (adt_falls item l))
          (λ en k.
            layout_from-ne-exhausted fuel en.discriminant_internal
              (omega (arith, discriminant_falls item l en k)))
    layout_from-ne-exhausted (suc fuel) (closure c l) h =
        bind-ne-exhausted (or_panic (items.closure_env c l)) _
          (or_panic-ne-exhausted (items.closure_env c l))
          (λ env p.
            bind-ne-exhausted (or_panic (is_concrete env) >>= check) _
              (bind-ne-exhausted (or_panic (is_concrete env)) check
                (or_panic-ne-exhausted (is_concrete env)) (λ b _. check-ne-exhausted b))
              (λ _ _.
                layout_from-ne-exhausted fuel env
                  (omega (arith, env_falls c l env (or_panic-done (items.closure_env c l) p)))))
    layout_from-ne-exhausted (suc fuel) _ h = λ e. cc
