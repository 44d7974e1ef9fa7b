-- ===== src/Drops/Info.antt =====
-- `Type::drop_info` of src/types/drop.rs: what dropping a type takes, by its kind. The drop information
-- of the types in it, which they cache, is an argument, and a panic is `none`.
use skitter.Prelude.{ℕ, Bool, true, false, Option, none, some, List, [], ◌∷◌, ◌>>=◌, if◌then◌else◌}
use skitter.Types.Kind.{
  Ty, int, float, char, bool, never, ref, ptr, tuple, array, slice, function_def, adt,
  function_pointer, closure, ConstGeneric, value, SubList, empty,
}
use skitter.Types.Items.{Items, AdtKind, struct, union, enum}
use skitter.Types.Subs.{get_sub, assert_ty}
use skitter.Types.Layout.{tys_list, as_u32}
use skitter.Variants.{Discriminant}
use skitter.Drops.Glue.{
  AdtShape, struct_shape, union_shape, enum_shape, DropInfo, drop_info_new, no_drop,
}
use skitter.Drops.Arrays.{ArrayInstr, for_array}

-- The glue of a type is either code for its fields, or the loop over elements.
pub data TypeDrop : Type 0 where
  by_fields : DropInfo → TypeDrop
  by_loop : List ArrayInstr → TypeDrop

-- What `drop_info` asks of other parts of the program.
pub record DropContext : Type 0 where
  pub items : Items
  -- The function that is the glue of a type that has one.
  pub glue_of : Ty → Option ℕ
  -- `drop_info` of the environment of a closure.
  pub env_drop_info : Ty → Option TypeDrop
  -- `layout().assert_size()`, and `layout().field_offsets`.
  pub elem_size : Ty → Option ℕ
  pub field_offsets : Ty → List (List ℕ)
  -- `variant_discriminants` of an enum.
  pub discriminants : ℕ → List Discriminant
  pub find_drop : Ty → Option ℕ
  pub is_manually_drop : ℕ → Bool
  pub is_box : ℕ → Bool

module _ (cx : DropContext) where
  unfoldable pub array_drop_info : Ty → Option (Option ℕ) → Option TypeDrop
  array_drop_info child len = elim (cx.glue_of child) [
    | none ↦ some (by_fields no_drop)
    | some elem_glue ↦
        len >>= λ n. cx.elem_size child >>= λ size. some (by_loop (for_array elem_glue size n))
  ]

  unfoldable pub array_len : ConstGeneric → Option (Option ℕ)
  array_len (value n) = some (some (as_u32 n))
  array_len _ = none

  unfoldable pub shape_of : AdtKind → ℕ → AdtShape
  shape_of struct item = struct_shape
  shape_of union item = union_shape
  shape_of (enum info) item = enum_shape (cx.discriminants item)

  -- The glue of the type in a box.
  unfoldable pub boxed_glue_of : ℕ → SubList → Option (Option ℕ)
  boxed_glue_of item subs = elim (cx.is_box item) [
    | true ↦ get_sub subs 0 >>= λ s. assert_ty s >>= λ boxed. some (cx.glue_of boxed)
    | false ↦ some none
  ]

  unfoldable pub adt_drop_info : ℕ → SubList → Option TypeDrop
  adt_drop_info item subs =
      let info = cx.items.adt_info item in
      boxed_glue_of item subs >>= λ boxed_glue.
      drop_info_new cx.glue_of cx.items (cx.find_drop (adt item subs)) info.variant_fields
        (cx.field_offsets (adt item subs)) subs (shape_of info.kind item) boxed_glue
      >>= λ drop. some (by_fields drop)

  unfoldable pub drop_info : Ty → Option TypeDrop
  drop_info bool = some (by_fields no_drop)
  drop_info char = some (by_fields no_drop)
  drop_info (int width sign) = some (by_fields no_drop)
  drop_info (float width) = some (by_fields no_drop)
  drop_info (ref ty mutability) = some (by_fields no_drop)
  drop_info (ptr ty mutability) = some (by_fields no_drop)
  drop_info (function_pointer args res) = some (by_fields no_drop)
  drop_info (function_def item subs) = some (by_fields no_drop)
  drop_info never = some (by_fields no_drop)
  drop_info (array child len) = array_drop_info child (array_len len)
  drop_info (slice child) = array_drop_info child (some none)
  drop_info (tuple fields) =
      drop_info_new cx.glue_of cx.items none (tys_list fields ∷ [])
        (cx.field_offsets (tuple fields)) empty struct_shape none
      >>= λ drop. some (by_fields drop)
  drop_info (closure id subs) = cx.items.closure_env id subs >>= cx.env_drop_info
  drop_info (adt item subs) =
      if cx.is_manually_drop item then some (by_fields no_drop) else adt_drop_info item subs
  drop_info _ = none
