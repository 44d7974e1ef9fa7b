-- ===== src/Types/Layout.antt =====
-- src/types/layout.rs and `Type::is_sized` of src/types/types.rs. Sizes are `u32` that wrap.
pub mod Compound
pub mod From
pub mod Fuel
pub mod Sized
pub mod Variants
mod Runs
use skitter.Prelude.{
  ℕ, zero, suc, ◌+◌, ◌-◌, ◌*◌, ◌%◌, ◌^◌, max, Bool, true, false, not, Option, none, some, List, [],
  ◌∷◌, length, replicate, if◌then◌else◌,
}
use skitter.Prelude.Int.{ℤ, pos, negsuc}
use skitter.Prelude.Run.{Run, done, panicked, exhausted, ◌>>=◌, ◌>>◌, or_panic, check, traverse}
use skitter.Abi.{pointer_size, align}
use skitter.Types.Kind.{
  IntWidth, i8, i16, i32, i64, i128, isize, f32, f64, ConstGeneric, value, Ty, int, float, char,
  bool, never, ref, ptr, tuple, array, slice, string_slice, function_def, adt, function_pointer,
  closure, dynamic_auto, dynamic, Tys, nil, cons, SubList,
}
use skitter.Types.Items.{Items, AdtKind, struct, union, enum}
use skitter.Types.Subs.{sub, is_concrete}

pub record Layout : Type 0 where
  pub maybe_size : Option ℕ
  pub align_to : ℕ
  -- The offsets of the fields of each variant.
  pub field_offsets : List (List ℕ)

abbrev pub u32 : ℕ → ℕ
u32 n = n % 2 ^ 32

abbrev pub assert_size : Layout → Run ℕ
assert_size l = or_panic l.maybe_size

abbrev pub simple : ℕ → Layout
simple size = record { maybe_size = some size; align_to = max size 1; field_offsets = [] }

abbrev pub int_size : IntWidth → ℕ
int_size i8 = 1
int_size i16 = 2
int_size i32 = 4
int_size i64 = 8
int_size i128 = 16
int_size isize = pointer_size

-- What `compound` updates as it goes: the alignment, and whether a field was unsized.
pub record Progress : Type 0 where
  pub full_size : ℕ
  pub align_to : ℕ
  pub is_unsized : Bool

abbrev pub size_or_zero : Layout → ℕ
size_or_zero l = elim l.maybe_size [ some n ↦ n | none ↦ 0 ]

abbrev pub is_none : Option ℕ → Bool
is_none none = true
is_none (some n) = false

-- The fields of one variant, from `size` on: their offsets, the size reached, the progress.
unfoldable pub place_fields : List Layout → ℕ → Progress → List ℕ × ℕ × Progress
place_fields [] size p = ([], size, p)
place_fields (layout ∷ fields) size p =
    let offset = align size layout.align_to in
    let p' = record p {
      align_to = max p.align_to layout.align_to;
      is_unsized = if is_none layout.maybe_size then true else p.is_unsized;
    } in
    let (offsets, end, q) = place_fields fields (u32 (offset + size_or_zero layout)) p' in
    (offset ∷ offsets, end, q)

unfoldable pub place_variants : ℕ → List (List Layout) → Progress → List (List ℕ) × Progress
unfolding place_fields
place_variants base_size [] p = ([], p)
place_variants base_size (fields ∷ variants) p =
    let (offsets, end, q) = place_fields fields base_size p in
    let (rest, r) =
      place_variants base_size variants (record q { full_size = max q.full_size end }) in
    (offsets ∷ rest, r)

-- `Layout::compound`, over the layouts of the fields and the size and alignment of a discriminant.
unfoldable pub compound : List (List Layout) → Option (ℕ × ℕ) → Layout
unfolding place_variants
compound variants disc =
    let base_size : ℕ = elim disc [ some (size, a) ↦ size | none ↦ 0 ] in
    let start : ℕ = elim disc [ some (size, a) ↦ a | none ↦ 1 ] in
    let (field_offsets, p) =
      place_variants base_size variants
        (record { full_size = 0; align_to = start; is_unsized = false }) in
    record {
      maybe_size = if p.is_unsized then none else some (align p.full_size p.align_to);
      align_to = p.align_to;
      field_offsets = field_offsets;
    }

-- The layout of a union, over the sizes and alignments of its fields.
unfoldable pub union_layout : List (ℕ × ℕ) → ℕ → ℕ → ℕ → Layout
union_layout [] count size a = record {
  maybe_size = some (align size a);
  align_to = a;
  field_offsets = replicate count 0 ∷ [];
}
union_layout ((s, b) ∷ fields) count size a = union_layout fields count (max size s) (max a b)

abbrev pub tys_list : Tys → List Ty
tys_list nil = []
tys_list (cons t ts) = t ∷ tys_list ts

-- `Variants::assert_single`
abbrev pub assert_single {ℓ} : {A : Type ℓ} → List A → Run A
assert_single (a ∷ []) = done a
assert_single _ = panicked

-- `count.get_value() as u32`
abbrev pub get_value : ConstGeneric → Run ℤ
get_value (value n) = done n
get_value _ = panicked

abbrev pub as_u32 : ℤ → ℕ
as_u32 (pos n) = u32 n
as_u32 (negsuc n) = 2 ^ 32 - 1 - u32 n

abbrev pub last {ℓ} : {A : Type ℓ} → List A → Option A
last [] = none
last (a ∷ []) = some a
last (a ∷ b ∷ l) = last (b ∷ l)

-- `Layout` of a scalar or a pointer with metadata, and of what has no fixed size.
abbrev pub fat_pointer : Layout
fat_pointer = record {
  maybe_size = some (pointer_size * 2);
  align_to = pointer_size;
  field_offsets = [];
}

abbrev pub unsized : ℕ → Layout
unsized a = record { maybe_size = none; align_to = a; field_offsets = [] }

module _ (items : Items) where
  -- The last field of a struct decides; `sized` is the recursive call.
  pub end_sized : (Ty → Run Bool) → SubList → Option Ty → Run Bool
  end_sized sized l none = done true
  end_sized sized l (some field) = or_panic (sub items l field) >>= sized

  pub struct_sized : (Ty → Run Bool) → SubList → AdtKind → List (List Ty) → Run Bool
  unfolding end_sized
  struct_sized sized l struct variant_fields =
      assert_single variant_fields >>= λ fields. end_sized sized l (last fields)
  struct_sized sized l union variant_fields = done true
  struct_sized sized l (enum e) variant_fields = done true

  pub is_sized : ℕ → Ty → Run Bool
  unfolding struct_sized
  is_sized zero t = exhausted
  is_sized (suc fuel) (slice t) = done false
  is_sized (suc fuel) string_slice = done false
  is_sized (suc fuel) (dynamic trait l autos is_dyn_star) = check (not is_dyn_star) >> done false
  is_sized (suc fuel) (dynamic_auto autos is_dyn_star) = check (not is_dyn_star) >> done false
  is_sized (suc fuel) (adt item l) =
      struct_sized (is_sized fuel) l (items.adt_info item).kind (items.adt_info item).variant_fields
  is_sized (suc fuel) t = done true

  pub pointer_layout : Bool → Layout
  pointer_layout true = simple pointer_size
  pointer_layout false = fat_pointer

  -- The size and the alignment of a layout that must be sized.
  pub sized_part : Layout → Run (ℕ × ℕ)
  sized_part l = assert_size l >>= λ size. done (size, l.align_to)

  -- The layout of a field; `layout` is the recursive call.
  abbrev pub field_layout : (Ty → Run Layout) → SubList → Ty → Run Layout
  field_layout layout l t = or_panic (sub items l t) >>= layout

  pub adt_layout : (Ty → Run Layout) → SubList → AdtKind → List (List Ty) → Run Layout
  unfolding sized_part compound union_layout
  adt_layout layout l union variant_fields = assert_single variant_fields >>= λ fields.
      traverse (λ t. field_layout layout l t >>= sized_part) fields >>= λ parts.
      done (union_layout parts (length fields) 0 1)
  adt_layout layout l struct variant_fields =
      traverse (traverse (field_layout layout l)) variant_fields >>= λ variants.
      done (compound variants none)
  adt_layout layout l (enum e) variant_fields = layout e.discriminant_internal >>= λ dl.
      sized_part dl >>= λ disc.
      traverse (traverse (field_layout layout l)) variant_fields >>= λ variants.
      done (compound variants (some disc))

  -- `Layout::from`.
  unfoldable pub layout_from : ℕ → Ty → Run Layout
  unfolding pointer_layout adt_layout is_sized
  layout_from zero t = exhausted
  layout_from (suc fuel) (int width sign) = done (simple (int_size width))
  layout_from (suc fuel) (float f32) = done (simple 4)
  layout_from (suc fuel) (float f64) = done (simple 8)
  layout_from (suc fuel) bool = done (simple 1)
  layout_from (suc fuel) char = done (simple 4)
  layout_from (suc fuel) (tuple fields) =
      traverse (layout_from fuel) (tys_list fields) >>= λ layouts.
      done (compound (layouts ∷ []) none)
  layout_from (suc fuel) (array elem_ty count) = layout_from fuel elem_ty >>= λ l.
      assert_size l >>= λ elem_size. get_value count >>= λ n. done (record {
        maybe_size = some (u32 (elem_size * as_u32 n));
        align_to = l.align_to;
        field_offsets = [];
      })
  layout_from (suc fuel) (slice elem_ty) =
      layout_from fuel elem_ty >>= λ l. done (unsized l.align_to)
  layout_from (suc fuel) string_slice = done (unsized 1)
  layout_from (suc fuel) (ref t m) = is_sized fuel t >>= λ b. done (pointer_layout b)
  layout_from (suc fuel) (ptr t m) = is_sized fuel t >>= λ b. done (pointer_layout b)
  layout_from (suc fuel) (function_pointer inputs output) = done (simple pointer_size)
  layout_from (suc fuel) (adt item l) =
      adt_layout (layout_from fuel) l (items.adt_info item).kind
        (items.adt_info item).variant_fields
  layout_from (suc fuel) (function_def item l) = done (simple 0)
  layout_from (suc fuel) never = done (simple 0)
  layout_from (suc fuel) (closure c l) = or_panic (items.closure_env c l) >>= λ env_ty.
      or_panic (is_concrete env_ty) >>= check >> layout_from fuel env_ty
  layout_from (suc fuel) _ = panicked
