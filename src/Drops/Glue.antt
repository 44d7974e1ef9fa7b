-- ===== src/Drops/Glue.antt =====
-- `DropInfo::new` and `DropGlue::new` of src/types/drop.rs. The slots of the code are three registers:
-- the pointer to the value, the discriminant, and a member, which holds a pointer, a number or a test.
-- A call is recorded with its argument. Jumps are those of build.rs.
use skitter.Prelude.{
  ℕ, zero, suc, ◌+◌, ◌-◌, Bool, true, false, ◌||◌, Option, none, some, List, [], ◌∷◌, ◌++◌, ◌==◌,
  ltb, if◌then◌else◌, ◌>>=◌, assert, length, get_elem?, set,
}
use skitter.Prelude.Int.{ℤ}
use skitter.Prelude.Run.{Run, done, panicked, exhausted}
use skitter.Types.Kind.{Ty, SubList}
use skitter.Vm.Words.{Bits, wrap}
use skitter.Variants.{Discriminant, value, non_zero}
use skitter.Types.Items.{Items}
use skitter.Types.Subs.{sub}

pub record DropField : Type 0 where
  pub variant : ℕ
  pub field_index : ℕ
  pub offset : ℕ
  pub ty : Ty

pub data GlueInstr : Type 0 where
  -- `Call` with the frame at the pointer, and at the member.
  call_self call_member : ℕ → GlueInstr
  -- `copy_from_ptr` of the pointer in a box, and of the discriminant.
  load_boxed load_disc : GlueInstr
  literal : ℤ → GlueInstr
  eq_disc : GlueInstr
  pointer_offset : ℕ → GlueInstr
  jump_f : ℕ → GlueInstr
  return_glue skipped : GlueInstr

pub data AdtShape : Type 0 where
  struct_shape union_shape : AdtShape
  -- The discriminants of the variants.
  enum_shape : List Discriminant → AdtShape

pub data DropInfo : Type 0 where
  no_drop : DropInfo
  leaf : List GlueInstr → DropInfo
  branch enum_drop : List GlueInstr → List DropField → DropInfo

abbrev pub is_drop : DropInfo → Bool
is_drop no_drop = false
is_drop _ = true

abbrev pub glue : DropInfo → Option (List GlueInstr)
glue no_drop = none
glue (leaf code) = some code
glue (branch code fields) = some code
glue (enum_drop code fields) = some code

-- `disc_values.get(variant).value()`, where a discriminant that is only known not to be 0 panics.
unfoldable pub disc_value : List Discriminant → ℕ → Option ℤ
disc_value [] variant = none
disc_value (value z ∷ discs) zero = some z
disc_value (non_zero ∷ discs) zero = none
disc_value (disc ∷ discs) (suc variant) = disc_value discs variant

-- `finish previous case`: a return, and the jump to behind it.
unfoldable pub finish_case : Option (ℕ × ℕ) → List GlueInstr → List GlueInstr
finish_case none code = code
finish_case (some (variant, last_jump)) code =
    let code' = code ++ return_glue ∷ [] in set code' last_jump (jump_f (length code' - last_jump))

unfoldable pub is_last : Option (ℕ × ℕ) → ℕ → Bool
is_last none variant = false
is_last (some (last, jump)) variant = last == variant

abbrev pub boxed_code : Option ℕ → List GlueInstr
boxed_code none = []
boxed_code (some boxed_glue) = load_boxed ∷ call_member boxed_glue ∷ []

abbrev pub drop_fn_code : Option ℕ → List GlueInstr
drop_fn_code none = []
drop_fn_code (some drop_fn) = call_self drop_fn ∷ []

abbrev pub is_some : Option ℕ → Bool
is_some none = false
is_some (some n) = true

-- `glue_of` is `ty.drop_info().glue()`, as the number of its function.
module _ (glue_of : Ty → Option ℕ) where
  unfoldable pub gather_fields :
      Items → SubList → List (List ℕ) → ℕ → ℕ → List Ty → Option (List DropField)
  gather_fields items subs field_offsets variant field_index [] = some []
  gather_fields items subs field_offsets variant field_index (ty ∷ tys) = do
    ty' ← sub items subs ty
    let rest = gather_fields items subs field_offsets variant (suc field_index) tys
    elim (glue_of ty') [
      | none ↦ rest
      | some field_glue ↦ get_elem? field_offsets variant >>= λ offsets.
          get_elem? offsets field_index >>= λ offset. rest >>= λ fields. some (
            record { variant = variant; field_index = field_index; offset = offset; ty = ty' }
            ∷ fields)
    ]

  unfoldable pub gather_variants :
      Items → SubList → List (List ℕ) → ℕ → List (List Ty) → Option (List DropField)
  gather_variants items subs field_offsets variant [] = some []
  gather_variants items subs field_offsets variant (tys ∷ variants) = do
    fields ← gather_fields items subs field_offsets variant 0 tys
    rest ← gather_variants items subs field_offsets (suc variant) variants
    some (fields ++ rest)

  unfoldable pub call_field : DropField → List GlueInstr → Option (List GlueInstr)
  call_field f code = do
    field_glue ← glue_of f.ty
    some (code ++ pointer_offset f.offset ∷ call_member field_glue ∷ [])

  unfoldable pub start_case :
      List Discriminant → ℕ → List GlueInstr → Option (Option (ℕ × ℕ) × List GlueInstr)
  start_case discs variant code = do
    disc_value ← disc_value discs variant
    some (some (variant, length code + 2), code ++ literal disc_value ∷ eq_disc ∷ skipped ∷ [])

  unfoldable pub enum_fields :
      List Discriminant → List DropField → Option (ℕ × ℕ) → List GlueInstr → Option (List GlueInstr)
  enum_fields discs [] last code = some (finish_case last code)
  enum_fields discs (f ∷ fs) last code = do
    (last', code') ←
        (if is_last last f.variant
          then some (last, code)
          else start_case discs f.variant (finish_case last code))
    code'' ← call_field f code'
    enum_fields discs fs last' code''

  unfoldable pub struct_fields : List DropField → List GlueInstr → Option (List GlueInstr)
  struct_fields [] code = some code
  struct_fields (f ∷ fs) code = do
    _ ← assert (f.variant == 0)
    code' ← call_field f code
    struct_fields fs code'

  -- The code behind that for a box and a drop function.
  unfoldable pub fields_code :
      List DropField → Option (List Discriminant) → List GlueInstr → Option (List GlueInstr)
  fields_code fields none code = struct_fields fields code
  fields_code fields (some discs) code = enum_fields discs fields none (code ++ load_disc ∷ [])

  unfoldable pub glue_new :
      Option ℕ → List DropField → Option (List Discriminant) → Option ℕ → Option (List GlueInstr)
  glue_new drop_fn fields disc_info boxed_glue = do
    _ ← assert (is_some drop_fn || ltb 0 (length fields))
    code ← fields_code fields disc_info (boxed_code boxed_glue ++ drop_fn_code drop_fn)
    some (code ++ return_glue ∷ [])

  abbrev disc_info_of : AdtShape → Option (List Discriminant)
  disc_info_of (enum_shape discs) = some discs
  disc_info_of _ = none

  -- The kind of a drop, where there is something to run.
  unfoldable pub classify : Option ℕ → List DropField → AdtShape → Option ℕ → Option DropInfo
  classify drop_fn fields union_shape boxed_glue = some no_drop
  classify none fields struct_shape boxed_glue =
      glue_new none fields none boxed_glue >>= λ code. some (branch code fields)
  classify none fields (enum_shape discs) boxed_glue =
      glue_new none fields (some discs) boxed_glue >>= λ code. some (enum_drop code fields)
  classify (some drop_fn) fields shape boxed_glue =
      glue_new (some drop_fn) fields (disc_info_of shape) boxed_glue >>= λ code. some (leaf code)

  unfoldable pub drop_info_new :
      Items
      → Option ℕ
      → List (List Ty)
      → List (List ℕ)
      → SubList
      → AdtShape
      → Option ℕ
      → Option DropInfo
  drop_info_new items drop_fn field_types field_offsets subs shape boxed_glue = do
    fields ← gather_variants items subs field_offsets 0 field_types
    (if ltb 0 (length fields) || is_some drop_fn
        then classify drop_fn fields shape boxed_glue
        else some no_drop)

pub data Cell : Type 0 where
  pointer : ℕ → Cell
  number : ℕ → Cell
  truth : Bool → Cell
  unset : Cell

-- The value that is dropped: its address, the pointer in it if it is a box, the width of
-- `discriminant_internal`, and the discriminant, of which memory has the bits of that width.
pub record Dropped : Type 0 where
  pub self : ℕ
  pub boxed : ℕ
  pub width : Bits
  pub disc : ℤ

-- The functions called, each with the pointer it is given.
abbrev pub Calls : Type 0
Calls = List (ℕ × ℕ)

-- Whether a literal of a discriminant and the discriminant in memory have the same bits: `I8_Eq` to
-- `I128_Eq` compare no others.
unfoldable pub same_bits : Dropped → ℤ → Bool
same_bits v z = wrap v.width z == wrap v.width v.disc

-- What an instruction does: go on at a place, return, or panic.
pub data Step : Type 0 where
  next : ℕ → Cell → Calls → Step
  stop panic : Step

unfoldable pub step : Dropped → GlueInstr → ℕ → Cell → Calls → Step
step v (call_self func) pc member calls = next (suc pc) member (calls ++ (func, v.self) ∷ [])
step v (call_member func) pc (pointer p) calls = next (suc pc) (pointer p) (calls ++ (func, p) ∷ [])
step v load_boxed pc member calls = next (suc pc) (pointer v.boxed) calls
step v load_disc pc member calls = next (suc pc) member calls
step v (literal z) pc member calls = next (suc pc) (number (wrap v.width z)) calls
step v eq_disc pc (number n) calls = next (suc pc) (truth (n == wrap v.width v.disc)) calls
step v (pointer_offset n) pc member calls = next (suc pc) (pointer (v.self + n)) calls
step v (jump_f dist) pc (truth true) calls = next (suc pc) (truth true) calls
step v (jump_f dist) pc (truth false) calls = next (pc + dist) (truth false) calls
step v return_glue pc member calls = stop
step v _ pc member calls = panic

unfoldable pub run_glue : Dropped → List GlueInstr → ℕ → ℕ → Cell → Calls → Run Calls
run_glue v code zero pc member calls = exhausted
run_glue v code (suc fuel) pc member calls = elim (get_elem? code pc) [
  | none ↦ panicked
  | some instr ↦ elim (step v instr pc member calls) [
    | next pc' member' calls' ↦ run_glue v code fuel pc' member' calls'
    | stop ↦ done calls
    | panic ↦ panicked
  ]
]
