-- ===== src/Drops/Runs.antt =====
-- Examples for src/types/drop.rs: an enum whose second variant has two fields to drop and one without
-- drop, and whose third variant has one.
use skitter.Prelude.{
  ℕ, ◌+◌, ◌^◌, ◌*◌, ◌≡◌, refl, true, false, Option, none, some, List, [], ◌∷◌, arith,
}
use skitter.Prelude.Int.{pos}
use skitter.Prelude.Run.{done}
use skitter.Types.Kind.{Ty, bool, adt, array, tuple, nil, cons, ConstGeneric, empty}
use skitter.Types.Items.{Items, AdtKind}
use skitter.Types.Subs.{sub}
use skitter.Vm.Words.{b32, wrap}
use skitter.Variants.{Discriminant, value}
use skitter.Drops.Glue.{
  disc_value, DropField, Dropped, same_bits, no_drop, gather_fields, gather_variants, drop_info_new,
}
use skitter.Drops.Expected.{is_stored, member_calls, expected_calls}
use skitter.Drops.Arrays.{Registers, for_array, run_array}
use skitter.Drops.Arrays.Laws.{elem_calls, for_array-calls}
use skitter.Drops.Info.{DropContext, drop_info, array_drop_info, array_len, by_fields, by_loop}

abbrev no_items : Items
no_items = record {
  adt_info = λ n. record { kind = AdtKind.struct; variant_fields = [] };
  resolve_associated_ty = λ n l. none;
  resolve_opaque = λ n l m. none;
  closure_env = λ n l. none;
}

abbrev named_glue : Ty → Option ℕ
named_glue (adt n subs) = some n
named_glue _ = none

abbrev three_discs : List Discriminant
three_discs = value (pos 0) ∷ value (pos 1) ∷ value (pos 2) ∷ []

abbrev three_variants : List (List Ty)
three_variants = [] ∷ (adt 7 empty ∷ bool ∷ adt 8 empty ∷ []) ∷ (adt 8 empty ∷ []) ∷ []

abbrev three_offsets : List (List ℕ)
three_offsets = [] ∷ (8 ∷ 16 ∷ 24 ∷ []) ∷ (8 ∷ []) ∷ []

abbrev three_fields : List DropField
three_fields =
    record { variant = 1; field_index = 0; offset = 8; ty = adt 7 empty }
    ∷ record { variant = 1; field_index = 2; offset = 24; ty = adt 8 empty }
    ∷ record { variant = 2; field_index = 0; offset = 8; ty = adt 8 empty }
    ∷ []

abbrev second_value : Dropped
second_value = record { self = 100; boxed = 0; width = b32; disc = pos 1 }

-- In 32 bits the discriminants 1 and 2 ^ 32 + 1 are one.
width_run : same_bits second_value (pos (2 ^ 32 + 1)) ≡ true
unfolding same_bits wrap
width_run = refl

three_expected :
    expected_calls named_glue three_discs second_value three_fields ≡ (7, 108) ∷ (8, 124) ∷ []
unfolding expected_calls is_stored member_calls disc_value
three_expected = refl

abbrev cleared : Registers
cleared = record { i = 0; inc = 0; max = 0; test = false; elem = 0 }

for_array-calls_example :
    run_array 100 0 (for_array 7 4 (some 3)) (6 * 3 + 6 + 0) 0 cleared []
    ≡ done (elem_calls 7 4 100 3)
for_array-calls_example =
    for_array-calls 100 0 7 4 (some 3) 0 cleared (omega arith) (omega arith) (omega arith)

three_elements : elem_calls 7 4 100 3 ≡ (7, 100) ∷ (7, 104) ∷ (7, 108) ∷ []
unfolding elem_calls
three_elements = refl

abbrev context : DropContext
context = record {
  items = no_items;
  glue_of = named_glue;
  env_drop_info = λ ty. none;
  elem_size = λ ty. some 4;
  field_offsets = λ ty. (0 ∷ 8 ∷ []) ∷ [];
  discriminants = λ item. [];
  find_drop = λ ty. none;
  is_manually_drop = λ item. false;
  is_box = λ item. false;
}

array_info :
    drop_info context (array (adt 7 empty) (ConstGeneric.value (pos 3)))
    ≡ some (by_loop (for_array 7 4 (some 3)))
unfolding drop_info array_drop_info array_len
array_info = refl

plain_info : drop_info context (tuple (cons bool (cons bool nil))) ≡ some (by_fields no_drop)
unfolding drop_info drop_info_new gather_variants gather_fields sub
plain_info = refl
