-- ===== src/Types/Samples.antt =====
-- Types for the tests of src/types/: every item is `struct Pair<T>(u8, T)`, and nothing is associated
-- or opaque.
use skitter.Prelude.{none, [], ◌∷◌}
use skitter.Types.Kind.{Ty, IntSign, IntWidth, int, adt, param, type, more, empty}
use skitter.Types.Items.{Items, struct}

abbrev pub byte : Ty
byte = int IntWidth.i8 IntSign.unsigned

abbrev pub word : Ty
word = int IntWidth.i32 IntSign.signed

abbrev pub pairs : Items
pairs = record {
  adt_info = λ item. record { kind = struct; variant_fields = (byte ∷ param 0 ∷ []) ∷ [] };
  resolve_associated_ty = λ item l. none;
  resolve_opaque = λ item l path. none;
  closure_env = λ c l. none;
}

-- `Pair<i32>`
abbrev pub pair_of_word : Ty
pair_of_word = adt 0 (more (type word) empty)
