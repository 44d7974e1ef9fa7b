-- ===== src/Types/Items.antt =====
-- src/items.rs: what the types read of items. `resolve_associated_ty`, the opaque types of a
-- function's IR and the environment types of closures are arguments of the model: finding them takes
-- trait resolution and the front end.
use skitter.Prelude.{ℕ, Option, List}
use skitter.Types.Kind.{Ty, SubList}

pub record EnumInfo : Type 0 where
  pub discriminant_external : Ty
  pub discriminant_internal : Ty

pub data AdtKind : Type 0 where
  struct union : AdtKind
  enum : EnumInfo → AdtKind

pub record AdtInfo : Type 0 where
  pub kind : AdtKind
  -- The fields of each variant.
  pub variant_fields : List (List Ty)

pub record Items : Type 0 where
  pub adt_info : ℕ → AdtInfo
  pub resolve_associated_ty : ℕ → SubList → Option Ty
  pub resolve_opaque : ℕ → SubList → ℕ → Option Ty
  pub closure_env : ℕ → SubList → Option Ty
