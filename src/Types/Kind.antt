-- ===== src/Types/Kind.antt =====
-- src/types/types.rs and src/types/subs.rs: the kinds of types. A `Type` is an interned kind, and
-- two are the same pointer exactly if their kinds are equal, so a type is its kind here. An item, a
-- closure, a crate and a path are numbers.
use skitter.Prelude.{ℕ, Bool}
use skitter.Prelude.Int.{ℤ}
use native.Mathlib.Decide.{ℕ_discrete}

pub data IntSign : Type 0 where
  signed unsigned : IntSign

pub data IntWidth : Type 0 where
  i8 i16 i32 i64 i128 isize : IntWidth

pub data FloatWidth : Type 0 where
  f32 f64 : FloatWidth

pub data Mutability : Type 0 where
  mut const : Mutability

pub data ConstGeneric : Type 0 where
  value : ℤ → ConstGeneric
  param : ℕ → ConstGeneric
  error unknown : ConstGeneric

mutual
  pub data Ty : Type 0 where
    int : IntWidth → IntSign → Ty
    float : FloatWidth → Ty
    char bool never : Ty
    ref ptr : Ty → Mutability → Ty
    tuple : Tys → Ty
    array : Ty → ConstGeneric → Ty
    slice : Ty → Ty
    string_slice : Ty
    function_def adt associated_type : ℕ → SubList → Ty
    foreign : ℕ → ℕ → Ty
    opaque : ℕ → SubList → ℕ → Ty
    function_pointer : Tys → Ty → Ty
    closure : ℕ → SubList → Ty
    -- Without a primary trait, and with one.
    dynamic_auto : ℕ → Bool → Ty
    dynamic : ℕ → SubList → ℕ → Bool → Ty
    param : ℕ → Ty
    unknown : Ty

  -- `Vec<Type>`
  pub data Tys : Type 0 where
    nil : Tys
    cons : Ty → Tys → Tys

  pub data Sub : Type 0 where
    type : Ty → Sub
    lifetime : Sub
    const : Ty → ConstGeneric → Sub

  pub data SubList : Type 0 where
    empty : SubList
    more : Sub → SubList → SubList

unfoldable pub Ty-discrete : Discrete Ty
Ty-discrete = hlevel ℕ_discrete
