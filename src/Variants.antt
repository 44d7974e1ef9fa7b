-- ===== src/Variants.antt =====
-- src/variants.rs and the discriminants of `AdtInfo` in src/items.rs. Evaluating a constant takes the
-- whole virtual machine and is an argument: what it gives, if it gives anything, is bytes and a type.
pub mod Order
pub mod Lookup
mod Runs
use skitter.Prelude.{
  ℕ, suc, Bool, true, false, Option, none, some, List, [], ◌∷◌, ◌>>=◌, ◌>>◌, assert, ◌==◌,
  if◌then◌else◌, length,
}
use skitter.Prelude.Int.{ℤ, pos, ◌+ℤ◌, eqb_ℤ}
use skitter.Persist.Uint.{from_le_bytes}
use skitter.Types.Kind.{Ty, int, i8, isize, signed}
use skitter.Vm.Words.{b8, b64, to_signed}

pub data Discriminant : Type 0 where
  value : ℤ → Discriminant
  non_zero : Discriminant

-- Bytes of the wrong number panic, and so does any other type.
unfoldable pub from_bytes : List ℕ → Ty → Option Discriminant
from_bytes bytes (int i8 signed) =
    assert (length bytes == 1) >> some (value (to_signed b8 (from_le_bytes bytes)))
from_bytes bytes (int isize signed) =
    assert (length bytes == 8) >> some (value (to_signed b64 (from_le_bytes bytes)))
from_bytes bytes ty = none

-- `Discriminant::next`
unfoldable pub next_disc : Discriminant → Option Discriminant
next_disc non_zero = none
next_disc (value x) = some (value (x +ℤ pos 1))

-- `C` is a constant expression.
pub data DiscriminantSource (C : Type 0) : Type 0 where
  explicit : C → DiscriminantSource C
  -- `None` of the source.
  next no_source : DiscriminantSource C

module _ {C : Type 0} (const_eval : C → Option (List ℕ × Ty)) where
  -- The discriminant of a variant, where `following` is the one behind the variant before.
  unfoldable pub disc_of : DiscriminantSource C → Discriminant → Option Discriminant
  disc_of (explicit e) following = const_eval e >>= λ (bytes, ty). from_bytes bytes ty
  disc_of next following = some following
  disc_of no_source following = none

  unfoldable pub discriminants_from :
      Discriminant → List (DiscriminantSource C) → Option (List Discriminant)
  unfolding disc_of next_disc
  discriminants_from following [] = some []
  discriminants_from following (source ∷ sources) = disc_of source following >>= λ disc.
      next_disc disc >>= λ following'.
      discriminants_from following' sources >>= λ discs. some (disc ∷ discs)

  unfoldable pub variant_discriminants : List (DiscriminantSource C) → Option (List Discriminant)
  unfolding discriminants_from
  variant_discriminants sources = discriminants_from (value (pos 0)) sources

abbrev pub disc_eq : Discriminant → Discriminant → Bool
disc_eq (value a) (value b) = eqb_ℤ a b
disc_eq non_zero non_zero = true
disc_eq _ _ = false

-- The first variant with the discriminant, from index `i` on.
unfoldable pub find_from : ℕ → Discriminant → List Discriminant → Option ℕ
find_from i disc [] = none
find_from i disc (d ∷ discs) =
    let rest = find_from (suc i) disc discs in if disc_eq disc d then some i else rest

unfoldable pub index_for_discriminant : List Discriminant → Discriminant → Option ℕ
unfolding find_from
index_for_discriminant discs disc = find_from 0 disc discs
