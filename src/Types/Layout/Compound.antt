-- ===== src/Types/Layout/Compound.antt =====
-- `Layout::compound` of src/types/layout.rs: where it puts the fields of structs, tuples and enums.
use skitter.Prelude.{
  ℕ, ◌+◌, ◌%◌, ◌^◌, ◌≤◌, ◌≡◌, refl, max, true, List, [], ◌∷◌, All, arith, if◌then◌else◌, sym,
}
use mathlib.Core.Path.{subst}
use native.Mathlib.Nat.{mod-eq_of_lt}
use native.Mathlib.Decide.{dec_le}
use skitter.Abi.{align}
use skitter.Abi.Align.{IsAlign, one, two, four, eight, sixteen, align_least}
use skitter.Types.Layout.{Layout, Progress, u32, size_or_zero, is_none, place_fields}

-- Field after field in order, from `pos` on: each at a multiple of its alignment, behind the end of
-- the one before, and the last one ends at `end` or before. None is aligned to more than `a`.
abbrev pub Placed : ℕ → ℕ → List Layout → List ℕ → ℕ → Type 0
Placed a pos [] [] end = pos ≤ end
Placed a pos (l ∷ ls) (o ∷ os) end =
    (pos ≤ o) × (o % l.align_to ≡ 0) × (l.align_to ≤ a) × Placed a (o + size_or_zero l) ls os end
Placed a pos [] (o ∷ os) end = ⊥
Placed a pos (l ∷ ls) [] end = ⊥

-- Every variant's fields are placed so.
abbrev pub AllPlaced : ℕ → ℕ → List (List Layout) → List (List ℕ) → ℕ → Type 0
AllPlaced a base [] [] end = Unit
AllPlaced a base (v ∷ vs) (os ∷ oss) end = Placed a base v os end × AllPlaced a base vs oss end
AllPlaced a base [] (os ∷ oss) end = ⊥
AllPlaced a base (v ∷ vs) [] end = ⊥

-- The sizes of the fields, each with 16 bytes for padding.
abbrev pub room : List Layout → ℕ
room [] = 16
room (l ∷ ls) = size_or_zero l + 16 + room ls

abbrev pub HasAlign : Layout → Type 0
HasAlign l = IsAlign l.align_to

pub IsAlign-le : {a : ℕ} → IsAlign a → a ≤ 16
IsAlign-le one = omega arith
IsAlign-le two = omega arith
IsAlign-le four = omega arith
IsAlign-le eight = omega arith
IsAlign-le sixteen = omega arith

pub max_cases : (P : ℕ → Type 0) (a b : ℕ) → P a → P b → P (max a b)
max_cases P a b p q = elim (dec_le a b) [
  | yes h ↦ let e : b ≡ max a b = omega arith in subst P e q
  | no h ↦ let e : a ≡ max a b = omega arith in subst P e p
]

pub room_ge : (ls : List Layout) → 16 ≤ room ls
room_ge [] = omega arith
room_ge (l ∷ ls) = omega (arith, room_ge ls)

-- A larger bound on the alignment, and a later end, still serve.
pub Placed-weaken :
    (a b pos : ℕ) (ls : List Layout) (os : List ℕ) (end end' : ℕ)
    → a ≤ b
    → end ≤ end'
    → Placed a pos ls os end
    → Placed b pos ls os end'
Placed-weaken a b pos [] [] end end' h k p = omega arith
Placed-weaken a b pos (l ∷ ls) (o ∷ os) end end' h k (p, q, r, s) =
    (p, q, omega arith, Placed-weaken a b (o + size_or_zero l) ls os end end' h k s)
Placed-weaken a b pos [] (o ∷ os) end end' h k p = p
Placed-weaken a b pos (l ∷ ls) [] end end' h k p = p

-- What one variant adds: its fields are placed, the alignment only grows, and the end lies within
-- the room.
pub record PlacesFields (ls : List Layout) (size : ℕ) (p : Progress) (r : List ℕ × ℕ × Progress)
    : Type 0 where
  pub placed : Placed r.2.align_to size ls r.0 r.1
  pub grows : p.align_to ≤ r.2.align_to
  pub within : r.1 + 16 ≤ size + room ls
  pub aligned : IsAlign r.2.align_to
  pub same_full : r.2.full_size ≡ p.full_size

pub place_fields_lem :
    (ls : List Layout) (size : ℕ) (p : Progress)
    → All HasAlign ls
    → IsAlign p.align_to
    → size + room ls ≤ 2 ^ 32
    → PlacesFields ls size p (place_fields ls size p)
unfolding place_fields
place_fields_lem [] size p h a fits = record {
  placed = omega arith;
  grows = omega arith;
  within = omega arith;
  aligned = a;
  same_full = refl;
}
place_fields_lem (l ∷ ls) size p (k, ks) a fits =
    let (ge, lt, multiple) = align_least size k (omega (arith, IsAlign-le k, room_ge ls)) in
    let at = align size l.align_to + size_or_zero l in
    let exact : at ≡ u32 at = sym (mod-eq_of_lt (omega (arith, IsAlign-le k, room_ge ls))) in
    let p' : Progress = record p {
      align_to = max p.align_to l.align_to;
      is_unsized = if is_none l.maybe_size then true else p.is_unsized;
    } in
    let ih =
      place_fields_lem ls (u32 at) p' ks (max_cases IsAlign p.align_to l.align_to a k)
        (omega (arith, IsAlign-le k)) in
    record {
      placed = (
        ge,
        multiple,
        omega (arith, ih.grows),
        subst
            (λ (n : ℕ).
              Placed (place_fields ls (u32 at) p').2.align_to n ls (place_fields ls (u32 at) p').0
                (place_fields ls (u32 at) p').1)
            (sym exact) ih.placed,
      );
      grows = omega (arith, ih.grows);
      within = omega (arith, ih.within, IsAlign-le k);
      aligned = ih.aligned;
      same_full = ih.same_full;
    }
