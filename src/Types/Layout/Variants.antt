-- ===== src/Types/Layout/Variants.antt =====
-- `Layout::compound` of src/types/layout.rs over all variants: the layout of structs, tuples, enums.
use skitter.Prelude.{
  ℕ, ◌+◌, ◌%◌, ◌^◌, ◌≤◌, ◌≡◌, max, Bool, true, false, Option, none, some, List, [], ◌∷◌, All, arith,
  if◌then◌else◌,
}
use mathlib.Core.Path.{subst}
use skitter.Abi.{align}
use skitter.Abi.Align.{IsAlign, align_least}
use skitter.Types.Layout.{Layout, Progress, place_fields, place_variants, compound}
use skitter.Types.Layout.Compound.{
  AllPlaced, room, HasAlign, IsAlign-le, Placed-weaken, place_fields_lem,
}

-- The room that every variant has behind the discriminant.
abbrev pub FitsFrom : ℕ → List (List Layout) → Type 0
FitsFrom base = All (λ v. base + room v ≤ 2 ^ 32)

record PlacesVariants (base : ℕ) (vs : List (List Layout)) (p : Progress)
    (r : List (List ℕ) × Progress) : Type 0 where
  placed : AllPlaced r.1.align_to base vs r.0 r.1.full_size
  grows : p.align_to ≤ r.1.align_to
  fuller : p.full_size ≤ r.1.full_size
  aligned : IsAlign r.1.align_to
  below : r.1.full_size + 16 ≤ 2 ^ 32

place_variants_lem :
    (base : ℕ) (vs : List (List Layout)) (p : Progress)
    → All (All HasAlign) vs
    → IsAlign p.align_to
    → FitsFrom base vs
    → p.full_size + 16 ≤ 2 ^ 32
    → PlacesVariants base vs p (place_variants base vs p)
unfolding place_variants
place_variants_lem base [] p h a fits b = record {
  placed = tt;
  grows = omega arith;
  fuller = omega arith;
  aligned = a;
  below = b;
}
place_variants_lem base (v ∷ vs) p (h, hs) a (f, fs) b =
    let q = place_fields v base p in
    let here = place_fields_lem v base p h a f in
    let p' : Progress = record (q.2) { full_size = max q.2.full_size q.1 } in
    let rest =
      place_variants_lem base vs p' hs here.aligned fs
        (omega (arith, here.within, here.same_full)) in
    record {
      placed = (
        Placed-weaken q.2.align_to _ base v q.0 q.1 _ rest.grows (omega (arith, rest.fuller))
            here.placed,
        rest.placed,
      );
      grows = omega (arith, here.grows, rest.grows);
      fuller = omega (arith, here.same_full, rest.fuller);
      aligned = rest.aligned;
      below = rest.below;
    }

abbrev pub base_size : Option (ℕ × ℕ) → ℕ
base_size (some (size, a)) = size
base_size none = 0

abbrev pub base_align : Option (ℕ × ℕ) → ℕ
base_align (some (size, a)) = a
base_align none = 1

-- A sound layout `l` of the variants `vs` behind a discriminant.
pub record IsSound (disc : Option (ℕ × ℕ)) (vs : List (List Layout)) (l : Layout) : Type 0 where
  pub end : ℕ
  -- Offsets are aligned, the fields of a variant do not overlap, nor do they overlap the
  -- discriminant, and no field is aligned to more than the whole.
  pub placed : AllPlaced l.align_to (base_size disc) vs l.field_offsets end
  pub aligned : IsAlign l.align_to
  pub align_covers : base_align disc ≤ l.align_to
  -- All fields lie within the size, which is a multiple of the alignment.
  pub inside : (n : ℕ) → l.maybe_size ≡ some n → (end ≤ n) × (n % l.align_to ≡ 0)

compound_inside :
    (b : Bool) (full a n : ℕ)
    → IsAlign a
    → full + 16 ≤ 2 ^ 32
    → (if b then none else some (align full a)) ≡ some n
    → (full ≤ n) × (n % a ≡ 0)
compound_inside true full a n h k e = cc
compound_inside false full a n h k e =
    let (ge, lt, multiple) = align_least full h (omega (arith, IsAlign-le h)) in
    let same : align full a ≡ n = cc in
    subst (λ (m : ℕ). (full ≤ m) × (m % a ≡ 0)) same (ge, multiple)

-- Fields with alignments of 1, 2, 4, 8 or 16, which with 16 bytes of padding each fit in 32 bits, get
-- a sound layout, behind a discriminant or none.
pub compound-IsSound :
    (vs : List (List Layout)) (disc : Option (ℕ × ℕ))
    → All (All HasAlign) vs
    → IsAlign (base_align disc)
    → FitsFrom (base_size disc) vs
    → IsSound disc vs (compound vs disc)
unfolding compound
compound-IsSound vs none h a f =
    let r =
      place_variants_lem 0 vs (record { full_size = 0; align_to = 1; is_unsized = false }) h a f
        (omega arith) in
    record {
      end =
          (place_variants 0 vs
            (record { full_size = 0; align_to = 1; is_unsized = false })).1.full_size;
      placed = r.placed;
      aligned = r.aligned;
      align_covers = r.grows;
      inside = λ n e. compound_inside _ _ _ n r.aligned r.below e;
    }
compound-IsSound vs (some (size, b)) h a f =
    let r =
      place_variants_lem size vs (record { full_size = 0; align_to = b; is_unsized = false }) h a f
        (omega arith) in
    record {
      end =
          (place_variants size vs
            (record { full_size = 0; align_to = b; is_unsized = false })).1.full_size;
      placed = r.placed;
      aligned = r.aligned;
      align_covers = r.grows;
      inside = λ n e. compound_inside _ _ _ n r.aligned r.below e;
    }
