-- ===== src/Drops/Gather.antt =====
-- The fields that `DropInfo::new` of src/types/drop.rs gathers: in the order of the variants, each with
-- glue for its type.
use skitter.Prelude.{
  ℕ, suc, ◌+◌, ◌≤◌, ◌<◌, ◌≡◌, ◌⊎◌, refl, sym, inl, inr, Option, none, some, List, [], ◌∷◌, ◌++◌,
  length, get_elem?, arith, All, >>=-eq-some,
}
use mathlib.Core.Path.{subst}
use skitter.Prelude.Int.{ℤ}
use skitter.Types.Kind.{Ty, SubList}
use skitter.Types.Items.{Items}
use skitter.Types.Subs.{sub}
use skitter.Variants.{Discriminant}
use skitter.Drops.Glue.{disc_value, DropField, gather_fields, gather_variants}
use skitter.Drops.Groups.{OrderedFrom, IsDropped}

pub split_option : (o : Option ℕ) → (o ≡ none) ⊎ ((n : ℕ) × (o ≡ some n))
split_option none = inl refl
split_option (some n) = inr (n, refl)

OrderedFrom-le : (m n : ℕ) (fs : List DropField) → n ≤ m → OrderedFrom m fs → OrderedFrom n fs
unfolding OrderedFrom
OrderedFrom-le m n [] le h = _
OrderedFrom-le m n (f ∷ fs) le (h, hs) = (omega arith, hs)

OrderedFrom-append :
    (n : ℕ) (gs fs : List DropField)
    → All (λ g. g.variant ≡ n) gs
    → OrderedFrom n fs
    → OrderedFrom n (gs ++ fs)
unfolding OrderedFrom
OrderedFrom-append n [] fs h o = o
OrderedFrom-append n (g ∷ gs) fs (h, hs) o =
    (omega arith, subst (λ x. OrderedFrom x (gs ++ fs)) (sym h) (OrderedFrom-append n gs fs hs o))

module _ (glue_of : Ty → Option ℕ) (discs : List Discriminant) (items : Items) (subs : SubList)
    (field_offsets : List (List ℕ)) where
  -- What is gathered for one variant.
  pub record IsGathered (variant : ℕ) (fs : List DropField) : Type 0 where
    pub own : All (λ f. f.variant ≡ variant) fs
    pub dropped : All (IsDropped glue_of discs) fs

  gather_fields-IsGathered :
      (variant i : ℕ) (disc : ℤ) (tys : List Ty) (fs : List DropField)
      → disc_value discs variant ≡ some disc
      → gather_fields glue_of items subs field_offsets variant i tys ≡ some fs
      → IsGathered variant fs
  unfolding gather_fields
  gather_fields-IsGathered variant i disc [] fs e h =
      let q : [] ≡ fs = cc in subst (IsGathered variant) q (record { own = _; dropped = _ })
  gather_fields-IsGathered variant i disc (ty ∷ tys) fs e h =
      let (ty', s, h1) = >>=-eq-some (sub items subs ty) _ h in
      elim (split_option (glue_of ty')) [
        | inl without ↦ gather_fields-IsGathered variant (suc i) disc tys fs e (rw without at h1)
        | inr (glue, has) ↦
            let (offsets, o, h2) = >>=-eq-some (get_elem? field_offsets variant) _ (rw has at h1) in
            let (offset, p, h3) = >>=-eq-some (get_elem? offsets i) _ h2 in
            let (rest, r, h4) =
              >>=-eq-some (gather_fields glue_of items subs field_offsets variant (suc i) tys) _
                h3 in
            let f : DropField = record {
              variant = variant;
              field_index = i;
              offset = offset;
              ty = ty';
            } in
            let q : f ∷ rest ≡ fs = cc in
            let behind = gather_fields-IsGathered variant (suc i) disc tys rest e r in
            subst (IsGathered variant) q (record {
              own = (refl, behind.own);
              dropped = (
                record { glue = glue; disc = disc; has_glue = has; has_disc = e },
                behind.dropped,
              );
            })
      ]

  All-append :
      (gs fs : List DropField)
      → All (IsDropped glue_of discs) gs
      → All (IsDropped glue_of discs) fs
      → All (IsDropped glue_of discs) (gs ++ fs)
  All-append [] fs h k = k
  All-append (g ∷ gs) fs (h, hs) k = (h, All-append gs fs hs k)

  pub gather_variants-OrderedFrom :
      (variant : ℕ) (variants : List (List Ty)) (fs : List DropField)
      → ((i : ℕ) → i < variant + length variants → (disc : ℤ) × (disc_value discs i ≡ some disc))
      → gather_variants glue_of items subs field_offsets variant variants ≡ some fs
      → OrderedFrom variant fs × All (IsDropped glue_of discs) fs
  unfolding gather_variants OrderedFrom
  gather_variants-OrderedFrom variant [] fs known h =
      let q : [] ≡ fs = cc in
      subst (λ x. OrderedFrom variant x × All (IsDropped glue_of discs) x) q (_, _)
  gather_variants-OrderedFrom variant (tys ∷ variants) fs known h =
      let (gs, e, h1) =
        >>=-eq-some (gather_fields glue_of items subs field_offsets variant 0 tys) _ h in
      let (rest, r, h2) =
        >>=-eq-some (gather_variants glue_of items subs field_offsets (suc variant) variants) _
          h1 in
      let q : gs ++ rest ≡ fs = cc in
      let (disc, d) = known variant (omega arith) in
      let here = gather_fields-IsGathered variant 0 disc tys gs d e in
      let (o, a) =
        gather_variants-OrderedFrom (suc variant) variants rest (λ i l. known i (omega arith)) r in
      subst (λ x. OrderedFrom variant x × All (IsDropped glue_of discs) x) q
        (
          OrderedFrom-append variant gs rest here.own
              (OrderedFrom-le (suc variant) variant rest (omega arith) o),
          All-append gs rest here.dropped a,
        )
