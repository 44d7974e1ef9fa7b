-- ===== src/Drops/Groups.antt =====
-- The list of the fields to drop that `DropInfo::new` of src/types/drop.rs gathers goes through the
-- variants in order, and so falls into cases.
use skitter.Prelude.{
  ℕ, suc, ◌≤◌, ◌<◌, ◌≡◌, ◌⊎◌, refl, sym, ap, inl, inr, Option, some, List, [], ◌∷◌, arith, All,
}
use mathlib.Core.Path.{subst}
use mathlib.Core.List.{Memᴰ}
use mathlib.Core.List.Memᴰ.{cases_cons}
use skitter.Prelude.Int.{ℤ}
use skitter.Types.Kind.{Ty}
use skitter.Variants.{Discriminant}
use skitter.Drops.Glue.{disc_value, DropField}
use skitter.Drops.Cases.{GlueField, Case, drop_fields, all_fields, IsField, IsCase, Apart}

-- The variants of the fields do not go down, from a variant on.
unfoldable pub OrderedFrom : ℕ → List DropField → Type 0
OrderedFrom n [] = Unit
OrderedFrom n (f ∷ fs) = (n ≤ f.variant) × OrderedFrom f.variant fs

split : (a b : ℕ) → a ≤ b → (a ≡ b) ⊎ (a < b)
split a b h = ground arith

-- The variants of the cases go up, from a variant on.
unfoldable pub RisingFrom : ℕ → List Case → Type 0
RisingFrom n [] = Unit
RisingFrom n (c ∷ cs) = (n ≤ c.variant) × RisingFrom (suc c.variant) cs

RisingFrom-mem : (n : ℕ) (cs : List Case) (c : Case) → RisingFrom n cs → Memᴰ c cs → n ≤ c.variant
unfolding RisingFrom
RisingFrom-mem n [] d h m = elim m [ ]
RisingFrom-mem n (c ∷ cs) d (h, hs) m = elim (cases_cons m) [
  | inl e ↦ subst (λ x. n ≤ x.variant) (sym e) h
  | inr m' ↦ let later = RisingFrom-mem (suc c.variant) cs d hs m' in omega arith
]

pub RisingFrom-Apart : (n : ℕ) (cs : List Case) → RisingFrom n cs → Apart cs
unfolding RisingFrom Apart
RisingFrom-Apart n [] h = _
RisingFrom-Apart n (c ∷ cs) (h, hs) = (
  λ d m e. let later = RisingFrom-mem (suc c.variant) cs d hs m in omega arith,
  RisingFrom-Apart (suc c.variant) cs hs,
)

module _ (glue_of : Ty → Option ℕ) (discs : List Discriminant) where
  -- What the code asks of a field: glue for its type, a discriminant for its variant.
  pub record IsDropped (f : DropField) : Type 0 where
    pub glue : ℕ
    pub disc : ℤ
    pub has_glue : glue_of f.ty ≡ some glue
    pub has_disc : disc_value discs f.variant ≡ some disc

  pub record IsGrouped (n : ℕ) (fs : List DropField) (cs : List Case) : Type 0 where
    pub fields : all_fields cs ≡ fs
    pub rising : RisingFrom n cs
    pub cases : All (IsCase glue_of discs) cs

  abbrev member : (f : DropField) → IsDropped f → GlueField
  member f d = record { field = f; glue = d.glue }

  own : (f : DropField) (d : IsDropped f) → IsField glue_of discs f.variant (member f d)
  own f d = record { own = refl; has_glue = d.has_glue }

  join :
      (n : ℕ) (f : DropField) (fs : List DropField) (cs : List Case)
      → n ≤ f.variant
      → IsDropped f
      → IsGrouped f.variant fs cs
      → ((cs' : List Case) × IsGrouped n (f ∷ fs) cs')
  unfolding all_fields drop_fields RisingFrom
  join n f fs [] le d g = (
    record { variant = f.variant; disc = d.disc; first = member f d; others = [] } ∷ [],
    record {
      fields = ap (λ x. f ∷ x) g.fields;
      rising = (le, _);
      cases = (record { has_disc = d.has_disc; fields = (own f d, _) }, _);
    },
  )
  join n f fs (c ∷ cs) le d g = elim (split f.variant c.variant g.rising.0) [
    | inl same ↦ (
      record { variant = c.variant; disc = c.disc; first = member f d; others = c.first ∷ c.others }
          ∷ cs,
      record {
        fields = ap (λ x. f ∷ x) g.fields;
        rising = (subst (λ x. n ≤ x) same le, g.rising.1);
        cases = (
          record {
            has_disc = g.cases.0.has_disc;
            fields = (
              subst (λ x. IsField glue_of discs x (member f d)) same (own f d),
              g.cases.0.fields,
            );
          },
          g.cases.1,
        );
      },
    )
    | inr before ↦ (
      record { variant = f.variant; disc = d.disc; first = member f d; others = [] } ∷ c ∷ cs,
      record {
        fields = ap (λ x. f ∷ x) g.fields;
        rising = (le, (before, g.rising.1));
        cases = (record { has_disc = d.has_disc; fields = (own f d, _) }, g.cases);
      },
    )
  ]

  pub grouped :
      (n : ℕ) (fs : List DropField)
      → OrderedFrom n fs
      → All IsDropped fs
      → ((cs : List Case) × IsGrouped n fs cs)
  unfolding OrderedFrom all_fields RisingFrom
  grouped n [] o d = ([], record { fields = refl; rising = _; cases = _ })
  grouped n (f ∷ fs) (le, o) (d, ds) =
      let (cs, g) = grouped f.variant fs o ds in join n f fs cs le d g
