-- ===== src/Drops/Expected.antt =====
-- What dropping an enum should call, by its fields to drop and without reference to bytecode, against
-- the cases of the glue of src/types/drop.rs.
use skitter.Prelude.{
  ℕ, ◌+◌, ◌≡◌, refl, sym, ap, ◌∙◌, inl, inr, Bool, true, false, Bool-cases, ◌==◌, ==_iff,
  true-ne-false, Option, none, some, List, [], ◌∷◌, ◌++◌, append-nil, All, if◌then◌else◌,
}
use mathlib.Core.List.{Memᴰ}
use mathlib.Core.List.Memᴰ.{head, tail}
use skitter.Prelude.Int.{ℤ, pos, eqb_ℤ, eqb_ℤ-eq, eqb_ℤ_self}
use skitter.Vm.Words.{Bits, to_signed, wrap}
use skitter.Types.Kind.{Ty}
use skitter.Variants.{Discriminant}
use skitter.Drops.Glue.{disc_value, DropField, Dropped, Calls, same_bits}
use skitter.Drops.Cases.{GlueField, Case, drop_fields, all_fields, IsField, IsCase, Apart}
use skitter.Drops.Enums.{field_calls, case_calls}

-- Bits of a width as a number with or without a sign.
abbrev pub reading : Bits → Bool → ℕ → ℤ
reading w true n = to_signed w n
reading w false n = pos n

module _ (glue_of : Ty → Option ℕ) (discs : List Discriminant) (v : Dropped) where
  -- The value is of the variant.
  unfoldable pub is_stored : ℕ → Bool
  is_stored variant = elim (disc_value discs variant) [
    | none ↦ false
    | some disc ↦ eqb_ℤ disc v.disc
  ]

  -- The call for a field.
  unfoldable pub member_calls : DropField → Calls
  member_calls f = elim (glue_of f.ty) [ none ↦ [] | some glue ↦ (glue, v.self + f.offset) ∷ [] ]

  -- Of the fields to drop, in their order, those of the variant that the value is of.
  unfoldable pub expected_calls : List DropField → Calls
  expected_calls [] = []
  expected_calls (f ∷ fs) =
      (if is_stored f.variant then member_calls f else []) ++ expected_calls fs

  -- No two variants have the discriminant of the value.
  unfoldable pub IsTold : Type 0
  IsTold = (a b : ℕ) → is_stored a ≡ true → is_stored b ≡ true → a ≡ b

  -- The discriminants of the variants, and that of the value, fit into the width.
  pub record FitsWidth : Type 0 where
    pub is_signed : Bool
    pub variants :
        (variant : ℕ) (disc : ℤ)
        → disc_value discs variant ≡ some disc
        → reading v.width is_signed (wrap v.width disc) ≡ disc
    pub own : reading v.width is_signed (wrap v.width v.disc) ≡ v.disc

  same_bits-eqb :
      FitsWidth
      → (variant : ℕ) (disc : ℤ) → disc_value discs variant ≡ some disc
      → same_bits v disc ≡ eqb_ℤ disc v.disc
  unfolding same_bits
  same_bits-eqb f variant disc e = elim (Bool-cases (wrap v.width disc == wrap v.width v.disc)) [
    | inl h ↦
        let same : disc ≡ v.disc =
          sym (f.variants variant disc e)
          ∙ ap (reading v.width f.is_signed) ((==_iff _ _).0 h)
          ∙ f.own in
        h ∙ sym (ap (λ z. eqb_ℤ z v.disc) same ∙ eqb_ℤ_self v.disc)
    | inr h ↦ elim (Bool-cases (eqb_ℤ disc v.disc)) [
      | inl q ↦
          absurd
            (true-ne-false (sym ((==_iff _ _).1 (ap (wrap v.width) (eqb_ℤ-eq disc v.disc q))) ∙ h))
      | inr q ↦ h ∙ sym q
    ]
  ]

  stored_fields :
      (variant : ℕ) (gs : List GlueField) (rest : List DropField)
      → is_stored variant ≡ true
      → All (IsField glue_of discs variant) gs
      → expected_calls (drop_fields gs ++ rest) ≡ field_calls v.self gs ++ expected_calls rest
  unfolding expected_calls drop_fields field_calls member_calls
  stored_fields variant [] rest e h = refl
  stored_fields variant (g ∷ gs) rest e (h, hs) =
      let here : is_stored g.field.variant ≡ true = ap is_stored h.own ∙ e in
      rw (here, member_calls, h.has_glue)
        (ap (λ x. (g.glue, v.self + g.field.offset) ∷ x) (stored_fields variant gs rest e hs))

  other_fields :
      (variant : ℕ) (gs : List GlueField) (rest : List DropField)
      → is_stored variant ≡ false
      → All (IsField glue_of discs variant) gs
      → expected_calls (drop_fields gs ++ rest) ≡ expected_calls rest
  unfolding expected_calls drop_fields
  other_fields variant [] rest e h = refl
  other_fields variant (g ∷ gs) rest e (h, hs) =
      let here : is_stored g.field.variant ≡ false = ap is_stored h.own ∙ e in
      rw here (other_fields variant gs rest e hs)

  none_stored :
      (cs : List Case)
      → ((c : Case) → Memᴰ c cs → is_stored c.variant ≡ false)
      → All (IsCase glue_of discs) cs
      → expected_calls (all_fields cs) ≡ []
  unfolding all_fields expected_calls drop_fields
  none_stored [] n h = refl
  none_stored (c ∷ cs) n (h, hs) =
      other_fields c.variant (c.first ∷ c.others) (all_fields cs) (n c (head refl)) h.fields
      ∙ none_stored cs (λ d m. n d (tail m)) hs

  case_stored : (c : Case) → IsCase glue_of discs c → is_stored c.variant ≡ eqb_ℤ c.disc v.disc
  unfolding is_stored
  case_stored c h = rw (is_stored, h.has_disc) refl

  pub case_calls-expected :
      (cs : List Case)
      → IsTold
      → FitsWidth
      → Apart cs
      → All (IsCase glue_of discs) cs
      → case_calls v cs ≡ expected_calls (all_fields cs)
  unfolding all_fields drop_fields Apart case_calls IsTold expected_calls
  case_calls-expected [] u f a h = refl
  case_calls-expected (c ∷ cs) u f (n, a) (h, hs) = elim (Bool-cases (is_stored c.variant)) [
    | inl here ↦
        let test : same_bits v c.disc ≡ true =
          same_bits-eqb f c.variant c.disc h.has_disc ∙ sym (case_stored c h) ∙ here in
        let others : (d : Case) → Memᴰ d cs → is_stored d.variant ≡ false = λ d m.
          elim (Bool-cases (is_stored d.variant)) [
            | inl there ↦ absurd (n d m (u c.variant d.variant here there))
            | inr there ↦ there
          ] in
        rw test (
          sym (
            stored_fields c.variant (c.first ∷ c.others) (all_fields cs) here h.fields
            ∙ ap (λ x. field_calls v.self (c.first ∷ c.others) ++ x) (none_stored cs others hs)
            ∙ append-nil (field_calls v.self (c.first ∷ c.others))))
    | inr there ↦
        let test : same_bits v c.disc ≡ false =
          same_bits-eqb f c.variant c.disc h.has_disc ∙ sym (case_stored c h) ∙ there in
        rw test (
          case_calls-expected cs u f a hs
          ∙ sym (other_fields c.variant (c.first ∷ c.others) (all_fields cs) there h.fields))
  ]
