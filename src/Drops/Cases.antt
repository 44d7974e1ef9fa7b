-- ===== src/Drops/Cases.antt =====
-- `DropGlue::new` of src/types/drop.rs on the fields of an enum, variant by variant: the code is one
-- case for each variant that has a field to drop, each jumping to the next where its test fails.
use skitter.Prelude.{
  ℕ, suc, ◌+◌, ◌-◌, ◌≡◌, ◌≢◌, refl, sym, ap, ◌∙◌, true, false, Option, none, some, List, [], ◌∷◌,
  ◌++◌, append-nil, append_assoc, ◌==◌, ==_iff, length, set, arith, length-append, All,
}
use mathlib.Core.List.{Memᴰ}
use mathlib.Core.List.Memᴰ.{head}
use skitter.Prelude.Int.{ℤ}
use skitter.Types.Kind.{Ty}
use skitter.Variants.{Discriminant}
use skitter.Drops.Glue.{
  disc_value, DropField, GlueInstr, call_member, literal, eq_disc, pointer_offset, jump_f,
  return_glue, skipped, finish_case, is_last, call_field, start_case, enum_fields,
}

pub set-append_cons :
    {A : Type 0} (xs : List A) (y z : A) (ys : List A)
    → set (xs ++ y ∷ ys) (length xs) z ≡ xs ++ z ∷ ys
set-append_cons [] y z ys = refl
set-append_cons (x ∷ xs) y z ys = ap (λ l. x ∷ l) (set-append_cons xs y z ys)

-- A field with the function of its glue, and a case with its variant, discriminant and fields.
pub record GlueField : Type 0 where
  pub field : DropField
  pub glue : ℕ

pub record Case : Type 0 where
  pub variant : ℕ
  pub disc : ℤ
  pub first : GlueField
  pub others : List GlueField

unfoldable pub calls_code : List GlueField → List GlueInstr
calls_code [] = []
calls_code (g ∷ gs) = pointer_offset g.field.offset ∷ call_member g.glue ∷ calls_code gs

abbrev pub case_body : Case → List GlueInstr
case_body c = calls_code (c.first ∷ c.others)

unfoldable pub case_code : Case → List GlueInstr
case_code c =
    literal c.disc ∷ eq_disc ∷ jump_f (length (case_body c) + 2) ∷ (case_body c ++ return_glue ∷ [])

unfoldable pub cases_code : List Case → List GlueInstr
cases_code [] = []
cases_code (c ∷ cs) = case_code c ++ cases_code cs

unfoldable pub drop_fields : List GlueField → List DropField
drop_fields [] = []
drop_fields (g ∷ gs) = g.field ∷ drop_fields gs

unfoldable pub all_fields : List Case → List DropField
all_fields [] = []
all_fields (c ∷ cs) = c.first.field ∷ (drop_fields c.others ++ all_fields cs)

-- One case after another, where no variant comes twice.
unfoldable pub Apart : List Case → Type 0
Apart [] = Unit
Apart (c ∷ cs) = ((d : Case) → Memᴰ d cs → c.variant ≢ d.variant) × Apart cs

module _ (glue_of : Ty → Option ℕ) (discs : List Discriminant) where
  pub record IsField (variant : ℕ) (g : GlueField) : Type 0 where
    pub own : g.field.variant ≡ variant
    pub has_glue : glue_of g.field.ty ≡ some g.glue

  pub record IsCase (c : Case) : Type 0 where
    pub has_disc : disc_value discs c.variant ≡ some c.disc
    pub fields : All (IsField c.variant) (c.first ∷ c.others)

  -- The fields of the variant of the open case only add calls.
  same_variant :
      (v j : ℕ) (gs : List GlueField) (rest : List DropField) (code : List GlueInstr)
      → All (IsField v) gs
      → enum_fields glue_of discs (drop_fields gs ++ rest) (some (v, j)) code
        ≡ enum_fields glue_of discs rest (some (v, j)) (code ++ calls_code gs)
  unfolding enum_fields drop_fields calls_code call_field is_last
  same_variant v j [] rest code h =
      ap (λ c. enum_fields glue_of discs rest (some (v, j)) c) (sym (append-nil code))
  same_variant v j (g ∷ gs) rest code (h, hs) =
      let test : (v == g.field.variant) ≡ true = (==_iff _ _).1 (sym h.own) in
      let calls = pointer_offset g.field.offset ∷ call_member g.glue ∷ [] in
      rw (test, h.has_glue)
        (same_variant v j gs rest (code ++ calls) hs
          ∙ ap (λ c. enum_fields glue_of discs rest (some (v, j)) c)
              (append_assoc code calls (calls_code gs)))

  -- A field of another variant, or the end, closes the open case.
  other_variant :
      (v j : ℕ) (cs : List Case) (code : List GlueInstr)
      → ((c : Case) → Memᴰ c cs → v ≢ c.variant)
      → All IsCase cs
      → enum_fields glue_of discs (all_fields cs) (some (v, j)) code
        ≡ enum_fields glue_of discs (all_fields cs) none (finish_case (some (v, j)) code)
  unfolding enum_fields all_fields is_last finish_case
  other_variant v j [] code n h = refl
  other_variant v j (c ∷ cs) code n (h, hs) =
      let own : c.first.field.variant ≡ c.variant = h.fields.0.own in
      let test : (v == c.first.field.variant) ≡ false =
        differs v c.first.field.variant (λ q. n c (head refl) (q ∙ own)) in
      rw test refl
    where
      differs : (a b : ℕ) → a ≢ b → (a == b) ≡ false
      differs a b q = ground arith

  finished :
      (c : Case) (code : List GlueInstr)
      → finish_case
          (some (c.variant, length code + 2))
          ((code ++ literal c.disc ∷ eq_disc ∷ skipped ∷ []) ++ case_body c)
        ≡ code ++ case_code c
  unfolding finish_case case_code
  finished c code =
      let body = case_body c in
      let pre = code ++ literal c.disc ∷ eq_disc ∷ [] in
      let post = body ++ return_glue ∷ [] in
      let shape : ((code ++ literal c.disc ∷ eq_disc ∷ skipped ∷ []) ++ body) ++ return_glue ∷ []
          ≡ pre ++ skipped ∷ post =
        append_assoc (code ++ literal c.disc ∷ eq_disc ∷ skipped ∷ []) body (return_glue ∷ [])
        ∙ append_assoc code (literal c.disc ∷ eq_disc ∷ skipped ∷ []) post
        ∙ sym (append_assoc code (literal c.disc ∷ eq_disc ∷ []) (skipped ∷ post)) in
      let place : length code + 2 ≡ length pre =
        sym (length-append code (literal c.disc ∷ eq_disc ∷ [])) in
      let dist : length (pre ++ skipped ∷ post) - (length code + 2) ≡ length body + 2 =
        ap (λ n. n - (length code + 2)) (length-append pre (skipped ∷ post))
        ∙ ap (λ n. (n + suc (length post)) - (length code + 2)) (sym place)
        ∙ ap (λ n. (length code + 2 + suc n) - (length code + 2))
            (length-append body (return_glue ∷ []))
        ∙ omega arith in
      rw (shape, dist, place)
        (set-append_cons pre skipped (jump_f (length body + 2)) post
          ∙ append_assoc code (literal c.disc ∷ eq_disc ∷ []) (jump_f (length body + 2) ∷ post))

  first_field :
      (c : Case) (rest : List DropField) (code : List GlueInstr)
      → IsCase c
      → enum_fields glue_of discs (c.first.field ∷ rest) none code
        ≡ enum_fields glue_of discs rest (some (c.variant, length code + 2)) (
            (code ++ literal c.disc ∷ eq_disc ∷ skipped ∷ [])
            ++ pointer_offset c.first.field.offset ∷ call_member c.first.glue ∷ [])
  unfolding enum_fields start_case call_field is_last finish_case
  first_field c rest code h = rw (h.fields.0.own, h.has_disc, h.fields.0.has_glue) refl

  pub enum_fields-cases :
      (cs : List Case) (code : List GlueInstr)
      → Apart cs
      → All IsCase cs
      → enum_fields glue_of discs (all_fields cs) none code ≡ some (code ++ cases_code cs)
  unfolding enum_fields all_fields cases_code Apart finish_case calls_code
  enum_fields-cases [] code a h = ap some (sym (append-nil code))
  enum_fields-cases (c ∷ cs) code (n, a) (h, hs) =
      let start = code ++ literal c.disc ∷ eq_disc ∷ skipped ∷ [] in
      let call = pointer_offset c.first.field.offset ∷ call_member c.first.glue ∷ [] in
      let last = some (c.variant, length code + 2) in
      first_field c (drop_fields c.others ++ all_fields cs) code h
      ∙ same_variant c.variant (length code + 2) c.others (all_fields cs) (start ++ call) h.fields.1
      ∙ ap (λ x. enum_fields glue_of discs (all_fields cs) last x)
          (append_assoc start call (calls_code c.others))
      ∙ other_variant c.variant (length code + 2) cs (start ++ case_body c) n hs
      ∙ ap (λ x. enum_fields glue_of discs (all_fields cs) none x) (finished c code)
      ∙ enum_fields-cases cs (code ++ case_code c) a hs
      ∙ ap some (append_assoc code (case_code c) (cases_code cs))
