-- ===== src/Variants/Lookup.antt =====
-- `index_for_discriminant` of src/items.rs: the variant that a discriminant stands for.
use mathlib.Core.Path.{subst}
use skitter.Prelude.{
  false-ne-true, ℕ, zero, suc, ◌+◌, ◌≡◌, ◌≢◌, ◌↔◌, refl, ap, sym, ◌∙◌, inl, inr, true, some, List,
  [], ◌∷◌, All, get_elem?, arith, Bool-cases,
}
use skitter.Prelude.Int.{eqb_ℤ-eq, eqb_ℤ_self}
use skitter.Variants.{Discriminant, value, non_zero, disc_eq, find_from, index_for_discriminant}

-- No discriminant stands twice.
abbrev pub IsDistinct : List Discriminant → Type 0
IsDistinct [] = Unit
IsDistinct (d ∷ discs) = All (λ other. d ≢ other) discs × IsDistinct discs

disc_eq-eq : (d e : Discriminant) → disc_eq d e ≡ true → d ≡ e
disc_eq-eq (value a) (value b) h = ap value (eqb_ℤ-eq a b h)
disc_eq-eq (value a) non_zero h = absurd (false-ne-true h)
disc_eq-eq non_zero (value b) h = absurd (false-ne-true h)
disc_eq-eq non_zero non_zero h = refl

disc_eq_self : (d : Discriminant) → disc_eq d d ≡ true
disc_eq_self (value a) = eqb_ℤ_self a
disc_eq_self non_zero = refl

All-get :
    (P : Discriminant → Type 0) (discs : List Discriminant) (i : ℕ) {d : Discriminant}
    → All P discs
    → get_elem? discs i ≡ some d
    → P d
All-get P [] i h e = absurd (cc)
All-get P (c ∷ discs) zero (h, hs) e = let same : c ≡ _ = cc in subst P same h
All-get P (c ∷ discs) (suc i) (h, hs) e = All-get P discs i hs e

module _ (disc : Discriminant) where
  found-at :
      (start i : ℕ) (discs : List Discriminant)
      → find_from start disc discs ≡ some i
      → (j : ℕ) × (i ≡ start + j) × (get_elem? discs j ≡ some disc)
  unfolding find_from
  found-at start i [] e = absurd (cc)
  found-at start i (d ∷ discs) e = elim (Bool-cases (disc_eq disc d)) [
    | inl h ↦
        let here : start ≡ i = here_eq (rw h at e) in
        (0, sym here ∙ omega arith, ap some (sym (disc_eq-eq disc d h)))
    | inr h ↦
        let (j, p, q) = found-at (suc start) i discs (rw h at e) in (suc j, p ∙ omega arith, q)
  ]
    where
      here_eq : {a b : ℕ} → some a ≡ some b → a ≡ b
      here_eq e = cc

  finds :
      (start i : ℕ) (discs : List Discriminant)
      → IsDistinct discs
      → get_elem? discs i ≡ some disc
      → find_from start disc discs ≡ some (start + i)
  unfolding find_from
  finds start i [] h e = absurd (cc)
  finds start zero (d ∷ discs) h e =
      let same : d ≡ disc = cc in
      let hit : disc_eq disc d ≡ true =
        subst (λ c. disc_eq disc c ≡ true) (sym same) (disc_eq_self disc) in
      rw hit (ap some (omega arith))
  finds start (suc i) (d ∷ discs) (h, hs) e = elim (Bool-cases (disc_eq disc d)) [
    | inl k ↦ absurd (All-get (λ other. d ≢ other) discs i h e (sym (disc_eq-eq disc d k)))
    | inr k ↦ rw k (finds (suc start) i discs hs e ∙ ap some (omega arith))
  ]

-- Where no discriminant stands twice, `index_for_discriminant` gives variant `i` exactly for the
-- discriminant of variant `i`.
pub index_for_discriminant_iff :
    (discs : List Discriminant) (disc : Discriminant) (i : ℕ)
    → IsDistinct discs
    → (index_for_discriminant discs disc ≡ some i) ↔ (get_elem? discs i ≡ some disc)
unfolding index_for_discriminant
index_for_discriminant_iff discs disc i h = (
  λ e. let (j, p, q) = found-at disc 0 i discs e in ap (get_elem? discs) (p ∙ omega arith) ∙ q,
  λ e. finds disc 0 i discs h e ∙ ap some (omega arith),
)
