-- ===== src/Variants/Runs.antt =====
-- The discriminants of `enum { A, B = 3, C, D }`, and the theorems at concrete inputs. A constant is the
-- one byte that it evaluates to, as an `i8`.
use skitter.Prelude.{ℕ, ◌+◌, ◌≡◌, ◌≢◌, ◌↔◌, refl, Option, some, List, [], ◌∷◌, get_elem?, arith}
use skitter.Prelude.Int.{pos, negsuc, ◌+ℤ◌}
use skitter.Persist.Uint.{from_le_bytes}
use skitter.Types.Kind.{Ty, int, IntWidth, IntSign}
use skitter.Vm.Words.{to_signed}
use skitter.Variants.{
  Discriminant, value, explicit, next, from_bytes, next_disc, variant_discriminants,
  index_for_discriminant,
}
use skitter.Variants.Order.{variant_discriminants-count}
use skitter.Variants.Lookup.{index_for_discriminant_iff}

abbrev const_eval : ℕ → Option (List ℕ × Ty)
const_eval b = some (b ∷ [], int IntWidth.i8 IntSign.signed)

abbrev discs : List Discriminant
discs = value (pos 0) ∷ value (pos 3) ∷ value (pos 4) ∷ value (pos 5) ∷ []

computed : variant_discriminants const_eval (next ∷ explicit 3 ∷ next ∷ next ∷ []) ≡ some discs
unfolding variant_discriminants next_disc from_bytes from_le_bytes to_signed
computed = refl

negative : from_bytes (255 ∷ []) (int IntWidth.i8 IntSign.signed) ≡ some (value (negsuc 0))
unfolding from_bytes from_le_bytes to_signed
negative = refl

variant_discriminants-count_example : get_elem? discs (1 + 2) ≡ some (value (pos 3 +ℤ pos 2))
unfolding from_bytes from_le_bytes to_signed
variant_discriminants-count_example =
    variant_discriminants-count const_eval (next ∷ []) 3 2 2 [] (pos 3) discs refl computed
      (omega arith)

distinct : (a b : ℕ) → a ≢ b → value (pos a) ≢ value (pos b)
distinct a b h e = h (let same : pos a ≡ pos b = cc in cc)

index_for_discriminant_iff_example :
    (index_for_discriminant discs (value (pos 4)) ≡ some 2)
    ↔ (get_elem? discs 2 ≡ some (value (pos 4)))
index_for_discriminant_iff_example = index_for_discriminant_iff discs (value (pos 4)) 2 (
  (
    distinct 0 3 (λ e. omega (arith, e)),
    (distinct 0 4 (λ e. omega (arith, e)), (distinct 0 5 (λ e. omega (arith, e)), tt)),
  ),
  (
    (distinct 3 4 (λ e. omega (arith, e)), (distinct 3 5 (λ e. omega (arith, e)), tt)),
    ((distinct 4 5 (λ e. omega (arith, e)), tt), (tt, tt)),
  ),
)
