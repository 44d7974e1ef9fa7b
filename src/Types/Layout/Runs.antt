-- ===== src/Types/Layout/Runs.antt =====
-- src/types/layout.rs on a generic pair, and the theorems at concrete inputs.
use mathlib.Core.Path.{subst}
use skitter.Prelude.{
  ℕ, zero, suc, ◌+◌, ◌%◌, ◌≤◌, ◌<◌, ◌≡◌, ◌≢◌, refl, ◌>>=◌, ap, ◌∙◌, sym, some, List, [], ◌∷◌, All,
  arith,
}
use skitter.Prelude.Run.{done, exhausted}
use skitter.Abi.{align}
use skitter.Abi.Align.{one, two, eight, four, align_least}
use skitter.Types.Kind.{
  Ty, Tys, Sub, SubList, tuple, adt, slice, ref, ptr, array, param, type, nil, cons, more, empty,
  lifetime, const,
}
use skitter.Types.Subs.{sub, get_sub, assert_ty}
use skitter.Types.Samples.{pairs, pair_of_word, byte}
use skitter.Types.Layout.{Layout, simple, compound, layout_from, tys_list, assert_single, last}
use skitter.Types.Layout.Variants.{IsSound, compound-IsSound}
use skitter.Types.Layout.Sized.{IsLaidOut}
use skitter.Types.Layout.From.{layout_from-IsLaidOut}
use skitter.Types.Layout.Fuel.{Ranks, layout_from-ne-exhausted}

pair_layout :
    layout_from pairs 3 pair_of_word
    ≡ done (record { maybe_size = some 8; align_to = 4; field_offsets = (0 ∷ 4 ∷ []) ∷ [] })
unfolding layout_from align sub get_sub assert_ty
pair_layout = refl

align_least_example : (13 ≤ align 13 8) × (align 13 8 < 13 + 8) × (align 13 8 % 8 ≡ 0)
align_least_example = align_least 13 eight (omega arith)

-- An enum with a tag of two bytes, and the variants `(u8, u32)` and `(u64)`.
abbrev variants : List (List Layout)
variants = (simple 1 ∷ simple 4 ∷ []) ∷ (simple 8 ∷ []) ∷ []

compound-IsSound_example : IsSound (some (2, 2)) variants (compound variants (some (2, 2)))
compound-IsSound_example =
    compound-IsSound variants (some (2, 2)) ((one, (four, tt)), ((eight, tt), tt)) two
      (omega arith, (omega arith, tt))

layout_from-IsLaidOut_example :
    IsLaidOut (record { maybe_size = some 8; align_to = 4; field_offsets = (0 ∷ 4 ∷ []) ∷ [] })
layout_from-IsLaidOut_example = layout_from-IsLaidOut pairs 3 pair_of_word _ pair_layout

-- The nesting of a type.
abbrev mutual
  nesting : Ty → ℕ
  nesting (tuple ts) = suc (nesting_all ts)
  nesting (array t c) = suc (nesting t)
  nesting (slice t) = suc (nesting t)
  nesting (ref t m) = suc (nesting t)
  nesting (ptr t m) = suc (nesting t)
  nesting (adt item l) = suc (nesting_subs l)
  nesting _ = 0

  nesting_all : Tys → ℕ
  nesting_all nil = 0
  nesting_all (cons t ts) = nesting t + nesting_all ts

  nesting_sub : Sub → ℕ
  nesting_sub (type t) = nesting t
  nesting_sub lifetime = 0
  nesting_sub (const t c) = 0

  nesting_subs : SubList → ℕ
  nesting_subs empty = 0
  nesting_subs (more s l) = nesting_sub s + nesting_subs l

first_subs :
    (l : SubList) (n : ℕ) (u : Ty)
    → (get_sub l n >>= assert_ty) ≡ some u
    → nesting u < suc (nesting_subs l)
unfolding get_sub assert_ty
first_subs empty n u e = cc
first_subs (more (type t) l) zero u e =
    let same : t ≡ u = cc in
    subst (λ (v : Ty). nesting v < suc (nesting t + nesting_subs l)) same (omega arith)
first_subs (more lifetime l) zero u e = cc
first_subs (more (const t c) l) zero u e = cc
first_subs (more s l) (suc n) u e = omega (arith, first_subs l n u e)

parts_nest : (ts : Tys) (n : ℕ) → nesting_all ts < n → All (λ t. nesting t < n) (tys_list ts)
parts_nest nil n h = tt
parts_nest (cons t ts) n h = (omega arith, parts_nest ts n (omega arith))

byte_nests : (l : SubList) (u : Ty) → sub pairs l byte ≡ some u → nesting u < suc (nesting_subs l)
unfolding sub
byte_nests l u e =
    let same : byte ≡ u = cc in
    subst (λ (v : Ty). nesting v < suc (nesting_subs l)) same (omega arith)

param_nests :
    (l : SubList) (u : Ty) → sub pairs l (param 0) ≡ some u → nesting u < suc (nesting_subs l)
unfolding sub
param_nests l u e = first_subs l 0 u e

last_param :
    (fields : List Ty) (f : Ty)
    → assert_single ((byte ∷ param 0 ∷ []) ∷ []) ≡ done fields
    → last fields ≡ some f
    → param 0 ≡ f
last_param fields f p q =
    let same : byte ∷ param 0 ∷ [] ≡ fields = cc in
    let found : last (byte ∷ param 0 ∷ []) ≡ some f = ap last same ∙ q in cc

nestings : Ranks pairs
nestings = record {
  rank = nesting;
  sized_rank = nesting;
  tuple_falls = λ fields. parts_nest fields (suc (nesting_all fields)) (omega arith);
  array_falls = λ t c. omega arith;
  slice_falls = λ t. omega arith;
  ref_falls = λ t m. omega arith;
  ptr_falls = λ t m. omega arith;
  adt_falls = λ item l. ((byte_nests l, (param_nests l, tt)), tt);
  discriminant_falls = λ item l e k. cc;
  env_falls = λ c l u e. cc;
  last_falls = λ item l fields f u p q e.
      param_nests l u
        (subst (λ (v : Ty). sub pairs l v ≡ some u) (sym (last_param fields f p q)) e);
}

layout_from-ne-exhausted_example : layout_from pairs 3 pair_of_word ≢ exhausted
unfolding nestings
layout_from-ne-exhausted_example =
    layout_from-ne-exhausted pairs nestings 3 pair_of_word (omega arith)
