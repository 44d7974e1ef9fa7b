-- ===== src/Impls/SubMap/Below.antt =====
-- `SubMap` of src/impls.rs: a substitution is below another where it differs from it only in entries
-- that are not yet known. Matching only moves up.
use skitter.Prelude.{ℕ, zero, suc, ◌≡◌, ◌≢◌, refl, sym, ap, ◌∙◌, some}
use mathlib.Core.Path.{subst}
use skitter.Types.Kind.{ConstGeneric, unknown, Ty, Sub, type, const, SubList, empty, more}
use skitter.Types.Subs.{get_sub}
use skitter.Impls.SubMap.{set_sub}

pub data Refines (s r : Sub) : Type 0 where
  same : s ≡ r → Refines s r
  new_type : (t : Ty) → s ≡ type unknown → r ≡ type t → Refines s r
  new_const : (t : Ty) (c : ConstGeneric) → s ≡ const unknown unknown → r ≡ const t c → Refines s r

-- The same entries, but for those that are unknown in the first list.
unfoldable pub Below : SubList → SubList → Type 0
Below empty empty = Unit
Below empty (more r k) = ⊥
Below (more s l) empty = ⊥
Below (more s l) (more r k) = Refines s r × Below l k

pub Below-refl : (m : SubList) → Below m m
unfolding Below
Below-refl empty = tt
Below-refl (more s l) = (same refl, Below-refl l)

refines_trans : (s r q : Sub) → Refines s r → Refines r q → Refines s q
refines_trans s r q (same e) h = subst (λ x. Refines x q) (sym e) h
refines_trans s r q h (same e) = subst (λ x. Refines s x) e h
refines_trans s r q (new_type t e f) (new_type u g h) = new_type u e h
refines_trans s r q (new_const t c e f) (new_const u d g h) = new_const u d e h
refines_trans s r q (new_type t e f) (new_const u d g h) = cc
refines_trans s r q (new_const t c e f) (new_type u g h) = cc

pub Below-trans : (l m n : SubList) → Below l m → Below m n → Below l n
unfolding Below
Below-trans empty empty n a b = b
Below-trans empty (more r m) n a b = absurd a
Below-trans (more s l) empty n a b = absurd a
Below-trans (more s l) (more r m) empty a b = absurd b
Below-trans (more s l) (more r m) (more q n) (a, as') (b, bs) =
    (refines_trans s r q a b, Below-trans l m n as' bs)

-- An entry that is known.
pub record Known (s : Sub) : Type 0 where
  pub not_type : s ≢ type unknown
  pub not_const : s ≢ const unknown unknown

pub get_sub-Below :
    (l m : SubList) (n : ℕ) (s : Sub)
    → Known s
    → Below l m
    → get_sub l n ≡ some s
    → get_sub m n ≡ some s
unfolding Below get_sub
get_sub-Below empty m n s k b e = cc
get_sub-Below (more r l) empty n s k b e = absurd b
get_sub-Below (more r l) (more q m) zero s k (Refines.same f, b) e = ap some (sym f) ∙ e
get_sub-Below (more r l) (more q m) zero s k (Refines.new_type t f g, b) e =
    let other : s ≡ type unknown = cc in absurd (k.not_type other)
get_sub-Below (more r l) (more q m) zero s k (Refines.new_const t c f g, b) e =
    let other : s ≡ const unknown unknown = cc in absurd (k.not_const other)
get_sub-Below (more r l) (more q m) (suc n) s k (f, b) e = get_sub-Below l m n s k b e

pub get_sub-set_sub :
    (l : SubList) (n : ℕ) (r s : Sub) → get_sub l n ≡ some r → get_sub (set_sub l n s) n ≡ some s
unfolding get_sub set_sub
get_sub-set_sub empty n r s e = cc
get_sub-set_sub (more q l) zero r s e = refl
get_sub-set_sub (more q l) (suc n) r s e = get_sub-set_sub l n r s e

-- An entry is set to what refines it.
pub Below-set_sub :
    (l : SubList) (n : ℕ) (r s : Sub) → get_sub l n ≡ some r → Refines r s → Below l (set_sub l n s)
unfolding Below get_sub set_sub
Below-set_sub empty n r s e h = cc
Below-set_sub (more q l) zero r s e h =
    let eq : q ≡ r = cc in (subst (λ x. Refines x s) (sym eq) h, Below-refl l)
Below-set_sub (more q l) (suc n) r s e h = (same refl, Below-set_sub l n r s e h)

-- It stays below a list that has the new entry.
pub set_sub-Below :
    (l m : SubList) (n : ℕ) (s : Sub) → Below l m → get_sub m n ≡ some s → Below (set_sub l n s) m
unfolding Below get_sub set_sub
set_sub-Below empty empty n s b e = b
set_sub-Below empty (more q m) n s b e = absurd b
set_sub-Below (more r l) empty n s b e = absurd b
set_sub-Below (more r l) (more q m) zero s (h, b) e = let eq : s ≡ q = cc in (same eq, b)
set_sub-Below (more r l) (more q m) (suc n) s (h, b) e = (h, set_sub-Below l m n s b e)

-- What stands below an entry of a list above.
pub Below-entry :
    (l m : SubList) (n : ℕ) (r : Sub)
    → Below l m
    → get_sub m n ≡ some r
    → (s : Sub) × (get_sub l n ≡ some s) × Refines s r
unfolding Below get_sub
Below-entry empty empty n r b e = cc
Below-entry empty (more q m) n r b e = absurd b
Below-entry (more s l) empty n r b e = absurd b
Below-entry (more s l) (more q m) zero r (h, b) e =
    let eq : q ≡ r = cc in (s, refl, subst (λ x. Refines s x) eq h)
Below-entry (more s l) (more q m) (suc n) r (h, b) e = Below-entry l m n r b e
