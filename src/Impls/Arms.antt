-- ===== src/Impls/Arms.antt =====
-- The arms of `match_types` of src/impls.rs: what a match that succeeds went through.
use skitter.Prelude.{
  ℕ, ◌≡◌, ◌≢◌, refl, sym, ap, ◌||◌, ◌⊎◌, inl, inr, Bool, true, false, Option, none, some, ◌==◌,
  ==_iff, Bool-cases, if◌then◌else◌,
}
use mathlib.Core.Logic.{ite}
use skitter.Prelude.Int.{ℤ}
use skitter.Prelude.Run
use skitter.Prelude.Run.{Run, done, panicked, exhausted, or_panic}
use skitter.Types.Kind.{
  Mutability, ConstGeneric, value, param, Ty, ref, ptr, tuple, array, slice, associated_type, adt,
  Tys, SubList, Ty-discrete,
}
use skitter.Types.Subs.{is_concrete, usize_ty}
use skitter.Impls.SubMap.{Matched, ConstGeneric-discrete}
use skitter.Impls.Matching.{
  is_listed, mismatch, shortcut, match_const, and_then, adt_arm, ptr_arm, ref_arm, slice_arm,
  same_length, tuple_arm, array_arm, const_pair, same_mutability,
}

pub mismatch-ne :
    (b : Bool) (rhs : Ty) (m : SubList) {m' : SubList} → mismatch b rhs m ≢ done (true, m')
unfolding mismatch
mismatch-ne b (param n) m h = cc
mismatch-ne b (associated_type item l) m h = cc
mismatch-ne b rhs m h = stuck (b || is_listed rhs) h
  where
    stuck :
        (c : Bool) {m' : SubList}
        → if◌then◌else◌ {A = Matched} c (done (false, m)) panicked ≢ done (true, m')
    stuck true e = cc
    stuck false e = cc

pub and_then-done :
    (a : Matched) (b : SubList → Matched) {m' : SubList}
    → and_then a b ≡ done (true, m')
    → (m : SubList) × (a ≡ done (true, m)) × (b m ≡ done (true, m'))
unfolding and_then
and_then-done (done (true, m)) b h = (m, refl, h)
and_then-done (done (false, m)) b h = cc
and_then-done panicked b h = cc
and_then-done exhausted b h = cc

-- Either the sides are equal and concrete, or the rest succeeds.
pub shortcut-done :
    (lhs rhs : Ty) (m : SubList) (rest : Matched) {m' : SubList}
    → shortcut lhs rhs m rest ≡ done (true, m')
    → ((is_concrete lhs ≡ some true) × (lhs ≡ rhs) × (m ≡ m')) ⊎ (rest ≡ done (true, m'))
unfolding shortcut
shortcut-done lhs rhs m rest h = by (is_concrete lhs) (Ty-discrete lhs rhs) refl h
  where
    by :
        (o : Option Bool) (d : Dec (lhs ≡ rhs)) {m' : SubList}
        → is_concrete lhs ≡ o
        → Run.◌>>=◌ (or_panic o) (λ c. if c then ite d (done (true, m)) rest else rest)
          ≡ done (true, m')
        → ((is_concrete lhs ≡ some true) × (lhs ≡ rhs) × (m ≡ m')) ⊎ (rest ≡ done (true, m'))
    by none d e q = cc
    by (some false) d e q = inr q
    by (some true) (yes d) e q = inl (e, d, cc)
    by (some true) (no d) e q = inr q

pub adt_arm-done :
    (item : ℕ) (rhs : Ty) (go : SubList → SubList → Matched) (m : SubList) {m' : SubList}
    → adt_arm item rhs go m ≡ done (true, m')
    → (l : SubList) × (rhs ≡ adt item l) × (go l m ≡ done (true, m'))
unfolding adt_arm
adt_arm-done item (adt rhs_item l) go m h = elim (Bool-cases (item == rhs_item)) [
  | inl e ↦ (l, ap (λ i. adt i l) (sym ((==_iff item rhs_item).0 e)), (rw e at h))
  | inr e ↦ let q = rw e at h in cc
]
adt_arm-done item rhs go m h = absurd (mismatch-ne true rhs m h)

same_mutability_eq : (a b : Mutability) → same_mutability a b ≡ true → a ≡ b
same_mutability_eq Mutability.mut Mutability.mut h = refl
same_mutability_eq Mutability.const Mutability.const h = refl
same_mutability_eq _ _ h = cc

pub ptr_arm-done :
    (k : Mutability) (rhs : Ty) (go : Ty → SubList → Matched) (m : SubList) {m' : SubList}
    → ptr_arm k rhs go m ≡ done (true, m')
    → (t : Ty) × (rhs ≡ ptr t k) × (go t m ≡ done (true, m'))
unfolding ptr_arm
ptr_arm-done k (ptr t rhs_k) go m h = elim (Bool-cases (same_mutability k rhs_k)) [
  | inl e ↦ (t, ap (ptr t) (sym (same_mutability_eq k rhs_k e)), (rw e at h))
  | inr e ↦ let q = rw e at h in cc
]
ptr_arm-done k rhs go m h = absurd (mismatch-ne true rhs m h)

pub ref_arm-done :
    (k : Mutability) (rhs : Ty) (go : Ty → SubList → Matched) (m : SubList) {m' : SubList}
    → ref_arm k rhs go m ≡ done (true, m')
    → (t : Ty) × (rhs ≡ ref t k) × (go t m ≡ done (true, m'))
unfolding ref_arm
ref_arm-done k (ref t rhs_k) go m h = elim (Bool-cases (same_mutability k rhs_k)) [
  | inl e ↦ (t, ap (ref t) (sym (same_mutability_eq k rhs_k e)), (rw e at h))
  | inr e ↦ let q = rw e at h in cc
]
ref_arm-done k rhs go m h = absurd (mismatch-ne true rhs m h)

pub slice_arm-done :
    (rhs : Ty) (go : Ty → SubList → Matched) (m : SubList) {m' : SubList}
    → slice_arm rhs go m ≡ done (true, m')
    → (t : Ty) × (rhs ≡ slice t) × (go t m ≡ done (true, m'))
unfolding slice_arm
slice_arm-done (slice t) go m h = (t, refl, h)
slice_arm-done rhs go m h = absurd (mismatch-ne true rhs m h)

pub tuple_arm-done :
    (ts : Tys) (rhs : Ty) (go : Tys → SubList → Matched) (m : SubList) {m' : SubList}
    → tuple_arm ts rhs go m ≡ done (true, m')
    → (us : Tys) × (rhs ≡ tuple us) × (same_length ts us ≡ true) × (go us m ≡ done (true, m'))
unfolding tuple_arm
tuple_arm-done ts (tuple us) go m h = elim (Bool-cases (same_length ts us)) [
  | inl e ↦ (us, refl, e, (rw e at h))
  | inr e ↦ let q = rw e at h in cc
]
tuple_arm-done ts rhs go m h = absurd (mismatch-ne false rhs m h)

pub array_arm-done :
    (size : ConstGeneric) (rhs : Ty) (go : Ty → SubList → Matched) (m : SubList) {m' : SubList}
    → array_arm size rhs go m ≡ done (true, m')
    → (t : Ty) × (c : ConstGeneric) × (m1 : SubList) × (rhs ≡ array t c)
      × (go t m ≡ done (true, m1))
      × (match_const size c usize_ty m1 ≡ done (true, m'))
unfolding array_arm
array_arm-done size (array t c) go m h =
    let (m1, e, f) = and_then-done (go t m) (λ m'. match_const size c usize_ty m') h in
    (t, c, m1, refl, e, f)
array_arm-done size rhs go m h = absurd (mismatch-ne false rhs m h)

pub const_pair-done :
    (t : Ty) (c : ConstGeneric) (u : Ty) (d : ConstGeneric) (m : SubList) {m' : SubList}
    → const_pair t c u d m ≡ done (true, m')
    → (t ≡ u) × (match_const c d t m ≡ done (true, m'))
unfolding const_pair
const_pair-done t c u d m h = by (is_concrete t) (Ty-discrete t u) h
  where
    by :
        (o : Option Bool) (e : Dec (t ≡ u)) {m' : SubList}
        → Run.◌>>=◌ (or_panic o) (λ b. if b then ite e (match_const c d t m) panicked else panicked)
          ≡ done (true, m')
        → (t ≡ u) × (match_const c d t m ≡ done (true, m'))
    by none e q = cc
    by (some false) e q = cc
    by (some true) (yes e) q = (e, q)
    by (some true) (no e) q = cc

pub match_const-value :
    (v : ℤ) (d : ConstGeneric) (t : Ty) (m : SubList) {m' : SubList}
    → match_const (value v) d t m ≡ done (true, m')
    → (value v ≡ d) × (m ≡ m')
unfolding match_const
match_const-value v d t m h = by (ConstGeneric-discrete (value v) d) h
  where
    by :
        (e : Dec (value v ≡ d)) {m' : SubList}
        → ite {C = Matched} e (done (true, m)) panicked ≡ done (true, m')
        → (value v ≡ d) × (m ≡ m')
    by (yes e) q = (e, cc)
    by (no e) q = cc
