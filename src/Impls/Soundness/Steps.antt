-- ===== src/Impls/Soundness/Steps.antt =====
-- What a match of src/impls.rs leaves behind, and how two matches combine.
use mathlib.Core.Path.{subst}
use skitter.Prelude.{ℕ, ◌≡◌, ◌≢◌, refl, ap, true, some}
use skitter.Prelude.Run.{done}
use skitter.Types.Kind.{
  ConstGeneric, value, param, unknown, Ty, int, char, bool, tuple, adt, Tys, nil, cons, Sub, const,
  SubList, empty, more,
}
use skitter.Types.Items.{Items}
use skitter.Types.Subs.{sub, sub_tys, sub_list, const_sub}
use skitter.Types.Subs.Compose.Steps.{assert_const_self}
use skitter.Impls.SubMap.Below.{Below, Below-refl, Below-trans, Known, get_sub-Below}
use skitter.Impls.SubMap.Entries.{set_param_const-Fills}
use skitter.Impls.Matching.{match_const}
use skitter.Impls.Patterns.{is_size, is_const_ty}
use skitter.Impls.Arms.{match_const-value}

-- The substitution moves up, and `P` holds of everything above the new one.
pub record Sound (m m' : SubList) (P : SubList → Type 0) : Type 0 where
  pub below : Below m m'
  pub above : (upper : SubList) → Below m' upper → P upper

-- What holds whatever the substitution.
pub always : {m m' : SubList} (P : SubList → Type 0) → m ≡ m' → ((u : SubList) → P u) → Sound m m' P
always {m} {m'} P e h = record { below = subst (Below m) e (Below-refl m); above = λ u b. h u }

-- One match after another.
pub both_sound :
    {l m n : SubList} (P Q R : SubList → Type 0)
    → ((u : SubList) → P u → Q u → R u)
    → Sound l m P
    → Sound m n Q
    → Sound l n R
both_sound {l} {m} {n} P Q R join p q = record {
  below = Below-trans l m n p.below q.below;
  above = λ u b. join u (p.above u (Below-trans m n u q.below b)) (q.above u b);
}

pub weaken :
    {m m' : SubList} (P Q : SubList → Type 0)
    → ((u : SubList) → P u → Q u)
    → Sound m m' P
    → Sound m m' Q
weaken P Q f s = record { below = s.below; above = λ u b. f u (s.above u b) }

pub const_ty-known : (t : Ty) → is_const_ty t ≡ true → t ≢ unknown
unfolding is_const_ty
const_ty-known (int w s) h e = cc
const_ty-known bool h e = cc
const_ty-known char h e = cc
const_ty-known _ h e = cc

pub match_const-Sound :
    (c d : ConstGeneric) (t : Ty) (m : SubList) {m' : SubList}
    → match_const c d t m ≡ done (true, m')
    → is_size c ≡ true
    → t ≢ unknown
    → Sound m m' (λ u. const_sub u c t ≡ some d)
unfolding match_const is_size const_sub
match_const-Sound (value v) d t m h s n =
    let (e, f) = match_const-value v d t m h in
    always (λ u. some (value v) ≡ some d) f (λ u. ap some e)
match_const-Sound (param p) d t m h s n =
    let (b, g) = set_param_const-Fills p d t m h in
    record {
      below = b;
      above = λ u q.
          let k : Known (const t d) = record {
            not_type = λ e. cc;
            not_const = λ e. n (const_ty_eq e);
          } in
          rw (get_sub-Below _ u p (const t d) k q g) (assert_const_self t d);
    }
  where
    const_ty_eq : {a b : Ty} {x y : ConstGeneric} → ◌≡◌ {A = Sub} (const a x) (const b y) → a ≡ b
    const_ty_eq e = cc
match_const-Sound _ d t m h s n = cc

module _ (items : Items) (u : SubList) where
  pub sub-adt :
      (item : ℕ) (l k : SubList)
      → sub_list items u l ≡ some k
      → sub items u (adt item l) ≡ some (adt item k)
  unfolding sub sub_list
  sub-adt item empty k h = let e : empty ≡ k = cc in ap (λ x. some (adt item x)) e
  sub-adt item (more s l) k h = rw h refl

  pub sub-tuple :
      (ts us : Tys) → sub_tys items u ts ≡ some us → sub items u (tuple ts) ≡ some (tuple us)
  unfolding sub sub_tys
  sub-tuple nil us h = let e : nil ≡ us = cc in ap (λ x. some (tuple x)) e
  sub-tuple (cons t ts) us h = rw h refl
