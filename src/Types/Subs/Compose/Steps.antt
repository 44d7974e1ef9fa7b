-- ===== src/Types/Subs/Compose/Steps.antt =====
-- Parts of a substitution of src/types/subs.rs: what a chain that succeeds went through, and
-- substitution of a list of arguments.
use skitter.Prelude.{
  ℕ, ◌≡◌, refl, sym, ap, ◌∙◌, >>=-eq-some, Bool, true, false, Option, some, none, arith, ◌>>=◌,
  ◌>>◌, assert,
}
use skitter.Types.Kind.{
  ConstGeneric, Ty, tuple, function_def, adt, Tys, nil, cons, Sub, type, lifetime, const, SubList,
  empty, more,
}
use skitter.Types.Items.{Items}
use skitter.Types.Subs.{sub, sub_tys, sub_list, assert_ty, assert_const}

-- What a chain that ends in `some` went through.
pub shape :
    {A B : Type 0} (o : Option A) (f : A → B) {b : B}
    → (o >>= λ x. some (f x)) ≡ some b
    → (a : A) × (o ≡ some a) × (f a ≡ b)
shape (some a) f h = (a, refl, cc)
shape none f h = cc

pub shape₂ :
    {A B C : Type 0} (o : Option A) (p : Option B) (f : A → B → C) {c : C}
    → (o >>= λ x. p >>= λ y. some (f x y)) ≡ some c
    → (a : A) × (b : B) × (o ≡ some a) × (p ≡ some b) × (f a b ≡ c)
shape₂ (some a) (some b) f h = (a, b, refl, refl, cc)
shape₂ (some a) none f h = cc
shape₂ none p f h = cc

pub assert_const-some :
    (t : Ty) (s : Sub) (c : ConstGeneric) → assert_const t s ≡ some c → s ≡ const t c
assert_const-some t (type u) c h = unfold assert_const in cc
assert_const-some t lifetime c h = unfold assert_const in cc
assert_const-some t (const u d) c h = unfold assert_const in ground arith

pub assert_const_self : (t : Ty) (c : ConstGeneric) → assert_const t (const t c) ≡ some c
unfolding assert_const
assert_const_self t c = ground arith

pub assert_ty-some : (s : Sub) (t : Ty) → assert_ty s ≡ some t → s ≡ type t
unfolding assert_ty
assert_ty-some (type u) t h = cc
assert_ty-some lifetime t h = cc
assert_ty-some (const u c) t h = cc

pub after_ty : (o : Option Ty) → ((o >>= λ u. some (type u)) >>= assert_ty) ≡ o
unfolding assert_ty
after_ty (some u) = refl
after_ty none = refl

-- The shortcut for an empty list gives what the whole way would.
module _ (items : Items) (subs : SubList) where
  pub sub-tuple :
      (ts : Tys) → sub items subs (tuple ts) ≡ (sub_tys items subs ts >>= λ us. some (tuple us))
  unfolding sub
  sub-tuple nil = refl
  sub-tuple (cons t ts) = refl

  pub sub-adt :
      (item : ℕ) (l : SubList)
      → sub items subs (adt item l) ≡ (sub_list items subs l >>= λ k. some (adt item k))
  unfolding sub
  sub-adt item empty = refl
  sub-adt item (more s l) = refl

  pub sub-function_def :
      (item : ℕ) (l : SubList)
      → sub items subs (function_def item l)
        ≡ (sub_list items subs l >>= λ k. some (function_def item k))
  unfolding sub
  sub-function_def item empty = refl
  sub-function_def item (more s l) = refl

pub asserted :
    {A : Type 0} (b c : Bool) {d t : A} → (assert b >> (assert c >> some d)) ≡ some t → d ≡ t
asserted true true h = cc
asserted true false h = cc
asserted false c h = cc

-- The second option is what the first one is, where this is not none.
abbrev pub AtMost : {A : Type 0} → Option A → Option A → Type 0
AtMost {A} o p = (a : A) → o ≡ some a → p ≡ some a

pub AtMost-of_eq : {A : Type 0} {o p : Option A} → o ≡ p → AtMost o p
AtMost-of_eq e a h = sym e ∙ h

-- Between equal ends.
pub between : {A : Type 0} {o o' p p' : Option A} → o ≡ o' → AtMost o' p' → p' ≡ p → AtMost o p
between e h f a g = sym f ∙ h a (sym e ∙ g)

pub through :
    {A B : Type 0} {o p : Option A} (f : A → B)
    → AtMost o p
    → AtMost (o >>= λ x. some (f x)) (p >>= λ x. some (f x))
through {o = o} f h b e = let (a, q, r) = >>=-eq-some o (λ x. some (f x)) e in rw (h a q) r

pub through₂ :
    {A B C : Type 0} {o p : Option A} {o' p' : Option B} (f : A → B → C)
    → AtMost o p
    → AtMost o' p'
    → AtMost (o >>= λ x. o' >>= λ y. some (f x y)) (p >>= λ x. p' >>= λ y. some (f x y))
through₂ {o = o} {o' = o'} f h k c e =
    let (a, b, q, r, g) = shape₂ o o' f e in rw (h a q, k b r) (ap some g)
