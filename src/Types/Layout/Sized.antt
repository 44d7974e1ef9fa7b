-- ===== src/Types/Layout/Sized.antt =====
-- `Layout::from` of src/types/layout.rs: the alignment and size of every type that has a layout.
use skitter.Prelude.{
  ℕ, ◌*◌, ◌/◌, ◌%◌, ◌≡◌, refl, max, Bool, true, false, none, some, List, [], ◌∷◌, All, arith,
  if◌then◌else◌, ap,
}
use mathlib.Core.Path.{subst}
use native.Mathlib.Nat.{mul_assoc}
use skitter.Prelude.Run.{done-eq, Run, done, ◌>>=◌, traverse, >>=-eq-done}
use skitter.Abi.{align}
use skitter.Abi.Align.{IsAlign, one, two, four, eight, sixteen, align-multiple}
use skitter.Types.Kind.{IntWidth, i8, i16, i32, i64, i128, isize}
use skitter.Types.Items.{Items}
use skitter.Types.Layout.{
  Layout, Progress, u32, place_fields, place_variants, compound, simple, int_size, union_layout,
  unsized, pointer_layout,
}
use skitter.Types.Layout.Compound.{max_cases}

-- The alignment is 1, 2, 4, 8 or 16, and divides the size, if there is one.
pub record IsLaidOut (l : Layout) : Type 0 where
  pub aligned : IsAlign l.align_to
  pub divides : (n : ℕ) → l.maybe_size ≡ some n → n % l.align_to ≡ 0

pub simple-IsLaidOut : (n : ℕ) → IsAlign n → IsLaidOut (simple n)
simple-IsLaidOut _ one = record {
  aligned = one;
  divides = λ n e. let same : 1 ≡ n = cc in omega arith;
}
simple-IsLaidOut _ two = record {
  aligned = two;
  divides = λ n e. let same : 2 ≡ n = cc in omega arith;
}
simple-IsLaidOut _ four = record {
  aligned = four;
  divides = λ n e. let same : 4 ≡ n = cc in omega arith;
}
simple-IsLaidOut _ eight = record {
  aligned = eight;
  divides = λ n e. let same : 8 ≡ n = cc in omega arith;
}
simple-IsLaidOut _ sixteen = record {
  aligned = sixteen;
  divides = λ n e. let same : 16 ≡ n = cc in omega arith;
}

pub empty-IsLaidOut : IsLaidOut (simple 0)
empty-IsLaidOut = record { aligned = one; divides = λ n e. omega arith }

pub unsized-IsLaidOut : (a : ℕ) → IsAlign a → IsLaidOut (unsized a)
unsized-IsLaidOut a h = record { aligned = h; divides = λ n e. cc }

pub pointer-IsLaidOut : (items : Items) (b : Bool) → IsLaidOut (pointer_layout items b)
unfolding pointer_layout
pointer-IsLaidOut items true = simple-IsLaidOut 8 eight
pointer-IsLaidOut items false = record {
  aligned = eight;
  divides = λ n e. let same : 16 ≡ n = cc in omega arith;
}

pub int_size-IsAlign : (w : IntWidth) → IsAlign (int_size w)
int_size-IsAlign i8 = one
int_size-IsAlign i16 = two
int_size-IsAlign i32 = four
int_size-IsAlign i64 = eight
int_size-IsAlign i128 = sixteen
int_size-IsAlign isize = eight

place_fields-IsAlign :
    (ls : List Layout) (size : ℕ) (p : Progress)
    → All IsLaidOut ls
    → IsAlign p.align_to
    → IsAlign (place_fields ls size p).2.align_to
unfolding place_fields
place_fields-IsAlign [] size p h a = a
place_fields-IsAlign (l ∷ ls) size p (h, hs) a =
    place_fields-IsAlign ls _ _ hs (max_cases IsAlign p.align_to l.align_to a h.aligned)

place_variants-IsAlign :
    (base : ℕ) (vs : List (List Layout)) (p : Progress)
    → All (All IsLaidOut) vs
    → IsAlign p.align_to
    → IsAlign (place_variants base vs p).1.align_to
unfolding place_variants
place_variants-IsAlign base [] p h a = a
place_variants-IsAlign base (v ∷ vs) p (h, hs) a =
    place_variants-IsAlign base vs _ hs (place_fields-IsAlign v base p h a)

rounded :
    (b : Bool) (full a n : ℕ)
    → IsAlign a
    → (if b then none else some (align full a)) ≡ some n
    → n % a ≡ 0
rounded true full a n h e = cc
rounded false full a n h e =
    let same : align full a ≡ n = cc in subst (λ (m : ℕ). m % a ≡ 0) same (align-multiple full h)

pub compound-IsLaidOut :
    (vs : List (List Layout)) (size a : ℕ)
    → All (All IsLaidOut) vs
    → IsAlign a
    → IsLaidOut (compound vs (some (size, a)))
unfolding compound
compound-IsLaidOut vs size a h k =
    let r =
      place_variants-IsAlign size vs (record { full_size = 0; align_to = a; is_unsized = false }) h
        k in
    record { aligned = r; divides = λ n e. rounded _ _ _ n r e }

-- No discriminant is one of size 0 and alignment 1.
pub compound-none : (vs : List (List Layout)) → compound vs none ≡ compound vs (some (0, 1))
unfolding compound
compound-none vs = refl

pub union-IsLaidOut :
    (parts : List (ℕ × ℕ)) (count size a : ℕ)
    → All (λ p. IsAlign p.1) parts
    → IsAlign a
    → IsLaidOut (union_layout parts count size a)
unfolding union_layout
union-IsLaidOut [] count size a h k = record {
  aligned = k;
  divides = λ n e.
      let same : align size a ≡ n = cc in subst (λ (m : ℕ). m % a ≡ 0) same (align-multiple size k);
}
union-IsLaidOut ((s, b) ∷ parts) count size a (h, hs) k =
    union-IsLaidOut parts count (max size s) (max a b) hs (max_cases IsAlign a b k h)

-- A multiple of a multiple, wrapped, is one.
pub times-multiple : (s c : ℕ) {a : ℕ} → IsAlign a → s % a ≡ 0 → u32 (s * c) % a ≡ 0
times-multiple s c one h = omega arith
times-multiple s c two h =
    let e : s ≡ 2 * (s / 2) = omega arith in
    omega (arith, ap (λ (t : ℕ). t * c) e, mul_assoc 2 (s / 2) c)
times-multiple s c four h =
    let e : s ≡ 4 * (s / 4) = omega arith in
    omega (arith, ap (λ (t : ℕ). t * c) e, mul_assoc 4 (s / 4) c)
times-multiple s c eight h =
    let e : s ≡ 8 * (s / 8) = omega arith in
    omega (arith, ap (λ (t : ℕ). t * c) e, mul_assoc 8 (s / 8) c)
times-multiple s c sixteen h =
    let e : s ≡ 16 * (s / 16) = omega arith in
    omega (arith, ap (λ (t : ℕ). t * c) e, mul_assoc 16 (s / 16) c)

-- What holds of each result of `f` holds of all that `traverse` collects.
pub traverse-All :
    {A B : Type 0} (Q : B → Type 0) (f : A → Run B)
    → ((a : A) (b : B) → f a ≡ done b → Q b)
    → (xs : List A) (ys : List B) → traverse f xs ≡ done ys
    → All Q ys
traverse-All Q f h [] ys e = let same : ◌≡◌ {A = List _} [] ys = done-eq e in subst (All Q) same tt
traverse-All Q f h (x ∷ xs) ys e =
    let (y, p, r) = >>=-eq-done (f x) (λ y. traverse f xs >>= λ ys. done (y ∷ ys)) e in
    let (zs, q, s) = >>=-eq-done (traverse f xs) (λ ys. done (y ∷ ys)) r in
    subst (All Q) (done-eq s) (h x y p, traverse-All Q f h xs zs q)
