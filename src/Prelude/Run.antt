-- ===== src/Prelude/Run.antt =====
-- The outcome of code that recurs on fuel: a value, a panic of the source, or no fuel left.
use skitter.Prelude.{◌≡◌, refl, Option, none, some, Bool, true, false, List, [], ◌∷◌}

pub data Run {ℓ} (A : Type ℓ) : Type ℓ where
  done : A → Run A
  panicked : Run A
  exhausted : Run A

infixl 5 ◌>>=◌ ◌>>◌
abbrev pub ◌>>=◌ {ℓ κ} : {A : Type ℓ} {B : Type κ} → Run A → (A → Run B) → Run B
done a >>= f = f a
panicked >>= f = panicked
exhausted >>= f = exhausted

abbrev pub ◌>>◌ {ℓ} : {B : Type ℓ} → Run (Unit {0}) → Run B → Run B
m >> k = m >>= λ _. k

abbrev pub or_panic {ℓ} : {A : Type ℓ} → Option A → Run A
or_panic (some a) = done a
or_panic none = panicked

abbrev pub check : Bool → Run (Unit {0})
check true = done tt
check false = panicked

abbrev pub traverse {ℓ κ} : {A : Type ℓ} {B : Type κ} → (A → Run B) → List A → Run (List B)
traverse f [] = done []
traverse f (x ∷ xs) = f x >>= λ y. traverse f xs >>= λ ys. done (y ∷ ys)

pub >>=-eq-done {ℓ κ} :
    {A : Type ℓ} {B : Type κ} (m : Run A) (f : A → Run B) {b : B}
    → (m >>= f) ≡ done b
    → (a : A) × (m ≡ done a) × (f a ≡ done b)
>>=-eq-done (done a) f h = (a, refl, h)
>>=-eq-done panicked f h = cc
>>=-eq-done exhausted f h = cc

pub done-eq {ℓ} : {A : Type ℓ} {a b : A} → done a ≡ done b → a ≡ b
done-eq e = cc

pub or_panic-done {ℓ} : {A : Type ℓ} (o : Option A) {a : A} → or_panic o ≡ done a → o ≡ some a
or_panic-done (some b) e = cc
or_panic-done none e = cc
