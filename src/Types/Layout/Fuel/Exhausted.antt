-- ===== src/Types/Layout/Fuel/Exhausted.antt =====
-- Steps of `Layout::from` of src/types/layout.rs that do not run out of fuel.
use skitter.Prelude.{◌≡◌, ◌≢◌, refl, Bool, true, false, Option, none, some, List, [], ◌∷◌, All}
use skitter.Prelude.Run.{Run, done, panicked, exhausted, ◌>>=◌, or_panic, check, traverse}
use skitter.Types.Kind.{ConstGeneric, value}
use skitter.Types.Layout.{get_value, assert_single}

pub bind-ne-exhausted :
    {A B : Type 0} (m : Run A) (f : A → Run B)
    → m ≢ exhausted
    → ((a : A) → m ≡ done a → f a ≢ exhausted)
    → (m >>= f) ≢ exhausted
bind-ne-exhausted (done a) f h k = k a refl
bind-ne-exhausted panicked f h k = λ e. cc
bind-ne-exhausted exhausted f h k = absurd (h refl)

pub done-ne-exhausted : {A : Type 0} (a : A) → done a ≢ exhausted
done-ne-exhausted a e = cc

pub or_panic-ne-exhausted : {A : Type 0} (o : Option A) → or_panic o ≢ exhausted
or_panic-ne-exhausted (some a) e = cc
or_panic-ne-exhausted none e = cc

pub check-ne-exhausted : (b : Bool) → check b ≢ exhausted
check-ne-exhausted true e = cc
check-ne-exhausted false e = cc

pub traverse-ne-exhausted :
    {A B : Type 0} (f : A → Run B) (xs : List A)
    → All (λ x. f x ≢ exhausted) xs
    → traverse f xs ≢ exhausted
traverse-ne-exhausted f [] h = λ e. cc
traverse-ne-exhausted f (x ∷ xs) (h, hs) = bind-ne-exhausted (f x) _ h (λ y _.
    bind-ne-exhausted (traverse f xs) _ (traverse-ne-exhausted f xs hs)
      (λ ys _. done-ne-exhausted (y ∷ ys)))

pub All-map :
    {A : Type 0} {P Q : A → Type 0} → ((a : A) → P a → Q a) → (xs : List A) → All P xs → All Q xs
All-map h [] p = tt
All-map h (x ∷ xs) (p, ps) = (h x p, All-map h xs ps)

pub assert_single-ne-exhausted : {A : Type 0} (l : List A) → assert_single l ≢ exhausted
assert_single-ne-exhausted [] e = cc
assert_single-ne-exhausted (a ∷ []) e = cc
assert_single-ne-exhausted (a ∷ b ∷ l) e = cc

pub get_value-ne-exhausted : (c : ConstGeneric) → get_value c ≢ exhausted
get_value-ne-exhausted (value n) e = cc
get_value-ne-exhausted _ e = cc
