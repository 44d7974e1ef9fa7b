-- ===== src/Impls/Bounds/Laws.antt =====
-- `ImplBounds::check` of src/impls.rs: the substitution that it returns makes the types of the impl
-- the types asked for.
use mathlib.Core.Path.{subst}
use skitter.Prelude.{
  ℕ, suc, ◌≡◌, refl, Bool, true, false, Option, none, some, ◌>>=◌, List, [], ◌∷◌, le→ltb_false,
  if◌then◌else◌, arith,
}
use skitter.Prelude.Run
use skitter.Prelude.Run.{or_panic-done, Run, done, panicked, exhausted, or_panic, >>=-eq-done}
use skitter.Types.Kind.{Ty, SubList}
use skitter.Types.Items.{Items}
use skitter.Types.Subs.{sub_list, is_concrete, subs_concrete}
use skitter.Impls.SubMap.{Matched, from_summary}
use skitter.Impls.SubMap.Below.{Below, Below-refl, Below-trans}
use skitter.Impls.Matching.{match_types, match_subs}
use skitter.Impls.Patterns.{sub_count, is_pattern, list_pattern, has_arities, list_arities}
use skitter.Impls.Soundness.{matching-Sound, matching_subs-Sound}
use skitter.Impls.Bounds.{BoundKind, ImplBounds, check_bounds, hand_on, check}

-- The types that projections are compared with are patterns.
unfoldable pub HasPatterns : (ℕ → ℕ) → List BoundKind → Type 0
HasPatterns arity [] = Unit
HasPatterns arity (BoundKind.trait item subs ∷ bounds) = HasPatterns arity bounds
HasPatterns arity (BoundKind.projection item subs eq_ty ∷ bounds) =
    (is_pattern arity eq_ty ≡ true) × HasPatterns arity bounds

-- What holds of the substitution after a match that succeeds.
unfoldable pub After : Matched → (SubList → Type 0) → Type 0
After (done (true, m)) P = P m
After r P = Unit

-- What holds of a type that is resolved.
unfoldable pub Resolved : (Ty → Type 0) → Option Ty → Type 0
Resolved P none = Unit
Resolved P (some t) = P t

-- The associated types that a check resolves on its way through the bounds are concrete.
unfoldable pub AreConcrete : Items → (ℕ → ℕ) → ℕ → List BoundKind → SubList → Type 0
AreConcrete items arity fuel [] m = Unit
AreConcrete items arity fuel (BoundKind.trait item subs ∷ bounds) m =
    AreConcrete items arity fuel bounds m
AreConcrete items arity fuel (BoundKind.projection item subs eq_ty ∷ bounds) m =
    Resolved
      (λ t.
        (is_concrete t ≡ some true)
        × (has_arities arity t ≡ true)
        × After (match_types items fuel eq_ty t m) (AreConcrete items arity fuel bounds))
      (sub_list items m subs >>= items.resolve_associated_ty item)

-- The same from the match of the types asked for on.
unfoldable pub ChecksConcrete : Items → (ℕ → ℕ) → ℕ → ImplBounds → SubList → Type 0
ChecksConcrete items arity fuel impl for_tys =
    After (match_subs items fuel impl.for_tys for_tys (from_summary impl.generic_counts))
      (λ m. AreConcrete items arity fuel impl.bounds (hand_on impl for_tys m))

matched-done :
    {A : Type 0} (r : Matched) (k : SubList → Run A) {a : A}
    → Run.◌>>=◌ r (λ (x : Bool × SubList). if x.0 then k x.1 else panicked) ≡ done a
    → (m : SubList) × (r ≡ done (true, m)) × (k m ≡ done a)
matched-done (done (true, m)) k h = (m, refl, h)
matched-done (done (false, m)) k h = cc
matched-done panicked k h = cc
matched-done exhausted k h = cc

kept-done :
    (r : Matched) (k : SubList → Run (Option SubList)) {s : SubList}
    → Run.◌>>=◌ r (λ (x : Bool × SubList). if x.0 then k x.1 else done none) ≡ done (some s)
    → (m : SubList) × (r ≡ done (true, m)) × (k m ≡ done (some s))
kept-done (done (true, m)) k h = (m, refl, h)
kept-done (done (false, m)) k h = cc
kept-done panicked k h = cc
kept-done exhausted k h = cc

module _ (items : Items) (trait_has_impl : ℕ → SubList → Run Bool) (arity : ℕ → ℕ) (fuel : ℕ) where
  has_impl-done :
      (o : Run Bool) (rest : Run (Option SubList)) {s : SubList}
      → Run.◌>>=◌ o (λ b. if b then rest else done none) ≡ done (some s)
      → rest ≡ done (some s)
  has_impl-done (done true) rest h = h
  has_impl-done (done false) rest h = cc
  has_impl-done panicked rest h = cc
  has_impl-done exhausted rest h = cc

  check_bounds-Below :
      (bounds : List BoundKind) (m : SubList) {s : SubList}
      → HasPatterns arity bounds
      → AreConcrete items arity (suc fuel) bounds m
      → check_bounds items trait_has_impl (suc fuel) bounds m ≡ done (some s)
      → Below m s
  unfolding check_bounds HasPatterns match_types AreConcrete Resolved After
  check_bounds-Below [] m p known h = subst (Below m) (cc) (Below-refl m)
  check_bounds-Below (BoundKind.trait item subs ∷ bounds) m p known h =
      let (types, e, f) = >>=-eq-done (or_panic (sub_list items m subs)) _ h in
      check_bounds-Below bounds m p known (has_impl-done (trait_has_impl item types) _ f)
  check_bounds-Below (BoundKind.projection item subs eq_ty ∷ bounds) m (p, ps) known h =
      let (types, e, f) = >>=-eq-done (or_panic (sub_list items m subs)) _ h in
      let (t, g, i) = >>=-eq-done (or_panic (items.resolve_associated_ty item types)) _ f in
      let (m1, r, k) = matched-done (match_types items (suc fuel) eq_ty t m) _ i in
      let (c, a, rest) = rw (or_panic-done _ e, or_panic-done _ g, r) at known in
      let s = matching-Sound items (match_types items fuel) arity eq_ty t m r p a c in
      Below-trans m m1 _ s.below (check_bounds-Below bounds m1 ps rest k)

  -- An impl on patterns, with projections to patterns, is asked for as many concrete types, and the
  -- associated types that the check resolves on its way are concrete: if check accepts the types, the
  -- substitution it returns turns the types of the impl into those, and it fills in the parameters of
  -- the impl.
  pub check-Below :
      (impl : ImplBounds) (for_tys subs : SubList)
      → list_pattern arity impl.for_tys ≡ true
      → HasPatterns arity impl.bounds
      → sub_count impl.for_tys ≡ sub_count for_tys
      → list_arities arity for_tys ≡ true
      → subs_concrete for_tys ≡ some true
      → ChecksConcrete items arity (suc fuel) impl for_tys
      → check items trait_has_impl (suc fuel) impl for_tys ≡ done (some subs)
      → Below (from_summary impl.generic_counts) subs
        × (sub_list items subs impl.for_tys ≡ some for_tys)
  unfolding check match_subs hand_on ChecksConcrete After
  check-Below impl for_tys subs p ps n a c known h =
      let start = from_summary impl.generic_counts in
      let (m, e, f) = kept-done (match_subs items (suc fuel) impl.for_tys for_tys start) _ h in
      let s =
        matching_subs-Sound items (match_types items (suc fuel)) arity impl.for_tys for_tys start n
          e p a c in
      let same : hand_on impl for_tys m ≡ m =
        rw (le→ltb_false (sub_count impl.for_tys) (sub_count for_tys) (omega arith)) refl in
      let b = check_bounds-Below impl.bounds m ps (rw same at (rw e at known)) (rw same at f) in
      (Below-trans start m subs s.below b, s.above subs b)
