-- ===== src/Impls/Unify.antt =====
-- `match_types` of src/impls.rs as unification: it succeeds exactly if the type asked for is an
-- instance of the type of the impl, and then leaves the least substitution that makes it one.
use mathlib.Core.Path.{subst}
use skitter.Prelude.{ℕ, suc, ◌≡◌, ◌↔◌, sym, ◌∙◌, true, some}
use skitter.Prelude.Run.{done}
use skitter.Types.Kind.{Ty, SubList}
use skitter.Types.Items.{Items}
use skitter.Types.Subs.{sub, is_concrete}
use skitter.Impls.SubMap.Below.{Below, Below-refl}
use skitter.Impls.SubMap.Entries.{left_eq}
use skitter.Impls.Matching.{match_types}
use skitter.Impls.Patterns.{is_pattern, has_arities}
use skitter.Impls.Soundness.{matching-Sound}
use skitter.Impls.Completeness.{matching-Stays}

module _ (items : Items) (arity : ℕ → ℕ) (fuel : ℕ) where
  -- For a pattern, and a concrete type whose items have as many arguments as they take: match_types
  -- succeeds from a substitution exactly if a substitution that fills in what is unknown in it turns
  -- the pattern into the type. Any fuel above 0 is enough.
  pub match_types_iff :
      (lhs rhs : Ty) (m : SubList)
      → is_pattern arity lhs ≡ true
      → has_arities arity rhs ≡ true
      → is_concrete rhs ≡ some true
      → ((m' : SubList) × (match_types items (suc fuel) lhs rhs m ≡ done (true, m')))
        ↔ ((u : SubList) × Below m u × (sub items u lhs ≡ some rhs))
  unfolding match_types
  match_types_iff lhs rhs m p a c = (
    λ (m', e).
        let s = matching-Sound items (match_types items fuel) arity lhs rhs m e p a c in
        (m', s.below, s.above m' (Below-refl m')),
    λ (u, b, e).
        let (m', f, b') = matching-Stays items (match_types items fuel) arity u lhs rhs m p e b in
        (m', f),
  )

  -- Where match_types succeeds on such types, the substitution it leaves fills in what was unknown,
  -- turns the pattern into the type, and is below every other one that does both.
  pub match_types-Below :
      (lhs rhs : Ty) (m m' : SubList)
      → is_pattern arity lhs ≡ true
      → has_arities arity rhs ≡ true
      → is_concrete rhs ≡ some true
      → match_types items (suc fuel) lhs rhs m ≡ done (true, m')
      → Below m m'
        × (sub items m' lhs ≡ some rhs)
        × ((u : SubList) → Below m u → sub items u lhs ≡ some rhs → Below m' u)
  unfolding match_types
  match_types-Below lhs rhs m m' p a c e =
      let s = matching-Sound items (match_types items fuel) arity lhs rhs m e p a c in
      (
        s.below,
        s.above m' (Below-refl m'),
        λ u b q.
            let (n, f, b') =
              matching-Stays items (match_types items fuel) arity u lhs rhs m p q b in
            subst (λ x. Below x u) (left_eq (sym f ∙ e)) b',
      )
