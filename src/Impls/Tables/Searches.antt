-- ===== src/Impls/Tables/Searches.antt =====
-- The searches of `ImplTable` of src/impls.rs in a table in memory, against the first entry that fits of
-- those that can.
use skitter.Prelude.{
  ℕ, ◌≡◌, ◌↔◌, refl, ap, ◌∙◌, Bool, true, false, Option, none, some, List, [], ◌∷◌, ◌++◌, get_elem?,
  if◌then◌else◌,
}
use skitter.Prelude.Run
use skitter.Prelude.Run.{Run, done, panicked, exhausted, or_panic}
use skitter.Types.Kind.{Ty, SubList}
use skitter.Types.Items.{Items}
use skitter.Impls.SubMap.{from_summary}
use skitter.Impls.Matching.{match_types}
use skitter.Impls.Bounds.{ImplBounds, check, check_inherent, first_ty}
use skitter.Impls.Tables.{
  InherentMember, TraitKey, TraitValue, TraitImpl, ImplTableSimple, members, only_member, map_get,
  trait_key_eq, simple_table, find_in_members, find_in_values, find_under, find_trait,
}

-- The first result of a test on a list, and a panic where a test panics before.
abbrev or_else : {R : Type 0} → Run (Option R) → Run (Option R) → Run (Option R)
or_else (done none) rest = rest
or_else (done (some r)) rest = done (some r)
or_else panicked rest = panicked
or_else exhausted rest = exhausted

unfoldable pub first_fit : {A R : Type 0} → (A → Run (Option R)) → List A → Run (Option R)
first_fit test [] = done none
first_fit test (a ∷ xs) = or_else (test a) (first_fit test xs)

or_else_assoc :
    {R : Type 0} (a b c : Run (Option R)) → or_else (or_else a b) c ≡ or_else a (or_else b c)
or_else_assoc (done none) b c = refl
or_else_assoc (done (some r)) b c = refl
or_else_assoc panicked b c = refl
or_else_assoc exhausted b c = refl

first_fit-append :
    {A R : Type 0} (test : A → Run (Option R)) (xs ys : List A)
    → or_else (first_fit test xs) (first_fit test ys) ≡ first_fit test (xs ++ ys)
unfolding first_fit
first_fit-append test [] ys = refl
first_fit-append test (a ∷ xs) ys =
    or_else_assoc (test a) (first_fit test xs) (first_fit test ys)
    ∙ ap (or_else (test a)) (first_fit-append test xs ys)

-- The impl that an accepted substitution makes of an entry.
abbrev pub impl_with : {V : Type 0} → ℕ → TraitValue V → Option SubList → Option (TraitImpl V)
impl_with crate_id v none = none
impl_with crate_id v (some subs) =
    some (record { crate_id = crate_id; assoc_values = v.values; impl_subs = subs })

abbrev pub value_if : {V : Type 0} → V → Bool → Option V
value_if v true = some v
value_if v false = none

module _ {V : Type 0} (items : Items) (trait_has_impl : ℕ → SubList → Run Bool)
    (impl_key : Ty → Run (Option ℕ)) (fuel : ℕ) (s : ImplTableSimple V) where
  -- The first type of an impl matches the type.
  unfoldable pub test_member : Ty → InherentMember V → Run (Option V)
  test_member ty member = Run.◌>>=◌ (or_panic (get_elem? s.bounds_table member.bounds_id)) (λ impl.
      Run.◌>>=◌ (or_panic (first_ty impl.for_tys)) (λ impl_ty.
        Run.◌>>=◌ (match_types items fuel ty impl_ty (from_summary impl.generic_counts))
          (λ (r : Bool × SubList). done (value_if member.value r.0))))

  -- The impl of an entry accepts the types.
  unfoldable pub test_value : SubList → TraitValue V → Run (Option (TraitImpl V))
  test_value for_tys v = Run.◌>>=◌ (or_panic (get_elem? s.bounds_table v.bounds_id)) (λ impl.
      Run.◌>>=◌ (check items trait_has_impl fuel impl for_tys)
        (λ subs. done (impl_with s.crate_id v subs)))

  -- The entries of a trait under the key of a type, and then those under none.
  unfoldable pub candidates : TraitKey → Option ℕ → List (TraitValue V)
  candidates trait_key none = members (map_get trait_key_eq s.trait_table (trait_key, none))
  candidates trait_key (some key) =
      members (map_get trait_key_eq s.trait_table (trait_key, some key))
      ++ members (map_get trait_key_eq s.trait_table (trait_key, none))

  member_step :
      (ty : Ty) (impl : Run ImplBounds) (value : V) (rest : Run (Option V))
      → Run.◌>>=◌ impl (λ b.
        Run.◌>>=◌
          (check_inherent items trait_has_impl fuel b ty)
          (λ fits. if fits then done (some value) else rest))
        ≡ or_else
            (Run.◌>>=◌ impl (λ b. Run.◌>>=◌ (or_panic (first_ty b.for_tys)) (λ impl_ty.
              Run.◌>>=◌
                (match_types items fuel ty impl_ty (from_summary b.generic_counts))
                (λ (r : Bool × SubList). done (value_if value r.0)))))
            rest
  unfolding check_inherent
  member_step ty panicked value rest = refl
  member_step ty exhausted value rest = refl
  member_step ty (done b) value rest = typed (first_ty b.for_tys)
    where
      matched :
          (r : Run (Bool × SubList))
          → Run.◌>>=◌
              (Run.◌>>=◌ r (λ (x : Bool × SubList). done x.0))
              (λ fits. if fits then done (some value) else rest)
            ≡ or_else (Run.◌>>=◌ r (λ (x : Bool × SubList). done (value_if value x.0))) rest
      matched (done (true, m)) = refl
      matched (done (false, m)) = refl
      matched panicked = refl
      matched exhausted = refl

      typed :
          (o : Option Ty)
          → Run.◌>>=◌
              (Run.◌>>=◌ (or_panic o) (λ t.
                Run.◌>>=◌
                  (match_types items fuel ty t (from_summary b.generic_counts))
                  (λ (x : Bool × SubList). done x.0)))
              (λ fits. if fits then done (some value) else rest)
            ≡ or_else
                (Run.◌>>=◌ (or_panic o) (λ t.
                  Run.◌>>=◌
                    (match_types items fuel ty t (from_summary b.generic_counts))
                    (λ (x : Bool × SubList). done (value_if value x.0))))
                rest
      typed none = refl
      typed (some t) = matched (match_types items fuel ty t (from_summary b.generic_counts))

  value_step :
      (for_tys : SubList) (impl : Run ImplBounds) (v : TraitValue V)
      (rest : Run (Option (TraitImpl V)))
      → Run.◌>>=◌ impl (λ b. Run.◌>>=◌ (check items trait_has_impl fuel b for_tys) (λ result.
        elim result [
          | none ↦ rest
          | some subs ↦
              done
                (some (record { crate_id = s.crate_id; assoc_values = v.values; impl_subs = subs }))
        ]))
        ≡ or_else
            (Run.◌>>=◌ impl (λ b.
              Run.◌>>=◌
                (check items trait_has_impl fuel b for_tys)
                (λ subs. done (impl_with s.crate_id v subs))))
            rest
  value_step for_tys panicked v rest = refl
  value_step for_tys exhausted v rest = refl
  value_step for_tys (done b) v rest = checked (check items trait_has_impl fuel b for_tys)
    where
      checked :
          (r : Run (Option SubList))
          → Run.◌>>=◌ r (λ result. elim result [
            | none ↦ rest
            | some subs ↦
                done (
                  some
                    (record { crate_id = s.crate_id; assoc_values = v.values; impl_subs = subs }))
          ])
            ≡ or_else (Run.◌>>=◌ r (λ subs. done (impl_with s.crate_id v subs))) rest
      checked (done none) = refl
      checked (done (some subs)) = refl
      checked panicked = refl
      checked exhausted = refl

  pub find_in_members-first_fit :
      (ty : Ty) (list : List (InherentMember V))
      → find_in_members items trait_has_impl impl_key fuel (simple_table s) ty list
        ≡ first_fit (test_member ty) list
  unfolding find_in_members first_fit test_member simple_table
  find_in_members-first_fit ty [] = refl
  find_in_members-first_fit ty (m ∷ list) =
      member_step ty (or_panic (get_elem? s.bounds_table m.bounds_id)) m.value
        (find_in_members items trait_has_impl impl_key fuel (simple_table s) ty list)
      ∙ ap (or_else (test_member ty m)) (find_in_members-first_fit ty list)

  find_in_values-first_fit :
      (for_tys : SubList) (list : List (TraitValue V))
      → find_in_values items trait_has_impl impl_key fuel (simple_table s) for_tys list
        ≡ first_fit (test_value for_tys) list
  unfolding find_in_values first_fit test_value simple_table
  find_in_values-first_fit for_tys [] = refl
  find_in_values-first_fit for_tys (v ∷ list) =
      value_step for_tys (or_panic (get_elem? s.bounds_table v.bounds_id)) v
        (find_in_values items trait_has_impl impl_key fuel (simple_table s) for_tys list)
      ∙ ap (or_else (test_value for_tys v)) (find_in_values-first_fit for_tys list)

  pub only_member_iff :
      (o : Option (List (InherentMember V))) (v : V)
      → ◌≡◌ {A = Run (Option V)}
          (done (only_member items trait_has_impl impl_key fuel (simple_table s) (members o)))
          (done (some v))
        ↔ ((m : InherentMember V) × (o ≡ some (m ∷ [])) × (m.value ≡ v))
  only_member_iff none v = (λ e. cc, λ (m, e, f). cc)
  only_member_iff (some []) v = (λ e. cc, λ (m, e, f). cc)
  only_member_iff (some (m ∷ [])) v = (
    λ e. (m, refl, cc),
    λ (n, e, f).
        let g : m ≡ n = cc in
        ap (λ x. done (some x)) (ap (λ (x : InherentMember V). x.value) g ∙ f),
  )
  only_member_iff (some (m ∷ n ∷ l)) v = (λ e. cc, λ (o, e, f). cc)

  ends :
      (r : Run (Option (TraitImpl V)))
      → Run.◌>>=◌ r (λ found. elim found [ some i ↦ done (some i) | none ↦ done none ]) ≡ r
  ends (done none) = refl
  ends (done (some i)) = refl
  ends panicked = refl
  ends exhausted = refl

  goes_on :
      (r rest : Run (Option (TraitImpl V)))
      → Run.◌>>=◌ r (λ found. elim found [ some i ↦ done (some i) | none ↦ rest ]) ≡ or_else r rest
  goes_on (done none) rest = refl
  goes_on (done (some i)) rest = refl
  goes_on panicked rest = refl
  goes_on exhausted rest = refl

  -- The search under a key, and once more under none.
  retried :
      (for_tys : SubList) (trait_key : TraitKey) (key : Option ℕ)
      (found_first found_next : Run (Option (TraitImpl V)))
      → found_first
        ≡ first_fit
            (test_value for_tys)
            (members (map_get trait_key_eq s.trait_table (trait_key, key)))
      → found_next
        ≡ first_fit
            (test_value for_tys)
            (members (map_get trait_key_eq s.trait_table (trait_key, none)))
      → Run.◌>>=◌ found_first (λ found. elim found [
        | some trait_impl ↦ done (some trait_impl)
        | none ↦ elim key [ none ↦ done none | some k ↦ found_next ]
      ])
        ≡ first_fit (test_value for_tys) (candidates trait_key key)
  unfolding candidates
  retried for_tys trait_key none found_first found_next e f = ends found_first ∙ e
  retried for_tys trait_key (some k) found_first found_next e f =
      goes_on found_first found_next
      ∙ ap (λ r. or_else r found_next) e
      ∙ ap
          (or_else (
            first_fit (test_value for_tys)
              (members (map_get trait_key_eq s.trait_table (trait_key, some k)))))
          f
      ∙ first_fit-append (test_value for_tys)
          (members (map_get trait_key_eq s.trait_table (trait_key, some k)))
          (members (map_get trait_key_eq s.trait_table (trait_key, none)))

  pub find_trait-first_fit :
      (trait_key : TraitKey) (for_tys : SubList) (ty : Ty) (key : Option ℕ)
      → first_ty for_tys ≡ some ty
      → impl_key ty ≡ done key
      → find_trait items trait_has_impl impl_key fuel (simple_table s) trait_key for_tys
        ≡ first_fit (test_value for_tys) (candidates trait_key key)
  unfolding find_trait find_under simple_table
  find_trait-first_fit trait_key for_tys ty key e f =
      rw (e, f)
        (retried for_tys trait_key key
          (find_under items trait_has_impl impl_key fuel (simple_table s) trait_key for_tys key)
          (find_under items trait_has_impl impl_key fuel (simple_table s) trait_key for_tys none)
          (find_in_values-first_fit for_tys
            (members (map_get trait_key_eq s.trait_table (trait_key, key))))
          (find_in_values-first_fit for_tys
            (members (map_get trait_key_eq s.trait_table (trait_key, none)))))
