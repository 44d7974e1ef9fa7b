-- ===== src/Impls/Crates/Laws.antt =====
-- src/impls.rs: the list of crates that may hold an impl starts with the crate of the trait, names each
-- crate once, and covers every type that is asked for.
use mathlib.Core.Path.{subst}
use skitter.Prelude.{
  some-eq, true-ne-false, ℕ, zero, suc, ◌≡◌, ◌≢◌, refl, sym, ap, ◌∙◌, inl, inr, true, false, Option,
  none, some, List, [], ◌∷◌, ◌++◌, ◌==◌, ==_iff, Bool-cases,
}
use mathlib.Core.List.{Memᴰ}
use mathlib.Core.List.Memᴰ.{head, tail, cases_cons, append_left, append_right, append_cases}
use skitter.Prelude.Run.{done-eq, Run, done, >>=-eq-done}
use skitter.Types.Kind.{Ty, type, lifetime, const, SubList, empty, more}
use skitter.Types.Subs.{get_sub}
use skitter.Impls.Crates.{
  ImplLocation, crate, internal, InternalCrates, get_internal_crates, contains, push_new,
  push_present, find_source_crate, add_location, add_crates, find_trait_impl_crate,
}

-- No crate stands twice.
unfoldable pub NoDup : List ℕ → Type 0
NoDup [] = Unit
NoDup (x ∷ xs) = ((y : ℕ) → Memᴰ y xs → x ≢ y) × NoDup xs

contains-true : (xs : List ℕ) (c : ℕ) → contains xs c ≡ true → Memᴰ c xs
unfolding contains
contains-true [] c h = cc
contains-true (x ∷ xs) c h = elim (Bool-cases (x == c)) [
  | inl e ↦ head (sym ((==_iff x c).0 e))
  | inr e ↦ tail (contains-true xs c (rw e at h))
]

contains-false : (xs : List ℕ) (c y : ℕ) → contains xs c ≡ false → Memᴰ y xs → y ≢ c
unfolding contains
contains-false [] c y h m = elim m [ ]
contains-false (x ∷ xs) c y h m = elim (Bool-cases (x == c)) [
  | inl e ↦ absurd (true-ne-false (rw e at h))
  | inr e ↦ elim (cases_cons m) [
    | inl s ↦ λ q. true-ne-false (sym ((==_iff x c).1 (sym s ∙ q)) ∙ e)
    | inr k ↦ contains-false xs c y (rw e at h) k
  ]
]

NoDup-append :
    (xs : List ℕ) (c : ℕ) → NoDup xs → ((y : ℕ) → Memᴰ y xs → y ≢ c) → NoDup (xs ++ c ∷ [])
unfolding NoDup
NoDup-append [] c n h = (λ y m. elim m [ ], tt)
NoDup-append (x ∷ xs) c (n, ns) h = (
  λ y m. elim (append_cases xs m) [
    | inl k ↦ n y k
    | inr k ↦ elim (cases_cons k) [ inl s ↦ λ q. h x (head refl) (q ∙ s) | inr z ↦ elim z [ ] ]
  ],
  NoDup-append xs c ns (λ y m. h y (tail m)),
)

-- The list grows to one that still names each crate once.
record Grows (xs ys : List ℕ) : Type 0 where
  pub once : NoDup xs → NoDup ys
  pub kept : (c : ℕ) → Memᴰ c xs → Memᴰ c ys

Grows-refl : (xs : List ℕ) → Grows xs xs
Grows-refl xs = record { once = λ n. n; kept = λ c m. m }

Grows-trans : (xs ys zs : List ℕ) → Grows xs ys → Grows ys zs → Grows xs zs
Grows-trans xs ys zs a b = record {
  once = λ n. b.once (a.once n);
  kept = λ c m. b.kept c (a.kept c m);
}

push_new-Grows : (xs : List ℕ) (c : ℕ) → Grows xs (push_new xs c) × Memᴰ c (push_new xs c)
unfolding push_new
push_new-Grows xs c = elim (Bool-cases (contains xs c)) [
  | inl h ↦ rw h (Grows-refl xs, contains-true xs c h)
  | inr h ↦ rw h (
    record {
      once = λ n. NoDup-append xs c n (λ y m. contains-false xs c y h m);
      kept = λ y m. append_left (c ∷ []) m;
    },
    append_right xs (head refl),
  )
]

push_present-Grows :
    (l : List (Option ℕ)) (xs : List ℕ)
    → Grows xs (push_present l xs) × ((c : ℕ) → Memᴰ (some c) l → Memᴰ c (push_present l xs))
unfolding push_present
push_present-Grows [] xs = (Grows-refl xs, λ c m. elim m [ ])
push_present-Grows (none ∷ l) xs =
    let (g, h) = push_present-Grows l xs in
    (g, λ c m. elim (cases_cons m) [ inl s ↦ cc | inr k ↦ h c k ])
push_present-Grows (some d ∷ l) xs =
    let (a, i) = push_new-Grows xs d in
    let (g, h) = push_present-Grows l (push_new xs d) in
    (
      Grows-trans xs (push_new xs d) (push_present l (push_new xs d)) a g,
      λ c m. elim (cases_cons m) [
        | inl s ↦ g.kept c (subst (λ x. Memᴰ x (push_new xs d)) (some-eq (sym s)) i)
        | inr k ↦ h c k
      ],
    )

module _ (crate_of : ℕ → ℕ) (vm : InternalCrates) where
  -- The crates of a location are on the list.
  unfoldable pub Covers : List ℕ → ImplLocation → Type 0
  Covers xs (crate c) = Memᴰ c xs
  Covers xs internal = (c : ℕ) → Memᴰ (some c) (get_internal_crates vm) → Memᴰ c xs

  Covers-later : (xs ys : List ℕ) (loc : ImplLocation) → Grows xs ys → Covers xs loc → Covers ys loc
  unfolding Covers
  Covers-later xs ys (crate c) g h = g.kept c h
  Covers-later xs ys internal g h = λ c m. g.kept c (h c m)

  add_location-Grows :
      (xs : List ℕ) (loc : ImplLocation)
      → Grows xs (add_location crate_of vm xs loc) × Covers (add_location crate_of vm xs loc) loc
  unfolding Covers
  add_location-Grows xs (crate c) = push_new-Grows xs c
  add_location-Grows xs internal = push_present-Grows (get_internal_crates vm) xs

  add_crates-Grows :
      (l : SubList) (xs : List ℕ) {ys : List ℕ}
      → add_crates crate_of vm l xs ≡ done ys
      → Grows xs ys
        × ((n : ℕ) (ty : Ty) (loc : ImplLocation)
            → get_sub l n ≡ some (type ty)
            → find_source_crate crate_of vm ty ≡ done loc
            → Covers ys loc)
  unfolding add_crates get_sub
  add_crates-Grows empty xs h = (subst (Grows xs) (done-eq h) (Grows-refl xs), λ n ty loc e f. cc)
  add_crates-Grows (more (type t) l) xs {ys} h =
      let (loc, e, f) = >>=-eq-done (find_source_crate crate_of vm t) _ h in
      let (a, b) = add_location-Grows xs loc in
      let (g, k) = add_crates-Grows l (add_location crate_of vm xs loc) f in
      (
        Grows-trans xs (add_location crate_of vm xs loc) ys a g,
        λ n ty loc' q r. first n ty loc' ys q r e (Covers-later _ ys loc g b) k,
      )
    where
      first :
          (n : ℕ) (ty : Ty) (loc' : ImplLocation) {loc : ImplLocation} (zs : List ℕ)
          → get_sub (more (type t) l) n ≡ some (type ty)
          → find_source_crate crate_of vm ty ≡ done loc'
          → find_source_crate crate_of vm t ≡ done loc
          → Covers zs loc
          → ((m : ℕ) (u : Ty) (o : ImplLocation)
              → get_sub l m ≡ some (type u)
              → find_source_crate crate_of vm u ≡ done o
              → Covers zs o)
          → Covers zs loc'
      first zero ty loc' {loc} zs q r e c k =
          let same : t ≡ ty = cc in
          let at : done loc ≡ done loc' = sym e ∙ ap (find_source_crate crate_of vm) same ∙ r in
          subst (Covers zs) (loc-eq at) c
        where
          loc-eq : {a b : ImplLocation} → ◌≡◌ {A = Run ImplLocation} (done a) (done b) → a ≡ b
          loc-eq z = cc
      first (suc n) ty loc' zs q r e c k = k n ty loc' q r
  add_crates-Grows (more lifetime l) xs h =
      let (g, k) = add_crates-Grows l xs h in (g, λ n ty loc e f. later n ty loc _ k e f)
    where
      later :
          (n : ℕ) (ty : Ty) (loc : ImplLocation) (zs : List ℕ)
          → ((m : ℕ) (u : Ty) (o : ImplLocation)
              → get_sub l m ≡ some (type u)
              → find_source_crate crate_of vm u ≡ done o
              → Covers zs o)
          → get_sub (more lifetime l) n ≡ some (type ty)
          → find_source_crate crate_of vm ty ≡ done loc
          → Covers zs loc
      later zero ty loc zs k e f = cc
      later (suc n) ty loc zs k e f = k n ty loc e f
  add_crates-Grows (more (const t c) l) xs h =
      let (g, k) = add_crates-Grows l xs h in (g, λ n ty loc e f. later n ty loc _ k e f)
    where
      later :
          (n : ℕ) (ty : Ty) (loc : ImplLocation) (zs : List ℕ)
          → ((m : ℕ) (u : Ty) (o : ImplLocation)
              → get_sub l m ≡ some (type u)
              → find_source_crate crate_of vm u ≡ done o
              → Covers zs o)
          → get_sub (more (const t c) l) n ≡ some (type ty)
          → find_source_crate crate_of vm ty ≡ done loc
          → Covers zs loc
      later zero ty loc zs k e f = cc
      later (suc n) ty loc zs k e f = k n ty loc e f

  -- Where the crates for some types are found, none is named twice, the crate of the trait is among
  -- them, and so are the crates of the source of each type, for a type of the language the internal
  -- ones that are there.
  pub find_trait_impl_crate-Covers :
      (for_tys : SubList) (trait_crate : ℕ) (ys : List ℕ) (n : ℕ) (ty : Ty) (loc : ImplLocation)
      → find_trait_impl_crate crate_of vm for_tys trait_crate ≡ done ys
      → get_sub for_tys n ≡ some (type ty)
      → find_source_crate crate_of vm ty ≡ done loc
      → NoDup ys × Memᴰ trait_crate ys × Covers ys loc
  unfolding find_trait_impl_crate NoDup
  find_trait_impl_crate-Covers for_tys trait_crate ys n ty loc h e f =
      let (g, k) = add_crates-Grows for_tys (trait_crate ∷ []) h in
      (g.once (λ y m. elim m [ ], tt), g.kept trait_crate (head refl), k n ty loc e f)
