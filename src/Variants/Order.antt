-- ===== src/Variants/Order.antt =====
-- `variant_discriminants` of src/items.rs: which discriminant each variant has.
use mathlib.Core.Path.{subst}
use skitter.Prelude.{
  ℕ, zero, suc, ◌+◌, ◌<◌, ◌≤◌, ◌≡◌, ap, sym, ◌∙◌, Option, some, List, [], ◌∷◌, ◌++◌, ◌>>=◌,
  >>=-eq-some, get_elem?, replicate, length, arith,
}
use skitter.Prelude.Int.{ℤ, pos, negsuc, ◌+ℤ◌}
use skitter.Types.Kind.{Ty}
use skitter.Variants.{
  Discriminant, value, non_zero, from_bytes, DiscriminantSource, explicit, next, disc_of, next_disc,
  discriminants_from, variant_discriminants,
}

later : (v : ℤ) (k : ℕ) → v +ℤ pos 1 +ℤ pos k ≡ v +ℤ pos (suc k)
later (pos n) k = ground arith
later (negsuc n) k = ground arith

now : (v : ℤ) → v +ℤ pos 0 ≡ v
now (pos n) = ground arith
now (negsuc n) = ground arith

module _ {C : Type 0} (const_eval : C → Option (List ℕ × Ty)) where
  stepped-eq :
      (v : ℤ) (d f : Discriminant)
      → some (value v) ≡ some d
      → next_disc d ≡ some f
      → value (v +ℤ pos 1) ≡ f
  unfolding next_disc
  stepped-eq v (value x) f e h =
      let same : v ≡ x = cc in subst (λ (u : ℤ). value (u +ℤ pos 1) ≡ f) (sym same) (cc)
  stepped-eq v non_zero f e h = cc

  -- What one round of the loop went through.
  record Round (following : Discriminant) (s : DiscriminantSource C)
      (sources : List (DiscriminantSource C)) (discs : List Discriminant) : Type 0 where
    disc : Discriminant
    following' : Discriminant
    rest : List Discriminant
    found : disc_of const_eval s following ≡ some disc
    stepped : next_disc disc ≡ some following'
    went : discriminants_from const_eval following' sources ≡ some rest
    built : disc ∷ rest ≡ discs

  round :
      (f : Discriminant) (s : DiscriminantSource C) (sources : List (DiscriminantSource C))
      (discs : List Discriminant)
      → discriminants_from const_eval f (s ∷ sources) ≡ some discs
      → Round f s sources discs
  unfolding discriminants_from
  round f s sources discs e =
      let (d, p, q) = >>=-eq-some (disc_of const_eval s f) _ e in
      let (f', r, t) = >>=-eq-some (next_disc d) _ q in
      let (rest, u, w) =
        >>=-eq-some (discriminants_from const_eval f' sources) (λ discs. some (d ∷ discs)) t in
      record {
        disc = d;
        following' = f';
        rest = rest;
        found = p;
        stepped = r;
        went = u;
        built = cc;
      }

  -- A run of variants without a discriminant of their own counts up from what follows.
  counts :
      (k m : ℕ) (v : ℤ) (sources : List (DiscriminantSource C)) (discs : List Discriminant)
      → discriminants_from const_eval (value v) (replicate m next ++ sources) ≡ some discs
      → k < m
      → get_elem? discs k ≡ some (value (v +ℤ pos k))
  unfolding disc_of next_disc
  counts k zero v sources discs e h = absurd (omega arith)
  counts zero (suc m) v sources discs e h =
      let r = round (value v) next (replicate m next ++ sources) discs e in
      ap (λ l. get_elem? l 0) (sym r.built) ∙ sym r.found ∙ ap (λ z. some (value z)) (sym (now v))
  counts (suc k) (suc m) v sources discs e h =
      let r = round (value v) next (replicate m next ++ sources) discs e in
      let same = stepped-eq v r.disc r.following' r.found r.stepped in
      ap (λ l. get_elem? l (suc k)) (sym r.built)
      ∙ counts k m (v +ℤ pos 1) sources r.rest
          (ap (λ f. discriminants_from const_eval f (replicate m next ++ sources)) same ∙ r.went)
          (omega arith)
      ∙ ap (λ z. some (value z)) (later v k)

  -- The variants before, whatever they are.
  skip :
      (before sources : List (DiscriminantSource C)) (f : Discriminant) (discs : List Discriminant)
      → discriminants_from const_eval f (before ++ sources) ≡ some discs
      → (f' : Discriminant) × (discs' : List Discriminant) × (discriminants_from const_eval f'
            sources
          ≡ some discs')
        × ((j : ℕ) → get_elem? discs (length before + j) ≡ get_elem? discs' j)
  skip [] sources f discs e = (f, discs, e, λ j. ap (get_elem? discs) (omega arith))
  skip (s ∷ before) sources f discs e =
      let r = round f s (before ++ sources) discs e in
      let (f', discs', p, q) = skip before sources r.following' r.rest r.went in
      (
        f',
        discs',
        p,
        λ j.
            let same : suc (length before) + j ≡ suc (length before + j) = omega arith in
            ap (get_elem? discs) same
            ∙ ap (λ l. get_elem? l (suc (length before + j))) (sym r.built)
            ∙ q j,
      )

  -- If the discriminants of an enum are found, a variant with an explicit discriminant has that one,
  -- and each variant without one behind it has one more than the variant before.
  pub variant_discriminants-count :
      (before : List (DiscriminantSource C)) (e : C) (m k : ℕ) (after : List (DiscriminantSource C))
      (v : ℤ) (discs : List Discriminant)
      → (const_eval e >>= λ (bytes, ty). from_bytes bytes ty) ≡ some (value v)
      → variant_discriminants const_eval (before ++ explicit e ∷ (replicate m next ++ after))
        ≡ some discs
      → k ≤ m
      → get_elem? discs (length before + k) ≡ some (value (v +ℤ pos k))
  unfolding variant_discriminants
  variant_discriminants-count before e m k after v discs given h le =
      let (f, discs', p, q) =
        skip before (explicit e ∷ (replicate m next ++ after)) (value (pos 0)) discs h in
      q k ∙ from_explicit f e m k after v discs' given p le
    where
      from_explicit :
          (f : Discriminant) (e : C) (m k : ℕ) (after : List (DiscriminantSource C)) (v : ℤ)
          (discs : List Discriminant)
          → (const_eval e >>= λ (bytes, ty). from_bytes bytes ty) ≡ some (value v)
          → discriminants_from const_eval f (explicit e ∷ (replicate m next ++ after)) ≡ some discs
          → k ≤ m
          → get_elem? discs k ≡ some (value (v +ℤ pos k))
      from_explicit f e m zero after v discs given h le =
          let r = round f (explicit e) (replicate m next ++ after) discs h in
          ap (λ l. get_elem? l 0) (sym r.built)
          ∙ sym (unfold disc_of in r.found)
          ∙ given
          ∙ ap (λ z. some (value z)) (sym (now v))
      from_explicit f e m (suc k) after v discs given h le =
          let r = round f (explicit e) (replicate m next ++ after) discs h in
          let d : some (value v) ≡ some r.disc = sym given ∙ (unfold disc_of in r.found) in
          ap (λ l. get_elem? l (suc k)) (sym r.built)
          ∙ counts k m (v +ℤ pos 1) after r.rest
              (ap (λ f. discriminants_from const_eval f (replicate m next ++ after))
                  (stepped-eq v r.disc r.following' d r.stepped)
                ∙ r.went)
              (omega arith)
          ∙ ap (λ z. some (value z)) (later v k)
