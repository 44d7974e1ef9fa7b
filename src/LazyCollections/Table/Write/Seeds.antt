-- ===== src/LazyCollections/Table/Write/Seeds.antt =====
-- `LazyTable::write` of src/lazy_collections.rs: the search for the seed of a bucket ends, at a seed
-- that sends the keys of the bucket to distinct free slots of the second table.
use skitter.Prelude.{
  true-ne-false, ℕ, zero, suc, ◌+◌, ◌<◌, ◌≡◌, ◌≢◌, refl, sym, ap, ◌∙◌, inl, inr, true, false, not,
  Option, none, some, List, [], ◌∷◌, ◌++◌, append-nil, append_assoc, ◌==◌, ==_iff, Bool-cases,
  arith, length, length-append, get_elem?,
}
use mathlib.Core.List.{Memᴰ}
use mathlib.Core.List.Memᴰ.{head, tail, cases_cons, append_cases, append_left, append_right}
use skitter.Prelude.Int.{ℤ, pos, negsuc, eqb_ℤ}
use skitter.LazyCollections.Table.{table_slot_invalid}
use skitter.LazyCollections.Table.Write.{occupied, any_slot, slot_of, place, search_seed}
use skitter.LazyCollections.Table.Write.Sorting.{Distinct}

abbrev pub Free : List ℤ → ℕ → Type 0
Free t h = get_elem? t h ≡ some table_slot_invalid

Free-occupied : (t : List ℤ) (h : ℕ) → Free t h → occupied t h ≡ false
unfolding occupied
Free-occupied t h e = rw (e, occupied) refl

any_slot-false :
    (h : ℕ) (es : List (ℕ × ℕ)) → ((e : ℕ × ℕ) → Memᴰ e es → e.0 ≢ h) → any_slot h es ≡ false
unfolding any_slot
any_slot-false h [] d = refl
any_slot-false h (e ∷ es) d =
    let other : e.0 ≢ h = d e (head refl) in
    rw (ne_test e.0 h other, any_slot-false h es (λ e' m. d e' (tail m))) refl
  where
    ne_test : (a b : ℕ) → a ≢ b → (a == b) ≡ false
    ne_test a b n = ground arith

any_slot-apart :
    (h : ℕ) (es : List (ℕ × ℕ)) → any_slot h es ≡ false → (e : ℕ × ℕ) → Memᴰ e es → e.0 ≢ h
unfolding any_slot
any_slot-apart h [] a e m = elim m [ ]
any_slot-apart h (d ∷ ds) a e m = elim (Bool-cases (d.0 == h)) [
  | inl t ↦ absurd (true-ne-false (rw t at a))
  | inr t ↦ elim (cases_cons m) [
    | inl s ↦ λ q. true-ne-false (sym ((==_iff d.0 h).1 (sym (ap (λ (w : ℕ × ℕ). w.0) s) ∙ q)) ∙ t)
    | inr k ↦ any_slot-apart h ds (rw t at a) e k
  ]
]

pub eqb_invalid : (v : ℤ) → eqb_ℤ v table_slot_invalid ≡ true → v ≡ table_slot_invalid
eqb_invalid (pos m) e = ap pos (ground arith)
eqb_invalid (negsuc m) e = absurd (ground arith)

occupied-false : (t : List ℤ) (h : ℕ) → occupied t h ≡ false → Free t h
unfolding occupied
occupied-false t h e = slot (get_elem? t h) e
  where
    slot :
        (o : Option ℤ)
        → (elim o [ none ↦ true | some v ↦ not (eqb_ℤ v table_slot_invalid) ]) ≡ false
        → o ≡ some table_slot_invalid
    slot none q = cc
    slot (some v) q = elim (Bool-cases (eqb_ℤ v table_slot_invalid)) [
      | inl y ↦ ap some (eqb_invalid v y)
      | inr y ↦ absurd (true-ne-false (rw y at q))
    ]

plus_zero : (s : ℕ) → s + 0 ≡ s
plus_zero s = omega arith

zero_plus : (s : ℕ) → 0 + s ≡ s
zero_plus s = omega arith

plus_suc : (s j : ℕ) → s + suc j ≡ suc s + j
plus_suc s j = omega arith

module _ {K : Type 0} (hash : ℤ → K → ℕ) (n : ℕ) where
  -- Where a seed sends the keys, and with them their items.
  unfoldable pub targets : ℤ → List (K × ℕ) → List (ℕ × ℕ)
  targets seed [] = []
  targets seed (e ∷ es) = (slot_of hash n seed e.0, e.1) ∷ targets seed es

  -- The seed sends the keys to distinct free slots.
  pub record Fits (seed : ℤ) (t2 : List ℤ) (keys : List (K × ℕ)) : Type 0 where
    pub distinct : Distinct (targets seed keys)
    pub free : (e : ℕ × ℕ) → Memᴰ e (targets seed keys) → Free t2 e.0

  pub length-targets : (seed : ℤ) (keys : List (K × ℕ)) → length (targets seed keys) ≡ length keys
  unfolding targets
  length-targets seed [] = refl
  length-targets seed (e ∷ es) = ap suc (length-targets seed es)

  -- Targets that are free and differ from one another and from those before are all placed.
  place-targets :
      (seed : ℤ) (t2 : List ℤ) (keys : List (K × ℕ)) (acc : List (ℕ × ℕ))
      → Distinct (targets seed keys)
      → ((e : ℕ × ℕ) → Memᴰ e (targets seed keys) → Free t2 e.0)
      → ((e d : ℕ × ℕ) → Memᴰ e acc → Memᴰ d (targets seed keys) → e.0 ≢ d.0)
      → place hash n seed t2 keys acc ≡ acc ++ targets seed keys
  unfolding place targets Distinct
  place-targets seed t2 [] acc d f c = sym (append-nil acc)
  place-targets seed t2 (k ∷ ks) acc (d, ds) f c =
      let t : ℕ × ℕ = (slot_of hash n seed k.0, k.1) in
      rw
        (
          Free-occupied t2 t.0 (f t (head refl)),
          any_slot-false t.0 acc (λ e m. c e t m (head refl)),
        )
        (place-targets seed t2 ks (acc ++ t ∷ []) ds (λ e m. f e (tail m))
            (λ e b m q. elim (append_cases acc m) [
              | inl i ↦ c e b i (tail q)
              | inr j ↦ elim (cases_cons j) [
                | inl s ↦ λ same. d b q (sym (ap (λ (w : ℕ × ℕ). w.0) s) ∙ same)
                | inr z ↦ elim z [ ]
              ]
            ])
          ∙ append_assoc acc (t ∷ []) (targets seed ks))

  all_placed :
      (seed : ℤ) (t2 : List ℤ) (keys : List (K × ℕ))
      → Fits seed t2 keys
      → place hash n seed t2 keys [] ≡ targets seed keys
  all_placed seed t2 keys f = place-targets seed t2 keys [] f.distinct f.free (λ e d m. elim m [ ])

  -- What is placed when none is left out.
  record Placed (seed : ℤ) (t2 : List ℤ) (keys : List (K × ℕ)) (acc : List (ℕ × ℕ)) : Type 0 where
    pub fits : Fits seed t2 keys
    pub apart : (e d : ℕ × ℕ) → Memᴰ e acc → Memᴰ d (targets seed keys) → e.0 ≢ d.0

  Placed-cons :
      (seed : ℤ) (t2 : List ℤ) (k : K × ℕ) (ks : List (K × ℕ)) (acc : List (ℕ × ℕ))
      → Free t2 (slot_of hash n seed k.0)
      → ((e : ℕ × ℕ) → Memᴰ e acc → e.0 ≢ slot_of hash n seed k.0)
      → Placed seed t2 ks (acc ++ (slot_of hash n seed k.0, k.1) ∷ [])
      → Placed seed t2 (k ∷ ks) acc
  unfolding targets Distinct
  Placed-cons seed t2 k ks acc f c p = record {
    fits = record {
      distinct = (
        λ d m. p.apart (slot_of hash n seed k.0, k.1) d (append_right acc (head refl)) m,
        p.fits.distinct,
      );
      free = λ e m. elim (cases_cons m) [ inl s ↦ cc | inr q ↦ p.fits.free e q ];
    };
    apart = λ e d m q. elim (cases_cons q) [
      | inl s ↦ λ same. c e m (same ∙ ap (λ (w : ℕ × ℕ). w.0) s)
      | inr r ↦ p.apart e d (append_left ((slot_of hash n seed k.0, k.1) ∷ []) m) r
    ];
  }

  place-Placed :
      (seed : ℤ) (t2 : List ℤ) (keys : List (K × ℕ)) (acc : List (ℕ × ℕ))
      → length (place hash n seed t2 keys acc) ≡ length acc + length keys
      → Placed seed t2 keys acc
  unfolding place targets Distinct
  place-Placed seed t2 [] acc l = record {
    fits = record { distinct = tt; free = λ e m. elim m [ ] };
    apart = λ e d m q. elim q [ ];
  }
  place-Placed seed t2 (k ∷ ks) acc l =
      let h = slot_of hash n seed k.0 in
      elim (Bool-cases (occupied t2 h)) [
        | inl o ↦ absurd (short (rw o at l))
        | inr o ↦ elim (Bool-cases (any_slot h acc)) [
          | inl a ↦ absurd (short (rw (o, a) at l))
          | inr a ↦ Placed-cons seed t2 k ks acc (occupied-false t2 h o) (any_slot-apart h acc a) (
              place-Placed seed t2 ks (acc ++ (h, k.1) ∷ [])
                (rw (o, a) at l ∙ rw (length-append acc ((h, k.1) ∷ [])) (omega arith)))
        ]
      ]
    where
      short : length acc ≡ length acc + suc (length ks) → ⊥
      short q = omega arith

  -- The search ends, at a seed that fits.
  unfoldable pub Ends : ℕ → ℕ → List ℤ → List (K × ℕ) → Type 0
  Ends fuel s t2 keys =
      (i : ℕ) × (i < s + fuel)
      × (search_seed hash n fuel s t2 keys ≡ some (negsuc i, targets (negsuc i) keys))
      × Fits (negsuc i) t2 keys

  search_seed-first :
      (fuel s : ℕ) (t2 : List ℤ) (keys : List (K × ℕ))
      → (length (place hash n (negsuc s) t2 keys []) == length keys) ≡ true
      → Ends (suc fuel) s t2 keys
  unfolding Ends search_seed
  search_seed-first fuel s t2 keys e =
      let full = place-Placed (negsuc s) t2 keys [] ((==_iff _ _).0 e ∙ sym (zero_plus _)) in
      (s, omega arith, rw (e, all_placed (negsuc s) t2 keys full.fits) refl, full.fits)

  search_seed-next :
      (fuel s : ℕ) (t2 : List ℤ) (keys : List (K × ℕ))
      → (length (place hash n (negsuc s) t2 keys []) == length keys) ≡ false
      → Ends fuel (suc s) t2 keys
      → Ends (suc fuel) s t2 keys
  unfolding Ends search_seed
  search_seed-next fuel s t2 keys e (i, b, r, g) = (i, omega arith, rw e r, g)

  -- The search ends at the latest at a seed that fits.
  pub search_seed-Ends :
      (fuel s j : ℕ) (t2 : List ℤ) (keys : List (K × ℕ))
      → j < fuel
      → Fits (negsuc (s + j)) t2 keys
      → Ends fuel s t2 keys
  search_seed-Ends zero s j t2 keys h f = absurd (omega arith)
  search_seed-Ends (suc fuel) s zero t2 keys h f =
      let all = all_placed (negsuc s) t2 keys (rw (plus_zero s) at f) in
      search_seed-first fuel s t2 keys
        ((==_iff _ _).1 (ap length all ∙ length-targets (negsuc s) keys))
  search_seed-Ends (suc fuel) s (suc j) t2 keys h f =
      elim (Bool-cases (length (place hash n (negsuc s) t2 keys []) == length keys)) [
        | inl e ↦ search_seed-first fuel s t2 keys e
        | inr e ↦
            search_seed-next fuel s t2 keys e
              (search_seed-Ends fuel (suc s) j t2 keys (omega arith) (rw (plus_suc s j) at f))
      ]
