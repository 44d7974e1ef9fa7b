-- ===== src/LazyCollections/Table/Write/Keys.antt =====
-- The keys that `LazyTable::write` of src/lazy_collections.rs collects are those of the items, each
-- with the index of its item.
use skitter.Prelude.{
  ℕ, zero, suc, ◌+◌, ◌≤◌, ◌<◌, ◌≡◌, ◌≢◌, refl, sym, ap, ◌∙◌, inl, inr, Option, none, some, List, [],
  ◌∷◌, arith, length, get_elem?,
}
use mathlib.Core.List.{Memᴰ}
use mathlib.Core.List.Memᴰ.{head, tail, cases_cons}
use skitter.LazyCollections.Table.Write.{keys_of}
use skitter.LazyCollections.Table.Write.Sorting.{Distinct}

module _ {I K : Type 0} (key_for_input : I → Option K) where
  -- No two items have one key.
  pub record Unique (xs : List I) : Type 0 where
    pub unique :
        (i j : ℕ) (x y : I) (k : K)
        → get_elem? xs i ≡ some x
        → get_elem? xs j ≡ some y
        → key_for_input x ≡ some k
        → key_for_input y ≡ some k
        → i ≡ j

  -- The key of an item, with the item's index counted from `base`.
  pub data KeyOf (base : ℕ) (xs : List I) (e : K × ℕ) : Type 0 where
    key_of :
        (j : ℕ) (x : I)
        → e.1 ≡ base + j
        → get_elem? xs j ≡ some x
        → key_for_input x ≡ some e.0
        → KeyOf base xs e

  later_key :
      (base : ℕ) (x : I) (xs : List I) (e : K × ℕ) → KeyOf (suc base) xs e → KeyOf base (x ∷ xs) e
  later_key base x xs e (key_of j y n f g) = key_of (suc j) y (omega arith) f g

  pub Mem-keys_of :
      (base : ℕ) (xs : List I) (e : K × ℕ)
      → Memᴰ e (keys_of key_for_input base xs)
      → KeyOf base xs e
  unfolding keys_of
  Mem-keys_of base [] e m = elim m [ ]
  Mem-keys_of base (x ∷ xs) e m = first (key_for_input x) refl m (Mem-keys_of (suc base) xs e)
    where
      first :
          (o : Option K)
          → key_for_input x ≡ o
          → Memᴰ e (elim o [
            | none ↦ keys_of key_for_input (suc base) xs
            | some k ↦ (k, base) ∷ keys_of key_for_input (suc base) xs
          ])
          → (Memᴰ e (keys_of key_for_input (suc base) xs) → KeyOf (suc base) xs e)
          → KeyOf base (x ∷ xs) e
      first none q m rest = later_key base x xs e (rest m)
      first (some k) q m rest = elim (cases_cons m) [
        | inl s ↦
            key_of 0 x (ap (λ (w : K × ℕ). w.1) s ∙ plus_zero base) refl
              (q ∙ ap (λ (w : K × ℕ). some w.0) (sym s))
        | inr t ↦ later_key base x xs e (rest t)
      ]
        where
          plus_zero : (n : ℕ) → n ≡ n + 0
          plus_zero n = omega arith

  pub keys_of-Mem :
      (base j : ℕ) (xs : List I) (x : I) (k : K) (i : ℕ)
      → i ≡ base + j
      → get_elem? xs j ≡ some x
      → key_for_input x ≡ some k
      → Memᴰ (k, i) (keys_of key_for_input base xs)
  unfolding keys_of
  keys_of-Mem base j [] x k i n f g = cc
  keys_of-Mem base zero (y ∷ xs) x k i n f g =
      let same : y ≡ x = cc in
      let keyed : key_for_input y ≡ some k = ap key_for_input same ∙ g in
      let index : i ≡ base = omega arith in rw (keys_of, keyed) (head (cc))
  keys_of-Mem base (suc j) (y ∷ xs) x k i n f g =
      behind (key_for_input y) (keys_of-Mem (suc base) j xs x k i (omega arith) f g)
    where
      behind :
          (o : Option K)
          → Memᴰ (k, i) (keys_of key_for_input (suc base) xs)
          → Memᴰ
              (k, i)
              (elim o [
                | none ↦ keys_of key_for_input (suc base) xs
                | some c ↦ (c, base) ∷ keys_of key_for_input (suc base) xs
              ])
      behind none m = m
      behind (some c) m = tail m

  Unique-tail : (x : I) (xs : List I) → Unique (x ∷ xs) → Unique xs
  Unique-tail x xs u = record {
    unique = λ i j y z k f g a b.
        let same : suc i ≡ suc j = u.unique (suc i) (suc j) y z k f g a b in omega arith;
  }

  pub keys_of-Distinct :
      (base : ℕ) (xs : List I) → Unique xs → Distinct (keys_of key_for_input base xs)
  unfolding keys_of Distinct
  keys_of-Distinct base [] u = tt
  keys_of-Distinct base (x ∷ xs) u =
      first (key_for_input x) refl (keys_of-Distinct (suc base) xs (Unique-tail x xs u))
    where
      apart : (k : K) (e : K × ℕ) → key_for_input x ≡ some k → KeyOf (suc base) xs e → k ≢ e.0
      apart k e q (key_of j y n f g) same =
          let equal : 0 ≡ suc j = u.unique 0 (suc j) x y k refl f q (g ∙ ap some (sym same)) in
          omega arith

      first :
          (o : Option K)
          → key_for_input x ≡ o
          → Distinct (keys_of key_for_input (suc base) xs)
          → Distinct {A = K} {B = ℕ} (elim o [
            | none ↦ keys_of key_for_input (suc base) xs
            | some k ↦ (k, base) ∷ keys_of key_for_input (suc base) xs
          ])
      first none q d = d
      first (some k) q d = (λ e m. apart k e q (Mem-keys_of (suc base) xs e m), d)

  -- A key stands for an item of the list.
  pub key_item :
      (xs : List I) (e : K × ℕ)
      → Memᴰ e (keys_of key_for_input 0 xs)
      → (x : I) × (get_elem? xs e.1 ≡ some x) × (e.1 < length xs)
  key_item xs e m = at_index (Mem-keys_of 0 xs e m)
    where
      below : {A : Type 0} (ys : List A) (j : ℕ) {a : A} → get_elem? ys j ≡ some a → j < length ys
      below [] j f = cc
      below (y ∷ ys) zero f = omega arith
      below (y ∷ ys) (suc j) f = let b = below ys j f in omega arith

      at_index : KeyOf 0 xs e → (x : I) × (get_elem? xs e.1 ≡ some x) × (e.1 < length xs)
      at_index (key_of j x i f g) =
          let same : e.1 ≡ j = omega arith in
          let found : get_elem? xs e.1 ≡ some x = ap (get_elem? xs) same ∙ f in
          (x, found, below xs e.1 found)

  pub length-keys_of : (base : ℕ) (xs : List I) → length (keys_of key_for_input base xs) ≤ length xs
  unfolding keys_of
  length-keys_of base [] = omega arith
  length-keys_of base (x ∷ xs) = ground (arith, length-keys_of (suc base) xs)
