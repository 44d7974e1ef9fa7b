-- ===== src/LazyCollections/Table/Write/Sorting.antt =====
-- `LazyTable::write` of src/lazy_collections.rs: enumerating the buckets and sorting them loses none
-- and repeats none.
use skitter.Prelude.{
  ℕ, zero, suc, ◌+◌, ◌≡◌, ◌≢◌, refl, sym, ap, ◌∙◌, inl, inr, some, List, [], ◌∷◌, leb, Bool-cases,
  arith, length, get_elem?,
}
use mathlib.Core.List.{Memᴰ}
use mathlib.Core.List.Memᴰ.{head, tail, cases_cons}
use skitter.LazyCollections.Table.Write.{enumerate, insert_sorted, sort_buckets}

-- The first components differ from one another.
unfoldable pub Distinct : {A B : Type 0} → List (A × B) → Type 0
Distinct [] = Unit
Distinct {A} {B} (e ∷ es) = ((e' : A × B) → Memᴰ e' es → e.0 ≢ e'.0) × Distinct es

zero_sum : (i : ℕ) → i ≡ i + 0
zero_sum i = omega arith

module _ {A : Type 0} where
  insert_sorted-Mem :
      (e x : ℕ × List A) (xs : List (ℕ × List A)) → Memᴰ x (e ∷ xs) → Memᴰ x (insert_sorted e xs)
  unfolding insert_sorted
  insert_sorted-Mem e x [] m = m
  insert_sorted-Mem e x (y ∷ ys) m = elim (Bool-cases (leb (length y.1) (length e.1))) [
    | inl h ↦ rw h m
    | inr h ↦ rw h (elim (cases_cons m) [
      | inl s ↦ tail (insert_sorted-Mem e x ys (head s))
      | inr n ↦ elim (cases_cons n) [
        | inl s ↦ head s
        | inr k ↦ tail (insert_sorted-Mem e x ys (tail k))
      ]
    ])
  ]

  Mem-insert_sorted :
      (e x : ℕ × List A) (xs : List (ℕ × List A)) → Memᴰ x (insert_sorted e xs) → Memᴰ x (e ∷ xs)
  unfolding insert_sorted
  Mem-insert_sorted e x [] m = m
  Mem-insert_sorted e x (y ∷ ys) m = elim (Bool-cases (leb (length y.1) (length e.1))) [
    | inl h ↦ rw h at m
    | inr h ↦ elim (cases_cons (rw h at m)) [
      | inl s ↦ tail (head s)
      | inr n ↦ elim (cases_cons (Mem-insert_sorted e x ys n)) [
        | inl s ↦ head s
        | inr k ↦ tail (tail k)
      ]
    ]
  ]

  insert_sorted-Distinct :
      (e : ℕ × List A) (xs : List (ℕ × List A)) → Distinct (e ∷ xs) → Distinct (insert_sorted e xs)
  unfolding insert_sorted Distinct
  insert_sorted-Distinct e [] d = d
  insert_sorted-Distinct e (y ∷ ys) (d, (c, ds)) =
      elim (Bool-cases (leb (length y.1) (length e.1))) [
        | inl h ↦ rw h (d, (c, ds))
        | inr h ↦ rw h (
          λ z m. elim (cases_cons (Mem-insert_sorted e z ys m)) [
            | inl s ↦ λ q. d y (head refl) (sym (q ∙ ap (λ (w : ℕ × List A). w.0) s))
            | inr n ↦ c z n
          ],
          insert_sorted-Distinct e ys (λ z m. d z (tail m), ds),
        )
      ]

  pub sort_buckets-Mem :
      (x : ℕ × List A) (xs : List (ℕ × List A)) → Memᴰ x xs → Memᴰ x (sort_buckets xs)
  unfolding sort_buckets
  sort_buckets-Mem x [] m = m
  sort_buckets-Mem x (y ∷ ys) m =
      insert_sorted-Mem y x (sort_buckets ys)
        (elim (cases_cons m) [ inl s ↦ head s | inr n ↦ tail (sort_buckets-Mem x ys n) ])

  pub Mem-sort_buckets :
      (x : ℕ × List A) (xs : List (ℕ × List A)) → Memᴰ x (sort_buckets xs) → Memᴰ x xs
  unfolding sort_buckets
  Mem-sort_buckets x [] m = m
  Mem-sort_buckets x (y ∷ ys) m = elim (cases_cons (Mem-insert_sorted y x (sort_buckets ys) m)) [
    | inl s ↦ head s
    | inr n ↦ tail (Mem-sort_buckets x ys n)
  ]

  pub sort_buckets-Distinct : (xs : List (ℕ × List A)) → Distinct xs → Distinct (sort_buckets xs)
  unfolding sort_buckets Distinct
  sort_buckets-Distinct [] d = d
  sort_buckets-Distinct (y ∷ ys) (d, ds) =
      insert_sorted-Distinct y (sort_buckets ys)
        (λ z m. d z (Mem-sort_buckets z ys m), sort_buckets-Distinct ys ds)

  pub enumerate-Mem :
      (i j : ℕ) (xs : List (List A)) {b : ℕ} {x : List A}
      → b ≡ i + j
      → get_elem? xs j ≡ some x
      → Memᴰ (b, x) (enumerate i xs)
  unfolding enumerate
  enumerate-Mem i j [] q e = cc
  enumerate-Mem i zero (y ∷ ys) {x} q e = let same : y ≡ x = cc in head (cc (zero_sum i))
  enumerate-Mem i (suc j) (y ∷ ys) q e = tail (enumerate-Mem (suc i) j ys (omega arith) e)

  pub Mem-enumerate :
      (i : ℕ) (xs : List (List A)) (x : ℕ × List A)
      → Memᴰ x (enumerate i xs)
      → (j : ℕ) × (x.0 ≡ i + j) × (get_elem? xs j ≡ some x.1)
  unfolding enumerate
  Mem-enumerate i [] x m = elim m [ ]
  Mem-enumerate i (y ∷ ys) x m = elim (cases_cons m) [
    | inl s ↦ (
      0,
      (ap (λ (w : ℕ × List A). w.0) s ∙ zero_sum i),
      ap (λ (w : ℕ × List A). some w.1) (sym s),
    )
    | inr n ↦ let (j, e, f) = Mem-enumerate (suc i) ys x n in (suc j, omega arith, f)
  ]

  pub enumerate-Distinct : (i : ℕ) (xs : List (List A)) → Distinct (enumerate i xs)
  unfolding enumerate Distinct
  enumerate-Distinct i [] = tt
  enumerate-Distinct i (y ∷ ys) = (
    λ x m q. let (j, e, f) = Mem-enumerate (suc i) ys x m in absurd (omega arith),
    enumerate-Distinct (suc i) ys,
  )
