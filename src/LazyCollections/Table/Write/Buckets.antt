-- ===== src/LazyCollections/Table/Write/Buckets.antt =====
-- `LazyTable::write` of src/lazy_collections.rs: the sorted buckets hold each key once, in the bucket
-- of its unseeded hash, and nothing else.
use skitter.Prelude.{
  get_elem?-lt, true-ne-false, ℕ, zero, suc, ◌<◌, ◌≡◌, ◌≢◌, refl, sym, ap, ◌∙◌, inl, inr, some,
  List, [], ◌∷◌, ◌++◌, append-nil, append_assoc, if◌then◌else◌, ◌==◌, ==_iff, Bool-cases, arith,
  length, length-replicate, get_elem?, replicate,
}
use mathlib.Core.List.{Memᴰ}
use mathlib.Core.List.Memᴰ.{head, tail, cases_cons}
use native.Mathlib.Nat.{mod-lt}
use skitter.Prelude.Int.{ℤ, pos}
use skitter.LazyCollections.Table.Write.{
  push_at, enumerate, sort_buckets, slot_of, fill_buckets, new_buckets,
}
use skitter.LazyCollections.Table.Write.Sorting.{
  Distinct, sort_buckets-Mem, Mem-sort_buckets, sort_buckets-Distinct, enumerate-Mem, Mem-enumerate,
  enumerate-Distinct,
}

module _ {A : Type 0} where
  length-push_at : (b : ℕ) (x : A) (bs : List (List A)) → length (push_at b x bs) ≡ length bs
  unfolding push_at
  length-push_at b x [] = refl
  length-push_at zero x (y ∷ ys) = refl
  length-push_at (suc b) x (y ∷ ys) = ap suc (length-push_at b x ys)

  push_at-get_self :
      (b : ℕ) (x : A) (bs : List (List A)) {old : List A}
      → get_elem? bs b ≡ some old
      → get_elem? (push_at b x bs) b ≡ some (old ++ x ∷ [])
  unfolding push_at
  push_at-get_self b x [] e = cc
  push_at-get_self zero x (y ∷ ys) {old} e =
      let same : y ≡ old = cc in ap (λ l. some (l ++ x ∷ [])) same
  push_at-get_self (suc b) x (y ∷ ys) e = push_at-get_self b x ys e

  push_at-get_ne :
      (b j : ℕ) (x : A) (bs : List (List A)) → b ≢ j → get_elem? (push_at b x bs) j ≡ get_elem? bs j
  unfolding push_at
  push_at-get_ne b j x [] h = refl
  push_at-get_ne zero zero x (y ∷ ys) h = absurd (h refl)
  push_at-get_ne zero (suc j) x (y ∷ ys) h = refl
  push_at-get_ne (suc b) zero x (y ∷ ys) h = refl
  push_at-get_ne (suc b) (suc j) x (y ∷ ys) h = push_at-get_ne b j x ys (λ e. h (ap suc e))

get_elem?-replicate : {A : Type 0} (n i : ℕ) (a : A) → i < n → get_elem? (replicate n a) i ≡ some a
get_elem?-replicate zero i a h = absurd (omega arith)
get_elem?-replicate (suc n) zero a h = refl
get_elem?-replicate (suc n) (suc i) a h = get_elem?-replicate n i a (omega arith)

module _ {K : Type 0} (hash : ℤ → K → ℕ) (n : ℕ) where
  -- The keys of one bucket, in order.
  pub in_bucket : ℕ → List (K × ℕ) → List (K × ℕ)
  in_bucket b [] = []
  in_bucket b (e ∷ es) =
      if slot_of hash n (pos 0) e.0 == b then e ∷ in_bucket b es else in_bucket b es

  -- A key goes into its own bucket, and the others stay as they are.
  fill_buckets-get :
      (b : ℕ) (es : List (K × ℕ)) (bs : List (List (K × ℕ))) {old : List (K × ℕ)}
      → get_elem? bs b ≡ some old
      → get_elem? (fill_buckets hash n es bs) b ≡ some (old ++ in_bucket b es)
  unfolding fill_buckets in_bucket
  fill_buckets-get b [] bs {old} e = e ∙ ap some (sym (append-nil old))
  fill_buckets-get b (x ∷ es) bs {old} e =
      let s = slot_of hash n (pos 0) x.0 in
      elim (Bool-cases (s == b)) [
        | inl h ↦
            let same : s ≡ b = (==_iff s b).0 h in
            let pushed : get_elem? (push_at s x bs) b ≡ some (old ++ x ∷ []) =
              cc (push_at-get_self b x bs e) in
            rw h (
              fill_buckets-get b es (push_at s x bs) pushed
              ∙ ap some (append_assoc old (x ∷ []) (in_bucket b es)))
        | inr h ↦ rw h (
            fill_buckets-get b es (push_at s x bs) (
              push_at-get_ne s b x bs (λ q. absurd (true-ne-false (sym ((==_iff s b).1 q) ∙ h)))
              ∙ e))
      ]

  length-fill_buckets :
      (es : List (K × ℕ)) (bs : List (List (K × ℕ)))
      → length (fill_buckets hash n es bs) ≡ length bs
  unfolding fill_buckets
  length-fill_buckets [] bs = refl
  length-fill_buckets (e ∷ es) bs =
      length-fill_buckets es (push_at (slot_of hash n (pos 0) e.0) e bs)
      ∙ length-push_at (slot_of hash n (pos 0) e.0) e bs

  in_bucket-Mem :
      (e : K × ℕ) (es : List (K × ℕ))
      → Memᴰ e es
      → Memᴰ e (in_bucket (slot_of hash n (pos 0) e.0) es)
  unfolding in_bucket
  in_bucket-Mem e [] m = m
  in_bucket-Mem e (x ∷ es) m = elim (cases_cons m) [
    | inl s ↦
        let q = (==_iff _ _).1 (ap (λ (w : K × ℕ). slot_of hash n (pos 0) w.0) (sym s)) in
        rw q (head s)
    | inr k ↦ elim (Bool-cases (slot_of hash n (pos 0) x.0 == slot_of hash n (pos 0) e.0)) [
      | inl h ↦ rw h (tail (in_bucket-Mem e es k))
      | inr h ↦ rw h (in_bucket-Mem e es k)
    ]
  ]

  Mem-in_bucket :
      (b : ℕ) (e : K × ℕ) (es : List (K × ℕ))
      → Memᴰ e (in_bucket b es)
      → Memᴰ e es × (slot_of hash n (pos 0) e.0 ≡ b)
  unfolding in_bucket
  Mem-in_bucket b e [] m = elim m [ ]
  Mem-in_bucket b e (x ∷ es) m = elim (Bool-cases (slot_of hash n (pos 0) x.0 == b)) [
    | inl h ↦ elim (cases_cons (rw h at m)) [
      | inl s ↦ (head s, ap (λ (w : K × ℕ). slot_of hash n (pos 0) w.0) s ∙ (==_iff _ b).0 h)
      | inr k ↦ let (i, j) = Mem-in_bucket b e es k in (tail i, j)
    ]
    | inr h ↦ let (i, j) = Mem-in_bucket b e es (rw h at m) in (tail i, j)
  ]

  in_bucket-Distinct : (b : ℕ) (es : List (K × ℕ)) → Distinct es → Distinct (in_bucket b es)
  unfolding in_bucket Distinct
  in_bucket-Distinct b [] d = tt
  in_bucket-Distinct b (x ∷ es) (d, ds) = elim (Bool-cases (slot_of hash n (pos 0) x.0 == b)) [
    | inl h ↦ rw h (λ y m. d y (Mem-in_bucket b y es m).0, in_bucket-Distinct b es ds)
    | inr h ↦ rw h (in_bucket-Distinct b es ds)
  ]

  abbrev pub sorted : List (K × ℕ) → List (ℕ × List (K × ℕ))
  sorted keys = sort_buckets (enumerate 0 (new_buckets hash n keys))

  new_buckets-get :
      (b : ℕ) (keys : List (K × ℕ))
      → b < n
      → get_elem? (new_buckets hash n keys) b ≡ some (in_bucket b keys)
  new_buckets-get b keys h = fill_buckets-get b keys (replicate n []) (get_elem?-replicate n b [] h)

  pub sorted-Distinct : (keys : List (K × ℕ)) → Distinct (sorted keys)
  sorted-Distinct keys =
      sort_buckets-Distinct (enumerate 0 (new_buckets hash n keys))
        (enumerate-Distinct 0 (new_buckets hash n keys))

  -- The bucket of a key is among the sorted ones, and the key is in it.
  pub sorted-Mem :
      (keys : List (K × ℕ)) (e : K × ℕ)
      → 0 < n
      → Memᴰ e keys
      → (bucket : List (K × ℕ)) × Memᴰ (slot_of hash n (pos 0) e.0, bucket) (sorted keys)
        × Memᴰ e bucket
  sorted-Mem keys e h m =
      let b = slot_of hash n (pos 0) e.0 in
      (
        in_bucket b keys,
        sort_buckets-Mem (b, in_bucket b keys) (enumerate 0 (new_buckets hash n keys))
            (enumerate-Mem 0 b (new_buckets hash n keys) (omega arith)
              (new_buckets-get b keys (mod-lt (hash (pos 0) e.0) h))),
        in_bucket-Mem e keys m,
      )

  -- A sorted bucket stands inside the table, its keys differ, and they are keys of its number.
  pub Mem-sorted :
      (keys : List (K × ℕ)) (x : ℕ × List (K × ℕ))
      → Distinct keys
      → Memᴰ x (sorted keys)
      → (x.0 < n)
        × Distinct x.1
        × ((e : K × ℕ) → Memᴰ e x.1 → Memᴰ e keys × (slot_of hash n (pos 0) e.0 ≡ x.0))
  Mem-sorted keys x d m =
      let bs = new_buckets hash n keys in
      let (j, e, f) = Mem-enumerate 0 bs x (Mem-sort_buckets x (enumerate 0 bs) m) in
      let size = length-fill_buckets keys (replicate n []) ∙ length-replicate n [] in
      let same : x.0 ≡ j = omega arith in
      let inside : x.0 < n = rw (← size, same) (get_elem?-lt bs j f) in
      let own : some (in_bucket x.0 keys) ≡ some x.1 =
        sym (new_buckets-get x.0 keys inside) ∙ ap (get_elem? bs) same ∙ f in
      let bucket : in_bucket x.0 keys ≡ x.1 = cc in
      (
        inside,
        rw bucket at (in_bucket-Distinct x.0 keys d),
        λ e' m'. Mem-in_bucket x.0 e' keys (rw (← bucket) at m'),
      )
