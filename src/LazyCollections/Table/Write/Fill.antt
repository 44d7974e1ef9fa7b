-- ===== src/LazyCollections/Table/Write/Fill.antt =====
-- `LazyTable::write` of src/lazy_collections.rs: where a bucket has a seed, it is filled into the two
-- tables, and its keys are found in them.
use mathlib.Core.Path.{subst}
use skitter.Prelude.{
  ℕ, ◌+◌, ◌-◌, ◌^◌, ◌<◌, ◌≡◌, ◌≢◌, refl, sym, ap, ◌∙◌, inl, inr, some, List, [], ◌∷◌, arith, length,
  get_elem?, set, length-set, get_elem?-set_self, get_elem?-set_ne,
}
use mathlib.Core.List.{Memᴰ}
use mathlib.Core.List.Memᴰ.{head, tail, cases_cons}
use skitter.Prelude.Int.{ℤ, pos, negsuc}
use skitter.LazyCollections.Table.{table_slot_invalid}
use skitter.LazyCollections.Table.Write.{as_i32, store_all, slot_of, fill_bucket}
use skitter.LazyCollections.Table.Write.Sorting.{Distinct}
use skitter.LazyCollections.Table.Write.Seeds.{Fits, targets, Ends, search_seed-Ends}
use skitter.LazyCollections.Table.Write.Slots.{
  as_i32-small, Storable, Every, set-Every, store_all-Every, length-store_all, store_all-kept,
  store_all-stored,
}

module _ {K : Type 0} (hash : ℤ → K → ℕ) (n fuel : ℕ) (keys : List (K × ℕ)) where
  -- Among the first `fuel` seeds there is one that sends the keys of a bucket, two or more, to distinct
  -- free slots of the second table.
  unfoldable pub HasSeed : List ℤ → List (K × ℕ) → Type 0
  HasSeed t2 [] = Unit
  HasSeed t2 (e ∷ []) = Unit
  HasSeed t2 (e ∷ f ∷ es) = (j : ℕ) × (j < fuel) × Fits hash n (negsuc j) t2 (e ∷ f ∷ es)

  pub data Found (t1 t2 : List ℤ) (b : ℕ) (e : K × ℕ) : Type 0 where
    single : get_elem? t1 b ≡ some (pos e.1) → Found t1 t2 b e
    seeded :
        (s : ℕ)
        → get_elem? t1 b ≡ some (negsuc s)
        → get_elem? t2 (slot_of hash n (negsuc s) e.0) ≡ some (pos e.1)
        → Found t1 t2 b e

  -- An entry of the second table, and one of the first.
  pub data Item (v : ℤ) : Type 0 where
    nothing : v ≡ table_slot_invalid → Item v
    item : (e : K × ℕ) → Memᴰ e keys → v ≡ pos e.1 → Item v

  pub data Entry (v : ℤ) : Type 0 where
    direct : Item v → Entry v
    seed : (s : ℕ) → s < fuel → v ≡ negsuc s → Entry v

  pub record Changed (t1 t2 t1' t2' : List ℤ) : Type 0 where
    pub kept :
        (h : ℕ) (v : ℤ)
        → v ≢ table_slot_invalid
        → get_elem? t2 h ≡ some v
        → get_elem? t2' h ≡ some v
    pub length_1 : length t1' ≡ length t1
    pub length_2 : length t2' ≡ length t2
    pub entries_1 : Every Entry t1 → Every Entry t1'
    pub entries_2 : Every Item t2 → Every Item t2'

  pub record Step (b : ℕ) (bucket : List (K × ℕ)) (t1 t2 : List ℤ) : Type 0 where
    pub t1' : List ℤ
    pub t2' : List ℤ
    pub runs : fill_bucket hash n fuel b bucket (t1, t2) ≡ some (t1', t2')
    pub found : (e : K × ℕ) → Memᴰ e bucket → Found t1' t2' b e
    pub others : (j : ℕ) → b ≢ j → get_elem? t1' j ≡ get_elem? t1 j
    pub changed : Changed t1 t2 t1' t2'

  -- A bucket inside the table, of keys that differ.
  pub record Usable (b : ℕ) (bucket : List (K × ℕ)) : Type 0 where
    pub inside : b < n
    pub distinct : Distinct bucket
    pub known : (e : K × ℕ) → Memᴰ e bucket → Memᴰ e keys

  module _ (small : (e : K × ℕ) → Memᴰ e keys → e.1 < 2 ^ 31 - 1) where
    single-Step :
        (b : ℕ) (e : K × ℕ) (t1 t2 : List ℤ)
        → length t1 ≡ n
        → Usable b (e ∷ [])
        → Step b (e ∷ []) t1 t2
    unfolding fill_bucket
    single-Step b e t1 t2 l k =
        let m = k.known e (head refl) in
        let value = as_i32-small e.1 (small e m) in
        record {
          t1' = set t1 b (as_i32 e.1);
          t2' = t2;
          runs = refl;
          found = λ d q. elim (cases_cons q) [
            | inl s ↦ single (
                get_elem?-set_self t1 b (as_i32 e.1) (subst (λ j. b < j) (sym l) k.inside)
                ∙ ap some (value ∙ ap (λ (w : K × ℕ). pos w.1) (sym s)))
            | inr z ↦ elim z [ ]
          ];
          others = λ j d. get_elem?-set_ne t1 (as_i32 e.1) d;
          changed = record {
            kept = λ h v d g. g;
            length_1 = length-set t1 b (as_i32 e.1);
            length_2 = refl;
            entries_1 = set-Every Entry t1 b (as_i32 e.1) (direct (item e m value));
            entries_2 = λ every. every;
          };
        }

    Mem-targets :
        (z : ℤ) (es : List (K × ℕ)) (d : ℕ × ℕ)
        → Memᴰ d (targets hash n z es)
        → (e : K × ℕ) × Memᴰ e es × (d ≡ (slot_of hash n z e.0, e.1))
    unfolding targets
    Mem-targets z [] d m = elim m [ ]
    Mem-targets z (e ∷ es) d m = elim (cases_cons m) [
      | inl s ↦ (e, head refl, s)
      | inr q ↦ let (c, k, s) = Mem-targets z es d q in (c, tail k, s)
    ]

    targets-Mem :
        (z : ℤ) (es : List (K × ℕ)) (e : K × ℕ)
        → Memᴰ e es
        → Memᴰ (slot_of hash n z e.0, e.1) (targets hash n z es)
    unfolding targets
    targets-Mem z [] e m = elim m [ ]
    targets-Mem z (c ∷ es) e m = elim (cases_cons m) [
      | inl s ↦ head (ap (λ (w : K × ℕ). (slot_of hash n z w.0, w.1)) s)
      | inr q ↦ tail (targets-Mem z es e q)
    ]

    targets-Storable :
        (z : ℤ) (t2 : List ℤ) (es : List (K × ℕ))
        → ((e : K × ℕ) → Memᴰ e es → Memᴰ e keys)
        → Fits hash n z t2 es
        → Storable (targets hash n z es) t2
    targets-Storable z t2 es k f = record {
      distinct = f.distinct;
      free = f.free;
      small = λ d m.
          let (e, q, s) = Mem-targets z es d m in
          subst (λ j. j < 2 ^ 31 - 1) (ap (λ (w : ℕ × ℕ). w.1) (sym s)) (small e (k e q));
    }

    seeded-Step :
        (b : ℕ) (e f : K × ℕ) (es : List (K × ℕ)) (t1 t2 : List ℤ)
        → length t1 ≡ n
        → Usable b (e ∷ f ∷ es)
        → Ends hash n fuel 0 t2 (e ∷ f ∷ es)
        → Step b (e ∷ f ∷ es) t1 t2
    unfolding fill_bucket Ends
    seeded-Step b e f es t1 t2 l k (i, bound, r, fits) =
        let all = e ∷ f ∷ es in
        let ts = targets hash n (negsuc i) all in
        let stored = targets-Storable (negsuc i) t2 all k.known fits in
        record {
          t1' = set t1 b (negsuc i);
          t2' = store_all ts t2;
          runs = rw r refl;
          found = λ d m.
              seeded i (get_elem?-set_self t1 b (negsuc i) (subst (λ j. b < j) (sym l) k.inside)) (
                store_all-stored ts t2 (slot_of hash n (negsuc i) d.0, d.1) stored
                  (targets-Mem (negsuc i) all d m));
          others = λ j d. get_elem?-set_ne t1 (negsuc i) d;
          changed = record {
            kept = λ h v d g. store_all-kept ts t2 h stored d g;
            length_1 = length-set t1 b (negsuc i);
            length_2 = length-store_all ts t2;
            entries_1 = set-Every Entry t1 b (negsuc i) (seed i (omega arith) refl);
            entries_2 = store_all-Every Item ts t2 (λ d m.
                let (c, q, s) = Mem-targets (negsuc i) all d m in
                item c (k.known c q)
                  (as_i32-small d.1 (stored.small d m) ∙ ap (λ (w : ℕ × ℕ). pos w.1) s));
          };
        }

    pub fill_bucket-Step :
        (b : ℕ) (bucket : List (K × ℕ)) (t1 t2 : List ℤ)
        → length t1 ≡ n
        → Usable b bucket
        → HasSeed t2 bucket
        → Step b bucket t1 t2
    unfolding fill_bucket HasSeed
    fill_bucket-Step b [] t1 t2 l k h = record {
      t1' = t1;
      t2' = t2;
      runs = refl;
      found = λ e m. elim m [ ];
      others = λ j d. refl;
      changed = record {
        kept = λ i v d g. g;
        length_1 = refl;
        length_2 = refl;
        entries_1 = λ every. every;
        entries_2 = λ every. every;
      };
    }
    fill_bucket-Step b (e ∷ []) t1 t2 l k h = single-Step b e t1 t2 l k
    fill_bucket-Step b (e ∷ f ∷ es) t1 t2 l k (j, bound, fits) = seeded-Step b e f es t1 t2 l k (
        search_seed-Ends hash n fuel 0 j t2 (e ∷ f ∷ es) bound
          (subst (λ i. Fits hash n (negsuc i) t2 (e ∷ f ∷ es)) (zero_plus j) fits))
      where
        zero_plus : (i : ℕ) → i ≡ 0 + i
        zero_plus i = omega arith
