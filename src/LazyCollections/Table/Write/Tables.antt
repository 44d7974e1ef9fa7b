-- ===== src/LazyCollections/Table/Write/Tables.antt =====
-- `LazyTable::write` of src/lazy_collections.rs: the loop over the sorted buckets leaves tables in
-- which each key leads to its item.
use mathlib.Core.Path.{subst}
use skitter.Prelude.{
  ℕ, zero, suc, ◌-◌, ◌^◌, ◌<◌, ◌≡◌, ◌≢◌, refl, sym, ap, ◌∙◌, inl, inr, none, some, List, [], ◌∷◌,
  arith, length, get_elem?, replicate, length-replicate,
}
use mathlib.Core.List.{Memᴰ}
use mathlib.Core.List.Memᴰ.{head, tail, cases_cons}
use skitter.Prelude.Int.{ℤ, pos, negsuc}
use skitter.LazyCollections.Table.{table_slot_invalid}
use skitter.LazyCollections.Table.Write.{fill_bucket, fill_tables, build_tables, new_table, slot_of}
use skitter.LazyCollections.Table.Write.Sorting.{Distinct}
use skitter.LazyCollections.Table.Write.Buckets.{sorted, sorted-Distinct, sorted-Mem, Mem-sorted}
use skitter.LazyCollections.Table.Write.Slots.{Every}
use skitter.LazyCollections.Table.Write.Fill.{
  HasSeed, Found, Item, Entry, Changed, Step, Usable, fill_bucket-Step,
}

module _ {K : Type 0} (hash : ℤ → K → ℕ) (n fuel : ℕ) (keys : List (K × ℕ)) where
  record Filled (rest : List (ℕ × List (K × ℕ))) (t1 t2 : List ℤ) : Type 0 where
    pub t1' : List ℤ
    pub t2' : List ℤ
    pub runs : fill_tables hash n fuel rest (t1, t2) ≡ some (t1', t2')
    pub found :
        (x : ℕ × List (K × ℕ)) (e : K × ℕ)
        → Memᴰ x rest
        → Memᴰ e x.1
        → Found hash n fuel keys t1' t2' x.0 e
    pub others :
        (j : ℕ)
        → ((x : ℕ × List (K × ℕ)) → Memᴰ x rest → x.0 ≢ j)
        → get_elem? t1' j ≡ get_elem? t1 j
    pub changed : Changed hash n fuel keys t1 t2 t1' t2'

  Changed-trans :
      {a b c d e f : List ℤ}
      → Changed hash n fuel keys a b c d
      → Changed hash n fuel keys c d e f
      → Changed hash n fuel keys a b e f
  Changed-trans p q = record {
    kept = λ h v o g. q.kept h v o (p.kept h v o g);
    length_1 = q.length_1 ∙ p.length_1;
    length_2 = q.length_2 ∙ p.length_2;
    entries_1 = λ every. q.entries_1 (p.entries_1 every);
    entries_2 = λ every. q.entries_2 (p.entries_2 every);
  }

  -- Tables in which the unseeded hash of each key leads to its item, and every entry is an item, a
  -- seed or nothing.
  pub record Built : Type 0 where
    pub t1 : List ℤ
    pub t2 : List ℤ
    pub builds : build_tables hash n fuel keys ≡ some (t1, t2)
    pub finds :
        (e : K × ℕ) → Memᴰ e keys → Found hash n fuel keys t1 t2 (slot_of hash n (pos 0) e.0) e
    pub size_1 : length t1 ≡ n
    pub size_2 : length t2 ≡ n
    pub entries_1 : Every (Entry hash n fuel keys) t1
    pub entries_2 : Every (Item hash n fuel keys) t2

  -- Each bucket in turn has a seed, with the tables that the buckets before it leave.
  unfoldable pub SeedsFrom : List (ℕ × List (K × ℕ)) → List ℤ × List ℤ → Type 0
  SeedsFrom [] tables = Unit
  SeedsFrom ((b, bucket) ∷ rest) tables =
      HasSeed hash n fuel keys tables.1 bucket × (elim (fill_bucket hash n fuel b bucket tables) [
        | none ↦ Unit
        | some tables' ↦ SeedsFrom rest tables'
      ])

  -- What the seeded hash is relied on for: each bucket of the keys, the fullest first, has a seed.
  unfoldable pub HasSeeds : Type 0
  HasSeeds = SeedsFrom (sorted hash n keys) (new_table hash n, new_table hash n)

  module _ (small : (e : K × ℕ) → Memᴰ e keys → e.1 < 2 ^ 31 - 1) where
    -- A key that is found stays found: its bucket is not filled again, and its slot not overwritten.
    found_later :
        (t1 t2 : List ℤ) (b : ℕ) (e : K × ℕ) {t1' t2' : List ℤ}
        → Memᴰ e keys
        → get_elem? t1' b ≡ get_elem? t1 b
        → Changed hash n fuel keys t1 t2 t1' t2'
        → Found hash n fuel keys t1 t2 b e
        → Found hash n fuel keys t1' t2' b e
    found_later t1 t2 b e m same c (Found.single g) = Found.single (same ∙ g)
    found_later t1 t2 b e m same c (Found.seeded s g h) =
        Found.seeded s (same ∙ g)
          (c.kept (slot_of hash n (negsuc s) e.0) (pos e.1) (not_invalid e.1 (small e m)) h)
      where
        pos-injective : {i j : ℕ} → ◌≡◌ {A = ℤ} (pos i) (pos j) → i ≡ j
        pos-injective q = cc

        not_invalid : (i : ℕ) → i < 2 ^ 31 - 1 → pos i ≢ table_slot_invalid
        not_invalid i b q = let r = pos-injective q in omega arith

    fill_tables-Filled :
        (rest : List (ℕ × List (K × ℕ))) (t1 t2 : List ℤ)
        → length t1 ≡ n
        → Distinct rest
        → ((x : ℕ × List (K × ℕ)) → Memᴰ x rest → Usable hash n fuel keys x.0 x.1)
        → SeedsFrom rest (t1, t2)
        → Filled rest t1 t2
    unfolding fill_tables Distinct SeedsFrom
    fill_tables-Filled [] t1 t2 l1 d k h = record {
      t1' = t1;
      t2' = t2;
      runs = refl;
      found = λ x e m. elim m [ ];
      others = λ j o. refl;
      changed = record {
        kept = λ h v o g. g;
        length_1 = refl;
        length_2 = refl;
        entries_1 = λ every. every;
        entries_2 = λ every. every;
      };
    }
    fill_tables-Filled ((b, bucket) ∷ rest) t1 t2 l1 (d, ds) k (h, hs) =
        let s : Step hash n fuel keys b bucket t1 t2 =
          fill_bucket-Step hash n fuel keys small b bucket t1 t2 l1 (k (b, bucket) (head refl)) h in
        let r : Filled rest s.t1' s.t2' =
          fill_tables-Filled rest s.t1' s.t2' (s.changed.length_1 ∙ l1) ds (λ x m. k x (tail m))
            (rw s.runs at hs) in
        record {
          t1' = r.t1';
          t2' = r.t2';
          runs = rw s.runs r.runs;
          found = λ x e m i. elim (cases_cons m) [
            | inl q ↦
                let same : x.0 ≡ b = ap (λ (w : ℕ × List (K × ℕ)). w.0) q in
                let within : Memᴰ e bucket = subst (λ (w : ℕ × List (K × ℕ)). Memᴰ e w.1) q i in
                subst (λ j. Found hash n fuel keys r.t1' r.t2' j e) (sym same)
                  (found_later s.t1' s.t2' b e ((k (b, bucket) (head refl)).known e within)
                    (r.others b (λ y y_in o. d y y_in (sym o))) r.changed (s.found e within))
            | inr q ↦ r.found x e q i
          ];
          others = λ j o. r.others j (λ x m. o x (tail m)) ∙ s.others j (o (b, bucket) (head refl));
          changed = Changed-trans s.changed r.changed;
        }

    new_table-Every : (m : ℕ) → Every (Item hash n fuel keys) (replicate m table_slot_invalid)
    new_table-Every zero j v e = cc
    new_table-Every (suc m) zero v e = Item.nothing (cc)
    new_table-Every (suc m) (suc j) v e = new_table-Every m j v e

    pub build_tables-Built : 0 < n → Distinct keys → HasSeeds → Built
    unfolding build_tables HasSeeds
    build_tables-Built h d seeds =
        let f =
          fill_tables-Filled (sorted hash n keys) (new_table hash n) (new_table hash n)
            (length-replicate n table_slot_invalid) (sorted-Distinct hash n keys)
            (λ x m.
              let (inside, distinct, own) = Mem-sorted hash n keys x d m in
              record { inside = inside; distinct = distinct; known = λ e i. (own e i).0 })
            seeds in
        record {
          t1 = f.t1';
          t2 = f.t2';
          builds = f.runs;
          finds = λ e m.
              let (bucket, i, q) = sorted-Mem hash n keys e h m in
              f.found (slot_of hash n (pos 0) e.0, bucket) e i q;
          size_1 = f.changed.length_1 ∙ length-replicate n table_slot_invalid;
          size_2 = f.changed.length_2 ∙ length-replicate n table_slot_invalid;
          entries_1 = f.changed.entries_1 (λ j v e. Entry.direct (new_table-Every n j v e));
          entries_2 = f.changed.entries_2 (new_table-Every n);
        }
