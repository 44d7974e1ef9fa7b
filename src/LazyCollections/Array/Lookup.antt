-- ===== src/LazyCollections/Array/Lookup.antt =====
-- `LazyArray` of src/lazy_collections.rs: the array that `read` makes of what `write` wrote
-- represents the items, and `get` finds each of them, whichever were loaded before.
use skitter.Prelude.{
  ℕ, zero, suc, ◌≤◌, ◌<◌, ◌≡◌, refl, sym, ap, ◌∙◌, ◌≢◌, Option, none, some, List, [], ◌∷◌, ◌++◌,
  All, length, get_elem?, set, drop, arith, length-append, length-set, get_elem?-set_self,
  get_elem?-set_ne, drop-append_length, le→leb, get_elem?-ge, get_elem?-none,
}
use native.Mathlib.Decide.{ℕ_discrete}
use skitter.Persist.Stream.{PersistReader, at, new_reader}
use skitter.Persist.Class.{Persist, RoundTrips}
use skitter.Persist.Sequences.Laws.{items_bytes}
use skitter.LazyCollections.Array.{LazyArray, unloaded, load, get}
use skitter.LazyCollections.Array.Laws.{starts, length-starts, locate}

-- What is known of an array that holds the items `xs`, some of them loaded.
module _ {I T : Type 0} (p : Persist I) (build : I → T) where
  -- The bytes at the index's offset parse as `x`.
  pub record Parses (a : LazyArray T) (i : ℕ) (x : I) : Type 0 where
    pub start : ℕ
    pub after : PersistReader
    pub indexed : get_elem? a.item_indices i ≡ some start
    pub inside : start ≤ length a.data_bytes
    pub parsed : p.persist_read (new_reader (drop start a.data_bytes)) ≡ some (x, after)

  pub record Represents (a : LazyArray T) (xs : List I) : Type 0 where
    pub loaded_length : length a.loaded ≡ length xs
    pub parses : (i : ℕ) (x : I) → get_elem? xs i ≡ some x → Parses a i x
    pub agrees :
        (i : ℕ) (x : I) (t : T)
        → get_elem? xs i ≡ some x
        → get_elem? a.loaded i ≡ some (some t)
        → t ≡ build x

  get_elem?-cell :
      {A B : Type 0} (l : List A) (m : List B) (i : ℕ) {b : B}
      → length l ≡ length m
      → get_elem? m i ≡ some b
      → (a : A) × (get_elem? l i ≡ some a) × (i < length l)
  get_elem?-cell [] [] i n e = cc
  get_elem?-cell [] (b ∷ m) i n e = absurd (omega arith)
  get_elem?-cell (a ∷ l) [] i n e = cc
  get_elem?-cell (a ∷ l) (b ∷ m) zero n e = (a, refl, omega arith)
  get_elem?-cell (a ∷ l) (b ∷ m) (suc i) n e =
      let (c, f, h) = get_elem?-cell l m i (omega arith) e in (c, f, omega arith)

  -- The result of a `get`: the item built, in an array that represents the same items.
  unfoldable pub Finds : LazyArray T → List I → ℕ → I → Type 0
  Finds a xs i x = (a' : LazyArray T) × (get p build a i ≡ some (build x, a')) × Represents a' xs

  loaded-Represents :
      (a : LazyArray T) (xs : List I) (i : ℕ) (x : I)
      → Represents a xs
      → get_elem? xs i ≡ some x
      → i < length a.loaded
      → Represents (record a { loaded = set a.loaded i (some (build x)) }) xs
  loaded-Represents a xs i x r e h = record {
    loaded_length = length-set a.loaded i (some (build x)) ∙ r.loaded_length;
    parses = λ j y f.
        let q = r.parses j y f in
        record {
          start = q.start;
          after = q.after;
          indexed = q.indexed;
          inside = q.inside;
          parsed = q.parsed;
        };
    agrees = λ j y t f g. elim (ℕ_discrete i j) [
      | yes s ↦ cc (get_elem?-set_self a.loaded i (some (build x)) h)
      | no n ↦ r.agrees j y t f (sym (get_elem?-set_ne a.loaded (some (build x)) n) ∙ g)
    ];
  }

  load-Finds :
      (a : LazyArray T) (xs : List I) (i : ℕ) (x : I) (cell : Option T)
      → Represents a xs
      → get_elem? xs i ≡ some x
      → get_elem? a.loaded i ≡ some cell
      → i < length a.loaded
      → (a' : LazyArray T) × (load p build a i cell ≡ some (build x, a')) × Represents a' xs
  unfolding load
  load-Finds a xs i x (some t) r e c h = (a, ap (λ u. some (u, a)) (r.agrees i x t e c), r)
  load-Finds a xs i x none r e c h =
      let q = r.parses i x e in
      (
        record a { loaded = set a.loaded i (some (build x)) },
        rw (q.indexed, le→leb q.start (length a.data_bytes) q.inside, q.parsed),
        loaded-Represents a xs i x r e h,
      )

  -- On an array that represents some items, `get` at the index of an item returns the item, built,
  -- whether or not it was loaded before, and leaves an array that represents the same items.
  pub get-Finds :
      (a : LazyArray T) (xs : List I) (i : ℕ) (x : I)
      → Represents a xs
      → get_elem? xs i ≡ some x
      → Finds a xs i x
  unfolding Finds get
  get-Finds a xs i x r e =
      let (cell, c, h) = get_elem?-cell a.loaded xs i r.loaded_length e in
      let (a', l, r') = load-Finds a xs i x cell r e c h in (a', rw c l, r')

  pub get-missing :
      (a : LazyArray T) (xs : List I) (i : ℕ)
      → Represents a xs
      → get_elem? xs i ≡ none
      → get p build a i ≡ none
  unfolding get
  get-missing a xs i r e =
      rw (get_elem?-ge a.loaded i (rw r.loaded_length (get_elem?-none xs i e))) refl

module _ {I : Type 0} (p : Persist I) where
  -- The array that a file of the items is read as.
  unfoldable pub fresh_array : {T : Type 0} (xs : List I) → All (RoundTrips p) xs → LazyArray T
  unfolding unloaded
  fresh_array xs h = record {
    item_indices = starts p 0 xs h;
    data_bytes = items_bytes p xs h;
    loaded = unloaded (starts p 0 xs h);
  }

unloaded_empty :
    {T : Type 0} (is : List ℕ) (i : ℕ) (t : T) → get_elem? (unloaded is) i ≢ some (some t)
unfolding unloaded
unloaded_empty [] i t e = cc
unloaded_empty (n ∷ is) zero t e = cc
unloaded_empty (n ∷ is) (suc i) t e = unloaded_empty is i t e

length-unloaded : (T : Type 0) (is : List ℕ) → length (unloaded {T = T} is) ≡ length is
unfolding unloaded
length-unloaded T [] = refl
length-unloaded T (n ∷ is) = ap suc (length-unloaded T is)

module _ {I T : Type 0} (p : Persist I) (build : I → T) where
  fresh_array-Parses :
      (xs : List I) (h : All (RoundTrips p) xs) (i : ℕ) (x : I)
      → get_elem? xs i ≡ some x
      → Parses p build (fresh_array p xs h) i x
  unfolding fresh_array
  fresh_array-Parses xs h i x e =
      let l = locate p 0 xs h i x e in
      record {
        start = length l.front;
        after = at l.trip.bytes l.back;
        indexed = l.found ∙ ap some (omega arith);
        inside = rw (l.cut, length-append l.front (l.trip.bytes ++ l.back)) (omega arith);
        parsed =
            rw (l.cut, drop-append_length l.front (l.trip.bytes ++ l.back))
              (l.trip.reads [] l.back);
      }

  pub fresh_array-Represents :
      (xs : List I) (h : All (RoundTrips p) xs) → Represents p build (fresh_array p xs h) xs
  fresh_array-Represents xs h = record {
    loaded_length =
        unfold fresh_array in (length-unloaded T (starts p 0 xs h) ∙ length-starts p 0 xs h);
    parses = fresh_array-Parses xs h;
    agrees = λ i x t e f. absurd (unloaded_empty (starts p 0 xs h) i t (unfold fresh_array in f));
  }
