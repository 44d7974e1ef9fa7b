-- ===== src/LazyCollections/Array/Laws.antt =====
-- `LazyArray` of src/lazy_collections.rs: what was written is found at its index, on every `get`.
use mathlib.Core.Path.{subst}
use skitter.Prelude.{
  ℕ, zero, suc, ◌+◌, ◌*◌, ◌^◌, ◌<◌, ◌≡◌, refl, sym, ap, ◌∙◌, some, List, [], ◌∷◌, ◌++◌, All, length,
  get_elem?, take, drop, append-nil, append_assoc, arith, length-append, take-append_length,
  drop-append_length,
}
use native.Mathlib.Nat.{mod-eq_of_lt}
use skitter.Persist.Stream.{PersistWriter, Reads, offset, read_bytes}
use skitter.Persist.Stream.Laws.{Reads-read_bytes}
use skitter.Persist.Class.{Persist, RoundTrips}
use skitter.Persist.Uint.{to_le_bytes}
use skitter.Persist.Uint.Laws.{length-to_le_bytes, from_le_bytes-to_le_bytes}
use skitter.Persist.Values.Laws.{Reads-map}
use skitter.Persist.Sequences.Laws.{items_bytes}
use skitter.LazyCollections.Array.{raw_bytes, raw_split, read_raw_array, write_loop}

take_first : (k : ℕ) (xs ys : List ℕ) → length xs ≡ k → take k (xs ++ ys) ≡ xs
take_first k xs ys e = subst (λ j. take j (xs ++ ys) ≡ xs) e (take-append_length xs ys)

drop_first : (k : ℕ) (xs ys : List ℕ) → length xs ≡ k → drop k (xs ++ ys) ≡ ys
drop_first k xs ys e = subst (λ j. drop j (xs ++ ys) ≡ ys) e (drop-append_length xs ys)

-- A list of integers of `k` bytes is read back from its memory.
raw_split-raw_bytes :
    (k : ℕ) (ns : List ℕ)
    → All (λ n. n < 256 ^ k) ns
    → raw_split k (length ns) (raw_bytes k ns) ≡ ns
unfolding raw_split raw_bytes
raw_split-raw_bytes k [] h = refl
raw_split-raw_bytes k (n ∷ ns) (h, hs) =
    let e = length-to_le_bytes k n in
    rw (
      take_first k (to_le_bytes k n) (raw_bytes k ns) e,
      drop_first k (to_le_bytes k n) (raw_bytes k ns) e,
      from_le_bytes-to_le_bytes k n h,
      raw_split-raw_bytes k ns hs,
    )

length-raw_bytes : (k : ℕ) (ns : List ℕ) → length (raw_bytes k ns) ≡ length ns * k
unfolding raw_bytes
length-raw_bytes k [] = omega arith
length-raw_bytes k (n ∷ ns) =
    rw (length-append (to_le_bytes k n) (raw_bytes k ns))
      (grind (arith, length-to_le_bytes k n, length-raw_bytes k ns))

pub Reads-read_raw_array :
    (k : ℕ) (ns : List ℕ)
    → All (λ n. n < 256 ^ k) ns
    → Reads (read_raw_array k (length ns)) (raw_bytes k ns) ns
unfolding read_raw_array
Reads-read_raw_array k ns h =
    subst (λ v. Reads (read_raw_array k (length ns)) (raw_bytes k ns) v)
      (raw_split-raw_bytes k ns h)
      (Reads-map (read_bytes (length ns * k)) (raw_split k (length ns))
        (rw (length-raw_bytes k ns) at (Reads-read_bytes (raw_bytes k ns))))

module _ {I : Type 0} (p : Persist I) where
  -- Where the items begin in the data, if the first one begins at `base`.
  unfoldable pub starts : ℕ → (xs : List I) → All (RoundTrips p) xs → List ℕ
  starts base [] h = []
  starts base (x ∷ xs) (t, ts) = base ∷ starts (base + length t.bytes) xs ts

  pub length-starts :
      (base : ℕ) (xs : List I) (h : All (RoundTrips p) xs) → length (starts base xs h) ≡ length xs
  unfolding starts
  length-starts base [] h = refl
  length-starts base (x ∷ xs) (t, ts) = ap suc (length-starts (base + length t.bytes) xs ts)

  pub write_loop-starts :
      (xs : List I) (h : All (RoundTrips p) xs) (idx : List ℕ) (w : PersistWriter)
      → length w.output + length (items_bytes p xs h) < 2 ^ 32
      → write_loop p xs idx w ≡ (
        idx ++ starts (length w.output) xs h,
        record w { output = w.output ++ items_bytes p xs h },
      )
  unfolding write_loop starts items_bytes offset
  write_loop-starts [] h idx w fits = rw (append-nil idx, append-nil w.output)
  write_loop-starts (x ∷ xs) (t, ts) idx w fits =
      rw (t.writes w, mod-eq_of_lt below)
        (write_loop-starts xs ts (idx ++ length w.output ∷ [])
            (record w { output = w.output ++ t.bytes }) rest
          ∙ rw (append_assoc idx, append_assoc w.output, length-append w.output t.bytes) refl)
    where
      below : length w.output < 2 ^ 32
      below = omega arith

      rest : length (w.output ++ t.bytes) + length (items_bytes p xs ts) < 2 ^ 32
      rest =
          rw (length-append w.output t.bytes)
            (omega (arith, length-append {0} t.bytes (items_bytes p xs ts)))

  -- The item at an index, and its place in the data.
  pub record Located (base : ℕ) (xs : List I) (h : All (RoundTrips p) xs) (i : ℕ) (x : I)
      : Type 0 where
    pub front : List ℕ
    pub back : List ℕ
    pub trip : RoundTrips p x
    pub found : get_elem? (starts base xs h) i ≡ some (base + length front)
    pub cut : items_bytes p xs h ≡ front ++ (trip.bytes ++ back)

  pub locate :
      (base : ℕ) (xs : List I) (h : All (RoundTrips p) xs) (i : ℕ) (x : I)
      → get_elem? xs i ≡ some x
      → Located base xs h i x
  unfolding starts items_bytes
  locate base [] h i x e = cc
  locate base (y ∷ xs) (t, ts) zero x e =
      let same : y ≡ x = cc in
      subst (λ z. Located base (y ∷ xs) (t, ts) zero z) same
        (record {
          front = [];
          back = items_bytes p xs ts;
          trip = t;
          found = ap some (omega arith);
          cut = refl;
        })
  locate base (y ∷ xs) (t, ts) (suc i) x e =
      let l = locate (base + length t.bytes) xs ts i x e in
      record {
        front = t.bytes ++ l.front;
        back = l.back;
        trip = l.trip;
        found = l.found ∙ ap some (rw (length-append t.bytes l.front) (omega arith));
        cut = ap (λ bs. t.bytes ++ bs) l.cut ∙ sym (append_assoc t.bytes l.front _);
      }
