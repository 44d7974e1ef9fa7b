-- ===== src/Persist/Sequences/Map.antt =====
-- `AHashMap` of src/persist.rs: a map with distinct keys is read back with the
-- same entries, in any order.
use mathlib.Core.Path.{subst}
use skitter.Prelude.{ℕ, ◌≡◌, ap, ◌∙◌, ◌≢◌, List, [], ◌∷◌, ◌++◌, All, length, append-nil}
use mathlib.Core.List.{Permᴰ}
use mathlib.Core.List.Permᴰ
use skitter.Persist.Stream.{PersistWriter, Read, Reads}
use skitter.Persist.Stream.Laws.{Reads-bind, Reads-pure}
use skitter.Persist.Class.{Persist, RoundTrips}
use skitter.Persist.Uint.{usize}
use skitter.Persist.Values.Laws.{written_twice}
use skitter.Persist.Sequences.{write_entries, read_entries, map_write, map_read}
use skitter.Persist.Sequences.Laws.{Fits, usize-RoundTrips}

module _ {K V : Type 0} where
  -- No entry of `m` has the key `k`.
  abbrev pub IsFresh : K → List (K × V) → Type 0
  IsFresh k = All (λ e. e.0 ≢ k)

  -- No entry's key is that of a later one.
  abbrev pub IsDistinct : List (K × V) → Type 0
  IsDistinct [] = Unit
  IsDistinct (e ∷ m) = All (λ f. e.0 ≢ f.0) m × IsDistinct m

  -- What is relied on of `AHashMap::insert`: a key that is not there becomes one entry more, somewhere
  -- in an order of iteration that may be new.
  pub record Inserts (insert : K → V → List (K × V) → List (K × V)) : Type 0 where
    pub inserts :
        (k : K) (v : V) (m : List (K × V)) → IsFresh k m → Permᴰ (insert k v m) ((k, v) ∷ m)

  All-Perm : (P : K × V → Type 0) {l m : List (K × V)} → Permᴰ l m → All P l → All P m
  All-Perm P Permᴰ.nil h = h
  All-Perm P (Permᴰ.cons e d) (h, hs) = (subst P e h, All-Perm P d hs)
  All-Perm P (Permᴰ.swap e f) (h, (i, hs)) = (subst P f i, (subst P e h, hs))
  All-Perm P (Permᴰ.trans d e) h = All-Perm P e (All-Perm P d h)

  -- Keys that are fresh in a map and differ from one more key are fresh in the map with this key.
  still-IsFresh :
      (e : K × V) {l l' : List (K × V)} (m : List (K × V))
      → Permᴰ l' (e ∷ l)
      → All (λ f. e.0 ≢ f.0) m
      → All (λ f. IsFresh f.0 l) m
      → All (λ f. IsFresh f.0 l') m
  still-IsFresh e [] p h k = tt
  still-IsFresh e (f ∷ m) p (h, hs) (k, ks) =
      (All-Perm (λ x. x.0 ≢ f.0) (Permᴰ.symm p) (h, k), still-IsFresh e m p hs ks)

module _ {K V : Type 0} (insert : K → V → List (K × V) → List (K × V)) (p : Persist K)
    (q : Persist V) where
  -- Key and value of an entry survive the round trip.
  pub record EntryRoundTrips (e : K × V) : Type 0 where
    pub key : RoundTrips p e.0
    pub value : RoundTrips q e.1

  entries_bytes : (m : List (K × V)) → All EntryRoundTrips m → List ℕ
  entries_bytes [] h = []
  entries_bytes (e ∷ m) (t, ts) = t.key.bytes ++ (t.value.bytes ++ entries_bytes m ts)

  write_entries-bytes :
      (m : List (K × V)) (h : All EntryRoundTrips m) (w : PersistWriter)
      → write_entries insert p q m w ≡ record w { output = w.output ++ entries_bytes m h }
  unfolding write_entries entries_bytes
  write_entries-bytes [] h w = rw append-nil
  write_entries-bytes ((k, v) ∷ m) (t, ts) w =
      ap (λ u. write_entries insert p q m (q.persist_write v u)) (t.key.writes w)
      ∙ ap (write_entries insert p q m) (t.value.writes _)
      ∙ write_entries-bytes m ts _
      ∙ written_twice (w.output ++ t.key.bytes) t.value.bytes (entries_bytes m ts)
      ∙ written_twice w.output t.key.bytes (t.value.bytes ++ entries_bytes m ts)

  -- A map is read with these entries, in some order.
  pub record ReadsUpToOrder {A : Type 0} (read : Read (List A)) (bytes : List ℕ) (m : List A)
      : Type 0 where
    pub found : List A
    pub reads : Reads read bytes found
    pub same_entries : Permᴰ found m

  module _ (lawful : Inserts insert) where
    Reads-read_entries :
        (m : List (K × V)) (h : All EntryRoundTrips m) (result : List (K × V))
        → IsDistinct m
        → All (λ e. IsFresh e.0 result) m
        → ReadsUpToOrder
            (read_entries insert p q (length m) result)
            (entries_bytes m h)
            (result ++ m)
    unfolding read_entries entries_bytes
    Reads-read_entries [] h result d f = record {
      found = result;
      reads = Reads-pure result;
      same_entries = rw (append-nil result) (Permᴰ.refl result);
    }
    Reads-read_entries ((k, v) ∷ m) (t, ts) result (d, ds) (f, fs) =
        let put = lawful.inserts k v result f in
        let rest =
          Reads-read_entries m ts (insert k v result) ds (still-IsFresh (k, v) m put d fs) in
        record {
          found = rest.found;
          reads = Reads-bind p.persist_read _ t.key.reads (
              Reads-bind q.persist_read
                (λ u. read_entries insert p q (length m) (insert k u result)) t.value.reads
                rest.reads);
          same_entries =
              Permᴰ.trans rest.same_entries (
                Permᴰ.trans (Permᴰ.append_right m put) (Permᴰ.symm (Permᴰ.middle (k, v) result m)));
        }

    nothing-IsFresh : (m : List (K × V)) → All (λ e. IsFresh {V = V} e.0 []) m
    nothing-IsFresh [] = tt
    nothing-IsFresh (e ∷ m) = (tt, nothing-IsFresh m)

    -- Where insert adds a key that is not there as one entry more, in any order of iteration, a map of
    -- fewer than 2 ^ 64 entries with distinct keys, of which each key and value survives a round trip,
    -- is written as bytes that depend on it alone, and these are read as a map with the same entries.
    pub map_read-map_write :
        (m : List (K × V))
        → Fits (length m)
        → IsDistinct m
        → All EntryRoundTrips m
        → (bytes : List ℕ) × ((w : PersistWriter)
            → map_write insert p q m w ≡ record w { output = w.output ++ bytes })
          × ReadsUpToOrder (map_read insert p q) bytes m
    unfolding map_write map_read
    map_read-map_write m h d ts =
        let t = usize-RoundTrips (length m) h in
        let entries = Reads-read_entries m ts [] d (nothing-IsFresh m) in
        (
          t.bytes ++ entries_bytes m ts,
          λ w.
              ap (write_entries insert p q m) (t.writes w)
              ∙ write_entries-bytes m ts _
              ∙ written_twice w.output t.bytes (entries_bytes m ts),
          record {
            found = entries.found;
            reads =
                Reads-bind usize.persist_read (λ len. read_entries insert p q len []) t.reads
                  entries.reads;
            same_entries = entries.same_entries;
          },
        )
