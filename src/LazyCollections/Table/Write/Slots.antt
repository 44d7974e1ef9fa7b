-- ===== src/LazyCollections/Table/Write/Slots.antt =====
-- `LazyTable::write` of src/lazy_collections.rs: what storing the targets of a bucket does to the
-- second table.
use skitter.Prelude.{
  get_elem?-lt, ℕ, zero, suc, ◌-◌, ◌%◌, ◌^◌, ◌<◌, ◌≡◌, ◌≢◌, refl, sym, ap, ◌∙◌, inl, inr, some,
  List, [], ◌∷◌, arith, length, get_elem?, set, length-set, get_elem?-set_self, get_elem?-set_ne,
}
use mathlib.Core.Path.{subst}
use mathlib.Core.List.{Memᴰ}
use mathlib.Core.List.Memᴰ.{head, tail, cases_cons}
use native.Mathlib.Nat.{mod-eq_of_lt}
use skitter.Prelude.Int.{ℤ, pos}
use skitter.Vm.Words.{to_signed}
use skitter.LazyCollections.Table.{table_slot_invalid}
use skitter.LazyCollections.Table.Write.{as_i32, store_all}
use skitter.LazyCollections.Table.Write.Sorting.{Distinct}
use skitter.LazyCollections.Table.Write.Seeds.{Free}

pub as_i32-small : (i : ℕ) → i < 2 ^ 31 - 1 → as_i32 i ≡ pos i
unfolding to_signed
as_i32-small i h = let m : i % 2 ^ 32 ≡ i = mod-eq_of_lt (omega arith) in rw m (ground arith)

-- The targets are stored at free slots that differ, and their items are small.
pub record Storable (ts : List (ℕ × ℕ)) (t : List ℤ) : Type 0 where
  pub distinct : Distinct ts
  pub free : (e : ℕ × ℕ) → Memᴰ e ts → Free t e.0
  pub small : (e : ℕ × ℕ) → Memᴰ e ts → e.1 < 2 ^ 31 - 1

Storable-tail :
    (e : ℕ × ℕ) (es : List (ℕ × ℕ)) (t : List ℤ)
    → Storable (e ∷ es) t
    → Storable es (set t e.0 (as_i32 e.1))
unfolding Distinct
Storable-tail e es t s = record {
  distinct = s.distinct.1;
  free = λ d m. get_elem?-set_ne t (as_i32 e.1) (s.distinct.0 d m) ∙ s.free d (tail m);
  small = λ d m. s.small d (tail m);
}

pub length-store_all : (ts : List (ℕ × ℕ)) (t : List ℤ) → length (store_all ts t) ≡ length t
unfolding store_all
length-store_all [] t = refl
length-store_all (e ∷ es) t =
    length-store_all es (set t e.0 (as_i32 e.1)) ∙ length-set t e.0 (as_i32 e.1)

-- A slot that is not a target keeps its entry.
store_all-other :
    (ts : List (ℕ × ℕ)) (t : List ℤ) (h : ℕ)
    → ((e : ℕ × ℕ) → Memᴰ e ts → e.0 ≢ h)
    → get_elem? (store_all ts t) h ≡ get_elem? t h
unfolding store_all
store_all-other [] t h d = refl
store_all-other (e ∷ es) t h d =
    store_all-other es (set t e.0 (as_i32 e.1)) h (λ e' m. d e' (tail m))
    ∙ get_elem?-set_ne t (as_i32 e.1) (d e (head refl))

pub store_all-kept :
    (ts : List (ℕ × ℕ)) (t : List ℤ) (h : ℕ) {v : ℤ}
    → Storable ts t
    → v ≢ table_slot_invalid
    → get_elem? t h ≡ some v
    → get_elem? (store_all ts t) h ≡ some v
store_all-kept ts t h {v} s n e =
    store_all-other ts t h (λ d m q.
      let f : get_elem? t d.0 ≡ some table_slot_invalid = s.free d m in
      let same : some v ≡ some table_slot_invalid = sym e ∙ ap (get_elem? t) (sym q) ∙ f in n (cc))
    ∙ e

pub store_all-stored :
    (ts : List (ℕ × ℕ)) (t : List ℤ) (e : ℕ × ℕ)
    → Storable ts t
    → Memᴰ e ts
    → get_elem? (store_all ts t) e.0 ≡ some (pos e.1)
unfolding store_all Distinct
store_all-stored [] t e s m = elim m [ ]
store_all-stored (d ∷ ds) t e s m = elim (cases_cons m) [
  | inl q ↦
      let slot : e.0 ≡ d.0 = ap (λ (w : ℕ × ℕ). w.0) q in
      let value : as_i32 d.1 ≡ pos e.1 =
        as_i32-small d.1 (s.small d (head refl)) ∙ ap (λ (w : ℕ × ℕ). pos w.1) (sym q) in
      let inside = get_elem?-lt t d.0 (s.free d (head refl)) in
      ap (get_elem? (store_all ds (set t d.0 (as_i32 d.1)))) slot
      ∙ store_all-other ds (set t d.0 (as_i32 d.1)) d.0
          (λ e' m' same. s.distinct.0 e' m' (sym same))
      ∙ get_elem?-set_self t d.0 (as_i32 d.1) inside
      ∙ ap some value
  | inr k ↦ store_all-stored ds (set t d.0 (as_i32 d.1)) e (Storable-tail d ds t s) k
]

-- Every entry of a table satisfies `P`.
abbrev pub Every : (ℤ → Type 0) → List ℤ → Type 0
Every P t = (j : ℕ) (v : ℤ) → get_elem? t j ≡ some v → P v

pub set-Every :
    (P : ℤ → Type 0) (t : List ℤ) (i : ℕ) (w : ℤ) → P w → Every P t → Every P (set t i w)
set-Every P [] i w p every j v e = cc
set-Every P (u ∷ t) zero w p every zero v e = let same : w ≡ v = cc in subst P same p
set-Every P (u ∷ t) zero w p every (suc j) v e = every (suc j) v e
set-Every P (u ∷ t) (suc i) w p every zero v e = every zero v e
set-Every P (u ∷ t) (suc i) w p every (suc j) v e = set-Every P t i w p (λ k. every (suc k)) j v e

pub store_all-Every :
    (P : ℤ → Type 0) (ts : List (ℕ × ℕ)) (t : List ℤ)
    → ((e : ℕ × ℕ) → Memᴰ e ts → P (as_i32 e.1))
    → Every P t
    → Every P (store_all ts t)
unfolding store_all
store_all-Every P [] t p every = every
store_all-Every P (e ∷ es) t p every =
    store_all-Every P es (set t e.0 (as_i32 e.1)) (λ d m. p d (tail m))
      (set-Every P t e.0 (as_i32 e.1) (p e (head refl)) every)
