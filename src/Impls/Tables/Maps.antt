-- ===== src/Impls/Tables/Maps.antt =====
-- The maps of `ImplTableSimple` (src/impls.rs): adding a member keeps the keys different, and is found
-- under its key, behind those that were there.
use skitter.Prelude.{
  some-eq, true-ne-false, ℕ, zero, suc, ◌≡◌, ◌≢◌, ◌↔◌, ◌⊎◌, inl, inr, refl, sym, ap, ◌∙◌, Bool,
  true, false, Option, none, some, List, [], ◌∷◌, ◌++◌, Bool-cases, if◌then◌else◌, get_elem?, arith,
  ◌==◌, ==_iff, ◌&&◌,
}
use mathlib.Core.List.{Memᴰ}
use mathlib.Core.List.Memᴰ.{head, tail, cases_cons}
use skitter.LazyCollections.Table.Write.Sorting.{Distinct}
use skitter.LazyCollections.Table.Write.Keys.{Unique}
use skitter.Impls.Patterns.{&&-true}
use skitter.Impls.Tables.{TraitKey, members, map_get, push_entry, option_eq, trait_key_eq}

differs :
    {K : Type 0} (key_eq : K → K → Bool)
    → ((a b : K) → (key_eq a b ≡ true) ↔ (a ≡ b))
    → (a b : K) → key_eq a b ≡ false
    → a ≢ b
differs key_eq lawful a b h e = true-ne-false (sym ((lawful a b).1 e) ∙ h)

module _ {K W : Type 0} (key_eq : K → K → Bool)
    (lawful : (a b : K) → (key_eq a b ≡ true) ↔ (a ≡ b)) where
  Mem-push_entry :
      (es : List (K × List W)) (k : K) (w : W) (x : K × List W)
      → Memᴰ x (push_entry key_eq es k w)
      → (x.0 ≡ k) ⊎ ((e : K × List W) × Memᴰ e es × (x.0 ≡ e.0))
  unfolding push_entry
  Mem-push_entry [] k w x m = elim (cases_cons m) [
    | inl s ↦ inl (ap (λ (y : K × List W). y.0) s)
    | inr z ↦ elim z [ ]
  ]
  Mem-push_entry (e ∷ es) k w x m = elim (Bool-cases (key_eq e.0 k)) [
    | inl h ↦ elim (cases_cons (rw h at m)) [
      | inl s ↦ inr (e, head refl, ap (λ (y : K × List W). y.0) s)
      | inr r ↦ inr (x, tail r, refl)
    ]
    | inr h ↦ elim (cases_cons (rw h at m)) [
      | inl s ↦ inr (e, head refl, ap (λ (y : K × List W). y.0) s)
      | inr r ↦ elim (Mem-push_entry es k w x r) [
        | inl q ↦ inl q
        | inr (d, i, q) ↦ inr (d, tail i, q)
      ]
    ]
  ]

  pub push_entry-Distinct :
      (es : List (K × List W)) (k : K) (w : W) → Distinct es → Distinct (push_entry key_eq es k w)
  unfolding push_entry Distinct
  push_entry-Distinct [] k w d = (λ x m. elim m [ ], tt)
  push_entry-Distinct (e ∷ es) k w (d, ds) = elim (Bool-cases (key_eq e.0 k)) [
    | inl h ↦ rw h (d, ds)
    | inr h ↦ rw h (
      λ x m. elim (Mem-push_entry es k w x m) [
        | inl q ↦ λ same. differs key_eq lawful e.0 k h (same ∙ q)
        | inr (c, i, q) ↦ λ same. d c i (same ∙ q)
      ],
      push_entry-Distinct es k w ds,
    )
  ]

  -- Pushing a value under a key puts it behind the values of that key, and changes no other key.
  pub map_get-push_entry :
      (es : List (K × List W)) (k : K) (w : W) (j : K)
      → map_get key_eq (push_entry key_eq es k w) j ≡ (
          if key_eq k j
          then some (members (map_get key_eq es k) ++ w ∷ [])
          else map_get key_eq es j)
  unfolding push_entry map_get
  map_get-push_entry [] k w j = refl
  map_get-push_entry (e ∷ es) k w j = elim (Bool-cases (key_eq e.0 k)) [
    | inl h ↦
        let same : e.0 ≡ k = (lawful e.0 k).0 h in
        elim (Bool-cases (key_eq k j)) [
          | inl i ↦ rw (h, same, i) refl
          | inr i ↦ rw (h, same, i) refl
        ]
    | inr h ↦ elim (Bool-cases (key_eq e.0 j)) [
      | inl i ↦
          let other : key_eq k j ≡ false = apart k j e.0 h ((lawful e.0 j).0 i) in
          rw (h, i, other) refl
      | inr i ↦ rw (h, i) (map_get-push_entry es k w j)
    ]
  ]
    where
      apart : (a b c : K) → key_eq c a ≡ false → c ≡ b → key_eq a b ≡ false
      apart a b c n q = elim (Bool-cases (key_eq a b)) [
        | inl y ↦ absurd (differs key_eq lawful c a n (q ∙ sym ((lawful a b).0 y)))
        | inr y ↦ y
      ]

  -- Which entry a key finds.
  pub map_get-found :
      (es : List (K × List W)) (i : ℕ) (x : K × List W) (k : K)
      → Unique (λ e. some e.0) es
      → get_elem? es i ≡ some x
      → x.0 ≡ k
      → map_get key_eq es k ≡ some x.1
  unfolding map_get
  map_get-found [] i x k u f q = cc
  map_get-found (e ∷ es) zero x k u f q =
      let same : e ≡ x = cc in
      let hit : key_eq e.0 k ≡ true = (lawful e.0 k).1 (ap (λ (y : K × List W). y.0) same ∙ q) in
      rw hit (ap (λ (y : K × List W). some y.1) same)
  map_get-found (e ∷ es) (suc i) x k u f q = elim (Bool-cases (key_eq e.0 k)) [
    | inl h ↦
        let first : some e.0 ≡ some k = ap some ((lawful e.0 k).0 h) in
        let index : 0 ≡ suc i = u.unique 0 (suc i) e x k refl f first (ap some q) in
        absurd (zero-ne-suc index)
    | inr h ↦ rw h (map_get-found es i x k (unique_rest e es u) f q)
  ]
    where
      zero-ne-suc : {n : ℕ} → 0 ≡ suc n → ⊥
      zero-ne-suc z = omega arith

      unique_rest :
          (d : K × List W) (ds : List (K × List W))
          → Unique (λ c. some c.0) (d ∷ ds)
          → Unique (λ c. some c.0) ds
      unique_rest d ds v = record {
        unique = λ m n y z p f g a b. suc_eq (v.unique (suc m) (suc n) y z p f g a b);
      }
        where
          suc_eq : {m n : ℕ} → suc m ≡ suc n → m ≡ n
          suc_eq z = omega arith

  pub map_get-missing :
      (es : List (K × List W)) (k : K)
      → ((i : ℕ) (x : K × List W) → get_elem? es i ≡ some x → some x.0 ≢ some k)
      → map_get key_eq es k ≡ none
  unfolding map_get
  map_get-missing [] k h = refl
  map_get-missing (e ∷ es) k h = elim (Bool-cases (key_eq e.0 k)) [
    | inl y ↦ absurd (h 0 e refl (ap some ((lawful e.0 k).0 y)))
    | inr y ↦ rw y (map_get-missing es k (λ i x f. h (suc i) x f))
  ]

-- Keys that differ stand at one index each.
pub Distinct-Unique : {K W : Type 0} (es : List (K × W)) → Distinct es → Unique (λ e. some e.0) es
unfolding Distinct
Distinct-Unique {K} {W} es d = record { unique = at es d }
  where
    Mem-get : (l : List (K × W)) (i : ℕ) {x : K × W} → get_elem? l i ≡ some x → Memᴰ x l
    Mem-get [] i f = cc
    Mem-get (y ∷ l) zero {x} f = let q : x ≡ y = cc in head q
    Mem-get (y ∷ l) (suc i) f = tail (Mem-get l i f)

    at :
        (l : List (K × W))
        → Distinct l
        → (i j : ℕ) (x y : K × W) (k : K) → get_elem? l i ≡ some x
        → get_elem? l j ≡ some y
        → some x.0 ≡ some k
        → some y.0 ≡ some k
        → i ≡ j
    at [] d i j x y k f g a b = cc
    at (e ∷ l) (d, ds) zero zero x y k f g a b = refl
    at (e ∷ l) (d, ds) zero (suc j) x y k f g a b =
        let q : e ≡ x = cc in
        absurd (d y (Mem-get l j g) (ap (λ (w : K × W). w.0) q ∙ some-eq (a ∙ sym b)))
    at (e ∷ l) (d, ds) (suc i) zero x y k f g a b =
        let q : e ≡ y = cc in
        absurd (d x (Mem-get l i f) (ap (λ (w : K × W). w.0) q ∙ some-eq (b ∙ sym a)))
    at (e ∷ l) (d, ds) (suc i) (suc j) x y k f g a b = ap suc (at l ds i j x y k f g a b)

option_eq_iff : (a b : Option ℕ) → (option_eq a b ≡ true) ↔ (a ≡ b)
option_eq_iff none none = (λ h. refl, λ h. refl)
option_eq_iff none (some b) = (λ h. absurd (true-ne-false (sym h)), λ h. cc)
option_eq_iff (some a) none = (λ h. absurd (true-ne-false (sym h)), λ h. cc)
option_eq_iff (some a) (some b) = (λ h. ap some ((==_iff a b).0 h), λ h. (==_iff a b).1 (some-eq h))

pub trait_key_iff : (a b : TraitKey × Option ℕ) → (trait_key_eq a b ≡ true) ↔ (a ≡ b)
trait_key_iff (a, k) (b, j) = (
  λ h.
      let (r, z) =
        &&-true ((a.crate_id == b.crate_id) && (a.item_id == b.item_id)) (option_eq k j) h in
      let (x, y) = &&-true (a.crate_id == b.crate_id) (a.item_id == b.item_id) r in
      equal a b k j ((==_iff _ _).0 x) ((==_iff _ _).0 y) ((option_eq_iff k j).0 z),
  λ h.
      all_true (a.crate_id == b.crate_id) (a.item_id == b.item_id) (option_eq k j)
        ((==_iff _ _).1 (ap (λ (w : TraitKey × Option ℕ). w.0.crate_id) h))
        ((==_iff _ _).1 (ap (λ (w : TraitKey × Option ℕ). w.0.item_id) h))
        ((option_eq_iff k j).1 (ap (λ (w : TraitKey × Option ℕ). w.1) h)),
)
  where
    all_true : (p q r : Bool) → p ≡ true → q ≡ true → r ≡ true → (p && q && r) ≡ true
    all_true p q r x y z = ground arith

    equal :
        (c d : TraitKey) (m n : Option ℕ)
        → c.crate_id ≡ d.crate_id
        → c.item_id ≡ d.item_id
        → m ≡ n
        → ◌≡◌ {A = TraitKey × Option ℕ} (c, m) (d, n)
    equal c d m n x y z = cc
