-- ===== src/Vm/Memory/Moves.antt =====
-- Bulk moves of src/vm/: which bytes go where.
use mathlib.Core.Path.{subst}
use native.Mathlib.Nat.{add_assoc, suc-mul}
use native.Mathlib.Decide.{dec_lt}
use skitter.Prelude.{
  ℕ, zero, suc, ◌+◌, ◌*◌, ◌/◌, ◌≤◌, ◌<◌, ◌≡◌, refl, sym, ◌-◌, ◌∙◌, ◌⊎◌, inl, arith,
}
use skitter.Vm.Memory.{Memory, load, store, move_elements}
use skitter.Vm.Memory.Laws.{IsBytes, store-outside}

-- The `n` bytes at `src` were moved to `dst`, and no other byte changed.
pub record Moved (n dst src : ℕ) (m m' : Memory) : Type 0 where
  pub arrives : (j : ℕ) → j < n → m' (dst + j) ≡ m (src + j)
  pub keeps : (i : ℕ) → (i < dst) ⊎ (dst + n ≤ i) → m' i ≡ m i

-- Two ranges of `n` bytes that do not meet.
abbrev pub Apart : ℕ → ℕ → ℕ → Type 0
Apart n dst src = (dst + n ≤ src) ⊎ (src + n ≤ dst)

store-load_byte :
    (n dst src : ℕ) (m : Memory) (j : ℕ)
    → IsBytes m
    → j < n
    → store n dst (load n src m) m (dst + j) ≡ m (src + j)
unfolding store load
store-load_byte zero dst src m j b h = absurd (omega arith)
store-load_byte (suc n) dst src m zero b h = let byte = b src in ground (arith, byte)
store-load_byte (suc n) dst src m (suc j) b h =
    let quotient : (m src + 256 * load n (suc src) m) / 256 ≡ load n (suc src) m =
      let byte = b src in omega (arith, byte) in
    let rest = store-load_byte n (suc dst) (suc src) m j b (omega arith) in
    rw quotient (ground (arith, rest))

-- One load and one store move the bytes between ranges that may even meet.
pub store-load-Moved :
    (n dst src : ℕ) (m : Memory) → IsBytes m → Moved n dst src m (store n dst (load n src m) m)
store-load-Moved n dst src m b = record {
  arrives = λ j h. store-load_byte n dst src m j b h;
  keeps = λ i h. store-outside n dst (load n src m) m i h;
}

store-IsBytes : (n a v : ℕ) (m : Memory) → IsBytes m → IsBytes (store n a v m)
unfolding store
store-IsBytes zero a v m b i = b i
store-IsBytes (suc n) a v m b i =
    let rest = store-IsBytes n (suc a) (v / 256) m b i in ground (arith, rest)

-- A move, and the move of the bytes behind.
Moved-append :
    (k n dst src : ℕ) (m m' m'' : Memory)
    → Apart (k + n) dst src
    → Moved k dst src m m'
    → Moved n (dst + k) (src + k) m' m''
    → Moved (k + n) dst src m m''
Moved-append k n dst src m m' m'' apart p q = record {
  arrives = λ j h. elim (dec_lt j k) [
    | yes i ↦ q.keeps (dst + j) (inl (omega arith)) ∙ p.arrives j i
    | no i ↦
        let back : k + (j - k) ≡ j = omega arith in
        let far : (src + j < dst) ⊎ (dst + k ≤ src + j) = grind arith in
        let late : m'' (dst + j) ≡ m' (src + j) =
          subst (λ t. m'' (dst + t) ≡ m' (src + t)) back
            (rw (add_assoc dst k (j - k), add_assoc src k (j - k)) at
              (q.arrives (j - k) (omega arith))) in
        late ∙ p.keeps (src + j) far
  ];
  keeps = λ i h.
      let out : (i < dst + k) ⊎ (dst + k + n ≤ i) = grind (arith, h) in
      let out' : (i < dst) ⊎ (dst + k ≤ i) = grind (arith, h) in q.keeps i out ∙ p.keeps i out';
}

-- The loop of a bulk move moves all elements between ranges that do not meet.
pub move_elements-Moved :
    (k n dst src : ℕ) (m : Memory)
    → IsBytes m
    → Apart (n * k) dst src
    → Moved (n * k) dst src m (move_elements k n dst src m)
unfolding move_elements
move_elements-Moved k zero dst src m b apart = record {
  arrives = λ j h. absurd (omega arith);
  keeps = λ i h. refl;
}
move_elements-Moved k (suc n) dst src m b apart =
    let m' = store k dst (load k src m) m in
    let same : k + n * k ≡ suc n * k = omega (arith, suc-mul n k) in
    let apart' : Apart (k + n * k) dst src = subst (λ t. Apart t dst src) (sym same) apart in
    let rest : Apart (n * k) (dst + k) (src + k) = grind (arith, apart') in
    let all =
      Moved-append k (n * k) dst src m m' (move_elements k n (dst + k) (src + k) m') apart'
        (store-load-Moved k dst src m b)
        (move_elements-Moved k n (dst + k) (src + k) m' (store-IsBytes k dst (load k src m) m b)
          rest) in
    subst (λ t. Moved t dst src m (move_elements k n (dst + k) (src + k) m')) same all
