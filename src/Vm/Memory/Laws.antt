-- ===== src/Vm/Memory/Laws.antt =====
-- Loads and stores of src/vm/mod.rs: what a load sees of a store.
use native.Mathlib.Nat.{
  pow-suc, mod-add-div, mod-lt, mod-eq_of_lt, add-mul-mod_self_left, mul_assoc,
}
use skitter.Prelude.{
  ℕ, zero, suc, ◌+◌, ◌*◌, ◌/◌, ◌%◌, ◌^◌, ◌≤◌, ◌<◌, ◌≡◌, refl, ap, sym, ◌∙◌, ◌⊎◌, inl, inr, arith,
}
use skitter.Vm.Memory.{Memory, load, store}

-- Every cell of memory is a byte.
abbrev pub IsBytes : Memory → Type 0
IsBytes m = (i : ℕ) → m i < 256

-- A store leaves what lies before and behind it.
pub store-outside : (n a v : ℕ) (m : Memory) (i : ℕ) → (i < a) ⊎ (a + n ≤ i) → store n a v m i ≡ m i
unfolding store
store-outside zero a v m i h = refl
store-outside (suc n) a v m i (inl h) =
    let rest = store-outside n (suc a) (v / 256) m i (inl (omega arith)) in ground (arith, rest)
store-outside (suc n) a v m i (inr h) =
    let rest = store-outside n (suc a) (v / 256) m i (inr (omega arith)) in ground (arith, rest)

pub load-same :
    (n a : ℕ) (m m' : Memory)
    → ((i : ℕ) → a ≤ i → i < a + n → m i ≡ m' i)
    → load n a m ≡ load n a m'
unfolding load
load-same zero a m m' h = refl
load-same (suc n) a m m' h =
    let here = h a (omega arith) (omega arith) in
    let rest = load-same n (suc a) m m' (λ i p q. h i (omega arith) (omega arith)) in
    omega (arith, here, rest)

store-first : (n a v : ℕ) (m : Memory) → store (suc n) a v m a ≡ v % 256
unfolding store
store-first n a v m = ground arith

low_digit : (v p : ℕ) → 0 < p → v % 256 + 256 * (v / 256 % p) ≡ v % (256 * p)
low_digit v p h =
    let split = mod-add-div (v / 256) p in
    let whole : v ≡ (v % 256 + 256 * (v / 256 % p)) + 256 * p * (v / 256 / p) =
      omega (arith, split, mul_assoc 256 p (v / 256 / p)) in
    let small = mod-lt (v / 256) h in
    sym (
      ap (λ n. n % (256 * p)) whole
      ∙ add-mul-mod_self_left (v % 256 + 256 * (v / 256 % p)) (256 * p) (v / 256 / p)
      ∙ mod-eq_of_lt (omega (arith, small)))

pow_pos : (k : ℕ) → 0 < 256 ^ k
pow_pos zero = omega arith
pow_pos (suc k) = omega (arith, pow_pos k, pow-suc 256 k)

store-behind :
    (n a v : ℕ) (m : Memory) (i : ℕ) → a < i → store (suc n) a v m i ≡ store n (suc a) (v / 256) m i
unfolding store
store-behind n a v m i h = ground arith

-- A load of at most the bytes of a store, from where it was made, gives the low part of the value.
pub load-store : (k n a v : ℕ) (m : Memory) → k ≤ n → load k a (store n a v m) ≡ v % 256 ^ k
unfolding load
load-store zero n a v m h = omega arith
load-store (suc k) zero a v m h = absurd (omega arith)
load-store (suc k) (suc n) a v m h =
    let first = store-first n a v m in
    let rest =
      load-same k (suc a) (store (suc n) a v m) (store n (suc a) (v / 256) m)
        (λ i p q. store-behind n a v m i (omega arith))
      ∙ load-store k n (suc a) (v / 256) m (omega arith) in
    let power : 256 * 256 ^ k ≡ 256 ^ suc k = omega (arith, pow-suc 256 k) in
    unfold load in (rw (first, rest) (low_digit v (256 ^ k) (pow_pos k)) ∙ ap (λ p. v % p) power)

pub load-lt : (n a : ℕ) (m : Memory) → IsBytes m → load n a m < 256 ^ n
unfolding load
load-lt zero a m b = omega arith
load-lt (suc n) a m b = omega (arith, b a, load-lt n (suc a) m b, pow-suc 256 n)

-- A load of fewer bytes gives the low part of a load of more.
pub load-prefix : (k n a : ℕ) (m : Memory) → k ≤ n → IsBytes m → load k a m ≡ load n a m % 256 ^ k
unfolding load
load-prefix zero n a m h b = omega arith
load-prefix (suc k) zero a m h b = absurd (omega arith)
load-prefix (suc k) (suc n) a m h b =
    let byte = b a in
    let first : (m a + 256 * load n (suc a) m) % 256 ≡ m a = omega (arith, byte) in
    let rest : (m a + 256 * load n (suc a) m) / 256 ≡ load n (suc a) m = omega (arith, byte) in
    let power : 256 * 256 ^ k ≡ 256 ^ suc k = omega (arith, pow-suc 256 k) in
    let low = low_digit (m a + 256 * load n (suc a) m) (256 ^ k) (pow_pos k) in
    ap (λ r. m a + 256 * r) (load-prefix k n (suc a) m (omega arith) b)
    ∙ (rw (first, rest) at low)
    ∙ ap (λ p. (m a + 256 * load n (suc a) m) % p) power
