-- ===== src/Abi/Align.antt =====
-- `align` of src/abi.rs in plain arithmetic, at the alignments that occur.
use Prim.Native.Nat.{bit_and, digits, bit_and-bitwise}
use skitter.Prelude.{
  ℕ, zero, suc, ◌+◌, ◌-◌, ◌*◌, ◌/◌, ◌%◌, ◌^◌, ◌≤◌, ◌<◌, ◌≡◌, refl, min, arith, ◌∙◌, sym, ap,
}
use skitter.Abi.{align}

-- `m` ones above `k` zeros, the least number of `m + k + 1` digits, and `a` with its `k` low digits cleared.
high_mask : ℕ → ℕ → ℕ
high_mask zero zero = 0
high_mask (suc m) zero = 2 * high_mask m zero + 1
high_mask m (suc k) = 2 * high_mask m k

limit : ℕ → ℕ → ℕ
limit zero zero = 1
limit (suc m) zero = 2 * limit m zero
limit m (suc k) = 2 * limit m k

cleared : ℕ → ℕ → ℕ
cleared zero a = a
cleared (suc k) a = 2 * cleared k (a / 2)

abbrev and_digits : ℕ → ℕ → ℕ → ℕ
and_digits n a b = digits (λ c. zero) min n a b

cleared-zero : (k : ℕ) → cleared k 0 ≡ 0
unfolding cleared
cleared-zero zero = refl
cleared-zero (suc k) = omega (arith, cleared-zero k)

halved : (x : ℕ) → 2 * x / 2 ≡ x
halved x = omega arith

halved_odd : (x : ℕ) → (2 * x + 1) / 2 ≡ x
halved_odd x = omega arith

and_digits-high_mask :
    (n m k a : ℕ) → a ≤ n → a < limit m k → and_digits n a (high_mask m k) ≡ cleared k a
unfolding high_mask limit cleared
and_digits-high_mask zero m k zero h l = sym (cleared-zero k)
and_digits-high_mask zero m k (suc a) h l = absurd (omega arith)
and_digits-high_mask (suc n) m k zero h l = sym (cleared-zero k)
and_digits-high_mask (suc n) zero zero (suc a) h l = absurd (omega arith)
and_digits-high_mask (suc n) (suc m) zero (suc a) h l =
    let ih = and_digits-high_mask n m zero (suc a / 2) (omega arith) (omega arith) in
    let e = ap (and_digits n (suc a / 2)) (halved_odd (high_mask m zero)) in omega (arith, ih, e)
and_digits-high_mask (suc n) m (suc k) (suc a) h l =
    let ih = and_digits-high_mask n m k (suc a / 2) (omega arith) (omega arith) in
    let e = ap (and_digits n (suc a / 2)) (halved (high_mask m k)) in omega (arith, ih, e)

bit_and-high_mask : (m k a : ℕ) → a < limit m k → bit_and a (high_mask m k) ≡ cleared k a
bit_and-high_mask m k a l =
    bit_and-bitwise a (high_mask m k) ∙ and_digits-high_mask a m k a (omega arith) l

-- The alignments of types.
pub data IsAlign : ℕ → Type 0 where
  one : IsAlign 1
  two : IsAlign 2
  four : IsAlign 4
  eight : IsAlign 8
  sixteen : IsAlign 16

-- Rounding up with no overflow check: the sum wraps, and the low bits are cleared.
abbrev round_up : ℕ → ℕ → ℕ
round_up x a = (x + (a - 1)) % 2 ^ 32 / a * a

align-round_up : (x : ℕ) {a : ℕ} → IsAlign a → align x a ≡ round_up x a
unfolding align high_mask limit cleared
align-round_up x one = bit_and-high_mask 32 0 ((x + 0) % 2 ^ 32) (omega arith) ∙ omega arith
align-round_up x two = bit_and-high_mask 31 1 ((x + 1) % 2 ^ 32) (omega arith) ∙ omega arith
align-round_up x four = bit_and-high_mask 30 2 ((x + 3) % 2 ^ 32) (omega arith) ∙ omega arith
align-round_up x eight = bit_and-high_mask 29 3 ((x + 7) % 2 ^ 32) (omega arith) ∙ omega arith
align-round_up x sixteen = bit_and-high_mask 28 4 ((x + 15) % 2 ^ 32) (omega arith) ∙ omega arith

-- Without overflow, `align` gives the least multiple of the alignment that is at least `x`; with it,
-- a multiple still.
pub align_least :
    (x : ℕ) {a : ℕ}
    → IsAlign a
    → x + a ≤ 2 ^ 32
    → (x ≤ align x a) × (align x a < x + a) × (align x a % a ≡ 0)
align_least x one h = rw (align-round_up x one) (omega arith, omega arith, omega arith)
align_least x two h = rw (align-round_up x two) (omega arith, omega arith, omega arith)
align_least x four h = rw (align-round_up x four) (omega arith, omega arith, omega arith)
align_least x eight h = rw (align-round_up x eight) (omega arith, omega arith, omega arith)
align_least x sixteen h = rw (align-round_up x sixteen) (omega arith, omega arith, omega arith)

pub align-multiple : (x : ℕ) {a : ℕ} → IsAlign a → align x a % a ≡ 0
align-multiple x one = rw (align-round_up x one) (omega arith)
align-multiple x two = rw (align-round_up x two) (omega arith)
align-multiple x four = rw (align-round_up x four) (omega arith)
align-multiple x eight = rw (align-round_up x eight) (omega arith)
align-multiple x sixteen = rw (align-round_up x sixteen) (omega arith)
