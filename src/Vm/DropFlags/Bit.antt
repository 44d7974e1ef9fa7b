-- ===== src/Vm/DropFlags/Bit.antt =====
-- One byte of drop flags (src/vm/vm.rs): what the masks test, set and clear, of all bytes and masks.
use Prim.Native.Nat.{bit_and, bit_or, bit_xor}
use skitter.Prelude.{
  false-ne-true, ℕ, zero, suc, ◌/◌, ◌%◌, ◌^◌, ◌<◌, ◌≡◌, refl, inl, inr, Bool, true, false, not,
  ◌&&◌, ◌==◌, if◌then◌else◌, arith, Bool-cases, ltb, ltb→lt,
}
use native.Mathlib.Decide.{dec_lt}
use mathlib.Core.Path.{subst}
use skitter.Vm.DropFlags.{mask, is_set}

all_below : ℕ → (ℕ → Bool) → Bool
all_below zero p = true
all_below (suc n) p = p n && all_below n p

abbrev pub bit : ℕ → ℕ → Bool
bit b k = b / 2 ^ k % 2 == 1

same : Bool → Bool → Bool
same true b = b
same false b = not b

all_below-true : (n : ℕ) (p : ℕ → Bool) → all_below n p ≡ true → (i : ℕ) → i < n → p i ≡ true
unfolding all_below
all_below-true zero p h i k = absurd (omega arith)
all_below-true (suc n) p h i k = elim (Bool-cases (p n)) [
  | inl e ↦ elim (dec_lt i n) [
    | yes l ↦ all_below-true n p (rw e at h) i l
    | no l ↦ let last : n ≡ i = omega arith in subst (λ j. p j ≡ true) last e
  ]
  | inr e ↦ absurd (false-ne-true (rw e at h))
]

same-true : (a b : Bool) → same a b ≡ true → a ≡ b
unfolding same
same-true true true h = refl
same-true true false h = cc
same-true false true h = cc
same-true false false h = refl

-- Every mask and every byte was tried.
tested :
    all_below 8
      (λ k. all_below 256 (λ b. same (if bit_and b (2 ^ k) == 0 then false else true) (bit b k)))
    ≡ true
unfolding all_below same
tested = refl

or_tried :
    all_below 8 (λ j. all_below 8 (λ k.
      all_below 256 (λ b. same (bit (bit_or b (2 ^ k)) j) (if j == k then true else bit b j))))
    ≡ true
unfolding all_below same
or_tried = refl

xor_tried :
    all_below 8 (λ j. all_below 8 (λ k.
      all_below 256
        (λ b. same (bit (bit_xor b (2 ^ k)) j) (if j == k then not (bit b j) else bit b j))))
    ≡ true
unfolding all_below same
xor_tried = refl

or_small : all_below 8 (λ k. all_below 256 (λ b. ltb (bit_or b (2 ^ k)) 256)) ≡ true
unfolding all_below
or_small = refl

xor_small : all_below 8 (λ k. all_below 256 (λ b. ltb (bit_xor b (2 ^ k)) 256)) ≡ true
unfolding all_below
xor_small = refl

pub is_set-bit : (b n : ℕ) → b < 256 → is_set b n ≡ bit b (n % 8)
is_set-bit b n h =
    same-true _ _ (all_below-true 256 _ (all_below-true 8 _ tested (n % 8) (omega arith)) b h)

pub bit-or :
    (b n j : ℕ)
    → b < 256
    → j < 8
    → bit (bit_or b (mask n)) j ≡ (if j == n % 8 then true else bit b j)
bit-or b n j h k = same-true _ _ (
    all_below-true 256 _
      (all_below-true 8 _ (all_below-true 8 _ or_tried j k) (n % 8) (omega arith)) b h)

pub bit-xor :
    (b n j : ℕ)
    → b < 256
    → j < 8
    → bit (bit_xor b (mask n)) j ≡ (if j == n % 8 then not (bit b j) else bit b j)
bit-xor b n j h k = same-true _ _ (
    all_below-true 256 _
      (all_below-true 8 _ (all_below-true 8 _ xor_tried j k) (n % 8) (omega arith)) b h)

pub bit_or-lt : (b n : ℕ) → b < 256 → bit_or b (mask n) < 256
bit_or-lt b n h =
    ltb→lt _ 256 (all_below-true 256 _ (all_below-true 8 _ or_small (n % 8) (omega arith)) b h)

pub bit_xor-lt : (b n : ℕ) → b < 256 → bit_xor b (mask n) < 256
bit_xor-lt b n h =
    ltb→lt _ 256 (all_below-true 256 _ (all_below-true 8 _ xor_small (n % 8) (omega arith)) b h)
