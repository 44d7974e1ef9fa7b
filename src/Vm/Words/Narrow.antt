-- ===== src/Vm/Words/Narrow.antt =====
-- Patterns cut to fewer bits (build.rs reads the low bytes of a wider integer).
use skitter.Prelude.{ℕ, suc, ◌-◌, ◌*◌, ◌%◌, ◌^◌, ◌≤◌, ◌<◌, ◌≡◌, refl, ap, sym, ◌∙◌, inl, inr, arith}
use skitter.Prelude.Int.{pos, negsuc, sub_ℕ}
use skitter.Types.Kind.{IntSign, signed, unsigned}
use skitter.Vm.Memory.{Memory, load}
use skitter.Vm.Memory.Laws.{IsBytes, load-prefix}
use skitter.Vm.Words.{Bits, b8, b16, b32, b64, b128, size, modulus, wrap}
use skitter.Vm.Words.Laws.{wrap-cong, to_signed-cases}
use skitter.Vm.Exec.{value}

-- A wider modulus is a multiple of a narrower one.
factor : (w v : Bits) → size w ≤ size v → (f : ℕ) × (modulus v ≡ modulus w * f)
factor b8 b8 h = (2 ^ 0, omega arith)
factor b16 b8 h = absurd (omega arith)
factor b32 b8 h = absurd (omega arith)
factor b64 b8 h = absurd (omega arith)
factor b128 b8 h = absurd (omega arith)
factor b8 b16 h = (2 ^ 8, omega arith)
factor b16 b16 h = (2 ^ 0, omega arith)
factor b32 b16 h = absurd (omega arith)
factor b64 b16 h = absurd (omega arith)
factor b128 b16 h = absurd (omega arith)
factor b8 b32 h = (2 ^ 24, omega arith)
factor b16 b32 h = (2 ^ 16, omega arith)
factor b32 b32 h = (2 ^ 0, omega arith)
factor b64 b32 h = absurd (omega arith)
factor b128 b32 h = absurd (omega arith)
factor b8 b64 h = (2 ^ 56, omega arith)
factor b16 b64 h = (2 ^ 48, omega arith)
factor b32 b64 h = (2 ^ 32, omega arith)
factor b64 b64 h = (2 ^ 0, omega arith)
factor b128 b64 h = absurd (omega arith)
factor b8 b128 h = (2 ^ 120, omega arith)
factor b16 b128 h = (2 ^ 112, omega arith)
factor b32 b128 h = (2 ^ 96, omega arith)
factor b64 b128 h = (2 ^ 64, omega arith)
factor b128 b128 h = (2 ^ 0, omega arith)

sub_ℕ-neg : (y : ℕ) → sub_ℕ 0 (suc y) ≡ negsuc y
sub_ℕ-neg y = ground arith

sub_ℕ-pos : (n : ℕ) → sub_ℕ n 0 ≡ pos n
sub_ℕ-pos n = ground arith

pub modulus-size : (w : Bits) → 256 ^ size w ≡ modulus w
modulus-size b8 = omega arith
modulus-size b16 = omega arith
modulus-size b32 = omega arith
modulus-size b64 = omega arith
modulus-size b128 = omega arith

-- The low part of a pattern is the integer it stands for, wrapped, whatever its sign.
pub wrap-value :
    (w v : Bits) (s : IntSign) (n : ℕ)
    → size w ≤ size v
    → n < modulus v
    → wrap w (value s v n) ≡ n % modulus w
unfolding wrap
wrap-value w v unsigned n le h = refl
wrap-value w v signed n le h =
    let (f, e) = factor w v le in
    elim (to_signed-cases v n) [
      | inl g ↦ rw g
      | inr g ↦
          let y = suc (modulus v - 1 - n) in
          rw g (
            ap (wrap w) (sym (sub_ℕ-neg (modulus v - 1 - n)))
            ∙ wrap-cong w 0 y n 0 f 0 (omega (arith, e))
            ∙ ap (wrap w) (sub_ℕ-pos n))
    ]

-- A load of fewer bytes gives the integer of the wider load, wrapped.
pub load-wrap :
    (w v : Bits) (s : IntSign) (a : ℕ) (m : Memory)
    → size w ≤ size v
    → IsBytes m
    → load (size v) a m < modulus v
    → load (size w) a m ≡ wrap w (value s v (load (size v) a m))
load-wrap w v s a m le b h =
    load-prefix (size w) (size v) a m le b
    ∙ ap (λ k. load (size v) a m % k) (modulus-size w)
    ∙ sym (wrap-value w v s (load (size v) a m) le h)
