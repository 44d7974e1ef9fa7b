-- ===== src/BytecodeSelect/Numbers/Meaning.antt =====
-- What an operator of src/ir/ir.rs means on integers of a width and a sign, with no regard to the
-- instructions: arithmetic on the integers that the operands stand for, wrapped into the width.
use Prim.Native.Nat.{bit_and, bit_or, bit_xor}
use native.Mathlib.Nat.{mod-eq_of_lt, div-le_self, mod-le}
use skitter.Prelude.{
  ℕ, ◌+◌, ◌/◌, ◌%◌, ◌^◌, ◌≤◌, ◌<◌, ◌≡◌, refl, ap, sym, ◌∙◌, Bool, not, Option, some, if◌then◌else◌,
  arith,
}
use skitter.Prelude.Int.{
  pos, ◌+ℤ◌, ◌-ℤ◌, ◌*ℤ◌, eqb_ℤ, ltb_ℤ, leb_ℤ, quotient, remainder, shift_right,
}
use skitter.Types.Kind.{IntSign, signed, unsigned}
use skitter.Vm.Words.{Bits, b8, b16, b32, b64, b128, bits, modulus, to_signed, wrap, bool_byte}
use skitter.Vm.Words.Laws.{
  wrap-add_signed, wrap-mul_pos, wrap-sub_signed, wrap-mul_signed, eqb_signed,
}
use skitter.Vm.Exec.{value, unless_zero, int_arm}
use skitter.BytecodeSelect.Numbers.{BinaryOp, int_op}

unfoldable pub meaning : BinaryOp → IntSign → Bits → ℕ → ℕ → Option ℕ
meaning BinaryOp.add s w a b = some (wrap w (value s w a +ℤ value s w b))
meaning BinaryOp.sub s w a b = some (wrap w (value s w a -ℤ value s w b))
meaning BinaryOp.mul s w a b = some (wrap w (value s w a *ℤ value s w b))
meaning BinaryOp.div s w a b =
    unless_zero (value s w b) (wrap w (quotient (value s w a) (value s w b)))
meaning BinaryOp.rem s w a b =
    unless_zero (value s w b) (wrap w (remainder (value s w a) (value s w b)))
meaning BinaryOp.bit_and s w a b = some (bit_and a b)
meaning BinaryOp.bit_or s w a b = some (bit_or a b)
meaning BinaryOp.bit_xor s w a b = some (bit_xor a b)
meaning BinaryOp.shift_l s w a b = some (wrap w (value s w a *ℤ pos (2 ^ (b % bits w))))
meaning BinaryOp.shift_r s w a b = some (wrap w (shift_right (value s w a) (b % bits w)))
meaning BinaryOp.eq s w a b = some (bool_byte (eqb_ℤ (value s w a) (value s w b)))
meaning BinaryOp.not_eq s w a b = some (bool_byte (not (eqb_ℤ (value s w a) (value s w b))))
meaning BinaryOp.lt s w a b = some (bool_byte (ltb_ℤ (value s w a) (value s w b)))
meaning BinaryOp.gt s w a b = some (bool_byte (ltb_ℤ (value s w b) (value s w a)))
meaning BinaryOp.lt_eq s w a b = some (bool_byte (leb_ℤ (value s w a) (value s w b)))
meaning BinaryOp.gt_eq s w a b = some (bool_byte (leb_ℤ (value s w b) (value s w a)))

-- The operands in the order that the instruction takes them.
abbrev pub swap_if : Bool → ℕ → ℕ → ℕ
swap_if swap a b = if swap then b else a

low_byte : (w : Bits) (b : ℕ) → b % 256 % bits w ≡ b % bits w
low_byte b8 b = omega arith
low_byte b16 b = omega arith
low_byte b32 b = omega arith
low_byte b64 b = omega arith
low_byte b128 b = omega arith

module _ (w : Bits) (a b : ℕ) (h : a < modulus w) (k : b < modulus w) where
  wrap-small : (n : ℕ) → n ≤ a → wrap w (pos n) ≡ n
  unfolding wrap
  wrap-small n le = mod-eq_of_lt (omega arith)

  -- The arm that `int_op` chooses, on operands swapped as it says, computes what the operator means.
  pub int_arm-meaning :
      (op : BinaryOp) (s : IntSign)
      → int_arm w (int_op op s).0 (swap_if (int_op op s).1 a b) (swap_if (int_op op s).1 b a)
        ≡ meaning op s w a b
  unfolding int_op int_arm meaning
  int_arm-meaning BinaryOp.add signed = refl
  int_arm-meaning BinaryOp.add unsigned = ap some (wrap-add_signed w a b h k)
  int_arm-meaning BinaryOp.sub signed = refl
  int_arm-meaning BinaryOp.sub unsigned = ap some (wrap-sub_signed w a b h k)
  int_arm-meaning BinaryOp.mul signed = refl
  int_arm-meaning BinaryOp.mul unsigned = ap some (wrap-mul_signed w a b h k)
  int_arm-meaning BinaryOp.eq signed = refl
  int_arm-meaning BinaryOp.eq unsigned = ap (λ c. some (bool_byte c)) (eqb_signed w a b h k)
  int_arm-meaning BinaryOp.not_eq signed = refl
  int_arm-meaning BinaryOp.not_eq unsigned =
      ap (λ c. some (bool_byte (not c))) (eqb_signed w a b h k)
  int_arm-meaning BinaryOp.bit_and s = refl
  int_arm-meaning BinaryOp.bit_or s = refl
  int_arm-meaning BinaryOp.bit_xor s = refl
  int_arm-meaning BinaryOp.shift_l signed =
      ap (λ n. some (wrap w (to_signed w a *ℤ pos (2 ^ n)))) (low_byte w b)
  int_arm-meaning BinaryOp.shift_l unsigned =
      ap some (wrap-mul_pos w a (2 ^ (b % 256 % bits w)) h)
      ∙ ap (λ n. some (wrap w (pos a *ℤ pos (2 ^ n)))) (low_byte w b)
  int_arm-meaning BinaryOp.shift_r signed =
      ap (λ n. some (wrap w (shift_right (to_signed w a) n))) (low_byte w b)
  int_arm-meaning BinaryOp.shift_r unsigned =
      ap (λ n. some (a / 2 ^ n)) (low_byte w b)
      ∙ ap some (sym (wrap-small (a / 2 ^ (b % bits w)) (div-le_self a (2 ^ (b % bits w)))))
  int_arm-meaning BinaryOp.div signed = refl
  int_arm-meaning BinaryOp.div unsigned = rw (wrap-small (a / b) (div-le_self a b)) (ground arith)
  int_arm-meaning BinaryOp.rem signed = refl
  int_arm-meaning BinaryOp.rem unsigned =
      rw (wrap-small (a % (b + 0)) (mod-le a (b + 0))) (ground arith)
  int_arm-meaning BinaryOp.lt signed = refl
  int_arm-meaning BinaryOp.lt unsigned = ground arith
  int_arm-meaning BinaryOp.gt signed = refl
  int_arm-meaning BinaryOp.gt unsigned = ground arith
  int_arm-meaning BinaryOp.lt_eq signed = refl
  int_arm-meaning BinaryOp.lt_eq unsigned = ground arith
  int_arm-meaning BinaryOp.gt_eq signed = refl
  int_arm-meaning BinaryOp.gt_eq unsigned = ground arith
