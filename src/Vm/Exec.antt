-- ===== src/Vm/Exec.antt =====
-- The arms that build.rs generates for the loop of src/vm/vm.rs: what an instruction does to memory.
-- `none` is a panic. Arithmetic on floats is that of the host, an argument over bit patterns.
use Prim.Native.Nat.{bit_and, bit_or, bit_xor}
use skitter.Prelude.{
  ℕ, ◌+◌, ◌/◌, ◌%◌, ◌^◌, Bool, true, false, not, Option, none, some, ltb, leb, ◌==◌, if◌then◌else◌,
}
use mathlib.Core.Option
use skitter.Prelude.Int.{
  ℤ, pos, ◌+ℤ◌, ◌-ℤ◌, ◌*ℤ◌, negate, eqb_ℤ, ltb_ℤ, leb_ℤ, quotient, remainder, shift_right,
}
use skitter.Types.Kind.{IntSign, FloatWidth, signed, unsigned, f32, f64}
use skitter.Vm.Memory.{Memory, load, store, move_elements, offset_ptr}
use skitter.Vm.Words.{Bits, b16, bits, size, to_signed, wrap, bool_byte}
use skitter.Vm.Instr

pub record Floats : Type 0 where
  pub neg : FloatWidth → ℕ → ℕ
  pub binary : FloatWidth → Instr.FloatBinary → ℕ → ℕ → ℕ
  -- To the first width from the second, and from and into an integer.
  pub convert : FloatWidth → FloatWidth → ℕ → ℕ
  pub from_int : FloatWidth → ℤ → ℕ
  pub into_int : FloatWidth → IntSign → Bits → ℕ → ℕ

abbrev pub float_size : FloatWidth → ℕ
float_size f32 = 4
float_size f64 = 8

-- A pattern read at a type of the width and sign.
abbrev pub value : IntSign → Bits → ℕ → ℤ
value signed w n = to_signed w n
value unsigned w n = pos n

-- The result of a division, which panics on a divisor of 0.
abbrev pub unless_zero : ℤ → ℕ → Option ℕ
unless_zero b n = if eqb_ℤ b (pos 0) then none else some n

-- The arm of an integer instruction on the patterns of its operands, of which the shifts read only
-- the low byte of the second.
unfoldable pub int_arm : Bits → Instr.IntBinary → ℕ → ℕ → Option ℕ
int_arm w Instr.IntBinary.eq a b = some (bool_byte (eqb_ℤ (to_signed w a) (to_signed w b)))
int_arm w Instr.IntBinary.not_eq a b =
    some (bool_byte (not (eqb_ℤ (to_signed w a) (to_signed w b))))
int_arm w Instr.IntBinary.add a b = some (wrap w (to_signed w a +ℤ to_signed w b))
int_arm w Instr.IntBinary.sub a b = some (wrap w (to_signed w a -ℤ to_signed w b))
int_arm w Instr.IntBinary.mul a b = some (wrap w (to_signed w a *ℤ to_signed w b))
int_arm w Instr.IntBinary.or a b = some (bit_or a b)
int_arm w Instr.IntBinary.and a b = some (bit_and a b)
int_arm w Instr.IntBinary.xor a b = some (bit_xor a b)
int_arm w Instr.IntBinary.shift_l a b =
    some (wrap w (to_signed w a *ℤ pos (2 ^ (b % 256 % bits w))))
int_arm w Instr.IntBinary.s_lt a b = some (bool_byte (ltb_ℤ (to_signed w a) (to_signed w b)))
int_arm w Instr.IntBinary.s_lt_eq a b = some (bool_byte (leb_ℤ (to_signed w a) (to_signed w b)))
int_arm w Instr.IntBinary.s_div a b =
    unless_zero (to_signed w b) (wrap w (quotient (to_signed w a) (to_signed w b)))
int_arm w Instr.IntBinary.s_rem a b =
    unless_zero (to_signed w b) (wrap w (remainder (to_signed w a) (to_signed w b)))
int_arm w Instr.IntBinary.s_shift_r a b =
    some (wrap w (shift_right (to_signed w a) (b % 256 % bits w)))
int_arm w Instr.IntBinary.u_lt a b = some (bool_byte (ltb a b))
int_arm w Instr.IntBinary.u_lt_eq a b = some (bool_byte (leb a b))
int_arm w Instr.IntBinary.u_div a b = if b == 0 then none else some (a / b)
int_arm w Instr.IntBinary.u_rem a b = if b == 0 then none else some (a % b)
int_arm w Instr.IntBinary.u_shift_r a b = some (a / 2 ^ (b % 256 % bits w))

-- The bytes of the result: a comparison gives a `bool`.
abbrev pub int_arm_size : Bits → Instr.IntBinary → ℕ
int_arm_size w Instr.IntBinary.eq = 1
int_arm_size w Instr.IntBinary.not_eq = 1
int_arm_size w Instr.IntBinary.s_lt = 1
int_arm_size w Instr.IntBinary.s_lt_eq = 1
int_arm_size w Instr.IntBinary.u_lt = 1
int_arm_size w Instr.IntBinary.u_lt_eq = 1
int_arm_size w _ = size w

abbrev pub float_arm_size : FloatWidth → Instr.FloatBinary → ℕ
float_arm_size w Instr.FloatBinary.add = float_size w
float_arm_size w Instr.FloatBinary.sub = float_size w
float_arm_size w Instr.FloatBinary.mul = float_size w
float_arm_size w Instr.FloatBinary.div = float_size w
float_arm_size w Instr.FloatBinary.rem = float_size w
float_arm_size w _ = 1

-- There is no arm for `MovPS2N`.
abbrev pub has_mov_ps_n : Bits → Bool
has_mov_ps_n b16 = false
has_mov_ps_n _ = true

module _ (floats : Floats) (stack : ℕ) where
  -- A unary arm, of the bytes read and written and the operation.
  abbrev pub write_unary : ℕ → ℕ → (ℕ → ℕ) → ℕ → ℕ → Memory → Option Memory
  write_unary read_size out_size f out src m =
      some (store out_size (stack + out) (f (load read_size (stack + src) m)) m)

  unfoldable pub exec : Instr.Instr → Memory → Option Memory
  unfolding int_arm
  exec (Instr.int_const w out x) m = some (store (size w) (stack + out) (wrap w x) m)
  exec (Instr.int_neg w out src) m =
      write_unary (size w) (size w) (λ n. wrap w (negate (to_signed w n))) out src m
  exec (Instr.int_not w out src) m =
      write_unary (size w) (size w) (λ n. wrap w (negate (to_signed w n) -ℤ pos 1)) out src m
  exec (Instr.int_binary w op out lhs rhs) m =
      Option.map (λ v. store (int_arm_size w op) (stack + out) v m)
        (int_arm w op (load (size w) (stack + lhs) m) (load (size w) (stack + rhs) m))
  exec (Instr.float_neg w out src) m =
      write_unary (float_size w) (float_size w) (floats.neg w) out src m
  exec (Instr.float_binary w op out lhs rhs) m = some (
      store (float_arm_size w op) (stack + out)
        (floats.binary w op (load (float_size w) (stack + lhs) m)
          (load (float_size w) (stack + rhs) m))
        m)
  exec (Instr.bool_not out src) m = write_unary 1 1 (λ n. bool_byte (n == 0)) out src m
  exec (Instr.widen w sign v out src) m =
      write_unary (size v) (size w) (λ n. wrap w (value sign v n)) out src m
  exec (Instr.float_from_float w v out src) m =
      write_unary (float_size v) (float_size w) (floats.convert w v) out src m
  exec (Instr.float_from_int w v sign out src) m =
      write_unary (size v) (float_size w) (λ n. floats.from_int w (value sign v n)) out src m
  exec (Instr.float_into_int w v sign out src) m =
      write_unary (float_size w) (size v) (floats.into_int w sign v) out src m
  exec (Instr.mov_ss w out src) m = write_unary (size w) (size w) (λ n. n) out src m
  exec (Instr.mov_sp w out src offset) m = some (
      store (size w) (stack + out) (load (size w) (offset_ptr (load 8 (stack + src) m) offset) m) m)
  exec (Instr.mov_ps w out src offset) m = some (
      store (size w) (offset_ptr (load 8 (stack + out) m) offset) (load (size w) (stack + src) m) m)
  exec (Instr.mov_ss_n w dst src n) m =
      some (move_elements (size w) n (stack + dst) (stack + src) m)
  exec (Instr.mov_sp_n w dst src offset n) m =
      some (move_elements (size w) n (stack + dst) (offset_ptr (load 8 (stack + src) m) offset) m)
  exec (Instr.mov_ps_n w dst src offset n) m =
      if has_mov_ps_n w
      then some
          (move_elements (size w) n (offset_ptr (load 8 (stack + dst) m) offset) (stack + src) m)
      else none
