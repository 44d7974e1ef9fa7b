-- ===== src/Vm/Instr.antt =====
-- `Instr` of src/vm/instr.rs, the instructions that src/bytecode_select.rs chooses from. A family such
-- as `I8_Add` through `I128_Add` is one constructor with the width as an argument, as build.rs
-- generates it.
use skitter.Prelude.{ℕ}
use skitter.Prelude.Int.{ℤ}
use skitter.Types.Kind.{IntSign, FloatWidth}
use skitter.Vm.Words.{Bits}

abbrev pub Slot : Type 0
Slot = ℕ

-- What follows `I8_` to `I128_` in the name of a (Slot, Slot, Slot) instruction.
pub data IntBinary : Type 0 where
  eq not_eq add sub mul or and xor shift_l : IntBinary
  s_lt s_lt_eq s_div s_rem s_shift_r : IntBinary
  u_lt u_lt_eq u_div u_rem u_shift_r : IntBinary

-- What follows `F32_` and `F64_`.
pub data FloatBinary : Type 0 where
  add sub mul div rem eq not_eq lt lt_eq gt gt_eq : FloatBinary

pub data Instr : Type 0 where
  int_const : Bits → Slot → ℤ → Instr
  int_neg int_not : Bits → Slot → Slot → Instr
  int_binary : Bits → IntBinary → Slot → Slot → Slot → Instr
  float_neg : FloatWidth → Slot → Slot → Instr
  float_binary : FloatWidth → FloatBinary → Slot → Slot → Slot → Instr
  bool_not : Slot → Slot → Instr
  -- `I16_S_Widen_8`: to the first width from the second.
  widen : Bits → IntSign → Bits → Slot → Slot → Instr
  -- `F64_From_F32`, `F64_From_I8_S` and `F64_Into_I8_S`.
  float_from_float : FloatWidth → FloatWidth → Slot → Slot → Instr
  float_from_int float_into_int : FloatWidth → Bits → IntSign → Slot → Slot → Instr
  -- `MovSS1` and `MovSS1N`: slot to slot. `MovSP` reads through a pointer, `MovPS` writes through one.
  mov_ss : Bits → Slot → Slot → Instr
  mov_ss_n : Bits → Slot → Slot → ℕ → Instr
  mov_sp mov_ps : Bits → Slot → Slot → ℤ → Instr
  mov_sp_n mov_ps_n : Bits → Slot → Slot → ℤ → ℕ → Instr
