-- ===== src/BytecodeSelect/Numbers/Binary.antt =====
-- `binary` of src/bytecode_select.rs on integers, booleans, characters and thin pointers: what it chooses
-- computes what the operator means.
pub mod Choice
use mathlib.Core.Option
use mathlib.Core.Path.{subst}
use skitter.Prelude.{ℕ, suc, ◌+◌, ◌<◌, ◌≡◌, refl, ap, ◌∙◌, Bool, true, false, Option, some, arith}
use skitter.Prelude.Run.{done, >>=-eq-done}
use skitter.Types.Layout.{layout_from}
use skitter.Types.Kind.{IntWidth, IntSign, signed, unsigned, Ty, int}
use skitter.Types.Items.{Items}
use skitter.Vm.Memory.{Memory, load, store}
use skitter.Vm.Memory.Laws.{IsBytes, load-lt}
use skitter.Vm.Words.{Bits, b8, b16, b32, b64, b128, size, modulus}
use skitter.Vm.Instr.{Slot, int_binary}
use skitter.Vm.Exec.{Floats, exec, int_arm_size}
use skitter.BytecodeSelect.Copies.{by_size}
use skitter.BytecodeSelect.Numbers.{BinaryOp, Ctor3, int_op, binary_by, binary, size_of}
use skitter.BytecodeSelect.Numbers.Meaning.{meaning, swap_if, int_arm-meaning}
use skitter.BytecodeSelect.Numbers.Binary.Choice.{int_sign, result_size, binary_by-Chooses}

int_arm_size-result_size :
    (op : BinaryOp) (s : IntSign) (w : Bits) → int_arm_size w (int_op op s).0 ≡ result_size op w
unfolding int_op
int_arm_size-result_size BinaryOp.lt signed w = refl
int_arm_size-result_size BinaryOp.lt unsigned w = refl
int_arm_size-result_size BinaryOp.gt signed w = refl
int_arm_size-result_size BinaryOp.gt unsigned w = refl
int_arm_size-result_size BinaryOp.lt_eq signed w = refl
int_arm_size-result_size BinaryOp.lt_eq unsigned w = refl
int_arm_size-result_size BinaryOp.gt_eq signed w = refl
int_arm_size-result_size BinaryOp.gt_eq unsigned w = refl
int_arm_size-result_size BinaryOp.div signed w = refl
int_arm_size-result_size BinaryOp.div unsigned w = refl
int_arm_size-result_size BinaryOp.rem signed w = refl
int_arm_size-result_size BinaryOp.rem unsigned w = refl
int_arm_size-result_size BinaryOp.shift_r signed w = refl
int_arm_size-result_size BinaryOp.shift_r unsigned w = refl
int_arm_size-result_size _ s w = refl

pub load-lt_modulus : (w : Bits) (a : ℕ) (m : Memory) → IsBytes m → load (size w) a m < modulus w
load-lt_modulus b8 a m b = omega (arith, load-lt 1 a m b)
load-lt_modulus b16 a m b = omega (arith, load-lt 2 a m b)
load-lt_modulus b32 a m b = omega (arith, load-lt 4 a m b)
load-lt_modulus b64 a m b = omega (arith, load-lt 8 a m b)
load-lt_modulus b128 a m b = omega (arith, load-lt 16 a m b)

module _ (floats : Floats) (stack : ℕ) where
  load-swap_if :
      (n : ℕ) (swap : Bool) (a b : ℕ) (m : Memory)
      → load n (stack + swap_if swap a b) m
        ≡ swap_if swap (load n (stack + a) m) (load n (stack + b) m)
  load-swap_if n true a b m = refl
  load-swap_if n false a b m = refl

  exec-meaning :
      (op : BinaryOp) (s : IntSign) (w : Bits) (out a b : Slot) (m : Memory)
      → IsBytes m
      → exec floats stack
          (int_binary w
            (int_op op s).0
            out
            (swap_if (int_op op s).1 a b)
            (swap_if (int_op op s).1 b a))
          m
        ≡ Option.map
            (λ v. store (result_size op w) (stack + out) v m)
            (meaning op s w (load (size w) (stack + a) m) (load (size w) (stack + b) m))
  unfolding exec
  exec-meaning op s w out a b m bytes = rw (
    load-swap_if (size w) (int_op op s).1 a b m,
    load-swap_if (size w) (int_op op s).1 b a m,
    int_arm-meaning w (load (size w) (stack + a) m) (load (size w) (stack + b) m)
        (load-lt_modulus w (stack + a) m bytes) (load-lt_modulus w (stack + b) m bytes) op s,
    int_arm_size-result_size op s w,
  )

  -- If `binary` returns for an operator and a type that an integer represents, the instruction, on
  -- operands swapped as it says, stores what the operator means on the integers of the width and sign
  -- of the type, or panics where the operator does; nothing else changes.
  pub binary-meaning :
      (items : Items) (fuel : ℕ) (op : BinaryOp) (ty : Ty) (s : IntSign) (r : Ctor3 × Bool)
      (out a b : Slot) (m : Memory)
      → int_sign ty ≡ some s
      → binary items fuel op ty ≡ done r
      → IsBytes m
      → (w : Bits) × (size_of items fuel ty ≡ done (size w))
        × (exec floats stack (r.0 out (swap_if r.1 a b) (swap_if r.1 b a)) m
            ≡ Option.map
                (λ v. store (result_size op w) (stack + out) v m)
                (meaning op s w (load (size w) (stack + a) m) (load (size w) (stack + b) m)))
  unfolding binary
  binary-meaning items fuel op ty s r out a b m h e bytes =
      let (n, p, q) = >>=-eq-done (size_of items fuel ty) (binary_by op ty) e in
      let c = binary_by-Chooses op ty s n r h q in
      (
        c.width,
        p ∙ ap done c.fits,
        subst
            (λ (t : Ctor3 × Bool).
              exec floats stack (t.0 out (swap_if t.1 a b) (swap_if t.1 b a)) m
              ≡ Option.map (λ v. store (result_size op c.width) (stack + out) v m)
                  (meaning op s c.width (load (size c.width) (stack + a) m)
                    (load (size c.width) (stack + b) m)))
            c.chosen (exec-meaning op s c.width out a b m bytes),
      )

-- `binary` chooses an instruction for every operator on every integer type.
pub binary_int-returns :
    (items : Items) (fuel : ℕ) (op : BinaryOp) (w : IntWidth) (s : IntSign)
    → (r : Ctor3 × Bool) × (binary items (suc fuel) op (int w s) ≡ done r)
unfolding binary binary_by by_size layout_from
binary_int-returns items fuel op IntWidth.i8 s = (_, refl)
binary_int-returns items fuel op IntWidth.i16 s = (_, refl)
binary_int-returns items fuel op IntWidth.i32 s = (_, refl)
binary_int-returns items fuel op IntWidth.i64 s = (_, refl)
binary_int-returns items fuel op IntWidth.i128 s = (_, refl)
binary_int-returns items fuel op IntWidth.isize s = (_, refl)
