-- ===== src/BytecodeSelect/Numbers.antt =====
-- src/bytecode_select.rs: `literal`, `unary`, `binary` and `cast`, over the kinds and the sizes of the
-- types. `BinaryOp` and `UnaryOp` stand in src/ir/ir.rs.
pub mod Meaning
pub mod Binary
pub mod Cast
pub mod Unary
pub mod Widening
use skitter.Prelude.{ℕ, zero, suc, ◌==◌, ◌&&◌, Bool, true, false, leb, if◌then◌else◌}
use skitter.Prelude.Int.{ℤ}
use skitter.Prelude.Run.{Run, done, panicked, exhausted, ◌>>=◌, ◌>>◌, check}
use skitter.Abi.{pointer_size}
use skitter.Types.Kind.{
  IntSign, signed, unsigned, FloatWidth, f32, f64, Ty, int, float, bool, char, ptr, adt,
}
use skitter.Types.Items.{Items, AdtKind, enum}
use skitter.Types.Layout.{assert_size, layout_from}
use skitter.Vm.Words.{Bits, b8, b16, b32, b64, b128}
use skitter.Vm.Instr.{
  Instr, Slot, IntBinary, FloatBinary, int_const, int_neg, int_not, int_binary, float_neg,
  float_binary, bool_not, widen, float_from_float, float_from_int, float_into_int, mov_ss, s_lt,
  s_lt_eq, s_div, s_rem, s_shift_r, u_lt, u_lt_eq, u_div, u_rem, u_shift_r,
}
use skitter.BytecodeSelect.Copies.{by_size}

pub data UnaryOp : Type 0 where
  neg not : UnaryOp

pub data BinaryOp : Type 0 where
  add sub mul div rem : BinaryOp
  bit_and bit_or bit_xor shift_r shift_l : BinaryOp
  eq not_eq lt gt lt_eq gt_eq : BinaryOp

-- `n as i8` and the like are left to the arm, which wraps.
unfoldable pub literal : ℤ → ℕ → Slot → Run Instr
unfolding by_size
literal n size slot = by_size size (λ w. int_const w slot n)

-- A size of a float.
unfoldable pub by_float_size {ℓ} : {A : Type ℓ} → ℕ → (FloatWidth → A) → Run A
by_float_size n f = if n == 4 then done (f f32) else if n == 8 then done (f f64) else panicked

abbrev pub Ctor2 : Type 0
Ctor2 = Slot → Slot → Instr

abbrev pub Ctor3 : Type 0
Ctor3 = Slot → Slot → Slot → Instr

unfoldable pub unary_by : UnaryOp → Ty → ℕ → Run Ctor2
unfolding by_size by_float_size
unary_by UnaryOp.neg (int w signed) size = by_size size (λ w out src. int_neg w out src)
unary_by UnaryOp.not (int w s) size = by_size size (λ w out src. int_not w out src)
unary_by UnaryOp.neg (float w) size = by_float_size size (λ w out src. float_neg w out src)
unary_by UnaryOp.not bool size = check (size == 1) >> done (λ out src. bool_not out src)
unary_by _ _ size = panicked

-- The instruction for an operator on integers, and whether to swap its operands.
unfoldable pub int_op : BinaryOp → IntSign → IntBinary × Bool
int_op BinaryOp.eq s = (IntBinary.eq, false)
int_op BinaryOp.not_eq s = (IntBinary.not_eq, false)
int_op BinaryOp.add s = (IntBinary.add, false)
int_op BinaryOp.sub s = (IntBinary.sub, false)
int_op BinaryOp.mul s = (IntBinary.mul, false)
int_op BinaryOp.bit_or s = (IntBinary.or, false)
int_op BinaryOp.bit_and s = (IntBinary.and, false)
int_op BinaryOp.bit_xor s = (IntBinary.xor, false)
int_op BinaryOp.shift_l s = (IntBinary.shift_l, false)
int_op BinaryOp.lt signed = (s_lt, false)
int_op BinaryOp.gt signed = (s_lt, true)
int_op BinaryOp.lt_eq signed = (s_lt_eq, false)
int_op BinaryOp.gt_eq signed = (s_lt_eq, true)
int_op BinaryOp.div signed = (s_div, false)
int_op BinaryOp.rem signed = (s_rem, false)
int_op BinaryOp.shift_r signed = (s_shift_r, false)
int_op BinaryOp.lt unsigned = (u_lt, false)
int_op BinaryOp.gt unsigned = (u_lt, true)
int_op BinaryOp.lt_eq unsigned = (u_lt_eq, false)
int_op BinaryOp.gt_eq unsigned = (u_lt_eq, true)
int_op BinaryOp.div unsigned = (u_div, false)
int_op BinaryOp.rem unsigned = (u_rem, false)
int_op BinaryOp.shift_r unsigned = (u_shift_r, false)

unfoldable pub float_op : BinaryOp → Run FloatBinary
float_op BinaryOp.eq = done FloatBinary.eq
float_op BinaryOp.not_eq = done FloatBinary.not_eq
float_op BinaryOp.lt = done FloatBinary.lt
float_op BinaryOp.gt = done FloatBinary.gt
float_op BinaryOp.lt_eq = done FloatBinary.lt_eq
float_op BinaryOp.gt_eq = done FloatBinary.gt_eq
float_op BinaryOp.add = done FloatBinary.add
float_op BinaryOp.sub = done FloatBinary.sub
float_op BinaryOp.mul = done FloatBinary.mul
float_op BinaryOp.div = done FloatBinary.div
float_op BinaryOp.rem = done FloatBinary.rem
float_op _ = panicked

-- On booleans, characters and thin pointers, by an integer instruction of a fixed width.
unfoldable pub bool_op : BinaryOp → Run IntBinary
bool_op BinaryOp.eq = done IntBinary.eq
bool_op BinaryOp.not_eq = done IntBinary.not_eq
bool_op BinaryOp.bit_or = done IntBinary.or
bool_op BinaryOp.bit_and = done IntBinary.and
bool_op BinaryOp.bit_xor = done IntBinary.xor
bool_op _ = panicked

unfoldable pub char_op : BinaryOp → Run (IntBinary × Bool)
char_op BinaryOp.eq = done (IntBinary.eq, false)
char_op BinaryOp.not_eq = done (IntBinary.not_eq, false)
char_op BinaryOp.lt = done (u_lt, false)
char_op BinaryOp.gt = done (u_lt, true)
char_op BinaryOp.lt_eq = done (u_lt_eq, false)
char_op BinaryOp.gt_eq = done (u_lt_eq, true)
char_op _ = panicked

unfoldable pub ptr_op : BinaryOp → Run (IntBinary × Bool)
ptr_op BinaryOp.eq = done (IntBinary.eq, false)
ptr_op BinaryOp.gt_eq = done (u_lt_eq, true)
ptr_op _ = panicked

-- `match size { 4 => .., 8 => .., _ => panic!() }`
abbrev pub by_pointer_size {ℓ} : {A : Type ℓ} → ℕ → (Bits → A) → Run A
by_pointer_size n f = if n == 4 then done (f b32) else if n == 8 then done (f b64) else panicked

unfoldable pub binary_by : BinaryOp → Ty → ℕ → Run (Ctor3 × Bool)
unfolding by_size by_float_size int_op float_op bool_op char_op ptr_op
binary_by op (int w s) size =
    by_size size (λ b. (λ out lhs rhs. int_binary b (int_op op s).0 out lhs rhs, (int_op op s).1))
binary_by op (float w) size = float_op op >>= λ o.
    by_float_size size (λ f. (λ out lhs rhs. float_binary f o out lhs rhs, false))
binary_by op bool size = bool_op op >>= λ o.
    check (size == 1) >> done (λ out lhs rhs. int_binary b8 o out lhs rhs, false)
binary_by op char size = char_op op >>= λ (o, swap).
    check (size == 4) >> done (λ out lhs rhs. int_binary b32 o out lhs rhs, swap)
binary_by op (ptr t m) size = ptr_op op >>= λ (o, swap).
    check (size == pointer_size)
    >> by_pointer_size size (λ b. (λ out lhs rhs. int_binary b o out lhs rhs, swap))
binary_by op _ size = panicked

-- `Type::sign`
abbrev pub sign : Ty → IntSign
sign (int w s) = s
sign _ = unsigned

-- The widths from which and to which there is a widening.
unfoldable pub widening : ℕ → ℕ → Run (Bits × Bits)
widening arg res =
    if arg == 1 && res == 2
    then done (b16, b8)
    else if arg == 2 && res == 4
    then done (b32, b16)
    else if arg == 1 && res == 4
    then done (b32, b8)
    else if arg == 4 && res == 8
    then done (b64, b32)
    else if arg == 2 && res == 8
    then done (b64, b16)
    else if arg == 1 && res == 8
    then done (b64, b8)
    else if arg == 8 && res == 16
    then done (b128, b64)
    else if arg == 4 && res == 16
    then done (b128, b32)
    else if arg == 2 && res == 16
    then done (b128, b16)
    else if arg == 1 && res == 16
    then done (b128, b8)
    else panicked

-- Between integers and what is represented as one.
unfoldable pub int_cast : ℕ → ℕ → IntSign → Run Ctor2
unfolding by_size widening
int_cast arg_size res_size s =
    if leb res_size arg_size
    then by_size res_size (λ w dst src. mov_ss w dst src)
    else (widening arg_size res_size >>= λ (w, v). done (λ out src. widen w s v out src))

unfoldable pub float_cast : ℕ → ℕ → Run Ctor2
float_cast arg_size res_size =
    if arg_size == 4 && res_size == 8
    then done (λ out src. float_from_float f64 f32 out src)
    else if arg_size == 8 && res_size == 4
    then done (λ out src. float_from_float f32 f64 out src)
    else panicked

-- The kinds between which a cast goes by the sizes and the sign alone.
unfoldable pub is_int_cast : Ty → Ty → Bool
is_int_cast (int w s) (int v t) = true
is_int_cast bool (int v t) = true
is_int_cast (ptr t m) (int v s) = true
is_int_cast (int w s) (ptr t m) = true
is_int_cast (ptr t m) (ptr u n) = true
is_int_cast char (int v t) = true
is_int_cast (int w s) char = true
is_int_cast _ _ = false

unfoldable pub float_cast_by : Ty → Ty → ℕ → ℕ → Run Ctor2
unfolding float_cast by_size by_float_size
float_cast_by (float w) (float v) arg_size res_size = float_cast arg_size res_size
float_cast_by (int w s) (float v) arg_size res_size = by_size arg_size (λ b. b) >>= λ b.
    by_float_size res_size (λ f. λ out src. float_from_int f b s out src)
float_cast_by (float w) (int v s) arg_size res_size = by_size res_size (λ b. b) >>= λ b.
    by_float_size arg_size (λ f. λ out src. float_into_int f b s out src)
float_cast_by _ _ arg_size res_size = panicked

module _ (items : Items) (fuel : ℕ) where
  -- `ty.layout().assert_size()`
  abbrev pub size_of : Ty → Run ℕ
  size_of ty = layout_from items fuel ty >>= assert_size

  unfoldable pub unary : UnaryOp → Ty → Run Ctor2
  unfolding unary_by
  unary op ty = size_of ty >>= unary_by op ty

  unfoldable pub binary : BinaryOp → Ty → Run (Ctor3 × Bool)
  unfolding binary_by
  binary op ty = size_of ty >>= binary_by op ty

  -- The discriminant of an enum is cast in its place; `next` is the recursive call.
  abbrev cast_adt : (Ty → Run Ctor2) → AdtKind → Ty → Run Ctor2
  cast_adt next (enum e) (int w s) = next e.discriminant_internal
  cast_adt next _ _ = panicked

  abbrev cast_other : (Ty → Run Ctor2) → Ty → Ty → ℕ → ℕ → Run Ctor2
  cast_other next (adt item l) res_ty arg_size res_size =
      cast_adt next (items.adt_info item).kind res_ty
  cast_other next arg_ty res_ty arg_size res_size = float_cast_by arg_ty res_ty arg_size res_size

  unfoldable pub cast : ℕ → Ty → Ty → Run Ctor2
  unfolding is_int_cast int_cast float_cast_by
  cast zero arg_ty res_ty = exhausted
  cast (suc depth) arg_ty res_ty = size_of arg_ty >>= λ arg_size. size_of res_ty >>= λ res_size.
      let next = cast_other (λ t. cast depth t res_ty) arg_ty res_ty arg_size res_size in
      if is_int_cast arg_ty res_ty then int_cast arg_size res_size (sign arg_ty) else next
