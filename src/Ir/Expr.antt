-- ===== src/Ir/Expr.antt =====
-- src/ir/ir.rs: expressions and patterns, which refer to one another by their indices in the function.
-- An item, a string and the function of a constant block are numbers.
use skitter.Prelude.{ℕ, Bool, Option, some, List, [], ◌∷◌, ◌++◌, length, get_elem?, ◌>>=◌}
use skitter.Prelude.Int.{ℤ}
use skitter.Types.Kind.{Ty, Mutability, ConstGeneric, SubList}
use skitter.BytecodeSelect.Numbers.{UnaryOp, BinaryOp}

pub data LogicOp : Type 0 where
  and or : LogicOp

pub data PointerCast : Type 0 where
  reify_fn_pointer unsafe_fn_pointer closure_fn_pointer mut_to_const_pointer array_to_pointer
        un_size :
      PointerCast

pub data BindingMode : Type 0 where
  value ref : BindingMode

pub record UpVar : Type 0 where
  pub index : ℕ
  pub is_ref : Bool

mutual
  pub data Block : Type 0 where
    block : Stmts → Option ℕ → Block

  -- `Vec<Stmt>`
  pub data Stmts : Type 0 where
    nil : Stmts
    cons : Stmt → Stmts → Stmts

  pub data Stmt : Type 0 where
    expr : ℕ → Stmt
    let_stmt : ℕ → Option ℕ → Stmt
    let_else : ℕ → Option ℕ → Block → Stmt

pub data MatchGuard : Type 0 where
  if_guard : ℕ → MatchGuard
  if_let no_guard : MatchGuard

pub record MatchArm : Type 0 where
  pub pattern_id : ℕ
  pub body : ℕ
  pub guard : MatchGuard

pub data ExprKind : Type 0 where
  dummy cast : ℕ → ExprKind
  pointer_cast : ℕ → PointerCast → ExprKind
  block_expr : Block → ExprKind
  const_block : ℕ → ExprKind
  var_ref : ℕ → ExprKind
  up_var : UpVar → ExprKind
  literal_value : ℤ → ExprKind
  literal_void : ExprKind
  literal_bytes : List ℕ → ExprKind
  unary : UnaryOp → ℕ → ExprKind
  binary assign_op : BinaryOp → ℕ → ℕ → ExprKind
  assign : ℕ → ℕ → ExprKind
  logic_op : LogicOp → ℕ → ℕ → ExprKind
  if_expr : ℕ → ℕ → Option ℕ → ExprKind
  loop_expr : Block → ℕ → ExprKind
  break_expr : ℕ → Option ℕ → ExprKind
  continue_expr : ℕ → ExprKind
  return_expr : Option ℕ → ExprKind
  call : ℕ → List ℕ → ExprKind
  tuple_expr array_expr : List ℕ → ExprKind
  -- The variant, the fields, each with its index, and the rest.
  adt_expr : ℕ → List (ℕ × ℕ) → Option ℕ → ExprKind
  array_repeat : ℕ → ConstGeneric → ExprKind
  named_const static_expr : ℕ → SubList → ExprKind
  ref_expr : ℕ → Mutability → ExprKind
  deref : ℕ → ExprKind
  field : ℕ → ℕ → ℕ → ExprKind
  index_expr : ℕ → ℕ → ExprKind
  let_expr : ℕ → ℕ → ExprKind
  match_expr : ℕ → List MatchArm → ExprKind
  const_param : ℕ → ExprKind
  error : ℕ → ExprKind

pub record FieldPattern : Type 0 where
  pub field_index : ℕ
  pub pattern_id : ℕ

pub data PatternKind : Type 0 where
  local_binding : ℕ → BindingMode → Option ℕ → PatternKind
  struct_pattern : List FieldPattern → PatternKind
  enum_pattern : List FieldPattern → ℕ → PatternKind
  or_pattern : List ℕ → PatternKind
  deref_pattern : ℕ → PatternKind
  value_pattern : ℤ → PatternKind
  bytes_pattern : List ℕ → PatternKind
  range_pattern : Option ℕ → Option ℕ → Bool → PatternKind
  slice_pattern : List ℕ → Option ℕ → List ℕ → PatternKind
  const_pattern : ℕ → SubList → PatternKind
  hole : PatternKind
  error_pattern : ℕ → PatternKind

pub record Expr : Type 0 where
  pub kind : ExprKind
  pub ty : Ty

pub record Pattern : Type 0 where
  pub kind : PatternKind
  pub ty : Ty

pub record IrFunctionBuilder : Type 0 where
  pub exprs : List Expr
  pub patterns : List Pattern

pub data IrKind : Type 0 where
  function constant static : IrKind

pub record IrFunction : Type 0 where
  pub inputs : List Ty
  pub output : Ty
  pub ir_kind : IrKind
  pub root_expr : ℕ
  pub params : List ℕ
  pub exprs : List Expr
  pub patterns : List Pattern

unfoldable pub add_expr : Expr → IrFunctionBuilder → ℕ × IrFunctionBuilder
add_expr e b = (length b.exprs, record b { exprs = b.exprs ++ e ∷ [] })

unfoldable pub add_pattern : Pattern → IrFunctionBuilder → ℕ × IrFunctionBuilder
add_pattern p b = (length b.patterns, record b { patterns = b.patterns ++ p ∷ [] })

unfoldable pub param_types : List Pattern → List ℕ → Option (List Ty)
param_types patterns [] = some []
param_types patterns (p ∷ ps) = do
  pattern_of ← get_elem? patterns p
  rest ← param_types patterns ps
  some (pattern_of.ty ∷ rest)

-- An index out of bounds panics.
unfoldable pub finish : ℕ → IrKind → List ℕ → IrFunctionBuilder → Option IrFunction
finish root_expr ir_kind params b = do
  root ← get_elem? b.exprs root_expr
  inputs ← param_types b.patterns params
  some (record {
    inputs = inputs;
    output = root.ty;
    ir_kind = ir_kind;
    root_expr = root_expr;
    params = params;
    exprs = b.exprs;
    patterns = b.patterns;
  })

unfoldable pub insert_pattern : PatternKind → Ty → IrFunction → ℕ × IrFunction
insert_pattern kind ty f = (
  length f.patterns,
  record f { patterns = f.patterns ++ (record { kind = kind; ty = ty }) ∷ [] },
)
