-- ===== src/Ir/Consts.antt =====
-- src/ir/const_util.rs: whether an expression is constant, and whether it stands for memory that is
-- allocated once. Expressions refer to one another by index, so that the recursion is on fuel.
pub mod Laws
use skitter.Prelude.{
  ℕ, zero, suc, Bool, true, false, List, [], ◌∷◌, none, some, if◌then◌else◌, get_elem?,
}
use skitter.Prelude.Run
use skitter.Prelude.Run.{Run, done, panicked, exhausted, or_panic}
use skitter.Types.Kind.{Mutability}
use skitter.Ir.Expr.{
  Expr, ExprKind, block, nil, cons, cast, block_expr, var_ref, up_var, literal_value, literal_void,
  literal_bytes, binary, call, tuple_expr, array_expr, adt_expr, named_const, static_expr, ref_expr,
  deref, field, index_expr,
}

pub data ConstStatus : Type 0 where
  explicit can_promote not_const : ConstStatus

abbrev pub is_const : ConstStatus → Bool
is_const explicit = true
is_const can_promote = true
is_const not_const = false

abbrev pub promote_if : Bool → ConstStatus
promote_if true = can_promote
promote_if false = not_const

abbrev pub field_ids : List (ℕ × ℕ) → List ℕ
field_ids [] = []
field_ids (f ∷ fs) = f.1 ∷ field_ids fs

abbrev pub promote : Run Bool → Run ConstStatus
promote r = Run.◌>>=◌ r (λ b. done (promote_if b))

abbrev pub panic_if : Run Bool → Run ConstStatus
panic_if r = Run.◌>>=◌ r (λ b. if b then panicked else done not_const)

-- What `const_status` does with an expression, `rec` being its recursive call.
module _ (rec : ℕ → Run ConstStatus) where
  abbrev pub child_const : ℕ → Run Bool
  child_const id = Run.◌>>=◌ (rec id) (λ s. done (is_const s))

  -- `iter().all(…)` stops at the first that is not constant, and so does `&&`.
  unfoldable pub all_const : List ℕ → Run Bool
  all_const [] = done true
  all_const (id ∷ ids) =
      let rest = all_const ids in Run.◌>>=◌ (child_const id) (λ b. if b then rest else done false)

  unfoldable pub status_of : ExprKind → Run ConstStatus
  status_of (var_ref v) = done not_const
  status_of (up_var v) = done not_const
  status_of (literal_value n) = done can_promote
  status_of literal_void = done not_const
  status_of (literal_bytes bs) = done explicit
  status_of (ref_expr child Mutability.const) = promote (child_const child)
  status_of (ref_expr child Mutability.mut) = done not_const
  status_of (named_const item subs) = done explicit
  status_of (static_expr item subs) = done not_const
  status_of (adt_expr variant fields rest) = promote (all_const (field_ids fields))
  status_of (tuple_expr fields) = promote (all_const fields)
  status_of (array_expr fields) = promote (all_const fields)
  status_of (field lhs variant n) = promote (child_const lhs)
  status_of (cast child) = promote (child_const child)
  status_of (deref child) = promote (child_const child)
  status_of (index_expr lhs index) = promote (all_const (lhs ∷ index ∷ []))
  status_of (binary op lhs rhs) = panic_if (all_const (lhs ∷ rhs ∷ []))
  status_of (call func args) = done not_const
  status_of (block_expr (block stmts none)) = done not_const
  status_of (block_expr (block nil (some result))) = promote (child_const result)
  status_of (block_expr (block (cons s stmts) (some result))) = panic_if (child_const result)
  status_of _ = panicked

unfoldable pub alloc_of : (ℕ → Run Bool) → ExprKind → Run Bool
alloc_of rec (named_const item subs) = done true
alloc_of rec (deref child) = rec child
alloc_of rec (ref_expr child m) = rec child
alloc_of rec (field lhs variant n) = rec lhs
alloc_of rec (index_expr lhs index) = rec lhs
alloc_of rec (var_ref v) = done false
alloc_of rec (up_var v) = done false
alloc_of rec (cast child) = done false
alloc_of rec (call func args) = done false
alloc_of rec _ = panicked

module _ (exprs : List Expr) where
  unfoldable pub const_status : ℕ → ℕ → Run ConstStatus
  const_status zero id = exhausted
  const_status (suc fuel) id =
      let rec = const_status fuel in
      Run.◌>>=◌ (or_panic (get_elem? exprs id)) (λ e. status_of rec e.kind)

  unfoldable pub is_const_alloc : ℕ → ℕ → Run Bool
  is_const_alloc zero id = exhausted
  is_const_alloc (suc fuel) id =
      let rec = is_const_alloc fuel in
      Run.◌>>=◌ (or_panic (get_elem? exprs id)) (λ e. alloc_of rec e.kind)
