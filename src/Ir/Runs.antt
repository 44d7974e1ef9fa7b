-- ===== src/Ir/Runs.antt =====
-- src/ir/: building `&(1, *X)` and asking whether it is constant, and the theorem on it.
use skitter.Prelude.{
  ℕ, zero, suc, ◌<◌, ◌≡◌, refl, sym, true, some, List, [], ◌∷◌, get_elem?, arith, inl, inr,
}
use mathlib.Core.Path.{subst}
use mathlib.Core.List.{Memᴰ}
use mathlib.Core.List.Memᴰ.{cases_cons}
use skitter.Prelude.Int.{pos}
use skitter.Prelude.Run.{done, panicked}
use skitter.Types.Kind.{Mutability, empty}
use skitter.Types.Samples.{word}
use skitter.BytecodeSelect.Numbers.{BinaryOp}
use skitter.Ir.Expr.{
  Expr, ExprKind, add_expr, literal_value, tuple_expr, ref_expr, named_const, var_ref, binary,
  index_expr,
}
use skitter.Ir.Consts.{
  can_promote, not_const, status_of, all_const, const_status, is_const_alloc, alloc_of,
}
use skitter.Ir.Consts.Laws.{IsConst, IsOrdered, Decides, operands, parts, const_status-Decides}

abbrev of_kind : ExprKind → Expr
of_kind k = record { kind = k; ty = word }

abbrev reference : List Expr
reference =
    of_kind (literal_value (pos 1))
    ∷ of_kind (named_const 0 empty)
    ∷ of_kind (tuple_expr (0 ∷ 1 ∷ []))
    ∷ of_kind (ref_expr 2 Mutability.const)
    ∷ []

build_run :
    (add_expr
      (of_kind (named_const 0 empty))
      (record { exprs = of_kind (literal_value (pos 1)) ∷ []; patterns = [] })).0
    ≡ 1
unfolding add_expr
build_run = refl

status_run : const_status reference 4 3 ≡ done can_promote
unfolding const_status status_of all_const
status_run = refl

-- The second operand is not looked at behind one that is not constant, and two constants panic.
variable_run :
    const_status (of_kind (var_ref 0) ∷ of_kind (binary BinaryOp.add 0 9) ∷ []) 2 1 ≡ done not_const
unfolding const_status status_of all_const
variable_run = refl

binary_run :
    const_status (of_kind (literal_value (pos 1)) ∷ of_kind (binary BinaryOp.add 0 0) ∷ []) 2 1
    ≡ panicked
unfolding const_status status_of all_const
binary_run = refl

alloc_run :
    is_const_alloc (of_kind (named_const 0 empty) ∷ of_kind (index_expr 0 7) ∷ []) 2 1 ≡ done true
unfolding is_const_alloc alloc_of
alloc_run = refl

reference-IsOrdered : IsOrdered reference
unfolding operands parts
reference-IsOrdered = record { ordered = below }
  where
    stands :
        (d : Expr) {e : Expr} {c : ℕ}
        → some d ≡ some e
        → Memᴰ c (operands e.kind)
        → Memᴰ c (operands d.kind)
    stands d {e} {c} q m =
        let same : d ≡ e = cc in subst (λ (x : Expr). Memᴰ c (operands x.kind)) (sym same) m

    below :
        (id : ℕ) (e : Expr) (c : ℕ)
        → get_elem? reference id ≡ some e
        → Memᴰ c (operands e.kind)
        → c < id
    below zero e c f m = elim (stands (of_kind (literal_value (pos 1))) f m) [ ]
    below (suc zero) e c f m = elim (stands (of_kind (named_const 0 empty)) f m) [ ]
    below (suc (suc zero)) e c f m =
        elim (cases_cons (stands (of_kind (tuple_expr (0 ∷ 1 ∷ []))) f m)) [
          | inl s ↦ omega arith
          | inr r ↦ elim (cases_cons r) [ inl s ↦ omega arith | inr z ↦ elim z [ ] ]
        ]
    below (suc (suc (suc zero))) e c f m =
        elim (cases_cons (stands (of_kind (ref_expr 2 Mutability.const)) f m)) [
          | inl s ↦ omega arith
          | inr z ↦ elim z [ ]
        ]
    below (suc (suc (suc (suc id)))) e c f m = cc

const_status-Decides_example : Decides reference (const_status reference 4 3) (IsConst reference 3)
const_status-Decides_example = const_status-Decides reference reference-IsOrdered 4 3 (omega arith)
