-- ===== src/Ir/Consts/Laws.antt =====
-- `const_status` of src/ir/const_util.rs against an independent description of constant expressions.
use skitter.Prelude.{
  some-eq, false-ne-true, ℕ, zero, suc, ◌<◌, ◌≡◌, ◌↔◌, ◌⊎◌, inl, inr, refl, sym, ap, ◌∙◌, Bool,
  true, false, Option, none, some, List, [], ◌∷◌, if◌then◌else◌, get_elem?, arith,
}
use mathlib.Core.List.{Memᴰ}
use mathlib.Core.List.Memᴰ.{head, tail, cases_cons}
use skitter.Prelude.Run
use skitter.Prelude.Run.{Run, done, panicked, or_panic}
use skitter.Types.Kind.{Mutability}
use skitter.Ir.Expr.{
  Expr, ExprKind, block, nil, cons, cast, block_expr, literal_value, literal_bytes, binary,
  tuple_expr, array_expr, adt_expr, named_const, ref_expr, deref, field, index_expr, var_ref,
  up_var, literal_void, static_expr, call,
}
use skitter.Ir.Consts.{
  ConstStatus, explicit, can_promote, not_const, is_const, child_const, all_const, field_ids,
  promote, panic_if, status_of, const_status,
}

-- The expressions that have to be constant for one to be: none at all where it never is.
unfoldable pub parts : ExprKind → Option (List ℕ)
parts (literal_value n) = some []
parts (literal_bytes bs) = some []
parts (named_const item subs) = some []
parts (ref_expr child Mutability.const) = some (child ∷ [])
parts (adt_expr variant fields rest) = some (field_ids fields)
parts (tuple_expr fields) = some fields
parts (array_expr fields) = some fields
parts (field lhs variant n) = some (lhs ∷ [])
parts (cast child) = some (child ∷ [])
parts (deref child) = some (child ∷ [])
parts (index_expr lhs index) = some (lhs ∷ index ∷ [])
parts (block_expr (block nil (some result))) = some (result ∷ [])
parts _ = none

-- The expressions that are looked at.
unfoldable pub operands : ExprKind → List ℕ
operands (binary op lhs rhs) = lhs ∷ rhs ∷ []
operands (block_expr (block stmts (some result))) = result ∷ []
operands k = elim (parts k) [ none ↦ [] | some ids ↦ ids ]

module _ (exprs : List Expr) where
  -- An expression is constant if its parts are.
  pub data IsConst : ℕ → Type 0 where
    constant :
        {id : ℕ} (e : Expr) (ids : List ℕ)
        → get_elem? exprs id ≡ some e
        → parts e.kind ≡ some ids
        → ((c : ℕ) → Memᴰ c ids → IsConst c)
        → IsConst id

  -- Operands stand before what they are operands of.
  pub record IsOrdered : Type 0 where
    pub ordered :
        (id : ℕ) (e : Expr) (c : ℕ)
        → get_elem? exprs id ≡ some e
        → Memᴰ c (operands e.kind)
        → c < id

  -- A panic, or a status that says rightly whether something is constant.
  unfoldable pub Decides : Run ConstStatus → Type 0 → Type 0
  Decides r P = (r ≡ panicked) ⊎ ((s : ConstStatus) × (r ≡ done s) × ((is_const s ≡ true) ↔ P))

  DecidesBool : Run Bool → Type 0 → Type 0
  DecidesBool r P = (r ≡ panicked) ⊎ ((b : Bool) × (r ≡ done b) × ((b ≡ true) ↔ P))

  AllConst : List ℕ → Type 0
  AllConst ids = (c : ℕ) → Memᴰ c ids → IsConst c

  module _ (rec : ℕ → Run ConstStatus) where
    child_const-Decides :
        (id : ℕ) → Decides (rec id) (IsConst id) → DecidesBool (child_const rec id) (IsConst id)
    unfolding Decides DecidesBool
    child_const-Decides id (inl e) = inl (rw e refl)
    child_const-Decides id (inr (s, e, f)) = inr (is_const s, rw e refl, f)

    all_const-Decides :
        (ids : List ℕ)
        → ((c : ℕ) → Memᴰ c ids → Decides (rec c) (IsConst c))
        → DecidesBool (all_const rec ids) (AllConst ids)
    unfolding all_const DecidesBool AllConst
    all_const-Decides [] h = inr (true, refl, (λ e c m. elim m [ ], λ e. refl))
    all_const-Decides (id ∷ ids) h =
        join (child_const rec id) (all_const rec ids) (child_const-Decides id (h id (head refl)))
          (all_const-Decides ids (λ c m. h c (tail m)))
      where
        join :
            (a b : Run Bool)
            → DecidesBool a (IsConst id)
            → DecidesBool b (AllConst ids)
            → DecidesBool (Run.◌>>=◌ a (λ x. if x then b else done false)) (AllConst (id ∷ ids))
        join a b (inl e) q = inl (rw e refl)
        join a b (inr (false, e, f)) q =
            inr (false, rw e refl, (λ z. absurd (false-ne-true z), λ g. f.1 (g id (head refl))))
        join a b (inr (true, e, f)) (inl g) = inl (rw (e, g) refl)
        join a b (inr (true, e, f)) (inr (x, g, k)) = inr (
          x,
          rw (e, g) refl,
          (
            λ z c m. elim (cases_cons m) [ inl s ↦ rw s (f.0 refl) | inr r ↦ k.0 z c r ],
            λ g. k.1 (λ c m. g c (tail m)),
          ),
        )

    -- All parts that have to be constant are.
    AllOf : Option (List ℕ) → Type 0
    AllOf none = ⊥
    AllOf (some ids) = AllConst ids

    never-Decides : {P : Type 0} → (P → ⊥) → Decides (done not_const) P
    unfolding Decides
    never-Decides n = inr (not_const, refl, (λ z. absurd (false-ne-true z), λ q. absurd (n q)))

    promote-Decides : (r : Run Bool) (P : Type 0) → DecidesBool r P → Decides (promote r) P
    unfolding Decides DecidesBool
    promote-Decides r P (inl e) = inl (rw e refl)
    promote-Decides r P (inr (true, e, f)) = inr (can_promote, rw e refl, f)
    promote-Decides r P (inr (false, e, f)) = inr (not_const, rw e refl, f)

    panic_if-Decides :
        (r : Run Bool) (P Q : Type 0) → (P → ⊥) → DecidesBool r Q → Decides (panic_if r) P
    unfolding Decides DecidesBool
    panic_if-Decides r P Q n (inl e) = inl (rw e refl)
    panic_if-Decides r P Q n (inr (true, e, f)) = inl (rw e refl)
    panic_if-Decides r P Q n (inr (false, e, f)) =
        inr (not_const, rw e refl, (λ z. absurd (false-ne-true z), λ q. absurd (n q)))

    one-Decides :
        (id : ℕ)
        → Decides (rec id) (IsConst id)
        → DecidesBool (child_const rec id) (AllConst (id ∷ []))
    unfolding DecidesBool AllConst
    one-Decides id h = elim (child_const-Decides id h) [
      | inl e ↦ inl e
      | inr (b, e, f) ↦ inr (
        b,
        e,
        (
          λ z c m. elim (cases_cons m) [ inl s ↦ rw s (f.0 z) | inr q ↦ elim q [ ] ],
          λ g. f.1 (g id (head refl)),
        ),
      )
    ]

    always-Decides : (s : ConstStatus) → is_const s ≡ true → Decides (done s) (AllOf (some []))
    unfolding Decides AllOf AllConst
    always-Decides s e = inr (s, refl, (λ z c m. elim m [ ], λ q. e))

    status_of-Decides :
        (k : ExprKind)
        → ((c : ℕ) → Memᴰ c (operands k) → Decides (rec c) (IsConst c))
        → Decides (status_of rec k) (AllOf (parts k))
    unfolding status_of parts operands AllOf
    status_of-Decides (var_ref v) h = never-Decides (λ z. z)
    status_of-Decides (up_var v) h = never-Decides (λ z. z)
    status_of-Decides (literal_value n) h = always-Decides can_promote refl
    status_of-Decides literal_void h = never-Decides (λ z. z)
    status_of-Decides (literal_bytes bs) h = always-Decides explicit refl
    status_of-Decides (ref_expr child Mutability.const) h =
        promote-Decides (child_const rec child) _ (one-Decides child (h child (head refl)))
    status_of-Decides (ref_expr child Mutability.mut) h = never-Decides (λ z. z)
    status_of-Decides (named_const item subs) h = always-Decides explicit refl
    status_of-Decides (static_expr item subs) h = never-Decides (λ z. z)
    status_of-Decides (adt_expr variant fields rest) h =
        promote-Decides (all_const rec (field_ids fields)) _
          (all_const-Decides (field_ids fields) h)
    status_of-Decides (tuple_expr fields) h =
        promote-Decides (all_const rec fields) _ (all_const-Decides fields h)
    status_of-Decides (array_expr fields) h =
        promote-Decides (all_const rec fields) _ (all_const-Decides fields h)
    status_of-Decides (field lhs variant n) h =
        promote-Decides (child_const rec lhs) _ (one-Decides lhs (h lhs (head refl)))
    status_of-Decides (cast child) h =
        promote-Decides (child_const rec child) _ (one-Decides child (h child (head refl)))
    status_of-Decides (deref child) h =
        promote-Decides (child_const rec child) _ (one-Decides child (h child (head refl)))
    status_of-Decides (index_expr lhs index) h =
        promote-Decides (all_const rec (lhs ∷ index ∷ [])) _
          (all_const-Decides (lhs ∷ index ∷ []) h)
    status_of-Decides (binary op lhs rhs) h =
        panic_if-Decides (all_const rec (lhs ∷ rhs ∷ [])) _ (AllConst (lhs ∷ rhs ∷ [])) (λ z. z)
          (all_const-Decides (lhs ∷ rhs ∷ []) h)
    status_of-Decides (call func args) h = never-Decides (λ z. z)
    status_of-Decides (block_expr (block nil none)) h = never-Decides (λ z. z)
    status_of-Decides (block_expr (block (cons s stmts) none)) h = never-Decides (λ z. z)
    status_of-Decides (block_expr (block nil (some result))) h =
        promote-Decides (child_const rec result) _ (one-Decides result (h result (head refl)))
    status_of-Decides (block_expr (block (cons s stmts) (some result))) h =
        panic_if-Decides (child_const rec result) _ (IsConst result) (λ z. z)
          (child_const-Decides result (h result (head refl)))
    status_of-Decides _ h = unfold Decides in inl refl

  AllOf-iff :
      (rec : ℕ → Run ConstStatus) (id : ℕ) (e : Expr)
      → get_elem? exprs id ≡ some e
      → AllOf rec (parts e.kind) ↔ IsConst id
  unfolding AllOf AllConst
  AllOf-iff rec id e f = (λ a. forth (parts e.kind) refl a, λ c. back c)
    where
      forth : (o : Option (List ℕ)) → parts e.kind ≡ o → AllOf rec o → IsConst id
      forth none q a = absurd a
      forth (some ids) q a = constant e ids f q a

      back : IsConst id → AllOf rec (parts e.kind)
      back (constant d ids g q h) =
          let same : d ≡ e = some-eq (sym g ∙ f) in
          let own : parts e.kind ≡ some ids = ap (λ (x : Expr). parts x.kind) (sym same) ∙ q in
          rw own h

  weaken : {P Q : Type 0} (r : Run ConstStatus) → (P ↔ Q) → Decides r P → Decides r Q
  unfolding Decides
  weaken r i (inl e) = inl e
  weaken r i (inr (s, e, f)) = inr (s, e, (λ z. i.0 (f.0 z), λ q. f.1 (i.1 q)))

  -- Where the operands of every expression stand before it, more fuel than the index of an expression
  -- is enough for const_status: it panics, or gives a status that is constant exactly if the
  -- expression is.
  pub const_status-Decides :
      IsOrdered → (fuel id : ℕ) → id < fuel → Decides (const_status exprs fuel id) (IsConst id)
  unfolding const_status Decides
  const_status-Decides o zero id h = absurd (omega arith)
  const_status-Decides o (suc fuel) id h =
      by (get_elem? exprs id) refl (λ c b. const_status-Decides o fuel c (omega arith))
    where
      by :
          (x : Option Expr)
          → get_elem? exprs id ≡ x
          → ((c : ℕ) → c < id → Decides (const_status exprs fuel c) (IsConst c))
          → Decides
              (Run.◌>>=◌ (or_panic x) (λ e. status_of (const_status exprs fuel) e.kind))
              (IsConst id)
      by none f rec = inl refl
      by (some e) f rec =
          weaken _ (AllOf-iff (const_status exprs fuel) id e f) (
            status_of-Decides (const_status exprs fuel) e.kind
              (λ c m. rec c (o.ordered id e c f m)))
