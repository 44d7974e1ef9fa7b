-- ===== src/BytecodeSelect/Copies/Choice.antt =====
-- `copy`, `copy_from_ptr` and `copy_to_ptr` of src/bytecode_select.rs: which instruction they may choose.
use mathlib.Core.Path.{subst}
use skitter.Prelude.{
  ℕ, ◌*◌, ◌/◌, ◌%◌, ◌≡◌, refl, sym, inl, inr, Option, none, some, ◌==◌, arith, Bool-cases, ==_iff,
}
use skitter.Prelude.Run.{Run, done}
use skitter.Abi.Align.{IsAlign, one, two, four, eight, sixteen}
use skitter.Types.Layout.{Layout}
use skitter.Types.Layout.Sized.{IsLaidOut}
use skitter.Vm.Words.{Bits, b8, b16, b32, b64, b128, size}
use skitter.Vm.Instr.{Instr}
use skitter.BytecodeSelect.Copies.{by_size, copy_layout}

by_size-align :
    {A : Type 0} {n : ℕ} (f : Bits → A)
    → IsAlign n
    → (w : Bits) × (size w ≡ n) × (by_size n f ≡ done (f w))
unfolding by_size
by_size-align f one = (b8, refl, refl)
by_size-align f two = (b16, refl, refl)
by_size-align f four = (b32, refl, refl)
by_size-align f eight = (b64, refl, refl)
by_size-align f sixteen = (b128, refl, refl)

-- The whole number of elements of a size that is a multiple of the alignment.
whole : (n : ℕ) {a : ℕ} → IsAlign a → n % a ≡ 0 → n / a * a ≡ n
whole n one h = omega arith
whole n two h = omega arith
whole n four h = omega arith
whole n eight h = omega arith
whole n sixteen h = omega arith

-- What `copy_layout` may choose for a type of `n` bytes: nothing, one move, or a loop of moves.
pub data Choice (n a : ℕ) (alone : Bits → Instr) (many : ℕ → Bits → Instr) (r : Run (Option Instr))
    : Type 0 where
  nothing : n ≡ 0 → r ≡ done none → Choice n a alone many r
  single : (w : Bits) → size w ≡ n → n ≡ a → r ≡ done (some (alone w)) → Choice n a alone many r
  several :
      (w : Bits) (count : ℕ)
      → count * size w ≡ n
      → size w ≡ a
      → r ≡ done (some (many count w))
      → Choice n a alone many r

module _ (l : Layout) (n : ℕ) (h : IsLaidOut l) (e : l.maybe_size ≡ some n) where
  pub copy_layout-Choice :
      (alone : Bits → Instr) (build : ℕ → Run (Bits → Instr)) (many : ℕ → Bits → Instr)
      → build (n / l.align_to) ≡ done (many (n / l.align_to))
      → Choice n l.align_to alone many (copy_layout l alone build)
  copy_layout-Choice alone build many f = elim (Bool-cases (n == 0)) [
    | inl z ↦ nothing ((==_iff n 0).0 z) (rw (e, z))
    | inr z ↦ elim (Bool-cases (n == l.align_to)) [
      | inl s ↦
          let same : n ≡ l.align_to = (==_iff n l.align_to).0 s in
          let (w, p, q) =
            by_size-align (λ w. some (alone w)) (subst IsAlign (sym same) h.aligned) in
          single w p same (rw (e, z, s, q))
      | inr s ↦
          let (w, p, q) = by_size-align (λ w. some (many (n / l.align_to) w)) h.aligned in
          several w (n / l.align_to) (rw p (whole n h.aligned (h.divides n e))) p
            (rw (e, z, s, f, q))
    ]
  ]
