-- ===== src/BytecodeSelect/Numbers/Unary.antt =====
-- `unary` of src/bytecode_select.rs on integers: what it chooses negates, or flips all bits.
use mathlib.Core.Path.{subst}
use skitter.Prelude.{ℕ, ◌+◌, ◌-◌, ◌<◌, ◌≡◌, refl, ap, ◌∙◌, some, arith}
use skitter.Prelude.Int.{pos, ◌-ℤ◌, negate}
use skitter.Prelude.Run.{done, >>=-eq-done}
use skitter.Types.Kind.{IntWidth, IntSign, signed, unsigned, int}
use skitter.Types.Items.{Items}
use skitter.Vm.Memory.{Memory, load, store}
use skitter.Vm.Memory.Laws.{IsBytes}
use skitter.Vm.Words.{Bits, b8, b16, b32, b64, b128, size, modulus, to_signed, wrap}
use skitter.Vm.Instr.{Slot, int_neg, int_not}
use skitter.Vm.Exec.{Floats, exec, value}
use skitter.BytecodeSelect.Numbers.{UnaryOp, Ctor2, unary_by, unary, size_of}
use skitter.BytecodeSelect.Numbers.Binary.{load-lt_modulus}
use skitter.BytecodeSelect.Numbers.Binary.Choice.{by_size-done}

-- The negation, wrapped, and the pattern with every bit flipped.
unfoldable pub unary_meaning : UnaryOp → IntSign → Bits → ℕ → ℕ
unary_meaning UnaryOp.neg s w n = wrap w (negate (value s w n))
unary_meaning UnaryOp.not s w n = modulus w - 1 - n

wrap-not :
    (w : Bits) (n : ℕ)
    → n < modulus w
    → wrap w (negate (to_signed w n) -ℤ pos 1) ≡ modulus w - 1 - n
unfolding wrap to_signed
wrap-not b8 n h = ground arith
wrap-not b16 n h = ground arith
wrap-not b32 n h = ground arith
wrap-not b64 n h = ground arith
wrap-not b128 n h = ground arith

module _ (floats : Floats) (stack : ℕ) where
  -- What a unary instruction at a width does.
  abbrev Computes : Ctor2 → UnaryOp → IntSign → Bits → Type 0
  Computes ctor op s w =
      (out src : Slot) (m : Memory)
      → IsBytes m
      → exec floats stack (ctor out src) m
        ≡ some
            (store (size w) (stack + out) (unary_meaning op s w (load (size w) (stack + src) m)) m)

  unary_by-Computes :
      (op : UnaryOp) (v : IntWidth) (s : IntSign) (n : ℕ) (ctor : Ctor2)
      → unary_by op (int v s) n ≡ done ctor
      → (w : Bits) × (n ≡ size w) × Computes ctor op s w
  unfolding unary_by unary_meaning exec
  unary_by-Computes UnaryOp.neg v signed n ctor e =
      let (w, p, q) = by_size-done n (λ w. λ out src. int_neg w out src) ctor e in
      (w, p, subst (λ c. Computes c UnaryOp.neg signed w) q (λ out src m b. refl))
  unary_by-Computes UnaryOp.neg v unsigned n ctor e = absurd (cc)
  unary_by-Computes UnaryOp.not v s n ctor e =
      let (w, p, q) = by_size-done n (λ w. λ out src. int_not w out src) ctor e in
      (
        w,
        p,
        subst (λ c. Computes c UnaryOp.not s w) q
            (λ out src m b.
              ap (λ k. some (store (size w) (stack + out) k m))
                (wrap-not w (load (size w) (stack + src) m) (load-lt_modulus w (stack + src) m b))),
      )

  -- If `unary` returns for an operator and an integer type, the instruction stores the negation, wrapped,
  -- or the flipped bits, of the argument; nothing else changes.
  pub unary-meaning :
      (items : Items) (fuel : ℕ) (op : UnaryOp) (v : IntWidth) (s : IntSign) (ctor : Ctor2)
      (out src : Slot) (m : Memory)
      → unary items fuel op (int v s) ≡ done ctor
      → IsBytes m
      → (w : Bits) × (size_of items fuel (int v s) ≡ done (size w))
        × (exec floats stack (ctor out src) m
            ≡ some (
                store
                  (size w)
                  (stack + out)
                  (unary_meaning op s w (load (size w) (stack + src) m))
                  m))
  unfolding unary
  unary-meaning items fuel op v s ctor out src m e b =
      let (n, p, q) = >>=-eq-done (size_of items fuel (int v s)) (unary_by op (int v s)) e in
      let (w, f, g) = unary_by-Computes op v s n ctor q in (w, p ∙ ap done f, g out src m b)
