-- ===== src/BytecodeSelect/Numbers/Cast.antt =====
-- `cast` of src/bytecode_select.rs between integers and what is represented as one: it keeps the
-- integer, wrapped into the width of the result.
use mathlib.Core.Path.{subst}
use skitter.Prelude.{
  ℕ, zero, suc, ◌+◌, ◌≤◌, ◌≡◌, refl, ap, ◌∙◌, inl, inr, Bool, true, false, some, leb, if◌then◌else◌,
  Bool-cases, leb→le,
}
use skitter.Prelude.Run.{Run, done, done-eq, panicked, exhausted, ◌>>=◌, >>=-eq-done}
use skitter.Types.Kind.{IntWidth, IntSign, Ty, int}
use skitter.Types.Layout.{layout_from}
use skitter.BytecodeSelect.Copies.{by_size}
use skitter.Types.Items.{Items}
use skitter.Vm.Memory.{Memory, load, store}
use skitter.Vm.Memory.Laws.{IsBytes}
use skitter.Vm.Words.{Bits, size, wrap}
use skitter.Vm.Words.Narrow.{load-wrap}
use skitter.Vm.Instr.{Slot, mov_ss, widen}
use skitter.Vm.Exec.{Floats, exec, value}
use skitter.BytecodeSelect.Numbers.Widening.{widening-Widens, size-injective}
use skitter.BytecodeSelect.Numbers.{Ctor2, widening, int_cast, is_int_cast, cast, size_of, sign}
use skitter.BytecodeSelect.Numbers.Binary.{load-lt_modulus}
use skitter.BytecodeSelect.Numbers.Binary.Choice.{by_size-done}

-- A guarded branch that was taken, of two sizes that were found.
taken :
    {A : Type 0} (x y : Run ℕ) (b : Bool) (f g : ℕ → ℕ → Run A) {n : ℕ} {r : A}
    → x ≡ done n
    → b ≡ true
    → (x >>= λ i. y >>= λ j. if b then f i j else g i j) ≡ done r
    → (j : ℕ) × (y ≡ done j) × (f n j ≡ done r)
taken (done i) (done j) true f g {r} k h e = (j, refl, subst (λ u. f u j ≡ done r) (done-eq k) e)
taken (done i) (done j) false f g k h e = absurd (cc)
taken (done i) panicked b f g k h e = absurd (cc)
taken (done i) exhausted b f g k h e = absurd (cc)
taken panicked y b f g k h e = absurd (cc)
taken exhausted y b f g k h e = absurd (cc)

module _ (floats : Floats) (stack : ℕ) where
  -- What a cast instruction does to an argument of width `v`, read with a sign, in memory `m`.
  abbrev Wraps : Ctor2 → IntSign → Bits → Bits → Type 0
  Wraps ctor s v w =
      (out src : Slot) (m : Memory)
      → IsBytes m
      → exec floats stack (ctor out src) m
        ≡ some (store (size w) (stack + out) (wrap w (value s v (load (size v) (stack + src) m))) m)

  mov-Wraps :
      (s : IntSign) (v w : Bits) → size w ≤ size v → Wraps (λ dst src. mov_ss w dst src) s v w
  unfolding exec
  mov-Wraps s v w le out src m b =
      ap (λ n. some (store (size w) (stack + out) n m))
        (load-wrap w v s (stack + src) m le b (load-lt_modulus v (stack + src) m b))

  widen-Wraps : (s : IntSign) (v w : Bits) → Wraps (λ out src. widen w s v out src) s v w
  unfolding exec
  widen-Wraps s v w out src m b = refl

  int_cast-Wraps :
      (v : Bits) (res : ℕ) (s : IntSign) (ctor : Ctor2)
      → int_cast (size v) res s ≡ done ctor
      → (w : Bits) × (res ≡ size w) × Wraps ctor s v w
  unfolding int_cast
  int_cast-Wraps v res s ctor e = elim (Bool-cases (leb res (size v))) [
    | inl h ↦
        let (w, p, q) = by_size-done res (λ w. λ dst src. mov_ss w dst src) ctor (rw h at e) in
        (w, p, subst (λ c. Wraps c s v w) q (mov-Wraps s v w (rw p at (leb→le res (size v) h))))
    | inr h ↦
        let (r, p, q) = >>=-eq-done (widening (size v) res) _ (rw h at e) in
        let c = widening-Widens (size v) res r p in
        let same : v ≡ r.1 = size-injective v r.1 c.from_size in
        (
          r.0,
          c.to_size,
          subst (λ c. Wraps c s v r.0) (done-eq q)
              (subst (λ u. Wraps (λ out src. widen r.0 s u out src) s v r.0) same
                (widen-Wraps s v r.0)),
        )
  ]

  -- A cast between integers, booleans, characters and pointers stores the integer of the argument, read
  -- with the sign of its type, wrapped into the width of the result; nothing else changes.
  pub cast_int-wraps :
      (items : Items) (fuel depth : ℕ) (arg_ty res_ty : Ty) (v : Bits) (ctor : Ctor2)
      (out src : Slot) (m : Memory)
      → is_int_cast arg_ty res_ty ≡ true
      → size_of items fuel arg_ty ≡ done (size v)
      → cast items fuel depth arg_ty res_ty ≡ done ctor
      → IsBytes m
      → (w : Bits) × (size_of items fuel res_ty ≡ done (size w))
        × (exec floats stack (ctor out src) m
            ≡ some (
                store
                  (size w)
                  (stack + out)
                  (wrap w (value (sign arg_ty) v (load (size v) (stack + src) m)))
                  m))
  unfolding cast
  cast_int-wraps items fuel zero arg_ty res_ty v ctor out src m h k e b = absurd (cc)
  cast_int-wraps items fuel (suc depth) arg_ty res_ty v ctor out src m h k e b =
      let (n, p, q) =
        taken (size_of items fuel arg_ty) (size_of items fuel res_ty) (is_int_cast arg_ty res_ty) _
          _ k h e in
      let (w, f, g) = int_cast-Wraps v n (sign arg_ty) ctor q in (w, p ∙ ap done f, g out src m b)

-- `cast` chooses an instruction from every integer type to every integer type.
pub cast_int-returns :
    (items : Items) (fuel depth : ℕ) (w : IntWidth) (s : IntSign) (v : IntWidth) (t : IntSign)
    → (r : Ctor2) × (cast items (suc fuel) (suc depth) (int w s) (int v t) ≡ done r)
unfolding cast is_int_cast int_cast widening by_size layout_from
cast_int-returns items fuel depth IntWidth.i8 s IntWidth.i8 t = (_, refl)
cast_int-returns items fuel depth IntWidth.i8 s IntWidth.i16 t = (_, refl)
cast_int-returns items fuel depth IntWidth.i8 s IntWidth.i32 t = (_, refl)
cast_int-returns items fuel depth IntWidth.i8 s IntWidth.i64 t = (_, refl)
cast_int-returns items fuel depth IntWidth.i8 s IntWidth.i128 t = (_, refl)
cast_int-returns items fuel depth IntWidth.i8 s IntWidth.isize t = (_, refl)
cast_int-returns items fuel depth IntWidth.i16 s IntWidth.i8 t = (_, refl)
cast_int-returns items fuel depth IntWidth.i16 s IntWidth.i16 t = (_, refl)
cast_int-returns items fuel depth IntWidth.i16 s IntWidth.i32 t = (_, refl)
cast_int-returns items fuel depth IntWidth.i16 s IntWidth.i64 t = (_, refl)
cast_int-returns items fuel depth IntWidth.i16 s IntWidth.i128 t = (_, refl)
cast_int-returns items fuel depth IntWidth.i16 s IntWidth.isize t = (_, refl)
cast_int-returns items fuel depth IntWidth.i32 s IntWidth.i8 t = (_, refl)
cast_int-returns items fuel depth IntWidth.i32 s IntWidth.i16 t = (_, refl)
cast_int-returns items fuel depth IntWidth.i32 s IntWidth.i32 t = (_, refl)
cast_int-returns items fuel depth IntWidth.i32 s IntWidth.i64 t = (_, refl)
cast_int-returns items fuel depth IntWidth.i32 s IntWidth.i128 t = (_, refl)
cast_int-returns items fuel depth IntWidth.i32 s IntWidth.isize t = (_, refl)
cast_int-returns items fuel depth IntWidth.i64 s IntWidth.i8 t = (_, refl)
cast_int-returns items fuel depth IntWidth.i64 s IntWidth.i16 t = (_, refl)
cast_int-returns items fuel depth IntWidth.i64 s IntWidth.i32 t = (_, refl)
cast_int-returns items fuel depth IntWidth.i64 s IntWidth.i64 t = (_, refl)
cast_int-returns items fuel depth IntWidth.i64 s IntWidth.i128 t = (_, refl)
cast_int-returns items fuel depth IntWidth.i64 s IntWidth.isize t = (_, refl)
cast_int-returns items fuel depth IntWidth.i128 s IntWidth.i8 t = (_, refl)
cast_int-returns items fuel depth IntWidth.i128 s IntWidth.i16 t = (_, refl)
cast_int-returns items fuel depth IntWidth.i128 s IntWidth.i32 t = (_, refl)
cast_int-returns items fuel depth IntWidth.i128 s IntWidth.i64 t = (_, refl)
cast_int-returns items fuel depth IntWidth.i128 s IntWidth.i128 t = (_, refl)
cast_int-returns items fuel depth IntWidth.i128 s IntWidth.isize t = (_, refl)
cast_int-returns items fuel depth IntWidth.isize s IntWidth.i8 t = (_, refl)
cast_int-returns items fuel depth IntWidth.isize s IntWidth.i16 t = (_, refl)
cast_int-returns items fuel depth IntWidth.isize s IntWidth.i32 t = (_, refl)
cast_int-returns items fuel depth IntWidth.isize s IntWidth.i64 t = (_, refl)
cast_int-returns items fuel depth IntWidth.isize s IntWidth.i128 t = (_, refl)
cast_int-returns items fuel depth IntWidth.isize s IntWidth.isize t = (_, refl)
