-- ===== src/BytecodeSelect/Copies/Moves.antt =====
-- `copy`, `copy_from_ptr` and `copy_to_ptr` of src/bytecode_select.rs: the instruction they choose moves
-- the bytes of the type.
use mathlib.Core.Path.{subst}
use skitter.Prelude.{
  ℕ, ◌+◌, ◌*◌, ◌/◌, ◌^◌, ◌≤◌, ◌<◌, ◌≡◌, ◌≢◌, refl, sym, ◌∙◌, true, false, Option, none, some, arith,
  lt→ltb,
}
use skitter.Prelude.Int.{ℤ}
use skitter.Prelude.Run.{done, ◌>>=◌}
use skitter.Types.Layout.{Layout}
use skitter.Types.Layout.Sized.{IsLaidOut}
use skitter.Vm.Memory.{Memory, load, store, move_elements, offset_ptr}
use skitter.Vm.Memory.Laws.{IsBytes}
use skitter.Vm.Memory.Moves.{Moved, Apart, store-load-Moved, move_elements-Moved}
use skitter.Vm.Words.{Bits, b8, b16, b32, b64, b128, size}
use skitter.Vm.Instr.{Instr, Slot, mov_ss, mov_ss_n, mov_sp, mov_sp_n, mov_ps, mov_ps_n}
use skitter.Vm.Exec.{Floats, exec, has_mov_ps_n}
use skitter.BytecodeSelect.Copies.Choice.{Choice, nothing, single, several, copy_layout-Choice}
use skitter.BytecodeSelect.Copies.{copy, copy_from_ptr, copy_to_ptr, narrow_offset, narrow_count}

-- What an instruction, or none, makes of memory.
abbrev pub run : Floats → ℕ → Option Instr → Memory → Option Memory
run floats stack none m = some m
run floats stack (some i) m = exec floats stack i m

module _ (floats : Floats) (stack : ℕ) where
  -- A result that moves `n` bytes.
  pub record Moves (n dst src : ℕ) (m : Memory) (r : Option Memory) : Type 0 where
    pub after : Memory
    pub result : r ≡ some after
    pub moved : Moved n dst src m after

  none-Moves : (n dst src : ℕ) (m : Memory) → n ≡ 0 → Moves n dst src m (some m)
  none-Moves n dst src m z = record {
    after = m;
    result = refl;
    moved = record { arrives = λ j h. absurd (omega arith); keeps = λ i h. refl };
  }

  single-Moves :
      (n dst src : ℕ) (m : Memory) (w : Bits)
      → IsBytes m
      → size w ≡ n
      → Moves n dst src m (some (store (size w) dst (load (size w) src m) m))
  single-Moves n dst src m w b p = record {
    after = store (size w) dst (load (size w) src m) m;
    result = refl;
    moved =
        subst (λ k. Moved k dst src m (store (size w) dst (load (size w) src m) m)) p
          (store-load-Moved (size w) dst src m b);
  }

  several-Moves :
      (n dst src : ℕ) (m : Memory) (w : Bits) (count : ℕ)
      → IsBytes m
      → count * size w ≡ n
      → Apart n dst src
      → Moves n dst src m (some (move_elements (size w) count dst src m))
  several-Moves n dst src m w count b p apart = record {
    after = move_elements (size w) count dst src m;
    result = refl;
    moved =
        subst (λ k. Moved k dst src m (move_elements (size w) count dst src m)) p
          (move_elements-Moved (size w) count dst src m b
            (subst (λ k. Apart k dst src) (sym p) apart));
  }

  -- `copy` of a laid out, sized type chooses an instruction, or none for a type without bytes, that
  -- moves the bytes of the type from slot to slot, where the slots do not overlap.
  pub copy-Moves :
      (dst src : Slot) (l : Layout) (n : ℕ) (m : Memory)
      → IsLaidOut l
      → l.maybe_size ≡ some n
      → IsBytes m
      → Apart n (stack + dst) (stack + src)
      → (i : Option Instr) × (copy dst src l ≡ done i)
        × Moves n (stack + dst) (stack + src) m (run floats stack i m)
  unfolding copy
  copy-Moves dst src l n m h e b apart =
      elim (copy_layout-Choice l n h e (λ w. mov_ss w dst src)
        (λ count. done (λ w. mov_ss_n w dst src count)) (λ count w. mov_ss_n w dst src count)
        refl) [
          | nothing z p ↦ (none, p, none-Moves n (stack + dst) (stack + src) m z)
          | single w p s q ↦ (
            some (mov_ss w dst src),
            q,
            unfold exec in single-Moves n (stack + dst) (stack + src) m w b p,
          )
          | several w count p s q ↦ (
            some (mov_ss_n w dst src count),
            q,
            unfold exec in several-Moves n (stack + dst) (stack + src) m w count b p apart,
          )
        ]

  -- `copy_from_ptr` of a laid out, sized type of fewer than 2 ^ 16 elements, with an offset of 16 bits,
  -- chooses what moves the bytes of the type from the pointer and the offset to the slot, where the
  -- two do not overlap.
  pub copy_from_ptr-Moves :
      (dst src : Slot) (l : Layout) (offset : ℤ) (n : ℕ) (m : Memory)
      → IsLaidOut l
      → l.maybe_size ≡ some n
      → n / l.align_to < 2 ^ 16
      → narrow_offset offset ≡ done offset
      → IsBytes m
      → Apart n (stack + dst) (offset_ptr (load 8 (stack + src) m) offset)
      → (i : Option Instr) × (copy_from_ptr dst src l offset ≡ done i)
        × Moves n
            (stack + dst)
            (offset_ptr (load 8 (stack + src) m) offset)
            m
            (run floats stack i m)
  unfolding copy_from_ptr
  copy_from_ptr-Moves dst src l offset n m h e few near b apart =
      let from = offset_ptr (load 8 (stack + src) m) offset in
      elim (copy_layout-Choice l n h e (λ w. mov_sp w dst src offset)
        (λ count. narrow_count count >>= λ c.
          narrow_offset offset >>= λ o. done (λ w. mov_sp_n w dst src o c))
        (λ count w. mov_sp_n w dst src offset count)
        (rw (lt→ltb (n / l.align_to) (2 ^ 16) few, near))) [
          | nothing z p ↦ (none, p, none-Moves n (stack + dst) from m z)
          | single w p s q ↦ (
            some (mov_sp w dst src offset),
            q,
            unfold exec in single-Moves n (stack + dst) from m w b p,
          )
          | several w count p s q ↦ (
            some (mov_sp_n w dst src offset count),
            q,
            unfold exec in several-Moves n (stack + dst) from m w count b p apart,
          )
        ]

  has_arm : (w : Bits) → size w ≢ 2 → has_mov_ps_n w ≡ true
  has_arm b16 h = absurd (h refl)
  has_arm _ h = refl

  no_arm : (w : Bits) → size w ≡ 2 → has_mov_ps_n w ≡ false
  no_arm b8 h = absurd (omega (arith, h))
  no_arm b16 h = refl
  no_arm b32 h = absurd (omega (arith, h))
  no_arm b64 h = absurd (omega (arith, h))
  no_arm b128 h = absurd (omega (arith, h))

  chosen :
      (dst src : Slot) (l : Layout) (offset : ℤ) (n : ℕ)
      → IsLaidOut l
      → l.maybe_size ≡ some n
      → n / l.align_to < 2 ^ 16
      → narrow_offset offset ≡ done offset
      → Choice n l.align_to
          (λ w. mov_ps w dst src offset)
          (λ count w. mov_ps_n w dst src offset count)
          (copy_to_ptr dst src l offset)
  unfolding copy_to_ptr
  chosen dst src l offset n h e few near =
      copy_layout-Choice l n h e (λ w. mov_ps w dst src offset)
        (λ count. narrow_count count >>= λ c.
          narrow_offset offset >>= λ o. done (λ w. mov_ps_n w dst src o c))
        (λ count w. mov_ps_n w dst src offset count)
        (rw (lt→ltb (n / l.align_to) (2 ^ 16) few, near))

  -- `copy_to_ptr` of a laid out, sized type of fewer than 2 ^ 16 elements whose alignment is not 2, with
  -- an offset of 16 bits, chooses what moves the bytes of the type from the slot to the pointer and
  -- the offset, where the two do not overlap.
  pub copy_to_ptr-Moves :
      (dst src : Slot) (l : Layout) (offset : ℤ) (n : ℕ) (m : Memory)
      → IsLaidOut l
      → l.maybe_size ≡ some n
      → l.align_to ≢ 2
      → n / l.align_to < 2 ^ 16
      → narrow_offset offset ≡ done offset
      → IsBytes m
      → Apart n (offset_ptr (load 8 (stack + dst) m) offset) (stack + src)
      → (i : Option Instr) × (copy_to_ptr dst src l offset ≡ done i)
        × Moves n
            (offset_ptr (load 8 (stack + dst) m) offset)
            (stack + src)
            m
            (run floats stack i m)
  copy_to_ptr-Moves dst src l offset n m h e odd few near b apart =
      let to = offset_ptr (load 8 (stack + dst) m) offset in
      elim (chosen dst src l offset n h e few near) [
        | nothing z p ↦ (none, p, none-Moves n to (stack + src) m z)
        | single w p s q ↦ (
          some (mov_ps w dst src offset),
          q,
          unfold exec in single-Moves n to (stack + src) m w b p,
        )
        | several w count p s q ↦ (
          some (mov_ps_n w dst src offset count),
          q,
          unfold exec in
              rw (has_arm w (λ k. odd (sym s ∙ k)))
                (several-Moves n to (stack + src) m w count b p apart),
        )
      ]

  -- The instruction that `copy_to_ptr` chooses for a type with an alignment of 2 and a size of 4 or
  -- more panics whenever it runs: the interpreter has no arm for it.
  pub copy_to_ptr-panics :
      (dst src : Slot) (l : Layout) (offset : ℤ) (n : ℕ) (m : Memory)
      → IsLaidOut l
      → l.maybe_size ≡ some n
      → l.align_to ≡ 2
      → 4 ≤ n
      → n / l.align_to < 2 ^ 16
      → narrow_offset offset ≡ done offset
      → (i : Option Instr) × (copy_to_ptr dst src l offset ≡ done i) × (run floats stack i m ≡ none)
  copy_to_ptr-panics dst src l offset n m h e even large few near =
      elim (chosen dst src l offset n h e few near) [
        | nothing z p ↦ absurd (omega (arith, z))
        | single w p s q ↦ absurd (omega (arith, s))
        | several w count p s q ↦
            (some (mov_ps_n w dst src offset count), q, unfold exec in rw (no_arm w (s ∙ even)))
      ]
