-- ===== src/BytecodeSelect/Copies.antt =====
-- src/bytecode_select.rs: `copy`, `copy_from_ptr` and `copy_to_ptr`, over the layout of the type.
pub mod Choice
pub mod Moves
use skitter.Prelude.{ℕ, ◌/◌, ◌^◌, Option, none, some, ltb, ◌==◌, if◌then◌else◌}
use skitter.Prelude.Int.{ℤ, pos, negsuc}
use skitter.Prelude.Run.{Run, done, panicked, ◌>>=◌}
use skitter.Types.Layout.{Layout, assert_size}
use skitter.Vm.Words.{Bits, b8, b16, b32, b64, b128}
use skitter.Vm.Instr.{Instr, Slot, mov_ss, mov_ss_n, mov_sp, mov_sp_n, mov_ps, mov_ps_n}

-- `match size { 1 => .., 2 => .., 4 => .., 8 => .., 16 => .., _ => panic!() }`
unfoldable pub by_size {ℓ} : {A : Type ℓ} → ℕ → (Bits → A) → Run A
by_size n f =
    if n == 1
    then done (f b8)
    else if n == 2
    then done (f b16)
    else if n == 4
    then done (f b32)
    else if n == 8
    then done (f b64)
    else if n == 16
    then done (f b128)
    else panicked

-- One element if the size is the alignment, a loop over elements of the alignment otherwise.
abbrev pub copy_layout : Layout → (Bits → Instr) → (ℕ → Run (Bits → Instr)) → Run (Option Instr)
copy_layout layout one many = assert_size layout >>= λ size.
    if size == 0
    then done none
    else if size == layout.align_to
    then by_size size (λ w. some (one w))
    else (many (size / layout.align_to) >>= λ f. by_size layout.align_to (λ w. some (f w)))

unfoldable pub copy : Slot → Slot → Layout → Run (Option Instr)
unfolding by_size
copy dst src layout =
    copy_layout layout (λ w. mov_ss w dst src) (λ count. done (λ w. mov_ss_n w dst src count))

-- `try_into` a `u16` and an `i16`, with `expect`.
abbrev pub narrow_count : ℕ → Run ℕ
narrow_count n = if ltb n (2 ^ 16) then done n else panicked

abbrev pub narrow_offset : ℤ → Run ℤ
narrow_offset (pos n) = if ltb n (2 ^ 15) then done (pos n) else panicked
narrow_offset (negsuc n) = if ltb n (2 ^ 15) then done (negsuc n) else panicked

unfoldable pub copy_from_ptr : Slot → Slot → Layout → ℤ → Run (Option Instr)
unfolding by_size
copy_from_ptr dst src layout offset =
    copy_layout layout (λ w. mov_sp w dst src offset)
      (λ count. narrow_count count >>= λ count_narrow. narrow_offset offset >>= λ offset_narrow.
        done (λ w. mov_sp_n w dst src offset_narrow count_narrow))

unfoldable pub copy_to_ptr : Slot → Slot → Layout → ℤ → Run (Option Instr)
unfolding by_size
copy_to_ptr dst src layout offset =
    copy_layout layout (λ w. mov_ps w dst src offset)
      (λ count. narrow_count count >>= λ count_narrow. narrow_offset offset >>= λ offset_narrow.
        done (λ w. mov_ps_n w dst src offset_narrow count_narrow))
