-- ===== src/Vm/Memory.antt =====
-- The memory that the interpreter of src/vm/ reads and writes: one address space of bytes, which holds
-- the stack too. `read_stack` and `write_stack` go through it.
pub mod Laws
pub mod Moves
use skitter.Prelude.{ℕ, zero, suc, ◌+◌, ◌-◌, ◌*◌, ◌/◌, ◌%◌, ◌^◌, ◌==◌, if◌then◌else◌}
use skitter.Prelude.Int.{ℤ, pos_part, neg_part}

abbrev pub Memory : Type 0
Memory = ℕ → ℕ

-- An integer of `n` bytes at an address, the low byte first.
unfoldable pub load : ℕ → ℕ → Memory → ℕ
load zero a m = 0
load (suc n) a m = m a + 256 * load n (suc a) m

unfoldable pub store : ℕ → ℕ → ℕ → Memory → Memory
store zero a v m = m
store (suc n) a v m = λ i. if i == a then v % 256 else store n (suc a) (v / 256) m i

-- The loop of a bulk move: `n` elements of `k` bytes, one after the other.
unfoldable pub move_elements : ℕ → ℕ → ℕ → ℕ → Memory → Memory
move_elements k zero dst src m = m
move_elements k (suc n) dst src m =
    move_elements k n (dst + k) (src + k) (store k dst (load k src m) m)

-- `ptr.offset(n)`
abbrev pub offset_ptr : ℕ → ℤ → ℕ
offset_ptr ptr n = (ptr + 2 ^ 64 + pos_part n - neg_part n) % 2 ^ 64
