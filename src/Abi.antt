-- ===== src/Abi.antt =====
-- src/abi.rs: the size of a pointer on a 64-bit host, and rounding up to an alignment.
pub mod Align
use skitter.Prelude.{ℕ, ◌+◌, ◌-◌, ◌%◌, ◌^◌}
use Prim.Native.Nat.{bit_and}

-- `POINTER_SIZE.bytes()`
abbrev pub pointer_size : ℕ
pointer_size = 8

abbrev pub call_align : ℕ
call_align = 16

-- `!mask`
abbrev pub not_u32 : ℕ → ℕ
not_u32 m = 2 ^ 32 - 1 - m

unfoldable pub align : ℕ → ℕ → ℕ
align x a = let mask = a - 1 in bit_and ((x + mask) % 2 ^ 32) (not_u32 mask)
