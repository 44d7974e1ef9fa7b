-- ===== src/Vm/DropFlags.antt =====
-- The drop flags of src/vm/vm.rs: which locals of a frame are alive, a bit each. `base` is the first
-- byte of the frame. An access past the flags panics, which is `none`.
pub mod Bit
pub mod Locals
pub mod Frame
pub mod Lifetimes
mod Runs
use Prim.Native.Nat.{bit_and, bit_or, bit_xor}
use skitter.Prelude.{
  ℕ, zero, suc, ◌+◌, ◌/◌, ◌%◌, ◌^◌, Bool, true, false, Option, none, some, List, [], ◌∷◌, ◌>>=◌,
  ◌==◌, if◌then◌else◌, get_elem?, set, ltb, ◌-◌, ◌++◌, replicate,
}

-- `1u8 << (n & 7)`
abbrev pub mask : ℕ → ℕ
mask n = 2 ^ (n % 8)

abbrev pub is_set : ℕ → ℕ → Bool
is_set byte n = if bit_and byte (mask n) == 0 then false else true

abbrev pub at_byte : ℕ → ℕ → ℕ
at_byte base n = base + n / 8

unfoldable pub local_init : ℕ → ℕ → List ℕ → Option (List ℕ)
local_init base n drop_flags = get_elem? drop_flags (at_byte base n) >>= λ byte.
    if is_set byte n then none else some (set drop_flags (at_byte base n) (bit_or byte (mask n)))

unfoldable pub local_move : ℕ → ℕ → List ℕ → Option (List ℕ)
local_move base n drop_flags = get_elem? drop_flags (at_byte base n) >>= λ byte.
    if is_set byte n then some (set drop_flags (at_byte base n) (bit_xor byte (mask n))) else none

-- Whether the glue of local `n` runs, and the flags after.
unfoldable pub local_drop : ℕ → ℕ → List ℕ → Option (Bool × List ℕ)
local_drop base n drop_flags = get_elem? drop_flags (at_byte base n) >>= λ byte.
    if is_set byte n
    then some (true, set drop_flags (at_byte base n) (bit_xor byte (mask n)))
    else some (false, drop_flags)

unfoldable pub local_drop_init : ℕ → ℕ → List ℕ → Option (Bool × List ℕ)
local_drop_init base n drop_flags = get_elem? drop_flags (at_byte base n) >>= λ byte.
    if is_set byte n
    then some (true, drop_flags)
    else some (false, set drop_flags (at_byte base n) (bit_or byte (mask n)))

-- A frame of `count` locals behind the flags of its callers, and what it leaves of them.
unfoldable pub enter : ℕ → List ℕ → List ℕ
enter count drop_flags =
    if ltb 0 count then drop_flags ++ replicate ((count - 1) / 8 + 1) 0 else drop_flags

-- The loop behind the last instruction: the locals below `count`, the last first. It gives those
-- whose glue ran, in order.
unfoldable pub drop_all : ℕ → ℕ → List ℕ → Option (List ℕ × List ℕ)
unfolding local_drop
drop_all base zero drop_flags = some ([], drop_flags)
drop_all base (suc n) drop_flags = local_drop base n drop_flags >>= λ (ran, flags).
    drop_all base n flags >>= λ (dropped, flags').
    some (if ran then n ∷ dropped else dropped, flags')
