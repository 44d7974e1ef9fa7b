-- ===== src/Vm/Words.antt =====
-- The machine integers of the interpreter: bit patterns of 8 to 128 bits, read as signed and as
-- unsigned, as the generated arms of build.rs do.
pub mod Laws
pub mod Narrow
use skitter.Prelude.{ℕ, ◌-◌, ◌%◌, ◌^◌, Bool, true, false, ltb, if◌then◌else◌}
use skitter.Prelude.Int.{ℤ, pos, negsuc}

pub data Bits : Type 0 where
  b8 b16 b32 b64 b128 : Bits

abbrev pub bits : Bits → ℕ
bits b8 = 8
bits b16 = 16
bits b32 = 32
bits b64 = 64
bits b128 = 128

abbrev pub size : Bits → ℕ
size b8 = 1
size b16 = 2
size b32 = 4
size b64 = 8
size b128 = 16

abbrev pub modulus : Bits → ℕ
modulus b8 = 2 ^ 8
modulus b16 = 2 ^ 16
modulus b32 = 2 ^ 32
modulus b64 = 2 ^ 64
modulus b128 = 2 ^ 128

abbrev pub half : Bits → ℕ
half b8 = 2 ^ 7
half b16 = 2 ^ 15
half b32 = 2 ^ 31
half b64 = 2 ^ 63
half b128 = 2 ^ 127

-- A pattern as a signed integer in two's complement, and the pattern of an integer that wraps.
unfoldable pub to_signed : Bits → ℕ → ℤ
to_signed w n = if ltb n (half w) then pos n else negsuc (modulus w - 1 - n)

unfoldable pub wrap : Bits → ℤ → ℕ
wrap w (pos n) = n % modulus w
wrap w (negsuc n) = modulus w - 1 - n % modulus w

abbrev pub bool_byte : Bool → ℕ
bool_byte false = 0
bool_byte true = 1
