-- ===== src/Persist/Uint.antt =====
-- src/persist.rs: `persist_uint!`, unsigned integers in 1, 2, 3, 5, 9 or 17 bytes.
pub mod Laws
use skitter.Prelude.{ℕ, zero, suc, ◌+◌, ◌*◌, ◌/◌, ◌%◌, ◌^◌, List, [], ◌∷◌, ltb, ◌==◌, if◌then◌else◌}
use skitter.Persist.Stream.{
  PersistWriter, Read, write_byte, write_bytes, read_byte, read_bytes, pure, ◌>>=◌,
}
use skitter.Persist.Class.{Persist}

-- `to_le_bytes` of an integer of `k` bytes, and `from_le_bytes`.
unfoldable pub to_le_bytes : ℕ → ℕ → List ℕ
to_le_bytes zero n = []
to_le_bytes (suc k) n = n % 256 ∷ to_le_bytes k (n / 256)

unfoldable pub from_le_bytes : List ℕ → ℕ
from_le_bytes [] = 0
from_le_bytes (b ∷ bs) = b + 256 * from_le_bytes bs

-- `n` is the value as a `u128`. `n as u16` and the like keep the low bits.
unfoldable pub uint_write : ℕ → PersistWriter → PersistWriter
uint_write n w =
    if ltb n 251
    then write_byte (n % 2 ^ 8) w
    else if ltb n 256
    then write_byte (n % 2 ^ 8) (write_byte 251 w)
    else if ltb n 65536
    then write_bytes (to_le_bytes 2 (n % 2 ^ 16)) (write_byte 252 w)
    else if ltb n 4294967296
    then write_bytes (to_le_bytes 4 (n % 2 ^ 32)) (write_byte 253 w)
    else if ltb n 18446744073709551616
    then write_bytes (to_le_bytes 8 (n % 2 ^ 64)) (write_byte 254 w)
    else write_bytes (to_le_bytes 16 (n % 2 ^ 128)) (write_byte 255 w)

-- `as _` into a type of `bits` bits.
abbrev pub read_le : ℕ → ℕ → Read ℕ
read_le bits k = read_bytes k >>= λ bs. pure (from_le_bytes bs % 2 ^ bits)

-- The tag byte chooses how the rest is read.
unfoldable pub uint_read_tag : ℕ → ℕ → Read ℕ
uint_read_tag bits n =
    if n == 255
    then read_le bits 16
    else if n == 254
    then read_le bits 8
    else if n == 253
    then read_le bits 4
    else if n == 252
    then read_le bits 2
    else if n == 251
    then (read_byte >>= λ b. pure (b % 2 ^ bits))
    else pure (n % 2 ^ bits)

unfoldable pub uint_read : ℕ → Read ℕ
uint_read bits = read_byte >>= uint_read_tag bits

-- `persist_uint!` at an unsigned type of `bits` bits.
abbrev pub persist_uint : ℕ → Persist ℕ
persist_uint bits = record { persist_write = uint_write; persist_read = uint_read bits }

-- A `usize` of a 64-bit target.
abbrev pub usize : Persist ℕ
usize = persist_uint 64
