-- ===== src/Persist/Sint.antt =====
-- src/persist.rs: `persist_sint!`, used for `i128` through `u128`.
pub mod Laws
use skitter.Prelude.{ℕ, zero, suc, ◌+◌, ◌*◌, ◌/◌, ◌%◌, ◌^◌, ◌==◌, if◌then◌else◌}
use skitter.Prelude.Int.{ℤ, pos, negsuc}
use skitter.Persist.Stream.{PersistWriter, Read, pure, ◌>>=◌}
use skitter.Persist.Class.{Persist}
use skitter.Persist.Uint.{uint_write, uint_read}

-- The sign goes to the lowest bit and the magnitude above it. Arithmetic on `i128` is that of a
-- release build, where it wraps: of -2 ^ 127 the shift drops the only bit that is set.
unfoldable pub sint_word : ℤ → ℕ
sint_word (pos n) = n * 2 % 2 ^ 128
sint_word (negsuc k) = suc k * 2 % 2 ^ 128 + 1

unfoldable pub sint_write : ℤ → PersistWriter → PersistWriter
unfolding sint_word
sint_write n w = uint_write (sint_word n) w

-- `-tmp`
abbrev pub neg : ℕ → ℤ
neg zero = pos 0
neg (suc k) = negsuc k

unfoldable pub sint_value : ℕ → ℤ
sint_value n = if n % 2 == 0 then pos (n / 2) else neg (n / 2)

unfoldable pub sint_read : Read ℤ
unfolding sint_value
sint_read = uint_read 128 >>= λ n. pure (sint_value n)

abbrev pub persist_i128 : Persist ℤ
persist_i128 = record { persist_write = sint_write; persist_read = sint_read }
