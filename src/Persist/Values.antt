-- ===== src/Persist/Values.antt =====
-- src/persist.rs: `Persist` for `bool`, `Option`, `OnceLock`, pairs, `Arc` and `NoPersist`.
pub mod Laws
use skitter.Prelude.{ℕ, Bool, true, false, not, Option, some, none, ◌==◌}
use skitter.Persist.Stream.{PersistWriter, Read, write_byte, read_byte, pure, ◌>>=◌}
use skitter.Persist.Class.{Persist}

-- `*self as u8`
abbrev pub bool_byte : Bool → ℕ
bool_byte false = 0
bool_byte true = 1

unfoldable pub bool_write : Bool → PersistWriter → PersistWriter
bool_write b w = write_byte (bool_byte b) w

unfoldable pub bool_read : Read Bool
bool_read = read_byte >>= λ n. pure (not (n == 0))

abbrev pub persist_bool : Persist Bool
persist_bool = record { persist_write = bool_write; persist_read = bool_read }

module _ {ℓ} {A : Type ℓ} (p : Persist A) where
  pub option_write : Option A → PersistWriter → PersistWriter
  option_write none w = write_byte 0 w
  option_write (some v) w = p.persist_write v (write_byte 1 w)

  pub option_payload : Bool → Read (Option A)
  option_payload true = p.persist_read >>= λ v. pure (some v)
  option_payload false = pure none

  pub option_read : Read (Option A)
  option_read = read_byte >>= λ n. option_payload (not (n == 0))

  abbrev pub persist_option : Persist (Option A)
  persist_option = record { persist_write = option_write; persist_read = option_read }

  -- A `OnceLock` is an `Option`, set once. It is written and read as one.
  pub once_lock_write : Option A → PersistWriter → PersistWriter
  once_lock_write none w = write_byte 0 w
  once_lock_write (some v) w = p.persist_write v (write_byte 1 w)

  pub once_lock_new : Option A → Option A
  once_lock_new (some x) = some x
  once_lock_new none = none

  pub once_lock_read : Read (Option A)
  once_lock_read = option_read >>= λ o. pure (once_lock_new o)

  abbrev pub persist_once_lock : Persist (Option A)
  persist_once_lock = record { persist_write = once_lock_write; persist_read = once_lock_read }

module _ {ℓ κ} {A : Type ℓ} {B : Type κ} (p : Persist A) (q : Persist B) where
  pub pair_write : A × B → PersistWriter → PersistWriter
  pair_write (a, b) w = q.persist_write b (p.persist_write a w)

  pub pair_read : Read (A × B)
  pair_read = p.persist_read >>= λ a. q.persist_read >>= λ b. pure (a, b)

  abbrev pub persist_pair : Persist (A × B)
  persist_pair = record { persist_write = pair_write; persist_read = pair_read }

-- Nothing is written, and the default is read.
abbrev pub persist_nothing {ℓ} : {A : Type ℓ} → A → Persist A
persist_nothing default = record { persist_write = λ v w. w; persist_read = pure default }
