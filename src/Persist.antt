-- ===== src/Persist.antt =====
-- src/persist.rs: the byte streams and the `Persist` implementations.
pub mod Stream
pub mod Class
pub mod Uint
pub mod Sint
pub mod Values
pub mod Sequences
mod Runs
