-- ===== src/Impls.antt =====
-- src/impls.rs: which impl belongs to some types. `Matching` unifies the types of an impl with the
-- ones asked for, `Bounds` checks the bounds of an impl, `Tables` keeps and looks up the impls of a
-- crate, and `Crates` names the crates to ask.
pub mod SubMap
pub mod Matching
pub mod Patterns
pub mod Arms
pub mod Soundness
pub mod Completeness
pub mod Unify
pub mod Bounds
pub mod Tables
pub mod Crates
mod Runs
