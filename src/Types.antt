-- ===== src/Types.antt =====
-- src/types/: types, substitution and layout.
pub mod Kind
pub mod Items
pub mod Subs
pub mod Layout
pub mod Samples
