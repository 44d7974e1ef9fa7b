-- ===== src/LazyCollections.antt =====
-- src/lazy_collections.rs: tables that are parsed entry by entry, on demand.
pub mod Array
pub mod Table
mod Runs
