-- ===== src/Drops.antt =====
-- src/types/drop.rs: `Glue` has the fields that a drop runs over and the bytecode of drop glue, with a
-- machine for it, `Arrays` the loop over an array, `Info` the choice by kind; the others are about the
-- glue of enums.
pub mod Glue
pub mod Arrays
pub mod Cases
pub mod Enums
pub mod Gather
pub mod Dispatch
pub mod Expected
pub mod Groups
pub mod Info
mod Runs
