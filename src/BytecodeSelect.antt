-- ===== src/BytecodeSelect.antt =====
-- src/bytecode_select.rs: the choice of an instruction for an operation on a type.
pub mod Numbers
pub mod Copies
mod Runs
