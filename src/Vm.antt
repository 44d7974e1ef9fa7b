-- ===== src/Vm.antt =====
-- src/vm/ and build.rs: the memory, the instructions, and what each does.
pub mod Memory
pub mod Words
pub mod Instr
pub mod Exec
pub mod DropFlags
