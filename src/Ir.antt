-- ===== src/Ir.antt =====
-- src/ir/: `Expr` has the expressions and patterns of a function and the builder that collects them
-- (src/ir/ir.rs), `Consts` says which expressions are constant (src/ir/const_util.rs).
pub mod Expr
pub mod Consts
mod Runs
