-- ===== src/Lib.antt =====
-- Skitter, an interpreter of Rust: the parts of it that decide what bytes mean.
--
-- Skitter keeps each crate as a file. `Persist` (src/persist.rs) writes and reads values as bytes;
-- `LazyArray` (src/lazy_collections.rs) puts many such values behind a table of offsets and parses
-- one when it is asked for. Types (src/types/) are generic until a list of arguments is substituted
-- in them, and the layout of a concrete type says where its fields lie, rounded by `align`
-- (src/abi.rs). From a layout src/bytecode_select.rs chooses the instruction for an operator, a cast
-- or a copy, and the interpreter (src/vm/, with arms that build.rs generates) runs it on bytes.
--
-- Prelude: names of the libraries that all parts share, tests on numbers, lemmas on lists; Int the
--   signed integers; Run a result that may also be a panic or spent fuel.
-- Persist: src/persist.rs. Stream is `PersistWriter` and `PersistReader`, a writer being the bytes
--   so far and a reader an index into its bytes; Class is the trait, and `RoundTrips`, the contract of
--   one value: the bytes written depend on the value alone and are read back wherever they stand.
--   Uint is `persist_uint!`, Sint `persist_sint!`, Values `bool`, `Option`, `OnceLock` and pairs,
--   Sequences strings, slices, vectors and maps.
-- LazyCollections: src/lazy_collections.rs. Array has `LazyArray::write`, `read` and `get`, its cells
--   being a list of optional values that `get` fills; Lookup says which items an array represents.
--   Table has `LazyTable::read` and `get`, with the hasher as an argument, since `ahash` is foreign, and
--   Table/Write `LazyTable::write`: Sorting and Buckets for the buckets, Seeds for the search of a
--   seed, Slots and Fill for the two tables, Serving and RoundTrip for what is read of them.
-- Abi: src/abi.rs, `align` on 32-bit words as the source has it, and in plain arithmetic.
-- Types: src/types/. Kind has `TypeKind`, `Sub`, `SubList` and `ConstGeneric` as one mutual block,
--   for an interned type is equal to another exactly if their kinds are; Items what types read of
--   src/items.rs; Subs `Type::sub` and `is_concrete`; Layout `Layout::from` and `is_sized`.
-- Vm: src/vm/ and build.rs. Memory is one address space of bytes that holds the stack, so that a slot
--   is the base of the frame and an offset; Words has bit patterns of 8 to 128 bits; Instr the
--   instructions, a family such as `I8_Add` to `I128_Add` being one constructor; Exec what each does.
--   DropFlags is the flags of src/vm/vm.rs that say which locals of a frame are alive, a bit each; in
--   it, Lifetimes is a frame from its start to its end, with the frames it calls.
-- BytecodeSelect: src/bytecode_select.rs. Copies has `copy`, `copy_from_ptr` and `copy_to_ptr`, which
--   take the layout that `ty.layout()` gives; Numbers has `literal`, `unary`, `binary` and `cast`, and
--   Numbers/Meaning what an operator means on integers, apart from instructions.
-- Impls: src/impls.rs. SubMap is the substitution that a match fills in, Matching `match_types` and its
--   kin, Patterns the types an impl is written for, Soundness and Completeness the two directions of
--   unification; Bounds is `ImplBounds`, Tables the tables in memory and in a file (Searches says
--   what a search finds in memory, Interface in a file, of which items stay loaded), Crates the crates
--   to ask.
-- Ir: src/ir/. Expr has expressions, patterns and the builder of ir.rs, Consts const_util.rs.
-- Drops: src/types/drop.rs. Glue has the fields a drop runs over and the code of glue, with the
--   instructions of build.rs it is made of; Gather, Groups and Cases say what the code for an enum
--   is, Enums and Dispatch what it does, and Expected what it should do. Arrays is the loop over
--   elements, and Info `Type::drop_info`, which takes the glue of other types as an argument.
-- PersistHeader: src/persist_header.rs, the magic bytes, and the check that sources are unchanged.
-- Variants: src/variants.rs, and the discriminants of enums in src/items.rs.
--
-- Bytes and machine words are natural numbers with the wrap-around written out; sizes are `u32`. A
-- panic is `none` or `panicked`. The host is little-endian with 64-bit pointers, and arithmetic is
-- that of a release build. `Layout::from` and `is_sized` follow types through items and so run on
-- fuel: any rank that falls along the way bounds the fuel (Types/Layout/Fuel). The search for a seed
-- in `LazyTable::write` has no bound in the source; its fuel is enough if each bucket in turn has a
-- seed within it, a hypothesis. `match_types` spends fuel on associated types alone, so that 1 is
-- enough without.
--
-- Resolution of associated and opaque types and the environments of closures come from the front end
-- and are fields of the record `Items` that the definitions take. Hash maps are lists of entries in
-- their order of iteration; where one is read from a file, the insertion that decides the order is an
-- argument. Arithmetic on floats is an argument. Not modelled: item references in files, control flow
-- and calls of the virtual machine beyond drop glue, the bytecode compiler, the front end that reads
-- rustc's structures, native calls and the JIT, printing and the command line.
pub mod Abi
pub mod BytecodeSelect
pub mod Drops
pub mod Impls
pub mod Ir
pub mod LazyCollections
pub mod Persist
pub mod PersistHeader
pub mod Prelude
pub mod Types
pub mod Variants
pub mod Vm
