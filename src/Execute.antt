-- ===== src/Execute.antt =====
-- crates/common/src/execute: what each instruction does to the machine.
pub mod Helpers
pub mod Alu64
pub mod Alu32
pub mod Jump
pub mod LoadStore
pub mod Call
pub mod Endian
pub mod Dispatch
pub mod Safety
