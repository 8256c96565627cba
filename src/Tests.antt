-- ===== src/Tests.antt =====
-- The theorems at concrete machines, memories and opcodes.
pub mod Machine
pub mod Calls
pub mod Stores
pub mod Opcodes
pub mod Codec
pub mod Execution
pub mod Accounts
pub mod Syscalls
pub mod Graphs
pub mod Names
