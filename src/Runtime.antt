-- ===== src/Runtime.antt =====
-- crates/runtime/src: accounts, cross-program invocation and the syscalls of the runtime.
pub mod Stateful
pub mod Config
pub mod Syscalls
pub mod Store
pub mod Effect
pub mod Request
pub mod Validate
pub mod System
