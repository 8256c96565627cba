-- ===== src/Execute/Safety.antt =====
-- Every instruction keeps the machine valid, and no register leaves 64 bits.
pub mod Words
pub mod Alu64
pub mod Alu32
pub mod Jump
pub mod LoadStore
pub mod Call
pub mod Endian
pub mod Dispatch
