-- ===== src/Ir.antt =====
-- crates/ir: the control flow graph and the engines that walk it.
pub mod Worklist
pub mod Cfg
