-- ===== src/Vm.antt =====
-- crates/vm: the virtual machine that runs a program.
pub mod Compute
pub mod Memory
pub mod State
pub mod Step
