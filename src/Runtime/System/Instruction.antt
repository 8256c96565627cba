-- ===== src/Runtime/System/Instruction.antt =====
-- `solana_system_interface::SystemInstruction`, as crates/runtime/src/cpi/builtins/system.rs matches
-- on it: `nonce` is each of the five instructions on nonce accounts, `other` is any other.
use sbpf.Base.{ℕ, String}
use sbpf.Runtime.Store.{Address}

pub data SystemInstruction : Type 0 where
  create_account : ℕ → ℕ → Address → SystemInstruction
  transfer : ℕ → SystemInstruction
  assign : Address → SystemInstruction
  allocate : ℕ → SystemInstruction
  create_account_with_seed : Address → String → ℕ → ℕ → Address → SystemInstruction
  transfer_with_seed : ℕ → String → Address → SystemInstruction
  assign_with_seed : Address → String → Address → SystemInstruction
  allocate_with_seed : Address → String → ℕ → Address → SystemInstruction
  nonce other : SystemInstruction
