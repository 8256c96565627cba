-- ===== src/Execute/Dispatch.antt =====
-- crates/common/src/execute/mod.rs: the dispatch of an opcode within its group.
use sbpf.Errors.{ExecutionError}
use sbpf.Opcode.{Opcode}
use sbpf.Instruction.{Instruction}
use sbpf.Vm.State.{M, fail}
use sbpf.Execute.Alu64.{execute_alu64_imm, execute_alu64_reg, execute_neg64}
use sbpf.Execute.Alu32.{execute_alu32_imm, execute_alu32_reg, execute_neg32}
use sbpf.Execute.LoadStore.{execute_lddw, execute_ldxb, execute_ldxh, execute_ldxw, execute_ldxdw}
use sbpf.Execute.LoadStore.{execute_stb, execute_sth, execute_stw, execute_stdw}
use sbpf.Execute.LoadStore.{execute_stxb, execute_stxh, execute_stxw, execute_stxdw}

module _ {H : Type 0} where
  unfoldable pub execute_binary_immediate_arm : Opcode → Instruction → M H (Unit {0})
  execute_binary_immediate_arm Opcode.add64_imm inst = execute_alu64_imm inst
  execute_binary_immediate_arm Opcode.sub64_imm inst = execute_alu64_imm inst
  execute_binary_immediate_arm Opcode.mul64_imm inst = execute_alu64_imm inst
  execute_binary_immediate_arm Opcode.div64_imm inst = execute_alu64_imm inst
  execute_binary_immediate_arm Opcode.or64_imm inst = execute_alu64_imm inst
  execute_binary_immediate_arm Opcode.and64_imm inst = execute_alu64_imm inst
  execute_binary_immediate_arm Opcode.lsh64_imm inst = execute_alu64_imm inst
  execute_binary_immediate_arm Opcode.rsh64_imm inst = execute_alu64_imm inst
  execute_binary_immediate_arm Opcode.mod64_imm inst = execute_alu64_imm inst
  execute_binary_immediate_arm Opcode.xor64_imm inst = execute_alu64_imm inst
  execute_binary_immediate_arm Opcode.mov64_imm inst = execute_alu64_imm inst
  execute_binary_immediate_arm Opcode.arsh64_imm inst = execute_alu64_imm inst
  execute_binary_immediate_arm Opcode.add32_imm inst = execute_alu32_imm inst
  execute_binary_immediate_arm Opcode.sub32_imm inst = execute_alu32_imm inst
  execute_binary_immediate_arm Opcode.mul32_imm inst = execute_alu32_imm inst
  execute_binary_immediate_arm Opcode.div32_imm inst = execute_alu32_imm inst
  execute_binary_immediate_arm Opcode.or32_imm inst = execute_alu32_imm inst
  execute_binary_immediate_arm Opcode.and32_imm inst = execute_alu32_imm inst
  execute_binary_immediate_arm Opcode.lsh32_imm inst = execute_alu32_imm inst
  execute_binary_immediate_arm Opcode.rsh32_imm inst = execute_alu32_imm inst
  execute_binary_immediate_arm Opcode.mod32_imm inst = execute_alu32_imm inst
  execute_binary_immediate_arm Opcode.xor32_imm inst = execute_alu32_imm inst
  execute_binary_immediate_arm Opcode.mov32_imm inst = execute_alu32_imm inst
  execute_binary_immediate_arm Opcode.arsh32_imm inst = execute_alu32_imm inst
  execute_binary_immediate_arm _ inst = fail ExecutionError.invalid_instruction

  unfoldable pub execute_binary_immediate : Instruction → M H (Unit {0})
  execute_binary_immediate inst = execute_binary_immediate_arm inst.opcode inst

  unfoldable pub execute_binary_register_arm : Opcode → Instruction → M H (Unit {0})
  execute_binary_register_arm Opcode.add64_reg inst = execute_alu64_reg inst
  execute_binary_register_arm Opcode.sub64_reg inst = execute_alu64_reg inst
  execute_binary_register_arm Opcode.mul64_reg inst = execute_alu64_reg inst
  execute_binary_register_arm Opcode.div64_reg inst = execute_alu64_reg inst
  execute_binary_register_arm Opcode.or64_reg inst = execute_alu64_reg inst
  execute_binary_register_arm Opcode.and64_reg inst = execute_alu64_reg inst
  execute_binary_register_arm Opcode.lsh64_reg inst = execute_alu64_reg inst
  execute_binary_register_arm Opcode.rsh64_reg inst = execute_alu64_reg inst
  execute_binary_register_arm Opcode.mod64_reg inst = execute_alu64_reg inst
  execute_binary_register_arm Opcode.xor64_reg inst = execute_alu64_reg inst
  execute_binary_register_arm Opcode.mov64_reg inst = execute_alu64_reg inst
  execute_binary_register_arm Opcode.arsh64_reg inst = execute_alu64_reg inst
  execute_binary_register_arm Opcode.add32_reg inst = execute_alu32_reg inst
  execute_binary_register_arm Opcode.sub32_reg inst = execute_alu32_reg inst
  execute_binary_register_arm Opcode.mul32_reg inst = execute_alu32_reg inst
  execute_binary_register_arm Opcode.div32_reg inst = execute_alu32_reg inst
  execute_binary_register_arm Opcode.or32_reg inst = execute_alu32_reg inst
  execute_binary_register_arm Opcode.and32_reg inst = execute_alu32_reg inst
  execute_binary_register_arm Opcode.lsh32_reg inst = execute_alu32_reg inst
  execute_binary_register_arm Opcode.rsh32_reg inst = execute_alu32_reg inst
  execute_binary_register_arm Opcode.mod32_reg inst = execute_alu32_reg inst
  execute_binary_register_arm Opcode.xor32_reg inst = execute_alu32_reg inst
  execute_binary_register_arm Opcode.mov32_reg inst = execute_alu32_reg inst
  execute_binary_register_arm Opcode.arsh32_reg inst = execute_alu32_reg inst
  execute_binary_register_arm _ inst = fail ExecutionError.invalid_instruction

  unfoldable pub execute_binary_register : Instruction → M H (Unit {0})
  execute_binary_register inst = execute_binary_register_arm inst.opcode inst

  unfoldable pub execute_unary_arm : Opcode → Instruction → M H (Unit {0})
  execute_unary_arm Opcode.neg64 inst = execute_neg64 inst
  execute_unary_arm Opcode.neg32 inst = execute_neg32 inst
  execute_unary_arm _ inst = fail ExecutionError.invalid_instruction

  unfoldable pub execute_unary : Instruction → M H (Unit {0})
  execute_unary inst = execute_unary_arm inst.opcode inst

  unfoldable pub execute_load_immediate : Instruction → M H (Unit {0})
  execute_load_immediate inst = execute_lddw inst

  unfoldable pub execute_load_memory_arm : Opcode → Instruction → M H (Unit {0})
  execute_load_memory_arm Opcode.ldxb inst = execute_ldxb inst
  execute_load_memory_arm Opcode.ldxh inst = execute_ldxh inst
  execute_load_memory_arm Opcode.ldxw inst = execute_ldxw inst
  execute_load_memory_arm Opcode.ldxdw inst = execute_ldxdw inst
  execute_load_memory_arm _ inst = fail ExecutionError.invalid_instruction

  unfoldable pub execute_load_memory : Instruction → M H (Unit {0})
  execute_load_memory inst = execute_load_memory_arm inst.opcode inst

  unfoldable pub execute_store_immediate_arm : Opcode → Instruction → M H (Unit {0})
  execute_store_immediate_arm Opcode.stb inst = execute_stb inst
  execute_store_immediate_arm Opcode.sth inst = execute_sth inst
  execute_store_immediate_arm Opcode.stw inst = execute_stw inst
  execute_store_immediate_arm Opcode.stdw inst = execute_stdw inst
  execute_store_immediate_arm _ inst = fail ExecutionError.invalid_instruction

  unfoldable pub execute_store_immediate : Instruction → M H (Unit {0})
  execute_store_immediate inst = execute_store_immediate_arm inst.opcode inst

  unfoldable pub execute_store_register_arm : Opcode → Instruction → M H (Unit {0})
  execute_store_register_arm Opcode.stxb inst = execute_stxb inst
  execute_store_register_arm Opcode.stxh inst = execute_stxh inst
  execute_store_register_arm Opcode.stxw inst = execute_stxw inst
  execute_store_register_arm Opcode.stxdw inst = execute_stxdw inst
  execute_store_register_arm _ inst = fail ExecutionError.invalid_instruction

  unfoldable pub execute_store_register : Instruction → M H (Unit {0})
  execute_store_register inst = execute_store_register_arm inst.opcode inst
