-- ===== src/Execute/Safety/Dispatch.antt =====
-- The groups of instructions keep the machine valid.
use sbpf.Base.{ℕ}
use sbpf.Opcode.{Opcode}
use sbpf.Instruction.{Instruction}
use sbpf.Vm.State.Safe.{Safe, Any, Safe-fail}
use sbpf.Execute.Dispatch.{
  execute_load_immediate, execute_binary_immediate, execute_binary_immediate_arm,
  execute_binary_register, execute_binary_register_arm, execute_unary, execute_unary_arm,
  execute_load_memory, execute_load_memory_arm, execute_store_immediate,
  execute_store_immediate_arm, execute_store_register, execute_store_register_arm,
}
use sbpf.Execute.Safety.Alu64.{execute_alu64_imm-Safe, execute_alu64_reg-Safe, execute_neg64-Safe}
use sbpf.Execute.Safety.Alu32.{execute_alu32_imm-Safe, execute_alu32_reg-Safe, execute_neg32-Safe}
use sbpf.Execute.Safety.LoadStore.{
  execute_lddw-Safe, execute_ldxb-Safe, execute_ldxh-Safe, execute_ldxw-Safe, execute_ldxdw-Safe,
  execute_stb-Safe, execute_sth-Safe, execute_stw-Safe, execute_stdw-Safe, execute_stxb-Safe,
  execute_stxh-Safe, execute_stxw-Safe, execute_stxdw-Safe,
}

module _ {H : Type 0} {j : ℕ} where
  execute_binary_immediate_arm-Safe :
      (op : Opcode) (inst : Instruction)
      → Safe {H = H} j j Any (execute_binary_immediate_arm op inst)
  unfolding execute_binary_immediate_arm
  execute_binary_immediate_arm-Safe Opcode.add64_imm inst = execute_alu64_imm-Safe inst
  execute_binary_immediate_arm-Safe Opcode.sub64_imm inst = execute_alu64_imm-Safe inst
  execute_binary_immediate_arm-Safe Opcode.mul64_imm inst = execute_alu64_imm-Safe inst
  execute_binary_immediate_arm-Safe Opcode.div64_imm inst = execute_alu64_imm-Safe inst
  execute_binary_immediate_arm-Safe Opcode.or64_imm inst = execute_alu64_imm-Safe inst
  execute_binary_immediate_arm-Safe Opcode.and64_imm inst = execute_alu64_imm-Safe inst
  execute_binary_immediate_arm-Safe Opcode.lsh64_imm inst = execute_alu64_imm-Safe inst
  execute_binary_immediate_arm-Safe Opcode.rsh64_imm inst = execute_alu64_imm-Safe inst
  execute_binary_immediate_arm-Safe Opcode.mod64_imm inst = execute_alu64_imm-Safe inst
  execute_binary_immediate_arm-Safe Opcode.xor64_imm inst = execute_alu64_imm-Safe inst
  execute_binary_immediate_arm-Safe Opcode.mov64_imm inst = execute_alu64_imm-Safe inst
  execute_binary_immediate_arm-Safe Opcode.arsh64_imm inst = execute_alu64_imm-Safe inst
  execute_binary_immediate_arm-Safe Opcode.add32_imm inst = execute_alu32_imm-Safe inst
  execute_binary_immediate_arm-Safe Opcode.sub32_imm inst = execute_alu32_imm-Safe inst
  execute_binary_immediate_arm-Safe Opcode.mul32_imm inst = execute_alu32_imm-Safe inst
  execute_binary_immediate_arm-Safe Opcode.div32_imm inst = execute_alu32_imm-Safe inst
  execute_binary_immediate_arm-Safe Opcode.or32_imm inst = execute_alu32_imm-Safe inst
  execute_binary_immediate_arm-Safe Opcode.and32_imm inst = execute_alu32_imm-Safe inst
  execute_binary_immediate_arm-Safe Opcode.lsh32_imm inst = execute_alu32_imm-Safe inst
  execute_binary_immediate_arm-Safe Opcode.rsh32_imm inst = execute_alu32_imm-Safe inst
  execute_binary_immediate_arm-Safe Opcode.mod32_imm inst = execute_alu32_imm-Safe inst
  execute_binary_immediate_arm-Safe Opcode.xor32_imm inst = execute_alu32_imm-Safe inst
  execute_binary_immediate_arm-Safe Opcode.mov32_imm inst = execute_alu32_imm-Safe inst
  execute_binary_immediate_arm-Safe Opcode.arsh32_imm inst = execute_alu32_imm-Safe inst
  execute_binary_immediate_arm-Safe _ inst = Safe-fail _

  pub execute_binary_immediate-Safe :
      (inst : Instruction) → Safe {H = H} j j Any (execute_binary_immediate inst)
  unfolding execute_binary_immediate
  execute_binary_immediate-Safe inst = execute_binary_immediate_arm-Safe inst.opcode inst

  execute_binary_register_arm-Safe :
      (op : Opcode) (inst : Instruction)
      → Safe {H = H} j j Any (execute_binary_register_arm op inst)
  unfolding execute_binary_register_arm
  execute_binary_register_arm-Safe Opcode.add64_reg inst = execute_alu64_reg-Safe inst
  execute_binary_register_arm-Safe Opcode.sub64_reg inst = execute_alu64_reg-Safe inst
  execute_binary_register_arm-Safe Opcode.mul64_reg inst = execute_alu64_reg-Safe inst
  execute_binary_register_arm-Safe Opcode.div64_reg inst = execute_alu64_reg-Safe inst
  execute_binary_register_arm-Safe Opcode.or64_reg inst = execute_alu64_reg-Safe inst
  execute_binary_register_arm-Safe Opcode.and64_reg inst = execute_alu64_reg-Safe inst
  execute_binary_register_arm-Safe Opcode.lsh64_reg inst = execute_alu64_reg-Safe inst
  execute_binary_register_arm-Safe Opcode.rsh64_reg inst = execute_alu64_reg-Safe inst
  execute_binary_register_arm-Safe Opcode.mod64_reg inst = execute_alu64_reg-Safe inst
  execute_binary_register_arm-Safe Opcode.xor64_reg inst = execute_alu64_reg-Safe inst
  execute_binary_register_arm-Safe Opcode.mov64_reg inst = execute_alu64_reg-Safe inst
  execute_binary_register_arm-Safe Opcode.arsh64_reg inst = execute_alu64_reg-Safe inst
  execute_binary_register_arm-Safe Opcode.add32_reg inst = execute_alu32_reg-Safe inst
  execute_binary_register_arm-Safe Opcode.sub32_reg inst = execute_alu32_reg-Safe inst
  execute_binary_register_arm-Safe Opcode.mul32_reg inst = execute_alu32_reg-Safe inst
  execute_binary_register_arm-Safe Opcode.div32_reg inst = execute_alu32_reg-Safe inst
  execute_binary_register_arm-Safe Opcode.or32_reg inst = execute_alu32_reg-Safe inst
  execute_binary_register_arm-Safe Opcode.and32_reg inst = execute_alu32_reg-Safe inst
  execute_binary_register_arm-Safe Opcode.lsh32_reg inst = execute_alu32_reg-Safe inst
  execute_binary_register_arm-Safe Opcode.rsh32_reg inst = execute_alu32_reg-Safe inst
  execute_binary_register_arm-Safe Opcode.mod32_reg inst = execute_alu32_reg-Safe inst
  execute_binary_register_arm-Safe Opcode.xor32_reg inst = execute_alu32_reg-Safe inst
  execute_binary_register_arm-Safe Opcode.mov32_reg inst = execute_alu32_reg-Safe inst
  execute_binary_register_arm-Safe Opcode.arsh32_reg inst = execute_alu32_reg-Safe inst
  execute_binary_register_arm-Safe _ inst = Safe-fail _

  pub execute_binary_register-Safe :
      (inst : Instruction) → Safe {H = H} j j Any (execute_binary_register inst)
  unfolding execute_binary_register
  execute_binary_register-Safe inst = execute_binary_register_arm-Safe inst.opcode inst

  execute_unary_arm-Safe :
      (op : Opcode) (inst : Instruction) → Safe {H = H} j j Any (execute_unary_arm op inst)
  unfolding execute_unary_arm
  execute_unary_arm-Safe Opcode.neg64 inst = execute_neg64-Safe inst
  execute_unary_arm-Safe Opcode.neg32 inst = execute_neg32-Safe inst
  execute_unary_arm-Safe _ inst = Safe-fail _

  pub execute_unary-Safe : (inst : Instruction) → Safe {H = H} j j Any (execute_unary inst)
  unfolding execute_unary
  execute_unary-Safe inst = execute_unary_arm-Safe inst.opcode inst

  pub execute_load_immediate-Safe :
      (inst : Instruction) → Safe {H = H} j j Any (execute_load_immediate inst)
  unfolding execute_load_immediate
  execute_load_immediate-Safe inst = execute_lddw-Safe inst

  execute_load_memory_arm-Safe :
      (op : Opcode) (inst : Instruction) → Safe {H = H} j j Any (execute_load_memory_arm op inst)
  unfolding execute_load_memory_arm
  execute_load_memory_arm-Safe Opcode.ldxb inst = execute_ldxb-Safe inst
  execute_load_memory_arm-Safe Opcode.ldxh inst = execute_ldxh-Safe inst
  execute_load_memory_arm-Safe Opcode.ldxw inst = execute_ldxw-Safe inst
  execute_load_memory_arm-Safe Opcode.ldxdw inst = execute_ldxdw-Safe inst
  execute_load_memory_arm-Safe _ inst = Safe-fail _

  pub execute_load_memory-Safe :
      (inst : Instruction) → Safe {H = H} j j Any (execute_load_memory inst)
  unfolding execute_load_memory
  execute_load_memory-Safe inst = execute_load_memory_arm-Safe inst.opcode inst

  execute_store_immediate_arm-Safe :
      (op : Opcode) (inst : Instruction)
      → Safe {H = H} j j Any (execute_store_immediate_arm op inst)
  unfolding execute_store_immediate_arm
  execute_store_immediate_arm-Safe Opcode.stb inst = execute_stb-Safe inst
  execute_store_immediate_arm-Safe Opcode.sth inst = execute_sth-Safe inst
  execute_store_immediate_arm-Safe Opcode.stw inst = execute_stw-Safe inst
  execute_store_immediate_arm-Safe Opcode.stdw inst = execute_stdw-Safe inst
  execute_store_immediate_arm-Safe _ inst = Safe-fail _

  pub execute_store_immediate-Safe :
      (inst : Instruction) → Safe {H = H} j j Any (execute_store_immediate inst)
  unfolding execute_store_immediate
  execute_store_immediate-Safe inst = execute_store_immediate_arm-Safe inst.opcode inst

  execute_store_register_arm-Safe :
      (op : Opcode) (inst : Instruction) → Safe {H = H} j j Any (execute_store_register_arm op inst)
  unfolding execute_store_register_arm
  execute_store_register_arm-Safe Opcode.stxb inst = execute_stxb-Safe inst
  execute_store_register_arm-Safe Opcode.stxh inst = execute_stxh-Safe inst
  execute_store_register_arm-Safe Opcode.stxw inst = execute_stxw-Safe inst
  execute_store_register_arm-Safe Opcode.stxdw inst = execute_stxdw-Safe inst
  execute_store_register_arm-Safe _ inst = Safe-fail _

  pub execute_store_register-Safe :
      (inst : Instruction) → Safe {H = H} j j Any (execute_store_register inst)
  unfolding execute_store_register
  execute_store_register-Safe inst = execute_store_register_arm-Safe inst.opcode inst
