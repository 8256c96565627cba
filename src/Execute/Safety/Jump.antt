-- ===== src/Execute/Safety/Jump.antt =====
-- Jumps keep the machine valid.
use sbpf.Base.{ℕ, Bool}
use sbpf.Base.Int.{ℤ}
use sbpf.Opcode.{Opcode}
use sbpf.Instruction.{Instruction}
use sbpf.Vm.State.Safe.{
  Safe, Any, Safe-bind, Safe-fail, Safe-lift_any, Safe-if, Safe-get_register, Safe-get_pc,
  Safe-set_pc, Safe-advance_pc,
}
use sbpf.Execute.Jump.{
  jump_target, jump_if, execute_jump, execute_jump_immediate_conditional,
  execute_jump_register_conditional, execute_jump_immediate_conditional_u32,
  execute_jump_immediate_conditional_i32, execute_jump_register_conditional_u32,
  execute_jump_register_conditional_i32, execute_jump_immediate_arm, execute_jump_register_arm,
  execute_jump_immediate, execute_jump_register,
}

module _ {H : Type 0} {j : ℕ} where
  jump_if-Safe : (b : Bool) (off : ℤ) → Safe {H = H} j j Any (jump_if b off)
  unfolding jump_if
  jump_if-Safe b off =
      Safe-if b (Safe-bind Safe-get_pc λ pc _. Safe-set_pc (jump_target pc off)) Safe-advance_pc

  pub execute_jump-Safe : (inst : Instruction) → Safe {H = H} j j Any (execute_jump inst)
  unfolding execute_jump
  execute_jump-Safe inst =
      Safe-bind (Safe-lift_any _)
        λ off _. Safe-bind Safe-get_pc λ pc _. Safe-set_pc (jump_target pc off)

  execute_jump_immediate_conditional-Safe :
      (inst : Instruction) (condition : ℕ → ℕ → Bool)
      → Safe {H = H} j j Any (execute_jump_immediate_conditional inst condition)
  unfolding execute_jump_immediate_conditional
  execute_jump_immediate_conditional-Safe inst condition = Safe-bind (Safe-lift_any _) λ dst _.
      Safe-bind (Safe-lift_any _) λ off _.
        Safe-bind (Safe-lift_any _) λ n _. Safe-bind (Safe-get_register _) λ a _. jump_if-Safe _ _

  execute_jump_register_conditional-Safe :
      (inst : Instruction) (condition : ℕ → ℕ → Bool)
      → Safe {H = H} j j Any (execute_jump_register_conditional inst condition)
  unfolding execute_jump_register_conditional
  execute_jump_register_conditional-Safe inst condition = Safe-bind (Safe-lift_any _) λ dst _.
      Safe-bind (Safe-lift_any _) λ src _. Safe-bind (Safe-lift_any _) λ off _.
        Safe-bind (Safe-get_register _)
          λ a _. Safe-bind (Safe-get_register _) λ b _. jump_if-Safe _ _

  execute_jump_immediate_conditional_u32-Safe :
      (inst : Instruction) (condition : ℕ → ℕ → Bool)
      → Safe {H = H} j j Any (execute_jump_immediate_conditional_u32 inst condition)
  unfolding execute_jump_immediate_conditional_u32
  execute_jump_immediate_conditional_u32-Safe inst condition = Safe-bind (Safe-lift_any _) λ dst _.
      Safe-bind (Safe-lift_any _) λ off _.
        Safe-bind (Safe-get_register _) λ a _. Safe-bind (Safe-lift_any _) λ n _. jump_if-Safe _ _

  execute_jump_register_conditional_u32-Safe :
      (inst : Instruction) (condition : ℕ → ℕ → Bool)
      → Safe {H = H} j j Any (execute_jump_register_conditional_u32 inst condition)
  unfolding execute_jump_register_conditional_u32
  execute_jump_register_conditional_u32-Safe inst condition = Safe-bind (Safe-lift_any _) λ dst _.
      Safe-bind (Safe-lift_any _) λ src _. Safe-bind (Safe-lift_any _) λ off _.
        Safe-bind (Safe-get_register _)
          λ a _. Safe-bind (Safe-get_register _) λ b _. jump_if-Safe _ _

  execute_jump_immediate_conditional_i32-Safe :
      (inst : Instruction) (condition : ℤ → ℤ → Bool)
      → Safe {H = H} j j Any (execute_jump_immediate_conditional_i32 inst condition)
  unfolding execute_jump_immediate_conditional_i32
  execute_jump_immediate_conditional_i32-Safe inst condition = Safe-bind (Safe-lift_any _) λ dst _.
      Safe-bind (Safe-lift_any _) λ off _.
        Safe-bind (Safe-get_register _) λ a _. Safe-bind (Safe-lift_any _) λ n _. jump_if-Safe _ _

  execute_jump_register_conditional_i32-Safe :
      (inst : Instruction) (condition : ℤ → ℤ → Bool)
      → Safe {H = H} j j Any (execute_jump_register_conditional_i32 inst condition)
  unfolding execute_jump_register_conditional_i32
  execute_jump_register_conditional_i32-Safe inst condition = Safe-bind (Safe-lift_any _) λ dst _.
      Safe-bind (Safe-lift_any _) λ src _. Safe-bind (Safe-lift_any _) λ off _.
        Safe-bind (Safe-get_register _)
          λ a _. Safe-bind (Safe-get_register _) λ b _. jump_if-Safe _ _

  execute_jump_immediate_arm-Safe :
      (op : Opcode) (inst : Instruction) → Safe {H = H} j j Any (execute_jump_immediate_arm op inst)
  unfolding execute_jump_immediate_arm
  execute_jump_immediate_arm-Safe Opcode.jeq_imm inst =
      execute_jump_immediate_conditional-Safe inst _
  execute_jump_immediate_arm-Safe Opcode.jgt_imm inst =
      execute_jump_immediate_conditional-Safe inst _
  execute_jump_immediate_arm-Safe Opcode.jge_imm inst =
      execute_jump_immediate_conditional-Safe inst _
  execute_jump_immediate_arm-Safe Opcode.jlt_imm inst =
      execute_jump_immediate_conditional-Safe inst _
  execute_jump_immediate_arm-Safe Opcode.jle_imm inst =
      execute_jump_immediate_conditional-Safe inst _
  execute_jump_immediate_arm-Safe Opcode.jset_imm inst =
      execute_jump_immediate_conditional-Safe inst _
  execute_jump_immediate_arm-Safe Opcode.jne_imm inst =
      execute_jump_immediate_conditional-Safe inst _
  execute_jump_immediate_arm-Safe Opcode.jsgt_imm inst =
      execute_jump_immediate_conditional-Safe inst _
  execute_jump_immediate_arm-Safe Opcode.jsge_imm inst =
      execute_jump_immediate_conditional-Safe inst _
  execute_jump_immediate_arm-Safe Opcode.jslt_imm inst =
      execute_jump_immediate_conditional-Safe inst _
  execute_jump_immediate_arm-Safe Opcode.jsle_imm inst =
      execute_jump_immediate_conditional-Safe inst _
  execute_jump_immediate_arm-Safe Opcode.jeq32_imm inst =
      execute_jump_immediate_conditional_u32-Safe inst _
  execute_jump_immediate_arm-Safe Opcode.jgt32_imm inst =
      execute_jump_immediate_conditional_u32-Safe inst _
  execute_jump_immediate_arm-Safe Opcode.jge32_imm inst =
      execute_jump_immediate_conditional_u32-Safe inst _
  execute_jump_immediate_arm-Safe Opcode.jlt32_imm inst =
      execute_jump_immediate_conditional_u32-Safe inst _
  execute_jump_immediate_arm-Safe Opcode.jle32_imm inst =
      execute_jump_immediate_conditional_u32-Safe inst _
  execute_jump_immediate_arm-Safe Opcode.jset32_imm inst =
      execute_jump_immediate_conditional_u32-Safe inst _
  execute_jump_immediate_arm-Safe Opcode.jne32_imm inst =
      execute_jump_immediate_conditional_u32-Safe inst _
  execute_jump_immediate_arm-Safe Opcode.jsgt32_imm inst =
      execute_jump_immediate_conditional_i32-Safe inst _
  execute_jump_immediate_arm-Safe Opcode.jsge32_imm inst =
      execute_jump_immediate_conditional_i32-Safe inst _
  execute_jump_immediate_arm-Safe Opcode.jslt32_imm inst =
      execute_jump_immediate_conditional_i32-Safe inst _
  execute_jump_immediate_arm-Safe Opcode.jsle32_imm inst =
      execute_jump_immediate_conditional_i32-Safe inst _
  execute_jump_immediate_arm-Safe _ inst = Safe-fail _

  pub execute_jump_immediate-Safe :
      (inst : Instruction) → Safe {H = H} j j Any (execute_jump_immediate inst)
  unfolding execute_jump_immediate
  execute_jump_immediate-Safe inst = execute_jump_immediate_arm-Safe inst.opcode inst

  execute_jump_register_arm-Safe :
      (op : Opcode) (inst : Instruction) → Safe {H = H} j j Any (execute_jump_register_arm op inst)
  unfolding execute_jump_register_arm
  execute_jump_register_arm-Safe Opcode.jeq_reg inst = execute_jump_register_conditional-Safe inst _
  execute_jump_register_arm-Safe Opcode.jgt_reg inst = execute_jump_register_conditional-Safe inst _
  execute_jump_register_arm-Safe Opcode.jge_reg inst = execute_jump_register_conditional-Safe inst _
  execute_jump_register_arm-Safe Opcode.jlt_reg inst = execute_jump_register_conditional-Safe inst _
  execute_jump_register_arm-Safe Opcode.jle_reg inst = execute_jump_register_conditional-Safe inst _
  execute_jump_register_arm-Safe Opcode.jset_reg inst =
      execute_jump_register_conditional-Safe inst _
  execute_jump_register_arm-Safe Opcode.jne_reg inst = execute_jump_register_conditional-Safe inst _
  execute_jump_register_arm-Safe Opcode.jsgt_reg inst =
      execute_jump_register_conditional-Safe inst _
  execute_jump_register_arm-Safe Opcode.jsge_reg inst =
      execute_jump_register_conditional-Safe inst _
  execute_jump_register_arm-Safe Opcode.jslt_reg inst =
      execute_jump_register_conditional-Safe inst _
  execute_jump_register_arm-Safe Opcode.jsle_reg inst =
      execute_jump_register_conditional-Safe inst _
  execute_jump_register_arm-Safe Opcode.jeq32_reg inst =
      execute_jump_register_conditional_u32-Safe inst _
  execute_jump_register_arm-Safe Opcode.jgt32_reg inst =
      execute_jump_register_conditional_u32-Safe inst _
  execute_jump_register_arm-Safe Opcode.jge32_reg inst =
      execute_jump_register_conditional_u32-Safe inst _
  execute_jump_register_arm-Safe Opcode.jlt32_reg inst =
      execute_jump_register_conditional_u32-Safe inst _
  execute_jump_register_arm-Safe Opcode.jle32_reg inst =
      execute_jump_register_conditional_u32-Safe inst _
  execute_jump_register_arm-Safe Opcode.jset32_reg inst =
      execute_jump_register_conditional_u32-Safe inst _
  execute_jump_register_arm-Safe Opcode.jne32_reg inst =
      execute_jump_register_conditional_u32-Safe inst _
  execute_jump_register_arm-Safe Opcode.jsgt32_reg inst =
      execute_jump_register_conditional_i32-Safe inst _
  execute_jump_register_arm-Safe Opcode.jsge32_reg inst =
      execute_jump_register_conditional_i32-Safe inst _
  execute_jump_register_arm-Safe Opcode.jslt32_reg inst =
      execute_jump_register_conditional_i32-Safe inst _
  execute_jump_register_arm-Safe Opcode.jsle32_reg inst =
      execute_jump_register_conditional_i32-Safe inst _
  execute_jump_register_arm-Safe _ inst = Safe-fail _

  pub execute_jump_register-Safe :
      (inst : Instruction) → Safe {H = H} j j Any (execute_jump_register inst)
  unfolding execute_jump_register
  execute_jump_register-Safe inst = execute_jump_register_arm-Safe inst.opcode inst
