-- ===== src/Execute/Safety/Alu32.antt =====
-- 32-bit arithmetic keeps the machine valid.
use sbpf.Base.{ℕ, ◌%◌, ◌^◌, ◌==◌, arith}
use sbpf.Base.Int.{ℤ}
use sbpf.Base.Words.{u32, i32}
use sbpf.Base.Bits.{bit_or-lt, bit_and-lt, bit_xor-lt}
use sbpf.Opcode.{Opcode}
use sbpf.Instruction.{Instruction}
use sbpf.Execute.Safety.Words.{IsWord-u64, IsWord-below, u32-lt, div-lt, rem-lt}
use sbpf.Vm.State.Safe.{
  Safe, Any, Safe-bind, Safe-fail, Safe-lift_any, Safe-if, Safe-get_register, Safe-set_register,
  Safe-advance_pc,
}
use sbpf.Execute.Alu32.{
  alu32_imm_arm, alu32_reg_arm, execute_alu32_imm, execute_alu32_reg, execute_neg32,
}

module _ {H : Type 0} {j : ℕ} where
  alu32_imm_arm-Safe :
      (op : Opcode) (dst : ℕ) (imm : ℤ) → Safe {H = H} j j Any (alu32_imm_arm op dst imm)
  unfolding alu32_imm_arm
  alu32_imm_arm-Safe Opcode.add32_imm dst imm =
      Safe-bind (Safe-get_register dst) (λ a ha. Safe-set_register dst _ (IsWord-u64 _))
  alu32_imm_arm-Safe Opcode.sub32_imm dst imm =
      Safe-bind (Safe-get_register dst) (λ a ha. Safe-set_register dst _ (IsWord-u64 _))
  alu32_imm_arm-Safe Opcode.mul32_imm dst imm =
      Safe-bind (Safe-get_register dst) (λ a ha. Safe-set_register dst _ (IsWord-u64 _))
  alu32_imm_arm-Safe Opcode.div32_imm dst imm = Safe-if ((u32 imm) == 0) (Safe-fail _) (
      Safe-bind (Safe-get_register dst) (λ a ha.
        Safe-set_register dst _ (IsWord-below _ (div-lt (a % 2 ^ 32) (u32 imm) 32 (omega arith)))))
  alu32_imm_arm-Safe Opcode.or32_imm dst imm = Safe-bind (Safe-get_register dst) (λ a ha.
      Safe-set_register dst _
        (IsWord-below _ (bit_or-lt 32 (a % 2 ^ 32) (u32 imm) (omega arith) (u32-lt imm))))
  alu32_imm_arm-Safe Opcode.and32_imm dst imm = Safe-bind (Safe-get_register dst) (λ a ha.
      Safe-set_register dst _
        (IsWord-below _ (bit_and-lt 32 (a % 2 ^ 32) (u32 imm) (omega arith) (u32-lt imm))))
  alu32_imm_arm-Safe Opcode.lsh32_imm dst imm =
      Safe-bind (Safe-get_register dst)
        (λ a ha. Safe-set_register dst _ (IsWord-below _ (omega arith)))
  alu32_imm_arm-Safe Opcode.rsh32_imm dst imm =
      Safe-bind (Safe-get_register dst)
        (λ a ha. Safe-set_register dst _ (IsWord-below _ (div-lt (a % 2 ^ 32) _ 32 (omega arith))))
  alu32_imm_arm-Safe Opcode.mod32_imm dst imm = Safe-if ((u32 imm) == 0) (Safe-fail _) (
      Safe-bind (Safe-get_register dst) (λ a ha.
        Safe-set_register dst _ (IsWord-below _ (rem-lt (a % 2 ^ 32) (u32 imm) 32 (omega arith)))))
  alu32_imm_arm-Safe Opcode.xor32_imm dst imm = Safe-bind (Safe-get_register dst) (λ a ha.
      Safe-set_register dst _
        (IsWord-below _ (bit_xor-lt 32 (a % 2 ^ 32) (u32 imm) (omega arith) (u32-lt imm))))
  alu32_imm_arm-Safe Opcode.mov32_imm dst imm =
      Safe-set_register dst _ (IsWord-below _ ((u32-lt imm)))
  alu32_imm_arm-Safe Opcode.arsh32_imm dst imm =
      Safe-bind (Safe-get_register dst)
        (λ a ha. Safe-set_register dst _ (IsWord-below _ (u32-lt _)))
  alu32_imm_arm-Safe _ dst imm = Safe-fail _

  pub execute_alu32_imm-Safe : (inst : Instruction) → Safe {H = H} j j Any (execute_alu32_imm inst)
  unfolding execute_alu32_imm
  execute_alu32_imm-Safe inst = Safe-bind (Safe-lift_any _) λ dst _.
      Safe-bind (Safe-lift_any _)
        λ imm _. Safe-bind (alu32_imm_arm-Safe inst.opcode dst imm) λ _ _. Safe-advance_pc

  alu32_reg_arm-Safe :
      (op : Opcode) (dst : ℕ) (src_val dst_val : ℤ)
      → Safe {H = H} j j Any (alu32_reg_arm op dst src_val dst_val)
  unfolding alu32_reg_arm
  alu32_reg_arm-Safe Opcode.add32_reg dst src_val dst_val = Safe-set_register dst _ (IsWord-u64 _)
  alu32_reg_arm-Safe Opcode.sub32_reg dst src_val dst_val = Safe-set_register dst _ (IsWord-u64 _)
  alu32_reg_arm-Safe Opcode.mul32_reg dst src_val dst_val = Safe-set_register dst _ (IsWord-u64 _)
  alu32_reg_arm-Safe Opcode.div32_reg dst src_val dst_val =
      Safe-if ((u32 src_val) == 0) (Safe-fail _) (
        Safe-set_register dst _
          (IsWord-below _ (div-lt (u32 dst_val) (u32 src_val) 32 (u32-lt dst_val))))
  alu32_reg_arm-Safe Opcode.or32_reg dst src_val dst_val =
      Safe-set_register dst _ (
        IsWord-below _ (bit_or-lt 32 (u32 dst_val) (u32 src_val) (u32-lt dst_val) (u32-lt src_val)))
  alu32_reg_arm-Safe Opcode.and32_reg dst src_val dst_val =
      Safe-set_register dst _ (
        IsWord-below _
          (bit_and-lt 32 (u32 dst_val) (u32 src_val) (u32-lt dst_val) (u32-lt src_val)))
  alu32_reg_arm-Safe Opcode.lsh32_reg dst src_val dst_val =
      Safe-set_register dst _ (IsWord-below _ (omega arith))
  alu32_reg_arm-Safe Opcode.rsh32_reg dst src_val dst_val =
      Safe-set_register dst _ (IsWord-below _ (div-lt (u32 dst_val) _ 32 (u32-lt dst_val)))
  alu32_reg_arm-Safe Opcode.mod32_reg dst src_val dst_val =
      Safe-if ((u32 src_val) == 0) (Safe-fail _) (
        Safe-set_register dst _
          (IsWord-below _ (rem-lt (u32 dst_val) (u32 src_val) 32 (u32-lt dst_val))))
  alu32_reg_arm-Safe Opcode.xor32_reg dst src_val dst_val =
      Safe-set_register dst _ (
        IsWord-below _
          (bit_xor-lt 32 (u32 dst_val) (u32 src_val) (u32-lt dst_val) (u32-lt src_val)))
  alu32_reg_arm-Safe Opcode.mov32_reg dst src_val dst_val =
      Safe-set_register dst _ (IsWord-below _ ((u32-lt src_val)))
  alu32_reg_arm-Safe Opcode.arsh32_reg dst src_val dst_val =
      Safe-set_register dst _ (IsWord-below _ (u32-lt _))
  alu32_reg_arm-Safe _ dst src_val dst_val = Safe-fail _

  pub execute_alu32_reg-Safe : (inst : Instruction) → Safe {H = H} j j Any (execute_alu32_reg inst)
  unfolding execute_alu32_reg
  execute_alu32_reg-Safe inst = Safe-bind (Safe-lift_any _) λ dst _.
      Safe-bind (Safe-lift_any _) λ src _. Safe-bind (Safe-get_register src) λ s _.
        Safe-bind (Safe-get_register dst) λ d _.
          Safe-bind (alu32_reg_arm-Safe inst.opcode dst (i32 s) (i32 d)) λ _ _. Safe-advance_pc

  pub execute_neg32-Safe : (inst : Instruction) → Safe {H = H} j j Any (execute_neg32 inst)
  unfolding execute_neg32
  execute_neg32-Safe inst = Safe-bind (Safe-lift_any _) λ dst _.
      Safe-bind (Safe-get_register dst) λ a ha.
        Safe-bind (Safe-set_register dst _ (IsWord-below _ (u32-lt _))) λ _ _. Safe-advance_pc
