-- ===== src/Execute/Safety/Alu64.antt =====
-- 64-bit arithmetic keeps the machine valid.
use sbpf.Base.{ℕ, ◌==◌, arith}
use sbpf.Base.Int.{ℤ}
use sbpf.Base.Words.{u64}
use sbpf.Base.Bits.{bit_or-lt, bit_and-lt, bit_xor-lt}
use sbpf.Opcode.{Opcode}
use sbpf.Instruction.{Instruction}
use sbpf.Execute.Safety.Words.{IsWord-u64, div-lt, rem-lt}
use sbpf.Vm.State.Laws.{IsWord}
use sbpf.Vm.State.Safe.{
  Safe, Any, Safe-bind, Safe-fail, Safe-lift_any, Safe-if, Safe-get_register, Safe-set_register,
  Safe-advance_pc,
}
use sbpf.Execute.Alu64.{
  alu64_imm_arm, alu64_reg_arm, execute_alu64_imm, execute_alu64_reg, execute_neg64,
}

module _ {H : Type 0} {j : ℕ} where
  alu64_imm_arm-Safe :
      (op : Opcode) (dst : ℕ) (imm : ℤ) (imm_u64 : ℕ)
      → IsWord imm_u64
      → Safe {H = H} j j Any (alu64_imm_arm op dst imm imm_u64)
  unfolding alu64_imm_arm
  alu64_imm_arm-Safe Opcode.add64_imm dst imm imm_u64 hv =
      Safe-bind (Safe-get_register dst) (λ a ha. Safe-set_register dst _ (omega arith))
  alu64_imm_arm-Safe Opcode.sub64_imm dst imm imm_u64 hv =
      Safe-bind (Safe-get_register dst) (λ a ha. Safe-set_register dst _ (omega arith))
  alu64_imm_arm-Safe Opcode.mul64_imm dst imm imm_u64 hv =
      Safe-bind (Safe-get_register dst) (λ a ha. Safe-set_register dst _ (omega arith))
  alu64_imm_arm-Safe Opcode.div64_imm dst imm imm_u64 hv =
      Safe-if (imm_u64 == 0) (Safe-fail _) (
        Safe-bind (Safe-get_register dst)
          (λ a ha. Safe-set_register dst _ (div-lt a imm_u64 64 ha)))
  alu64_imm_arm-Safe Opcode.or64_imm dst imm imm_u64 hv =
      Safe-bind (Safe-get_register dst)
        (λ a ha. Safe-set_register dst _ (bit_or-lt 64 a imm_u64 ha hv))
  alu64_imm_arm-Safe Opcode.and64_imm dst imm imm_u64 hv =
      Safe-bind (Safe-get_register dst)
        (λ a ha. Safe-set_register dst _ (bit_and-lt 64 a imm_u64 ha hv))
  alu64_imm_arm-Safe Opcode.lsh64_imm dst imm imm_u64 hv =
      Safe-bind (Safe-get_register dst) (λ a ha. Safe-set_register dst _ (omega arith))
  alu64_imm_arm-Safe Opcode.rsh64_imm dst imm imm_u64 hv =
      Safe-bind (Safe-get_register dst) (λ a ha. Safe-set_register dst _ (div-lt a _ 64 ha))
  alu64_imm_arm-Safe Opcode.mod64_imm dst imm imm_u64 hv =
      Safe-if (imm_u64 == 0) (Safe-fail _) (
        Safe-bind (Safe-get_register dst)
          (λ a ha. Safe-set_register dst _ (rem-lt a imm_u64 64 ha)))
  alu64_imm_arm-Safe Opcode.xor64_imm dst imm imm_u64 hv =
      Safe-bind (Safe-get_register dst)
        (λ a ha. Safe-set_register dst _ (bit_xor-lt 64 a imm_u64 ha hv))
  alu64_imm_arm-Safe Opcode.mov64_imm dst imm imm_u64 hv = Safe-set_register dst imm_u64 hv
  alu64_imm_arm-Safe Opcode.arsh64_imm dst imm imm_u64 hv =
      Safe-bind (Safe-get_register dst) (λ a ha. Safe-set_register dst _ (IsWord-u64 _))
  alu64_imm_arm-Safe _ dst imm imm_u64 hv = Safe-fail _

  pub execute_alu64_imm-Safe : (inst : Instruction) → Safe {H = H} j j Any (execute_alu64_imm inst)
  unfolding execute_alu64_imm
  execute_alu64_imm-Safe inst = Safe-bind (Safe-lift_any _) λ dst _.
      Safe-bind (Safe-lift_any _) λ imm _.
        Safe-bind (alu64_imm_arm-Safe inst.opcode dst imm (u64 imm) (IsWord-u64 imm))
          λ _ _. Safe-advance_pc

  alu64_reg_arm-Safe :
      (op : Opcode) (dst : ℕ) (src_val : ℕ)
      → IsWord src_val
      → Safe {H = H} j j Any (alu64_reg_arm op dst src_val)
  unfolding alu64_reg_arm
  alu64_reg_arm-Safe Opcode.add64_reg dst src_val hv =
      Safe-bind (Safe-get_register dst) (λ a ha. Safe-set_register dst _ (omega arith))
  alu64_reg_arm-Safe Opcode.sub64_reg dst src_val hv =
      Safe-bind (Safe-get_register dst) (λ a ha. Safe-set_register dst _ (omega arith))
  alu64_reg_arm-Safe Opcode.mul64_reg dst src_val hv =
      Safe-bind (Safe-get_register dst) (λ a ha. Safe-set_register dst _ (omega arith))
  alu64_reg_arm-Safe Opcode.div64_reg dst src_val hv =
      Safe-if (src_val == 0) (Safe-fail _) (
        Safe-bind (Safe-get_register dst)
          (λ a ha. Safe-set_register dst _ (div-lt a src_val 64 ha)))
  alu64_reg_arm-Safe Opcode.or64_reg dst src_val hv =
      Safe-bind (Safe-get_register dst)
        (λ a ha. Safe-set_register dst _ (bit_or-lt 64 a src_val ha hv))
  alu64_reg_arm-Safe Opcode.and64_reg dst src_val hv =
      Safe-bind (Safe-get_register dst)
        (λ a ha. Safe-set_register dst _ (bit_and-lt 64 a src_val ha hv))
  alu64_reg_arm-Safe Opcode.lsh64_reg dst src_val hv =
      Safe-bind (Safe-get_register dst) (λ a ha. Safe-set_register dst _ (omega arith))
  alu64_reg_arm-Safe Opcode.rsh64_reg dst src_val hv =
      Safe-bind (Safe-get_register dst) (λ a ha. Safe-set_register dst _ (div-lt a _ 64 ha))
  alu64_reg_arm-Safe Opcode.mod64_reg dst src_val hv =
      Safe-if (src_val == 0) (Safe-fail _) (
        Safe-bind (Safe-get_register dst)
          (λ a ha. Safe-set_register dst _ (rem-lt a src_val 64 ha)))
  alu64_reg_arm-Safe Opcode.xor64_reg dst src_val hv =
      Safe-bind (Safe-get_register dst)
        (λ a ha. Safe-set_register dst _ (bit_xor-lt 64 a src_val ha hv))
  alu64_reg_arm-Safe Opcode.mov64_reg dst src_val hv = Safe-set_register dst src_val hv
  alu64_reg_arm-Safe Opcode.arsh64_reg dst src_val hv =
      Safe-bind (Safe-get_register dst) (λ a ha. Safe-set_register dst _ (IsWord-u64 _))
  alu64_reg_arm-Safe _ dst src_val hv = Safe-fail _

  pub execute_alu64_reg-Safe : (inst : Instruction) → Safe {H = H} j j Any (execute_alu64_reg inst)
  unfolding execute_alu64_reg
  execute_alu64_reg-Safe inst = Safe-bind (Safe-lift_any _) λ dst _.
      Safe-bind (Safe-lift_any _) λ src _.
        Safe-bind (Safe-get_register src)
          λ v hv. Safe-bind (alu64_reg_arm-Safe inst.opcode dst v hv) λ _ _. Safe-advance_pc

  pub execute_neg64-Safe : (inst : Instruction) → Safe {H = H} j j Any (execute_neg64 inst)
  unfolding execute_neg64
  execute_neg64-Safe inst = Safe-bind (Safe-lift_any _) λ dst _.
      Safe-bind (Safe-get_register dst)
        λ a ha. Safe-bind (Safe-set_register dst _ (IsWord-u64 _)) λ _ _. Safe-advance_pc
