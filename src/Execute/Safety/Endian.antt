-- ===== src/Execute/Safety/Endian.antt =====
-- A change of the byte order keeps the machine valid.
use sbpf.Base.{ℕ, ◌%◌, ◌^◌, ◌<◌, arith}
use sbpf.Base.Int.{ℤ}
use sbpf.Base.Words.{to_le_bytes, from_le_bytes}
use sbpf.Opcode.{Opcode}
use sbpf.Instruction.{Instruction}
use sbpf.Vm.State.Laws.{IsWord}
use sbpf.Vm.State.Safe.{
  Safe, Post, Any, Safe-bind, Safe-fail, Safe-lift, Safe-lift_any, Safe-if, Safe-get_register,
  Safe-set_register, Safe-advance_pc,
}
use mathlib.Core.List.{reverse}
use sbpf.Base.{All-reverse, length-reverse, subst, ◌∙◌}
use sbpf.Base.Words.{IsByte, from_le_bytes-lt, to_le_bytes-IsByte, length-to_le_bytes}
use sbpf.Execute.Endian.{to_be, endian_arm, execute_endian}

-- A word of up to eight bytes stays one when its bytes are reversed.
to_be-lt : (k n : ℕ) → to_be k n < 256 ^ k
unfolding to_be
to_be-lt k n =
    let b =
      from_le_bytes-lt (reverse (to_le_bytes k n))
        (All-reverse IsByte _ (to_le_bytes-IsByte k n)) in
    subst (λ e. from_le_bytes (reverse (to_le_bytes k n)) < 256 ^ e)
      (length-reverse (to_le_bytes k n) ∙ length-to_le_bytes k n) b

endian_arm-IsWord : (op : Opcode) (imm : ℤ) (a : ℕ) → IsWord a → Post IsWord (endian_arm op imm a)
unfolding endian_arm
endian_arm-IsWord Opcode.le imm a h = ground arith
endian_arm-IsWord Opcode.be imm a h =
    ground (arith, to_be-lt 2 (a % 2 ^ 16), to_be-lt 4 (a % 2 ^ 32), to_be-lt 8 a)
endian_arm-IsWord _ imm a h = tt

module _ {H : Type 0} {j : ℕ} where
  pub execute_endian-Safe : (inst : Instruction) → Safe {H = H} j j Any (execute_endian inst)
  unfolding execute_endian
  execute_endian-Safe inst = Safe-bind (Safe-lift_any _) λ dst _.
      Safe-bind (Safe-lift_any _) λ imm _. Safe-if _ (Safe-fail _) (
        Safe-bind (Safe-get_register dst) λ a ha.
          Safe-bind (Safe-lift _ (endian_arm-IsWord inst.opcode imm a ha))
            λ value hv. Safe-bind (Safe-set_register dst value hv) λ _ _. Safe-advance_pc)
