-- ===== src/Execute/Alu64/Laws.antt =====
-- 64-bit arithmetic on a register that the machine does not have.
use sbpf.Base.{◌≤◌, ◌≡◌, some, inr, length, le→ltb-false}
use sbpf.Base.Int.{ℤ}
use sbpf.Errors.{panic}
use sbpf.Opcode.{Opcode}
use sbpf.Instruction.{Instruction, Register, int}
use sbpf.Vm.State.{SbpfVm, ◌>>=◌, lift, set_register}
use sbpf.Vm.State.Laws.{IsValid}
use sbpf.Execute.Helpers.{get_dst, get_imm_i64}
use sbpf.Execute.Alu64.{execute_alu64_imm, alu64_imm_arm}

pub execute_alu64_imm_panics :
    {H : Type 0} (vm : SbpfVm H) (inst : Instruction) (r : Register) (imm : ℤ)
    → IsValid 0 vm
    → inst.opcode ≡ Opcode.mov64_imm
    → inst.dst ≡ some r
    → inst.imm ≡ some (inr (int imm))
    → 11 ≤ r.n
    → execute_alu64_imm inst vm ≡ (vm, panic)
unfolding execute_alu64_imm alu64_imm_arm get_dst get_imm_i64 ◌>>=◌ lift set_register
execute_alu64_imm_panics vm inst r imm v o d i h =
    rw (o, d, i) (rw (le→ltb-false r.n (length vm.registers) (rw v.registers h)))
