-- ===== src/Execute/Endian.antt =====
-- crates/common/src/execute/endian.rs: the byte order of a register.
pub mod Laws
use sbpf.Base.{ℕ, ◌%◌, ◌^◌, if◌then◌else◌, not, ◌&&◌}
use sbpf.Base.Int.{ℤ, pos, eqb_ℤ}
use sbpf.Base.Words.{to_le_bytes, from_le_bytes}
use sbpf.Errors.{Result, ok, err, ExecutionError}
use sbpf.Opcode.{Opcode}
use sbpf.Instruction.{Instruction}
use sbpf.Vm.State.{M, ◌>>=◌, ◌>>◌, fail, lift, get_register, set_register, advance_pc}
use sbpf.Execute.Helpers.{get_dst, get_imm_i64}
use mathlib.Core.List.{reverse}

-- `to_be` on a little-endian host: the `k` bytes of a word in the other order.
unfoldable pub to_be : ℕ → ℕ → ℕ
to_be k n = from_le_bytes (reverse (to_le_bytes k n))

-- On a little-endian host `to_le` keeps a word, so that only the cast to the width is left.
unfoldable pub endian_arm : Opcode → ℤ → ℕ → Result ExecutionError ℕ
endian_arm Opcode.le imm a =
    ok (if eqb_ℤ imm (pos 16) then a % 2 ^ 16 else if eqb_ℤ imm (pos 32) then a % 2 ^ 32 else a)
endian_arm Opcode.be imm a = ok (
    if eqb_ℤ imm (pos 16)
    then to_be 2 (a % 2 ^ 16)
    else if eqb_ℤ imm (pos 32)
    then to_be 4 (a % 2 ^ 32)
    else to_be 8 a)
endian_arm _ _ _ = err ExecutionError.invalid_instruction

module _ {H : Type 0} where
  unfoldable pub execute_endian : Instruction → M H (Unit {0})
  execute_endian inst = do
    dst ← lift (get_dst inst)
    imm ← lift (get_imm_i64 inst)
    if not (eqb_ℤ imm (pos 16)) && not (eqb_ℤ imm (pos 32)) && not (eqb_ℤ imm (pos 64))
        then fail ExecutionError.invalid_operand
        else (do
          a ← get_register dst
          value ← lift (endian_arm inst.opcode imm a)
          set_register dst value
          advance_pc)
