-- ===== src/Execute/Alu64.antt =====
-- crates/common/src/execute/alu64.rs: 64-bit arithmetic.
pub mod Laws
use Prim.Native.Nat.{bit_and, bit_or, bit_xor}
use sbpf.Base.{ℕ, ◌+◌, ◌-◌, ◌*◌, ◌/◌, ◌%◌, ◌^◌, ◌==◌, if◌then◌else◌}
use sbpf.Base.Int.{ℤ, pos, ◌-ℤ◌, floor_div}
use sbpf.Base.Words.{u32, u64, i64, wrap_int}
use sbpf.Errors.{ExecutionError}
use sbpf.Opcode.{Opcode}
use sbpf.Instruction.{Instruction}
use sbpf.Vm.State.{M, ◌>>=◌, ◌>>◌, fail, lift, get_register, set_register, advance_pc}
use sbpf.Execute.Helpers.{get_dst, get_src, get_imm_i64}

module _ {H : Type 0} where
  -- The arms of the `match` on the opcode. `wrapping_shl` and `wrapping_shr` take the amount of the
  -- shift modulo 64.
  unfoldable pub alu64_imm_arm : Opcode → ℕ → ℤ → ℕ → M H (Unit {0})
  alu64_imm_arm Opcode.add64_imm dst imm imm_u64 = do
    a ← get_register dst
    set_register dst ((a + imm_u64) % 2 ^ 64)
  alu64_imm_arm Opcode.sub64_imm dst imm imm_u64 = do
    a ← get_register dst
    set_register dst ((a + 2 ^ 64 - imm_u64) % 2 ^ 64)
  alu64_imm_arm Opcode.mul64_imm dst imm imm_u64 = do
    a ← get_register dst
    set_register dst (a * imm_u64 % 2 ^ 64)
  alu64_imm_arm Opcode.div64_imm dst imm imm_u64 =
      if imm_u64 == 0
      then fail ExecutionError.division_by_zero
      else (do a ← get_register dst; set_register dst (a / imm_u64))
  alu64_imm_arm Opcode.or64_imm dst imm imm_u64 = do
    a ← get_register dst
    set_register dst (bit_or a imm_u64)
  alu64_imm_arm Opcode.and64_imm dst imm imm_u64 = do
    a ← get_register dst
    set_register dst (bit_and a imm_u64)
  alu64_imm_arm Opcode.lsh64_imm dst imm imm_u64 = do
    a ← get_register dst
    set_register dst (a * 2 ^ (u32 imm % 64) % 2 ^ 64)
  alu64_imm_arm Opcode.rsh64_imm dst imm imm_u64 = do
    a ← get_register dst
    set_register dst (a / 2 ^ (u32 imm % 64))
  alu64_imm_arm Opcode.mod64_imm dst imm imm_u64 =
      if imm_u64 == 0
      then fail ExecutionError.division_by_zero
      else (do a ← get_register dst; set_register dst (a % imm_u64))
  alu64_imm_arm Opcode.xor64_imm dst imm imm_u64 = do
    a ← get_register dst
    set_register dst (bit_xor a imm_u64)
  alu64_imm_arm Opcode.mov64_imm dst imm imm_u64 = set_register dst imm_u64
  alu64_imm_arm Opcode.arsh64_imm dst imm imm_u64 = do
    a ← get_register dst
    set_register dst (u64 (floor_div (i64 a) (2 ^ (u32 imm % 64))))
  alu64_imm_arm _ _ _ _ = fail ExecutionError.invalid_instruction

  unfoldable pub execute_alu64_imm : Instruction → M H (Unit {0})
  execute_alu64_imm inst = do
    dst ← lift (get_dst inst)
    imm ← lift (get_imm_i64 inst)
    let imm_u64 = u64 imm
    alu64_imm_arm inst.opcode dst imm imm_u64
    advance_pc

  unfoldable pub alu64_reg_arm : Opcode → ℕ → ℕ → M H (Unit {0})
  alu64_reg_arm Opcode.add64_reg dst src_val = do
    a ← get_register dst
    set_register dst ((a + src_val) % 2 ^ 64)
  alu64_reg_arm Opcode.sub64_reg dst src_val = do
    a ← get_register dst
    set_register dst ((a + 2 ^ 64 - src_val) % 2 ^ 64)
  alu64_reg_arm Opcode.mul64_reg dst src_val = do
    a ← get_register dst
    set_register dst (a * src_val % 2 ^ 64)
  alu64_reg_arm Opcode.div64_reg dst src_val =
      if src_val == 0
      then fail ExecutionError.division_by_zero
      else (do a ← get_register dst; set_register dst (a / src_val))
  alu64_reg_arm Opcode.or64_reg dst src_val = do
    a ← get_register dst
    set_register dst (bit_or a src_val)
  alu64_reg_arm Opcode.and64_reg dst src_val = do
    a ← get_register dst
    set_register dst (bit_and a src_val)
  alu64_reg_arm Opcode.lsh64_reg dst src_val = do
    a ← get_register dst
    set_register dst (a * 2 ^ (src_val % 2 ^ 32 % 64) % 2 ^ 64)
  alu64_reg_arm Opcode.rsh64_reg dst src_val = do
    a ← get_register dst
    set_register dst (a / 2 ^ (src_val % 2 ^ 32 % 64))
  alu64_reg_arm Opcode.mod64_reg dst src_val =
      if src_val == 0
      then fail ExecutionError.division_by_zero
      else (do a ← get_register dst; set_register dst (a % src_val))
  alu64_reg_arm Opcode.xor64_reg dst src_val = do
    a ← get_register dst
    set_register dst (bit_xor a src_val)
  alu64_reg_arm Opcode.mov64_reg dst src_val = set_register dst src_val
  alu64_reg_arm Opcode.arsh64_reg dst src_val = do
    a ← get_register dst
    set_register dst (u64 (floor_div (i64 a) (2 ^ (src_val % 2 ^ 32 % 64))))
  alu64_reg_arm _ _ _ = fail ExecutionError.invalid_instruction

  unfoldable pub execute_alu64_reg : Instruction → M H (Unit {0})
  execute_alu64_reg inst = do
    dst ← lift (get_dst inst)
    src ← lift (get_src inst)
    src_val ← get_register src
    alu64_reg_arm inst.opcode dst src_val
    advance_pc

  unfoldable pub execute_neg64 : Instruction → M H (Unit {0})
  execute_neg64 inst = do
    dst ← lift (get_dst inst)
    a ← get_register dst
    set_register dst (u64 (wrap_int 64 (pos 0 -ℤ i64 a)))
    advance_pc
