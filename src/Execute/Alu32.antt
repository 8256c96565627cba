-- ===== src/Execute/Alu32.antt =====
-- crates/common/src/execute/alu32.rs: 32-bit arithmetic.
use Prim.Native.Nat.{bit_and, bit_or, bit_xor}
use sbpf.Base.{ℕ, ◌*◌, ◌/◌, ◌%◌, ◌^◌, ◌==◌, if◌then◌else◌}
use sbpf.Base.Int.{ℤ, pos, ◌+ℤ◌, ◌-ℤ◌, ◌*ℤ◌, floor_div}
use sbpf.Base.Words.{u32, u64, i32, wrap_int}
use sbpf.Errors.{ExecutionError}
use sbpf.Opcode.{Opcode}
use sbpf.Instruction.{Instruction}
use sbpf.Vm.State.{M, ◌>>=◌, ◌>>◌, fail, lift, get_register, set_register, advance_pc}
use sbpf.Execute.Helpers.{get_dst, get_src, get_imm_i64}

module _ {H : Type 0} where
  -- The arms of the `match` on the opcode. A sum, difference or product is of `i32`s, and is
  -- widened with its sign; all other results are widened with zeros.
  unfoldable pub alu32_imm_arm : Opcode → ℕ → ℤ → M H (Unit {0})
  alu32_imm_arm Opcode.add32_imm dst imm = do
    a ← get_register dst
    set_register dst (u64 (wrap_int 32 (i32 a +ℤ wrap_int 32 imm)))
  alu32_imm_arm Opcode.sub32_imm dst imm = do
    a ← get_register dst
    set_register dst (u64 (wrap_int 32 (i32 a -ℤ wrap_int 32 imm)))
  alu32_imm_arm Opcode.mul32_imm dst imm = do
    a ← get_register dst
    set_register dst (u64 (wrap_int 32 (i32 a *ℤ wrap_int 32 imm)))
  alu32_imm_arm Opcode.div32_imm dst imm =
      if u32 imm == 0
      then fail ExecutionError.division_by_zero
      else (do a ← get_register dst; set_register dst ((a % 2 ^ 32) / u32 imm))
  alu32_imm_arm Opcode.or32_imm dst imm = do
    a ← get_register dst
    set_register dst (bit_or (a % 2 ^ 32) (u32 imm))
  alu32_imm_arm Opcode.and32_imm dst imm = do
    a ← get_register dst
    set_register dst (bit_and (a % 2 ^ 32) (u32 imm))
  alu32_imm_arm Opcode.lsh32_imm dst imm = do
    a ← get_register dst
    set_register dst ((a % 2 ^ 32) * 2 ^ (u32 imm % 32) % 2 ^ 32)
  alu32_imm_arm Opcode.rsh32_imm dst imm = do
    a ← get_register dst
    set_register dst ((a % 2 ^ 32) / 2 ^ (u32 imm % 32))
  alu32_imm_arm Opcode.mod32_imm dst imm =
      if u32 imm == 0
      then fail ExecutionError.division_by_zero
      else (do a ← get_register dst; set_register dst ((a % 2 ^ 32) % u32 imm))
  alu32_imm_arm Opcode.xor32_imm dst imm = do
    a ← get_register dst
    set_register dst (bit_xor (a % 2 ^ 32) (u32 imm))
  alu32_imm_arm Opcode.mov32_imm dst imm = set_register dst (u32 imm)
  alu32_imm_arm Opcode.arsh32_imm dst imm = do
    a ← get_register dst
    set_register dst (u32 (floor_div (i32 a) (2 ^ (u32 imm % 32))))
  alu32_imm_arm _ _ _ = fail ExecutionError.invalid_instruction

  unfoldable pub execute_alu32_imm : Instruction → M H (Unit {0})
  execute_alu32_imm inst = do
    dst ← lift (get_dst inst)
    imm ← lift (get_imm_i64 inst)
    alu32_imm_arm inst.opcode dst imm
    advance_pc

  unfoldable pub alu32_reg_arm : Opcode → ℕ → ℤ → ℤ → M H (Unit {0})
  alu32_reg_arm Opcode.add32_reg dst src_val dst_val =
      set_register dst (u64 (wrap_int 32 (dst_val +ℤ src_val)))
  alu32_reg_arm Opcode.sub32_reg dst src_val dst_val =
      set_register dst (u64 (wrap_int 32 (dst_val -ℤ src_val)))
  alu32_reg_arm Opcode.mul32_reg dst src_val dst_val =
      set_register dst (u64 (wrap_int 32 (dst_val *ℤ src_val)))
  alu32_reg_arm Opcode.div32_reg dst src_val dst_val =
      if u32 src_val == 0
      then fail ExecutionError.division_by_zero
      else (set_register dst ((u32 dst_val) / u32 src_val))
  alu32_reg_arm Opcode.or32_reg dst src_val dst_val =
      set_register dst (bit_or (u32 dst_val) (u32 src_val))
  alu32_reg_arm Opcode.and32_reg dst src_val dst_val =
      set_register dst (bit_and (u32 dst_val) (u32 src_val))
  alu32_reg_arm Opcode.lsh32_reg dst src_val dst_val =
      set_register dst ((u32 dst_val) * 2 ^ (u32 src_val % 32) % 2 ^ 32)
  alu32_reg_arm Opcode.rsh32_reg dst src_val dst_val =
      set_register dst ((u32 dst_val) / 2 ^ (u32 src_val % 32))
  alu32_reg_arm Opcode.mod32_reg dst src_val dst_val =
      if u32 src_val == 0
      then fail ExecutionError.division_by_zero
      else (set_register dst ((u32 dst_val) % u32 src_val))
  alu32_reg_arm Opcode.xor32_reg dst src_val dst_val =
      set_register dst (bit_xor (u32 dst_val) (u32 src_val))
  alu32_reg_arm Opcode.mov32_reg dst src_val dst_val = set_register dst (u32 src_val)
  alu32_reg_arm Opcode.arsh32_reg dst src_val dst_val =
      set_register dst (u32 (floor_div (dst_val) (2 ^ (u32 src_val % 32))))
  alu32_reg_arm _ _ _ _ = fail ExecutionError.invalid_instruction

  unfoldable pub execute_alu32_reg : Instruction → M H (Unit {0})
  execute_alu32_reg inst = do
    dst ← lift (get_dst inst)
    src ← lift (get_src inst)
    s ← get_register src
    d ← get_register dst
    alu32_reg_arm inst.opcode dst (i32 s) (i32 d)
    advance_pc

  unfoldable pub execute_neg32 : Instruction → M H (Unit {0})
  execute_neg32 inst = do
    dst ← lift (get_dst inst)
    a ← get_register dst
    set_register dst (u32 (wrap_int 32 (pos 0 -ℤ i32 a)))
    advance_pc
