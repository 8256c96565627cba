-- ===== src/Execute/Jump.antt =====
-- crates/common/src/execute/jump.rs: jumps.
use Prim.Native.Nat.{bit_and}
use sbpf.Base.{ℕ, ◌%◌, ◌^◌, ◌==◌, ltb, leb, if◌then◌else◌, not, Bool}
use sbpf.Base.Int.{ℤ, pos, ◌+ℤ◌, ltb_ℤ, leb_ℤ}
use sbpf.Base.Words.{u32, u64, i32, i64, wrap_int}
use sbpf.Errors.{ExecutionError}
use sbpf.Opcode.{Opcode}
use sbpf.Instruction.{Instruction}
use sbpf.Vm.State.{M, ◌>>=◌, fail, lift, get_register, get_pc, set_pc, advance_pc}
use sbpf.Execute.Helpers.{get_dst, get_src, get_imm_i64, get_offset}

-- `((pc as i64) + 1 + offset) as usize`. The sum of the source does not leave an `i64`: a program
-- counter that is stepped from is below the length of a vector.
unfoldable pub jump_target : ℕ → ℤ → ℕ
jump_target pc off = u64 (i64 pc +ℤ pos 1 +ℤ off)

module _ {H : Type 0} where
  -- The two branches that end every conditional jump.
  unfoldable pub jump_if : Bool → ℤ → M H (Unit {0})
  jump_if taken off = if taken then (do pc ← get_pc; set_pc (jump_target pc off)) else advance_pc

  unfoldable pub execute_jump : Instruction → M H (Unit {0})
  execute_jump inst = do off ← lift (get_offset inst); pc ← get_pc; set_pc (jump_target pc off)

  unfoldable pub execute_jump_immediate_conditional : Instruction → (ℕ → ℕ → Bool) → M H (Unit {0})
  execute_jump_immediate_conditional inst condition = do
    dst ← lift (get_dst inst)
    off ← lift (get_offset inst)
    n ← lift (get_imm_i64 inst)
    let imm = u64 (wrap_int 32 n)
    a ← get_register dst
    jump_if (condition a imm) off

  unfoldable pub execute_jump_register_conditional : Instruction → (ℕ → ℕ → Bool) → M H (Unit {0})
  execute_jump_register_conditional inst condition = do
    dst ← lift (get_dst inst)
    src ← lift (get_src inst)
    off ← lift (get_offset inst)
    a ← get_register dst
    b ← get_register src
    jump_if (condition a b) off

  unfoldable pub execute_jump_immediate_conditional_u32 :
      Instruction → (ℕ → ℕ → Bool) → M H (Unit {0})
  execute_jump_immediate_conditional_u32 inst condition = do
    dst ← lift (get_dst inst)
    off ← lift (get_offset inst)
    lhs ← get_register dst
    n ← lift (get_imm_i64 inst)
    jump_if (condition (lhs % 2 ^ 32) (u32 n)) off

  unfoldable pub execute_jump_immediate_conditional_i32 :
      Instruction → (ℤ → ℤ → Bool) → M H (Unit {0})
  execute_jump_immediate_conditional_i32 inst condition = do
    dst ← lift (get_dst inst)
    off ← lift (get_offset inst)
    lhs ← get_register dst
    n ← lift (get_imm_i64 inst)
    jump_if (condition (i32 lhs) (wrap_int 32 n)) off

  unfoldable pub execute_jump_register_conditional_u32 :
      Instruction → (ℕ → ℕ → Bool) → M H (Unit {0})
  execute_jump_register_conditional_u32 inst condition = do
    dst ← lift (get_dst inst)
    src ← lift (get_src inst)
    off ← lift (get_offset inst)
    lhs ← get_register dst
    rhs ← get_register src
    jump_if (condition (lhs % 2 ^ 32) (rhs % 2 ^ 32)) off

  unfoldable pub execute_jump_register_conditional_i32 :
      Instruction → (ℤ → ℤ → Bool) → M H (Unit {0})
  execute_jump_register_conditional_i32 inst condition = do
    dst ← lift (get_dst inst)
    src ← lift (get_src inst)
    off ← lift (get_offset inst)
    lhs ← get_register dst
    rhs ← get_register src
    jump_if (condition (i32 lhs) (i32 rhs)) off

  -- The arms of the `match` on the opcode.
  unfoldable pub execute_jump_immediate_arm : Opcode → Instruction → M H (Unit {0})
  execute_jump_immediate_arm Opcode.jeq_imm inst =
      execute_jump_immediate_conditional inst (λ a b. a == b)
  execute_jump_immediate_arm Opcode.jgt_imm inst =
      execute_jump_immediate_conditional inst (λ a b. ltb b a)
  execute_jump_immediate_arm Opcode.jge_imm inst =
      execute_jump_immediate_conditional inst (λ a b. leb b a)
  execute_jump_immediate_arm Opcode.jlt_imm inst =
      execute_jump_immediate_conditional inst (λ a b. ltb a b)
  execute_jump_immediate_arm Opcode.jle_imm inst =
      execute_jump_immediate_conditional inst (λ a b. leb a b)
  execute_jump_immediate_arm Opcode.jset_imm inst =
      execute_jump_immediate_conditional inst (λ a b. not (bit_and a b == 0))
  execute_jump_immediate_arm Opcode.jne_imm inst =
      execute_jump_immediate_conditional inst (λ a b. not (a == b))
  execute_jump_immediate_arm Opcode.jsgt_imm inst =
      execute_jump_immediate_conditional inst (λ a b. ltb_ℤ (i64 b) (i64 a))
  execute_jump_immediate_arm Opcode.jsge_imm inst =
      execute_jump_immediate_conditional inst (λ a b. leb_ℤ (i64 b) (i64 a))
  execute_jump_immediate_arm Opcode.jslt_imm inst =
      execute_jump_immediate_conditional inst (λ a b. ltb_ℤ (i64 a) (i64 b))
  execute_jump_immediate_arm Opcode.jsle_imm inst =
      execute_jump_immediate_conditional inst (λ a b. leb_ℤ (i64 a) (i64 b))
  execute_jump_immediate_arm Opcode.jeq32_imm inst =
      execute_jump_immediate_conditional_u32 inst (λ a b. a == b)
  execute_jump_immediate_arm Opcode.jgt32_imm inst =
      execute_jump_immediate_conditional_u32 inst (λ a b. ltb b a)
  execute_jump_immediate_arm Opcode.jge32_imm inst =
      execute_jump_immediate_conditional_u32 inst (λ a b. leb b a)
  execute_jump_immediate_arm Opcode.jlt32_imm inst =
      execute_jump_immediate_conditional_u32 inst (λ a b. ltb a b)
  execute_jump_immediate_arm Opcode.jle32_imm inst =
      execute_jump_immediate_conditional_u32 inst (λ a b. leb a b)
  execute_jump_immediate_arm Opcode.jset32_imm inst =
      execute_jump_immediate_conditional_u32 inst (λ a b. not (bit_and a b == 0))
  execute_jump_immediate_arm Opcode.jne32_imm inst =
      execute_jump_immediate_conditional_u32 inst (λ a b. not (a == b))
  execute_jump_immediate_arm Opcode.jsgt32_imm inst =
      execute_jump_immediate_conditional_i32 inst (λ a b. ltb_ℤ b a)
  execute_jump_immediate_arm Opcode.jsge32_imm inst =
      execute_jump_immediate_conditional_i32 inst (λ a b. leb_ℤ b a)
  execute_jump_immediate_arm Opcode.jslt32_imm inst =
      execute_jump_immediate_conditional_i32 inst (λ a b. ltb_ℤ a b)
  execute_jump_immediate_arm Opcode.jsle32_imm inst =
      execute_jump_immediate_conditional_i32 inst (λ a b. leb_ℤ a b)
  execute_jump_immediate_arm _ inst = fail ExecutionError.invalid_instruction

  unfoldable pub execute_jump_immediate : Instruction → M H (Unit {0})
  execute_jump_immediate inst = execute_jump_immediate_arm inst.opcode inst

  unfoldable pub execute_jump_register_arm : Opcode → Instruction → M H (Unit {0})
  execute_jump_register_arm Opcode.jeq_reg inst =
      execute_jump_register_conditional inst (λ a b. a == b)
  execute_jump_register_arm Opcode.jgt_reg inst =
      execute_jump_register_conditional inst (λ a b. ltb b a)
  execute_jump_register_arm Opcode.jge_reg inst =
      execute_jump_register_conditional inst (λ a b. leb b a)
  execute_jump_register_arm Opcode.jlt_reg inst =
      execute_jump_register_conditional inst (λ a b. ltb a b)
  execute_jump_register_arm Opcode.jle_reg inst =
      execute_jump_register_conditional inst (λ a b. leb a b)
  execute_jump_register_arm Opcode.jset_reg inst =
      execute_jump_register_conditional inst (λ a b. not (bit_and a b == 0))
  execute_jump_register_arm Opcode.jne_reg inst =
      execute_jump_register_conditional inst (λ a b. not (a == b))
  execute_jump_register_arm Opcode.jsgt_reg inst =
      execute_jump_register_conditional inst (λ a b. ltb_ℤ (i64 b) (i64 a))
  execute_jump_register_arm Opcode.jsge_reg inst =
      execute_jump_register_conditional inst (λ a b. leb_ℤ (i64 b) (i64 a))
  execute_jump_register_arm Opcode.jslt_reg inst =
      execute_jump_register_conditional inst (λ a b. ltb_ℤ (i64 a) (i64 b))
  execute_jump_register_arm Opcode.jsle_reg inst =
      execute_jump_register_conditional inst (λ a b. leb_ℤ (i64 a) (i64 b))
  execute_jump_register_arm Opcode.jeq32_reg inst =
      execute_jump_register_conditional_u32 inst (λ a b. a == b)
  execute_jump_register_arm Opcode.jgt32_reg inst =
      execute_jump_register_conditional_u32 inst (λ a b. ltb b a)
  execute_jump_register_arm Opcode.jge32_reg inst =
      execute_jump_register_conditional_u32 inst (λ a b. leb b a)
  execute_jump_register_arm Opcode.jlt32_reg inst =
      execute_jump_register_conditional_u32 inst (λ a b. ltb a b)
  execute_jump_register_arm Opcode.jle32_reg inst =
      execute_jump_register_conditional_u32 inst (λ a b. leb a b)
  execute_jump_register_arm Opcode.jset32_reg inst =
      execute_jump_register_conditional_u32 inst (λ a b. not (bit_and a b == 0))
  execute_jump_register_arm Opcode.jne32_reg inst =
      execute_jump_register_conditional_u32 inst (λ a b. not (a == b))
  execute_jump_register_arm Opcode.jsgt32_reg inst =
      execute_jump_register_conditional_i32 inst (λ a b. ltb_ℤ b a)
  execute_jump_register_arm Opcode.jsge32_reg inst =
      execute_jump_register_conditional_i32 inst (λ a b. leb_ℤ b a)
  execute_jump_register_arm Opcode.jslt32_reg inst =
      execute_jump_register_conditional_i32 inst (λ a b. ltb_ℤ a b)
  execute_jump_register_arm Opcode.jsle32_reg inst =
      execute_jump_register_conditional_i32 inst (λ a b. leb_ℤ a b)
  execute_jump_register_arm _ inst = fail ExecutionError.invalid_instruction

  unfoldable pub execute_jump_register : Instruction → M H (Unit {0})
  execute_jump_register inst = execute_jump_register_arm inst.opcode inst
