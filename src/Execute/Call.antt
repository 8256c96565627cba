-- ===== src/Execute/Call.antt =====
-- crates/common/src/execute/call.rs: calls and returns.
pub mod Laws
use Prim.Native.Nat.{bit_and, bit_or, bit_xor}
use sbpf.Base.{
  ℕ, zero, suc, ◌+◌, ◌-◌, ◌*◌, ◌/◌, ◌%◌, ◌^◌, ◌==◌, ltb, leb, if◌then◌else◌, not, Bool, true, false,
  ◌&&◌, ◌||◌, Option, some, none, ◌⊎◌, inl, inr, String, List, [], ◌∷◌,
}
use sbpf.Base.Int.{ℤ, pos, negsuc, ◌+ℤ◌, ◌-ℤ◌, ◌*ℤ◌, floor_div, ltb_ℤ, leb_ℤ, eqb_ℤ}
use sbpf.Base.Words.{u8, u16, u32, u64, i16, i32, i64, wrap_int, to_le_bytes, from_le_bytes}
use sbpf.Errors.{Result, ok, err, ExecutionError}
use sbpf.Opcode.{Opcode}
use sbpf.Instruction.{Instruction, Register, Number, int}
use sbpf.Vm.State.{
  M, Handle, SavedRegisters, CallFrame, ◌>>=◌, ◌>>◌, pure, fail, lift, get_register, set_register,
  get_pc, set_pc, advance_pc, read, write, get_call_depth, max_call_depth, push_frame, pop_frame,
  halt, get_stack_frame_size, handle_syscall,
}
use sbpf.Execute.Helpers.{get_dst, get_src, get_imm_i64, get_imm_u64, get_offset, calculate_address}

-- `((pc as i64) + 1 + target) as usize`.
unfoldable pub call_target : ℕ → ℤ → ℕ
call_target pc target = u64 (i64 pc +ℤ pos 1 +ℤ target)

module _ {H : Type 0} where
  -- The frame that both kinds of call push: the registers r6 to r9, the frame pointer, which moves
  -- up by one frame, and the next program counter.
  unfoldable pub enter_frame : M H (Unit {0})
  enter_frame = do
    r6 ← get_register 6
    r7 ← get_register 7
    r8 ← get_register 8
    r9 ← get_register 9
    saved_frame_pointer ← get_register 10
    pc ← get_pc
    push_frame (pc + 1) (record { r6 = r6; r7 = r7; r8 = r8; r9 = r9 }) saved_frame_pointer
    size ← get_stack_frame_size
    set_register 10 ((saved_frame_pointer + size) % 2 ^ 64)

  -- The check of the depth before a frame is pushed, and then the jump to the target.
  unfoldable pub enter_checked : M H (Unit {0}) → M H (Unit {0})
  enter_checked jump = do
    depth ← get_call_depth
    limit ← max_call_depth
    if leb limit depth
        then fail (ExecutionError.call_depth_exceeded limit)
        else (do enter_frame; jump)

  unfoldable pub call_immediate : Handle H → Option (String ⊎ Number) → M H (Unit {0})
  call_immediate handle (some (inl syscall_name)) = do
    result ← handle_syscall handle syscall_name
    set_register 0 result
    advance_pc
  call_immediate handle (some (inr (int target))) =
      enter_checked (do pc ← get_pc; set_pc (call_target pc target))
  call_immediate handle _ = fail ExecutionError.invalid_operand

  unfoldable pub execute_call_immediate : Handle H → Instruction → M H (Unit {0})
  execute_call_immediate handle inst = call_immediate handle inst.imm

  unfoldable pub execute_call_register : Instruction → M H (Unit {0})
  execute_call_register inst = do
    reg_num ← lift (get_dst inst)
    if leb 10 reg_num
        then fail ExecutionError.invalid_operand
        else (do target ← get_register reg_num; enter_checked (set_pc target))

  unfoldable pub leave_frame : Option CallFrame → M H (Unit {0})
  leave_frame (some frame) = do
    set_register 6 frame.saved_registers.r6
    set_register 7 frame.saved_registers.r7
    set_register 8 frame.saved_registers.r8
    set_register 9 frame.saved_registers.r9
    set_register 10 frame.saved_frame_pointer
    set_pc frame.return_pc
  leave_frame none = do exit_code ← get_register 0; halt exit_code

  unfoldable pub execute_exit : Instruction → M H (Unit {0})
  execute_exit inst = do frame ← pop_frame; leave_frame frame
