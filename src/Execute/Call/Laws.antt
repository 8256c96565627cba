-- ===== src/Execute/Call/Laws.antt =====
-- A call and the return from it.
use native.Mathlib.Nat.{mod-eq_of_lt}
use sbpf.Base.{ℕ, ◌+◌, ◌*◌, ◌%◌, ◌^◌, ◌≤◌, ◌<◌, ◌≡◌, refl, ap, arith, inr}
use sbpf.Base.{List, [], ◌∷◌, length, get_elem?, le→leb, lt→leb-false, some}
use sbpf.Base.Int.{ℤ, pos, ◌+ℤ◌}
use sbpf.Base.Words.{of_word, to_word, i64}
use sbpf.Base.{leb, lt→ltb, leb→le, leb-false→lt, Bool-cases, ◌⊎◌, inl}
use sbpf.Errors.{ok, err, ExecutionError}
use sbpf.Instruction.{Instruction, int}
use sbpf.Vm.Memory.{stack_frame_size}
use sbpf.Vm.State.{
  SbpfVm, CallFrame, Handle, M, ◌>>=◌, fail, get_register, set_register, get_pc, set_pc, push_frame,
  pop_frame, get_call_depth, max_call_depth, get_stack_frame_size, current_instruction,
  set_entrypoint,
}
use sbpf.Execute.Call.{
  enter_frame, enter_checked, leave_frame, execute_exit, call_immediate, call_target,
}
use sbpf.Execute.Call.{execute_call_immediate}
use sbpf.Errors.{SbpfVmError}
use sbpf.Vm.Memory.{
  stack_size, initial_frame_pointer, translate, Memory as Mem, stack_start, heap_start,
}
use sbpf.Base.{◌∙◌}

-- The target of a call, where it lies ahead of the start of the program.
call_target-lands :
    (pc : ℕ) (target : ℤ) (there : ℕ)
    → pos (pc + 1) +ℤ target ≡ pos there
    → pc < 2 ^ 63
    → there < 2 ^ 63
    → call_target pc target ≡ there
unfolding call_target of_word to_word ◌+ℤ◌
call_target-lands pc target there d low high =
    let word : i64 pc ≡ pos pc =
      rw (mod-eq_of_lt {n = pc} {m = 2 ^ 64} (omega arith)) (rw (lt→ltb pc (2 ^ 63) low) refl) in
    let next : pos pc +ℤ pos 1 ≡ pos (pc + 1) = ground arith in
    ap (λ z. to_word 64 (z +ℤ pos 1 +ℤ target)) word
    ∙ ap (λ z. to_word 64 (z +ℤ target)) next
    ∙ ap (λ z. to_word 64 z) d
    ∙ mod-eq_of_lt {n = there} {m = 2 ^ 64} (omega arith)

-- The registers of a machine, one by one.
pub record Registers : Type 0 where
  pub r0 : ℕ
  pub r1 : ℕ
  pub r2 : ℕ
  pub r3 : ℕ
  pub r4 : ℕ
  pub r5 : ℕ
  pub r6 : ℕ
  pub r7 : ℕ
  pub r8 : ℕ
  pub r9 : ℕ
  pub r10 : ℕ

abbrev pub listed : Registers → List ℕ
listed r = r.r0 ∷ r.r1 ∷ r.r2 ∷ r.r3 ∷ r.r4 ∷ r.r5 ∷ r.r6 ∷ r.r7 ∷ r.r8 ∷ r.r9 ∷ r.r10 ∷ []

-- The frame that a call pushes on a machine.
abbrev pub frame_of : {H : Type 0} → SbpfVm H → Registers → CallFrame
frame_of vm r = record {
  return_pc = vm.pc + 1;
  saved_registers = record { r6 = r.r6; r7 = r.r7; r8 = r.r8; r9 = r.r9 };
  saved_frame_pointer = r.r10;
}

-- The machine in the function that is called, at the program counter of the call.
abbrev pub entered : {H : Type 0} → SbpfVm H → Registers → SbpfVm H
entered vm r = record vm {
  registers = listed (record r { r10 = (r.r10 + stack_frame_size) % 2 ^ 64 });
  call_stack = frame_of vm r ∷ vm.call_stack;
}

module _ {H : Type 0} where
  pub enter_frame_lem :
      (vm : SbpfVm H) (r : Registers)
      → vm.registers ≡ listed r
      → enter_frame vm ≡ (entered vm r, ok tt)
  unfolding enter_frame ◌>>=◌ get_register set_register get_pc push_frame get_stack_frame_size
  enter_frame_lem vm r e = rw e refl

  leave_frame_lem :
      (vm : SbpfVm H) (r : Registers) (frame : CallFrame)
      → vm.registers ≡ listed r
      → leave_frame (some frame) vm ≡ (
        record vm {
          registers = listed (record r {
            r6 = frame.saved_registers.r6;
            r7 = frame.saved_registers.r7;
            r8 = frame.saved_registers.r8;
            r9 = frame.saved_registers.r9;
            r10 = frame.saved_frame_pointer;
          });
          pc = frame.return_pc;
        },
        ok tt,
      )
  unfolding leave_frame ◌>>=◌ set_register set_pc
  leave_frame_lem vm r frame e = rw e refl

  enter_checked_room :
      (vm : SbpfVm H) (r : Registers) (jump : M H (Unit {0}))
      → vm.registers ≡ listed r
      → length vm.call_stack < vm.config.max_call_depth
      → enter_checked jump vm ≡ jump (entered vm r)
  unfolding enter_checked ◌>>=◌ get_call_depth max_call_depth
  enter_checked_room vm r jump e h =
      rw (lt→leb-false vm.config.max_call_depth (length vm.call_stack) h)
        (rw (enter_frame_lem vm r e))

  enter_checked_full :
      (vm : SbpfVm H) (jump : M H (Unit {0}))
      → vm.config.max_call_depth ≤ length vm.call_stack
      → enter_checked jump vm
        ≡ (vm, err (ExecutionError.call_depth_exceeded vm.config.max_call_depth))
  unfolding enter_checked ◌>>=◌ get_call_depth max_call_depth fail
  enter_checked_full vm jump h = rw (le→leb vm.config.max_call_depth (length vm.call_stack) h)

  module _ (handle : Handle H) (inst : Instruction) {target : ℤ} where
    pub execute_call_immediate_room :
        (vm : SbpfVm H) (r : Registers)
        → inst.imm ≡ some (inr (int target))
        → vm.registers ≡ listed r
        → length vm.call_stack < vm.config.max_call_depth
        → execute_call_immediate handle inst vm
          ≡ (record (entered vm r) { pc = call_target vm.pc target }, ok tt)
    unfolding execute_call_immediate call_immediate ◌>>=◌ get_pc set_pc
    execute_call_immediate_room vm r i e h = rw i (enter_checked_room vm r _ e h)

    execute_call_immediate_full :
        (vm : SbpfVm H)
        → inst.imm ≡ some (inr (int target))
        → vm.config.max_call_depth ≤ length vm.call_stack
        → execute_call_immediate handle inst vm
          ≡ (vm, err (ExecutionError.call_depth_exceeded vm.config.max_call_depth))
    unfolding execute_call_immediate call_immediate
    execute_call_immediate_full vm i h = rw i (enter_checked_full vm _ h)

    -- A call whose immediate is the distance from the next instruction to another one, where both
    -- positions are below 2 ^ 63. Either fewer frames than configured are on the stack, and the call
    -- succeeds: the machine fetches next the instruction at that other position, has one frame more,
    -- with r6 to r10 and the position behind the call in it, keeps r0 to r9, its memory and its units, and has r10 one frame
    -- size further, in 64 bits. Or it fails with the error of the depth, and the machine is as before.
    pub execute_call_immediate-current_instruction :
        (vm : SbpfVm H) (r : Registers) (there : ℕ)
        → inst.imm ≡ some (inr (int target))
        → vm.registers ≡ listed r
        → pos (vm.pc + 1) +ℤ target ≡ pos there
        → vm.pc < 2 ^ 63
        → there < 2 ^ 63
        → ((length vm.call_stack < vm.config.max_call_depth)
            × ((execute_call_immediate handle inst vm).1 ≡ ok tt)
            × (current_instruction (execute_call_immediate handle inst vm).0
                ≡ current_instruction (set_entrypoint vm there))
            × ((execute_call_immediate handle inst vm).0.call_stack ≡ frame_of vm r ∷ vm.call_stack)
            × ((execute_call_immediate handle inst vm).0.registers
                ≡ listed (record r { r10 = (r.r10 + stack_frame_size) % 2 ^ 64 }))
            × ((execute_call_immediate handle inst vm).0.memory ≡ vm.memory)
            × ((execute_call_immediate handle inst vm).0.compute_meter ≡ vm.compute_meter))
          ⊎ ((vm.config.max_call_depth ≤ length vm.call_stack)
              × (execute_call_immediate handle inst vm
                  ≡ (vm, err (ExecutionError.call_depth_exceeded vm.config.max_call_depth))))
    unfolding current_instruction set_entrypoint
    execute_call_immediate-current_instruction vm r there i e d low high =
        elim (Bool-cases (leb vm.config.max_call_depth (length vm.call_stack))) [
          | inl t ↦ let full = leb→le _ _ t in inr (full, execute_call_immediate_full vm i full)
          | inr f ↦
              let room = leb-false→lt f in
              let called = execute_call_immediate_room vm r i e room in
              let lands = call_target-lands vm.pc target there d low high in
              rw called (rw lands (inl (room, refl, refl, refl, refl, refl, refl)))
        ]

  execute_exit_lem :
      (inst : Instruction) (vm : SbpfVm H) (r : Registers) {frame : CallFrame}
      {frames : List CallFrame}
      → vm.call_stack ≡ frame ∷ frames
      → vm.registers ≡ listed r
      → execute_exit inst vm ≡ leave_frame (some frame) (record vm { call_stack = frames })
  unfolding execute_exit ◌>>=◌ pop_frame
  execute_exit_lem inst vm r c e = rw c refl

  -- A return undoes a call of a function made with fewer frames than configured: whatever the function that was called did to the machine, if it leaves
  -- the call stack as it found it, `exit` gives back r6 to r10, the call stack and the program counter
  -- behind the call, and keeps r0 to r5 and all else.
  pub execute_exit-execute_call_immediate :
      (handle : Handle H) (call exit : Instruction) {target : ℤ} (vm vm' : SbpfVm H)
      (r r' : Registers)
      → call.imm ≡ some (inr (int target))
      → vm.registers ≡ listed r
      → length vm.call_stack < vm.config.max_call_depth
      → vm'.registers ≡ listed r'
      → vm'.call_stack ≡ (execute_call_immediate handle call vm).0.call_stack
      → execute_exit exit vm' ≡ (
        record vm' {
          registers =
              listed (record r' { r6 = r.r6; r7 = r.r7; r8 = r.r8; r9 = r.r9; r10 = r.r10 });
          pc = vm.pc + 1;
          call_stack = vm.call_stack;
        },
        ok tt,
      )
  execute_exit-execute_call_immediate handle call exit vm vm' r r' i e h e' c =
      let pushed = execute_call_immediate_room handle call vm r i e h in
      let stack : vm'.call_stack ≡ frame_of vm r ∷ vm.call_stack =
        c ∙ ap (λ o. (o.0).call_stack) pushed in
      execute_exit_lem exit vm' r' stack e'
      ∙ leave_frame_lem (record vm' { call_stack = vm.call_stack }) r' (frame_of vm r) e'

-- Addresses between the end of the stack and the start of the heap are not mapped.
behind_stack :
    (m : Mem) (a : ℕ)
    → stack_start + length m.stack ≤ a
    → a < heap_start
    → translate m a ≡ err (SbpfVmError.memory_out_of_bounds a 0)
unfolding translate
behind_stack m a lo hi = ground arith

module _ {H : Type 0} (handle : Handle H) (call : Instruction) {target : ℤ} where
  -- The deepest call that is allowed runs outside the stack. On a machine whose stack has one frame
  -- for each unit of the configured depth, which is less than 2 ^ 16, and whose frame pointer counts the frames, a call with one
  -- frame less than configured succeeds and moves the frame pointer by one frame, and no address of
  -- the frame below the new frame pointer is mapped.
  pub deepest_frame_unmapped :
      (vm : SbpfVm H) (r : Registers) (a : ℕ)
      → call.imm ≡ some (inr (int target))
      → vm.registers ≡ listed r
      → vm.config.max_call_depth < 2 ^ 16
      → length vm.memory.stack ≡ stack_size vm.config.max_call_depth
      → length vm.call_stack + 1 ≡ vm.config.max_call_depth
      → r.r10 ≡ initial_frame_pointer + stack_frame_size * length vm.call_stack
      → r.r10 ≤ a
      → a < r.r10 + stack_frame_size
      → ((execute_call_immediate handle call vm).1 ≡ ok tt)
        × (get_elem? (execute_call_immediate handle call vm).0.registers 10
            ≡ some (r.r10 + stack_frame_size))
        × (translate (execute_call_immediate handle call vm).0.memory a
            ≡ err (SbpfVmError.memory_out_of_bounds a 0))
  unfolding stack_size initial_frame_pointer
  deepest_frame_unmapped vm r a i e small sized last fp lo hi =
      let called = execute_call_immediate_room handle call vm r i e (omega arith) in
      (
        rw called refl,
        rw called (ap some (omega arith)),
        rw called (behind_stack vm.memory a (omega arith) (omega arith)),
      )
