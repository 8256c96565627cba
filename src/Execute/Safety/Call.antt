-- ===== src/Execute/Safety/Call.antt =====
-- Calls and returns keep the machine valid, and calls keep within the configured depth.
use sbpf.Base.{
  ℕ, zero, suc, ◌+◌, ◌≡◌, arith, false, leb, Option, some, none, inl, inr, ◌⊎◌, String, Bool-cases,
  length,
}
use sbpf.Instruction.{Instruction, Number, int}
use sbpf.Vm.State.{M, Handle, ◌>>=◌, SbpfVm, CallFrame}
use sbpf.Vm.State.Laws.{IsValid}
use sbpf.Vm.State.Safe.{
  Safe, Any, IsPopped, Safe-bind, Safe-bind_to, Safe-fail, Safe-lift_any, Safe-if,
  Safe-get_register, Safe-set_register, Safe-get_pc, Safe-set_pc, Safe-advance_pc, Safe-push_frame,
  Safe-pop_frame, Safe-halt, Safe-get_stack_frame_size,
}
use sbpf.Base.{leb-false→lt}
use sbpf.Vm.State.{get_call_depth, max_call_depth, ◌>>◌, set_pc}
use sbpf.Vm.State.Safe.{IsHandler, Safe-handle_syscall}
use sbpf.Execute.Call.{
  call_target, enter_frame, enter_checked, leave_frame, call_immediate, execute_call_immediate,
  execute_call_register, execute_exit,
}

module _ {H : Type 0} {j : ℕ} where
  enter_frame-Safe : Safe {H = H} (suc j) j Any enter_frame
  unfolding enter_frame
  enter_frame-Safe = reading (Safe-get_register 6) λ r6 h6. reading (Safe-get_register 7) λ r7 h7.
      reading (Safe-get_register 8) λ r8 h8. reading (Safe-get_register 9) λ r9 h9.
        reading (Safe-get_register 10) λ fp h10. reading Safe-get_pc λ pc _.
          Safe-bind_to (suc j) j j (omega arith)
            (Safe-push_frame (pc + 1) (record { r6 = r6; r7 = r7; r8 = r8; r9 = r9 }) fp
              (record { r6 = h6; r7 = h7; r8 = h8; r9 = h9; frame_pointer = h10 }))
            λ _ _.
              Safe-bind Safe-get_stack_frame_size λ size _. Safe-set_register 10 _ (omega arith)
    where
      reading :
          {A B : Type 0} {Q : A → Type 0} {R : B → Type 0} {m : M H A} {f : A → M H B}
          → Safe (suc j) (suc j) Q m
          → ((a : A) → Q a → Safe (suc j) j R (f a))
          → Safe (suc j) j R (m >>= f)
      reading = Safe-bind_to (suc j) (suc j) j (omega arith)

  entered :
      (jump : M H (Unit {0}))
      → Safe {H = H} j j Any jump
      → Safe {H = H} (suc j) j Any (enter_frame >> jump)
  entered jump h = Safe-bind_to (suc j) j j (omega arith) enter_frame-Safe (λ _ _. h)

  leave_frame-Safe : (o : Option CallFrame) → IsPopped o → Safe {H = H} j j Any (leave_frame o)
  unfolding leave_frame
  leave_frame-Safe (some frame) h = Safe-bind (Safe-set_register 6 _ h.r6) λ _ _.
      Safe-bind (Safe-set_register 7 _ h.r7) λ _ _. Safe-bind (Safe-set_register 8 _ h.r8) λ _ _.
        Safe-bind (Safe-set_register 9 _ h.r9) λ _ _.
          Safe-bind (Safe-set_register 10 _ h.frame_pointer) λ _ _. Safe-set_pc frame.return_pc
  leave_frame-Safe none h = Safe-bind (Safe-get_register 0) λ code _. Safe-halt code

  pub execute_exit-Safe : (inst : Instruction) → Safe {H = H} j j Any (execute_exit inst)
  unfolding execute_exit
  execute_exit-Safe inst = Safe-bind Safe-pop_frame λ frame h. leave_frame-Safe frame h

module _ {H : Type 0} where
  with_room :
      (vm : SbpfVm H)
      → IsValid zero vm
      → leb vm.config.max_call_depth (length vm.call_stack) ≡ false
      → IsValid 1 vm
  with_room vm v free = record {
    registers = v.registers;
    words = v.words;
    memory = v.memory;
    depth = let d = leb-false→lt free in omega arith;
    frames = v.frames;
    meter = v.meter;
  }

  -- The check of the call depth leaves room for the frame that is pushed.
  enter_checked-Safe :
      (jump : M H (Unit {0}))
      → Safe {H = H} zero zero Any jump
      → Safe {H = H} zero zero Any (enter_checked jump)
  unfolding enter_checked get_call_depth max_call_depth ◌>>=◌
  enter_checked-Safe jump h = record {
    kept = λ vm v. elim (Bool-cases (leb vm.config.max_call_depth (length vm.call_stack))) [
      | inl full ↦ rw full ((Safe-fail _).kept vm v)
      | inr free ↦ rw free ((entered jump h).kept vm (with_room vm v free))
    ];
  }

  pub execute_call_register-Safe :
      (inst : Instruction) → Safe {H = H} zero zero Any (execute_call_register inst)
  unfolding execute_call_register
  execute_call_register-Safe inst = Safe-bind (Safe-lift_any _) λ reg_num _.
      Safe-if _ (Safe-fail _) (
        Safe-bind (Safe-get_register reg_num)
          λ target _. enter_checked-Safe (set_pc target) (Safe-set_pc target))

module _ {H : Type 0} (handle : Handle H) (safe : IsHandler handle) where
  call_immediate-Safe :
      (imm : Option (String ⊎ Number)) → Safe {H = H} zero zero Any (call_immediate handle imm)
  unfolding call_immediate
  call_immediate-Safe (some (inl name)) =
      Safe-bind (Safe-handle_syscall handle safe name)
        λ result h. Safe-bind (Safe-set_register 0 result h) λ _ _. Safe-advance_pc
  call_immediate-Safe (some (inr (int target))) =
      enter_checked-Safe _ (Safe-bind Safe-get_pc λ pc _. Safe-set_pc (call_target pc target))
  call_immediate-Safe _ = Safe-fail _

  pub execute_call_immediate-Safe :
      (inst : Instruction) → Safe {H = H} zero zero Any (execute_call_immediate handle inst)
  unfolding execute_call_immediate
  execute_call_immediate-Safe inst = call_immediate-Safe inst.imm
