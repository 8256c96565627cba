-- ===== src/Vm/Step/Laws.antt =====
-- What every step and every run keep.
use sbpf.Base.{ℕ, zero, suc, ◌≡◌, refl, String, not, Option}
use sbpf.Base.{if-intro}
use sbpf.Errors.{Result, ok, err, panic, SbpfVmError}
use sbpf.Opcode.{OperationType}
use sbpf.Opcode.Tables.{type_of}
use sbpf.Instruction.{Instruction}
use sbpf.Vm.Compute.{ComputeMeter, consume}
use sbpf.Vm.Compute.Laws.{consume-within}
use sbpf.Vm.State.{SbpfVm, Handle, is_pc_valid, current_instruction}
use sbpf.Vm.State.Laws.{IsValid}
use sbpf.Vm.State.Safe.{Safe, Any, IsHandler}
use sbpf.Vm.Step.{Outcome, execute_instruction, execute_fetched, fetch_and_execute, execute_metered}
use sbpf.Vm.Step.{next_round, step, run_loop, run}
use sbpf.InstHandler.{handler_of}
use sbpf.InstHandler.Laws.{lookup-opcode_to_handler}
use sbpf.Execute.Safety.Dispatch.{
  execute_load_immediate-Safe, execute_load_memory-Safe, execute_store_immediate-Safe,
  execute_store_register-Safe, execute_binary_immediate-Safe, execute_binary_register-Safe,
  execute_unary-Safe,
}
use sbpf.Execute.Safety.Endian.{execute_endian-Safe}
use sbpf.Execute.Safety.Jump.{
  execute_jump-Safe, execute_jump_immediate-Safe, execute_jump_register-Safe,
}
use sbpf.Execute.Safety.Call.{
  execute_call_immediate-Safe, execute_call_register-Safe, execute_exit-Safe,
}

module _ {H : Type 0} (get : ℕ → Option String) (handle : Handle H) (safe : IsHandler handle) where
  handler_of-Safe :
      (t : OperationType) (inst : Instruction)
      → Safe {H = H} zero zero Any ((handler_of get handle t).execute inst)
  unfolding handler_of
  handler_of-Safe OperationType.load_immediate inst = execute_load_immediate-Safe inst
  handler_of-Safe OperationType.load_memory inst = execute_load_memory-Safe inst
  handler_of-Safe OperationType.store_immediate inst = execute_store_immediate-Safe inst
  handler_of-Safe OperationType.store_register inst = execute_store_register-Safe inst
  handler_of-Safe OperationType.binary_immediate inst = execute_binary_immediate-Safe inst
  handler_of-Safe OperationType.binary_register inst = execute_binary_register-Safe inst
  handler_of-Safe OperationType.unary inst = execute_unary-Safe inst
  handler_of-Safe OperationType.endian inst = execute_endian-Safe inst
  handler_of-Safe OperationType.jump inst = execute_jump-Safe inst
  handler_of-Safe OperationType.jump_immediate inst = execute_jump_immediate-Safe inst
  handler_of-Safe OperationType.jump_register inst = execute_jump_register-Safe inst
  handler_of-Safe OperationType.jump32_immediate inst = execute_jump_immediate-Safe inst
  handler_of-Safe OperationType.jump32_register inst = execute_jump_register-Safe inst
  handler_of-Safe OperationType.call_immediate inst = execute_call_immediate-Safe handle safe inst
  handler_of-Safe OperationType.call_register inst = execute_call_register-Safe inst
  handler_of-Safe OperationType.exit inst = execute_exit-Safe inst

  execute_instruction-IsValid :
      (inst : Instruction) (vm : SbpfVm H)
      → IsValid 0 vm
      → IsValid 0 (execute_instruction get handle inst vm).0
  unfolding execute_instruction
  execute_instruction-IsValid inst vm v =
      rw (lookup-opcode_to_handler get handle inst.opcode)
        ((handler_of-Safe (type_of inst.opcode) inst).kept vm v).0

  execute_fetched-IsValid :
      (vm : SbpfVm H) (r : Result SbpfVmError Instruction)
      → IsValid 0 vm
      → IsValid 0 (execute_fetched get handle vm r).0
  execute_fetched-IsValid vm (ok inst) v = execute_instruction-IsValid inst vm v
  execute_fetched-IsValid vm (err e) v = v
  execute_fetched-IsValid vm panic v = v

  execute_metered-IsValid :
      (vm : SbpfVm H) (r : Result SbpfVmError ComputeMeter)
      → consume vm.compute_meter 1 ≡ r
      → IsValid 0 vm
      → IsValid 0 (execute_metered get handle vm r).0
  unfolding fetch_and_execute
  execute_metered-IsValid vm (ok meter) e v =
      let metered : IsValid 0 (record vm { compute_meter = meter }) = record {
        registers = v.registers;
        words = v.words;
        memory = v.memory;
        depth = v.depth;
        frames = v.frames;
        meter = (consume-within vm.compute_meter meter 1 e).0;
      } in
      execute_fetched-IsValid _ (current_instruction (record vm { compute_meter = meter })) metered
  execute_metered-IsValid vm (err x) e v = v
  execute_metered-IsValid vm panic e v = v

  abbrev IsKept : Outcome get handle → Type 0
  IsKept o = IsValid 0 o.0

  -- A step, also one that fails, leaves a machine with eleven registers of 64 bits, memory that
  -- holds bytes, no more frames than configured, and the meter within its limit, if it began with
  -- one. The syscall handler is assumed to keep the same of memory and meter and to return a `u64`.
  pub step-IsValid : (vm : SbpfVm H) → IsValid 0 vm → IsValid 0 (step get handle vm).0
  unfolding step
  step-IsValid vm v = if-intro IsKept vm.halted v (
      if-intro IsKept (not (is_pc_valid vm)) v
        (execute_metered-IsValid vm (consume vm.compute_meter 1) refl v))

  next_round-IsValid :
      (rounds : SbpfVm H → Outcome get handle) (o : Outcome get handle)
      → ((vm : SbpfVm H) → IsValid 0 vm → IsValid 0 (rounds vm).0)
      → IsValid 0 o.0
      → IsValid 0 (next_round get handle rounds o).0
  next_round-IsValid rounds (vm, ok _) h v = h vm v
  next_round-IsValid rounds (vm, err e) h v = v
  next_round-IsValid rounds (vm, panic) h v = v

  run_loop-IsValid :
      (left : ℕ) (vm : SbpfVm H) → IsValid 0 vm → IsValid 0 (run_loop get handle left vm).0
  unfolding run_loop
  run_loop-IsValid zero vm v = if-intro IsKept vm.halted v v
  run_loop-IsValid (suc left) vm v = if-intro IsKept vm.halted v (
      next_round-IsValid (run_loop get handle left) (step get handle vm) (run_loop-IsValid left)
        (step-IsValid vm v))

  -- A run, however it ends, leaves a machine with eleven registers of 64 bits, memory that holds
  -- bytes, no more frames than configured, and the meter within its limit, if it began with one,
  -- under the same assumption on the syscall handler as a step.
  pub run-IsValid : (vm : SbpfVm H) → IsValid 0 vm → IsValid 0 (run get handle vm).0
  unfolding run
  run-IsValid vm v = run_loop-IsValid vm.config.compute_unit_limit vm v
