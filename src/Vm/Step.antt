-- ===== src/Vm/Step.antt =====
-- crates/vm/src/vm.rs: one step of the machine, and a run.
pub mod Laws
pub mod Run
pub mod Restart
pub mod Panics
use sbpf.Base.{ℕ, zero, suc, ◌+◌, String, Bool, true, false, not, Option, some, none, if◌then◌else◌}
use sbpf.Errors.{Result, ok, err, panic, ExecutionError, SbpfVmError, from_execution_error}
use sbpf.Opcode.Tables.{lookup}
use sbpf.Instruction.{Instruction}
use sbpf.Vm.Compute.{ComputeMeter, consume}
use sbpf.Vm.State.{SbpfVm, Handle, is_pc_valid, current_instruction}
use sbpf.InstHandler.{InstructionHandler, opcode_to_handler}

module _ {H : Type 0} (get : ℕ → Option String) (handle : Handle H) where
  -- The state and the result of a step; after an error the state is what the step left.
  abbrev pub Outcome : Type 0
  Outcome = SbpfVm H × Result SbpfVmError (Unit {0})

  -- `?` on an error of an instruction converts it.
  abbrev converted : Result ExecutionError (Unit {0}) → Result SbpfVmError (Unit {0})
  converted (ok u) = ok u
  converted (err e) = err (from_execution_error e)
  converted panic = panic

  abbrev run_handler : Option (InstructionHandler H) → Instruction → SbpfVm H → Outcome
  run_handler none inst vm = (vm, err SbpfVmError.invalid_instruction)
  run_handler (some h) inst vm = let (vm', r) = h.execute inst vm in (vm', converted r)

  unfoldable pub execute_instruction : Instruction → SbpfVm H → Outcome
  execute_instruction inst vm =
      run_handler (lookup (opcode_to_handler get handle) inst.opcode) inst vm

  -- The end of a step, after the unit is paid for.
  abbrev execute_fetched : SbpfVm H → Result SbpfVmError Instruction → Outcome
  execute_fetched vm (ok inst) = execute_instruction inst vm
  execute_fetched vm (err e) = (vm, err e)
  execute_fetched vm panic = (vm, panic)

  unfoldable pub fetch_and_execute : SbpfVm H → Outcome
  fetch_and_execute vm = execute_fetched vm (current_instruction vm)

  abbrev execute_metered : SbpfVm H → Result SbpfVmError ComputeMeter → Outcome
  execute_metered vm (ok meter) = fetch_and_execute (record vm { compute_meter = meter })
  execute_metered vm (err e) = (vm, err e)
  execute_metered vm panic = (vm, panic)

  unfoldable pub step : SbpfVm H → Outcome
  step vm =
      if vm.halted
      then (vm, ok tt)
      else if not (is_pc_valid vm)
      then (vm, err (SbpfVmError.pc_out_of_bounds vm.pc))
      else execute_metered vm (consume vm.compute_meter 1)

  -- The loop of `run` with `left` rounds before `steps` reaches the limit.
  -- `?` on the result of a step, before the next round.
  abbrev next_round : (SbpfVm H → Outcome) → Outcome → Outcome
  next_round rounds (vm, ok _) = rounds vm
  next_round rounds (vm, err e) = (vm, err e)
  next_round rounds (vm, panic) = (vm, panic)

  unfoldable pub run_loop : ℕ → SbpfVm H → Outcome
  run_loop zero vm =
      if vm.halted
      then (vm, ok tt)
      else (vm, err (SbpfVmError.execution_limit_reached vm.config.compute_unit_limit))
  run_loop (suc left) vm =
      let rest = next_round (run_loop left) (step vm) in if vm.halted then (vm, ok tt) else rest

  unfoldable pub run : SbpfVm H → Outcome
  run vm = run_loop vm.config.compute_unit_limit vm
