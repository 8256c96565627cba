-- ===== src/Tests/Machine.antt =====
-- The theorems on the machine at a short program.
use sbpf.Base.{ℕ, ◌+◌, ◌≤◌, ◌≡◌, refl, ap, arith, true, ◌↔◌}
use sbpf.Base.{Option, some, none, inr, String, List, [], ◌∷◌, length, replicate}
use sbpf.Base.Int.{pos}
use sbpf.Errors.{ok, ok-injective}
use sbpf.Opcode.{Opcode}
use sbpf.Opcode.Tables.{lookup, type_of}
use sbpf.Instruction.{Instruction, Register, int}
use sbpf.Vm.Compute.{ComputeMeter, consume, get_remaining}
use sbpf.Vm.Compute.Laws.{consume_iff}
use sbpf.Vm.State.{
  is_pc_valid, current_instruction, SbpfVm, SbpfVmConfig, Handle, new_with_config, reset,
  default_config,
}
use sbpf.Vm.State.Laws.{IsValid}
use sbpf.Vm.State.Safe.{IsHandler}
use sbpf.Vm.State.Start.{new_with_config-IsValid, new_with_config-read_bytes}
use sbpf.Vm.Step.Restart.{rebuilt_on_stack, run-reset}
use sbpf.Vm.Memory.{read_bytes, new as new_memory}
use sbpf.Base.{◌-◌, get_elem?, take, drop}
use sbpf.Vm.Step.{step, run, run_loop, fetch_and_execute, execute_instruction}
use sbpf.Vm.Step.Laws.{step-IsValid, run-IsValid}
use sbpf.Vm.Step.Run.{run_halted}
use sbpf.Opcode.{discriminant, opcode_eq}
use sbpf.Opcode.Tables.{register_group}
use sbpf.Base.Words.{to_word}
use sbpf.Vm.Memory.{initial_frame_pointer}
use sbpf.Vm.Compute.{new as new_meter}
use sbpf.Execute.Dispatch.{execute_binary_immediate, execute_binary_immediate_arm}
use sbpf.Execute.Alu64.{execute_alu64_imm, alu64_imm_arm}
use sbpf.Execute.Call.{execute_exit, leave_frame}
use sbpf.Execute.Helpers.{get_dst, get_imm_i64}
use sbpf.Vm.State.{◌>>=◌, lift, fail, pop_frame, get_register, set_register, advance_pc, halt}
use sbpf.InstHandler.{opcode_to_handler, handler_of}
use sbpf.InstHandler.Laws.{lookup-opcode_to_handler}

-- A handler whose syscalls do nothing and return 7.
abbrev pub quiet : Handle (Unit {0})
quiet h name registers m c = (h, m, c, ok 7)

pub quiet-IsHandler : IsHandler quiet
quiet-IsHandler = record {
  memory = λ h name registers m c b. b;
  meter = λ h name registers m c b. b;
  value =
      λ h name registers m c n e. let same : 7 ≡ n = ok-injective e in rw (← same) (omega arith);
}

-- The name of each syscall hash.
abbrev pub names : ℕ → Option String
names hash = some "sol_log_"

abbrev pub plain : Opcode → Instruction
plain opcode = record {
  opcode = opcode;
  dst = none;
  src = none;
  off = none;
  imm = none;
  span = (0, 8);
}

abbrev pub register : ℕ → Option Register
register n = some (record { n = n })

-- mov64 r0, 41; add64 r0, 1; exit
abbrev pub answer : List Instruction
answer =
    record (plain Opcode.mov64_imm) { dst = register 0; imm = some (inr (int (pos 41))) }
    ∷ record (plain Opcode.add64_imm) { dst = register 0; imm = some (inr (int (pos 1))) }
    ∷ plain Opcode.exit
    ∷ []

-- A machine of one stack frame and few units.
abbrev pub small_config : SbpfVmConfig
small_config = record { max_call_depth = 1; compute_unit_limit = 10; heap_size = 8 }

abbrev pub machine : SbpfVm (Unit {0})
machine = new_with_config answer (1 ∷ 2 ∷ 3 ∷ []) [] tt small_config

machine-IsValid : IsValid 0 machine
machine-IsValid =
    new_with_config-IsValid answer (1 ∷ 2 ∷ 3 ∷ []) [] tt small_config (omega arith) tt

new_with_config-read_bytes_example :
    (vm : SbpfVm (Unit {0})) × (r1 : ℕ) × (r10 : ℕ) × (new_with_config
        (plain Opcode.exit ∷ [])
        (7 ∷ 8 ∷ 9 ∷ [])
        (5 ∷ 6 ∷ [])
        tt
        default_config
      ≡ vm)
    × IsValid 0 vm
    × (current_instruction vm ≡ ok (plain Opcode.exit))
    × (vm.call_stack ≡ [])
    × (get_remaining vm.compute_meter ≡ default_config.compute_unit_limit)
    × (get_elem? vm.registers 1 ≡ some r1)
    × (get_elem? vm.registers 10 ≡ some r10)
    × (read_bytes vm.memory (r1 + 1) 2 ≡ ok (take 2 (drop 1 (7 ∷ 8 ∷ 9 ∷ []))))
    × (read_bytes vm.memory 1 1 ≡ ok (take 1 (drop 1 (5 ∷ 6 ∷ []))))
    × (read_bytes vm.memory (r10 - 4096) 4096 ≡ ok (replicate 4096 0))
new_with_config-read_bytes_example =
    new_with_config-read_bytes (plain Opcode.exit) [] (7 ∷ 8 ∷ 9 ∷ []) (5 ∷ 6 ∷ []) tt
      default_config 1 2 1 1 4096 (omega arith) (omega arith) (omega arith) (omega arith)
      (omega arith) (omega arith) (omega arith) (omega arith) (omega arith) (omega arith)

step-IsValid_example : IsValid 0 (step names quiet machine).0
step-IsValid_example = step-IsValid names quiet quiet-IsHandler machine machine-IsValid

run-IsValid_example : IsValid 0 (run names quiet machine).0
run-IsValid_example = run-IsValid names quiet quiet-IsHandler machine machine-IsValid

lookup-opcode_to_handler_example :
    lookup (opcode_to_handler names quiet) Opcode.callx
    ≡ some (handler_of names quiet (type_of Opcode.callx))
lookup-opcode_to_handler_example = lookup-opcode_to_handler names quiet Opcode.callx

abbrev meter : ComputeMeter
meter = record { consumed = 3; limit = 10 }

abbrev spent : ComputeMeter
spent = record { consumed = 10; limit = 10 }

consume_iff_example : (consume meter 7 ≡ ok spent) ↔ (
    (7 ≤ get_remaining meter) × (spent.consumed ≡ meter.consumed + 7) × (spent.limit ≡ meter.limit))
consume_iff_example = consume_iff meter spent 7 (omega arith) (omega arith)

-- The program returns 42.
answer_run :
    ((run names quiet machine).1 ≡ ok tt) × ((run names quiet machine).0.exit_code ≡ some 42)
unfolding run run_loop step is_pc_valid consume fetch_and_execute current_instruction
    execute_instruction lookup opcode_to_handler register_group execute_binary_immediate
    execute_binary_immediate_arm execute_alu64_imm alu64_imm_arm execute_exit leave_frame pop_frame
    ◌>>=◌ lift fail get_register set_register advance_pc halt get_dst get_imm_i64 new_with_config
    initial_frame_pointer to_word opcode_eq new_meter discriminant
answer_run = (refl, refl)

-- The machine when the program is over.
abbrev over : SbpfVm (Unit {0})
over = (run names quiet machine).0

over_sizes :
    (length over.memory.heap ≡ over.config.heap_size)
    × (over.compute_meter.limit ≡ over.config.compute_unit_limit)
unfolding run run_loop step is_pc_valid consume fetch_and_execute current_instruction
    execute_instruction lookup opcode_to_handler register_group execute_binary_immediate
    execute_binary_immediate_arm execute_alu64_imm alu64_imm_arm execute_exit leave_frame pop_frame
    ◌>>=◌ lift fail get_register set_register advance_pc halt get_dst get_imm_i64 new_with_config
    initial_frame_pointer to_word opcode_eq new_meter discriminant new_memory
over_sizes = (refl, refl)

run-reset_example :
    IsValid 0 (reset over)
    × (run names quiet (reset over) ≡ run names quiet (rebuilt_on_stack over))
run-reset_example =
    run-reset names quiet over (run-IsValid names quiet quiet-IsHandler machine machine-IsValid)
      over_sizes.0 over_sizes.1

run_halted_example : (run names quiet machine).0.halted ≡ true
run_halted_example =
    run_halted names quiet machine (run names quiet machine).0
      (ap (λ r. ((run names quiet machine).0, r)) answer_run.0)
