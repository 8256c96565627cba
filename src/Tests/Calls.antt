-- ===== src/Tests/Calls.antt =====
-- The theorems on calls at a machine with two frames of stack.
use sbpf.Base.{◌+◌, ◌≤◌, ◌<◌, ◌^◌, ◌≡◌, refl, ap, sym, ◌*◌, arith, some, inr}
use sbpf.Base.{length, get_elem?, ◌⊎◌, ◌∷◌, ◌%◌}
use sbpf.Base.Int.{pos, negsuc, ◌+ℤ◌}
use sbpf.Errors.{ok, err, ExecutionError, SbpfVmError}
use sbpf.Opcode.{Opcode}
use sbpf.Instruction.{Instruction, int}
use sbpf.Vm.Memory.{initial_frame_pointer, translate, stack_size, new as new_memory}
use sbpf.Vm.State.{SbpfVm, new_with_config, current_instruction, set_entrypoint}
use sbpf.Execute.Call.{execute_call_immediate, execute_exit, call_target}
use sbpf.Execute.Call.Laws.{
  Registers, entered, listed, execute_call_immediate_room, frame_of,
  execute_call_immediate-current_instruction, execute_exit-execute_call_immediate,
  deepest_frame_unmapped,
}
use sbpf.Tests.Machine.{quiet, plain, machine}

-- call 2
abbrev call : Instruction
call = record (plain Opcode.call) { imm = some (inr (int (pos 2))) }

-- call -1, which goes back to itself
abbrev back : Instruction
back = record (plain Opcode.call) { imm = some (inr (int (negsuc 0))) }

abbrev start : Registers
start = record {
  r0 = 0;
  r1 = 0x400000000;
  r2 = 0;
  r3 = 0;
  r4 = 0;
  r5 = 0;
  r6 = 0;
  r7 = 0;
  r8 = 0;
  r9 = 0;
  r10 = initial_frame_pointer;
}

registers-start : machine.registers ≡ listed start
unfolding new_with_config
registers-start = refl

distance : pos (machine.pc + 1) +ℤ negsuc 0 ≡ pos 0
unfolding new_with_config ◌+ℤ◌
distance = refl

start_pc : (machine.pc < 2 ^ 63) × (0 < 2 ^ 63)
unfolding new_with_config
start_pc = (omega arith, omega arith)

machine_room : length machine.call_stack < machine.config.max_call_depth
unfolding new_with_config
machine_room = omega arith

execute_call_immediate-current_instruction_example :
    ((length machine.call_stack < machine.config.max_call_depth)
      × ((execute_call_immediate quiet back machine).1 ≡ ok tt)
      × (current_instruction (execute_call_immediate quiet back machine).0
          ≡ current_instruction (set_entrypoint machine 0))
      × ((execute_call_immediate quiet back machine).0.call_stack
          ≡ frame_of machine start ∷ machine.call_stack)
      × ((execute_call_immediate quiet back machine).0.registers
          ≡ listed (record start { r10 = (start.r10 + 4096) % 2 ^ 64 }))
      × ((execute_call_immediate quiet back machine).0.memory ≡ machine.memory)
      × ((execute_call_immediate quiet back machine).0.compute_meter ≡ machine.compute_meter))
    ⊎ ((machine.config.max_call_depth ≤ length machine.call_stack)
        × (execute_call_immediate quiet back machine
            ≡ (machine, err (ExecutionError.call_depth_exceeded machine.config.max_call_depth))))
execute_call_immediate-current_instruction_example =
    execute_call_immediate-current_instruction quiet back machine start 0 refl registers-start
      distance (start_pc.0) start_pc.1

-- The machine in the function.
abbrev deep : SbpfVm (Unit {0})
deep = record (entered machine start) { pc = call_target machine.pc (pos 2) }

-- The registers when the function returns 5, with r6 clobbered.
abbrev clobbered : Registers
clobbered = record start { r0 = 5; r6 = 99; r10 = 0 }

abbrev returning : SbpfVm (Unit {0})
returning = record deep { registers = listed clobbered }

execute_exit-execute_call_immediate_example : execute_exit (plain Opcode.exit) returning ≡ (
  record returning {
    registers = listed (record clobbered {
      r6 = start.r6;
      r7 = start.r7;
      r8 = start.r8;
      r9 = start.r9;
      r10 = start.r10;
    });
    pc = machine.pc + 1;
    call_stack = machine.call_stack;
  },
  ok tt,
)
execute_exit-execute_call_immediate_example =
    execute_exit-execute_call_immediate quiet call (plain Opcode.exit) machine returning start
      clobbered refl registers-start machine_room refl
      (ap (λ o. (o.0).call_stack)
        (sym
          (execute_call_immediate_room quiet call machine start refl registers-start machine_room)))

machine_stack : length machine.memory.stack ≡ stack_size machine.config.max_call_depth
unfolding new_with_config new_memory stack_size
machine_stack = refl

start_bounds :
    (machine.config.max_call_depth < 2 ^ 16)
    × (length machine.call_stack + 1 ≡ machine.config.max_call_depth)
    × (start.r10 ≡ initial_frame_pointer + 4096 * length machine.call_stack)
    × (start.r10 ≤ 0x200001000)
    × (0x200001000 < start.r10 + 4096)
unfolding new_with_config initial_frame_pointer
start_bounds = (omega arith, refl, refl, omega arith, omega arith)

deepest_frame_unmapped_example :
    ((execute_call_immediate quiet call machine).1 ≡ ok tt)
    × (get_elem? (execute_call_immediate quiet call machine).0.registers 10
        ≡ some (start.r10 + 4096))
    × (translate (execute_call_immediate quiet call machine).0.memory 0x200001000
        ≡ err (SbpfVmError.memory_out_of_bounds 0x200001000 0))
deepest_frame_unmapped_example =
    deepest_frame_unmapped quiet call machine start 0x200001000 refl registers-start start_bounds.0
      machine_stack start_bounds.1 start_bounds.2 start_bounds.3 start_bounds.4
