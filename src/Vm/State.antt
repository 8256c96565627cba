-- ===== src/Vm/State.antt =====
-- crates/vm/src/vm.rs: the state of the machine and its side of the trait `Vm`
-- (crates/common/src/execute/mod.rs), through which instructions act on it.
pub mod Laws
pub mod Safe
pub mod Start
use sbpf.Base.{ℕ, ◌+◌, String, Bool, true, false, Option, some, none, List, [], ◌∷◌, ◌++◌}
use sbpf.Base.{length, get_elem?, set, replicate, ltb, if◌then◌else◌}
use sbpf.Errors.{Result, ok, err, panic, ExecutionError, SbpfVmError}
use sbpf.Instruction.{Instruction}
use sbpf.Vm.Compute.{ComputeMeter, new as new_meter, reset as reset_meter}
use sbpf.Vm.Memory.{
  Memory, input_start, stack_frame_size, default_heap_size, stack_size, reset_heap,
}
use sbpf.Vm.Memory.{initial_frame_pointer, new as new_memory}

pub record SbpfVmConfig : Type 0 where
  pub max_call_depth : ℕ
  pub compute_unit_limit : ℕ
  pub heap_size : ℕ

-- `impl Default for SbpfVmConfig`.
abbrev pub default_config : SbpfVmConfig
default_config = record {
  max_call_depth = 64;
  compute_unit_limit = 1_400_000;
  heap_size = default_heap_size;
}

-- The callee-saved registers r6 to r9.
pub record SavedRegisters : Type 0 where
  pub r6 : ℕ
  pub r7 : ℕ
  pub r8 : ℕ
  pub r9 : ℕ

pub record CallFrame : Type 0 where
  pub return_pc : ℕ
  pub saved_registers : SavedRegisters
  pub saved_frame_pointer : ℕ

-- `H` is the type of the syscall handler. The call stack is a list whose head is its top.
pub record SbpfVm (H : Type 0) : Type 0 where
  pub config : SbpfVmConfig
  pub registers : List ℕ
  pub pc : ℕ
  pub call_stack : List CallFrame
  pub memory : Memory
  pub program : List Instruction
  pub halted : Bool
  pub exit_code : Option ℕ
  pub compute_meter : ComputeMeter
  pub syscall_handler : H

-- `SyscallHandler::handle`: the new handler, memory and meter, and the result. The trait leaves it
-- to its implementations. An error is given by its text, which is all that the machine keeps of it.
abbrev pub Handle : Type 0 → Type 0
Handle H = H → String → List ℕ → Memory → ComputeMeter → H × Memory × ComputeMeter × Result String ℕ

-- The registers at the start of a run: r1 points at the input, r10 at the end of the first frame.
abbrev pub initial_registers : List ℕ
initial_registers = 0 ∷ input_start ∷ 0 ∷ 0 ∷ 0 ∷ 0 ∷ 0 ∷ 0 ∷ 0 ∷ 0 ∷ initial_frame_pointer ∷ []

module _ {H : Type 0} where
  unfoldable pub new_with_config : List Instruction → List ℕ → List ℕ → H → SbpfVmConfig → SbpfVm H
  new_with_config program input rodata handler config = record {
    config = config;
    registers = initial_registers;
    pc = 0;
    call_stack = [];
    memory = new_memory input rodata (stack_size config.max_call_depth) config.heap_size;
    program = program;
    halted = false;
    exit_code = none;
    compute_meter = new_meter config.compute_unit_limit;
    syscall_handler = handler;
  }

  unfoldable pub new : List Instruction → List ℕ → List ℕ → H → SbpfVm H
  unfolding new_with_config
  new program input rodata handler = new_with_config program input rodata handler default_config

  unfoldable pub reset : SbpfVm H → SbpfVm H
  reset vm = record vm {
    registers = initial_registers;
    pc = 0;
    call_stack = [];
    halted = false;
    exit_code = none;
    compute_meter = reset_meter vm.compute_meter;
    memory = reset_heap vm.memory;
  }

  unfoldable pub set_entrypoint : SbpfVm H → ℕ → SbpfVm H
  set_entrypoint vm pc = record vm { pc = pc }

  unfoldable pub is_pc_valid : SbpfVm H → Bool
  is_pc_valid vm = ltb vm.pc (length vm.program)

  unfoldable pub current_instruction : SbpfVm H → Result SbpfVmError Instruction
  current_instruction vm = elim (get_elem? vm.program vm.pc) [
    | some inst ↦ ok inst
    | none ↦ err (SbpfVmError.pc_out_of_bounds vm.pc)
  ]

-- `self.registers[reg]` panics out of range.
abbrev pub indexed : Option ℕ → Result ExecutionError ℕ
indexed (some value) = ok value
indexed none = panic

-- `map_err`: any error of the memory is `InvalidMemoryAccess`.
abbrev pub read_result : ℕ → Result SbpfVmError ℕ → Result ExecutionError ℕ
read_result addr (ok value) = ok value
read_result addr (err e) = err (ExecutionError.invalid_memory_access addr)
read_result addr panic = panic

abbrev pub syscall_result : Result String ℕ → Result ExecutionError ℕ
syscall_result (ok value) = ok value
syscall_result (err text) = err (ExecutionError.syscall_error text)
syscall_result panic = panic

-- A step that reads and changes the machine. On an error the machine keeps what was changed before.
abbrev pub M : Type 0 → Type 0 → Type 0
M H A = SbpfVm H → SbpfVm H × Result ExecutionError A

module _ {H : Type 0} where
  -- What is done with the result of a step.
  abbrev pub continue :
      {A B : Type 0}
      → (A → M H B)
      → SbpfVm H
      → Result ExecutionError A
      → SbpfVm H × Result ExecutionError B
  continue f vm (ok a) = f a vm
  continue f vm (err e) = (vm, err e)
  continue f vm panic = (vm, panic)

  infixl 5 ◌>>=◌ ◌>>◌
  unfoldable pub ◌>>=◌ : {A B : Type 0} → M H A → (A → M H B) → M H B
  ◌>>=◌ m f vm = let (vm', r) = m vm in continue f vm' r

  abbrev pub ◌>>◌ : {B : Type 0} → M H (Unit {0}) → M H B → M H B
  m >> k = m >>= λ _. k

  unfoldable pub pure : {A : Type 0} → A → M H A
  pure a vm = (vm, ok a)

  unfoldable pub fail : {A : Type 0} → ExecutionError → M H A
  fail e vm = (vm, err e)

  -- A computation that does not look at the machine.
  unfoldable pub lift : {A : Type 0} → Result ExecutionError A → M H A
  lift r vm = (vm, r)

  unfoldable pub get_register : ℕ → M H ℕ
  get_register reg vm = (vm, indexed (get_elem? vm.registers reg))

  unfoldable pub set_register : ℕ → ℕ → M H (Unit {0})
  set_register reg value vm =
      if ltb reg (length vm.registers)
      then (record vm { registers = set vm.registers reg value }, ok tt)
      else (vm, panic)

  unfoldable pub get_pc : M H ℕ
  get_pc vm = (vm, ok vm.pc)

  unfoldable pub set_pc : ℕ → M H (Unit {0})
  set_pc pc vm = (record vm { pc = pc }, ok tt)

  unfoldable pub advance_pc : M H (Unit {0})
  advance_pc vm = (record vm { pc = vm.pc + 1 }, ok tt)

  unfoldable pub read : (Memory → ℕ → Result SbpfVmError ℕ) → ℕ → M H ℕ
  read reader addr vm = (vm, read_result addr (reader vm.memory addr))

  abbrev pub write_result :
      ℕ → SbpfVm H → Result SbpfVmError Memory → SbpfVm H × Result ExecutionError (Unit {0})
  write_result addr vm (ok memory) = (record vm { memory = memory }, ok tt)
  write_result addr vm (err e) = (vm, err (ExecutionError.invalid_memory_access addr))
  write_result addr vm panic = (vm, panic)

  unfoldable pub write : (Memory → ℕ → ℕ → Result SbpfVmError Memory) → ℕ → ℕ → M H (Unit {0})
  write writer addr value vm = write_result addr vm (writer vm.memory addr value)

  unfoldable pub get_call_depth : M H ℕ
  get_call_depth vm = (vm, ok (length vm.call_stack))

  unfoldable pub max_call_depth : M H ℕ
  max_call_depth vm = (vm, ok vm.config.max_call_depth)

  unfoldable pub push_frame : ℕ → SavedRegisters → ℕ → M H (Unit {0})
  push_frame return_pc saved_registers saved_frame_pointer vm =
      let frame : CallFrame = record {
        return_pc = return_pc;
        saved_registers = saved_registers;
        saved_frame_pointer = saved_frame_pointer;
      } in
      (record vm { call_stack = frame ∷ vm.call_stack }, ok tt)

  abbrev pop : List CallFrame → SbpfVm H → SbpfVm H × Result ExecutionError (Option CallFrame)
  pop [] vm = (vm, ok none)
  pop (frame ∷ frames) vm = (record vm { call_stack = frames }, ok (some frame))

  unfoldable pub pop_frame : M H (Option CallFrame)
  pop_frame vm = pop vm.call_stack vm

  unfoldable pub halt : ℕ → M H (Unit {0})
  halt exit_code vm = (record vm { halted = true; exit_code = some exit_code }, ok tt)

  unfoldable pub get_stack_frame_size : M H ℕ
  get_stack_frame_size vm = (vm, ok stack_frame_size)

  -- The handler sees the registers that it is given; its error becomes `SyscallError`.
  unfoldable pub invoke : Handle H → String → List ℕ → M H ℕ
  invoke handle name registers vm =
      let (handler, memory, meter, r) =
        handle vm.syscall_handler name registers vm.memory vm.compute_meter in
      (
        record vm { syscall_handler = handler; memory = memory; compute_meter = meter },
        syscall_result r,
      )

  -- The handler is given r1 to r5.
  unfoldable pub handle_syscall : Handle H → String → M H ℕ
  handle_syscall handle name = do
    r1 ← get_register 1
    r2 ← get_register 2
    r3 ← get_register 3
    r4 ← get_register 4
    r5 ← get_register 5
    invoke handle name (r1 ∷ r2 ∷ r3 ∷ r4 ∷ r5 ∷ [])
