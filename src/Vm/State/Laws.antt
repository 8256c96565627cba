-- ===== src/Vm/State/Laws.antt =====
-- What holds of every machine that is built and run.
use sbpf.Base.{ℕ, ◌+◌, ◌≤◌, ◌<◌, ◌^◌, ◌≡◌, arith, length, All}
use sbpf.Vm.Memory.Bytes.{IsBytes}
use sbpf.Vm.Compute.{ComputeMeter}
use sbpf.Vm.State.{SbpfVm, CallFrame}

-- A `u64`.
abbrev pub IsWord : ℕ → Type 0
IsWord n = n < 2 ^ 64

abbrev pub IsMeter : ComputeMeter → Type 0
IsMeter m = m.consumed ≤ m.limit

pub record IsFrame (f : CallFrame) : Type 0 where
  pub r6 : IsWord f.saved_registers.r6
  pub r7 : IsWord f.saved_registers.r7
  pub r8 : IsWord f.saved_registers.r8
  pub r9 : IsWord f.saved_registers.r9
  pub frame_pointer : IsWord f.saved_frame_pointer

-- There are eleven registers, each a `u64`; memory holds bytes; the call stack has room for `room`
-- more frames below the configured depth, and its frames hold `u64`s; the meter is within its limit.
pub record IsValid {H : Type 0} (room : ℕ) (vm : SbpfVm H) : Type 0 where
  pub registers : length vm.registers ≡ 11
  pub words : All IsWord vm.registers
  pub memory : IsBytes vm.memory
  pub depth : length vm.call_stack + room ≤ vm.config.max_call_depth
  pub frames : All IsFrame vm.call_stack
  pub meter : IsMeter vm.compute_meter

pub IsValid-less : {H : Type 0} {vm : SbpfVm H} (j k : ℕ) → k ≤ j → IsValid j vm → IsValid k vm
IsValid-less {vm = vm} j k h v = record {
  registers = v.registers;
  words = v.words;
  memory = v.memory;
  depth = omega arith;
  frames = v.frames;
  meter = v.meter;
}
