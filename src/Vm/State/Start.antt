-- ===== src/Vm/State/Start.antt =====
-- A machine as it is built and as it is reset.
use sbpf.Base.{ℕ, ◌≡◌, refl, arith, List, [], length, replicate, All}
use sbpf.Base.{
  All-replicate, zero, suc, ◌+◌, ◌-◌, ◌≤◌, ◌<◌, ◌∷◌, take, drop, ap, length-replicate, get_elem?,
  some, ◌∙◌, le→ltb-false,
}
use sbpf.Errors.{ok}
use sbpf.Vm.Memory.{
  Memory, translate, read_bytes, get_slice, input_start, stack_start, stack_frame_size,
}
use sbpf.Base.Words.{IsByte}
use sbpf.Instruction.{Instruction}
use sbpf.Vm.Compute.{get_remaining, new as new_meter, reset as reset_meter}
use sbpf.Vm.Memory.{MemoryRegion, region_bytes, new as new_memory, initial_frame_pointer}
use sbpf.Vm.Memory.{stack_size}
use sbpf.Vm.Memory.Bytes.{IsBytes, reset_heap-IsBytes}
use sbpf.Vm.State.{
  SbpfVm, SbpfVmConfig, new_with_config, current_instruction, reset, initial_registers,
}
use sbpf.Vm.State.Laws.{IsValid, IsWord}

new_memory-IsBytes :
    (input_bytes rodata_bytes : List ℕ) (stack_length heap_length : ℕ)
    → All IsByte input_bytes
    → All IsByte rodata_bytes
    → IsBytes (new_memory input_bytes rodata_bytes stack_length heap_length)
unfolding new_memory region_bytes
new_memory-IsBytes i r s h hi hr = record {
  bytes = elim [
    | MemoryRegion.input ↦ hi
    | MemoryRegion.rodata ↦ hr
    | MemoryRegion.stack ↦ All-replicate IsByte s 0 (omega arith)
    | MemoryRegion.heap ↦ All-replicate IsByte h 0 (omega arith)
  ];
}

initial_registers-IsWord : All IsWord initial_registers
unfolding initial_frame_pointer
initial_registers-IsWord = omega arith

pub new_with_config-IsValid :
    {H : Type 0} (program : List Instruction) (input rodata : List ℕ) (handler : H)
    (config : SbpfVmConfig)
    → All IsByte input
    → All IsByte rodata
    → IsValid 0 (new_with_config program input rodata handler config)
unfolding new_with_config new_meter
new_with_config-IsValid program input rodata handler config hi hr = record {
  registers = refl;
  words = initial_registers-IsWord;
  memory =
      new_memory-IsBytes input rodata (stack_size config.max_call_depth) config.heap_size hi hr;
  depth = omega arith;
  frames = tt;
  meter = omega arith;
}

pub reset-IsValid : {H : Type 0} (vm : SbpfVm H) → IsValid 0 vm → IsValid 0 (reset vm)
unfolding reset reset_meter
reset-IsValid vm v = record {
  registers = refl;
  words = initial_registers-IsWord;
  memory = reset_heap-IsBytes vm.memory v.memory;
  depth = omega arith;
  frames = tt;
  meter = omega arith;
}

drop-replicate : (i n x : ℕ) → drop i (replicate n x) ≡ replicate (n - i) x
drop-replicate zero n x = let e : n ≡ n - 0 = omega arith in ap (λ k. replicate k x) e
drop-replicate (suc i) zero x = let e : 0 ≡ 0 - suc i = omega arith in ap (λ k. replicate k x) e
drop-replicate (suc i) (suc n) x =
    let e : n - i ≡ suc n - suc i = omega arith in drop-replicate i n x ∙ ap (λ k. replicate k x) e

take-replicate : (k n x : ℕ) → k ≤ n → take k (replicate n x) ≡ replicate k x
take-replicate zero n x h = refl
take-replicate (suc k) zero x h = absurd (omega arith)
take-replicate (suc k) (suc n) x h = ap (λ l. x ∷ l) (take-replicate k n x (omega arith))

-- A read that starts in a region and stays in it.
read_in :
    (m : Memory) (region : MemoryRegion) (addr offset len : ℕ)
    → translate m addr ≡ ok (region, offset)
    → offset + len ≤ length (region_bytes m region)
    → read_bytes m addr len ≡ ok (take len (drop offset (region_bytes m region)))
unfolding read_bytes get_slice
read_in m region addr offset len at h = rw at (rw (le→ltb-false _ _ h) refl)

module _ (input rodata : List ℕ) (depth heap : ℕ) where
  read_input :
      (i len : ℕ)
      → i < length input
      → i + len ≤ length input
      → read_bytes (new_memory input rodata (stack_size depth) heap) (input_start + i) len
        ≡ ok (take len (drop i input))
  unfolding new_memory region_bytes translate
  read_input i len h g = read_in _ MemoryRegion.input (input_start + i) i len (ground arith) g

  read_rodata :
      (i len : ℕ)
      → i < length rodata
      → i + len ≤ length rodata
      → i < stack_start
      → read_bytes (new_memory input rodata (stack_size depth) heap) i len
        ≡ ok (take len (drop i rodata))
  unfolding new_memory region_bytes translate
  read_rodata i len h g l = read_in _ MemoryRegion.rodata i i len (ground arith) g

  read_stack :
      (k : ℕ)
      → 0 < depth
      → 0 < k
      → k ≤ stack_frame_size
      → read_bytes (new_memory input rodata (stack_size depth) heap) (initial_frame_pointer - k) k
        ≡ ok (replicate k 0)
  unfolding new_memory region_bytes translate initial_frame_pointer stack_size
  read_stack k d lo hi =
      let long = length-replicate {A = ℕ} (stack_size depth) 0 in
      read_in (new_memory input rodata (stack_size depth) heap) MemoryRegion.stack
        (initial_frame_pointer - k) (stack_frame_size - k) k (ground (arith, long))
        (omega (arith, long))
      ∙ ap ok (
          ap (λ l. take k l) (drop-replicate (stack_frame_size - k) (stack_size depth) 0)
          ∙ take-replicate k _ 0 (omega arith))

-- A machine that is built from bytes and a program that is not empty, with room for one call at least,
-- is valid, will fetch the first instruction, has an empty call stack, and has all its units left.
-- r1 is the address of the input: a range of the input is read at its place behind r1. A range of
-- the read-only bytes that begins at an address below the stack is read at its place behind the
-- start of memory. r10 is the end of a frame of zeros in the stack: any bytes up to r10, a frame at
-- most, are read as zeros.
pub new_with_config-read_bytes :
    {H : Type 0} (start : Instruction) (rest : List Instruction) (input rodata : List ℕ)
    (handler : H) (config : SbpfVmConfig) (i ni j nj k : ℕ)
    → All IsByte input
    → All IsByte rodata
    → 0 < config.max_call_depth
    → i < length input
    → i + ni ≤ length input
    → j < length rodata
    → j + nj ≤ length rodata
    → j < stack_start
    → 0 < k
    → k ≤ stack_frame_size
    → (vm : SbpfVm H) × (r1 : ℕ) × (r10 : ℕ) × (new_with_config
          (start ∷ rest)
          input
          rodata
          handler
          config
        ≡ vm)
      × IsValid 0 vm
      × (current_instruction vm ≡ ok start)
      × (vm.call_stack ≡ [])
      × (get_remaining vm.compute_meter ≡ config.compute_unit_limit)
      × (get_elem? vm.registers 1 ≡ some r1)
      × (get_elem? vm.registers 10 ≡ some r10)
      × (read_bytes vm.memory (r1 + i) ni ≡ ok (take ni (drop i input)))
      × (read_bytes vm.memory j nj ≡ ok (take nj (drop j rodata)))
      × (read_bytes vm.memory (r10 - k) k ≡ ok (replicate k 0))
unfolding new_with_config current_instruction get_remaining new_meter
new_with_config-read_bytes start rest input rodata handler config i ni j nj k hi hr d a b c e f lo
      le =
    (
      new_with_config (start ∷ rest) input rodata handler config,
      input_start,
      initial_frame_pointer,
      refl,
      new_with_config-IsValid (start ∷ rest) input rodata handler config hi hr,
      refl,
      refl,
      omega arith,
      refl,
      refl,
      read_input input rodata config.max_call_depth config.heap_size i ni a b,
      read_rodata input rodata config.max_call_depth config.heap_size j nj c e f,
      read_stack input rodata config.max_call_depth config.heap_size k d lo le,
    )
