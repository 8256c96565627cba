-- ===== src/Vm/Memory.antt =====
-- crates/vm/src/memory.rs: the four regions of memory and the virtual addresses.
pub mod Overwrite
pub mod Laws
pub mod Frame
pub mod Bytes
use sbpf.Base.{ℕ, ◌+◌, ◌-◌, ◌*◌, zero, suc, ltb, leb, if◌then◌else◌}
use sbpf.Base.{List, [], ◌∷◌, length, take, drop, replicate}
use sbpf.Base.Int.{ℤ}
use sbpf.Base.Words.{to_le_bytes, from_le_bytes, u64}
use sbpf.Errors.{Result, ok, err, ◌>>=◌, SbpfVmError}

pub data MemoryRegion : Type 0 where
  input rodata stack heap : MemoryRegion

pub record Memory : Type 0 where
  pub rodata : List ℕ
  pub stack : List ℕ
  pub heap : List ℕ
  pub input : List ℕ
  pub heap_ptr : ℕ

abbrev pub rodata_start : ℕ
rodata_start = 0x0

abbrev pub stack_start : ℕ
stack_start = 0x200000000

abbrev pub heap_start : ℕ
heap_start = 0x300000000

abbrev pub input_start : ℕ
input_start = 0x400000000

abbrev pub default_heap_size : ℕ
default_heap_size = 32768

abbrev pub stack_frame_size : ℕ
stack_frame_size = 4096

unfoldable pub new : List ℕ → List ℕ → ℕ → ℕ → Memory
new input_bytes rodata_bytes stack_size heap_size = record {
  rodata = rodata_bytes;
  stack = replicate stack_size 0;
  heap = replicate heap_size 0;
  input = input_bytes;
  heap_ptr = 0;
}

unfoldable pub initial_frame_pointer : ℕ
initial_frame_pointer = stack_start + stack_frame_size

unfoldable pub stack_size : ℕ → ℕ
stack_size max_call_depth = stack_frame_size * max_call_depth

-- The bytes of a region.
unfoldable pub region_bytes : Memory → MemoryRegion → List ℕ
region_bytes m MemoryRegion.input = m.input
region_bytes m MemoryRegion.rodata = m.rodata
region_bytes m MemoryRegion.stack = m.stack
region_bytes m MemoryRegion.heap = m.heap

-- The address where a region begins.
unfoldable pub region_start : MemoryRegion → ℕ
region_start MemoryRegion.input = input_start
region_start MemoryRegion.rodata = rodata_start
region_start MemoryRegion.stack = stack_start
region_start MemoryRegion.heap = heap_start

abbrev in_region : Memory → ℕ → MemoryRegion → ℕ → ℕ → Result SbpfVmError (MemoryRegion × ℕ)
in_region m addr region offset len =
    if ltb offset len then ok (region, offset) else err (SbpfVmError.memory_out_of_bounds addr 0)

-- Translate a virtual address to a region and an offset.
unfoldable pub translate : Memory → ℕ → Result SbpfVmError (MemoryRegion × ℕ)
translate m addr =
    if leb input_start addr
    then in_region m addr MemoryRegion.input (addr - input_start) (length m.input)
    else if leb heap_start addr
    then in_region m addr MemoryRegion.heap (addr - heap_start) (length m.heap)
    else if leb stack_start addr
    then in_region m addr MemoryRegion.stack (addr - stack_start) (length m.stack)
    else in_region m addr MemoryRegion.rodata addr (length m.rodata)

unfoldable pub get_slice : Memory → MemoryRegion → ℕ → ℕ → Result SbpfVmError (List ℕ)
unfolding region_bytes
get_slice m region offset len =
    let bytes = region_bytes m region in
    if ltb (length bytes) (offset + len)
    then err (SbpfVmError.memory_out_of_bounds offset len)
    else ok (take len (drop offset bytes))

-- `slice.copy_from_slice(bytes)` on the slice of a vector that begins at an offset.
unfoldable pub overwrite : List ℕ → ℕ → List ℕ → List ℕ
overwrite xs zero [] = xs
overwrite [] zero (v ∷ vs) = []
overwrite (x ∷ xs) zero (v ∷ vs) = v ∷ overwrite xs zero vs
overwrite [] (suc i) vs = []
overwrite (x ∷ xs) (suc i) vs = x ∷ overwrite xs i vs

-- A mutable slice is the function that stores new contents in it.
unfoldable pub get_slice_mut : Memory → MemoryRegion → ℕ → ℕ → Result SbpfVmError (List ℕ → Memory)
unfolding overwrite
get_slice_mut m MemoryRegion.rodata offset len =
    err (SbpfVmError.invalid_memory_access (rodata_start + offset))
get_slice_mut m MemoryRegion.input offset len =
    if ltb (length m.input) (offset + len)
    then err (SbpfVmError.memory_out_of_bounds offset len)
    else ok (λ bytes. record m { input = overwrite m.input offset bytes })
get_slice_mut m MemoryRegion.stack offset len =
    if ltb (length m.stack) (offset + len)
    then err (SbpfVmError.memory_out_of_bounds offset len)
    else ok (λ bytes. record m { stack = overwrite m.stack offset bytes })
get_slice_mut m MemoryRegion.heap offset len =
    if ltb (length m.heap) (offset + len)
    then err (SbpfVmError.memory_out_of_bounds offset len)
    else ok (λ bytes. record m { heap = overwrite m.heap offset bytes })

unfoldable pub read_bytes : Memory → ℕ → ℕ → Result SbpfVmError (List ℕ)
unfolding translate get_slice
read_bytes m addr len = do (region, offset) ← translate m addr; get_slice m region offset len

-- The little-endian word of `k` bytes at an address: the common body of the four readers below.
unfoldable pub read_word : Memory → ℕ → ℕ → Result SbpfVmError ℕ
unfolding translate get_slice from_le_bytes
read_word m addr k = do
  (region, offset) ← translate m addr
  slice ← get_slice m region offset k
  ok (from_le_bytes slice)

unfoldable pub read_u8 : Memory → ℕ → Result SbpfVmError ℕ
unfolding read_word
read_u8 m addr = read_word m addr 1

unfoldable pub read_u16 : Memory → ℕ → Result SbpfVmError ℕ
unfolding read_word
read_u16 m addr = read_word m addr 2

unfoldable pub read_u32 : Memory → ℕ → Result SbpfVmError ℕ
unfolding read_word
read_u32 m addr = read_word m addr 4

unfoldable pub read_u64 : Memory → ℕ → Result SbpfVmError ℕ
unfolding read_word
read_u64 m addr = read_word m addr 8

-- On an error the memory is left as it is.
unfoldable pub write_bytes : Memory → ℕ → List ℕ → Result SbpfVmError Memory
unfolding translate get_slice_mut
write_bytes m addr bytes = do
  (region, offset) ← translate m addr
  slice ← get_slice_mut m region offset (length bytes)
  ok (slice bytes)

-- The common body of the writers: `copy_from_slice(&value.to_le_bytes())` on a slice of `k` bytes.
unfoldable pub write_word : Memory → ℕ → ℕ → ℕ → Result SbpfVmError Memory
unfolding translate get_slice_mut to_le_bytes
write_word m addr k value = do
  (region, offset) ← translate m addr
  slice ← get_slice_mut m region offset k
  ok (slice (to_le_bytes k value))

unfoldable pub write_u8 : Memory → ℕ → ℕ → Result SbpfVmError Memory
unfolding write_word
write_u8 m addr value = write_word m addr 1 value

unfoldable pub write_u16 : Memory → ℕ → ℕ → Result SbpfVmError Memory
unfolding write_word
write_u16 m addr value = write_word m addr 2 value

unfoldable pub write_u32 : Memory → ℕ → ℕ → Result SbpfVmError Memory
unfolding write_word
write_u32 m addr value = write_word m addr 4 value

unfoldable pub write_u64 : Memory → ℕ → ℕ → Result SbpfVmError Memory
unfolding write_word
write_u64 m addr value = write_word m addr 8 value

unfoldable pub write_i64 : Memory → ℕ → ℤ → Result SbpfVmError Memory
unfolding write_word
write_i64 m addr value = write_word m addr 8 (u64 value)

unfoldable pub alloc : Memory → ℕ → Result SbpfVmError (Memory × ℕ)
alloc m size =
    if ltb (length m.heap) (m.heap_ptr + size)
    then err (SbpfVmError.memory_out_of_bounds (heap_start + m.heap_ptr) size)
    else ok (record m { heap_ptr = m.heap_ptr + size }, heap_start + m.heap_ptr)

unfoldable pub reset_heap : Memory → Memory
reset_heap m = record m { heap_ptr = 0; heap = replicate (length m.heap) 0 }
