-- ===== src/Tests/Stores.antt =====
-- The theorems on memory at a small one.
use sbpf.Base.{◌+◌, ◌≡◌, refl, arith, [], ◌∷◌, length, ltb, if◌then◌else◌}
use sbpf.Base.{inr, replicate}
use sbpf.Base.Words.{to_le_bytes}
use sbpf.Errors.{ok, err, SbpfVmError}
use sbpf.Vm.Memory.{Memory as Mem, write_bytes, write_word, read_bytes, read_word, translate}
use sbpf.Vm.Memory.{get_slice_mut, overwrite, stack_start}
use sbpf.Vm.Memory.Laws.{read_bytes-write_bytes, read_word-write_word}
use sbpf.Vm.Memory.Frame.{read_bytes-write_bytes_apart, write_bytes_rodata}

abbrev store : Mem
store = record {
  rodata = 1 ∷ 2 ∷ 3 ∷ [];
  stack = replicate 16 0;
  heap = replicate 8 0;
  input = 9 ∷ [];
  heap_ptr = 0;
}

-- The store after 0x1234 is written as two bytes at the third byte of the stack.
abbrev stored : Mem
stored = record store { stack = 0 ∷ 0 ∷ 0x34 ∷ 0x12 ∷ replicate 12 0 }

word_stored : write_word store (stack_start + 2) 2 0x1234 ≡ ok stored
unfolding write_word translate get_slice_mut overwrite to_le_bytes
word_stored = refl

read_word-write_word_example : read_word stored (stack_start + 2) 2 ≡ ok 0x1234
read_word-write_word_example =
    read_word-write_word store (stack_start + 2) 2 0x1234 (omega arith) word_stored

bytes_stored : write_bytes store (stack_start + 2) (0x34 ∷ 0x12 ∷ []) ≡ ok stored
unfolding write_bytes translate get_slice_mut overwrite
bytes_stored = refl

read_bytes-write_bytes_example : read_bytes stored (stack_start + 2) 2 ≡ ok (0x34 ∷ 0x12 ∷ [])
read_bytes-write_bytes_example =
    read_bytes-write_bytes store (stack_start + 2) (0x34 ∷ 0x12 ∷ []) bytes_stored

read_bytes-write_bytes_apart_example :
    read_bytes stored (stack_start + 4) 8 ≡ read_bytes store (stack_start + 4) 8
read_bytes-write_bytes_apart_example =
    read_bytes-write_bytes_apart store (stack_start + 2) (0x34 ∷ 0x12 ∷ []) (stack_start + 4) 8
      (inr (omega arith)) bytes_stored

write_bytes_rodata_example :
    write_bytes store 1 (5 ∷ [])
    ≡ err (
        if ltb 1 (length store.rodata)
        then SbpfVmError.invalid_memory_access 1
        else SbpfVmError.memory_out_of_bounds 1 0)
write_bytes_rodata_example = write_bytes_rodata store 1 (5 ∷ []) (omega arith)
