-- ===== src/Tests/Syscalls.antt =====
-- The theorems on the system calls at a heap of eight bytes.
use sbpf.Base.{
  ℕ, zero, suc, ◌+◌, ◌≤◌, ◌<◌, ◌≡◌, ◌≢◌, ◌%◌, refl, arith, List, [], ◌∷◌, ◌++◌, length, replicate,
}
use sbpf.Base.{some, none}
use Prim.Native.Nat.{min}
use sbpf.Base.Words.{to_le_bytes}
use sbpf.Errors.{ok}
use sbpf.Vm.Memory.{
  MemoryRegion, heap_start, region_bytes, translate, get_slice, get_slice_mut, overwrite,
  read_bytes, read_u32, write_bytes, write_u32, write_word,
}
use sbpf.Vm.Memory.Bytes.{IsBytes}
use sbpf.Vm.Compute.{consume}
use sbpf.Runtime.Stateful.{◌>>=◌, pure}
use sbpf.Runtime.Config.{default_costs}
use sbpf.Runtime.Syscalls.{
  Machine, ReturnData, consume_units, load, store, store_u32, mem_op_consume, is_nonoverlapping,
  move_bytes, sol_memcpy, sol_memmove, sol_memset, first_difference, sol_memcmp,
  sol_set_return_data, copy_out, sol_get_return_data,
}
use sbpf.Runtime.Syscalls.Tame.{IsTame, syscalls-Tame}
use sbpf.Runtime.Syscalls.Move.{
  IsStored, mem_op_cost, sol_memmove-IsStored, sol_memcpy-IsStored, sol_memset-IsStored,
}
use sbpf.Runtime.Syscalls.Compare.{Tells, sol_memcmp-Tells}
use sbpf.Runtime.Syscalls.Returned.{IsCopied, sol_get_return_data-sol_set_return_data}

abbrev machine : List ℕ → ℕ → Machine
machine heap consumed = record {
  memory = record { rodata = []; stack = []; heap = heap; input = []; heap_ptr = 0 };
  compute = record { consumed = consumed; limit = 1000 };
}

abbrev eight : List ℕ
eight = 1 ∷ 2 ∷ 3 ∷ 4 ∷ 5 ∷ 6 ∷ 7 ∷ 8 ∷ []

abbrev heap : ℕ
heap = heap_start

moved :
    sol_memmove (heap + 1, heap, 3, 0, 0) default_costs (machine eight 0)
    ≡ (machine (1 ∷ 1 ∷ 2 ∷ 3 ∷ 5 ∷ 6 ∷ 7 ∷ 8 ∷ []) 10, ok 0)
unfolding sol_memmove move_bytes mem_op_consume consume_units consume load store read_bytes
    write_bytes translate get_slice get_slice_mut region_bytes overwrite pure ◌>>=◌
moved = refl

sol_memmove-IsStored_example :
    (bytes : List ℕ) × (read_bytes (machine eight 0).memory heap 3 ≡ ok bytes)
    × (length bytes ≡ 3)
    × (zero ≡ zero)
    × IsStored
        (machine eight 0)
        (machine (1 ∷ 1 ∷ 2 ∷ 3 ∷ 5 ∷ 6 ∷ 7 ∷ 8 ∷ []) 10)
        (heap + 1)
        bytes
        default_costs
sol_memmove-IsStored_example =
    sol_memmove-IsStored (heap + 1) heap 3 0 0 default_costs (machine eight 0)
      (machine (1 ∷ 1 ∷ 2 ∷ 3 ∷ 5 ∷ 6 ∷ 7 ∷ 8 ∷ []) 10) moved

copied :
    sol_memcpy (heap + 4, heap, 3, 0, 0) default_costs (machine eight 0)
    ≡ (machine (1 ∷ 2 ∷ 3 ∷ 4 ∷ 1 ∷ 2 ∷ 3 ∷ 8 ∷ []) 10, ok 0)
unfolding sol_memcpy is_nonoverlapping move_bytes mem_op_consume consume_units consume load store
    read_bytes write_bytes translate get_slice get_slice_mut region_bytes overwrite pure ◌>>=◌
copied = refl

sol_memcpy-IsStored_example :
    ((i j : ℕ) → i < 3 → j < 3 → heap + i ≢ heap + 4 + j)
    × (bytes : List ℕ) × (read_bytes (machine eight 0).memory heap 3 ≡ ok bytes)
    × (read_bytes (machine (1 ∷ 2 ∷ 3 ∷ 4 ∷ 1 ∷ 2 ∷ 3 ∷ 8 ∷ []) 10).memory heap 3 ≡ ok bytes)
    × (length bytes ≡ 3)
    × (zero ≡ zero)
    × IsStored
        (machine eight 0)
        (machine (1 ∷ 2 ∷ 3 ∷ 4 ∷ 1 ∷ 2 ∷ 3 ∷ 8 ∷ []) 10)
        (heap + 4)
        bytes
        default_costs
sol_memcpy-IsStored_example =
    sol_memcpy-IsStored (heap + 4) heap 3 0 0 default_costs (machine eight 0)
      (machine (1 ∷ 2 ∷ 3 ∷ 4 ∷ 1 ∷ 2 ∷ 3 ∷ 8 ∷ []) 10) copied

filled :
    sol_memset (heap, 263, 2, 0, 0) default_costs (machine eight 0)
    ≡ (machine (7 ∷ 7 ∷ 3 ∷ 4 ∷ 5 ∷ 6 ∷ 7 ∷ 8 ∷ []) 10, ok 0)
unfolding sol_memset mem_op_consume consume_units consume store write_bytes translate get_slice_mut
    overwrite pure ◌>>=◌
filled = refl

sol_memset-IsStored_example :
    (zero ≡ zero)
    × IsStored
        (machine eight 0)
        (machine (7 ∷ 7 ∷ 3 ∷ 4 ∷ 5 ∷ 6 ∷ 7 ∷ 8 ∷ []) 10)
        heap
        (replicate 2 (263 % 256))
        default_costs
sol_memset-IsStored_example =
    sol_memset-IsStored heap 263 2 0 0 default_costs (machine eight 0)
      (machine (7 ∷ 7 ∷ 3 ∷ 4 ∷ 5 ∷ 6 ∷ 7 ∷ 8 ∷ []) 10) filled

eight-IsBytes : IsBytes (machine eight 0).memory
unfolding region_bytes
eight-IsBytes = record {
  bytes = elim [
    | MemoryRegion.input ↦ tt
    | MemoryRegion.rodata ↦ tt
    | MemoryRegion.stack ↦ tt
    | MemoryRegion.heap ↦ omega arith
  ];
}

compared :
    sol_memcmp (heap, heap + 1, 2, heap + 4, 0) default_costs (machine eight 0)
    ≡ (machine (1 ∷ 2 ∷ 3 ∷ 4 ∷ 255 ∷ 255 ∷ 255 ∷ 255 ∷ []) 10, ok 0)
unfolding sol_memcmp first_difference mem_op_consume consume_units consume load store_u32 read_bytes
    write_u32 write_word translate get_slice get_slice_mut region_bytes overwrite to_le_bytes pure
    ◌>>=◌
compared = refl

sol_memcmp-Tells_example :
    (xs : List ℕ) × (ys : List ℕ) × (d : ℕ) × (read_bytes (machine eight 0).memory heap 2 ≡ ok xs)
    × (read_bytes (machine eight 0).memory (heap + 1) 2 ≡ ok ys)
    × (read_u32 (machine (1 ∷ 2 ∷ 3 ∷ 4 ∷ 255 ∷ 255 ∷ 255 ∷ 255 ∷ []) 10).memory (heap + 4) ≡ ok d)
    × Tells xs ys d
    × (zero ≡ zero)
    × (consume (machine eight 0).compute (mem_op_cost 2 default_costs)
        ≡ ok (machine (1 ∷ 2 ∷ 3 ∷ 4 ∷ 255 ∷ 255 ∷ 255 ∷ 255 ∷ []) 10).compute)
sol_memcmp-Tells_example =
    sol_memcmp-Tells heap (heap + 1) 2 (heap + 4) 0 default_costs (machine eight 0)
      (machine (1 ∷ 2 ∷ 3 ∷ 4 ∷ 255 ∷ 255 ∷ 255 ∷ 255 ∷ []) 10) eight-IsBytes compared

syscalls-Tame_example :
    IsTame
      (machine eight 0)
      (sol_memcpy (heap + 1, heap, 3, 0, 0) default_costs (machine eight 0)).0
    × IsTame
        (machine eight 0)
        (sol_memmove (heap + 1, heap, 3, 0, 0) default_costs (machine eight 0)).0
    × IsTame
        (machine eight 0)
        (sol_memset (heap + 1, heap, 3, 0, 0) default_costs (machine eight 0)).0
    × IsTame
        (machine eight 0)
        (sol_memcmp (heap + 1, heap, 3, 0, 0) default_costs (machine eight 0)).0
    × IsTame
        (machine eight 0)
        (sol_set_return_data (heap + 1, heap, 3, 0, 0) default_costs 9 (machine eight 0)).0
    × IsTame
        (machine eight 0)
        (sol_get_return_data (heap + 1, heap, 3, 0, 0) default_costs none (machine eight 0)).0
syscalls-Tame_example =
    syscalls-Tame (heap + 1, heap, 3, 0, 0) default_costs 9 none (machine eight 0)

abbrev returned : ReturnData
returned = some (9, 1 ∷ 2 ∷ 3 ∷ [])

set :
    sol_set_return_data (heap, 3, 0, 0, 0) default_costs 9 (machine eight 0)
    ≡ (machine eight 100, ok (0, returned))
unfolding sol_set_return_data consume_units consume load read_bytes translate get_slice region_bytes
    pure ◌>>=◌
set = refl

abbrev received : Machine
received = machine (1 ∷ 2 ∷ replicate 6 0 ++ (9 ∷ replicate 31 0)) 100

got :
    sol_get_return_data
      (heap, 2, heap + 8, 0, 0)
      default_costs
      returned
      (machine (replicate 40 0) 0)
    ≡ (received, ok 3)
unfolding sol_get_return_data copy_out consume_units consume store write_bytes translate
    get_slice_mut overwrite to_le_bytes pure ◌>>=◌
got = refl

sol_get_return_data-sol_set_return_data_example :
    (bytes : List ℕ) × (length bytes ≡ 3)
    × (3 ≤ 1024)
    × (3 ≢ zero → read_bytes (machine eight 0).memory heap 3 ≡ ok bytes)
    × (3 ≡ suc 2)
    × (0 < min 2 3 → IsCopied received heap (min 2 3) (heap + 8) 9 bytes)
    × (min 2 3 ≡ 0 → received.memory ≡ (machine (replicate 40 0) 0).memory)
sol_get_return_data-sol_set_return_data_example =
    sol_get_return_data-sol_set_return_data heap 3 0 0 0 heap 2 (heap + 8) 0 0 default_costs 9
      (machine eight 0) (machine eight 100) (machine (replicate 40 0) 0) received set got
