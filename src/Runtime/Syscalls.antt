-- ===== src/Runtime/Syscalls.antt =====
-- crates/runtime/src/syscalls/memory.rs and return_data.rs: the system calls that move bytes in the
-- memory, and those that hand bytes from a program to the one that called it. A call changes the
-- memory, where a write succeeds, and the one compute meter.
pub mod Laws
pub mod Tame
pub mod Move
pub mod Compare
pub mod Returned
use Prim.Native.Nat.{min, max}
use sbpf.Base.{ℕ, ◌+◌, ◌-◌, ◌/◌, ◌%◌, ◌^◌, ◌==◌, ltb, leb, if◌then◌else◌, Bool, not}
use sbpf.Base.{List, [], ◌∷◌, length, take, replicate, Option, some, none}
use sbpf.Base.Words.{to_le_bytes}
use sbpf.Errors.{Result, ok, err, panic, SbpfVmError}
use sbpf.Vm.Memory.{Memory, read_bytes, write_bytes, write_u32}
use sbpf.Vm.Compute.{ComputeMeter, consume}
use sbpf.Runtime.Stateful.{Stateful, ◌>>=◌, ◌>>◌, pure, fail}
use sbpf.Runtime.Store.{Address}
use sbpf.Runtime.Config.{ExecutionCost}

pub record Machine : Type 0 where
  pub memory : Memory
  pub compute : ComputeMeter

abbrev pub Syscall : Type 0 → Type 0
Syscall A = Stateful Machine SbpfVmError A

-- `registers: [u64; 5]`.
abbrev pub Registers : Type 0
Registers = ℕ × ℕ × ℕ × ℕ × ℕ

abbrev u64_max : ℕ
u64_max = 2 ^ 64 - 1

-- `n.checked_div(d).unwrap_or(u64::MAX)`.
abbrev pub div_or_max : ℕ → ℕ → ℕ
div_or_max n d = if d == 0 then u64_max else n / d

abbrev pub saturating_add : ℕ → ℕ → ℕ
saturating_add a b = min (a + b) u64_max

abbrev pub metered :
    Machine → Result SbpfVmError ComputeMeter → Machine × Result SbpfVmError (Unit {0})
metered m (ok c) = (record m { compute = c }, ok tt)
metered m (err e) = (m, err e)
metered m panic = (m, panic)

-- `compute.consume(amount)`.
unfoldable pub consume_units : ℕ → Syscall (Unit {0})
unfolding consume
consume_units amount m = metered m (consume m.compute amount)

-- `memory.read_bytes(addr, len)`.
unfoldable pub load : ℕ → ℕ → Syscall (List ℕ)
load addr len m = (m, read_bytes m.memory addr len)

abbrev pub stored : Machine → Result SbpfVmError Memory → Machine × Result SbpfVmError (Unit {0})
stored m (ok memory) = (record m { memory = memory }, ok tt)
stored m (err e) = (m, err e)
stored m panic = (m, panic)

-- `memory.write_bytes(addr, bytes)`.
unfoldable pub store : ℕ → List ℕ → Syscall (Unit {0})
store addr bytes m = stored m (write_bytes m.memory addr bytes)

-- `memory.write_u32(addr, value)`.
unfoldable pub store_u32 : ℕ → ℕ → Syscall (Unit {0})
store_u32 addr value m = stored m (write_u32 m.memory addr value)

unfoldable pub mem_op_consume : ℕ → ExecutionCost → Syscall (Unit {0})
unfolding consume_units
mem_op_consume n costs =
    consume_units (max costs.mem_op_base_cost (div_or_max n costs.cpi_bytes_per_unit))

unfoldable pub is_nonoverlapping : ℕ → ℕ → ℕ → ℕ → Bool
is_nonoverlapping src src_len dst dst_len =
    if ltb dst src then leb dst_len (src - dst) else leb src_len (dst - src)

-- The body of `sol_memmove` after its units are consumed, which `sol_memcpy` has as well.
unfoldable pub move_bytes : ℕ → ℕ → ℕ → Syscall ℕ
unfolding load store
move_bytes dst src n = do bytes ← load src n; store dst bytes; pure 0

unfoldable pub sol_memcpy : Registers → ExecutionCost → Syscall ℕ
unfolding mem_op_consume is_nonoverlapping move_bytes
sol_memcpy (dst, src, n, r3, r4) costs = do
  mem_op_consume n costs
  if not (is_nonoverlapping src n dst n)
      then fail SbpfVmError.overlapping_memory_regions
      else move_bytes dst src n

unfoldable pub sol_memmove : Registers → ExecutionCost → Syscall ℕ
unfolding mem_op_consume move_bytes
sol_memmove (dst, src, n, r3, r4) costs = do mem_op_consume n costs; move_bytes dst src n

unfoldable pub sol_memset : Registers → ExecutionCost → Syscall ℕ
unfolding mem_op_consume store
sol_memset (dst, c, n, r3, r4) costs = do
  mem_op_consume n costs
  store dst (replicate n (c % 256))
  pure 0

-- The loop of `sol_memcmp`: the first difference of two bytes, as a word of 32 bits.
unfoldable pub first_difference : List ℕ → List ℕ → ℕ
first_difference (x ∷ xs) (y ∷ ys) =
    let rest = first_difference xs ys in if x == y then rest else (x + 2 ^ 32 - y) % 2 ^ 32
first_difference [] ys = 0
first_difference (x ∷ xs) [] = 0

unfoldable pub sol_memcmp : Registers → ExecutionCost → Syscall ℕ
unfolding mem_op_consume load store_u32 first_difference
sol_memcmp (s1, s2, n, result_ptr, r4) costs = do
  mem_op_consume n costs
  s1_bytes ← load s1 n
  s2_bytes ← load s2 n
  store_u32 result_ptr (first_difference s1_bytes s2_bytes)
  pure 0

abbrev pub max_return_data : ℕ
max_return_data = 1024

-- Who returned which bytes.
abbrev pub ReturnData : Type 0
ReturnData = Option (Address × List ℕ)

unfoldable pub sol_set_return_data : Registers → ExecutionCost → Address → Syscall (ℕ × ReturnData)
unfolding consume_units load
sol_set_return_data (addr, len, r2, r3, r4) costs program_id = do
  consume_units (saturating_add (div_or_max len costs.cpi_bytes_per_unit) costs.syscall_base_cost)
  if ltb max_return_data len
      then fail (SbpfVmError.syscall_error "Return data too large: {} > {}")
      else if len == 0
      then pure (0, some (program_id, []))
      else (do bytes ← load addr len; pure (0, some (program_id, bytes)))

-- The bytes of an address.
abbrev pub address_bytes : Address → List ℕ
address_bytes k = to_le_bytes 32 k

-- The part of `sol_get_return_data` that copies to the caller.
unfoldable pub copy_out : ℕ → ℕ → ExecutionCost → Address → List ℕ → ℕ → Syscall (Unit {0})
unfolding consume_units store to_le_bytes
copy_out buf_addr program_id_addr costs program_id bytes n = do
  consume_units (div_or_max (saturating_add n 32) costs.cpi_bytes_per_unit)
  store buf_addr (take n bytes)
  store program_id_addr (address_bytes program_id)

unfoldable pub sol_get_return_data : Registers → ExecutionCost → ReturnData → Syscall ℕ
unfolding consume_units copy_out
sol_get_return_data (buf_addr, buf_len, program_id_addr, r3, r4) costs none = do
  consume_units costs.syscall_base_cost
  pure 0
sol_get_return_data (buf_addr, buf_len, program_id_addr, r3, r4) costs (some (program_id, bytes)) =
    let n = min buf_len (length bytes) in
    (do
      consume_units costs.syscall_base_cost
      if n == 0 then pure tt else copy_out buf_addr program_id_addr costs program_id bytes n
      pure (length bytes))
