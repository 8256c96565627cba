-- ===== src/Runtime/Syscalls/Tame.antt =====
-- What holds however a system call ends.
use Prim.Native.Nat.{min}
use sbpf.Base.{ℕ, ◌≤◌, ◌<◌, ◌^◌, ◌≡◌, ◌∙◌, refl, sym, arith, not}
use sbpf.Base.{List, [], length, take, replicate, ◌==◌, ◌%◌, ltb, some, none}
use sbpf.Base.Words.{to_le_bytes}
use sbpf.Errors.{Result, ok, err, panic, SbpfVmError}
use sbpf.Vm.Memory.{Memory, read_bytes, write_bytes, write_u32}
use sbpf.Vm.Memory.Laws.{IsSameShape, write_bytes-IsSameShape, write_word-write_bytes}
use sbpf.Vm.Compute.{ComputeMeter, consume}
use sbpf.Runtime.Effect.{
  Effect, Ends, Follows, Follows-bind, Follows-if, Follows-pure, Follows-fail,
}
use sbpf.Runtime.Config.{ExecutionCost}
use sbpf.Runtime.Store.{Address}
use sbpf.Runtime.Syscalls.{
  Machine, Registers, ReturnData, consume_units, metered, load, stored, store, store_u32,
  mem_op_consume, is_nonoverlapping, move_bytes, sol_memcpy, sol_memmove, sol_memset, sol_memcmp,
  max_return_data, sol_set_return_data, sol_get_return_data, copy_out,
}

-- The read-only bytes and the sizes of the regions stay; the limit stays, units are only used, and
-- not more than the limit.
pub record IsTame (m m' : Machine) : Type 0 where
  pub shape : IsSameShape m.memory m'.memory
  pub limit : m'.compute.limit ≡ m.compute.limit
  pub within : m.compute.consumed ≤ m.compute.limit → m'.compute.consumed ≤ m'.compute.limit
  pub spent :
      m.compute.consumed ≤ m.compute.limit
      → m.compute.limit < 2 ^ 64
      → m.compute.consumed ≤ m'.compute.consumed

IsSameShape-self : (m : Memory) → IsSameShape m m
IsSameShape-self m = record { rodata = refl; stack = refl; heap = refl; input = refl }

IsTame-self : (m : Machine) → IsTame m m
IsTame-self m = record {
  shape = IsSameShape-self m.memory;
  limit = refl;
  within = λ h. h;
  spent = λ h g. omega arith;
}

IsTame-then : (m n o : Machine) → IsTame m n → IsTame n o → IsTame m o
IsTame-then m n o h g = record {
  shape = record {
    rodata = g.shape.rodata ∙ h.shape.rodata;
    stack = g.shape.stack ∙ h.shape.stack;
    heap = g.shape.heap ∙ h.shape.heap;
    input = g.shape.input ∙ h.shape.input;
  };
  limit = g.limit ∙ h.limit;
  within = λ p. g.within (h.within p);
  spent = λ p q. omega (arith, h.limit, h.within p, h.spent p q, g.spent);
}

abbrev Tame : Effect Machine
Tame = record {
  Returned = IsTame;
  Failed = IsTame;
  same = IsTame-self;
  weaken = λ m n h. h;
  then_returned = IsTame-then;
  then_failed = IsTame-then;
}

metered-Tame :
    (n : ℕ) (m : Machine) (r : Result SbpfVmError ComputeMeter)
    → consume m.compute n ≡ r
    → Ends Tame m (metered m r)
unfolding consume
metered-Tame n m (ok c) e = record {
  shape = IsSameShape-self m.memory;
  limit = ground arith;
  within = λ h. ground arith;
  spent = λ h g. ground arith;
}
metered-Tame n m (err x) e = IsTame-self m
metered-Tame n m panic e = IsTame-self m

consume_units-Tame : (n : ℕ) → Follows Tame (consume_units n)
unfolding consume_units
consume_units-Tame n = record { ends = λ m. metered-Tame n m (consume m.compute n) refl }

stored-Tame :
    (m : Machine) (r : Result SbpfVmError Memory)
    → ((memory : Memory) → r ≡ ok memory → IsSameShape m.memory memory)
    → Ends Tame m (stored m r)
stored-Tame m (ok memory) h = record {
  shape = h memory refl;
  limit = refl;
  within = λ h. h;
  spent = λ h g. omega arith;
}
stored-Tame m (err x) h = IsTame-self m
stored-Tame m panic h = IsTame-self m

store-Tame : (addr : ℕ) (bytes : List ℕ) → Follows Tame (store addr bytes)
unfolding store
store-Tame addr bytes = record {
  ends = λ m.
      stored-Tame m (write_bytes m.memory addr bytes)
        λ memory e. write_bytes-IsSameShape m.memory addr bytes e;
}

store_u32-Tame : (addr value : ℕ) → Follows Tame (store_u32 addr value)
unfolding store_u32 write_u32
store_u32-Tame addr value = record {
  ends = λ m. stored-Tame m (write_u32 m.memory addr value) λ memory e.
      write_bytes-IsSameShape m.memory addr (to_le_bytes 4 value)
        (sym (write_word-write_bytes m.memory addr 4 value) ∙ e);
}

loaded-Tame : (m : Machine) (r : Result SbpfVmError (List ℕ)) → Ends Tame m (m, r)
loaded-Tame m (ok bytes) = IsTame-self m
loaded-Tame m (err x) = IsTame-self m
loaded-Tame m panic = IsTame-self m

load-Tame : (addr len : ℕ) → Follows Tame (load addr len)
unfolding load
load-Tame addr len = record { ends = λ m. loaded-Tame m (read_bytes m.memory addr len) }

move_bytes-Tame : (dst src n : ℕ) → Follows Tame (move_bytes dst src n)
unfolding move_bytes
move_bytes-Tame dst src n =
    Follows-bind Tame (load-Tame src n)
      λ bytes. Follows-bind Tame (store-Tame dst bytes) λ u. Follows-pure Tame 0

tamed :
    {A : Type 0} (m : Machine) (p : Machine × Result SbpfVmError A) → Ends Tame m p → IsTame m p.0
tamed m (t, ok a) h = h
tamed m (t, err x) h = h
tamed m (t, panic) h = h

mem_op_consume-Tame : (n : ℕ) (costs : ExecutionCost) → Follows Tame (mem_op_consume n costs)
unfolding mem_op_consume
mem_op_consume-Tame n costs = consume_units-Tame _

sol_memcpy-Tame :
    (registers : Registers) (costs : ExecutionCost) → Follows Tame (sol_memcpy registers costs)
unfolding sol_memcpy
sol_memcpy-Tame (dst, src, n, r3, r4) costs = Follows-bind Tame (mem_op_consume-Tame n costs) λ u.
    Follows-if Tame (not (is_nonoverlapping src n dst n))
      (Follows-fail Tame SbpfVmError.overlapping_memory_regions) (move_bytes-Tame dst src n)

sol_memmove-Tame :
    (registers : Registers) (costs : ExecutionCost) → Follows Tame (sol_memmove registers costs)
unfolding sol_memmove
sol_memmove-Tame (dst, src, n, r3, r4) costs =
    Follows-bind Tame (mem_op_consume-Tame n costs) λ u. move_bytes-Tame dst src n

sol_memset-Tame :
    (registers : Registers) (costs : ExecutionCost) → Follows Tame (sol_memset registers costs)
unfolding sol_memset
sol_memset-Tame (dst, c, n, r3, r4) costs =
    Follows-bind Tame (mem_op_consume-Tame n costs)
      λ u. Follows-bind Tame (store-Tame dst (replicate n (c % 256))) λ v. Follows-pure Tame 0

sol_memcmp-Tame :
    (registers : Registers) (costs : ExecutionCost) → Follows Tame (sol_memcmp registers costs)
unfolding sol_memcmp
sol_memcmp-Tame (s1, s2, n, result_ptr, r4) costs =
    Follows-bind Tame (mem_op_consume-Tame n costs) λ u. Follows-bind Tame (load-Tame s1 n) λ xs.
      Follows-bind Tame (load-Tame s2 n)
        λ ys. Follows-bind Tame (store_u32-Tame result_ptr _) λ v. Follows-pure Tame 0

sol_set_return_data-Tame :
    (registers : Registers) (costs : ExecutionCost) (program_id : Address)
    → Follows Tame (sol_set_return_data registers costs program_id)
unfolding sol_set_return_data
sol_set_return_data-Tame (addr, len, r2, r3, r4) costs program_id =
    Follows-bind Tame (consume_units-Tame _) λ u.
      Follows-if Tame (ltb max_return_data len)
        (Follows-fail Tame (SbpfVmError.syscall_error "Return data too large: {} > {}"))
        (Follows-if Tame (len == 0) (Follows-pure Tame (0, some (program_id, []))) (
          Follows-bind Tame (load-Tame addr len)
            λ bytes. Follows-pure Tame (0, some (program_id, bytes))))

copy_out-Tame :
    (a b : ℕ) (costs : ExecutionCost) (program_id : Address) (bytes : List ℕ) (n : ℕ)
    → Follows Tame (copy_out a b costs program_id bytes n)
unfolding copy_out
copy_out-Tame a b costs program_id bytes n =
    Follows-bind Tame (consume_units-Tame _)
      λ u. Follows-bind Tame (store-Tame a (take n bytes)) λ v. store-Tame b _

sol_get_return_data-Tame :
    (registers : Registers) (costs : ExecutionCost) (r : ReturnData)
    → Follows Tame (sol_get_return_data registers costs r)
unfolding sol_get_return_data
sol_get_return_data-Tame (a, len, b, r3, r4) costs none =
    Follows-bind Tame (consume_units-Tame _) λ u. Follows-pure Tame 0
sol_get_return_data-Tame (a, len, b, r3, r4) costs (some (program_id, bytes)) =
    let n = min len (length bytes) in
    Follows-bind Tame (consume_units-Tame _) λ u.
      Follows-bind Tame
        (Follows-if Tame (n == 0) (Follows-pure Tame tt)
          (copy_out-Tame a b costs program_id bytes n))
        λ v. Follows-pure Tame (length bytes)

-- However one of the six system calls ends, whatever its registers, the read-only bytes and the sizes of
-- the regions of memory stay, and so does the limit of the meter; a meter within its limit stays
-- within it, and where the limit is a word, no units are given back.
pub syscalls-Tame :
    (registers : Registers) (costs : ExecutionCost) (program_id : Address) (r : ReturnData)
    (m : Machine)
    → IsTame m (sol_memcpy registers costs m).0
      × IsTame m (sol_memmove registers costs m).0
      × IsTame m (sol_memset registers costs m).0
      × IsTame m (sol_memcmp registers costs m).0
      × IsTame m (sol_set_return_data registers costs program_id m).0
      × IsTame m (sol_get_return_data registers costs r m).0
syscalls-Tame registers costs program_id r m = (
  tamed m _ ((sol_memcpy-Tame registers costs).ends m),
  tamed m _ ((sol_memmove-Tame registers costs).ends m),
  tamed m _ ((sol_memset-Tame registers costs).ends m),
  tamed m _ ((sol_memcmp-Tame registers costs).ends m),
  tamed m _ ((sol_set_return_data-Tame registers costs program_id).ends m),
  tamed m _ ((sol_get_return_data-Tame registers costs r).ends m),
)
