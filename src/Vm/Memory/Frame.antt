-- ===== src/Vm/Memory/Frame.antt =====
-- What a write leaves alone.
use sbpf.Base.{ℕ, ◌+◌, ◌≤◌, ◌<◌, ◌≡◌, ◌≢◌, ap, ◌∙◌, ◌⊎◌, inl, inr, arith}
use sbpf.Base.{List, length, take, drop, ltb, if◌then◌else◌}
use sbpf.Errors.{ok, err, SbpfVmError, >>=-cong}
use sbpf.Vm.Memory.{Memory, MemoryRegion, region_bytes, overwrite, translate}
use sbpf.Vm.Memory.{get_slice, get_slice_mut, read_bytes, write_bytes, stack_start}
use sbpf.Vm.Memory.Overwrite.{length-overwrite, take-drop-overwrite_before, drop-overwrite_after}
use sbpf.Vm.Memory.Laws.{IsStored, write_bytes-IsStored, translate-IsSameShape, translate-address}

abbrev Apart : ℕ → ℕ → ℕ → ℕ → Type 0
Apart a n b k = (a + n ≤ b) ⊎ (b + k ≤ a)

-- A slice of the region written that does not meet the bytes written.
slice-overwrite :
    (xs : List ℕ) (i : ℕ) (vs : List ℕ) (j k : ℕ)
    → Apart j k i (length vs)
    → take k (drop j (overwrite xs i vs)) ≡ take k (drop j xs)
slice-overwrite xs i vs j k (inl before) = take-drop-overwrite_before xs i vs j k before
slice-overwrite xs i vs j k (inr after) = ap (take k) (drop-overwrite_after xs i vs j after)

pub MemoryRegion-eq : (r s : MemoryRegion) → (r ≡ s) ⊎ (r ≢ s)
MemoryRegion-eq r s = elim (region_discrete r s) [ yes e ↦ inl e | no n ↦ inr n ]
  where
    region_discrete : Discrete MemoryRegion
    region_discrete = hlevel

-- Two ranges of addresses in one region that are apart have offsets that are apart.
offsets-Apart :
    (m : Memory) (addr : ℕ) {region : MemoryRegion} {offset : ℕ} (n a j len : ℕ)
    → translate m addr ≡ ok (region, offset)
    → translate m a ≡ ok (region, j)
    → Apart a len addr n
    → Apart j len offset n
offsets-Apart m addr n a j len p q apart =
    let e = translate-address m addr p in let f = translate-address m a q in omega arith

get_slice-IsStored :
    {m m' : Memory} {region : MemoryRegion} {offset : ℕ} {bytes : List ℕ} (r : MemoryRegion)
    (j k : ℕ)
    → IsStored m region offset bytes m'
    → (r ≡ region → Apart j k offset (length bytes))
    → get_slice m' r j k ≡ get_slice m r j k
unfolding get_slice
get_slice-IsStored {m} {m'} {region} {offset} {bytes} r j k s apart =
    elim (MemoryRegion-eq r region) [
      | inl same ↦
          rw (same, s.here, length-overwrite)
            (rw (slice-overwrite (region_bytes m region) offset bytes j k (apart same)))
      | inr other ↦ rw (s.elsewhere r other)
    ]

-- A read that does not meet the bytes of a write that succeeds gives the same result as before the write, be it
-- bytes or an error.
pub read_bytes-write_bytes_apart :
    (m : Memory) (addr : ℕ) (bytes : List ℕ) {m' : Memory} (a len : ℕ)
    → (a + len ≤ addr) ⊎ (addr + length bytes ≤ a)
    → write_bytes m addr bytes ≡ ok m'
    → read_bytes m' a len ≡ read_bytes m a len
unfolding read_bytes
read_bytes-write_bytes_apart m addr bytes {m'} a len apart h =
    let (region, offset, located, s) = write_bytes-IsStored m addr bytes h in
    rw (translate-IsSameShape m m' a s.shape) (
      >>=-cong (translate m a) _ _ λ at found. get_slice-IsStored at.0 at.1 len s λ same.
        offsets-Apart m addr (length bytes) a at.1 len located (found ∙ ap (λ r. ok (r, at.1)) same)
          apart)

-- A write to an address below the stack, where the read-only bytes lie, is refused: with the
-- address where such a byte lies there, and as out of bounds where none does.
pub write_bytes_rodata :
    (m : Memory) (addr : ℕ) (bytes : List ℕ)
    → addr < stack_start
    → write_bytes m addr bytes
      ≡ err (
          if ltb addr (length m.rodata)
          then SbpfVmError.invalid_memory_access addr
          else SbpfVmError.memory_out_of_bounds addr 0)
unfolding write_bytes translate get_slice_mut
write_bytes_rodata m addr bytes h = ground arith
