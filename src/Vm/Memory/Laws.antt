-- ===== src/Vm/Memory/Laws.antt =====
-- What a write to memory does: the bytes written are read back, all other bytes and the sizes of
-- the regions stay, and the read-only region is never written.
use sbpf.Base.{ℕ, ◌+◌, ◌≤◌, ◌<◌, ◌^◌, ◌≡◌, ◌≢◌, refl, sym, ap, subst, ◌∙◌, inl, inr}
use sbpf.Base.{arith, ltb, Bool-cases, ltb-false→le, le→ltb-false}
use sbpf.Base.{List, length, take, drop}
use sbpf.Base.Words.{to_le_bytes, from_le_bytes, length-to_le_bytes, from_le_bytes-to_le_bytes}
use sbpf.Errors.{ok, ok-injective, err-ne-ok, >>=-eq-ok}
use sbpf.Vm.Memory.{
  Memory, MemoryRegion, region_bytes, region_start, overwrite, translate, get_slice,
}
use sbpf.Vm.Memory.{get_slice_mut, read_bytes, read_word, write_bytes, write_word}
use sbpf.Vm.Memory.Overwrite.{length-overwrite, take-drop-overwrite}

-- The regions have the same sizes, and the read-only bytes are the same.
pub record IsSameShape (m m' : Memory) : Type 0 where
  pub rodata : m'.rodata ≡ m.rodata
  pub stack : length m'.stack ≡ length m.stack
  pub heap : length m'.heap ≡ length m.heap
  pub input : length m'.input ≡ length m.input

pub translate-IsSameShape :
    (m m' : Memory) (addr : ℕ) → IsSameShape m m' → translate m' addr ≡ translate m addr
unfolding translate
translate-IsSameShape m m' addr s = simp (s.rodata, s.stack, s.heap, s.input)

-- What a mutable slice of `bytes` does to the region that it lies in.
pub record IsStored (m : Memory) (region : MemoryRegion) (offset : ℕ) (bytes : List ℕ) (m' : Memory)
    : Type 0 where
  pub shape : IsSameShape m m'
  pub writable : region ≢ MemoryRegion.rodata
  pub fits : offset + length bytes ≤ length (region_bytes m region)
  pub here : region_bytes m' region ≡ overwrite (region_bytes m region) offset bytes
  pub elsewhere : (r : MemoryRegion) → r ≢ region → region_bytes m' r ≡ region_bytes m r
  pub heap_ptr : m'.heap_ptr ≡ m.heap_ptr

IsStored-input :
    (m : Memory) (offset : ℕ) (bytes : List ℕ)
    → offset + length bytes ≤ length m.input
    → IsStored m MemoryRegion.input offset bytes
        (record m { input = overwrite m.input offset bytes })
unfolding region_bytes
IsStored-input m offset bytes h = record {
  shape = record {
    rodata = refl;
    stack = refl;
    heap = refl;
    input = length-overwrite m.input offset bytes;
  };
  writable = λ e. cc;
  fits = h;
  here = refl;
  elsewhere = elim [
    | MemoryRegion.input ↦ λ ne. absurd (ne refl)
    | MemoryRegion.rodata ↦ λ ne. refl
    | MemoryRegion.stack ↦ λ ne. refl
    | MemoryRegion.heap ↦ λ ne. refl
  ];
  heap_ptr = refl;
}

IsStored-stack :
    (m : Memory) (offset : ℕ) (bytes : List ℕ)
    → offset + length bytes ≤ length m.stack
    → IsStored m MemoryRegion.stack offset bytes
        (record m { stack = overwrite m.stack offset bytes })
unfolding region_bytes
IsStored-stack m offset bytes h = record {
  shape = record {
    rodata = refl;
    stack = length-overwrite m.stack offset bytes;
    heap = refl;
    input = refl;
  };
  writable = λ e. cc;
  fits = h;
  here = refl;
  elsewhere = elim [
    | MemoryRegion.input ↦ λ ne. refl
    | MemoryRegion.rodata ↦ λ ne. refl
    | MemoryRegion.stack ↦ λ ne. absurd (ne refl)
    | MemoryRegion.heap ↦ λ ne. refl
  ];
  heap_ptr = refl;
}

IsStored-heap :
    (m : Memory) (offset : ℕ) (bytes : List ℕ)
    → offset + length bytes ≤ length m.heap
    → IsStored m MemoryRegion.heap offset bytes (record m { heap = overwrite m.heap offset bytes })
unfolding region_bytes
IsStored-heap m offset bytes h = record {
  shape = record {
    rodata = refl;
    stack = refl;
    heap = length-overwrite m.heap offset bytes;
    input = refl;
  };
  writable = λ e. cc;
  fits = h;
  here = refl;
  elsewhere = elim [
    | MemoryRegion.input ↦ λ ne. refl
    | MemoryRegion.rodata ↦ λ ne. refl
    | MemoryRegion.stack ↦ λ ne. refl
    | MemoryRegion.heap ↦ λ ne. absurd (ne refl)
  ];
  heap_ptr = refl;
}

get_slice_mut-IsStored :
    (m : Memory) (region : MemoryRegion) (offset : ℕ) (bytes : List ℕ) {put : List ℕ → Memory}
    → get_slice_mut m region offset (length bytes) ≡ ok put
    → IsStored m region offset bytes (put bytes)
unfolding get_slice_mut
get_slice_mut-IsStored m MemoryRegion.rodata offset bytes h = absurd (cc)
get_slice_mut-IsStored m MemoryRegion.input offset bytes h =
    let n = length bytes in
    elim (Bool-cases (ltb (length m.input) (offset + n))) [
      | inl over ↦ absurd (err-ne-ok (rw over at h))
      | inr fits ↦
          rw (← ok-injective (rw fits at h)) (IsStored-input m offset bytes (ltb-false→le fits))
    ]
get_slice_mut-IsStored m MemoryRegion.stack offset bytes h =
    let n = length bytes in
    elim (Bool-cases (ltb (length m.stack) (offset + n))) [
      | inl over ↦ absurd (err-ne-ok (rw over at h))
      | inr fits ↦
          rw (← ok-injective (rw fits at h)) (IsStored-stack m offset bytes (ltb-false→le fits))
    ]
get_slice_mut-IsStored m MemoryRegion.heap offset bytes h =
    let n = length bytes in
    elim (Bool-cases (ltb (length m.heap) (offset + n))) [
      | inl over ↦ absurd (err-ne-ok (rw over at h))
      | inr fits ↦
          rw (← ok-injective (rw fits at h)) (IsStored-heap m offset bytes (ltb-false→le fits))
    ]

-- A slice is read where it lies in its region.
get_slice-fits :
    (m : Memory) (region : MemoryRegion) (offset len : ℕ)
    → offset + len ≤ length (region_bytes m region)
    → get_slice m region offset len ≡ ok (take len (drop offset (region_bytes m region)))
unfolding get_slice
get_slice-fits m region offset len h = rw (le→ltb-false _ _ h)

-- Reading the slice that was stored.
get_slice-stored :
    {m m' : Memory} {region : MemoryRegion} {offset : ℕ} {bytes : List ℕ}
    → IsStored m region offset bytes m'
    → get_slice m' region offset (length bytes) ≡ ok bytes
get_slice-stored {m} {m'} {region} {offset} {bytes} s =
    get_slice-fits m' region offset (length bytes) (rw (s.here, length-overwrite) s.fits)
    ∙ ap ok (rw s.here (take-drop-overwrite (region_bytes m region) offset bytes s.fits))

-- Where a write that succeeds went.
pub write_bytes-IsStored :
    (m : Memory) (addr : ℕ) (bytes : List ℕ) {m' : Memory}
    → write_bytes m addr bytes ≡ ok m'
    → (region : MemoryRegion) × (offset : ℕ) × (translate m addr ≡ ok (region, offset))
      × IsStored m region offset bytes m'
unfolding write_bytes
write_bytes-IsStored m addr bytes h =
    let (at, located, h1) = >>=-eq-ok (translate m addr) _ h in
    let (put, granted, h2) = >>=-eq-ok (get_slice_mut m at.0 at.1 (length bytes)) _ h1 in
    (
      at.0,
      at.1,
      located,
      subst (IsStored m at.0 at.1 bytes) (ok-injective h2)
          (get_slice_mut-IsStored m at.0 at.1 bytes granted),
    )

pub write_word-write_bytes :
    (m : Memory) (addr k value : ℕ)
    → write_word m addr k value ≡ write_bytes m addr (to_le_bytes k value)
unfolding write_word write_bytes
write_word-write_bytes m addr k value = rw length-to_le_bytes

pub write_bytes-IsSameShape :
    (m : Memory) (addr : ℕ) (bytes : List ℕ) {m' : Memory}
    → write_bytes m addr bytes ≡ ok m'
    → IsSameShape m m'
write_bytes-IsSameShape m addr bytes h = (write_bytes-IsStored m addr bytes h).3.shape

-- The bytes that a write stored are read back from the same address.
pub read_bytes-write_bytes :
    (m : Memory) (addr : ℕ) (bytes : List ℕ) {m' : Memory}
    → write_bytes m addr bytes ≡ ok m'
    → read_bytes m' addr (length bytes) ≡ ok bytes
unfolding read_bytes
read_bytes-write_bytes m addr bytes {m'} h =
    let (region, offset, located, s) = write_bytes-IsStored m addr bytes h in
    rw (translate-IsSameShape m m' addr s.shape, located) (get_slice-stored s)

read_word-read_bytes :
    (m : Memory) (addr k : ℕ) (bytes : List ℕ)
    → read_bytes m addr k ≡ ok bytes
    → read_word m addr k ≡ ok (from_le_bytes bytes)
unfolding read_word read_bytes
read_word-read_bytes m addr k bytes h =
    let (at, located, h1) = >>=-eq-ok (translate m addr) _ h in rw located (rw h1)

-- A word of `k` bytes, for any `k`, that a write stored is read back from the same address.
pub read_word-write_word :
    (m : Memory) (addr k value : ℕ) {m' : Memory}
    → value < 256 ^ k
    → write_word m addr k value ≡ ok m'
    → read_word m' addr k ≡ ok value
read_word-write_word m addr k value {m'} fits h =
    let bytes = to_le_bytes k value in
    let back =
      read_bytes-write_bytes m addr bytes (sym (write_word-write_bytes m addr k value) ∙ h) in
    read_word-read_bytes m' addr k bytes (rw length-to_le_bytes at back)
    ∙ ap ok (from_le_bytes-to_le_bytes k value fits)

-- The address of an offset in a region.
pub translate-address :
    (m : Memory) (addr : ℕ) {region : MemoryRegion} {offset : ℕ}
    → translate m addr ≡ ok (region, offset)
    → addr ≡ region_start region + offset
unfolding translate region_start
translate-address m addr h = ground arith
