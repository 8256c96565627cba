-- ===== src/Vm/Memory/Bytes.antt =====
-- Memory holds bytes: a read gives a word of its width, and a write keeps that.
use sbpf.Base.{ℕ, zero, suc, ◌+◌, ◌<◌, ◌^◌, ◌≡◌, sym, subst, ◌∙◌, inl, inr, arith}
use sbpf.Base.{List, [], ◌∷◌, length, drop, All, All-take, All-drop, All-replicate}
use sbpf.Base.{length-take, length-drop, ltb, Bool-cases, ltb-false→le}
use sbpf.Base.Words.{IsByte, from_le_bytes, from_le_bytes-lt, to_le_bytes, to_le_bytes-IsByte}
use sbpf.Errors.{ok, >>=-eq-ok, ok-injective, err-ne-ok}
use sbpf.Vm.Memory.{Memory, MemoryRegion, region_bytes, overwrite, translate, get_slice}
use sbpf.Vm.Memory.{read_word, write_bytes, read_bytes, write_word, reset_heap}
use sbpf.Vm.Memory.Laws.{write_bytes-IsStored, write_word-write_bytes}
use sbpf.Vm.Memory.Frame.{MemoryRegion-eq}

-- Every region holds bytes.
pub record IsBytes (m : Memory) : Type 0 where
  pub bytes : (r : MemoryRegion) → All IsByte (region_bytes m r)

All-overwrite :
    (xs : List ℕ) (i : ℕ) (vs : List ℕ)
    → All IsByte xs
    → All IsByte vs
    → All IsByte (overwrite xs i vs)
unfolding overwrite
All-overwrite xs zero [] h g = h
All-overwrite [] zero (v ∷ vs) h g = tt
All-overwrite (x ∷ xs) zero (v ∷ vs) h g = (g.0, All-overwrite xs zero vs h.1 g.1)
All-overwrite [] (suc i) vs h g = tt
All-overwrite (x ∷ xs) (suc i) vs h g = (h.0, All-overwrite xs i vs h.1 g)

pub write_bytes-IsBytes :
    (m : Memory) (addr : ℕ) (bytes : List ℕ) {m' : Memory}
    → All IsByte bytes
    → write_bytes m addr bytes ≡ ok m'
    → IsBytes m
    → IsBytes m'
write_bytes-IsBytes m addr bytes {m'} g h b =
    let (region, offset, located, s) = write_bytes-IsStored m addr bytes h in
    record {
      bytes = λ r. elim (MemoryRegion-eq r region) [
        | inl same ↦ rw (same, s.here) (All-overwrite _ offset bytes (b.bytes region) g)
        | inr other ↦ rw (s.elsewhere r other) (b.bytes r)
      ];
    }

pub write_word-IsBytes :
    (m : Memory) (addr k value : ℕ) {m' : Memory}
    → write_word m addr k value ≡ ok m'
    → IsBytes m
    → IsBytes m'
write_word-IsBytes m addr k value h b =
    write_bytes-IsBytes m addr (to_le_bytes k value) (to_le_bytes-IsByte k value)
      (sym (write_word-write_bytes m addr k value) ∙ h) b

length-get_slice :
    (m : Memory) (region : MemoryRegion) (offset len : ℕ) {bytes : List ℕ}
    → get_slice m region offset len ≡ ok bytes
    → length bytes ≡ len
unfolding get_slice
length-get_slice m region offset len h =
    let xs = region_bytes m region in
    elim (Bool-cases (ltb (length xs) (offset + len))) [
      | inl over ↦ absurd (err-ne-ok (rw over at h))
      | inr fits ↦ rw (← ok-injective (rw fits at h)) (
          length-take len (drop offset xs)
            (omega (arith, ltb-false→le fits, length-drop offset xs)))
    ]

pub length-read_bytes :
    (m : Memory) (addr len : ℕ) {bytes : List ℕ}
    → read_bytes m addr len ≡ ok bytes
    → length bytes ≡ len
unfolding read_bytes
length-read_bytes m addr len h =
    let (at, located, g) = >>=-eq-ok (translate m addr) _ h in length-get_slice m at.0 at.1 len g

get_slice-IsByte :
    (m : Memory) (r : MemoryRegion) (offset len : ℕ) {bytes : List ℕ}
    → IsBytes m
    → get_slice m r offset len ≡ ok bytes
    → All IsByte bytes
unfolding get_slice
get_slice-IsByte m r offset len b h =
    let data_r = region_bytes m r in
    elim (Bool-cases (ltb (length data_r) (offset + len))) [
      | inl over ↦ absurd (err-ne-ok (rw over at h))
      | inr fits ↦
          rw (← ok-injective (rw fits at h))
            (All-take IsByte len (drop offset data_r) (All-drop IsByte offset data_r (b.bytes r)))
    ]

pub read_bytes-IsByte :
    (m : Memory) (addr len : ℕ) {bytes : List ℕ}
    → IsBytes m
    → read_bytes m addr len ≡ ok bytes
    → All IsByte bytes
unfolding read_bytes
read_bytes-IsByte m addr len b h =
    let (at, located, g) = >>=-eq-ok (translate m addr) _ h in get_slice-IsByte m at.0 at.1 len b g

-- A word that is read fits its width.
pub read_word-lt :
    (m : Memory) (addr k : ℕ) {value : ℕ}
    → IsBytes m
    → read_word m addr k ≡ ok value
    → value < 256 ^ k
unfolding read_word
read_word-lt m addr k b h =
    let (at, located, h1) = >>=-eq-ok (translate m addr) _ h in
    let (slice, found, h2) = >>=-eq-ok (get_slice m at.0 at.1 k) _ h1 in
    let bytes = get_slice-IsByte m at.0 at.1 k b found in
    rw (← ok-injective h2) (
      subst (λ n. from_le_bytes slice < 256 ^ n) (length-get_slice m at.0 at.1 k found)
        (from_le_bytes-lt slice bytes))

pub reset_heap-IsBytes : (m : Memory) → IsBytes m → IsBytes (reset_heap m)
unfolding reset_heap region_bytes
reset_heap-IsBytes m b = record {
  bytes = elim [
    | MemoryRegion.input ↦ b.bytes MemoryRegion.input
    | MemoryRegion.rodata ↦ b.bytes MemoryRegion.rodata
    | MemoryRegion.stack ↦ b.bytes MemoryRegion.stack
    | MemoryRegion.heap ↦ All-replicate IsByte (length m.heap) 0 (omega arith)
  ];
}
