-- ===== src/Runtime/Syscalls/Move.antt =====
-- `sol_memcpy`, `sol_memmove` and `sol_memset`: what they leave in memory.
use Prim.Native.Nat.{max}
use sbpf.Base.{ℕ, ◌+◌, ◌-◌, ◌≤◌, ◌<◌, ◌≡◌, ◌≢◌, ◌∙◌, sym, ap, subst, arith, true, false}
use sbpf.Base.{List, length, replicate, length-replicate, ◌%◌, ltb, ◌⊎◌, ◌↔◌, inl, inr, Bool-cases}
use sbpf.Errors.{ok-injective, ok, err-ne-ok}
use sbpf.Vm.Memory.{read_bytes, write_bytes}
use sbpf.Vm.Memory.Laws.{read_bytes-write_bytes}
use sbpf.Vm.Memory.Frame.{read_bytes-write_bytes_apart}
use sbpf.Vm.Memory.Bytes.{length-read_bytes}
use sbpf.Vm.Compute.{consume}
use sbpf.Runtime.Stateful.{>>=-eq-ok, pure, fail}
use sbpf.Runtime.Config.{ExecutionCost}
use sbpf.Runtime.Syscalls.{
  Machine, consume_units, mem_op_consume, div_or_max, is_nonoverlapping, load, store, move_bytes,
  sol_memcpy, sol_memmove, sol_memset,
}
use sbpf.Runtime.Syscalls.Laws.{consume_units-eq-ok, load-eq-ok, store-eq-ok}

-- The units that a call on `n` bytes costs.
abbrev pub mem_op_cost : ℕ → ExecutionCost → ℕ
mem_op_cost n costs = max costs.mem_op_base_cost (div_or_max n costs.cpi_bytes_per_unit)

-- The bytes lie at `dst`, what lies apart from them is as before, and the units are used.
pub record IsStored (m m' : Machine) (dst : ℕ) (bytes : List ℕ) (costs : ExecutionCost)
    : Type 0 where
  pub lands : read_bytes m'.memory dst (length bytes) ≡ ok bytes
  pub apart :
      (a len : ℕ)
      → (a + len ≤ dst) ⊎ (dst + length bytes ≤ a)
      → read_bytes m'.memory a len ≡ read_bytes m.memory a len
  pub paid : consume m.compute (mem_op_cost (length bytes) costs) ≡ ok m'.compute

-- A store after the units are used.
store-IsStored :
    (m n o : Machine) (dst : ℕ) (bytes : List ℕ) (costs : ExecutionCost)
    → n.memory ≡ m.memory
    → consume m.compute (mem_op_cost (length bytes) costs) ≡ ok n.compute
    → o.compute ≡ n.compute
    → write_bytes n.memory dst bytes ≡ ok o.memory
    → IsStored m o dst bytes costs
store-IsStored m n o dst bytes costs same paid kept written = record {
  lands = read_bytes-write_bytes n.memory dst bytes written;
  apart = λ a len d.
      read_bytes-write_bytes_apart n.memory dst bytes a len d written
      ∙ ap (λ memory. read_bytes memory a len) same;
  paid = paid ∙ ap ok (sym kept);
}

move_bytes-IsStored :
    (dst src len : ℕ) (costs : ExecutionCost) (m n o : Machine) {r : ℕ}
    → n.memory ≡ m.memory
    → consume m.compute (mem_op_cost len costs) ≡ ok n.compute
    → move_bytes dst src len n ≡ (o, ok r)
    → (bytes : List ℕ) × (read_bytes m.memory src len ≡ ok bytes)
      × (length bytes ≡ len)
      × (r ≡ 0)
      × IsStored m o dst bytes costs
unfolding move_bytes pure
move_bytes-IsStored dst src len costs m n o same paid h =
    let (n1, bytes, e1, h1) = >>=-eq-ok (load src len) _ h in
    let (kept1, there) = load-eq-ok src len n n1 e1 in
    let (n2, u, e2, h2) = >>=-eq-ok (store dst bytes) _ h1 in
    let (kept2, written) = store-eq-ok dst bytes n1 n2 e2 in
    let size = length-read_bytes n.memory src len there in
    let last : n2 ≡ o = ap (λ p. p.0) h2 in
    (
      bytes,
      subst (λ memory. read_bytes memory src len ≡ ok bytes) same there,
      size,
      sym (ok-injective (ap (λ p. p.1) h2)),
      store-IsStored m n o dst bytes costs same
          (subst (λ k. consume m.compute (mem_op_cost k costs) ≡ ok n.compute) (sym size) paid)
          (ap (λ q. q.compute) (sym last) ∙ kept2 ∙ ap (λ q. q.compute) (sym kept1))
          (moved bytes kept1 last written),
    )
  where
    moved :
        {x y z w : Machine} (bs : List ℕ)
        → x ≡ y
        → z ≡ w
        → write_bytes y.memory dst bs ≡ ok z.memory
        → write_bytes x.memory dst bs ≡ ok w.memory
    moved bs p q g = cc

-- A `sol_memmove` that succeeds leaves at its destination the bytes that lay at its source, also
-- where the two overlap, returns 0, uses the units for their number, and leaves alone all that lies
-- apart from the destination.
pub sol_memmove-IsStored :
    (dst src n r3 r4 : ℕ) (costs : ExecutionCost) (m m' : Machine) {r : ℕ}
    → sol_memmove (dst, src, n, r3, r4) costs m ≡ (m', ok r)
    → (bytes : List ℕ) × (read_bytes m.memory src n ≡ ok bytes)
      × (length bytes ≡ n)
      × (r ≡ 0)
      × IsStored m m' dst bytes costs
unfolding sol_memmove mem_op_consume
sol_memmove-IsStored dst src n r3 r4 costs m m' h =
    let (m1, u, e, g) = >>=-eq-ok (consume_units (mem_op_cost n costs)) _ h in
    let (same, paid) = consume_units-eq-ok (mem_op_cost n costs) m m1 e in
    move_bytes-IsStored dst src n costs m m1 m' same paid g

Apart-nonoverlapping :
    (src dst n : ℕ) → is_nonoverlapping src n dst n ≡ true → (src + n ≤ dst) ⊎ (dst + n ≤ src)
unfolding is_nonoverlapping
Apart-nonoverlapping src dst n h = ground arith

overlapping-shared :
    (src dst n : ℕ)
    → is_nonoverlapping src n dst n ≡ false
    → (i : ℕ) × (j : ℕ) × (i < n) × (j < n) × (src + i ≡ dst + j)
unfolding is_nonoverlapping
overlapping-shared src dst n h = elim (Bool-cases (ltb dst src)) [
  | inl above ↦ (0, src - dst, ground arith, ground arith, ground arith)
  | inr below ↦ (dst - src, 0, ground arith, ground arith, ground arith)
]

-- The test finds two ranges of one length to be apart exactly where they share no address.
pub is_nonoverlapping_iff :
    (src dst n : ℕ)
    → (is_nonoverlapping src n dst n ≡ true) ↔ ((i j : ℕ) → i < n → j < n → src + i ≢ dst + j)
is_nonoverlapping_iff src dst n = (
  λ h i j p q e. omega (arith, Apart-nonoverlapping src dst n h),
  λ h. elim (Bool-cases (is_nonoverlapping src n dst n)) [
    | inl apart ↦ apart
    | inr overlap ↦
        let (i, j, p, q, e) = overlapping-shared src dst n overlap in absurd (h i j p q e)
  ],
)

-- A `sol_memcpy` that succeeds has ranges that share no address, and leaves at its destination the
-- bytes that lay at its source and still lie there, returns 0, uses the units for their number, and
-- leaves alone all that lies apart from the destination.
pub sol_memcpy-IsStored :
    (dst src n r3 r4 : ℕ) (costs : ExecutionCost) (m m' : Machine) {r : ℕ}
    → sol_memcpy (dst, src, n, r3, r4) costs m ≡ (m', ok r)
    → ((i j : ℕ) → i < n → j < n → src + i ≢ dst + j)
      × (bytes : List ℕ) × (read_bytes m.memory src n ≡ ok bytes)
      × (read_bytes m'.memory src n ≡ ok bytes)
      × (length bytes ≡ n)
      × (r ≡ 0)
      × IsStored m m' dst bytes costs
unfolding sol_memcpy mem_op_consume fail
sol_memcpy-IsStored dst src n r3 r4 costs m m' h =
    let (m1, u, e, g) = >>=-eq-ok (consume_units (mem_op_cost n costs)) _ h in
    let (same, paid) = consume_units-eq-ok (mem_op_cost n costs) m m1 e in
    elim (Bool-cases (is_nonoverlapping src n dst n)) [
      | inl apart ↦
          let (bytes, there, size, zero, s) =
            move_bytes-IsStored dst src n costs m m1 m' same paid (rw apart at g) in
          (
            (is_nonoverlapping_iff src dst n).0 apart,
            bytes,
            there,
            s.apart src n (omega (arith, size, Apart-nonoverlapping src dst n apart)) ∙ there,
            size,
            zero,
            s,
          )
      | inr overlap ↦ absurd (err-ne-ok (ap (λ p. p.1) (rw overlap at g)))
    ]

-- A `sol_memset` that succeeds leaves at its destination as many bytes as it is asked for, each the
-- low byte of its argument, returns 0, uses the units for their number, and leaves alone all that
-- lies apart from them.
pub sol_memset-IsStored :
    (dst c n r3 r4 : ℕ) (costs : ExecutionCost) (m m' : Machine) {r : ℕ}
    → sol_memset (dst, c, n, r3, r4) costs m ≡ (m', ok r)
    → (r ≡ 0) × IsStored m m' dst (replicate n (c % 256)) costs
unfolding sol_memset mem_op_consume pure
sol_memset-IsStored dst c n r3 r4 costs m m' h =
    let bytes = replicate n (c % 256) in
    let (m1, u, e, h1) = >>=-eq-ok (consume_units (mem_op_cost n costs)) _ h in
    let (same, paid) = consume_units-eq-ok (mem_op_cost n costs) m m1 e in
    let (m2, v, f, h2) = >>=-eq-ok (store dst bytes) _ h1 in
    let (kept, written) = store-eq-ok dst bytes m1 m2 f in
    (
      sym (ok-injective (ap (λ p. p.1) h2)),
      subst (λ o. IsStored m o dst bytes costs) (ap (λ p. p.0) h2)
          (store-IsStored m m1 m2 dst bytes costs same
            (subst (λ k. consume m.compute (mem_op_cost k costs) ≡ ok m1.compute)
              (sym (length-replicate n (c % 256))) paid)
            kept written),
    )
