-- ===== src/Runtime/Syscalls/Laws.antt =====
-- The steps that the system calls are made of, and what holds however a call ends.
use sbpf.Base.{ℕ, ◌≡◌, sym, ap}
use sbpf.Base.{List}
use sbpf.Errors.{Result, ok, err, panic, err-ne-ok, ok-ne-panic, SbpfVmError}
use sbpf.Vm.Memory.{Memory, read_bytes, write_bytes, write_u32}
use sbpf.Vm.Compute.{ComputeMeter, consume}
use sbpf.Runtime.Syscalls.{Machine, consume_units, metered, load, stored, store, store_u32}

metered-eq-ok :
    (m m' : Machine) (r : Result SbpfVmError ComputeMeter) {u : Unit {0}}
    → metered m r ≡ (m', ok u)
    → (m'.memory ≡ m.memory) × (r ≡ ok m'.compute)
metered-eq-ok m m' (ok c) h = (ap (λ p. p.0.memory) (sym h), ap (λ p. ok p.0.compute) h)
metered-eq-ok m m' (err e) h = absurd (err-ne-ok (ap (λ p. p.1) h))
metered-eq-ok m m' panic h = absurd (ok-ne-panic (sym (ap (λ p. p.1) h)))

pub consume_units-eq-ok :
    (n : ℕ) (m m' : Machine) {u : Unit {0}}
    → consume_units n m ≡ (m', ok u)
    → (m'.memory ≡ m.memory) × (consume m.compute n ≡ ok m'.compute)
unfolding consume_units
consume_units-eq-ok n m m' h = metered-eq-ok m m' (consume m.compute n) h

pub load-eq-ok :
    (addr len : ℕ) (m m' : Machine) {bytes : List ℕ}
    → load addr len m ≡ (m', ok bytes)
    → (m ≡ m') × (read_bytes m.memory addr len ≡ ok bytes)
unfolding load
load-eq-ok addr len m m' h = (ap (λ p. p.0) h, ap (λ p. p.1) h)

stored-eq-ok :
    (m m' : Machine) (r : Result SbpfVmError Memory) {u : Unit {0}}
    → stored m r ≡ (m', ok u)
    → (m'.compute ≡ m.compute) × (r ≡ ok m'.memory)
stored-eq-ok m m' (ok c) h = (ap (λ p. p.0.compute) (sym h), ap (λ p. ok p.0.memory) h)
stored-eq-ok m m' (err e) h = absurd (err-ne-ok (ap (λ p. p.1) h))
stored-eq-ok m m' panic h = absurd (ok-ne-panic (sym (ap (λ p. p.1) h)))

pub store-eq-ok :
    (addr : ℕ) (bytes : List ℕ) (m m' : Machine) {u : Unit {0}}
    → store addr bytes m ≡ (m', ok u)
    → (m'.compute ≡ m.compute) × (write_bytes m.memory addr bytes ≡ ok m'.memory)
unfolding store
store-eq-ok addr bytes m m' h = stored-eq-ok m m' (write_bytes m.memory addr bytes) h

pub store_u32-eq-ok :
    (addr value : ℕ) (m m' : Machine) {u : Unit {0}}
    → store_u32 addr value m ≡ (m', ok u)
    → (m'.compute ≡ m.compute) × (write_u32 m.memory addr value ≡ ok m'.memory)
unfolding store_u32
store_u32-eq-ok addr value m m' h = stored-eq-ok m m' (write_u32 m.memory addr value) h
