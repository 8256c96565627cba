-- ===== src/Vm/Compute.antt =====
-- crates/vm/src/compute.rs: the meter of compute units. The meter is a shared cell
-- (`Rc<RefCell<_>>`): who holds a clone of it updates the one cell, so that the state of the
-- machine carries the cell's contents and a call that may consume units returns them.
pub mod Laws
use Prim.Native.Nat.{min}
use sbpf.Base.{ℕ, ◌+◌, ◌-◌, ◌^◌, ltb, if◌then◌else◌}
use sbpf.Errors.{Result, ok, err, SbpfVmError}

pub record ComputeMeter : Type 0 where
  pub consumed : ℕ
  pub limit : ℕ

unfoldable pub new : ℕ → ComputeMeter
new limit = record { consumed = 0; limit = limit }

abbrev u64_max : ℕ
u64_max = 2 ^ 64 - 1

unfoldable pub consume : ComputeMeter → ℕ → Result SbpfVmError ComputeMeter
consume m amount =
    let new_total = min (m.consumed + amount) u64_max in
    if ltb m.limit new_total
    then err (SbpfVmError.compute_budget_exceeded m.limit new_total)
    else ok (record m { consumed = new_total })

unfoldable pub get_remaining : ComputeMeter → ℕ
get_remaining m = m.limit - m.consumed

unfoldable pub reset : ComputeMeter → ComputeMeter
reset m = record m { consumed = 0 }
