-- ===== src/Vm/Step/Restart.antt =====
-- A machine that is reset runs as a new one does.
use sbpf.Base.{ℕ, ◌≡◌, refl, ap, String, Option, length}
use sbpf.Vm.Compute.{new as new_meter, reset as reset_meter}
use sbpf.Vm.Memory.{reset_heap, new as new_memory}
use sbpf.Vm.State.{SbpfVm, Handle, new_with_config, reset}
use sbpf.Vm.State.Laws.{IsValid}
use sbpf.Vm.State.Start.{reset-IsValid}
use sbpf.Vm.Step.{run}

module _ {H : Type 0} where
  -- The machine that is built from what another one holds.
  abbrev pub rebuilt : SbpfVm H → SbpfVm H
  rebuilt vm =
      new_with_config vm.program vm.memory.input vm.memory.rodata vm.syscall_handler vm.config

  -- The same with the stack that the other one left.
  abbrev pub rebuilt_on_stack : SbpfVm H → SbpfVm H
  rebuilt_on_stack vm =
      let new_vm = rebuilt vm in
      record new_vm { memory = record new_vm.memory { stack = vm.memory.stack } }

  reset-rebuilt :
      (vm : SbpfVm H)
      → length vm.memory.heap ≡ vm.config.heap_size
      → vm.compute_meter.limit ≡ vm.config.compute_unit_limit
      → reset vm ≡ rebuilt_on_stack vm
  unfolding reset reset_meter reset_heap new_with_config new_meter new_memory
  reset-rebuilt vm h l = rw (h, l) refl

  -- A valid machine, in whatever state it was left, whose heap and limit of units are as configured: once it is reset, it
  -- is valid again, and a run of it ends in the same state and with the same result as a run of the machine that is newly built from
  -- the same program, input, read-only bytes, syscall handler and configuration, but has the
  -- stack as it was left.
  pub run-reset :
      (get : ℕ → Option String) (handle : Handle H) (vm : SbpfVm H)
      → IsValid 0 vm
      → length vm.memory.heap ≡ vm.config.heap_size
      → vm.compute_meter.limit ≡ vm.config.compute_unit_limit
      → IsValid 0 (reset vm) × (run get handle (reset vm) ≡ run get handle (rebuilt_on_stack vm))
  run-reset get handle vm v h l = (reset-IsValid vm v, ap (run get handle) (reset-rebuilt vm h l))
