-- ===== src/Vm/Step/Run.antt =====
-- How a run ends.
use sbpf.Base.{ℕ, zero, suc, ◌≡◌, refl, subst, String, Bool, true, false}
use sbpf.Base.{Option, if◌then◌else◌}
use sbpf.Errors.{ok, err, panic}
use sbpf.Vm.State.{SbpfVm, Handle}
use sbpf.Vm.Step.{Outcome, next_round, step, run_loop, run}

module _ {H : Type 0} (get : ℕ → Option String) (handle : Handle H) where
  -- What a run that returns `Ok` promises.
  abbrev IsDone : Outcome get handle → Type 0
  IsDone (vm, ok _) = vm.halted ≡ true
  IsDone (vm, err e) = Unit
  IsDone (vm, panic) = Unit

  next_round-IsDone :
      (rounds : SbpfVm H → Outcome get handle) (o : Outcome get handle)
      → ((vm : SbpfVm H) → IsDone (rounds vm))
      → IsDone (next_round get handle rounds o)
  next_round-IsDone rounds (vm, ok _) h = h vm
  next_round-IsDone rounds (vm, err e) h = tt
  next_round-IsDone rounds (vm, panic) h = tt

  choose-IsDone :
      (b : Bool) (vm : SbpfVm H) (o : Outcome get handle)
      → vm.halted ≡ b
      → IsDone o
      → IsDone (if b then (vm, ok tt) else o)
  choose-IsDone true vm o e h = e
  choose-IsDone false vm o e h = h

  run_loop-IsDone : (left : ℕ) (vm : SbpfVm H) → IsDone (run_loop get handle left vm)
  unfolding run_loop
  run_loop-IsDone zero vm = choose-IsDone vm.halted vm _ refl tt
  run_loop-IsDone (suc left) vm =
      choose-IsDone vm.halted vm _ refl
        (next_round-IsDone (run_loop get handle left) (step get handle vm) (run_loop-IsDone left))

  -- A run that returns `Ok` has halted: no other way out of the loop is a success.
  pub run_halted : (vm vm' : SbpfVm H) → run get handle vm ≡ (vm', ok tt) → vm'.halted ≡ true
  unfolding run
  run_halted vm vm' e = subst IsDone e (run_loop-IsDone vm.config.compute_unit_limit vm)
