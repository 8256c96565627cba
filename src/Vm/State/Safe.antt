-- ===== src/Vm/State/Safe.antt =====
-- Steps that keep a machine valid, with rules to put them together.
use sbpf.Base.{ℕ, zero, suc, ◌+◌, ◌≤◌, ◌≡◌, refl, arith, Bool, true, false, if◌then◌else◌}
use sbpf.Base.{String, Option, some, none, List, [], ◌∷◌, length, get_elem?, set, length-set, ltb}
use sbpf.Base.{All, All-set, Bool-cases, inl, inr}
use sbpf.Errors.{Result, ok, err, panic, ExecutionError, SbpfVmError}
use sbpf.Vm.Memory.{Memory}
use sbpf.Vm.State.{
  SbpfVm, CallFrame, SavedRegisters, M, ◌>>=◌, pure, fail, lift, get_register, set_register, get_pc,
  set_pc, advance_pc, read, write, push_frame, pop, pop_frame, halt, get_stack_frame_size, continue,
  indexed, read_result, write_result, syscall_result, Handle, invoke, handle_syscall,
}
use sbpf.Vm.Memory.Bytes.{IsBytes}
use sbpf.Vm.State.Laws.{IsWord, IsFrame, IsMeter, IsValid, IsValid-less}
use sbpf.Vm.Compute.{ComputeMeter}

-- What holds of the value of a step that returns one.
abbrev pub Post : {A : Type 0} → (A → Type 0) → Result ExecutionError A → Type 0
Post Q (ok a) = Q a
Post Q (err e) = Unit
Post Q panic = Unit

abbrev pub Any : {A : Type 0} → A → Type 0
Any _ = Unit

-- From a machine with room for `j` frames the step goes to one with room for `k`, and `Q` holds of
-- what it returns.
pub record Safe {H A : Type 0} (j k : ℕ) (Q : A → Type 0) (m : M H A) : Type 0 where
  pub kept : (vm : SbpfVm H) → IsValid j vm → IsValid k (m vm).0 × Post Q (m vm).1

Post-Any : {A : Type 0} (r : Result ExecutionError A) → Post Any r
Post-Any (ok a) = tt
Post-Any (err e) = tt
Post-Any panic = tt

indexed-IsWord : (xs : List ℕ) (i : ℕ) → All IsWord xs → Post IsWord (indexed (get_elem? xs i))
indexed-IsWord [] i h = tt
indexed-IsWord (x ∷ xs) zero h = h.0
indexed-IsWord (x ∷ xs) (suc i) h = indexed-IsWord xs i h.1

-- A reader whose words are `u64`s, and a writer that stores bytes.
abbrev pub IsReader : (Memory → ℕ → Result SbpfVmError ℕ) → Type 0
IsReader reader =
    (m : Memory) (addr value : ℕ) → IsBytes m → reader m addr ≡ ok value → IsWord value

abbrev pub IsWriter : (Memory → ℕ → ℕ → Result SbpfVmError Memory) → Type 0
IsWriter writer =
    (m : Memory) (addr value : ℕ) (m' : Memory)
    → IsBytes m
    → writer m addr value ≡ ok m'
    → IsBytes m'

-- What is popped holds words, if there is a frame.
abbrev pub IsPopped : Option CallFrame → Type 0
IsPopped none = Unit
IsPopped (some frame) = IsFrame frame

read_result-IsWord :
    (addr : ℕ) (r : Result SbpfVmError ℕ)
    → ((value : ℕ) → r ≡ ok value → IsWord value)
    → Post IsWord (read_result addr r)
read_result-IsWord addr (ok value) q = q value refl
read_result-IsWord addr (err e) q = tt
read_result-IsWord addr panic q = tt

module _ {H : Type 0} where
  continue-Safe :
      {A B : Type 0} (i k : ℕ) (Q : A → Type 0) (R : B → Type 0) (f : A → M H B) (vm : SbpfVm H)
      (r : Result ExecutionError A)
      → k ≤ i
      → ((a : A) → Q a → Safe i k R (f a))
      → IsValid i vm
      → Post Q r
      → IsValid k (continue f vm r).0 × Post R (continue f vm r).1
  continue-Safe i k Q R f vm (ok a) h next v q = (next a q).kept vm v
  continue-Safe i k Q R f vm (err e) h next v q = (IsValid-less i k h v, tt)
  continue-Safe i k Q R f vm panic h next v q = (IsValid-less i k h v, tt)

  -- One step, and then another that is safe after what the first returns.
  pub Safe-bind_to :
      {A B : Type 0} (i j k : ℕ) {Q : A → Type 0} {R : B → Type 0} {m : M H A} {f : A → M H B}
      → k ≤ j
      → Safe i j Q m
      → ((a : A) → Q a → Safe j k R (f a))
      → Safe i k R (m >>= f)
  unfolding ◌>>=◌
  Safe-bind_to i j k {Q} {R} {m} {f} h first next = record {
    kept = λ vm v.
        let (v', q) = first.kept vm v in continue-Safe j k Q R f (m vm).0 (m vm).1 h next v' q;
  }

  pub Safe-bind :
      {A B : Type 0} {j : ℕ} {Q : A → Type 0} {R : B → Type 0} {m : M H A} {f : A → M H B}
      → Safe j j Q m
      → ((a : A) → Q a → Safe j j R (f a))
      → Safe j j R (m >>= f)
  Safe-bind {j = j} first next = Safe-bind_to j j j (omega arith) first next

  pub Safe-pure : {A : Type 0} {j : ℕ} {Q : A → Type 0} (a : A) → Q a → Safe {H = H} j j Q (pure a)
  unfolding pure
  Safe-pure a q = record { kept = λ vm v. (v, q) }

  pub Safe-fail :
      {A : Type 0} {j : ℕ} {Q : A → Type 0} (e : ExecutionError) → Safe {H = H} j j Q (fail e)
  unfolding fail
  Safe-fail e = record { kept = λ vm v. (v, tt) }

  pub Safe-lift :
      {A : Type 0} {j : ℕ} {Q : A → Type 0} (r : Result ExecutionError A)
      → Post Q r
      → Safe {H = H} j j Q (lift r)
  unfolding lift
  Safe-lift r q = record { kept = λ vm v. (v, q) }

  pub Safe-lift_any :
      {A : Type 0} {j : ℕ} (r : Result ExecutionError A) → Safe {H = H} j j Any (lift r)
  Safe-lift_any r = Safe-lift r (Post-Any r)

  pub Safe-if :
      {A : Type 0} {j : ℕ} {Q : A → Type 0} (b : Bool) {m n : M H A}
      → Safe j j Q m
      → Safe j j Q n
      → Safe j j Q (if b then m else n)
  Safe-if true p q = p
  Safe-if false p q = q

  pub Safe-get_register : {j : ℕ} (reg : ℕ) → Safe {H = H} j j IsWord (get_register reg)
  unfolding get_register
  Safe-get_register reg = record { kept = λ vm v. (v, indexed-IsWord vm.registers reg v.words) }

  IsValid-set :
      (j reg value : ℕ) (vm : SbpfVm H)
      → IsWord value
      → IsValid j vm
      → IsValid j (record vm { registers = set vm.registers reg value })
  IsValid-set j reg value vm h v = record {
    registers = rw (length-set vm.registers reg value) v.registers;
    words = All-set IsWord vm.registers reg value h v.words;
    memory = v.memory;
    depth = v.depth;
    frames = v.frames;
    meter = v.meter;
  }

  pub Safe-set_register :
      {j : ℕ} (reg value : ℕ) → IsWord value → Safe {H = H} j j Any (set_register reg value)
  unfolding set_register
  Safe-set_register {j} reg value h = record {
    kept = λ vm v. elim (Bool-cases (ltb reg (length vm.registers))) [
      | inl within ↦ rw within (IsValid-set j reg value vm h v, tt)
      | inr beyond ↦ rw beyond (v, tt)
    ];
  }

  pub Safe-get_pc : {j : ℕ} → Safe {H = H} j j Any get_pc
  unfolding get_pc
  Safe-get_pc = record { kept = λ vm v. (v, tt) }

  pub Safe-set_pc : {j : ℕ} (pc : ℕ) → Safe {H = H} j j Any (set_pc pc)
  unfolding set_pc
  Safe-set_pc pc = record {
    kept = λ vm v. (
      record {
        registers = v.registers;
        words = v.words;
        memory = v.memory;
        depth = v.depth;
        frames = v.frames;
        meter = v.meter;
      },
      tt,
    );
  }

  pub Safe-advance_pc : {j : ℕ} → Safe {H = H} j j Any advance_pc
  unfolding advance_pc set_pc
  Safe-advance_pc = record { kept = λ vm v. (Safe-set_pc (vm.pc + 1)).kept vm v }

  pub Safe-read :
      {j : ℕ} (reader : Memory → ℕ → Result SbpfVmError ℕ) (addr : ℕ)
      → IsReader reader
      → Safe {H = H} j j IsWord (read reader addr)
  unfolding read
  Safe-read reader addr h = record {
    kept = λ vm v.
        (v, read_result-IsWord addr (reader vm.memory addr) (λ x e. h vm.memory addr x v.memory e));
  }

  write_result-IsValid :
      (j addr : ℕ) (vm : SbpfVm H) (r : Result SbpfVmError Memory)
      → ((m : Memory) → r ≡ ok m → IsBytes m)
      → IsValid j vm
      → IsValid j (write_result addr vm r).0 × Post Any (write_result addr vm r).1
  write_result-IsValid j addr vm (ok m) h v = (
    record {
      registers = v.registers;
      words = v.words;
      memory = h m refl;
      depth = v.depth;
      frames = v.frames;
      meter = v.meter;
    },
    tt,
  )
  write_result-IsValid j addr vm (err e) h v = (v, tt)
  write_result-IsValid j addr vm panic h v = (v, tt)

  pub Safe-write :
      {j : ℕ} (writer : Memory → ℕ → ℕ → Result SbpfVmError Memory) (addr value : ℕ)
      → IsWriter writer
      → Safe {H = H} j j Any (write writer addr value)
  unfolding write
  Safe-write {j} writer addr value h = record {
    kept = λ vm v.
        write_result-IsValid j addr vm (writer vm.memory addr value)
          (λ m e. h vm.memory addr value m v.memory e) v;
  }

  pub Safe-push_frame :
      {j : ℕ} (return_pc : ℕ) (saved : SavedRegisters) (fp : ℕ)
      → IsFrame
          (record { return_pc = return_pc; saved_registers = saved; saved_frame_pointer = fp })
      → Safe {H = H} (suc j) j Any (push_frame return_pc saved fp)
  unfolding push_frame
  Safe-push_frame return_pc saved fp f = record {
    kept = λ vm v. (
      record {
        registers = v.registers;
        words = v.words;
        memory = v.memory;
        depth = let d = v.depth in omega arith;
        frames = (f, v.frames);
        meter = v.meter;
      },
      tt,
    );
  }

  pop-IsValid :
      (j : ℕ) (frames : List CallFrame) (vm : SbpfVm H)
      → length frames + j ≤ vm.config.max_call_depth
      → All IsFrame frames
      → IsValid j vm
      → IsValid j (pop frames vm).0 × Post IsPopped (pop frames vm).1
  pop-IsValid j [] vm d f v = (v, tt)
  pop-IsValid j (frame ∷ frames) vm d f v = (
    record {
      registers = v.registers;
      words = v.words;
      memory = v.memory;
      depth = omega arith;
      frames = f.1;
      meter = v.meter;
    },
    f.0,
  )

  pub Safe-pop_frame : {j : ℕ} → Safe {H = H} j j IsPopped pop_frame
  unfolding pop_frame
  Safe-pop_frame {j} = record { kept = λ vm v. pop-IsValid j vm.call_stack vm v.depth v.frames v }

  pub Safe-halt : {j : ℕ} (code : ℕ) → Safe {H = H} j j Any (halt code)
  unfolding halt
  Safe-halt code = record {
    kept = λ vm v. (
      record {
        registers = v.registers;
        words = v.words;
        memory = v.memory;
        depth = v.depth;
        frames = v.frames;
        meter = v.meter;
      },
      tt,
    );
  }

  pub Safe-get_stack_frame_size : {j : ℕ} → Safe {H = H} j j Any get_stack_frame_size
  unfolding get_stack_frame_size
  Safe-get_stack_frame_size = record { kept = λ vm v. (v, tt) }

-- What the machine relies on in a syscall handler: it leaves bytes in memory and the meter within
-- its limit, and returns a `u64`, which Rust's types and the meter's `consume` give.
pub record IsHandler {H : Type 0} (handle : Handle H) : Type 0 where
  pub memory :
      (h : H) (name : String) (registers : List ℕ) (m : Memory) (c : ComputeMeter)
      → IsBytes m
      → IsBytes (handle h name registers m c).1
  pub meter :
      (h : H) (name : String) (registers : List ℕ) (m : Memory) (c : ComputeMeter)
      → IsMeter c
      → IsMeter (handle h name registers m c).2
  pub value :
      (h : H) (name : String) (registers : List ℕ) (m : Memory) (c : ComputeMeter) (n : ℕ)
      → (handle h name registers m c).3 ≡ ok n
      → IsWord n

syscall_result-IsWord :
    (r : Result String ℕ) → ((n : ℕ) → r ≡ ok n → IsWord n) → Post IsWord (syscall_result r)
syscall_result-IsWord (ok n) h = h n refl
syscall_result-IsWord (err e) h = tt
syscall_result-IsWord panic h = tt

module _ {H : Type 0} (handle : Handle H) (safe : IsHandler handle) where
  Safe-invoke :
      {j : ℕ} (name : String) (registers : List ℕ)
      → Safe {H = H} j j IsWord (invoke handle name registers)
  unfolding invoke
  Safe-invoke name registers = record {
    kept = λ vm v. (
      record {
        registers = v.registers;
        words = v.words;
        memory = safe.memory vm.syscall_handler name registers vm.memory vm.compute_meter v.memory;
        depth = v.depth;
        frames = v.frames;
        meter = safe.meter vm.syscall_handler name registers vm.memory vm.compute_meter v.meter;
      },
      syscall_result-IsWord _
          (safe.value vm.syscall_handler name registers vm.memory vm.compute_meter),
    );
  }

  pub Safe-handle_syscall :
      {j : ℕ} (name : String) → Safe {H = H} j j IsWord (handle_syscall handle name)
  unfolding handle_syscall
  Safe-handle_syscall name = Safe-bind (Safe-get_register 1) λ r1 _.
      Safe-bind (Safe-get_register 2) λ r2 _. Safe-bind (Safe-get_register 3) λ r3 _.
        Safe-bind (Safe-get_register 4)
          λ r4 _. Safe-bind (Safe-get_register 5) λ r5 _. Safe-invoke name _
