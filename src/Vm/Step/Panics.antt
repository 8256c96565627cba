-- ===== src/Vm/Step/Panics.antt =====
-- An instruction that is decoded and makes the machine panic.
use sbpf.Base.{
  ℕ, ◌+◌, ◌≤◌, ◌<◌, ◌^◌, ◌-◌, ◌≡◌, refl, ap, ◌∙◌, arith, String, Option, some, none, inr,
}
use sbpf.Base.{get_elem?, length, false, get_elem?-lt, lt→ltb}
use sbpf.Base.Int.{ℤ}
use sbpf.Base.Words.{IsInt}
use sbpf.Errors.{ok, panic, ◌>>=◌}
use sbpf.Opcode.{Opcode}
use sbpf.Opcode.Tables.{type_of}
use sbpf.Opcode.Classes.{is_jump32_opcode}
use sbpf.Instruction.{Instruction, int, get_size}
use sbpf.Instruction.Encode.{to_bytes}
use sbpf.Instruction.Validate.{validate_binary_immediate}
use sbpf.Instruction.Validate.Laws.{IsEncodable}
use sbpf.Vm.Compute.{consume, get_remaining}
use sbpf.Vm.Compute.Laws.{consume_iff}
use sbpf.Vm.State.{SbpfVm, Handle, is_pc_valid, current_instruction}
use sbpf.Vm.State.Laws.{IsValid}
use sbpf.Vm.Step.{step, fetch_and_execute, execute_instruction}
use sbpf.Execute.Dispatch.{execute_binary_immediate, execute_binary_immediate_arm}
use sbpf.Execute.Alu64.Laws.{execute_alu64_imm_panics}
use sbpf.InstHandler.{handler_of}
use sbpf.InstHandler.Laws.{lookup-opcode_to_handler}
use sbpf.InstHandler.Codec.{from_bytes}
use sbpf.InstHandler.RoundTrip.{read_instruction-to_bytes, width, IsReadable}

-- mov64 of a number to a register
abbrev pub mov64 : ℕ → ℤ → Instruction
mov64 r imm = record {
  opcode = Opcode.mov64_imm;
  dst = some (record { n = r });
  src = none;
  off = none;
  imm = some (inr (int imm));
  span = (0, 8);
}

module _ {H : Type 0} (get : ℕ → Option String) (handle : Handle H) where
  mov64_valid :
      (r : ℕ) (imm : ℤ)
      → (handler_of get handle (type_of Opcode.mov64_imm)).validate (mov64 r imm) ≡ ok tt
  unfolding handler_of type_of validate_binary_immediate
  mov64_valid r imm = refl

  mov64-IsEncodable :
      (r : ℕ) (imm : ℤ)
      → r < 16
      → IsInt 32 imm
      → IsEncodable (width (type_of Opcode.mov64_imm)) (mov64 r imm).dst none none (mov64 r imm).imm
  unfolding type_of
  mov64-IsEncodable r imm h i = record { dst = h; src = tt; off = tt; imm = i }

  mov64-IsReadable :
      (r : ℕ) (imm : ℤ) → IsReadable get (type_of Opcode.mov64_imm) none (mov64 r imm).imm
  unfolding type_of
  mov64-IsReadable r imm = tt

  from_bytes-mov64 :
      (r : ℕ) (imm : ℤ)
      → r < 16
      → IsInt 32 imm
      → (to_bytes (mov64 r imm) >>= from_bytes get handle) ≡ ok (mov64 r imm)
  unfolding is_jump32_opcode get_size
  from_bytes-mov64 r imm h i =
      read_instruction-to_bytes get handle (mov64 r imm) (mov64_valid r imm)
        (mov64-IsEncodable r imm h i) (mov64-IsReadable r imm)

  execute_instruction-mov64 :
      (vm : SbpfVm H) (r : ℕ) (imm : ℤ)
      → IsValid 0 vm
      → 11 ≤ r
      → execute_instruction get handle (mov64 r imm) vm ≡ (vm, panic)
  unfolding execute_instruction handler_of type_of execute_binary_immediate
      execute_binary_immediate_arm
  execute_instruction-mov64 vm r imm v h =
      rw (lookup-opcode_to_handler get handle Opcode.mov64_imm) (
        rw (execute_alu64_imm_panics vm (mov64 r imm) (record { n = r }) imm v refl refl refl h)
          refl)

  -- The machine after a unit is paid.
  abbrev paid_for : SbpfVm H → SbpfVm H
  paid_for vm = record vm {
    compute_meter = record vm.compute_meter { consumed = vm.compute_meter.consumed + 1 };
  }

  current_instruction_lem :
      (vm : SbpfVm H) (inst : Instruction)
      → get_elem? vm.program vm.pc ≡ some inst
      → current_instruction vm ≡ ok inst
  unfolding current_instruction
  current_instruction_lem vm inst here = rw (current_instruction, here) refl

  fetch_and_execute_lem :
      (vm : SbpfVm H) (inst : Instruction)
      → get_elem? vm.program vm.pc ≡ some inst
      → fetch_and_execute get handle vm ≡ execute_instruction get handle inst vm
  unfolding fetch_and_execute
  fetch_and_execute_lem vm inst here = rw (current_instruction_lem vm inst here) refl

  -- A step that has a unit to pay with runs the instruction at the program counter.
  step-execute_instruction :
      (vm : SbpfVm H) (inst : Instruction)
      → vm.halted ≡ false
      → vm.compute_meter.consumed < vm.compute_meter.limit
      → vm.compute_meter.limit < 2 ^ 64 - 1
      → get_elem? vm.program vm.pc ≡ some inst
      → step get handle vm ≡ execute_instruction get handle inst (paid_for vm)
  unfolding get_remaining step is_pc_valid
  step-execute_instruction vm inst on left small here =
      let paid : consume vm.compute_meter 1
          ≡ ok (record vm.compute_meter { consumed = vm.compute_meter.consumed + 1 }) =
        (consume_iff vm.compute_meter _ 1 (omega arith) small).1 (omega arith, refl, refl) in
      let inside = lt→ltb vm.pc (length vm.program) (get_elem?-lt vm.program vm.pc here) in
      let fetched : step get handle vm ≡ fetch_and_execute get handle (paid_for vm) =
        simp (on, inside, paid) in
      fetched ∙ fetch_and_execute_lem (paid_for vm) inst here

  -- `mov64` of a number of 32 bits to a register from r11 to r15, which the machine does not have: its
  -- validator accepts it, and `from_bytes` has it back from the bytes that `to_bytes` writes. On a valid machine that is not
  -- halted, that has a unit left, whose limit is less than the largest `u64`, and whose next instruction it is, a step panics.
  pub step-mov64_panics :
      (vm : SbpfVm H) (r : ℕ) (imm : ℤ)
      → 11 ≤ r
      → r < 16
      → IsInt 32 imm
      → IsValid 0 vm
      → vm.halted ≡ false
      → vm.compute_meter.consumed < vm.compute_meter.limit
      → vm.compute_meter.limit < 2 ^ 64 - 1
      → get_elem? vm.program vm.pc ≡ some (mov64 r imm)
      → ((handler_of get handle (type_of Opcode.mov64_imm)).validate (mov64 r imm) ≡ ok tt)
        × ((to_bytes (mov64 r imm) >>= from_bytes get handle) ≡ ok (mov64 r imm))
        × ((step get handle vm).1 ≡ panic)
  step-mov64_panics vm r imm lo hi i v on left small here =
      let valid : IsValid 0 (paid_for vm) = record {
        registers = v.registers;
        words = v.words;
        memory = v.memory;
        depth = v.depth;
        frames = v.frames;
        meter = omega arith;
      } in
      (
        mov64_valid r imm,
        from_bytes-mov64 r imm hi i,
        ap (λ o. o.1) (step-execute_instruction vm (mov64 r imm) on left small here)
            ∙ ap (λ o. o.1) (execute_instruction-mov64 (paid_for vm) r imm valid lo),
      )
