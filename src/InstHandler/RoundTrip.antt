-- ===== src/InstHandler/RoundTrip.antt =====
-- Instructions are had back from their bytes.
pub mod Bytes
pub mod Decoders
pub mod Calls
use sbpf.Base.{ℕ, ◌≡◌, refl, false, true, String, Option, some, ◌⊎◌, ap, ◌∙◌, inl, inr, Bool-cases}
use sbpf.Base.{List, if◌then◌else◌}
use sbpf.Base.Int.{ℤ, pos}
use sbpf.Errors.{Result, ok, err-ne-ok, ok-injective, ◌>>=◌, >>=-eq-ok, SbpfError}
use sbpf.Opcode.{Opcode, OperationType, opcode_eq}
use sbpf.Opcode.Tables.{type_of, lookup}
use sbpf.Opcode.Bytes.{to_byte, try_from, try_from_sbpf_v3}
use sbpf.Opcode.Bytes.Laws.{read_byte, read_byte-to_byte}
use sbpf.Opcode.Classes.{is_jump32_opcode}
use sbpf.Instruction.{Instruction, Register, Number, get_size}
use sbpf.Instruction.Decode.{byte_at}
use sbpf.Instruction.Validate.{
  validate_load_immediate, validate_load_memory, validate_store_immediate, validate_store_register,
  validate_binary_immediate, validate_binary_register, validate_unary, validate_endian,
  validate_jump, validate_jump_immediate, validate_jump_register, validate_call_immediate,
  validate_call_register, validate_exit,
}
use sbpf.Instruction.Validate.Laws.{
  IsEncodable, not_false-true, dst_imm-true, dst_src_off-true, dst_off_imm-true, dst_only-true,
  dst_src-true, off_only-true, src_imm-true, no_operands-true,
}
use sbpf.Instruction.Encode.{to_bytes, emit, offset_value, immediate_value}
use sbpf.Vm.State.{Handle}
use sbpf.InstHandler.{opcode_to_handler, handler_of}
use sbpf.InstHandler.Laws.{lookup-opcode_to_handler}
use sbpf.InstHandler.Codec.{from_bytes, from_bytes_sbpf_v3, decode_by}
use sbpf.InstHandler.RoundTrip.Bytes.{size, get_size-type_of}
use sbpf.InstHandler.RoundTrip.Decoders.{
  IsReturned, decode_load_memory-to_bytes, decode_store_immediate-to_bytes,
  decode_store_register-to_bytes, decode_binary_immediate-to_bytes, decode_endian-to_bytes,
  decode_binary_register-to_bytes, decode_unary-to_bytes, decode_jump-to_bytes,
  decode_jump_immediate-to_bytes, decode_jump_register-to_bytes, decode_jump32_immediate-to_bytes,
  decode_jump32_register-to_bytes, decode_exit-to_bytes,
}
use sbpf.InstHandler.RoundTrip.Calls.{
  IsCallee, decode_load_immediate-to_bytes, decode_call_register-to_bytes,
  decode_call_immediate-to_bytes,
}

-- The bits of an immediate: `lddw` has two slots for its own.
abbrev pub width : OperationType → ℕ
width OperationType.load_immediate = 64
width _ = 32

-- What is asked of a call and of no other instruction.
abbrev pub IsReadable :
    (ℕ → Option String) → OperationType → Option Register → Option (String ⊎ Number) → Type 0
IsReadable get OperationType.call_immediate s i = IsCallee get s i
IsReadable get _ s i = Unit

module _ {H : Type 0} (get : ℕ → Option String) (handle : Handle H) where
  decode-to_bytes :
      (t : OperationType) (inst : Instruction)
      → type_of inst.opcode ≡ t
      → (handler_of get handle t).validate inst ≡ ok tt
      → IsEncodable (width t) inst.dst inst.src inst.off inst.imm
      → IsReadable get t inst.src inst.imm
      → IsReturned (handler_of get handle t).decode (size t) inst
  unfolding handler_of size validate_load_immediate validate_load_memory validate_store_immediate
      validate_store_register validate_binary_immediate validate_binary_register validate_unary
      validate_endian validate_jump validate_jump_immediate validate_jump_register
      validate_call_immediate validate_call_register validate_exit
  decode-to_bytes OperationType.load_immediate inst e v f c =
      decode_load_immediate-to_bytes inst e
        (dst_imm-true _ _ _ _ f (not_false-true _ λ h. err-ne-ok (rw h at v)))
  decode-to_bytes OperationType.load_memory inst e v f c =
      decode_load_memory-to_bytes inst e
        (dst_src_off-true _ _ _ _ f (not_false-true _ λ h. err-ne-ok (rw h at v)))
  decode-to_bytes OperationType.store_immediate inst e v f c =
      decode_store_immediate-to_bytes inst e
        (dst_off_imm-true _ _ _ _ f (not_false-true _ λ h. err-ne-ok (rw h at v)))
  decode-to_bytes OperationType.store_register inst e v f c =
      decode_store_register-to_bytes inst e
        (dst_src_off-true _ _ _ _ f (not_false-true _ λ h. err-ne-ok (rw h at v)))
  decode-to_bytes OperationType.binary_immediate inst e v f c =
      decode_binary_immediate-to_bytes inst e
        (dst_imm-true _ _ _ _ f (not_false-true _ λ h. err-ne-ok (rw h at v)))
  decode-to_bytes OperationType.binary_register inst e v f c =
      decode_binary_register-to_bytes inst e
        (dst_src-true _ _ _ _ f (not_false-true _ λ h. err-ne-ok (rw h at v)))
  decode-to_bytes OperationType.unary inst e v f c =
      decode_unary-to_bytes inst e
        (dst_only-true _ _ _ _ f (not_false-true _ λ h. err-ne-ok (rw h at v)))
  decode-to_bytes OperationType.endian inst e v f c =
      decode_endian-to_bytes inst e
        (dst_imm-true _ _ _ _ f (not_false-true _ λ h. err-ne-ok (rw h at v)))
  decode-to_bytes OperationType.jump inst e v f c =
      decode_jump-to_bytes inst e
        (off_only-true _ _ _ _ f (not_false-true _ λ h. err-ne-ok (rw h at v)))
  decode-to_bytes OperationType.jump_immediate inst e v f c =
      decode_jump_immediate-to_bytes inst e
        (dst_off_imm-true _ _ _ _ f (not_false-true _ λ h. err-ne-ok (rw h at v)))
  decode-to_bytes OperationType.jump_register inst e v f c =
      decode_jump_register-to_bytes inst e
        (dst_src_off-true _ _ _ _ f (not_false-true _ λ h. err-ne-ok (rw h at v)))
  decode-to_bytes OperationType.jump32_immediate inst e v f c =
      decode_jump32_immediate-to_bytes inst e
        (dst_off_imm-true _ _ _ _ f (not_false-true _ λ h. err-ne-ok (rw h at v)))
  decode-to_bytes OperationType.jump32_register inst e v f c =
      decode_jump32_register-to_bytes inst e
        (dst_src_off-true _ _ _ _ f (not_false-true _ λ h. err-ne-ok (rw h at v)))
  decode-to_bytes OperationType.call_immediate inst e v f c =
      decode_call_immediate-to_bytes get inst e
        (src_imm-true _ _ _ _ f (not_false-true _ λ h. err-ne-ok (rw h at v))) c
  decode-to_bytes OperationType.call_register inst e v f c =
      decode_call_register-to_bytes inst e
        (dst_only-true _ _ _ _ f (not_false-true _ λ h. err-ne-ok (rw h at v)))
  decode-to_bytes OperationType.exit inst e v f c =
      decode_exit-to_bytes inst e
        (no_operands-true _ _ _ _ (not_false-true _ λ h. err-ne-ok (rw h at v)))

byte_at-emit : (op : Opcode) (d s : ℕ) (o i : ℤ) → byte_at (emit op d s o i) 0 ≡ ok (to_byte op)
unfolding emit
byte_at-emit op d s o i = elim (Bool-cases (opcode_eq op Opcode.lddw)) [
  | inl h ↦ rw h refl
  | inr h ↦ rw h refl
]

-- The first byte of an instruction is that of its opcode.
byte_at-to_bytes :
    (inst : Instruction) (bytes : List ℕ)
    → to_bytes inst ≡ ok bytes
    → byte_at bytes 0 ≡ ok (to_byte inst.opcode)
unfolding to_bytes
byte_at-to_bytes inst bytes h =
    let (o, ho, h1) = >>=-eq-ok (offset_value inst.off) _ h in
    let (i, hi, h2) = >>=-eq-ok (immediate_value inst.imm) _ h1 in
    elim (Bool-cases (opcode_eq inst.opcode Opcode.callx)) [
      | inl c ↦ rw (← ok-injective (rw c at h2)) (byte_at-emit _ _ _ _ _)
      | inr c ↦ rw (← ok-injective (rw c at h2)) (byte_at-emit _ _ _ _ _)
    ]

module _ {H : Type 0} (get : ℕ → Option String) (handle : Handle H) where
  -- The reading of bytes that an instruction belongs to.
  abbrev pub read_instruction : Opcode → List ℕ → Result SbpfError Instruction
  read_instruction op =
      if is_jump32_opcode op then from_bytes_sbpf_v3 get handle else from_bytes get handle

  read_instruction-eq :
      (op : Opcode) (bytes : List ℕ)
      → byte_at bytes 0 ≡ ok (to_byte op)
      → read_instruction op bytes ≡ (handler_of get handle (type_of op)).decode bytes
  unfolding from_bytes from_bytes_sbpf_v3
  read_instruction-eq op bytes first =
      let back = read_byte-to_byte op in
      let handled = lookup-opcode_to_handler get handle op in
      elim (Bool-cases (is_jump32_opcode op)) [
        | inl j ↦ rw (j, first) (rw (rw j at back, handled))
        | inr j ↦ rw (j, first) (rw (rw j at back, handled))
      ]

  read_back :
      (inst : Instruction) {result : Instruction}
      → (bytes : List ℕ) × (to_bytes inst ≡ ok bytes)
        × ((handler_of get handle (type_of inst.opcode)).decode bytes ≡ ok result)
      → (to_bytes inst >>= read_instruction inst.opcode) ≡ ok result
  read_back inst (bytes, written, decoded) =
      rw written
        (read_instruction-eq inst.opcode bytes (byte_at-to_bytes inst bytes written) ∙ decoded)

  -- An instruction that its validator accepts and whose operands fit (registers of four bits, no
  -- label, an offset of 16 bits, a plain immediate of 32 bits or of 64 for `lddw`, and in a call
  -- operands that the decoder reads as a number and not as the name of a static syscall) is had back
  -- from the bytes that `to_bytes` writes, with its span at their start: by `from_bytes_sbpf_v3` for
  -- a 32-bit jump, by `from_bytes` for any other.
  pub read_instruction-to_bytes :
      (inst : Instruction)
      → (handler_of get handle (type_of inst.opcode)).validate inst ≡ ok tt
      → IsEncodable (width (type_of inst.opcode)) inst.dst inst.src inst.off inst.imm
      → IsReadable get (type_of inst.opcode) inst.src inst.imm
      → (to_bytes inst >>= read_instruction inst.opcode)
        ≡ ok (record inst { span = (0, get_size inst) })
  read_instruction-to_bytes inst v f c = rw (get_size-type_of inst.opcode inst refl) (
      read_back inst (
        >>=-eq-ok (to_bytes inst) _
          (decode-to_bytes get handle (type_of inst.opcode) inst refl v f c)))
