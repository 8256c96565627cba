-- ===== src/InstHandler/RoundTrip/Decoders.antt =====
-- Each decoder gives back the instruction whose bytes it reads.
use sbpf.Base.{ℕ, ◌≡◌, refl, arith}
use sbpf.Base.{List}
use sbpf.Base.Int.{pos}
use sbpf.Base.Words.{to_le_bytes}
use sbpf.Errors.{Result, ok, ◌>>=◌, SbpfError}
use sbpf.Opcode.{OperationType}
use sbpf.Opcode.Tables.{type_of}
use sbpf.Instruction.{Instruction}
use sbpf.Instruction.Decode.{
  parse_bytes, parse_bytes_v3, decode_load_memory, decode_store_immediate, decode_store_register,
  decode_binary_immediate, decode_binary_register, decode_unary, decode_endian, decode_jump,
  decode_jump_immediate, decode_jump_register, decode_jump32_immediate, decode_jump32_register,
  decode_exit,
}
use sbpf.Instruction.Encode.{to_bytes}
use sbpf.Instruction.Validate.Laws.{
  DstImm, DstSrcOff, DstOffImm, DstOnly, DstSrc, OffOnly, NoOperands,
}
use sbpf.InstHandler.RoundTrip.Bytes.{
  reader, is_load_immediate, is_call_register, parse_bytes_by-reader, to_bytes-slot,
}

-- The instruction is had back, with its span at the start of the bytes.
abbrev pub IsReturned : (List ℕ → Result SbpfError Instruction) → ℕ → Instruction → Type 0
IsReturned decode n inst = (to_bytes inst >>= decode) ≡ ok (record inst { span = (0, n) })

pub decode_load_memory-to_bytes :
    (inst : Instruction)
    → type_of inst.opcode ≡ OperationType.load_memory
    → DstSrcOff 32 inst.dst inst.src inst.off inst.imm
    → IsReturned decode_load_memory 8 inst
unfolding decode_load_memory parse_bytes reader is_load_immediate is_call_register to_le_bytes
decode_load_memory-to_bytes inst e (a, b, k, e1, e2, e3, e4, ha, hb, hk) =
    rw (to_bytes-slot OperationType.load_memory inst k (pos 0) e refl refl (rw e3) (rw e4)) (
      rw (e1, e2, e3, e4)
        (rw (
          parse_bytes_by-reader OperationType.load_memory inst.opcode a.n b.n k (pos 0) e ha hb hk
            (omega arith))))

pub decode_store_immediate-to_bytes :
    (inst : Instruction)
    → type_of inst.opcode ≡ OperationType.store_immediate
    → DstOffImm 32 inst.dst inst.src inst.off inst.imm
    → IsReturned decode_store_immediate 8 inst
unfolding decode_store_immediate parse_bytes reader is_load_immediate is_call_register to_le_bytes
decode_store_immediate-to_bytes inst e (a, k, z, e1, e2, e3, e4, ha, hk, hz) =
    rw (to_bytes-slot OperationType.store_immediate inst k z e refl refl (rw e3) (rw e4)) (
      rw (e1, e2, e3, e4)
        (rw (
          parse_bytes_by-reader OperationType.store_immediate inst.opcode a.n 0 k z e ha
            (omega arith) hk hz)))

pub decode_store_register-to_bytes :
    (inst : Instruction)
    → type_of inst.opcode ≡ OperationType.store_register
    → DstSrcOff 32 inst.dst inst.src inst.off inst.imm
    → IsReturned decode_store_register 8 inst
unfolding decode_store_register parse_bytes reader is_load_immediate is_call_register to_le_bytes
decode_store_register-to_bytes inst e (a, b, k, e1, e2, e3, e4, ha, hb, hk) =
    rw (to_bytes-slot OperationType.store_register inst k (pos 0) e refl refl (rw e3) (rw e4)) (
      rw (e1, e2, e3, e4)
        (rw (
          parse_bytes_by-reader OperationType.store_register inst.opcode a.n b.n k (pos 0) e ha hb
            hk (omega arith))))

pub decode_binary_immediate-to_bytes :
    (inst : Instruction)
    → type_of inst.opcode ≡ OperationType.binary_immediate
    → DstImm 32 inst.dst inst.src inst.off inst.imm
    → IsReturned decode_binary_immediate 8 inst
unfolding decode_binary_immediate parse_bytes reader is_load_immediate is_call_register to_le_bytes
decode_binary_immediate-to_bytes inst e (a, z, e1, e2, e3, e4, ha, hz) =
    rw (to_bytes-slot OperationType.binary_immediate inst (pos 0) z e refl refl (rw e3) (rw e4)) (
      rw (e1, e2, e3, e4)
        (rw (
          parse_bytes_by-reader OperationType.binary_immediate inst.opcode a.n 0 (pos 0) z e ha
            (omega arith) (omega arith) hz)))

pub decode_endian-to_bytes :
    (inst : Instruction)
    → type_of inst.opcode ≡ OperationType.endian
    → DstImm 32 inst.dst inst.src inst.off inst.imm
    → IsReturned decode_endian 8 inst
unfolding decode_endian parse_bytes reader is_load_immediate is_call_register to_le_bytes
decode_endian-to_bytes inst e (a, z, e1, e2, e3, e4, ha, hz) =
    rw (to_bytes-slot OperationType.endian inst (pos 0) z e refl refl (rw e3) (rw e4)) (
      rw (e1, e2, e3, e4)
        (rw (
          parse_bytes_by-reader OperationType.endian inst.opcode a.n 0 (pos 0) z e ha (omega arith)
            (omega arith) hz)))

pub decode_binary_register-to_bytes :
    (inst : Instruction)
    → type_of inst.opcode ≡ OperationType.binary_register
    → DstSrc inst.dst inst.src inst.off inst.imm
    → IsReturned decode_binary_register 8 inst
unfolding decode_binary_register parse_bytes reader is_load_immediate is_call_register to_le_bytes
decode_binary_register-to_bytes inst e (a, b, e1, e2, e3, e4, ha, hb) =
    rw
      (to_bytes-slot OperationType.binary_register inst (pos 0) (pos 0) e refl refl (rw e3) (rw e4))
      (rw (e1, e2, e3, e4)
        (rw (
          parse_bytes_by-reader OperationType.binary_register inst.opcode a.n b.n (pos 0) (pos 0) e
            ha hb (omega arith) (omega arith))))

pub decode_unary-to_bytes :
    (inst : Instruction)
    → type_of inst.opcode ≡ OperationType.unary
    → DstOnly inst.dst inst.src inst.off inst.imm
    → IsReturned decode_unary 8 inst
unfolding decode_unary parse_bytes reader is_load_immediate is_call_register to_le_bytes
decode_unary-to_bytes inst e (a, e1, e2, e3, e4, ha) =
    rw (to_bytes-slot OperationType.unary inst (pos 0) (pos 0) e refl refl (rw e3) (rw e4)) (
      rw (e1, e2, e3, e4)
        (rw (
          parse_bytes_by-reader OperationType.unary inst.opcode a.n 0 (pos 0) (pos 0) e ha
            (omega arith) (omega arith) (omega arith))))

pub decode_jump-to_bytes :
    (inst : Instruction)
    → type_of inst.opcode ≡ OperationType.jump
    → OffOnly inst.dst inst.src inst.off inst.imm
    → IsReturned decode_jump 8 inst
unfolding decode_jump parse_bytes reader is_load_immediate is_call_register to_le_bytes
decode_jump-to_bytes inst e (k, e1, e2, e3, e4, hk) =
    rw (to_bytes-slot OperationType.jump inst k (pos 0) e refl refl (rw e3) (rw e4)) (
      rw (e1, e2, e3, e4)
        (rw (
          parse_bytes_by-reader OperationType.jump inst.opcode 0 0 k (pos 0) e (omega arith)
            (omega arith) hk (omega arith))))

pub decode_jump_immediate-to_bytes :
    (inst : Instruction)
    → type_of inst.opcode ≡ OperationType.jump_immediate
    → DstOffImm 32 inst.dst inst.src inst.off inst.imm
    → IsReturned decode_jump_immediate 8 inst
unfolding decode_jump_immediate parse_bytes reader is_load_immediate is_call_register to_le_bytes
decode_jump_immediate-to_bytes inst e (a, k, z, e1, e2, e3, e4, ha, hk, hz) =
    rw (to_bytes-slot OperationType.jump_immediate inst k z e refl refl (rw e3) (rw e4)) (
      rw (e1, e2, e3, e4)
        (rw (
          parse_bytes_by-reader OperationType.jump_immediate inst.opcode a.n 0 k z e ha
            (omega arith) hk hz)))

pub decode_jump_register-to_bytes :
    (inst : Instruction)
    → type_of inst.opcode ≡ OperationType.jump_register
    → DstSrcOff 32 inst.dst inst.src inst.off inst.imm
    → IsReturned decode_jump_register 8 inst
unfolding decode_jump_register parse_bytes reader is_load_immediate is_call_register to_le_bytes
decode_jump_register-to_bytes inst e (a, b, k, e1, e2, e3, e4, ha, hb, hk) =
    rw (to_bytes-slot OperationType.jump_register inst k (pos 0) e refl refl (rw e3) (rw e4)) (
      rw (e1, e2, e3, e4)
        (rw (
          parse_bytes_by-reader OperationType.jump_register inst.opcode a.n b.n k (pos 0) e ha hb hk
            (omega arith))))

pub decode_jump32_immediate-to_bytes :
    (inst : Instruction)
    → type_of inst.opcode ≡ OperationType.jump32_immediate
    → DstOffImm 32 inst.dst inst.src inst.off inst.imm
    → IsReturned decode_jump32_immediate 8 inst
unfolding decode_jump32_immediate parse_bytes_v3 reader is_load_immediate is_call_register
    to_le_bytes
decode_jump32_immediate-to_bytes inst e (a, k, z, e1, e2, e3, e4, ha, hk, hz) =
    rw (to_bytes-slot OperationType.jump32_immediate inst k z e refl refl (rw e3) (rw e4)) (
      rw (e1, e2, e3, e4)
        (rw (
          parse_bytes_by-reader OperationType.jump32_immediate inst.opcode a.n 0 k z e ha
            (omega arith) hk hz)))

pub decode_jump32_register-to_bytes :
    (inst : Instruction)
    → type_of inst.opcode ≡ OperationType.jump32_register
    → DstSrcOff 32 inst.dst inst.src inst.off inst.imm
    → IsReturned decode_jump32_register 8 inst
unfolding decode_jump32_register parse_bytes_v3 reader is_load_immediate is_call_register
    to_le_bytes
decode_jump32_register-to_bytes inst e (a, b, k, e1, e2, e3, e4, ha, hb, hk) =
    rw (to_bytes-slot OperationType.jump32_register inst k (pos 0) e refl refl (rw e3) (rw e4)) (
      rw (e1, e2, e3, e4)
        (rw (
          parse_bytes_by-reader OperationType.jump32_register inst.opcode a.n b.n k (pos 0) e ha hb
            hk (omega arith))))

pub decode_exit-to_bytes :
    (inst : Instruction)
    → type_of inst.opcode ≡ OperationType.exit
    → NoOperands inst.dst inst.src inst.off inst.imm
    → IsReturned decode_exit 8 inst
unfolding decode_exit parse_bytes reader is_load_immediate is_call_register to_le_bytes
decode_exit-to_bytes inst e (e1, e2, e3, e4) =
    rw (to_bytes-slot OperationType.exit inst (pos 0) (pos 0) e refl refl (rw e3) (rw e4)) (
      rw (e1, e2, e3, e4)
        (rw (
          parse_bytes_by-reader OperationType.exit inst.opcode 0 0 (pos 0) (pos 0) e (omega arith)
            (omega arith) (omega arith) (omega arith))))
