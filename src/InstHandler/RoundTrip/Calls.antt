-- ===== src/InstHandler/RoundTrip/Calls.antt =====
-- The decoders of `lddw`, which has two slots, and of the two kinds of call.
use sbpf.Base.{ℕ, ◌<◌, ◌≡◌, refl, true, false, String, Option, some, none, ◌⊎◌, inr, ap, ◌∙◌, arith}
use sbpf.Base.Int.{pos}
use sbpf.Base.Words.{to_le_bytes, to_word}
use sbpf.Errors.{ok}
use sbpf.Opcode.{Opcode, OperationType, opcode_eq}
use sbpf.Opcode.Tables.{type_of}
use sbpf.Opcode.Bytes.{to_byte, try_from}
use sbpf.Instruction.{Instruction, Register, Number, int}
use sbpf.Instruction.Decode.{
  parse_bytes, call_operand, decode_load_immediate, decode_call_immediate, decode_call_register,
  callx_register,
}
use sbpf.Instruction.Encode.{to_bytes}
use sbpf.Instruction.Encode.Laws.{parse_bytes_by-slot, emit-slot, emit-lddw, join_halves_lem}
use sbpf.Instruction.Validate.Laws.{DstImm, DstOnly, SrcImm}
use sbpf.InstHandler.RoundTrip.Bytes.{
  reader, is_load_immediate, is_call_register, reader-to_byte, opcode_eq-lddw, opcode_eq-callx,
  parse_bytes_by-reader, to_bytes-slot,
}
use sbpf.InstHandler.RoundTrip.Decoders.{IsReturned}

-- The operand of a call is not the hash of a static syscall, which is read as the syscall's name, and
-- its source register is 0 or 1.
abbrev pub IsCallee : (ℕ → Option String) → Option Register → Option (String ⊎ Number) → Type 0
IsCallee get (some b) (some (inr (int z))) = call_operand get b.n z ≡ some (inr (int z))
IsCallee get _ _ = Unit

pub decode_load_immediate-to_bytes :
    (inst : Instruction)
    → type_of inst.opcode ≡ OperationType.load_immediate
    → DstImm 64 inst.dst inst.src inst.off inst.imm
    → IsReturned decode_load_immediate 16 inst
unfolding decode_load_immediate parse_bytes reader is_load_immediate is_call_register to_le_bytes
    to_bytes
decode_load_immediate-to_bytes inst e (a, z, e1, e2, e3, e4, ha, hz) =
    let lddw : opcode_eq inst.opcode Opcode.lddw ≡ true =
      opcode_eq-lddw inst.opcode ∙ ap is_load_immediate e in
    let callx : opcode_eq inst.opcode Opcode.callx ≡ false =
      opcode_eq-callx inst.opcode ∙ ap is_call_register e in
    let read : try_from (to_byte inst.opcode) ≡ ok inst.opcode =
      rw e at (reader-to_byte inst.opcode) in
    rw (e1, e2, e3, e4, callx, emit-lddw inst.opcode a.n 0 (pos 0) z lddw)
      (rw
        (parse_bytes_by-slot try_from inst.opcode a.n 0 (pos 0) z _ read ha (omega arith)
          (omega arith))
        (ap
          (λ y. ok (record inst {
            dst = some a;
            src = none;
            off = none;
            imm = some (inr (int y));
            span = (0, 16);
          }))
          (join_halves_lem z hz)))

callx_register_lem : (n : ℕ) → n < 16 → callx_register 0 (pos n) ≡ n
unfolding callx_register to_word
callx_register_lem n h = ground arith

-- `callx` is written with its register in the immediate.
pub decode_call_register-to_bytes :
    (inst : Instruction)
    → type_of inst.opcode ≡ OperationType.call_register
    → DstOnly inst.dst inst.src inst.off inst.imm
    → IsReturned decode_call_register 8 inst
unfolding decode_call_register parse_bytes reader is_load_immediate is_call_register to_le_bytes
    to_bytes
decode_call_register-to_bytes inst e (a, e1, e2, e3, e4, ha) =
    let lddw : opcode_eq inst.opcode Opcode.lddw ≡ false =
      opcode_eq-lddw inst.opcode ∙ ap is_load_immediate e in
    let callx : opcode_eq inst.opcode Opcode.callx ≡ true =
      opcode_eq-callx inst.opcode ∙ ap is_call_register e in
    rw (e1, e2, e3, e4, callx, emit-slot inst.opcode 0 0 (pos 0) (pos a.n) lddw)
      (rw
        (parse_bytes_by-reader OperationType.call_register inst.opcode 0 0 (pos 0) (pos a.n) e
          (omega arith) (omega arith) (omega arith) (omega arith))
        (ap
          (λ n. ok (record inst {
            dst = some (record { n = n });
            src = none;
            off = none;
            imm = none;
            span = (0, 8);
          }))
          (callx_register_lem a.n ha)))

-- A call whose operand the decoder reads as a number.
pub decode_call_immediate-to_bytes :
    (get : ℕ → Option String) (inst : Instruction)
    → type_of inst.opcode ≡ OperationType.call_immediate
    → SrcImm 32 inst.dst inst.src inst.off inst.imm
    → IsCallee get inst.src inst.imm
    → IsReturned (decode_call_immediate get) 8 inst
unfolding decode_call_immediate parse_bytes reader is_load_immediate is_call_register to_le_bytes
decode_call_immediate-to_bytes get inst e (b, z, e1, e2, e3, e4, hb, hz) c =
    let callee : call_operand get b.n z ≡ some (inr (int z)) = rw (e2, e4) at c in
    rw (to_bytes-slot OperationType.call_immediate inst (pos 0) z e refl refl (rw e3) (rw e4)) (
      rw (e1, e2, e3, e4)
        (rw
          (parse_bytes_by-reader OperationType.call_immediate inst.opcode 0 b.n (pos 0) z e
            (omega arith) hb (omega arith) hz)
          (rw callee)))
