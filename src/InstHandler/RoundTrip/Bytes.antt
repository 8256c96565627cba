-- ===== src/InstHandler/RoundTrip/Bytes.antt =====
-- The bytes of an instruction of each type, and what is parsed from them.
use sbpf.Base.{ℕ, ◌<◌, ◌≡◌, refl, true, false, ap, ◌∙◌}
use sbpf.Base.{Bool, []}
use sbpf.Base.Int.{ℤ}
use sbpf.Base.Words.{IsInt}
use sbpf.Errors.{Result, ok, SbpfError}
use sbpf.Opcode.{Opcode, OperationType, opcode_eq, discriminant}
use sbpf.Opcode.Tables.{type_of}
use sbpf.Opcode.Bytes.{to_byte, try_from, try_from_sbpf_v3}
use sbpf.Instruction.{Instruction, get_size}
use sbpf.Instruction.Decode.{parse_bytes_by}
use sbpf.Instruction.Encode.{to_bytes, offset_value, immediate_value, register_value}
use sbpf.Instruction.Encode.Laws.{slot, parse_bytes_by-slot, emit-slot}
use sbpf.Instruction.Encode.Laws.{immediate_back}

-- How the decoder of a type reads the byte of the opcode.
unfoldable pub reader : OperationType → ℕ → Result SbpfError Opcode
reader OperationType.jump32_immediate = try_from_sbpf_v3
reader OperationType.jump32_register = try_from_sbpf_v3
reader _ = try_from

pub reader-to_byte : (op : Opcode) → reader (type_of op) (to_byte op) ≡ ok op
unfolding reader type_of to_byte try_from try_from_sbpf_v3
reader-to_byte Opcode.lddw = refl
reader-to_byte _ = refl

unfoldable pub is_load_immediate : OperationType → Bool
is_load_immediate OperationType.load_immediate = true
is_load_immediate _ = false

unfoldable pub is_call_register : OperationType → Bool
is_call_register OperationType.call_register = true
is_call_register _ = false

pub opcode_eq-lddw : (op : Opcode) → opcode_eq op Opcode.lddw ≡ is_load_immediate (type_of op)
unfolding opcode_eq discriminant is_load_immediate type_of
opcode_eq-lddw Opcode.lddw = refl
opcode_eq-lddw _ = refl

pub opcode_eq-callx : (op : Opcode) → opcode_eq op Opcode.callx ≡ is_call_register (type_of op)
unfolding opcode_eq discriminant is_call_register type_of
opcode_eq-callx Opcode.lddw = refl
opcode_eq-callx _ = refl

unfoldable pub size : OperationType → ℕ
size OperationType.load_immediate = 16
size _ = 8

pub get_size-type_of :
    (op : Opcode) (inst : Instruction) → inst.opcode ≡ op → get_size inst ≡ size (type_of op)
unfolding get_size size type_of
get_size-type_of Opcode.lddw inst e = rw e refl
get_size-type_of _ inst e = rw e refl

-- What is parsed from the first eight bytes.
pub parse_bytes_by-reader :
    (t : OperationType) (op : Opcode) (dst src : ℕ) (off imm : ℤ)
    → type_of op ≡ t
    → dst < 16
    → src < 16
    → IsInt 16 off
    → IsInt 32 imm
    → parse_bytes_by (reader t) (slot op dst src off imm [])
      ≡ ok (record { opcode = op; dst = dst; src = src; off = off; imm = imm })
parse_bytes_by-reader t op dst src off imm e hd hs ho hi =
    parse_bytes_by-slot (reader t) op dst src off imm [] (rw (← e) (reader-to_byte op)) hd hs ho
    ∙ ap (λ z. ok (record { opcode = op; dst = dst; src = src; off = off; imm = z }))
        (immediate_back imm hi)

-- The bytes of an instruction of one slot that is not `callx`.
pub to_bytes-slot :
    (t : OperationType) (inst : Instruction) (off imm : ℤ)
    → type_of inst.opcode ≡ t
    → is_load_immediate t ≡ false
    → is_call_register t ≡ false
    → offset_value inst.off ≡ ok off
    → immediate_value inst.imm ≡ ok imm
    → to_bytes inst
      ≡ ok (slot inst.opcode (register_value inst.dst) (register_value inst.src) off imm [])
unfolding to_bytes
to_bytes-slot t inst off imm e l c ho hi =
    let lddw : opcode_eq inst.opcode Opcode.lddw ≡ false =
      opcode_eq-lddw inst.opcode ∙ ap is_load_immediate e ∙ l in
    let callx : opcode_eq inst.opcode Opcode.callx ≡ false =
      opcode_eq-callx inst.opcode ∙ ap is_call_register e ∙ c in
    rw (ho, hi, callx) (ap ok (emit-slot inst.opcode _ _ off imm lddw))
