-- ===== src/Tests/Codec.antt =====
-- The round trip of instructions at `lddw`, and readings of bytes.
use sbpf.Base.{◌≡◌, refl, arith, some, inr, [], ◌∷◌}
use sbpf.Base.Int.{pos, negsuc, floor_div}
use sbpf.Base.Words.{to_le_bytes, from_le_bytes, to_word, of_word}
use sbpf.Errors.{ok, ◌>>=◌}
use sbpf.Opcode.{Opcode, opcode_eq, discriminant}
use sbpf.Opcode.Tables.{type_of, lookup, register_group}
use sbpf.Opcode.Bytes.{to_byte, try_from, first_arm, try_from_arms}
use sbpf.Instruction.{Instruction, int, get_size}
use sbpf.Instruction.Decode.{parse_bytes, parse_bytes_by, decode_load_memory}
use sbpf.Instruction.Encode.{to_bytes, emit}
use sbpf.Instruction.Validate.{validate_load_immediate}
use sbpf.Instruction.Validate.Laws.{IsEncodable}
use sbpf.InstHandler.{handler_of, opcode_to_handler}
use sbpf.InstHandler.Codec.{from_bytes, from_bytes_sbpf_v2, preprocess_sbpf_v2}
use sbpf.InstHandler.RoundTrip.{read_instruction, read_instruction-to_bytes, width, IsReadable}
use sbpf.Tests.Machine.{quiet, names, plain, register}

-- lddw r3, -5
abbrev lddw : Instruction
lddw = record (plain Opcode.lddw) { dst = register 3; imm = some (inr (int (negsuc 4))) }

lddw_valid : (handler_of names quiet (type_of Opcode.lddw)).validate lddw ≡ ok tt
unfolding handler_of type_of validate_load_immediate
lddw_valid = refl

lddw-IsEncodable : IsEncodable (width (type_of Opcode.lddw)) lddw.dst lddw.src lddw.off lddw.imm
unfolding type_of
lddw-IsEncodable = record { dst = omega arith; src = tt; off = tt; imm = omega arith }

lddw-IsReadable : IsReadable names (type_of Opcode.lddw) lddw.src lddw.imm
unfolding type_of
lddw-IsReadable = tt

read_instruction-to_bytes_example :
    (to_bytes lddw >>= read_instruction names quiet Opcode.lddw)
    ≡ ok (record lddw { span = (0, get_size lddw) })
read_instruction-to_bytes_example =
    read_instruction-to_bytes names quiet lddw lddw_valid lddw-IsEncodable lddw-IsReadable

lddw_bytes :
    to_bytes lddw
    ≡ ok (
        0x18 ∷ 0x03 ∷ 0 ∷ 0 ∷ 0xfb ∷ 0xff ∷ 0xff ∷ 0xff ∷ 0 ∷ 0 ∷ 0 ∷ 0 ∷ 0xff ∷ 0xff ∷ 0xff ∷ 0xff
        ∷ [])
unfolding to_bytes emit opcode_eq discriminant to_byte to_le_bytes to_word floor_div
lddw_bytes = refl

-- In v2 the byte 0x8C is `ldxw`.
ldxw_v2 :
    from_bytes_sbpf_v2 names quiet (0x8C ∷ 0x21 ∷ 4 ∷ 0 ∷ 0 ∷ 0 ∷ 0 ∷ 0 ∷ [])
    ≡ ok (record (plain Opcode.ldxw) {
      dst = register 1;
      src = register 2;
      off = some (inr (pos 4));
    })
unfolding from_bytes_sbpf_v2 preprocess_sbpf_v2 from_bytes try_from first_arm try_from_arms lookup
    opcode_to_handler register_group opcode_eq discriminant decode_load_memory parse_bytes
    parse_bytes_by from_le_bytes of_word
ldxw_v2 = refl
