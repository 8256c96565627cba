-- ===== src/Instruction/Encode/Laws.antt =====
-- The fields that are read from the bytes of an instruction are those that were written.
use Prim.Native.Nat.{bit_or, bit_and}
use sbpf.Base.{ℕ, ◌+◌, ◌*◌, ◌/◌, ◌%◌, ◌^◌, ◌<◌, ◌≡◌, refl, arith, ap, ◌∙◌, List, [], ◌∷◌, ◌++◌}
use sbpf.Base.{true, false}
use sbpf.Base.Int.{ℤ, pos, negsuc, floor_div}
use sbpf.Base.Words.{i64, to_word, of_word, to_word-of_word32}
use sbpf.Opcode.{opcode_eq}
use sbpf.Instruction.Encode.{emit}
use sbpf.Instruction.Decode.{join_halves}
use sbpf.Base.Words.{
  u16, u32, i16, i32, IsInt, to_le_bytes, from_le_bytes, from_le_bytes-to_le_bytes, to_word-lt,
  of_word-to_word16, of_word-to_word32,
}
use sbpf.Base.Bits.{bit_and_nibble, bit_or_nibbles}
use sbpf.Errors.{Result, ok, SbpfError}
use sbpf.Opcode.{Opcode}
use sbpf.Opcode.Bytes.{to_byte}
use sbpf.Instruction.Decode.{parse_bytes_by}

-- The first eight bytes of an instruction, and what follows.
abbrev pub slot : Opcode → ℕ → ℕ → ℤ → ℤ → List ℕ → List ℕ
slot op dst src off imm rest =
    to_byte op ∷ bit_or (src * 2 ^ 4 % 2 ^ 8) dst ∷ to_le_bytes 2 (u16 off)
    ++ to_le_bytes 4 (u32 imm)
    ++ rest

low_nibble :
    (dst src : ℕ) → dst < 16 → src < 16 → bit_and (bit_or (src * 2 ^ 4 % 2 ^ 8) dst) 0x0f ≡ dst
low_nibble dst src hd hs =
    rw (bit_or_nibbles src dst hs hd) (bit_and_nibble (src * 16 + dst) (omega arith) ∙ omega arith)

high_nibble : (dst src : ℕ) → dst < 16 → src < 16 → bit_or (src * 2 ^ 4 % 2 ^ 8) dst / 2 ^ 4 ≡ src
high_nibble dst src hd hs = rw (bit_or_nibbles src dst hs hd) (omega arith)

offset_back : (off : ℤ) → IsInt 16 off → i16 (from_le_bytes (to_le_bytes 2 (u16 off))) ≡ off
offset_back off h =
    ap i16 (from_le_bytes-to_le_bytes 2 (u16 off) (to_word-lt 16 off)) ∙ of_word-to_word16 off h

pub immediate_back : (imm : ℤ) → IsInt 32 imm → i32 (from_le_bytes (to_le_bytes 4 (u32 imm))) ≡ imm
immediate_back imm h =
    ap i32 (from_le_bytes-to_le_bytes 4 (u32 imm) (to_word-lt 32 imm)) ∙ of_word-to_word32 imm h

pub parse_bytes_by-slot :
    (read : ℕ → Result SbpfError Opcode) (op : Opcode) (dst src : ℕ) (off imm : ℤ) (rest : List ℕ)
    → read (to_byte op) ≡ ok op
    → dst < 16
    → src < 16
    → IsInt 16 off
    → parse_bytes_by read (slot op dst src off imm rest)
      ≡ ok (record {
        opcode = op;
        dst = dst;
        src = src;
        off = off;
        imm = i32 (from_le_bytes (to_le_bytes 4 (u32 imm)));
      })
unfolding parse_bytes_by to_le_bytes
parse_bytes_by-slot read op dst src off imm rest h hd hs ho =
    rw (h, low_nibble dst src hd hs, high_nibble dst src hd hs)
      (ap
        (λ o. ok (record {
          opcode = op;
          dst = dst;
          src = src;
          off = o;
          imm = i32 (from_le_bytes (to_le_bytes 4 (u32 imm)));
        }))
        (offset_back off ho))

pub emit-slot :
    (op : Opcode) (dst src : ℕ) (off imm : ℤ)
    → opcode_eq op Opcode.lddw ≡ false
    → emit op dst src off imm ≡ slot op dst src off imm []
unfolding emit to_le_bytes
emit-slot op dst src off imm h = rw h refl

pub emit-lddw :
    (op : Opcode) (dst src : ℕ) (off imm : ℤ)
    → opcode_eq op Opcode.lddw ≡ true
    → emit op dst src off imm
      ≡ slot op dst src off imm (0 ∷ 0 ∷ 0 ∷ 0 ∷ to_le_bytes 4 (u32 (floor_div imm (2 ^ 32))))
unfolding emit to_le_bytes
emit-lddw op dst src off imm h = rw h refl

halves : (z : ℤ) → IsInt 64 z → i64 (u32 (floor_div z (2 ^ 32)) * 2 ^ 32 + u32 z) ≡ z
unfolding to_word of_word floor_div
halves (pos n) h = ground arith
halves (negsuc n) h = ground arith

half_back : (z : ℤ) → u32 (i32 (from_le_bytes (to_le_bytes 4 (u32 z)))) ≡ u32 z
half_back z =
    let small = to_word-lt 32 z in
    rw (from_le_bytes-to_le_bytes 4 (u32 z) small) (to_word-of_word32 (u32 z) ∙ omega arith)

-- The two halves of a 64-bit immediate, joined.
pub join_halves_lem :
    (z : ℤ)
    → IsInt 64 z
    → join_halves
        (i32 (from_le_bytes (to_le_bytes 4 (u32 (floor_div z (2 ^ 32))))))
        (i32 (from_le_bytes (to_le_bytes 4 (u32 z))))
      ≡ z
unfolding join_halves
join_halves_lem z h = rw (half_back (floor_div z (2 ^ 32)), half_back z) (halves z h)
