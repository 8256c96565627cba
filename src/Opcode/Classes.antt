-- ===== src/Opcode/Classes.antt =====
-- The operator and the size of an opcode in LLVM's form, and its classes.
use text.Mathlib.Text.{◌==◌ as str_eq}
use sbpf.Base.{String, Bool, true, false, Option, some, none}
use sbpf.Base.{if◌then◌else◌}
use sbpf.Opcode.{Opcode, MemOpKind}

unfoldable pub from_size : String → MemOpKind → Option Opcode
from_size size kind =
    if str_eq size "u8"
    then (elim kind [
      | MemOpKind.load ↦ some Opcode.ldxb
      | MemOpKind.store_imm ↦ some Opcode.stb
      | MemOpKind.store_reg ↦ some Opcode.stxb
    ])
    else if str_eq size "u16"
    then (elim kind [
      | MemOpKind.load ↦ some Opcode.ldxh
      | MemOpKind.store_imm ↦ some Opcode.sth
      | MemOpKind.store_reg ↦ some Opcode.stxh
    ])
    else if str_eq size "u32"
    then (elim kind [
      | MemOpKind.load ↦ some Opcode.ldxw
      | MemOpKind.store_imm ↦ some Opcode.stw
      | MemOpKind.store_reg ↦ some Opcode.stxw
    ])
    else if str_eq size "u64"
    then (elim kind [
      | MemOpKind.load ↦ some Opcode.ldxdw
      | MemOpKind.store_imm ↦ some Opcode.stdw
      | MemOpKind.store_reg ↦ some Opcode.stxdw
    ])
    else none

unfoldable pub to_size : Opcode → Option String
to_size Opcode.ldxb = some "u8"
to_size Opcode.stb = some "u8"
to_size Opcode.stxb = some "u8"
to_size Opcode.ldxh = some "u16"
to_size Opcode.sth = some "u16"
to_size Opcode.stxh = some "u16"
to_size Opcode.ldxw = some "u32"
to_size Opcode.stw = some "u32"
to_size Opcode.stxw = some "u32"
to_size Opcode.ldxdw = some "u64"
to_size Opcode.stdw = some "u64"
to_size Opcode.stxdw = some "u64"
to_size _ = none

unfoldable pub to_operator : Opcode → Option String
to_operator Opcode.add32_imm = some "+="
to_operator Opcode.add32_reg = some "+="
to_operator Opcode.add64_imm = some "+="
to_operator Opcode.add64_reg = some "+="
to_operator Opcode.sub32_imm = some "-="
to_operator Opcode.sub32_reg = some "-="
to_operator Opcode.sub64_imm = some "-="
to_operator Opcode.sub64_reg = some "-="
to_operator Opcode.mul32_imm = some "*="
to_operator Opcode.mul32_reg = some "*="
to_operator Opcode.mul64_imm = some "*="
to_operator Opcode.mul64_reg = some "*="
to_operator Opcode.div32_imm = some "/="
to_operator Opcode.div32_reg = some "/="
to_operator Opcode.div64_imm = some "/="
to_operator Opcode.div64_reg = some "/="
to_operator Opcode.or32_imm = some "|="
to_operator Opcode.or32_reg = some "|="
to_operator Opcode.or64_imm = some "|="
to_operator Opcode.or64_reg = some "|="
to_operator Opcode.and32_imm = some "&="
to_operator Opcode.and32_reg = some "&="
to_operator Opcode.and64_imm = some "&="
to_operator Opcode.and64_reg = some "&="
to_operator Opcode.xor32_imm = some "^="
to_operator Opcode.xor32_reg = some "^="
to_operator Opcode.xor64_imm = some "^="
to_operator Opcode.xor64_reg = some "^="
to_operator Opcode.lsh32_imm = some "<<="
to_operator Opcode.lsh32_reg = some "<<="
to_operator Opcode.lsh64_imm = some "<<="
to_operator Opcode.lsh64_reg = some "<<="
to_operator Opcode.rsh32_imm = some ">>="
to_operator Opcode.rsh32_reg = some ">>="
to_operator Opcode.rsh64_imm = some ">>="
to_operator Opcode.rsh64_reg = some ">>="
to_operator Opcode.mod32_imm = some "%="
to_operator Opcode.mod32_reg = some "%="
to_operator Opcode.mod64_imm = some "%="
to_operator Opcode.mod64_reg = some "%="
to_operator Opcode.mov32_imm = some "="
to_operator Opcode.mov32_reg = some "="
to_operator Opcode.mov64_imm = some "="
to_operator Opcode.mov64_reg = some "="
to_operator Opcode.arsh32_imm = some "s>>="
to_operator Opcode.arsh32_reg = some "s>>="
to_operator Opcode.arsh64_imm = some "s>>="
to_operator Opcode.arsh64_reg = some "s>>="
to_operator Opcode.jeq_imm = some "=="
to_operator Opcode.jeq_reg = some "=="
to_operator Opcode.jne_imm = some "!="
to_operator Opcode.jne_reg = some "!="
to_operator Opcode.jgt_imm = some ">"
to_operator Opcode.jgt_reg = some ">"
to_operator Opcode.jge_imm = some ">="
to_operator Opcode.jge_reg = some ">="
to_operator Opcode.jlt_imm = some "<"
to_operator Opcode.jlt_reg = some "<"
to_operator Opcode.jle_imm = some "<="
to_operator Opcode.jle_reg = some "<="
to_operator Opcode.jsgt_imm = some "s>"
to_operator Opcode.jsgt_reg = some "s>"
to_operator Opcode.jsge_imm = some "s>="
to_operator Opcode.jsge_reg = some "s>="
to_operator Opcode.jslt_imm = some "s<"
to_operator Opcode.jslt_reg = some "s<"
to_operator Opcode.jsle_imm = some "s<="
to_operator Opcode.jsle_reg = some "s<="
to_operator Opcode.jset_imm = some "&"
to_operator Opcode.jset_reg = some "&"
to_operator Opcode.jeq32_imm = some "=="
to_operator Opcode.jeq32_reg = some "=="
to_operator Opcode.jne32_imm = some "!="
to_operator Opcode.jne32_reg = some "!="
to_operator Opcode.jgt32_imm = some ">"
to_operator Opcode.jgt32_reg = some ">"
to_operator Opcode.jge32_imm = some ">="
to_operator Opcode.jge32_reg = some ">="
to_operator Opcode.jlt32_imm = some "<"
to_operator Opcode.jlt32_reg = some "<"
to_operator Opcode.jle32_imm = some "<="
to_operator Opcode.jle32_reg = some "<="
to_operator Opcode.jsgt32_imm = some "s>"
to_operator Opcode.jsgt32_reg = some "s>"
to_operator Opcode.jsge32_imm = some "s>="
to_operator Opcode.jsge32_reg = some "s>="
to_operator Opcode.jslt32_imm = some "s<"
to_operator Opcode.jslt32_reg = some "s<"
to_operator Opcode.jsle32_imm = some "s<="
to_operator Opcode.jsle32_reg = some "s<="
to_operator Opcode.jset32_imm = some "&"
to_operator Opcode.jset32_reg = some "&"
to_operator _ = none

unfoldable pub is_32bit : Opcode → Bool
is_32bit Opcode.add32_imm = true
is_32bit Opcode.add32_reg = true
is_32bit Opcode.sub32_imm = true
is_32bit Opcode.sub32_reg = true
is_32bit Opcode.mul32_imm = true
is_32bit Opcode.mul32_reg = true
is_32bit Opcode.div32_imm = true
is_32bit Opcode.div32_reg = true
is_32bit Opcode.or32_imm = true
is_32bit Opcode.or32_reg = true
is_32bit Opcode.and32_imm = true
is_32bit Opcode.and32_reg = true
is_32bit Opcode.lsh32_imm = true
is_32bit Opcode.lsh32_reg = true
is_32bit Opcode.rsh32_imm = true
is_32bit Opcode.rsh32_reg = true
is_32bit Opcode.mod32_imm = true
is_32bit Opcode.mod32_reg = true
is_32bit Opcode.xor32_imm = true
is_32bit Opcode.xor32_reg = true
is_32bit Opcode.mov32_imm = true
is_32bit Opcode.mov32_reg = true
is_32bit Opcode.arsh32_imm = true
is_32bit Opcode.arsh32_reg = true
is_32bit Opcode.neg32 = true
is_32bit _ = false

-- crates/common/src/instruction.rs.
unfoldable pub is_jump32_opcode : Opcode → Bool
is_jump32_opcode Opcode.jeq32_imm = true
is_jump32_opcode Opcode.jeq32_reg = true
is_jump32_opcode Opcode.jgt32_imm = true
is_jump32_opcode Opcode.jgt32_reg = true
is_jump32_opcode Opcode.jge32_imm = true
is_jump32_opcode Opcode.jge32_reg = true
is_jump32_opcode Opcode.jlt32_imm = true
is_jump32_opcode Opcode.jlt32_reg = true
is_jump32_opcode Opcode.jle32_imm = true
is_jump32_opcode Opcode.jle32_reg = true
is_jump32_opcode Opcode.jset32_imm = true
is_jump32_opcode Opcode.jset32_reg = true
is_jump32_opcode Opcode.jne32_imm = true
is_jump32_opcode Opcode.jne32_reg = true
is_jump32_opcode Opcode.jsgt32_imm = true
is_jump32_opcode Opcode.jsgt32_reg = true
is_jump32_opcode Opcode.jsge32_imm = true
is_jump32_opcode Opcode.jsge32_reg = true
is_jump32_opcode Opcode.jslt32_imm = true
is_jump32_opcode Opcode.jslt32_reg = true
is_jump32_opcode Opcode.jsle32_imm = true
is_jump32_opcode Opcode.jsle32_reg = true
is_jump32_opcode _ = false
