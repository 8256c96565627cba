-- ===== src/Tests/Opcodes.antt =====
-- The theorems on opcodes at some of them.
use sbpf.Base.{◌≡◌, refl, some}
use sbpf.Errors.{ok}
use sbpf.Opcode.{Opcode}
use sbpf.Opcode.Tables.{lookup, opcode_to_type, type_of, lookup-opcode_to_type}
use sbpf.Opcode.Syntax.{from_str, to_str}
use sbpf.Opcode.Syntax.Laws.{from_str-to_str}
use sbpf.Opcode.Bytes.{try_from, try_from_sbpf_v3, to_byte, first_arm, try_from_arms, v3_arms}
use sbpf.Opcode.Bytes.Laws.{
  read_byte, read_byte-to_byte, to_byte-try_from, to_byte-try_from_sbpf_v3,
}

read_byte-to_byte_example :
    read_byte Opcode.jeq32_imm (to_byte Opcode.jeq32_imm) ≡ ok Opcode.jeq32_imm
read_byte-to_byte_example = read_byte-to_byte Opcode.jeq32_imm

lookup-opcode_to_type_example : lookup opcode_to_type Opcode.le ≡ some (type_of Opcode.le)
lookup-opcode_to_type_example = lookup-opcode_to_type Opcode.le

lddw_read : try_from 0x18 ≡ ok Opcode.lddw
unfolding try_from first_arm try_from_arms
lddw_read = refl

to_byte-try_from_example : to_byte Opcode.lddw ≡ 0x18
to_byte-try_from_example = to_byte-try_from 0x18 Opcode.lddw lddw_read

jeq32_read : try_from_sbpf_v3 0x16 ≡ ok Opcode.jeq32_imm
unfolding try_from_sbpf_v3 first_arm v3_arms
jeq32_read = refl

to_byte-try_from_sbpf_v3_example : to_byte Opcode.jeq32_imm ≡ 0x16
to_byte-try_from_sbpf_v3_example = to_byte-try_from_sbpf_v3 0x16 Opcode.jeq32_imm jeq32_read

from_str-to_str_example :
    (o : Opcode) × (from_str (λ s. s) (to_str Opcode.add64_reg) ≡ some o)
    × (to_str o ≡ to_str Opcode.add64_reg)
from_str-to_str_example = from_str-to_str (λ s. s) Opcode.add64_reg refl
