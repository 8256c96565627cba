-- ===== src/Opcode/Syntax.antt =====
-- The mnemonics of the opcodes, and their reading.
pub mod Laws
use text.Mathlib.Text.{◌==◌ as str_eq}
use sbpf.Base.{String, Option, some, none}
use sbpf.Base.{List, [], ◌∷◌, if◌then◌else◌}
use sbpf.Opcode.{Opcode}

-- `impl FromStr for Opcode`, on a text in lower case: `to_lowercase` is the standard library's.
-- `none` is the error "Invalid opcode".
unfoldable pub mnemonic_arms : List (String × Opcode)
mnemonic_arms =
    ("lddw", Opcode.lddw)
    ∷ ("ldxb", Opcode.ldxb)
    ∷ ("ldxh", Opcode.ldxh)
    ∷ ("ldxw", Opcode.ldxw)
    ∷ ("ldxdw", Opcode.ldxdw)
    ∷ ("stb", Opcode.stb)
    ∷ ("sth", Opcode.sth)
    ∷ ("stw", Opcode.stw)
    ∷ ("stdw", Opcode.stdw)
    ∷ ("stxb", Opcode.stxb)
    ∷ ("stxh", Opcode.stxh)
    ∷ ("stxw", Opcode.stxw)
    ∷ ("stxdw", Opcode.stxdw)
    ∷ ("add32", Opcode.add32_imm)
    ∷ ("sub32", Opcode.sub32_imm)
    ∷ ("mul32", Opcode.mul32_imm)
    ∷ ("div32", Opcode.div32_imm)
    ∷ ("or32", Opcode.or32_imm)
    ∷ ("and32", Opcode.and32_imm)
    ∷ ("lsh32", Opcode.lsh32_imm)
    ∷ ("rsh32", Opcode.rsh32_imm)
    ∷ ("neg32", Opcode.neg32)
    ∷ ("mod32", Opcode.mod32_imm)
    ∷ ("xor32", Opcode.xor32_imm)
    ∷ ("mov32", Opcode.mov32_imm)
    ∷ ("arsh32", Opcode.arsh32_imm)
    ∷ ("lmul32", Opcode.lmul32_imm)
    ∷ ("udiv32", Opcode.udiv32_imm)
    ∷ ("urem32", Opcode.urem32_imm)
    ∷ ("sdiv32", Opcode.sdiv32_imm)
    ∷ ("srem32", Opcode.srem32_imm)
    ∷ ("le", Opcode.le)
    ∷ ("be", Opcode.be)
    ∷ ("add64", Opcode.add64_imm)
    ∷ ("sub64", Opcode.sub64_imm)
    ∷ ("mul64", Opcode.mul64_imm)
    ∷ ("div64", Opcode.div64_imm)
    ∷ ("or64", Opcode.or64_imm)
    ∷ ("and64", Opcode.and64_imm)
    ∷ ("lsh64", Opcode.lsh64_imm)
    ∷ ("rsh64", Opcode.rsh64_imm)
    ∷ ("neg64", Opcode.neg64)
    ∷ ("mod64", Opcode.mod64_imm)
    ∷ ("xor64", Opcode.xor64_imm)
    ∷ ("mov64", Opcode.mov64_imm)
    ∷ ("arsh64", Opcode.arsh64_imm)
    ∷ ("hor64", Opcode.hor64_imm)
    ∷ ("lmul64", Opcode.lmul64_imm)
    ∷ ("uhmul64", Opcode.uhmul64_imm)
    ∷ ("udiv64", Opcode.udiv64_imm)
    ∷ ("urem64", Opcode.urem64_imm)
    ∷ ("shmul64", Opcode.shmul64_imm)
    ∷ ("sdiv64", Opcode.sdiv64_imm)
    ∷ ("srem64", Opcode.srem64_imm)
    ∷ ("ja", Opcode.ja)
    ∷ ("jeq", Opcode.jeq_imm)
    ∷ ("jgt", Opcode.jgt_imm)
    ∷ ("jge", Opcode.jge_imm)
    ∷ ("jlt", Opcode.jlt_imm)
    ∷ ("jle", Opcode.jle_imm)
    ∷ ("jset", Opcode.jset_imm)
    ∷ ("jne", Opcode.jne_imm)
    ∷ ("jsgt", Opcode.jsgt_imm)
    ∷ ("jsge", Opcode.jsge_imm)
    ∷ ("jslt", Opcode.jslt_imm)
    ∷ ("jsle", Opcode.jsle_imm)
    ∷ ("jeq32", Opcode.jeq32_imm)
    ∷ ("jgt32", Opcode.jgt32_imm)
    ∷ ("jge32", Opcode.jge32_imm)
    ∷ ("jlt32", Opcode.jlt32_imm)
    ∷ ("jle32", Opcode.jle32_imm)
    ∷ ("jset32", Opcode.jset32_imm)
    ∷ ("jne32", Opcode.jne32_imm)
    ∷ ("jsgt32", Opcode.jsgt32_imm)
    ∷ ("jsge32", Opcode.jsge32_imm)
    ∷ ("jslt32", Opcode.jslt32_imm)
    ∷ ("jsle32", Opcode.jsle32_imm)
    ∷ ("call", Opcode.call)
    ∷ ("callx", Opcode.callx)
    ∷ ("exit", Opcode.exit)
    ∷ []

unfoldable pub first_text_arm : List (String × Opcode) → String → Option Opcode
first_text_arm [] s = none
first_text_arm ((k, op) ∷ arms) s = if str_eq k s then some op else first_text_arm arms s

unfoldable pub from_str : (String → String) → String → Option Opcode
unfolding mnemonic_arms first_text_arm
from_str to_lowercase s = first_text_arm mnemonic_arms (to_lowercase s)

unfoldable pub to_str : Opcode → String
to_str Opcode.lddw = "lddw"
to_str Opcode.ldxb = "ldxb"
to_str Opcode.ldxh = "ldxh"
to_str Opcode.ldxw = "ldxw"
to_str Opcode.ldxdw = "ldxdw"
to_str Opcode.stb = "stb"
to_str Opcode.sth = "sth"
to_str Opcode.stw = "stw"
to_str Opcode.stdw = "stdw"
to_str Opcode.stxb = "stxb"
to_str Opcode.stxh = "stxh"
to_str Opcode.stxw = "stxw"
to_str Opcode.stxdw = "stxdw"
to_str Opcode.add32_imm = "add32"
to_str Opcode.add32_reg = "add32"
to_str Opcode.sub32_imm = "sub32"
to_str Opcode.sub32_reg = "sub32"
to_str Opcode.mul32_imm = "mul32"
to_str Opcode.mul32_reg = "mul32"
to_str Opcode.div32_imm = "div32"
to_str Opcode.div32_reg = "div32"
to_str Opcode.or32_imm = "or32"
to_str Opcode.or32_reg = "or32"
to_str Opcode.and32_imm = "and32"
to_str Opcode.and32_reg = "and32"
to_str Opcode.lsh32_imm = "lsh32"
to_str Opcode.lsh32_reg = "lsh32"
to_str Opcode.rsh32_imm = "rsh32"
to_str Opcode.rsh32_reg = "rsh32"
to_str Opcode.mod32_imm = "mod32"
to_str Opcode.mod32_reg = "mod32"
to_str Opcode.xor32_imm = "xor32"
to_str Opcode.xor32_reg = "xor32"
to_str Opcode.mov32_imm = "mov32"
to_str Opcode.mov32_reg = "mov32"
to_str Opcode.arsh32_imm = "arsh32"
to_str Opcode.arsh32_reg = "arsh32"
to_str Opcode.lmul32_imm = "lmul32"
to_str Opcode.lmul32_reg = "lmul32"
to_str Opcode.udiv32_imm = "udiv32"
to_str Opcode.udiv32_reg = "udiv32"
to_str Opcode.urem32_imm = "urem32"
to_str Opcode.urem32_reg = "urem32"
to_str Opcode.sdiv32_imm = "sdiv32"
to_str Opcode.sdiv32_reg = "sdiv32"
to_str Opcode.srem32_imm = "srem32"
to_str Opcode.srem32_reg = "srem32"
to_str Opcode.le = "le"
to_str Opcode.be = "be"
to_str Opcode.add64_imm = "add64"
to_str Opcode.add64_reg = "add64"
to_str Opcode.sub64_imm = "sub64"
to_str Opcode.sub64_reg = "sub64"
to_str Opcode.mul64_imm = "mul64"
to_str Opcode.mul64_reg = "mul64"
to_str Opcode.div64_imm = "div64"
to_str Opcode.div64_reg = "div64"
to_str Opcode.or64_imm = "or64"
to_str Opcode.or64_reg = "or64"
to_str Opcode.and64_imm = "and64"
to_str Opcode.and64_reg = "and64"
to_str Opcode.lsh64_imm = "lsh64"
to_str Opcode.lsh64_reg = "lsh64"
to_str Opcode.rsh64_imm = "rsh64"
to_str Opcode.rsh64_reg = "rsh64"
to_str Opcode.mod64_imm = "mod64"
to_str Opcode.mod64_reg = "mod64"
to_str Opcode.xor64_imm = "xor64"
to_str Opcode.xor64_reg = "xor64"
to_str Opcode.mov64_imm = "mov64"
to_str Opcode.mov64_reg = "mov64"
to_str Opcode.arsh64_imm = "arsh64"
to_str Opcode.arsh64_reg = "arsh64"
to_str Opcode.hor64_imm = "hor64"
to_str Opcode.lmul64_imm = "lmul64"
to_str Opcode.lmul64_reg = "lmul64"
to_str Opcode.uhmul64_imm = "uhmul64"
to_str Opcode.uhmul64_reg = "uhmul64"
to_str Opcode.udiv64_imm = "udiv64"
to_str Opcode.udiv64_reg = "udiv64"
to_str Opcode.urem64_imm = "urem64"
to_str Opcode.urem64_reg = "urem64"
to_str Opcode.shmul64_imm = "shmul64"
to_str Opcode.shmul64_reg = "shmul64"
to_str Opcode.sdiv64_imm = "sdiv64"
to_str Opcode.sdiv64_reg = "sdiv64"
to_str Opcode.srem64_imm = "srem64"
to_str Opcode.srem64_reg = "srem64"
to_str Opcode.neg32 = "neg32"
to_str Opcode.neg64 = "neg64"
to_str Opcode.ja = "ja"
to_str Opcode.jeq_imm = "jeq"
to_str Opcode.jeq_reg = "jeq"
to_str Opcode.jgt_imm = "jgt"
to_str Opcode.jgt_reg = "jgt"
to_str Opcode.jge_imm = "jge"
to_str Opcode.jge_reg = "jge"
to_str Opcode.jlt_imm = "jlt"
to_str Opcode.jlt_reg = "jlt"
to_str Opcode.jle_imm = "jle"
to_str Opcode.jle_reg = "jle"
to_str Opcode.jset_imm = "jset"
to_str Opcode.jset_reg = "jset"
to_str Opcode.jne_imm = "jne"
to_str Opcode.jne_reg = "jne"
to_str Opcode.jsgt_imm = "jsgt"
to_str Opcode.jsgt_reg = "jsgt"
to_str Opcode.jsge_imm = "jsge"
to_str Opcode.jsge_reg = "jsge"
to_str Opcode.jslt_imm = "jslt"
to_str Opcode.jslt_reg = "jslt"
to_str Opcode.jsle_imm = "jsle"
to_str Opcode.jsle_reg = "jsle"
to_str Opcode.jeq32_imm = "jeq32"
to_str Opcode.jeq32_reg = "jeq32"
to_str Opcode.jgt32_imm = "jgt32"
to_str Opcode.jgt32_reg = "jgt32"
to_str Opcode.jge32_imm = "jge32"
to_str Opcode.jge32_reg = "jge32"
to_str Opcode.jlt32_imm = "jlt32"
to_str Opcode.jlt32_reg = "jlt32"
to_str Opcode.jle32_imm = "jle32"
to_str Opcode.jle32_reg = "jle32"
to_str Opcode.jset32_imm = "jset32"
to_str Opcode.jset32_reg = "jset32"
to_str Opcode.jne32_imm = "jne32"
to_str Opcode.jne32_reg = "jne32"
to_str Opcode.jsgt32_imm = "jsgt32"
to_str Opcode.jsgt32_reg = "jsgt32"
to_str Opcode.jsge32_imm = "jsge32"
to_str Opcode.jsge32_reg = "jsge32"
to_str Opcode.jslt32_imm = "jslt32"
to_str Opcode.jslt32_reg = "jslt32"
to_str Opcode.jsle32_imm = "jsle32"
to_str Opcode.jsle32_reg = "jsle32"
to_str Opcode.call = "call"
to_str Opcode.callx = "callx"
to_str Opcode.exit = "exit"
