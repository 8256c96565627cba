-- ===== src/Opcode.antt =====
-- crates/common/src/opcode.rs: the opcodes and the groups that they belong to.
pub mod Tables
pub mod Bytes
pub mod Syntax
pub mod Classes
use sbpf.Base.{ℕ, ◌==◌, Bool}

pub data MemOpKind : Type 0 where
  load store_imm store_reg : MemOpKind

pub data OperationType : Type 0 where
  load_immediate load_memory store_immediate store_register : OperationType
  binary_immediate binary_register unary endian : OperationType
  jump jump_immediate jump_register jump32_immediate jump32_register : OperationType
  call_immediate call_register exit : OperationType

pub data Opcode : Type 0 where
  lddw ldxb ldxh ldxw ldxdw stb : Opcode
  sth stw stdw stxb stxh stxw : Opcode
  stxdw add32_imm add32_reg sub32_imm sub32_reg mul32_imm : Opcode
  mul32_reg div32_imm div32_reg or32_imm or32_reg and32_imm : Opcode
  and32_reg lsh32_imm lsh32_reg rsh32_imm rsh32_reg mod32_imm : Opcode
  mod32_reg xor32_imm xor32_reg mov32_imm mov32_reg arsh32_imm : Opcode
  arsh32_reg lmul32_imm lmul32_reg udiv32_imm udiv32_reg urem32_imm : Opcode
  urem32_reg sdiv32_imm sdiv32_reg srem32_imm srem32_reg le : Opcode
  be add64_imm add64_reg sub64_imm sub64_reg mul64_imm : Opcode
  mul64_reg div64_imm div64_reg or64_imm or64_reg and64_imm : Opcode
  and64_reg lsh64_imm lsh64_reg rsh64_imm rsh64_reg mod64_imm : Opcode
  mod64_reg xor64_imm xor64_reg mov64_imm mov64_reg arsh64_imm : Opcode
  arsh64_reg hor64_imm lmul64_imm lmul64_reg uhmul64_imm uhmul64_reg : Opcode
  udiv64_imm udiv64_reg urem64_imm urem64_reg shmul64_imm shmul64_reg : Opcode
  sdiv64_imm sdiv64_reg srem64_imm srem64_reg neg32 neg64 : Opcode
  ja jeq_imm jeq_reg jgt_imm jgt_reg jge_imm : Opcode
  jge_reg jlt_imm jlt_reg jle_imm jle_reg jset_imm : Opcode
  jset_reg jne_imm jne_reg jsgt_imm jsgt_reg jsge_imm : Opcode
  jsge_reg jslt_imm jslt_reg jsle_imm jsle_reg jeq32_imm : Opcode
  jeq32_reg jgt32_imm jgt32_reg jge32_imm jge32_reg jlt32_imm : Opcode
  jlt32_reg jle32_imm jle32_reg jset32_imm jset32_reg jne32_imm : Opcode
  jne32_reg jsgt32_imm jsgt32_reg jsge32_imm jsge32_reg jslt32_imm : Opcode
  jslt32_reg jsle32_imm jsle32_reg call callx exit : Opcode

-- The position of a variant in the declaration, by which the derived `Eq` and `Hash` go.
unfoldable pub discriminant : Opcode → ℕ
discriminant lddw = 0
discriminant ldxb = 1
discriminant ldxh = 2
discriminant ldxw = 3
discriminant ldxdw = 4
discriminant stb = 5
discriminant sth = 6
discriminant stw = 7
discriminant stdw = 8
discriminant stxb = 9
discriminant stxh = 10
discriminant stxw = 11
discriminant stxdw = 12
discriminant add32_imm = 13
discriminant add32_reg = 14
discriminant sub32_imm = 15
discriminant sub32_reg = 16
discriminant mul32_imm = 17
discriminant mul32_reg = 18
discriminant div32_imm = 19
discriminant div32_reg = 20
discriminant or32_imm = 21
discriminant or32_reg = 22
discriminant and32_imm = 23
discriminant and32_reg = 24
discriminant lsh32_imm = 25
discriminant lsh32_reg = 26
discriminant rsh32_imm = 27
discriminant rsh32_reg = 28
discriminant mod32_imm = 29
discriminant mod32_reg = 30
discriminant xor32_imm = 31
discriminant xor32_reg = 32
discriminant mov32_imm = 33
discriminant mov32_reg = 34
discriminant arsh32_imm = 35
discriminant arsh32_reg = 36
discriminant lmul32_imm = 37
discriminant lmul32_reg = 38
discriminant udiv32_imm = 39
discriminant udiv32_reg = 40
discriminant urem32_imm = 41
discriminant urem32_reg = 42
discriminant sdiv32_imm = 43
discriminant sdiv32_reg = 44
discriminant srem32_imm = 45
discriminant srem32_reg = 46
discriminant le = 47
discriminant be = 48
discriminant add64_imm = 49
discriminant add64_reg = 50
discriminant sub64_imm = 51
discriminant sub64_reg = 52
discriminant mul64_imm = 53
discriminant mul64_reg = 54
discriminant div64_imm = 55
discriminant div64_reg = 56
discriminant or64_imm = 57
discriminant or64_reg = 58
discriminant and64_imm = 59
discriminant and64_reg = 60
discriminant lsh64_imm = 61
discriminant lsh64_reg = 62
discriminant rsh64_imm = 63
discriminant rsh64_reg = 64
discriminant mod64_imm = 65
discriminant mod64_reg = 66
discriminant xor64_imm = 67
discriminant xor64_reg = 68
discriminant mov64_imm = 69
discriminant mov64_reg = 70
discriminant arsh64_imm = 71
discriminant arsh64_reg = 72
discriminant hor64_imm = 73
discriminant lmul64_imm = 74
discriminant lmul64_reg = 75
discriminant uhmul64_imm = 76
discriminant uhmul64_reg = 77
discriminant udiv64_imm = 78
discriminant udiv64_reg = 79
discriminant urem64_imm = 80
discriminant urem64_reg = 81
discriminant shmul64_imm = 82
discriminant shmul64_reg = 83
discriminant sdiv64_imm = 84
discriminant sdiv64_reg = 85
discriminant srem64_imm = 86
discriminant srem64_reg = 87
discriminant neg32 = 88
discriminant neg64 = 89
discriminant ja = 90
discriminant jeq_imm = 91
discriminant jeq_reg = 92
discriminant jgt_imm = 93
discriminant jgt_reg = 94
discriminant jge_imm = 95
discriminant jge_reg = 96
discriminant jlt_imm = 97
discriminant jlt_reg = 98
discriminant jle_imm = 99
discriminant jle_reg = 100
discriminant jset_imm = 101
discriminant jset_reg = 102
discriminant jne_imm = 103
discriminant jne_reg = 104
discriminant jsgt_imm = 105
discriminant jsgt_reg = 106
discriminant jsge_imm = 107
discriminant jsge_reg = 108
discriminant jslt_imm = 109
discriminant jslt_reg = 110
discriminant jsle_imm = 111
discriminant jsle_reg = 112
discriminant jeq32_imm = 113
discriminant jeq32_reg = 114
discriminant jgt32_imm = 115
discriminant jgt32_reg = 116
discriminant jge32_imm = 117
discriminant jge32_reg = 118
discriminant jlt32_imm = 119
discriminant jlt32_reg = 120
discriminant jle32_imm = 121
discriminant jle32_reg = 122
discriminant jset32_imm = 123
discriminant jset32_reg = 124
discriminant jne32_imm = 125
discriminant jne32_reg = 126
discriminant jsgt32_imm = 127
discriminant jsgt32_reg = 128
discriminant jsge32_imm = 129
discriminant jsge32_reg = 130
discriminant jslt32_imm = 131
discriminant jslt32_reg = 132
discriminant jsle32_imm = 133
discriminant jsle32_reg = 134
discriminant call = 135
discriminant callx = 136
discriminant Opcode.exit = 137

-- The derived `==`.
unfoldable pub opcode_eq : Opcode → Opcode → Bool
unfolding discriminant
opcode_eq a b = discriminant a == discriminant b
