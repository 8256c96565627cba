-- ===== src/Opcode/Bytes.antt =====
-- The byte of an opcode, and the two readings of a byte: that of sBPF v0 and that of v3.
pub mod Laws
use sbpf.Base.{ℕ, ◌≡◌, ◌<◌, refl, arith, Bool, true, false, Option, some, none, ◌⊎◌, inl, inr}
use sbpf.Base.{List, [], ◌∷◌, ◌==◌, ◌&&◌, ==_iff, &&-eq-true, all, if◌then◌else◌}
use sbpf.Errors.{Result, ok, err, SbpfError}
use sbpf.Opcode.{Opcode}

-- The arms of a `match` on a byte.
abbrev pub Arms : Type 0
Arms = List (ℕ × Opcode)

unfoldable pub first_arm : Arms → ℕ → Option Opcode
first_arm [] b = none
first_arm ((k, op) ∷ arms) b = if k == b then some op else first_arm arms b

unfoldable pub try_from_arms : Arms
try_from_arms =
    (0x18, Opcode.lddw)
    ∷ (0x71, Opcode.ldxb)
    ∷ (0x69, Opcode.ldxh)
    ∷ (0x61, Opcode.ldxw)
    ∷ (0x79, Opcode.ldxdw)
    ∷ (0x72, Opcode.stb)
    ∷ (0x6a, Opcode.sth)
    ∷ (0x62, Opcode.stw)
    ∷ (0x7a, Opcode.stdw)
    ∷ (0x73, Opcode.stxb)
    ∷ (0x6b, Opcode.stxh)
    ∷ (0x63, Opcode.stxw)
    ∷ (0x7b, Opcode.stxdw)
    ∷ (0x04, Opcode.add32_imm)
    ∷ (0x0c, Opcode.add32_reg)
    ∷ (0x14, Opcode.sub32_imm)
    ∷ (0x1c, Opcode.sub32_reg)
    ∷ (0x24, Opcode.mul32_imm)
    ∷ (0x2c, Opcode.mul32_reg)
    ∷ (0x34, Opcode.div32_imm)
    ∷ (0x3c, Opcode.div32_reg)
    ∷ (0x44, Opcode.or32_imm)
    ∷ (0x4c, Opcode.or32_reg)
    ∷ (0x54, Opcode.and32_imm)
    ∷ (0x5c, Opcode.and32_reg)
    ∷ (0x64, Opcode.lsh32_imm)
    ∷ (0x6c, Opcode.lsh32_reg)
    ∷ (0x74, Opcode.rsh32_imm)
    ∷ (0x7c, Opcode.rsh32_reg)
    ∷ (0x94, Opcode.mod32_imm)
    ∷ (0x9c, Opcode.mod32_reg)
    ∷ (0xa4, Opcode.xor32_imm)
    ∷ (0xac, Opcode.xor32_reg)
    ∷ (0xb4, Opcode.mov32_imm)
    ∷ (0xbc, Opcode.mov32_reg)
    ∷ (0xc4, Opcode.arsh32_imm)
    ∷ (0xcc, Opcode.arsh32_reg)
    ∷ (0x86, Opcode.lmul32_imm)
    ∷ (0x8e, Opcode.lmul32_reg)
    ∷ (0x46, Opcode.udiv32_imm)
    ∷ (0x4e, Opcode.udiv32_reg)
    ∷ (0x66, Opcode.urem32_imm)
    ∷ (0x6e, Opcode.urem32_reg)
    ∷ (0xc6, Opcode.sdiv32_imm)
    ∷ (0xce, Opcode.sdiv32_reg)
    ∷ (0xe6, Opcode.srem32_imm)
    ∷ (0xee, Opcode.srem32_reg)
    ∷ (0xd4, Opcode.le)
    ∷ (0xdc, Opcode.be)
    ∷ (0x07, Opcode.add64_imm)
    ∷ (0x0f, Opcode.add64_reg)
    ∷ (0x17, Opcode.sub64_imm)
    ∷ (0x1f, Opcode.sub64_reg)
    ∷ (0x27, Opcode.mul64_imm)
    ∷ (0x2f, Opcode.mul64_reg)
    ∷ (0x37, Opcode.div64_imm)
    ∷ (0x3f, Opcode.div64_reg)
    ∷ (0x47, Opcode.or64_imm)
    ∷ (0x4f, Opcode.or64_reg)
    ∷ (0x57, Opcode.and64_imm)
    ∷ (0x5f, Opcode.and64_reg)
    ∷ (0x67, Opcode.lsh64_imm)
    ∷ (0x6f, Opcode.lsh64_reg)
    ∷ (0x77, Opcode.rsh64_imm)
    ∷ (0x7f, Opcode.rsh64_reg)
    ∷ (0x97, Opcode.mod64_imm)
    ∷ (0x9f, Opcode.mod64_reg)
    ∷ (0xa7, Opcode.xor64_imm)
    ∷ (0xaf, Opcode.xor64_reg)
    ∷ (0xb7, Opcode.mov64_imm)
    ∷ (0xbf, Opcode.mov64_reg)
    ∷ (0xc7, Opcode.arsh64_imm)
    ∷ (0xcf, Opcode.arsh64_reg)
    ∷ (0xf7, Opcode.hor64_imm)
    ∷ (0x96, Opcode.lmul64_imm)
    ∷ (0x9e, Opcode.lmul64_reg)
    ∷ (0x36, Opcode.uhmul64_imm)
    ∷ (0x3e, Opcode.uhmul64_reg)
    ∷ (0x56, Opcode.udiv64_imm)
    ∷ (0x5e, Opcode.udiv64_reg)
    ∷ (0x76, Opcode.urem64_imm)
    ∷ (0x7e, Opcode.urem64_reg)
    ∷ (0xb6, Opcode.shmul64_imm)
    ∷ (0xbe, Opcode.shmul64_reg)
    ∷ (0xd6, Opcode.sdiv64_imm)
    ∷ (0xde, Opcode.sdiv64_reg)
    ∷ (0xf6, Opcode.srem64_imm)
    ∷ (0xfe, Opcode.srem64_reg)
    ∷ (0x84, Opcode.neg32)
    ∷ (0x87, Opcode.neg64)
    ∷ (0x05, Opcode.ja)
    ∷ (0x15, Opcode.jeq_imm)
    ∷ (0x1d, Opcode.jeq_reg)
    ∷ (0x25, Opcode.jgt_imm)
    ∷ (0x2d, Opcode.jgt_reg)
    ∷ (0x35, Opcode.jge_imm)
    ∷ (0x3d, Opcode.jge_reg)
    ∷ (0xa5, Opcode.jlt_imm)
    ∷ (0xad, Opcode.jlt_reg)
    ∷ (0xb5, Opcode.jle_imm)
    ∷ (0xbd, Opcode.jle_reg)
    ∷ (0x45, Opcode.jset_imm)
    ∷ (0x4d, Opcode.jset_reg)
    ∷ (0x55, Opcode.jne_imm)
    ∷ (0x5d, Opcode.jne_reg)
    ∷ (0x65, Opcode.jsgt_imm)
    ∷ (0x6d, Opcode.jsgt_reg)
    ∷ (0x75, Opcode.jsge_imm)
    ∷ (0x7d, Opcode.jsge_reg)
    ∷ (0xc5, Opcode.jslt_imm)
    ∷ (0xcd, Opcode.jslt_reg)
    ∷ (0xd5, Opcode.jsle_imm)
    ∷ (0xdd, Opcode.jsle_reg)
    ∷ (0x85, Opcode.call)
    ∷ (0x8d, Opcode.callx)
    ∷ (0x95, Opcode.exit)
    ∷ []

unfoldable pub v3_arms : Arms
v3_arms =
    (0x16, Opcode.jeq32_imm)
    ∷ (0x1e, Opcode.jeq32_reg)
    ∷ (0x26, Opcode.jgt32_imm)
    ∷ (0x2e, Opcode.jgt32_reg)
    ∷ (0x36, Opcode.jge32_imm)
    ∷ (0x3e, Opcode.jge32_reg)
    ∷ (0xa6, Opcode.jlt32_imm)
    ∷ (0xae, Opcode.jlt32_reg)
    ∷ (0xb6, Opcode.jle32_imm)
    ∷ (0xbe, Opcode.jle32_reg)
    ∷ (0x46, Opcode.jset32_imm)
    ∷ (0x4e, Opcode.jset32_reg)
    ∷ (0x56, Opcode.jne32_imm)
    ∷ (0x5e, Opcode.jne32_reg)
    ∷ (0x66, Opcode.jsgt32_imm)
    ∷ (0x6e, Opcode.jsgt32_reg)
    ∷ (0x76, Opcode.jsge32_imm)
    ∷ (0x7e, Opcode.jsge32_reg)
    ∷ (0xc6, Opcode.jslt32_imm)
    ∷ (0xce, Opcode.jslt32_reg)
    ∷ (0xd6, Opcode.jsle32_imm)
    ∷ (0xde, Opcode.jsle32_reg)
    ∷ []

abbrev pub no_decode_handler : SbpfError
no_decode_handler = record {
  error = "no decode handler for opcode 0x{:02x}";
  span = (0, 1);
  custom_label = some "Invalid opcode";
}

-- `impl TryFrom<u8> for Opcode`.
unfoldable pub try_from : ℕ → Result SbpfError Opcode
unfolding first_arm try_from_arms
try_from b = elim (first_arm try_from_arms b) [ some op ↦ ok op | none ↦ err no_decode_handler ]

-- The arms of v3 come first, then `opcode.try_into()`.
unfoldable pub try_from_sbpf_v3 : ℕ → Result SbpfError Opcode
unfolding first_arm v3_arms try_from
try_from_sbpf_v3 b = elim (first_arm v3_arms b) [ some op ↦ ok op | none ↦ try_from b ]

-- `impl From<Opcode> for u8`.
unfoldable pub to_byte : Opcode → ℕ
to_byte Opcode.lddw = 0x18
to_byte Opcode.ldxb = 0x71
to_byte Opcode.ldxh = 0x69
to_byte Opcode.ldxw = 0x61
to_byte Opcode.ldxdw = 0x79
to_byte Opcode.stb = 0x72
to_byte Opcode.sth = 0x6a
to_byte Opcode.stw = 0x62
to_byte Opcode.stdw = 0x7a
to_byte Opcode.stxb = 0x73
to_byte Opcode.stxh = 0x6b
to_byte Opcode.stxw = 0x63
to_byte Opcode.stxdw = 0x7b
to_byte Opcode.add32_imm = 0x04
to_byte Opcode.add32_reg = 0x0c
to_byte Opcode.sub32_imm = 0x14
to_byte Opcode.sub32_reg = 0x1c
to_byte Opcode.mul32_imm = 0x24
to_byte Opcode.mul32_reg = 0x2c
to_byte Opcode.div32_imm = 0x34
to_byte Opcode.div32_reg = 0x3c
to_byte Opcode.or32_imm = 0x44
to_byte Opcode.or32_reg = 0x4c
to_byte Opcode.and32_imm = 0x54
to_byte Opcode.and32_reg = 0x5c
to_byte Opcode.lsh32_imm = 0x64
to_byte Opcode.lsh32_reg = 0x6c
to_byte Opcode.rsh32_imm = 0x74
to_byte Opcode.rsh32_reg = 0x7c
to_byte Opcode.mod32_imm = 0x94
to_byte Opcode.mod32_reg = 0x9c
to_byte Opcode.xor32_imm = 0xa4
to_byte Opcode.xor32_reg = 0xac
to_byte Opcode.mov32_imm = 0xb4
to_byte Opcode.mov32_reg = 0xbc
to_byte Opcode.arsh32_imm = 0xc4
to_byte Opcode.arsh32_reg = 0xcc
to_byte Opcode.lmul32_imm = 0x86
to_byte Opcode.lmul32_reg = 0x8e
to_byte Opcode.udiv32_imm = 0x46
to_byte Opcode.udiv32_reg = 0x4e
to_byte Opcode.urem32_imm = 0x66
to_byte Opcode.urem32_reg = 0x6e
to_byte Opcode.sdiv32_imm = 0xc6
to_byte Opcode.sdiv32_reg = 0xce
to_byte Opcode.srem32_imm = 0xe6
to_byte Opcode.srem32_reg = 0xee
to_byte Opcode.le = 0xd4
to_byte Opcode.be = 0xdc
to_byte Opcode.add64_imm = 0x07
to_byte Opcode.add64_reg = 0x0f
to_byte Opcode.sub64_imm = 0x17
to_byte Opcode.sub64_reg = 0x1f
to_byte Opcode.mul64_imm = 0x27
to_byte Opcode.mul64_reg = 0x2f
to_byte Opcode.div64_imm = 0x37
to_byte Opcode.div64_reg = 0x3f
to_byte Opcode.or64_imm = 0x47
to_byte Opcode.or64_reg = 0x4f
to_byte Opcode.and64_imm = 0x57
to_byte Opcode.and64_reg = 0x5f
to_byte Opcode.lsh64_imm = 0x67
to_byte Opcode.lsh64_reg = 0x6f
to_byte Opcode.rsh64_imm = 0x77
to_byte Opcode.rsh64_reg = 0x7f
to_byte Opcode.mod64_imm = 0x97
to_byte Opcode.mod64_reg = 0x9f
to_byte Opcode.xor64_imm = 0xa7
to_byte Opcode.xor64_reg = 0xaf
to_byte Opcode.mov64_imm = 0xb7
to_byte Opcode.mov64_reg = 0xbf
to_byte Opcode.arsh64_imm = 0xc7
to_byte Opcode.arsh64_reg = 0xcf
to_byte Opcode.hor64_imm = 0xf7
to_byte Opcode.lmul64_imm = 0x96
to_byte Opcode.lmul64_reg = 0x9e
to_byte Opcode.uhmul64_imm = 0x36
to_byte Opcode.uhmul64_reg = 0x3e
to_byte Opcode.udiv64_imm = 0x56
to_byte Opcode.udiv64_reg = 0x5e
to_byte Opcode.urem64_imm = 0x76
to_byte Opcode.urem64_reg = 0x7e
to_byte Opcode.shmul64_imm = 0xb6
to_byte Opcode.shmul64_reg = 0xbe
to_byte Opcode.sdiv64_imm = 0xd6
to_byte Opcode.sdiv64_reg = 0xde
to_byte Opcode.srem64_imm = 0xf6
to_byte Opcode.srem64_reg = 0xfe
to_byte Opcode.neg32 = 0x84
to_byte Opcode.neg64 = 0x87
to_byte Opcode.ja = 0x05
to_byte Opcode.jeq_imm = 0x15
to_byte Opcode.jeq_reg = 0x1d
to_byte Opcode.jgt_imm = 0x25
to_byte Opcode.jgt_reg = 0x2d
to_byte Opcode.jge_imm = 0x35
to_byte Opcode.jge_reg = 0x3d
to_byte Opcode.jlt_imm = 0xa5
to_byte Opcode.jlt_reg = 0xad
to_byte Opcode.jle_imm = 0xb5
to_byte Opcode.jle_reg = 0xbd
to_byte Opcode.jset_imm = 0x45
to_byte Opcode.jset_reg = 0x4d
to_byte Opcode.jne_imm = 0x55
to_byte Opcode.jne_reg = 0x5d
to_byte Opcode.jsgt_imm = 0x65
to_byte Opcode.jsgt_reg = 0x6d
to_byte Opcode.jsge_imm = 0x75
to_byte Opcode.jsge_reg = 0x7d
to_byte Opcode.jslt_imm = 0xc5
to_byte Opcode.jslt_reg = 0xcd
to_byte Opcode.jsle_imm = 0xd5
to_byte Opcode.jsle_reg = 0xdd
to_byte Opcode.jeq32_imm = 0x16
to_byte Opcode.jeq32_reg = 0x1e
to_byte Opcode.jgt32_imm = 0x26
to_byte Opcode.jgt32_reg = 0x2e
to_byte Opcode.jge32_imm = 0x36
to_byte Opcode.jge32_reg = 0x3e
to_byte Opcode.jlt32_imm = 0xa6
to_byte Opcode.jlt32_reg = 0xae
to_byte Opcode.jle32_imm = 0xb6
to_byte Opcode.jle32_reg = 0xbe
to_byte Opcode.jset32_imm = 0x46
to_byte Opcode.jset32_reg = 0x4e
to_byte Opcode.jne32_imm = 0x56
to_byte Opcode.jne32_reg = 0x5e
to_byte Opcode.jsgt32_imm = 0x66
to_byte Opcode.jsgt32_reg = 0x6e
to_byte Opcode.jsge32_imm = 0x76
to_byte Opcode.jsge32_reg = 0x7e
to_byte Opcode.jslt32_imm = 0xc6
to_byte Opcode.jslt32_reg = 0xce
to_byte Opcode.jsle32_imm = 0xd6
to_byte Opcode.jsle32_reg = 0xde
to_byte Opcode.call = 0x85
to_byte Opcode.callx = 0x8d
to_byte Opcode.exit = 0x95
