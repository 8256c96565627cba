-- ===== src/Instruction/Encode.antt =====
-- crates/common/src/instruction.rs, `to_bytes`: the bytes of an instruction.
pub mod Laws
use Prim.Native.Nat.{bit_or}
use sbpf.Base.{ℕ, ◌*◌, ◌%◌, ◌^◌, Option, some, none, ◌⊎◌, inl, inr, String}
use sbpf.Base.{List, [], ◌∷◌, ◌++◌, if◌then◌else◌}
use sbpf.Base.Int.{ℤ, pos, floor_div}
use sbpf.Base.Words.{u16, u32, to_le_bytes}
use sbpf.Errors.{Result, ok, panic, ◌>>=◌, SbpfError}
use sbpf.Opcode.{Opcode, opcode_eq}
use sbpf.Opcode.Bytes.{to_byte}
use sbpf.Instruction.{Instruction, Register, Number, int, addr}

abbrev pub register_value : Option Register → ℕ
register_value (some r) = r.n
register_value none = 0

-- A label that is left is `unreachable!`.
abbrev pub offset_value : Option (String ⊎ ℤ) → Result SbpfError ℤ
offset_value (some (inl ident)) = panic
offset_value (some (inr off)) = ok off
offset_value none = ok (pos 0)

abbrev pub immediate_value : Option (String ⊎ Number) → Result SbpfError ℤ
immediate_value (some (inl ident)) = panic
immediate_value (some (inr (int imm))) = ok imm
immediate_value (some (inr (addr imm))) = ok imm
immediate_value none = ok (pos 0)

-- The eight bytes, and the second slot of `lddw`. `src_val << 4` is of `u8`s.
unfoldable pub emit : Opcode → ℕ → ℕ → ℤ → ℤ → List ℕ
emit opcode dst_val src_val off_val imm_val =
    let b =
      to_byte opcode ∷ bit_or (src_val * 2 ^ 4 % 2 ^ 8) dst_val ∷ to_le_bytes 2 (u16 off_val)
      ++ to_le_bytes 4 (u32 imm_val) in
    if opcode_eq opcode Opcode.lddw
    then b ++ (0 ∷ 0 ∷ 0 ∷ 0 ∷ []) ++ to_le_bytes 4 (u32 (floor_div imm_val (2 ^ 32)))
    else b

unfoldable pub to_bytes : Instruction → Result SbpfError (List ℕ)
to_bytes inst = do
  off_val ← offset_value inst.off
  imm_val ← immediate_value inst.imm
  let dst_val = register_value inst.dst
  let src_val = register_value inst.src
  ok (
      if opcode_eq inst.opcode Opcode.callx
      then emit inst.opcode 0 src_val off_val (pos dst_val)
      else emit inst.opcode dst_val src_val off_val imm_val)
