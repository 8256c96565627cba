-- ===== src/Instruction.antt =====
-- crates/common/src/instruction.rs and crates/common/src/inst_param.rs: an instruction and its
-- operands.
pub mod Validate
pub mod Decode
pub mod Encode
use mathlib.Core.Option
use sbpf.Base.{ℕ, String, Option, Bool, true, false, ◌⊎◌}
use sbpf.Base.Int.{ℤ}
use sbpf.Opcode.{Opcode, OperationType}
use sbpf.Opcode.Tables.{opcode_to_type, lookup}

pub record Register : Type 0 where
  pub n : ℕ

-- An `i64`, a plain value or an address.
pub data Number : Type 0 where
  int addr : ℤ → Number

-- `Either<String, i16>` and `Either<String, Number>` are sums: a label to be resolved, or a value.
pub record Instruction : Type 0 where
  pub opcode : Opcode
  pub dst : Option Register
  pub src : Option Register
  pub off : Option (String ⊎ ℤ)
  pub imm : Option (String ⊎ Number)
  pub span : ℕ × ℕ

abbrev size_of : Opcode → ℕ
size_of Opcode.lddw = 16
size_of _ = 8

unfoldable pub get_size : Instruction → ℕ
get_size inst = size_of inst.opcode

abbrev is_jump_type : OperationType → Bool
is_jump_type OperationType.jump = true
is_jump_type OperationType.jump_immediate = true
is_jump_type OperationType.jump_register = true
is_jump_type OperationType.jump32_immediate = true
is_jump_type OperationType.jump32_register = true
is_jump_type _ = false

-- `get_opcode_type`; `none` is the panic of its `unwrap`.
unfoldable pub get_opcode_type : Instruction → Option OperationType
get_opcode_type inst = lookup opcode_to_type inst.opcode

unfoldable pub is_jump : Instruction → Option Bool
unfolding get_opcode_type
is_jump inst = Option.map is_jump_type (get_opcode_type inst)
