-- ===== src/Instruction/Validate.antt =====
-- crates/common/src/validate.rs: which operands an instruction of each type has.
pub mod Laws
use sbpf.Base.{String, Option, some, none, ◌⊎◌, inr, Bool, true, false, ◌||◌, if◌then◌else◌}
use sbpf.Base.Int.{ℤ, pos, eqb_ℤ}
use sbpf.Errors.{Result, ok, err, SbpfError}
use sbpf.Instruction.{Instruction, Register, Number, int}

abbrev pub Validation : Type 0
Validation = Instruction → Result SbpfError (Unit {0})

-- The error at an instruction, with the text of its message.
abbrev pub invalid : String → Instruction → Result SbpfError (Unit {0})
invalid text inst = err (record { error = text; span = inst.span; custom_label = none })

-- The patterns of the source over the operands, in the order dst, src, off, imm.
abbrev pub Shape : Type 0
Shape = Option Register → Option Register → Option (String ⊎ ℤ) → Option (String ⊎ Number) → Bool

abbrev pub matching : Shape → String → Validation
matching shape text inst =
    if shape inst.dst inst.src inst.off inst.imm then ok tt else invalid text inst

abbrev pub dst_imm : Shape
dst_imm (some _) none none (some _) = true
dst_imm _ _ _ _ = false

abbrev pub dst_src_off : Shape
dst_src_off (some _) (some _) (some _) none = true
dst_src_off _ _ _ _ = false

abbrev pub dst_off_imm : Shape
dst_off_imm (some _) none (some _) (some _) = true
dst_off_imm _ _ _ _ = false

abbrev pub dst_only : Shape
dst_only (some _) none none none = true
dst_only _ _ _ _ = false

abbrev pub dst_src : Shape
dst_src (some _) (some _) none none = true
dst_src _ _ _ _ = false

abbrev pub off_only : Shape
off_only none none (some _) none = true
off_only _ _ _ _ = false

abbrev pub src_imm : Shape
src_imm none (some _) none (some _) = true
src_imm _ _ _ _ = false

abbrev pub no_operands : Shape
no_operands none none none none = true
no_operands _ _ _ _ = false

unfoldable pub validate_load_immediate : Instruction → Result SbpfError (Unit {0})
validate_load_immediate =
    matching dst_imm "{} instruction requires destination register and immediate value"

unfoldable pub validate_load_memory : Instruction → Result SbpfError (Unit {0})
validate_load_memory =
    matching dst_src_off "{} instruction requires destination register, source register, and offset"

unfoldable pub validate_store_immediate : Instruction → Result SbpfError (Unit {0})
validate_store_immediate =
    matching dst_off_imm "{} instruction requires destination register, offset, and immediate value"

unfoldable pub validate_store_register : Instruction → Result SbpfError (Unit {0})
validate_store_register =
    matching dst_src_off "{} instruction requires destination register, source register, and offset"

unfoldable pub validate_unary : Instruction → Result SbpfError (Unit {0})
validate_unary = matching dst_only "{} instruction requires destination register only"

abbrev pub valid_bits : Option (String ⊎ Number) → Bool
valid_bits (some (inr (int bits))) =
    eqb_ℤ bits (pos 16) || eqb_ℤ bits (pos 32) || eqb_ℤ bits (pos 64)
valid_bits _ = false

unfoldable pub validate_endian : Instruction → Result SbpfError (Unit {0})
validate_endian inst =
    if dst_imm inst.dst inst.src inst.off inst.imm
    then (if valid_bits inst.imm
        then ok tt
        else invalid "{} instruction requires immediate value of 16, 32, or 64" inst)
    else invalid "{} instruction requires destination register and immediate value" inst

unfoldable pub validate_binary_immediate : Instruction → Result SbpfError (Unit {0})
validate_binary_immediate =
    matching dst_imm "{} instruction requires destination register and immediate value"

unfoldable pub validate_binary_register : Instruction → Result SbpfError (Unit {0})
validate_binary_register =
    matching dst_src "{} instruction requires destination register and source register"

unfoldable pub validate_jump : Instruction → Result SbpfError (Unit {0})
validate_jump = matching off_only "{} instruction requires offset only"

unfoldable pub validate_jump_immediate : Instruction → Result SbpfError (Unit {0})
validate_jump_immediate =
    matching dst_off_imm "{} instruction requires destination register, offset and immediate value"

unfoldable pub validate_jump_register : Instruction → Result SbpfError (Unit {0})
validate_jump_register =
    matching dst_src_off "{} instruction requires destination register, source register, and offset"

unfoldable pub validate_call_immediate : Instruction → Result SbpfError (Unit {0})
validate_call_immediate =
    matching src_imm "{} instruction requires source register and immediate value"

unfoldable pub validate_call_register : Instruction → Result SbpfError (Unit {0})
validate_call_register = matching dst_only "{} instruction requires destination register only"

unfoldable pub validate_exit : Instruction → Result SbpfError (Unit {0})
validate_exit = matching no_operands "{} instruction requires no operands"
