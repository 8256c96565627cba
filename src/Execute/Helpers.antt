-- ===== src/Execute/Helpers.antt =====
-- crates/common/src/execute/helpers.rs: the operands of an instruction.
use sbpf.Base.{ℕ, Option, some, none, ◌⊎◌, inr, String}
use sbpf.Base.Int.{ℤ, ◌+ℤ◌}
use sbpf.Base.Words.{u64, i64, wrap_int}
use sbpf.Errors.{Result, ok, err, ExecutionError}
use sbpf.Instruction.{Instruction, Register, Number, int}

abbrev pub operand : Option Register → Result ExecutionError ℕ
operand (some r) = ok r.n
operand none = err ExecutionError.invalid_operand

unfoldable pub get_dst : Instruction → Result ExecutionError ℕ
get_dst inst = operand inst.dst

unfoldable pub get_src : Instruction → Result ExecutionError ℕ
get_src inst = operand inst.src

abbrev pub int_operand : Option (String ⊎ Number) → Result ExecutionError ℤ
int_operand (some (inr (int n))) = ok n
int_operand _ = err ExecutionError.invalid_operand

unfoldable pub get_imm_i64 : Instruction → Result ExecutionError ℤ
get_imm_i64 inst = int_operand inst.imm

abbrev pub as_u64 : Result ExecutionError ℤ → Result ExecutionError ℕ
as_u64 (ok n) = ok (u64 n)
as_u64 (err e) = err e
as_u64 Result.panic = Result.panic

unfoldable pub get_imm_u64 : Instruction → Result ExecutionError ℕ
get_imm_u64 inst = as_u64 (int_operand inst.imm)

abbrev pub offset_operand : Option (String ⊎ ℤ) → Result ExecutionError ℤ
offset_operand (some (inr off)) = ok off
offset_operand _ = err ExecutionError.invalid_operand

unfoldable pub get_offset : Instruction → Result ExecutionError ℤ
get_offset inst = offset_operand inst.off

-- `(base as i64).wrapping_add(offset as i64) as u64`.
unfoldable pub calculate_address : ℕ → ℤ → ℕ
calculate_address base offset = u64 (wrap_int 64 (i64 base +ℤ offset))
