-- ===== src/Execute/LoadStore.antt =====
-- crates/common/src/execute/load.rs and store.rs: loads and stores.
use sbpf.Base.{ℕ, ◌%◌, ◌^◌}
use sbpf.Base.Int.{ℤ}
use sbpf.Base.Words.{u8, u16, u32, u64}
use sbpf.Errors.{Result}
use sbpf.Instruction.{Instruction}
use sbpf.Vm.State.{M, ◌>>=◌, ◌>>◌, lift, get_register, set_register, advance_pc, read, write}
use sbpf.Execute.Helpers.{get_dst, get_src, get_imm_i64, get_imm_u64, get_offset, calculate_address}
use sbpf.Errors.{SbpfVmError}
use sbpf.Vm.Memory.{
  Memory, read_u8, read_u16, read_u32, read_u64, write_u8, write_u16, write_u32, write_u64,
}

module _ {H : Type 0} where
  unfoldable pub execute_lddw : Instruction → M H (Unit {0})
  execute_lddw inst = do
    dst ← lift (get_dst inst)
    imm ← lift (get_imm_u64 inst)
    set_register dst imm
    advance_pc

  -- The common body of the four loads.
  unfoldable pub execute_ldx : (Memory → ℕ → Result SbpfVmError ℕ) → Instruction → M H (Unit {0})
  execute_ldx reader inst = do
    dst ← lift (get_dst inst)
    src ← lift (get_src inst)
    off ← lift (get_offset inst)
    base ← get_register src
    value ← read reader (calculate_address base off)
    set_register dst value
    advance_pc

  unfoldable pub execute_ldxb : Instruction → M H (Unit {0})
  execute_ldxb inst = execute_ldx read_u8 inst

  unfoldable pub execute_ldxh : Instruction → M H (Unit {0})
  execute_ldxh inst = execute_ldx read_u16 inst

  unfoldable pub execute_ldxw : Instruction → M H (Unit {0})
  execute_ldxw inst = execute_ldx read_u32 inst

  unfoldable pub execute_ldxdw : Instruction → M H (Unit {0})
  execute_ldxdw inst = execute_ldx read_u64 inst

  -- The common body of the four stores of an immediate, whose value is cut to the width.
  unfoldable pub execute_st :
      (Memory → ℕ → ℕ → Result SbpfVmError Memory) → (ℤ → ℕ) → Instruction → M H (Unit {0})
  execute_st writer cast inst = do
    dst ← lift (get_dst inst)
    off ← lift (get_offset inst)
    imm ← lift (get_imm_i64 inst)
    base ← get_register dst
    write writer (calculate_address base off) (cast imm)
    advance_pc

  unfoldable pub execute_stb : Instruction → M H (Unit {0})
  execute_stb inst = execute_st write_u8 u8 inst

  unfoldable pub execute_sth : Instruction → M H (Unit {0})
  execute_sth inst = execute_st write_u16 u16 inst

  unfoldable pub execute_stw : Instruction → M H (Unit {0})
  execute_stw inst = execute_st write_u32 u32 inst

  unfoldable pub execute_stdw : Instruction → M H (Unit {0})
  execute_stdw inst = execute_st write_u64 u64 inst

  -- The common body of the four stores of a register.
  unfoldable pub execute_stx :
      (Memory → ℕ → ℕ → Result SbpfVmError Memory) → ℕ → Instruction → M H (Unit {0})
  execute_stx writer width inst = do
    dst ← lift (get_dst inst)
    src ← lift (get_src inst)
    off ← lift (get_offset inst)
    base ← get_register dst
    value ← get_register src
    write writer (calculate_address base off) (value % 2 ^ width)
    advance_pc

  unfoldable pub execute_stxb : Instruction → M H (Unit {0})
  execute_stxb inst = execute_stx write_u8 8 inst

  unfoldable pub execute_stxh : Instruction → M H (Unit {0})
  execute_stxh inst = execute_stx write_u16 16 inst

  unfoldable pub execute_stxw : Instruction → M H (Unit {0})
  execute_stxw inst = execute_stx write_u32 32 inst

  unfoldable pub execute_stxdw : Instruction → M H (Unit {0})
  execute_stxdw inst = execute_stx write_u64 64 inst
