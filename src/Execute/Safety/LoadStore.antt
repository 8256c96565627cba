-- ===== src/Execute/Safety/LoadStore.antt =====
-- Loads and stores keep the machine valid.
use sbpf.Base.{ℕ, ◌^◌, ◌<◌, arith}
use sbpf.Base.Int.{ℤ}
use sbpf.Errors.{Result}
use sbpf.Instruction.{Instruction}
use sbpf.Execute.Safety.Words.{get_imm_u64-IsWord}
use sbpf.Vm.State.Safe.{
  Safe, Any, IsReader, IsWriter, Safe-bind, Safe-lift, Safe-lift_any, Safe-get_register,
  Safe-set_register, Safe-advance_pc, Safe-read, Safe-write,
}
use sbpf.Errors.{SbpfVmError}
use sbpf.Vm.Memory.{
  Memory, read_u8, read_u16, read_u32, read_u64, write_u8, write_u16, write_u32, write_u64,
}
use sbpf.Vm.Memory.Bytes.{read_word-lt, write_word-IsBytes}
use sbpf.Execute.LoadStore.{
  execute_lddw, execute_ldx, execute_st, execute_stx, execute_ldxb, execute_ldxh, execute_ldxw,
  execute_ldxdw, execute_stb, execute_sth, execute_stw, execute_stdw, execute_stxb, execute_stxh,
  execute_stxw, execute_stxdw,
}

read_u8-IsReader : IsReader read_u8
unfolding read_u8
read_u8-IsReader m address value b h =
    let v : value < 256 ^ 1 = read_word-lt m address 1 b h in omega arith

write_u8-IsWriter : IsWriter write_u8
unfolding write_u8
write_u8-IsWriter m address value m' b h = write_word-IsBytes m address 1 value h b

read_u16-IsReader : IsReader read_u16
unfolding read_u16
read_u16-IsReader m address value b h =
    let v : value < 256 ^ 2 = read_word-lt m address 2 b h in omega arith

write_u16-IsWriter : IsWriter write_u16
unfolding write_u16
write_u16-IsWriter m address value m' b h = write_word-IsBytes m address 2 value h b

read_u32-IsReader : IsReader read_u32
unfolding read_u32
read_u32-IsReader m address value b h =
    let v : value < 256 ^ 4 = read_word-lt m address 4 b h in omega arith

write_u32-IsWriter : IsWriter write_u32
unfolding write_u32
write_u32-IsWriter m address value m' b h = write_word-IsBytes m address 4 value h b

read_u64-IsReader : IsReader read_u64
unfolding read_u64
read_u64-IsReader m address value b h = read_word-lt m address 8 b h

write_u64-IsWriter : IsWriter write_u64
unfolding write_u64
write_u64-IsWriter m address value m' b h = write_word-IsBytes m address 8 value h b

module _ {H : Type 0} {j : ℕ} where
  pub execute_lddw-Safe : (inst : Instruction) → Safe {H = H} j j Any (execute_lddw inst)
  unfolding execute_lddw
  execute_lddw-Safe inst = Safe-bind (Safe-lift_any _) λ dst _.
      Safe-bind (Safe-lift _ (get_imm_u64-IsWord inst))
        λ imm h. Safe-bind (Safe-set_register dst imm h) λ _ _. Safe-advance_pc

  execute_ldx-Safe :
      (reader : Memory → ℕ → Result SbpfVmError ℕ) (inst : Instruction)
      → IsReader reader
      → Safe {H = H} j j Any (execute_ldx reader inst)
  unfolding execute_ldx
  execute_ldx-Safe reader inst r = Safe-bind (Safe-lift_any _) λ dst _.
      Safe-bind (Safe-lift_any _) λ src _. Safe-bind (Safe-lift_any _) λ off _.
        Safe-bind (Safe-get_register src) λ base _.
          Safe-bind (Safe-read reader _ r)
            λ value h. Safe-bind (Safe-set_register dst value h) λ _ _. Safe-advance_pc

  execute_st-Safe :
      (writer : Memory → ℕ → ℕ → Result SbpfVmError Memory) (cast : ℤ → ℕ) (inst : Instruction)
      → IsWriter writer
      → Safe {H = H} j j Any (execute_st writer cast inst)
  unfolding execute_st
  execute_st-Safe writer cast inst w = Safe-bind (Safe-lift_any _) λ dst _.
      Safe-bind (Safe-lift_any _) λ off _. Safe-bind (Safe-lift_any _) λ imm _.
        Safe-bind (Safe-get_register dst)
          λ base _. Safe-bind (Safe-write writer _ _ w) λ _ _. Safe-advance_pc

  execute_stx-Safe :
      (writer : Memory → ℕ → ℕ → Result SbpfVmError Memory) (width : ℕ) (inst : Instruction)
      → IsWriter writer
      → Safe {H = H} j j Any (execute_stx writer width inst)
  unfolding execute_stx
  execute_stx-Safe writer width inst w = Safe-bind (Safe-lift_any _) λ dst _.
      Safe-bind (Safe-lift_any _) λ src _. Safe-bind (Safe-lift_any _) λ off _.
        Safe-bind (Safe-get_register dst) λ base _.
          Safe-bind (Safe-get_register src)
            λ value _. Safe-bind (Safe-write writer _ _ w) λ _ _. Safe-advance_pc

  pub execute_ldxb-Safe : (inst : Instruction) → Safe {H = H} j j Any (execute_ldxb inst)
  unfolding execute_ldxb
  execute_ldxb-Safe inst = execute_ldx-Safe read_u8 inst read_u8-IsReader

  pub execute_stb-Safe : (inst : Instruction) → Safe {H = H} j j Any (execute_stb inst)
  unfolding execute_stb
  execute_stb-Safe inst = execute_st-Safe write_u8 _ inst write_u8-IsWriter

  pub execute_stxb-Safe : (inst : Instruction) → Safe {H = H} j j Any (execute_stxb inst)
  unfolding execute_stxb
  execute_stxb-Safe inst = execute_stx-Safe write_u8 _ inst write_u8-IsWriter

  pub execute_ldxh-Safe : (inst : Instruction) → Safe {H = H} j j Any (execute_ldxh inst)
  unfolding execute_ldxh
  execute_ldxh-Safe inst = execute_ldx-Safe read_u16 inst read_u16-IsReader

  pub execute_sth-Safe : (inst : Instruction) → Safe {H = H} j j Any (execute_sth inst)
  unfolding execute_sth
  execute_sth-Safe inst = execute_st-Safe write_u16 _ inst write_u16-IsWriter

  pub execute_stxh-Safe : (inst : Instruction) → Safe {H = H} j j Any (execute_stxh inst)
  unfolding execute_stxh
  execute_stxh-Safe inst = execute_stx-Safe write_u16 _ inst write_u16-IsWriter

  pub execute_ldxw-Safe : (inst : Instruction) → Safe {H = H} j j Any (execute_ldxw inst)
  unfolding execute_ldxw
  execute_ldxw-Safe inst = execute_ldx-Safe read_u32 inst read_u32-IsReader

  pub execute_stw-Safe : (inst : Instruction) → Safe {H = H} j j Any (execute_stw inst)
  unfolding execute_stw
  execute_stw-Safe inst = execute_st-Safe write_u32 _ inst write_u32-IsWriter

  pub execute_stxw-Safe : (inst : Instruction) → Safe {H = H} j j Any (execute_stxw inst)
  unfolding execute_stxw
  execute_stxw-Safe inst = execute_stx-Safe write_u32 _ inst write_u32-IsWriter

  pub execute_ldxdw-Safe : (inst : Instruction) → Safe {H = H} j j Any (execute_ldxdw inst)
  unfolding execute_ldxdw
  execute_ldxdw-Safe inst = execute_ldx-Safe read_u64 inst read_u64-IsReader

  pub execute_stdw-Safe : (inst : Instruction) → Safe {H = H} j j Any (execute_stdw inst)
  unfolding execute_stdw
  execute_stdw-Safe inst = execute_st-Safe write_u64 _ inst write_u64-IsWriter

  pub execute_stxdw-Safe : (inst : Instruction) → Safe {H = H} j j Any (execute_stxdw inst)
  unfolding execute_stxdw
  execute_stxdw-Safe inst = execute_stx-Safe write_u64 _ inst write_u64-IsWriter
