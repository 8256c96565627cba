-- ===== src/Execute/Safety/Words.antt =====
-- The bounds of the values that instructions compute.
use native.Mathlib.Nat.{div-le_self, mod-le}
use sbpf.Base.{ℕ, ◌/◌, ◌%◌, ◌^◌, ◌<◌, arith}
use sbpf.Base.Int.{ℤ}
use sbpf.Base.Words.{to_word-lt, u32, u64}
use sbpf.Errors.{Result, ok, err, panic, ExecutionError}
use sbpf.Instruction.{Instruction}
use sbpf.Execute.Helpers.{get_imm_u64, int_operand, as_u64}
use sbpf.Vm.State.Laws.{IsWord}
use sbpf.Vm.State.Safe.{Post}

pub IsWord-u64 : (z : ℤ) → IsWord (u64 z)
IsWord-u64 z = to_word-lt 64 z

-- A `u32` is a `u64`.
pub IsWord-below : (n : ℕ) → n < 2 ^ 32 → IsWord n
IsWord-below n h = omega arith

pub u32-lt : (z : ℤ) → u32 z < 2 ^ 32
u32-lt z = to_word-lt 32 z

pub div-lt : (a v k : ℕ) → a < 2 ^ k → a / v < 2 ^ k
div-lt a v k h = omega (arith, div-le_self a v)

pub rem-lt : (a v k : ℕ) → a < 2 ^ k → a % v < 2 ^ k
rem-lt a v k h = omega (arith, mod-le a v)

pub get_imm_u64-IsWord : (inst : Instruction) → Post IsWord (get_imm_u64 inst)
unfolding get_imm_u64
get_imm_u64-IsWord inst = as_word (int_operand inst.imm)
  where
    as_word : (r : Result ExecutionError ℤ) → Post IsWord (as_u64 r)
    as_word (ok z) = IsWord-u64 z
    as_word (err e) = tt
    as_word panic = tt
