-- ===== src/Tests/Execution.antt =====
-- The theorems on single instructions, and on the table of syscalls.
use sbpf.Base.{ℕ, ◌<◌, ◌^◌, ◌≡◌, ◌↔◌, refl, arith, Option, some, inr, [], ◌∷◌, get_elem?, String}
use sbpf.Base.Int.{pos}
use sbpf.Errors.{ok, panic}
use sbpf.Opcode.{Opcode}
use sbpf.Instruction.{Instruction, int}
use sbpf.Vm.State.Start.{new_with_config-IsValid}
use sbpf.Base.{false, ◌-◌}
use sbpf.Errors.{◌>>=◌}
use sbpf.Opcode.Tables.{type_of}
use sbpf.Instruction.Encode.{to_bytes}
use sbpf.InstHandler.{handler_of}
use sbpf.InstHandler.Codec.{from_bytes}
use sbpf.Vm.Compute.{new as new_meter}
use sbpf.Vm.State.Laws.{IsValid}
use sbpf.Vm.Step.{step}
use sbpf.Vm.Step.Panics.{mov64, step-mov64_panics}
use sbpf.Execute.Endian.{execute_endian}
use sbpf.Execute.Endian.Laws.{execute_endian-to_le_bytes, ordered}
use sbpf.Base.{◌+◌, inl, set}
use sbpf.Base.Words.{to_le_bytes}
use sbpf.Vm.State.{SbpfVm, new_with_config}
use sbpf.SyscallMap.{Entries, get}
use sbpf.SyscallMap.Laws.{IsSorted, get_iff}
use sbpf.Tests.Machine.{plain, register, machine, small_config, names, quiet}

-- A machine whose program is mov64 r11, 1.
abbrev to_r11 : SbpfVm (Unit {0})
to_r11 = new_with_config (mov64 11 (pos 1) ∷ []) (1 ∷ []) [] tt small_config

to_r11-IsValid : IsValid 0 to_r11
to_r11-IsValid =
    new_with_config-IsValid (mov64 11 (pos 1) ∷ []) (1 ∷ []) [] tt small_config (omega arith) tt

to_r11_start :
    (to_r11.halted ≡ false)
    × (to_r11.compute_meter.consumed < to_r11.compute_meter.limit)
    × (to_r11.compute_meter.limit < 2 ^ 64 - 1)
    × (get_elem? to_r11.program to_r11.pc ≡ some (mov64 11 (pos 1)))
unfolding new_with_config new_meter
to_r11_start = (refl, omega arith, omega arith, refl)

step-mov64_panics_example :
    ((handler_of names quiet (type_of Opcode.mov64_imm)).validate (mov64 11 (pos 1)) ≡ ok tt)
    × ((to_bytes (mov64 11 (pos 1)) >>= from_bytes names quiet) ≡ ok (mov64 11 (pos 1)))
    × ((step names quiet to_r11).1 ≡ panic)
step-mov64_panics_example =
    step-mov64_panics names quiet to_r11 11 (pos 1) (omega arith) (omega arith) (omega arith)
      to_r11-IsValid to_r11_start.0 to_r11_start.1 to_r11_start.2 to_r11_start.3

-- be32 r2
abbrev be32 : Instruction
be32 = record (plain Opcode.be) { dst = register 2; imm = some (inr (int (pos 32))) }

-- A machine with a number of eight different bytes in r2.
abbrev loaded : SbpfVm (Unit {0})
loaded = record machine { registers = 0 ∷ 0 ∷ 0x1122334455667788 ∷ [] }

execute_endian-to_le_bytes_example :
    (n : ℕ) × (execute_endian be32 loaded
      ≡ (record loaded { registers = set loaded.registers 2 n; pc = loaded.pc + 1 }, ok tt))
    × (n < 256 ^ 4)
    × (to_le_bytes 4 n ≡ ordered Opcode.be (to_le_bytes 4 0x1122334455667788))
execute_endian-to_le_bytes_example =
    execute_endian-to_le_bytes be32 (record { n = 2 }) loaded 4 0x1122334455667788 refl refl
      (inr refl) (inr (inl refl)) refl (omega arith)

abbrev table : Entries
table = (3, "abort") ∷ (7, "sol_log_") ∷ (9, "sol_panic_") ∷ []

table-IsSorted : IsSorted table
table-IsSorted = record { increasing = increasing_in }
  where
    increasing_in :
        (i j : ℕ) (x y : ℕ × String)
        → i < j
        → get_elem? table i ≡ some x
        → get_elem? table j ≡ some y
        → x.0 < y.0
    increasing_in i j x y h e f = ground arith

get_iff_example :
    ((r : Option String) × (get table 7 ≡ ok r))
    × ((name : String)
        → (get table 7 ≡ ok (some name)) ↔ ((i : ℕ) × (get_elem? table i ≡ some (7, name))))
get_iff_example = get_iff table 7 table-IsSorted
