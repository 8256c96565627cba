-- ===== src/InstHandler/Codec.antt =====
-- crates/common/src/instruction.rs, `from_bytes`, `from_bytes_sbpf_v2` and `from_bytes_sbpf_v3`: the
-- instruction at the start of a sequence of bytes.
use sbpf.Base.{ℕ, ◌/◌, ◌^◌, ◌==◌, leb, String, Option, some, none, List, [], ◌∷◌}
use sbpf.Base.{length, get_elem?, set, if◌then◌else◌}
use sbpf.Errors.{Result, ok, err, panic, ◌>>=◌, SbpfError}
use sbpf.Opcode.Tables.{lookup}
use sbpf.Opcode.Bytes.{try_from, try_from_sbpf_v3}
use sbpf.Instruction.{Instruction}
use sbpf.Instruction.Decode.{byte_at}
use sbpf.Vm.Memory.{overwrite}
use sbpf.Vm.State.{Handle}
use sbpf.InstHandler.{InstructionHandler, opcode_to_handler}

abbrev pub decode_by :
    {H : Type 0} → Option (InstructionHandler H) → List ℕ → Result SbpfError Instruction
decode_by (some handler) bytes = handler.decode bytes
decode_by none bytes = err (record {
  error = "no decode handler for opcode {}";
  span = (0, 1);
  custom_label = some "Invalid opcode";
})

-- The opcodes of v2 that stand for others: the byte read, and the byte that takes its place.
abbrev pub v2_opcodes : List (ℕ × ℕ)
v2_opcodes =
    (0x8C, 0x61)
    ∷ (0x8F, 0x63)
    ∷ (0x2C, 0x71)
    ∷ (0x3C, 0x69)
    ∷ (0x9C, 0x79)
    ∷ (0x27, 0x72)
    ∷ (0x2F, 0x73)
    ∷ (0x37, 0x6A)
    ∷ (0x3F, 0x6B)
    ∷ (0x87, 0x62)
    ∷ (0x97, 0x7A)
    ∷ (0x9F, 0x7B)
    ∷ []

abbrev replacement : List (ℕ × ℕ) → ℕ → Option ℕ
replacement [] b = none
replacement ((k, v) ∷ rest) b = let found = replacement rest b in if k == b then some v else found

-- The two arms that look further. The slice of four bytes panics where there are fewer.
abbrev lddw_v2 : List ℕ → Option ℕ → Result SbpfError (List ℕ)
lddw_v2 bytes (some lddw_2) =
    if lddw_2 == 0xf7
    then (if leb 12 (length bytes)
        then ok (overwrite (set bytes 0 0x18) 8 (0 ∷ 0 ∷ 0 ∷ 0 ∷ []))
        else panic)
    else ok bytes
lddw_v2 bytes none = ok bytes

abbrev callx_v2 : List ℕ → Option ℕ → Result SbpfError (List ℕ)
callx_v2 bytes (some reg) = ok (set bytes 1 (reg / 2 ^ 4))
callx_v2 bytes none = panic

abbrev v2_arm : List ℕ → ℕ → Option ℕ → Result SbpfError (List ℕ)
v2_arm bytes first (some opcode) = ok (set bytes 0 opcode)
v2_arm bytes first none =
    if first == 0x21
    then lddw_v2 bytes (get_elem? bytes 8)
    else if first == 0x8D
    then callx_v2 bytes (get_elem? bytes 1)
    else ok bytes

-- The bytes of v2 in the form that `from_bytes` reads.
unfoldable pub preprocess_sbpf_v2 : List ℕ → Result SbpfError (List ℕ)
unfolding overwrite
preprocess_sbpf_v2 bytes = do
  first ← byte_at bytes 0
  v2_arm bytes first (replacement v2_opcodes first)

module _ {H : Type 0} (get : ℕ → Option String) (handle : Handle H) where
  unfoldable pub from_bytes : List ℕ → Result SbpfError Instruction
  from_bytes bytes = do
    opcode ← try_from (← byte_at bytes 0)
    decode_by (lookup (opcode_to_handler get handle) opcode) bytes

  unfoldable pub from_bytes_sbpf_v2 : List ℕ → Result SbpfError Instruction
  unfolding preprocess_sbpf_v2 from_bytes
  from_bytes_sbpf_v2 bytes = do
    processed_bytes ← preprocess_sbpf_v2 bytes
    from_bytes processed_bytes

  unfoldable pub from_bytes_sbpf_v3 : List ℕ → Result SbpfError Instruction
  from_bytes_sbpf_v3 bytes = do
    opcode ← try_from_sbpf_v3 (← byte_at bytes 0)
    decode_by (lookup (opcode_to_handler get handle) opcode) bytes
