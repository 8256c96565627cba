-- ===== src/Instruction/Decode.antt =====
-- crates/common/src/decode.rs: the decoders of the types of instruction.
use Prim.Native.Nat.{bit_and}
use sbpf.Base.{ℕ, ◌+◌, ◌*◌, ◌/◌, ◌^◌, ◌==◌, leb, not, Bool, true, false, ◌&&◌, ◌||◌, String}
use sbpf.Base.{Option, some, none, ◌⊎◌, inl, inr, List, [], ◌∷◌, length, get_elem?, if◌then◌else◌}
use sbpf.Base.Int.{ℤ, pos, eqb_ℤ}
use sbpf.Base.Words.{i16, i32, i64, u8, u32, from_le_bytes}
use sbpf.Errors.{Result, ok, err, panic, ◌>>=◌, SbpfError}
use sbpf.Opcode.{Opcode}
use sbpf.Opcode.Bytes.{try_from, try_from_sbpf_v3}
use sbpf.Instruction.{Instruction, Register, Number, int}

-- `bytes[i]`.
abbrev pub byte_at : List ℕ → ℕ → Result SbpfError ℕ
byte_at bytes i = elim (get_elem? bytes i) [ some b ↦ ok b | none ↦ panic ]

abbrev pub assert : Bool → Result SbpfError (Unit {0})
assert true = ok tt
assert false = panic

infixl 5 ◌>>◌
abbrev ◌>>◌ {ℓ} :
    {B : Type ℓ} → Result SbpfError (Unit {0}) → Result SbpfError B → Result SbpfError B
m >> k = m >>= λ _. k

-- The fields of eight bytes.
pub record Parsed : Type 0 where
  pub opcode : Opcode
  pub dst : ℕ
  pub src : ℕ
  pub off : ℤ
  pub imm : ℤ

-- `parse_bytes` and `parse_bytes_v3`, which differ in how they read the byte of the opcode.
unfoldable pub parse_bytes_by : (ℕ → Result SbpfError Opcode) → List ℕ → Result SbpfError Parsed
unfolding from_le_bytes
parse_bytes_by read_opcode bytes = do
  opcode ← read_opcode (← byte_at bytes 0)
  reg ← byte_at bytes 1
  b2 ← byte_at bytes 2
  b3 ← byte_at bytes 3
  b4 ← byte_at bytes 4
  b5 ← byte_at bytes 5
  b6 ← byte_at bytes 6
  b7 ← byte_at bytes 7
  ok (record {
    opcode = opcode;
    dst = bit_and reg 0x0f;
    src = reg / 2 ^ 4;
    off = i16 (from_le_bytes (b2 ∷ b3 ∷ []));
    imm = i32 (from_le_bytes (b4 ∷ b5 ∷ b6 ∷ b7 ∷ []));
  })

unfoldable pub parse_bytes : List ℕ → Result SbpfError Parsed
unfolding parse_bytes_by
parse_bytes = parse_bytes_by try_from

unfoldable pub parse_bytes_v3 : List ℕ → Result SbpfError Parsed
unfolding parse_bytes_by
parse_bytes_v3 = parse_bytes_by try_from_sbpf_v3

-- An error that spans the instruction.
abbrev malformed {ℓ} : {A : Type ℓ} → String → ℕ → Result SbpfError A
malformed text size = err (record { error = text; span = (0, size); custom_label = none })

abbrev nonzero : ℕ → Bool
nonzero n = not (n == 0)

abbrev nonzero_ℤ : ℤ → Bool
nonzero_ℤ z = not (eqb_ℤ z (pos 0))

abbrev reg : ℕ → Option Register
reg n = some (record { n = n })

abbrev value : ℤ → Option (String ⊎ Number)
value z = some (inr (int z))

abbrev offset : ℤ → Option (String ⊎ ℤ)
offset z = some (inr z)

-- `((imm_high as i64) << 32) | (imm_low as u32 as i64)`: the halves do not meet.
unfoldable pub join_halves : ℤ → ℤ → ℤ
join_halves imm_high imm_low = i64 (u32 imm_high * 2 ^ 32 + u32 imm_low)

unfoldable pub decode_load_immediate : List ℕ → Result SbpfError Instruction
decode_load_immediate bytes = do
  assert (leb 16 (length bytes))
  p ← parse_bytes bytes
  if nonzero p.src || nonzero_ℤ p.off
      then malformed "{} instruction has src: {}, off: {} supposed to be zero" 16
      else (do
        b12 ← byte_at bytes 12
        b13 ← byte_at bytes 13
        b14 ← byte_at bytes 14
        b15 ← byte_at bytes 15
        let imm_high = i32 (from_le_bytes (b12 ∷ b13 ∷ b14 ∷ b15 ∷ []))
        ok (record {
          opcode = p.opcode;
          dst = reg p.dst;
          src = none;
          off = none;
          imm = value (join_halves imm_high p.imm);
          span = (0, 16);
        }))

unfoldable pub decode_load_memory : List ℕ → Result SbpfError Instruction
decode_load_memory bytes = do
  assert (leb 8 (length bytes))
  p ← parse_bytes bytes
  if nonzero_ℤ p.imm
      then malformed "{} instruction has imm: {} supposed to be zero" 8
      else ok (record {
        opcode = p.opcode;
        dst = reg p.dst;
        src = reg p.src;
        off = offset p.off;
        imm = none;
        span = (0, 8);
      })

unfoldable pub decode_store_immediate : List ℕ → Result SbpfError Instruction
decode_store_immediate bytes = do
  assert (leb 8 (length bytes))
  p ← parse_bytes bytes
  if nonzero p.src
      then malformed "{} instruction has src: {} supposed to be zero" 8
      else ok (record {
        opcode = p.opcode;
        dst = reg p.dst;
        src = none;
        off = offset p.off;
        imm = value p.imm;
        span = (0, 8);
      })

unfoldable pub decode_store_register : List ℕ → Result SbpfError Instruction
decode_store_register bytes = do
  assert (leb 8 (length bytes))
  p ← parse_bytes bytes
  if nonzero_ℤ p.imm
      then malformed "{} instruction has imm: {} supposed to be zero" 8
      else ok (record {
        opcode = p.opcode;
        dst = reg p.dst;
        src = reg p.src;
        off = offset p.off;
        imm = none;
        span = (0, 8);
      })

unfoldable pub decode_binary_immediate : List ℕ → Result SbpfError Instruction
decode_binary_immediate bytes = do
  assert (leb 8 (length bytes))
  p ← parse_bytes bytes
  if nonzero p.src || nonzero_ℤ p.off
      then malformed "{} instruction has src: {}, off: {} supposed to be zeros" 8
      else ok (record {
        opcode = p.opcode;
        dst = reg p.dst;
        src = none;
        off = none;
        imm = value p.imm;
        span = (0, 8);
      })

unfoldable pub decode_endian : List ℕ → Result SbpfError Instruction
decode_endian bytes = do
  assert (leb 8 (length bytes))
  p ← parse_bytes bytes
  if nonzero p.src || nonzero_ℤ p.off
      then malformed "{} instruction has src: {}, off: {} supposed to be zeros" 8
      else ok (record {
        opcode = p.opcode;
        dst = reg p.dst;
        src = none;
        off = none;
        imm = value p.imm;
        span = (0, 8);
      })

unfoldable pub decode_binary_register : List ℕ → Result SbpfError Instruction
decode_binary_register bytes = do
  assert (leb 8 (length bytes))
  p ← parse_bytes bytes
  if nonzero_ℤ p.off || nonzero_ℤ p.imm
      then malformed "{} instruction has off: {}, imm: {} supposed to be zeros" 8
      else ok (record {
        opcode = p.opcode;
        dst = reg p.dst;
        src = reg p.src;
        off = none;
        imm = none;
        span = (0, 8);
      })

unfoldable pub decode_unary : List ℕ → Result SbpfError Instruction
decode_unary bytes = do
  assert (leb 8 (length bytes))
  p ← parse_bytes bytes
  if nonzero p.src || nonzero_ℤ p.off || nonzero_ℤ p.imm
      then malformed "{} instruction has src: {}, off: {}, imm: {} supposed to be zeros" 8
      else ok (record {
        opcode = p.opcode;
        dst = reg p.dst;
        src = none;
        off = none;
        imm = none;
        span = (0, 8);
      })

unfoldable pub decode_jump : List ℕ → Result SbpfError Instruction
decode_jump bytes = do
  assert (leb 8 (length bytes))
  p ← parse_bytes bytes
  if nonzero p.dst || nonzero p.src || nonzero_ℤ p.imm
      then malformed "{} instruction has dst: {}, src: {}, imm: {} supposed to be zeros" 8
      else ok (record {
        opcode = p.opcode;
        dst = none;
        src = none;
        off = offset p.off;
        imm = none;
        span = (0, 8);
      })

unfoldable pub decode_jump_immediate : List ℕ → Result SbpfError Instruction
decode_jump_immediate bytes = do
  assert (leb 8 (length bytes))
  p ← parse_bytes bytes
  if nonzero p.src
      then malformed "{} instruction has src: {} supposed to be zero" 8
      else ok (record {
        opcode = p.opcode;
        dst = reg p.dst;
        src = none;
        off = offset p.off;
        imm = value p.imm;
        span = (0, 8);
      })

unfoldable pub decode_jump_register : List ℕ → Result SbpfError Instruction
decode_jump_register bytes = do
  assert (leb 8 (length bytes))
  p ← parse_bytes bytes
  if nonzero_ℤ p.imm
      then malformed "{} instruction has imm: {} supposed to be zero" 8
      else ok (record {
        opcode = p.opcode;
        dst = reg p.dst;
        src = reg p.src;
        off = offset p.off;
        imm = none;
        span = (0, 8);
      })

unfoldable pub decode_exit : List ℕ → Result SbpfError Instruction
decode_exit bytes = do
  assert (leb 8 (length bytes))
  p ← parse_bytes bytes
  if nonzero p.dst || nonzero p.src || nonzero_ℤ p.off || nonzero_ℤ p.imm
      then malformed "{} instruction dst: {}, src: {}, off: {}, imm: {} supposed to be zero" 8
      else ok (record {
        opcode = p.opcode;
        dst = none;
        src = none;
        off = none;
        imm = none;
        span = (0, 8);
      })

unfoldable pub decode_jump32_immediate : List ℕ → Result SbpfError Instruction
decode_jump32_immediate bytes = do
  assert (leb 8 (length bytes))
  p ← parse_bytes_v3 bytes
  if nonzero p.src
      then malformed "{} instruction has src: {} supposed to be zero" 8
      else ok (record {
        opcode = p.opcode;
        dst = reg p.dst;
        src = none;
        off = offset p.off;
        imm = value p.imm;
        span = (0, 8);
      })

unfoldable pub decode_jump32_register : List ℕ → Result SbpfError Instruction
decode_jump32_register bytes = do
  assert (leb 8 (length bytes))
  p ← parse_bytes_v3 bytes
  if nonzero_ℤ p.imm
      then malformed "{} instruction has imm: {} supposed to be zero" 8
      else ok (record {
        opcode = p.opcode;
        dst = reg p.dst;
        src = reg p.src;
        off = offset p.off;
        imm = none;
        span = (0, 8);
      })

-- The static syscalls: `SYSCALLS.get`, the name of a hash, is an argument.
module _ (get : ℕ → Option String) where
  -- `none` is the error of the last arm.
  unfoldable pub call_operand : ℕ → ℤ → Option (String ⊎ Number)
  call_operand src imm =
      if src == 0
      then elim (get (u32 imm)) [ some syscall ↦ some (inl syscall) | none ↦ value imm ]
      else if src == 1
      then value imm
      else none

  unfoldable pub decode_call_immediate : List ℕ → Result SbpfError Instruction
  decode_call_immediate bytes = do
    assert (leb 8 (length bytes))
    p ← parse_bytes bytes
    if nonzero p.dst || nonzero_ℤ p.off
        then malformed "{} instruction has dst: {} and off: {}, expected to be zeros" 8
        else elim (call_operand p.src p.imm) [
          | none ↦ malformed "{} instruction has invalid src register: {}" 8
          | some callimm ↦ ok (record {
            opcode = p.opcode;
            dst = none;
            src = reg p.src;
            off = none;
            imm = some callimm;
            span = (0, 8);
          })
        ]

-- Callx holds its register in the immediate. The immediate is zero from there on.
unfoldable pub callx_register : ℕ → ℤ → ℕ
callx_register dst imm = if dst == 0 && nonzero_ℤ imm then u8 imm else dst

unfoldable pub decode_call_register : List ℕ → Result SbpfError Instruction
decode_call_register bytes = do
  assert (leb 8 (length bytes))
  p ← parse_bytes bytes
  let dst = callx_register p.dst p.imm
  if nonzero p.src || nonzero_ℤ p.off
      then malformed "{} instruction has src: {}, off: {}, imm: {} supposed to be zeros" 8
      else ok (record {
        opcode = p.opcode;
        dst = reg dst;
        src = none;
        off = none;
        imm = none;
        span = (0, 8);
      })
