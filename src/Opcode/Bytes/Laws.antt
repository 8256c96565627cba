-- ===== src/Opcode/Bytes/Laws.antt =====
-- The two readings of a byte against the byte of an opcode.
use sbpf.Base.{ℕ, ◌≡◌, refl, Bool, true, some, inl, inr}
use sbpf.Base.{
  [], ◌∷◌, ◌==◌, ==_iff, &&-eq-true, all, some-injective, Bool-cases, Option-cases, ◌∙◌, sym, ap,
  if◌then◌else◌,
}
use sbpf.Errors.{Result, ok, SbpfError, ok-injective, ok-ne-err}
use sbpf.Opcode.{Opcode}
use sbpf.Opcode.Bytes.{Arms, first_arm, try_from_arms, v3_arms, try_from, try_from_sbpf_v3, to_byte}
use sbpf.Opcode.Classes.{is_jump32_opcode}

-- The reading of bytes that an opcode belongs to: v3 for the 32-bit jumps, v0 for all others.
abbrev pub read_byte : Opcode → ℕ → Result SbpfError Opcode
read_byte op = if is_jump32_opcode op then try_from_sbpf_v3 else try_from

-- Every opcode is had back from its byte: a 32-bit jump by the v3 reading, any other opcode by
-- `TryFrom<u8>`.
pub read_byte-to_byte : (op : Opcode) → read_byte op (to_byte op) ≡ ok op
unfolding try_from try_from_sbpf_v3 to_byte is_jump32_opcode
read_byte-to_byte Opcode.lddw = refl
read_byte-to_byte _ = refl

-- The byte of each arm is the byte of its opcode.
coherent : ℕ × Opcode → Bool
coherent (k, op) = to_byte op == k

first_arm-coherent :
    (arms : Arms) (b : ℕ) (op : Opcode)
    → all coherent arms ≡ true
    → first_arm arms b ≡ some op
    → to_byte op ≡ b
unfolding first_arm coherent
first_arm-coherent [] b op h e = cc
first_arm-coherent ((k, o) ∷ arms) b op h e =
    let (h0, h1) = &&-eq-true (to_byte o == k) (all coherent arms) h in
    elim (Bool-cases (k == b)) [
      | inl hit ↦
          let same : o ≡ op = some-injective (rw hit at e) in
          rw (← same) ((==_iff (to_byte o) k).0 h0 ∙ (==_iff k b).0 hit)
      | inr miss ↦ first_arm-coherent arms b op h1 (rw miss at e)
    ]

try_from_arms-coherent : all coherent try_from_arms ≡ true
unfolding coherent try_from_arms to_byte
try_from_arms-coherent = refl

v3_arms-coherent : all coherent v3_arms ≡ true
unfolding coherent v3_arms to_byte
v3_arms-coherent = refl

-- Whatever `TryFrom<u8>` reads from a byte has that byte.
pub to_byte-try_from : (b : ℕ) (op : Opcode) → try_from b ≡ ok op → to_byte op ≡ b
unfolding try_from
to_byte-try_from b op e = elim (Option-cases (first_arm try_from_arms b)) [
  | inl miss ↦ absurd (ok-ne-err (sym (rw (miss, try_from) at e)))
  | inr (o, hit) ↦
      let same : o ≡ op = ok-injective (rw (hit, try_from) at e) in
      first_arm-coherent try_from_arms b op try_from_arms-coherent (hit ∙ ap some same)
]

-- Whatever the v3 reading makes of a byte has that byte.
pub to_byte-try_from_sbpf_v3 : (b : ℕ) (op : Opcode) → try_from_sbpf_v3 b ≡ ok op → to_byte op ≡ b
unfolding try_from_sbpf_v3
to_byte-try_from_sbpf_v3 b op e = elim (Option-cases (first_arm v3_arms b)) [
  | inl miss ↦ to_byte-try_from b op (rw (miss, try_from_sbpf_v3) at e)
  | inr (o, hit) ↦
      let same : o ≡ op = ok-injective (rw (hit, try_from_sbpf_v3) at e) in
      first_arm-coherent v3_arms b op v3_arms-coherent (hit ∙ ap some same)
]
