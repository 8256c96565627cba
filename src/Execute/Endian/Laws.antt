-- ===== src/Execute/Endian/Laws.antt =====
-- What the instructions on the byte order leave in a register.
use sbpf.Base.{ℕ, ◌+◌, ◌*◌, ◌/◌, ◌%◌, ◌<◌, ◌^◌, ◌≡◌, refl, arith, ap, ◌∙◌}
use sbpf.Base.{List, [], ◌∷◌, length, All, All-reverse, length-reverse}
use sbpf.Base.Words.{
  IsByte, to_le_bytes, from_le_bytes, to_le_bytes-IsByte, length-to_le_bytes, from_le_bytes-lt,
}
use sbpf.Execute.Endian.{to_be, endian_arm, execute_endian}
use native.Mathlib.Nat.{mod-eq_of_lt, mod-lt, one-le-pow}
use sbpf.Base.{sym, lt→ltb, false, not, ◌&&◌, some, inl, inr, ◌⊎◌, get_elem?, get_elem?-lt, set}
use sbpf.Base.Int.{pos, eqb_ℤ}
use sbpf.Errors.{ok}
use sbpf.Opcode.{Opcode}
use sbpf.Instruction.{Instruction, Register, int}
use sbpf.Vm.State.{SbpfVm, ◌>>=◌, lift, get_register, set_register, advance_pc}
use sbpf.Execute.Helpers.{get_dst, get_imm_i64}
use mathlib.Core.List.{reverse}

-- The bytes of a number that is put together from bytes.
to_le_bytes-from_le_bytes :
    (bs : List ℕ) → All IsByte bs → to_le_bytes (length bs) (from_le_bytes bs) ≡ bs
unfolding to_le_bytes from_le_bytes
to_le_bytes-from_le_bytes [] h = refl
to_le_bytes-from_le_bytes (b ∷ bs) h =
    let low : (b + 256 * from_le_bytes bs) % 256 ≡ b = omega (arith, h.0) in
    let high : (b + 256 * from_le_bytes bs) / 256 ≡ from_le_bytes bs = omega (arith, h.0) in
    rw (low, high) (ap (λ l. b ∷ l) (to_le_bytes-from_le_bytes bs h.1))

same2 : {a b c d : ℕ} → a ≡ c → b ≡ d → ◌≡◌ {A = List ℕ} (a ∷ b ∷ []) (c ∷ d ∷ [])
same2 e f = cc

same4 :
    {a b c d a' b' c' d' : ℕ}
    → a ≡ a'
    → b ≡ b'
    → c ≡ c'
    → d ≡ d'
    → ◌≡◌ {A = List ℕ} (a ∷ b ∷ c ∷ d ∷ []) (a' ∷ b' ∷ c' ∷ d' ∷ [])
same4 e f g h = cc

-- Turning the byte order of a word of `k` bytes gives a word of `k` bytes, with the bytes reversed.
to_be-to_le_bytes :
    (k n : ℕ) → (to_be k n < 256 ^ k) × (to_le_bytes k (to_be k n) ≡ reverse (to_le_bytes k n))
unfolding to_be
to_be-to_le_bytes k n =
    let bs = to_le_bytes k n in
    let bytes : All IsByte (reverse bs) = All-reverse IsByte bs (to_le_bytes-IsByte k n) in
    let long : length (reverse bs) ≡ k = length-reverse bs ∙ length-to_le_bytes k n in
    (
      rw long at (from_le_bytes-lt (reverse bs) bytes),
      rw long at (to_le_bytes-from_le_bytes (reverse bs) bytes),
    )

-- The widths that the immediate of `le` and `be` names in bits, in bytes.
abbrev pub IsWidth : ℕ → Type 0
IsWidth k = (k ≡ 2) ⊎ (k ≡ 4) ⊎ (k ≡ 8)

-- Only the low bytes of a number are written.
to_le_bytes-mod : (k n : ℕ) → IsWidth k → n < 2 ^ 64 → to_le_bytes k (n % 256 ^ k) ≡ to_le_bytes k n
unfolding to_le_bytes
to_le_bytes-mod k n (inl e) h = rw e (same2 (omega arith) (omega arith))
to_le_bytes-mod k n (inr (inl e)) h =
    rw e (same4 (omega arith) (omega arith) (omega arith) (omega arith))
to_le_bytes-mod k n (inr (inr e)) h =
    rw e (ap (to_le_bytes 8) (mod-eq_of_lt {n = n} {m = 2 ^ 64} h))

le_arm :
    (k a : ℕ) → IsWidth k → a < 2 ^ 64 → endian_arm Opcode.le (pos (8 * k)) a ≡ ok (a % 256 ^ k)
unfolding endian_arm
le_arm k a (inl e) h = rw e refl
le_arm k a (inr (inl e)) h = rw e refl
le_arm k a (inr (inr e)) h = rw e (ap ok (sym (mod-eq_of_lt {n = a} {m = 2 ^ 64} h)))

be_arm :
    (k a : ℕ)
    → IsWidth k
    → a < 2 ^ 64
    → endian_arm Opcode.be (pos (8 * k)) a ≡ ok (to_be k (a % 256 ^ k))
unfolding endian_arm
be_arm k a (inl e) h = rw e refl
be_arm k a (inr (inl e)) h = rw e refl
be_arm k a (inr (inr e)) h =
    rw e (ap (λ n. ok (to_be 8 n)) (sym (mod-eq_of_lt {n = a} {m = 2 ^ 64} h)))

accepted :
    (k : ℕ)
    → IsWidth k
    → (not (eqb_ℤ (pos (8 * k)) (pos 16))
        && not (eqb_ℤ (pos (8 * k)) (pos 32))
        && not (eqb_ℤ (pos (8 * k)) (pos 64)))
      ≡ false
accepted k (inl e) = rw e refl
accepted k (inr (inl e)) = rw e refl
accepted k (inr (inr e)) = rw e refl

one-le-width : (k : ℕ) → 0 < 256 ^ k
one-le-width k = one-le-pow k 256 (omega arith)

-- The bytes of a register, in the order that an opcode gives them.
abbrev pub ordered : Opcode → List ℕ → List ℕ
ordered Opcode.be bytes = reverse bytes
ordered _ bytes = bytes

endian_arm-ordered :
    (op : Opcode) (k a : ℕ)
    → IsWidth k
    → (op ≡ Opcode.le) ⊎ (op ≡ Opcode.be)
    → a < 2 ^ 64
    → (n : ℕ) × (endian_arm op (pos (8 * k)) a ≡ ok n)
      × (n < 256 ^ k)
      × (to_le_bytes k n ≡ ordered op (to_le_bytes k a))
endian_arm-ordered op k a w (inl e) h =
    rw e (a % 256 ^ k, le_arm k a w h, mod-lt a (one-le-width k), to_le_bytes-mod k a w h)
endian_arm-ordered op k a w (inr e) h =
    let (low, bytes) = to_be-to_le_bytes k (a % 256 ^ k) in
    rw e (to_be k (a % 256 ^ k), be_arm k a w h, low, bytes ∙ ap reverse (to_le_bytes-mod k a w h))

module _ {H : Type 0} (inst : Instruction) (r : Register) where
  -- On a machine with register `r`, `le` or `be` of 16, 32 or 64 bits succeeds and goes on to the next
  -- instruction. It changes no register but `r`, which then holds a number of so many bits, whose bytes
  -- are the low bytes of the old number: in their order for `le`, reversed for `be`.
  pub execute_endian-to_le_bytes :
      (vm : SbpfVm H) (k a : ℕ)
      → inst.dst ≡ some r
      → inst.imm ≡ some (inr (int (pos (8 * k))))
      → (inst.opcode ≡ Opcode.le) ⊎ (inst.opcode ≡ Opcode.be)
      → IsWidth k
      → get_elem? vm.registers r.n ≡ some a
      → a < 2 ^ 64
      → (n : ℕ) × (execute_endian inst vm
          ≡ (record vm { registers = set vm.registers r.n n; pc = vm.pc + 1 }, ok tt))
        × (n < 256 ^ k)
        × (to_le_bytes k n ≡ ordered inst.opcode (to_le_bytes k a))
  unfolding execute_endian ◌>>=◌ lift get_register set_register advance_pc get_dst get_imm_i64
  execute_endian-to_le_bytes vm k a d i o w e h =
      let (n, arm, low, bytes) = endian_arm-ordered inst.opcode k a w o h in
      (
        n,
        rw
            (
              d,
              i,
              accepted k w,
              e,
              arm,
              lt→ltb r.n (length vm.registers) (get_elem?-lt vm.registers r.n e),
            )
            refl,
        low,
        bytes,
      )
