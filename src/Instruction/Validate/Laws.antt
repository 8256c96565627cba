-- ===== src/Instruction/Validate/Laws.antt =====
-- The operands of an instruction that is validated and that fits its bytes.
use sbpf.Base.{ℕ, ◌<◌, ◌≡◌, refl, true, false, String, Option, some, none, ◌⊎◌, inl, inr}
use sbpf.Base.{Bool}
use sbpf.Base.Int.{ℤ}
use sbpf.Base.Words.{IsInt}
use sbpf.Instruction.{Register, Number, int, addr}
use sbpf.Instruction.Validate.{
  dst_imm, dst_src_off, dst_off_imm, dst_only, dst_src, off_only, src_imm, no_operands,
}

-- A register number of four bits.
abbrev pub IsNibble : Option Register → Type 0
IsNibble (some r) = r.n < 16
IsNibble none = Unit

-- No label, and an `i16`.
abbrev pub IsOffset : Option (String ⊎ ℤ) → Type 0
IsOffset (some (inr off)) = IsInt 16 off
IsOffset (some (inl label)) = ⊥
IsOffset none = Unit

-- A plain number, no label, of `w` bits.
abbrev pub IsImmediate : ℕ → Option (String ⊎ Number) → Type 0
IsImmediate w (some (inr (int imm))) = IsInt w imm
IsImmediate w (some _) = ⊥
IsImmediate w none = Unit

-- All operands fit, with an immediate of `w` bits.
pub record IsEncodable (w : ℕ) (d s : Option Register) (o : Option (String ⊎ ℤ))
    (i : Option (String ⊎ Number)) : Type 0 where
  pub dst : IsNibble d
  pub src : IsNibble s
  pub off : IsOffset o
  pub imm : IsImmediate w i

-- The operands of each shape: which there are, and that they fit.
abbrev pub DstImm :
    ℕ → Option Register → Option Register → Option (String ⊎ ℤ) → Option (String ⊎ Number) → Type 0
DstImm w d s o i =
    (a : Register) × (z : ℤ) × (d ≡ some a)
    × (s ≡ none)
    × (o ≡ none)
    × (i ≡ some (inr (int z)))
    × (a.n < 16)
    × IsInt w z

abbrev pub DstSrcOff :
    ℕ → Option Register → Option Register → Option (String ⊎ ℤ) → Option (String ⊎ Number) → Type 0
DstSrcOff w d s o i =
    (a : Register) × (b : Register) × (k : ℤ) × (d ≡ some a)
    × (s ≡ some b)
    × (o ≡ some (inr k))
    × (i ≡ none)
    × (a.n < 16)
    × (b.n < 16)
    × IsInt 16 k

abbrev pub DstOffImm :
    ℕ → Option Register → Option Register → Option (String ⊎ ℤ) → Option (String ⊎ Number) → Type 0
DstOffImm w d s o i =
    (a : Register) × (k : ℤ) × (z : ℤ) × (d ≡ some a)
    × (s ≡ none)
    × (o ≡ some (inr k))
    × (i ≡ some (inr (int z)))
    × (a.n < 16)
    × IsInt 16 k
    × IsInt w z

abbrev pub DstOnly :
    Option Register → Option Register → Option (String ⊎ ℤ) → Option (String ⊎ Number) → Type 0
DstOnly d s o i = (a : Register) × (d ≡ some a) × (s ≡ none) × (o ≡ none) × (i ≡ none) × (a.n < 16)

abbrev pub DstSrc :
    Option Register → Option Register → Option (String ⊎ ℤ) → Option (String ⊎ Number) → Type 0
DstSrc d s o i =
    (a : Register) × (b : Register) × (d ≡ some a)
    × (s ≡ some b)
    × (o ≡ none)
    × (i ≡ none)
    × (a.n < 16)
    × (b.n < 16)

abbrev pub OffOnly :
    Option Register → Option Register → Option (String ⊎ ℤ) → Option (String ⊎ Number) → Type 0
OffOnly d s o i = (k : ℤ) × (d ≡ none) × (s ≡ none) × (o ≡ some (inr k)) × (i ≡ none) × IsInt 16 k

abbrev pub SrcImm :
    ℕ → Option Register → Option Register → Option (String ⊎ ℤ) → Option (String ⊎ Number) → Type 0
SrcImm w d s o i =
    (b : Register) × (z : ℤ) × (d ≡ none)
    × (s ≡ some b)
    × (o ≡ none)
    × (i ≡ some (inr (int z)))
    × (b.n < 16)
    × IsInt w z

abbrev pub NoOperands :
    Option Register → Option Register → Option (String ⊎ ℤ) → Option (String ⊎ Number) → Type 0
NoOperands d s o i = (d ≡ none) × (s ≡ none) × (o ≡ none) × (i ≡ none)

pub not_false-true : (b : Bool) → (b ≡ false → ⊥) → b ≡ true
not_false-true true h = refl
not_false-true false h = absurd (h refl)

pub no_operands-true :
    (d s : Option Register) (o : Option (String ⊎ ℤ)) (i : Option (String ⊎ Number))
    → no_operands d s o i ≡ true
    → NoOperands d s o i
no_operands-true none none none none h = (refl, refl, refl, refl)
no_operands-true _ _ _ _ h = absurd (cc)

module _ {w : ℕ} where
  pub dst_imm-true :
      (d s : Option Register) (o : Option (String ⊎ ℤ)) (i : Option (String ⊎ Number))
      → IsEncodable w d s o i
      → dst_imm d s o i ≡ true
      → DstImm w d s o i
  dst_imm-true (some a) none none (some (inr (int z))) f h =
      (a, z, refl, refl, refl, refl, f.dst, f.imm)
  dst_imm-true (some a) none none (some (inr (addr z))) f h = absurd f.imm
  dst_imm-true (some a) none none (some (inl l)) f h = absurd f.imm
  dst_imm-true _ _ _ _ f h = absurd (cc)

  pub dst_src_off-true :
      (d s : Option Register) (o : Option (String ⊎ ℤ)) (i : Option (String ⊎ Number))
      → IsEncodable w d s o i
      → dst_src_off d s o i ≡ true
      → DstSrcOff w d s o i
  dst_src_off-true (some a) (some b) (some (inr k)) none f h =
      (a, b, k, refl, refl, refl, refl, f.dst, f.src, f.off)
  dst_src_off-true (some a) (some b) (some (inl l)) none f h = absurd f.off
  dst_src_off-true _ _ _ _ f h = absurd (cc)

  pub dst_off_imm-true :
      (d s : Option Register) (o : Option (String ⊎ ℤ)) (i : Option (String ⊎ Number))
      → IsEncodable w d s o i
      → dst_off_imm d s o i ≡ true
      → DstOffImm w d s o i
  dst_off_imm-true (some a) none (some (inr k)) (some (inr (int z))) f h =
      (a, k, z, refl, refl, refl, refl, f.dst, f.off, f.imm)
  dst_off_imm-true (some a) none (some (inr k)) (some (inr (addr z))) f h = absurd f.imm
  dst_off_imm-true (some a) none (some (inr k)) (some (inl l)) f h = absurd f.imm
  dst_off_imm-true (some a) none (some (inl l)) (some i) f h = absurd f.off
  dst_off_imm-true _ _ _ _ f h = absurd (cc)

  pub dst_only-true :
      (d s : Option Register) (o : Option (String ⊎ ℤ)) (i : Option (String ⊎ Number))
      → IsEncodable w d s o i
      → dst_only d s o i ≡ true
      → DstOnly d s o i
  dst_only-true (some a) none none none f h = (a, refl, refl, refl, refl, f.dst)
  dst_only-true _ _ _ _ f h = absurd (cc)

  pub dst_src-true :
      (d s : Option Register) (o : Option (String ⊎ ℤ)) (i : Option (String ⊎ Number))
      → IsEncodable w d s o i
      → dst_src d s o i ≡ true
      → DstSrc d s o i
  dst_src-true (some a) (some b) none none f h = (a, b, refl, refl, refl, refl, f.dst, f.src)
  dst_src-true _ _ _ _ f h = absurd (cc)

  pub off_only-true :
      (d s : Option Register) (o : Option (String ⊎ ℤ)) (i : Option (String ⊎ Number))
      → IsEncodable w d s o i
      → off_only d s o i ≡ true
      → OffOnly d s o i
  off_only-true none none (some (inr k)) none f h = (k, refl, refl, refl, refl, f.off)
  off_only-true none none (some (inl l)) none f h = absurd f.off
  off_only-true _ _ _ _ f h = absurd (cc)

  pub src_imm-true :
      (d s : Option Register) (o : Option (String ⊎ ℤ)) (i : Option (String ⊎ Number))
      → IsEncodable w d s o i
      → src_imm d s o i ≡ true
      → SrcImm w d s o i
  src_imm-true none (some b) none (some (inr (int z))) f h =
      (b, z, refl, refl, refl, refl, f.src, f.imm)
  src_imm-true none (some b) none (some (inr (addr z))) f h = absurd f.imm
  src_imm-true none (some b) none (some (inl l)) f h = absurd f.imm
  src_imm-true _ _ _ _ f h = absurd (cc)
