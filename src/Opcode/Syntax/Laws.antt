-- ===== src/Opcode/Syntax/Laws.antt =====
-- The mnemonic of an opcode is read.
use sbpf.Base.{String, ◌≡◌, refl, some}
use sbpf.Opcode.{Opcode}
use sbpf.Opcode.Syntax.{mnemonic_arms, first_text_arm, from_str, to_str}

-- An opcode with the same mnemonic.
read_mnemonic :
    (op : Opcode)
    → (o : Opcode) × (first_text_arm mnemonic_arms (to_str op) ≡ some o) × (to_str o ≡ to_str op)
unfolding mnemonic_arms first_text_arm to_str
read_mnemonic Opcode.lddw = (_, refl, refl)
read_mnemonic _ = (_, refl, refl)

-- Where the mnemonic of an opcode is in lower case, `from_str` reads it, as an opcode with that
-- mnemonic: the form with an immediate and that with a register share theirs.
pub from_str-to_str :
    (to_lowercase : String → String) (op : Opcode)
    → to_lowercase (to_str op) ≡ to_str op
    → (o : Opcode) × (from_str to_lowercase (to_str op) ≡ some o) × (to_str o ≡ to_str op)
unfolding from_str
from_str-to_str to_lowercase op h = rw h (read_mnemonic op)
