-- ===== src/SyscallMap/Hash.antt =====
-- crates/syscall-map/src/hash.rs: the hash of a syscall's name, on the bytes of the name.
use Prim.Native.Nat.{bit_xor}
use sbpf.Base.{ℕ, ◌+◌, ◌-◌, ◌*◌, ◌/◌, ◌%◌, ◌^◌, List, [], ◌∷◌, length}
use sbpf.Base.Words.{from_le_bytes}

abbrev pub wrapping_mul : ℕ → ℕ → ℕ
wrapping_mul a b = a * b % 2 ^ 32

abbrev pub rotate_left : ℕ → ℕ → ℕ
rotate_left x k = x * 2 ^ k % 2 ^ 32 + x / 2 ^ (32 - k)

unfoldable pub pre_mix : List ℕ → ℕ
unfolding from_le_bytes
pre_mix bytes =
    wrapping_mul (rotate_left (wrapping_mul (from_le_bytes bytes) 0xcc9e2d51) 15) 0x1b873593

-- One round of the loop over the words of four bytes.
unfoldable pub mix : ℕ → List ℕ → ℕ
unfolding pre_mix
mix hash bytes =
    (wrapping_mul (rotate_left (bit_xor hash (pre_mix bytes)) 13) 5 + 0xe6546b64) % 2 ^ 32

-- The loop, and the bytes that are left after it.
unfoldable pub absorb : ℕ → List ℕ → ℕ
unfolding mix pre_mix
absorb hash (a ∷ b ∷ c ∷ d ∷ rest) = absorb (mix hash (a ∷ b ∷ c ∷ d ∷ [])) rest
absorb hash [] = hash
absorb hash (a ∷ []) = bit_xor hash (pre_mix (a ∷ 0 ∷ 0 ∷ 0 ∷ []))
absorb hash (a ∷ b ∷ []) = bit_xor hash (pre_mix (a ∷ b ∷ 0 ∷ 0 ∷ []))
absorb hash (a ∷ b ∷ c ∷ []) = bit_xor hash (pre_mix (a ∷ b ∷ c ∷ 0 ∷ []))

-- The shifts and products at the end.
unfoldable pub finalize : ℕ → ℕ
finalize h0 =
    let h1 = wrapping_mul (bit_xor h0 (h0 / 2 ^ 16)) 0x85ebca6b in
    let h2 = wrapping_mul (bit_xor h1 (h1 / 2 ^ 13)) 0xc2b2ae35 in bit_xor h2 (h2 / 2 ^ 16)

unfoldable pub murmur3_32 : List ℕ → ℕ
unfolding absorb finalize
murmur3_32 buf = finalize (bit_xor (absorb 0 buf) (length buf % 2 ^ 32))
