-- ===== src/Base/Words.antt =====
-- Machine words: Rust's `as` casts between the fixed widths, wrapping operations, and bytes.
-- A value of an unsigned type is a number, of a signed type an integer; a cast writes out the wrap.
use Prim.Native.Nat.{ℕ, zero, suc, ◌+◌, ◌-◌, ◌*◌, ◌/◌, ◌%◌, ◌^◌, ◌<◌, ◌≤◌}
use mathlib.Core.Path.{◌≡◌, refl, ap}
use mathlib.Core.List.{List, [], ◌∷◌}
use native.Mathlib.Nat.{pow-suc, one-le-pow, mod-lt}
use native.Mathlib.Omega.{arith}
use sbpf.Base.Tests.{ltb, if◌then◌else◌}
use sbpf.Base.Lists.{length, All}
use sbpf.Base.Int.{ℤ, pos, negsuc}

-- `z as uN`: the two's complement of an integer in `w` bits.
unfoldable pub to_word : ℕ → ℤ → ℕ
to_word w (pos n) = n % 2 ^ w
to_word w (negsuc n) = 2 ^ w - 1 - n % 2 ^ w

-- `n as iN`: the integer that the low `w` bits of a number stand for.
unfoldable pub of_word : ℕ → ℕ → ℤ
of_word w n = let m = n % 2 ^ w in if ltb m (2 ^ (w - 1)) then pos m else negsuc (2 ^ w - 1 - m)

abbrev pub u8 : ℤ → ℕ
u8 = to_word 8

abbrev pub u16 : ℤ → ℕ
u16 = to_word 16

abbrev pub u32 : ℤ → ℕ
u32 = to_word 32

abbrev pub u64 : ℤ → ℕ
u64 = to_word 64

abbrev pub i16 : ℕ → ℤ
i16 = of_word 16

abbrev pub i32 : ℕ → ℤ
i32 = of_word 32

abbrev pub i64 : ℕ → ℤ
i64 = of_word 64

-- The value of a signed type of `w` bits after a wrapping operation.
abbrev pub wrap_int : ℕ → ℤ → ℤ
wrap_int w z = of_word w (to_word w z)

-- The values of a signed type of `w` bits.
abbrev pub IsInt : ℕ → ℤ → Type 0
IsInt w (pos n) = n < 2 ^ (w - 1)
IsInt w (negsuc n) = n < 2 ^ (w - 1)

-- `to_le_bytes` of a word of `k` bytes, and `from_le_bytes`.
unfoldable pub to_le_bytes : ℕ → ℕ → List ℕ
to_le_bytes zero n = []
to_le_bytes (suc k) n = (n % 256) ∷ to_le_bytes k (n / 256)

unfoldable pub from_le_bytes : List ℕ → ℕ
from_le_bytes [] = 0
from_le_bytes (b ∷ bs) = b + 256 * from_le_bytes bs

pub length-to_le_bytes : (k n : ℕ) → length (to_le_bytes k n) ≡ k
unfolding to_le_bytes
length-to_le_bytes zero n = refl
length-to_le_bytes (suc k) n = ap suc (length-to_le_bytes k (n / 256))

pub from_le_bytes-to_le_bytes : (k n : ℕ) → n < 256 ^ k → from_le_bytes (to_le_bytes k n) ≡ n
unfolding to_le_bytes from_le_bytes
from_le_bytes-to_le_bytes zero n h = omega arith
from_le_bytes-to_le_bytes (suc k) n h =
    omega (arith, from_le_bytes-to_le_bytes k (n / 256) (omega (arith, pow-suc 256 k)))

pub to_word-of_word32 : (n : ℕ) → to_word 32 (of_word 32 n) ≡ n % 2 ^ 32
unfolding to_word of_word
to_word-of_word32 n = ground arith

pub of_word-to_word16 : (z : ℤ) → IsInt 16 z → of_word 16 (to_word 16 z) ≡ z
unfolding to_word of_word
of_word-to_word16 (pos n) h = ground arith
of_word-to_word16 (negsuc n) h = ground arith

pub of_word-to_word32 : (z : ℤ) → IsInt 32 z → of_word 32 (to_word 32 z) ≡ z
unfolding to_word of_word
of_word-to_word32 (pos n) h = ground arith
of_word-to_word32 (negsuc n) h = ground arith

abbrev pub IsByte : ℕ → Type 0
IsByte b = b < 256

pub to_le_bytes-IsByte : (k n : ℕ) → All IsByte (to_le_bytes k n)
unfolding to_le_bytes
to_le_bytes-IsByte zero n = tt
to_le_bytes-IsByte (suc k) n = (omega arith, to_le_bytes-IsByte k (n / 256))

pub from_le_bytes-lt : (bs : List ℕ) → All IsByte bs → from_le_bytes bs < 256 ^ length bs
unfolding from_le_bytes
from_le_bytes-lt [] h = omega arith
from_le_bytes-lt (b ∷ bs) h =
    let rest = from_le_bytes-lt bs h.1 in omega (arith, h.0, pow-suc 256 (length bs))

pub to_word-lt : (w : ℕ) (z : ℤ) → to_word w z < 2 ^ w
unfolding to_word
to_word-lt w (pos n) = mod-lt n (one-le-pow w 2 (omega arith))
to_word-lt w (negsuc n) = let h : 1 ≤ 2 ^ w = one-le-pow w 2 (omega arith) in omega arith
