-- ===== src/Base/Bits.antt =====
-- The laws of `&`, `|` and `^` that the proofs use.
use Prim.Native.Nat.{ℕ, zero, suc, ◌+◌, ◌*◌, ◌/◌, ◌%◌, ◌^◌, ◌<◌, bit_and, bit_or, bit_xor, min, max}
use Prim.Native.Nat.{digits, differ, bit_and-bitwise, bit_or-bitwise, bit_xor-bitwise}
use mathlib.Core.Path.{◌≡◌, refl}
use mathlib.Core.Logic.{◌⊎◌, inl, inr}
use mathlib.Core.Bool.{Bool, true, ◌&&◌}
use native.Mathlib.Nat.{pow-suc, one-le-pow}
use native.Mathlib.Omega.{arith}
use sbpf.Base.Tests.{◌==◌, ==_iff, &&-eq-true}

-- A test on all numbers of `k` bits is evaluated, one bit after the other.
on_bits : ℕ → (ℕ → Bool) → Bool
on_bits zero test = test 0
on_bits (suc k) test = on_bits k (λ n. test (2 * n)) && on_bits k (λ n. test (2 * n + 1))

parity : (n : ℕ) → (2 * (n / 2) ≡ n) ⊎ (2 * (n / 2) + 1 ≡ n)
parity n = omega arith

on_bits-true :
    (k : ℕ) (test : ℕ → Bool) → on_bits k test ≡ true → (n : ℕ) → n < 2 ^ k → test n ≡ true
unfolding on_bits
on_bits-true zero test h n small = let e : 0 ≡ n = omega arith in rw (← e) h
on_bits-true (suc k) test h n small =
    let (even, odd) = &&-eq-true _ _ h in
    let twice : 2 ^ suc k ≡ 2 ^ k * 2 = pow-suc 2 k in
    elim (parity n) [
      | inl e ↦ rw (← e) (on_bits-true k (λ m. test (2 * m)) even (n / 2) (omega arith))
      | inr e ↦ rw (← e) (on_bits-true k (λ m. test (2 * m + 1)) odd (n / 2) (omega arith))
    ]

nibble_table : on_bits 8 (λ x. bit_and x 0x0f == x % 16) ≡ true
unfolding on_bits
nibble_table = refl

-- The low half of a byte.
pub bit_and_nibble : (x : ℕ) → x < 256 → bit_and x 0x0f ≡ x % 16
bit_and_nibble x h = (==_iff _ _).0 (on_bits-true 8 _ nibble_table x h)

halves_table : on_bits 8 (λ x. bit_or (x / 16 * 16 % 256) (x % 16) == x) ≡ true
unfolding on_bits
halves_table = refl

-- Two halves of a byte put together.
pub bit_or_nibbles : (hi lo : ℕ) → hi < 16 → lo < 16 → bit_or (hi * 16 % 256) lo ≡ hi * 16 + lo
bit_or_nibbles hi lo hh hl =
    let e = (==_iff _ _).0 (on_bits-true 8 _ halves_table (hi * 16 + lo) (omega arith)) in
    let p : (hi * 16 + lo) / 16 ≡ hi = omega arith in
    let q : (hi * 16 + lo) % 16 ≡ lo = omega arith in rw (p, q) at e

-- An operation on digits keeps a bound by a power of two.
module _ (z : ℕ → ℕ) (f : ℕ → ℕ → ℕ) (end_lt : (b k : ℕ) → b < 2 ^ k → z b < 2 ^ k)
    (digit_lt : (x y : ℕ) → x < 2 → y < 2 → f x y < 2) where
  digits-lt : (n a b k : ℕ) → a < 2 ^ k → b < 2 ^ k → digits z f n a b < 2 ^ k
  digits-lt zero a b k ha hb = end_lt b k hb
  digits-lt (suc n) zero b k ha hb = end_lt b k hb
  digits-lt (suc n) (suc a) b zero ha hb = absurd (omega arith)
  digits-lt (suc n) (suc a) b (suc k) ha hb =
      let twice : 2 ^ suc k ≡ 2 ^ k * 2 = pow-suc 2 k in
      let high : digits z f n (suc a / 2) (b / 2) < 2 ^ k =
        digits-lt n (suc a / 2) (b / 2) k (omega arith) (omega arith) in
      let low : f (suc a % 2) (b % 2) < 2 =
        digit_lt (suc a % 2) (b % 2) (omega arith) (omega arith) in
      omega arith

differ-lt : (x y : ℕ) → x < 2 → y < 2 → differ x y < 2
differ-lt zero y hx hy = hy
differ-lt (suc x) zero hx hy = hx
differ-lt (suc x) (suc y) hx hy = differ-lt x y (omega arith) (omega arith)

pub bit_or-lt : (k a b : ℕ) → a < 2 ^ k → b < 2 ^ k → bit_or a b < 2 ^ k
bit_or-lt k a b ha hb =
    simp bit_or-bitwise
      (digits-lt (λ y. y) max (λ y j h. h) (λ x y hx hy. omega arith) a a b k ha hb)

pub bit_and-lt : (k a b : ℕ) → a < 2 ^ k → b < 2 ^ k → bit_and a b < 2 ^ k
bit_and-lt k a b ha hb = simp bit_and-bitwise (
    digits-lt (λ y. 0) min (λ y j h. one-le-pow j 2 (omega arith)) (λ x y hx hy. omega arith) a a b
      k ha hb)

pub bit_xor-lt : (k a b : ℕ) → a < 2 ^ k → b < 2 ^ k → bit_xor a b < 2 ^ k
bit_xor-lt k a b ha hb =
    simp bit_xor-bitwise (digits-lt (λ y. y) differ (λ y j h. h) differ-lt a a b k ha hb)
