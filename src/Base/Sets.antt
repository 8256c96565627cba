-- ===== src/Base/Sets.antt =====
-- Sets of numbers (`HashSet<usize>`) as lists.
use Prim.Native.Nat.{ℕ, zero, suc, ◌+◌, ◌≤◌, ◌<◌}
use mathlib.Core.Path.{◌≡◌, refl, subst}
use mathlib.Core.Logic.{◌≢◌, inl, inr}
use mathlib.Core.Bool.{Bool, true, false, ◌||◌}
use mathlib.Core.List.{List, [], ◌∷◌, ◌++◌}
use native.Mathlib.Omega.{arith}
use sbpf.Base.Tests.{◌==◌, if◌then◌else◌, Bool-cases, ==_iff, ==_refl}
use sbpf.Base.Lists.{length}

-- `contains(&key)` of a slice or a set.
unfoldable pub contains : List ℕ → ℕ → Bool
contains [] k = false
contains (j ∷ keys) k = let rest = contains keys k in j == k || rest

-- `remove(&key)` of a set.
unfoldable pub remove : ℕ → List ℕ → List ℕ
remove k [] = []
remove k (j ∷ keys) = let rest = remove k keys in if j == k then rest else j ∷ rest

pub contains-remove_self : (k : ℕ) (s : List ℕ) → contains (remove k s) k ≡ false
unfolding contains remove
contains-remove_self k [] = refl
contains-remove_self k (j ∷ s) = ground (arith, contains-remove_self k s)

pub contains-remove_ne : (k x : ℕ) (s : List ℕ) → k ≢ x → contains (remove k s) x ≡ contains s x
unfolding contains remove
contains-remove_ne k x [] ne = refl
contains-remove_ne k x (j ∷ s) ne = ground (arith, contains-remove_ne k x s)

pub contains-append : (s : List ℕ) (y x : ℕ) → contains (s ++ (y ∷ [])) x ≡ (contains s x || y == x)
unfolding contains
contains-append [] y x = ground arith
contains-append (j ∷ s) y x = ground (arith, contains-append s y x)

pub contains-cons : (y x : ℕ) (s : List ℕ) → contains (y ∷ s) x ≡ (y == x || contains s x)
unfolding contains
contains-cons y x s = refl

-- No number stands twice.
abbrev pub Distinct : List ℕ → Type 0
Distinct [] = Unit
Distinct (x ∷ xs) = (contains xs x ≡ false) × Distinct xs

pub Distinct-append :
    (s : List ℕ) (y : ℕ) → Distinct s → contains s y ≡ false → Distinct (s ++ (y ∷ []))
unfolding contains
Distinct-append [] y d h = (refl, tt)
Distinct-append (x ∷ s) y d h =
    (ground (arith, contains-append s y x, d.0), Distinct-append s y d.1 (ground arith))

-- How many of the numbers below a bound are not in the set.
unfoldable pub unseen : ℕ → List ℕ → ℕ
unfolding contains
unseen zero s = 0
unseen (suc n) s = let rest = unseen n s in (if contains s n then rest else suc rest)

pub unseen-le : (n : ℕ) (s : List ℕ) → unseen n s ≤ n
unfolding unseen
unseen-le zero s = omega arith
unseen-le (suc n) s = ground (arith, unseen-le n s)

unseen-above : (n k : ℕ) (s : List ℕ) → n ≤ k → unseen n (k ∷ s) ≡ unseen n s
unfolding unseen contains
unseen-above zero k s h = refl
unseen-above (suc n) k s h = ground (arith, unseen-above n k s (omega arith))

pub unseen-insert :
    (n k : ℕ) (s : List ℕ) → k < n → contains s k ≡ false → suc (unseen n (k ∷ s)) ≡ unseen n s
unfolding unseen contains
unseen-insert zero k s h g = absurd (omega arith)
unseen-insert (suc n) k s h g = elim (Bool-cases (k == n)) [
  | inl same ↦ ground (arith, unseen-above n k s, g)
  | inr other ↦ ground (arith, unseen-insert n k s (ground arith) g)
]

unseen-none : (n : ℕ) → unseen n [] ≡ n
unfolding unseen contains
unseen-none zero = refl
unseen-none (suc n) = ground (arith, unseen-none n)

-- Distinct numbers below a bound leave as many unseen as the bound is larger than their number.
pub unseen-length :
    (n : ℕ) (s : List ℕ)
    → Distinct s
    → ((x : ℕ) → contains s x ≡ true → x < n)
    → unseen n s + length s ≡ n
unfolding contains
unseen-length n [] d h = omega (arith, unseen-none n)
unseen-length n (x ∷ s) d h = omega (
  arith,
  unseen-insert n x s (h x (ground (arith, ==_refl x))) d.0,
  unseen-length n s d.1 λ y k. h y (ground (arith, k)),
)

pub unseen-zero : (n : ℕ) (s : List ℕ) (j : ℕ) → unseen n s ≡ 0 → j < n → contains s j ≡ true
unfolding unseen
unseen-zero zero s j e h = absurd (omega arith)
unseen-zero (suc n) s j e h = elim (Bool-cases (n == j)) [
  | inl same ↦ subst (λ k. contains s k ≡ true) ((==_iff n j).0 same) (ground (arith, e))
  | inr other ↦ unseen-zero n s j (ground (arith, e)) (ground (arith, h, other))
]
