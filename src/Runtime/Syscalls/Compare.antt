-- ===== src/Runtime/Syscalls/Compare.antt =====
-- `sol_memcmp`: the word that it leaves tells the order of the two byte strings.
use sbpf.Base.{ℕ, ◌+◌, ◌-◌, ◌%◌, ◌^◌, ◌<◌, ◌≡◌, ◌≢◌, ◌∙◌, refl, sym, ap, subst, arith, inl, inr}
use sbpf.Base.{List, [], ◌∷◌, ◌++◌, length, All, Bool-cases, ◌==◌, ◌⊎◌, ==_iff}
use sbpf.Base.Words.{IsByte}
use sbpf.Errors.{ok, ok-injective}
use sbpf.Vm.Memory.{read_bytes, read_word, write_u32, read_u32}
use sbpf.Vm.Memory.Bytes.{IsBytes, read_bytes-IsByte, length-read_bytes}
use sbpf.Vm.Compute.{consume}
use sbpf.Vm.Memory.Laws.{read_word-write_word}
use sbpf.Runtime.Stateful.{>>=-eq-ok, pure}
use sbpf.Runtime.Config.{ExecutionCost}
use sbpf.Runtime.Syscalls.{
  Machine, mem_op_consume, consume_units, first_difference, load, store_u32, sol_memcmp,
}
use sbpf.Runtime.Syscalls.Laws.{consume_units-eq-ok, load-eq-ok, store_u32-eq-ok}
use sbpf.Runtime.Syscalls.Move.{mem_op_cost}

-- The first bytes that differ, after the part that the strings have in common.
pub record Differ (xs ys : List ℕ) (x y : ℕ) : Type 0 where
  pub common : List ℕ
  pub left_rest : List ℕ
  pub right_rest : List ℕ
  pub left : xs ≡ common ++ (x ∷ left_rest)
  pub right : ys ≡ common ++ (y ∷ right_rest)

-- What a word says of two strings: that they are equal, or how their first bytes that differ do, as
-- a negative number in two's complement where the left byte is the smaller.
pub data Tells (xs ys : List ℕ) (d : ℕ) : Type 0 where
  equal : xs ≡ ys → d ≡ 0 → Tells xs ys d
  less : (x y : ℕ) → Differ xs ys x y → x < y → d + (y - x) ≡ 2 ^ 32 → Tells xs ys d
  greater : (x y : ℕ) → Differ xs ys x y → y < x → d ≡ x - y → Tells xs ys d

here : (x y : ℕ) (xs ys : List ℕ) → Differ (x ∷ xs) (y ∷ ys) x y
here x y xs ys = record { common = []; left_rest = xs; right_rest = ys; left = refl; right = refl }

further : (z : ℕ) (xs ys : List ℕ) (x y : ℕ) → Differ xs ys x y → Differ (z ∷ xs) (z ∷ ys) x y
further z xs ys x y h = record {
  common = z ∷ h.common;
  left_rest = h.left_rest;
  right_rest = h.right_rest;
  left = ap (λ l. z ∷ l) h.left;
  right = ap (λ l. z ∷ l) h.right;
}

Tells-cons : (z : ℕ) (xs ys : List ℕ) (d : ℕ) → Tells xs ys d → Tells (z ∷ xs) (z ∷ ys) d
Tells-cons z xs ys d (Tells.equal e h) = Tells.equal (ap (λ l. z ∷ l) e) h
Tells-cons z xs ys d (Tells.less x y e l h) = Tells.less x y (further z xs ys x y e) l h
Tells-cons z xs ys d (Tells.greater x y e l h) = Tells.greater x y (further z xs ys x y e) l h

Tells-first :
    (x y : ℕ) (xs ys : List ℕ)
    → IsByte x
    → IsByte y
    → x ≢ y
    → Tells (x ∷ xs) (y ∷ ys) ((x + 2 ^ 32 - y) % 2 ^ 32)
Tells-first x y xs ys bx by ne = elim (◌<◌_or x y ne) [
  | inl below ↦ Tells.less x y (here x y xs ys) below (omega arith)
  | inr above ↦ Tells.greater x y (here x y xs ys) above (omega arith)
]
  where
    ◌<◌_or : (a b : ℕ) → a ≢ b → (a < b) ⊎ (b < a)
    ◌<◌_or a b h = ground arith

first_difference-Tells :
    (xs ys : List ℕ)
    → length xs ≡ length ys
    → All IsByte xs
    → All IsByte ys
    → Tells xs ys (first_difference xs ys)
unfolding first_difference
first_difference-Tells [] [] e bx by = Tells.equal refl refl
first_difference-Tells [] (y ∷ ys) e bx by = absurd (omega arith)
first_difference-Tells (x ∷ xs) [] e bx by = absurd (omega arith)
first_difference-Tells (x ∷ xs) (y ∷ ys) e bx by = elim (Bool-cases (x == y)) [
  | inl same ↦ rw same (
      subst (λ z. Tells (x ∷ xs) (z ∷ ys) (first_difference xs ys)) ((==_iff x y).0 same)
        (Tells-cons x xs ys (first_difference xs ys)
          (first_difference-Tells xs ys (omega (arith, e)) bx.1 by.1)))
  | inr other ↦ rw other (Tells-first x y xs ys bx.0 by.0 (ground arith))
]

Tells-lt : (xs ys : List ℕ) (d : ℕ) → All IsByte xs → Tells xs ys d → d < 2 ^ 32
Tells-lt xs ys d b (Tells.equal e h) = omega arith
Tells-lt xs ys d b (Tells.less x y e l h) = omega arith
Tells-lt xs ys d b (Tells.greater x y e l h) =
    let at = All-middle e.common x e.left_rest (subst (All IsByte) e.left b) in omega arith
  where
    All-middle : (p : List ℕ) (z : ℕ) (q : List ℕ) → All IsByte (p ++ (z ∷ q)) → IsByte z
    All-middle [] z q g = g.0
    All-middle (w ∷ p) z q g = All-middle p z q g.1

-- A `sol_memcmp` that succeeds on a memory of bytes leaves at the address of its result a word of 32 bits
-- that tells how the two strings of bytes compare, returns 0 and uses the units for their length.
pub sol_memcmp-Tells :
    (s1 s2 n result_ptr r4 : ℕ) (costs : ExecutionCost) (m m' : Machine) {r : ℕ}
    → IsBytes m.memory
    → sol_memcmp (s1, s2, n, result_ptr, r4) costs m ≡ (m', ok r)
    → (xs : List ℕ) × (ys : List ℕ) × (d : ℕ) × (read_bytes m.memory s1 n ≡ ok xs)
      × (read_bytes m.memory s2 n ≡ ok ys)
      × (read_u32 m'.memory result_ptr ≡ ok d)
      × Tells xs ys d
      × (r ≡ 0)
      × (consume m.compute (mem_op_cost n costs) ≡ ok m'.compute)
unfolding sol_memcmp mem_op_consume pure read_u32 write_u32
sol_memcmp-Tells s1 s2 n result_ptr r4 costs m m' b h =
    let (m1, u, e1, h1) = >>=-eq-ok (consume_units (mem_op_cost n costs)) _ h in
    let (same, paid) = consume_units-eq-ok (mem_op_cost n costs) m m1 e1 in
    let (m2, xs, e2, h2) = >>=-eq-ok (load s1 n) _ h1 in
    let (kept2, left) = load-eq-ok s1 n m1 m2 e2 in
    let (m3, ys, e3, h3) = >>=-eq-ok (load s2 n) _ h2 in
    let (kept3, right) = load-eq-ok s2 n m2 m3 e3 in
    let (m4, v, e4, h4) = >>=-eq-ok (store_u32 result_ptr (first_difference xs ys)) _ h3 in
    let (kept4, written) = store_u32-eq-ok result_ptr (first_difference xs ys) m3 m4 e4 in
    let last : m4 ≡ m' = ap (λ p. p.0) h4 in
    let left0 : read_bytes m.memory s1 n ≡ ok xs =
      subst (λ k. read_bytes k s1 n ≡ ok xs) same left in
    let right0 : read_bytes m.memory s2 n ≡ ok ys =
      subst (λ k. read_bytes k s2 n ≡ ok ys) (ap (λ q. q.memory) (sym kept2) ∙ same) right in
    let bx = read_bytes-IsByte m.memory s1 n b left0 in
    let tells =
      first_difference-Tells xs ys
        (length-read_bytes m.memory s1 n left0 ∙ sym (length-read_bytes m.memory s2 n right0)) bx
        (read_bytes-IsByte m.memory s2 n b right0) in
    (
      xs,
      ys,
      first_difference xs ys,
      left0,
      right0,
      subst (λ q. read_word q.memory result_ptr 4 ≡ ok (first_difference xs ys)) last
          (read_word-write_word m3.memory result_ptr 4 (first_difference xs ys)
            (Tells-lt xs ys (first_difference xs ys) bx tells) written),
      tells,
      sym (ok-injective (ap (λ p. p.1) h4)),
      paid ∙ ap ok (ap (λ q. q.compute) (kept2 ∙ kept3) ∙ sym kept4 ∙ ap (λ q. q.compute) last),
    )
