-- ===== src/SyscallMap/Sort.antt =====
-- The bubble sort of crates/syscall-map/src/static_map.rs: its result is in order, and has the entries
-- that it was given.
use sbpf.Base.{ℕ, zero, suc, ◌≤◌, ◌≡◌, ◌↔◌, refl, ap, arith, inl, inr}
use sbpf.Base.{String, [], ◌∷◌, ◌++◌, All, length, get_elem?, All-get_elem?, some}
use sbpf.Base.{ltb, ltb→lt, ltb-false→le, Bool-cases}
use sbpf.SyscallMap.{Entries, bubble, bubble_sort}

abbrev pub Entry : Type 0
Entry = ℕ × String

abbrev AtMost : Entry → Entry → Type 0
AtMost m e = e.0 ≤ m.0

-- What a pass over so many entries and one more does: the largest of them comes last.
record IsBubbled (Q : Entry → Type 0) (k : ℕ) (pre suf : Entries) (out : Entries) : Type 0 where
  pub init : Entries
  pub last : Entry
  pub shape : out ≡ init ++ (last ∷ suf)
  pub size : length init ≡ k
  pub below : All (AtMost last) init
  pub was_below : All (AtMost last) pre
  pub kept : All Q init × Q last

bubble-IsBubbled :
    (Q : Entry → Type 0) (k : ℕ) (pre suf : Entries)
    → length pre ≡ suc k
    → All Q pre
    → IsBubbled Q k pre suf (bubble k (pre ++ suf))
unfolding bubble
bubble-IsBubbled Q zero [] suf e q = absurd (omega arith)
bubble-IsBubbled Q zero (x ∷ []) suf e q = record {
  init = [];
  last = x;
  shape = refl;
  size = refl;
  below = tt;
  was_below = (omega arith, tt);
  kept = (tt, q.0);
}
bubble-IsBubbled Q zero (x ∷ y ∷ pre) suf e q = absurd (omega arith)
bubble-IsBubbled Q (suc k) [] suf e q = absurd (omega arith)
bubble-IsBubbled Q (suc k) (x ∷ []) suf e q = absurd (omega arith)
bubble-IsBubbled Q (suc k) (x ∷ y ∷ pre) suf e q = elim (Bool-cases (ltb y.0 x.0)) [
  | inl swap ↦
      let b = bubble-IsBubbled Q k (x ∷ pre) suf (omega arith) (q.0, q.1.1) in
      let less = ltb→lt y.0 x.0 swap in
      rw swap record {
        init = y ∷ b.init;
        last = b.last;
        shape = ap (λ l. y ∷ l) b.shape;
        size = ap suc b.size;
        below = (omega (arith, less, b.was_below.0), b.below);
        was_below = (b.was_below.0, (omega (arith, less, b.was_below.0), b.was_below.1));
        kept = ((q.1.0, b.kept.0), b.kept.1);
      }
  | inr stay ↦
      let b = bubble-IsBubbled Q k (y ∷ pre) suf (omega arith) q.1 in
      let less : x.0 ≤ y.0 = ltb-false→le stay in
      rw stay record {
        init = x ∷ b.init;
        last = b.last;
        shape = ap (λ l. x ∷ l) b.shape;
        size = ap suc b.size;
        below = (omega (arith, less, b.was_below.0), b.below);
        was_below = (omega (arith, less, b.was_below.0), b.was_below);
        kept = ((q.0, b.kept.0), b.kept.1);
      }
]

abbrev pub Ascending : Entries → Type 0
Ascending [] = Unit
Ascending (x ∷ xs) = All (λ (e : Entry). x.0 ≤ e.0) xs × Ascending xs

-- The entries that are left are not above those that are sorted.
abbrev pub IsUnder : Entries → Entry → Type 0
IsUnder suf e = All (λ (s : Entry). e.0 ≤ s.0) suf

module _ (m : Entry) (suf : Entries) where
  zip-IsUnder :
      (init : Entries) → All (AtMost m) init → All (IsUnder suf) init → All (IsUnder (m ∷ suf)) init
  zip-IsUnder [] h g = tt
  zip-IsUnder (x ∷ init) h g = ((h.0, g.0), zip-IsUnder init h.1 g.1)

pub bubble_sort-Ascending :
    (k : ℕ) (pre suf : Entries)
    → length pre ≡ k
    → All (IsUnder suf) pre
    → Ascending suf
    → Ascending (bubble_sort k (pre ++ suf))
unfolding bubble_sort
bubble_sort-Ascending zero [] suf e u s = s
bubble_sort-Ascending zero (x ∷ pre) suf e u s = absurd (omega arith)
bubble_sort-Ascending (suc k) pre suf e u s =
    let b = bubble-IsBubbled (IsUnder suf) k pre suf e u in
    rw b.shape (
      bubble_sort-Ascending k b.init (b.last ∷ suf) b.size
        (zip-IsUnder b.last suf b.init b.below b.kept.0) (b.kept.1, s))

bubble-All : (Q : Entry → Type 0) (k : ℕ) (es : Entries) → All Q (bubble k es) ↔ All Q es
unfolding bubble
bubble-All Q zero es = (λ h. h, λ h. h)
bubble-All Q (suc k) [] = (λ h. h, λ h. h)
bubble-All Q (suc k) (x ∷ []) = (λ h. h, λ h. h)
bubble-All Q (suc k) (x ∷ y ∷ es) = elim (Bool-cases (ltb y.0 x.0)) [
  | inl swap ↦
      let (there, back) = bubble-All Q k (x ∷ es) in
      rw swap (λ h. let g = there h.1 in (g.0, (h.0, g.1)), λ h. (h.1.0, back (h.0, h.1.1)))
  | inr stay ↦
      let (there, back) = bubble-All Q k (y ∷ es) in
      rw stay (λ h. (h.0, there h.1), λ h. (h.0, back h.1))
]

bubble_sort-All : (Q : Entry → Type 0) (k : ℕ) (es : Entries) → All Q (bubble_sort k es) ↔ All Q es
unfolding bubble_sort
bubble_sort-All Q zero es = (λ h. h, λ h. h)
bubble_sort-All Q (suc k) es =
    let (there, back) = bubble_sort-All Q k (bubble k es) in
    let (there1, back1) = bubble-All Q k es in (λ h. there1 (there h), λ h. back (back1 h))

-- An entry of the table.
abbrev pub IsIn : Entries → Entry → Type 0
IsIn es e = (i : ℕ) × (get_elem? es i ≡ some e)

All-shift : (P Q : Entry → Type 0) (es : Entries) → ((e : Entry) → P e → Q e) → All P es → All Q es
All-shift P Q [] f h = tt
All-shift P Q (e ∷ es) f h = (f e h.0, All-shift P Q es f h.1)

IsIn-All : (es : Entries) → All (IsIn es) es
IsIn-All [] = tt
IsIn-All (x ∷ es) =
    ((zero, refl), All-shift (IsIn es) (IsIn (x ∷ es)) es (λ e (i, h). (suc i, h)) (IsIn-All es))

-- The sort keeps the entries.
pub bubble_sort-IsIn : (k : ℕ) (es : Entries) (e : Entry) → IsIn (bubble_sort k es) e ↔ IsIn es e
bubble_sort-IsIn k es e = (
  λ (i, h).
      All-get_elem? (IsIn es) (bubble_sort k es) i
        ((bubble_sort-All (IsIn es) k es).1 (IsIn-All es)) h,
  λ (i, h).
      All-get_elem? (IsIn (bubble_sort k es)) es i
        ((bubble_sort-All (IsIn (bubble_sort k es)) k es).0 (IsIn-All (bubble_sort k es))) h,
)
