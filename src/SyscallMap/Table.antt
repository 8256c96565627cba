-- ===== src/SyscallMap/Table.antt =====
-- What a table that is computed from names finds.
use sbpf.Base.{ℕ, zero, suc, ◌≤◌, ◌<◌, ◌≡◌, ◌↔◌, refl, sym, ap, subst, ◌∙◌, arith, inl, inr}
use sbpf.Base.{String, List, [], ◌∷◌, ◌++◌, All, length, get_elem?, All-get_elem?, Option, some}
use sbpf.Base.{false, Bool-cases, some-injective}
use sbpf.Errors.{ok, ok-injective, ok-ne-panic}
use sbpf.SyscallMap.{
  Entries, has_conflict, from_entries, get, bubble_sort, hashed, compute_syscall_entries_const,
}
use sbpf.SyscallMap.Hash.{murmur3_32}
use sbpf.SyscallMap.Laws.{IsSorted, get_iff}
use sbpf.SyscallMap.Sort.{Entry, Ascending, IsUnder, IsIn, bubble_sort-Ascending, bubble_sort-IsIn}

-- Without a conflict, hashes that ascend increase.
abbrev Increasing : Entries → Type 0
Increasing [] = Unit
Increasing (x ∷ xs) = All (λ (e : Entry). x.0 < e.0) xs × Increasing xs

above :
    (x y : Entry) (es : Entries)
    → x.0 < y.0
    → All (λ (e : Entry). y.0 ≤ e.0) es
    → All (λ (e : Entry). x.0 < e.0) es
above x y [] h g = tt
above x y (e ∷ es) h g = (omega (arith, h, g.0), above x y es h g.1)

Ascending-Increasing : (es : Entries) → Ascending es → has_conflict es ≡ false → Increasing es
unfolding has_conflict
Ascending-Increasing [] a h = tt
Ascending-Increasing (x ∷ []) a h = (tt, tt)
Ascending-Increasing (x ∷ y ∷ es) a h =
    let less : x.0 < y.0 = ground (arith, h, a.0.0) in
    ((less, above x y es less a.1.0), Ascending-Increasing (y ∷ es) a.1 (ground (arith, h)))

Increasing-lt :
    (es : Entries) (i j : ℕ) (x y : Entry)
    → Increasing es
    → i < j
    → get_elem? es i ≡ some x
    → get_elem? es j ≡ some y
    → x.0 < y.0
Increasing-lt [] i j x y h l p q = absurd (cc)
Increasing-lt (e ∷ es) i zero x y h l p q = absurd (omega arith)
Increasing-lt (e ∷ es) zero (suc j) x y h l p q =
    subst (λ (z : Entry). z.0 < y.0) (some-injective p)
      (All-get_elem? (λ (z : Entry). e.0 < z.0) es j h.0 q)
Increasing-lt (e ∷ es) (suc i) (suc j) x y h l p q = Increasing-lt es i j x y h.1 (omega arith) p q

from_entries-IsSame :
    (es entries : Entries)
    → from_entries es ≡ ok entries
    → (has_conflict es ≡ false) × (es ≡ entries)
unfolding from_entries
from_entries-IsSame [] entries h = absurd (cc)
from_entries-IsSame (x ∷ es) entries h = elim (Bool-cases (has_conflict (x ∷ es))) [
  | inl conflict ↦ absurd (ok-ne-panic (sym (rw conflict at h)))
  | inr free ↦ (free, ok-injective (rw free at h))
]

++_nil : (es : Entries) → es ++ [] ≡ es
++_nil [] = refl
++_nil (x ∷ es) = ap (λ l. x ∷ l) (++_nil es)

All-IsUnder : (es : Entries) → All (IsUnder []) es
All-IsUnder [] = tt
All-IsUnder (x ∷ es) = (tt, All-IsUnder es)

sorted : (es : Entries) → Ascending (bubble_sort (length es) es)
sorted es =
    subst (λ l. Ascending (bubble_sort (length es) l)) (++_nil es)
      (bubble_sort-Ascending (length es) es [] refl (All-IsUnder es) tt)

module _ (as_bytes : String → List ℕ) where
  length-hashed : (names : List String) → length (hashed as_bytes names) ≡ length names
  unfolding hashed
  length-hashed [] = refl
  length-hashed (name ∷ names) = ap suc (length-hashed names)

  -- A name of the list, under its hash.
  abbrev Named : List String → ℕ → String → Type 0
  Named names hash name =
      (hash ≡ murmur3_32 (as_bytes name)) × (i : ℕ) × (get_elem? names i ≡ some name)

  IsIn→Named :
      (names : List String) (hash : ℕ) (name : String) (i : ℕ)
      → get_elem? (hashed as_bytes names) i ≡ some (hash, name)
      → Named names hash name
  unfolding hashed
  IsIn→Named [] hash name i h = absurd (cc)
  IsIn→Named (x ∷ names) hash name zero h =
      let e = some-injective h in
      (
        sym (ap (λ p. p.0) e) ∙ ap (λ n. murmur3_32 (as_bytes n)) (ap (λ p. p.1) e),
        zero,
        ap (λ p. some p.1) e,
      )
  IsIn→Named (x ∷ names) hash name (suc i) h =
      let (e, j, g) = IsIn→Named names hash name i h in (e, suc j, g)

  Named→IsIn :
      (names : List String) (name : String) (i : ℕ)
      → get_elem? names i ≡ some name
      → get_elem? (hashed as_bytes names) i ≡ some (murmur3_32 (as_bytes name), name)
  unfolding hashed
  Named→IsIn [] name i h = absurd (cc)
  Named→IsIn (x ∷ names) name zero h =
      ap (λ n. some (murmur3_32 (as_bytes n), n)) (some-injective h)
  Named→IsIn (x ∷ names) name (suc i) h = Named→IsIn names name i h

  table-IsSorted :
      (names : List String)
      → has_conflict (compute_syscall_entries_const as_bytes names) ≡ false
      → IsSorted (compute_syscall_entries_const as_bytes names)
  unfolding compute_syscall_entries_const
  table-IsSorted names free =
      let ascending =
        subst (λ k. Ascending (bubble_sort k (hashed as_bytes names))) (length-hashed names)
          (sorted (hashed as_bytes names)) in
      record {
        increasing = λ i j x y.
            Increasing-lt (compute_syscall_entries_const as_bytes names) i j x y
              (Ascending-Increasing (compute_syscall_entries_const as_bytes names) ascending free);
      }

  abbrev Finds : List String → Entries → ℕ → Type 0
  Finds names es hash =
      ((r : Option String) × (get es hash ≡ ok r))
      × ((name : String)
          → (get es hash ≡ ok (some name))
            ↔ ((hash ≡ murmur3_32 (as_bytes name)) × (i : ℕ) × (get_elem? names i ≡ some name)))

  entry-Named :
      (names : List String) (hash : ℕ) (name : String)
      → IsIn (compute_syscall_entries_const as_bytes names) (hash, name) ↔ Named names hash name
  unfolding compute_syscall_entries_const
  entry-Named names hash name =
      let (there, back) = bubble_sort-IsIn (length names) (hashed as_bytes names) (hash, name) in
      (
        λ h. let (i, g) = there h in IsIn→Named names hash name i g,
        λ (e, i, g). back (
            subst (λ k. IsIn (hashed as_bytes names) (k, name)) (sym e)
              (i, Named→IsIn names name i g)),
      )

  -- Where the computed table is accepted, a search for a hash never panics and ends, and it gives
  -- exactly the names of the list that have this hash.
  pub get-compute_syscall_entries_const :
      (names : List String) (entries : Entries) (hash : ℕ)
      → from_entries (compute_syscall_entries_const as_bytes names) ≡ ok entries
      → ((r : Option String) × (get entries hash ≡ ok r))
        × ((name : String)
            → (get entries hash ≡ ok (some name))
              ↔ ((hash ≡ murmur3_32 (as_bytes name)) × (i : ℕ) × (get_elem? names i ≡ some name)))
  get-compute_syscall_entries_const names entries hash h =
      let (free, same) =
        from_entries-IsSame (compute_syscall_entries_const as_bytes names) entries h in
      subst (λ (es : Entries). Finds names es hash) same
        (let (total, iff) =
            get_iff (compute_syscall_entries_const as_bytes names) hash
              (table-IsSorted names free) in
          (
            total,
            λ name.
                let (to, from) = iff name in
                let (there, back) = entry-Named names hash name in
                (λ h. there (to h), λ h. from (back h)),
          ))
