-- ===== src/SyscallMap/Laws.antt =====
-- The search finds the entries of a sorted table, and nothing else, and always ends.
use sbpf.Base.{
  ℕ, zero, suc, ◌+◌, ◌/◌, ◌≤◌, ◌<◌, ◌≡◌, ◌≢◌, ◌↔◌, ◌⊎◌, refl, sym, ap, ◌∙◌, arith, inl, inr,
}
use sbpf.Base.{get_elem?-lt, String, ltb, ◌==◌, Bool-cases, ltb→lt, lt→ltb, le→ltb-false, ==_iff}
use sbpf.Base.{
  Option, some, none, length, get_elem?, get_elem?-of_lt, if-intro, some-injective, none-ne-some,
  false,
}
use sbpf.Errors.{ok, ok-injective, ok-ne-err, ok-ne-panic}
use sbpf.SyscallMap.{Entries, Found, search, probe, get}

-- The hashes increase.
pub record IsSorted (entries : Entries) : Type 0 where
  pub increasing :
      (i j : ℕ) (x y : ℕ × String)
      → i < j
      → get_elem? entries i ≡ some x
      → get_elem? entries j ≡ some y
      → x.0 < y.0

-- A search that ends.
abbrev IsTotal : Found → Type 0
IsTotal f = (r : Option String) × (f ≡ ok r)

probe-IsTotal :
    (hash : ℕ) {o : Option (ℕ × String)} {above below : Found}
    → (x : ℕ × String) × (o ≡ some x)
    → IsTotal above
    → IsTotal below
    → IsTotal (probe o hash above below)
unfolding probe
probe-IsTotal hash (x, e) above below =
    rw e (
      if-intro IsTotal (x.0 == hash) (some x.1, refl) (if-intro IsTotal (ltb x.0 hash) above below))

probe_hit :
    (hash : ℕ) (x : ℕ × String) (above below : Found)
    → x.0 ≡ hash
    → probe (some x) hash above below ≡ ok (some x.1)
unfolding probe
probe_hit hash (k, name) above below e = rw ((==_iff k hash).1 e) refl

not_equal : (a b : ℕ) → a ≢ b → (a == b) ≡ false
not_equal a b h = ground arith

module _ (entries : Entries) (hash : ℕ) where
  -- The entry in the middle of a range that is not empty.
  middle :
      (left right : ℕ)
      → left < right
      → right ≤ length entries
      → (x : ℕ × String) × (get_elem? entries ((left + right) / 2) ≡ some x)
  middle left right h b = get_elem?-of_lt entries ((left + right) / 2) (omega arith)

  search_total :
      (fuel left right : ℕ)
      → right ≤ left + fuel
      → right ≤ length entries
      → (r : Option String) × (search fuel entries hash left right ≡ ok r)
  unfolding search
  search_total zero left right h b = (none, rw (le→ltb-false left right (omega arith)))
  search_total (suc fuel) left right h b = elim (Bool-cases (ltb left right)) [
    | inr done ↦ (none, rw done)
    | inl more ↦
        let less : left < right = ltb→lt _ _ more in
        rw more (
          probe-IsTotal hash (middle left right less b)
            (search_total fuel ((left + right) / 2 + 1) right (omega arith) b)
            (search_total fuel left ((left + right) / 2) (omega arith) (omega arith)))
  ]

  -- What is found is an entry.
  abbrev IsSound : Found → Type 0
  IsSound f =
      (name : String) → f ≡ ok (some name) → (i : ℕ) × (get_elem? entries i ≡ some (hash, name))

  none-IsSound : IsSound (ok none)
  none-IsSound name e = absurd (none-ne-some (ok-injective e))

  probe-IsSound :
      (mid : ℕ) (o : Option (ℕ × String)) {above below : Found}
      → get_elem? entries mid ≡ o
      → IsSound above
      → IsSound below
      → IsSound (probe o hash above below)
  unfolding probe
  probe-IsSound mid none e above below = λ name h. absurd (ok-ne-panic (sym h))
  probe-IsSound mid (some (k, found)) e above below = elim (Bool-cases (k == hash)) [
    | inl hit ↦ λ name h.
        let same : k ≡ hash = (==_iff k hash).0 hit in
        let named : found ≡ name = some-injective (ok-injective (rw hit at h)) in
        (mid, rw (← same, ← named) e)
    | inr miss ↦ rw miss (if-intro IsSound (ltb k hash) above below)
  ]

  search-IsSound : (fuel left right : ℕ) → IsSound (search fuel entries hash left right)
  unfolding search
  search-IsSound zero left right =
      if-intro IsSound (ltb left right) (λ name h. absurd (ok-ne-err (sym h))) none-IsSound
  search-IsSound (suc fuel) left right =
      if-intro IsSound (ltb left right)
        (probe-IsSound ((left + right) / 2) (get_elem? entries ((left + right) / 2)) refl
          (search-IsSound fuel ((left + right) / 2 + 1) right)
          (search-IsSound fuel left ((left + right) / 2)))
        none-IsSound

  module _ (sorted : IsSorted entries) (name : String) (i : ℕ)
      (here : get_elem? entries i ≡ some (hash, name)) where
    -- Where the entry lies, seen from another.
    position :
        (mid : ℕ) (x : ℕ × String)
        → get_elem? entries mid ≡ some x
        → ((i < mid) × (hash < x.0))
          ⊎ (((i ≡ mid) × (x ≡ (hash, name))) ⊎ ((mid < i) × (x.0 < hash)))
    position mid x e = elim (ordered) [
      | inl before ↦ inl (before, sorted.increasing i mid _ x before here e)
      | inr (inl same) ↦
          inr (inl (same, some-injective (sym e ∙ (ap (get_elem? entries) (sym same) ∙ here))))
      | inr (inr after) ↦ inr (inr (after, sorted.increasing mid i x _ after e here))
    ]
      where
        ordered : (i < mid) ⊎ ((i ≡ mid) ⊎ (mid < i))
        ordered = omega arith

    search_found :
        (fuel left right : ℕ)
        → right ≤ left + fuel
        → right ≤ length entries
        → left ≤ i
        → i < right
        → search fuel entries hash left right ≡ ok (some name)
    unfolding search probe
    search_found zero left right h b lo hi = absurd (omega arith)
    search_found (suc fuel) left right h b lo hi =
        let (x, e) = middle left right (omega arith) b in
        rw (lt→ltb left right (omega arith)) (
          rw e (elim (position ((left + right) / 2) x e) [
            | inl (before, less) ↦
                rw (not_equal x.0 hash (omega arith), le→ltb-false x.0 hash (omega arith))
                  (search_found fuel left ((left + right) / 2) (omega arith) (omega arith) lo
                    before)
            | inr (inl (same, it)) ↦
                probe_hit hash x _ _ (ap (λ p. p.0) it) ∙ ap (λ p. ok (some p.1)) it
            | inr (inr (after, less)) ↦
                rw (not_equal x.0 hash (omega arith), lt→ltb x.0 hash less)
                  (search_found fuel ((left + right) / 2 + 1) right (omega arith) b (omega arith)
                    hi)
          ]))

-- `get` on a table whose hashes increase ends with no panic, and gives a name exactly where the table
-- has it under the hash.
pub get_iff :
    (entries : Entries) (hash : ℕ)
    → IsSorted entries
    → ((r : Option String) × (get entries hash ≡ ok r))
      × ((name : String)
          → (get entries hash ≡ ok (some name))
            ↔ ((i : ℕ) × (get_elem? entries i ≡ some (hash, name))))
unfolding get
get_iff entries hash sorted = (
  search_total entries hash (length entries) 0 (length entries) (omega arith) (omega arith),
  λ name. (
    search-IsSound entries hash (length entries) 0 (length entries) name,
    λ (i, here).
        search_found entries hash sorted name i here (length entries) 0 (length entries)
          (omega arith) (omega arith) (omega arith) (get_elem?-lt entries i here),
  ),
)
