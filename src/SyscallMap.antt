-- ===== src/SyscallMap.antt =====
-- crates/syscall-map/src/static_map.rs: syscall names by hash, in a sorted table that is searched by
-- bisection.
pub mod Hash
pub mod Laws
pub mod Sort
pub mod Table
use sbpf.Base.{ℕ, zero, suc, ◌+◌, ◌/◌, String, Bool, false, ◌||◌, [], ◌∷◌, ltb, ◌==◌, if◌then◌else◌}
use sbpf.Base.{Option, some, none, List, length, get_elem?}
use sbpf.SyscallMap.Hash.{murmur3_32}
use sbpf.Errors.{Result, ok, err, panic}

-- Pairs of a hash and a name.
abbrev pub Entries : Type 0
Entries = List (ℕ × String)

-- Two neighbours have the same hash.
unfoldable pub has_conflict : Entries → Bool
has_conflict [] = false
has_conflict (x ∷ []) = false
has_conflict (x ∷ y ∷ rest) = x.0 == y.0 || has_conflict (y ∷ rest)

-- A conflict panics, and so does an empty table, whose length less one does not exist.
unfoldable pub from_entries : Entries → Result (Unit {0}) Entries
unfolding has_conflict
from_entries [] = panic
from_entries (x ∷ rest) = if has_conflict (x ∷ rest) then panic else ok (x ∷ rest)

-- The result of a search; `err` stands for a loop that has not ended when its fuel has.
abbrev pub Found : Type 0
Found = Result (Unit {0}) (Option String)

-- One round at the entry in the middle, with the searches to its right and to its left.
unfoldable pub probe : Option (ℕ × String) → ℕ → Found → Found → Found
probe none hash right left = panic
probe (some (h, name)) hash right left =
    if h == hash then ok (some name) else if ltb h hash then right else left

-- The loop of `get` between two bounds.
unfoldable pub search : ℕ → Entries → ℕ → ℕ → ℕ → Found
unfolding probe
search zero entries hash left right = if ltb left right then err tt else ok none
search (suc fuel) entries hash left right =
    let mid = (left + right) / 2 in
    let above = search fuel entries hash (mid + 1) right in
    let below = search fuel entries hash left mid in
    if ltb left right then probe (get_elem? entries mid) hash above below else ok none

-- Each round halves what is left, so as many rounds as entries are enough.
unfoldable pub get : Entries → ℕ → Found
unfolding search
get entries hash = search (length entries) entries hash 0 (length entries)

-- The inner loop of the bubble sort, which compares the neighbours at the first so many positions.
unfoldable pub bubble : ℕ → Entries → Entries
bubble (suc k) (x ∷ y ∷ rest) =
    let swapped = bubble k (x ∷ rest) in
    let kept = bubble k (y ∷ rest) in if ltb y.0 x.0 then y ∷ swapped else x ∷ kept
bubble (suc k) (x ∷ []) = x ∷ []
bubble (suc k) [] = []
bubble zero entries = entries

-- The outer loop with so many rounds left.
unfoldable pub bubble_sort : ℕ → Entries → Entries
unfolding bubble
bubble_sort zero entries = entries
bubble_sort (suc k) entries = bubble_sort k (bubble k entries)

-- `str::as_bytes`.
module _ (as_bytes : String → List ℕ) where
  unfoldable pub hashed : List String → Entries
  unfolding murmur3_32
  hashed [] = []
  hashed (name ∷ names) = (murmur3_32 (as_bytes name), name) ∷ hashed names

  unfoldable pub compute_syscall_entries_const : List String → Entries
  unfolding bubble_sort hashed
  compute_syscall_entries_const syscalls = bubble_sort (length syscalls) (hashed syscalls)
