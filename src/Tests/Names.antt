-- ===== src/Tests/Names.antt =====
-- The theorem on the table that crates/syscall-map computes from names.
use Prim.Native.Char.{code}
use Prim.Native.String.{[] as empty, ◌∷◌ as ◌⊳◌}
use sbpf.Base.{ℕ, ◌≡◌, ◌↔◌, refl, Option, some, List, [], ◌∷◌, get_elem?, String}
use sbpf.Errors.{ok}
use sbpf.SyscallMap.{get, from_entries, compute_syscall_entries_const}
use sbpf.SyscallMap.Hash.{murmur3_32}
use sbpf.SyscallMap.Table.{get-compute_syscall_entries_const}

-- The bytes of a text of ASCII.
abbrev ascii : String → List ℕ
ascii empty = []
ascii (c ⊳ cs) = code c ∷ ascii cs

abbrev two_names : List String
two_names = "abort" ∷ "sol_log_" ∷ []

two_names_table :
    from_entries (compute_syscall_entries_const ascii two_names)
    ≡ ok (compute_syscall_entries_const ascii two_names)
unfolding from_entries compute_syscall_entries_const
two_names_table = refl

abort_known : murmur3_32 (ascii "abort") ≡ 0xb6fc1a11
unfolding murmur3_32
abort_known = refl

sol_log_known : murmur3_32 (ascii "sol_log_") ≡ 0x207559bd
unfolding murmur3_32
sol_log_known = refl

get-compute_syscall_entries_const_example :
    ((r : Option String) × (get (compute_syscall_entries_const ascii two_names) 0x207559bd ≡ ok r))
    × ((name : String)
        → (get (compute_syscall_entries_const ascii two_names) 0x207559bd ≡ ok (some name)) ↔ (
            (0x207559bd ≡ murmur3_32 (ascii name)) × (i : ℕ) × (get_elem? two_names i ≡ some name)))
get-compute_syscall_entries_const_example =
    get-compute_syscall_entries_const ascii two_names
      (compute_syscall_entries_const ascii two_names) 0x207559bd two_names_table
