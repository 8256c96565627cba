-- ===== src/Runtime/Store.antt =====
-- The accounts of the runtime (`HashMap<Address, Account>`), crates/runtime/src/errors.rs, and code
-- that reads and changes the accounts and may fail.
pub mod Laws
pub mod Follows
use sbpf.Base.{ℕ, ◌+◌, ◌==◌, Bool, if◌then◌else◌, String, List, [], ◌∷◌, Option, some, none}
use sbpf.Errors.{Result, ok, err, SbpfVmError}
use sbpf.Runtime.Stateful.{Stateful}

-- `[u8; 32]`, by the number whose little-endian bytes they are.
abbrev pub Address : Type 0
Address = ℕ

-- The fields of `solana_account::Account`.
pub record Account : Type 0 where
  pub lamports : ℕ
  pub contents : List ℕ
  pub owner : Address
  pub executable : Bool
  pub rent_epoch : ℕ

-- Where the source puts the text of an address in an error, the address stands.
pub data RuntimeError : Type 0 where
  elf_read_error elf_parse_error : String → RuntimeError
  vm_error : SbpfVmError → RuntimeError
  missing_account program_not_found : Address → RuntimeError
  cpi_depth_exceeded : ℕ → RuntimeError
  privilege_escalation : String → Address → RuntimeError
  vm_not_prepared : RuntimeError
  register_out_of_range : ℕ → RuntimeError
  builtin_error : String → RuntimeError
  external_account_lamport_spend : Address → RuntimeError
  unbalanced_instruction : ℕ → ℕ → RuntimeError

abbrev pub Accounts : Type 0
Accounts = List (Address × Account)

abbrev pub lookup : Address → Accounts → Option Account
lookup k [] = none
lookup k ((j, a) ∷ accounts) = if k == j then some a else lookup k accounts

-- The account of a key that is there is replaced.
abbrev pub replace : Address → Account → Accounts → Accounts
replace k a [] = []
replace k a ((j, b) ∷ accounts) =
    if k == j then (j, a) ∷ accounts else (j, b) ∷ replace k a accounts

unfoldable pub total : Accounts → ℕ
total [] = 0
total ((j, a) ∷ accounts) = a.lamports + total accounts

-- After an error the accounts are as the code left them.
abbrev pub Action : Type 0 → Type 0
Action A = Stateful Accounts RuntimeError A

abbrev pub found : Address → Option Account → Result RuntimeError Account
found k (some a) = ok a
found k none = err (RuntimeError.missing_account k)

-- `accounts.get_mut(key).ok_or(MissingAccount)`, and the change of the account that it gives.
unfoldable pub get_mut : Address → Action Account
get_mut k accounts = (accounts, found k (lookup k accounts))

unfoldable pub put : Address → Account → Action (Unit {0})
put k a accounts = (replace k a accounts, ok tt)
