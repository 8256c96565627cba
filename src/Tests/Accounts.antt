-- ===== src/Tests/Accounts.antt =====
-- The theorems on the runtime's accounts at two accounts.
use sbpf.Base.{
  ℕ, zero, suc, ap, ◌+◌, ◌≤◌, ◌≡◌, ◌↔◌, refl, arith, true, false, String, List, [], ◌∷◌, All,
}
use sbpf.Base.{Option, some, none}
use sbpf.Errors.{Result, ok, err}
use sbpf.Runtime.Stateful.{◌>>=◌, pure, fail, lift}
use sbpf.Runtime.Store.{Account, Accounts, RuntimeError, lookup, total, get_mut, put}
use sbpf.Runtime.Request.{AccountMeta, CpiAccountMeta, CpiRequest}
use sbpf.Runtime.System.Instruction.{SystemInstruction}
use sbpf.Base.Sets.{contains}
use sbpf.Runtime.System.{
  account_at, is_signer, move_lamports, transfer, run_instruction, process, check_accounts,
}
use sbpf.Runtime.System.Follows.{IsNamed}
use sbpf.Runtime.System.Laws.{process-Conserving, process-Local}
use sbpf.Runtime.System.Loss.{move_lamports-IsLossy}
use sbpf.Runtime.Validate.{check_privileges, check_account_change}
use sbpf.Runtime.Validate.Laws.{
  IsGranted, IsAllowed, check_privileges-IsGranted, check_account_change-IsAllowed,
}

abbrev account : ℕ → Account
account lamports = record {
  lamports = lamports;
  contents = [];
  owner = 0;
  executable = false;
  rent_epoch = 0;
}

-- Alice, Bob and Carol.
abbrev accounts : Accounts
accounts = (1, account 100) ∷ (2, account 50) ∷ (3, account 7) ∷ []

-- Alice pays Bob.
abbrev request : CpiRequest
request = record {
  program_id = 0;
  accounts =
      record { pubkey = 1; is_signer = true; is_writable = true }
      ∷ record { pubkey = 2; is_signer = false; is_writable = true }
      ∷ [];
  contents = 2 ∷ [];
  caller_accounts = [];
  signers = [];
}

-- Every instruction is a transfer of 30 lamports, and no address comes from a seed.
abbrev transfers : List ℕ → Option SystemInstruction
transfers bytes = some (SystemInstruction.transfer 30)

abbrev no_seeds : ℕ → String → ℕ → Option ℕ
no_seeds base seed owner = none

abbrev paid : Accounts
paid = (1, account 70) ∷ (2, account 80) ∷ (3, account 7) ∷ []

process_example : process 0 no_seeds transfers request [] 1000 accounts ≡ (paid, ok 150)
unfolding process run_instruction transfer move_lamports account_at is_signer contains
    check_accounts get_mut put pure fail lift ◌>>=◌
process_example = refl

process-Conserving_example :
    ((n : ℕ) → ◌≡◌ {A = Result RuntimeError ℕ} (ok 150) (ok n) → total paid ≡ total accounts)
    × (total paid ≤ total accounts)
process-Conserving_example =
    process-Conserving 0 no_seeds transfers request [] 1000 accounts paid (ok 150) process_example

abbrev key : Option CpiAccountMeta → ℕ
key (some meta) = meta.pubkey
key none = 0

carol_unnamed : IsNamed request 3 → ⊥
carol_unnamed (zero, meta, e, k) = omega (arith, ap key e, k)
carol_unnamed (suc zero, meta, e, k) = omega (arith, ap key e, k)
carol_unnamed (suc (suc i), meta, e, k) = omega (arith, ap key e, k)

process-Local_example :
    lookup 3 (process 0 no_seeds transfers request [] 1000 accounts).0 ≡ lookup 3 accounts
process-Local_example = process-Local 0 no_seeds transfers request [] 1000 accounts 3 carol_unnamed

move_lamports-IsLossy_example :
    (t : Accounts) × (move_lamports 1 9 30 accounts ≡ (t, err (RuntimeError.missing_account 9)))
    × (total t + 30 ≡ total accounts)
move_lamports-IsLossy_example =
    move_lamports-IsLossy 1 9 30 accounts (account 100) (omega arith) refl refl (omega arith) refl

abbrev caller : List AccountMeta
caller =
    record { pubkey = 1; is_signer = true; is_writable = true }
    ∷ record { pubkey = 2; is_signer = false; is_writable = true }
    ∷ []

check_privileges-IsGranted_example :
    (check_privileges request caller ≡ ok tt)
    ↔ All (IsGranted request.signers caller) request.accounts
check_privileges-IsGranted_example = check_privileges-IsGranted request caller

check_account_change-IsAllowed_example :
    (check_account_change 5 1 (account 100) 0 120 [] ≡ ok tt) ↔ IsAllowed 5 (account 100) 0 120 []
check_account_change-IsAllowed_example = check_account_change-IsAllowed 5 1 (account 100) 0 120 []
