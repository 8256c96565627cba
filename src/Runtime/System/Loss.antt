-- ===== src/Runtime/System/Loss.antt =====
-- A transfer that fails after its sender was debited.
use sbpf.Base.{ℕ, ◌+◌, ◌-◌, ◌≤◌, ◌≡◌, ◌≢◌, refl, ◌∙◌, arith, [], true, some, none}
use sbpf.Base.{le→ltb-false}
use sbpf.Errors.{err}
use sbpf.Runtime.Stateful.{◌>>=◌, fail}
use sbpf.Runtime.Store.{
  Address, Account, Accounts, RuntimeError, get_mut, put, lookup, replace, total,
}
use sbpf.Runtime.Store.Laws.{lookup-replace_ne, total-replace}
use sbpf.Runtime.System.{move_lamports, is_empty}

-- Where the sender has the lamports and no data, and the recipient has no account, a transfer fails,
-- and leaves accounts that have fewer lamports by the amount.
pub move_lamports-IsLossy :
    (j k : Address) (n : ℕ) (s : Accounts) (a : Account)
    → j ≢ k
    → lookup j s ≡ some a
    → a.contents ≡ []
    → n ≤ a.lamports
    → lookup k s ≡ none
    → (t : Accounts) × (move_lamports j k n s ≡ (t, err (RuntimeError.missing_account k)))
      × (total t + n ≡ total s)
unfolding move_lamports get_mut put fail ◌>>=◌
move_lamports-IsLossy j k n s a ne here empty funds missing =
    let b : Account = record a { lamports = a.lamports - n } in
    let gone : lookup k (replace j b s) ≡ none =
      lookup-replace_ne k j b s (λ e. ne (cc)) ∙ missing in
    let bare : is_empty a.contents ≡ true = rw empty refl in
    (
      replace j b s,
      rw (here, bare, le→ltb-false _ _ funds) (rw gone refl),
      omega (arith, total-replace j b s here),
    )
