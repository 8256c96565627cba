-- ===== src/Runtime/Store/Laws.antt =====
-- Replacing one account.
use sbpf.Base.{◌+◌, ◌≡◌, ◌≢◌, refl, arith, [], ◌∷◌, some}
use sbpf.Runtime.Store.{Address, Account, Accounts, lookup, replace, total}

pub lookup-replace_self :
    (k : Address) (b : Account) (s : Accounts) {a : Account}
    → lookup k s ≡ some a
    → lookup k (replace k b s) ≡ some b
lookup-replace_self k b [] {a} h = cc
lookup-replace_self k b ((j, c) ∷ s) {a} h = ground (arith, lookup-replace_self k b s {a = a})

pub lookup-replace_ne :
    (j k : Address) (b : Account) (s : Accounts) → j ≢ k → lookup j (replace k b s) ≡ lookup j s
lookup-replace_ne j k b [] h = refl
lookup-replace_ne j k b ((i, c) ∷ s) h = ground (arith, lookup-replace_ne j k b s h)

pub total-replace :
    (k : Address) (b : Account) (s : Accounts) {a : Account}
    → lookup k s ≡ some a
    → total (replace k b s) + a.lamports ≡ total s + b.lamports
unfolding total
total-replace k b [] {a} h = cc
total-replace k b ((j, c) ∷ s) {a} h = ground (arith, total-replace k b s {a = a})
