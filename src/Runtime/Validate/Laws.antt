-- ===== src/Runtime/Validate/Laws.antt =====
-- What the validation of a cross-program invocation lets through.
use sbpf.Base.{ℕ, ◌≤◌, ◌≡◌, refl, subst, arith, true}
use sbpf.Base.{List, [], ◌∷◌, Option, some, none, ◌⊎◌, ◌↔◌, All}
use sbpf.Errors.{ok, >>=-eq-ok, err-ne-ok}
use sbpf.Runtime.Store.{Address, Account}
use sbpf.Runtime.Request.{AccountMeta, CpiAccountMeta, CpiRequest}
use sbpf.Base.Sets.{contains}
use sbpf.Runtime.Validate.{
  find_meta, check_meta, check_metas, check_privileges, same_bytes, check_account_change,
}

pub same_bytes_self : (xs : List ℕ) → same_bytes xs xs ≡ true
unfolding same_bytes
same_bytes_self [] = refl
same_bytes_self (x ∷ xs) = ground (arith, same_bytes_self xs)

pub same_bytes-≡ : (xs ys : List ℕ) → same_bytes xs ys ≡ true → xs ≡ ys
unfolding same_bytes
same_bytes-≡ [] [] h = refl
same_bytes-≡ [] (y ∷ ys) h = cc
same_bytes-≡ (x ∷ xs) [] h = cc
same_bytes-≡ (x ∷ xs) (y ∷ ys) h = ground (arith, same_bytes-≡ xs ys)

same_bytes-true : (xs ys : List ℕ) → xs ≡ ys → same_bytes xs ys ≡ true
same_bytes-true xs ys e = subst (λ zs. same_bytes xs zs ≡ true) e (same_bytes_self xs)

-- What the caller lends an account with: what it has itself, and the signatures of the addresses
-- that the callee signs for.
abbrev pub IsGranted : List Address → List AccountMeta → CpiAccountMeta → Type 0
IsGranted signers caller_account_metas meta =
    (cm : AccountMeta) × (find_meta meta.pubkey caller_account_metas ≡ some cm)
    × (meta.is_signer ≡ true → (cm.is_signer ≡ true) ⊎ (contains signers meta.pubkey ≡ true))
    × (meta.is_writable ≡ true → cm.is_writable ≡ true)

check_meta-IsGranted :
    (signers : List Address) (metas : List AccountMeta) (meta : CpiAccountMeta)
    (o : Option AccountMeta)
    → find_meta meta.pubkey metas ≡ o
    → check_meta signers meta o ≡ ok tt
    → IsGranted signers metas meta
unfolding check_meta
check_meta-IsGranted signers metas meta none e h = absurd (err-ne-ok h)
check_meta-IsGranted signers metas meta (some cm) e h = (cm, e, ground arith, ground arith)

check_meta-granted :
    (signers : List Address) (metas : List AccountMeta) (meta : CpiAccountMeta)
    → IsGranted signers metas meta
    → check_meta signers meta (find_meta meta.pubkey metas) ≡ ok tt
unfolding check_meta
check_meta-granted signers metas meta (cm, e, signs, writes) = rw e (ground (arith, signs, writes))

check_metas_iff :
    (signers : List Address) (metas : List AccountMeta) (accounts : List CpiAccountMeta)
    → (check_metas signers metas accounts ≡ ok tt) ↔ All (IsGranted signers metas) accounts
unfolding check_metas
check_metas_iff signers metas [] = (λ h. tt, λ h. refl)
check_metas_iff signers metas (meta ∷ rest) = (
  λ h.
      let (u, e, h1) = >>=-eq-ok (check_meta signers meta (find_meta meta.pubkey metas)) _ h in
      (
        check_meta-IsGranted signers metas meta (find_meta meta.pubkey metas) refl e,
        (check_metas_iff signers metas rest).0 h1,
      ),
  λ g. rw (check_meta-granted signers metas meta g.0) ((check_metas_iff signers metas rest).1 g.1),
)

-- The validation of a request succeeds exactly where no account of it asks for more than the caller
-- has: the caller lists the account, signs for it, or the program signs for it, where the request
-- says signer, and may write it where the request says writable.
pub check_privileges-IsGranted :
    (request : CpiRequest) (caller_account_metas : List AccountMeta)
    → (check_privileges request caller_account_metas ≡ ok tt)
      ↔ All (IsGranted request.signers caller_account_metas) request.accounts
unfolding check_privileges
check_privileges-IsGranted request metas = check_metas_iff request.signers metas request.accounts

-- The rules of ownership.
pub record IsAllowed (callee : Address) (account : Account) (new_owner : Address) (new_lamports : ℕ)
    (new_data : List ℕ) : Type 0 where
  pub owner_or_credit :
      (account.owner ≡ callee)
      ⊎ ((new_owner ≡ account.owner)
          × (account.lamports ≤ new_lamports)
          × (new_data ≡ account.contents))
  pub executable_kept : account.executable ≡ true → new_data ≡ account.contents

-- The change of an account passes exactly where the callee owns the account, or keeps its owner and
-- its data and takes no lamports from it, and where the data of an executable account stay.
pub check_account_change-IsAllowed :
    (callee pubkey : Address) (account : Account) (new_owner : Address) (new_lamports : ℕ)
    (new_data : List ℕ)
    → (check_account_change callee pubkey account new_owner new_lamports new_data ≡ ok tt)
      ↔ IsAllowed callee account new_owner new_lamports new_data
unfolding check_account_change
check_account_change-IsAllowed callee pubkey account new_owner new_lamports new_data = (
  λ h. record {
    owner_or_credit = ground (arith, same_bytes-≡ new_data account.contents);
    executable_kept = ground (arith, same_bytes-≡ new_data account.contents);
  },
  λ a.
      ground
        (arith, same_bytes-true new_data account.contents, a.owner_or_credit, a.executable_kept),
)
