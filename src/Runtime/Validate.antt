-- ===== src/Runtime/Validate.antt =====
-- crates/runtime/src/cpi/validate.rs: what a callee may ask for, and what it may change.
pub mod Laws
use sbpf.Base.{ℕ, Bool, true, false, not, ◌&&◌, ltb, ◌==◌, if◌then◌else◌}
use sbpf.Base.{List, [], ◌∷◌, Option, some, none}
use sbpf.Errors.{Result, ok, err, ◌>>=◌}
use sbpf.Runtime.Store.{Address, Account, RuntimeError}
use sbpf.Runtime.Request.{AccountMeta, CpiAccountMeta, CpiRequest}
use sbpf.Base.Sets.{contains}

-- `iter().find(|m| m.pubkey == key)`.
unfoldable pub find_meta : Address → List AccountMeta → Option AccountMeta
find_meta k [] = none
find_meta k (meta ∷ metas) = if meta.pubkey == k then some meta else find_meta k metas

-- One round of the loop, at the caller's meta of the account.
unfoldable pub check_meta :
    List Address → CpiAccountMeta → Option AccountMeta → Result RuntimeError (Unit {0})
check_meta signers cpi_meta none = err (RuntimeError.missing_account cpi_meta.pubkey)
check_meta signers cpi_meta (some cm) =
    if cpi_meta.is_signer && not cm.is_signer && not (contains signers cpi_meta.pubkey)
    then err (RuntimeError.privilege_escalation "signer" cpi_meta.pubkey)
    else if cpi_meta.is_writable && not cm.is_writable
    then err (RuntimeError.privilege_escalation "writable" cpi_meta.pubkey)
    else ok tt

unfoldable pub check_metas :
    List Address → List AccountMeta → List CpiAccountMeta → Result RuntimeError (Unit {0})
unfolding check_meta find_meta
check_metas signers caller_account_metas [] = ok tt
check_metas signers caller_account_metas (cpi_meta ∷ rest) = do
  _ ← check_meta signers cpi_meta (find_meta cpi_meta.pubkey caller_account_metas)
  check_metas signers caller_account_metas rest

unfoldable pub check_privileges : CpiRequest → List AccountMeta → Result RuntimeError (Unit {0})
unfolding check_metas
check_privileges request caller_account_metas =
    check_metas request.signers caller_account_metas request.accounts

-- `==` of two slices of bytes.
unfoldable pub same_bytes : List ℕ → List ℕ → Bool
same_bytes [] [] = true
same_bytes [] (y ∷ ys) = false
same_bytes (x ∷ xs) [] = false
same_bytes (x ∷ xs) (y ∷ ys) = x == y && same_bytes xs ys

unfoldable pub check_account_change :
    Address → Address → Account → Address → ℕ → List ℕ → Result RuntimeError (Unit {0})
unfolding same_bytes
check_account_change callee_program_id pubkey account new_owner new_lamports new_data =
    let is_owner = account.owner == callee_program_id in
    if not (new_owner == account.owner) && not is_owner
    then err (RuntimeError.privilege_escalation "non-owner changed owner" pubkey)
    else if ltb new_lamports account.lamports && not is_owner
    then err (RuntimeError.external_account_lamport_spend pubkey)
    else if not (same_bytes new_data account.contents) && not is_owner
    then err (RuntimeError.privilege_escalation "non-owner modified data" pubkey)
    else if account.executable && not (same_bytes new_data account.contents)
    then err (RuntimeError.privilege_escalation "executable account modified" pubkey)
    else ok tt
