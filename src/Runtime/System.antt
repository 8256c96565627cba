-- ===== src/Runtime/System.antt =====
-- crates/runtime/src/cpi/builtins/system.rs: the system program, which moves lamports and gives
-- accounts their space and owners.
pub mod Instruction
pub mod Follows
pub mod Laws
pub mod Loss
use sbpf.Base.{ℕ, zero, suc, ◌+◌, ◌-◌, ◌*◌, ◌^◌, ◌==◌, ltb, leb, if◌then◌else◌, not}
use sbpf.Base.{String, Bool, true, false, ◌||◌, ◌&&◌, List, [], ◌∷◌, length, get_elem?, replicate}
use sbpf.Base.{Option, some, none}
use sbpf.Base.Sets.{contains}
use sbpf.Errors.{Result, ok, err, panic}
use sbpf.Runtime.Stateful.{◌>>=◌, ◌>>◌, pure, fail, lift}
use sbpf.Runtime.Store.{Address, Account, Accounts, RuntimeError, Action, get_mut, put, lookup}
use sbpf.Runtime.Request.{CpiAccountMeta, CpiRequest}
use sbpf.Runtime.System.Instruction.{SystemInstruction}

abbrev pub system_program_compute_units : ℕ
system_program_compute_units = 150

abbrev pub max_permitted_data_length : ℕ
max_permitted_data_length = 10 * 1024 * 1024

abbrev pub is_empty : List ℕ → Bool
is_empty [] = true
is_empty (b ∷ bytes) = false

abbrev builtin_error {ℓ} : {A : Type ℓ} → String → Result RuntimeError A
builtin_error text = err (RuntimeError.builtin_error text)

unfoldable pub check_accounts : CpiRequest → ℕ → Action (Unit {0})
check_accounts instruction required =
    if ltb (length instruction.accounts) required
    then fail (RuntimeError.builtin_error "not enough account keys")
    else pure tt

-- `instruction.accounts[i]`.
abbrev pub indexed : Option CpiAccountMeta → Result RuntimeError CpiAccountMeta
indexed (some meta) = ok meta
indexed none = panic

unfoldable pub account_at : CpiRequest → ℕ → Action CpiAccountMeta
account_at instruction i = lift (indexed (get_elem? instruction.accounts i))

unfoldable pub is_signer : Address → CpiAccountMeta → List Address → Bool
unfolding contains
is_signer pubkey meta derived_signers = meta.is_signer || contains derived_signers pubkey

-- The two ends of a transfer, after its signature is checked.
unfoldable pub move_lamports : Address → Address → ℕ → Action (Unit {0})
move_lamports from_key to_key lamports = do
  from_account ← get_mut from_key
  if not (is_empty from_account.contents)
      then fail (RuntimeError.builtin_error "transfer: from account carries data")
      else if ltb from_account.lamports lamports
      then fail (RuntimeError.builtin_error "insufficient funds")
      else (do
        put from_key (record from_account { lamports = from_account.lamports - lamports })
        to_account ← get_mut to_key
        if leb (2 ^ 64) (to_account.lamports + lamports)
            then fail (RuntimeError.builtin_error "arithmetic overflow")
            else put to_key (record to_account { lamports = to_account.lamports + lamports }))

unfoldable pub transfer : CpiRequest → List Address → ℕ → Action (Unit {0})
transfer instruction signers lamports = do
  sender ← account_at instruction 0
  recipient ← account_at instruction 1
  if not (is_signer sender.pubkey sender signers)
      then fail (RuntimeError.builtin_error "missing required signature for transfer")
      else move_lamports sender.pubkey recipient.pubkey lamports

unfoldable pub assign_inner : Address → Address → List Address → Address → Action (Unit {0})
assign_inner account_key owner signers signer_key = do
  account ← get_mut account_key
  if account.owner == owner
      then pure tt
      else if not (contains signers signer_key)
      then fail (RuntimeError.builtin_error "missing required signature for assign")
      else put account_key (record account { owner = owner })

unfoldable pub assign : CpiRequest → List Address → Address → ℕ → Action (Unit {0})
assign instruction signers owner idx = do
  meta ← account_at instruction idx
  assign_inner meta.pubkey owner signers meta.pubkey

-- `system_id` is the address of the system program.
module _ (system_id : Address) where
  unfoldable pub allocate_inner : Address → ℕ → List Address → Address → Action (Unit {0})
  allocate_inner account_key space signers signer_key =
      if not (contains signers signer_key)
      then fail (RuntimeError.builtin_error "missing required signature for allocate")
      else if ltb max_permitted_data_length space
      then fail (RuntimeError.builtin_error "invalid account data: exceeds max length")
      else (do
        account ← get_mut account_key
        if not (is_empty account.contents) || not (account.owner == system_id)
            then fail (RuntimeError.builtin_error "account already in use")
            else put account_key (record account { contents = replicate space 0 }))

  unfoldable pub allocate : CpiRequest → List Address → ℕ → ℕ → Action (Unit {0})
  allocate instruction signers space idx = do
    meta ← account_at instruction idx
    allocate_inner meta.pubkey space signers meta.pubkey

  -- The account is there and has lamports.
  abbrev pub in_use : Option Account → Bool
  in_use (some a) = ltb 0 a.lamports
  in_use none = false

  unfoldable pub refuse_in_use : Address → Action (Unit {0})
  refuse_in_use k accounts =
      if in_use (lookup k accounts)
      then (accounts, err (RuntimeError.builtin_error "account already in use"))
      else (accounts, ok tt)

  unfoldable pub create_account : CpiRequest → List Address → ℕ → ℕ → Address → Action (Unit {0})
  create_account instruction signers lamports space owner = do
    fresh ← account_at instruction 1
    refuse_in_use fresh.pubkey
    allocate instruction signers space 1
    assign instruction signers owner 1
    transfer instruction signers lamports

  -- `Address::create_with_seed`, whose error is `none`.
  module _ (create_with_seed : Address → String → Address → Option Address) where
    abbrev verified : Address → Option Address → Result RuntimeError (Unit {0})
    verified address (some expected) =
        if address == expected
        then ok tt
        else err (RuntimeError.builtin_error "address with seed mismatch")
    verified address none = err (RuntimeError.builtin_error "invalid seeds")

    unfoldable pub verify_address_with_seed :
        Address → Address → String → Address → Action (Unit {0})
    verify_address_with_seed address base seed owner =
        lift (verified address (create_with_seed base seed owner))

    unfoldable pub create_account_with_seed :
        CpiRequest → List Address → Address → String → ℕ → ℕ → Address → Action (Unit {0})
    create_account_with_seed instruction signers base seed lamports space owner = do
      fresh ← account_at instruction 1
      verify_address_with_seed fresh.pubkey base seed owner
      refuse_in_use fresh.pubkey
      allocate_inner fresh.pubkey space signers base
      assign_inner fresh.pubkey owner signers base
      transfer instruction signers lamports

    unfoldable pub transfer_with_seed :
        CpiRequest → List Address → ℕ → String → Address → Action (Unit {0})
    transfer_with_seed instruction signers lamports from_seed from_owner = do
      sender ← account_at instruction 0
      base ← account_at instruction 1
      recipient ← account_at instruction 2
      if not (is_signer base.pubkey base signers)
          then fail (RuntimeError.builtin_error "missing required signature for transfer_with_seed")
          else (do
            verify_address_with_seed sender.pubkey base.pubkey from_seed from_owner
            move_lamports sender.pubkey recipient.pubkey lamports)

    unfoldable pub assign_with_seed :
        CpiRequest → List Address → Address → String → Address → Action (Unit {0})
    assign_with_seed instruction signers base seed owner = do
      meta ← account_at instruction 0
      verify_address_with_seed meta.pubkey base seed owner
      assign_inner meta.pubkey owner signers base

    unfoldable pub allocate_with_seed :
        CpiRequest → List Address → Address → String → ℕ → Address → Action (Unit {0})
    allocate_with_seed instruction signers base seed space owner = do
      meta ← account_at instruction 0
      verify_address_with_seed meta.pubkey base seed owner
      allocate_inner meta.pubkey space signers base
      assign_inner meta.pubkey owner signers base

    -- The arms of the `match` on the instruction.
    unfoldable pub run_instruction :
        CpiRequest → List Address → SystemInstruction → Action (Unit {0})
    run_instruction instruction signers (SystemInstruction.create_account lamports space owner) = do
      check_accounts instruction 2
      create_account instruction signers lamports space owner
    run_instruction instruction signers (SystemInstruction.transfer lamports) = do
      check_accounts instruction 2
      transfer instruction signers lamports
    run_instruction instruction signers (SystemInstruction.assign owner) = do
      check_accounts instruction 1
      assign instruction signers owner 0
    run_instruction instruction signers (SystemInstruction.allocate space) = do
      check_accounts instruction 1
      allocate instruction signers space 0
    run_instruction instruction signers
          (SystemInstruction.create_account_with_seed base seed lamports space owner) =
        do
          check_accounts instruction 2
          create_account_with_seed instruction signers base seed lamports space owner
    run_instruction instruction signers
          (SystemInstruction.transfer_with_seed lamports from_seed from_owner) =
        do
          check_accounts instruction 3
          transfer_with_seed instruction signers lamports from_seed from_owner
    run_instruction instruction signers (SystemInstruction.assign_with_seed base seed owner) = do
      check_accounts instruction 1
      assign_with_seed instruction signers base seed owner
    run_instruction instruction signers
          (SystemInstruction.allocate_with_seed base seed space owner) =
        do
          check_accounts instruction 1
          allocate_with_seed instruction signers base seed space owner
    run_instruction instruction signers SystemInstruction.nonce = pure tt
    run_instruction instruction signers SystemInstruction.other =
        fail (RuntimeError.builtin_error "unsupported system instruction")

    -- `wincode::deserialize` of the instruction's bytes.
    module _ (deserialize : List ℕ → Option SystemInstruction) where
      abbrev decoded : Option SystemInstruction → Result RuntimeError SystemInstruction
      decoded (some ix) = ok ix
      decoded none = err (RuntimeError.builtin_error "invalid system instruction data")

      unfoldable pub process : CpiRequest → List Address → ℕ → Action ℕ
      process instruction signers compute_remaining =
          if ltb compute_remaining system_program_compute_units
          then fail (RuntimeError.builtin_error "insufficient compute units")
          else (do
            ix ← lift (decoded (deserialize instruction.contents))
            run_instruction instruction signers ix
            pure system_program_compute_units)
