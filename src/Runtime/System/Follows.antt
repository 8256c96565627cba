-- ===== src/Runtime/System/Follows.antt =====
-- The system program has any effect that its three changes of the accounts have.
use sbpf.Base.{ℕ, ◌≡◌, refl, String, List, get_elem?, Option, some, none, if-intro}
use sbpf.Errors.{ok}
use sbpf.Runtime.Stateful.{◌>>=◌}
use sbpf.Runtime.Store.{Address, Accounts, Action, lookup}
use sbpf.Runtime.Effect.{
  Effect, Follows, Ends, Follows-bind, Follows-lift, Follows-pure, Follows-fail, Follows-if,
  Follows-lifted,
}
use sbpf.Runtime.Request.{CpiAccountMeta, CpiRequest}
use sbpf.Runtime.System.Instruction.{SystemInstruction}
use sbpf.Runtime.System.{
  check_accounts, account_at, move_lamports, transfer, assign_inner, assign, allocate_inner,
  allocate, refuse_in_use, create_account, verify_address_with_seed, create_account_with_seed,
  transfer_with_seed, assign_with_seed, allocate_with_seed, run_instruction, process, in_use,
  indexed,
}

-- An address that the instruction names.
abbrev pub IsNamed : CpiRequest → Address → Type 0
IsNamed instruction k =
    (i : ℕ) × (meta : CpiAccountMeta) × (get_elem? instruction.accounts i ≡ some meta)
    × (meta.pubkey ≡ k)

indexed-some :
    (o : Option CpiAccountMeta) (meta : CpiAccountMeta) → indexed o ≡ ok meta → o ≡ some meta
indexed-some (some m) meta h = cc
indexed-some none meta h = cc

module _ (F : Effect Accounts) (instruction : CpiRequest) (system_id : Address) where
  Follows-account_at :
      {A : Type 0} (i : ℕ) (f : CpiAccountMeta → Action A)
      → ((meta : CpiAccountMeta) → IsNamed instruction meta.pubkey → Follows F (f meta))
      → Follows F (account_at instruction i >>= f)
  unfolding account_at
  Follows-account_at i f h =
      Follows-lifted F (indexed (get_elem? instruction.accounts i)) f
        λ meta e. h meta (i, meta, indexed-some (get_elem? instruction.accounts i) meta e, refl)

  check_accounts-Follows : (required : ℕ) → Follows F (check_accounts instruction required)
  unfolding check_accounts
  check_accounts-Follows required = Follows-if F _ (Follows-fail F _) (Follows-pure F tt)

  refuse_in_use-Follows : (k : Address) → Follows F (refuse_in_use system_id k)
  unfolding refuse_in_use
  refuse_in_use-Follows k = record {
    ends = λ s.
        if-intro (Ends F s) (in_use system_id (lookup k s)) (F.weaken s s (F.same s)) (F.same s);
  }

  -- The three changes have the effect, on addresses that the instruction names.
  module _
      (move : (j k : Address) (n : ℕ)
        → IsNamed instruction j
        → IsNamed instruction k
        → Follows F (move_lamports j k n))
      (assigned : (k owner : Address) (signers : List Address) (key : Address)
        → IsNamed instruction k
        → Follows F (assign_inner k owner signers key))
      (allocated : (k : Address) (space : ℕ) (signers : List Address) (key : Address)
        → IsNamed instruction k
        → Follows F (allocate_inner system_id k space signers key)) where
    transfer-Follows : (signers : List Address) (n : ℕ) → Follows F (transfer instruction signers n)
    unfolding transfer
    transfer-Follows signers n = Follows-account_at 0 _ λ sender a.
        Follows-account_at 1 _ λ recipient b. Follows-if F _ (Follows-fail F _) (move _ _ n a b)

    assign-Follows :
        (signers : List Address) (owner : Address) (i : ℕ)
        → Follows F (assign instruction signers owner i)
    unfolding assign
    assign-Follows signers owner i = Follows-account_at i _ λ meta a. assigned _ owner signers _ a

    allocate-Follows :
        (signers : List Address) (space i : ℕ)
        → Follows F (allocate system_id instruction signers space i)
    unfolding allocate
    allocate-Follows signers space i =
        Follows-account_at i _ λ meta a. allocated _ space signers _ a

    create_account-Follows :
        (signers : List Address) (lamports space : ℕ) (owner : Address)
        → Follows F (create_account system_id instruction signers lamports space owner)
    unfolding create_account
    create_account-Follows signers lamports space owner = Follows-account_at 1 _ λ fresh a.
        Follows-bind F (refuse_in_use-Follows fresh.pubkey) λ _.
          Follows-bind F (allocate-Follows signers space 1) λ _.
            Follows-bind F (assign-Follows signers owner 1) λ _. transfer-Follows signers lamports

    module _ (create_with_seed : Address → String → Address → Option Address) where
      verify_address_with_seed-Follows :
          (address base : Address) (seed : String) (owner : Address)
          → Follows F (verify_address_with_seed system_id create_with_seed address base seed owner)
      unfolding verify_address_with_seed
      verify_address_with_seed-Follows address base seed owner = Follows-lift F _

      run_instruction-Follows :
          (signers : List Address) (ix : SystemInstruction)
          → Follows F (run_instruction system_id create_with_seed instruction signers ix)
      unfolding run_instruction create_account_with_seed transfer_with_seed assign_with_seed
          allocate_with_seed
      run_instruction-Follows signers (SystemInstruction.create_account lamports space owner) =
          Follows-bind F (check_accounts-Follows 2)
            λ _. create_account-Follows signers lamports space owner
      run_instruction-Follows signers (SystemInstruction.transfer lamports) =
          Follows-bind F (check_accounts-Follows 2) λ _. transfer-Follows signers lamports
      run_instruction-Follows signers (SystemInstruction.assign owner) =
          Follows-bind F (check_accounts-Follows 1) λ _. assign-Follows signers owner 0
      run_instruction-Follows signers (SystemInstruction.allocate space) =
          Follows-bind F (check_accounts-Follows 1) λ _. allocate-Follows signers space 0
      run_instruction-Follows signers
            (SystemInstruction.create_account_with_seed base seed lamports space owner) =
          Follows-bind F (check_accounts-Follows 2) λ _. Follows-account_at 1 _ λ fresh a.
            Follows-bind F (verify_address_with_seed-Follows fresh.pubkey base seed owner) λ _.
              Follows-bind F (refuse_in_use-Follows fresh.pubkey) λ _.
                Follows-bind F (allocated _ space signers base a) λ _.
                  Follows-bind F (assigned _ owner signers base a)
                    λ _. transfer-Follows signers lamports
      run_instruction-Follows signers
            (SystemInstruction.transfer_with_seed lamports from_seed from_owner) =
          Follows-bind F (check_accounts-Follows 3) λ _. Follows-account_at 0 _ λ sender a.
            Follows-account_at 1 _ λ base b. Follows-account_at 2 _ λ recipient c.
              Follows-if F _ (Follows-fail F _) (
                Follows-bind F
                  (verify_address_with_seed-Follows sender.pubkey base.pubkey from_seed from_owner)
                  λ _. move _ _ lamports a c)
      run_instruction-Follows signers (SystemInstruction.assign_with_seed base seed owner) =
          Follows-bind F (check_accounts-Follows 1) λ _. Follows-account_at 0 _ λ meta a.
            Follows-bind F (verify_address_with_seed-Follows meta.pubkey base seed owner)
              λ _. assigned _ owner signers base a
      run_instruction-Follows signers (SystemInstruction.allocate_with_seed base seed space owner) =
          Follows-bind F (check_accounts-Follows 1) λ _. Follows-account_at 0 _ λ meta a.
            Follows-bind F (verify_address_with_seed-Follows meta.pubkey base seed owner) λ _.
              Follows-bind F (allocated _ space signers base a) λ _. assigned _ owner signers base a
      run_instruction-Follows signers SystemInstruction.nonce = Follows-pure F tt
      run_instruction-Follows signers SystemInstruction.other = Follows-fail F _

      pub process-Follows :
          (deserialize : List ℕ → Option SystemInstruction) (signers : List Address)
          (compute_remaining : ℕ)
          → Follows F
              (process system_id create_with_seed deserialize instruction signers compute_remaining)
      unfolding process
      process-Follows deserialize signers compute_remaining = Follows-if F _ (Follows-fail F _) (
          Follows-bind F (Follows-lift F _)
            λ ix. Follows-bind F (run_instruction-Follows signers ix) λ _. Follows-pure F _)
