-- ===== src/Runtime/Request.antt =====
-- crates/runtime/src/cpi/request.rs: what a cross-program invocation asks for.
use sbpf.Base.{ℕ, Bool, List}
use sbpf.Runtime.Store.{Address}

pub record CpiAccountMeta : Type 0 where
  pub pubkey : Address
  pub is_signer : Bool
  pub is_writable : Bool

-- Where an account of the caller lies in its memory.
pub record CallerAccountInfo : Type 0 where
  pub pubkey : Address
  pub lamports_addr : ℕ
  pub data_addr : ℕ
  pub data_len : ℕ
  pub owner_addr : ℕ
  pub vm_data_len_addr : ℕ
  pub is_writable : Bool

pub record CpiRequest : Type 0 where
  pub program_id : Address
  pub accounts : List CpiAccountMeta
  pub contents : List ℕ
  pub caller_accounts : List CallerAccountInfo
  pub signers : List Address

-- The fields of `solana_instruction::AccountMeta`, what the caller says of an account.
pub record AccountMeta : Type 0 where
  pub pubkey : Address
  pub is_signer : Bool
  pub is_writable : Bool
