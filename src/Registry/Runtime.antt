-- ===== src/Registry/Runtime.antt =====
-- What the program calls and does not implement: hashes, program addresses, the accounts of other
-- programs (Metaplex Core, the ATOM engine, the loader) and the calls into them; and what a
-- transaction brings.
use solana.Prelude.{ℕ, ◌+◌, ◌%◌, ◌^◌, ◌-◌, Bool, Option, List, Bytes, Pubkey, ltb, if◌then◌else◌}
use solana.Prelude.Int.{ℤ, pos, negsuc, twos}
use solana.Registry.State.{UpdateResult, RevokeResult}

-- The arguments of `CreateCollectionV2CpiBuilder`.
pub record CreateCollection : Type 0 where
  pub collection : Pubkey
  pub payer : Pubkey
  pub update_authority : Pubkey
  pub name : Bytes
  pub uri : Bytes

-- The arguments of `CreateV2CpiBuilder`.
pub record CreateAsset : Type 0 where
  pub asset : Pubkey
  pub collection : Pubkey
  pub payer : Pubkey
  pub owner : Pubkey
  pub authority : Pubkey
  pub name : Bytes
  pub uri : Bytes

-- The arguments of `UpdateV1CpiBuilder`.
pub record UpdateAsset : Type 0 where
  pub asset : Pubkey
  pub collection : Pubkey
  pub payer : Pubkey
  pub authority : Pubkey
  pub new_uri : Bytes

-- The arguments of `TransferV1CpiBuilder`.
pub record TransferAsset : Type 0 where
  pub asset : Pubkey
  pub collection : Pubkey
  pub payer : Pubkey
  pub authority : Pubkey
  pub new_owner : Pubkey

-- The accounts of `atom_engine::cpi::update_stats`.
pub record UpdateStats : Type 0 where
  pub payer : Pubkey
  pub asset : Pubkey
  pub collection : Pubkey
  pub config : Pubkey
  pub stats : Pubkey
  pub registry_authority : Pubkey

-- The accounts of `atom_engine::cpi::revoke_stats`.
pub record RevokeStats : Type 0 where
  pub payer : Pubkey
  pub asset : Pubkey
  pub config : Pubkey
  pub stats : Pubkey
  pub registry_authority : Pubkey

-- `Ext` is the state of all accounts that other programs own. A call into such a program gives the
-- new state, or `none` where it fails.
pub record Runtime : Type 1 where
  pub keccak : Bytes → Bytes
  pub sha256 : Bytes → Bytes
  pub find_program_address : List Bytes → Pubkey → Pubkey × ℕ
  pub create_program_address : List Bytes → Pubkey → Option Pubkey
  pub program_id : Pubkey
  pub mpl_core_id : Pubkey
  pub atom_engine_id : Pubkey
  pub ed25519_program_id : Pubkey
  pub bpf_loader_upgradeable_id : Pubkey
  pub Ext : Type 0
  pub account_program : Ext → Pubkey → Pubkey
  pub data_len : Ext → Pubkey → ℕ
  -- `BaseAssetV1::from_bytes` of the account's data, its owner
  pub parse_asset_owner : Ext → Pubkey → Option Pubkey
  -- the upgrade authority in a program-data account, where it can be read
  pub upgrade_authority : Ext → Pubkey → Option (Option Pubkey)
  pub create_collection : CreateCollection → Ext → Option Ext
  pub create_asset : CreateAsset → Ext → Option Ext
  pub update_asset : UpdateAsset → Ext → Option Ext
  pub transfer_asset : TransferAsset → Ext → Option Ext
  pub update_stats : UpdateStats → Bytes → ℕ → Ext → Option (Ext × UpdateResult)
  pub revoke_stats : RevokeStats → Pubkey → Ext → Option (Ext × RevokeResult)

-- An instruction of the transaction, as the instructions sysvar shows it.
pub record Instruction : Type 0 where
  pub program_id : Pubkey
  pub data_bytes : Bytes

-- The transaction: who has signed, the clock, and the instructions with the current index, `none`
-- where the sysvar cannot be read.
pub record Tx : Type 0 where
  pub signers : Pubkey → Bool
  pub slot : ℕ
  pub unix_timestamp : ℤ
  pub instructions : List Instruction
  pub current_index : Option ℕ

-- `a + b` on i64, which wraps: the release profile has no overflow checks.
unfoldable pub add_i64 : ℤ → ℤ → ℤ
add_i64 a b =
    let n = (twos (2 ^ 64) a + twos (2 ^ 64) b) % 2 ^ 64 in
    if ltb n (2 ^ 63) then pos n else negsuc (2 ^ 64 - n - 1)
