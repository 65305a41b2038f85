-- ===== src/Registry/World.antt =====
-- The state that the handlers read and write, and the checks that they share:
-- programs/agent-registry-8004/src/core_asset.rs and the account constraints that recur in
-- identity/contexts.rs and reputation/contexts.rs.
use solana.Prelude.{
  ℕ, ◌+◌, ◌^◌, Option, none, some, List, [], ◌∷◌, ◌++◌, Bytes, ascii, Pubkey, key_bytes, ◌==◌, ltb,
  if◌then◌else◌,
}
use solana.Registry.Error.{
  Result, ok, require, constraint, ok_or, ◌>>=◌, ◌>>◌, registry, invalid_asset, unauthorized,
  account_not_signer, account_not_initialized, constraint_seeds,
}
use solana.Registry.State.{AgentAccount, MetadataEntryPda, RootConfig, RegistryConfig, Event}
use solana.Registry.Accounts.{Accounts, lookup, insert}
use solana.Registry.Runtime.{Runtime, Tx}

-- The accounts of the registry by address, those of the other programs, and the events emitted so
-- far, the latest first.
pub record World (Ext : Type 0) : Type 0 where
  pub root_configs : Accounts RootConfig
  pub registry_configs : Accounts RegistryConfig
  pub agents : Accounts AgentAccount
  pub metadata : Accounts MetadataEntryPda
  pub ext : Ext
  pub log : List Event

-- `n.checked_add(1)` on u64
unfoldable pub checked_suc_u64 : ℕ → Option ℕ
checked_suc_u64 n = if ltb (n + 1) (2 ^ 64) then some (n + 1) else none

-- The instruction writes one agent account and emits events, the latest first.
abbrev pub put_agent : {Ext : Type 0} → Pubkey → AgentAccount → List Event → World Ext → World Ext
put_agent key agent events w = record w {
  agents = insert key agent w.agents;
  log = events ++ w.log;
}

-- The seeds `[b"agent", asset.key()]`
abbrev pub agent_seeds : Pubkey → List Bytes
agent_seeds asset = ascii "agent" ∷ key_bytes asset ∷ []

-- The seeds `[b"agent_meta", asset.key(), key_hash]`
abbrev pub metadata_seeds : Pubkey → Bytes → List Bytes
metadata_seeds asset key_hash = ascii "agent_meta" ∷ key_bytes asset ∷ key_hash ∷ []

-- The seeds `[b"registry_config", collection.key()]`
abbrev pub registry_seeds : Pubkey → List Bytes
registry_seeds collection = ascii "registry_config" ∷ key_bytes collection ∷ []

abbrev pub root_seeds : List Bytes
root_seeds = ascii "root_config" ∷ []

-- `get_core_owner`
unfoldable pub get_core_owner : (rt : Runtime) → rt.Ext → Pubkey → Result Pubkey
get_core_owner rt ext asset = do
  require (rt.account_program ext asset == rt.mpl_core_id) invalid_asset
  ok_or (rt.parse_asset_owner ext asset) (registry invalid_asset)

-- `verify_core_owner`
unfoldable pub verify_core_owner : (rt : Runtime) → rt.Ext → Pubkey → Pubkey → Result (Unit {0})
verify_core_owner rt ext asset expected_owner = do
  actual_owner ← get_core_owner rt ext asset
  require (actual_owner == expected_owner) unauthorized

-- `Signer<'info>`
abbrev pub signer : Tx → Pubkey → Result (Unit {0})
signer tx key = constraint (tx.signers key) account_not_signer

-- `Account<'info, T>` without `init`: the account is there.
abbrev pub load {ℓ} : {V : Type ℓ} → Pubkey → Accounts V → Result V
load key m = ok_or (lookup key m) account_not_initialized

-- `seeds = …, bump = stored`: the address made from the seeds and the stored bump.
unfoldable pub seeds_with_bump : (rt : Runtime) → List Bytes → ℕ → Pubkey → Result (Unit {0})
seeds_with_bump rt seeds bump key = do
  k ← ok_or (rt.create_program_address (seeds ++ (bump ∷ []) ∷ []) rt.program_id) constraint_seeds
  constraint (k == key) constraint_seeds

-- `seeds = …, bump`: the canonical address of the seeds; the result is its bump.
unfoldable pub seeds_canonical : (rt : Runtime) → List Bytes → Pubkey → Result ℕ
seeds_canonical rt seeds key = do
  let (k, bump) = rt.find_program_address seeds rt.program_id
  constraint (k == key) constraint_seeds
  ok bump

-- The constraints on `agent_account` and `asset`, once the account is loaded.
unfoldable pub check_agent : (rt : Runtime) → Pubkey → Pubkey → AgentAccount → Result (Unit {0})
check_agent rt key asset agent = do
  seeds_with_bump rt (agent_seeds asset) agent.bump key
  require (asset == agent.asset) invalid_asset
