-- ===== src/Registry/Identity/Metadata.antt =====
-- The metadata entries, each an account of its own: handlers of
-- programs/agent-registry-8004/src/identity/instructions.rs.
use solana.Prelude.{
  ℕ, Bool, false, not, Option, none, some, [], ◌∷◌, Bytes, ascii, length, take, leb, ◌==◌, bytes_eq,
  default_key, if◌then◌else◌,
}
use solana.Registry.Error.{
  Result, ok, require, ◌>>=◌, ◌>>◌, reserved_metadata_key, key_hash_mismatch, key_too_long,
  value_too_long, key_hash_collision, metadata_immutable,
}
use solana.Registry.State.{
  MetadataEntryPda, metadata_set, metadata_deleted, max_key_length, max_value_length,
}
use solana.Registry.Accounts.{lookup, insert, erase}
use solana.Registry.Runtime.{Runtime, Tx}
use solana.Registry.World.{
  World, verify_core_owner, signer, load, seeds_with_bump, seeds_canonical, check_agent,
  metadata_seeds,
}
use solana.Registry.Identity.{MetadataAccounts}

-- What `init_if_needed` finds at the address: the entry, or one whose bytes are all zero.
unfoldable pub entry_or_empty : Option MetadataEntryPda → MetadataEntryPda
entry_or_empty (some entry) = entry
entry_or_empty none = record {
  asset = default_key;
  immutable = false;
  bump = 0;
  metadata_key = [];
  metadata_value = [];
}

-- `key_hash` of a key: the first 16 bytes of its SHA-256.
abbrev pub key_hash_of : Runtime → Bytes → Bytes
key_hash_of rt key = take 16 (rt.sha256 key)

-- The checks of an entry that is there already.
unfoldable pub check_existing : MetadataEntryPda → Bytes → Result (Unit {0})
check_existing entry key = do
  require (bytes_eq entry.metadata_key key) key_hash_collision
  require (not entry.immutable) metadata_immutable

module _ (rt : Runtime) (tx : Tx) where
  -- The checks of `SetMetadataPda`; the canonical bump of the entry.
  unfoldable pub load_metadata : MetadataAccounts → Bytes → World rt.Ext → Result ℕ
  load_metadata a key_hash w = do
    agent ← load a.agent_account w.agents
    signer tx a.owner
    bump ← seeds_canonical rt (metadata_seeds a.asset key_hash) a.metadata_entry
    check_agent rt a.agent_account a.asset agent
    ok bump

  unfoldable pub set_metadata_pda :
      MetadataAccounts → Bytes → Bytes → Bytes → Bool → World rt.Ext → Result (World rt.Ext)
  set_metadata_pda a key_hash key value immutable w = do
    bump ← load_metadata a key_hash w
    require (not (bytes_eq key (ascii "agentWallet"))) reserved_metadata_key
    require (bytes_eq key_hash (key_hash_of rt key)) key_hash_mismatch
    verify_core_owner rt w.ext a.asset a.owner
    require (leb (length key) max_key_length) key_too_long
    require (leb (length value) max_value_length) value_too_long
    let entry = entry_or_empty (lookup a.metadata_entry w.metadata)
    let is_new = entry.asset == default_key
    if is_new then ok tt else check_existing entry key
    ok (record w {
      metadata =
          insert a.metadata_entry
            (record {
              asset = a.asset;
              immutable = immutable;
              bump = if is_new then bump else entry.bump;
              metadata_key = key;
              metadata_value = value;
            })
            w.metadata;
      log = metadata_set a.asset immutable key value ∷ w.log;
    })

  -- `close = owner` takes the account away once the handler has returned.
  unfoldable pub delete_metadata_pda :
      MetadataAccounts → Bytes → World rt.Ext → Result (World rt.Ext)
  delete_metadata_pda a key_hash w = do
    entry ← load a.metadata_entry w.metadata
    agent ← load a.agent_account w.agents
    signer tx a.owner
    seeds_with_bump rt (metadata_seeds a.asset key_hash) entry.bump a.metadata_entry
    check_agent rt a.agent_account a.asset agent
    verify_core_owner rt w.ext a.asset a.owner
    require (not entry.immutable) metadata_immutable
    ok (record w {
      metadata = erase a.metadata_entry w.metadata;
      log = metadata_deleted a.asset entry.metadata_key ∷ w.log;
    })
