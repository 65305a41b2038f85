-- ===== src/Registry/Program.antt =====
-- The entry points of programs/agent-registry-8004/src/lib.rs, and the states that transactions and
-- other programs lead to.
pub mod Outcomes
pub mod Replay
pub mod Life
pub mod History
pub mod Completeness
use solana.Prelude.{ℕ, ◌≡◌, Bool, List, [], ◌∷◌, Bytes, Pubkey}
use solana.Prelude.Int.{ℤ}
use solana.Seal.{Content}
use solana.Registry.Error.{Result, ok, err, ◌>>=◌, ◌>>◌}
use solana.Registry.Runtime.{Runtime, Tx}
use solana.Registry.World.{World}
use solana.Registry.Identity.{
  AgentAccounts, MetadataAccounts, SetAgentUri, TransferAgent, SetParentAsset, Initialize, Register,
}
use solana.Registry.Identity.Handlers
use solana.Registry.Identity.Ownership
use solana.Registry.Identity.Links
use solana.Registry.Identity.Metadata
use solana.Registry.Reputation.{GiveFeedback, RevokeFeedback, AppendResponse}
use solana.Registry.Reputation.Handlers as Feedback

-- The instructions, each with its accounts and its arguments.
pub data Call : Type 0 where
  initialize : Initialize → Call
  register : Register → Bytes → Call
  register_with_options : Register → Bytes → Bool → Call
  enable_atom : AgentAccounts → Call
  set_metadata_pda : MetadataAccounts → Bytes → Bytes → Bytes → Bool → Call
  delete_metadata_pda : MetadataAccounts → Bytes → Call
  set_agent_uri : SetAgentUri → Bytes → Call
  sync_owner : AgentAccounts → Call
  owner_of : AgentAccounts → Call
  core_owner_of : AgentAccounts → Call
  transfer_agent : TransferAgent → Call
  set_agent_wallet : AgentAccounts → Pubkey → ℤ → Call
  set_collection_pointer : AgentAccounts → Bytes → Call
  set_collection_pointer_with_options : AgentAccounts → Bytes → Bool → Call
  set_parent_asset : SetParentAsset → Pubkey → Call
  set_parent_asset_with_options : SetParentAsset → Pubkey → Bool → Call
  give_feedback : GiveFeedback → Content → Call
  revoke_feedback : RevokeFeedback → ℕ → Bytes → Call
  append_response : AppendResponse → Pubkey → ℕ → Bytes → Bytes → Bytes → Call

module _ (rt : Runtime) where
  -- One instruction; the two queries return a key and leave the state as it is.
  unfoldable pub execute : Tx → Call → World rt.Ext → Result (World rt.Ext)
  execute tx (Call.initialize a) w = Handlers.initialize rt tx a w
  execute tx (Call.register a uri) w = Handlers.register rt tx a uri w
  execute tx (Call.register_with_options a uri atom) w =
      Handlers.register_with_options rt tx a uri atom w
  execute tx (Call.enable_atom a) w = Ownership.enable_atom rt tx a w
  execute tx (Call.set_metadata_pda a key_hash key value immutable) w =
      Metadata.set_metadata_pda rt tx a key_hash key value immutable w
  execute tx (Call.delete_metadata_pda a key_hash) w =
      Metadata.delete_metadata_pda rt tx a key_hash w
  execute tx (Call.set_agent_uri a uri) w = Ownership.set_agent_uri rt tx a uri w
  execute tx (Call.sync_owner a) w = Ownership.sync_owner rt tx a w
  execute tx (Call.owner_of a) w = do _ ← Ownership.owner_of rt tx a w; ok w
  execute tx (Call.core_owner_of a) w = do _ ← Ownership.core_owner_of rt tx a w; ok w
  execute tx (Call.transfer_agent a) w = Ownership.transfer_agent rt tx a w
  execute tx (Call.set_agent_wallet a wallet deadline) w =
      Ownership.set_agent_wallet rt tx a wallet deadline w
  execute tx (Call.set_collection_pointer a col) w = Links.set_collection_pointer rt tx a col w
  execute tx (Call.set_collection_pointer_with_options a col lock) w =
      Links.set_collection_pointer_with_options rt tx a col lock w
  execute tx (Call.set_parent_asset a parent_asset) w =
      Links.set_parent_asset rt tx a parent_asset w
  execute tx (Call.set_parent_asset_with_options a parent_asset lock) w =
      Links.set_parent_asset_with_options rt tx a parent_asset lock w
  execute tx (Call.give_feedback a c) w = Feedback.give_feedback rt tx a c w
  execute tx (Call.revoke_feedback a index seal) w = Feedback.revoke_feedback rt tx a index seal w
  execute tx (Call.append_response a client index uri hash seal) w =
      Feedback.append_response rt tx a client index uri hash seal w

  -- An instruction that fails leaves nothing behind.
  abbrev pub settle : Result (World rt.Ext) → World rt.Ext → World rt.Ext
  settle (ok w') w = w'
  settle (err e) w = w

  unfoldable pub process : Tx → Call → World rt.Ext → World rt.Ext
  process tx call w = settle (execute tx call w) w

  -- Before any account and any event.
  abbrev pub IsGenesis : World rt.Ext → Type 0
  IsGenesis w = (w.agents ≡ []) × (w.log ≡ [])

  -- The states reached from `w`: by instructions of any transactions, and by what other programs do
  -- to their own accounts in between.
  pub data Reaches (w : World rt.Ext) : World rt.Ext → Type 0 where
    start : Reaches w w
    instruction :
        {v : World rt.Ext} (tx : Tx) (call : Call) → Reaches w v → Reaches w (process tx call v)
    outside : {v : World rt.Ext} (ext : rt.Ext) → Reaches w v → Reaches w (record v { ext = ext })
