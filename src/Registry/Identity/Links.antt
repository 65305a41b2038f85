-- ===== src/Registry/Identity/Links.antt =====
-- The collection pointer and the parent link: handlers of
-- programs/agent-registry-8004/src/identity/instructions.rs.
use solana.Prelude.{Bool, true, not, ◌||◌, some, [], ◌∷◌, Bytes, Pubkey, ◌==◌}
use solana.Registry.Error.{
  Result, ok, err, require, ◌>>=◌, ◌>>◌, RegistryError, registry, invalid_asset,
  invalid_parent_asset, not_agent_creator, collection_pointer_already_set, parent_already_set,
  parent_self_reference, not_parent_creator,
}
use solana.Registry.State.{AgentAccount, collection_pointer_set, parent_asset_set}
use solana.Registry.Runtime.{Runtime, Tx}
use solana.Registry.World.{
  World, put_agent, get_core_owner, verify_core_owner, signer, load, seeds_with_bump, check_agent,
  agent_seeds,
}
use solana.Registry.Identity.{AgentAccounts, SetParentAsset, validate_collection_pointer}
use solana.Registry.Identity.Handlers.{load_owned}

-- `map_err(|_| e)`
abbrev pub map_err {ℓ} : {A : Type ℓ} → Result A → RegistryError → Result A
map_err (ok a) e = ok a
map_err (err e') e = err (registry e)

module _ (rt : Runtime) (tx : Tx) where
  unfoldable pub set_collection_pointer_inner :
      AgentAccounts → Bytes → Bool → World rt.Ext → Result (World rt.Ext)
  set_collection_pointer_inner a col lock w = do
    agent ← load_owned rt tx a.agent_account a.asset a.owner w
    _ ← map_err (get_core_owner rt w.ext a.asset) invalid_asset
    validate_collection_pointer col
    require (a.owner == agent.creator) not_agent_creator
    require (not agent.col_locked) collection_pointer_already_set
    ok (
        put_agent a.agent_account
          (record agent { col = col; col_locked = lock || agent.col_locked })
          (collection_pointer_set agent.asset a.owner col ∷ []) w)

  unfoldable pub set_collection_pointer :
      AgentAccounts → Bytes → World rt.Ext → Result (World rt.Ext)
  set_collection_pointer a col = set_collection_pointer_inner a col true

  unfoldable pub set_collection_pointer_with_options :
      AgentAccounts → Bytes → Bool → World rt.Ext → Result (World rt.Ext)
  set_collection_pointer_with_options a col lock = set_collection_pointer_inner a col lock

  -- The checks of `SetParentAsset`; the agent and its parent.
  unfoldable pub load_parent :
      SetParentAsset → Pubkey → World rt.Ext → Result (AgentAccount × AgentAccount)
  load_parent a parent_asset w = do
    agent ← load a.agent_account w.agents
    parent ← load a.parent_agent_account w.agents
    signer tx a.owner
    check_agent rt a.agent_account a.asset agent
    seeds_with_bump rt (agent_seeds parent_asset) parent.bump a.parent_agent_account
    require (a.parent_asset_account == parent.asset) invalid_asset
    ok (agent, parent)

  unfoldable pub set_parent_asset_inner :
      SetParentAsset → Pubkey → Bool → World rt.Ext → Result (World rt.Ext)
  set_parent_asset_inner a parent_asset lock w = do
    (agent, parent) ← load_parent a parent_asset w
    verify_core_owner rt w.ext a.asset a.owner
    _ ← map_err (get_core_owner rt w.ext a.parent_asset_account) invalid_parent_asset
    require (not agent.parent_locked) parent_already_set
    require (not (agent.asset == parent_asset)) parent_self_reference
    require (a.owner == parent.creator) not_parent_creator
    ok (
        put_agent a.agent_account
          (record agent {
            parent_asset = some parent_asset;
            parent_locked = lock || agent.parent_locked;
          })
          (parent_asset_set agent.asset parent_asset parent.creator a.owner ∷ []) w)

  unfoldable pub set_parent_asset : SetParentAsset → Pubkey → World rt.Ext → Result (World rt.Ext)
  set_parent_asset a parent_asset = set_parent_asset_inner a parent_asset true

  unfoldable pub set_parent_asset_with_options :
      SetParentAsset → Pubkey → Bool → World rt.Ext → Result (World rt.Ext)
  set_parent_asset_with_options a parent_asset lock = set_parent_asset_inner a parent_asset lock
