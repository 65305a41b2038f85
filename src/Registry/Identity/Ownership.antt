-- ===== src/Registry/Identity/Ownership.antt =====
-- Ownership, the URI, the wallet and the ATOM switch: handlers of
-- programs/agent-registry-8004/src/identity/instructions.rs.
use solana.Prelude.{
  Bool, true, false, not, Option, none, some, List, [], ◌∷◌, Bytes, Pubkey, length, leb, ◌==◌,
  default_key,
}
use solana.Prelude.Int.{ℤ, leb_ℤ}
use solana.Registry.Error.{
  Result, ok, require, ok_or, ◌>>=◌, ◌>>◌, uri_too_long, invalid_collection, transfer_to_self,
  deadline_expired, deadline_too_far, atom_already_enabled, cpi_failed,
}
use solana.Registry.State.{
  AgentAccount, Event, uri_updated, agent_owner_synced, wallet_updated, wallet_reset_on_owner_sync,
  max_uri_length,
}
use solana.Registry.Runtime.{Runtime, Tx, add_i64}
use solana.Registry.World.{
  World, put_agent, get_core_owner, verify_core_owner, signer, load, seeds_with_bump, check_agent,
  registry_seeds, agent_seeds,
}
use solana.Registry.Identity.{
  AgentAccounts, SetAgentUri, TransferAgent, build_wallet_set_message, max_deadline_window, emit_if,
}
use solana.Registry.Identity.Signature.{verify_ed25519_signature}
use solana.Registry.Identity.Handlers.{load_owned}

abbrev pub is_some : Option Pubkey → Bool
is_some none = false
is_some (some k) = true

-- The events of `sync_owner`, the latest first.
abbrev pub sync_events : AgentAccount → Pubkey → List Event
sync_events agent new_owner =
    agent_owner_synced agent.asset agent.owner new_owner
    ∷ emit_if (is_some agent.agent_wallet)
        (wallet_reset_on_owner_sync agent.asset agent.agent_wallet default_key new_owner) []

-- The events of `transfer_agent`, the latest first.
abbrev pub transfer_events : AgentAccount → Pubkey → Pubkey → List Event
transfer_events agent old_owner new_owner =
    agent_owner_synced agent.asset old_owner new_owner
    ∷ emit_if (is_some agent.agent_wallet)
        (wallet_updated agent.asset agent.agent_wallet default_key old_owner) []

module _ (rt : Runtime) (tx : Tx) where
  unfoldable pub set_agent_uri : SetAgentUri → Bytes → World rt.Ext → Result (World rt.Ext)
  set_agent_uri a new_uri w = do
    config ← load a.registry_config w.registry_configs
    agent ← load a.agent_account w.agents
    signer tx a.owner
    seeds_with_bump rt (registry_seeds a.collection) config.bump a.registry_config
    check_agent rt a.agent_account a.asset agent
    require (a.collection == config.collection) invalid_collection
    verify_core_owner rt w.ext a.asset a.owner
    require (leb (length new_uri) max_uri_length) uri_too_long
    ext ←
        ok_or
          (rt.update_asset
            (record {
              asset = a.asset;
              collection = a.collection;
              payer = a.owner;
              authority = a.registry_config;
              new_uri = new_uri;
            })
            w.ext)
          cpi_failed
    ok (
        put_agent a.agent_account (record agent { agent_uri = new_uri })
          (uri_updated a.asset a.owner new_uri ∷ []) (record w { ext = ext }))

  -- The account after `sync_owner`; its owner has not signed anything.
  unfoldable pub sync_owner : AgentAccounts → World rt.Ext → Result (World rt.Ext)
  sync_owner a w = do
    agent ← load a.agent_account w.agents
    check_agent rt a.agent_account a.asset agent
    new_owner ← get_core_owner rt w.ext a.asset
    ok (elim (agent.owner == new_owner) [
      | true ↦ w
      | false ↦
          put_agent a.agent_account (record agent { owner = new_owner; agent_wallet = none })
            (sync_events agent new_owner) w
    ])

  -- The cached owner; only the address of the account is checked.
  unfoldable pub owner_of : AgentAccounts → World rt.Ext → Result Pubkey
  owner_of a w = do
    agent ← load a.agent_account w.agents
    seeds_with_bump rt (agent_seeds a.asset) agent.bump a.agent_account
    ok agent.owner

  -- The live owner.
  unfoldable pub core_owner_of : AgentAccounts → World rt.Ext → Result Pubkey
  core_owner_of a w = get_core_owner rt w.ext a.asset

  unfoldable pub transfer_agent : TransferAgent → World rt.Ext → Result (World rt.Ext)
  transfer_agent a w = do
    agent ← load_owned rt tx a.agent_account a.asset a.owner w
    verify_core_owner rt w.ext a.asset a.owner
    require (not (a.owner == a.new_owner)) transfer_to_self
    ext ←
        ok_or
          (rt.transfer_asset
            (record {
              asset = a.asset;
              collection = a.collection;
              payer = a.owner;
              authority = a.owner;
              new_owner = a.new_owner;
            })
            w.ext)
          cpi_failed
    ok (
        put_agent a.agent_account (record agent { owner = a.new_owner; agent_wallet = none })
          (transfer_events agent a.owner a.new_owner) (record w { ext = ext }))

  unfoldable pub set_agent_wallet :
      AgentAccounts → Pubkey → ℤ → World rt.Ext → Result (World rt.Ext)
  set_agent_wallet a new_wallet deadline w = do
    signer tx a.owner
    agent ← load a.agent_account w.agents
    check_agent rt a.agent_account a.asset agent
    verify_core_owner rt w.ext a.asset a.owner
    require (leb_ℤ tx.unix_timestamp deadline) deadline_expired
    require (leb_ℤ deadline (add_i64 tx.unix_timestamp max_deadline_window)) deadline_too_far
    verify_ed25519_signature rt tx new_wallet
        (build_wallet_set_message a.asset new_wallet a.owner deadline)
    ok (
        put_agent a.agent_account (record agent { owner = a.owner; agent_wallet = some new_wallet })
          (emit_if (not (agent.owner == a.owner)) (agent_owner_synced a.asset agent.owner a.owner)
            (wallet_updated a.asset agent.agent_wallet new_wallet a.owner ∷ []))
          w)

  unfoldable pub enable_atom : AgentAccounts → World rt.Ext → Result (World rt.Ext)
  enable_atom a w = do
    agent ← load_owned rt tx a.agent_account a.asset a.owner w
    verify_core_owner rt w.ext a.asset a.owner
    require (not agent.atom_enabled) atom_already_enabled
    ok (
        put_agent a.agent_account (record agent { atom_enabled = true })
          (Event.atom_enabled agent.asset a.owner ∷ []) w)
