-- ===== src/Registry/Identity/Handlers.antt =====
-- Registration, ownership and the wallet: handlers of
-- programs/agent-registry-8004/src/identity/instructions.rs.
use solana.Prelude.{
  ℕ, Bool, true, false, Option, none, some, [], ◌∷◌, Bytes, ascii, Pubkey, key_bytes, length, leb,
  ◌==◌,
}
use solana.Chain.{zero_digest}
use solana.Registry.Error.{
  Result, ok, err, require, constraint, ok_or, ◌>>=◌, ◌>>◌, registry, uri_too_long, unauthorized,
  invalid_collection, cpi_failed, account_already_in_use, constraint_seeds, account_not_initialized,
}
use solana.Registry.State.{AgentAccount, registry_initialized, agent_registered, max_uri_length}
use solana.Registry.Accounts.{Accounts, lookup, insert}
use solana.Registry.Runtime.{Runtime, Tx}
use solana.Registry.World.{
  World, put_agent, signer, load, seeds_with_bump, seeds_canonical, check_agent, agent_seeds,
  registry_seeds, root_seeds,
}
use solana.Registry.Identity.{Initialize, Register}

abbrev is_some : Option Pubkey → Bool
is_some none = false
is_some (some k) = true

-- `init`: nothing may be stored at the address yet.
abbrev pub absent {ℓ} : {V : Type ℓ} → Pubkey → Accounts V → Result (Unit {0})
absent key m = elim (lookup key m) [ none ↦ ok tt | some _ ↦ err account_already_in_use ]

module _ (rt : Runtime) (tx : Tx) where
  -- The account of a new agent.
  abbrev pub new_agent : Register → Bytes → Bool → ℕ → AgentAccount
  new_agent a agent_uri atom bump = record {
    collection = a.collection;
    creator = a.owner;
    owner = a.owner;
    asset = a.asset;
    bump = bump;
    atom_enabled = atom;
    agent_wallet = none;
    feedback_digest = zero_digest;
    feedback_count = 0;
    response_digest = zero_digest;
    response_count = 0;
    revoke_digest = zero_digest;
    revoke_count = 0;
    parent_asset = none;
    parent_locked = false;
    col_locked = false;
    agent_uri = agent_uri;
    nft_name = ascii "Agent";
    col = [];
  }

  -- The checks of `Initialize`; the bumps of the two new accounts.
  unfoldable pub load_initialize : Initialize → World rt.Ext → Result (ℕ × ℕ)
  load_initialize a w = do
    signer tx a.collection
    signer tx a.authority
    upgrade ← ok_or (rt.upgrade_authority w.ext a.program_data) account_not_initialized
    root_bump ← seeds_canonical rt root_seeds a.root_config
    absent a.root_config w.root_configs
    registry_bump ← seeds_canonical rt (registry_seeds a.collection) a.registry_config
    absent a.registry_config w.registry_configs
    constraint
        ((rt.find_program_address (key_bytes rt.program_id ∷ []) rt.bpf_loader_upgradeable_id).0
          == a.program_data)
        constraint_seeds
    authority ← ok_or upgrade (registry unauthorized)
    require (authority == a.authority) unauthorized
    ok (root_bump, registry_bump)

  unfoldable pub initialize : Initialize → World rt.Ext → Result (World rt.Ext)
  initialize a w = do
    (root_bump, registry_bump) ← load_initialize a w
    ext ←
        ok_or
          (rt.create_collection
            (record {
              collection = a.collection;
              payer = a.authority;
              update_authority = a.registry_config;
              name = ascii "8004 Agent Registry";
              uri = [];
            })
            w.ext)
          cpi_failed
    ok (record w {
      root_configs =
          insert a.root_config
            (record { base_collection = a.collection; authority = a.authority; bump = root_bump })
            w.root_configs;
      registry_configs =
          insert a.registry_config
            (record { collection = a.collection; authority = a.authority; bump = registry_bump })
            w.registry_configs;
      ext = ext;
      log = registry_initialized a.collection a.authority ∷ w.log;
    })

  -- The checks of `Register`; the bump of the new account.
  unfoldable pub load_register : Register → World rt.Ext → Result ℕ
  load_register a w = do
    root ← load a.root_config w.root_configs
    config ← load a.registry_config w.registry_configs
    signer tx a.asset
    signer tx a.owner
    bump ← seeds_canonical rt (agent_seeds a.asset) a.agent_account
    absent a.agent_account w.agents
    seeds_with_bump rt root_seeds root.bump a.root_config
    require (root.base_collection == a.collection) invalid_collection
    seeds_with_bump rt (registry_seeds a.collection) config.bump a.registry_config
    ok bump

  unfoldable pub register_inner : Register → Bytes → Bool → World rt.Ext → Result (World rt.Ext)
  register_inner a agent_uri atom w = do
    bump ← load_register a w
    require (leb (length agent_uri) max_uri_length) uri_too_long
    ext ←
        ok_or
          (rt.create_asset
            (record {
              asset = a.asset;
              collection = a.collection;
              payer = a.owner;
              owner = a.owner;
              authority = a.registry_config;
              name = ascii "Agent";
              uri = agent_uri;
            })
            w.ext)
          cpi_failed
    ok (
        put_agent a.agent_account (new_agent a agent_uri atom bump)
          (agent_registered a.asset a.collection a.owner atom agent_uri ∷ [])
          (record w { ext = ext }))

  unfoldable pub register : Register → Bytes → World rt.Ext → Result (World rt.Ext)
  register a agent_uri = register_inner a agent_uri true

  unfoldable pub register_with_options :
      Register → Bytes → Bool → World rt.Ext → Result (World rt.Ext)
  register_with_options a agent_uri atom = register_inner a agent_uri atom

  -- The checks of an account record with an owner who signs; the agent account.
  unfoldable pub load_owned : Pubkey → Pubkey → Pubkey → World rt.Ext → Result AgentAccount
  load_owned key asset owner w = do
    agent ← load key w.agents
    signer tx owner
    check_agent rt key asset agent
    ok agent
