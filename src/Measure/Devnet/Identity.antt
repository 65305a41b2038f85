-- ===== src/Measure/Devnet/Identity.antt =====
-- The identity program in scripts/measure-devnet-costs.ts: airdrops, initialisation, an agent and its
-- metadata.
use solana.Prelude.{ℕ, ◌*◌, [], ◌∷◌, Option, none, some, Bytes, Pubkey, key_bytes, ascii}
use solana.Script.{
  Script, State, Request, TransactionMeta, ◌>>=◌, ◌>>◌, done, call, send, return, attempt, text,
}
use solana.Costs.{CostData, measure_cost, lamports_per_sol}
use solana.Measure.{Setup, get_metadata_pda, get_master_edition_pda, address}

-- What the class keeps of the registered agent.
pub record Agent : Type 0 where
  pub agent_mint : Pubkey
  pub agent_pda : Pubkey
  pub agent_id : ℕ

module _ (s : Setup) where
  open s use {network, programs}

  abbrev pub Step : Type 0 → Type 0
  Step A = Script (State network.Net CostData) A

  -- `this.costs.push` of `measureCost`, where the transaction is found.
  unfoldable pub push_cost :
      Bytes → Option (Option TransactionMeta) → ℕ → Option ℕ → Step (Unit {0})
  push_cost operation tx accounts data_size state = done tt (record state {
    costs = measure_cost operation tx accounts data_size (s.date_now state.net) state.costs;
  })

  unfoldable pub measure : Bytes → Bytes → ℕ → Option ℕ → Step (Unit {0})
  measure operation tx_sig accounts data_size = do
    tx ← call (network.get_transaction tx_sig)
    push_cost operation tx accounts data_size

  -- An airdrop that fails is only printed.
  unfoldable pub request_airdrop : Pubkey → ℕ → Step (Unit {0})
  request_airdrop key amount =
      attempt
        (do
          sig ← call (network.request_airdrop key (amount * lamports_per_sol))
          call (network.confirm_transaction sig))
        (return tt)

  unfoldable pub setup : Step (Unit {0})
  setup = do
    request_airdrop s.authority 3
    request_airdrop s.agent_owner 2
    request_airdrop s.client 2
    request_airdrop s.validator 2

  abbrev pub config_pda : Pubkey
  config_pda = address s (ascii "config" ∷ []) programs.identity

  abbrev pub validation_config_pda : Pubkey
  validation_config_pda = address s (ascii "validation_config" ∷ []) programs.validation

  unfoldable pub initialize_identity : Request
  initialize_identity = record {
    program = programs.identity;
    method = ascii "initialize";
    arguments = [];
    accounts =
        (ascii "config", config_pda)
        ∷ (ascii "collectionMint", s.collection_mint)
        ∷ (ascii "collectionMetadata", get_metadata_pda s s.collection_mint)
        ∷ (ascii "collectionMasterEdition", get_master_edition_pda s s.collection_mint)
        ∷ (ascii "collectionTokenAccount", s.associated_address s.collection_mint s.authority)
        ∷ (ascii "authority", s.authority)
        ∷ (ascii "systemProgram", programs.system_program)
        ∷ (ascii "tokenProgram", programs.token_program)
        ∷ (ascii "associatedTokenProgram", programs.associated_token_program)
        ∷ (ascii "rent", programs.rent)
        ∷ (ascii "tokenMetadataProgram", programs.token_metadata_program)
        ∷ (ascii "sysvarInstructions", programs.sysvar_instructions)
        ∷ [];
    pre_instructions = [];
    signers = s.authority ∷ s.collection_mint ∷ [];
  }

  unfoldable pub initialize_validation : Request
  initialize_validation = record {
    program = programs.validation;
    method = ascii "initialize";
    arguments = [];
    accounts =
        (ascii "config", validation_config_pda)
        ∷ (ascii "identityRegistry", programs.identity)
        ∷ (ascii "authority", s.authority)
        ∷ (ascii "systemProgram", programs.system_program)
        ∷ [];
    pre_instructions = [];
    signers = s.authority ∷ [];
  }

  -- A registry that cannot be initialised may be initialised already.
  unfoldable pub initialize_registries : Step (Unit {0})
  initialize_registries = do
    attempt
        (do
          tx_sig ← send network.rpc initialize_identity
          measure (ascii "Identity Registry Initialize") tx_sig 7 none)
        (return tt)
    attempt
        (do
          tx_sig ← send network.rpc initialize_validation
          measure (ascii "Validation Registry Initialize") tx_sig 3 none)
        (return tt)

  abbrev pub agent_account : Pubkey
  agent_account = address s (ascii "agent" ∷ key_bytes s.agent_mint ∷ []) programs.identity

  -- `authority` and `collection` are read from the configuration.
  unfoldable pub register : Pubkey → Pubkey → Request
  register authority collection = record {
    program = programs.identity;
    method = ascii "register";
    arguments = text (ascii "ipfs://test-agent") ∷ [];
    accounts =
        (ascii "config", config_pda)
        ∷ (ascii "authority", authority)
        ∷ (ascii "agentAccount", agent_account)
        ∷ (ascii "agentMint", s.agent_mint)
        ∷ (ascii "agentMetadata", get_metadata_pda s s.agent_mint)
        ∷ (ascii "agentMasterEdition", get_master_edition_pda s s.agent_mint)
        ∷ (ascii "agentTokenAccount", s.associated_address s.agent_mint s.agent_owner)
        ∷ (ascii "collectionMint", collection)
        ∷ (ascii "collectionMetadata", get_metadata_pda s collection)
        ∷ (ascii "collectionMasterEdition", get_master_edition_pda s collection)
        ∷ (ascii "owner", s.agent_owner)
        ∷ (ascii "systemProgram", programs.system_program)
        ∷ (ascii "tokenProgram", programs.token_program)
        ∷ (ascii "associatedTokenProgram", programs.associated_token_program)
        ∷ (ascii "rent", programs.rent)
        ∷ (ascii "tokenMetadataProgram", programs.token_metadata_program)
        ∷ (ascii "sysvarInstructions", programs.sysvar_instructions)
        ∷ [];
    pre_instructions = [];
    signers = s.agent_mint ∷ s.agent_owner ∷ [];
  }

  -- The id is taken to be one that a number of JavaScript holds.
  unfoldable pub register_agent : Step Agent
  register_agent = do
    config ← call (network.fetch_registry_config config_pda)
    tx_sig ← send network.rpc (register config.authority config.collection_mint)
    measure (ascii "Register Agent") tx_sig 11 (some 200)
    agent_id ← call (network.fetch_agent_id agent_account)
    return (record { agent_mint = s.agent_mint; agent_pda = agent_account; agent_id = agent_id })

  unfoldable pub metadata_request : Agent → Request
  metadata_request agent = record {
    program = programs.identity;
    method = ascii "setMetadata";
    arguments = text (ascii "name") ∷ text (ascii "Test Agent") ∷ [];
    accounts =
        (ascii "agentAccount", agent.agent_pda)
        ∷ (ascii "agentMint", agent.agent_mint)
        ∷ (ascii "agentTokenAccount", s.associated_address agent.agent_mint s.agent_owner)
        ∷ (ascii "owner", s.agent_owner)
        ∷ (ascii "tokenProgram", programs.token_program)
        ∷ [];
    pre_instructions = [];
    signers = s.agent_owner ∷ [];
  }

  unfoldable pub set_metadata : Agent → Step (Unit {0})
  set_metadata agent = do
    tx_sig ← send network.rpc (metadata_request agent)
    measure (ascii "Set Metadata") tx_sig 3 (some 64)
