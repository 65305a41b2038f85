-- ===== src/Measure/Exact/Requests.antt =====
-- The requests of scripts/measure-exact-costs.ts.
use solana.Prelude.{
  ℕ, ◌-◌, [], ◌∷◌, ◌++◌, Bytes, Pubkey, key_bytes, le_bytes, length, replicate, ascii,
}
use solana.Script.{Request, text, number, buffer}
use solana.Measure.{Setup, get_metadata_pda, get_master_edition_pda, address}

-- `Buffer.alloc(32, n)` is `replicate 32 n`.

-- `key.padEnd(32, "\0")`
unfoldable pub pad_end : Bytes → Bytes
pad_end key = key ++ replicate (32 - length key) 0

abbrev pub metadata_key : Bytes
metadata_key = ascii "description"

abbrev pub nonce : ℕ
nonce = 12345

module _ (s : Setup) where
  open s use {web3, programs}

  abbrev payer : Pubkey
  payer = s.wallet

  abbrev pub config_pda : Pubkey
  config_pda = address s (ascii "config" ∷ []) programs.identity

  abbrev pub validation_config_pda : Pubkey
  validation_config_pda = address s (ascii "config" ∷ []) programs.validation

  abbrev pub agent_account : Pubkey
  agent_account = address s (ascii "agent" ∷ key_bytes s.agent_mint ∷ []) programs.identity

  unfoldable pub initialize : Request
  initialize = record {
    program = programs.identity;
    method = ascii "initialize";
    arguments = [];
    accounts =
        (ascii "config", config_pda)
        ∷ (ascii "authority", payer)
        ∷ (ascii "collectionMint", s.collection_mint)
        ∷ (ascii "collectionMetadata", get_metadata_pda s s.collection_mint)
        ∷ (ascii "collectionMasterEdition", get_master_edition_pda s s.collection_mint)
        ∷ (ascii "collectionTokenAccount", s.associated_address s.collection_mint payer)
        ∷ (ascii "systemProgram", programs.system_program)
        ∷ (ascii "tokenProgram", programs.token_program)
        ∷ (ascii "associatedTokenProgram", programs.associated_token_program)
        ∷ (ascii "rent", programs.rent)
        ∷ (ascii "tokenMetadataProgram", programs.token_metadata_program)
        ∷ (ascii "sysvarInstructions", programs.sysvar_instructions)
        ∷ [];
    pre_instructions = [];
    signers = s.collection_mint ∷ [];
  }

  unfoldable pub register : Request
  register = record {
    program = programs.identity;
    method = ascii "register";
    arguments = text (ascii "ipfs://QmTest123") ∷ [];
    accounts =
        (ascii "config", config_pda)
        ∷ (ascii "authority", payer)
        ∷ (ascii "agentAccount", agent_account)
        ∷ (ascii "agentMint", s.agent_mint)
        ∷ (ascii "agentMetadata", get_metadata_pda s s.agent_mint)
        ∷ (ascii "agentMasterEdition", get_master_edition_pda s s.agent_mint)
        ∷ (ascii "agentTokenAccount", s.associated_address s.agent_mint payer)
        ∷ (ascii "collectionMint", s.collection_mint)
        ∷ (ascii "collectionMetadata", get_metadata_pda s s.collection_mint)
        ∷ (ascii "collectionMasterEdition", get_master_edition_pda s s.collection_mint)
        ∷ (ascii "owner", payer)
        ∷ (ascii "systemProgram", programs.system_program)
        ∷ (ascii "tokenProgram", programs.token_program)
        ∷ (ascii "associatedTokenProgram", programs.associated_token_program)
        ∷ (ascii "rent", programs.rent)
        ∷ (ascii "tokenMetadataProgram", programs.token_metadata_program)
        ∷ (ascii "sysvarInstructions", programs.sysvar_instructions)
        ∷ [];
    pre_instructions = [];
    signers = s.agent_mint ∷ [];
  }

  unfoldable pub set_metadata : ℕ → Request
  set_metadata agent_id = record {
    program = programs.identity;
    method = ascii "setMetadata";
    arguments =
        number agent_id ∷ text (pad_end metadata_key) ∷ text (ascii "Test agent description") ∷ [];
    accounts =
        (ascii "agentAccount", agent_account)
        ∷ (
          ascii "metadataEntry",
          address s (ascii "metadata" ∷ web3.to_array_like agent_id ∷ pad_end metadata_key ∷ [])
              programs.identity,
        )
        ∷ (ascii "owner", payer)
        ∷ (ascii "systemProgram", programs.system_program)
        ∷ [];
    pre_instructions = [];
    signers = [];
  }

  unfoldable pub set_agent_uri : Request
  set_agent_uri = record {
    program = programs.identity;
    method = ascii "setAgentUri";
    arguments = text (ascii "ipfs://QmUpdated456") ∷ [];
    accounts =
        (ascii "agentAccount", agent_account)
        ∷ (ascii "agentMint", s.agent_mint)
        ∷ (ascii "agentMetadata", get_metadata_pda s s.agent_mint)
        ∷ (ascii "owner", payer)
        ∷ (ascii "tokenMetadataProgram", programs.token_metadata_program)
        ∷ (ascii "systemProgram", programs.system_program)
        ∷ (ascii "sysvarInstructions", programs.sysvar_instructions)
        ∷ [];
    pre_instructions = [];
    signers = [];
  }

  -- The two feedbacks differ in score, file and index.
  unfoldable pub give_feedback : ℕ → ℕ → Bytes → ℕ → Request
  give_feedback agent_id score uri index = record {
    program = programs.reputation;
    method = ascii "giveFeedback";
    arguments =
        number agent_id
        ∷ number score
        ∷ buffer (replicate 32 0)
        ∷ buffer (replicate 32 0)
        ∷ text uri
        ∷ buffer (replicate 32 0)
        ∷ number index
        ∷ [];
    accounts =
        (ascii "client", payer)
        ∷ (ascii "payer", payer)
        ∷ (ascii "agentMint", s.agent_mint)
        ∷ (ascii "agentAccount", agent_account)
        ∷ (
          ascii "clientIndex",
          address s (ascii "client_index" ∷ web3.to_array_like agent_id ∷ key_bytes payer ∷ [])
              programs.reputation,
        )
        ∷ (
          ascii "feedbackAccount",
          address s
              (ascii "feedback"
                ∷ web3.to_array_like agent_id
                ∷ key_bytes payer
                ∷ web3.to_array_like index
                ∷ [])
              programs.reputation,
        )
        ∷ (
          ascii "agentReputation",
          address s (ascii "agent_reputation" ∷ web3.to_array_like agent_id ∷ [])
              programs.reputation,
        )
        ∷ (ascii "identityRegistryProgram", programs.identity)
        ∷ (ascii "systemProgram", programs.system_program)
        ∷ [];
    pre_instructions = [];
    signers = [];
  }

  unfoldable pub initialize_validation : Request
  initialize_validation = record {
    program = programs.validation;
    method = ascii "initialize";
    arguments = [];
    accounts =
        (ascii "config", validation_config_pda)
        ∷ (ascii "authority", payer)
        ∷ (ascii "identityRegistryProgram", programs.identity)
        ∷ (ascii "systemProgram", programs.system_program)
        ∷ [];
    pre_instructions = [];
    signers = [];
  }

  -- `new Uint32Array([nonce]).buffer`, on a little-endian machine.
  abbrev pub validation_address : ℕ → Pubkey
  validation_address agent_id =
      address s
        (ascii "validation"
          ∷ web3.to_array_like agent_id
          ∷ key_bytes s.validator
          ∷ le_bytes 4 nonce
          ∷ [])
        programs.validation

  unfoldable pub request_validation : ℕ → Request
  request_validation agent_id = record {
    program = programs.validation;
    method = ascii "requestValidation";
    arguments = number agent_id ∷ number nonce ∷ buffer (replicate 32 1) ∷ [];
    accounts =
        (ascii "config", validation_config_pda)
        ∷ (ascii "agent", payer)
        ∷ (ascii "agentAccount", agent_account)
        ∷ (ascii "agentMint", s.agent_mint)
        ∷ (ascii "validator", s.validator)
        ∷ (ascii "validationRequest", validation_address agent_id)
        ∷ (ascii "identityRegistryProgram", programs.identity)
        ∷ (ascii "systemProgram", programs.system_program)
        ∷ [];
    pre_instructions = [];
    signers = [];
  }

  unfoldable pub respond_to_validation : ℕ → Request
  respond_to_validation agent_id = record {
    program = programs.validation;
    method = ascii "respondToValidation";
    arguments = number agent_id ∷ number nonce ∷ buffer (replicate 32 2) ∷ number 100 ∷ [];
    accounts =
        (ascii "validator", s.validator)
        ∷ (ascii "validationRequest", validation_address agent_id)
        ∷ (ascii "systemProgram", programs.system_program)
        ∷ [];
    pre_instructions = [];
    signers = s.validator ∷ [];
  }
