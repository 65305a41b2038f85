-- ===== src/Measure/Devnet/Validation.antt =====
-- The validation program in scripts/measure-devnet-costs.ts: a request and its response.
use solana.Prelude.{[], ◌∷◌, Bytes, Pubkey, some, key_bytes, ascii}
use solana.Script.{Request, ◌>>=◌, send, text, number, buffer}
use solana.Measure.{Setup, address}
use solana.Measure.Devnet.Identity.{Agent, Step, measure, validation_config_pda}
use solana.Measure.Devnet.Feedback.{empty_hash}

module _ (s : Setup) (agent : Agent) where
  open s use {network, programs}

  abbrev id_bytes : Bytes
  id_bytes = s.to_array agent.agent_id 8

  abbrev pub validation_pda : Pubkey
  validation_pda =
      address s (ascii "validation" ∷ id_bytes ∷ key_bytes s.validator ∷ s.to_array 0 4 ∷ [])
        programs.validation

  unfoldable pub validation_request : Request
  validation_request = record {
    program = programs.validation;
    method = ascii "requestValidation";
    arguments =
        number agent.agent_id ∷ text (ascii "ipfs://validation-request") ∷ buffer empty_hash ∷ [];
    accounts =
        (ascii "config", validation_config_pda s)
        ∷ (ascii "validationAccount", validation_pda)
        ∷ (
          ascii "validationCounter",
          address s (ascii "validation_counter" ∷ id_bytes ∷ key_bytes s.validator ∷ [])
              programs.validation,
        )
        ∷ (ascii "agentAccount", agent.agent_pda)
        ∷ (ascii "agentMint", agent.agent_mint)
        ∷ (ascii "agentTokenAccount", s.associated_address agent.agent_mint s.agent_owner)
        ∷ (ascii "validatorAddress", s.validator)
        ∷ (ascii "requester", s.agent_owner)
        ∷ (ascii "payer", s.agent_owner)
        ∷ (ascii "identityRegistryProgram", programs.identity)
        ∷ (ascii "tokenProgram", programs.token_program)
        ∷ (ascii "systemProgram", programs.system_program)
        ∷ [];
    pre_instructions = [];
    signers = s.agent_owner ∷ [];
  }

  unfoldable pub request_validation : Step s (Unit {0})
  request_validation = do
    tx_sig ← send network.rpc validation_request
    measure s (ascii "Request Validation") tx_sig 8 (some 300)

  unfoldable pub validation_response : Request
  validation_response = record {
    program = programs.validation;
    method = ascii "respondToValidation";
    arguments =
        number agent.agent_id
        ∷ number 0
        ∷ number 100
        ∷ text (ascii "ipfs://validation-response")
        ∷ buffer empty_hash
        ∷ buffer empty_hash
        ∷ [];
    accounts =
        (ascii "validationAccount", validation_pda)
        ∷ (ascii "validator", s.validator)
        ∷ (ascii "systemProgram", programs.system_program)
        ∷ [];
    pre_instructions = [];
    signers = s.validator ∷ [];
  }

  unfoldable pub respond_to_validation : Step s (Unit {0})
  respond_to_validation = do
    tx_sig ← send network.rpc validation_response
    measure s (ascii "Respond to Validation") tx_sig 2 (some 300)
