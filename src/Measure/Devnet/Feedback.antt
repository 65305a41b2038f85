-- ===== src/Measure/Devnet/Feedback.antt =====
-- The reputation program in scripts/measure-devnet-costs.ts: a feedback with its authorisation.
use solana.Prelude.{
  ℕ, zero, suc, ◌+◌, ◌/◌, ◌%◌, [], ◌∷◌, ◌++◌, some, Bytes, key_bytes, ascii, ltb, if◌then◌else◌,
}
use solana.Script.{
  Request, Ed25519, FeedbackAuth, ◌>>=◌, call, send, text, number, buffer, authorisation,
}
use solana.Measure.{Setup, address}
use solana.Measure.Devnet.Identity.{Agent, Step, measure}

-- The decimal digits of a number of at most twenty digits, as `${n}` writes them.
unfoldable pub digits : ℕ → ℕ → Bytes
digits zero n = []
digits (suc fuel) n =
    let rest = digits fuel (n / 10) in
    if ltb n 10 then (48 + n) ∷ [] else rest ++ (48 + n % 10) ∷ []

unfoldable pub decimal : ℕ → Bytes
unfolding digits
decimal n = digits 20 n

-- `Buffer.alloc(32)`
abbrev pub empty_hash : Bytes
empty_hash =
    0 ∷ 0 ∷ 0 ∷ 0 ∷ 0 ∷ 0 ∷ 0 ∷ 0 ∷ 0 ∷ 0 ∷ 0 ∷ 0 ∷ 0 ∷ 0 ∷ 0 ∷ 0 ∷ 0 ∷ 0 ∷ 0 ∷ 0 ∷ 0 ∷ 0 ∷ 0 ∷ 0
    ∷ 0 ∷ 0 ∷ 0 ∷ 0 ∷ 0 ∷ 0 ∷ 0 ∷ 0 ∷ []

module _ (s : Setup) (agent : Agent) where
  open s use {web3, network, programs}

  unfoldable pub auth_message : ℕ → Bytes
  auth_message expiry =
      ascii "feedback_auth:"
      ++ (decimal agent.agent_id
          ++ (ascii ":"
              ++ (s.to_base58 s.client
                  ++ (ascii ":5:"
                      ++ (decimal expiry
                          ++ (ascii ":solana-devnet:" ++ s.to_base58 programs.identity))))))

  unfoldable pub feedback_auth : ℕ → FeedbackAuth
  feedback_auth expiry = record {
    agent_id = agent.agent_id;
    client_address = s.client;
    index_limit = 5;
    expiry = expiry;
    chain_id = ascii "solana-devnet";
    identity_registry = programs.identity;
    signer_address = s.agent_owner;
    signature = s.sign_detached (auth_message expiry) s.agent_owner;
  }

  unfoldable pub ed25519_instruction : ℕ → Ed25519
  ed25519_instruction expiry = record {
    public_key = s.agent_owner;
    message = auth_message expiry;
    signature = (feedback_auth expiry).signature;
  }

  abbrev id_bytes : Bytes
  id_bytes = s.to_array agent.agent_id 8

  unfoldable pub feedback_request : ℕ → Request
  feedback_request expiry = record {
    program = programs.reputation;
    method = ascii "giveFeedback";
    arguments =
        number agent.agent_id
        ∷ number 85
        ∷ buffer empty_hash
        ∷ buffer empty_hash
        ∷ text (ascii "ipfs://feedback")
        ∷ buffer empty_hash
        ∷ number 0
        ∷ authorisation (feedback_auth expiry)
        ∷ [];
    accounts =
        (ascii "client", s.client)
        ∷ (ascii "payer", s.client)
        ∷ (ascii "agentMint", agent.agent_mint)
        ∷ (ascii "agentAccount", agent.agent_pda)
        ∷ (
          ascii "clientIndex",
          address s (ascii "client_index" ∷ id_bytes ∷ key_bytes s.client ∷ []) programs.reputation,
        )
        ∷ (
          ascii "feedbackAccount",
          address s (ascii "feedback" ∷ id_bytes ∷ key_bytes s.client ∷ s.to_array 0 8 ∷ [])
              programs.reputation,
        )
        ∷ (
          ascii "agentReputation",
          address s (ascii "agent_reputation" ∷ id_bytes ∷ []) programs.reputation,
        )
        ∷ (ascii "identityRegistryProgram", programs.identity)
        ∷ (ascii "instructionSysvar", programs.sysvar_instructions)
        ∷ (ascii "systemProgram", programs.system_program)
        ∷ [];
    pre_instructions = ed25519_instruction expiry ∷ [];
    signers = s.client ∷ [];
  }

  -- The authorisation expires an hour after the time at which the step starts.
  unfoldable pub give_feedback : Step s (Unit {0})
  give_feedback = do
    now ← call (λ net. (some (s.date_now net), net))
    tx_sig ← send network.rpc (feedback_request (now / 1000 + 3600))
    measure s (ascii "Give Feedback (with FeedbackAuth)") tx_sig 7 (some 300)
