-- ===== src/Registry/Program/Completeness/Calls.antt =====
-- Instructions of programs/agent-registry-8004/src/lib.rs about the feedback of an agent without ATOM,
-- and the types of their arguments.
use solana.Prelude.{ℕ, ◌<◌, ◌^◌, ◌≡◌, none, some, Option, [], Bytes, Pubkey, length, replicate}
use solana.Prelude.Int.{pos, Fits}
use solana.Seal.{Content}
use solana.Registry.State.{AgentAccount}
use solana.Registry.History.{Entry, given, revoked, responded}
use solana.Registry.Reputation.{GiveFeedback, RevokeFeedback, AppendResponse}
use solana.Registry.Program.{Call}

-- A feedback with nothing in it.
abbrev pub no_content : Content
no_content = record {
  value = pos 0;
  value_decimals = 0;
  score = none;
  tag1 = [];
  tag2 = [];
  endpoint = [];
  feedback_uri = [];
  feedback_file_hash = none;
}

abbrev pub to_give : Pubkey → AgentAccount → Pubkey → GiveFeedback
to_give key agent client = record {
  client = client;
  agent_account = key;
  asset = agent.asset;
  collection = agent.collection;
  atom_config = none;
  atom_stats = none;
  atom_engine_program = none;
  registry_authority = none;
}

abbrev pub to_revoke : Pubkey → AgentAccount → Pubkey → RevokeFeedback
to_revoke key agent client = record {
  client = client;
  agent_account = key;
  asset = agent.asset;
  atom_config = none;
  atom_stats = none;
  atom_engine_program = none;
  registry_authority = none;
}

abbrev pub to_respond : Pubkey → AgentAccount → Pubkey → AppendResponse
to_respond key agent responder = record {
  responder = responder;
  agent_account = key;
  asset = agent.asset;
}

-- Any 32 bytes, for the hashes that the program stores unseen.
abbrev pub zeros : Bytes
zeros = replicate 32 0

-- The call for an entry about the agent of an asset.
abbrev pub call_for : Pubkey → AgentAccount → Entry → Call
call_for key agent (given index client) = Call.give_feedback (to_give key agent client) no_content
call_for key agent (revoked index client) =
    Call.revoke_feedback (to_revoke key agent client) index zeros
call_for key agent (responded index responder) =
    Call.append_response (to_respond key agent responder) responder index [] zeros zeros

-- A hash that may be missing, of 32 bytes.
abbrev pub IsHash : Option Bytes → Type 0
IsHash none = Unit {0}
IsHash (some hash) = length hash ≡ 32

-- A score that may be missing, of one byte.
abbrev pub IsByte : Option ℕ → Type 0
IsByte none = Unit {0}
IsByte (some score) = score < 2 ^ 8

-- The arguments of an instruction about feedback have their types in the source: `i128`, `u8`,
-- `Option<u8>`, `Option<[u8; 32]>`, `u64` and `[u8; 32]`; no other instruction is meant.
abbrev pub IsFeedbackCall : Call → Type 0
IsFeedbackCall (Call.give_feedback a c) =
    Fits (2 ^ 127) c.value
    × (c.value_decimals < 2 ^ 8)
    × IsByte c.score
    × IsHash c.feedback_file_hash
IsFeedbackCall (Call.revoke_feedback a index seal_hash) = (index < 2 ^ 64) × (length seal_hash ≡ 32)
IsFeedbackCall (Call.append_response a client index uri response_hash seal_hash) =
    (index < 2 ^ 64) × (length response_hash ≡ 32) × (length seal_hash ≡ 32)
IsFeedbackCall call = ⊥
