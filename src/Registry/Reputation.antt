-- ===== src/Registry/Reputation.antt =====
-- programs/agent-registry-8004/src/reputation/instructions.rs and reputation/contexts.rs: feedback,
-- its revocation and the responses to it.
pub mod Handlers
pub mod Effects
use solana.Prelude.{
  ℕ, ◌+◌, ◌≡◌, Bool, true, false, not, ◌&&◌, Option, none, some, List, [], ◌∷◌, Bytes, ascii,
  length, Pubkey, key_bytes, ◌==◌, ltb, leb, if◌then◌else◌,
}
use solana.Seal.{Content, compute_seal_hash, compute_feedback_leaf_v1}
use solana.Chain.{
  domain_feedback, domain_response, domain_revoke, compute_response_leaf, compute_revoke_leaf,
  chain_hash,
}
use solana.Registry.Error.{
  Result, ok, err, require, constraint, ok_or, ◌>>=◌, ◌>>◌, RegistryError, registry, overflow,
  invalid_collection, invalid_score, invalid_decimals, tag_too_long, uri_too_long,
  endpoint_too_long, response_uri_too_long, invalid_feedback_index, self_feedback_not_allowed,
  invalid_program, atom_stats_not_initialized, invalid_atom_stats_account, constraint_seeds,
  cpi_failed,
}
use solana.Registry.State.{
  AgentAccount, NewFeedback, FeedbackRevoked, ResponseAppended, Event, new_feedback,
  feedback_revoked, response_appended, UpdateResult, RevokeResult, max_tag_length, max_uri_length,
  max_endpoint_length, max_value_decimals,
}
use solana.Registry.Runtime.{Runtime, Tx, UpdateStats, RevokeStats}
use solana.Registry.World.{
  World, checked_suc_u64, put_agent, get_core_owner, signer, load, seeds_canonical, check_agent,
}

-- The accounts of `GiveFeedback`, by address.
pub record GiveFeedback : Type 0 where
  pub client : Pubkey
  pub agent_account : Pubkey
  pub asset : Pubkey
  pub collection : Pubkey
  pub atom_config : Option Pubkey
  pub atom_stats : Option Pubkey
  pub atom_engine_program : Option Pubkey
  pub registry_authority : Option Pubkey

-- The accounts of `RevokeFeedback`.
pub record RevokeFeedback : Type 0 where
  pub client : Pubkey
  pub agent_account : Pubkey
  pub asset : Pubkey
  pub atom_config : Option Pubkey
  pub atom_stats : Option Pubkey
  pub atom_engine_program : Option Pubkey
  pub registry_authority : Option Pubkey

-- The accounts of `AppendResponse`.
pub record AppendResponse : Type 0 where
  pub responder : Pubkey
  pub agent_account : Pubkey
  pub asset : Pubkey

-- `if let Some(s) = score { require!(s <= 100) }`
unfoldable pub check_score : Option ℕ → Result (Unit {0})
check_score none = ok tt
check_score (some s) = require (leb s 100) invalid_score

-- The limits on the arguments of `give_feedback`, in the order of the source.
unfoldable pub check_content : Content → Result (Unit {0})
check_content c = do
  require (leb c.value_decimals max_value_decimals) invalid_decimals
  check_score c.score
  require (leb (length c.tag1) max_tag_length) tag_too_long
  require (leb (length c.tag2) max_tag_length) tag_too_long
  require (leb (length c.feedback_uri) max_uri_length) uri_too_long
  require (leb (length c.endpoint) max_endpoint_length) endpoint_too_long

-- `UpdateResult` where the ATOM engine is not called
abbrev pub no_update : UpdateResult
no_update = record {
  trust_tier = 0;
  quality_score = 0;
  confidence = 0;
  risk_score = 0;
  diversity_ratio = 0;
  hll_changed = false;
}

-- `RevokeResult` where the ATOM engine is not called
abbrev pub no_revoke : RevokeResult
no_revoke = record {
  original_score = 0;
  had_impact = false;
  new_trust_tier = 0;
  new_quality_score = 0;
  new_confidence = 0;
}

-- `score.filter(|_| is_atom_initialized)`
unfoldable pub filter_score : Bool → Option ℕ → Option ℕ
filter_score true score = score
filter_score false score = none

abbrev atom_stats_seeds : Pubkey → List Bytes
atom_stats_seeds asset = ascii "atom_stats" ∷ key_bytes asset ∷ []

module _ (rt : Runtime) where
  -- The constraint on the optional registry authority.
  unfoldable pub check_authority : Option Pubkey → Result (Unit {0})
  check_authority none = ok tt
  check_authority (some key) = do
    _ ← seeds_canonical rt (ascii "atom_cpi_authority" ∷ []) key
    ok tt

  -- Whether the ATOM statistics take part, as `give_feedback` and `revoke_feedback` find out.
  unfoldable pub atom_initialized : rt.Ext → Bool → Pubkey → Option Pubkey → Result Bool
  atom_initialized ext false asset stats = ok false
  atom_initialized ext true asset none = ok false
  atom_initialized ext true asset (some stats) = do
    require (stats == (rt.find_program_address (atom_stats_seeds asset) rt.atom_engine_id).0)
        invalid_atom_stats_account
    ok (ltb 0 (rt.data_len ext stats) && rt.account_program ext stats == rt.atom_engine_id)

  -- The call of `update_stats`, for the score that passed the filter.
  unfoldable pub update_atom : rt.Ext → GiveFeedback → Option ℕ → Result (rt.Ext × UpdateResult)
  update_atom ext a none = ok (ext, no_update)
  update_atom ext a (some s) = do
    config ← ok_or a.atom_config (registry invalid_program)
    engine ← ok_or a.atom_engine_program (registry invalid_program)
    authority ← ok_or a.registry_authority (registry invalid_program)
    stats ← ok_or a.atom_stats (registry atom_stats_not_initialized)
    require (engine == rt.atom_engine_id) invalid_program
    ok_or
        (rt.update_stats
          (record {
            payer = a.client;
            asset = a.asset;
            collection = a.collection;
            config = config;
            stats = stats;
            registry_authority = authority;
          })
          (rt.keccak (key_bytes a.client)) s ext)
        cpi_failed

  -- The call of `revoke_stats`.
  unfoldable pub revoke_atom : rt.Ext → RevokeFeedback → Bool → Result (rt.Ext × RevokeResult)
  revoke_atom ext a false = ok (ext, no_revoke)
  revoke_atom ext a true = do
    config ← ok_or a.atom_config (registry invalid_program)
    engine ← ok_or a.atom_engine_program (registry invalid_program)
    authority ← ok_or a.registry_authority (registry invalid_program)
    stats ← ok_or a.atom_stats (registry atom_stats_not_initialized)
    require (engine == rt.atom_engine_id) invalid_program
    ok_or
        (rt.revoke_stats
          (record {
            payer = a.client;
            asset = a.asset;
            config = config;
            stats = stats;
            registry_authority = authority;
          })
          a.client ext)
        cpi_failed
