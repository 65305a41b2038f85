-- ===== src/Registry/State.antt =====
-- The accounts that the registry owns, and the events that it emits:
-- programs/agent-registry-8004/src/identity/state.rs, identity/events.rs, reputation/state.rs and
-- reputation/events.rs. Strings and byte vectors are lists of bytes, `len()` their length.
use solana.Prelude.{ℕ, Bool, Option, Bytes, Pubkey}
use solana.Prelude.Int.{ℤ}

pub record RootConfig : Type 0 where
  pub base_collection : Pubkey
  pub authority : Pubkey
  pub bump : ℕ

pub record RegistryConfig : Type 0 where
  pub collection : Pubkey
  pub authority : Pubkey
  pub bump : ℕ

pub record AgentAccount : Type 0 where
  pub collection : Pubkey
  pub creator : Pubkey
  pub owner : Pubkey
  pub asset : Pubkey
  pub bump : ℕ
  pub atom_enabled : Bool
  pub agent_wallet : Option Pubkey
  pub feedback_digest : Bytes
  pub feedback_count : ℕ  -- u64
  pub response_digest : Bytes
  pub response_count : ℕ  -- u64
  pub revoke_digest : Bytes
  pub revoke_count : ℕ  -- u64
  pub parent_asset : Option Pubkey
  pub parent_locked : Bool
  pub col_locked : Bool
  pub agent_uri : Bytes
  pub nft_name : Bytes
  pub col : Bytes

pub record MetadataEntryPda : Type 0 where
  pub asset : Pubkey
  pub immutable : Bool
  pub bump : ℕ
  pub metadata_key : Bytes
  pub metadata_value : Bytes

abbrev pub max_uri_length : ℕ
max_uri_length = 250

abbrev pub max_col_length : ℕ
max_col_length = 128

abbrev pub max_key_length : ℕ
max_key_length = 32

abbrev pub max_value_length : ℕ
max_value_length = 250

abbrev pub max_tag_length : ℕ
max_tag_length = 32

abbrev pub max_endpoint_length : ℕ
max_endpoint_length = 250

abbrev pub max_value_decimals : ℕ
max_value_decimals = 18

-- `NewFeedback`, its fields in the order of the source.
pub record NewFeedback : Type 0 where
  pub asset : Pubkey
  pub client_address : Pubkey
  pub feedback_index : ℕ
  pub slot : ℕ
  pub value : ℤ
  pub value_decimals : ℕ
  pub score : Option ℕ
  pub feedback_file_hash : Option Bytes
  pub seal_hash : Bytes
  pub atom_enabled : Bool
  pub new_trust_tier : ℕ
  pub new_quality_score : ℕ
  pub new_confidence : ℕ
  pub new_risk_score : ℕ
  pub new_diversity_ratio : ℕ
  pub is_unique_client : Bool
  pub new_feedback_digest : Bytes
  pub new_feedback_count : ℕ
  pub tag1 : Bytes
  pub tag2 : Bytes
  pub endpoint : Bytes
  pub feedback_uri : Bytes

pub record FeedbackRevoked : Type 0 where
  pub asset : Pubkey
  pub client_address : Pubkey
  pub feedback_index : ℕ
  pub seal_hash : Bytes
  pub slot : ℕ
  pub original_score : ℕ
  pub atom_enabled : Bool
  pub had_impact : Bool
  pub new_trust_tier : ℕ
  pub new_quality_score : ℕ
  pub new_confidence : ℕ
  pub new_revoke_digest : Bytes
  pub new_revoke_count : ℕ

pub record ResponseAppended : Type 0 where
  pub asset : Pubkey
  pub client : Pubkey
  pub feedback_index : ℕ
  pub slot : ℕ
  pub responder : Pubkey
  pub response_hash : Bytes
  pub seal_hash : Bytes
  pub new_response_digest : Bytes
  pub new_response_count : ℕ
  pub response_uri : Bytes

-- One constructor for each `#[event]`; the identity events carry their fields in order.
pub data Event : Type 0 where
  new_feedback : NewFeedback → Event
  feedback_revoked : FeedbackRevoked → Event
  response_appended : ResponseAppended → Event
  -- asset, immutable, key, value
  metadata_set : Pubkey → Bool → Bytes → Bytes → Event
  -- asset, key
  metadata_deleted : Pubkey → Bytes → Event
  -- asset, updated_by, new_uri
  uri_updated : Pubkey → Pubkey → Bytes → Event
  -- asset, old_owner, new_owner
  agent_owner_synced : Pubkey → Pubkey → Pubkey → Event
  -- asset, old_wallet, new_wallet, updated_by
  wallet_updated : Pubkey → Option Pubkey → Pubkey → Pubkey → Event
  -- asset, old_wallet, new_wallet, owner_after_sync
  wallet_reset_on_owner_sync : Pubkey → Option Pubkey → Pubkey → Pubkey → Event
  -- asset, set_by, col
  collection_pointer_set : Pubkey → Pubkey → Bytes → Event
  -- asset, parent_asset, parent_creator, set_by
  parent_asset_set : Pubkey → Pubkey → Pubkey → Pubkey → Event
  -- collection, authority
  registry_initialized : Pubkey → Pubkey → Event
  -- asset, collection, owner, atom_enabled, agent_uri
  agent_registered : Pubkey → Pubkey → Pubkey → Bool → Bytes → Event
  -- asset, enabled_by
  atom_enabled : Pubkey → Pubkey → Event

-- What the ATOM engine returns from `update_stats`.
pub record UpdateResult : Type 0 where
  pub trust_tier : ℕ
  pub quality_score : ℕ
  pub confidence : ℕ
  pub risk_score : ℕ
  pub diversity_ratio : ℕ
  pub hll_changed : Bool

-- What the ATOM engine returns from `revoke_stats`.
pub record RevokeResult : Type 0 where
  pub original_score : ℕ
  pub had_impact : Bool
  pub new_trust_tier : ℕ
  pub new_quality_score : ℕ
  pub new_confidence : ℕ
