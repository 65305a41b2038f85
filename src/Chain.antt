-- ===== src/Chain.antt =====
-- programs/agent-registry-8004/src/reputation/chain.rs: the leaves of responses and revocations,
-- and the rolling digest. Keccak-256 is the parameter `keccak`.
pub mod Separation
pub mod Binding
use solana.Prelude.{ℕ, List, [], ◌∷◌, ◌++◌, Bytes, ascii, le_bytes, replicate, Pubkey, key_bytes}

abbrev pub domain_feedback : Bytes
domain_feedback = ascii "8004_FEEDBACK_V1"

abbrev pub domain_response : Bytes
domain_response = ascii "8004_RESPONSE_V1"

abbrev pub domain_revoke : Bytes
domain_revoke = ascii "8004_REVOKE_V1"

abbrev pub domain_response_leaf_v1 : Bytes
domain_response_leaf_v1 = ascii "8004_RSP_LEAF_V1"

abbrev pub domain_revoke_leaf_v1 : Bytes
domain_revoke_leaf_v1 = ascii "8004_RVK_LEAF_V1"

-- The vector `data` of `compute_feedback_leaf`, the leaf with no domain.
unfoldable pub plain_leaf_data : Pubkey → Pubkey → ℕ → Bytes → ℕ → Bytes
plain_leaf_data asset client feedback_index feedback_hash slot =
    key_bytes asset
    ++ (key_bytes client ++ (le_bytes 8 feedback_index ++ (feedback_hash ++ le_bytes 8 slot)))

-- The vector `data` of `compute_response_leaf`.
unfoldable pub response_leaf_data : Pubkey → Pubkey → ℕ → Pubkey → Bytes → Bytes → ℕ → Bytes
response_leaf_data asset client feedback_index responder response_hash feedback_hash slot =
    domain_response_leaf_v1
    ++ (key_bytes asset
        ++ (key_bytes client
            ++ (le_bytes 8 feedback_index
                ++ (key_bytes responder ++ (response_hash ++ (feedback_hash ++ le_bytes 8 slot))))))

-- The vector `data` of `compute_revoke_leaf`.
unfoldable pub revoke_leaf_data : Pubkey → Pubkey → ℕ → Bytes → ℕ → Bytes
revoke_leaf_data asset client feedback_index feedback_hash slot =
    domain_revoke_leaf_v1
    ++ (key_bytes asset
        ++ (key_bytes client ++ (le_bytes 8 feedback_index ++ (feedback_hash ++ le_bytes 8 slot))))

-- The vector `data` of `chain_hash`.
unfoldable pub link_data : Bytes → Bytes → Bytes → Bytes
link_data prev_digest domain leaf = prev_digest ++ (domain ++ leaf)

-- `[0u8; 32]`, the digest of an empty chain.
abbrev pub zero_digest : Bytes
zero_digest = replicate 32 0

module _ (keccak : Bytes → Bytes) where
  unfoldable pub compute_feedback_leaf : Pubkey → Pubkey → ℕ → Bytes → ℕ → Bytes
  compute_feedback_leaf asset client feedback_index feedback_hash slot =
      keccak (plain_leaf_data asset client feedback_index feedback_hash slot)

  unfoldable pub compute_response_leaf : Pubkey → Pubkey → ℕ → Pubkey → Bytes → Bytes → ℕ → Bytes
  compute_response_leaf asset client feedback_index responder response_hash feedback_hash slot =
      keccak
        (response_leaf_data asset client feedback_index responder response_hash feedback_hash slot)

  unfoldable pub compute_revoke_leaf : Pubkey → Pubkey → ℕ → Bytes → ℕ → Bytes
  compute_revoke_leaf asset client feedback_index feedback_hash slot =
      keccak (revoke_leaf_data asset client feedback_index feedback_hash slot)

  unfoldable pub chain_hash : Bytes → Bytes → Bytes → Bytes
  chain_hash prev_digest domain leaf = keccak (link_data prev_digest domain leaf)

  -- The digest after a history of leaves, the latest first.
  unfoldable pub chain_digest : Bytes → Bytes → List Bytes → Bytes
  chain_digest domain start [] = start
  chain_digest domain start (leaf ∷ earlier) =
      chain_hash (chain_digest domain start earlier) domain leaf
