-- ===== src/Seal.antt =====
-- programs/agent-registry-8004/src/reputation/seal.rs: the canonical encoding of a feedback and
-- the hashes over it. Keccak-256 is the parameter `keccak`; strings are their UTF-8 bytes.
pub mod Encoding
use solana.Prelude.{
  ℕ, ◌+◌, ◌*◌, ◌<◌, ◌≤◌, ◌%◌, ◌^◌, ◌≡◌, Option, none, some, List, [], ◌∷◌, ◌++◌, Bytes, ascii,
  le_bytes, length, Pubkey, key_bytes,
}
use solana.Prelude.Int.{ℤ, twos, Fits}

abbrev pub domain_seal_v1 : Bytes
domain_seal_v1 = ascii "8004_SEAL_V1____"

abbrev pub domain_leaf_v1 : Bytes
domain_leaf_v1 = ascii "8004_LEAF_V1____"

-- The arguments of `compute_seal_hash`.
pub record Content : Type 0 where
  pub value : ℤ  -- i128
  pub value_decimals : ℕ  -- u8
  pub score : Option ℕ  -- Option<u8>
  pub tag1 : Bytes
  pub tag2 : Bytes
  pub endpoint : Bytes
  pub feedback_uri : Bytes
  pub feedback_file_hash : Option Bytes  -- Option<[u8; 32]>

-- Two bytes: a flag, and the score or a placeholder.
unfoldable pub encode_score : Option ℕ → Bytes
encode_score (some s) = 1 ∷ s ∷ []
encode_score none = 0 ∷ 0 ∷ []

-- The flag that is pushed at offset 35, and the hash behind it.
unfoldable pub encode_file_hash : Option Bytes → Bytes
encode_file_hash (some h) = 1 ∷ h
encode_file_hash none = 0 ∷ []

-- One turn of the loop over the strings: `bytes.len() as u16`, then the bytes.
unfoldable pub encode_string : Bytes → Bytes
encode_string s = le_bytes 2 (length s % 2 ^ 16) ++ s

-- The vector `data` of `compute_seal_hash`.
unfoldable pub seal_data : Content → Bytes
seal_data c =
    domain_seal_v1
    ++ (le_bytes 16 (twos (2 ^ 128) c.value)
        ++ ((c.value_decimals ∷ [])
            ++ (encode_score c.score
                ++ (encode_file_hash c.feedback_file_hash
                    ++ (encode_string c.tag1
                        ++ (encode_string c.tag2
                            ++ (encode_string c.endpoint ++ encode_string c.feedback_uri)))))))

-- The vector `data` of `compute_feedback_leaf_v1`.
unfoldable pub feedback_leaf_data : Pubkey → Pubkey → ℕ → Bytes → ℕ → Bytes
feedback_leaf_data asset client feedback_index seal_hash slot =
    domain_leaf_v1
    ++ (key_bytes asset
        ++ (key_bytes client ++ (le_bytes 8 feedback_index ++ (seal_hash ++ le_bytes 8 slot))))

module _ (keccak : Bytes → Bytes) where
  unfoldable pub compute_seal_hash : Content → Bytes
  compute_seal_hash c = keccak (seal_data c)

  unfoldable pub compute_feedback_leaf_v1 : Pubkey → Pubkey → ℕ → Bytes → ℕ → Bytes
  compute_feedback_leaf_v1 asset client feedback_index seal_hash slot =
      keccak (feedback_leaf_data asset client feedback_index seal_hash slot)

-- The values that the types of the source admit, with strings that a 16-bit length can count.
pub record IsContent (c : Content) : Type 0 where
  pub value_fits : Fits (2 ^ 127) c.value
  pub file_hash_length : (h : Bytes) → c.feedback_file_hash ≡ some h → length h ≡ 32
  pub tag1_length : length c.tag1 < 2 ^ 16
  pub tag2_length : length c.tag2 < 2 ^ 16
  pub endpoint_length : length c.endpoint < 2 ^ 16
  pub feedback_uri_length : length c.feedback_uri < 2 ^ 16
